-- ===== src/Attach.antt =====
-- `attach_with_options` of src/spmc.rs without its files: where a consumer starts, and its registration.
-- `checkpoint` is the offset slot that was opened, if one was asked for; `registered` is what `register`
-- returned, if the header has a registry. The first access to memory is at moment `now`.
pub mod Start
pub mod Resume
mod Examples
use Prim.Native.String.{String}
use ringfire.Prelude.{
  ℕ, ◌+◌, ◌-◌, max, Bool, true, false, not, ◌&&◌, Option, none, some, List, ◌==◌, ◌!=◌, ltb,
  if◌then◌else◌, add_u64, sub_u64, bit_and,
}
use ringfire.Errors.{Result, ok, err, ◌>>=◌, ◌>>◌}
use ringfire.Constants.{flag_policy_lossless_backpressure, flag_mode_mpmc, flag_sparse}
use ringfire.Header.{RingHeader, RingView, validate_ring, check_schema}
use ringfire.Registry.{ReaderSlot}
use ringfire.Window.{oldest_retained}
use ringfire.Consumer.{Snapshot, World, RingConsumer, skip_overwritten}
use ringfire.Checkpoint.{ShmOffsetSlot, load}

pub data ConsumerStartMode : Type 0 where
  latest head oldest : ConsumerStartMode
  sequence : ℕ → ConsumerStartMode

-- `(oldest, oldest - seq)` for a sequence that is gone.
abbrev pub clamp : (seq oldest : ℕ) → ℕ × ℕ
clamp seq oldest_seq = if ltb seq oldest_seq then (oldest_seq, sub_u64 oldest_seq seq) else (seq, 0)

pub resolve : ConsumerStartMode → (current_write oldest_seq : ℕ) → ℕ × ℕ
resolve latest current_write oldest_seq = (max current_write 1, 0)
resolve head current_write oldest_seq = (add_u64 current_write 1, 0)
resolve oldest current_write oldest_seq = (oldest_seq, 0)
resolve (sequence seq) current_write oldest_seq = clamp (max seq 1) oldest_seq

-- The cursor and the lapped total, from what the checkpoint has saved.
pub position : Option ℕ → ConsumerStartMode → (current_write oldest_seq : ℕ) → ℕ × ℕ
position (some saved_seq) mode current_write oldest_seq = clamp (add_u64 saved_seq 1) oldest_seq
position none mode current_write oldest_seq = resolve mode current_write oldest_seq

abbrev pub saved_of : Option ShmOffsetSlot → Option ℕ
saved_of none = none
saved_of (some cp) = load cp

-- The registration that results; its slot holds `cursor`.
abbrev pub registration_of :
    Option (Result (ℕ × List ReaderSlot)) → (lossless : Bool) (cursor : ℕ) → Result (Option ℕ)
registration_of none lossless cursor = ok none
registration_of (some (ok _)) lossless cursor = ok (some cursor)
registration_of (some (err e)) true cursor = err e
registration_of (some (err e)) false cursor = ok none

-- The consumer before the re-check, at `(cursor, lapped)`.
abbrev pub attached :
    RingHeader → RingView → ℕ × ℕ → (registration : Option ℕ) → (now : ℕ) → RingConsumer
attached h view (cursor, lapped) registration now = record {
  capacity = view.capacity;
  mask = view.mask;
  cursor = cursor;
  lapped_total = lapped;
  multi_producer = bit_and h.flags flag_mode_mpmc != 0;
  sparse = bit_and h.flags flag_sparse != 0;
  empty_polls = 0;
  registration = registration;
  now = now;
}

module _ {T : Type 0} (w : World T) where
  -- The re-check once the reader is registered.
  abbrev pub recheck : RingConsumer → RingConsumer
  recheck c = elim c.registration [ none ↦ c | some _ ↦ (skip_overwritten w c 0).1 ]

  pub attach_with_options :
      RingHeader
      → (len slot_size slot_align schema : ℕ) (type_name : String) → Option ShmOffsetSlot
      → ConsumerStartMode
      → Option (Result (ℕ × List ReaderSlot))
      → (now : ℕ) → Result RingConsumer
  attach_with_options h len slot_size slot_align schema type_name checkpoint mode registered now =
      do
        view ← validate_ring h len (some slot_size) slot_align
        check_schema h schema type_name
        let current_write = (w now).write_seq
        let start =
            position (saved_of checkpoint) mode current_write
              (oldest_retained current_write view.capacity)
        registration ←
            registration_of registered (bit_and h.flags flag_policy_lossless_backpressure != 0)
              start.0
        ok (recheck (attached h view start registration (now + 1)))
