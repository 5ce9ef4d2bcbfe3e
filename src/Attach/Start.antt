-- ===== src/Attach/Start.antt =====
-- Where a consumer of src/spmc.rs starts, and that its registration protects it from there on.
use ringfire.Prelude.{
  ℕ, ◌+◌, ◌-◌, ◌^◌, ◌≤◌, ◌<◌, max, ◌≡◌, refl, sym, Option, none, some, arith, List, inr, subst,
}
use Prim.Native.String.{String}
use ringfire.Errors.{ok, went_on}
use ringfire.Header.{RingHeader, RingView, validate_ring, check_schema}
use ringfire.Registry.{ReaderSlot}
use ringfire.Window.{oldest_retained}
use ringfire.Window.Retained.{oldest_retained-u64, oldest_retained-le, oldest_retained_iff}
use ringfire.Checkpoint.{ShmOffsetSlot}
use ringfire.Consumer.{World, RingConsumer, skip_overwritten}
use ringfire.Consumer.Positions.{Shows, skip_overwritten-StandsAt}
use ringfire.Attach.{
  ConsumerStartMode, latest, head, oldest, sequence, resolve, position, saved_of, recheck, attached,
  attach_with_options,
}

-- The sequence that is asked for.
abbrev pub asked_for : Option ℕ → ConsumerStartMode → (current_write oldest_seq : ℕ) → ℕ
asked_for (some saved) mode ws old = saved + 1
asked_for none latest ws old = max ws 1
asked_for none head ws old = ws + 1
asked_for none oldest ws old = old
asked_for none (sequence seq) ws old = max seq 1

-- The numbers that the mode and the checkpoint hold are below the largest of `u64`.
abbrev pub Small : Option ℕ → ConsumerStartMode → Type 0
Small (some saved) mode = saved + 1 < 2 ^ 64
Small none latest = Unit
Small none head = Unit
Small none oldest = Unit
Small none (sequence seq) = seq < 2 ^ 64

-- A consumer starts at the sequence that its checkpoint or its start mode asks for, or at the oldest
-- retained message if that is gone, and the messages in between are counted as lapped. Sequences are
-- below the wrap and the capacity is not zero.
pub position-asked_for :
    (saved : Option ℕ) (mode : ConsumerStartMode) (ws capacity : ℕ)
    → 0 < capacity
    → ws + 1 < 2 ^ 64
    → Small saved mode
    → let old = oldest_retained ws capacity in
      let asked = asked_for saved mode ws old in
      ((position saved mode ws old).0 ≡ max asked old)
      × ((position saved mode ws old).1 ≡ old - asked)
unfolding position resolve
position-asked_for (some saved) mode ws capacity pos lt small =
    let u = oldest_retained-u64 ws capacity in (ground arith, ground arith)
position-asked_for none latest ws capacity pos lt small =
    let u =
      (oldest_retained_iff ws capacity (max ws 1) pos (omega arith)).1 (omega arith, omega arith) in
    (omega arith, omega arith)
position-asked_for none head ws capacity pos lt small =
    let u = oldest_retained-le ws capacity pos (omega arith) in (omega arith, omega arith)
position-asked_for none oldest ws capacity pos lt small = (omega arith, omega arith)
position-asked_for none (sequence seq) ws capacity pos lt small =
    let u = oldest_retained-u64 ws capacity in (ground arith, ground arith)

position-u64 :
    (saved : Option ℕ) (mode : ConsumerStartMode) (ws old : ℕ)
    → ws + 1 < 2 ^ 64
    → old < 2 ^ 64
    → Small saved mode
    → ((position saved mode ws old).0 < 2 ^ 64) × ((position saved mode ws old).1 < 2 ^ 64)
unfolding position resolve
position-u64 (some saved) mode ws old lt u small = (ground arith, ground arith)
position-u64 none latest ws old lt u small = (omega arith, omega arith)
position-u64 none head ws old lt u small = (omega arith, omega arith)
position-u64 none oldest ws old lt u small = (omega arith, omega arith)
position-u64 none (sequence seq) ws old lt u small = (ground arith, ground arith)

ok-injective : {A : Type 0} {x y : A} → ok x ≡ ok y → x ≡ y
ok-injective e = cc

module _ {T : Type 0} (w : World T) where
  -- A registered consumer at `cursor`, before and after the re-check.
  recheck-protects :
      (c : RingConsumer)
      → c.registration ≡ some c.cursor
      → c.cursor < 2 ^ 64
      → c.lapped_total < 2 ^ 64
      → (oldest_retained (w c.now).write_seq c.capacity ≤ (recheck w c).cursor)
        × Shows (recheck w c)
        × ((recheck w c).capacity ≡ c.capacity)
  recheck-protects c e lt lt' =
      let same : (recheck w c) ≡ (skip_overwritten w c 0).1 = rw e refl in
      let (_, s) = skip_overwritten-StandsAt w c 0 (inr e) lt lt' in
      let newest : max (w c.now).write_seq 0 ≡ (w c.now).write_seq = omega arith in
      let low : oldest_retained (w c.now).write_seq c.capacity ≤ (skip_overwritten w c 0).1.cursor =
        subst (λ n. oldest_retained n c.capacity ≤ (skip_overwritten w c 0).1.cursor) newest
          (omega (arith, s.cursor)) in
      subst
        (λ d.
          (oldest_retained (w c.now).write_seq c.capacity ≤ d.cursor)
          × Shows d
          × (d.capacity ≡ c.capacity))
        (sym same) (low, s.shows, s.capacity)

  attached-protects :
      (h : RingHeader) (view : RingView) (cp : Option ShmOffsetSlot) (mode : ConsumerStartMode)
      (now : ℕ) (d : RingConsumer)
      → (w now).write_seq + 1 < 2 ^ 64
      → Small (saved_of cp) mode
      → (let start =
            position
              (saved_of cp)
              mode
              (w now).write_seq
              (oldest_retained (w now).write_seq view.capacity) in
          recheck w (attached h view start (some start.0) (now + 1)))
        ≡ d
      → (oldest_retained (w (now + 1)).write_seq d.capacity ≤ d.cursor) × Shows d
  attached-protects h view cp mode now d lt small e =
      let start =
        position (saved_of cp) mode (w now).write_seq
          (oldest_retained (w now).write_seq view.capacity) in
      let c = attached h view start (some start.0) (now + 1) in
      let u = oldest_retained-u64 (w now).write_seq view.capacity in
      let (lt0, lt1) =
        position-u64 (saved_of cp) mode (w now).write_seq
          (oldest_retained (w now).write_seq view.capacity) lt u small in
      let (low, shows, cap) = recheck-protects c refl lt0 lt1 in
      let low' : oldest_retained (w (now + 1)).write_seq (recheck w c).capacity
          ≤ (recheck w c).cursor =
        subst (λ n. oldest_retained (w (now + 1)).write_seq n ≤ (recheck w c).cursor) (sym cap)
          low in
      subst (λ x. (oldest_retained (w (now + 1)).write_seq x.capacity ≤ x.cursor) × Shows x) e
        (low', shows)

  -- When `attach_with_options` registers the reader, the consumer that it returns does not stand before
  -- the oldest message retained at the re-check, which is after the registration, and the registry, if
  -- it shows the reader, shows its cursor. The numbers of the checkpoint and the
  -- start mode are below the largest of `u64`, as is `write_seq`.
  pub attach_with_options-protects :
      (h : RingHeader) (len slot_size slot_align schema : ℕ) (type_name : String)
      (cp : Option ShmOffsetSlot) (mode : ConsumerStartMode) (slot : ℕ × List ReaderSlot) (now : ℕ)
      (d : RingConsumer)
      → (w now).write_seq + 1 < 2 ^ 64
      → Small (saved_of cp) mode
      → attach_with_options w h len slot_size slot_align schema type_name cp mode
          (some (ok slot))
          now
        ≡ ok d
      → (oldest_retained (w (now + 1)).write_seq d.capacity ≤ d.cursor) × Shows d
  unfolding attach_with_options
  attach_with_options-protects h len slot_size slot_align schema type_name cp mode slot now d lt
        small e =
      let (view, e') = went_on (validate_ring h len (some slot_size) slot_align) _ e in
      let (_, e'') = went_on (check_schema h schema type_name) _ e' in
      attached-protects h view cp mode now d lt small (ok-injective e'')
