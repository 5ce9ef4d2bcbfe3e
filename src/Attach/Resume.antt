-- ===== src/Attach/Resume.antt =====
-- `commit_offset` and a later `attach` of src/spmc.rs: the consumer goes on where it stopped.
use ringfire.Prelude.{ℕ, ◌-◌, ◌^◌, ◌<◌, max, ◌≡◌, refl, some, arith, List}
use ringfire.Errors.{ok}
use ringfire.Window.{oldest_retained}
use ringfire.Window.Retained.{oldest_retained-u64}
use ringfire.Consumer.{RingConsumer, last_processed_sequence}
use ringfire.Checkpoint.{
  ShmOffsetSlot, shm_offset_magic, shm_offset_version, open_or_create, load, save, commit_offset,
}
use ringfire.Attach.{ConsumerStartMode, position, saved_of}

-- An offset slot of this program.
abbrev pub IsOffsetSlot : ShmOffsetSlot → Type 0
IsOffsetSlot cp = (cp.magic ≡ shm_offset_magic) × (cp.version ≡ shm_offset_version)

-- A consumer past message 1 commits its offset, and a consumer of any process opens the same offset slot
-- and attaches, whatever its start mode: both succeed, the name is kept, and the new consumer starts at the
-- message that the first would have read next, or at the oldest retained one if that is gone, with the
-- messages in between counted as lapped.
pub commit_offset-position :
    (c : RingConsumer) (cp : ShmOffsetSlot) (saved_at opened_at pid : ℕ) (name : List ℕ)
    (mode : ConsumerStartMode) (ws capacity : ℕ)
    → IsOffsetSlot cp
    → 1 < c.cursor
    → c.cursor < 2 ^ 64
    → (cp' : ShmOffsetSlot) × (c' : RingConsumer) × (cp'' : ShmOffsetSlot) × (commit_offset c
          (some cp)
          saved_at
        ≡ ok (cp', c'))
      × (open_or_create (some cp') pid opened_at name ≡ ok cp'')
      × (cp''.name ≡ cp.name)
      × (let old = oldest_retained ws capacity in
          position (saved_of (some cp'')) mode ws old ≡ (max c.cursor old, old - c.cursor))
unfolding commit_offset open_or_create load save position last_processed_sequence
commit_offset-position c cp saved_at opened_at pid name mode ws capacity (m, v) lt lt' =
    let u = oldest_retained-u64 ws capacity in
    (
      save cp (last_processed_sequence c) saved_at,
      _,
      record (save cp (last_processed_sequence c) saved_at) { pid = pid },
      refl,
      ground (arith, m, v),
      refl,
      ground arith,
    )
