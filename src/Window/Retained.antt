-- ===== src/Window/Retained.antt =====
-- What `oldest_retained` of src/spmc.rs computes.
use ringfire.Prelude.{ℕ, ◌+◌, ◌^◌, ◌≤◌, ◌<◌, ◌↔◌, arith}
use ringfire.Window.{oldest_retained}

-- A sequence from 1 on is at or after `oldest_retained` exactly when the writer, at `write_seq`, has
-- not yet reached the message that takes its slot, one capacity later.
pub oldest_retained_iff :
    (write_seq capacity seq : ℕ)
    → 0 < capacity
    → write_seq < 2 ^ 64
    → (oldest_retained write_seq capacity ≤ seq) ↔ ((0 < seq) × (write_seq < seq + capacity))
unfolding oldest_retained
oldest_retained_iff write_seq capacity seq pos lt = (λ h. ground arith, λ h. ground arith)

pub oldest_retained-le :
    (write_seq capacity : ℕ)
    → 0 < capacity
    → write_seq < 2 ^ 64
    → (0 < oldest_retained write_seq capacity)
      × (oldest_retained write_seq capacity ≤ write_seq + 1)
unfolding oldest_retained
oldest_retained-le write_seq capacity pos lt = ground arith

pub oldest_retained_mono :
    (write_seq later capacity : ℕ)
    → 0 < capacity
    → write_seq ≤ later
    → later < 2 ^ 64
    → oldest_retained write_seq capacity ≤ oldest_retained later capacity
unfolding oldest_retained
oldest_retained_mono write_seq later capacity pos le lt = ground arith

pub oldest_retained-u64 : (w c : ℕ) → oldest_retained w c < 2 ^ 64
unfolding oldest_retained
oldest_retained-u64 w c = ground arith
