-- ===== src/Consumer/Positions.antt =====
-- Where the positioning operations of src/spmc.rs leave a consumer: `seek`, `jump_to_oldest`,
-- `jump_to_latest`, and the skip past what is overwritten.
use ringfire.Prelude.{ℕ, ◌+◌, ◌-◌, ◌%◌, ◌^◌, ◌<◌, max, ◌≡◌, ◌⊎◌, none, some, arith}
use ringfire.Window.{oldest_retained}
use ringfire.Window.Retained.{oldest_retained-u64}
use ringfire.Consumer.{
  World, RingConsumer, update_cursor, move_to, skip_overwritten, seek, jump_to_oldest,
  jump_to_latest,
}

-- The cursor that a registry slot shows, if the consumer is registered, is its own.
abbrev pub Shows : RingConsumer → Type 0
Shows c = c.registration ≡ none ⊎ (c.registration ≡ some c.cursor)

-- The consumer `d` stands at `target`; `skipped` messages are counted since `c`.
pub record StandsAt (c : RingConsumer) (target skipped : ℕ) (d : RingConsumer) : Type 0 where
  pub cursor : d.cursor ≡ target
  pub lapped_total : d.lapped_total ≡ (c.lapped_total + skipped) % 2 ^ 64
  pub capacity : d.capacity ≡ c.capacity
  pub shows : Shows d

module _ {T : Type 0} (w : World T) (c : RingConsumer) where
  -- Not before the oldest message that was retained when `write_seq` was loaded.
  pub skip_overwritten-StandsAt :
      (seen : ℕ)
      → Shows c
      → c.cursor < 2 ^ 64
      → c.lapped_total < 2 ^ 64
      → let oldest = oldest_retained (max (w c.now).write_seq seen) c.capacity in
        ((skip_overwritten w c seen).0 ≡ oldest - c.cursor)
        × StandsAt c (max c.cursor oldest) (oldest - c.cursor) (skip_overwritten w c seen).1
  unfolding skip_overwritten move_to update_cursor
  skip_overwritten-StandsAt seen shows lt lt' =
      let u = oldest_retained-u64 (max (w c.now).write_seq seen) c.capacity in
      (ground arith, ground arith)

  abbrev pub Positioned : ℕ → ℕ → ℕ × RingConsumer → Type 0
  Positioned target skipped (s, d) = (s ≡ skipped) × StandsAt c target skipped d

  -- `seek` goes to the sequence asked for, at least 1, or to the oldest retained one if that is gone;
  -- `jump_to_oldest` and `jump_to_latest` only go forward, to the oldest retained and to the newest
  -- message. Each returns the number of messages that it passed over and adds it to the lapped total, and
  -- the registry, if it shows the consumer, shows the new cursor. The counters are those of `u64`.
  pub seek-Positioned :
      (target : ℕ)
      → Shows c
      → c.cursor < 2 ^ 64
      → c.lapped_total < 2 ^ 64
      → target < 2 ^ 64
      → (w c.now).write_seq < 2 ^ 64
      → let ws = (w c.now).write_seq in
        let oldest = oldest_retained ws c.capacity in
        Positioned (max (max target 1) oldest) (oldest - max target 1) (seek w c target)
        × Positioned (max c.cursor oldest) (oldest - c.cursor) (jump_to_oldest w c)
        × Positioned (max c.cursor ws) (ws - c.cursor) (jump_to_latest w c)
  unfolding seek jump_to_oldest jump_to_latest move_to update_cursor
  seek-Positioned target shows lt lt' lt'' small =
      let u = oldest_retained-u64 (w c.now).write_seq c.capacity in
      ((ground arith, ground arith), (ground arith, ground arith), (ground arith, ground arith))
