-- ===== src/Consumer/Account.antt =====
-- The accounts of src/spmc.rs `next_item`: however memory changes, every sequence that the cursor
-- passes is delivered or counted as lapped.
use ringfire.Prelude.{
  ℕ, zero, suc, ◌+◌, ◌-◌, ◌%◌, ◌^◌, ◌<◌, max, ◌≡◌, refl, Option, none, some, arith, add_u64,
  add_u32,
}
use ringfire.Slot.{SlotRead, item, pending, overwritten}
use ringfire.Window.{oldest_retained}
use ringfire.Window.Retained.{oldest_retained-u64}
use ringfire.Consumer.{
  World, RingConsumer, tick, after_read, update_cursor, move_to, skip_overwritten, scan_present,
  skip_hole, read_at, Turn, returns, again, poll_sparse, turn_pending, turn_on, turn, settle,
  next_item_from,
}

-- The `u64` fields of a consumer.
pub record IsTyped (c : RingConsumer) : Type 0 where
  pub cursor_u64 : c.cursor < 2 ^ 64
  pub lapped_u64 : c.lapped_total < 2 ^ 64

-- From `c` to `d` the cursor passed `lost` messages that were counted as lapped and `taken` that were
-- delivered; the consumer's constants are the same.
pub record Passed (c : RingConsumer) (lost taken : ℕ) (d : RingConsumer) : Type 0 where
  pub cursor : d.cursor ≡ (c.cursor + lost + taken) % 2 ^ 64
  pub lapped_total : d.lapped_total ≡ (c.lapped_total + lost) % 2 ^ 64
  pub capacity : d.capacity ≡ c.capacity
  pub mask : d.mask ≡ c.mask
  pub multi_producer : d.multi_producer ≡ c.multi_producer
  pub sparse : d.sparse ≡ c.sparse

pub Passed-IsTyped : {c d : RingConsumer} {s n : ℕ} → Passed c s n d → IsTyped d
Passed-IsTyped p = omega arith

pub Passed-trans :
    {c d e : RingConsumer} {s s' n : ℕ}
    → Passed c s 0 d
    → Passed d s' n e
    → Passed c (add_u64 s s') n e
Passed-trans p q = ground arith

pub move_to-Passed :
    (c : RingConsumer) (next : ℕ)
    → IsTyped c
    → next < 2 ^ 64
    → Passed c (move_to c next).0 0 (move_to c next).1
unfolding move_to update_cursor
move_to-Passed c next t lt = ground arith

module _ {T : Type 0} (w : World T) where
  skip_overwritten-Passed :
      (c : RingConsumer) (seen : ℕ)
      → IsTyped c
      → Passed c (skip_overwritten w c seen).0 0 (skip_overwritten w c seen).1
  unfolding skip_overwritten
  skip_overwritten-Passed c seen t =
      let n = oldest_retained (max (w c.now).write_seq seen) c.capacity in
      ground (
        arith,
        move_to-Passed (tick c) n,
        oldest_retained-u64 (max (w c.now).write_seq seen) c.capacity,
      )

  scan_present-u64 :
      (mask rounds next now : ℕ) → next < 2 ^ 64 → (scan_present w mask rounds next now).0 < 2 ^ 64
  unfolding scan_present
  scan_present-u64 mask zero next now lt = lt
  scan_present-u64 mask (suc r) next now lt =
      ground (arith, scan_present-u64 mask r (add_u64 next 1) (now + 1))

  skip_hole-Passed : (c : RingConsumer) → IsTyped c → Passed c (skip_hole w c).0 0 (skip_hole w c).1
  unfolding skip_hole
  skip_hole-Passed c t =
      let write_seq = (w c.now).write_seq in
      let from = max (oldest_retained write_seq c.capacity) (add_u64 c.cursor 1) in
      let (next, now) = scan_present w c.mask (write_seq + 1 - from) from (c.now + 2) in
      ground (
        arith,
        move_to-Passed (record c { now = now }) next,
        oldest_retained-u64 write_seq c.capacity,
        scan_present-u64 c.mask (write_seq + 1 - from) from (c.now + 2),
      )

  abbrev pub taken : Option T → ℕ
  taken none = 0
  taken (some x) = 1

  -- The accounts of a round since `c`.
  abbrev pub TurnPassed : RingConsumer → Turn T → Type 0
  TurnPassed c (returns x s d) = Passed c s (taken x) d
  TurnPassed c (again s d) = Passed c s 0 d

  module _ {b : RingConsumer} (skipped : ℕ) (c : RingConsumer) (before : Passed b skipped 0 c) where
    t : IsTyped c
    t = Passed-IsTyped before

    poll_sparse-Passed : TurnPassed b (poll_sparse w skipped c)
    unfolding poll_sparse
    poll_sparse-Passed =
        let c' = record c { empty_polls = add_u32 c.empty_polls 1 } in
        ground (
          arith,
          skip_hole-Passed c' (record { cursor_u64 = t.cursor_u64; lapped_u64 = t.lapped_u64 }),
        )

    turn_pending-Passed : TurnPassed b (turn_pending w skipped c)
    unfolding turn_pending
    turn_pending-Passed = ground (arith, poll_sparse-Passed, skip_overwritten-Passed (tick c) 0)

    turn_on-Passed : (r : SlotRead T) → TurnPassed b (turn_on w r skipped c)
    unfolding turn_on
    turn_on-Passed (item x) = ground arith
    turn_on-Passed (overwritten seen) = ground (arith, skip_overwritten-Passed c seen)
    turn_on-Passed pending = turn_pending-Passed

  turn-Passed :
      {b : RingConsumer} (skipped : ℕ) (c : RingConsumer)
      → Passed b skipped 0 c
      → TurnPassed b (turn w skipped c)
  unfolding turn
  turn-Passed skipped c before = turn_on-Passed skipped (after_read c) (ground arith) (read_at w c)

  -- A loop that ended came to its end by a chain of rounds.
  next_item_from-Passed :
      {b : RingConsumer} (fuel skipped : ℕ) (c : RingConsumer) (x : Option T) (s : ℕ)
      (d : RingConsumer)
      → Passed b skipped 0 c
      → next_item_from w fuel skipped c ≡ some (x, s, d)
      → Passed b s (taken x) d
  unfolding next_item_from
  next_item_from-Passed zero skipped c x s d before e = absurd (ground arith)
  next_item_from-Passed {b} (suc fuel) skipped c x s d before e =
      go (turn w skipped c) (turn-Passed skipped c before) e
        (λ s' c'. next_item_from-Passed fuel s' c' x s d)
    where
      go :
          (r : Turn T)
          → TurnPassed b r
          → settle w (next_item_from w fuel) r ≡ some (x, s, d)
          → ((s' : ℕ) (c' : RingConsumer)
              → Passed b s' 0 c'
              → next_item_from w fuel s' c' ≡ some (x, s, d)
              → Passed b s (taken x) d)
          → Passed b s (taken x) d
      go (returns x' s' c') p q ih = ground arith
      go (again s' c') p q ih = ih s' c' p q

  -- When `next_item` returns, its cursor has moved by the messages that it reports as skipped and one
  -- for the item, if any; the lapped total has grown by the skipped ones alone, and the constants are
  -- the same. So every sequence is delivered or counted. This holds for any contents of memory and
  -- any changes to it; the counters are those of `u64`.
  pub next_item-accounts :
      (fuel : ℕ) (c : RingConsumer) (x : Option T) (s : ℕ) (d : RingConsumer)
      → IsTyped c
      → next_item_from w fuel 0 c ≡ some (x, s, d)
      → Passed c s (taken x) d
  next_item-accounts fuel c x s d t e =
      next_item_from-Passed fuel 0 c x s d
        (record {
          cursor = omega (arith, t.cursor_u64);
          lapped_total = omega (arith, t.lapped_u64);
          capacity = refl;
          mask = refl;
          multi_producer = refl;
          sparse = refl;
        })
        e
