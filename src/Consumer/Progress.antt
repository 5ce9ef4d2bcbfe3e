-- ===== src/Consumer/Progress.antt =====
-- The loop of src/spmc.rs `next_item` ends: each further round moves the cursor, and never past the
-- message after the newest.
use ringfire.Prelude.{
  ℕ, zero, suc, ◌+◌, ◌-◌, ◌^◌, ◌≤◌, ◌<◌, max, ◌≡◌, ◌≢◌, refl, ◌⊎◌, Option, some, arith, add_u64,
  add_u32, bit_and,
}
use ringfire.Constants.{slot_writing}
use ringfire.Slot.{SlotRead, item, pending, overwritten}
use ringfire.Slot.Torn.{read_slot-overwritten}
use ringfire.Window.{oldest_retained}
use ringfire.Window.Retained.{oldest_retained-le, oldest_retained_iff}
use ringfire.Consumer.{
  World, RingConsumer, tick, after_read, update_cursor, move_to, skip_overwritten, scan_present,
  skip_hole, read_at, Turn, returns, again, Received, poll_sparse, turn_pending, turn_on, turn,
  settle, next_item_from,
}

-- No message beyond `newest` is published while the consumer runs, and `write_seq` does not fall.
pub record IsBounded {T : Type 0} (w : World T) (newest : ℕ) : Type 0 where
  pub write_seq_le : (t : ℕ) → (w t).write_seq ≤ newest
  pub write_seq_mono : (t : ℕ) → (w t).write_seq ≤ (w (t + 1)).write_seq
  pub seq_le : (t i : ℕ) → (((w t).slots i).seq ≤ newest) ⊎ (((w t).slots i).seq ≡ slot_writing)

module _ (newest : ℕ) where
  -- The counters do not wrap while the newest message is `newest`.
  pub record HasRoom (c : RingConsumer) : Type 0 where
    pub positive : 0 < c.capacity
    pub ahead : c.cursor + c.capacity < 2 ^ 64
    pub room : newest + c.capacity + 1 < 2 ^ 64

  -- From `c` the cursor moved on, to at most the message after the newest.
  pub record Moved (c d : RingConsumer) : Type 0 where
    pub forward : c.cursor < d.cursor
    pub within : d.cursor ≤ newest + 1
    pub capacity : d.capacity ≡ c.capacity

  move_to-Moved :
      (c : RingConsumer) (next : ℕ)
      → c.cursor < next
      → next ≤ newest + 1
      → Moved c (move_to c next).1
  unfolding move_to update_cursor
  move_to-Moved c next lt le = record { forward = lt; within = le; capacity = refl }

  module _ {T : Type 0} (w : World T) (bounded : IsBounded w newest) where
    skip_overwritten-Moved :
        (c : RingConsumer) (seen : ℕ)
        → HasRoom c
        → seen ≤ newest
        → (c.cursor < oldest_retained (max (w c.now).write_seq seen) c.capacity)
          ⊎ ((skip_overwritten w c seen).0 ≢ 0)
        → Moved c (skip_overwritten w c seen).1
    unfolding skip_overwritten
    skip_overwritten-Moved c seen r le go =
        let ws = (w c.now).write_seq in
        ground (
          arith,
          bounded.write_seq_le c.now,
          move_to-Moved (tick c) (oldest_retained (max ws seen) c.capacity),
          oldest_retained-le (max ws seen) c.capacity r.positive,
        )

    scan_present-range :
        (mask rounds next now : ℕ)
        → next + rounds < 2 ^ 64
        → (next ≤ (scan_present w mask rounds next now).0)
          × ((scan_present w mask rounds next now).0 ≤ next + rounds)
    unfolding scan_present
    scan_present-range mask zero next now lt = omega arith
    scan_present-range mask (suc rounds) next now lt =
        ground (arith, scan_present-range mask rounds (next + 1) (now + 1))

    skip_hole-Moved :
        (c : RingConsumer) → HasRoom c → (skip_hole w c).0 ≢ 0 → Moved c (skip_hole w c).1
    unfolding skip_hole
    skip_hole-Moved c r go =
        let ws = (w c.now).write_seq in
        let from = max (oldest_retained ws c.capacity) (add_u64 c.cursor 1) in
        let (next, now) = scan_present w c.mask (ws + 1 - from) from (c.now + 2) in
        ground (
          arith,
          bounded.write_seq_le c.now,
          move_to-Moved (record c { now = now }) next,
          oldest_retained-le ws c.capacity r.positive,
          scan_present-range c.mask (ws + 1 - from) from (c.now + 2),
        )

    abbrev pub TurnMoved : RingConsumer → Turn T → Type 0
    TurnMoved c (returns x s d) = Unit
    TurnMoved c (again s d) = Moved c d

    module _ (skipped : ℕ) (c : RingConsumer) (r : HasRoom c) where
      poll_sparse-Moved : TurnMoved c (poll_sparse w skipped c)
      unfolding poll_sparse
      poll_sparse-Moved =
          let c' = record c { empty_polls = add_u32 c.empty_polls 1 } in
          ground (arith, skip_hole-Moved c')

      turn_pending-Moved : TurnMoved c (turn_pending w skipped c)
      unfolding turn_pending
      turn_pending-Moved =
          let ws = (w (c.now + 1)).write_seq in
          ground (
            arith,
            poll_sparse-Moved,
            bounded.write_seq_mono c.now,
            bounded.write_seq_le (c.now + 1),
            (oldest_retained_iff ws c.capacity c.cursor r.positive
                (omega (arith, bounded.write_seq_le (c.now + 1)))).0,
            skip_overwritten-Moved (tick c) 0,
          )

      turn_on-Moved :
          (x : SlotRead T)
          → ((seen : ℕ) → x ≡ overwritten seen → seen ≤ newest)
          → TurnMoved c (turn_on w x skipped c)
      unfolding turn_on
      turn_on-Moved (item x) le = tt
      turn_on-Moved (overwritten seen) le =
          ground (arith, skip_overwritten-Moved c seen, le seen refl)
      turn_on-Moved pending le = turn_pending-Moved

    read_at-overwritten :
        (c : RingConsumer) (seen : ℕ) → read_at w c ≡ overwritten seen → seen ≤ newest
    unfolding read_at
    read_at-overwritten c seen e =
        let i = bit_and c.cursor c.mask in
        ground (
          arith,
          read_slot-overwritten ((w c.now).slots i).seq ((w (c.now + 1)).slots i).content
              ((w (c.now + 2)).slots i).seq c.cursor e,
          bounded.seq_le c.now i,
          bounded.seq_le (c.now + 2) i,
        )

    pub turn-Moved : (skipped : ℕ) (c : RingConsumer) → HasRoom c → TurnMoved c (turn w skipped c)
    unfolding turn
    turn-Moved skipped c r = ground (
      arith,
      turn_on-Moved skipped (after_read c)
          (record { positive = r.positive; ahead = r.ahead; room = r.room }) (read_at w c)
          (read_at-overwritten c),
    )

    settle_total :
        (c : RingConsumer) (next : ℕ → RingConsumer → Option (Received T)) (x : Turn T)
        → TurnMoved c x
        → ((s : ℕ) (d : RingConsumer) → Moved c d → (y : Received T) × (next s d ≡ some y))
        → (y : Received T) × (settle w next x ≡ some y)
    settle_total c next (returns x s d) m more = ((x, s, d), refl)
    settle_total c next (again s d) m more = more s d m

    -- `next_item` returns: with `newest` the highest sequence that is ever published while it runs, at
    -- most `newest + 2` less the cursor rounds are made. `write_seq` must not fall, the capacity must
    -- not be zero and the counters must be away from their wrap by one capacity.
    pub next_item_total :
        (fuel skipped : ℕ) (c : RingConsumer)
        → HasRoom c
        → newest + 2 - c.cursor < fuel
        → (y : Received T) × (next_item_from w fuel skipped c ≡ some y)
    unfolding next_item_from
    next_item_total zero skipped c r enough = absurd (omega arith)
    next_item_total (suc fuel) skipped c r enough =
        settle_total c (next_item_from w fuel) (turn w skipped c) (turn-Moved skipped c r) (λ s d m.
          next_item_total fuel s d
            (record {
              positive = omega (arith, m.capacity, r.positive);
              ahead = omega (arith, m.capacity, m.within, r.room);
              room = omega (arith, m.capacity, r.room);
            })
            (omega (arith, m.forward, m.within)))
