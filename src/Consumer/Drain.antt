-- ===== src/Consumer/Drain.antt =====
-- `next_item` and `recv_batch` of src/spmc.rs at a ring that rests: they return the retained log in order.
use ringfire.Prelude.{
  ℕ, zero, suc, ◌+◌, ◌-◌, ◌≤◌, ◌<◌, ◌≡◌, refl, sym, ap, ◌∙◌, subst, none, some, arith, List, [],
  ◌∷◌, add_u64,
}
use mathlib.Core.Option
use native.Mathlib.Decide.{dec_lt}
use ringfire.Window.{oldest_retained}
use ringfire.Window.Retained.{oldest_retained_iff}
use ringfire.Consumer.{
  Snapshot, RingConsumer, tick, after_read, update_cursor, move_to, settle, next_item_from, fill,
  report_if_read, recv_batch,
}
use ringfire.Consumer.Rest.{
  Rests, still, start_of, Took, positive, turn-in_window, turn-lapped, turn-at_end, move_to-Rests,
  move_to-Took, move_to-cursor, move_to-capacity,
}

-- The log's messages from `n` on, as many as are left but no more than there is room for.
abbrev pub messages : {T : Type 0} → (ℕ → T) → (n room left : ℕ) → List T
messages log n zero left = []
messages log n (suc room) zero = []
messages log n (suc room) (suc left) = log n ∷ messages log (n + 1) room left

module _ {T : Type 0} (s : Snapshot T) (log : ℕ → T) where
  -- A consumer within the window takes its message.
  next_item-in_window :
      (fuel skipped : ℕ) (c : RingConsumer)
      → Rests s log c
      → c.cursor ≤ s.write_seq
      → s.write_seq < c.cursor + c.capacity
      → next_item_from (still s) (suc fuel) skipped c
        ≡ some (some (log c.cursor), skipped, record (after_read c) { cursor = c.cursor + 1 })
  unfolding next_item_from
  next_item-in_window fuel skipped c r le near =
      ap (settle (still s) (next_item_from (still s) fuel))
        (turn-in_window s log c r skipped le near)

  -- One behind it goes to the oldest message and takes that.
  next_item-lapped :
      (fuel : ℕ) (c : RingConsumer)
      → Rests s log c
      → c.cursor + c.capacity ≤ s.write_seq
      → (d : RingConsumer) × (next_item_from (still s) (suc (suc fuel)) 0 c
          ≡ some (
            some (log (oldest_retained s.write_seq c.capacity)),
            oldest_retained s.write_seq c.capacity - c.cursor,
            d,
          ))
        × Took c (oldest_retained s.write_seq c.capacity) d
  unfolding next_item_from
  next_item-lapped fuel c r far =
      let n = oldest_retained s.write_seq c.capacity in
      let r' = move_to-Rests s log c r far in
      let c' = (move_to (tick (after_read c)) n).1 in
      let pos = positive s log c r in
      let near =
        (oldest_retained_iff s.write_seq c.capacity n pos (omega (arith, r.small))).0
          (omega arith) in
      let held =
        (oldest_retained_iff s.write_seq c.capacity s.write_seq pos (omega (arith, r.small))).1
          (omega (arith, pos), omega (arith, pos)) in
      let at : c'.cursor ≡ n = move_to-cursor c n in
      let cap : c'.capacity ≡ c.capacity = move_to-capacity c n in
      let skipped = add_u64 0 (n - c.cursor) in
      let no_wrap : skipped ≡ n - c.cursor = omega (arith, held, r.small) in
      let last =
        next_item-in_window fuel skipped c' r' (omega (arith, held, at))
          (omega (arith, near, at, cap)) in
      (
        record (after_read c') { cursor = c'.cursor + 1 },
        ap (settle (still s) (next_item_from (still s) (suc fuel))) (turn-lapped s log c r 0 far)
            ∙ last
            ∙ ap
                (λ (k : ℕ).
                  some (some (log k), skipped, record (after_read c') { cursor = c'.cursor + 1 }))
                at
            ∙ ap
                (λ (k : ℕ).
                  some (some (log n), k, record (after_read c') { cursor = c'.cursor + 1 }))
                no_wrap,
        move_to-Took c n (record (after_read c') { cursor = c'.cursor + 1 })
            (omega (arith, at), refl, refl, refl, refl),
      )

  -- `next_item` returns the oldest retained message from the cursor on, and counts what it skipped.
  pub next_item-at_rest :
      (fuel : ℕ) (c : RingConsumer)
      → Rests s log c
      → c.cursor ≤ s.write_seq
      → (d : RingConsumer) × (next_item_from (still s) (suc (suc fuel)) 0 c
          ≡ some (some (log (start_of s c)), start_of s c - c.cursor, d))
        × Took c (start_of s c) d
  next_item-at_rest fuel c r le = elim (dec_lt s.write_seq (c.cursor + c.capacity)) [
    | yes near ↦
        let lo =
          oldest_retained_iff s.write_seq c.capacity c.cursor (positive s log c r)
            (omega (arith, r.small)) in
        let here : start_of s c ≡ c.cursor = ground (arith, lo.1, r.started) in
        (
          record (after_read c) { cursor = c.cursor + 1 },
          next_item-in_window (suc fuel) 0 c r le near
              ∙ ap
                  (λ (k : ℕ).
                    some (some (log k), 0, record (after_read c) { cursor = c.cursor + 1 }))
                  (sym here)
              ∙ ap
                  (λ (k : ℕ).
                    some (
                      some (log (start_of s c)),
                      k,
                      record (after_read c) { cursor = c.cursor + 1 },
                    ))
                  (omega (arith, here)),
          (omega (arith, here), refl, refl, refl, refl),
        )
    | no far ↦
        let far' : c.cursor + c.capacity ≤ s.write_seq = omega arith in
        let lo =
          oldest_retained_iff s.write_seq c.capacity c.cursor (positive s log c r)
            (omega (arith, r.small)) in
        let there : oldest_retained s.write_seq c.capacity ≡ start_of s c = ground (arith, lo.0) in
        subst
          (λ n.
            (d : RingConsumer) × (next_item_from (still s) (suc (suc fuel)) 0 c
              ≡ some (some (log n), n - c.cursor, d))
            × Took c n d)
          there (next_item-lapped fuel c r far')
  ]

  -- After message `n` of the window the consumer rests behind it.
  Took-Rests :
      (c d : RingConsumer) (n : ℕ) → Rests s log c → Took c n d → n ≤ s.write_seq → Rests s log d
  Took-Rests c d n r t le = record {
    exponent = r.exponent;
    capacity = t.1 ∙ r.capacity;
    mask = omega (arith, t, r.mask);
    small = omega (arith, t, r.small);
    window = rw t.1 r.window;
    beyond = rw t.1 r.beyond;
    started = omega (arith, t);
    behind = omega (arith, t);
    single = t.3 ∙ r.single;
    dense = t.4 ∙ r.dense;
  }

  next_item-at_end :
      (fuel : ℕ) (c : RingConsumer)
      → Rests s log c
      → c.cursor ≡ s.write_seq + 1
      → next_item_from (still s) (suc fuel) 0 c ≡ some (none, 0, after_read c)
  unfolding next_item_from
  next_item-at_end fuel c r e =
      ap (settle (still s) (next_item_from (still s) fuel)) (turn-at_end s log c r 0 e)

  fill-none :
      (fuel room : ℕ) (c d : RingConsumer)
      → next_item_from (still s) fuel 0 c ≡ some (none, 0, d)
      → fill (still s) fuel (suc room) c ≡ some ([], d)
  unfolding fill
  fill-none fuel room c d e = ground (arith, e)

  fill-some :
      (fuel room left : ℕ) (c d d' : RingConsumer) (n k next : ℕ)
      → next_item_from (still s) fuel 0 c ≡ some (some (log n), k, d)
      → next ≡ n + 1
      → fill (still s) fuel room d ≡ some (messages log next room left, d')
      → fill (still s) fuel (suc room) c ≡ some (log n ∷ messages log (n + 1) room left, d')
  unfolding fill
  fill-some fuel room left c d d' n k next e same f =
      let f' : fill (still s) fuel room d ≡ some (messages log (n + 1) room left, d') =
        f ∙ ap (λ (i : ℕ). some (messages log i room left, d')) same in
      ground (arith, e, f')

  -- The batch at a consumer that rests, with `left` messages to come.
  fill-at_rest :
      (fuel room left : ℕ) (c : RingConsumer)
      → Rests s log c
      → s.write_seq + 1 ≡ start_of s c + left
      → (d : RingConsumer) × (fill (still s) (suc (suc fuel)) room c
          ≡ some (messages log (start_of s c) room left, d))
  unfolding fill
  fill-at_rest fuel zero left c r e = (c, refl)
  fill-at_rest fuel (suc room) zero c r e =
      let pos = positive s log c r in
      let held =
        (oldest_retained_iff s.write_seq c.capacity s.write_seq pos (omega (arith, r.small))).1 in
      let last : c.cursor ≡ s.write_seq + 1 = ground (arith, held, r.started, r.behind, pos, e) in
      (
        after_read c,
        fill-none (suc (suc fuel)) room c (after_read c) (next_item-at_end (suc fuel) c r last),
      )
  fill-at_rest fuel (suc room) (suc left) c r e =
      let n = start_of s c in
      let (d, took, t) = next_item-at_rest fuel c r (omega arith) in
      let r' = Took-Rests c d n r t (omega arith) in
      let next : start_of s d ≡ n + 1 = omega (arith, t, ap (oldest_retained s.write_seq) t.1) in
      let (d', e') = fill-at_rest fuel room left d r' (omega arith) in
      (d', fill-some (suc (suc fuel)) room left c d d' n (n - c.cursor) (start_of s d) took next e')

  -- On a ring that nobody writes to, `recv_batch` returns the log's messages in order, from the oldest
  -- retained one at or after the cursor on: as many as are published, up to the size of the buffer. Two
  -- rounds of `next_item` are enough for each.
  pub recv_batch-at_rest :
      (fuel room left : ℕ) (c : RingConsumer)
      → Rests s log c
      → s.write_seq + 1 ≡ start_of s c + left
      → (d : RingConsumer) × (recv_batch (still s) (suc (suc fuel)) room c
          ≡ some (messages log (start_of s c) room left, d))
  unfolding recv_batch
  recv_batch-at_rest fuel room left c r e =
      let (d, filled) = fill-at_rest fuel room left c r e in
      let (reported, same) = reported-items (messages log (start_of s c) room left) d in
      (reported, ap (Option.map (report_if_read (still s))) filled ∙ ap some same)
    where
      reported-items :
          (xs : List T) (d : RingConsumer)
          → (d' : RingConsumer) × (report_if_read (still s) (xs, d) ≡ (xs, d'))
      reported-items [] d = (d, refl)
      reported-items (x ∷ xs) d = (update_cursor d, refl)
