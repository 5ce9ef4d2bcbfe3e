-- ===== src/BlobRing/Received.antt =====
-- src/blob.rs: the results of `next_blob`, round by round.
use ringfire.Prelude.{
  ℕ, zero, suc, ◌+◌, ◌-◌, ◌^◌, ◌≤◌, ◌<◌, ◌≡◌, refl, sym, ap, ◌∙◌, subst, inl, inr, not, ◌||◌,
  Option, none, some, List, arith, ltb, ◌==◌, add_u64, add_u32, bit_and, Bool-cases,
}
use ringfire.Errors.{Result, ok, err}
use ringfire.Slot.{SlotRead, item, pending, overwritten}
use ringfire.Arena
use ringfire.BlobRing.{
  BlobPacket, BlobMemory, BlobConsumer, update_cursor, Round, returns, again, skip_hole,
  skip_overwritten, skip_current, read_at, checked, take_packet, on_pending, on_slot, settle,
  next_blob,
}
use ringfire.BlobRing.Delivered.{
  IsShared, IsAttached, Passed, skip_overwritten-Passed, skip_hole-Passed,
}

module _ {M : Type 0} (w : ℕ → BlobMemory M) (packets : ℕ → BlobPacket M) (payload : ℕ → List ℕ)
    (newest : ℕ) (check : ℕ → Result (Unit {0})) where
  -- A message that was delivered, after the messages before it were passed over and counted.
  pub record Delivered (c : BlobConsumer) (skipped : ℕ) (m : M) (bytes : List ℕ) (total : ℕ)
      (c' : BlobConsumer) : Type 0 where
    pub seq : ℕ
    pub cursor_le : c.cursor ≤ seq
    pub seq_max : seq ≤ newest
    pub next : c'.cursor ≡ seq + 1
    pub meta : m ≡ (packets seq).meta
    pub bytes_eq : bytes ≡ payload seq
    pub total_eq : total ≡ skipped + (seq - c.cursor)
    pub lapped : c'.lapped_total ≡ c.lapped_total + (seq - c.cursor)

  -- What the consumer learns from each result.
  pub Ended :
      (c : BlobConsumer) (skipped : ℕ) → Result (Option (M × List ℕ × ℕ)) → BlobConsumer → Type 0
  Ended c skipped (ok none) c' =
      Passed w packets payload newest c skipped c' (skipped + (c'.cursor - c.cursor))
  Ended c skipped (ok (some (m, bytes, total))) c' = Delivered c skipped m bytes total c'
  Ended c skipped (err e) c' =
      Passed w packets payload newest c skipped c' (skipped + (c'.cursor - c.cursor))
      × (check (packets c'.cursor).blob_ref.len ≡ err e)

  -- A round returns such a result, or passes over a message and goes on.
  pub Turned : (c : BlobConsumer) (skipped : ℕ) → Round M → Type 0
  Turned c skipped (returns r c') = Ended c skipped r c'
  Turned c skipped (again skipped' c') =
      Passed w packets payload newest c skipped c' skipped' × (c.cursor < c'.cursor)

  stay :
      (c c' : BlobConsumer) (skipped : ℕ)
      → IsAttached w packets payload newest c skipped
      → c'.cursor ≡ c.cursor
      → c'.lapped_total ≡ c.lapped_total
      → c'.capacity ≡ c.capacity
      → Passed w packets payload newest c skipped c' (skipped + (c'.cursor - c.cursor))
  stay c c' skipped a e l k = record {
    cursor_le = omega (arith, e);
    cursor_max = omega (arith, e, a.cursor_max);
    lapped = omega (arith, e, l);
    skipped_eq = refl;
    capacity = k;
  }

  stay-returns :
      (c c' : BlobConsumer) (skipped : ℕ)
      → IsAttached w packets payload newest c skipped
      → c'.cursor ≡ c.cursor
      → c'.lapped_total ≡ c.lapped_total
      → c'.capacity ≡ c.capacity
      → Turned c skipped (returns (ok none) c')
  unfolding Turned Ended
  stay-returns c c' skipped a e l k = stay c c' skipped a e l k

  step_over :
      (c : BlobConsumer) (skipped t : ℕ)
      → IsAttached w packets payload newest c skipped
      → c.cursor ≤ newest
      → newest + 2 < 2 ^ 63
      → Turned c skipped (again (add_u64 skipped 1) (skip_current (record c { now = t })))
  unfolding skip_current Turned
  step_over c skipped t a le room = (
    record {
      cursor_le = omega (arith, le, room);
      cursor_max = omega (arith, le, room);
      lapped = omega (arith, le, room, a.lapped_room);
      skipped_eq = omega (arith, le, room, a.skipped_room);
      capacity = refl;
    },
    omega (arith, le, room),
  )

  module _ (s : IsShared w packets payload newest) where
    checked-Turned :
        (c : BlobConsumer) (skipped : ℕ) (p : BlobPacket M)
        → IsAttached w packets payload newest c skipped
        → read_at w c ≡ item p
        → (r : Result (Unit {0})) → check p.blob_ref.len ≡ r
        → Turned c skipped (checked w check (record c { now = c.now + 3 }) skipped p r)
    unfolding update_cursor skip_current Turned Ended
    checked-Turned c skipped p a e (err refused) h = (
      stay c (record c { now = c.now + 3 + 1 }) skipped a refl refl refl,
      subst (λ q. check q.blob_ref.len ≡ err refused) (s.reads c p e).0 h,
    )
    checked-Turned c skipped p a e (ok _) h =
        let (same, le) = s.reads c p e in
        elim (Bool-cases (Arena.is_lapped (w (c.now + 3 + 2)).arena p.blob_ref)) [
          | inl lost ↦ rw lost (step_over c skipped (c.now + 3 + 3) a le s.room)
          | inr held ↦ rw held (record {
            seq = c.cursor;
            cursor_le = omega arith;
            seq_max = le;
            next = omega (arith, le, s.room);
            meta = ap (λ q. q.meta) same;
            bytes_eq =
                s.held c p (c.now + 3 + 1) (c.now + 3 + 2) e (omega arith) (omega arith) held;
            total_eq = omega arith;
            lapped = omega arith;
          })
        ]

    take_packet-Turned :
        (c : BlobConsumer) (skipped : ℕ) (p : BlobPacket M)
        → IsAttached w packets payload newest c skipped
        → read_at w c ≡ item p
        → Turned c skipped (take_packet w check (record c { now = c.now + 3 }) skipped p)
    unfolding take_packet
    take_packet-Turned c skipped p a e =
        let (same, le) = s.reads c p e in
        let t = c.now + 3 in
        let old =
          not (Arena.is_in_bounds (w t).arena p.blob_ref)
          || Arena.is_lapped (w t).arena p.blob_ref in
        elim (Bool-cases old) [
          | inl lost ↦ rw lost (step_over c skipped (t + 1) a le s.room)
          | inr held ↦ rw held (checked-Turned c skipped p a e (check p.blob_ref.len) refl)
        ]

    -- What a part of a round that may skip messages comes to.
    skipped-again :
        (c : BlobConsumer) (skipped n : ℕ) (c' : BlobConsumer)
        → n ≡ c'.cursor - c.cursor
        → Passed w packets payload newest c skipped c' (skipped + n)
        → IsAttached w packets payload newest c skipped
        → 0 < n
        → Turned c skipped (again (add_u64 skipped n) c')
    unfolding Turned
    skipped-again c skipped n c' e p a pos =
        let sum : add_u64 skipped n ≡ skipped + n =
          omega (arith, e, p.cursor_max, a.skipped_room) in
        (rw sum p, omega (arith, e, pos))

    skipped-returns :
        (c : BlobConsumer) (skipped n : ℕ) (c' : BlobConsumer)
        → n ≡ c'.cursor - c.cursor
        → Passed w packets payload newest c skipped c' (skipped + n)
        → Turned c skipped (returns (ok none) c')
    unfolding Turned Ended
    skipped-returns c skipped n c' e p =
        subst (λ k. Passed w packets payload newest c skipped c' (skipped + k)) e p

    -- Moments and polls do not matter to what is promised of a consumer.
    at :
        (c : BlobConsumer) (skipped t polls : ℕ)
        → IsAttached w packets payload newest c skipped
        → IsAttached w packets payload newest (record c { now = t; empty_polls = polls }) skipped
    at c skipped t polls a = record {
      capacity_pos = a.capacity_pos;
      capacity_max = a.capacity_max;
      cursor_max = a.cursor_max;
      lapped_room = a.lapped_room;
      skipped_room = a.skipped_room;
    }

    moved :
        (c : BlobConsumer) (skipped t polls : ℕ) (c' : BlobConsumer) (skipped' : ℕ)
        → Passed w packets payload newest
            (record c { now = t; empty_polls = polls })
            skipped
            c'
            skipped'
        → Passed w packets payload newest c skipped c' skipped'
    moved c skipped t polls c' skipped' p = record {
      cursor_le = p.cursor_le;
      cursor_max = p.cursor_max;
      lapped = p.lapped;
      skipped_eq = p.skipped_eq;
      capacity = p.capacity;
    }

    overwritten-Turned :
        (c : BlobConsumer) (skipped seen : ℕ)
        → IsAttached w packets payload newest c skipped
        → seen ≤ newest
        → Turned c skipped
            (on_slot w check (record c { now = c.now + 3 }) skipped (overwritten seen))
    unfolding on_slot
    overwritten-Turned c skipped seen a le =
        let r = skip_overwritten w (record c { now = c.now + 3 }) seen in
        let (e, p) =
          skip_overwritten-Passed w packets payload newest s (record c { now = c.now + 3 }) skipped
            seen (at c skipped (c.now + 3) c.empty_polls a) le in
        let past = moved c skipped (c.now + 3) c.empty_polls r.1 (skipped + r.0) p in
        elim (Bool-cases (r.0 == 0)) [
          | inl zero_left ↦ rw zero_left (skipped-returns c skipped r.0 r.1 e past)
          | inr some_left ↦ rw some_left (skipped-again c skipped r.0 r.1 e past a (ground arith))
        ]

    pending-Turned :
        (c : BlobConsumer) (skipped : ℕ)
        → IsAttached w packets payload newest c skipped
        → Turned c skipped (on_pending w check (record c { now = c.now + 3 }) skipped)
    unfolding on_pending
    pending-Turned c skipped a =
        let polls = add_u32 c.empty_polls 1 in
        let polled = record c { now = c.now + 3; empty_polls = polls } in
        let r = skip_hole w polled in
        let (e, p) =
          skip_hole-Passed w packets payload newest s polled skipped
            (at c skipped (c.now + 3) polls a) in
        let past = moved c skipped (c.now + 3) polls r.1 (skipped + r.0) p in
        elim (Bool-cases (not c.sparse)) [
          | inl dense ↦
              rw dense (stay-returns c (record c { now = c.now + 3 }) skipped a refl refl refl)
          | inr sparse ↦ elim (Bool-cases (bit_and polls 63 == 0)) [
            | inl due ↦ elim (Bool-cases (ltb 0 r.0)) [
              | inl hole ↦
                  rw (sparse, due, hole) (skipped-again c skipped r.0 r.1 e past a (ground arith))
              | inr current ↦ rw (sparse, due, current) (skipped-returns c skipped r.0 r.1 e past)
            ]
            | inr early ↦ rw (sparse, early) (stay-returns c polled skipped a refl refl refl)
          ]
        ]

    Passed-trans :
        (c : BlobConsumer) (skipped : ℕ) (c' : BlobConsumer) (skipped' : ℕ)
        → Passed w packets payload newest c skipped c' skipped'
        → (c'' : BlobConsumer)
        → Passed w packets payload newest c' skipped' c'' (skipped' + (c''.cursor - c'.cursor))
        → Passed w packets payload newest c skipped c'' (skipped + (c''.cursor - c.cursor))
    Passed-trans c skipped c' skipped' p c'' q = record {
      cursor_le = omega (arith, p.cursor_le, q.cursor_le);
      cursor_max = q.cursor_max;
      lapped = omega (arith, p.cursor_le, q.cursor_le, p.lapped, q.lapped);
      skipped_eq = refl;
      capacity = q.capacity ∙ p.capacity;
    }

    turn-Turned :
        (c : BlobConsumer) (skipped : ℕ)
        → IsAttached w packets payload newest c skipped
        → (r : SlotRead (BlobPacket M)) → read_at w c ≡ r
        → Turned c skipped (on_slot w check (record c { now = c.now + 3 }) skipped r)
    unfolding on_slot
    turn-Turned c skipped a (item p) e = take_packet-Turned c skipped p a e
    turn-Turned c skipped a pending e = pending-Turned c skipped a
    turn-Turned c skipped a (overwritten seen) e =
        overwritten-Turned c skipped seen a (s.seen_max c seen e)

    -- What a later round returns, an earlier one returns.
    Ended-after :
        (c : BlobConsumer) (skipped : ℕ) (c' : BlobConsumer) (skipped' : ℕ)
        → Passed w packets payload newest c skipped c' skipped'
        → (r : Result (Option (M × List ℕ × ℕ))) (c'' : BlobConsumer) → Ended c' skipped' r c''
        → Ended c skipped r c''
    unfolding Ended
    Ended-after c skipped c' skipped' p (ok none) c'' q = Passed-trans c skipped c' skipped' p c'' q
    Ended-after c skipped c' skipped' p (ok (some (m, bytes, total))) c'' q = record {
      seq = q.seq;
      cursor_le = omega (arith, p.cursor_le, q.cursor_le);
      seq_max = q.seq_max;
      next = q.next;
      meta = q.meta;
      bytes_eq = q.bytes_eq;
      total_eq = omega (arith, p.cursor_le, q.cursor_le, p.skipped_eq, q.total_eq);
      lapped = omega (arith, p.cursor_le, q.cursor_le, p.lapped, q.lapped);
    }
    Ended-after c skipped c' skipped' p (err e) c'' (q, refused) =
        (Passed-trans c skipped c' skipped' p c'' q, refused)

    settle-Ended :
        (c : BlobConsumer) (skipped : ℕ)
        (next : ℕ → BlobConsumer → Option (Result (Option (M × List ℕ × ℕ)) × BlobConsumer))
        (x : Round M)
        → Turned c skipped x
        → ((s' : ℕ) (d : BlobConsumer)
            → Passed w packets payload newest c skipped d s'
            → c.cursor < d.cursor
            → (r : Result (Option (M × List ℕ × ℕ))) × (c' : BlobConsumer) × (next s' d
                ≡ some (r, c'))
              × Ended d s' r c')
        → (r : Result (Option (M × List ℕ × ℕ))) × (c' : BlobConsumer) × (settle w check next x
            ≡ some (r, c'))
          × Ended c skipped r c'
    unfolding Turned
    settle-Ended c skipped next (returns r c') e more = (r, c', refl, e)
    settle-Ended c skipped next (again s' d) (p, lt) more =
        let (r, c', same, e) = more s' d p lt in (r, c', same, Ended-after c skipped d s' p r c' e)

    -- `next_blob` returns when it has a round for each message from the cursor to the newest and two more,
    -- whatever the producer does meanwhile: messages that are passed over are counted, what it delivers is a
    -- message's metadata and whole payload, and it fails only if `check` refuses the payload of the message at
    -- the cursor that it then has. The producer's side is as in `IsShared`, and the counters are away from
    -- their wrap.
    pub next_blob-Ended :
        (fuel skipped : ℕ) (c : BlobConsumer)
        → IsAttached w packets payload newest c skipped
        → newest + 2 ≤ fuel + c.cursor
        → (r : Result (Option (M × List ℕ × ℕ))) × (c' : BlobConsumer) × (next_blob w check fuel
              skipped c
            ≡ some (r, c'))
          × Ended c skipped r c'
    unfolding next_blob
    next_blob-Ended zero skipped c a le = absurd (omega (arith, a.cursor_max))
    next_blob-Ended (suc fuel) skipped c a le =
        settle-Ended c skipped (next_blob w check fuel)
          (on_slot w check (record c { now = c.now + 3 }) skipped (read_at w c))
          (turn-Turned c skipped a (read_at w c) refl)
          (λ s' d p lt.
            next_blob-Ended fuel s' d
              (record {
                capacity_pos = subst (λ k. 0 < k) (sym p.capacity) a.capacity_pos;
                capacity_max = subst (λ k. k < 2 ^ 64) (sym p.capacity) a.capacity_max;
                cursor_max = p.cursor_max;
                lapped_room = omega (arith, p.lapped, p.cursor_le, p.cursor_max, a.lapped_room);
                skipped_room =
                    omega (arith, p.skipped_eq, p.cursor_le, p.cursor_max, a.skipped_room);
              })
              (omega (arith, lt, le)))
