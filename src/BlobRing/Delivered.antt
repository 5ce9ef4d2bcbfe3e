-- ===== src/BlobRing/Delivered.antt =====
-- What `next_blob` of src/blob.rs returns, whatever the producer does between its accesses.
use ringfire.Prelude.{
  ℕ, zero, suc, ◌+◌, ◌-◌, ◌^◌, ◌≤◌, ◌<◌, max, ◌≡◌, refl, inl, inr, false, ◌||◌, List, arith, ltb,
  leb, ◌==◌, add_u64, bit_and, Bool-cases,
}
use ringfire.Constants.{slot_writing}
use ringfire.Slot.{item, overwritten}
use ringfire.Window.{oldest_retained}
use ringfire.Arena
use ringfire.BlobRing.{
  BlobPacket, BlobMemory, BlobConsumer, tick, update_cursor, scan_present, skip_hole,
  skip_overwritten, view_bytes, read_at,
}

module _ {M : Type 0} (w : ℕ → BlobMemory M) (packets : ℕ → BlobPacket M) (payload : ℕ → List ℕ)
    (newest : ℕ) where
  -- What the producer's side promises: a descriptor that is read is that of its message, and a later view of
  -- the payload is whole if the payload is not lapped at a moment after it.
  pub record IsShared : Type 0 where
    pub reads :
        (c : BlobConsumer) (p : BlobPacket M)
        → read_at w c ≡ item p
        → (p ≡ packets c.cursor) × (c.cursor ≤ newest)
    pub held :
        (c : BlobConsumer) (p : BlobPacket M) (t t' : ℕ)
        → read_at w c ≡ item p
        → c.now + 3 ≤ t
        → t < t'
        → Arena.is_lapped (w t').arena p.blob_ref ≡ false
        → view_bytes w t p.blob_ref ≡ payload c.cursor
    pub seen_max : (c : BlobConsumer) (seen : ℕ) → read_at w c ≡ overwritten seen → seen ≤ newest
    pub write_seq_max : (t : ℕ) → (w t).write_seq ≤ newest
    pub room : newest + 2 < 2 ^ 63

  -- The consumer's counters are far from their wrap.
  pub record IsAttached (c : BlobConsumer) (skipped : ℕ) : Type 0 where
    pub capacity_pos : 0 < c.capacity
    pub capacity_max : c.capacity < 2 ^ 64
    pub cursor_max : c.cursor ≤ newest + 1
    pub lapped_room : c.lapped_total + (newest + 2 - c.cursor) < 2 ^ 64
    pub skipped_room : skipped + (newest + 2 - c.cursor) < 2 ^ 64

  -- From `c` to `c'` messages were passed over, and all were counted.
  pub record Passed (c : BlobConsumer) (skipped : ℕ) (c' : BlobConsumer) (skipped' : ℕ)
      : Type 0 where
    pub cursor_le : c.cursor ≤ c'.cursor
    pub cursor_max : c'.cursor ≤ newest + 1
    pub lapped : c'.lapped_total ≡ c.lapped_total + (c'.cursor - c.cursor)
    pub skipped_eq : skipped' ≡ skipped + (c'.cursor - c.cursor)
    pub capacity : c'.capacity ≡ c.capacity

  oldest_retained-le :
      (write_seq capacity : ℕ)
      → write_seq ≤ newest
      → newest + 2 < 2 ^ 63
      → 0 < capacity
      → capacity < 2 ^ 64
      → oldest_retained write_seq capacity ≤ newest + 1
  unfolding oldest_retained
  oldest_retained-le write_seq capacity le room pos max = ground arith

  scan_present-bounds :
      (mask rounds next now : ℕ)
      → next + rounds < 2 ^ 64
      → (next ≤ (scan_present w mask rounds next now).0)
        × ((scan_present w mask rounds next now).0 ≤ next + rounds)
  unfolding scan_present
  scan_present-bounds mask zero next now lt = (omega arith, omega arith)
  scan_present-bounds mask (suc rounds) next now lt =
      let e : add_u64 next 1 ≡ next + 1 = omega arith in
      let (lo, hi) = scan_present-bounds mask rounds (next + 1) (now + 1) (omega arith) in
      rw e (ground (arith, lo, hi))

  module _ (s : IsShared) where
    pub skip_overwritten-Passed :
        (c : BlobConsumer) (skipped seen : ℕ)
        → IsAttached c skipped
        → seen ≤ newest
        → let r = skip_overwritten w c seen in
          (r.0 ≡ r.1.cursor - c.cursor) × Passed c skipped r.1 (skipped + r.0)
    unfolding skip_overwritten
    skip_overwritten-Passed c skipped seen a le =
        let below = s.write_seq_max c.now in
        let old =
          oldest_retained-le (max (w c.now).write_seq seen) c.capacity (omega arith) s.room
            a.capacity_pos a.capacity_max in
        elim (Bool-cases
          (ltb c.cursor (oldest_retained (max (w c.now).write_seq seen) c.capacity))) [
            | inl behind ↦
                let lt : c.cursor < oldest_retained (max (w c.now).write_seq seen) c.capacity =
                  ground arith in
                rw behind (
                  omega (arith, lt, old, s.room),
                  record {
                    cursor_le = omega (arith, lt);
                    cursor_max = old;
                    lapped = omega (arith, lt, old, s.room, a.lapped_room);
                    skipped_eq = omega (arith, lt, old, s.room);
                    capacity = refl;
                  },
                )
            | inr current ↦ rw current (
              omega arith,
              record {
                cursor_le = omega arith;
                cursor_max = a.cursor_max;
                lapped = omega arith;
                skipped_eq = omega arith;
                capacity = refl;
              },
            )
          ]

    pub skip_hole-Passed :
        (c : BlobConsumer) (skipped : ℕ)
        → IsAttached c skipped
        → let r = skip_hole w c in
          (r.0 ≡ r.1.cursor - c.cursor) × Passed c skipped r.1 (skipped + r.0)
    unfolding skip_hole update_cursor
    skip_hole-Passed c skipped a =
        let write_seq = (w c.now).write_seq in
        let seen = ((w (c.now + 1)).slots (bit_and c.cursor c.mask)).seq in
        let below = s.write_seq_max c.now in
        let from = max (oldest_retained write_seq c.capacity) (add_u64 c.cursor 1) in
        let next_cursor : add_u64 c.cursor 1 ≡ c.cursor + 1 = omega (arith, a.cursor_max, s.room) in
        let old =
          oldest_retained-le write_seq c.capacity below s.room a.capacity_pos a.capacity_max in
        let same : (c' : BlobConsumer)
            → c'.cursor ≡ c.cursor
            → c'.lapped_total ≡ c.lapped_total
            → c'.capacity ≡ c.capacity
            → (0 ≡ c'.cursor - c.cursor) × Passed c skipped c' (skipped + 0) =
          λ c' e l k. (
            omega (arith, e),
            record {
              cursor_le = omega (arith, e);
              cursor_max = omega (arith, e, a.cursor_max);
              lapped = omega (arith, e, l);
              skipped_eq = omega (arith, e);
              capacity = k;
            },
          ) in
        elim (Bool-cases (ltb write_seq c.cursor)) [
          | inl ahead ↦ rw ahead (same (tick c) refl refl refl)
          | inr within ↦ elim (Bool-cases (seen == slot_writing || leb c.cursor seen)) [
            | inl present ↦ rw (within, present) (same (tick (tick c)) refl refl refl)
            | inr hole ↦
                let le : c.cursor ≤ write_seq = ground arith in
                let found = scan_present w c.mask (write_seq + 1 - from) from (c.now + 2) in
                let (lo, hi) =
                  scan_present-bounds c.mask (write_seq + 1 - from) from (c.now + 2)
                    (omega (arith, next_cursor, old, below, s.room, a.cursor_max)) in
                let up : c.cursor < found.0 = omega (arith, lo, next_cursor) in
                let top : found.0 ≤ newest + 1 = omega (arith, hi, old, below, le, next_cursor) in
                rw (within, hole)
                  (
                    omega (arith, up, top, s.room),
                    record {
                      cursor_le = omega (arith, up);
                      cursor_max = top;
                      lapped = omega (arith, up, top, s.room, a.lapped_room);
                      skipped_eq = omega (arith, up, top, s.room);
                      capacity = refl;
                    },
                  )
          ]
        ]
