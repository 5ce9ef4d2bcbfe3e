-- ===== src/Producer/Wait.antt =====
-- When `wait_for_headroom` of src/spmc.rs ends, and what `try_push` does when there is no room.
use ringfire.Prelude.{
  ℕ, zero, suc, ◌+◌, ◌/◌, ◌%◌, ◌^◌, ◌≤◌, ◌<◌, max, ◌≡◌, ◌≢◌, refl, ◌∙◌, subst, inl, inr, true,
  false, Option, none, some, List, arith, leb, Bool-cases, Option-cases, if◌then◌else◌, ◌&&◌,
  add_u32, is_multiple_of, ltb,
}
use ringfire.Errors.{RingfireError, Result, err, backpressure_buffer_full}
use ringfire.Registry.{ReaderSlot, min_cursor}
use ringfire.Producer.{
  RingProducer, is_lossless, write_one, publish_progress, limit_of, refresh_gate, wait_loop,
  wait_for_headroom, gate, push, returned_ok, retry, try_push,
}
use ringfire.Producer.Gate.{Same, Same-refl, Same-trans, refresh_gate-Same, publish_progress-Same}

-- What the scan at moment `t` finds.
abbrev pub scan_at : {T : Type 0} → (ℕ → List ReaderSlot) → RingProducer T → ℕ → Option ℕ
scan_at table p t = if p.has_registry then min_cursor (table t) else none

-- The slowest reader, if any, leaves room for message `seq`.
abbrev pub LeavesRoom : Option ℕ → (capacity seq : ℕ) → Type 0
LeavesRoom none capacity seq = Unit
LeavesRoom (some m) capacity seq = (seq < m + capacity) × (m + capacity < 2 ^ 64)

limit_of-lt :
    (o : Option ℕ) (capacity seq : ℕ)
    → LeavesRoom o capacity seq
    → seq + capacity + 1 < 2 ^ 64
    → seq < limit_of o capacity seq (max (capacity / 2) 1)
limit_of-lt none capacity seq h lt = omega arith
limit_of-lt (some m) capacity seq h lt = omega arith

returned_ok-ne :
    {T : Type 0} (o : Option (RingProducer T)) (e : RingfireError) (q : RingProducer T)
    → returned_ok o ≢ some (err e, q)
returned_ok-ne none e q h = cc
returned_ok-ne (some u) e q h = ground arith

module _ {T : Type 0} (table : ℕ → List ReaderSlot) where
  refresh_gate_opens :
      (p : RingProducer T)
      → LeavesRoom (scan_at table p p.now) p.capacity p.seq
      → p.seq + p.capacity + 1 < 2 ^ 64
      → (refresh_gate table p).0 ≡ true
  unfolding refresh_gate
  refresh_gate_opens p h lt =
      ground (arith, limit_of-lt (scan_at table p p.now) p.capacity p.seq h lt)

  refresh_gate-now : (p : RingProducer T) → (refresh_gate table p).1.now ≡ p.now + 1
  unfolding refresh_gate
  refresh_gate-now p = refl

  refresh_gate-LeavesRoom :
      (p : RingProducer T) (round : ℕ)
      → LeavesRoom (scan_at table p (p.now + suc round)) p.capacity p.seq
      → let q = (refresh_gate table p).1 in
        LeavesRoom (scan_at table q (q.now + round)) q.capacity q.seq
  unfolding refresh_gate
  refresh_gate-LeavesRoom p round h =
      let at : p.now + suc round ≡ p.now + 1 + round = omega arith in
      subst (λ t. LeavesRoom (scan_at table p t) p.capacity p.seq) at h

  wait_loop_total :
      (fuel round : ℕ) (p : RingProducer T)
      → round < fuel
      → LeavesRoom (scan_at table p (p.now + round)) p.capacity p.seq
      → p.seq + p.capacity + 1 < 2 ^ 64
      → (q : RingProducer T) × (wait_loop table fuel p ≡ some q) × Same p q
  unfolding wait_loop
  wait_loop_total zero round p le h lt = absurd (omega arith)
  wait_loop_total (suc fuel) zero p le h lt =
      let at : p.now + 0 ≡ p.now = omega arith in
      let free =
        refresh_gate_opens p (subst (λ t. LeavesRoom (scan_at table p t) p.capacity p.seq) at h)
          lt in
      ((refresh_gate table p).1, ground (arith, free), refresh_gate-Same table p)
  wait_loop_total (suc fuel) (suc round) p le h lt = elim (Bool-cases (refresh_gate table p).0) [
    | inl free ↦ ((refresh_gate table p).1, ground (arith, free), refresh_gate-Same table p)
    | inr full ↦
        let s = refresh_gate-Same table p in
        let (q, e, s') =
          wait_loop_total fuel round (refresh_gate table p).1 (omega arith)
            (refresh_gate-LeavesRoom p round h) (omega (arith, s.seq, s.capacity)) in
        (q, ground (arith, full, e), Same-trans s s')
  ]

  publish_progress-LeavesRoom :
      (p : RingProducer T) (round : ℕ)
      → LeavesRoom (scan_at table p (p.now + 1 + round)) p.capacity p.seq
      → let q = publish_progress (refresh_gate table p).1 in
        LeavesRoom (scan_at table q (q.now + round)) q.capacity q.seq
  unfolding refresh_gate publish_progress
  publish_progress-LeavesRoom p round h = h

  gate_total :
      (fuel round : ℕ) (p : RingProducer T)
      → round < fuel
      → LeavesRoom (scan_at table p (p.now + 1 + round)) p.capacity p.seq
      → p.seq + p.capacity + 1 < 2 ^ 64
      → (q : RingProducer T) × (gate table fuel p ≡ some q) × Same p q
  unfolding gate wait_for_headroom
  gate_total fuel round p lt h small =
      let s =
        Same-trans (refresh_gate-Same table p) (publish_progress-Same (refresh_gate table p).1) in
      let (q, e, s') =
        wait_loop_total fuel round (publish_progress (refresh_gate table p).1) lt
          (publish_progress-LeavesRoom p round h) (omega (arith, s.seq, s.capacity)) in
      elim (Bool-cases (is_lossless p.flow_control && leb p.gate_limit p.seq)) [
        | inr open_ ↦ (p, ground (arith, open_), Same-refl p)
        | inl shut ↦ elim (Bool-cases p.has_registry) [
          | inr bare ↦ (p, ground (arith, shut, bare), Same-refl p)
          | inl reg ↦ elim (Bool-cases (refresh_gate table p).0) [
            | inl free ↦ (
              (refresh_gate table p).1,
              ground (arith, shut, reg, free),
              refresh_gate-Same table p,
            )
            | inr full ↦ (q, ground (arith, shut, reg, full, e), Same-trans s s')
          ]
        ]
      ]

  -- `push` returns once a scan finds room: after `round` scans that may find none, with fuel for one
  -- more, the message is published, whatever the policy. The sequence is a capacity away from the wrap.
  pub push_total :
      (fuel round : ℕ) (p : RingProducer T) (x : T)
      → round < fuel
      → LeavesRoom (scan_at table p (p.now + 1 + round)) p.capacity p.seq
      → p.seq + p.capacity + 1 < 2 ^ 64
      → (q : RingProducer T) × (push table fuel p x ≡ some q)
        × (q.write_seq ≡ p.seq)
        × (q.seq ≡ p.seq + 1)
  unfolding push publish_progress write_one
  push_total fuel round p x lt h small =
      let (q, e, s) = gate_total fuel round p lt h small in
      (
        publish_progress (write_one q x),
        ground (arith, e),
        omega (arith, s.seq),
        omega (arith, s.seq),
      )

  abbrev Refused : RingProducer T → RingfireError → RingProducer T → Type 0
  Refused p e q =
      (e ≡ backpressure_buffer_full)
      × (q.slots ≡ p.slots)
      × (q.seq ≡ p.seq)
      × (q.write_seq ≡ p.write_seq)

  refresh_gate-write_seq : (p : RingProducer T) → (refresh_gate table p).1.write_seq ≡ p.write_seq
  unfolding refresh_gate
  refresh_gate-write_seq p = refl

  Refused-at :
      (p u q : RingProducer T) (e : RingfireError)
      → Same p u
      → u.write_seq ≡ p.write_seq
      → ◌≡◌ {A = Option (Result (Unit {0}) × RingProducer T)}
          (some (err backpressure_buffer_full, u))
          (some (err e, q))
      → Refused p e q
  Refused-at p u q e s ws h =
      let same : u ≡ q = ground (arith, h) in
      let refused : Refused p backpressure_buffer_full u = (refl, s.slots, s.seq, ws) in
      let kind : backpressure_buffer_full ≡ e = ground (arith, h) in
      subst (λ k. Refused p k q) kind (subst (Refused p backpressure_buffer_full) same refused)

  -- The producer after a poll that found the ring full.
  abbrev polled : RingProducer T → RingProducer T
  polled p = record p { blocked_polls = add_u32 p.blocked_polls 1 }

  abbrev polled_later : RingProducer T → RingProducer T
  polled_later p = record p { blocked_polls = add_u32 p.blocked_polls 1; now = p.now + 1 }

  retry-Refused :
      (pruned : ℕ → ℕ) (fuel : ℕ) (p q : RingProducer T) (x : T) (e : RingfireError)
      → retry table pruned fuel p x ≡ some (err e, q)
      → Refused p e q
  unfolding retry
  retry-Refused pruned fuel p q x e h =
      let r = refresh_gate table (polled_later p) in
      elim (Bool-cases (is_multiple_of (polled p).blocked_polls 1024 && p.has_registry)) [
        | inr no_scan ↦ Refused-at p (polled p) q e (ground arith) refl (ground (arith, no_scan, h))
        | inl prune ↦ elim (Bool-cases (ltb 0 (pruned p.now))) [
          | inr nobody ↦
              Refused-at p (polled_later p) q e (ground arith) refl
                (ground (arith, prune, nobody, h))
          | inl some_dead ↦ elim (Bool-cases r.0) [
            | inl free ↦ absurd (
                returned_ok-ne (push table fuel r.1 x) e q
                  (ground (arith, prune, some_dead, free, h)))
            | inr full ↦
                Refused-at p r.1 q e
                  (Same-trans {q = polled_later p} (ground arith)
                    (refresh_gate-Same table (polled_later p)))
                  (refresh_gate-write_seq (polled_later p))
                  (ground (arith, prune, some_dead, full, h))
          ]
        ]
      ]

  refresh_gate_shut :
      (p : RingProducer T)
      → p.seq + p.capacity + 1 < 2 ^ 64
      → (refresh_gate table p).0 ≡ false
      → (m : ℕ) × (scan_at table p p.now ≡ some m) × ((m + p.capacity) % 2 ^ 64 ≤ p.seq)
  unfolding refresh_gate
  refresh_gate_shut p small h = elim (Option-cases (scan_at table p p.now)) [
    | inl nobody ↦ absurd (ground (arith, nobody, h))
    | inr (m, found) ↦ (m, found, ground (arith, found, h))
  ]

  -- `try_push` under `LosslessBackpressure` fails only with `BackpressureBufferFull`, only after a scan
  -- that found a registered reader whose next message would lose its slot to message `seq`, and then it
  -- publishes and overwrites nothing.
  pub try_push-full :
      (pruned : ℕ → ℕ) (fuel : ℕ) (p q : RingProducer T) (x : T) (e : RingfireError)
      → p.seq + p.capacity + 1 < 2 ^ 64
      → try_push table pruned fuel p x ≡ some (err e, q)
      → (e ≡ backpressure_buffer_full)
        × (is_lossless p.flow_control ≡ true)
        × ((m : ℕ) × (scan_at table p p.now ≡ some m) × ((m + p.capacity) % 2 ^ 64 ≤ p.seq))
        × (q.slots ≡ p.slots)
        × (q.seq ≡ p.seq)
        × (q.write_seq ≡ p.write_seq)
  unfolding try_push
  try_push-full pruned fuel p q x e small h =
      elim (Bool-cases (is_lossless p.flow_control && leb p.gate_limit p.seq)) [
        | inr open_ ↦ absurd (returned_ok-ne (push table fuel p x) e q (ground (arith, open_, h)))
        | inl shut ↦ elim (Bool-cases (refresh_gate table p).0) [
          | inl free ↦ absurd (
              returned_ok-ne (push table fuel (refresh_gate table p).1 x) e q
                (ground (arith, shut, free, h)))
          | inr full ↦
              let s = refresh_gate-Same table p in
              let (same_e, slots, seq, ws) =
                retry-Refused pruned fuel (refresh_gate table p).1 q x e
                  (ground (arith, shut, full, h)) in
              (
                same_e,
                ground (arith, shut),
                refresh_gate_shut p small full,
                slots ∙ s.slots,
                seq ∙ s.seq,
                ws ∙ refresh_gate-write_seq p,
              )
        ]
      ]
