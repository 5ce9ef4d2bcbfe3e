-- ===== src/Producer/Lossless.antt =====
-- Lossless delivery of src/spmc.rs `push` and `push_batch`: everything that a registered reader has yet
-- to read is in the ring.
use ringfire.Prelude.{
  ℕ, ◌+◌, ◌%◌, ◌^◌, ◌≤◌, ◌<◌, ◌≡◌, ◌∙◌, subst, inl, inr, true, some, List, [], ◌∷◌, arith, length,
  Option-cases,
}
use ringfire.Registry.{ReaderSlot}
use ringfire.Producer.{
  lossless_backpressure, RingProducer, write_one, publish_progress, gate, push, push_each,
  push_batch,
}
use ringfire.Producer.Log.{append, IsRing, write_one-IsRing}
use ringfire.Producer.Gate.{Same, Follows, IsGateSafe, gate-Passes}

-- The log with the messages of a batch, the first of which is number `n`.
abbrev pub append_all : {T : Type 0} → (ℕ → T) → ℕ → List T → ℕ → T
append_all log n [] = log
append_all log n (x ∷ xs) = append_all (append log n x) (n + 1) xs

IsRing-Same :
    {T : Type 0} {p q : RingProducer T} {log : ℕ → T} → Same p q → IsRing p log → IsRing q log
IsRing-Same {p} {q} {log} s r = record {
  log_capacity = r.log_capacity;
  capacity = s.capacity ∙ r.capacity;
  mask = omega (arith, s.mask, s.capacity, r.mask);
  started = omega (arith, s.seq, r.started);
  window = λ n pos below near.
      rw (s.slots, s.capacity)
        (r.window n pos (omega (arith, s.seq)) (omega (arith, s.seq, s.capacity)));
}

-- The ring is a window on the log that reaches back to the cursor of a registered reader, and the gate is
-- safe for it.
pub record Guards {T : Type 0} (cursor : ℕ → ℕ) (p : RingProducer T) (log : ℕ → T) : Type 0 where
  pub ring : IsRing p log
  pub safe : IsGateSafe cursor p
  pub reaches : p.seq ≤ cursor p.now + p.capacity
  pub registry : p.has_registry ≡ true
  pub lossless : p.flow_control ≡ lossless_backpressure

-- What a lossless call leaves for the reader at `cursor`: the log's messages up to `last` are published,
-- and every one from the cursor on lies in its slot with its payload.
pub record Retains {T : Type 0} (cursor : ℕ → ℕ) (q : RingProducer T) (log : ℕ → T) (last : ℕ)
    : Type 0 where
  pub guards : Guards cursor q log
  pub published : q.write_seq ≡ last
  pub unread :
      (n : ℕ)
      → 0 < n
      → cursor q.now ≤ n
      → n ≤ last
      → q.slots (n % q.capacity) ≡ record { seq = n; content = log n }

publish_progress-Retains :
    {T : Type 0} {cursor : ℕ → ℕ} (p : RingProducer T) (log : ℕ → T) (last : ℕ)
    → p.seq ≡ last + 1
    → p.seq < 2 ^ 64
    → Guards cursor p log
    → Retains cursor (publish_progress p) log last
unfolding publish_progress
publish_progress-Retains p log last e lt g = record {
  guards = record {
    ring = record {
      log_capacity = g.ring.log_capacity;
      capacity = g.ring.capacity;
      mask = g.ring.mask;
      started = g.ring.started;
      window = g.ring.window;
    };
    safe = g.safe;
    reaches = g.reaches;
    registry = g.registry;
    lossless = g.lossless;
  };
  published = omega arith;
  unread = λ n pos unread le. g.ring.window n pos (omega arith) (omega (arith, g.reaches));
}

module _ {T : Type 0} (table : ℕ → List ReaderSlot) {cursor : ℕ → ℕ} {from : ℕ} where
  -- One message through the gate.
  gate-write_one-Guards :
      (fuel : ℕ) (p : RingProducer T) {q : RingProducer T} (x : T) {log : ℕ → T}
      → Follows table cursor from p.capacity
      → from ≤ p.now
      → p.seq + 1 < 2 ^ 64
      → Guards cursor p log
      → gate table fuel p ≡ some q
      → Guards cursor (write_one q x) (append log p.seq x)
        × ((write_one q x).seq ≡ p.seq + 1)
        × ((write_one q x).capacity ≡ p.capacity)
        × (p.now ≤ (write_one q x).now)
  unfolding write_one
  gate-write_one-Guards fuel p {q} x {log} f le lt g e =
      let (s, (open_, safe)) = gate-Passes table fuel p f le g.registry g.lossless g.safe e in
      let ring = write_one-IsRing q log (IsRing-Same s g.ring) x (omega (arith, s.seq)) in
      (
        record {
          ring = subst (λ n. IsRing (write_one q x) (append log n x)) s.seq ring;
          safe = safe;
          reaches = omega (arith, open_, safe, s.seq);
          registry = s.has_registry ∙ g.registry;
          lossless = s.flow_control ∙ g.lossless;
        },
        omega (arith, s.seq),
        s.capacity,
        s.later,
      )

  push_each-Guards :
      (fuel : ℕ) (xs : List T) (p : RingProducer T) {q : RingProducer T} (log : ℕ → T)
      → Follows table cursor from p.capacity
      → from ≤ p.now
      → p.seq + length xs < 2 ^ 64
      → Guards cursor p log
      → push_each table fuel p xs ≡ some q
      → Guards cursor q (append_all log p.seq xs)
        × (q.seq ≡ p.seq + length xs)
        × (q.capacity ≡ p.capacity)
        × (p.now ≤ q.now)
  unfolding push_each
  push_each-Guards fuel [] p {q} log f le lt g e =
      let same : p ≡ q = ground (arith, e) in
      (subst (λ r. Guards cursor r log) same g, ground arith, ground arith, ground arith)
  push_each-Guards fuel (x ∷ xs) p {q} log f le lt g e = elim (Option-cases (gate table fuel p)) [
    | inl stuck ↦ absurd (ground (arith, stuck, e))
    | inr (r, passed) ↦
        let (g', next, cap, now) = gate-write_one-Guards fuel p x f le (omega arith) g passed in
        let (g'', seq, cap', now') =
          push_each-Guards fuel xs (write_one r x) (append log p.seq x) (rw cap f)
            (omega (arith, now)) (omega (arith, next)) g' (ground (arith, passed, e)) in
        (rw (← next) g'', omega (arith, seq, next), cap' ∙ cap, omega (arith, now, now'))
  ]

  -- Under `LosslessBackpressure`, when `push_batch` returns, the log has grown by the batch, `write_seq`
  -- is its last number, and every message from the registered reader's cursor on lies in its slot with
  -- its payload. The reader is registered from a moment before the call on and its cursor does not go
  -- back; the producer guarded it before the call; the batch is not empty and the sequences stay below
  -- 2^64.
  pub push_batch-Retains :
      (fuel : ℕ) (x : T) (xs : List T) (p : RingProducer T) {q : RingProducer T} (log : ℕ → T)
      → Follows table cursor from p.capacity
      → from ≤ p.now
      → p.seq + length (x ∷ xs) < 2 ^ 64
      → Guards cursor p log
      → push_batch table fuel p (x ∷ xs) ≡ some q
      → Retains cursor q (append_all log p.seq (x ∷ xs)) (p.seq + length xs)
  unfolding push_batch
  push_batch-Retains fuel x xs p {q} log f le lt g e =
      elim (Option-cases (push_each table fuel p (x ∷ xs))) [
        | inl stuck ↦ absurd (ground (arith, stuck, e))
        | inr (r, pushed) ↦
            let (g', seq, cap, now) = push_each-Guards fuel (x ∷ xs) p log f le lt g pushed in
            let same : publish_progress r ≡ q = ground (arith, pushed, e) in
            subst (λ s. Retains cursor s (append_all log p.seq (x ∷ xs)) (p.seq + length xs)) same
              (publish_progress-Retains r (append_all log p.seq (x ∷ xs)) (p.seq + length xs)
                (omega (arith, seq)) (omega (arith, seq)) g')
      ]

  -- The same for `push` of one message.
  push-Retains :
      (fuel : ℕ) (x : T) (p : RingProducer T) {q : RingProducer T} (log : ℕ → T)
      → Follows table cursor from p.capacity
      → from ≤ p.now
      → p.seq + 1 < 2 ^ 64
      → Guards cursor p log
      → push table fuel p x ≡ some q
      → Retains cursor q (append log p.seq x) p.seq
  unfolding push
  push-Retains fuel x p {q} log f le lt g e = elim (Option-cases (gate table fuel p)) [
    | inl stuck ↦ absurd (ground (arith, stuck, e))
    | inr (r, passed) ↦
        let (g', next, cap, now) = gate-write_one-Guards fuel p x f le lt g passed in
        let same : publish_progress (write_one r x) ≡ q = ground (arith, passed, e) in
        subst (λ s. Retains cursor s (append log p.seq x) p.seq) same
          (publish_progress-Retains (write_one r x) (append log p.seq x) p.seq next
            (omega (arith, next)) g')
  ]
