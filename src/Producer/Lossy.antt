-- ===== src/Producer/Lossy.antt =====
-- A lossy producer of src/spmc.rs: `push_batch` returns at once, and the ring is the window on the log.
use ringfire.Prelude.{
  ℕ, ◌+◌, ◌%◌, ◌^◌, ◌≤◌, ◌<◌, ◌≡◌, refl, ap, ◌∙◌, subst, some, arith, List, [], ◌∷◌, length,
  bit_and-eq-mod,
}
use mathlib.Core.Option
use native.Mathlib.Nat.{mod-eq_of_lt}
use ringfire.Slot.{write_slot}
use ringfire.Registry.{ReaderSlot}
use ringfire.Producer.{
  RingProducer, lossy_latest_wins, write_one, publish_progress, gate, push_each, push_batch,
}
use ringfire.Producer.Log.{IsRing, append, write_one-IsRing}
use ringfire.Producer.Lossless.{append_all}

module _ {T : Type 0} where
  -- The ring and its log, and the slots that no message has reached are as the file was made, zero.
  pub record IsClean (p : RingProducer T) (log : ℕ → T) : Type 0 where
    pub ring : IsRing p log
    pub untouched : (i : ℕ) → p.seq ≤ i → i < p.capacity → (p.slots i).seq ≡ 0
    pub first : p.seq ≤ p.capacity → (p.slots 0).seq ≡ 0

  write_one-IsClean :
      (p : RingProducer T) (log : ℕ → T) (x : T)
      → IsClean p log
      → p.seq + 1 < 2 ^ 64
      → IsClean (write_one p x) (append log p.seq x)
  unfolding write_one write_slot
  write_one-IsClean p log x c lt =
      let r = c.ring in
      let idx = bit_and-eq-mod r.log_capacity p.capacity p.mask p.seq r.capacity r.mask in
      record {
        ring = write_one-IsRing p log r x lt;
        untouched = λ i le lt'. ground (arith, c.untouched i (omega arith) lt', idx);
        first = λ le.
            let at : p.seq % p.capacity ≡ p.seq = mod-eq_of_lt (omega arith) in
            ground (arith, c.first (omega arith), idx, at, r.started);
      }

  write_one-seq :
      (p : RingProducer T) (x : T)
      → p.seq + 1 < 2 ^ 64
      → ((write_one p x).seq ≡ p.seq + 1)
        × ((write_one p x).capacity ≡ p.capacity)
        × ((write_one p x).mask ≡ p.mask)
        × ((write_one p x).flow_control ≡ p.flow_control)
  unfolding write_one
  write_one-seq p x lt = (omega arith, refl, refl, refl)

  -- A lossy producer goes through every message of a batch.
  push_each-lossy :
      (table : ℕ → List ReaderSlot) (fuel : ℕ) (xs : List T) (p : RingProducer T) (log : ℕ → T)
      → p.flow_control ≡ lossy_latest_wins
      → p.seq + length xs < 2 ^ 64
      → IsClean p log
      → (q : RingProducer T) × (push_each table fuel p xs ≡ some q)
        × IsClean q (append_all log p.seq xs)
        × (q.seq ≡ p.seq + length xs)
        × (q.capacity ≡ p.capacity)
        × (q.mask ≡ p.mask)
  unfolding push_each gate
  push_each-lossy table fuel [] p log lossy lt c = (p, refl, c, omega arith, refl, refl)
  push_each-lossy table fuel (x ∷ xs) p log lossy lt c =
      let (seq, cap, mask, fc) = write_one-seq p x (omega arith) in
      let (q, e, c', seq', cap', mask') =
        push_each-lossy table fuel xs (write_one p x) (append log p.seq x) (fc ∙ lossy)
          (omega (arith, seq)) (write_one-IsClean p log x c (omega arith)) in
      (
        q,
        ground (arith, lossy, e),
        subst (λ n. IsClean q (append_all (append log p.seq x) n xs)) seq c',
        omega (arith, seq, seq'),
        cap' ∙ cap,
        mask' ∙ mask,
      )

  publish_progress-IsClean :
      (p : RingProducer T) (log : ℕ → T) → IsClean p log → IsClean (publish_progress p) log
  unfolding publish_progress
  publish_progress-IsClean p log c = record {
    ring = record {
      log_capacity = c.ring.log_capacity;
      capacity = c.ring.capacity;
      mask = c.ring.mask;
      started = c.ring.started;
      window = c.ring.window;
    };
    untouched = c.untouched;
    first = c.first;
  }

  -- A lossy `push_batch` returns whatever the readers do: the log has grown by the batch, and `write_seq`
  -- is its last number.
  pub push_batch-lossy :
      (table : ℕ → List ReaderSlot) (fuel : ℕ) (x : T) (xs : List T) (p : RingProducer T)
      (log : ℕ → T)
      → p.flow_control ≡ lossy_latest_wins
      → p.seq + length (x ∷ xs) < 2 ^ 64
      → IsClean p log
      → (q : RingProducer T) × (push_batch table fuel p (x ∷ xs) ≡ some q)
        × IsClean q (append_all log p.seq (x ∷ xs))
        × (q.write_seq ≡ p.seq + length xs)
        × (q.seq ≡ q.write_seq + 1)
        × (q.capacity ≡ p.capacity)
        × (q.mask ≡ p.mask)
  unfolding push_batch publish_progress
  push_batch-lossy table fuel x xs p log lossy lt c =
      let (r, e, c', seq, cap, mask) = push_each-lossy table fuel (x ∷ xs) p log lossy lt c in
      (
        publish_progress r,
        ap (Option.map publish_progress) e,
        publish_progress-IsClean r (append_all log p.seq (x ∷ xs)) c',
        omega (arith, seq),
        omega (arith, seq),
        cap,
        mask,
      )
