-- ===== src/Delivery.antt =====
-- From `push_batch` to `recv_batch` of src/spmc.rs: what a producer writes is what a consumer of the same
-- ring reads.
mod Examples
use ringfire.Prelude.{
  ℕ, zero, suc, ◌+◌, ◌-◌, ◌%◌, ◌^◌, ◌≤◌, ◌<◌, max, ◌≡◌, ◌≢◌, refl, sym, ap, ◌∙◌, subst, Bool, true,
  false, Option, none, some, arith, List, [], ◌∷◌, length, inl, inr, bit_and, bit_and-eq-mod,
  update, mod-ne,
}
use native.Mathlib.Decide.{dec_lt}
use native.Mathlib.Nat.{add-mul-mod_self_left, mod-eq_of_lt}
use ringfire.Window.{oldest_retained}
use ringfire.Registry.{ReaderSlot}
use ringfire.Producer.{RingProducer, lossy_latest_wins, push_batch}
use ringfire.Producer.Lossy.{IsClean, push_batch-lossy}
use ringfire.Producer.Lossless.{append_all}
use ringfire.Consumer.{Snapshot, RingConsumer, recv_batch}
use ringfire.Consumer.Rest.{Rests, still, start_of}
use ringfire.Consumer.Drain.{messages, recv_batch-at_rest}

module _ {T : Type 0} where
  -- The memory that a producer's ring is.
  abbrev pub snapshot_of : RingProducer T → Snapshot T
  snapshot_of p = record { write_seq = p.write_seq; slots = p.slots }

  -- A consumer of the same ring, no further than one message past the newest.
  pub record Reads (p : RingProducer T) (newest : ℕ) (c : RingConsumer) : Type 0 where
    pub capacity : c.capacity ≡ p.capacity
    pub mask : c.mask ≡ p.mask
    pub started : 0 < c.cursor
    pub behind : c.cursor ≤ newest + 1
    pub single : c.multi_producer ≡ false
    pub dense : c.sparse ≡ false

  next_slot-early :
      (p : RingProducer T) (log : ℕ → T)
      → IsClean p log
      → p.seq ≡ p.write_seq + 1
      → p.write_seq < p.capacity
      → (p.slots ((p.write_seq + 1) % p.capacity)).seq ≤ p.write_seq
  next_slot-early p log c e early = elim (dec_lt (p.write_seq + 1) p.capacity) [
    | yes inside ↦
        let at : (p.write_seq + 1) % p.capacity ≡ p.write_seq + 1 = mod-eq_of_lt inside in
        rw at (omega (arith, c.untouched (p.write_seq + 1) (omega arith) inside))
    | no last ↦
        let at : (p.write_seq + 1) % p.capacity ≡ 0 =
          ap (λ (n : ℕ). n % p.capacity) (omega arith)
          ∙ add-mul-mod_self_left 0 p.capacity 1
          ∙ mod-eq_of_lt (omega (arith, c.ring.mask)) in
        rw at (omega (arith, c.first (omega arith)))
  ]

  -- The slot of the next message holds an older one.
  next_slot-old :
      (p : RingProducer T) (log : ℕ → T)
      → IsClean p log
      → p.seq ≡ p.write_seq + 1
      → (p.slots ((p.write_seq + 1) % p.capacity)).seq ≤ p.write_seq
  next_slot-old p log c e =
      let r = c.ring in
      let pos : 0 < p.capacity = omega (arith, r.mask) in
      elim (dec_lt p.write_seq p.capacity) [
        | yes early ↦ next_slot-early p log c e early
        | no later ↦
            let m = p.write_seq + 1 - p.capacity in
            let back : (p.write_seq + 1) % p.capacity ≡ m % p.capacity =
              ap (λ (n : ℕ). n % p.capacity) (omega arith) ∙ add-mul-mod_self_left m p.capacity 1 in
            rw back (rw (r.window m (omega arith) (omega arith) (omega arith)) (omega arith))
      ]

  published-Rests :
      (p : RingProducer T) (log : ℕ → T) (c : RingConsumer)
      → IsClean p log
      → p.seq ≡ p.write_seq + 1
      → p.seq + p.capacity < 2 ^ 64
      → Reads p p.write_seq c
      → Rests (snapshot_of p) log c
  published-Rests p log c clean e small reads =
      let r = clean.ring in
      record {
        exponent = r.log_capacity;
        capacity = reads.capacity ∙ r.capacity;
        mask = omega (arith, reads.mask, reads.capacity, r.mask);
        small = omega (arith, reads.capacity);
        window = λ n pos le near.
            rw reads.capacity (r.window n pos (omega arith) (omega (arith, reads.capacity)));
        beyond = rw reads.capacity (next_slot-old p log clean e);
        started = reads.started;
        behind = reads.behind;
        single = reads.single;
        dense = reads.dense;
      }

  -- The batch from a published ring whose newest message is `newest`.
  published-recv_batch :
      (q : RingProducer T) (log : ℕ → T) (c : RingConsumer) (newest rounds room left : ℕ)
      → IsClean q log
      → q.write_seq ≡ newest
      → q.seq ≡ newest + 1
      → newest + 1 + q.capacity < 2 ^ 64
      → Reads q newest c
      → newest + 1 ≡ max c.cursor (oldest_retained newest c.capacity) + left
      → (d : RingConsumer) × (recv_batch (still (snapshot_of q)) (suc (suc rounds)) room c
          ≡ some (messages log (max c.cursor (oldest_retained newest c.capacity)) room left, d))
  published-recv_batch q log c newest rounds room left clean ws next small reads e =
      let reads' = subst (λ n. Reads q n c) (sym ws) reads in
      let rests =
        published-Rests q log c clean (omega (arith, ws, next)) (omega (arith, next)) reads' in
      let left' : q.write_seq + 1 ≡ start_of (snapshot_of q) c + left =
        subst (λ n. n + 1 ≡ max c.cursor (oldest_retained n c.capacity) + left) (sym ws) e in
      let (d, got) = recv_batch-at_rest (snapshot_of q) log rounds room left c rests left' in
      (
        d,
        got
            ∙ ap
                (λ (n : ℕ).
                  some (messages log (max c.cursor (oldest_retained n c.capacity)) room left, d))
                ws,
      )

  -- A lossy producer of a clean ring pushes a batch, and a consumer of the ring then reads a batch: both
  -- calls return, and the consumer gets the log's messages in order, those before and those of the batch,
  -- from the oldest retained one at or after its cursor on, as many as are published and its buffer holds.
  -- Nobody writes in between, the sequences stay a capacity away from the wrap, and the batch is not
  -- empty.
  pub recv_batch-push_batch :
      (table : ℕ → List ReaderSlot) (fuel : ℕ) (x : T) (xs : List T) (p : RingProducer T)
      (log : ℕ → T) (c : RingConsumer) (rounds room left : ℕ)
      → p.flow_control ≡ lossy_latest_wins
      → p.seq + length (x ∷ xs) + p.capacity < 2 ^ 64
      → IsClean p log
      → Reads p (p.seq + length xs) c
      → p.seq + length (x ∷ xs)
        ≡ max c.cursor (oldest_retained (p.seq + length xs) c.capacity) + left
      → (q : RingProducer T) × (d : RingConsumer) × (push_batch table fuel p (x ∷ xs) ≡ some q)
        × (recv_batch (still (snapshot_of q)) (suc (suc rounds)) room c
            ≡ some (
              messages
                  (append_all log p.seq (x ∷ xs))
                  (max c.cursor (oldest_retained (p.seq + length xs) c.capacity))
                  room
                  left,
              d,
            ))
  recv_batch-push_batch table fuel x xs p log c rounds room left lossy small clean reads e =
      let (q, pushed, clean', ws, next, cap, mask) =
        push_batch-lossy table fuel x xs p log lossy (omega arith) clean in
      let reads' : Reads q (p.seq + length xs) c = record {
        capacity = reads.capacity ∙ sym cap;
        mask = reads.mask ∙ sym mask;
        started = reads.started;
        behind = reads.behind;
        single = reads.single;
        dense = reads.dense;
      } in
      let (d, got) =
        published-recv_batch q (append_all log p.seq (x ∷ xs)) c (p.seq + length xs) rounds room
          left clean' ws (omega (arith, ws, next)) (omega (arith, cap)) reads' (omega (arith, e)) in
      (q, d, pushed, got)
