-- ===== src/Producer/Log.antt =====
-- The ring of src/spmc.rs as a window on the log of everything that was published.
use ringfire.Prelude.{
  ℕ, ◌+◌, ◌%◌, ◌^◌, ◌≤◌, ◌<◌, ◌≡◌, arith, bit_and, bit_and-eq-mod, mod-ne, update,
}
use native.Mathlib.Decide.{ℕ_discrete}
use ringfire.Slot.{write_slot}
use ringfire.Producer.{RingProducer, write_one}

-- The log of messages by their number, and the log with message `n` added.
abbrev pub append : {T : Type 0} → (ℕ → T) → ℕ → T → ℕ → T
append log n x = update log n x

-- The ring holds the last `capacity` messages of the log, each in the slot of its number; `seq` is the
-- next number.
pub record IsRing {T : Type 0} (p : RingProducer T) (log : ℕ → T) : Type 0 where
  pub log_capacity : ℕ
  pub capacity : p.capacity ≡ 2 ^ log_capacity
  pub mask : p.mask + 1 ≡ p.capacity
  pub started : 0 < p.seq
  pub window :
      (n : ℕ)
      → 0 < n
      → n < p.seq
      → p.seq ≤ n + p.capacity
      → p.slots (n % p.capacity) ≡ record { seq = n; content = log n }

module _ {T : Type 0} (p : RingProducer T) (log : ℕ → T) (r : IsRing p log) where
  -- `write_one` publishes message `seq` and overwrites only the message one capacity older: the ring
  -- then holds the window of the log with that message added. The sequence must not wrap.
  pub write_one-IsRing : (x : T) → p.seq + 1 < 2 ^ 64 → IsRing (write_one p x) (append log p.seq x)
  unfolding write_one write_slot
  write_one-IsRing x lt = record {
    log_capacity = r.log_capacity;
    capacity = r.capacity;
    mask = r.mask;
    started = omega arith;
    window = λ n pos below near. slot_at n pos (omega arith) (omega arith);
  }
    where
      idx : bit_and p.seq p.mask ≡ p.seq % p.capacity
      idx = (bit_and-eq-mod r.log_capacity p.capacity p.mask p.seq r.capacity r.mask).0

      slot_at :
          (n : ℕ)
          → 0 < n
          → n ≤ p.seq
          → p.seq < n + p.capacity
          → update p.slots
              (bit_and p.seq p.mask)
              (record { seq = p.seq; content = x })
              (n % p.capacity)
            ≡ record { seq = n; content = append log p.seq x n }
      slot_at n pos le near = elim (ℕ_discrete n p.seq) [
        | yes e ↦ rw (idx, e) (ground arith)
        | no ne ↦ rw idx (
            ground (
              arith,
              mod-ne n p.seq p.capacity (omega arith) near,
              r.window n pos (omega arith) (omega arith),
            ))
      ]
