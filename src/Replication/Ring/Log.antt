-- ===== src/Replication/Ring/Log.antt =====
-- The mirror's ring of src/replication.rs as a window on the source's log, from the last hole on.
use ringfire.Prelude.{
  ℕ, ◌+◌, ◌%◌, ◌^◌, ◌≤◌, ◌<◌, ◌≡◌, List, arith, bit_and, bit_and-eq-mod, mod-ne, update,
}
use native.Mathlib.Decide.{ℕ_discrete}
use ringfire.Slot.{write_slot}
use ringfire.Replication.Ring.{MirrorRing, write, publish_written, skip_to}

-- Every message from `from` on that lies less than one capacity behind the next one is in its slot, under
-- the source's number and with the source's payload.
pub record IsLog (log : ℕ → List ℕ) (from : ℕ) (r : MirrorRing) : Type 0 where
  pub log_capacity : ℕ
  pub capacity : r.view.capacity ≡ 2 ^ log_capacity
  pub mask : r.view.mask + 1 ≡ r.view.capacity
  pub started : 0 < r.next_seq
  pub from_le : from ≤ r.next_seq
  pub window :
      (n : ℕ)
      → from ≤ n
      → n < r.next_seq
      → r.next_seq ≤ n + r.view.capacity
      → r.slots (n % r.view.capacity) ≡ record { seq = n; content = log n }

module _ (log : ℕ → List ℕ) (from : ℕ) (r : MirrorRing) (l : IsLog log from r) where
  -- Writing the next message of the log.
  pub write-IsLog : (s : ℕ) → s ≡ r.next_seq → s + 1 < 2 ^ 64 → IsLog log from (write s (log s) r)
  unfolding write write_slot
  write-IsLog s same lt = record {
    log_capacity = l.log_capacity;
    capacity = l.capacity;
    mask = l.mask;
    started = omega arith;
    from_le = omega (arith, l.from_le);
    window = λ n old below near. slot_at n old (omega arith) (omega arith);
  }
    where
      idx : bit_and s r.view.mask ≡ s % r.view.capacity
      idx = (bit_and-eq-mod l.log_capacity r.view.capacity r.view.mask s l.capacity l.mask).0

      slot_at :
          (n : ℕ)
          → from ≤ n
          → n ≤ s
          → s < n + r.view.capacity
          → update r.slots
              (bit_and s r.view.mask)
              (record { seq = s; content = log s })
              (n % r.view.capacity)
            ≡ record { seq = n; content = log n }
      slot_at n old le near = elim (ℕ_discrete n s) [
        | yes e ↦ rw (idx, e) (ground arith)
        | no ne ↦ rw idx (
            ground (
              arith,
              mod-ne n s r.view.capacity (omega arith) near,
              l.window n old (omega arith) (omega arith),
            ))
      ]

  pub publish_written-IsLog : IsLog log from (publish_written r)
  unfolding publish_written
  publish_written-IsLog = record {
    log_capacity = l.log_capacity;
    capacity = l.capacity;
    mask = l.mask;
    started = l.started;
    from_le = l.from_le;
    window = l.window;
  }

-- A skip leaves the window from the new position on.
pub skip_to-IsLog :
    (log : ℕ → List ℕ) (from : ℕ) (r : MirrorRing) (seq : ℕ)
    → IsLog log from r
    → r.next_seq < seq
    → IsLog log seq (skip_to seq r)
unfolding skip_to
skip_to-IsLog log from r seq l lt =
    let e : skip_to seq r ≡ record r { next_seq = seq } = ground arith in
    rw e (record {
      log_capacity = l.log_capacity;
      capacity = l.capacity;
      mask = l.mask;
      started = omega arith;
      from_le = omega arith;
      window = λ n old below near. absurd (omega arith);
    })
