-- ===== src/Producer.antt =====
-- src/spmc.rs `RingProducer`: publishing under both flow-control policies. The producer's own fields and
-- the ring's memory are one record. `table t` is the reader registry at moment `t` and `pruned t` what
-- `prune_dead_readers` returns then: the readers change both. `now` is the moment of the next scan.
pub mod Log
pub mod Gate
pub mod Lossless
pub mod Lossy
pub mod Wait
mod Examples
use ringfire.Prelude.{
  ℕ, zero, suc, ◌+◌, ◌-◌, ◌/◌, ◌%◌, ◌^◌, min, max, Bool, true, false, not, ◌&&◌, ◌||◌, Option, none,
  some, List, [], ◌∷◌, ltb, leb, ◌==◌, if◌then◌else◌, add_u64, sub_u64, add_u32, bit_and, update,
  is_multiple_of,
}
use ringfire.Errors.{Result, ok, err, backpressure_buffer_full}
use mathlib.Core.Option
use ringfire.Slot.{Slot, write_slot}
use ringfire.Registry.{ReaderSlot, min_cursor}

pub data FlowControl : Type 0 where
  lossy_latest_wins lossless_backpressure : FlowControl

abbrev pub is_lossless : FlowControl → Bool
is_lossless lossy_latest_wins = false
is_lossless lossless_backpressure = true

pub record RingProducer (T : Type 0) : Type 0 where
  pub slots : ℕ → Slot T
  pub write_seq : ℕ
  pub capacity : ℕ
  pub mask : ℕ
  pub seq : ℕ
  pub gate_limit : ℕ
  pub blocked_polls : ℕ
  pub flow_control : FlowControl
  pub has_registry : Bool
  pub now : ℕ

module _ {T : Type 0} where
  pub write_one : RingProducer T → T → RingProducer T
  unfolding write_slot
  write_one p x =
      let idx = bit_and p.seq p.mask in
      record p {
        slots = update p.slots idx (write_slot (p.slots idx) p.seq x);
        seq = add_u64 p.seq 1;
      }

  pub publish_progress : RingProducer T → RingProducer T
  publish_progress p = record p { write_seq = sub_u64 p.seq 1 }

-- `push` and then `Ok(())`.
abbrev pub returned_ok :
    {T : Type 0} → Option (RingProducer T) → Option (Result (Unit {0}) × RingProducer T)
returned_ok none = none
returned_ok (some p) = some (ok tt, p)

abbrev pub limit_of : Option ℕ → (capacity seq rescan_window : ℕ) → ℕ
limit_of none capacity seq rescan_window = add_u64 seq rescan_window
limit_of (some min_cursor) capacity seq rescan_window =
    min (add_u64 min_cursor capacity) (add_u64 seq rescan_window)

module _ {T : Type 0} (table : ℕ → List ReaderSlot) where
  abbrev pub scan : RingProducer T → Option ℕ
  scan p = if p.has_registry then min_cursor (table p.now) else none

  pub refresh_gate : RingProducer T → Bool × RingProducer T
  refresh_gate p =
      let limit = limit_of (scan p) p.capacity p.seq (max (p.capacity / 2) 1) in
      (ltb p.seq limit, record p { gate_limit = limit; now = p.now + 1 })

  -- The loop of `wait_for_headroom`, on fuel: it spins, yields or sleeps, and scans again. Dead readers
  -- that it prunes are gone from the later tables.
  pub wait_loop : ℕ → RingProducer T → Option (RingProducer T)
  wait_loop zero p = none
  wait_loop (suc fuel) p =
      let (free, q) = refresh_gate p in let rest = wait_loop fuel q in if free then some q else rest

  pub wait_for_headroom : ℕ → RingProducer T → Option (RingProducer T)
  wait_for_headroom fuel p =
      let (free, q) = refresh_gate p in
      if not p.has_registry
      then some p
      else if free
      then some q
      else wait_loop fuel (publish_progress q)

  -- `if lossless && self.seq >= self.gate_limit { self.wait_for_headroom(); }`
  pub gate : ℕ → RingProducer T → Option (RingProducer T)
  gate fuel p =
      if is_lossless p.flow_control && leb p.gate_limit p.seq
      then wait_for_headroom fuel p
      else some p

  pub push : ℕ → RingProducer T → T → Option (RingProducer T)
  push fuel p x = Option.map (λ q. publish_progress (write_one q x)) (gate fuel p)

  -- The loop of `push_batch`.
  pub push_each : ℕ → RingProducer T → List T → Option (RingProducer T)
  push_each fuel p [] = some p
  push_each fuel p (x ∷ xs) = elim (gate fuel p) [
    | none ↦ none
    | some q ↦ push_each fuel (write_one q x) xs
  ]

  pub push_batch : ℕ → RingProducer T → List T → Option (RingProducer T)
  push_batch fuel p [] = some p
  push_batch fuel p (x ∷ xs) = Option.map publish_progress (push_each fuel p (x ∷ xs))

  module _ (pruned : ℕ → ℕ) where
    -- The blocked branch of `try_push`: `q` is the producer after the failed `refresh_gate`.
    pub retry : ℕ → RingProducer T → T → Option (Result (Unit {0}) × RingProducer T)
    retry fuel q x =
        let polled = record q { blocked_polls = add_u32 q.blocked_polls 1 } in
        let (free, r) = refresh_gate (record polled { now = polled.now + 1 }) in
        if is_multiple_of polled.blocked_polls 1024 && q.has_registry
        then (if ltb 0 (pruned polled.now)
            then (if free
                then returned_ok (push fuel r x)
                else some (err backpressure_buffer_full, r))
            else some (err backpressure_buffer_full, record polled { now = polled.now + 1 }))
        else some (err backpressure_buffer_full, polled)

    pub try_push : ℕ → RingProducer T → T → Option (Result (Unit {0}) × RingProducer T)
    try_push fuel p x =
        let (free, q) = refresh_gate p in
        if is_lossless p.flow_control && leb p.gate_limit p.seq
        then (if free then returned_ok (push fuel q x) else retry fuel q x)
        else returned_ok (push fuel p x)

module _ {T : Type 0} where
  pub sequence : RingProducer T → ℕ
  sequence p = sub_u64 p.seq 1
