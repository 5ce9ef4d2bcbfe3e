-- ===== src/Producer/Gate.antt =====
-- Flow control of src/spmc.rs: what `refresh_gate` and `wait_for_headroom` change, and that under
-- `LosslessBackpressure` no write takes the slot of a message that a registered reader has yet to read.
use ringfire.Prelude.{
  ℕ, zero, suc, ◌+◌, ◌^◌, ◌≤◌, ◌<◌, ◌≡◌, refl, inl, inr, true, false, Option, none, some, List, [],
  ◌∷◌, arith, Any, All, Bool-cases, sym, ◌∙◌, subst, leb,
}
use ringfire.Registry.{ReaderSlot, is_live, min_cursor}
use ringfire.Registry.Min.{IsMinCursor, min_cursor-IsMinCursor}
use ringfire.Producer.{
  lossless_backpressure, RingProducer, publish_progress, refresh_gate, wait_loop, wait_for_headroom,
  gate,
}

-- What flow control leaves alone.
pub record Same {T : Type 0} (p q : RingProducer T) : Type 0 where
  pub slots : q.slots ≡ p.slots
  pub capacity : q.capacity ≡ p.capacity
  pub mask : q.mask ≡ p.mask
  pub seq : q.seq ≡ p.seq
  pub flow_control : q.flow_control ≡ p.flow_control
  pub has_registry : q.has_registry ≡ p.has_registry
  pub later : p.now ≤ q.now

pub Same-refl : {T : Type 0} (p : RingProducer T) → Same p p
Same-refl p = ground arith

pub Same-trans : {T : Type 0} {p q r : RingProducer T} → Same p q → Same q r → Same p r
Same-trans f g = ground arith

pub publish_progress-Same : {T : Type 0} (p : RingProducer T) → Same p (publish_progress p)
unfolding publish_progress
publish_progress-Same p = ground arith

-- A registered reader: from moment `from` on some live slot of the table holds its cursor, which only
-- moves forward, and stays one capacity away from the wrap.
pub record Follows (table : ℕ → List ReaderSlot) (cursor : ℕ → ℕ) (from capacity : ℕ) : Type 0 where
  pub present :
      (t : ℕ) → from ≤ t → Any (λ s. (is_live s ≡ true) × (s.cursor_seq ≡ cursor t)) (table t)
  pub forward : (t u : ℕ) → t ≤ u → cursor t ≤ cursor u
  pub small : (t : ℕ) → cursor t + capacity < 2 ^ 64

min_cursor-le_of_Any :
    (m c : ℕ) (ss : List ReaderSlot)
    → All (λ s. is_live s ≡ true → m ≤ s.cursor_seq) ss
    → Any (λ s. (is_live s ≡ true) × (s.cursor_seq ≡ c)) ss
    → m ≤ c
min_cursor-le_of_Any m c [] all any = absurd any
min_cursor-le_of_Any m c (s ∷ ss) (le, all) (inl (live, same)) = omega (arith, le live)
min_cursor-le_of_Any m c (s ∷ ss) (le, all) (inr later) = min_cursor-le_of_Any m c ss all later

none_of_Any :
    (c : ℕ) (ss : List ReaderSlot)
    → All (λ s. is_live s ≡ false) ss
    → Any (λ s. (is_live s ≡ true) × (s.cursor_seq ≡ c)) ss
    → ⊥
none_of_Any c [] all any = any
none_of_Any c (s ∷ ss) (dead, all) (inl (live, same)) = cc (sym dead ∙ live)
none_of_Any c (s ∷ ss) (dead, all) (inr later) = none_of_Any c ss all later

-- A scan of a table with a live reader at `c` finds a minimum, not above `c`.
min_cursor-le :
    (c : ℕ) (ss : List ReaderSlot)
    → Any (λ s. (is_live s ≡ true) × (s.cursor_seq ≡ c)) ss
    → (m : ℕ) × (min_cursor ss ≡ some m) × (m ≤ c)
min_cursor-le c ss any = go (min_cursor ss) refl (min_cursor-IsMinCursor ss)
  where
    go :
        (o : Option ℕ)
        → min_cursor ss ≡ o
        → IsMinCursor o ss
        → (m : ℕ) × (min_cursor ss ≡ some m) × (m ≤ c)
    go none e none_live = absurd (none_of_Any c ss none_live any)
    go (some m) e (all, _) = (m, e, min_cursor-le_of_Any m c ss all any)

-- The gate lets the producer write no message that would take the slot of one that the reader at
-- `cursor` has yet to read.
abbrev pub IsGateSafe : {T : Type 0} → (ℕ → ℕ) → RingProducer T → Type 0
IsGateSafe cursor p = p.gate_limit ≤ cursor p.now + p.capacity

-- What a pass of the gate leaves: the gate is open, and safe for the reader.
abbrev pub Passes : {T : Type 0} → (ℕ → ℕ) → RingProducer T → Type 0
Passes cursor q = (q.seq < q.gate_limit) × IsGateSafe cursor q

module _ {T : Type 0} (table : ℕ → List ReaderSlot) where
  pub refresh_gate-Same : (p : RingProducer T) → Same p (refresh_gate table p).1
  unfolding refresh_gate
  refresh_gate-Same p = ground arith

  module _ {cursor : ℕ → ℕ} {from : ℕ} where
    refresh_gate-IsGateSafe :
        (p : RingProducer T)
        → Follows table cursor from p.capacity
        → from ≤ p.now
        → p.has_registry ≡ true
        → IsGateSafe cursor (refresh_gate table p).1
          × ((refresh_gate table p).0 ≡ true → Passes cursor (refresh_gate table p).1)
    unfolding refresh_gate
    refresh_gate-IsGateSafe p f le reg =
        let (m, e, low) = min_cursor-le (cursor p.now) (table p.now) (f.present p.now le) in
        let ahead = f.forward p.now (p.now + 1) (omega arith) in
        (ground (arith, f.small p.now), λ open_. (ground arith, ground (arith, f.small p.now)))

    wait_loop-Passes :
        (fuel : ℕ) (p : RingProducer T) {q : RingProducer T}
        → Follows table cursor from p.capacity
        → from ≤ p.now
        → p.has_registry ≡ true
        → wait_loop table fuel p ≡ some q
        → Same p q × Passes cursor q
    unfolding wait_loop
    wait_loop-Passes zero p f le reg e = absurd (ground arith)
    wait_loop-Passes (suc fuel) p {q} f le reg e = elim (Bool-cases (refresh_gate table p).0) [
      | inl free ↦
          let same : (refresh_gate table p).1 ≡ q = ground (arith, free, e) in
          (
            subst (Same p) same (refresh_gate-Same p),
            subst (Passes cursor) same ((refresh_gate-IsGateSafe p f le reg).1 free),
          )
      | inr full ↦
          let s = refresh_gate-Same p in
          let (s', passes) =
            wait_loop-Passes fuel (refresh_gate table p).1 (rw s.capacity f)
              (omega (arith, s.later)) (s.has_registry ∙ reg) (ground (arith, full, e)) in
          (Same-trans s s', passes)
    ]

    wait_for_headroom-Passes :
        (fuel : ℕ) (p : RingProducer T) {q : RingProducer T}
        → Follows table cursor from p.capacity
        → from ≤ p.now
        → p.has_registry ≡ true
        → wait_for_headroom table fuel p ≡ some q
        → Same p q × Passes cursor q
    unfolding wait_for_headroom
    wait_for_headroom-Passes fuel p {q} f le reg e = elim (Bool-cases (refresh_gate table p).0) [
      | inl free ↦
          let same : (refresh_gate table p).1 ≡ q = ground (arith, free, reg, e) in
          (
            subst (Same p) same (refresh_gate-Same p),
            subst (Passes cursor) same ((refresh_gate-IsGateSafe p f le reg).1 free),
          )
      | inr full ↦
          let s =
            Same-trans (refresh_gate-Same p) (publish_progress-Same (refresh_gate table p).1) in
          let (s', passes) =
            wait_loop-Passes fuel (publish_progress (refresh_gate table p).1) (rw s.capacity f)
              (omega (arith, s.later)) (s.has_registry ∙ reg) (ground (arith, full, reg, e)) in
          (Same-trans s s', passes)
    ]

    -- The gate of `push` and `push_batch`, for a lossless producer with a registry.
    pub gate-Passes :
        (fuel : ℕ) (p : RingProducer T) {q : RingProducer T}
        → Follows table cursor from p.capacity
        → from ≤ p.now
        → p.has_registry ≡ true
        → p.flow_control ≡ lossless_backpressure
        → IsGateSafe cursor p
        → gate table fuel p ≡ some q
        → Same p q × Passes cursor q
    unfolding gate
    gate-Passes fuel p {q} f le reg lossless safe e = elim (Bool-cases (leb p.gate_limit p.seq)) [
      | inl shut ↦ wait_for_headroom-Passes fuel p f le reg (ground (arith, shut, lossless, e))
      | inr open_ ↦
          let same : p ≡ q = ground (arith, open_, lossless, e) in
          let fits : Passes cursor p = (ground (arith, open_), safe) in
          (subst (Same p) same (Same-refl p), subst (Passes cursor) same fits)
    ]
