-- ===== src/Blackboard/Protocol.antt =====
-- `write` of src/blackboard.rs one shared access at a time, on a value of `size` words copied in any order.
-- A version is the even number that its write leaves in the seqlock; a writer may die in its write, and
-- the next one starts from what it left.
use ringfire.Prelude.{
  ℕ, zero, suc, ◌+◌, ◌%◌, ◌^◌, ◌≤◌, ◌<◌, ◌≡◌, ◌⊎◌, inl, inr, Bool, true, false, arith, update,
  rises, bit_and-mask, subst, bit_and,
}
use ringfire.Blackboard.{write_mark}

pub data Phase : Type 0 where
  at_rest : Phase
  copying : (copied : ℕ → Bool) → Phase

pub record SlotState (W : Type 0) : Type 0 where
  pub seqlock : ℕ
  pub words : ℕ → W
  pub phase : Phase

abbrev pub none_copied : ℕ → Bool
none_copied j = false

-- The mark is odd and new.
pub write_mark_lem :
    (s : ℕ) → s + 2 < 2 ^ 64 → (s < write_mark s) × (write_mark s % 2 ≡ 1) × (write_mark s ≤ s + 2)
unfolding write_mark
write_mark_lem s lt = let low : bit_and s 1 ≡ s % 2 = bit_and-mask 1 s in ground (arith, low)

module _ {W : Type 0} (size : ℕ) (version : ℕ → ℕ → W) where
  -- One step of a writer; `version n j` is word `j` of version `n`.
  pub data WriteStep (s : SlotState W) : SlotState W → Type 0 where
    mark :
        s.seqlock + 2 < 2 ^ 64
        → WriteStep s (record s { seqlock = write_mark s.seqlock; phase = copying none_copied })
    copy :
        (j : ℕ) (copied : ℕ → Bool)
        → s.phase ≡ copying copied
        → WriteStep s (record s {
          words = update s.words j (version (s.seqlock + 1) j);
          phase = copying (update copied j true);
        })
    store :
        (copied : ℕ → Bool)
        → s.phase ≡ copying copied
        → ((j : ℕ) → j < size → copied j ≡ true)
        → WriteStep s (record s { seqlock = s.seqlock + 1; phase = at_rest })

  -- What the phase says of the memory.
  abbrev pub Holds : SlotState W → Phase → Type 0
  Holds s at_rest =
      (s.seqlock % 2 ≡ 0) × ((j : ℕ) → 0 < s.seqlock → j < size → s.words j ≡ version s.seqlock j)
  Holds s (copying copied) =
      (s.seqlock % 2 ≡ 1)
      × ((j : ℕ) → j < size → copied j ≡ true → s.words j ≡ version (s.seqlock + 1) j)

  abbrev pub IsSound : SlotState W → Type 0
  IsSound s = Holds s s.phase

  WriteStep-IsSound : {s t : SlotState W} → WriteStep s t → IsSound s → IsSound t
  WriteStep-IsSound {s} (mark lt) h = ((write_mark_lem s.seqlock lt).1, λ j lt c. cc)
  WriteStep-IsSound {s} (copy j copied e) h =
      let (odd, words) = subst (Holds s) e h in (odd, λ k lt q. ground (arith, words k lt))
  WriteStep-IsSound {s} (store copied e all) h =
      let (odd, words) = subst (Holds s) e h in (omega arith, λ j _ lt. words j lt (all j lt))

  WriteStep-seqlock : {s t : SlotState W} → WriteStep s t → s.seqlock ≤ t.seqlock
  WriteStep-seqlock {s} (mark lt) = omega (arith, write_mark_lem s.seqlock lt)
  WriteStep-seqlock (copy j copied e) = omega arith
  WriteStep-seqlock (store copied e _) = omega arith

  -- A slot over time: at each moment the writer makes one step, or nothing happens.
  abbrev pub IsHistory : (ℕ → SlotState W) → Type 0
  IsHistory h = (t : ℕ) → WriteStep (h t) (h (suc t)) ⊎ (h (suc t) ≡ h t)

  module _ (h : ℕ → SlotState W) (steps : IsHistory h) where
    pub History-IsSound : IsSound (h 0) → (t : ℕ) → IsSound (h t)
    History-IsSound start zero = start
    History-IsSound start (suc t) = elim (steps t) [
      | inl st ↦ WriteStep-IsSound st (History-IsSound start t)
      | inr same ↦ rw same (History-IsSound start t)
    ]

    History-seqlock_step : (t : ℕ) → (h t).seqlock ≤ (h (suc t)).seqlock
    History-seqlock_step t = elim (steps t) [
      | inl st ↦ WriteStep-seqlock st
      | inr same ↦ rw same (omega arith)
    ]

    pub History-seqlock : (t u : ℕ) → t ≤ u → (h t).seqlock ≤ (h u).seqlock
    History-seqlock = rises (λ t. (h t).seqlock) History-seqlock_step
