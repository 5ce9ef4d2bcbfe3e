-- ===== src/Slot/Protocol.antt =====
-- `write_slot` of src/spmc.rs one shared access at a time, on a payload of `size` words. The copy
-- writes the words in any order; a message that goes into a slot has a higher sequence than the last.
use ringfire.Prelude.{
  ℕ, zero, suc, ◌-◌, ◌*◌, ◌≤◌, ◌<◌, ◌≡◌, refl, ◌⊎◌, inl, inr, Bool, true, false, arith, update,
  rises, subst,
}
use ringfire.Constants.{slot_writing}

-- Where the slot's writer stands: `idle n` after the store of `n` (0: never written).
pub data Phase : Type 0 where
  idle : (last : ℕ) → Phase
  copying : (n : ℕ) (copied : ℕ → Bool) → Phase

pub record SlotState (W : Type 0) : Type 0 where
  pub seq : ℕ
  pub words : ℕ → W
  pub phase : Phase

abbrev pub none_copied : ℕ → Bool
none_copied j = false

module _ {W : Type 0} (size : ℕ) (msg : ℕ → ℕ → W) where
  -- One step of a writer of the slot; `msg n j` is word `j` of message `n`.
  pub data WriteStep (s : SlotState W) : SlotState W → Type 0 where
    mark :
        (last n : ℕ)
        → s.phase ≡ idle last
        → last < n
        → n < slot_writing
        → WriteStep s (record s { seq = slot_writing; phase = copying n none_copied })
    copy :
        (n j : ℕ) (copied : ℕ → Bool)
        → s.phase ≡ copying n copied
        → WriteStep s (record s {
          words = update s.words j (msg n j);
          phase = copying n (update copied j true);
        })
    store :
        (n : ℕ) (copied : ℕ → Bool)
        → s.phase ≡ copying n copied
        → ((j : ℕ) → j < size → copied j ≡ true)
        → WriteStep s (record s { seq = n; phase = idle n })

  -- What the phase says of the memory.
  abbrev pub Holds : SlotState W → Phase → Type 0
  Holds s (idle last) =
      (s.seq ≡ last)
      × (last < slot_writing)
      × ((j : ℕ) → 0 < last → j < size → s.words j ≡ msg last j)
  Holds s (copying n copied) =
      (s.seq ≡ slot_writing)
      × (0 < n)
      × (n < slot_writing)
      × ((j : ℕ) → j < size → copied j ≡ true → s.words j ≡ msg n j)

  abbrev pub IsSound : SlotState W → Type 0
  IsSound s = Holds s s.phase

  pub WriteStep-IsSound : {s t : SlotState W} → WriteStep s t → IsSound s → IsSound t
  WriteStep-IsSound {s} (mark last n e lt lt') h = (refl, omega arith, lt', λ j lt c. cc)
  WriteStep-IsSound {s} (copy n j copied e) h =
      let (a, b, c, d) = subst (Holds s) e h in (a, b, c, λ k lt q. ground (arith, d k lt))
  WriteStep-IsSound {s} (store n copied e all) h =
      let (a, b, c, d) = subst (Holds s) e h in (refl, c, λ j _ lt. d j lt (all j lt))

-- Twice the message that the slot holds, one less while it is being written.
abbrev pub rank : Phase → ℕ
rank (idle last) = 2 * last
rank (copying n copied) = 2 * n - 1

module _ {W : Type 0} (size : ℕ) (msg : ℕ → ℕ → W) where
  -- A slot over time: at each moment the writer makes one step, or nothing happens.
  abbrev pub IsHistory : (ℕ → SlotState W) → Type 0
  IsHistory h = (t : ℕ) → WriteStep size msg (h t) (h (suc t)) ⊎ (h (suc t) ≡ h t)

  WriteStep-rank : {s t : SlotState W} → WriteStep size msg s t → rank s.phase ≤ rank t.phase
  WriteStep-rank (mark last n e lt _) = rw e (omega arith)
  WriteStep-rank (copy n j copied e) = rw e (omega arith)
  WriteStep-rank (store n copied e _) = rw e (omega arith)

  module _ (h : ℕ → SlotState W) (steps : IsHistory h) where
    pub History-IsSound : IsSound size msg (h 0) → (t : ℕ) → IsSound size msg (h t)
    History-IsSound start zero = start
    History-IsSound start (suc t) = elim (steps t) [
      | inl st ↦ WriteStep-IsSound size msg st (History-IsSound start t)
      | inr same ↦ rw same (History-IsSound start t)
    ]

    History-rank_step : (t : ℕ) → rank (h t).phase ≤ rank (h (suc t)).phase
    History-rank_step t = elim (steps t) [
      | inl st ↦ WriteStep-rank st
      | inr same ↦ rw same (omega arith)
    ]

    pub History-rank : (t u : ℕ) → t ≤ u → rank (h t).phase ≤ rank (h u).phase
    History-rank = rises (λ t. rank (h t).phase) History-rank_step
