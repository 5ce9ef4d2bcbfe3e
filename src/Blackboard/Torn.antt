-- ===== src/Blackboard/Torn.antt =====
-- `read` of src/blackboard.rs against every interleaving with the slot's writer.
use ringfire.Prelude.{
  ℕ, ◌+◌, ◌%◌, ◌≤◌, ◌<◌, ◌≡◌, ◌≢◌, refl, inl, inr, Bool, true, false, arith, ap, ◌∙◌, subst,
  if◌then◌else◌, bit_and, bit_and-mask, Option, none, some, List, [], ◌∷◌, All, Bool-cases, ltb,
  leb, ◌==◌, ◌&&◌,
}
use ringfire.Errors.{Result, ok, err, writer_stalled}
use ringfire.Blackboard.{Blackboard, Attempt, read_loop, read}
use ringfire.Blackboard.Protocol.{
  Phase, at_rest, copying, SlotState, Holds, IsSound, IsHistory, History-IsSound, History-seqlock,
}

module _ {W : Type 0} (size : ℕ) (version : ℕ → ℕ → W) (h : ℕ → SlotState W) where
  -- The accesses of a round of `read`, at moments in this order, the words in any.
  pub record IsAttempt (a : Attempt (ℕ → W)) : Type 0 where
    pub start : ℕ
    pub end : ℕ
    pub at : ℕ → ℕ
    pub first : a.first ≡ (h start).seqlock
    pub copied : (j : ℕ) → j < size → a.copied j ≡ (h (at j)).words j
    pub second : a.second ≡ (h end).seqlock
    pub order : (j : ℕ) → (start ≤ at j) × (at j ≤ end)

  -- A value is one version, whole.
  abbrev pub IsVersion : (ℕ → W) → Type 0
  IsVersion val = (n : ℕ) × (0 < n) × (n % 2 ≡ 0) × ((j : ℕ) → j < size → val j ≡ version n j)

  abbrev pub Reads : ℕ → Option (Result (Option (ℕ → W))) → Type 0
  Reads key none = Unit
  Reads key (some (ok none)) = (t : ℕ) × ((h t).seqlock ≡ 0)
  Reads key (some (ok (some val))) = IsVersion val
  Reads key (some (err e)) = e ≡ writer_stalled key

  even_at_rest :
      (s : SlotState W) (p : Phase) → Holds size version s p → s.seqlock % 2 ≡ 0 → p ≡ at_rest
  even_at_rest s at_rest h e = refl
  even_at_rest s (copying c) (odd, _) e = absurd (omega arith)

  module _ (steps : IsHistory size version h) (start : IsSound size version (h 0)) where
    attempt-IsVersion :
        (a : Attempt (ℕ → W))
        → IsAttempt a
        → a.first ≢ 0
        → a.first % 2 ≡ 0
        → a.second ≡ a.first
        → IsVersion a.copied
    attempt-IsVersion a i pos even same = (
      a.first,
      omega arith,
      even,
      λ j lt.
          let low = History-seqlock size version h steps i.start (i.at j) (i.order j).0 in
          let high = History-seqlock size version h steps (i.at j) i.end (i.order j).1 in
          let there : (h (i.at j)).seqlock ≡ a.first =
            omega (arith, low, high, i.first, i.second) in
          let sound = History-IsSound size version h steps start (i.at j) in
          let rest = even_at_rest (h (i.at j)) (h (i.at j)).phase sound (omega (arith, there)) in
          let (_, words) = subst (Holds size version (h (i.at j))) rest sound in
          i.copied j lt ∙ words j (omega arith) lt ∙ ap (λ (n : ℕ). version n j) there,
    )

    -- The tests of a round, one after the other.
    choose :
        (key : ℕ) (a : Attempt (ℕ → W)) (unwritten whole early : Bool)
        (more : Option (Result (Option (ℕ → W))))
        → (unwritten ≡ true → (t : ℕ) × ((h t).seqlock ≡ 0))
        → (unwritten ≡ false → whole ≡ true → IsVersion a.copied)
        → Reads key more
        → Reads key (
            if unwritten
            then some (ok none)
            else if whole
            then some (ok (some a.copied))
            else if early
            then more
            else if a.stalled
            then some (err (writer_stalled key))
            else more)
    choose key a true whole early more f g m = f refl
    choose key a false true early more f g m = g refl refl
    choose key a false false true more f g m = m
    choose key a false false false more f g m = elim (Bool-cases a.stalled) [
      | inl gone ↦ rw gone refl
      | inr waits ↦ rw waits m
    ]

    read_loop-Reads :
        (key spins : ℕ) (attempts : List (Attempt (ℕ → W)))
        → All IsAttempt attempts
        → Reads key (read_loop key spins attempts)
    unfolding read_loop
    read_loop-Reads key spins [] all = tt
    read_loop-Reads key spins (a ∷ rest) (i, is) =
        let low : bit_and a.first 1 ≡ a.first % 2 = bit_and-mask 1 a.first in
        let more = read_loop-Reads key (spins + 1) rest is in
        choose key a (a.first == 0) (bit_and a.first 1 == 0 && a.second == a.first)
          (ltb (spins + 1) 10000) (read_loop key (spins + 1) rest) (λ e. (i.start, ground arith))
          (λ ne e. attempt-IsVersion a i (ground arith) (ground (arith, low)) (ground arith)) more

    -- The result of `read`, on the accesses of a reader of the key's slot.
    pub read-Reads :
        (b : Blackboard (ℕ → W)) (key : ℕ) (attempts : List (Attempt (ℕ → W)))
        → key < b.slot_count
        → All IsAttempt attempts
        → Reads key (read b key attempts)
    unfolding read
    read-Reads b key attempts lt all =
        let in_range : leb b.slot_count key ≡ false = ground arith in
        rw in_range (read_loop-Reads key 0 attempts all)
