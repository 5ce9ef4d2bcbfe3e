-- ===== src/Registry/Min.antt =====
-- The minimum over the live readers of src/registry.rs, and what the producer derives from it.
use ringfire.Prelude.{
  ℕ, ◌≤◌, ◌≡◌, refl, ◌⊎◌, inl, inr, true, false, Option, none, some, List, [], ◌∷◌, arith, All, Any,
  Bool-cases, min,
}
use native.Mathlib.Decide.{dec_le}
use ringfire.Registry.{ReaderSlot, is_live, min_with, min_cursor_from, min_cursor}

-- `m` is the least cursor of the live readers of `ss`, and is there only if there are such readers.
abbrev pub IsMinCursor : Option ℕ → List ReaderSlot → Type 0
IsMinCursor none ss = All (λ s. is_live s ≡ false) ss
IsMinCursor (some m) ss =
    All (λ s. is_live s ≡ true → m ≤ s.cursor_seq) ss
    × Any (λ s. (is_live s ≡ true) × (s.cursor_seq ≡ m)) ss

-- The scan that starts from the minimum so far.
min_cursor_from-some :
    (m : ℕ) (ss : List ReaderSlot)
    → (k : ℕ) × (min_cursor_from (some m) ss ≡ some k)
      × (k ≤ m)
      × All (λ s. is_live s ≡ true → k ≤ s.cursor_seq) ss
      × ((k ≡ m) ⊎ Any (λ s. (is_live s ≡ true) × (s.cursor_seq ≡ k)) ss)
unfolding min_cursor_from min_with
min_cursor_from-some m [] = (m, refl, omega arith, tt, inl refl)
min_cursor_from-some m (s ∷ ss) = elim (Bool-cases (is_live s)) [
  | inl live ↦
      let (k, e, le, all, any) = min_cursor_from-some (min m s.cursor_seq) ss in
      (
        k,
        ground (arith, live, e),
        omega (arith, le),
        (λ _. omega (arith, le), all),
        from_min k any live,
      )
  | inr dead ↦
      let (k, e, le, all, any) = min_cursor_from-some m ss in
      (k, ground (arith, dead, e), le, (λ live. absurd (ground arith), all), skip k any)
]
  where
    from_min :
        (k : ℕ)
        → (k ≡ min m s.cursor_seq) ⊎ Any (λ s. (is_live s ≡ true) × (s.cursor_seq ≡ k)) ss
        → is_live s ≡ true
        → (k ≡ m) ⊎ Any (λ s. (is_live s ≡ true) × (s.cursor_seq ≡ k)) (s ∷ ss)
    from_min k (inl e) live = elim (dec_le m s.cursor_seq) [
      | yes le ↦ inl (omega arith)
      | no gt ↦ inr (inl (live, omega arith))
    ]
    from_min k (inr later) live = inr (inr later)

    skip :
        (k : ℕ)
        → (k ≡ m) ⊎ Any (λ s. (is_live s ≡ true) × (s.cursor_seq ≡ k)) ss
        → (k ≡ m) ⊎ Any (λ s. (is_live s ≡ true) × (s.cursor_seq ≡ k)) (s ∷ ss)
    skip k (inl e) = inl e
    skip k (inr later) = inr (inr later)

-- `min_cursor` is the least cursor among the live readers, attained by one of them, and `None` exactly
-- when no reader is live.
pub min_cursor-IsMinCursor : (ss : List ReaderSlot) → IsMinCursor (min_cursor ss) ss
unfolding min_cursor min_cursor_from min_with
min_cursor-IsMinCursor [] = tt
min_cursor-IsMinCursor (s ∷ ss) = elim (Bool-cases (is_live s)) [
  | inl live ↦ first live (min_cursor_from-some s.cursor_seq ss)
  | inr dead ↦ later dead (min_cursor_from none ss) refl (min_cursor-IsMinCursor ss)
]
  where
    first :
        is_live s ≡ true
        → (k : ℕ) × (min_cursor_from (some s.cursor_seq) ss ≡ some k)
          × (k ≤ s.cursor_seq)
          × All (λ s. is_live s ≡ true → k ≤ s.cursor_seq) ss
          × ((k ≡ s.cursor_seq) ⊎ Any (λ s. (is_live s ≡ true) × (s.cursor_seq ≡ k)) ss)
        → IsMinCursor (min_cursor (s ∷ ss)) (s ∷ ss)
    first live (k, e, le, all, any) =
        let found : min_cursor (s ∷ ss) ≡ some k = ground (arith, live, e) in
        rw found (((λ _. le), all), first_any any)
      where
        first_any :
            (k ≡ s.cursor_seq) ⊎ Any (λ s. (is_live s ≡ true) × (s.cursor_seq ≡ k)) ss
            → Any (λ s. (is_live s ≡ true) × (s.cursor_seq ≡ k)) (s ∷ ss)
        first_any (inl e) = inl (live, omega arith)
        first_any (inr r) = inr r

    later :
        is_live s ≡ false
        → (m : Option ℕ) → min_cursor_from none ss ≡ m
        → IsMinCursor m ss
        → IsMinCursor (min_cursor (s ∷ ss)) (s ∷ ss)
    later dead none e h =
        let found : min_cursor (s ∷ ss) ≡ none = ground (arith, dead, e) in rw found (dead, h)
    later dead (some k) e (all, any) =
        let found : min_cursor (s ∷ ss) ≡ some k = ground (arith, dead, e) in
        rw found (((λ live. absurd (ground arith)), all), inr any)
