-- ===== src/Mpmc/Exclusive.antt =====
-- The producers of src/mpmc.rs at the slots: no two write into one slot at a time, and what a slot's sequence
-- announces is the whole message.
use ringfire.Prelude.{
  ℕ, ◌+◌, ◌<◌, ◌≡◌, ◌≢◌, ◌⊎◌, inl, inr, refl, sym, ap, ◌∙◌, subst, Bool, true, false, arith,
  bit_and, update, update_self, update_ne, max,
}
use native.Mathlib.Decide.{ℕ_discrete}
use ringfire.Constants.{slot_writing}
use ringfire.Mpmc.Push.{
  Phase, looking, copying, none_copied, dropped, stored, returned, Cell, Shared, look, swap,
  after_miss, moved_to, marked, copied, published, PushStep, claims, gives_up, swaps, misses,
  copies, stores, counts, PushSteps, done, then_step,
}

abbrev is_copying : Phase → Bool
is_copying (copying k) = true
is_copying p = false

abbrev copied_of : Phase → ℕ → Bool
copied_of (copying c) = c
copied_of p = λ j. false

look-swap :
    (n capacity : ℕ) (stalled : Bool) (cur : ℕ)
    → look n capacity stalled cur ≡ swap
    → n < slot_writing
    → cur ≢ slot_writing
unfolding look
look-swap n capacity stalled cur e lt = ground arith

after_miss-not_copying :
    (late : Bool) (cur : ℕ) (stalled : Bool) → is_copying (after_miss late cur stalled) ≡ false
unfolding after_miss
after_miss-not_copying late cur stalled = ground arith

-- Where any push stands after one has moved to `p`.
moved :
    (f : ℕ → Phase) (n : ℕ) (p : Phase) (q : ℕ) {r : Phase}
    → update f n p q ≡ r
    → ((n ≡ q) × (p ≡ r)) ⊎ ((n ≢ q) × (f q ≡ r))
moved f n p q {r} e = elim (ℕ_discrete n q) [
  | yes same ↦ inl (same, sym (update_self f n p) ∙ subst (λ t. update f n p t ≡ r) (sym same) e)
  | no other ↦ inr (other, sym (update_ne f n q p other) ∙ e)
]

-- Only the push that moved can have come to copy.
still_copying :
    (f : ℕ → Phase) (n : ℕ) (p : Phase) (q : ℕ) (c : ℕ → Bool)
    → is_copying p ≡ false
    → update f n p q ≡ copying c
    → (n ≢ q) × (f q ≡ copying c)
still_copying f n p q c quiet e = elim (moved f n p q e) [
  | inl (same, become) ↦ let clash : true ≡ false = sym (ap is_copying become) ∙ quiet in cc
  | inr other ↦ other
]

-- The words that are written after one more.
word :
    {W : Type 0} (words : ℕ → W) (w : ℕ → Bool) {m : ℕ → W} (j i : ℕ)
    → ((k : ℕ) → w k ≡ true → words k ≡ m k)
    → update w j true i ≡ true
    → update words j (m j) i ≡ m i
word words w {m} j i before has = elim (ℕ_discrete j i) [
  | yes same ↦ subst (λ t. update words j (m j) t ≡ m t) same (update_self words j (m j))
  | no other ↦ update_ne words j i (m j) other ∙ before i (sym (update_ne w j i true other) ∙ has)
]

module _ {W : Type 0} (capacity mask size : ℕ) (msg : ℕ → ℕ → W) where
  -- What holds between any two accesses.
  pub record IsExclusive (s : Shared W) : Type 0 where
    pub bounded : (q : ℕ) (stalled : Bool) → s.pushes q ≡ looking stalled → q < slot_writing
    pub marks :
        (q : ℕ) (c : ℕ → Bool)
        → s.pushes q ≡ copying c
        → (s.cells (bit_and q mask)).seq ≡ slot_writing
    pub one :
        (q q' : ℕ) (c c' : ℕ → Bool)
        → bit_and q mask ≡ bit_and q' mask
        → s.pushes q ≡ copying c
        → s.pushes q' ≡ copying c'
        → q ≡ q'
    pub written :
        (q : ℕ) (c : ℕ → Bool) (j : ℕ)
        → s.pushes q ≡ copying c
        → c j ≡ true
        → (s.cells (bit_and q mask)).words j ≡ msg q j
    pub whole :
        (i j : ℕ)
        → (s.cells i).seq ≢ 0
        → (s.cells i).seq ≢ slot_writing
        → j < size
        → (s.cells i).words j ≡ msg (s.cells i).seq j

  -- A push that moves on without having to do with the slots.
  quiet :
      (s : Shared W) (n : ℕ) (p : Phase) (claim_seq write_seq : ℕ)
      → is_copying p ≡ false
      → ((stalled : Bool) → p ≡ looking stalled → n < slot_writing)
      → IsExclusive s
      → IsExclusive (record (moved_to n p s) { claim_seq = claim_seq; write_seq = write_seq })
  quiet s n p claim_seq write_seq still small x = record {
    bounded = λ q stalled e. elim (moved s.pushes n p q e) [
      | inl (same, become) ↦ subst (λ t. t < slot_writing) same (small stalled become)
      | inr (_, before) ↦ x.bounded q stalled before
    ];
    marks = λ q c e. x.marks q c (still_copying s.pushes n p q c still e).1;
    one = λ q q' c c' i e e'.
        x.one q q' c c' i (still_copying s.pushes n p q c still e).1
          (still_copying s.pushes n p q' c' still e').1;
    written = λ q c j e. x.written q c j (still_copying s.pushes n p q c still e).1;
    whole = x.whole;
  }

  cell_at :
      (s : Shared W) (k : ℕ) (a : Cell W) (i : ℕ)
      → ((k ≡ i) × (update s.cells k a i ≡ a)) ⊎ ((k ≢ i) × (update s.cells k a i ≡ s.cells i))
  cell_at s k a i = elim (ℕ_discrete k i) [
    | yes same ↦ inl (same, subst (λ t. update s.cells k a t ≡ a) same (update_self s.cells k a))
    | no other ↦ inr (other, update_ne s.cells k i a other)
  ]

  marked-IsExclusive :
      (s : Shared W) (n cur : ℕ) (stalled : Bool)
      → s.pushes n ≡ looking stalled
      → look n capacity stalled cur ≡ swap
      → (s.cells (bit_and n mask)).seq ≡ cur
      → IsExclusive s
      → IsExclusive (marked capacity mask size msg n s)
  marked-IsExclusive s n cur stalled at chosen found x =
      let free : (s.cells (bit_and n mask)).seq ≢ slot_writing =
        λ e. look-swap n capacity stalled cur chosen (x.bounded n stalled at) (sym found ∙ e) in
      let cell : Cell W = record (s.cells (bit_and n mask)) { seq = slot_writing } in
      let alone : (q : ℕ) (c : ℕ → Bool)
          → s.pushes q ≡ copying c
          → bit_and n mask ≢ bit_and q mask =
        λ q c e same. free (ap (λ i. (s.cells i).seq) same ∙ x.marks q c e) in
      record {
        bounded = λ q st e. elim (moved s.pushes n (copying none_copied) q e) [
          | inl (_, become) ↦ cc
          | inr (_, before) ↦ x.bounded q st before
        ];
        marks = λ q c e. elim (cell_at s (bit_and n mask) cell (bit_and q mask)) [
          | inl (_, new) ↦ ap (λ a. a.seq) new
          | inr (apart, old) ↦ elim (moved s.pushes n (copying none_copied) q e) [
            | inl (same, _) ↦ absurd (apart (ap (λ t. bit_and t mask) same))
            | inr (_, before) ↦ ap (λ a. a.seq) old ∙ x.marks q c before
          ]
        ];
        one = λ q q' c c' i e e'. elim (moved s.pushes n (copying none_copied) q e) [
          | inl (same, _) ↦ elim (moved s.pushes n (copying none_copied) q' e') [
            | inl (same', _) ↦ sym same ∙ same'
            | inr (_, before') ↦ absurd (alone q' c' before' (ap (λ t. bit_and t mask) same ∙ i))
          ]
          | inr (_, before) ↦ elim (moved s.pushes n (copying none_copied) q' e') [
            | inl (same', _) ↦ absurd (alone q c before (ap (λ t. bit_and t mask) same' ∙ sym i))
            | inr (_, before') ↦ x.one q q' c c' i before before'
          ]
        ];
        written = λ q c j e has. elim (moved s.pushes n (copying none_copied) q e) [
          | inl (_, become) ↦ let clash : false ≡ true = ap (λ p. copied_of p j) become ∙ has in cc
          | inr (_, before) ↦
              ap (λ a. a.words j)
                (update_ne s.cells (bit_and n mask) (bit_and q mask) cell (alone q c before))
              ∙ x.written q c j before has
        ];
        whole = λ i j some_seq idle lt. elim (cell_at s (bit_and n mask) cell i) [
          | inl (_, new) ↦ absurd (idle (ap (λ a. a.seq) new))
          | inr (_, old) ↦
              subst (λ a. a.words j ≡ msg a.seq j) (sym old)
                (x.whole i j (λ e. some_seq (ap (λ a. a.seq) old ∙ e))
                  (λ e. idle (ap (λ a. a.seq) old ∙ e)) lt)
        ];
      }

  -- Two pushes that write have slots of their own.
  apart_from :
      (s : Shared W) (n q : ℕ) (w c : ℕ → Bool)
      → IsExclusive s
      → s.pushes n ≡ copying w
      → s.pushes q ≡ copying c
      → n ≢ q
      → bit_and n mask ≢ bit_and q mask
  apart_from s n q w c x at e other same = other (x.one n q w c same at e)

  kept_whole :
      (s : Shared W) (k : ℕ) (a : Cell W) (i j : ℕ)
      → IsExclusive s
      → k ≢ i
      → (update s.cells k a i).seq ≢ 0
      → (update s.cells k a i).seq ≢ slot_writing
      → j < size
      → (update s.cells k a i).words j ≡ msg (update s.cells k a i).seq j
  kept_whole s k a i j x other some_seq idle lt =
      let old = update_ne s.cells k i a other in
      subst (λ b. b.words j ≡ msg b.seq j) (sym old)
        (x.whole i j (λ e. some_seq (ap (λ b. b.seq) old ∙ e)) (λ e. idle (ap (λ b. b.seq) old ∙ e))
          lt)

  copied-IsExclusive :
      (s : Shared W) (n : ℕ) (w : ℕ → Bool) (j : ℕ)
      → s.pushes n ≡ copying w
      → IsExclusive s
      → IsExclusive (copied capacity mask size msg n w j s)
  copied-IsExclusive s n w j at x =
      let p = copying (update w j true) in
      let here = s.cells (bit_and n mask) in
      let cell : Cell W = record here { words = update here.words j (msg n j) } in
      let was : (q : ℕ) (c : ℕ → Bool)
          → update s.pushes n p q ≡ copying c
          → (b : ℕ → Bool) × (s.pushes q ≡ copying b) =
        λ q c e. elim (moved s.pushes n p q e) [
          | inl (same, _) ↦ (w, subst (λ t. s.pushes t ≡ copying w) same at)
          | inr (_, before) ↦ (c, before)
        ] in
      record {
        bounded = λ q st e. elim (moved s.pushes n p q e) [
          | inl (_, become) ↦ cc
          | inr (_, before) ↦ x.bounded q st before
        ];
        marks = λ q c e. elim (cell_at s (bit_and n mask) cell (bit_and q mask)) [
          | inl (_, new) ↦ ap (λ a. a.seq) new ∙ x.marks n w at
          | inr (_, old) ↦ ap (λ a. a.seq) old ∙ x.marks q (was q c e).0 (was q c e).1
        ];
        one = λ q q' c c' i e e'.
            x.one q q' (was q c e).0 (was q' c' e').0 i (was q c e).1 (was q' c' e').1;
        written = λ q c i e has. elim (moved s.pushes n p q e) [
          | inl (same, become) ↦
              let new = update_self s.cells (bit_and n mask) cell in
              let done_word : update w j true i ≡ true = ap (λ r. copied_of r i) become ∙ has in
              subst (λ t. (update s.cells (bit_and n mask) cell (bit_and t mask)).words i ≡ msg t i)
                same
                (ap (λ a. a.words i) new
                  ∙ word here.words w {m = msg n} j i (λ k h. x.written n w k at h) done_word)
          | inr (other, before) ↦
              ap (λ a. a.words i)
                (update_ne s.cells (bit_and n mask) (bit_and q mask) cell
                  (apart_from s n q w c x at before other))
              ∙ x.written q c i before has
        ];
        whole = λ i k some_seq idle lt. elim (cell_at s (bit_and n mask) cell i) [
          | inl (_, new) ↦ absurd (idle (ap (λ a. a.seq) new ∙ x.marks n w at))
          | inr (other, _) ↦ kept_whole s (bit_and n mask) cell i k x other some_seq idle lt
        ];
      }

  published-IsExclusive :
      (s : Shared W) (n : ℕ) (w : ℕ → Bool)
      → s.pushes n ≡ copying w
      → ((j : ℕ) → j < size → w j ≡ true)
      → IsExclusive s
      → IsExclusive (published capacity mask size msg n s)
  published-IsExclusive s n w at full x =
      let cell : Cell W = record (s.cells (bit_and n mask)) { seq = n } in
      let elsewhere : (q : ℕ) (c : ℕ → Bool)
          → update s.pushes n stored q ≡ copying c
          → update s.cells (bit_and n mask) cell (bit_and q mask) ≡ s.cells (bit_and q mask) =
        λ q c e.
          let (other, before) = still_copying s.pushes n stored q c refl e in
          update_ne s.cells (bit_and n mask) (bit_and q mask) cell
            (apart_from s n q w c x at before other) in
      record {
        bounded = λ q st e. elim (moved s.pushes n stored q e) [
          | inl (_, become) ↦ cc
          | inr (_, before) ↦ x.bounded q st before
        ];
        marks = λ q c e.
            ap (λ a. a.seq) (elsewhere q c e)
            ∙ x.marks q c (still_copying s.pushes n stored q c refl e).1;
        one = λ q q' c c' i e e'.
            x.one q q' c c' i (still_copying s.pushes n stored q c refl e).1
              (still_copying s.pushes n stored q' c' refl e').1;
        written = λ q c j e has.
            ap (λ a. a.words j) (elsewhere q c e)
            ∙ x.written q c j (still_copying s.pushes n stored q c refl e).1 has;
        whole = λ i j some_seq idle lt. elim (cell_at s (bit_and n mask) cell i) [
          | inl (_, new) ↦
              subst (λ a. a.words j ≡ msg a.seq j) (sym new) (x.written n w j at (full j lt))
          | inr (other, _) ↦ kept_whole s (bit_and n mask) cell i j x other some_seq idle lt
        ];
      }

  PushStep-IsExclusive :
      {s t : Shared W} → PushStep capacity mask size msg s t → IsExclusive s → IsExclusive t
  PushStep-IsExclusive {s} (claims room) x =
      quiet s s.claim_seq (looking false) (s.claim_seq + 1) s.write_seq refl (λ st e. room) x
  PushStep-IsExclusive {s} (gives_up n cur st at old) x =
      quiet s n dropped s.claim_seq s.write_seq refl (λ st' e. cc) x
  PushStep-IsExclusive {s} (swaps n cur st at chosen found) x =
      marked-IsExclusive s n cur st at chosen found x
  PushStep-IsExclusive {s} (misses n cur st late at) x =
      quiet s n (after_miss late cur st) s.claim_seq s.write_seq
        (after_miss-not_copying late cur st) (λ _ _. x.bounded n st at) x
  PushStep-IsExclusive {s} (copies n w j at) x = copied-IsExclusive s n w j at x
  PushStep-IsExclusive {s} (stores n w at full) x = published-IsExclusive s n w at full x
  PushStep-IsExclusive {s} (counts n at) x =
      quiet s n returned s.claim_seq (max s.write_seq n) refl (λ st' e. cc) x

  -- From a ring where this holds, as it does for a new one, and however the producers interleave: no two pushes
  -- copy into one slot at a time, and a slot whose sequence is neither 0 nor the mark of a writer holds the
  -- whole message of that sequence. `claim_seq` does not wrap.
  pub PushSteps-IsExclusive :
      {s t : Shared W} → PushSteps capacity mask size msg s t → IsExclusive s → IsExclusive t
  PushSteps-IsExclusive done x = x
  PushSteps-IsExclusive (then_step rest last) x =
      PushStep-IsExclusive last (PushSteps-IsExclusive rest x)
