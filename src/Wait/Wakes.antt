-- ===== src/Wait/Wakes.antt =====
-- No wake-up is lost between `FutexWait::wait` and `wake_futex` of src/wait.rs.
use ringfire.Prelude.{
  ℕ, zero, suc, ◌+◌, ◌-◌, ◌<◌, ◌≤◌, ◌≡◌, refl, sym, ap, ◌∙◌, subst, ◌⊎◌, inl, inr, Bool, true,
  false, arith, update, update_self, update_ne,
}
use native.Mathlib.Decide.{ℕ_discrete}
use ringfire.Wait.{
  Sleeper, awake, loaded, registered, rechecked, asleep, leaving, Waker, idle, published, noticed,
  bumped, Shared, resting, woken, moved, publishes, bumps, wakes_all, SleeperStep, loads, joins,
  finds, misses, sleeps, refused, times_out, returns, WakerStep, publish, none_waits, notices, bump,
  wake, WaitSteps, done, by_sleeper, by_waker, WakerSteps, rests, goes_on,
}

-- The consumers that `waiting_consumers` counts.
abbrev counts_one : Sleeper → ℕ
counts_one awake = 0
counts_one (loaded val) = 0
counts_one p = 1

count : ℕ → (ℕ → Sleeper) → ℕ
count zero f = 0
count (suc n) f = counts_one (f n) + count n f

count-update_above :
    (n c : ℕ) (f : ℕ → Sleeper) (p : Sleeper) → n ≤ c → count n (update f c p) ≡ count n f
unfolding count
count-update_above zero c f p le = refl
count-update_above (suc n) c f p le =
    let same = ap counts_one (update_ne f c n p (λ e. omega (arith, e))) in
    omega (arith, same, count-update_above n c f p (omega arith))

count-update :
    (n c : ℕ) (f : ℕ → Sleeper) (p : Sleeper)
    → c < n
    → count n (update f c p) + counts_one (f c) ≡ count n f + counts_one p
unfolding count
count-update zero c f p lt = absurd (omega arith)
count-update (suc n) c f p lt = elim (ℕ_discrete c n) [
  | yes last ↦
      let here : counts_one (update f c p n) ≡ counts_one p =
        ap counts_one (subst (λ t. update f c p t ≡ p) last (update_self f c p)) in
      let old : counts_one (f c) ≡ counts_one (f n) = ap (λ t. counts_one (f t)) last in
      omega (arith, here, old, count-update_above n c f p (omega (arith, last)))
  | no other ↦
      let same = ap counts_one (update_ne f c n p other) in
      omega (arith, same, count-update n c f p (omega (arith, other)))
]

counts_one-woken : (p : Sleeper) → counts_one (woken p) ≡ counts_one p
counts_one-woken asleep = refl
counts_one-woken awake = refl
counts_one-woken (loaded val) = refl
counts_one-woken (registered val) = refl
counts_one-woken (rechecked val) = refl
counts_one-woken leaving = refl

count-woken : (n : ℕ) (f : ℕ → Sleeper) → count n (λ c. woken (f c)) ≡ count n f
unfolding count
count-woken zero f = refl
count-woken (suc n) f = omega (arith, counts_one-woken (f n), count-woken n f)

count-awake : (n : ℕ) → count n (λ c. awake) ≡ 0
unfolding count
count-awake zero = refl
count-awake (suc n) = omega (arith, count-awake n)

count-le : (n c : ℕ) (f : ℕ → Sleeper) → c < n → counts_one (f c) ≤ count n f
unfolding count
count-le zero c f lt = absurd (omega arith)
count-le (suc n) c f lt = elim (ℕ_discrete c n) [
  | yes last ↦
      let old : counts_one (f c) ≡ counts_one (f n) = ap (λ t. counts_one (f t)) last in
      omega (arith, old)
  | no other ↦ omega (arith, count-le n c f (omega (arith, other)))
]

-- The producer has still to bump the word, or to wake.
abbrev will_bump : Waker → Bool
will_bump published = true
will_bump noticed = true
will_bump p = false

abbrev will_wake : Waker → Bool
will_wake idle = false
will_wake p = true

-- What holds of a consumer with cursor `k` in each phase.
abbrev Promise : (write_seq futex_word : ℕ) → Waker → (k : ℕ) → Sleeper → Type 0
Promise w v p k awake = Unit
Promise w v p k (loaded val) = val ≤ v
Promise w v p k (registered val) = val ≤ v
Promise w v p k (rechecked val) = (val ≤ v) × ((w < k) ⊎ (val < v) ⊎ (will_bump p ≡ true))
Promise w v p k asleep = (w < k) ⊎ (will_wake p ≡ true)
Promise w v p k leaving = Unit

module _ (n : ℕ) (cursor : ℕ → ℕ) where
  record Holds (s : Shared) : Type 0 where
    pub counted : s.waiting_consumers ≡ count n s.sleepers
    pub promised :
        (c : ℕ) → c < n → Promise s.write_seq s.futex_word s.producer (cursor c) (s.sleepers c)

  settled :
      (s : Shared) (c : ℕ) (p : Sleeper) (waiting : ℕ)
      → Holds s
      → c < n
      → Promise s.write_seq s.futex_word s.producer (cursor c) p
      → waiting + counts_one (s.sleepers c) ≡ s.waiting_consumers + counts_one p
      → Holds (record (moved c p s) { waiting_consumers = waiting })
  settled s c p waiting h lt ok same = record {
    counted = omega (arith, same, h.counted, count-update n c s.sleepers p lt);
    promised = λ c' lt'. elim (ℕ_discrete c c') [
      | yes e ↦
          subst
            (λ t. Promise s.write_seq s.futex_word s.producer (cursor t) (update s.sleepers c p t))
            e
            (subst (λ q. Promise s.write_seq s.futex_word s.producer (cursor c) q)
              (sym (update_self s.sleepers c p)) ok)
      | no other ↦
          subst (λ q. Promise s.write_seq s.futex_word s.producer (cursor c') q)
            (sym (update_ne s.sleepers c c' p other)) (h.promised c' lt')
    ];
  }

  at :
      (s : Shared) (c : ℕ) (p : Sleeper)
      → Holds s
      → c < n
      → s.sleepers c ≡ p
      → Promise s.write_seq s.futex_word s.producer (cursor c) p
  at s c p h lt e =
      subst (λ q. Promise s.write_seq s.futex_word s.producer (cursor c) q) e (h.promised c lt)

  falls_asleep :
      (s : Shared) (c val : ℕ)
      → Promise s.write_seq s.futex_word s.producer (cursor c) (rechecked val)
      → s.futex_word ≡ val
      → Promise s.write_seq s.futex_word s.producer (cursor c) asleep
  falls_asleep s c val (le, inl early) same = inl early
  falls_asleep s c val (le, inr (inl lt)) same = absurd (omega arith)
  falls_asleep s c val (le, inr (inr due)) same = inr (ground arith)

  SleeperStep-Holds : {s t : Shared} → SleeperStep n cursor s t → Holds s → Holds t
  SleeperStep-Holds {s} (loads c lt e) h =
      settled s c (loaded s.futex_word) s.waiting_consumers h lt (omega arith)
        (omega (arith, ap counts_one e))
  SleeperStep-Holds {s} (joins c val lt e) h =
      settled s c (registered val) (s.waiting_consumers + 1) h lt (at s c (loaded val) h lt e)
        (omega (arith, ap counts_one e))
  SleeperStep-Holds {s} (finds c val lt e le) h =
      settled s c leaving s.waiting_consumers h lt tt (omega (arith, ap counts_one e))
  SleeperStep-Holds {s} (misses c val lt e early) h =
      settled s c (rechecked val) s.waiting_consumers h lt
        (at s c (registered val) h lt e, inl early) (omega (arith, ap counts_one e))
  SleeperStep-Holds {s} (sleeps c val lt e same) h =
      settled s c asleep s.waiting_consumers h lt
        (falls_asleep s c val (at s c (rechecked val) h lt e) same) (omega (arith, ap counts_one e))
  SleeperStep-Holds {s} (refused c val lt e) h =
      settled s c leaving s.waiting_consumers h lt tt (omega (arith, ap counts_one e))
  SleeperStep-Holds {s} (times_out c lt e) h =
      settled s c leaving s.waiting_consumers h lt tt (omega (arith, ap counts_one e))
  SleeperStep-Holds {s} (returns c lt e) h =
      settled s c awake (s.waiting_consumers - 1) h lt tt
        (omega (arith, ap counts_one e, h.counted, count-le n c s.sleepers lt))

  -- What a step of the producer that keeps its promises does with all consumers.
  kept :
      (s t : Shared)
      → Holds s
      → t.waiting_consumers ≡ s.waiting_consumers
      → count n t.sleepers ≡ count n s.sleepers
      → ((c : ℕ)
          → c < n
          → (q : Sleeper) → s.sleepers c ≡ q
          → Promise s.write_seq s.futex_word s.producer (cursor c) q
          → Promise t.write_seq t.futex_word t.producer (cursor c) (t.sleepers c))
      → Holds t
  kept s t h same count_eq step = record {
    counted = omega (arith, same, count_eq, h.counted);
    promised = λ c lt. step c lt (s.sleepers c) refl (h.promised c lt);
  }

  -- The promise at a publish, when the producer was idle.
  at_publish :
      (w v w' k : ℕ) (p : Waker) (q : Sleeper)
      → p ≡ idle
      → Promise w v p k q
      → Promise w' v published k q
  at_publish w v w' k p awake e h = tt
  at_publish w v w' k p (loaded val) e h = h
  at_publish w v w' k p (registered val) e h = h
  at_publish w v w' k p (rechecked val) e (le, h) = (le, inr (inr refl))
  at_publish w v w' k p asleep e h = inr refl
  at_publish w v w' k p leaving e h = tt

  -- No consumer is counted.
  at_nobody :
      (w v k : ℕ) (p : Waker) (q : Sleeper)
      → counts_one q ≡ 0
      → Promise w v p k q
      → Promise w v idle k q
  at_nobody w v k p awake e h = tt
  at_nobody w v k p (loaded val) e h = h
  at_nobody w v k p (registered val) e h = absurd (omega arith)
  at_nobody w v k p (rechecked val) e h = absurd (omega arith)
  at_nobody w v k p asleep e h = absurd (omega arith)
  at_nobody w v k p leaving e h = absurd (omega arith)

  at_notice : (w v k : ℕ) (p : Waker) (q : Sleeper) → Promise w v p k q → Promise w v noticed k q
  at_notice w v k p awake h = tt
  at_notice w v k p (loaded val) h = h
  at_notice w v k p (registered val) h = h
  at_notice w v k p (rechecked val) (le, h) = (le, inr (inr refl))
  at_notice w v k p asleep h = inr refl
  at_notice w v k p leaving h = tt

  at_bump : (w v k : ℕ) (p : Waker) (q : Sleeper) → Promise w v p k q → Promise w (v + 1) bumped k q
  at_bump w v k p awake h = tt
  at_bump w v k p (loaded val) h = omega arith
  at_bump w v k p (registered val) h = omega arith
  at_bump w v k p (rechecked val) (le, h) = (omega arith, inr (inl (omega arith)))
  at_bump w v k p asleep h = inr refl
  at_bump w v k p leaving h = tt

  at_wake :
      (w v k : ℕ) (p : Waker) (q : Sleeper)
      → p ≡ bumped
      → Promise w v p k q
      → Promise w v idle k (woken q)
  at_wake w v k p awake e h = tt
  at_wake w v k p (loaded val) e h = h
  at_wake w v k p (registered val) e h = h
  at_wake w v k p (rechecked val) e (le, inl early) = (le, inl early)
  at_wake w v k p (rechecked val) e (le, inr (inl lt)) = (le, inr (inl lt))
  at_wake w v k p (rechecked val) e (le, inr (inr due)) =
      let clash : false ≡ true = ap will_bump (sym e) ∙ due in cc
  at_wake w v k p asleep e h = tt
  at_wake w v k p leaving e h = tt

  WakerStep-Holds : {s t : Shared} → WakerStep s t → Holds s → Holds t
  WakerStep-Holds {s} (publish seq e le) h = kept s (publishes seq s) h refl refl (λ c lt q same p.
      subst (λ r. Promise seq s.futex_word published (cursor c) r) (sym same)
        (at_publish s.write_seq s.futex_word seq (cursor c) s.producer q e p))
  WakerStep-Holds {s} (none_waits e nobody) h =
      kept s (record s { producer = idle }) h refl refl
        (λ c lt q same p.
          let uncounted : counts_one q ≡ 0 =
            omega (arith, nobody, h.counted, ap counts_one same, count-le n c s.sleepers lt) in
          subst (λ r. Promise s.write_seq s.futex_word idle (cursor c) r) (sym same)
            (at_nobody s.write_seq s.futex_word (cursor c) s.producer q uncounted p))
  WakerStep-Holds {s} (notices e some_wait) h =
      kept s (record s { producer = noticed }) h refl refl
        (λ c lt q same p.
          subst (λ r. Promise s.write_seq s.futex_word noticed (cursor c) r) (sym same)
            (at_notice s.write_seq s.futex_word (cursor c) s.producer q p))
  WakerStep-Holds {s} (bump e) h = kept s (bumps s) h refl refl (λ c lt q same p.
      subst (λ r. Promise s.write_seq (s.futex_word + 1) bumped (cursor c) r) (sym same)
        (at_bump s.write_seq s.futex_word (cursor c) s.producer q p))
  WakerStep-Holds {s} (wake e) h =
      kept s (wakes_all s) h refl (count-woken n s.sleepers) (λ c lt q same p.
        subst (λ r. Promise s.write_seq s.futex_word idle (cursor c) (woken r)) (sym same)
          (at_wake s.write_seq s.futex_word (cursor c) s.producer q e p))

  WaitSteps-Holds : {s t : Shared} → WaitSteps n cursor s t → Holds s → Holds t
  WaitSteps-Holds done h = h
  WaitSteps-Holds (by_sleeper rest last) h = SleeperStep-Holds last (WaitSteps-Holds rest h)
  WaitSteps-Holds (by_waker rest last) h = WakerStep-Holds last (WaitSteps-Holds rest h)

  resting-Holds : (write_seq futex_word : ℕ) → Holds (resting write_seq futex_word)
  resting-Holds w v = record { counted = sym (count-awake n); promised = λ c lt. tt }

  -- The producer's own steps, whichever of them is next, up to the wake-up.
  wakes_up :
      (s : Shared) (c : ℕ) (p : Waker)
      → s.producer ≡ p
      → Holds s
      → c < n
      → s.sleepers c ≡ asleep
      → will_wake p ≡ true
      → (u : Shared) × WakerSteps s u × (u.sleepers c ≡ leaving)
  wakes_up s c idle e h lt sleeping due = cc
  wakes_up s c published e h lt sleeping due =
      let waits : 0 < s.waiting_consumers =
        omega (arith, h.counted, ap counts_one sleeping, count-le n c s.sleepers lt) in
      (
        wakes_all (bumps s),
        goes_on (goes_on (goes_on rests (notices e waits)) (bump refl)) (wake refl),
        ap woken sleeping,
      )
  wakes_up s c noticed e h lt sleeping due =
      (wakes_all (bumps s), goes_on (goes_on rests (bump e)) (wake refl), ap woken sleeping)
  wakes_up s c bumped e h lt sleeping due = (wakes_all s, goes_on rests (wake e), ap woken sleeping)

  -- However the accesses of the producer and of the first `n` consumers interleave, from a ring at rest on: a
  -- consumer that sleeps although its message is published is woken by the producer, which has not yet finished the
  -- `wake_futex` of a publish, in its next steps. The futex word does not wrap.
  pub WaitSteps-wakes :
      (write_seq futex_word : ℕ) {t : Shared} (c : ℕ)
      → WaitSteps n cursor (resting write_seq futex_word) t
      → c < n
      → t.sleepers c ≡ asleep
      → cursor c ≤ t.write_seq
      → (u : Shared) × WakerSteps t u × (u.sleepers c ≡ leaving)
  WaitSteps-wakes w v {t} c steps lt sleeping late =
      let h = WaitSteps-Holds steps (resting-Holds w v) in
      elim (at t c asleep h lt sleeping) [
        | inl early ↦ absurd (omega arith)
        | inr due ↦ wakes_up t c t.producer refl h lt sleeping due
      ]
