-- ===== src/Multiplexer/Fair.antt =====
-- The round robin of src/multiplexer.rs: a channel that has a message is read within one round of the channels.
use ringfire.Prelude.{
  ℕ, zero, suc, ◌+◌, ◌-◌, ◌%◌, ◌≤◌, ◌<◌, ◌≡◌, ◌≢◌, refl, sym, ap, ◌∙◌, subst, ◌⊎◌, inl, inr, false,
  arith, Option, none, some, Any, Option-cases, ◌==◌, update, update_ne, mod-ne,
}
use native.Mathlib.Nat.{mod-eq_of_lt, mod-add-mod, add-mod_right}
use native.Mathlib.Decide.{ℕ_discrete, dec_le}
use ringfire.Multiplexer.{RingMultiplexer, poll_from, try_recv_any, recv_batch_any}

sooner : (i d : ℕ) → i ≤ d → i ≢ d → i < d
sooner i d le other = omega (arith, other)

next_offset :
    (start e d n : ℕ) → e < d → (((start + e) % n + 1) % n + (d - e - 1)) % n ≡ (start + d) % n
next_offset start e d n lt =
    let inner : (start + e) % n + 1 + (d - e - 1) ≡ (start + e) % n + (d - e) = omega arith in
    let outer : start + e + (d - e) ≡ start + d = omega arith in
    mod-add-mod ((start + e) % n + 1) n (d - e - 1)
    ∙ (ap (λ t. t % n) inner ∙ (mod-add-mod (start + e) n (d - e) ∙ ap (λ t. t % n) outer))

module _ {C T : Type 0} (try_recv : C → Option T × C) where
  abbrev pub IsReady : C → Type 0
  IsReady c = (msg : T) × ((try_recv c).0 ≡ some msg)

  -- A poll that finds the channel at offset `e` from `start`, no later than offset `d`; the channel at `d` is as
  -- it was if it was not that one.
  record Found (start n d : ℕ) (cs : ℕ → C) (r : Option (ℕ × T) × (ℕ → C)) : Type 0 where
    pub offset : ℕ
    pub msg : T
    pub polled : ℕ → C
    pub result : r ≡ (some ((start + offset) % n, msg), polled)
    pub by_then : offset ≤ d
    pub waits : offset < d → polled ((start + d) % n) ≡ cs ((start + d) % n)

  apart : (start n i d : ℕ) → i < d → d < n → (start + i) % n ≢ (start + d) % n
  apart start n i d lt below = mod-ne (start + i) (start + d) n (omega arith) (omega arith)

  poll_from-Found :
      (rounds i start n d : ℕ) (cs : ℕ → C)
      → i ≤ d
      → d < i + rounds
      → d < n
      → IsReady (cs ((start + d) % n))
      → Found start n d cs (poll_from try_recv rounds i start n cs)
  unfolding poll_from
  poll_from-Found zero i start n d cs lo hi below ready = absurd (omega arith)
  poll_from-Found (suc rounds) i start n d cs lo hi below (msg, has) =
      let idx = (start + i) % n in
      let polled = update cs idx (try_recv (cs idx)).1 in
      let rest = poll_from try_recv rounds (i + 1) start n polled in
      elim (Option-cases (try_recv (cs idx)).0) [
        | inl empty ↦
            let later : i < d = elim (ℕ_discrete i d) [
              | yes same ↦
                  let clash : none ≡ some msg =
                    sym empty ∙ ap (λ e. (try_recv (cs ((start + e) % n))).0) same ∙ has in
                  cc
              | no other ↦ sooner i d lo other
            ] in
            let same =
              update_ne cs idx ((start + d) % n) (try_recv (cs idx)).1
                (apart start n i d later below) in
            let f =
              poll_from-Found rounds (i + 1) start n d polled (omega arith) (omega arith) below
                (msg, ap (λ c. (try_recv c).0) same ∙ has) in
            rw empty (record {
              offset = f.offset;
              msg = f.msg;
              polled = f.polled;
              result = f.result;
              by_then = f.by_then;
              waits = λ lt. f.waits lt ∙ same;
            })
        | inr (x, got) ↦ rw got (record {
          offset = i;
          msg = x;
          polled = polled;
          result = refl;
          by_then = lo;
          waits = λ lt.
              update_ne cs idx ((start + d) % n) (try_recv (cs idx)).1 (apart start n i d lt below);
        })
      ]

  -- Of a call: the channel that it serves, and how the wait of channel `k` is shortened.
  record Serves (k d : ℕ) (m : RingMultiplexer C) (r : Option (ℕ × T) × RingMultiplexer C)
      : Type 0 where
    pub idx : ℕ
    pub msg : T
    pub after : RingMultiplexer C
    pub result : r ≡ (some (idx, msg), after)
    pub len_eq : after.len ≡ m.len
    pub turn :
        (idx ≡ k)
        ⊎ ((d' : ℕ) × (d' < d)
            × ((after.next_idx + d') % m.len ≡ k)
            × (after.consumers k ≡ m.consumers k))

  try_recv_any-Serves :
      (m : RingMultiplexer C) (k d : ℕ)
      → d < m.len
      → (m.next_idx + d) % m.len ≡ k
      → IsReady (m.consumers k)
      → Serves k d m (try_recv_any try_recv m)
  unfolding try_recv_any
  try_recv_any-Serves m k d below at ready =
      let some_left : (m.len == 0) ≡ false = ground arith in
      let f =
        poll_from-Found m.len 0 m.next_idx m.len d m.consumers (omega arith) (omega arith) below
          (subst (λ j. IsReady (m.consumers j)) (sym at) ready) in
      let idx = (m.next_idx + f.offset) % m.len in
      rw (some_left, f.result)
        (record {
          idx = idx;
          msg = f.msg;
          after = record m { consumers = f.polled; next_idx = (idx + 1) % m.len };
          result = refl;
          len_eq = refl;
          turn = elim (ℕ_discrete f.offset d) [
            | yes last ↦ inl (ap (λ e. (m.next_idx + e) % m.len) last ∙ at)
            | no earlier ↦
                let lt = sooner f.offset d f.by_then earlier in
                inr (
                  d - f.offset - 1,
                  omega arith,
                  next_offset m.next_idx f.offset d m.len lt ∙ at,
                  ap f.polled (sym at) ∙ f.waits lt ∙ ap m.consumers at,
                )
          ];
        })

  batch-serves :
      (max_items : ℕ) (m : RingMultiplexer C) (k d : ℕ)
      → d < max_items
      → d < m.len
      → (m.next_idx + d) % m.len ≡ k
      → IsReady (m.consumers k)
      → Any (λ x. x.0 ≡ k) (recv_batch_any try_recv max_items m).0
  unfolding recv_batch_any
  batch-serves zero m k d room below at ready = absurd (omega arith)
  batch-serves (suc max_items) m k d room below at ready =
      let s = try_recv_any-Serves m k d below at ready in
      rw s.result (elim s.turn [
        | inl served ↦ inl served
        | inr (d', lt, at', same) ↦ inr (
            batch-serves max_items s.after k d' (omega arith) (omega (arith, s.len_eq, below))
              (ap (λ n. (s.after.next_idx + d') % n) s.len_eq ∙ at')
              (ready.0, ap (λ c. (try_recv c).0) same ∙ ready.1))
      ])

  offset_of : (start k n : ℕ) → start < n → k < n → (d : ℕ) × (d < n) × ((start + d) % n ≡ k)
  offset_of start k n lt below = elim (dec_le start k) [
    | yes ahead ↦
        let e : start + (k - start) ≡ k = omega arith in
        (k - start, omega arith, ap (λ t. t % n) e ∙ mod-eq_of_lt below)
    | no behind ↦
        let e : start + (k + n - start) ≡ k + n = omega (arith, behind) in
        (
          k + n - start,
          omega (arith, behind),
          ap (λ t. t % n) e ∙ (add-mod_right k n ∙ mod-eq_of_lt below),
        )
  ]

  -- A channel that has a message is among those that `recv_batch_any` reads, if it may read as many messages
  -- as there are channels: the others, however full, cannot keep it waiting longer than one round. `next_idx` is
  -- a channel.
  pub recv_batch_any-serves :
      (max_items : ℕ) (m : RingMultiplexer C) (k : ℕ)
      → m.next_idx < m.len
      → k < m.len
      → m.len ≤ max_items
      → IsReady (m.consumers k)
      → Any (λ x. x.0 ≡ k) (recv_batch_any try_recv max_items m).0
  recv_batch_any-serves max_items m k lt below room ready =
      let (d, small, at) = offset_of m.next_idx k m.len lt below in
      batch-serves max_items m k d (omega arith) small at ready
