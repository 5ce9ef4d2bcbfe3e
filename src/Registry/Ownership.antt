-- ===== src/Registry/Ownership.antt =====
-- Who owns a slot of the table of src/registry.rs, whatever happens between a scan's load of a pid and
-- its compare-and-swap.
use ringfire.Prelude.{
  ℕ, ◌+◌, ◌≤◌, ◌<◌, ◌≡◌, ◌≢◌, refl, ap, ◌⊎◌, inl, inr, Bool, true, false, Option, none, some, List,
  [], ◌∷◌, ◌++◌, map, arith, All, Bool-cases, length, not, ◌&&◌, ◌==◌, ◌!=◌,
}
use ringfire.Errors.{Result, ok, err, no_available_reader_slots}
use ringfire.Names.{name_buffer}
use ringfire.Registry.{
  ReaderSlot, Visit, is_process_alive, claim, register_from, register, prune_visit,
  prune_dead_readers, go_on, reader_lag, headroom,
}

module _ (probe : ℕ → Bool) where
  -- The load found nobody, or a process that is gone.
  abbrev pub Vacant : ℕ → Type 0
  Vacant pid = (pid ≡ 0) ⊎ (is_process_alive probe pid ≡ false)

  module _ (pid cursor : ℕ) (name : List ℕ) where
    -- The slot that a registration leaves.
    abbrev pub registered_slot : ReaderSlot
    registered_slot = record {
      pid = pid;
      active = 1;
      cursor_seq = cursor;
      heartbeat_tsc = 0;
      name = name_buffer name;
    }

    -- A visit of `register` that takes the slot: it was vacant, and nobody else took it since the load.
    abbrev pub Takes : Visit → Type 0
    Takes v = Vacant v.loaded × (v.slot.pid ≡ v.loaded)

    claim-some :
        (v : Visit) {s : ReaderSlot}
        → claim probe pid cursor name v ≡ some s
        → Takes v × (s ≡ registered_slot)
    unfolding claim
    claim-some v e = ((ground arith, ground arith), ground arith)

    claim-none : (v : Visit) → claim probe pid cursor name v ≡ none → ¬ Takes v
    unfolding claim
    claim-none v e (vacant, same) = ground arith

    -- What a scan from slot `i` on has done.
    abbrev pub RegisteredFrom : ℕ → List Visit → Result (ℕ × List ReaderSlot) → Type 0
    RegisteredFrom i vs (ok (k, ss)) =
        (before after : List Visit) × (v : Visit) × (vs ≡ before ++ (v ∷ after))
        × (k ≡ i + length before)
        × (ss ≡ map (λ u. u.slot) before ++ (registered_slot ∷ map (λ u. u.slot) after))
        × Takes v
        × All (λ u. ¬ Takes u) before
    RegisteredFrom i vs (err e) = (e ≡ no_available_reader_slots) × All (λ u. ¬ Takes u) vs

    register_from-RegisteredFrom :
        (i : ℕ) (vs : List Visit) → RegisteredFrom i vs (register_from probe i pid cursor name vs)
    unfolding register_from
    register_from-RegisteredFrom i [] = (refl, tt)
    register_from-RegisteredFrom i (v ∷ vs) =
        go (claim probe pid cursor name v) refl (register_from probe (i + 1) pid cursor name vs)
          (register_from-RegisteredFrom (i + 1) vs)
      where
        go :
            (o : Option ReaderSlot)
            → claim probe pid cursor name v ≡ o
            → (r : Result (ℕ × List ReaderSlot)) → RegisteredFrom (i + 1) vs r
            → RegisteredFrom i (v ∷ vs) (go_on i v vs o r)
        go (some s) e r h =
            let (takes, same) = claim-some v e in
            ([], vs, v, refl, omega arith, ap (λ x. x ∷ map (λ u. u.slot) vs) same, takes, tt)
        go none e (ok (k, ss)) (before, after, u, here, at, rest, takes, refused) = (
          v ∷ before,
          after,
          u,
          ap (λ x. v ∷ x) here,
          omega arith,
          ap (λ x. v.slot ∷ x) rest,
          takes,
          (claim-none v e, refused),
        )
        go none e (err x) (same, refused) = (same, (claim-none v e, refused))

  -- `register` takes the first slot that its visit found free or left by a dead process and that nobody
  -- took since, whatever happens between a load and its compare-and-swap. That slot becomes a live one
  -- with the given pid, cursor and name, and every other slot stays as it was. It fails only with
  -- `NoAvailableReaderSlots`, and only if no visit found such a slot.
  pub register-RegisteredFrom :
      (pid cursor : ℕ) (name : List ℕ) (vs : List Visit)
      → RegisteredFrom pid cursor name 0 vs (register probe pid cursor name vs)
  unfolding register
  register-RegisteredFrom pid cursor name vs = register_from-RegisteredFrom pid cursor name 0 vs

  -- Slot by slot, what `prune_dead_readers` leaves of what it visits.
  abbrev pub Pruned : Visit → ReaderSlot → Type 0
  Pruned v s =
      ((v.loaded ≢ 0)
        × (is_process_alive probe v.loaded ≡ false)
        × (v.slot.pid ≡ v.loaded)
        × (s ≡ record v.slot { pid = 0 }))
      ⊎ (s ≡ v.slot)
        × ((v.slot.pid ≡ v.loaded) → (v.loaded ≡ 0) ⊎ (is_process_alive probe v.loaded ≡ true))

  prune_visit-Pruned : (v : Visit) → Pruned v (prune_visit probe v).1
  unfolding prune_visit
  prune_visit-Pruned v =
      elim (Bool-cases
        (v.loaded != 0 && not (is_process_alive probe v.loaded) && v.slot.pid == v.loaded)) [
          | inl dead ↦ inl (ground arith, ground arith, ground arith, ground arith)
          | inr kept ↦ inr (ground arith, λ same. ground arith)
        ]

  abbrev pub EachPruned : List Visit → List ReaderSlot → Type 0
  EachPruned [] ss = ss ≡ []
  EachPruned (v ∷ vs) [] = ⊥
  EachPruned (v ∷ vs) (s ∷ ss) = Pruned v s × EachPruned vs ss

  -- `prune_dead_readers` clears the pid of a slot exactly when the load found a dead process and the slot
  -- still has its pid at the compare-and-swap; every other slot stays as it is. So a reader that took the
  -- slot of a dead one in between keeps it.
  pub prune_dead_readers-EachPruned :
      (vs : List Visit) → EachPruned vs (prune_dead_readers probe vs).1
  unfolding prune_dead_readers
  prune_dead_readers-EachPruned [] = refl
  prune_dead_readers-EachPruned (v ∷ vs) = (prune_visit-Pruned v, prune_dead_readers-EachPruned vs)

-- The producer's view of the slowest reader: while it has not been lapped, its lag and the headroom make
-- up the capacity, and after `headroom` further messages the writer stands just before the message
-- that would take the slot of the reader's next one.
headroom_lag :
    (min_seq write_seq capacity : ℕ)
    → 0 < min_seq
    → min_seq ≤ write_seq + 1
    → write_seq < min_seq + capacity
    → (reader_lag (some min_seq) write_seq + headroom (some min_seq) write_seq capacity ≡ capacity)
      × (write_seq + headroom (some min_seq) write_seq capacity + 1 ≡ min_seq + capacity)
unfolding reader_lag headroom
headroom_lag min_seq write_seq capacity pos le lt = omega arith
