-- ===== src/Registry/Examples.antt =====
-- A reader table of src/registry.rs with a dead reader, a live one and a free slot.
use ringfire.Prelude.{ℕ, ◌≡◌, refl, Bool, not, some, List, [], ◌∷◌, ◌==◌}
use ringfire.Registry.{
  ReaderSlot, Visit, free_slot, is_process_alive, register, prune_visit, prune_dead_readers,
  is_live, min_with, min_cursor_from, min_cursor,
}
use ringfire.Registry.Min.{IsMinCursor, min_cursor-IsMinCursor}
use ringfire.Registry.Ownership.{
  RegisteredFrom, register-RegisteredFrom, EachPruned, prune_dead_readers-EachPruned,
}

-- Process 8 is gone.
abbrev alive : ℕ → Bool
alive pid = not (pid == 8)

abbrev dead_reader : ReaderSlot
dead_reader = record free_slot { pid = 8; active = 1; cursor_seq = 3 }

abbrev live_reader : ReaderSlot
live_reader = record free_slot { pid = 7; active = 1; cursor_seq = 5 }

-- A scan that nobody interferes with, but for the dead slot, which process 9 takes in between.
abbrev visits : List Visit
visits =
    record { loaded = 8; slot = record dead_reader { pid = 9 } }
    ∷ record { loaded = 7; slot = live_reader }
    ∷ record { loaded = 0; slot = free_slot }
    ∷ []

taken_over : (prune_dead_readers alive visits).0 ≡ 0
unfolding prune_dead_readers prune_visit is_process_alive
taken_over = refl

pruned : (prune_dead_readers alive (record { loaded = 8; slot = dead_reader } ∷ [])).0 ≡ 1
unfolding prune_dead_readers prune_visit is_process_alive
pruned = refl

slowest : min_cursor (live_reader ∷ dead_reader ∷ free_slot ∷ []) ≡ some 3
unfolding min_cursor min_cursor_from min_with is_live
slowest = refl

min_cursor-IsMinCursor_example :
    IsMinCursor
      (min_cursor (live_reader ∷ dead_reader ∷ free_slot ∷ []))
      (live_reader ∷ dead_reader ∷ free_slot ∷ [])
min_cursor-IsMinCursor_example = min_cursor-IsMinCursor (live_reader ∷ dead_reader ∷ free_slot ∷ [])

register-RegisteredFrom_example :
    RegisteredFrom alive 11 6 (97 ∷ []) 0 visits (register alive 11 6 (97 ∷ []) visits)
register-RegisteredFrom_example = register-RegisteredFrom alive 11 6 (97 ∷ []) visits

prune_dead_readers-EachPruned_example : EachPruned alive visits (prune_dead_readers alive visits).1
prune_dead_readers-EachPruned_example = prune_dead_readers-EachPruned alive visits
