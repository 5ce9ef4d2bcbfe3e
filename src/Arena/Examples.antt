-- ===== src/Arena/Examples.antt =====
-- An arena of 128 bytes (src/arena.rs) that payloads wrap around in.
use ringfire.Prelude.{ℕ, ◌≡◌, ◌⊎◌, refl, arith, true, false, some, List, [], ◌∷◌, Any}
use ringfire.Errors.{ok}
use ringfire.Arena.{
  BlobRef, PayloadArena, Attempt, slot_size_of, place, reserve_loop, reserve, is_lapped, write_blob,
  read_blob,
}
use ringfire.Arena.Reserve.{IsArena, IsPlacedFrom, reserve-IsPlaced}
use ringfire.Arena.Blobs.{Fits}
use ringfire.Arena.Life.{write_blobs, write_blob-outlives}

abbrev arena : PayloadArena
arena = record { capacity = 128; mask = 127; reserved = 64; bytes = λ j. 0 }

arena-IsArena : IsArena arena
arena-IsArena = record {
  exponent = 7;
  capacity_eq = refl;
  exponent_max = omega arith;
  capacity_min = omega arith;
  mask_eq = refl;
}

-- The first attempt loses its compare-and-swap to a reservation of 64 bytes; the second would run past
-- the end, so it starts at the next round.
abbrev attempts : List Attempt
attempts =
    record { loaded = 0; actual = 64; spurious = false }
    ∷ record { loaded = 64; actual = 64; spurious = false }
    ∷ []

second_round :
    reserve arena 100 5 attempts
    ≡ some (ok (record { offset = 128; len = 100; flags = 5 }), some 256)
unfolding reserve reserve_loop place slot_size_of
second_round = refl

reserve-IsPlaced_example : (◌≡◌ {A = ℕ} 100 100) × Any (IsPlacedFrom arena 100 (128, 256)) attempts
reserve-IsPlaced_example =
    reserve-IsPlaced arena 100 5 attempts (record { offset = 128; len = 100; flags = 5 }) 256
      arena-IsArena ((refl, omega arith), ((refl, omega arith), tt)) second_round

abbrev abc : List ℕ
abc = 97 ∷ 98 ∷ 99 ∷ []

abc-Fits : Fits arena abc
abc-Fits = omega arith

write_blob-outlives_example :
    (r : BlobRef) × (a' : PayloadArena) × (b : PayloadArena) × (write_blob arena abc 0
      ≡ some (ok r, a'))
    × (write_blobs a' (abc ∷ abc ∷ []) ≡ some b)
    × ((is_lapped b r ≡ true) ⊎ (read_blob b r 8 ≡ ok abc))
write_blob-outlives_example =
    write_blob-outlives arena abc 0 (abc ∷ abc ∷ []) 8 arena-IsArena (refl, omega arith)
      (abc-Fits, (abc-Fits, (abc-Fits, tt))) (omega arith)
