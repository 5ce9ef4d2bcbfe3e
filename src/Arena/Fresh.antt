-- ===== src/Arena/Fresh.antt =====
-- A payload that src/arena.rs has just stored: its reference is inside the arena and is not lapped, unless
-- the payload is empty.
use ringfire.Prelude.{ℕ, ◌<◌, ◌≡◌, true, false, arith, refl, some, List, [], length, bit_and-eq-mod}
use ringfire.Arena.{PayloadArena, place, is_in_bounds, is_lapped, empty_ref, write_blob, reserve}
use ringfire.Errors.{ok}
use ringfire.Arena.Reserve.{IsArena, IsAligned, capacity_max, capacity-mod_64}
use ringfire.Arena.Blobs.{Fits, ref_of, arena_after, placed}

pub fresh-is_in_bounds :
    (a : PayloadArena) (d : List ℕ)
    → IsArena a
    → IsAligned a.reserved a
    → Fits a d
    → is_in_bounds (arena_after a d) (ref_of a d 0) ≡ true
unfolding is_in_bounds
fresh-is_in_bounds a d i al fits =
    let p = placed a d i al fits in
    let off = (place a (length d) a.reserved).0 in
    let ix = bit_and-eq-mod i.exponent a.capacity a.mask off i.capacity_eq i.mask_eq in
    let small = capacity_max a i in ground arith

pub fresh-is_lapped :
    (a : PayloadArena) (d : List ℕ)
    → IsArena a
    → IsAligned a.reserved a
    → Fits a d
    → is_lapped (arena_after a d) (ref_of a d 0) ≡ false
unfolding is_lapped
fresh-is_lapped a d i al fits =
    let p = placed a d i al fits in
    let small = capacity_max a i in let whole = capacity-mod_64 a i in ground arith

pub write_blob-empty :
    (a : PayloadArena) (flags : ℕ) → write_blob a [] flags ≡ some (ok empty_ref, a)
unfolding write_blob reserve
write_blob-empty a flags = refl

pub empty-is_lapped : (a : PayloadArena) → a.capacity < a.reserved → is_lapped a empty_ref ≡ true
unfolding is_lapped
empty-is_lapped a lt = ground arith
