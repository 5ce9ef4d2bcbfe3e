-- ===== src/Arena/Life.antt =====
-- The life of a payload of src/arena.rs: it reads back until the reservations behind it lap it.
use ringfire.Prelude.{
  ℕ, ◌+◌, ◌*◌, ◌%◌, ◌^◌, ◌≤◌, ◌<◌, ◌≡◌, refl, sym, ap, ◌∙◌, subst, true, false, ◌⊎◌, inl, inr,
  arith, Option, none, some, List, [], ◌∷◌, All, length, Bool-cases, some-injective,
}
use ringfire.Errors.{Result, ok, err}
use ringfire.Arena.{BlobRef, PayloadArena, is_lapped, write_blob, read_blob}
use ringfire.Arena.Reserve.{IsArena, IsAligned}
use ringfire.Arena.Blobs.{
  IsHeld, Fits, arena_after, ref_of, placed, write_blob-eq, arena_after-IsArena, write_blob-IsHeld,
  IsHeld-read, IsHeld-survives,
}

abbrev pub go_on_writing :
    (PayloadArena → Option PayloadArena)
    → Option (Result BlobRef × PayloadArena)
    → Option PayloadArena
go_on_writing f none = none
go_on_writing f (some (err e, a)) = none
go_on_writing f (some (ok r, a)) = f a

-- Writes one payload after the other.
pub write_blobs : PayloadArena → List (List ℕ) → Option PayloadArena
write_blobs a [] = some a
write_blobs a (d ∷ ds) = go_on_writing (λ b. write_blobs b ds) (write_blob a d 0)

-- Room for `reserved` to grow without wrapping.
abbrev pub room_for : ℕ → List (List ℕ) → ℕ
room_for capacity [] = 2 * capacity + 64
room_for capacity (d ∷ ds) = 2 * capacity + 64 + room_for capacity ds

abbrev pub HasRoomFor : PayloadArena → List (List ℕ) → Type 0
HasRoomFor a ds = (a.reserved % 64 ≡ 0) × (a.reserved + room_for a.capacity ds < 2 ^ 64)

room_for-min : (c : ℕ) (ds : List (List ℕ)) → 2 * c + 64 ≤ room_for c ds
room_for-min c [] = omega arith
room_for-min c (d ∷ ds) = omega (arith, room_for-min c ds)

aligned : (a : PayloadArena) (ds : List (List ℕ)) → HasRoomFor a ds → IsAligned a.reserved a
aligned a ds h = (h.0, omega (arith, room_for-min a.capacity ds, h.1))

room_after :
    (a : PayloadArena) (d : List ℕ) (ds : List (List ℕ))
    → IsArena a
    → Fits a d
    → HasRoomFor a (d ∷ ds)
    → HasRoomFor (arena_after a d) ds
room_after a d ds i f h =
    let p = placed a d i (aligned a (d ∷ ds) h) f in (p.next_aligned, omega arith)

-- What every write keeps, whichever reference is looked at.
record IsLater (a b : PayloadArena) : Type 0 where
  pub capacity_eq : b.capacity ≡ a.capacity
  pub reserved_le : a.reserved ≤ b.reserved

writes :
    (a : PayloadArena) (ds : List (List ℕ))
    → IsArena a
    → HasRoomFor a ds
    → All (Fits a) ds
    → (b : PayloadArena) × (write_blobs a ds ≡ some b) × IsLater a b
unfolding write_blobs
writes a [] i h f = (a, refl, record { capacity_eq = refl; reserved_le = omega arith })
writes a (d ∷ ds) i h f =
    let p = placed a d i (aligned a (d ∷ ds) h) f.0 in
    let (b, eq, l) =
      writes (arena_after a d) ds (arena_after-IsArena a d i) (room_after a d ds i f.0 h) f.1 in
    (
      b,
      ap (go_on_writing (λ b. write_blobs b ds)) (write_blob-eq a d 0 f.0) ∙ eq,
      record { capacity_eq = l.capacity_eq; reserved_le = omega arith },
    )

fresh_before :
    (a b : PayloadArena) (r : BlobRef) → IsLater a b → is_lapped b r ≡ false → is_lapped a r ≡ false
unfolding is_lapped
fresh_before a b r l h = ground arith

outlives :
    (a : PayloadArena) (ds : List (List ℕ)) (r : BlobRef) (d : List ℕ) (b : PayloadArena)
    → IsArena a
    → HasRoomFor a ds
    → All (Fits a) ds
    → IsHeld a r d
    → write_blobs a ds ≡ some b
    → is_lapped b r ≡ false
    → IsHeld b r d × IsArena b
unfolding write_blobs
outlives a [] r d b i h f held eq fresh =
    subst (λ x. IsHeld x r d × IsArena x) (some-injective _ _ eq) (held, i)
outlives a (x ∷ xs) r d b i h f held eq fresh =
    let a' = arena_after a x in
    let h' = room_after a x xs i f.0 h in
    let i' = arena_after-IsArena a x i in
    let eq' : write_blobs a' xs ≡ some b =
      sym (ap (go_on_writing (λ b. write_blobs b xs)) (write_blob-eq a x 0 f.0)) ∙ eq in
    let (b', eq'', l) = writes a' xs i' h' f.1 in
    let same = some-injective _ _ (sym eq'' ∙ eq') in
    let fresh' = fresh_before a' b' r l (subst (λ y. is_lapped y r ≡ false) (sym same) fresh) in
    outlives a' xs r d b i' h' f.1
      (IsHeld-survives a r d x i (aligned a (x ∷ xs) h) f.0 held fresh') eq' fresh

-- A payload is written and then any number of others, one writer at a time, all no longer than the
-- capacity and the 32-bit length, into an arena whose 64-bit `reserved` has room for them: every write
-- succeeds, and in the end the first payload reads back whole, unless `is_lapped` says that it is gone.
pub write_blob-outlives :
    (a : PayloadArena) (d : List ℕ) (flags : ℕ) (later : List (List ℕ)) (out_len : ℕ)
    → IsArena a
    → HasRoomFor a (d ∷ later)
    → All (Fits a) (d ∷ later)
    → length d ≤ out_len
    → (r : BlobRef) × (a' : PayloadArena) × (b : PayloadArena) × (write_blob a d flags
        ≡ some (ok r, a'))
      × (write_blobs a' later ≡ some b)
      × ((is_lapped b r ≡ true) ⊎ (read_blob b r out_len ≡ ok d))
write_blob-outlives a d flags later out_len i h f out =
    let a' = arena_after a d in
    let r = ref_of a d flags in
    let i' = arena_after-IsArena a d i in
    let h' = room_after a d later i f.0 h in
    let (b, eq, l) = writes a' later i' h' f.1 in
    let held = write_blob-IsHeld a d flags i (aligned a (d ∷ later) h) f.0 in
    (
      r,
      a',
      b,
      write_blob-eq a d flags f.0,
      eq,
      elim (Bool-cases (is_lapped b r)) [
        | inl gone ↦ inl gone
        | inr fresh ↦
            let (held', j) = outlives a' later r d b i' h' f.1 held eq fresh in
            inr (IsHeld-read b r d out_len j held' f.0.0 out)
      ],
    )
