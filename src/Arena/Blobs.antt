-- ===== src/Arena/Blobs.antt =====
-- What `write_blob` stores `read_blob` returns (src/arena.rs), until later payloads reuse its bytes.
use ringfire.Prelude.{
  ℕ, zero, suc, ◌+◌, ◌-◌, ◌%◌, ◌≤◌, ◌<◌, ◌≡◌, refl, ap, ◌∙◌, false, ◌⊎◌, inl, inr, arith, Option,
  some, List, [], ◌∷◌, length, u32_max, bit_and, bit_and-eq-mod, mod-ne, mod-add,
}
use native.Mathlib.Decide.{dec_lt}
use ringfire.Errors.{Result, ok}
use ringfire.Arena.{
  BlobRef, PayloadArena, Attempt, place, reserve_loop, reserve, is_in_bounds, is_lapped,
  store_bytes, load_bytes, stored_as, write_blob, read_blob,
}
use ringfire.Arena.Reserve.{IsArena, IsPlaced, IsAligned, capacity_max, place-IsPlaced}

store_bytes_other :
    (mem : ℕ → ℕ) (at : ℕ) (bs : List ℕ) (j : ℕ)
    → (j < at) ⊎ (at + length bs ≤ j)
    → store_bytes mem at bs j ≡ mem j
unfolding store_bytes
store_bytes_other mem at [] j h = refl
store_bytes_other mem at (b ∷ bs) j h =
    ground (arith, store_bytes_other mem (at + 1) bs j (ground arith))

load_bytes_cong :
    (m m' : ℕ → ℕ) (at n : ℕ)
    → ((j : ℕ) → at ≤ j → j < at + n → m j ≡ m' j)
    → load_bytes m at n ≡ load_bytes m' at n
unfolding load_bytes
load_bytes_cong m m' at zero h = refl
load_bytes_cong m m' at (suc n) h =
    let first = h at (omega arith) (omega arith) in
    let rest = load_bytes_cong m m' (at + 1) n (λ j up lt. h j (omega arith) (omega arith)) in cc

skips :
    (mem : ℕ → ℕ) (at b : ℕ) (bs : List ℕ) (j : ℕ)
    → at + 1 ≤ j
    → store_bytes mem at (b ∷ bs) j ≡ store_bytes mem (at + 1) bs j
unfolding store_bytes
skips mem at b bs j up = ground arith

load_bytes-store_bytes :
    (mem : ℕ → ℕ) (at : ℕ) (bs : List ℕ) → load_bytes (store_bytes mem at bs) at (length bs) ≡ bs
unfolding load_bytes store_bytes
load_bytes-store_bytes mem at [] = refl
load_bytes-store_bytes mem at (b ∷ bs) =
    let later =
      load_bytes_cong (store_bytes mem at (b ∷ bs)) (store_bytes mem (at + 1) bs) (at + 1)
        (length bs) (λ j up lt. skips mem at b bs j up) in
    let first : store_bytes mem at (b ∷ bs) at ≡ b = ground arith in
    ap (λ t. t ∷ load_bytes (store_bytes mem at (b ∷ bs)) (at + 1) (length bs)) first
    ∙ ap (λ t. b ∷ t) (later ∙ load_bytes-store_bytes mem (at + 1) bs)

-- The payload that a reference stands for is in the arena's bytes.
pub record IsHeld (a : PayloadArena) (r : BlobRef) (data_ : List ℕ) : Type 0 where
  pub len_eq : r.len ≡ length data_
  pub contiguous : r.offset % a.capacity + r.len ≤ a.capacity
  pub before : r.offset + r.len ≤ a.reserved
  pub stored : load_bytes a.bytes (bit_and r.offset a.mask) (length data_) ≡ data_

-- No byte of one placement is a byte of another that ends less than a capacity after its start.
disjoint :
    (c off len off' len' : ℕ) (at at' : ℕ)
    → at ≡ off % c
    → at' ≡ off' % c
    → at + len ≤ c
    → at' + len' ≤ c
    → off + len ≤ off'
    → off' + len' ≤ off + c
    → (j : ℕ) → at ≤ j
    → j < at + len
    → (j < at') ⊎ (at' + len' ≤ j)
disjoint c off len off' len' at at' e e' f f' after near j up lt = elim (dec_lt j at') [
  | yes below ↦ inl below
  | no not_below ↦ elim (dec_lt j (at' + len')) [
    | yes inside ↦
        let i = j - at in
        let k = j - at' in
        absurd (
          mod-ne (off + i) (off' + k) c (omega arith) (omega arith)
            (omega (arith, mod-add off i c (omega arith), mod-add off' k c (omega arith))))
    | no above ↦ inr (omega arith)
  ]
]

-- The reference and the arena after a write that succeeds.
abbrev pub ref_of : PayloadArena → List ℕ → ℕ → BlobRef
ref_of a data_ flags = record {
  offset = (place a (length data_) a.reserved).0;
  len = length data_;
  flags = flags;
}

abbrev pub arena_after : PayloadArena → List ℕ → PayloadArena
arena_after a data_ =
    let (offset, next) = place a (length data_) a.reserved in
    record a { reserved = next; bytes = store_bytes a.bytes (bit_and offset a.mask) data_ }

-- A payload that the arena takes.
abbrev pub Fits : PayloadArena → List ℕ → Type 0
Fits a data_ = (0 < length data_) × (length data_ ≤ a.capacity) × (length data_ ≤ u32_max)

abbrev attempt_of : PayloadArena → List Attempt
attempt_of a = record { loaded = a.reserved; actual = a.reserved; spurious = false } ∷ []

reserve-eq :
    (a : PayloadArena) (data_ : List ℕ) (flags : ℕ)
    → Fits a data_
    → reserve a (length data_) flags (attempt_of a)
      ≡ some (ok (ref_of a data_ flags), some (place a (length data_) a.reserved).1)
unfolding reserve reserve_loop
reserve-eq a data_ flags fits = ground arith

pub write_blob-eq :
    (a : PayloadArena) (data_ : List ℕ) (flags : ℕ)
    → Fits a data_
    → write_blob a data_ flags ≡ some (ok (ref_of a data_ flags), arena_after a data_)
unfolding write_blob
write_blob-eq a data_ flags fits =
    ap (λ (x : Option (Result BlobRef × Option ℕ)). stored_as a data_ x)
      (reserve-eq a data_ flags fits)

pub placed :
    (a : PayloadArena) (data_ : List ℕ)
    → IsArena a
    → IsAligned a.reserved a
    → Fits a data_
    → let p = place a (length data_) a.reserved in
      IsPlaced a.capacity (length data_) a.reserved p.0 p.1
placed a data_ i al fits = place-IsPlaced a (length data_) a.reserved i fits.1 al.0 al.1

pub arena_after-IsArena :
    (a : PayloadArena) (data_ : List ℕ) → IsArena a → IsArena (arena_after a data_)
arena_after-IsArena a data_ i = record {
  exponent = i.exponent;
  capacity_eq = i.capacity_eq;
  exponent_max = i.exponent_max;
  capacity_min = i.capacity_min;
  mask_eq = i.mask_eq;
}

pub write_blob-IsHeld :
    (a : PayloadArena) (data_ : List ℕ) (flags : ℕ)
    → IsArena a
    → IsAligned a.reserved a
    → Fits a data_
    → IsHeld (arena_after a data_) (ref_of a data_ flags) data_
write_blob-IsHeld a data_ flags i al fits =
    let p = placed a data_ i al fits in
    record {
      len_eq = refl;
      contiguous = p.contiguous;
      before = p.covers;
      stored =
          load_bytes-store_bytes a.bytes (bit_and (place a (length data_) a.reserved).0 a.mask)
            data_;
    }

pub IsHeld-read :
    (a : PayloadArena) (r : BlobRef) (data_ : List ℕ) (out_len : ℕ)
    → IsArena a
    → IsHeld a r data_
    → 0 < length data_
    → length data_ ≤ out_len
    → read_blob a r out_len ≡ ok data_
unfolding read_blob is_in_bounds
IsHeld-read a r data_ out_len i h pos out =
    let ix = bit_and-eq-mod i.exponent a.capacity a.mask r.offset i.capacity_eq i.mask_eq in
    let small = capacity_max a i in
    let open_eq : read_blob a r out_len ≡ ok (load_bytes a.bytes (bit_and r.offset a.mask) r.len) =
      ground arith in
    open_eq
    ∙ ap (λ n. ok (load_bytes a.bytes (bit_and r.offset a.mask) n)) h.len_eq
    ∙ ap ok h.stored

pub IsHeld-survives :
    (a : PayloadArena) (r : BlobRef) (data_ later : List ℕ)
    → IsArena a
    → IsAligned a.reserved a
    → Fits a later
    → IsHeld a r data_
    → is_lapped (arena_after a later) r ≡ false
    → IsHeld (arena_after a later) r data_
unfolding is_lapped
IsHeld-survives a r data_ later i al fits h fresh =
    let p = placed a later i al fits in
    let off = (place a (length later) a.reserved).0 in
    let ix = bit_and-eq-mod i.exponent a.capacity a.mask r.offset i.capacity_eq i.mask_eq in
    let ix' = bit_and-eq-mod i.exponent a.capacity a.mask off i.capacity_eq i.mask_eq in
    record {
      len_eq = h.len_eq;
      contiguous = h.contiguous;
      before = ground arith;
      stored =
          load_bytes_cong (store_bytes a.bytes (bit_and off a.mask) later) a.bytes
            (bit_and r.offset a.mask) (length data_)
            (λ j up lt. store_bytes_other a.bytes (bit_and off a.mask) later j (
              disjoint a.capacity r.offset (length data_) off (length later) _ _ ix.0 ix'.0
                (ground arith) (ground arith) (ground arith) (ground arith) j up lt))
          ∙ h.stored;
    }
