-- ===== src/Arena.antt =====
-- src/arena.rs: the byte arena of variable-sized payloads. An attempt of `reserve` holds what its load of
-- `reserved` returned, what the compare-and-swap found there, and whether the weak compare-and-swap
-- failed for no reason: other writers act in between.
pub mod Reserve
pub mod Blobs
pub mod Fresh
pub mod Life
mod Examples
use ringfire.Prelude.{
  ℕ, zero, suc, ◌+◌, ◌-◌, ◌%◌, ◌^◌, min, Bool, true, false, not, ◌&&◌, ◌||◌, Option, none, some,
  List, [], ◌∷◌, ltb, leb, ◌==◌, ◌!=◌, if◌then◌else◌, add_u64, sub_u64, bit_and, bit_or, u32_max,
  is_power_of_two, length,
}
use ringfire.Errors.{
  Result, ok, err, ◌>>=◌, ◌>>◌, refuse_if, invalid_capacity, corrupt_layout,
  arena_payload_too_large, buffer_too_small,
}

pub record BlobRef : Type 0 where
  pub offset : ℕ
  pub len : ℕ
  pub flags : ℕ

abbrev pub empty_ref : BlobRef
empty_ref = record { offset = 0; len = 0; flags = 0 }

pub is_empty : BlobRef → Bool
is_empty r = r.len == 0

-- The arena's header in shared memory, and the bytes after it.
pub record PayloadArena : Type 0 where
  pub capacity : ℕ
  pub mask : ℕ
  pub reserved : ℕ
  pub bytes : ℕ → ℕ

unfoldable pub init : (bytes : ℕ → ℕ) (capacity : ℕ) → Result PayloadArena
init bytes capacity =
    if not (is_power_of_two capacity) || ltb capacity 64
    then err (invalid_capacity capacity)
    else ok (record { capacity = capacity; mask = sub_u64 capacity 1; reserved = 0; bytes = bytes })

-- `from_ptr` on the header that it finds.
unfoldable pub from_ptr : PayloadArena → Result PayloadArena
from_ptr a = do
  refuse_if (not (is_power_of_two a.capacity) || ltb a.capacity 64) (invalid_capacity a.capacity)
  refuse_if (a.mask != sub_u64 a.capacity 1)
      (corrupt_layout "arena mask does not match its capacity")
  ok a

-- `(len + 63) & !63`
pub slot_size_of : ℕ → ℕ
slot_size_of len = bit_and (add_u64 len 63) (2 ^ 64 - 64)

-- The offset and the next value of `reserved`, from the loaded value.
pub place : PayloadArena → (len curr : ℕ) → ℕ × ℕ
place a len curr =
    let slot_size = slot_size_of len in
    let from_ix = bit_and curr a.mask in
    let aligned_to_end = add_u64 (bit_or curr a.mask) 1 in
    if ltb a.capacity (add_u64 from_ix len)
    then (aligned_to_end, add_u64 aligned_to_end slot_size)
    else (curr, add_u64 curr slot_size)

pub record Attempt : Type 0 where
  pub loaded : ℕ
  pub actual : ℕ
  pub spurious : Bool

-- The loop of `reserve`: the placement of the first attempt whose compare-and-swap wins.
pub reserve_loop : PayloadArena → ℕ → List Attempt → Option (ℕ × ℕ)
reserve_loop a len [] = none
reserve_loop a len (t ∷ ts) =
    let rest = reserve_loop a len ts in
    if t.actual == t.loaded && not t.spurious then some (place a len t.loaded) else rest

-- `reserve`: the reference, and what `reserved` is then (`none`: the arena did not change).
pub reserve : PayloadArena → (len flags : ℕ) → List Attempt → Option (Result BlobRef × Option ℕ)
reserve a len flags ts =
    let max_len = min a.capacity u32_max in
    if len == 0
    then some (ok empty_ref, none)
    else if ltb max_len len
    then some (err (arena_payload_too_large len max_len), none)
    else elim (reserve_loop a len ts) [
      | none ↦ none
      | some (offset, next) ↦
          some (ok (record { offset = offset; len = len % 2 ^ 32; flags = flags }), some next)
    ]

pub is_in_bounds : PayloadArena → BlobRef → Bool
is_in_bounds a r = leb (add_u64 (bit_and r.offset a.mask) r.len) a.capacity

pub is_lapped : PayloadArena → BlobRef → Bool
is_lapped a r = ltb a.capacity (a.reserved - r.offset)

-- The cell of the arena that byte `i` of a reference stands in.
abbrev pub cell : PayloadArena → BlobRef → ℕ → ℕ
cell a r i = bit_and r.offset a.mask + i

-- `slice_mut(..).copy_from_slice(data)`: the bytes from cell `at` on.
pub store_bytes : (ℕ → ℕ) → ℕ → List ℕ → ℕ → ℕ
store_bytes mem at [] j = mem j
store_bytes mem at (b ∷ bs) j = if j == at then b else store_bytes mem (at + 1) bs j

-- `slice(..)`: the `n` bytes from cell `at` on.
pub load_bytes : (ℕ → ℕ) → ℕ → ℕ → List ℕ
load_bytes mem at zero = []
load_bytes mem at (suc n) = mem at ∷ load_bytes mem (at + 1) n

-- The rest of `write_blob` on what `reserve` returned.
abbrev pub stored_as :
    PayloadArena
    → List ℕ
    → Option (Result BlobRef × Option ℕ)
    → Option (Result BlobRef × PayloadArena)
stored_as a data_ none = none
stored_as a data_ (some (err e, _)) = some (err e, a)
stored_as a data_ (some (ok r, none)) = some (ok r, a)
stored_as a data_ (some (ok r, some next)) = some (
  ok r,
  record a { reserved = next; bytes = store_bytes a.bytes (bit_and r.offset a.mask) data_ },
)

-- `write_blob` with one writer: the attempt finds what it loaded.
pub write_blob : PayloadArena → List ℕ → ℕ → Option (Result BlobRef × PayloadArena)
write_blob a data_ flags = stored_as a data_ (
    reserve a (length data_) flags
      (record { loaded = a.reserved; actual = a.reserved; spurious = false } ∷ []))

pub read_blob : PayloadArena → BlobRef → (out_len : ℕ) → Result (List ℕ)
read_blob a r out_len = if r.len == 0 then ok [] else do
  refuse_if (not (is_in_bounds a r)) (corrupt_layout "blob reference outside the arena")
  refuse_if (ltb out_len r.len) (buffer_too_small r.len out_len)
  ok (load_bytes a.bytes (bit_and r.offset a.mask) r.len)

-- The rest of `write_blob_with`: the closure gets the reserved bytes and leaves others in their place.
abbrev pub filled :
    {R : Type 0}
    → PayloadArena
    → (List ℕ → List ℕ × R)
    → Option (Result BlobRef × Option ℕ)
    → Option (Result (BlobRef × R) × PayloadArena)
filled a f none = none
filled a f (some (err e, _)) = some (err e, a)
filled a f (some (ok r, none)) = some (ok (r, (f []).1), a)
filled a f (some (ok r, some next)) =
    let at = bit_and r.offset a.mask in
    let (bytes, result) = f (load_bytes a.bytes at r.len) in
    some (ok (r, result), record a { reserved = next; bytes = store_bytes a.bytes at bytes })

unfoldable pub write_blob_with :
    {R : Type 0}
    → PayloadArena
    → (len flags : ℕ) → (List ℕ → List ℕ × R)
    → Option (Result (BlobRef × R) × PayloadArena)
write_blob_with a len flags f = filled a f (
    reserve a len flags
      (record { loaded = a.reserved; actual = a.reserved; spurious = false } ∷ []))

-- `view_blob`; `none` is the failed assertion.
unfoldable pub view_blob : {R : Type 0} → PayloadArena → BlobRef → (List ℕ → R) → Option R
view_blob a r f =
    if not (is_in_bounds a r)
    then none
    else some (if is_empty r then f [] else f (load_bytes a.bytes (bit_and r.offset a.mask) r.len))
