-- ===== src/Replication/Geometry/Roundtrip.antt =====
-- The geometries of src/replication.rs that `decode` accepts, and that the wire keeps them.
use ringfire.Prelude.{
  ℕ, ◌+◌, ◌*◌, ◌%◌, ◌^◌, ◌≤◌, ◌<◌, ◌≡◌, refl, subst, ◌⊎◌, inl, inr, true, some, arith, ◌↔◌,
  is_power_of_two, is_power_of_two_sound, is_power_of_two_complete,
}
use native.Mathlib.Decide.{ℕ_discrete}
use ringfire.Errors.{ok, ◌>>◌, >>-eq-ok}
use ringfire.Constants.{ring_header_size, reader_slot_size}
use ringfire.Replication.Bytes.{to_le_bytes, from_le_bytes-to_le_bytes}
use ringfire.Replication.Geometry.{
  Geometry, encode, decode, fields, check_slots, slots_end, check_arena, check_end, check_geometry,
}

-- The fields are in the range of their types.
pub record IsTyped (g : Geometry) : Type 0 where
  pub capacity_u64 : g.capacity < 2 ^ 64
  pub element_size_u32 : g.element_size < 2 ^ 32
  pub flags_u32 : g.flags < 2 ^ 32
  pub schema_sig_u64 : g.schema_sig < 2 ^ 64
  pub registry_count_u32 : g.registry_count < 2 ^ 32
  pub slots_offset_u32 : g.slots_offset < 2 ^ 32
  pub arena_offset_u64 : g.arena_offset < 2 ^ 64
  pub arena_size_u64 : g.arena_size < 2 ^ 64

-- The arena, if there is one, lies behind the slots, and its size is a power of two.
pub record HasArena (g : Geometry) : Type 0 where
  pub offset : 0 < g.arena_offset
  pub behind : g.capacity * g.element_size + g.slots_offset ≤ g.arena_offset
  pub aligned : g.arena_offset % 64 ≡ 0
  pub log_size : ℕ
  pub log_size_max : log_size < 64
  pub size : g.arena_size ≡ 2 ^ log_size
  pub size_min : 64 ≤ g.arena_size
  pub descriptor : 24 ≤ g.element_size
  pub fits : g.arena_offset + 64 + g.arena_size < 2 ^ 64

pub record IsGeometry (g : Geometry) : Type 0 where
  pub log_capacity : ℕ
  pub log_capacity_max : log_capacity < 64
  pub capacity : g.capacity ≡ 2 ^ log_capacity
  pub sized : 8 ≤ g.element_size
  pub words : g.element_size % 8 ≡ 0
  pub after_registry : ring_header_size + g.registry_count * reader_slot_size ≤ g.slots_offset
  pub aligned : g.slots_offset % 64 ≡ 0
  pub fits : g.capacity * g.element_size + g.slots_offset < 2 ^ 64
  pub arena : ((g.arena_offset ≡ 0) × (g.arena_size ≡ 0)) ⊎ HasArena g

fields-encode : (g : Geometry) → IsTyped g → fields (encode g) ≡ g
unfolding fields encode to_le_bytes
fields-encode g t = cc (
  from_le_bytes-to_le_bytes 8 g.capacity t.capacity_u64,
  from_le_bytes-to_le_bytes 4 g.element_size t.element_size_u32,
  from_le_bytes-to_le_bytes 4 g.flags t.flags_u32,
  from_le_bytes-to_le_bytes 8 g.schema_sig t.schema_sig_u64,
  from_le_bytes-to_le_bytes 4 g.registry_count t.registry_count_u32,
  from_le_bytes-to_le_bytes 4 g.slots_offset t.slots_offset_u32,
  from_le_bytes-to_le_bytes 8 g.arena_offset t.arena_offset_u64,
  from_le_bytes-to_le_bytes 8 g.arena_size t.arena_size_u64,
)

module _ (g : Geometry) (t : IsTyped g) where
  check_slots-ok :
      check_slots g ≡ ok tt
      → (e : ℕ) × (e < 64)
        × (g.capacity ≡ 2 ^ e)
        × (8 ≤ g.element_size)
        × (g.element_size % 8 ≡ 0)
        × (ring_header_size + g.registry_count * reader_slot_size ≤ g.slots_offset)
        × (g.slots_offset % 64 ≡ 0)
  unfolding check_slots
  check_slots-ok p =
      let (e, small, eq) = is_power_of_two_sound g.capacity (ground arith) in
      (e, small, eq, ground arith, ground arith, ground arith, ground arith)

  slots_end-eq :
      g.capacity * g.element_size + g.slots_offset < 2 ^ 64
      → slots_end g ≡ some (g.capacity * g.element_size + g.slots_offset)
  unfolding slots_end
  slots_end-eq lt = ground arith

  check_arena-ok :
      check_arena g (g.capacity * g.element_size + g.slots_offset) ≡ ok tt
      → 8 ≤ g.element_size
      → ((g.arena_offset ≡ 0) × (g.arena_size ≡ 0)) ⊎ HasArena g
  unfolding check_arena
  check_arena-ok p sized = elim (ℕ_discrete g.arena_offset 0) [
    | yes e ↦ inl (e, ground arith)
    | no ne ↦
        let (k, small, eq) = is_power_of_two_sound g.arena_size (ground arith) in
        inr (record {
          offset = omega arith;
          behind = ground arith;
          aligned = ground arith;
          log_size = k;
          log_size_max = small;
          size = eq;
          size_min = ground arith;
          descriptor = ground arith;
          fits = ground arith;
        })
  ]

  check_geometry-ok : check_geometry g ≡ ok tt → IsGeometry g
  unfolding check_geometry slots_end
  check_geometry-ok p =
      let (s, rest) = >>-eq-ok (check_slots g) (check_end g (slots_end g)) p in
      let (e, small, eq, sized, words, after, aligned) = check_slots-ok s in
      let fits : g.capacity * g.element_size + g.slots_offset < 2 ^ 64 = ground arith in
      let at_end : check_arena g (g.capacity * g.element_size + g.slots_offset) ≡ ok tt =
        ground arith in
      record {
        log_capacity = e;
        log_capacity_max = small;
        capacity = eq;
        sized = sized;
        words = words;
        after_registry = after;
        aligned = aligned;
        fits = fits;
        arena = check_arena-ok at_end sized;
      }

  check_slots_passes : IsGeometry g → check_slots g ≡ ok tt
  unfolding check_slots
  check_slots_passes i =
      let power : is_power_of_two g.capacity ≡ true =
        rw i.capacity (is_power_of_two_complete i.log_capacity i.log_capacity_max) in
      ground arith

  check_arena_passes :
      IsGeometry g → check_arena g (g.capacity * g.element_size + g.slots_offset) ≡ ok tt
  unfolding check_arena
  check_arena_passes i = elim i.arena [
    | inl (off, size) ↦ ground arith
    | inr a ↦
        let power : is_power_of_two g.arena_size ≡ true =
          rw a.size (is_power_of_two_complete a.log_size a.log_size_max) in
        ground arith
  ]

  check_geometry_passes : IsGeometry g → check_geometry g ≡ ok tt
  unfolding check_geometry
  check_geometry_passes i = rw (check_slots_passes i, slots_end-eq i.fits) (check_arena_passes i)

  -- A geometry whose fields are in the range of their types comes back from the wire exactly if it
  -- is consistent: a power of two of slots whose size is a multiple of 8, behind the header and the
  -- registry, all below 2^64, and an arena behind them whose size is a power of two, or none.
  pub decode-encode_iff : (decode (encode g) ≡ ok g) ↔ IsGeometry g
  unfolding decode
  decode-encode_iff = (
    λ p. check_geometry-ok (
        (>>-eq-ok (check_geometry g) (ok g)
          (subst (λ x. (check_geometry x >> ok x) ≡ ok g) (fields-encode g t) p)).0),
    λ i. rw (fields-encode g t, check_geometry_passes i) refl,
  )
