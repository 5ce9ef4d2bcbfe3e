-- ===== src/Header/Examples.antt =====
-- The header of a ring of 8 slots of 16 bytes, as `initialize` of src/header.rs and `publish` leave it.
use ringfire.Prelude.{
  ◌+◌, ◌*◌, ◌≤◌, ◌≡◌, refl, ◌↔◌, arith, some, bit_and, is_power_of_two, is_power_below,
}
use ringfire.Errors.{ok}
use ringfire.Header.{
  RingHeader, RingLayout, IsTyped, initialize, publish, check_slot_size, check_registry,
  check_arena, check_slots, check_identity, check_capacity, validate_ring,
}
use ringfire.Header.Validate.{
  IsWellFormed, view_of, validate_ring_iff, validate_ring-slot_in_mapping,
}

abbrev eight_slots : RingLayout
eight_slots = record {
  capacity = 8;
  slot_size = 16;
  flags = 0;
  schema_sig = 0;
  claim_seq = 1;
  read_seq = 0;
  registry_offset = 0;
  registry_count = 0;
  slots_offset = 128;
  arena_offset = 0;
  arena_size = 0;
}

abbrev header : RingHeader
unfolding initialize publish
header = publish (initialize eight_slots)

header-IsTyped : IsTyped header
unfolding initialize publish
header-IsTyped = record {
  element_size_u32 = omega arith;
  capacity_u64 = omega arith;
  arena_size_u64 = omega arith;
  registry_offset_u32 = omega arith;
  registry_count_u32 = omega arith;
  slots_offset_u64 = omega arith;
}

accepted : validate_ring header 256 (some 16) 8 ≡ ok (view_of header)
unfolding validate_ring check_identity check_capacity check_slots check_registry check_arena
    check_slot_size initialize publish is_power_of_two is_power_below
accepted = refl

validate_ring_iff_example :
    (validate_ring header 256 (some 16) 8 ≡ ok (view_of header))
    ↔ (IsWellFormed header 256 (some 16) 8 × (view_of header ≡ view_of header))
validate_ring_iff_example =
    validate_ring_iff header-IsTyped (omega arith) (some 16) 8 (view_of header)

validate_ring-slot_in_mapping_example :
    (128 ≤ 128 + bit_and 13 7 * 16) × (128 + bit_and 13 7 * 16 + 16 ≤ 256)
unfolding initialize publish
validate_ring-slot_in_mapping_example =
    validate_ring-slot_in_mapping (some 16) 8 13 header-IsTyped (omega arith) accepted
