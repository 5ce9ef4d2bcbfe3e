-- ===== src/Header.antt =====
-- src/header.rs: `RingHeader`, `RingLayout`, `initialize`, `publish`, `validate_ring`, `check_schema`.
-- A header is a record of its fields; the padding and the addresses are left out. `len` is the
-- length of the mapping that starts at the header.
pub mod Validate
mod Examples
use Prim.Native.String.{String}
use ringfire.Prelude.{
  ℕ, ◌+◌, ◌%◌, ◌^◌, ◌≤◌, ◌<◌, max, ◌≡◌, Bool, true, false, ◌&&◌, ◌||◌, not, Option, none, some, ltb,
  ◌==◌, ◌!=◌, if◌then◌else◌, add_u64, sub_u64, mul_u64, checked_add, checked_mul,
}
use ringfire.Errors.{
  RingfireError, invalid_magic, version_mismatch, element_size_mismatch, schema_mismatch,
  corrupt_layout, Result, ok, err, ◌>>=◌, ◌>>◌, refuse_if,
}
use ringfire.Constants.{ringfire_magic, ringfire_version, ring_header_size, reader_slot_size}
use ringfire.Prelude.{is_power_of_two, is_multiple_of}

pub record RingHeader : Type 0 where
  pub magic : ℕ
  pub version : ℕ
  pub element_size : ℕ
  pub capacity : ℕ
  pub mask : ℕ
  pub write_seq : ℕ
  pub claim_seq : ℕ
  pub flags : ℕ
  pub futex_word : ℕ
  pub waiting_consumers : ℕ
  pub read_seq : ℕ
  pub schema_sig : ℕ
  pub arena_offset : ℕ
  pub arena_size : ℕ
  pub reader_registry_offset : ℕ
  pub reader_registry_count : ℕ
  pub slots_offset : ℕ

-- What the fields' types say.
pub record IsTyped (h : RingHeader) : Type 0 where
  pub element_size_u32 : h.element_size < 2 ^ 32
  pub capacity_u64 : h.capacity < 2 ^ 64
  pub arena_size_u64 : h.arena_size < 2 ^ 64
  pub registry_offset_u32 : h.reader_registry_offset < 2 ^ 32
  pub registry_count_u32 : h.reader_registry_count < 2 ^ 32
  pub slots_offset_u64 : h.slots_offset < 2 ^ 64

pub record RingLayout : Type 0 where
  pub capacity : ℕ
  pub slot_size : ℕ
  pub flags : ℕ
  pub schema_sig : ℕ
  pub claim_seq : ℕ
  pub read_seq : ℕ
  pub registry_offset : ℕ
  pub registry_count : ℕ
  pub slots_offset : ℕ
  pub arena_offset : ℕ
  pub arena_size : ℕ

unfoldable pub initialize : RingLayout → RingHeader
initialize l = record {
  magic = 0;
  version = ringfire_version;
  element_size = l.slot_size % 2 ^ 32;
  capacity = l.capacity;
  mask = sub_u64 l.capacity 1;
  write_seq = 0;
  claim_seq = l.claim_seq;
  flags = l.flags;
  futex_word = 0;
  waiting_consumers = 0;
  read_seq = l.read_seq;
  schema_sig = l.schema_sig;
  arena_offset = l.arena_offset;
  arena_size = l.arena_size;
  reader_registry_offset = l.registry_offset % 2 ^ 32;
  reader_registry_count = l.registry_count % 2 ^ 32;
  slots_offset = l.slots_offset;
}

unfoldable pub publish : RingHeader → RingHeader
publish h = record h { magic = ringfire_magic }

pub record RingView : Type 0 where
  pub capacity : ℕ
  pub mask : ℕ
  pub slot_size : ℕ
  pub slots_offset : ℕ

-- `end.is_none_or(|e| e > len)`.
abbrev pub past_end : Option ℕ → ℕ → Bool
past_end none len = true
past_end (some e) len = ltb len e

-- `a.checked_add(b)` on a checked value.
abbrev pub and_then_add : Option ℕ → ℕ → Option ℕ
and_then_add none b = none
and_then_add (some a) b = checked_add a b

unfoldable pub check_slot_size : Option ℕ → ℕ → Result (Unit {0})
check_slot_size none slot_size = ok tt
check_slot_size (some expected) slot_size =
    refuse_if (slot_size != expected) (element_size_mismatch slot_size expected)

unfoldable pub check_registry : RingHeader → ℕ → Result (Unit {0})
check_registry h len =
    if h.reader_registry_offset == 0
    then ok tt
    else let off = h.reader_registry_offset in
      let end = add_u64 off (mul_u64 h.reader_registry_count reader_slot_size) in
      refuse_if (not (is_multiple_of off 64) || ltb len end)
        (corrupt_layout "reader registry outside the mapping")

unfoldable pub check_arena : RingHeader → ℕ → Result (Unit {0})
check_arena h len =
    if h.arena_offset == 0
    then ok tt
    else let off = h.arena_offset in
      let end = and_then_add (checked_add h.arena_size off) 64 in
      refuse_if (not (is_multiple_of off 64) || past_end end len)
        (corrupt_layout "payload arena outside the mapping")

unfoldable pub check_slots : RingHeader → ℕ → ℕ → Result (Unit {0})
check_slots h len slot_align = do
  let off = h.slots_offset
  refuse_if (ltb off ring_header_size || not (is_multiple_of off (max slot_align 8)))
      (corrupt_layout "misplaced or misaligned slots")
  let slots_end = and_then_add (checked_mul h.capacity h.element_size) off
  refuse_if (past_end slots_end len) (corrupt_layout "slots extend past the end of the mapping")

unfoldable pub check_identity : RingHeader → ℕ → Option ℕ → Result (Unit {0})
check_identity h len expected_slot_size = do
  refuse_if (ltb len ring_header_size) (corrupt_layout "mapping smaller than the ring header")
  refuse_if (h.magic != ringfire_magic) (invalid_magic ringfire_magic h.magic)
  refuse_if (h.version != ringfire_version) (version_mismatch ringfire_version h.version)
  check_slot_size expected_slot_size h.element_size
  refuse_if (ltb h.element_size 8) (corrupt_layout "slot size smaller than its sequence word")

unfoldable pub check_capacity : RingHeader → Result (Unit {0})
check_capacity h =
    refuse_if (not (is_power_of_two h.capacity) || h.mask != sub_u64 h.capacity 1)
      (corrupt_layout "capacity is not a power of two or mask mismatch")

-- The checks of `validate_ring`, in the code's order.
unfoldable pub validate_ring : RingHeader → ℕ → Option ℕ → ℕ → Result RingView
validate_ring h len expected_slot_size slot_align = do
  check_identity h len expected_slot_size
  check_capacity h
  check_slots h len slot_align
  check_registry h len
  check_arena h len
  ok (record {
    capacity = h.capacity;
    mask = sub_u64 h.capacity 1;
    slot_size = h.element_size;
    slots_offset = h.slots_offset;
  })

unfoldable pub check_schema : RingHeader → ℕ → String → Result (Unit {0})
check_schema h expected type_name =
    refuse_if (h.schema_sig != 0 && h.schema_sig != expected)
      (schema_mismatch h.schema_sig expected type_name)
