-- ===== src/Replication/Geometry.antt =====
-- `Geometry` of src/replication.rs: what a mirror needs to make a ring like the source's.
pub mod Roundtrip
use ringfire.Prelude.{
  ℕ, ◌+◌, ◌*◌, ◌%◌, ◌^◌, Bool, true, false, not, ◌&&◌, ◌||◌, Option, none, some, List, [], ◌∷◌,
  ◌++◌, ltb, ◌==◌, ◌!=◌, if◌then◌else◌, add_u64, mul_u64, sub_u64, checked_add, checked_mul, bit_or,
  is_power_of_two, is_multiple_of,
}
use ringfire.Errors.{Result, ok, err, ◌>>=◌, ◌>>◌, refuse_if, protocol}
use ringfire.Constants.{
  ring_header_size, reader_slot_size, arena_header_size, flag_policy_latest_wins, flag_mode_spmc,
  flag_with_arena, flag_with_registry, flag_sparse,
}
use ringfire.Header.{RingHeader, RingView, and_then_add}
use ringfire.Replication.Bytes.{to_le_bytes, from_le_bytes, range}

abbrev pub blob_ref_len : ℕ
blob_ref_len = 16

pub record Geometry : Type 0 where
  pub capacity : ℕ
  pub element_size : ℕ
  pub flags : ℕ
  pub schema_sig : ℕ
  pub registry_count : ℕ
  pub slots_offset : ℕ
  pub arena_offset : ℕ
  pub arena_size : ℕ

-- `as u32` drops the high bits.
unfoldable pub from_header : RingHeader → RingView → Geometry
from_header h view = record {
  capacity = view.capacity;
  element_size = view.slot_size % 2 ^ 32;
  flags = h.flags;
  schema_sig = h.schema_sig;
  registry_count = h.reader_registry_count;
  slots_offset = view.slots_offset % 2 ^ 32;
  arena_offset = h.arena_offset;
  arena_size = h.arena_size;
}

abbrev pub payload_len : Geometry → ℕ
payload_len g = sub_u64 g.element_size 8

abbrev pub has_arena : Geometry → Bool
has_arena g = g.arena_offset != 0

unfoldable pub same_layout : Geometry → Geometry → Bool
same_layout g other =
    g.capacity == other.capacity
    && g.element_size == other.element_size
    && g.schema_sig == other.schema_sig
    && g.registry_count == other.registry_count
    && g.slots_offset == other.slots_offset
    && g.arena_offset == other.arena_offset
    && g.arena_size == other.arena_size

unfoldable pub mirror_flags : Geometry → ℕ
mirror_flags g =
    bit_or
      (bit_or (bit_or (bit_or flag_mode_spmc flag_policy_latest_wins) flag_sparse)
        (if ltb 0 g.registry_count then flag_with_registry else 0))
      (if has_arena g then flag_with_arena else 0)

unfoldable pub total_len : Geometry → ℕ
total_len g =
    if has_arena g
    then add_u64 (add_u64 g.arena_offset arena_header_size) g.arena_size
    else add_u64 g.slots_offset (mul_u64 g.capacity g.element_size)

unfoldable pub encode : Geometry → List ℕ
encode g =
    to_le_bytes 8 g.capacity
    ++ (to_le_bytes 4 g.element_size
        ++ (to_le_bytes 4 g.flags
            ++ (to_le_bytes 8 g.schema_sig
                ++ (to_le_bytes 4 g.registry_count
                    ++ (to_le_bytes 4 g.slots_offset
                        ++ (to_le_bytes 8 g.arena_offset ++ to_le_bytes 8 g.arena_size))))))

unfoldable pub fields : List ℕ → Geometry
fields b = record {
  capacity = from_le_bytes (range b 0 8);
  element_size = from_le_bytes (range b 8 12);
  flags = from_le_bytes (range b 12 16);
  schema_sig = from_le_bytes (range b 16 24);
  registry_count = from_le_bytes (range b 24 28);
  slots_offset = from_le_bytes (range b 28 32);
  arena_offset = from_le_bytes (range b 32 40);
  arena_size = from_le_bytes (range b 40 48);
}

unfoldable pub check_slots : Geometry → Result (Unit {0})
check_slots g = do
  refuse_if (not (is_power_of_two g.capacity)) (protocol "geometry capacity is not a power of two")
  refuse_if (ltb g.element_size 8 || not (is_multiple_of g.element_size 8))
      (protocol "geometry element size is not a multiple of 8")
  let min_offset = add_u64 ring_header_size (mul_u64 g.registry_count reader_slot_size)
  refuse_if (ltb g.slots_offset min_offset || not (is_multiple_of g.slots_offset 64))
      (protocol "geometry slots offset is misplaced")

unfoldable pub slots_end : Geometry → Option ℕ
slots_end g = and_then_add (checked_mul g.capacity g.element_size) g.slots_offset

abbrev pub is_none : Option ℕ → Bool
is_none none = true
is_none (some n) = false

unfoldable pub check_arena : Geometry → (slots_end : ℕ) → Result (Unit {0})
check_arena g slots_end =
    if has_arena g
    then (do
      refuse_if (ltb g.arena_offset slots_end || not (is_multiple_of g.arena_offset 64))
          (protocol "geometry arena offset is misplaced")
      refuse_if (not (is_power_of_two g.arena_size) || ltb g.arena_size 64)
          (protocol "geometry arena size is not a power of two")
      refuse_if (ltb (payload_len g) blob_ref_len)
          (protocol "geometry arena ring has no blob descriptor")
      refuse_if (is_none (and_then_add (checked_add g.arena_offset arena_header_size) g.arena_size))
          (protocol "geometry does not fit in memory"))
    else refuse_if (g.arena_size != 0) (protocol "geometry arena size without an arena")

-- The checks after `slots_end`.
abbrev pub check_end : Geometry → Option ℕ → Result (Unit {0})
check_end g none = err (protocol "geometry does not fit in memory")
check_end g (some end) = check_arena g end

-- The checks of `decode`, in the code's order.
unfoldable pub check_geometry : Geometry → Result (Unit {0})
check_geometry g = do check_slots g; check_end g (slots_end g)

unfoldable pub decode : List ℕ → Result Geometry
decode b = do check_geometry (fields b); ok (fields b)
