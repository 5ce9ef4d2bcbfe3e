-- ===== src/Mpmc/Create.antt =====
-- src/mpmc.rs `create` and the two `attach`: the header and the memory of a new ring with many producers, without
-- its file. `slot_size` and `slot_align` are those of `Slot<T>`, `payload i` is what the file holds for slot `i`.
use ringfire.Prelude.{
  ℕ, not, none, some, if◌then◌else◌, is_power_of_two, next_multiple_of, mul_u64, add_u64, sub_u64,
  bit_or,
}
use Prim.Native.String.{String}
use ringfire.Errors.{Result, ok, err, ◌>>=◌, ◌>>◌, invalid_capacity}
use ringfire.Constants.{ring_header_size, flag_policy_latest_wins, flag_mode_mpmc}
use ringfire.Header.{RingHeader, RingLayout, initialize, publish, validate_ring, check_schema}
use ringfire.Slot.{Slot}
use ringfire.Mpmc.{MpmcQueueConsumer}

-- The fields of a producer that are not pointers.
pub record MpmcProducer : Type 0 where
  pub capacity : ℕ
  pub mask : ℕ

pub record MpmcRegion (T : Type 0) : Type 0 where
  pub header : RingHeader
  pub len : ℕ
  pub slots : ℕ → Slot T

unfoldable pub slots_offset_of : (slot_align : ℕ) → ℕ
slots_offset_of slot_align = next_multiple_of ring_header_size slot_align

unfoldable pub total_size_of : (capacity slot_size slot_align : ℕ) → ℕ
total_size_of capacity slot_size slot_align =
    add_u64 (slots_offset_of slot_align) (mul_u64 capacity slot_size)

unfoldable pub layout_of : (capacity slot_size slot_align schema_sig : ℕ) → RingLayout
layout_of capacity slot_size slot_align schema_sig = record {
  capacity = capacity;
  slot_size = slot_size;
  flags = bit_or flag_policy_latest_wins flag_mode_mpmc;
  schema_sig = schema_sig;
  claim_seq = 1;
  read_seq = 1;
  registry_offset = 0;
  registry_count = 0;
  slots_offset = slots_offset_of slot_align;
  arena_offset = 0;
  arena_size = 0;
}

abbrev pub new_region :
    {T : Type 0} → (ℕ → T) → (capacity slot_size slot_align schema_sig : ℕ) → MpmcRegion T
new_region payload capacity slot_size slot_align schema_sig = record {
  header = publish (initialize (layout_of capacity slot_size slot_align schema_sig));
  len = total_size_of capacity slot_size slot_align;
  slots = λ i. record { seq = 0; content = payload i };
}

unfoldable pub create :
    {T : Type 0}
    → (ℕ → T)
    → (capacity slot_size slot_align schema_sig : ℕ) → Result (MpmcRegion T × MpmcProducer)
create payload capacity slot_size slot_align schema_sig =
    if not (is_power_of_two capacity)
    then err (invalid_capacity capacity)
    else ok (
      new_region payload capacity slot_size slot_align schema_sig,
      record { capacity = capacity; mask = sub_u64 capacity 1 },
    )

-- `MpmcProducer::attach` on the opened file.
unfoldable pub attach_producer :
    {T : Type 0}
    → MpmcRegion T
    → (slot_size slot_align signature : ℕ) (type_name : String) → Result MpmcProducer
attach_producer region slot_size slot_align signature type_name = do
  view ← validate_ring region.header region.len (some slot_size) slot_align
  check_schema region.header signature type_name
  ok (record { capacity = view.capacity; mask = view.mask })

-- `MpmcQueueConsumer::attach` on the opened file.
unfoldable pub attach_consumer :
    {T : Type 0}
    → MpmcRegion T
    → (slot_size slot_align signature : ℕ) (type_name : String) → Result MpmcQueueConsumer
attach_consumer region slot_size slot_align signature type_name = do
  view ← validate_ring region.header region.len (some slot_size) slot_align
  check_schema region.header signature type_name
  ok (record { capacity = view.capacity; pending = none; dropped = 0 })
