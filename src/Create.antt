-- ===== src/Create.antt =====
-- `create_with_options` of src/spmc.rs without its files: the sizes, the header and the memory of a new
-- ring. `slot_size` and `slot_align` are those of `Slot<T>`, `schema_sig` is `T`'s layout signature, and
-- `payload i` is what the new file holds for the payload of slot `i`.
pub mod Accepted
mod Examples
use ringfire.Prelude.{
  ℕ, ◌+◌, ◌%◌, ◌^◌, max, Bool, true, false, not, Option, none, some, List, [], ◌==◌, ltb,
  if◌then◌else◌, add_u64, sub_u64, mul_u64, bit_or, ◌&&◌, is_power_of_two, next_multiple_of,
}
use ringfire.Errors.{Result, ok, err, invalid_capacity}
use ringfire.Constants.{
  ring_header_size, reader_slot_size, flag_policy_latest_wins, flag_policy_lossless_backpressure,
  flag_mode_spmc, flag_with_registry,
}
use ringfire.Header.{RingHeader, RingLayout, initialize, publish}
use ringfire.Slot.{Slot}
use ringfire.Registry
use ringfire.Registry.{ReaderSlot, default_max_readers}
use ringfire.Producer.{
  FlowControl, lossy_latest_wins, lossless_backpressure, is_lossless, RingProducer,
}

pub record RingProducerBuilder : Type 0 where
  pub capacity : ℕ
  pub flow_control : FlowControl
  pub max_readers : ℕ

-- The region that a new ring's file maps.
pub record Region (T : Type 0) : Type 0 where
  pub header : RingHeader
  pub len : ℕ
  pub registry : Option (List ReaderSlot)
  pub slots : ℕ → Slot T

pub max_readers_of : RingProducerBuilder → ℕ
max_readers_of o =
    if is_lossless o.flow_control && o.max_readers == 0 then default_max_readers else o.max_readers

abbrev pub policy_flag : FlowControl → ℕ
policy_flag lossy_latest_wins = flag_policy_latest_wins
policy_flag lossless_backpressure = flag_policy_lossless_backpressure

pub flags_of : RingProducerBuilder → ℕ
flags_of o =
    bit_or (bit_or (policy_flag o.flow_control) flag_mode_spmc)
      (if ltb 0 (max_readers_of o) then flag_with_registry else 0)

pub slots_offset_of : RingProducerBuilder → (slot_align : ℕ) → ℕ
slots_offset_of o slot_align =
    let registry_bytes = mul_u64 (max_readers_of o) reader_slot_size in
    next_multiple_of (add_u64 ring_header_size registry_bytes) (max slot_align 64)

pub total_size_of : RingProducerBuilder → (slot_size slot_align : ℕ) → ℕ
total_size_of o slot_size slot_align =
    add_u64 (slots_offset_of o slot_align) (mul_u64 o.capacity slot_size)

pub layout_of : RingProducerBuilder → (slot_size slot_align schema_sig : ℕ) → RingLayout
layout_of o slot_size slot_align schema_sig = record {
  capacity = o.capacity;
  slot_size = slot_size;
  flags = flags_of o;
  schema_sig = schema_sig;
  claim_seq = 0;
  read_seq = 0;
  registry_offset = if ltb 0 (max_readers_of o) then ring_header_size else 0;
  registry_count = max_readers_of o;
  slots_offset = slots_offset_of o slot_align;
  arena_offset = 0;
  arena_size = 0;
}

module _ {T : Type 0} (payload : ℕ → T) where
  abbrev pub zeroed : ℕ → Slot T
  zeroed i = record { seq = 0; content = payload i }

  abbrev pub new_region : RingProducerBuilder → (slot_size slot_align schema_sig : ℕ) → Region T
  new_region o slot_size slot_align schema_sig = record {
    header = publish (initialize (layout_of o slot_size slot_align schema_sig));
    len = total_size_of o slot_size slot_align;
    registry = if ltb 0 (max_readers_of o) then some (Registry.init (max_readers_of o)) else none;
    slots = zeroed;
  }

  abbrev pub new_producer : RingProducerBuilder → RingProducer T
  new_producer o = record {
    slots = zeroed;
    write_seq = 0;
    capacity = o.capacity;
    mask = sub_u64 o.capacity 1;
    seq = 1;
    gate_limit = 0;
    blocked_polls = 0;
    flow_control = o.flow_control;
    has_registry = ltb 0 (max_readers_of o);
    now = 0;
  }

  pub create_with_options :
      RingProducerBuilder
      → (slot_size slot_align schema_sig : ℕ) → Result (Region T × RingProducer T)
  create_with_options o slot_size slot_align schema_sig =
      if not (is_power_of_two o.capacity)
      then err (invalid_capacity o.capacity)
      else ok (new_region o slot_size slot_align schema_sig, new_producer o)
