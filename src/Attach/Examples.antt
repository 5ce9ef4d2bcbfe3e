-- ===== src/Attach/Examples.antt =====
-- Attaching to a ring of 8 slots while its writer is at message 20 and then at message 30.
use ringfire.Prelude.{
  ℕ, ◌-◌, ◌≤◌, ◌≡◌, max, refl, arith, false, none, some, [], ◌==◌, if◌then◌else◌, is_power_of_two,
  is_power_below,
}
use ringfire.Errors.{ok}
use ringfire.Header.{
  RingHeader, initialize, publish, validate_ring, check_identity, check_capacity, check_slots,
  check_registry, check_arena, check_slot_size, check_schema,
}
use ringfire.Window.{oldest_retained}
use ringfire.Consumer.{World, RingConsumer, skip_overwritten, move_to, update_cursor}
use ringfire.Consumer.Positions.{Shows}
use ringfire.Checkpoint.{ShmOffsetSlot, new_slot, open_or_create, commit_offset}
use ringfire.Attach.{oldest, latest, position, saved_of, resolve, attach_with_options}
use ringfire.Attach.Start.{position-asked_for, attach_with_options-protects}
use ringfire.Attach.Resume.{commit_offset-position}

abbrev header : RingHeader
unfolding initialize publish
header = publish (
    initialize (record {
      capacity = 8;
      slot_size = 16;
      flags = 2;
      schema_sig = 5;
      claim_seq = 0;
      read_seq = 0;
      registry_offset = 128;
      registry_count = 1;
      slots_offset = 192;
      arena_offset = 0;
      arena_size = 0;
    }))

-- The writer publishes ten messages between the first load and the registration.
abbrev racing : World ℕ
racing t = record {
  write_seq = if t == 0 then 20 else 30;
  slots = λ i. record { seq = 0; content = 0 };
}

abbrev caught_up : RingConsumer
caught_up = record {
  capacity = 8;
  mask = 7;
  cursor = 23;
  lapped_total = 10;
  multi_producer = false;
  sparse = false;
  empty_polls = 0;
  registration = some 23;
  now = 2;
}

attached_late :
    attach_with_options racing header 320 16 8 5 "u64" none oldest (some (ok (0, []))) 0
    ≡ ok caught_up
unfolding attach_with_options position resolve validate_ring check_identity check_capacity
    check_slots check_registry check_arena check_slot_size check_schema initialize publish
    is_power_of_two is_power_below skip_overwritten move_to update_cursor oldest_retained
attached_late = refl

attach_with_options-protects_example : (oldest_retained 30 8 ≤ 23) × Shows caught_up
attach_with_options-protects_example =
    attach_with_options-protects racing header 320 16 8 5 "u64" none oldest (0, []) 0 caught_up
      (omega arith) tt attached_late

position-asked_for_example :
    ((position (some 4) latest 20 (oldest_retained 20 8)).0 ≡ max 5 (oldest_retained 20 8))
    × ((position (some 4) latest 20 (oldest_retained 20 8)).1 ≡ oldest_retained 20 8 - 5)
position-asked_for_example =
    position-asked_for (some 4) latest 20 8 (omega arith) (omega arith) (omega arith)

commit_offset-position_example :
    (cp' : ShmOffsetSlot) × (c' : RingConsumer) × (cp'' : ShmOffsetSlot) × (commit_offset caught_up
        (some (new_slot 7 0 []))
        1
      ≡ ok (cp', c'))
    × (open_or_create (some cp') 8 2 [] ≡ ok cp'')
    × (cp''.name ≡ (new_slot 7 0 []).name)
    × (position (saved_of (some cp'')) latest 40 (oldest_retained 40 8)
        ≡ (max 23 (oldest_retained 40 8), oldest_retained 40 8 - 23))
commit_offset-position_example =
    commit_offset-position caught_up (new_slot 7 0 []) 1 2 8 [] latest 40 8 (refl, refl)
      (omega arith) (omega arith)
