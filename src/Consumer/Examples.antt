-- ===== src/Consumer/Examples.antt =====
-- A consumer of src/spmc.rs behind a writer that has lapped it: a ring of two slots that holds messages
-- 3 and 4, and a cursor at 1.
use ringfire.Prelude.{
  ℕ, ◌*◌, ◌≤◌, ◌<◌, ◌≡◌, refl, inl, inr, arith, false, some, List, length, ◌==◌, if◌then◌else◌,
}
use ringfire.Constants.{slot_writing}
use ringfire.Slot.{read_slot}
use ringfire.Slot.Protocol.{idle}
use ringfire.Window.{oldest_retained}
use ringfire.Consumer.{
  RingConsumer, Received, skip_overwritten, read_at, move_to, update_cursor, turn_on, turn,
  next_item_from, recv_batch,
}
use ringfire.Consumer.{seek, jump_to_oldest, jump_to_latest}
use ringfire.Consumer.Positions.{Positioned, seek-Positioned}
use ringfire.Prelude.{max, ◌-◌}
use ringfire.Consumer.Account.{Passed, next_item-accounts}
use ringfire.Consumer.Progress.{IsBounded, HasRoom, next_item_total}
use ringfire.Consumer.Order.{InOrder}
use ringfire.Consumer.Memory.{Memory, world_of, IsMessage, recv_batch-IsMessage}

abbrev tens : ℕ → ℕ → ℕ
tens n j = 10 * n

-- The slot that holds message 3 or 4.
abbrev held : ℕ → ℕ
held i = if i == 0 then 4 else 3

held-lt : (i : ℕ) → held i < slot_writing
held-lt i = ground arith

abbrev lapping : Memory ℕ 1 tens
lapping = record {
  write_seq = λ t. 4;
  slot = λ i t. record { seq = held i; words = λ j. 10 * held i; phase = idle (held i) };
  read_at = λ t i j. t;
  steps = λ i t. inr refl;
  start = λ i. (refl, held-lt i, λ j pos lt. refl);
  between = λ t i j. (omega arith, omega arith);
}

abbrev reader : RingConsumer
reader = record {
  capacity = 2;
  mask = 1;
  cursor = 1;
  lapped_total = 0;
  multi_producer = false;
  sparse = false;
  empty_polls = 0;
  registration = some 1;
  now = 0;
}

abbrev reader_after : RingConsumer
reader_after = record reader { cursor = 4; lapped_total = 2; registration = some 3; now = 7 }

skips_to_three :
    next_item_from (world_of lapping) 10 0 reader ≡ some (some (λ j. 30), 2, reader_after)
unfolding next_item_from turn turn_on skip_overwritten move_to update_cursor read_at read_slot
    oldest_retained
skips_to_three = refl

lapping-IsBounded : IsBounded (world_of lapping) 4
lapping-IsBounded = record {
  write_seq_le = λ t. omega arith;
  write_seq_mono = λ t. omega arith;
  seq_le = λ t i. inl (ground arith);
}

reader-HasRoom : HasRoom 4 reader
reader-HasRoom = record { positive = omega arith; ahead = omega arith; room = omega arith }

next_item-accounts_example : Passed reader 2 1 reader_after
next_item-accounts_example =
    next_item-accounts (world_of lapping) 10 reader (some (λ j. 30)) 2 reader_after
      (record { cursor_u64 = omega arith; lapped_u64 = omega arith }) skips_to_three

next_item_total_example :
    (y : Received (ℕ → ℕ)) × (next_item_from (world_of lapping) 10 0 reader ≡ some y)
next_item_total_example =
    next_item_total 4 (world_of lapping) lapping-IsBounded 10 0 reader reader-HasRoom (omega arith)

recv_batch-IsMessage_example :
    (xs : List (ℕ → ℕ)) × (d : RingConsumer) × (recv_batch (world_of lapping) 10 5 reader
      ≡ some (xs, d))
    × InOrder (IsMessage 1 tens) 1 xs
    × (length xs ≤ 5)
recv_batch-IsMessage_example =
    recv_batch-IsMessage lapping 4 10 5 reader lapping-IsBounded reader-HasRoom (omega arith)
      (omega arith)

seek-Positioned_example :
    Positioned
      (world_of lapping)
      reader
      (max (max 2 1) (oldest_retained 4 2))
      (oldest_retained 4 2 - max 2 1)
      (seek (world_of lapping) reader 2)
    × Positioned
        (world_of lapping)
        reader
        (max 1 (oldest_retained 4 2))
        (oldest_retained 4 2 - 1)
        (jump_to_oldest (world_of lapping) reader)
    × Positioned
        (world_of lapping)
        reader
        (max 1 4)
        (4 - 1)
        (jump_to_latest (world_of lapping) reader)
seek-Positioned_example =
    seek-Positioned (world_of lapping) reader 2 (inr refl) (omega arith) (omega arith) (omega arith)
      (omega arith)
