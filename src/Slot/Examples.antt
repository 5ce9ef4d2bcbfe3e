-- ===== src/Slot/Examples.antt =====
-- A slot of src/spmc.rs that is written, read and written again.
use ringfire.Prelude.{ℕ, zero, suc, ◌*◌, ◌≡◌, refl, inl, inr, arith, true, update}
use ringfire.Constants.{slot_writing}
use ringfire.Slot.{pending, overwritten, read_slot}
use ringfire.Slot.Protocol.{idle, copying, none_copied, SlotState, mark, copy, store, IsHistory}
use ringfire.Slot.Torn.{read_slot-not_torn}

-- Message `n` has the word `10 * n`.
abbrev ten_times : ℕ → ℕ → ℕ
ten_times n j = 10 * n

-- Message 1 is complete at moment 3; the writer begins message 3 at moment 4.
abbrev written : ℕ → SlotState ℕ
written zero = record { seq = 0; words = λ j. 0; phase = idle 0 }
written (suc zero) = record { seq = slot_writing; words = λ j. 0; phase = copying 1 none_copied }
written (suc (suc zero)) = record {
  seq = slot_writing;
  words = update (λ j. 0) 0 10;
  phase = copying 1 (update none_copied 0 true);
}
written (suc (suc (suc zero))) = record { seq = 1; words = update (λ j. 0) 0 10; phase = idle 1 }
written (suc (suc (suc (suc t)))) = record {
  seq = slot_writing;
  words = update (λ j. 0) 0 10;
  phase = copying 3 none_copied;
}

read_before : read_slot {T = ℕ} 0 10 0 1 ≡ pending
unfolding read_slot
read_before = refl

read_changed : read_slot {T = ℕ} 1 10 3 1 ≡ overwritten 3
unfolding read_slot
read_changed = refl

read_while_written : read_slot {T = ℕ} 1 10 slot_writing 1 ≡ overwritten 0
unfolding read_slot
read_while_written = refl

written-IsHistory : IsHistory 1 ten_times written
written-IsHistory zero = inl (mark 0 1 refl (omega arith) (omega arith))
written-IsHistory (suc zero) = inl (copy 1 0 none_copied refl)
written-IsHistory (suc (suc zero)) =
    inl (store 1 (update none_copied 0 true) refl (λ j lt. ground arith))
written-IsHistory (suc (suc (suc zero))) = inl (mark 1 3 refl (omega arith) (omega arith))
written-IsHistory (suc (suc (suc (suc t)))) = inr refl

-- The reader loads the sequence at moment 3 twice, and copies in between.
read_slot-not_torn_example : (written 3).words 0 ≡ ten_times 1 0
unfolding read_slot
read_slot-not_torn_example =
    read_slot-not_torn 1 ten_times written written-IsHistory
      (refl, omega arith, λ j pos lt. absurd (omega arith)) 1 3 3 (λ j. 3) (omega arith)
      (omega arith) (λ j lt. (omega arith, omega arith)) {d = (written 3).words} refl 0
      (omega arith)
