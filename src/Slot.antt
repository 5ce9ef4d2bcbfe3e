-- ===== src/Slot.antt =====
-- src/header.rs `Slot` and the slot protocol of src/spmc.rs: `write_slot`, `read_slot`.
-- The loads of `read_slot` are its arguments, so that whatever other processes do between them is
-- covered: `s1` and `s2` are the slot's sequence before and after the copy, `copied` is what
-- `racy_copy` returned. The access to memory is sequentially consistent.
pub mod Protocol
pub mod Torn
mod Examples
use ringfire.Prelude.{ℕ, Bool, ◌||◌, ◌==◌, ltb, if◌then◌else◌}
use ringfire.Constants.{slot_writing}

pub record Slot {ℓ} (T : Type ℓ) : Type ℓ where
  pub seq : ℕ
  pub content : T

pub data SlotRead {ℓ} (T : Type ℓ) : Type ℓ where
  item : T → SlotRead T
  pending : SlotRead T
  overwritten : ℕ → SlotRead T

module _ {ℓ} {T : Type ℓ} where
  -- The slot once the store of `seq` is done; `Protocol` has the steps on the way.
  unfoldable pub write_slot : Slot T → ℕ → T → Slot T
  write_slot slot seq x = record { seq = seq; content = x }

  unfoldable pub read_slot : (s1 : ℕ) (copied : T) (s2 want : ℕ) → SlotRead T
  read_slot s1 copied s2 want =
      if s1 == want
      then (if s2 == want then item copied else overwritten (if s2 == slot_writing then 0 else s2))
      else if s1 == slot_writing || ltb s1 want
      then pending
      else overwritten s1
