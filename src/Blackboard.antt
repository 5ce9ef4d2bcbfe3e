-- ===== src/Blackboard.antt =====
-- src/blackboard.rs: a table of values in shared memory, each behind a seqlock. The accesses of `read` are
-- its arguments, so that whatever the writer does between them is covered: `first` and `second` are the
-- loads of the seqlock around the copy. `value_size` and `slot_size` are those of `V` and its slot.
pub mod Protocol
pub mod Torn
pub mod Table
mod Examples
use ringfire.Prelude.{
  ℕ, zero, suc, ◌+◌, ◌%◌, ◌^◌, Bool, true, false, not, ◌&&◌, ◌||◌, Option, none, some, List, [],
  ◌∷◌, ltb, leb, ◌==◌, ◌!=◌, if◌then◌else◌, add_u64, mul_u64, u32_max, bit_and, update, checked_mul,
  checked_add,
}
use ringfire.Constants.{blackboard_magic, blackboard_version, blackboard_header_size}
use ringfire.Errors.{
  Result, ok, err, ◌>>=◌, ◌>>◌, refuse_if, invalid_capacity, key_out_of_range, invalid_magic,
  version_mismatch, value_size_mismatch, corrupt_layout, writer_stalled,
}
use ringfire.Header.{past_end, and_then_add}

pub record BlackboardHeader : Type 0 where
  pub magic : ℕ
  pub version : ℕ
  pub value_size : ℕ
  pub slot_size : ℕ
  pub slot_count : ℕ

pub record BlackboardSlot (V : Type 0) : Type 0 where
  pub seqlock : ℕ
  pub value : V

pub record Blackboard (V : Type 0) : Type 0 where
  pub header : BlackboardHeader
  pub slots : ℕ → BlackboardSlot V
  pub slot_count : ℕ

-- The marker of a write in progress: the next odd number, also after a writer that died in its write.
pub write_mark : ℕ → ℕ
write_mark s = if bit_and s 1 == 0 then add_u64 s 1 else add_u64 s 2

-- The checks of `attach` on a mapping of `len` bytes; the number of slots.
pub attach : BlackboardHeader → (len value_size slot_size : ℕ) → Result ℕ
attach h len value_size slot_size = do
  refuse_if (ltb len blackboard_header_size)
      (corrupt_layout "mapping smaller than the blackboard header")
  refuse_if (h.magic != blackboard_magic) (invalid_magic blackboard_magic h.magic)
  refuse_if (h.version != blackboard_version) (version_mismatch blackboard_version h.version)
  refuse_if (h.value_size != value_size) (value_size_mismatch h.value_size value_size)
  refuse_if (h.slot_size != slot_size) (corrupt_layout "blackboard slot stride mismatch")
  let end = and_then_add (checked_mul h.slot_count h.slot_size) blackboard_header_size
  refuse_if (past_end end len) (corrupt_layout "blackboard slots extend past the mapping")
  ok h.slot_count

-- One round of `read`: its accesses, and whether 100 ms had passed since the first long wait.
pub record Attempt (V : Type 0) : Type 0 where
  pub first : ℕ
  pub copied : V
  pub second : ℕ
  pub stalled : Bool

module _ {V : Type 0} where
  -- The table in a new file, which holds `value i` for the value of slot `i`.
  abbrev pub new_table : (value : ℕ → V) (value_size slot_size slot_count : ℕ) → Blackboard V
  new_table value value_size slot_size slot_count = record {
    header = record {
      magic = blackboard_magic;
      version = blackboard_version;
      value_size = value_size % 2 ^ 32;
      slot_size = slot_size % 2 ^ 32;
      slot_count = slot_count % 2 ^ 32;
    };
    slots = λ i. record { seqlock = 0; value = value i };
    slot_count = slot_count;
  }

  -- `create`, with the length of its file.
  pub create : (value : ℕ → V) (value_size slot_size slot_count : ℕ) → Result (Blackboard V × ℕ)
  create value value_size slot_size slot_count = do
    let total_size = add_u64 blackboard_header_size (mul_u64 slot_count slot_size)
    refuse_if (ltb u32_max slot_count) (invalid_capacity slot_count)
    ok (new_table value value_size slot_size slot_count, total_size)

  pub write : Blackboard V → (key : ℕ) → V → Result (Unit {0}) × Blackboard V
  write b key val =
      let slot = b.slots key in
      let done : BlackboardSlot V = record {
        seqlock = add_u64 (write_mark slot.seqlock) 1;
        value = val;
      } in
      if leb b.slot_count key
      then (err (key_out_of_range key b.slot_count), b)
      else (ok tt, record b { slots = update b.slots key done })

  -- The loop of `read`; `none` means that the attempts ran out.
  pub read_loop : (key spins : ℕ) → List (Attempt V) → Option (Result (Option V))
  read_loop key spins [] = none
  read_loop key spins (a ∷ rest) =
      let more = read_loop key (spins + 1) rest in
      if a.first == 0
      then some (ok none)
      else if bit_and a.first 1 == 0 && a.second == a.first
      then some (ok (some a.copied))
      else if ltb (spins + 1) 10000
      then more
      else if a.stalled
      then some (err (writer_stalled key))
      else more

  pub read : Blackboard V → (key : ℕ) → List (Attempt V) → Option (Result (Option V))
  read b key attempts =
      if leb b.slot_count key
      then some (err (key_out_of_range key b.slot_count))
      else read_loop key 0 attempts

  -- `read_copy` into a variable that holds `out`.
  pub read_copy : Blackboard V → (key : ℕ) → V → List (Attempt V) → Option (Result Bool × V)
  read_copy b key out attempts = elim (read b key attempts) [
    | none ↦ none
    | some (err e) ↦ some (err e, out)
    | some (ok none) ↦ some (ok false, out)
    | some (ok (some val)) ↦ some (ok true, val)
  ]
