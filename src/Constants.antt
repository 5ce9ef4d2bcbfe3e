-- ===== src/Constants.antt =====
-- The constants of src/header.rs.
use ringfire.Prelude.{ℕ}
use ringfire.Prelude.{u64_max}

abbrev pub ringfire_magic : ℕ
ringfire_magic = 0x5249_4E47_4649_5245

abbrev pub ringfire_version : ℕ
ringfire_version = 2

abbrev pub flag_policy_latest_wins : ℕ
flag_policy_latest_wins = 0x0001

abbrev pub flag_policy_lossless_backpressure : ℕ
flag_policy_lossless_backpressure = 0x0002

abbrev pub flag_mode_spmc : ℕ
flag_mode_spmc = 0x0010

abbrev pub flag_mode_mpmc : ℕ
flag_mode_mpmc = 0x0020

abbrev pub flag_with_arena : ℕ
flag_with_arena = 0x0100

abbrev pub flag_with_registry : ℕ
flag_with_registry = 0x0200

abbrev pub flag_sparse : ℕ
flag_sparse = 0x0400

-- The slot sequence while a writer overwrites the payload.
abbrev pub slot_writing : ℕ
slot_writing = u64_max

-- `size_of` of the three `repr(C)` structs, as the source asserts them.
abbrev pub ring_header_size : ℕ
ring_header_size = 128

abbrev pub reader_slot_size : ℕ
reader_slot_size = 64

abbrev pub arena_header_size : ℕ
arena_header_size = 64

abbrev pub blackboard_magic : ℕ
blackboard_magic = 0x5249_4E47_4242_4F52

abbrev pub blackboard_version : ℕ
blackboard_version = 1

-- `size_of` of the blackboard's header, as the source asserts it.
abbrev pub blackboard_header_size : ℕ
blackboard_header_size = 128
