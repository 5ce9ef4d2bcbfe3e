-- ===== src/Checkpoint.antt =====
-- src/checkpoint.rs: a consumer's offset in shared memory. `file` is the slot that the opened file holds, or
-- nothing if it is shorter than a slot; `now` is the clock. The messages of the errors leave out the path
-- and the numbers.
use ringfire.Prelude.{ℕ, Option, none, some, List, ◌==◌, ◌!=◌, if◌then◌else◌}
use ringfire.Errors.{Result, ok, err, ◌>>◌, refuse_if, io, invalid_data, no_offset_file_configured}
use ringfire.Names.{name_buffer}
use ringfire.Consumer.{RingConsumer, update_cursor, last_processed_sequence}

abbrev pub shm_offset_magic : ℕ
shm_offset_magic = 0x5348_4D5F_4F46_4653

abbrev pub shm_offset_version : ℕ
shm_offset_version = 1

pub record ShmOffsetSlot : Type 0 where
  pub magic : ℕ
  pub version : ℕ
  pub pid : ℕ
  pub offset_seq : ℕ
  pub updated_ns : ℕ
  pub name : List ℕ

abbrev pub new_slot : (current_pid now : ℕ) (name_trimmed : List ℕ) → ShmOffsetSlot
new_slot current_pid now name_trimmed = record {
  magic = shm_offset_magic;
  version = shm_offset_version;
  pid = current_pid;
  offset_seq = 0;
  updated_ns = now;
  name = name_buffer name_trimmed;
}

unfoldable pub open_or_create :
    (file : Option ShmOffsetSlot) (current_pid now : ℕ) (name_trimmed : List ℕ)
    → Result ShmOffsetSlot
open_or_create none pid now name = ok (new_slot pid now name)
open_or_create (some slot) pid now name = do
  refuse_if (slot.magic != shm_offset_magic)
      (io (invalid_data "Invalid magic in shared memory offset"))
  refuse_if (slot.version != shm_offset_version)
      (io (invalid_data "Version mismatch in shared memory offset"))
  ok (record slot { pid = pid })

unfoldable pub load : ShmOffsetSlot → Option ℕ
load slot = if slot.offset_seq == 0 then none else some slot.offset_seq

unfoldable pub save : ShmOffsetSlot → (seq now : ℕ) → ShmOffsetSlot
save slot seq now = record slot { offset_seq = seq; updated_ns = now }

-- `commit_offset` of the consumer, with its checkpoint if it has one.
unfoldable pub commit_offset :
    RingConsumer → Option ShmOffsetSlot → (now : ℕ) → Result (ShmOffsetSlot × RingConsumer)
commit_offset c none now = err no_offset_file_configured
commit_offset c (some cp) now = ok (save cp (last_processed_sequence c) now, update_cursor c)
