-- ===== src/Registry.antt =====
-- src/registry.rs: the table of readers in shared memory. A scan visits the slots in turn; other
-- processes may act between the load of a slot's `pid` and the compare-and-swap on it, so a visit holds
-- both: the loaded pid, and the slot as the compare-and-swap finds it.
pub mod Min
pub mod Ownership
mod Examples
use ringfire.Prelude.{
  ℕ, suc, ◌+◌, ◌-◌, ◌^◌, min, Bool, true, false, not, ◌&&◌, ◌||◌, Option, none, some, List, [], ◌∷◌,
  map, ltb, ◌==◌, ◌!=◌, if◌then◌else◌, replicate,
}
use ringfire.Errors.{Result, ok, err, no_available_reader_slots}
use ringfire.Names.{name_buffer, read_name}

pub record ReaderSlot : Type 0 where
  pub pid : ℕ
  pub active : ℕ
  pub cursor_seq : ℕ
  pub heartbeat_tsc : ℕ
  pub name : List ℕ

-- `loaded` is what the load of the slot's `pid` returned.
pub record Visit : Type 0 where
  pub loaded : ℕ
  pub slot : ReaderSlot

abbrev pub default_max_readers : ℕ
default_max_readers = 32

abbrev free_slot : ReaderSlot
free_slot = record { pid = 0; active = 0; cursor_seq = 0; heartbeat_tsc = 0; name = name_buffer [] }

pub init : ℕ → List ReaderSlot
init count = replicate count free_slot

-- The rest of `register`'s loop: at the slot that was claimed, or further on.
abbrev pub go_on :
    ℕ
    → Visit
    → List Visit
    → Option ReaderSlot
    → Result (ℕ × List ReaderSlot)
    → Result (ℕ × List ReaderSlot)
go_on i v vs (some s) rest = ok (i, s ∷ map (λ u. u.slot) vs)
go_on i v vs none (ok (k, ss)) = ok (k, v.slot ∷ ss)
go_on i v vs none (err e) = err e

-- `probe pid` says whether `kill(pid, 0)` succeeds or fails with EPERM.
module _ (probe : ℕ → Bool) where
  pub is_process_alive : ℕ → Bool
  is_process_alive pid = if pid == 0 || ltb (2 ^ 31 - 1) pid then false else probe pid

  -- One round of `register`: the new slot if its compare-and-swap won.
  pub claim : (current_pid initial_cursor : ℕ) (name : List ℕ) → Visit → Option ReaderSlot
  claim current_pid initial_cursor name v =
      let is_free = v.loaded == 0 in
      let is_dead = v.loaded != 0 && not (is_process_alive v.loaded) in
      if (is_free || is_dead) && v.slot.pid == v.loaded
      then some (record {
        pid = current_pid;
        active = 1;
        cursor_seq = initial_cursor;
        heartbeat_tsc = 0;
        name = name_buffer name;
      })
      else none

  -- From slot `i` on: the registered index, and the slots.
  pub register_from :
      (i current_pid initial_cursor : ℕ) (name : List ℕ) → List Visit → Result (ℕ × List ReaderSlot)
  register_from i pid cursor name [] = err no_available_reader_slots
  register_from i pid cursor name (v ∷ vs) =
      go_on i v vs (claim pid cursor name v) (register_from (i + 1) pid cursor name vs)

  pub register :
      (current_pid initial_cursor : ℕ) (name : List ℕ) → List Visit → Result (ℕ × List ReaderSlot)
  register pid cursor name vs = register_from 0 pid cursor name vs

  -- `reclaim` on a visit whose load found a dead process.
  pub prune_visit : Visit → ℕ × ReaderSlot
  prune_visit v =
      if v.loaded != 0 && not (is_process_alive v.loaded) && v.slot.pid == v.loaded
      then (1, record v.slot { pid = 0 })
      else (0, v.slot)

  pub prune_dead_readers : List Visit → ℕ × List ReaderSlot
  prune_dead_readers [] = (0, [])
  prune_dead_readers (v ∷ vs) =
      let (n, s) = prune_visit v in let (m, ss) = prune_dead_readers vs in (n + m, s ∷ ss)

unfoldable pub is_live : ReaderSlot → Bool
is_live s = s.active == 1 && s.pid != 0

-- `min_seq.map_or(seq, |curr| curr.min(seq))`
unfoldable pub min_with : Option ℕ → ℕ → ℕ
min_with none seq = seq
min_with (some curr) seq = min curr seq

unfoldable pub min_cursor_from : Option ℕ → List ReaderSlot → Option ℕ
min_cursor_from m [] = m
min_cursor_from m (s ∷ ss) =
    min_cursor_from (if is_live s then some (min_with m s.cursor_seq) else m) ss

unfoldable pub min_cursor : List ReaderSlot → Option ℕ
min_cursor ss = min_cursor_from none ss

-- Reader lag of the slowest reader, on the minimum that `min_reader_seq` returned.
pub reader_lag : Option ℕ → ℕ → ℕ
reader_lag none write_seq = 0
reader_lag (some min_seq) write_seq = write_seq - (min_seq - 1)

pub headroom : Option ℕ → (write_seq ring_capacity : ℕ) → ℕ
headroom none write_seq ring_capacity = ring_capacity
headroom (some min_seq) write_seq ring_capacity = ring_capacity - (write_seq - (min_seq - 1))

pub record ReaderInfo : Type 0 where
  pub slot_index : ℕ
  pub pid : ℕ
  pub name : List ℕ
  pub cursor_seq : ℕ
  pub lag : ℕ

pub active_readers_from : ℕ → List ReaderSlot → ℕ → List ReaderInfo
active_readers_from i [] write_seq = []
active_readers_from i (s ∷ ss) write_seq =
    let rest = active_readers_from (i + 1) ss write_seq in
    if is_live s
    then record {
      slot_index = i;
      pid = s.pid;
      name = read_name s.name;
      cursor_seq = s.cursor_seq;
      lag = write_seq - (s.cursor_seq - 1);
    }
      ∷ rest
    else rest

-- `Drop` of a registration of process `pid`.
pub unregister : ℕ → ReaderSlot → ReaderSlot
unregister pid s = record s { active = 0; pid = if s.pid == pid then 0 else s.pid }

pub update_cursor : ReaderSlot → ℕ → ReaderSlot
update_cursor s seq = record s { cursor_seq = seq }
