-- ===== src/Consumer.antt =====
-- src/spmc.rs `RingConsumer`: its state and its receive operations. Shared memory is a `World`: a
-- snapshot for each moment, which the other processes choose; every load of the consumer reads the
-- snapshot of its own moment and moves on to the next.
pub mod Account
pub mod Progress
pub mod Order
pub mod Memory
pub mod Rest
pub mod Drain
pub mod Positions
mod Examples
use ringfire.Prelude.{
  ℕ, zero, suc, ◌+◌, ◌-◌, max, Bool, true, false, not, ◌&&◌, ◌||◌, Option, none, some, ltb, leb,
  ◌==◌, if◌then◌else◌, add_u64, sub_u64, add_u32, bit_and, List, [], ◌∷◌,
}
use mathlib.Core.Option
use ringfire.Constants.{slot_writing}
use ringfire.Slot.{Slot, SlotRead, item, pending, overwritten, read_slot}
use ringfire.Window.{oldest_retained}

pub record Snapshot (T : Type 0) : Type 0 where
  pub write_seq : ℕ
  pub slots : ℕ → Slot T

abbrev pub World : Type 0 → Type 0
World T = ℕ → Snapshot T

-- `registration` is the cursor that the reader has stored in its registry slot, which only it writes.
-- `now` is the moment of the next access to shared memory.
pub record RingConsumer : Type 0 where
  pub capacity : ℕ
  pub mask : ℕ
  pub cursor : ℕ
  pub lapped_total : ℕ
  pub multi_producer : Bool
  pub sparse : Bool
  pub empty_polls : ℕ
  pub registration : Option ℕ
  pub now : ℕ

-- `if let Some(ref reg) = self.registration { reg.update_cursor(self.cursor); }`
unfoldable pub update_cursor : RingConsumer → RingConsumer
update_cursor c = record c {
  registration = elim c.registration [ none ↦ none | some _ ↦ some c.cursor ];
}

abbrev pub tick : RingConsumer → RingConsumer
tick c = record c { now = c.now + 1 }

-- `read_slot` makes three accesses at most: a moment is set aside for each.
abbrev pub after_read : RingConsumer → RingConsumer
after_read c = record c { now = c.now + 3 }

-- What `skip_overwritten` and `skip_hole` do once they know where to go on.
unfoldable pub move_to : RingConsumer → ℕ → ℕ × RingConsumer
move_to c next =
    let skipped = sub_u64 next c.cursor in
    (
      skipped,
      update_cursor (record c { cursor = next; lapped_total = add_u64 c.lapped_total skipped }),
    )

pub data RecvStatus (T : Type 0) : Type 0 where
  ok : T → RecvStatus T
  empty : RecvStatus T
  lapped : (skipped : ℕ) (x : T) → RecvStatus T

-- The item if any, and the number of messages that were skipped on the way.
abbrev pub Received : Type 0 → Type 0
Received T = Option T × ℕ × RingConsumer

-- One round of the loop of `next_item`: it returns, or goes round again.
pub data Turn (T : Type 0) : Type 0 where
  returns : Option T → (skipped : ℕ) → RingConsumer → Turn T
  again : (skipped : ℕ) → RingConsumer → Turn T

module _ {T : Type 0} (w : World T) where
  unfoldable pub skip_overwritten : RingConsumer → ℕ → ℕ × RingConsumer
  skip_overwritten c seen =
      let oldest = oldest_retained (max (w c.now).write_seq seen) c.capacity in
      if ltb c.cursor oldest then move_to (tick c) oldest else (0, tick c)

  -- `while next <= write_seq` with the rounds that are left; the second result is the moment after.
  pub scan_present : (mask rounds next now : ℕ) → ℕ × ℕ
  scan_present mask zero next now = (next, now)
  scan_present mask (suc rounds) next now =
      let rest = scan_present mask rounds (add_u64 next 1) (now + 1) in
      if ((w now).slots (bit_and next mask)).seq == next then (next, now + 1) else rest

  pub skip_hole : RingConsumer → ℕ × RingConsumer
  skip_hole c =
      let write_seq = (w c.now).write_seq in
      let seen = ((w (c.now + 1)).slots (bit_and c.cursor c.mask)).seq in
      if ltb write_seq c.cursor
      then (0, tick c)
      else if seen == slot_writing || leb c.cursor seen
      then (0, tick (tick c))
      else let from = max (oldest_retained write_seq c.capacity) (add_u64 c.cursor 1) in
        let (next, now) = scan_present c.mask (write_seq + 1 - from) from (c.now + 2) in
        move_to (record c { now = now }) next

  -- The accesses of `read_slot` to the cursor's slot.
  pub read_at : RingConsumer → SlotRead T
  read_at c =
      let i = bit_and c.cursor c.mask in
      read_slot ((w c.now).slots i).seq ((w (c.now + 1)).slots i).content
        ((w (c.now + 2)).slots i).seq c.cursor

  -- The `sparse` block: every 64th empty poll looks for a hole.
  pub poll_sparse : ℕ → RingConsumer → Turn T
  poll_sparse skipped c =
      let c' = record c { empty_polls = add_u32 c.empty_polls 1 } in
      let (s, c'') = skip_hole c' in
      if bit_and c'.empty_polls 63 == 0
      then (if ltb 0 s then again (add_u64 skipped s) c'' else returns none skipped c'')
      else returns none skipped c'

  pub turn_pending : ℕ → RingConsumer → Turn T
  turn_pending skipped c =
      let (s, c') = skip_overwritten (tick c) 0 in
      if not c.multi_producer
      then (if c.sparse then poll_sparse skipped c else returns none skipped c)
      else if leb (add_u64 c.cursor c.capacity) (w c.now).write_seq
      then again (add_u64 skipped s) c'
      else returns none skipped (tick c)

  pub turn_on : SlotRead T → ℕ → RingConsumer → Turn T
  turn_on (item x) skipped c = returns (some x) skipped (record c { cursor = add_u64 c.cursor 1 })
  turn_on (overwritten seen) skipped c =
      let (s, c') = skip_overwritten c seen in
      if s == 0 then returns none skipped c' else again (add_u64 skipped s) c'
  turn_on pending skipped c = turn_pending skipped c

  pub turn : ℕ → RingConsumer → Turn T
  turn skipped c = turn_on (read_at c) skipped (after_read c)

  -- Leaves the loop, or goes on with `next`.
  abbrev pub settle : (ℕ → RingConsumer → Option (Received T)) → Turn T → Option (Received T)
  settle next (returns x s c) = some (x, s, c)
  settle next (again s c) = next s c

  -- The loop of `next_item`, on fuel; `none` means that the fuel ran out.
  pub next_item_from : ℕ → ℕ → RingConsumer → Option (Received T)
  next_item_from zero skipped c = none
  next_item_from (suc fuel) skipped c = settle (next_item_from fuel) (turn skipped c)

  -- `recv_status` on what `next_item` returned.
  pub status_of : Received T → RecvStatus T × RingConsumer
  status_of (none, skipped, c) = (empty, c)
  status_of (some x, skipped, c) =
      (if ltb 0 skipped then lapped skipped x else ok x, update_cursor c)

  pub recv_status : ℕ → RingConsumer → Option (RecvStatus T × RingConsumer)
  recv_status fuel c = Option.map status_of (next_item_from fuel 0 c)

  pub item_of : RecvStatus T → Option T
  item_of empty = none
  item_of (ok x) = some x
  item_of (lapped skipped x) = some x

  pub try_recv : ℕ → RingConsumer → Option (Option T × RingConsumer)
  try_recv fuel c =
      Option.map (λ (r : RecvStatus T × RingConsumer). (item_of r.0, r.1)) (recv_status fuel c)

  -- The loop of `recv_batch` with `room` places left in the buffer; the items come out in order.
  pub fill : ℕ → (room : ℕ) → RingConsumer → Option (List T × RingConsumer)
  fill fuel zero c = some ([], c)
  fill fuel (suc room) c = elim (next_item_from fuel 0 c) [
    | none ↦ none
    | some (none, _, c') ↦ some ([], c')
    | some (some x, _, c') ↦
        Option.map (λ (r : List T × RingConsumer). (x ∷ r.0, r.1)) (fill fuel room c')
  ]

  abbrev pub report_if_read : List T × RingConsumer → List T × RingConsumer
  report_if_read ([], c) = ([], c)
  report_if_read (x ∷ xs, c) = (x ∷ xs, update_cursor c)

  pub recv_batch : ℕ → ℕ → RingConsumer → Option (List T × RingConsumer)
  recv_batch fuel room c = Option.map report_if_read (fill fuel room c)

  pub jump_to_latest : RingConsumer → ℕ × RingConsumer
  jump_to_latest c =
      let write_seq = (w c.now).write_seq in
      if ltb c.cursor write_seq then move_to (tick c) write_seq else (0, tick c)

  pub jump_to_oldest : RingConsumer → ℕ × RingConsumer
  jump_to_oldest c =
      let oldest = oldest_retained (w c.now).write_seq c.capacity in
      if ltb c.cursor oldest then move_to (tick c) oldest else (0, tick c)

  pub lag : RingConsumer → ℕ
  lag c =
      let write_seq = (w c.now).write_seq in
      if leb c.cursor write_seq then add_u64 (sub_u64 write_seq c.cursor) 1 else 0

  pub seek : RingConsumer → ℕ → ℕ × RingConsumer
  seek c target =
      let oldest = oldest_retained (w c.now).write_seq c.capacity in
      let target_seq = max target 1 in
      let s = sub_u64 oldest target_seq in
      if ltb target_seq oldest
      then (
        s,
        update_cursor
            (record (tick c) { cursor = oldest; lapped_total = add_u64 c.lapped_total s }),
      )
      else (0, update_cursor (record (tick c) { cursor = target_seq }))

unfoldable pub last_processed_sequence : RingConsumer → ℕ
last_processed_sequence c = c.cursor - 1
