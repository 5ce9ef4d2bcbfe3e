-- ===== src/BlobRing.antt =====
-- src/blob.rs: a ring of descriptors over a payload arena. Shared memory is a snapshot for each moment, as in
-- the consumer of src/spmc.rs; every load of the consumer reads the snapshot of its own moment.
pub mod Delivered
pub mod Delivery
pub mod Received
mod Examples
use ringfire.Prelude.{
  ℕ, zero, suc, ◌+◌, ◌-◌, ◌%◌, ◌^◌, max, Bool, true, false, not, ◌&&◌, ◌||◌, Option, none, some,
  List, [], ◌∷◌, ltb, leb, ◌==◌, ◌!=◌, if◌then◌else◌, add_u64, sub_u64, mul_u64, add_u32, bit_and,
  bit_or, update, length, is_power_of_two,
}
use Prim.Native.String.{String}
use mathlib.Core.Option
use ringfire.Errors.{
  Result, ok, err, ◌>>=◌, ◌>>◌, refuse_if, RingfireError, invalid_capacity, corrupt_layout,
  buffer_too_small,
}
use ringfire.Constants.{
  ring_header_size, reader_slot_size, slot_writing, flag_policy_latest_wins, flag_mode_spmc,
  flag_with_arena, flag_with_registry, flag_sparse,
}
use ringfire.Header.{
  RingHeader, RingLayout, RingView, initialize, publish, validate_ring, check_schema,
}
use ringfire.Slot.{Slot, SlotRead, item, pending, overwritten, read_slot, write_slot}
use ringfire.Window.{oldest_retained}
use ringfire.Registry
use ringfire.Registry.{ReaderSlot}
use ringfire.Arena
use ringfire.Arena.{BlobRef, PayloadArena}

pub record BlobPacket (M : Type 0) : Type 0 where
  pub meta : M
  pub blob_ref : BlobRef

pub data BlobRecvStatus : Type 0 where
  ok_len : (payload_len : ℕ) → BlobRecvStatus
  empty : BlobRecvStatus
  lapped : (skipped payload_len : ℕ) → BlobRecvStatus

pub record BlobProducerBuilder : Type 0 where
  pub capacity : ℕ
  pub arena_capacity : ℕ
  pub max_readers : ℕ

-- The region that a new ring's file maps.
pub record BlobRegion (M : Type 0) : Type 0 where
  pub header : RingHeader
  pub len : ℕ
  pub registry : List ReaderSlot
  pub slots : ℕ → Slot (BlobPacket M)
  pub arena : PayloadArena

-- The producer's own fields with the slots, the arena and the `write_seq` that it stores.
pub record BlobProducer (M : Type 0) : Type 0 where
  pub write_seq : ℕ
  pub slots : ℕ → Slot (BlobPacket M)
  pub arena : PayloadArena
  pub capacity : ℕ
  pub mask : ℕ
  pub seq : ℕ

-- `(n + 127) & !127`
unfoldable pub align_128 : ℕ → ℕ
align_128 n = bit_and (add_u64 n 127) (2 ^ 64 - 128)

unfoldable pub slots_offset_of : BlobProducerBuilder → ℕ
slots_offset_of o = align_128 (add_u64 ring_header_size (mul_u64 o.max_readers reader_slot_size))

unfoldable pub arena_offset_of : BlobProducerBuilder → (slot_size : ℕ) → ℕ
arena_offset_of o slot_size = align_128 (add_u64 (slots_offset_of o) (mul_u64 o.capacity slot_size))

unfoldable pub layout_of : BlobProducerBuilder → (slot_size schema_sig : ℕ) → RingLayout
layout_of o slot_size schema_sig = record {
  capacity = o.capacity;
  slot_size = slot_size;
  flags =
      bit_or (bit_or (bit_or flag_policy_latest_wins flag_mode_spmc) flag_with_arena)
        flag_with_registry;
  schema_sig = schema_sig;
  claim_seq = 0;
  read_seq = 0;
  registry_offset = ring_header_size;
  registry_count = o.max_readers;
  slots_offset = slots_offset_of o;
  arena_offset = arena_offset_of o slot_size;
  arena_size = o.arena_capacity;
}

module _ {M : Type 0} (packet : ℕ → BlobPacket M) (bytes : ℕ → ℕ) where
  -- `create_with_options` on the file that it made, which holds `packet` and `bytes`.
  unfoldable pub create_with_options :
      BlobProducerBuilder → (slot_size schema_sig : ℕ) → Result (BlobRegion M × BlobProducer M)
  create_with_options o slot_size schema_sig = do
    refuse_if (not (is_power_of_two o.capacity)) (invalid_capacity o.capacity)
    refuse_if (not (is_power_of_two o.arena_capacity) || ltb o.arena_capacity 64)
        (invalid_capacity o.arena_capacity)
    arena ← Arena.init bytes o.arena_capacity
    let slots : (ℕ → Slot (BlobPacket M)) = λ i. record { seq = 0; content = packet i }
    ok (
      record {
        header = publish (initialize (layout_of o slot_size schema_sig));
        len = add_u64 (arena_offset_of o slot_size) (add_u64 64 o.arena_capacity);
        registry = Registry.init o.max_readers;
        slots = slots;
        arena = arena;
      },
      record {
        write_seq = 0;
        slots = slots;
        arena = arena;
        capacity = o.capacity;
        mask = sub_u64 o.capacity 1;
        seq = 1;
      },
    )

module _ {M : Type 0} where
  unfoldable pub publish_packet : BlobProducer M → BlobPacket M → ℕ × BlobProducer M
  publish_packet p packet =
      let idx = bit_and p.seq p.mask in
      (
        p.seq,
        record p {
          slots = update p.slots idx (write_slot (p.slots idx) p.seq packet);
          write_seq = p.seq;
          seq = add_u64 p.seq 1;
        },
      )

  -- The rest of `push` on what `write_blob` returned.
  abbrev pub pushed :
      BlobProducer M
      → M
      → Option (Result BlobRef × PayloadArena)
      → Option (Result ℕ × BlobProducer M)
  pushed p meta none = none
  pushed p meta (some (err e, a)) = some (err e, record p { arena = a })
  pushed p meta (some (ok r, a)) =
      let (seq, q) =
        publish_packet (record p { arena = a }) (record { meta = meta; blob_ref = r }) in
      some (ok seq, q)

  unfoldable pub push : BlobProducer M → M → List ℕ → Option (Result ℕ × BlobProducer M)
  push p meta payload = pushed p meta (Arena.write_blob p.arena payload 0)

-- The rest of `push_with` on what `write_blob_with` returned.
abbrev pub pushed_with :
    {M R : Type 0}
    → BlobProducer M
    → M
    → Option (Result (BlobRef × R) × PayloadArena)
    → Option (Result (ℕ × R) × BlobProducer M)
pushed_with p meta none = none
pushed_with p meta (some (err e, a)) = some (err e, record p { arena = a })
pushed_with p meta (some (ok (r, result), a)) =
    let (seq, q) = publish_packet (record p { arena = a }) (record { meta = meta; blob_ref = r }) in
    some (ok (seq, result), q)

unfoldable pub push_with :
    {M R : Type 0}
    → BlobProducer M
    → M
    → (len : ℕ) (f : List ℕ → List ℕ × R) → Option (Result (ℕ × R) × BlobProducer M)
push_with p meta len f = pushed_with p meta (Arena.write_blob_with p.arena len 0 f)

unfoldable pub sequence : {M : Type 0} → BlobProducer M → ℕ
sequence p = sub_u64 p.seq 1

-- A moment of the shared memory.
pub record BlobMemory (M : Type 0) : Type 0 where
  pub write_seq : ℕ
  pub slots : ℕ → Slot (BlobPacket M)
  pub arena : PayloadArena

-- `registration` is the cursor that the reader has stored in the registry; `now` is the moment of the next
-- access to shared memory.
pub record BlobConsumer : Type 0 where
  pub capacity : ℕ
  pub mask : ℕ
  pub cursor : ℕ
  pub lapped_total : ℕ
  pub sparse : Bool
  pub empty_polls : ℕ
  pub registration : Option ℕ
  pub now : ℕ

abbrev pub tick : BlobConsumer → BlobConsumer
tick c = record c { now = c.now + 1 }

unfoldable pub update_cursor : BlobConsumer → BlobConsumer
update_cursor c = record c {
  registration = elim c.registration [ none ↦ none | some _ ↦ some c.cursor ];
}

-- The consumer's part of `attach_with_name`, once the region is accepted; `registered` is whether the
-- registry had a slot for it.
abbrev pub attached :
    {M : Type 0} → BlobRegion M → RingView → (write_seq : ℕ) (registered : Bool) → BlobConsumer
attached region view write_seq registered =
    let cursor = oldest_retained write_seq view.capacity in
    record {
      capacity = view.capacity;
      mask = view.mask;
      cursor = cursor;
      lapped_total = 0;
      sparse = bit_and region.header.flags flag_sparse != 0;
      empty_polls = 0;
      registration =
          if region.header.reader_registry_offset != 0 && registered then some cursor else none;
      now = 0;
    }

unfoldable pub attach_with_name :
    {M : Type 0}
    → BlobRegion M
    → (slot_size slot_align signature : ℕ) (type_name : String) (write_seq : ℕ) (registered : Bool)
    → Result BlobConsumer
attach_with_name region slot_size slot_align signature type_name write_seq registered = do
  view ← validate_ring region.header region.len (some slot_size) slot_align
  check_schema region.header signature type_name
  refuse_if (region.header.arena_offset == 0)
      (corrupt_layout "shared memory queue does not contain a PayloadArena")
  arena ← Arena.from_ptr region.arena
  refuse_if (arena.capacity != region.header.arena_size)
      (corrupt_layout "arena header disagrees with ring header")
  ok (attached region view write_seq registered)

unfoldable pub skip_current : BlobConsumer → BlobConsumer
skip_current c = record c { cursor = add_u64 c.cursor 1; lapped_total = add_u64 c.lapped_total 1 }

-- What a round of the loop of `next_blob` comes to.
pub data Round (M : Type 0) : Type 0 where
  returns : Result (Option (M × List ℕ × ℕ)) → BlobConsumer → Round M
  again : (skipped : ℕ) → BlobConsumer → Round M

module _ {M : Type 0} (w : ℕ → BlobMemory M) where
  -- `while next <= write_seq` with the rounds that are left; the second result is the moment after.
  pub scan_present : (mask rounds next now : ℕ) → ℕ × ℕ
  scan_present mask zero next now = (next, now)
  scan_present mask (suc rounds) next now =
      let rest = scan_present mask rounds (add_u64 next 1) (now + 1) in
      if ((w now).slots (bit_and next mask)).seq == next then (next, now + 1) else rest

  pub skip_hole : BlobConsumer → ℕ × BlobConsumer
  skip_hole c =
      let write_seq = (w c.now).write_seq in
      let seen = ((w (c.now + 1)).slots (bit_and c.cursor c.mask)).seq in
      let from = max (oldest_retained write_seq c.capacity) (add_u64 c.cursor 1) in
      let (next, now) = scan_present c.mask (write_seq + 1 - from) from (c.now + 2) in
      let skipped = sub_u64 next c.cursor in
      if ltb write_seq c.cursor
      then (0, tick c)
      else if seen == slot_writing || leb c.cursor seen
      then (0, tick (tick c))
      else (
        skipped,
        update_cursor
            (record c { now = now; cursor = next; lapped_total = add_u64 c.lapped_total skipped }),
      )

  pub skip_overwritten : BlobConsumer → ℕ → ℕ × BlobConsumer
  skip_overwritten c seen =
      let oldest = oldest_retained (max (w c.now).write_seq seen) c.capacity in
      let skipped = sub_u64 oldest c.cursor in
      if ltb c.cursor oldest
      then (
        skipped,
        record (tick c) { cursor = oldest; lapped_total = add_u64 c.lapped_total skipped },
      )
      else (0, tick c)

  -- `view_blob` at a moment.
  pub view_bytes : (now : ℕ) → BlobRef → List ℕ
  view_bytes now r =
      let a = (w now).arena in
      if r.len == 0 then [] else Arena.load_bytes a.bytes (bit_and r.offset a.mask) r.len

  -- The three accesses of `read_slot` to the cursor's slot.
  pub read_at : BlobConsumer → SlotRead (BlobPacket M)
  read_at c =
      let i = bit_and c.cursor c.mask in
      read_slot ((w c.now).slots i).seq ((w (c.now + 1)).slots i).content
        ((w (c.now + 2)).slots i).seq c.cursor

  module _ (check : ℕ → Result (Unit {0})) where
    -- A packet whose descriptor was read: `is_lapped`, `check`, the copy and `is_lapped` again, from `c.now` on.
    abbrev pub checked : BlobConsumer → (skipped : ℕ) → BlobPacket M → Result (Unit {0}) → Round M
    checked c skipped p (err e) = returns (err e) (tick c)
    checked c skipped p (ok _) =
        if Arena.is_lapped (w (c.now + 2)).arena p.blob_ref
        then again (add_u64 skipped 1) (skip_current (record c { now = c.now + 3 }))
        else returns (ok (some (p.meta, view_bytes (c.now + 1) p.blob_ref, skipped)))
            (update_cursor (record c { now = c.now + 3; cursor = add_u64 c.cursor 1 }))

    pub take_packet : BlobConsumer → (skipped : ℕ) → BlobPacket M → Round M
    take_packet c skipped p =
        let a = (w c.now).arena in
        if not (Arena.is_in_bounds a p.blob_ref) || Arena.is_lapped a p.blob_ref
        then again (add_u64 skipped 1) (skip_current (tick c))
        else checked c skipped p (check p.blob_ref.len)

    -- The branch of `SlotRead::Pending`.
    pub on_pending : BlobConsumer → (skipped : ℕ) → Round M
    on_pending c skipped =
        let polled = record c { empty_polls = add_u32 c.empty_polls 1 } in
        let (s, c') = skip_hole polled in
        if not c.sparse
        then returns (ok none) c
        else if bit_and polled.empty_polls 63 == 0
        then (if ltb 0 s then again (add_u64 skipped s) c' else returns (ok none) c')
        else returns (ok none) polled

    pub on_slot : BlobConsumer → (skipped : ℕ) → SlotRead (BlobPacket M) → Round M
    on_slot c skipped (item p) = take_packet c skipped p
    on_slot c skipped (overwritten seen) =
        let (s, c') = skip_overwritten c seen in
        if s == 0 then returns (ok none) c' else again (add_u64 skipped s) c'
    on_slot c skipped pending = on_pending c skipped

    abbrev pub settle :
        (ℕ → BlobConsumer → Option (Result (Option (M × List ℕ × ℕ)) × BlobConsumer))
        → Round M
        → Option (Result (Option (M × List ℕ × ℕ)) × BlobConsumer)
    settle next (returns r c) = some (r, c)
    settle next (again skipped c) = next skipped c

    -- The loop of `next_blob`, on fuel.
    pub next_blob :
        (fuel skipped : ℕ) → BlobConsumer → Option (Result (Option (M × List ℕ × ℕ)) × BlobConsumer)
    next_blob zero skipped c = none
    next_blob (suc fuel) skipped c =
        settle (next_blob fuel) (on_slot (record c { now = c.now + 3 }) skipped (read_at c))

  -- `recv_status`: its result, the metadata and the bytes that it stored.
  abbrev pub status_of : Option (M × List ℕ × ℕ) → BlobRecvStatus × Option (M × List ℕ)
  status_of none = (empty, none)
  status_of (some (m, bytes, skipped)) = (
    if skipped == 0 then ok_len (length bytes) else lapped skipped (length bytes),
    some (m, bytes),
  )

  abbrev pub received :
      Result (Option (M × List ℕ × ℕ)) × BlobConsumer
      → Result (BlobRecvStatus × Option (M × List ℕ)) × BlobConsumer
  received (err e, c) = (err e, c)
  received (ok r, c) = (ok (status_of r), c)

  abbrev pub check_len : (out_len : ℕ) → ℕ → Result (Unit {0})
  check_len out_len len = refuse_if (ltb out_len len) (buffer_too_small len out_len)

  pub recv_status :
      (fuel out_len : ℕ)
      → BlobConsumer
      → Option (Result (BlobRecvStatus × Option (M × List ℕ)) × BlobConsumer)
  recv_status fuel out_len c = Option.map received (next_blob (check_len out_len) fuel 0 c)

  abbrev pub length_of :
      Result (BlobRecvStatus × Option (M × List ℕ)) × BlobConsumer
      → Result (Option ℕ × Option (M × List ℕ)) × BlobConsumer
  length_of (err e, c) = (err e, c)
  length_of (ok (ok_len n, got), c) = (ok (some n, got), c)
  length_of (ok (lapped skipped n, got), c) = (ok (some n, got), c)
  length_of (ok (empty, got), c) = (ok (none, got), c)

  pub recv :
      (fuel out_len : ℕ)
      → BlobConsumer
      → Option (Result (Option ℕ × Option (M × List ℕ)) × BlobConsumer)
  recv fuel out_len c = Option.map length_of (recv_status fuel out_len c)

  abbrev pub viewed :
      {R : Type 0} (f : M → List ℕ → R)
      → Result (Option (M × List ℕ × ℕ)) × BlobConsumer
      → Result (Option R) × BlobConsumer
  viewed f (err e, c) = (err e, c)
  viewed f (ok none, c) = (ok none, c)
  viewed f (ok (some (m, bytes, skipped)), c) = (ok (some (f m bytes)), c)

  pub view :
      {R : Type 0} (fuel : ℕ) (f : M → List ℕ → R)
      → BlobConsumer
      → Option (Result (Option R) × BlobConsumer)
  view fuel f c = Option.map (viewed f) (next_blob (λ _. ok tt) fuel 0 c)

  pub lag : BlobConsumer → ℕ
  lag c = (w c.now).write_seq - (c.cursor - 1)
