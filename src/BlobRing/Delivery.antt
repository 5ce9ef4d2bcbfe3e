-- ===== src/BlobRing/Delivery.antt =====
-- src/blob.rs: a message from `push` to `recv_status`.
use ringfire.Prelude.{
  ℕ, suc, ◌+◌, ◌≤◌, ◌<◌, ◌≡◌, refl, ap, Bool, true, false, not, ◌||◌, some, List, [], arith, ltb,
  ◌==◌, add_u64, bit_and, length, update_self,
}
use ringfire.Errors.{Result, ok}
use ringfire.Slot.{item, write_slot, read_slot}
use ringfire.Arena.{is_in_bounds, empty_ref}
use ringfire.Arena.Reserve.{IsArena, IsAligned}
use ringfire.Arena.Blobs.{Fits, ref_of, arena_after, write_blob-eq, write_blob-IsHeld}
use ringfire.Arena.Fresh.{fresh-is_in_bounds, fresh-is_lapped, write_blob-empty, empty-is_lapped}
use ringfire.BlobRing.{
  BlobPacket, BlobProducer, BlobMemory, BlobConsumer, ok_len, push, publish_packet, read_at,
  take_packet, on_slot, next_blob, skip_current, recv_status, update_cursor, view_bytes,
}

-- Shared memory while the producer rests.
abbrev pub resting : {M : Type 0} → BlobProducer M → ℕ → BlobMemory M
resting p now = record { write_seq = p.write_seq; slots = p.slots; arena = p.arena }

or_true : (b : Bool) → (b || true) ≡ true
or_true true = refl
or_true false = refl

module _ {M : Type 0} where
  -- The producer after a push of a payload that fits.
  abbrev after_push : BlobProducer M → M → List ℕ → BlobProducer M
  after_push p meta payload =
      (publish_packet (record p { arena = arena_after p.arena payload })
        (record { meta = meta; blob_ref = ref_of p.arena payload 0 })).1

  push-eq :
      (p : BlobProducer M) (meta : M) (payload : List ℕ)
      → Fits p.arena payload
      → push p meta payload ≡ some (ok p.seq, after_push p meta payload)
  unfolding push publish_packet
  push-eq p meta payload fits = rw (write_blob-eq p.arena payload 0 fits) refl

  read_at-publish_packet :
      (p : BlobProducer M) (packet : BlobPacket M) (c : BlobConsumer)
      → c.mask ≡ p.mask
      → c.cursor ≡ p.seq
      → read_at (resting (publish_packet p packet).1) c ≡ item packet
  unfolding read_at publish_packet write_slot read_slot
  read_at-publish_packet p packet c mask cursor =
      let self =
        update_self p.slots (bit_and p.seq p.mask) (record { seq = p.seq; content = packet }) in
      rw (mask, cursor, self) (ground arith)

  view_bytes-push :
      (p : BlobProducer M) (meta : M) (payload : List ℕ) (t : ℕ)
      → IsArena p.arena
      → IsAligned p.arena.reserved p.arena
      → Fits p.arena payload
      → view_bytes (resting (after_push p meta payload)) t (ref_of p.arena payload 0) ≡ payload
  unfolding view_bytes publish_packet
  view_bytes-push p meta payload t i al fits =
      let held = write_blob-IsHeld p.arena payload 0 i al fits in
      let long : (length payload == 0) ≡ false = ground arith in rw long held.stored

  -- A payload that fits the arena and the receiver's buffer, pushed by a producer whose arena's `reserved` is
  -- a multiple of 64 and away from its wrap, is what `recv_status` returns at the message's cursor while the
  -- producer rests, with its metadata, and the cursor is then the next message's.
  pub push-received :
      (p : BlobProducer M) (meta : M) (payload : List ℕ) (c : BlobConsumer) (fuel out_len : ℕ)
      → IsArena p.arena
      → IsAligned p.arena.reserved p.arena
      → Fits p.arena payload
      → c.mask ≡ p.mask
      → c.cursor ≡ p.seq
      → length payload ≤ out_len
      → (q : BlobProducer M) × (c' : BlobConsumer) × (push p meta payload ≡ some (ok p.seq, q))
        × (recv_status (resting q) (suc fuel) out_len c
            ≡ some (ok (ok_len (length payload), some (meta, payload)), c'))
        × (c'.cursor ≡ add_u64 p.seq 1)
  unfolding recv_status next_blob on_slot take_packet update_cursor publish_packet
  push-received p meta payload c fuel out_len i al fits mask cursor out =
      let a = arena_after p.arena payload in
      let r = ref_of p.arena payload 0 in
      let stored = record p { arena = a } in
      let packet : BlobPacket M = record { meta = meta; blob_ref = r } in
      let got = read_at-publish_packet stored packet c mask cursor in
      let inside = fresh-is_in_bounds p.arena payload i al fits in
      let fresh = fresh-is_lapped p.arena payload i al fits in
      let fine : ltb out_len (length payload) ≡ false = ground arith in
      (
        after_push p meta payload,
        update_cursor (record c { now = c.now + 3 + 3; cursor = add_u64 c.cursor 1 }),
        push-eq p meta payload fits,
        rw (got, inside, fresh, fine)
            (rw (fresh, view_bytes-push p meta payload (c.now + 3 + 1) i al fits) refl),
        ap (λ n. add_u64 n 1) cursor,
      )

  -- An empty payload pushed when more than a capacity has been reserved: while the producer rests, `next_blob`
  -- at the message's cursor passes over it as a lapped message and goes on with one round less, whatever
  -- `check` says.
  pub push-empty_lost :
      (p : BlobProducer M) (meta : M) (c : BlobConsumer) (fuel : ℕ) (check : ℕ → Result (Unit {0}))
      → c.mask ≡ p.mask
      → c.cursor ≡ p.seq
      → p.arena.capacity < p.arena.reserved
      → (q : BlobProducer M) × (push p meta [] ≡ some (ok p.seq, q))
        × (next_blob (resting q) check (suc fuel) 0 c
            ≡ next_blob (resting q) check fuel 1 (skip_current (record c { now = c.now + 3 + 1 })))
  unfolding push next_blob on_slot take_packet publish_packet
  push-empty_lost p meta c fuel check mask cursor used =
      let q = (publish_packet p (record { meta = meta; blob_ref = empty_ref })).1 in
      let lapped = empty-is_lapped p.arena used in
      (
        q,
        rw (write_blob-empty p.arena 0) refl,
        rw
            (
              read_at-publish_packet p (record { meta = meta; blob_ref = empty_ref }) c mask cursor,
              lapped,
              or_true (not (is_in_bounds p.arena empty_ref)),
            )
            refl,
      )
