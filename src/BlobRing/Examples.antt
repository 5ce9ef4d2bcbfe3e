-- ===== src/BlobRing/Examples.antt =====
-- A blob ring of src/blob.rs with two messages.
use ringfire.Prelude.{
  ℕ, ◌+◌, ◌*◌, inl, inr, ◌%◌, ◌≤◌, ◌≡◌, refl, ap, ◌∙◌, false, Option, none, some, List, [], ◌∷◌,
  arith, bit_and,
}
use ringfire.Errors.{Result, ok}
use ringfire.Slot.{item, overwritten}
use ringfire.Slot.Torn.{read_slot-item, read_slot-overwritten}
use ringfire.Arena
use ringfire.Arena.{PayloadArena, BlobRef}
use ringfire.Arena.Reserve.{IsArena}
use ringfire.BlobRing.{
  BlobPacket, BlobProducer, BlobMemory, BlobConsumer, ok_len, push, read_at, next_blob, recv_status,
  view_bytes, skip_current,
}
use ringfire.BlobRing.Delivered.{IsShared, IsAttached}
use ringfire.BlobRing.Received.{Ended, next_blob-Ended}
use ringfire.BlobRing.Delivery.{resting, push-received, push-empty_lost}

abbrev small_arena : ℕ → PayloadArena
small_arena reserved = record { capacity = 128; mask = 127; reserved = reserved; bytes = λ i. i }

small_arena-IsArena : (reserved : ℕ) → IsArena (small_arena reserved)
small_arena-IsArena reserved = record {
  exponent = 7;
  capacity_eq = refl;
  exponent_max = omega arith;
  capacity_min = omega arith;
  mask_eq = refl;
}

abbrev packets : ℕ → BlobPacket ℕ
packets n = record { meta = 10 + n; blob_ref = record { offset = 64 * n; len = 3; flags = 0 } }

abbrev payload : ℕ → List ℕ
payload n = Arena.load_bytes (λ i. i) (bit_and (64 * n) 127) 3

-- Two messages in four slots.
abbrev memory : ℕ → BlobMemory ℕ
memory now = record {
  write_seq = 2;
  slots = λ i. record { seq = i % 3; content = packets (i % 3) };
  arena = small_arena 192;
}

abbrev consumer : BlobConsumer
consumer = record {
  capacity = 4;
  mask = 3;
  cursor = 1;
  lapped_total = 0;
  sparse = false;
  empty_polls = 0;
  registration = none;
  now = 0;
}

memory-reads :
    (c : BlobConsumer) (p : BlobPacket ℕ)
    → read_at memory c ≡ item p
    → (p ≡ packets c.cursor) × (c.cursor ≤ 2)
unfolding read_at
memory-reads c p e =
    let i = bit_and c.cursor c.mask in
    let found = read_slot-item (i % 3) (packets (i % 3)) (i % 3) c.cursor e in
    let same : packets (i % 3) ≡ packets c.cursor = ap packets found.0 in
    (found.2 ∙ same, omega (arith, found.0))

memory-seen : (c : BlobConsumer) (seen : ℕ) → read_at memory c ≡ overwritten seen → seen ≤ 2
unfolding read_at
memory-seen c seen e =
    let i = bit_and c.cursor c.mask in
    elim (read_slot-overwritten (i % 3) (packets (i % 3)) (i % 3) c.cursor e) [
      | inl zero_seen ↦ omega (arith, zero_seen)
      | inr (mark, inl first) ↦ omega (arith, first)
      | inr (mark, inr second) ↦ omega (arith, second)
    ]

memory-IsShared : IsShared memory packets payload 2
unfolding view_bytes read_at
memory-IsShared = record {
  reads = memory-reads;
  held = λ c p t t' e after later fresh.
      ap (λ q. view_bytes memory t q.blob_ref) (memory-reads c p e).0;
  seen_max = memory-seen;
  write_seq_max = λ t. omega arith;
  room = omega arith;
}

consumer-IsAttached : IsAttached memory packets payload 2 consumer 0
consumer-IsAttached = record {
  capacity_pos = omega arith;
  capacity_max = omega arith;
  cursor_max = omega arith;
  lapped_room = omega arith;
  skipped_room = omega arith;
}

abbrev any_len : ℕ → Result (Unit {0})
any_len len = ok tt

next_blob-Ended_example :
    (r : Result (Option (ℕ × List ℕ × ℕ))) × (c' : BlobConsumer) × (next_blob memory any_len 3 0
        consumer
      ≡ some (r, c'))
    × Ended memory packets payload 2 any_len consumer 0 r c'
next_blob-Ended_example =
    next_blob-Ended memory packets payload 2 any_len memory-IsShared 3 0 consumer
      consumer-IsAttached (omega arith)

abbrev producer : ℕ → BlobProducer ℕ
producer reserved = record {
  write_seq = 0;
  slots = λ i. record { seq = 0; content = packets 0 };
  arena = small_arena reserved;
  capacity = 4;
  mask = 3;
  seq = 1;
}

push-received_example :
    (q : BlobProducer ℕ) × (c' : BlobConsumer) × (push (producer 0) 5 (7 ∷ 8 ∷ 9 ∷ [])
      ≡ some (ok 1, q))
    × (recv_status (resting q) 1 16 consumer ≡ some (ok (ok_len 3, some (5, 7 ∷ 8 ∷ 9 ∷ [])), c'))
    × (c'.cursor ≡ 2)
push-received_example =
    push-received (producer 0) 5 (7 ∷ 8 ∷ 9 ∷ []) consumer 0 16 (small_arena-IsArena 0)
      (refl, omega arith) (omega arith, omega arith, omega arith) refl refl (omega arith)

push-empty_lost_example :
    (q : BlobProducer ℕ) × (push (producer 192) 5 [] ≡ some (ok 1, q))
    × (next_blob (resting q) any_len 2 0 consumer
        ≡ next_blob (resting q) any_len 1 1 (skip_current (record consumer { now = 0 + 3 + 1 })))
push-empty_lost_example =
    push-empty_lost (producer 192) 5 consumer 1 any_len refl refl (omega arith)
