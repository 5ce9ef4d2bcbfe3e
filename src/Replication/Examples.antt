-- ===== src/Replication/Examples.antt =====
-- A small ring of src/replication.rs that is copied from one host to another.
use ringfire.Prelude.{
  ℕ, ◌+◌, ◌<◌, ◌≡◌, refl, inl, ◌↔◌, false, none, some, List, [], ◌∷◌, ◌++◌, length, replicate, ltb,
  if◌then◌else◌, arith,
}
use ringfire.Errors.{ok}
use ringfire.Header.{RingHeader, RingView, validate_ring}
use ringfire.Replication.Frame.{Frame, kind_gap}
use ringfire.Replication.Geometry
use ringfire.Replication.Geometry.{Geometry}
use ringfire.Replication.Geometry.Roundtrip.{IsTyped, IsGeometry, decode-encode_iff}
use ringfire.Arena.{PayloadArena}
use ringfire.Replication.Bytes.{from_le_bytes}
use ringfire.Arena.Reserve.{IsArena}
use ringfire.Arena.Blobs.{arena_after}
use ringfire.Replication.Ring.{MirrorRing, create, write_blob, blob_ref_at}
use ringfire.Replication.Ring.Blob.{IsCopied, write_blob-IsCopied}
use ringfire.Replication.Ring.Created.{IsLater, Adopts, create-adopt}
use ringfire.Replication.Source.{
  SourceRing, Loads, read, read_record, read_blob, data_frame, is_full, linger_loop, collected,
}
use ringfire.Replication.Source.Linger.{linger_loop-overfills}
use ringfire.Replication.Serve.{Round, wire}
use ringfire.Replication.Mirror.{Mirror, Link, Received, datagram, interrupted, would_block}
use ringfire.Replication.Mirror.Records.{records_of}

abbrev four_slots : Geometry
four_slots = record {
  capacity = 4;
  element_size = 16;
  flags = 0x0011;
  schema_sig = 7;
  registry_count = 1;
  slots_offset = 192;
  arena_offset = 0;
  arena_size = 0;
}

four_slots-IsTyped : IsTyped four_slots
four_slots-IsTyped = omega arith

four_slots-IsGeometry : IsGeometry four_slots
four_slots-IsGeometry = record {
  log_capacity = 2;
  log_capacity_max = omega arith;
  capacity = refl;
  sized = omega arith;
  words = refl;
  after_registry = omega arith;
  aligned = refl;
  fits = omega arith;
  arena = inl (refl, refl);
}

decode-encode_iff_example :
    (Geometry.decode (Geometry.encode four_slots) ≡ ok four_slots) ↔ IsGeometry four_slots
decode-encode_iff_example = decode-encode_iff four_slots four_slots-IsTyped

abbrev zeros : ℕ → List ℕ
zeros i = replicate 8 0

create-adopt_example :
    (r : MirrorRing) × (create zeros (λ i. 0) four_slots ≡ ok r)
    × (validate_ring r.header r.len none 8 ≡ ok r.view)
    × ((s : MirrorRing)
        → IsLater r s
        → Adopts four_slots four_slots-IsTyped four_slots-IsGeometry zeros (λ i. 0) r s)
create-adopt_example =
    create-adopt four_slots four_slots-IsTyped four_slots-IsGeometry zeros (λ i. 0)

-- Message `n` is the byte `n`, eight times.
abbrev log : ℕ → List ℕ
log n = replicate 8 n

sized : (n : ℕ) → length (log n) ≡ 8
sized n = refl

abbrev view : RingView
view = record { capacity = 4; mask = 3; slot_size = 16; slots_offset = 192 }

abbrev header : RingHeader
header = record {
  magic = 0;
  version = 2;
  element_size = 16;
  capacity = 4;
  mask = 3;
  write_seq = 0;
  claim_seq = 0;
  flags = 0x0411;
  futex_word = 0;
  waiting_consumers = 0;
  read_seq = 0;
  schema_sig = 7;
  arena_offset = 0;
  arena_size = 0;
  reader_registry_offset = 128;
  reader_registry_count = 1;
  slots_offset = 192;
}

abbrev new_mirror : Mirror
new_mirror = record {
  ring = record {
    header = header;
    len = 256;
    registry = none;
    slots = λ i. record { seq = 0; content = zeros i };
    arena = none;
    view = view;
    geometry = four_slots;
    next_seq = 1;
  };
  geometry = four_slots;
  session = 9;
  heard = none;
  nak_timeout = 10;
  source_seq = 0;
  frames = 0;
  gaps = 0;
  datagrams = 0;
  naks = 0;
  retransmitted = 0;
  nak = none;
  last_nak = none;
  pending = [];
  sent = [];
}

-- Message 2 arrives before message 1, and twice.
abbrev message : ℕ → List ℕ
message n = data_frame (wire ++ records_of log n 1) 9 1 n

abbrev up : ℕ → Link
up now = record { now = now; written = ok tt }

abbrev receptions : List (Link × Received)
receptions =
    (up 1, datagram (message 2))
    ∷ (up 2, interrupted)
    ∷ (up 3, datagram (message 2))
    ∷ (up 4, datagram (message 1))
    ∷ (up 5, would_block)
    ∷ []

abbrev lost_three : Frame
lost_three = record { kind = kind_gap; flags = 0; count = 0; len = 0; seq = 4 }

-- The source has two messages.
abbrev source : SourceRing
source = record { view = view; geometry = four_slots; arena = none }

abbrev found : ℕ → Loads
found i =
    let n = if ltb i 2 then i + 1 else 0 in
    record { first = n; copied = log n; second = n; bytes = λ j. 0; reserved = 0 }

abbrev one_round : List Round
one_round = record { first = found; lingering = []; write_seq = 2; beat = false } ∷ []

-- A frame of 24 bytes with a budget of 30 takes a record of 8 more.
abbrev found_two : ℕ → Loads
found_two i = record { first = 2; copied = log 2; second = 2; bytes = λ j. 0; reserved = 0 }

linger_loop-overfills_example :
    30 < length (linger_loop source 1 4 30 (found_two ∷ []) (collected 1) (wire ++ log 1)).1
unfolding read_record read_blob read is_full
linger_loop-overfills_example =
    linger_loop-overfills source found_two 1 4 30 (collected 1) (wire ++ log 1) (log 2) refl refl
      (omega arith)

-- Blobs in a ring with an arena of 64 bytes.
abbrev small_arena : PayloadArena
small_arena = record { capacity = 64; mask = 63; reserved = 0; bytes = λ i. 0 }

small_arena-IsArena : IsArena small_arena
small_arena-IsArena = record {
  exponent = 6;
  capacity_eq = refl;
  exponent_max = omega arith;
  capacity_min = omega arith;
  mask_eq = refl;
}

abbrev blob_ring : MirrorRing
blob_ring = record new_mirror.ring { arena = some small_arena }

write_blob-IsCopied_example :
    (r' : MirrorRing) × (write_blob 1 (replicate 16 2) (7 ∷ 8 ∷ []) blob_ring ≡ some (ok tt, r'))
    × IsCopied r' 1 1 (replicate 16 2) (7 ∷ 8 ∷ []) (arena_after small_arena (7 ∷ 8 ∷ []))
unfolding blob_ref_at from_le_bytes
write_blob-IsCopied_example =
    write_blob-IsCopied 1 (replicate 16 2) (7 ∷ 8 ∷ []) blob_ring small_arena refl
      small_arena-IsArena (refl, omega arith) (omega arith) (omega arith) (omega arith)
