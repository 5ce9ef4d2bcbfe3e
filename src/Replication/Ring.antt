-- ===== src/Replication/Ring.antt =====
-- `MirrorRing` of src/replication.rs: the single writer of a mirror's ring, which addresses slots by the
-- source's sequence numbers. `payload` and `bytes` are what the new file holds.
pub mod Created
pub mod Log
pub mod Blob
use ringfire.Prelude.{
  ℕ, ◌+◌, ◌-◌, ◌%◌, ◌^◌, Bool, true, false, Option, none, some, List, [], ◌∷◌, ◌++◌, ltb, ◌==◌,
  ◌!=◌, if◌then◌else◌, add_u64, sub_u64, bit_and, update, length, take, drop,
}
use ringfire.Errors.{Result, ok, err, ◌>>=◌, ◌>>◌}
use ringfire.Constants.{ring_header_size}
use ringfire.Header.{RingHeader, RingLayout, RingView, initialize, publish, validate_ring}
use ringfire.Slot.{Slot, write_slot}
use ringfire.Registry
use ringfire.Registry.{ReaderSlot}
use ringfire.Arena
use ringfire.Arena.{BlobRef, PayloadArena}
use ringfire.Replication.Bytes.{to_le_bytes, from_le_bytes, range}
use ringfire.Replication.Geometry.{
  Geometry, has_arena, mirror_flags, total_len, from_header, blob_ref_len,
}
use ringfire.Replication.Action.{Action}

unfoldable pub blob_ref_at : List ℕ → BlobRef
blob_ref_at payload =
    let b = drop (length payload - blob_ref_len) payload in
    record {
      offset = from_le_bytes (range b 0 8);
      len = from_le_bytes (range b 8 12);
      flags = from_le_bytes (range b 12 16);
    }

pub put_blob_ref : List ℕ → BlobRef → List ℕ
put_blob_ref payload r =
    take (length payload - blob_ref_len) payload
    ++ (to_le_bytes 8 r.offset ++ (to_le_bytes 4 r.len ++ to_le_bytes 4 r.flags))

-- The mapped memory and the writer's own fields.
pub record MirrorRing : Type 0 where
  pub header : RingHeader
  pub len : ℕ
  pub registry : Option (List ReaderSlot)
  pub slots : ℕ → Slot (List ℕ)
  pub arena : Option PayloadArena
  pub view : RingView
  pub geometry : Geometry
  pub next_seq : ℕ

unfoldable pub layout_of : Geometry → RingLayout
layout_of g = record {
  capacity = g.capacity;
  slot_size = g.element_size;
  flags = mirror_flags g;
  schema_sig = g.schema_sig;
  claim_seq = 0;
  read_seq = 0;
  registry_offset = if ltb 0 g.registry_count then ring_header_size else 0;
  registry_count = g.registry_count;
  slots_offset = g.slots_offset;
  arena_offset = g.arena_offset;
  arena_size = g.arena_size;
}

module _ (payload : ℕ → List ℕ) (bytes : ℕ → ℕ) where
  unfoldable pub new_arena : Geometry → Result (Option PayloadArena)
  new_arena g = if has_arena g then (do a ← Arena.init bytes g.arena_size; ok (some a)) else ok none

  -- `create` on the file that it made.
  unfoldable pub create : Geometry → Result MirrorRing
  create g = do
    arena ← new_arena g
    ok (record {
      header = publish (initialize (layout_of g));
      len = total_len g;
      registry = if ltb 0 g.registry_count then some (Registry.init g.registry_count) else none;
      slots = λ i. record { seq = 0; content = payload i };
      arena = arena;
      view = record {
        capacity = g.capacity;
        mask = sub_u64 g.capacity 1;
        slot_size = g.element_size;
        slots_offset = g.slots_offset;
      };
      geometry = g;
      next_seq = 1;
    })

-- `PayloadArena::from_ptr` in `adopt`: an arena of the size that the header names, or nothing usable.
pub adopted_arena : Geometry → Option PayloadArena → Option (Option PayloadArena)
adopted_arena g found =
    if has_arena g
    then elim found [
      | none ↦ none
      | some a ↦ elim (Arena.from_ptr a) [
        | err e ↦ none
        | ok b ↦ if b.capacity == g.arena_size then some (some b) else none
      ]
    ]
    else some none

abbrev pub adopted_as :
    MirrorRing → RingView → Geometry → Option (Option PayloadArena) → Option MirrorRing
adopted_as file view g none = none
adopted_as file view g (some a) = some (record file {
  view = view;
  geometry = g;
  next_seq = add_u64 file.header.write_seq 1;
  arena = a;
})

abbrev pub adopted : MirrorRing → Result RingView → Option MirrorRing
adopted file (err e) = none
adopted file (ok view) =
    let g = from_header file.header view in adopted_as file view g (adopted_arena g file.arena)

-- `adopt` of an existing file whose lock it got; the writer's own fields of `file` are not read.
unfoldable pub adopt : MirrorRing → Option MirrorRing
adopt file = adopted file (validate_ring file.header file.len none 8)

unfoldable pub write : (seq : ℕ) (payload : List ℕ) → MirrorRing → MirrorRing
write seq payload r =
    let idx = bit_and seq r.view.mask in
    record r {
      slots = update r.slots idx (write_slot (r.slots idx) seq payload);
      next_seq = add_u64 seq 1;
    }

-- The rest of `write_blob` on what `PayloadArena::write_blob` returned.
abbrev pub blob_placed :
    (seq : ℕ) (descriptor : List ℕ)
    → MirrorRing
    → Option (Result BlobRef × PayloadArena)
    → Option (Result (Unit {0}) × MirrorRing)
blob_placed seq descriptor r none = none
blob_placed seq descriptor r (some (err e, a)) = some (err e, record r { arena = some a })
blob_placed seq descriptor r (some (ok placed, a)) =
    some (ok tt, write seq (put_blob_ref descriptor placed) (record r { arena = some a }))

unfoldable pub write_blob : (seq : ℕ) (descriptor blob : List ℕ) → Action MirrorRing (Unit {0})
write_blob seq descriptor blob r = elim r.arena [
  | none ↦ none
  | some a ↦ blob_placed seq descriptor r (Arena.write_blob a blob (blob_ref_at descriptor).flags)
]

-- `MirrorRing::publish` without the wake-up.
unfoldable pub publish_written : MirrorRing → MirrorRing
publish_written r = record r { header = record r.header { write_seq = sub_u64 r.next_seq 1 } }

unfoldable pub skip_to : ℕ → MirrorRing → MirrorRing
skip_to seq r = if ltb r.next_seq seq then record r { next_seq = seq } else r
