-- ===== src/Replication/Source.antt =====
-- The source's side of src/replication.rs: `SourceRing` reads records of any type, `collect` gathers a frame and
-- `serve_range` answers a `NAK`. What the loads of a read return is an argument, `Loads`: the producer
-- writes in between. `loads i` are those of the read of the record `i` places behind the cursor.
pub mod Collect
pub mod Linger
use ringfire.Prelude.{
  ℕ, zero, suc, ◌+◌, ◌-◌, ◌%◌, ◌^◌, min, max, Bool, true, false, not, ◌&&◌, ◌||◌, Option, none,
  some, List, [], ◌∷◌, ◌++◌, ltb, leb, ◌==◌, ◌!=◌, if◌then◌else◌, add_u64, sub_u64, bit_and, length,
  take, drop,
}
use ringfire.Errors.{Result, ok, err, ◌>>=◌, ◌>>◌, refuse_if, corrupt_layout, unsupported}
use ringfire.Constants.{slot_writing, flag_with_arena}
use ringfire.Header.{RingHeader, RingView, validate_ring}
use ringfire.Window.{oldest_retained}
use ringfire.Arena
use ringfire.Arena.{BlobRef}
use ringfire.Replication.Frame
use ringfire.Replication.Frame.{frame_header_len, kind_data, kind_gap}
use ringfire.Replication.Geometry.{Geometry, payload_len, blob_ref_len, from_header}
use ringfire.Replication.Ring.{blob_ref_at}

pub data RawRead : Type 0 where
  item : RawRead
  pending : RawRead
  overwritten : ℕ → RawRead
  lost : RawRead

pub record ArenaView : Type 0 where
  pub capacity : ℕ
  pub mask : ℕ

pub record SourceRing : Type 0 where
  pub view : RingView
  pub geometry : Geometry
  pub arena : Option ArenaView

-- `ArenaView::open` on the arena's header.
pub open_arena : Geometry → ArenaView → Result ArenaView
open_arena g found = do
  refuse_if (found.capacity != g.arena_size || found.mask != sub_u64 found.capacity 1)
      (corrupt_layout "arena header disagrees with ring header")
  ok found

-- The arena of `SourceRing::open`: `at_offset` is the header that lies at the arena's offset.
abbrev pub arena_of : RingHeader → Geometry → ArenaView → Result (Option ArenaView)
arena_of h g at_offset =
    if bit_and h.flags flag_with_arena != 0
    then (do
      refuse_if (ltb (payload_len g) blob_ref_len)
          (unsupported "arena ring without a blob descriptor")
      arena ← open_arena g at_offset
      ok (some arena))
    else ok none

-- `SourceRing::open` on the mapped file.
pub open_source : RingHeader → (len : ℕ) → ArenaView → Result SourceRing
open_source h len at_offset = do
  view ← validate_ring h len none 8
  arena ← arena_of h (from_header h view) at_offset
  ok (record { view = view; geometry = from_header h view; arena = arena })

-- The two loads of the slot's sequence and the payload that was copied between them, then the arena's bytes
-- as they were copied and the load of `reserved`.
pub record Loads : Type 0 where
  pub first : ℕ
  pub copied : List ℕ
  pub second : ℕ
  pub bytes : ℕ → ℕ
  pub reserved : ℕ

unfoldable pub read : (first second want : ℕ) → RawRead
read first second want =
    if first == want
    then (if second == want
        then item
        else overwritten (if second == slot_writing then 0 else second))
    else if first == slot_writing || ltb first want
    then pending
    else overwritten first

pub in_bounds : ArenaView → BlobRef → Bool
in_bounds a r = leb (add_u64 (bit_and r.offset a.mask) r.len) a.capacity

pub is_lapped : ArenaView → (reserved : ℕ) → BlobRef → Bool
is_lapped a reserved r = ltb a.capacity (reserved - r.offset)

-- The part of `read_record` after the slot's payload: the outcome and the bytes that are appended.
unfoldable pub read_blob : Option ArenaView → Loads → RawRead × List ℕ
read_blob none l = (item, l.copied)
read_blob (some a) l =
    let r = blob_ref_at l.copied in
    if not (ltb 0 r.len)
    then (item, l.copied)
    else if not (in_bounds a r)
    then (lost, [])
    else if is_lapped a l.reserved r
    then (lost, [])
    else (item, l.copied ++ Arena.load_bytes l.bytes (bit_and r.offset a.mask) r.len)

abbrev pub record_of : Option ArenaView → Loads → RawRead → RawRead × List ℕ
record_of arena l item = read_blob arena l
record_of arena l pending = (pending, [])
record_of arena l (overwritten seen) = (overwritten seen, [])
record_of arena l lost = (lost, [])

unfoldable pub read_record : SourceRing → Loads → (want : ℕ) → RawRead × List ℕ
read_record r l want = record_of r.arena l (read l.first l.second want)

pub record Collected : Type 0 where
  pub count : ℕ
  pub lapped : Option ℕ
  pub is_lost : Bool

abbrev pub collected : ℕ → Collected
collected count = record { count = count; lapped = none; is_lost = false }

-- One round of `collect`, with `rest` for those that follow.
abbrev pub on_record :
    (max_bytes count : ℕ) (out : List ℕ)
    → (List ℕ → Collected × List ℕ)
    → RawRead × List ℕ
    → Collected × List ℕ
on_record max_bytes count out rest (item, bytes) =
    let more = rest (out ++ bytes) in
    if ltb 0 count && ltb max_bytes (length (out ++ bytes))
    then (collected count, out)
    else if leb max_bytes (length (out ++ bytes))
    then (collected (count + 1), out ++ bytes)
    else more
on_record max_bytes count out rest (pending, bytes) = (collected count, out)
on_record max_bytes count out rest (overwritten seen, bytes) =
    (record { count = count; lapped = some seen; is_lost = false }, out)
on_record max_bytes count out rest (lost, bytes) =
    (record { count = count; lapped = none; is_lost = true }, out)

-- The loop of `collect`: `left` is `max_records - count`.
unfoldable pub collect_loop :
    SourceRing → (ℕ → Loads) → (cursor max_bytes left count : ℕ) (out : List ℕ) → Collected × List ℕ
collect_loop r loads cursor max_bytes zero count out = (collected count, out)
collect_loop r loads cursor max_bytes (suc left) count out =
    on_record max_bytes count out (collect_loop r loads cursor max_bytes left (count + 1))
      (read_record r (loads count) (add_u64 cursor count))

unfoldable pub collect :
    SourceRing
    → (ℕ → Loads)
    → (cursor max_records max_bytes : ℕ) (out : List ℕ) → Collected × List ℕ
collect r loads cursor max_records max_bytes out =
    collect_loop r loads cursor max_bytes max_records 0 out

unfoldable pub resync : SourceRing → (write_seq seen : ℕ) → ℕ
resync r write_seq seen = oldest_retained (max write_seq seen) r.view.capacity

abbrev pub is_some : Option ℕ → Bool
is_some none = false
is_some (some n) = true

unfoldable pub is_full : (max_records max_bytes : ℕ) → Collected → List ℕ → Bool
is_full max_records max_bytes got out =
    leb max_records got.count || leb max_bytes (length out) || is_some got.lapped || got.is_lost

-- The rounds of `collect_lingering` that start before its time is over: the loads of each.
pub linger_loop :
    SourceRing
    → (cursor max_records max_bytes : ℕ) → List (ℕ → Loads)
    → Collected
    → List ℕ
    → Collected × List ℕ
linger_loop r cursor max_records max_bytes [] got out = (got, out)
linger_loop r cursor max_records max_bytes (loads ∷ rounds) got out =
    let (more, out') =
      collect r loads (add_u64 cursor got.count) (max_records - got.count) max_bytes out in
    let rest =
      linger_loop r cursor max_records max_bytes rounds
        (record { count = got.count + more.count; lapped = more.lapped; is_lost = more.is_lost })
        out' in
    if is_full max_records max_bytes got out then (got, out) else rest

pub collect_lingering :
    SourceRing
    → (first : ℕ → Loads) (cursor max_records max_bytes : ℕ) → List (ℕ → Loads)
    → List ℕ
    → Collected × List ℕ
collect_lingering r first cursor max_records max_bytes rounds out =
    let (got, out') = collect r first cursor max_records max_bytes out in
    let rest = linger_loop r cursor max_records max_bytes rounds got out' in
    if got.count == 0 || is_full max_records max_bytes got out' then (got, out') else rest

-- `out` starts with room for the header.
unfoldable pub data_frame : (out : List ℕ) (flags count seq : ℕ) → List ℕ
data_frame out flags count seq =
    Frame.encode (record {
      kind = kind_data;
      flags = flags;
      count = count % 2 ^ 16;
      len = (length out - frame_header_len) % 2 ^ 32;
      seq = seq;
    })
    ++ drop frame_header_len out
