-- ===== src/Replication/Serve.antt =====
-- The loops of src/replication.rs that send records: `serve_client` over TCP and `serve_range`. Each round has what
-- its reads of the ring returned; the bytes that are sent and the cursor are the result, however many
-- rounds there are. A write that fails is the end of the rounds.
pub mod Sent
use ringfire.Prelude.{
  ℕ, zero, suc, ◌+◌, ◌-◌, min, max, Bool, true, false, not, ◌&&◌, Option, none, some, List, [], ◌∷◌,
  ◌++◌, ltb, leb, ◌==◌, if◌then◌else◌, add_u64, sub_u64, replicate,
}
use ringfire.Window.{oldest_retained}
use ringfire.Replication.Frame
use ringfire.Replication.Frame.{control, frame_header_len, kind_gap, kind_heartbeat}
use ringfire.Replication.Source.{
  SourceRing, Loads, Collected, collect, collect_lingering, resync, data_frame, is_some,
}

abbrev pub tcp_frame_bytes : ℕ
tcp_frame_bytes = 1048576

-- The reads of one round: of `collect`, of the rounds of `collect_lingering` that start in time, and the loads of
-- `write_seq`; `beat` is whether the heartbeat interval is over.
pub record Round : Type 0 where
  pub first : ℕ → Loads
  pub lingering : List (ℕ → Loads)
  pub write_seq : ℕ
  pub beat : Bool

unfoldable pub gap_frame : ℕ → List ℕ
gap_frame seq = Frame.encode (control kind_gap seq)

-- `wire.clear(); wire.resize(FRAME_HEADER_LEN, 0)`
abbrev pub wire : List ℕ
wire = replicate frame_header_len 0

-- The records of a round, if it has any.
abbrev pub data_of : (cursor : ℕ) → Collected × List ℕ → List ℕ
data_of cursor (got, out) = if ltb 0 got.count then data_frame out 0 got.count cursor else []

-- The rest of a round, for the cursor behind its records: what it sends, and where it goes on.
abbrev pub after_data :
    SourceRing → Round → (cursor : ℕ) (idle : List ℕ) → Option ℕ → Bool → List ℕ × ℕ
after_data r t cursor idle (some seen) is_lost =
    let to = resync r t.write_seq seen in if ltb cursor to then (gap_frame to, to) else ([], cursor)
after_data r t cursor idle none true = (gap_frame (add_u64 cursor 1), add_u64 cursor 1)
after_data r t cursor idle none false = (idle, cursor)

abbrev pub heartbeat_of : Round → Collected → List ℕ
heartbeat_of t got =
    if got.count == 0 && t.beat then Frame.encode (control kind_heartbeat t.write_seq) else []

-- The loop of `serve_client` without UDP; `batch` is between 1 and 65535.
pub serve_loop : SourceRing → (batch : ℕ) → List Round → (cursor : ℕ) → List ℕ × ℕ
serve_loop r batch [] cursor = ([], cursor)
serve_loop r batch (t ∷ ts) cursor =
    let found = collect_lingering r t.first cursor batch tcp_frame_bytes t.lingering wire in
    let (sent, cursor') =
      after_data r t (add_u64 cursor found.0.count) (heartbeat_of t found.0) found.0.lapped
        found.0.is_lost in
    let (later, end) = serve_loop r batch ts cursor' in
    (data_of cursor found ++ (sent ++ later), end)

abbrev pub is_empty : Collected → Bool
is_empty got = got.count == 0 && not (is_some got.lapped) && not got.is_lost

-- The loop of `serve_range`.
pub range_loop : SourceRing → (batch to : ℕ) → List Round → (cursor : ℕ) → List ℕ × ℕ
range_loop r batch to [] cursor = ([], cursor)
range_loop r batch to (t ∷ ts) cursor =
    let found =
      collect r t.first cursor (min batch (add_u64 (sub_u64 to cursor) 1)) tcp_frame_bytes wire in
    let (sent, cursor') =
      after_data r t (add_u64 cursor found.0.count) [] found.0.lapped found.0.is_lost in
    let (later, end) = range_loop r batch to ts cursor' in
    if ltb to cursor
    then ([], cursor)
    else if is_empty found.0
    then ([], cursor)
    else (data_of cursor found ++ (sent ++ later), end)

-- `serve_range`, whose first load of `write_seq` found `write_seq`.
pub serve_range : SourceRing → (batch from to write_seq : ℕ) → List Round → List ℕ × ℕ
serve_range r batch from to write_seq ts =
    let cursor = max from 1 in
    let oldest = oldest_retained write_seq r.view.capacity in
    let (sent, end) = range_loop r batch to ts (max cursor oldest) in
    if ltb cursor oldest then (gap_frame oldest ++ sent, end) else (sent, end)
