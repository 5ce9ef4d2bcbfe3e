-- ===== src/Replication/Mirror.antt =====
-- `Mirror` of src/replication.rs: the receiving side. What the network does is an argument: the bytes of a
-- datagram, what reading a frame's payload returned, and `Link`, which has the clock and what `write_full`
-- returned. The `BTreeMap` of datagrams that wait for a hole is a list in the order of its keys; `sent` are the
-- bytes that went out on the stream.
pub mod Records
pub mod Delivery
pub mod Queue
pub mod Apply
pub mod Session
pub mod Step
pub mod Stream
pub mod Control
use ringfire.Prelude.{
  ℕ, zero, suc, ◌+◌, ◌-◌, ◌*◌, ◌%◌, ◌^◌, min, max, Bool, true, false, not, ◌&&◌, ◌||◌, Option, none,
  some, List, [], ◌∷◌, ◌++◌, ltb, leb, ◌==◌, ◌!=◌, if◌then◌else◌, add_u64, sub_u64, checked_mul,
  u64_max, length, take, drop,
}
use ringfire.Errors.{Result, ok, err, RingfireError, protocol}
use ringfire.Arena.{BlobRef}
use ringfire.Replication.Bytes.{to_le_bytes}
use ringfire.Replication.Frame
use ringfire.Replication.Frame.{
  Frame, frame_header_len, nak_len, kind_data, kind_gap, kind_heartbeat, kind_nak, kind_multicast,
}
use ringfire.Replication.Geometry.{Geometry, payload_len, has_arena}
use ringfire.Replication.Ring.{MirrorRing, blob_ref_at, write, write_blob, publish_written, skip_to}
use ringfire.Replication.Action.{Action, pure, fail_if, change, then_run, ◌>>=◌, ◌>>◌}

abbrev pub nak_max : ℕ
nak_max = 65535

abbrev pub pending_max : ℕ
pending_max = 8192

pub record Nak : Type 0 where
  pub from : ℕ
  pub to : ℕ
  pub sent : ℕ

pub record Queued : Type 0 where
  pub seq : ℕ
  pub count : ℕ
  pub payload : List ℕ

pub record Link : Type 0 where
  pub now : ℕ
  pub written : Result (Unit {0})

pub record Mirror : Type 0 where
  pub ring : MirrorRing
  pub geometry : Geometry
  pub session : ℕ
  pub heard : Option Bool
  pub nak_timeout : ℕ
  pub source_seq : ℕ
  pub frames : ℕ
  pub gaps : ℕ
  pub datagrams : ℕ
  pub naks : ℕ
  pub retransmitted : ℕ
  pub nak : Option Nak
  pub last_nak : Option (ℕ × ℕ)
  pub pending : List Queued
  pub sent : List ℕ

pub saturating_add : ℕ → ℕ → ℕ
saturating_add a b = min (a + b) u64_max

pub saturating_mul : ℕ → ℕ → ℕ
saturating_mul a b = min (a * b) u64_max

abbrev pub sizes_ok : Geometry → (count len : ℕ) → Option ℕ → Bool
sizes_ok g count len none = false
sizes_ok g count len (some descriptors) =
    if has_arena g
    then leb descriptors len
      && leb len (saturating_add descriptors (saturating_mul count g.arena_size))
    else len == descriptors

pub frame_sizes_ok : Geometry → (count len : ℕ) → Bool
unfolding saturating_add saturating_mul
frame_sizes_ok g count len =
    if count == 0 then false else sizes_ok g count len (checked_mul count (payload_len g))

-- One record of `write_records`: those below `next` are skipped.
abbrev pub store_record :
    (arena : Bool) (next s : ℕ) (descriptor blob : List ℕ) → Action MirrorRing (Unit {0})
store_record arena next s descriptor blob r =
    if not (leb next s)
    then some (ok tt, r)
    else if arena
    then write_blob s descriptor blob r
    else some (ok tt, write s descriptor r)

-- The loop of `write_records`: `rest` is `bytes[pos..]`.
pub write_each :
    (payload_len : ℕ) (arena : Bool) (next count s : ℕ) (rest : List ℕ) → Action MirrorRing (List ℕ)
write_each payload_len arena next zero s rest = pure rest
write_each payload_len arena next (suc count) s rest =
    let descriptor = take payload_len rest in
    let after = drop payload_len rest in
    let len = if arena then (blob_ref_at descriptor).len else 0 in
    fail_if (ltb (length rest) payload_len) (protocol "DATA frame shorter than its records")
    >> fail_if (ltb (length after) len) (protocol "DATA frame shorter than its blobs")
    >> store_record arena next s descriptor (take len after)
    >> write_each payload_len arena next count (add_u64 s 1) (drop len after)

-- A method of the ring, run on the mirror's.
abbrev pub put_back :
    {A : Type 0} → Mirror → Option (Result A × MirrorRing) → Option (Result A × Mirror)
put_back m none = none
put_back m (some (x, r)) = some (x, record m { ring = r })

pub write_records : (seq count : ℕ) (bytes : List ℕ) → Action Mirror (Unit {0})
write_records seq count bytes m =
    then_run
      (λ rest.
        fail_if (length rest != 0) (protocol "DATA frame longer than its records")
        >> change (λ n. record n {
          ring = publish_written n.ring;
          source_seq = max n.source_seq (sub_u64 (add_u64 seq count) 1);
        }))
      (put_back m (
        write_each (payload_len m.geometry) (has_arena m.geometry) m.ring.next_seq count seq bytes
          m.ring))

pub nak_frame : (from to : ℕ) → List ℕ
nak_frame from to =
    Frame.encode (record { kind = kind_nak; flags = 0; count = 0; len = nak_len; seq = from })
    ++ to_le_bytes 8 to

-- `if let Some(nak) = self.nak && next > nak.to { self.nak = None }`
abbrev pub unless_answered : ℕ → Option Nak → Option Nak
unless_answered next none = none
unless_answered next (some nak) = if ltb nak.to next then none else some nak

abbrev pub drop_nak : Mirror → Mirror
drop_nak m = record m { nak = unless_answered m.ring.next_seq m.nak }

-- `BTreeMap::entry(seq).or_insert_with(..)`
pub or_insert : Queued → List Queued → List Queued
or_insert q [] = q ∷ []
or_insert q (p ∷ ps) =
    if q.seq == p.seq then p ∷ ps else if ltb q.seq p.seq then q ∷ (p ∷ ps) else p ∷ or_insert q ps

abbrev pub keep_aside : (seq count : ℕ) (payload : List ℕ) → Mirror → Mirror
keep_aside seq count payload m =
    if ltb (length m.pending) pending_max
    then record m {
      pending = or_insert (record { seq = seq; count = count; payload = payload }) m.pending;
    }
    else m

module _ (l : Link) where
  pub send_nak : (from to : ℕ) → Action Mirror (Unit {0})
  send_nak from to m = elim l.written [
    | err e ↦ some (err e, m)
    | ok _ ↦ some (
      ok tt,
      record m {
        sent = m.sent ++ nak_frame from to;
        nak = some (record { from = from; to = to; sent = l.now });
        last_nak = some (from, to);
        naks = add_u64 m.naks 1;
      },
    )
  ]

  -- Whether the outstanding `NAK` asks for the range already.
  abbrev pub is_asked : Mirror → (from to : ℕ) → Option Nak → Bool
  is_asked m from to none = false
  is_asked m from to (some nak) =
      nak.from == from && leb to nak.to && ltb (l.now - nak.sent) m.nak_timeout

  pub request : (from to : ℕ) → Action Mirror (Unit {0})
  request from to m =
      let to' = min to (sub_u64 (add_u64 from nak_max) 1) in
      if is_asked m from to' m.nak then some (ok tt, m) else send_nak from to' m

  -- The loop of `after_advance`; the list is `pending`, which only this loop takes from.
  pub advance_loop : List Queued → Action Mirror (Unit {0})
  advance_loop [] m = some (ok tt, drop_nak m)
  advance_loop (q ∷ queue) m =
      let next = m.ring.next_seq in
      let popped = record (drop_nak m) { pending = queue } in
      let skipped = advance_loop queue popped in
      let written = (write_records q.seq q.count q.payload >> advance_loop queue) popped in
      if leb (add_u64 q.seq q.count) next
      then skipped
      else if ltb next q.seq
      then request next (sub_u64 q.seq 1) (record popped { pending = q ∷ queue })
      else written

  pub after_advance : Action Mirror (Unit {0})
  after_advance m = advance_loop m.pending m

  pub apply : (seq count : ℕ) (payload : List ℕ) → Action Mirror (Unit {0})
  apply seq count payload m =
      let next = m.ring.next_seq in
      if leb (add_u64 seq count) next
      then some (ok tt, m)
      else if ltb next seq
      then request next (sub_u64 seq 1) (keep_aside seq count payload m)
      else (write_records seq count payload >> after_advance) m

  pub on_source_seq : ℕ → Action Mirror (Unit {0})
  on_source_seq seq m =
      let n = record m { source_seq = max m.source_seq seq } in
      if leb m.ring.next_seq seq then request m.ring.next_seq seq n else some (ok tt, n)

  pub handle_datagram : List ℕ → Action Mirror (Unit {0})
  handle_datagram bytes m =
      let f = Frame.decode (take frame_header_len bytes) in
      let body = drop frame_header_len bytes in
      let heard = record m { heard = elim m.heard [ none ↦ none | some _ ↦ some true ] } in
      if ltb (length bytes) frame_header_len || f.flags != m.session
      then some (ok tt, m)
      else if f.kind == kind_data
      then (if not (frame_sizes_ok m.geometry f.count f.len) || ltb (length body) f.len
          then some (ok tt, heard)
          else apply f.seq f.count (take f.len body) heard)
      else if f.kind == kind_heartbeat
      then on_source_seq f.seq heard
      else some (ok tt, heard)

  -- `handle_control` on a frame; `arrived` is what reading its payload gave.
  pub handle_control : Frame → (arrived : Result (List ℕ)) → Action Mirror (Unit {0})
  handle_control f arrived m =
      if f.kind == kind_data
      then (if not (frame_sizes_ok m.geometry f.count f.len)
          then some (err (protocol "DATA length does not match its record count"), m)
          else elim arrived [
            | err e ↦ some (err e, m)
            | ok payload ↦
                apply f.seq f.count (take f.len payload)
                  (record m { retransmitted = add_u64 m.retransmitted f.count })
          ])
      else if f.kind == kind_gap
      then (if ltb m.ring.next_seq f.seq
          then after_advance (record m { gaps = add_u64 m.gaps 1; ring = skip_to f.seq m.ring })
          else some (ok tt, m))
      else if f.kind == kind_heartbeat
      then on_source_seq f.seq m
      else if f.kind == kind_multicast
      then some (ok tt, m)
      else some (err (protocol "unexpected frame kind"), m)

-- What `recv` on the socket returned.
pub data Received : Type 0 where
  datagram : List ℕ → Received
  interrupted : Received
  would_block : Received
  failed : RingfireError → Received

-- The receive loop of `step_multicast`, on the receptions that it makes, 32 at most.
pub drain : List (Link × Received) → Action Mirror (Unit {0})
drain [] = pure tt
drain ((l, datagram bytes) ∷ rs) =
    change (λ m. record m { datagrams = add_u64 m.datagrams 1 })
    >> handle_datagram l bytes
    >> drain rs
drain ((l, interrupted) ∷ rs) = drain rs
drain ((l, would_block) ∷ rs) = pure tt
drain ((l, failed e) ∷ rs) = fail_if true e
