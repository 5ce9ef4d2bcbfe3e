-- ===== src/Replication/Mirror/Step.antt =====
-- `Mirror::step` and `Mirror::run` of src/replication.rs over TCP. The stream is the list of the bytes that the
-- source will have sent when it closes the connection; `payload` and `bytes` are what a new file holds.
use ringfire.Prelude.{
  ℕ, zero, suc, max, not, Option, none, some, List, ltb, ◌==◌, if◌then◌else◌, add_u64, length, take,
  drop,
}
use ringfire.Errors.{RingfireError, Result, ok, err, protocol}
use ringfire.Replication.Frame
use ringfire.Replication.Frame.{Frame, frame_header_len, kind_data, kind_gap, kind_heartbeat}
use ringfire.Replication.Ring.{MirrorRing, create, skip_to}
use ringfire.Replication.Mirror.{Mirror, frame_sizes_ok, write_records}

-- `Ok(true)` with the stream that is left, `Ok(false)`, an error, an error that leaves the mirror without
-- a ring, and a panic.
pub data Stepped : Type 0 where
  more : Mirror → List ℕ → Stepped
  closed : Mirror → Stepped
  failed : RingfireError → Mirror → Stepped
  ring_lost : RingfireError → Stepped
  panics : Stepped

abbrev pub after_records : (rest : List ℕ) → Option (Result (Unit {0}) × Mirror) → Stepped
after_records rest none = panics
after_records rest (some (err e, m)) = failed e m
after_records rest (some (ok _, m)) = more m rest

module _ (payload : ℕ → List ℕ) (bytes : ℕ → ℕ) where
  -- A new ring when the source's numbers restarted.
  abbrev pub on_restart : Frame → (records rest : List ℕ) → Mirror → Result MirrorRing → Stepped
  on_restart f records rest m (err e) = ring_lost e
  on_restart f records rest m (ok r) = after_records rest (
      write_records f.seq f.count records
        (record m { ring = skip_to f.seq r; gaps = add_u64 m.gaps 1 }))

  unfoldable pub take_data : Frame → (records rest : List ℕ) → Mirror → Stepped
  take_data f records rest m =
      if ltb f.seq m.ring.next_seq
      then on_restart f records rest m (create payload bytes m.geometry)
      else if ltb m.ring.next_seq f.seq
      then after_records rest (
          write_records f.seq f.count records
            (record m { gaps = add_u64 m.gaps 1; ring = skip_to f.seq m.ring }))
      else after_records rest (write_records f.seq f.count records m)

  unfoldable pub take_frame : Frame → (rest : List ℕ) → Mirror → Stepped
  take_frame f rest m =
      if f.kind == kind_data
      then (if not (frame_sizes_ok m.geometry f.count f.len)
          then failed (protocol "DATA length does not match its record count") m
          else if ltb (length rest) f.len
          then closed m
          else take_data f (take f.len rest) (drop f.len rest) m)
      else if f.kind == kind_gap
      then (if ltb m.ring.next_seq f.seq
          then more (record m { gaps = add_u64 m.gaps 1; ring = skip_to f.seq m.ring }) rest
          else more m rest)
      else if f.kind == kind_heartbeat
      then more (record m { source_seq = max m.source_seq f.seq }) rest
      else failed (protocol "unexpected frame kind") m

  unfoldable pub step : Mirror → List ℕ → Stepped
  step m stream =
      if ltb (length stream) frame_header_len
      then closed m
      else take_frame (Frame.decode (take frame_header_len stream)) (drop frame_header_len stream)
          (record m { frames = add_u64 m.frames 1 })

  -- `while self.step()? {}` on fuel; a step takes at least a header off the stream.
  abbrev pub on_step : (Mirror → List ℕ → Option Stepped) → Stepped → Option Stepped
  on_step rest (more m stream) = rest m stream
  on_step rest (closed m) = some (closed m)
  on_step rest (failed e m) = some (failed e m)
  on_step rest (ring_lost e) = some (ring_lost e)
  on_step rest panics = some panics

  unfoldable pub run : (fuel : ℕ) → Mirror → List ℕ → Option Stepped
  run zero m stream = none
  run (suc fuel) m stream = on_step (run fuel) (step m stream)
