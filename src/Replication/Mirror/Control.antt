-- ===== src/Replication/Mirror/Control.antt =====
-- `handle_control` of src/replication.rs: what a mirror does with the frames of the source's stream, the
-- retransmissions and the gaps among them.
use ringfire.Prelude.{ℕ, ◌^◌, ◌≤◌, ◌<◌, ◌≡◌, ◌≢◌, ◌⊎◌, false, Option, some, List, length, take}
use ringfire.Errors.{Result, err, protocol}
use ringfire.Replication.Frame.{Frame, kind_data, kind_gap, kind_heartbeat, kind_multicast}
use ringfire.Replication.Mirror.{Mirror, Link, frame_sizes_ok}
use ringfire.Replication.Mirror.Delivery.{IsRun}
use ringfire.Replication.Mirror.Apply.{Handled}

module _ (log : ℕ → List ℕ) (width limit : ℕ) (small : limit < 2 ^ 64)
    (sized : (n : ℕ) → length (log n) ≡ width) (l : Link) where
  -- The frame is one that a source of the log sends: records of the log, or a gap before the limit.
  pub record IsSent (f : Frame) (payload : List ℕ) : Type 0 where
    pub records :
        f.kind ≡ kind_data
        → IsRun log limit (record { seq = f.seq; count = f.count; payload = take f.len payload })
    pub gap : f.kind ≡ kind_gap → f.seq ≤ limit

  -- The window starts where it did, or behind the gap that the frame announced.
  abbrev pub Starts : (from : ℕ) → Frame → ℕ → Type 0
  Starts from f from' = (from' ≡ from) ⊎ ((f.kind ≡ kind_gap) × (from' ≡ f.seq))

  abbrev pub Controlled : (from : ℕ) → Frame → Mirror → Option (Result (Unit {0}) × Mirror) → Type 0
  Controlled from f m o =
      (from' : ℕ) × Starts from f from' × Handled log width from' limit small sized l m o

  -- The frame that a mirror refuses, with the mirror unchanged.
  abbrev pub Refused : Frame → Mirror → Option (Result (Unit {0}) × Mirror) → Type 0
  Refused f m o =
      ((f.kind ≡ kind_data)
        × (frame_sizes_ok m.geometry f.count f.len ≡ false)
        × (o ≡ some (err (protocol "DATA length does not match its record count"), m)))
      ⊎ ((f.kind ≢ kind_data)
          × (f.kind ≢ kind_gap)
          × (f.kind ≢ kind_heartbeat)
          × (f.kind ≢ kind_multicast)
          × (o ≡ some (err (protocol "unexpected frame kind"), m)))
