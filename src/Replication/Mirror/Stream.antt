-- ===== src/Replication/Mirror/Stream.antt =====
-- A mirror of src/replication.rs at the end of a TCP stream: from what the source sends it makes the source's ring.
use ringfire.Prelude.{
  ℕ, zero, suc, ◌+◌, ◌*◌, ◌^◌, ◌≤◌, ◌<◌, max, ◌≡◌, refl, sym, ap, ◌∙◌, inr, true, false, some, List,
  [], ◌++◌, length, length-append, arith, ltb, add_u64,
}
use mathlib.Core.List.{append-nil, append_assoc}
use ringfire.Replication.Frame
use ringfire.Replication.Frame.{
  Frame, control, frame_header_len, kind_data, kind_gap, kind_heartbeat,
}
use ringfire.Replication.Frame.Roundtrip.{IsTyped, length-encode, decode-encode}
use ringfire.Replication.Geometry.{payload_len}
use ringfire.Replication.Ring.{skip_to}
use ringfire.Replication.Ring.Log.{skip_to-IsLog}
use ringfire.Replication.Mirror.{Mirror, frame_sizes_ok}
use ringfire.Replication.Bytes.{take-append, drop-append}
use ringfire.Replication.Mirror.Records.{records_of, length-records_of}
use ringfire.Replication.Mirror.Delivery.{IsMirror, write_records-Holds}
use ringfire.Replication.Mirror.Step.{more, closed, take_frame, take_data, step, run}
use ringfire.Replication.Serve.{gap_frame}
use ringfire.Replication.Serve.Sent.{Sent, nothing, records, gap, beat, data_bytes}

module _ (log : ℕ → List ℕ) (width limit : ℕ) where
  -- The mirror at the end of a stream that told it everything up to `e`.
  pub record Mirrors (from e : ℕ) (m : Mirror) : Type 0 where
    pub start : ℕ
    pub later : from ≤ start
    pub holds : IsMirror log width start limit m
    pub position : m.ring.next_seq ≡ e

module _ (payload : ℕ → List ℕ) (bytes : ℕ → ℕ) where
  abbrev counted : Mirror → Mirror
  counted m = record m { frames = add_u64 m.frames 1 }

  -- A step reads a whole frame header.
  step-frame :
      (f : Frame) (rest : List ℕ) (m : Mirror)
      → IsTyped f
      → step payload bytes m (Frame.encode f ++ rest) ≡ take_frame payload bytes f rest (counted m)
  unfolding step
  step-frame f rest m t =
      let header = take-append (Frame.encode f) rest frame_header_len (length-encode f) in
      let behind = drop-append (Frame.encode f) rest frame_header_len (length-encode f) in
      let whole : ltb (length (Frame.encode f ++ rest)) frame_header_len ≡ false =
        ground (arith, length-append (Frame.encode f) rest, length-encode f) in
      let decoded : Frame.decode (Frame.encode f) ≡ f =
        ap Frame.decode (sym (append-nil (Frame.encode f))) ∙ decode-encode f [] t in
      rw (whole, header, behind, decoded) refl

  run-suc :
      (fuel : ℕ) (m n : Mirror) (stream rest : List ℕ)
      → step payload bytes m stream ≡ more n rest
      → run payload bytes (suc fuel) m stream ≡ run payload bytes fuel n rest
  unfolding run
  run-suc fuel m n stream rest e = rw e refl

  module _ (log : ℕ → List ℕ) (width limit : ℕ) (sized : (n : ℕ) → length (log n) ≡ width)
      (small : limit < 2 ^ 64) (short : 2 ^ 16 * width < 2 ^ 32) where
    frame_sizes_ok-fixed :
        (m : Mirror) (count : ℕ)
        → payload_len m.geometry ≡ width
        → m.geometry.arena_offset ≡ 0
        → 0 < count
        → count * width < 2 ^ 32
        → frame_sizes_ok m.geometry count (count * width) ≡ true
    unfolding frame_sizes_ok
    frame_sizes_ok-fixed m count wide fixed pos lt = ground (arith, wide, fixed)

    -- A frame of records, at the write position.
    step-records :
        (from seq count : ℕ) (rest : List ℕ) (m : Mirror)
        → IsMirror log width from limit m
        → m.ring.next_seq ≡ seq
        → 0 < count
        → count < 2 ^ 16
        → seq + count ≤ limit
        → (n : Mirror) × (step payload bytes m (data_bytes log width limit sized seq count ++ rest)
            ≡ more n rest)
          × IsMirror log width from limit n
          × (n.ring.next_seq ≡ seq + count)
    unfolding take_frame take_data
    step-records from seq count rest m h at pos few below =
        let f : Frame = record {
          kind = kind_data;
          flags = 0;
          count = count;
          len = count * width;
          seq = seq;
        } in
        let body = records_of log seq count in
        let len : count * width < 2 ^ 32 = grind arith in
        let h' : IsMirror log width from limit (counted m) = record {
          wide = h.wide;
          fixed = h.fixed;
          window = h.window;
          published = h.published;
          bounded = h.bounded;
          runs = h.runs;
          ordered = h.ordered;
        } in
        let size = length-records_of log width sized 0 count seq in
        let (n, e, k, next, pending, session) =
          write_records-Holds log width from limit sized (counted m) seq count body small h'
            (record { payload = refl; some_records = pos; below = below }) (omega arith) in
        let ok_sizes = frame_sizes_ok-fixed (counted m) count h.wide h.fixed pos len in
        let enough : ltb (length (body ++ rest)) (count * width) ≡ false =
          ground (arith, length-append body rest, size) in
        let here : ltb seq m.ring.next_seq ≡ false = ground arith in
        let here' : ltb m.ring.next_seq seq ≡ false = ground arith in
        (
          n,
          ap (step payload bytes m) (append_assoc (Frame.encode f) body rest)
              ∙ (step-frame f (body ++ rest) m (record {
                kind_u8 = omega arith;
                flags_u8 = omega arith;
                count_u16 = few;
                len_u32 = len;
                seq_u64 = omega arith;
              })
                  ∙ rw
                      (
                        ok_sizes,
                        enough,
                        take-append body rest (count * width) size,
                        drop-append body rest (count * width) size,
                        here,
                        here',
                        e,
                      )
                      refl),
          k,
          omega (arith, next, at),
        )

    step-gap :
        (from to : ℕ) (rest : List ℕ) (m : Mirror)
        → IsMirror log width from limit m
        → m.ring.next_seq < to
        → to ≤ limit
        → (n : Mirror) × (step payload bytes m (gap_frame to ++ rest) ≡ more n rest)
          × IsMirror log width to limit n
          × (n.ring.next_seq ≡ to)
    unfolding gap_frame control take_frame skip_to
    step-gap from to rest m h lt le =
        let n = record (counted m) { gaps = add_u64 m.gaps 1; ring = skip_to to m.ring } in
        let ahead : ltb m.ring.next_seq to ≡ true = ground arith in
        let next : (skip_to to m.ring).next_seq ≡ to = rw ahead refl in
        let written : (skip_to to m.ring).header ≡ m.ring.header = rw ahead refl in
        (
          n,
          step-frame (control kind_gap to) rest m (record {
            kind_u8 = omega arith;
            flags_u8 = omega arith;
            count_u16 = omega arith;
            len_u32 = omega arith;
            seq_u64 = omega arith;
          })
              ∙ rw ahead refl,
          record {
            wide = h.wide;
            fixed = h.fixed;
            window = skip_to-IsLog log from m.ring to h.window lt;
            published = inr next;
            bounded = omega (arith, next);
            runs = h.runs;
            ordered = h.ordered;
          },
          next,
        )

    step-beat :
        (from seq : ℕ) (rest : List ℕ) (m : Mirror)
        → IsMirror log width from limit m
        → seq < 2 ^ 64
        → (n : Mirror) × (step payload bytes m (Frame.encode (control kind_heartbeat seq) ++ rest)
            ≡ more n rest)
          × IsMirror log width from limit n
          × (n.ring.next_seq ≡ m.ring.next_seq)
    unfolding control take_frame
    step-beat from seq rest m h lt = (
      record (counted m) { source_seq = max m.source_seq seq },
      step-frame (control kind_heartbeat seq) rest m (record {
        kind_u8 = omega arith;
        flags_u8 = omega arith;
        count_u16 = omega arith;
        len_u32 = omega arith;
        seq_u64 = lt;
      }),
      record {
        wide = h.wide;
        fixed = h.fixed;
        window = h.window;
        published = h.published;
        bounded = h.bounded;
        runs = h.runs;
        ordered = h.ordered;
      },
      refl,
    )

    step-closed : (m : Mirror) (fuel : ℕ) → run payload bytes (suc fuel) m [] ≡ some (closed m)
    unfolding run step
    step-closed m fuel = refl

    shorter :
        (f : Frame) (body rest : List ℕ) (fuel : ℕ)
        → length ((Frame.encode f ++ body) ++ rest) < suc fuel
        → length rest < fuel
    shorter f body rest fuel lt = omega (
      arith,
      length-append (Frame.encode f ++ body) rest,
      length-append (Frame.encode f) body,
      length-encode f,
    )

    shorter_control :
        (f : Frame) (rest : List ℕ) (fuel : ℕ)
        → length (Frame.encode f ++ rest) < suc fuel
        → length rest < fuel
    shorter_control f rest fuel lt =
        omega (arith, length-append (Frame.encode f) rest, length-encode f)

    shorter_gap :
        (to : ℕ) (rest : List ℕ) (fuel : ℕ)
        → length (gap_frame to ++ rest) < suc fuel
        → length rest < fuel
    unfolding gap_frame
    shorter_gap to rest fuel lt = shorter_control (control kind_gap to) rest fuel lt

    -- `run` on what a source sends from the mirror's write position on, more rounds than bytes: it ends
    -- with `Ok` when the source closes the connection, at the source's cursor. The ring then holds the
    -- log under the source's numbers, from the last gap on, as far as the window goes, and all of it
    -- is published. Records of one size, no arena, the sequences below 2^64.
    pub run-Mirrors :
        (fuel : ℕ) {c e : ℕ} {stream : List ℕ}
        → Sent log width limit sized c stream e
        → (from : ℕ) (m : Mirror) → IsMirror log width from limit m
        → m.ring.next_seq ≡ c
        → length stream < fuel
        → (m' : Mirror) × (run payload bytes fuel m stream ≡ some (closed m'))
          × Mirrors log width limit from e m'
    run-Mirrors zero sent from m h at lt = absurd (omega arith)
    run-Mirrors (suc fuel) nothing from m h at lt = (
      m,
      step-closed m fuel,
      record { start = from; later = omega arith; holds = h; position = at },
    )
    run-Mirrors (suc fuel) {c} (records {rest = rest} count pos few below sent) from m h at lt =
        let (n, e, h', at') = step-records from c count rest m h at pos few below in
        let (m', e', k) = run-Mirrors fuel sent from n h' at' (shorter _ _ rest fuel lt) in
        (m', run-suc fuel m n _ rest e ∙ e', k)
    run-Mirrors (suc fuel) (gap {rest = rest} to ahead le sent) from m h at lt =
        let (n, e, h', at') = step-gap from to rest m h (omega arith) le in
        let (m', e', k) = run-Mirrors fuel sent to n h' at' (shorter_gap to rest fuel lt) in
        (
          m',
          run-suc fuel m n _ rest e ∙ e',
          record {
            start = k.start;
            later = omega (arith, k.later, h.window.from_le);
            holds = k.holds;
            position = k.position;
          },
        )
    run-Mirrors (suc fuel) (beat {rest = rest} seq small_seq sent) from m h at lt =
        let (n, e, h', at') = step-beat from seq rest m h small_seq in
        let (m', e', k) =
          run-Mirrors fuel sent from n h' (at' ∙ at) (shorter_control _ rest fuel lt) in
        (m', run-suc fuel m n _ rest e ∙ e', k)
