-- ===== src/Replication/Serve/Sent.antt =====
-- What the loops of src/replication.rs send: runs of the log, gaps and heartbeats, one after the other from the
-- cursor on.
use ringfire.Prelude.{
  ℕ, ◌+◌, ◌-◌, ◌*◌, ◌%◌, ◌^◌, ◌≤◌, ◌<◌, ◌≡◌, refl, ap, ◌∙◌, subst, inl, inr, false, ◌&&◌, Option,
  none, some, List, [], ◌∷◌, ◌++◌, All, length, arith, ltb, ◌==◌, add_u64, Bool-cases,
}
use ringfire.Window.{oldest_retained}
use ringfire.Replication.Frame
use ringfire.Replication.Frame.{Frame, control, frame_header_len, kind_data, kind_heartbeat}
use ringfire.Replication.Source.{SourceRing, Collected, collect_lingering, resync, data_frame}
use ringfire.Replication.Source.Collect.{IsBelow}
use ringfire.Replication.Source.Linger.{IsLoaded, IsRunOf, collect_lingering-IsRunOf}
use ringfire.Replication.Mirror.Records.{records_of, length-records_of}
use ringfire.Replication.Serve.{
  Round, gap_frame, wire, tcp_frame_bytes, data_of, after_data, heartbeat_of, serve_loop,
}

module _ (log : ℕ → List ℕ) (width limit : ℕ) (sized : (n : ℕ) → length (log n) ≡ width) where
  abbrev pub data_bytes : (seq count : ℕ) → List ℕ
  data_bytes seq count =
      Frame.encode
        (record { kind = kind_data; flags = 0; count = count; len = count * width; seq = seq })
      ++ records_of log seq count

  -- The bytes tell a mirror at the first cursor everything up to the second one.
  pub data Sent : ℕ → List ℕ → ℕ → Type 0 where
    nothing : {c : ℕ} → Sent c [] c
    records :
        {c e : ℕ} {rest : List ℕ} (count : ℕ)
        → 0 < count
        → count < 2 ^ 16
        → c + count ≤ limit
        → Sent (c + count) rest e
        → Sent c (data_bytes c count ++ rest) e
    gap :
        {c e : ℕ} {rest : List ℕ} (to : ℕ)
        → c < to
        → to ≤ limit
        → Sent to rest e
        → Sent c (gap_frame to ++ rest) e
    beat :
        {c e : ℕ} {rest : List ℕ} (seq : ℕ)
        → seq < 2 ^ 64
        → Sent c rest e
        → Sent c (Frame.encode (control kind_heartbeat seq) ++ rest) e

  data_frame-eq :
      (count cursor : ℕ)
      → count < 2 ^ 16
      → count * width < 2 ^ 32
      → data_frame (wire ++ records_of log cursor count) 0 count cursor ≡ data_bytes cursor count
  unfolding data_frame
  data_frame-eq count cursor few short =
      let body = records_of log cursor count in
      let len : length body ≡ count * width = length-records_of log width sized 0 count cursor in
      let whole : (length (wire ++ body) - frame_header_len) % 2 ^ 32 ≡ count * width =
        omega (arith, len) in
      let same : count % 2 ^ 16 ≡ count = omega arith in rw (whole, same) refl

  -- What the reads of a round may find.
  pub record IsRound (t : Round) : Type 0 where
    pub first : IsLoaded log limit t.first
    pub lingering : All (IsLoaded log limit) t.lingering
    pub write_seq : t.write_seq < limit

  resync-le :
      (r : SourceRing) (write_seq seen : ℕ)
      → 0 < r.view.capacity
      → r.view.capacity < 2 ^ 64
      → limit < 2 ^ 64
      → write_seq < limit
      → seen < limit
      → resync r write_seq seen ≤ limit
  unfolding resync oldest_retained
  resync-le r write_seq seen pos cap lt below below' = ground arith

  module _ (r : SourceRing) (fixed : r.arena ≡ none) (pos : 0 < r.view.capacity)
      (cap : r.view.capacity < 2 ^ 64) (room : limit + 2 ^ 16 < 2 ^ 64) where
    -- Behind the records of a round: the gap that a lapped reader announces, or a heartbeat.
    after_data-Sent :
        (t : Round) (c : ℕ) (idle : List ℕ) (lapped : Option ℕ) {rest : List ℕ} {e : ℕ}
        → t.write_seq < limit
        → IsBelow limit lapped
        → ((bytes : List ℕ) → Sent c bytes e → Sent c (idle ++ bytes) e)
        → Sent (after_data r t c idle lapped false).1 rest e
        → Sent c ((after_data r t c idle lapped false).0 ++ rest) e
    after_data-Sent t c idle none written below idles later = idles _ later
    after_data-Sent t c idle (some seen) written below idles later =
        elim (Bool-cases (ltb c (resync r t.write_seq seen))) [
          | inl ahead ↦ rw ahead (
              gap (resync r t.write_seq seen) (ground arith)
                (resync-le r t.write_seq seen pos cap (omega arith) written below)
                (rw ahead at later))
          | inr behind ↦ rw behind (rw behind at later)
        ]

    after_data-le :
        (t : Round) (c : ℕ) (idle : List ℕ) (lapped : Option ℕ)
        → c ≤ limit
        → t.write_seq < limit
        → IsBelow limit lapped
        → (after_data r t c idle lapped false).1 ≤ limit
    after_data-le t c idle none le written below = le
    after_data-le t c idle (some seen) le written below =
        elim (Bool-cases (ltb c (resync r t.write_seq seen))) [
          | inl ahead ↦ rw ahead (resync-le r t.write_seq seen pos cap (omega arith) written below)
          | inr behind ↦ rw behind le
        ]

    heartbeat_of-Sent :
        (t : Round) (got : Collected) (c : ℕ) {e : ℕ}
        → t.write_seq < limit
        → (bytes : List ℕ) → Sent c bytes e
        → Sent c (heartbeat_of t got ++ bytes) e
    heartbeat_of-Sent t got c written bytes later = elim (Bool-cases (got.count == 0 && t.beat)) [
      | inl yes_ ↦ rw yes_ (beat t.write_seq (omega arith) later)
      | inr no_ ↦ rw no_ later
    ]

    data_of-Sent :
        (c max_records : ℕ) (found : Collected × List ℕ) {rest : List ℕ} {e : ℕ}
        → max_records < 2 ^ 16
        → max_records * width < 2 ^ 32
        → IsRunOf log limit r fixed c max_records tcp_frame_bytes wire found
        → Sent (c + found.0.count) rest e
        → Sent c (data_of c found ++ rest) e
    data_of-Sent c max_records found {rest} {e} few short i later =
        elim (Bool-cases (ltb 0 found.0.count)) [
          | inl any ↦
              let shorter : found.0.count * width < 2 ^ 32 = grind (arith, i.count_max) in
              let frame : data_frame found.1 0 found.0.count c ≡ data_bytes c found.0.count =
                ap (λ out. data_frame out 0 found.0.count c) i.records
                ∙ data_frame-eq found.0.count c (omega (arith, i.count_max)) shorter in
              rw (any, frame)
                (records found.0.count (ground arith) (omega (arith, i.count_max))
                  (ground (arith, i.below)) later)
          | inr none_ ↦
              let zero_ : c + found.0.count ≡ c = ground arith in
              rw none_ (subst (λ n. Sent n rest e) zero_ later)
        ]

    -- However the producer and the rounds interleave, what `serve_client` sends tells a mirror
    -- everything from the cursor on: runs of the log with the source's numbers, one after the other, the gap
    -- to where it goes on when it was lapped, and heartbeats. Of a ring without an arena and with
    -- records of one size, whose reads return what the slot protocol promises; a batch fits a
    -- frame, and the sequences stay 2^16 below 2^64.
    pub serve_loop-Sent :
        (batch : ℕ) (ts : List Round) (c : ℕ)
        → batch < 2 ^ 16
        → batch * width < 2 ^ 32
        → c ≤ limit
        → All IsRound ts
        → Sent c (serve_loop r batch ts c).0 (serve_loop r batch ts c).1
    unfolding serve_loop
    serve_loop-Sent batch [] c few short le rounds = nothing
    serve_loop-Sent batch (t ∷ ts) c few short le (round, later) =
        let found = collect_lingering r t.first c batch tcp_frame_bytes t.lingering wire in
        let i =
          collect_lingering-IsRunOf log limit r fixed c batch tcp_frame_bytes wire t.first
            t.lingering (omega arith) round.first round.lingering in
        let next : add_u64 c found.0.count ≡ c + found.0.count = omega (arith, i.count_max) in
        let gone =
          after_data r t (c + found.0.count) (heartbeat_of t found.0) found.0.lapped false in
        rw (i.none_lost, next)
          (data_of-Sent c batch found few short i (
            after_data-Sent t (c + found.0.count) (heartbeat_of t found.0) found.0.lapped
              round.write_seq i.lapped
              (heartbeat_of-Sent t found.0 (c + found.0.count) round.write_seq)
              (serve_loop-Sent batch ts gone.1 few short
                (after_data-le t (c + found.0.count) (heartbeat_of t found.0) found.0.lapped
                  (omega (arith, i.below)) round.write_seq i.lapped)
                later)))
