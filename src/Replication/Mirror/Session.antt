-- ===== src/Replication/Mirror/Session.antt =====
-- A session of a mirror of src/replication.rs: datagrams of the source's log that come in any order, more than
-- once or not at all, and heartbeats.
use ringfire.Prelude.{
  ℕ, ◌^◌, ◌≤◌, ◌<◌, max, ◌≡◌, refl, inl, inr, true, none, some, List, length, arith, ltb, leb, ◌==◌,
  ◌!=◌, ◌||◌, not, add_u64, Bool-cases, take, drop,
}
use ringfire.Errors.{Result, ok}
use ringfire.Replication.Frame
use ringfire.Replication.Frame.{frame_header_len, kind_data, kind_heartbeat}
use ringfire.Replication.Mirror.{
  Mirror, Link, on_source_seq, frame_sizes_ok, handle_datagram, Received, datagram, interrupted,
  would_block, failed,
}
use ringfire.Replication.Mirror.Delivery.{IsRun, request-Asks}
use ringfire.Replication.Mirror.Apply.{
  Arrived, Settled, Goes, Handled, still, requested-Goes, apply-Applies,
}

module _ (log : ℕ → List ℕ) (width from limit : ℕ) (small : limit < 2 ^ 64)
    (sized : (n : ℕ) → length (log n) ≡ width) where
  module _ (l : Link) where
    pub source_seq-Handled :
        (m : Mirror) (seq : ℕ)
        → Settled log width from limit small sized m
        → Handled log width from limit small sized l m (on_source_seq l seq m)
    unfolding on_source_seq
    source_seq-Handled m seq s =
        let n = record m { source_seq = max m.source_seq seq } in
        let s' : Settled log width from limit small sized n = record {
          holds = s.holds;
          waiting = s.waiting;
        } in
        elim (Bool-cases (leb m.ring.next_seq seq)) [
          | inl missing ↦
              let (x, m', e, ring, geometry, pending, session, up) =
                request-Asks log width from limit sized l seq n in
              (
                x,
                m',
                rw missing e,
                requested-Goes log width from limit small sized l m n m' x s' refl (omega arith)
                    (λ k had. had) ring geometry pending session up,
              )
          | inr none_missing ↦ (
            ok tt,
            n,
            rw none_missing refl,
            record {
              settled = s';
              forward = omega arith;
              session = refl;
              remembers = λ k had. had;
              works = λ up. refl;
            },
          )
        ]

  -- A datagram of the session with records: they are the source's.
  abbrev pub Carries : (session : ℕ) → List ℕ → Type 0
  Carries session bytes =
      (Frame.decode (take frame_header_len bytes)).flags ≡ session
      → (Frame.decode (take frame_header_len bytes)).kind ≡ kind_data
      → IsRun log limit (record {
        seq = (Frame.decode (take frame_header_len bytes)).seq;
        count = (Frame.decode (take frame_header_len bytes)).count;
        payload =
            take (Frame.decode (take frame_header_len bytes)).len (drop frame_header_len bytes);
      })

  abbrev pub with_heard : Mirror → Mirror
  with_heard m = record m { heard = elim m.heard [ none ↦ none | some _ ↦ some true ] }

  module _ (l : Link) where
    -- A datagram that is too short, of another session, of another kind, or of sizes that the ring cannot
    -- have is dropped.
    pub handle_datagram-Handled :
        (m : Mirror) (bytes : List ℕ)
        → Settled log width from limit small sized m
        → Carries m.session bytes
        → Handled log width from limit small sized l m (handle_datagram l bytes m)
    unfolding handle_datagram
    handle_datagram-Handled m bytes s carries =
        let f = Frame.decode (take frame_header_len bytes) in
        let h : Settled log width from limit small sized (with_heard m) = record {
          holds = s.holds;
          waiting = s.waiting;
        } in
        let dropped : Goes log width from limit small sized l m (with_heard m) (ok tt) = record {
          settled = h;
          forward = omega arith;
          session = refl;
          remembers = λ n had. had;
          works = λ up. refl;
        } in
        elim (Bool-cases (ltb (length bytes) frame_header_len || f.flags != m.session)) [
          | inl foreign ↦ (ok tt, m, rw foreign refl, still log width from limit small sized l m s)
          | inr ours ↦ elim (Bool-cases (f.kind == kind_data)) [
            | inl is_data ↦
                elim (Bool-cases (
                  not (frame_sizes_ok m.geometry f.count f.len)
                  || ltb (length (drop frame_header_len bytes)) f.len)) [
                    | inl bad ↦ (ok tt, with_heard m, rw (ours, is_data, bad) refl, dropped)
                    | inr good ↦
                        let (x, m', e, a) =
                          apply-Applies log width from limit small sized l (with_heard m) f.seq
                            f.count (take f.len (drop frame_header_len bytes)) h
                            (carries (ground arith) (ground arith)) in
                        (x, m', rw (ours, is_data, good) e, regoes m m' x (a.goes))
                  ]
            | inr other ↦ elim (Bool-cases (f.kind == kind_heartbeat)) [
              | inl beat ↦
                  let (x, m', e, g) = source_seq-Handled l (with_heard m) f.seq h in
                  (x, m', rw (ours, other, beat) e, regoes m m' x g)
              | inr unknown ↦ (ok tt, with_heard m, rw (ours, other, unknown) refl, dropped)
            ]
          ]
        ]
      where
        regoes :
            (m m' : Mirror) (x : Result (Unit {0}))
            → Goes log width from limit small sized l (with_heard m) m' x
            → Goes log width from limit small sized l m m' x
        regoes m m' x g = record {
          settled = g.settled;
          forward = g.forward;
          session = g.session;
          remembers = g.remembers;
          works = g.works;
        }

  -- A reception that finds the link up, of a datagram that carries the source's records, or of nothing.
  abbrev pub IsGenuine : (session : ℕ) → Link × Received → Type 0
  IsGenuine session (l, datagram bytes) = (l.written ≡ ok tt) × Carries session bytes
  IsGenuine session (l, interrupted) = Unit
  IsGenuine session (l, would_block) = Unit
  IsGenuine session (l, failed e) = ⊥

  pub record Drained (before after : Mirror) : Type 0 where
    pub settled : Settled log width from limit small sized after
    pub forward : before.ring.next_seq ≤ after.ring.next_seq
    pub remembers : (n : ℕ) → Arrived before n → Arrived after n
    pub complete : (n : ℕ) → ((k : ℕ) → k ≤ n → Arrived after k) → n < after.ring.next_seq

  abbrev with_datagram : Mirror → Mirror
  with_datagram m = record m { datagrams = add_u64 m.datagrams 1 }
