-- ===== src/Replication/Mirror/Delivery.antt =====
-- A mirror of src/replication.rs that hears of a source's log by datagrams: those that run ahead wait, and
-- those that continue the ring are written.
use ringfire.Prelude.{
  ℕ, ◌+◌, ◌-◌, ◌^◌, ◌≤◌, ◌<◌, min, max, ◌≡◌, refl, sym, ap, ◌∙◌, subst, ◌⊎◌, inl, inr, true, Option,
  none, some, List, [], ◌∷◌, ◌++◌, All, All-map, length, arith, ltb, leb, add_u64, sub_u64,
  Bool-cases,
}
use ringfire.Errors.{RingfireError, Result, ok, err}
use ringfire.Replication.Geometry.{Geometry, payload_len}
use ringfire.Replication.Ring.{MirrorRing, publish_written}
use ringfire.Replication.Ring.Log.{IsLog}
use ringfire.Replication.Mirror.{
  Mirror, Nak, Queued, Link, write_records, send_nak, is_asked, request, nak_max, nak_frame,
  drop_nak, advance_loop,
}
use ringfire.Replication.Mirror.Records.{records_of, write_records-IsLog}

Result-cases : (r : Result (Unit {0})) → (r ≡ ok tt) ⊎ ((e : RingfireError) × (r ≡ err e))
Result-cases (ok tt) = inl refl
Result-cases (err e) = inr (e, refl)

abbrev pub Ordered : List Queued → Type 0
Ordered [] = Unit
Ordered (q ∷ qs) = All (λ p. q.seq < p.seq) qs × Ordered qs

module _ (log : ℕ → List ℕ) (limit : ℕ) where
  -- A datagram that waits holds a run of the log, before `limit`.
  pub record IsRun (q : Queued) : Type 0 where
    pub payload : q.payload ≡ records_of log q.seq q.count
    pub some_records : 0 < q.count
    pub below : q.seq + q.count ≤ limit

module _ (log : ℕ → List ℕ) (width from limit : ℕ) where
  -- The ring holds the log from `from` on, all of it published, and what waits is the log's.
  pub record Holds (ring : MirrorRing) (geometry : Geometry) (pending : List Queued) : Type 0 where
    pub wide : payload_len geometry ≡ width
    pub fixed : geometry.arena_offset ≡ 0
    pub window : IsLog log from ring
    pub published : (ring.header.write_seq + 1 ≡ ring.next_seq) ⊎ (ring.next_seq ≡ from)
    pub bounded : ring.next_seq ≤ limit
    pub runs : All (IsRun log limit) pending
    pub ordered : Ordered pending

  abbrev pub IsMirror : Mirror → Type 0
  IsMirror m = Holds m.ring m.geometry m.pending

  -- A `NAK` for the range from the write position on is outstanding.
  abbrev pub Asks : Mirror → Type 0
  Asks m = (n : Nak) × (m.nak ≡ some n) × (n.from ≡ m.ring.next_seq)

  module _ (sized : (n : ℕ) → length (log n) ≡ width) where
    -- A run of the log that starts at or before the write position, written and published.
    pub write_records-Holds :
        (m : Mirror) (seq count : ℕ) (payload : List ℕ)
        → limit < 2 ^ 64
        → IsMirror m
        → IsRun log limit (record { seq = seq; count = count; payload = payload })
        → seq ≤ m.ring.next_seq
        → (n : Mirror) × (write_records seq count payload m ≡ some (ok tt, n))
          × IsMirror n
          × (n.ring.next_seq ≡ max m.ring.next_seq (seq + count))
          × (n.pending ≡ m.pending)
          × (n.session ≡ m.session)
    unfolding publish_written
    write_records-Holds m seq count payload lt h run le =
        let (r, e, window, pos, view) =
          write_records-IsLog log width sized from m seq count h.wide h.fixed
            (omega (arith, run.below)) (omega (arith, run.some_records)) le h.window in
        (
          record m { ring = publish_written r; source_seq = max m.source_seq (seq + count - 1) },
          rw run.payload e,
          record {
            wide = h.wide;
            fixed = h.fixed;
            window = window;
            published = inl (omega (arith, pos, h.bounded, run.below, run.some_records));
            bounded = omega (arith, pos, h.bounded, run.below);
            runs = h.runs;
            ordered = h.ordered;
          },
          pos,
          refl,
          refl,
        )

  module _ (sized : (n : ℕ) → length (log n) ≡ width) (l : Link) where
    asked-Asks :
        (to : ℕ) (m : Mirror) (nak : Option Nak)
        → m.nak ≡ nak
        → is_asked l m m.ring.next_seq to nak ≡ true
        → Asks m
    asked-Asks to m none e asked = cc
    asked-Asks to m (some n) e asked = (n, e, ground arith)

    -- `request` changes no more than the `NAK`, its statistics and the stream.
    pub request-Asks :
        (to : ℕ) (m : Mirror)
        → (x : Result (Unit {0})) × (m' : Mirror) × (request l m.ring.next_seq to m ≡ some (x, m'))
          × (m'.ring ≡ m.ring)
          × (m'.geometry ≡ m.geometry)
          × (m'.pending ≡ m.pending)
          × (m'.session ≡ m.session)
          × (l.written ≡ ok tt → (x ≡ ok tt) × Asks m')
    unfolding request send_nak
    request-Asks to m =
        let to' = min to (sub_u64 (add_u64 m.ring.next_seq nak_max) 1) in
        elim (Bool-cases (is_asked l m m.ring.next_seq to' m.nak)) [
          | inl asked ↦ (
            ok tt,
            m,
            rw asked refl,
            refl,
            refl,
            refl,
            refl,
            λ up. (refl, asked-Asks to' m m.nak refl asked),
          )
          | inr new ↦ elim (Result-cases l.written) [
            | inl up ↦ (
              ok tt,
              record m {
                sent = m.sent ++ nak_frame m.ring.next_seq to';
                nak = some (record { from = m.ring.next_seq; to = to'; sent = l.now });
                last_nak = some (m.ring.next_seq, to');
                naks = add_u64 m.naks 1;
              },
              rw (new, up) refl,
              refl,
              refl,
              refl,
              refl,
              λ up'.
                  (refl, (record { from = m.ring.next_seq; to = to'; sent = l.now }, refl, refl)),
            )
            | inr (e, down) ↦ (err e, m, rw (new, down) refl, refl, refl, refl, refl, λ up. cc)
          ]
        ]

    -- What `after_advance` leaves: the datagrams at the front of the queue are in the ring, those that still
    -- wait all run ahead of it, and the hole before them has been asked for.
    pub record Advanced (queue : List Queued) (before after : Mirror) (x : Result (Unit {0}))
        : Type 0 where
      pub holds : IsMirror after
      pub forward : before.ring.next_seq ≤ after.ring.next_seq
      pub session : after.session ≡ before.session
      pub front : List Queued
      pub split : queue ≡ front ++ after.pending
      pub absorbed : All (λ q. q.seq + q.count ≤ after.ring.next_seq) front
      pub waiting : All (λ q. after.ring.next_seq < q.seq) after.pending
      pub works : l.written ≡ ok tt → (x ≡ ok tt) × ((after.pending ≡ []) ⊎ Asks after)

    absorb :
        (q : Queued) (queue : List Queued) (m n m' : Mirror) (x : Result (Unit {0}))
        → Advanced queue n m' x
        → n.session ≡ m.session
        → m.ring.next_seq ≤ n.ring.next_seq
        → q.seq + q.count ≤ m'.ring.next_seq
        → Advanced (q ∷ queue) m m' x
    absorb q queue m n m' x a same le below = record {
      holds = a.holds;
      session = a.session ∙ same;
      forward = omega (arith, a.forward);
      front = q ∷ a.front;
      split = ap (λ qs. q ∷ qs) a.split;
      absorbed = (below, a.absorbed);
      waiting = a.waiting;
      works = a.works;
    }

    -- Nothing of the queue continues the ring: the hole is asked for.
    wait :
        (queue : List Queued) (m m' : Mirror) (x : Result (Unit {0}))
        → Holds m.ring m.geometry queue
        → All (λ q. m.ring.next_seq < q.seq) queue
        → m'.ring ≡ m.ring
        → m'.geometry ≡ m.geometry
        → m'.pending ≡ queue
        → m'.session ≡ m.session
        → (l.written ≡ ok tt → (x ≡ ok tt) × Asks m')
        → Advanced queue m m' x
    wait queue m m' x h ahead ring geometry pending session up = record {
      session = session;
      holds = rw (ring, geometry, pending) h;
      forward = rw ring (omega arith);
      front = [];
      split = sym pending;
      absorbed = tt;
      waiting = rw (ring, pending) ahead;
      works = λ w. let (done, asks) = up w in (done, inr asks);
    }

    pub advance_loop-Advanced :
        (queue : List Queued) (m : Mirror)
        → limit < 2 ^ 64
        → IsMirror m
        → m.pending ≡ queue
        → (x : Result (Unit {0})) × (m' : Mirror) × (advance_loop l queue m ≡ some (x, m'))
          × Advanced queue m m' x
    unfolding advance_loop
    advance_loop-Advanced [] m lt h same = (
      ok tt,
      drop_nak m,
      refl,
      record {
        holds = h;
        forward = omega arith;
        session = refl;
        front = [];
        split = sym same;
        absorbed = tt;
        waiting = subst (All (λ q. m.ring.next_seq < q.seq)) (sym same) tt;
        works = λ up. (refl, inl same);
      },
    )
    advance_loop-Advanced (q ∷ queue) m lt h same =
        let runs : All (IsRun log limit) (q ∷ queue) = subst (All (IsRun log limit)) same h.runs in
        let ordered : Ordered (q ∷ queue) = subst Ordered same h.ordered in
        let popped = record (drop_nak m) { pending = queue } in
        let end : add_u64 q.seq q.count ≡ q.seq + q.count = omega (arith, runs.0.below) in
        let h' : IsMirror popped = record {
          wide = h.wide;
          fixed = h.fixed;
          window = h.window;
          published = h.published;
          bounded = h.bounded;
          runs = runs.1;
          ordered = ordered.1;
        } in
        elim (Bool-cases (leb (q.seq + q.count) m.ring.next_seq)) [
          | inl old ↦
              let (x, m', e, a) = advance_loop-Advanced queue popped lt h' refl in
              (
                x,
                m',
                rw (end, old) e,
                absorb q queue m popped m' x a refl (omega arith) (ground (arith, a.forward)),
              )
          | inr new ↦ elim (Bool-cases (ltb m.ring.next_seq q.seq)) [
            | inl ahead ↦
                let (x, m', e, ring, geometry, pending, session, up) =
                  request-Asks (sub_u64 q.seq 1) (record popped { pending = q ∷ queue }) in
                let above : m.ring.next_seq < q.seq = ground arith in
                let later = All-map (λ p le. omega (arith, le, above)) queue ordered.0 in
                (
                  x,
                  m',
                  rw (end, new, ahead) e,
                  wait (q ∷ queue) m m' x (rw (← same) h) (above, later) ring geometry pending
                      session up,
                )
            | inr here ↦
                let (n, e, h'', pos, pending, kept) =
                  write_records-Holds sized popped q.seq q.count q.payload lt h' runs.0
                    (ground arith) in
                let (x, m', e', a) = advance_loop-Advanced queue n lt h'' pending in
                (
                  x,
                  m',
                  rw (end, new, here, e) e',
                  absorb q queue m n m' x a kept (omega (arith, pos))
                      (omega (arith, a.forward, pos)),
                )
          ]
        ]
