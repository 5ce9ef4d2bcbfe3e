-- ===== src/Replication/Mirror/Apply.antt =====
-- `apply` of src/replication.rs on a run of the source's log.
use ringfire.Prelude.{
  ℕ, ◌+◌, ◌^◌, ◌≤◌, ◌<◌, ◌≡◌, ◌≢◌, refl, ◌∙◌, subst, ◌⊎◌, inl, inr, true, Option, some, List, All,
  Any, length, arith, ltb, leb, add_u64, sub_u64, Bool-cases,
}
use ringfire.Errors.{Result, ok}
use ringfire.Replication.Mirror.{
  Mirror, Queued, Link, pending_max, keep_aside, after_advance, apply,
}
use ringfire.Replication.Mirror.Delivery.{
  IsRun, IsMirror, Asks, request-Asks, Advanced, write_records-Holds, advance_loop-Advanced,
}
use ringfire.Replication.Mirror.Queue.{
  All-or_insert, Any-or_insert, or_insert-joins, Any-append, All-Any, Ordered-or_insert,
}

-- Message `n` is in the ring, or in a datagram that waits.
abbrev pub HasRecord : ℕ → Queued → Type 0
HasRecord n q = (q.seq ≤ n) × (n < q.seq + q.count)

abbrev pub Arrived : Mirror → ℕ → Type 0
Arrived m n = (n < m.ring.next_seq) ⊎ Any (HasRecord n) m.pending

module _ (log : ℕ → List ℕ) (width from limit : ℕ) (small : limit < 2 ^ 64)
    (sized : (n : ℕ) → length (log n) ≡ width) where
  -- Between two events nothing that waits continues the ring.
  pub record Settled (m : Mirror) : Type 0 where
    pub holds : IsMirror log width from limit m
    pub waiting : All (λ q. m.ring.next_seq < q.seq) m.pending

  module _ (l : Link) where
    -- One event: nothing that has arrived is forgotten, and the write position does not go back.
    pub record Goes (before after : Mirror) (x : Result (Unit {0})) : Type 0 where
      pub settled : Settled after
      pub forward : before.ring.next_seq ≤ after.ring.next_seq
      pub session : after.session ≡ before.session
      pub remembers : (n : ℕ) → Arrived before n → Arrived after n
      pub works : l.written ≡ ok tt → x ≡ ok tt

    abbrev pub Handled : Mirror → Option (Result (Unit {0}) × Mirror) → Type 0
    Handled m o = (x : Result (Unit {0})) × (m' : Mirror) × (o ≡ some (x, m')) × Goes m m' x

    pub still : (m : Mirror) → Settled m → Goes m m (ok tt)
    still m s = record {
      settled = s;
      forward = omega arith;
      session = refl;
      remembers = λ n a. a;
      works = λ up. refl;
    }

    -- After `after_advance` the records of the datagrams that it took are in the ring.
    pub advanced-Goes :
        (before m m' : Mirror) (x : Result (Unit {0}))
        → Advanced log width from limit sized l m.pending m m' x
        → m.session ≡ before.session
        → before.ring.next_seq ≤ m.ring.next_seq
        → ((n : ℕ) → Arrived before n → Arrived m n)
        → Goes before m' x
    advanced-Goes before m m' x a same le arrived = record {
      session = a.session ∙ same;
      settled = record { holds = a.holds; waiting = a.waiting };
      forward = omega (arith, a.forward);
      remembers = λ n had. elim (arrived n had) [
        | inl below ↦ inl (omega (arith, a.forward))
        | inr queued ↦
            elim (Any-append (HasRecord n) a.front m'.pending
              (subst (Any (HasRecord n)) a.split queued)) [
                | inl took ↦
                    inl (All-Any a.front (λ q end has. omega (arith, end, has)) a.absorbed took)
                | inr waits ↦ inr waits
              ]
      ];
      works = λ up. (a.works up).0;
    }

    -- A request changes nothing that matters here.
    pub requested-Goes :
        (before m m' : Mirror) (x : Result (Unit {0}))
        → Settled m
        → m.session ≡ before.session
        → before.ring.next_seq ≤ m.ring.next_seq
        → ((n : ℕ) → Arrived before n → Arrived m n)
        → m'.ring ≡ m.ring
        → m'.geometry ≡ m.geometry
        → m'.pending ≡ m.pending
        → m'.session ≡ m.session
        → (l.written ≡ ok tt → (x ≡ ok tt) × Asks log width from limit m')
        → Goes before m' x
    requested-Goes before m m' x s same le arrived ring geometry pending session up = record {
      session = session ∙ same;
      settled = record {
        holds = rw (ring, geometry, pending) s.holds;
        waiting = rw (ring, pending) s.waiting;
      };
      forward = rw ring le;
      remembers = λ n had. rw (ring, pending) (arrived n had);
      works = λ w. (up w).0;
    }

    kept-Settled :
        (m : Mirror) (seq count : ℕ) (payload : List ℕ)
        → Settled m
        → IsRun log limit (record { seq = seq; count = count; payload = payload })
        → m.ring.next_seq < seq
        → Settled (keep_aside seq count payload m)
          × ((keep_aside seq count payload m).ring ≡ m.ring)
          × ((keep_aside seq count payload m).session ≡ m.session)
          × ((n : ℕ) → Arrived m n → Arrived (keep_aside seq count payload m) n)
    kept-Settled m seq count payload s run ahead =
        let q : Queued = record { seq = seq; count = count; payload = payload } in
        let h = s.holds in
        elim (Bool-cases (ltb (length m.pending) pending_max)) [
          | inl room ↦ rw room (
            record {
              holds = record {
                wide = h.wide;
                fixed = h.fixed;
                window = h.window;
                published = h.published;
                bounded = h.bounded;
                runs = All-or_insert (IsRun log limit) q m.pending run h.runs;
                ordered = Ordered-or_insert q m.pending h.ordered;
              };
              waiting = All-or_insert (λ p. m.ring.next_seq < p.seq) q m.pending ahead s.waiting;
            },
            refl,
            refl,
            λ n had. elim had [
              | inl below ↦ inl below
              | inr waits ↦ inr (Any-or_insert (HasRecord n) q m.pending waits)
            ],
          )
          | inr full ↦ rw full (s, refl, refl, λ n had. had)
        ]

    -- The datagram continues the ring, or there is room in the queue and none with its first sequence waits.
    abbrev pub IsTaken : Mirror → ℕ → Type 0
    IsTaken m seq =
        (seq ≤ m.ring.next_seq)
        ⊎ ((length m.pending < pending_max) × All (λ p. seq ≢ p.seq) m.pending)

    kept-Arrived :
        (m : Mirror) (seq count : ℕ) (payload : List ℕ)
        → m.ring.next_seq < seq
        → IsTaken m seq
        → (n : ℕ) → seq ≤ n
        → n < seq + count
        → Arrived (keep_aside seq count payload m) n
    kept-Arrived m seq count payload ahead (inl here) n le lt = absurd (omega arith)
    kept-Arrived m seq count payload ahead (inr (room, new)) n le lt =
        let fits : ltb (length m.pending) pending_max ≡ true = ground arith in
        rw fits (
          inr (
            or_insert-joins (HasRecord n) (record { seq = seq; count = count; payload = payload })
              m.pending new (le, lt)))

    -- What `apply` does with a run of the log.
    pub record Applies (seq count : ℕ) (before after : Mirror) (x : Result (Unit {0}))
        : Type 0 where
      pub goes : Goes before after x
      pub arrives : IsTaken before seq → (n : ℕ) → seq ≤ n → n < seq + count → Arrived after n

    pub apply-Applies :
        (m : Mirror) (seq count : ℕ) (payload : List ℕ)
        → Settled m
        → IsRun log limit (record { seq = seq; count = count; payload = payload })
        → (x : Result (Unit {0})) × (m' : Mirror) × (apply l seq count payload m ≡ some (x, m'))
          × Applies seq count m m' x
    unfolding apply after_advance
    apply-Applies m seq count payload s run =
        let end : add_u64 seq count ≡ seq + count = omega (arith, run.below, small) in
        elim (Bool-cases (leb (seq + count) m.ring.next_seq)) [
          | inl old ↦ (
            ok tt,
            m,
            rw (end, old) refl,
            record { goes = still m s; arrives = λ taken n le lt. inl (ground (arith, lt)) },
          )
          | inr new ↦ elim (Bool-cases (ltb m.ring.next_seq seq)) [
            | inl ahead ↦
                let above : m.ring.next_seq < seq = ground arith in
                let kept = keep_aside seq count payload m in
                let (s', ring, kept_session, more) = kept-Settled m seq count payload s run above in
                let (x, m', e, ring', geometry, pending, session, up) =
                  request-Asks log width from limit sized l (sub_u64 seq 1) kept in
                (
                  x,
                  m',
                  rw (end, new, ahead) (rw ring at e),
                  record {
                    goes =
                        requested-Goes m kept m' x s' kept_session (rw ring (omega arith)) more
                          ring' geometry pending session up;
                    arrives = λ taken n le lt.
                        rw (ring', pending) (kept-Arrived m seq count payload above taken n le lt);
                  },
                )
            | inr here ↦
                let (k, e, h, pos, pending, same) =
                  write_records-Holds log width from limit sized m seq count payload small s.holds
                    run (ground arith) in
                let (x, m', e', a) =
                  advance_loop-Advanced log width from limit sized l k.pending k small h refl in
                let goes = advanced-Goes m k m' x a same (omega (arith, pos)) (λ n had. elim had [
                  | inl below ↦ inl (omega (arith, pos))
                  | inr waits ↦ inr (rw pending waits)
                ]) in
                (
                  x,
                  m',
                  rw (end, new, here, e) e',
                  record {
                    goes = goes;
                    arrives = λ taken n le lt. inl (omega (arith, a.forward, pos));
                  },
                )
          ]
        ]
