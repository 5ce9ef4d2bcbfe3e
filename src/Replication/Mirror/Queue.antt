-- ===== src/Replication/Mirror/Queue.antt =====
-- The queue of datagrams that wait for a hole (`pending` of src/replication.rs).
use ringfire.Prelude.{
  ◌<◌, ◌≡◌, ◌≢◌, ◌⊎◌, inl, inr, false, List, [], ◌∷◌, ◌++◌, All, Any, All-map, arith, ltb, ◌==◌,
  Bool-cases,
}
use ringfire.Replication.Mirror.{Queued, or_insert}
use ringfire.Replication.Mirror.Delivery.{Ordered}

module _ (P : Queued → Type 0) where
  pub All-or_insert : (q : Queued) (ps : List Queued) → P q → All P ps → All P (or_insert q ps)
  unfolding or_insert
  All-or_insert q [] h hs = (h, tt)
  All-or_insert q (p ∷ ps) h hs = elim (Bool-cases (q.seq == p.seq)) [
    | inl same ↦ rw same hs
    | inr other ↦ elim (Bool-cases (ltb q.seq p.seq)) [
      | inl before ↦ rw (other, before) (h, hs)
      | inr behind ↦ rw (other, behind) (hs.0, All-or_insert q ps h hs.1)
    ]
  ]

  pub Any-or_insert : (q : Queued) (ps : List Queued) → Any P ps → Any P (or_insert q ps)
  unfolding or_insert
  Any-or_insert q [] h = absurd h
  Any-or_insert q (p ∷ ps) h = elim (Bool-cases (q.seq == p.seq)) [
    | inl same ↦ rw same h
    | inr other ↦ elim (Bool-cases (ltb q.seq p.seq)) [
      | inl before ↦ rw (other, before) (inr h)
      | inr behind ↦
          rw (other, behind)
            (elim h [ inl first ↦ inl first | inr later ↦ inr (Any-or_insert q ps later) ])
    ]
  ]

  -- A datagram whose first sequence no other has joins the queue.
  pub or_insert-joins :
      (q : Queued) (ps : List Queued) → All (λ p. q.seq ≢ p.seq) ps → P q → Any P (or_insert q ps)
  unfolding or_insert
  or_insert-joins q [] new h = inl h
  or_insert-joins q (p ∷ ps) new h =
      let ne = new.0 in
      let other : (q.seq == p.seq) ≡ false = ground (arith, ne) in
      elim (Bool-cases (ltb q.seq p.seq)) [
        | inl before ↦ rw (other, before) (inl h)
        | inr behind ↦ rw (other, behind) (inr (or_insert-joins q ps new.1 h))
      ]

  pub Any-append : (xs ys : List Queued) → Any P (xs ++ ys) → Any P xs ⊎ Any P ys
  Any-append [] ys h = inr h
  Any-append (x ∷ xs) ys (inl h) = inl (inl h)
  Any-append (x ∷ xs) ys (inr h) = elim (Any-append xs ys h) [
    | inl left ↦ inl (inr left)
    | inr right ↦ inr right
  ]

pub All-Any :
    {P Q : Queued → Type 0} {R : Type 0} (xs : List Queued)
    → ((x : Queued) → P x → Q x → R)
    → All P xs
    → Any Q xs
    → R
All-Any [] f ps q = absurd q
All-Any (x ∷ xs) f ps (inl q) = f x ps.0 q
All-Any (x ∷ xs) f ps (inr q) = All-Any xs f ps.1 q

pub Ordered-or_insert : (q : Queued) (ps : List Queued) → Ordered ps → Ordered (or_insert q ps)
unfolding or_insert
Ordered-or_insert q [] h = (tt, tt)
Ordered-or_insert q (p ∷ ps) h = elim (Bool-cases (q.seq == p.seq)) [
  | inl same ↦ rw same h
  | inr other ↦ elim (Bool-cases (ltb q.seq p.seq)) [
    | inl before ↦
        let lt : q.seq < p.seq = ground arith in
        rw (other, before) ((lt, All-map (λ r le. omega (arith, le, lt)) ps h.0), h)
    | inr behind ↦
        let lt : p.seq < q.seq = ground arith in
        rw (other, behind)
          (All-or_insert (λ r. p.seq < r.seq) q ps lt h.0, Ordered-or_insert q ps h.1)
  ]
]
