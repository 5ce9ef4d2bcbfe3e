-- ===== src/Replication/Mirror/Records.antt =====
-- `write_records` of src/replication.rs on a run of the source's log.
use ringfire.Prelude.{
  ℕ, zero, suc, ◌+◌, ◌-◌, ◌*◌, ◌^◌, ◌≤◌, ◌<◌, max, ◌≡◌, refl, ◌∙◌, false, some, arith, List, [],
  ◌++◌, length, take, drop, length-append, add_u64, leb, if◌then◌else◌, Bool-cases, inl, inr,
}
use mathlib.Core.List.{append-nil, append_assoc}
use ringfire.Errors.{ok}
use ringfire.Replication.Bytes.{take-append, drop-append}
use ringfire.Replication.Geometry.{payload_len}
use ringfire.Replication.Ring.{MirrorRing, write, publish_written}
use ringfire.Replication.Ring.Log.{IsLog, write-IsLog, publish_written-IsLog}
use ringfire.Replication.Mirror.{Mirror, write_each, write_records}

-- The payloads of `count` messages from `seq` on, as they travel in a `DATA` frame.
abbrev pub records_of : (log : ℕ → List ℕ) (seq count : ℕ) → List ℕ
records_of log seq zero = []
records_of log seq (suc count) = log seq ++ records_of log (seq + 1) count

module _ (log : ℕ → List ℕ) (width : ℕ) (sized : (n : ℕ) → length (log n) ≡ width) (from : ℕ) where
  pub length-records_of : (count s : ℕ) → length (records_of log s count) ≡ count * width
  length-records_of zero s = omega arith
  length-records_of (suc count) s = grind (
    arith,
    length-append (log s) (records_of log (s + 1) count),
    sized s,
    length-records_of count (s + 1),
  )

  -- What the loop keeps, and where it ends.
  record Written (next s : ℕ) (r r' : MirrorRing) : Type 0 where
    pub window : IsLog log from r'
    pub position : r'.next_seq ≡ max next s
    pub view : r'.view ≡ r.view

  write-position :
      (s : ℕ) (payload : List ℕ) (r : MirrorRing)
      → s + 1 < 2 ^ 64
      → ((write s payload r).next_seq ≡ s + 1) × ((write s payload r).view ≡ r.view)
  unfolding write
  write-position s payload r lt = (omega arith, refl)

  write_each-step :
      (next count s : ℕ) (bytes payload rest : List ℕ) (r : MirrorRing)
      → s + 1 < 2 ^ 64
      → take width bytes ≡ payload
      → drop width bytes ≡ rest
      → width ≤ length bytes
      → write_each width false next (suc count) s bytes r
        ≡ write_each width false next count
            (s + 1)
            rest
            (if leb next s then write s payload r else r)
  unfolding write_each
  write_each-step next count s bytes payload rest r lt taken left enough =
      let next_s : add_u64 s 1 ≡ s + 1 = omega arith in ground (arith, next_s)

  write_each-records :
      (next count s : ℕ) (tail : List ℕ) (r : MirrorRing)
      → s + count < 2 ^ 64
      → s ≤ r.next_seq
      → r.next_seq ≡ max next s
      → IsLog log from r
      → (r' : MirrorRing) × (write_each width false next count s (records_of log s count ++ tail) r
          ≡ some (ok tail, r'))
        × Written next (s + count) r r'
  write_each-records next zero s tail r lt le pos l =
      (r, unfold write_each in refl, record { window = l; position = omega arith; view = refl })
  write_each-records next (suc count) s tail r lt le pos l =
      let rest = records_of log (s + 1) count ++ tail in
      let q = if leb next s then write s (log s) r else r in
      let step =
        write_each-step next count s ((log s ++ records_of log (s + 1) count) ++ tail) (log s) rest
          r (omega arith) (taken s count tail) (left s count tail) (enough s count tail) in
      let (p, seq, view) = stored next s r l (omega arith) pos in
      let (r', e, w) =
        write_each-records next count (s + 1) tail q (omega arith) (omega (arith, seq))
          (omega (arith, seq)) p in
      (
        r',
        step ∙ e,
        record { window = w.window; position = omega (arith, w.position); view = w.view ∙ view },
      )
    where
      taken :
          (s count : ℕ) (tail : List ℕ)
          → take width ((log s ++ records_of log (s + 1) count) ++ tail) ≡ log s
      taken s count tail =
          rw (append_assoc (log s) (records_of log (s + 1) count) tail)
            (take-append (log s) (records_of log (s + 1) count ++ tail) width (sized s))

      left :
          (s count : ℕ) (tail : List ℕ)
          → drop width ((log s ++ records_of log (s + 1) count) ++ tail)
            ≡ records_of log (s + 1) count ++ tail
      left s count tail =
          rw (append_assoc (log s) (records_of log (s + 1) count) tail)
            (drop-append (log s) (records_of log (s + 1) count ++ tail) width (sized s))

      enough :
          (s count : ℕ) (tail : List ℕ)
          → width ≤ length ((log s ++ records_of log (s + 1) count) ++ tail)
      enough s count tail =
          rw (append_assoc (log s) (records_of log (s + 1) count) tail)
            (omega (arith, length-append (log s) (records_of log (s + 1) count ++ tail), sized s))

      stored :
          (next s : ℕ) (r : MirrorRing)
          → IsLog log from r
          → s + 1 < 2 ^ 64
          → r.next_seq ≡ max next s
          → IsLog log from (if leb next s then write s (log s) r else r)
            × ((if leb next s then write s (log s) r else r).next_seq ≡ max next (s + 1))
            × ((if leb next s then write s (log s) r else r).view ≡ r.view)
      stored next s r l lt pos = elim (Bool-cases (leb next s)) [
        | inl new ↦
            let (pos', view') = write-position s (log s) r lt in
            rw new (write-IsLog log from r l s (ground arith) lt, ground (arith, pos'), view')
        | inr old ↦ rw old (l, ground arith, refl)
      ]

  -- A run of the log that starts at or before the write position.
  pub write_records-IsLog :
      (m : Mirror) (seq count : ℕ)
      → payload_len m.geometry ≡ width
      → m.geometry.arena_offset ≡ 0
      → seq + count < 2 ^ 64
      → 0 < seq + count
      → seq ≤ m.ring.next_seq
      → IsLog log from m.ring
      → (r : MirrorRing) × (write_records seq count (records_of log seq count) m
          ≡ some (
            ok tt,
            record m { ring = publish_written r; source_seq = max m.source_seq (seq + count - 1) },
          ))
        × IsLog log from (publish_written r)
        × (r.next_seq ≡ max m.ring.next_seq (seq + count))
        × (r.view ≡ m.ring.view)
  unfolding write_records
  write_records-IsLog m seq count wide fixed lt pos le l =
      let (r, e, w) =
        write_each-records m.ring.next_seq count seq [] m.ring lt le (omega arith) l in
      (
        r,
        ground (arith, wide, fixed, append-nil (records_of log seq count), e),
        publish_written-IsLog log from r w.window,
        w.position,
        w.view,
      )
