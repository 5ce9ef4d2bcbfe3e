-- ===== src/Replication/Source/Linger.antt =====
-- `collect_lingering` of src/replication.rs: all of its rounds together gather a run of the log.
use ringfire.Prelude.{
  ℕ, zero, suc, ◌+◌, ◌-◌, ◌^◌, ◌≤◌, ◌<◌, ◌≡◌, refl, sym, ap, ◌∙◌, ◌⊎◌, inl, inr, true, false, ◌||◌,
  none, List, [], ◌∷◌, ◌++◌, All, length, arith, leb, ◌==◌, add_u64, Bool-cases,
}
use mathlib.Core.List.{append_assoc}
use ringfire.Replication.Source.{
  item, overwritten, SourceRing, Loads, read, read_record, collected, collect_loop, Collected,
  collect, is_full, linger_loop, collect_lingering,
}
use ringfire.Replication.Source.Collect.{IsBelow, collect-IsFrame}
use ringfire.Replication.Mirror.Records.{records_of}

pub records_of-append :
    (log : ℕ → List ℕ) (s a b : ℕ)
    → records_of log s (a + b) ≡ records_of log s a ++ records_of log (s + a) b
records_of-append log s zero b =
    let e : zero + b ≡ b = omega arith in let e' : s + zero ≡ s = omega arith in rw (e, e') refl
records_of-append log s (suc a) b =
    let e : suc a + b ≡ suc (a + b) = omega arith in
    let e' : (s + 1) + a ≡ s + suc a = omega arith in
    rw e (
      ap (λ t. log s ++ t) (records_of-append log (s + 1) a b)
      ∙ rw e'
          (sym (append_assoc (log s) (records_of log (s + 1) a) (records_of log (s + suc a) b))))

-- What the slot protocol gives: a copy between two loads of sequence `n` is message `n`, which was published,
-- and a sequence that is found in its place is that of a message too.
abbrev pub IsLoaded : (log : ℕ → List ℕ) (limit : ℕ) → (ℕ → Loads) → Type 0
IsLoaded log limit f =
    (i n : ℕ)
    → (read (f i).first (f i).second n ≡ item → ((f i).copied ≡ log n) × (n < limit))
      × ((seen : ℕ) → read (f i).first (f i).second n ≡ overwritten seen → seen < limit)

module _ (log : ℕ → List ℕ) (limit : ℕ) (r : SourceRing) (fixed : r.arena ≡ none)
    (cursor max_records max_bytes : ℕ) (out : List ℕ) where
  pub record IsRunOf (got : Collected × List ℕ) : Type 0 where
    pub records : got.1 ≡ out ++ records_of log cursor got.0.count
    pub count_max : got.0.count ≤ max_records
    pub below : (got.0.count ≡ 0) ⊎ (cursor + got.0.count ≤ limit)
    pub lapped : IsBelow limit got.0.lapped
    pub none_lost : got.0.is_lost ≡ false

  linger_loop-IsRunOf :
      (rounds : List (ℕ → Loads)) (got : Collected) (gathered : List ℕ)
      → cursor + max_records < 2 ^ 64
      → All (IsLoaded log limit) rounds
      → IsRunOf (got, gathered)
      → IsRunOf (linger_loop r cursor max_records max_bytes rounds got gathered)
  unfolding linger_loop
  linger_loop-IsRunOf [] got gathered lt loaded i = i
  linger_loop-IsRunOf (loads ∷ rounds) got gathered lt loaded i =
      elim (Bool-cases (is_full max_records max_bytes got gathered)) [
        | inl full ↦ rw full i
        | inr open_ ↦
            let at : add_u64 cursor got.count ≡ cursor + got.count = omega (arith, i.count_max) in
            let more =
              collect r loads (cursor + got.count) (max_records - got.count) max_bytes gathered in
            let f =
              collect-IsFrame log r fixed loads (cursor + got.count) max_bytes limit
                (max_records - got.count) gathered (omega (arith, i.count_max))
                (λ k. loaded.0 k (cursor + got.count + k)) in
            rw (open_, at)
              (linger_loop-IsRunOf rounds
                (record {
                  count = got.count + more.0.count;
                  lapped = more.0.lapped;
                  is_lost = more.0.is_lost;
                })
                more.1 lt loaded.1
                (record {
                  records =
                      f.records
                      ∙ (ap (λ t. t ++ records_of log (cursor + got.count) more.0.count) i.records
                          ∙ (append_assoc out (records_of log cursor got.count)
                                (records_of log (cursor + got.count) more.0.count)
                              ∙ ap (λ t. out ++ t)
                                  (sym (records_of-append log cursor got.count more.0.count))));
                  count_max = omega (arith, i.count_max, f.count_max);
                  below = omega (arith, i.below, f.below);
                  lapped = f.lapped;
                  none_lost = f.none_lost;
                }))
      ]

  pub collect_lingering-IsRunOf :
      (first : ℕ → Loads) (rounds : List (ℕ → Loads))
      → cursor + max_records < 2 ^ 64
      → IsLoaded log limit first
      → All (IsLoaded log limit) rounds
      → IsRunOf (collect_lingering r first cursor max_records max_bytes rounds out)
  unfolding collect_lingering
  collect_lingering-IsRunOf first rounds lt loaded later =
      let found = collect r first cursor max_records max_bytes out in
      let f =
        collect-IsFrame log r fixed first cursor max_bytes limit max_records out lt
          (λ k. loaded k (cursor + k)) in
      let i : IsRunOf found = record {
        records = f.records;
        count_max = f.count_max;
        below = f.below;
        lapped = f.lapped;
        none_lost = f.none_lost;
      } in
      elim (Bool-cases (found.0.count == 0 || is_full max_records max_bytes found.0 found.1)) [
        | inl enough ↦ rw enough i
        | inr linger ↦ rw linger (linger_loop-IsRunOf rounds found.0 found.1 lt later i)
      ]

-- The frame of a later round may grow past `max_bytes`: a frame that is not full, a round that reads one
-- more record, and a record that does not fit any more.
module _ (r : SourceRing) (loads : ℕ → Loads) (cursor max_records max_bytes : ℕ) where
  collect-first :
      (left : ℕ) (out bytes : List ℕ)
      → read_record r (loads 0) (add_u64 cursor 0) ≡ (item, bytes)
      → max_bytes < length (out ++ bytes)
      → collect r loads cursor (suc left) max_bytes out ≡ (collected 1, out ++ bytes)
  unfolding collect collect_loop
  collect-first left out bytes e over =
      let full : leb max_bytes (length (out ++ bytes)) ≡ true = ground arith in rw (e, full) refl

-- A frame that `collect_lingering` goes on filling can end up longer than `max_bytes`, although it was not
-- empty: if it is not full and a later round reads a record that no longer fits, the record is appended.
pub linger_loop-overfills :
    (r : SourceRing) (loads : ℕ → Loads) (cursor max_records max_bytes : ℕ) (got : Collected)
    (out bytes : List ℕ)
    → is_full max_records max_bytes got out ≡ false
    → read_record r (loads 0) (add_u64 (add_u64 cursor got.count) 0) ≡ (item, bytes)
    → max_bytes < length (out ++ bytes)
    → max_bytes < length (linger_loop r cursor max_records max_bytes (loads ∷ []) got out).1
unfolding linger_loop is_full
linger_loop-overfills r loads cursor max_records max_bytes got out bytes open_ e over =
    let left : max_records - got.count ≡ suc (max_records - got.count - 1) = ground arith in
    let first =
      collect-first r loads (add_u64 cursor got.count) max_records max_bytes
        (max_records - got.count - 1) out bytes e over in
    rw (open_, left, first) over
