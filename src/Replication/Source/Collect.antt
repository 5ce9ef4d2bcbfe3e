-- ===== src/Replication/Source/Collect.antt =====
-- What `collect` of src/replication.rs gathers is a run of the log, and `data_frame` sends it as one that a
-- mirror of the session takes.
use ringfire.Prelude.{
  ℕ, zero, suc, ◌+◌, ◌-◌, ◌*◌, ◌%◌, ◌^◌, ◌≤◌, ◌<◌, ◌≡◌, ◌≢◌, refl, sym, ap, ◌∙◌, subst, ◌⊎◌, inl,
  inr, false, ◌&&◌, Option, none, some, List, [], ◌++◌, length, take, drop, length-append, arith,
  ltb, leb, add_u64, Bool-cases,
}
use native.Mathlib.Nat.{zero-add}
use mathlib.Core.List.{append-nil, append_assoc}
use ringfire.Replication.Frame
use ringfire.Replication.Frame.{frame_header_len, kind_data}
use ringfire.Replication.Frame.Roundtrip.{IsTyped, length-encode, decode-encode}
use ringfire.Replication.Source.{
  RawRead, item, pending, overwritten, lost, SourceRing, Loads, read, read_blob, read_record,
  Collected, collect_loop, collect, data_frame,
}
use ringfire.Replication.Bytes.{take-append, drop-append}
use ringfire.Replication.Mirror.Records.{records_of, length-records_of}
use ringfire.Replication.Mirror.Session.{Carries}

RawRead-cases :
    (o : RawRead) → (o ≡ item) ⊎ ((o ≡ pending) ⊎ ((o ≡ lost) ⊎ ((n : ℕ) × (o ≡ overwritten n))))
RawRead-cases item = inl refl
RawRead-cases pending = inr (inl refl)
RawRead-cases lost = inr (inr (inl refl))
RawRead-cases (overwritten n) = inr (inr (inr (n, refl)))

abbrev pub IsBelow : (limit : ℕ) → Option ℕ → Type 0
IsBelow limit none = Unit
IsBelow limit (some seen) = seen < limit

read-ne-lost : (first second want : ℕ) → read first second want ≢ lost
unfolding read
read-ne-lost first second want = ground arith

module _ (log : ℕ → List ℕ) where
  records_of-last :
      (s count : ℕ) → records_of log s (suc count) ≡ records_of log s count ++ log (s + count)
  records_of-last s zero = append-nil (log s) ∙ ap log (omega arith)
  records_of-last s (suc count) =
      let e : (s + 1) + count ≡ s + suc count = omega arith in
      ap (λ t. log s ++ t) (records_of-last (s + 1) count)
      ∙ (sym (append_assoc (log s) (records_of log (s + 1) count) (log ((s + 1) + count)))
          ∙ ap (λ (n : ℕ). (log s ++ records_of log (s + 1) count) ++ log n) e)

  module _ (r : SourceRing) (fixed : r.arena ≡ none) (loads : ℕ → Loads)
      (cursor max_bytes limit : ℕ) where
    -- The slot protocol: what was copied between two loads of the record's sequence is the record, of
    -- a message that was published.
    abbrev pub ReadsLog : Type 0
    ReadsLog =
        (i : ℕ)
        → (read (loads i).first (loads i).second (cursor + i) ≡ item
            → ((loads i).copied ≡ log (cursor + i)) × (cursor + i < limit))
          × ((seen : ℕ)
              → read (loads i).first (loads i).second (cursor + i) ≡ overwritten seen
              → seen < limit)

    -- What the loop has gathered behind `out`.
    pub record IsFrame (out : List ℕ) (max_records : ℕ) (got : Collected × List ℕ) : Type 0 where
      pub records : got.1 ≡ out ++ records_of log cursor got.0.count
      pub count_max : got.0.count ≤ max_records
      pub below : (got.0.count ≡ 0) ⊎ (cursor + got.0.count ≤ limit)
      pub lapped : IsBelow limit got.0.lapped
      pub none_lost : got.0.is_lost ≡ false
      pub size_max : (got.0.count ≤ 1) ⊎ (length got.1 ≤ max_bytes)

    collect_loop-IsFrame :
        (left count : ℕ) (out gathered : List ℕ)
        → cursor + count + left < 2 ^ 64
        → ReadsLog
        → gathered ≡ out ++ records_of log cursor count
        → (count ≡ 0) ⊎ (cursor + count ≤ limit)
        → (count ≤ 1) ⊎ (length gathered ≤ max_bytes)
        → IsFrame out (count + left) (collect_loop r loads cursor max_bytes left count gathered)
    unfolding collect_loop read_record read_blob
    collect_loop-IsFrame zero count out gathered lt reads e below size = record {
      records = e;
      count_max = omega arith;
      below = below;
      lapped = tt;
      none_lost = refl;
      size_max = size;
    }
    collect_loop-IsFrame (suc left) count out gathered lt reads e below size =
        let at : add_u64 cursor count ≡ cursor + count = omega arith in
        let stop : (lapped : Option ℕ)
            → IsBelow limit lapped
            → IsFrame out (count + suc left)
                (record { count = count; lapped = lapped; is_lost = false }, gathered) =
          λ lapped seen_below. record {
            records = e;
            count_max = omega arith;
            below = below;
            lapped = seen_below;
            none_lost = refl;
            size_max = size;
          } in
        elim (RawRead-cases (read (loads count).first (loads count).second (cursor + count))) [
          | inl got ↦
              let next = gathered ++ (loads count).copied in
              let e' : next ≡ out ++ records_of log cursor (suc count) =
                ap (λ t. t ++ (loads count).copied) e
                ∙ (append_assoc out (records_of log cursor count) (loads count).copied
                    ∙ ap (λ t. out ++ t)
                        (ap (λ t. records_of log cursor count ++ t) (((reads count).0 got).0)
                          ∙ sym (records_of-last cursor count))) in
              elim (Bool-cases (ltb 0 count && ltb max_bytes (length next))) [
                | inl over ↦ rw (at, got, fixed, over) (stop none tt)
                | inr fits ↦ elim (Bool-cases (leb max_bytes (length next))) [
                  | inl full ↦
                      rw (at, got, fixed, fits, full)
                        (record {
                          records = rw (add-one count) e';
                          count_max = omega arith;
                          below = inr (omega (arith, ((reads count).0 got).1));
                          lapped = tt;
                          none_lost = refl;
                          size_max = ground arith;
                        })
                  | inr more ↦
                      rw (at, got, fixed, fits, more)
                        (rw (add-one count) (
                          rw (add-suc count left) (
                            collect_loop-IsFrame left (suc count) out next (omega arith) reads e'
                              (inr (omega (arith, ((reads count).0 got).1))) (inr (ground arith)))))
                ]
              ]
          | inr (inl waits) ↦ rw (at, waits) (stop none tt)
          | inr (inr (inl gone)) ↦
              absurd (read-ne-lost (loads count).first (loads count).second (cursor + count) gone)
          | inr (inr (inr (seen, lapped))) ↦
              rw (at, lapped) (stop (some seen) ((reads count).1 seen lapped))
        ]
      where
        add-one : (n : ℕ) → n + 1 ≡ suc n
        add-one n = omega arith

        add-suc : (n k : ℕ) → n + suc k ≡ suc n + k
        add-suc n k = omega arith

    -- `collect` gathers the records of the log from the cursor on, one after the other: as many as it
    -- says, no more than `max_records`, and more than `max_bytes` only if it is a single one. Of a
    -- ring without an arena whose reads return the log's records. The sequences do not wrap.
    pub collect-IsFrame :
        (max_records : ℕ) (out : List ℕ)
        → cursor + max_records < 2 ^ 64
        → ReadsLog
        → IsFrame out max_records (collect r loads cursor max_records max_bytes out)
    unfolding collect
    collect-IsFrame max_records out lt reads =
        subst (λ n. IsFrame out n (collect_loop r loads cursor max_bytes max_records 0 out))
          (zero-add max_records)
          (collect_loop-IsFrame max_records 0 out out (omega arith) reads (sym (append-nil out))
            (inl refl) (inl (omega arith)))

take-all : (xs ys : List ℕ) (n : ℕ) → xs ≡ ys → length ys ≡ n → take n xs ≡ ys
take-all xs ys n e len = ap (take n) (e ∙ sym (append-nil ys)) ∙ take-append ys [] n len

module _ (log : ℕ → List ℕ) (width from limit : ℕ) (small : limit < 2 ^ 64)
    (sized : (n : ℕ) → length (log n) ≡ width) where
  -- The frame of a source that gathered `count` records carries them.
  pub frame-Carries :
      (header : List ℕ) (session count cursor : ℕ)
      → length header ≡ frame_header_len
      → session < 256
      → 0 < count
      → count < 2 ^ 16
      → count * width < 2 ^ 32
      → cursor + count ≤ limit
      → Carries log width from limit small sized session
          (data_frame (header ++ records_of log cursor count) session count cursor)
  unfolding data_frame
  frame-Carries header session count cursor sixteen byte pos few short below ours is_data =
      let body = records_of log cursor count in
      let behind : drop frame_header_len (header ++ body) ≡ body =
        drop-append header body frame_header_len sixteen in
      let len : length body ≡ count * width = length-records_of log width sized from count cursor in
      let whole : length (header ++ body) - frame_header_len ≡ count * width =
        omega (arith, length-append header body, sixteen, len) in
      let f : Frame.Frame = record {
        kind = kind_data;
        flags = session;
        count = count % 2 ^ 16;
        len = (length (header ++ body) - frame_header_len) % 2 ^ 32;
        seq = cursor;
      } in
      let t : IsTyped f = record {
        kind_u8 = omega arith;
        flags_u8 = byte;
        count_u16 = omega arith;
        len_u32 = omega arith;
        seq_u64 = omega arith;
      } in
      let front : take frame_header_len (Frame.encode f ++ drop frame_header_len (header ++ body))
          ≡ Frame.encode f =
        take-append (Frame.encode f) (drop frame_header_len (header ++ body)) frame_header_len
          (length-encode f) in
      let back : drop frame_header_len (Frame.encode f ++ drop frame_header_len (header ++ body))
          ≡ body =
        drop-append (Frame.encode f) (drop frame_header_len (header ++ body)) frame_header_len
          (length-encode f)
        ∙ behind in
      let decoded : Frame.decode
            (take frame_header_len (Frame.encode f ++ drop frame_header_len (header ++ body)))
          ≡ f =
        ap Frame.decode (front ∙ sym (append-nil (Frame.encode f))) ∙ decode-encode f [] t in
      let same_count : f.count ≡ count = omega arith in
      rw decoded (record {
        payload =
            take-all _ body f.len back (omega (arith, len, whole))
            ∙ ap (records_of log cursor) (sym same_count);
        some_records = omega (arith, same_count);
        below = omega (arith, same_count);
      })
