-- ===== src/Blackboard/Examples.antt =====
-- A slot of src/blackboard.rs whose first writer dies in its write, and a table of two keys.
use ringfire.Prelude.{
  ℕ, zero, suc, ◌*◌, ◌+◌, ◌≡◌, refl, inl, inr, arith, true, false, update, none, some, List, [],
  ◌∷◌, leb, if◌then◌else◌,
}
use ringfire.Errors.{ok, err, key_out_of_range}
use ringfire.Blackboard.{Blackboard, Attempt, write_mark, new_table, create, attach, write, read}
use ringfire.Blackboard.Protocol.{
  at_rest, copying, none_copied, SlotState, mark, copy, store, IsHistory,
}
use ringfire.Blackboard.Torn.{Reads, read-Reads}
use ringfire.Blackboard.Table.{Written, write-Written, create-attach, quiet}

-- Version `n` has the word `10 * n`.
abbrev tenfold : ℕ → ℕ → ℕ
tenfold n j = 10 * n

-- The writer marks and dies; the next one marks, copies and stores version 4.
abbrev recovered : ℕ → SlotState ℕ
recovered zero = record { seqlock = 0; words = λ j. 0; phase = at_rest }
recovered (suc zero) = record {
  seqlock = write_mark 0;
  words = λ j. 0;
  phase = copying none_copied;
}
recovered (suc (suc zero)) = record {
  seqlock = write_mark (write_mark 0);
  words = λ j. 0;
  phase = copying none_copied;
}
recovered (suc (suc (suc zero))) = record {
  seqlock = write_mark (write_mark 0);
  words = update (λ j. 0) 0 (tenfold (write_mark (write_mark 0) + 1) 0);
  phase = copying (update none_copied 0 true);
}
recovered (suc (suc (suc (suc t)))) = record {
  seqlock = write_mark (write_mark 0) + 1;
  words = update (λ j. 0) 0 (tenfold (write_mark (write_mark 0) + 1) 0);
  phase = at_rest;
}

version_four : (recovered 4).seqlock ≡ 4
unfolding write_mark
version_four = refl

recovered-IsHistory : IsHistory 1 tenfold recovered
unfolding write_mark
recovered-IsHistory zero = inl (mark (omega arith))
recovered-IsHistory (suc zero) = inl (mark (omega arith))
recovered-IsHistory (suc (suc zero)) = inl (copy 0 none_copied refl)
recovered-IsHistory (suc (suc (suc zero))) =
    inl (store (update none_copied 0 true) refl (λ j lt. ground arith))
recovered-IsHistory (suc (suc (suc (suc t)))) = inr refl

abbrev table : Blackboard (ℕ → ℕ)
table = new_table (λ i j. 0) 8 64 2

-- The first round finds the write in progress, the second the new version.
abbrev rounds : List (Attempt (ℕ → ℕ))
rounds =
    record {
      first = (recovered 1).seqlock;
      copied = (recovered 1).words;
      second = (recovered 2).seqlock;
      stalled = false;
    }
    ∷ record {
      first = (recovered 4).seqlock;
      copied = (recovered 5).words;
      second = (recovered 6).seqlock;
      stalled = false;
    }
    ∷ []

read-Reads_example : Reads 1 tenfold recovered 1 (read table 1 rounds)
read-Reads_example =
    read-Reads 1 tenfold recovered recovered-IsHistory (refl, λ j pos lt. absurd (omega arith))
      table 1 rounds (omega arith)
      (
        record {
          start = 1;
          end = 2;
          at = λ j. 1;
          first = refl;
          copied = λ j lt. refl;
          second = refl;
          order = λ j. (omega arith, omega arith);
        },
        (
          record {
            start = 4;
            end = 6;
            at = λ j. 5;
            first = refl;
            copied = λ j lt. refl;
            second = refl;
            order = λ j. (omega arith, omega arith);
          },
          tt,
        ),
      )

write-Written_example : Written table 1 (λ j. 7) (write table 1 (λ j. 7))
write-Written_example = write-Written table 1 (λ j. 7) (omega arith) (omega arith)

create-attach_example :
    (b : Blackboard (ℕ → ℕ)) × (len : ℕ) × (create (λ i j. 0) 8 64 2 ≡ ok (b, len))
    × (attach b.header len 8 64 ≡ ok 2)
    × (b.slot_count ≡ 2)
    × ((i : ℕ)
        → read b i (quiet (b.slots i) ∷ [])
          ≡ (if leb 2 i then some (err (key_out_of_range i 2)) else some (ok none)))
create-attach_example =
    create-attach (λ i j. 0) 8 64 2 (omega arith) (omega arith) (omega arith) (omega arith)
