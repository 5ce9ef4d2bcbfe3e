-- ===== src/Mpmc/Examples.antt =====
-- Two workers of src/mpmc.rs on a small queue.
use ringfire.Prelude.{ℕ, ◌+◌, ◌*◌, ◌≡◌, false, none, refl, arith, [], ◌∷◌}
use ringfire.Errors.{ok}
use ringfire.Mpmc.Create.{MpmcRegion, MpmcProducer, create, attach_producer, attach_consumer}
use ringfire.Mpmc.Accepted.{Sized, create-attach_producer}
use ringfire.Mpmc.Push
use ringfire.Mpmc.Push.{
  Shared, unclaimed, none_copied, claimed, marked, copied, look, PushSteps, claims, swaps, copies,
}
use ringfire.Mpmc.Exclusive.{IsExclusive, PushSteps-IsExclusive}
use ringfire.Mpmc.{next_move}
use ringfire.Mpmc.Queue.{
  Queue, Steps, claim, took, skipped_to, done, then_step, IsFair, Steps-IsFair,
}

abbrev new_queue : Queue
new_queue = record { read_seq = 1; claim_seq = 1; taken = []; skipped = 0 }

new_queue-IsFair : IsFair new_queue
new_queue-IsFair = record { behind = omega arith; below = tt; distinct = tt; accounts = refl }

-- Five messages in a ring of two: a worker skips to ticket 4 and takes it, another takes ticket 5.
abbrev busy_queue : Queue
busy_queue = record { read_seq = 6; claim_seq = 6; taken = 5 ∷ 4 ∷ []; skipped = 3 }

busy_queue-Steps : Steps 2 new_queue busy_queue
unfolding next_move
busy_queue-Steps =
    then_step
      (then_step
        (then_step
          (then_step (then_step (then_step (then_step (then_step done claim) claim) claim) claim)
            claim)
          (skipped_to 6 4 (omega arith) refl))
        (took 6 (omega arith) refl))
      (took 6 (omega arith) refl)

Steps-IsFair_example : IsFair busy_queue
Steps-IsFair_example = Steps-IsFair busy_queue-Steps new_queue-IsFair

-- A ring of two slots of 24 bytes.
small-Sized : Sized 2 24 8
small-Sized = record {
  exponent = 1;
  exponent_max = omega arith;
  capacity_eq = refl;
  size_min = omega arith;
  size_max = omega arith;
  align_exponent = 3;
  align = refl;
  total = omega arith;
}

create-attach_producer_example :
    (r : MpmcRegion ℕ) × (p : MpmcProducer) × (create (λ i. i) 2 24 8 99 ≡ ok (r, p))
    × (attach_producer r 24 8 99 "Tick" ≡ ok p)
    × (attach_consumer r 24 8 99 "Tick"
        ≡ ok (record { capacity = p.capacity; pending = none; dropped = 0 }))
create-attach_producer_example = create-attach_producer 2 24 8 99 small-Sized (λ i. i) "Tick"

-- Payloads of two words: word `j` of message `n` is `10 * n + j`.
abbrev words_of : ℕ → ℕ → ℕ
words_of n j = 10 * n + j

abbrev new_shared : Shared ℕ
new_shared = record {
  claim_seq = 1;
  write_seq = 0;
  cells = λ i. record { seq = 0; words = λ j. 0 };
  pushes = λ n. unclaimed;
}

new_shared-IsExclusive : IsExclusive 2 1 2 words_of new_shared
new_shared-IsExclusive = record {
  bounded = λ q stalled e. cc;
  marks = λ q c e. cc;
  one = λ q q' c c' i e e'. cc;
  written = λ q c j e has. cc;
  whole = λ i j some_seq idle lt. absurd (some_seq refl);
}

-- Two producers claim sequences; the one of message 2 wins its slot and writes a word before the other.
abbrev two_claimed : Shared ℕ
two_claimed = claimed (claimed new_shared)

abbrev second_writes : Shared ℕ
second_writes = copied 2 1 2 words_of 2 none_copied 1 (marked 2 1 2 words_of 2 two_claimed)

abbrev both_write : Shared ℕ
both_write = marked 2 1 2 words_of 1 second_writes

both_write-PushSteps : PushSteps 2 1 2 words_of new_shared both_write
unfolding look
both_write-PushSteps =
    Push.then_step
      (Push.then_step
        (Push.then_step
          (Push.then_step (Push.then_step Push.done (claims (omega arith))) (claims (omega arith)))
          (swaps 2 0 false refl refl refl))
        (copies 2 none_copied 1 refl))
      (swaps 1 0 false refl refl refl)

PushSteps-IsExclusive_example : IsExclusive 2 1 2 words_of both_write
PushSteps-IsExclusive_example =
    PushSteps-IsExclusive 2 1 2 words_of both_write-PushSteps new_shared-IsExclusive
