-- ===== src/Multiplexer/Examples.antt =====
-- Three channels of src/multiplexer.rs, the first of which is full.
use ringfire.Prelude.{
  ℕ, ◌≡◌, refl, ◌==◌, if◌then◌else◌, Option, none, some, List, [], ◌∷◌, Any, arith,
}
use ringfire.Multiplexer.{
  RingMultiplexer, poll_in_order, poll_from, try_recv_any, try_recv_priority, recv_batch_any,
}
use ringfire.Multiplexer.Fair.{recv_batch_any-serves}

-- A channel as the messages that wait in it.
abbrev take_first : List ℕ → Option ℕ × List ℕ
take_first [] = (none, [])
take_first (x ∷ xs) = (some x, xs)

abbrev three_channels : RingMultiplexer (List ℕ)
three_channels = record {
  consumers = λ i. if i == 0 then 1 ∷ 2 ∷ 3 ∷ 4 ∷ [] else if i == 2 then 9 ∷ [] else [];
  len = 3;
  names = [];
  next_idx = 0;
}

in_turns : (recv_batch_any take_first 4 three_channels).0 ≡ (0, 1) ∷ (2, 9) ∷ (0, 2) ∷ (0, 3) ∷ []
unfolding recv_batch_any try_recv_any poll_from
in_turns = refl

first_first : (try_recv_priority take_first three_channels).0 ≡ some (0, 1)
unfolding try_recv_priority poll_in_order
first_first = refl

recv_batch_any-serves_example : Any (λ x. x.0 ≡ 2) (recv_batch_any take_first 3 three_channels).0
recv_batch_any-serves_example =
    recv_batch_any-serves take_first 3 three_channels 2 (omega arith) (omega arith) (omega arith)
      (9, refl)
