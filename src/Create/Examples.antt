-- ===== src/Create/Examples.antt =====
-- A lossless ring of 8 slots of 16 bytes.
use ringfire.Prelude.{ℕ, ◌≡◌, refl, arith}
use ringfire.Producer.{RingProducer, lossless_backpressure}
use ringfire.Create.{RingProducerBuilder, Region, max_readers_of}
use ringfire.Create.Accepted.{Sized, Creates, create_with_options-accepted}

abbrev options : RingProducerBuilder
options = record { capacity = 8; flow_control = lossless_backpressure; max_readers = 0 }

default_readers : max_readers_of options ≡ 32
unfolding max_readers_of
default_readers = refl

options-Sized : Sized options 16 8
unfolding max_readers_of
options-Sized = record {
  exponent = 3;
  exponent_max = omega arith;
  capacity = refl;
  size_min = omega arith;
  size_max = omega arith;
  align_exponent = 3;
  align = refl;
  readers = omega arith;
  total = omega arith;
}

create_with_options-accepted_example :
    (r : Region ℕ) × (p : RingProducer ℕ) × Creates options 16 8 5 options-Sized
      (λ i. 0)
      (λ n. 0)
      r
      p
create_with_options-accepted_example =
    create_with_options-accepted options 16 8 5 options-Sized (λ i. 0) (λ n. 0)
