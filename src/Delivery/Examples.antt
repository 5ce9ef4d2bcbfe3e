-- ===== src/Delivery/Examples.antt =====
-- A ring of four slots: six messages are pushed in one batch, and a consumer at message 1 then reads.
use ringfire.Prelude.{ℕ, ◌≡◌, refl, arith, false, some, none, [], ◌∷◌}
use ringfire.Producer.{RingProducer, lossy_latest_wins, push_batch}
use ringfire.Producer.Lossy.{IsClean}
use ringfire.Window.{oldest_retained}
use ringfire.Consumer.{RingConsumer, recv_batch}
use ringfire.Consumer.Rest.{still}
use ringfire.Delivery.{snapshot_of, Reads, recv_batch-push_batch}

abbrev empty_ring : RingProducer ℕ
empty_ring = record {
  slots = λ i. record { seq = 0; content = 0 };
  write_seq = 0;
  capacity = 4;
  mask = 3;
  seq = 1;
  gate_limit = 0;
  blocked_polls = 0;
  flow_control = lossy_latest_wins;
  has_registry = false;
  now = 0;
}

abbrev nothing_yet : ℕ → ℕ
nothing_yet n = 0

empty_ring-IsClean : IsClean empty_ring nothing_yet
empty_ring-IsClean = record {
  ring = record {
    log_capacity = 2;
    capacity = refl;
    mask = refl;
    started = omega arith;
    window = λ n pos lt near. absurd (omega arith);
  };
  untouched = λ i le lt. refl;
  first = λ le. refl;
}

abbrev late_reader : RingConsumer
late_reader = record {
  capacity = 4;
  mask = 3;
  cursor = 1;
  lapped_total = 0;
  multi_producer = false;
  sparse = false;
  empty_polls = 0;
  registration = none;
  now = 0;
}

late_reader-Reads : Reads empty_ring 6 late_reader
late_reader-Reads = record {
  capacity = refl;
  mask = refl;
  started = omega arith;
  behind = omega arith;
  single = refl;
  dense = refl;
}

-- Messages 1 and 2 are gone.
recv_batch-push_batch_example :
    (q : RingProducer ℕ) × (d : RingConsumer) × (push_batch
        (λ t. [])
        0
        empty_ring
        (10 ∷ 20 ∷ 30 ∷ 40 ∷ 50 ∷ 60 ∷ [])
      ≡ some q)
    × (recv_batch (still (snapshot_of q)) 2 8 late_reader ≡ some (30 ∷ 40 ∷ 50 ∷ 60 ∷ [], d))
unfolding oldest_retained
recv_batch-push_batch_example =
    recv_batch-push_batch (λ t. []) 0 10 (20 ∷ 30 ∷ 40 ∷ 50 ∷ 60 ∷ []) empty_ring nothing_yet
      late_reader 0 8 4 refl (omega arith) empty_ring-IsClean late_reader-Reads refl
