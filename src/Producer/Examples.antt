-- ===== src/Producer/Examples.antt =====
-- A lossless producer of src/spmc.rs on a ring of two slots. Its one reader stands at message 1 until
-- moment 4, and at message 3 from then on.
use ringfire.Prelude.{
  ℕ, ◌+◌, ◌%◌, ◌^◌, ◌≤◌, ◌≡◌, refl, inl, arith, true, some, List, [], ◌∷◌, ◌==◌, ltb, if◌then◌else◌,
}
use ringfire.Errors.{err, backpressure_buffer_full}
use ringfire.Slot.{write_slot}
use ringfire.Registry.{ReaderSlot, is_live, min_with, min_cursor_from, min_cursor}
use ringfire.Producer.{
  lossless_backpressure, RingProducer, write_one, publish_progress, refresh_gate, wait_loop,
  wait_for_headroom, gate, push, push_each, push_batch, retry, try_push,
}
use ringfire.Producer.Log.{IsRing}
use ringfire.Producer.Gate.{Follows}
use ringfire.Producer.Lossless.{Guards, Retains, append_all, push_batch-Retains}
use ringfire.Producer.Wait.{push_total, try_push-full, scan_at}

abbrev cursor_at : ℕ → ℕ
cursor_at t = if ltb t 4 then 1 else 3

abbrev readers : ℕ → List ReaderSlot
readers t =
    record { pid = 7; active = 1; cursor_seq = cursor_at t; heartbeat_tsc = 0; name = [] } ∷ []

abbrev fresh : RingProducer ℕ
fresh = record {
  slots = λ i. record { seq = 0; content = 0 };
  write_seq = 0;
  capacity = 2;
  mask = 1;
  seq = 1;
  gate_limit = 0;
  blocked_polls = 0;
  flow_control = lossless_backpressure;
  has_registry = true;
  now = 0;
}

abbrev no_log : ℕ → ℕ
no_log n = 0

fresh-IsRing : IsRing fresh no_log
fresh-IsRing = record {
  log_capacity = 1;
  capacity = refl;
  mask = refl;
  started = omega arith;
  window = λ n pos lt near. absurd (omega arith);
}

follows : Follows readers cursor_at 0 2
unfolding is_live
follows = record {
  present = λ t le. inl (refl, refl);
  forward = λ t u le. ground arith;
  small = λ t. ground arith;
}

fresh-Guards : Guards cursor_at fresh no_log
fresh-Guards = record {
  ring = fresh-IsRing;
  safe = omega arith;
  reaches = omega arith;
  registry = refl;
  lossless = refl;
}

-- After three messages, the last of which waited for the reader: message 1 is overwritten.
three_sent :
    (q : RingProducer ℕ) × (push_batch readers 9 fresh (10 ∷ 20 ∷ 30 ∷ []) ≡ some q)
    × (q.write_seq ≡ 3)
    × (q.now ≡ 5)
    × (q.slots 1 ≡ record { seq = 3; content = 30 })
unfolding push_batch push_each gate wait_for_headroom wait_loop refresh_gate write_one write_slot
    publish_progress min_cursor min_cursor_from min_with is_live
three_sent = (_, refl, refl, refl, refl)

push_batch-Retains_example :
    Retains cursor_at (three_sent.0) (append_all no_log 1 (10 ∷ 20 ∷ 30 ∷ [])) 3
push_batch-Retains_example =
    push_batch-Retains readers 9 10 (20 ∷ 30 ∷ []) fresh no_log follows (omega arith) (omega arith)
      fresh-Guards three_sent.1

one_sent : (q : RingProducer ℕ) × (push readers 9 fresh 10 ≡ some q)
unfolding push gate wait_for_headroom wait_loop refresh_gate write_one write_slot publish_progress
    min_cursor min_cursor_from min_with is_live
one_sent = (_, refl)

-- The producer that holds messages 1 and 2 at moment 0.
abbrev two_held : RingProducer ℕ
two_held = record fresh {
  slots =
      λ i. if i == 0 then record { seq = 2; content = 20 } else record { seq = 1; content = 10 };
  write_seq = 2;
  seq = 3;
  gate_limit = 3;
}

push_total_example :
    (q : RingProducer ℕ) × (push readers 9 two_held 30 ≡ some q) × (q.write_seq ≡ 3) × (q.seq ≡ 4)
unfolding min_cursor min_cursor_from min_with is_live
push_total_example = push_total readers 9 4 two_held 30 (omega arith) (omega arith) (omega arith)

no_room :
    (q : RingProducer ℕ) × (try_push readers (λ t. 0) 9 two_held 30
      ≡ some (err backpressure_buffer_full, q))
unfolding try_push retry refresh_gate min_cursor min_cursor_from min_with is_live
no_room = (_, refl)

try_push-full_example :
    (backpressure_buffer_full ≡ backpressure_buffer_full)
    × (true ≡ true)
    × ((m : ℕ) × (scan_at readers two_held 0 ≡ some m) × ((m + 2) % 2 ^ 64 ≤ 3))
    × (no_room.0.slots ≡ two_held.slots)
    × (no_room.0.seq ≡ 3)
    × (no_room.0.write_seq ≡ 2)
try_push-full_example =
    try_push-full readers (λ t. 0) 9 two_held no_room.0 30 backpressure_buffer_full (omega arith)
      no_room.1
