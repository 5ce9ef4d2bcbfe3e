-- ===== src/Wait/Examples.antt =====
-- Consumers of src/wait.rs that wait for message 5.
use ringfire.Prelude.{ℕ, ◌≡◌, refl, arith}
use ringfire.Wait.{
  spin_loop, yield_now, wait_backoff, YieldBackoff, Shared, resting, asleep, leaving, WaitSteps,
  done, by_sleeper, by_waker, loads, joins, misses, sleeps, publish, WakerSteps, publishes, moved,
  registers, rechecked, loaded,
}
use ringfire.Wait.Wakes.{WaitSteps-wakes}

abbrev two_spins : YieldBackoff
two_spins = record { spins = 0; max_spins = 2 }

spins_first : (wait_backoff (wait_backoff two_spins).1).0 ≡ spin_loop
unfolding wait_backoff
spins_first = refl

then_yields : (wait_backoff (wait_backoff (wait_backoff two_spins).1).1).0 ≡ yield_now
unfolding wait_backoff
then_yields = refl

abbrev waits_for : ℕ → ℕ
waits_for c = 5

-- Consumer 1 falls asleep, and the producer publishes message 5.
abbrev late : Shared
late =
    publishes 5
      (moved 1 asleep (moved 1 (rechecked 0) (registers 1 0 (moved 1 (loaded 0) (resting 4 0)))))

late-WaitSteps : WaitSteps 2 waits_for (resting 4 0) late
late-WaitSteps =
    by_waker
      (by_sleeper
        (by_sleeper
          (by_sleeper (by_sleeper done (loads 1 (omega arith) refl)) (joins 1 0 (omega arith) refl))
          (misses 1 0 (omega arith) refl (omega arith)))
        (sleeps 1 0 (omega arith) refl refl))
      (publish 5 refl (omega arith))

WaitSteps-wakes_example : (u : Shared) × WakerSteps late u × (u.sleepers 1 ≡ leaving)
WaitSteps-wakes_example =
    WaitSteps-wakes 2 waits_for 4 0 1 late-WaitSteps (omega arith) refl (omega arith)
