-- ===== src/Wait.antt =====
-- src/wait.rs: the strategies with which a consumer waits, and the words of the header that `FutexWait` shares with
-- the producer, one access at a time. The barriers make these accesses sequentially consistent. A call of `wait`
-- starts when `write_seq` was loaded for its fast check.
pub mod Wakes
mod Examples
use ringfire.Prelude.{
  ℕ, ◌+◌, ◌-◌, ◌<◌, ◌≤◌, ◌≡◌, Bool, true, false, Option, none, some, ltb, if◌then◌else◌, update,
}

pub record YieldBackoff : Type 0 where
  pub spins : ℕ
  pub max_spins : ℕ

-- What a call of `wait` does with the thread before it returns.
pub data Pause : Type 0 where
  spin_loop : Pause
  yield_now : Pause
  futex : Pause

unfoldable pub wait_backoff : YieldBackoff → Pause × YieldBackoff
wait_backoff b =
    if ltb b.spins b.max_spins
    then (spin_loop, record b { spins = b.spins + 1 })
    else (yield_now, b)

unfoldable pub reset_backoff : YieldBackoff → YieldBackoff
reset_backoff b = record b { spins = 0 }

-- `timeout` is in milliseconds.
pub record FutexWait : Type 0 where
  pub spins : ℕ
  pub spin_limit : ℕ
  pub timeout : Option ℕ

abbrev pub safety_timeout : ℕ
safety_timeout = 10

-- Up to the part that the step relation below is about.
unfoldable pub wait_futex : FutexWait → Pause × FutexWait
wait_futex f =
    if ltb f.spins f.spin_limit then (spin_loop, record f { spins = f.spins + 1 }) else (futex, f)

unfoldable pub reset_futex : FutexWait → FutexWait
reset_futex f = record f { spins = 0 }

-- The bound of one sleep.
unfoldable pub sleep_limit : FutexWait → ℕ
sleep_limit f = elim f.timeout [ none ↦ safety_timeout | some t ↦ t ]

-- Where a consumer stands in `FutexWait::wait`, each phase named for the access that was the last.
pub data Sleeper : Type 0 where
  awake : Sleeper
  loaded : (futex_val : ℕ) → Sleeper
  registered : (futex_val : ℕ) → Sleeper
  rechecked : (futex_val : ℕ) → Sleeper
  asleep : Sleeper
  leaving : Sleeper

-- Where the producer stands in its publish and `wake_futex`.
pub data Waker : Type 0 where
  idle : Waker
  published : Waker
  noticed : Waker
  bumped : Waker

pub record Shared : Type 0 where
  pub write_seq : ℕ
  pub futex_word : ℕ
  pub waiting_consumers : ℕ
  pub producer : Waker
  pub sleepers : ℕ → Sleeper

-- Nobody waits or publishes.
abbrev pub resting : (write_seq futex_word : ℕ) → Shared
resting write_seq futex_word = record {
  write_seq = write_seq;
  futex_word = futex_word;
  waiting_consumers = 0;
  producer = idle;
  sleepers = λ c. awake;
}

-- The kernel's part of `FUTEX_WAKE`.
abbrev pub woken : Sleeper → Sleeper
woken asleep = leaving
woken p = p

abbrev pub moved : ℕ → Sleeper → Shared → Shared
moved c p s = record s { sleepers = update s.sleepers c p }

abbrev pub registers : ℕ → ℕ → Shared → Shared
registers c val s = record (moved c (registered val) s) {
  waiting_consumers = s.waiting_consumers + 1;
}

abbrev pub leaves : ℕ → Shared → Shared
leaves c s = record (moved c awake s) { waiting_consumers = s.waiting_consumers - 1 }

abbrev pub publishes : (seq : ℕ) → Shared → Shared
publishes seq s = record s { write_seq = seq; producer = published }

abbrev pub bumps : Shared → Shared
bumps s = record s { futex_word = s.futex_word + 1; producer = bumped }

abbrev pub wakes_all : Shared → Shared
wakes_all s = record s { sleepers = λ c. woken (s.sleepers c); producer = idle }

-- One access of consumer `c` of the first `n`, whose cursor is `cursor c`.
pub data SleeperStep (n : ℕ) (cursor : ℕ → ℕ) (s : Shared) : Shared → Type 0 where
  loads :
      (c : ℕ)
      → c < n
      → s.sleepers c ≡ awake
      → SleeperStep n cursor s (moved c (loaded s.futex_word) s)
  joins :
      (c val : ℕ) → c < n → s.sleepers c ≡ loaded val → SleeperStep n cursor s (registers c val s)
  finds :
      (c val : ℕ)
      → c < n
      → s.sleepers c ≡ registered val
      → cursor c ≤ s.write_seq
      → SleeperStep n cursor s (moved c leaving s)
  misses :
      (c val : ℕ)
      → c < n
      → s.sleepers c ≡ registered val
      → s.write_seq < cursor c
      → SleeperStep n cursor s (moved c (rechecked val) s)
  sleeps :
      (c val : ℕ)
      → c < n
      → s.sleepers c ≡ rechecked val
      → s.futex_word ≡ val
      → SleeperStep n cursor s (moved c asleep s)
  refused :
      (c val : ℕ)
      → c < n
      → s.sleepers c ≡ rechecked val
      → SleeperStep n cursor s (moved c leaving s)
  times_out : (c : ℕ) → c < n → s.sleepers c ≡ asleep → SleeperStep n cursor s (moved c leaving s)
  returns : (c : ℕ) → c < n → s.sleepers c ≡ leaving → SleeperStep n cursor s (leaves c s)

-- One access of the producer. The futex word does not wrap within one call of `wait`.
pub data WakerStep (s : Shared) : Shared → Type 0 where
  publish : (seq : ℕ) → s.producer ≡ idle → s.write_seq ≤ seq → WakerStep s (publishes seq s)
  none_waits :
      s.producer ≡ published → s.waiting_consumers ≡ 0 → WakerStep s (record s { producer = idle })
  notices :
      s.producer ≡ published
      → 0 < s.waiting_consumers
      → WakerStep s (record s { producer = noticed })
  bump : s.producer ≡ noticed → WakerStep s (bumps s)
  wake : s.producer ≡ bumped → WakerStep s (wakes_all s)

pub data WaitSteps (n : ℕ) (cursor : ℕ → ℕ) (s : Shared) : Shared → Type 0 where
  done : WaitSteps n cursor s s
  by_sleeper :
      {t u : Shared} → WaitSteps n cursor s t → SleeperStep n cursor t u → WaitSteps n cursor s u
  by_waker : {t u : Shared} → WaitSteps n cursor s t → WakerStep t u → WaitSteps n cursor s u

pub data WakerSteps (s : Shared) : Shared → Type 0 where
  rests : WakerSteps s s
  goes_on : {t u : Shared} → WakerSteps s t → WakerStep t u → WakerSteps s u
