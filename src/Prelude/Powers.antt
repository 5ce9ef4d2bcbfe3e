-- ===== src/Prelude/Powers.antt =====
-- `is_power_of_two`, `next_multiple_of` and `is_multiple_of` of Rust's integers.
use Prim.Native.Nat.{ℕ, zero, suc, ◌+◌, ◌-◌, ◌%◌, ◌^◌, ◌≤◌, ◌<◌}
use mathlib.Core.Path.{◌≡◌, ap, ◌∙◌}
use mathlib.Core.Logic.{inl, inr}
use mathlib.Core.Bool.{Bool, true, false, ◌||◌}
use native.Mathlib.Nat.{mod-lt}
use native.Mathlib.Decide.{dec_le}
use native.Mathlib.Omega.{arith}
use ringfire.Prelude.Tests.{◌==◌, if◌then◌else◌, Bool-cases, ==_iff}
use ringfire.Prelude.Modulus.{mod-next}
use ringfire.Prelude.Words.{add_u64}

-- Whether `n` is one of `2^0 … 2^(k-1)`.
unfoldable pub is_power_below : ℕ → ℕ → Bool
is_power_below zero n = false
is_power_below (suc k) n = n == 2 ^ k || is_power_below k n

unfoldable pub is_power_of_two : ℕ → Bool
unfolding is_power_below
is_power_of_two n = is_power_below 64 n

is_power_below_sound : (k n : ℕ) → is_power_below k n ≡ true → (e : ℕ) × (e < k) × (n ≡ 2 ^ e)
unfolding is_power_below
is_power_below_sound zero n h = absurd (ground arith)
is_power_below_sound (suc k) n h = elim (Bool-cases (n == 2 ^ k)) [
  | inl same ↦ (k, omega arith, (==_iff n (2 ^ k)).0 same)
  | inr other ↦ let (e, lt, eq) = is_power_below_sound k n (ground arith) in (e, omega arith, eq)
]

is_power_below_complete : (k e : ℕ) → e < k → is_power_below k (2 ^ e) ≡ true
unfolding is_power_below
is_power_below_complete zero e h = absurd (omega arith)
is_power_below_complete (suc k) e h = elim (Bool-cases (e == k)) [
  | inl same ↦ ground (arith, ap (λ (t : ℕ). 2 ^ t) ((==_iff e k).0 same))
  | inr other ↦ ground (arith, is_power_below_complete k e (ground arith))
]

pub is_power_of_two_sound : (n : ℕ) → is_power_of_two n ≡ true → (e : ℕ) × (e < 64) × (n ≡ 2 ^ e)
unfolding is_power_of_two
is_power_of_two_sound n h = is_power_below_sound 64 n h

pub is_power_of_two_complete : (e : ℕ) → e < 64 → is_power_of_two (2 ^ e) ≡ true
unfolding is_power_of_two
is_power_of_two_complete e h = is_power_below_complete 64 e h

abbrev pub is_multiple_of : ℕ → ℕ → Bool
is_multiple_of n m = n % m == 0

-- `next_multiple_of`; the code's divisors are not zero.
pub next_multiple_of : ℕ → ℕ → ℕ
next_multiple_of n m = if n % m == 0 then n else add_u64 n (m - n % m)

pub next_multiple_of_lem :
    (n m : ℕ)
    → 0 < m
    → n + m < 2 ^ 64
    → (next_multiple_of n m % m ≡ 0) × (n ≤ next_multiple_of n m) × (next_multiple_of n m < n + m)
unfolding next_multiple_of
next_multiple_of_lem n m pos lt =
    let up = mod-next n m pos in
    let small = mod-lt n pos in
    let eq : add_u64 n (m - n % m) ≡ n + m - n % m = omega (arith, small) in
    let up' : add_u64 n (m - n % m) % m ≡ 0 = ap (λ (t : ℕ). t % m) eq ∙ up in
    elim (dec_le (n % m) 0) [ yes none ↦ ground arith | no some ↦ ground arith ]
