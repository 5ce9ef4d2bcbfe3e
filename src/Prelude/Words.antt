-- ===== src/Prelude/Words.antt =====
-- Machine words as native numbers. Every `+`, `-` and `*` of the source on `u64`, `usize` (64 bits)
-- and `u32` wraps, as in a release build; `saturating_sub` is the truncated `-` of ℕ.
use Prim.Native.Nat.{ℕ, ◌+◌, ◌-◌, ◌*◌, ◌%◌, ◌^◌, ◌≤◌, ◌<◌}
use mathlib.Core.Path.{◌≡◌}
use mathlib.Core.Option.{Option, none, some}
use native.Mathlib.Omega.{arith}
use ringfire.Prelude.Tests.{ltb, if◌then◌else◌}

abbrev pub u64_max : ℕ
u64_max = 2 ^ 64 - 1

abbrev pub u32_max : ℕ
u32_max = 2 ^ 32 - 1

abbrev pub add_u64 : ℕ → ℕ → ℕ
add_u64 a b = (a + b) % 2 ^ 64

abbrev pub sub_u64 : ℕ → ℕ → ℕ
sub_u64 a b = (a + 2 ^ 64 - b) % 2 ^ 64

abbrev pub mul_u64 : ℕ → ℕ → ℕ
mul_u64 a b = a * b % 2 ^ 64

abbrev pub add_u32 : ℕ → ℕ → ℕ
add_u32 a b = (a + b) % 2 ^ 32

abbrev pub sub_u32 : ℕ → ℕ → ℕ
sub_u32 a b = (a + 2 ^ 32 - b) % 2 ^ 32

-- `checked_add` and `checked_mul`.
abbrev pub checked_add : ℕ → ℕ → Option ℕ
checked_add a b = if ltb (a + b) (2 ^ 64) then some (a + b) else none

abbrev pub checked_mul : ℕ → ℕ → Option ℕ
checked_mul a b = if ltb (a * b) (2 ^ 64) then some (a * b) else none

pub add_u64-eq : (a b : ℕ) → a + b < 2 ^ 64 → add_u64 a b ≡ a + b
add_u64-eq a b h = omega arith

pub sub_u64-eq : (a b : ℕ) → b ≤ a → a < 2 ^ 64 → sub_u64 a b ≡ a - b
sub_u64-eq a b h k = omega arith
