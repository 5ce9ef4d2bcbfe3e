-- ===== src/Prelude/Modulus.antt =====
-- Remainders by a ring's capacity.
use Prim.Native.Nat.{ℕ, zero, suc, ◌+◌, ◌-◌, ◌*◌, ◌/◌, ◌%◌, ◌^◌, ◌≤◌, ◌<◌}
use mathlib.Core.Path.{◌≡◌, ap, ◌∙◌}
use mathlib.Core.Logic.{◌≢◌}
use native.Mathlib.Nat.{div-add-mod, mul_assoc, mul-mod_left, pow-suc}
use native.Mathlib.Decide.{dec_lt}
use native.Mathlib.Omega.{arith}

mul_mono : (c a b : ℕ) → a ≤ b → c * a ≤ c * b
mul_mono c a b h = grind arith

-- Two sequences less than one capacity apart have different slots.
pub mod-ne : (n s c : ℕ) → n < s → s < n + c → n % c ≢ s % c
mod-ne n s c lt near same = elim (dec_lt (n / c) (s / c)) [
  | yes up ↦ omega (arith, div-add-mod n c, div-add-mod s c, mul_mono c (suc (n / c)) (s / c) up)
  | no not_up ↦
      omega (arith, div-add-mod n c, div-add-mod s c, mul_mono c (s / c) (n / c) (omega arith))
]

-- Within one lap the remainder follows.
pub mod-add : (a i c : ℕ) → a % c + i < c → (a + i) % c ≡ a % c + i
mod-add a i c h = grind arith

multiple_eq : (c : ℕ) → c % 64 ≡ 0 → c ≡ 64 * (c / 64)
multiple_eq c k = omega (arith, div-add-mod c 64)

-- A multiple of 64 stays one under a modulus that is one.
pub mod-mod_64 : (a c : ℕ) → a % 64 ≡ 0 → c % 64 ≡ 0 → a % c % 64 ≡ 0
mod-mod_64 a c h k = omega (
  arith,
  div-add-mod a c,
  mul_assoc 64 (c / 64) (a / c),
  ap (λ (t : ℕ). t * (a / c)) (multiple_eq c k),
)

pub two_pow-mod_64 : (k : ℕ) → 64 ≤ 2 ^ k → 2 ^ k % 64 ≡ 0
two_pow-mod_64 zero h = absurd (omega arith)
two_pow-mod_64 (suc zero) h = absurd (omega arith)
two_pow-mod_64 (suc (suc zero)) h = absurd (omega arith)
two_pow-mod_64 (suc (suc (suc zero))) h = absurd (omega arith)
two_pow-mod_64 (suc (suc (suc (suc zero)))) h = absurd (omega arith)
two_pow-mod_64 (suc (suc (suc (suc (suc zero))))) h = absurd (omega arith)
two_pow-mod_64 (suc (suc (suc (suc (suc (suc k)))))) h = omega (
  arith,
  pow-suc 2 (suc (suc (suc (suc (suc k))))),
  pow-suc 2 (suc (suc (suc (suc k)))),
  pow-suc 2 (suc (suc (suc k))),
  pow-suc 2 (suc (suc k)),
  pow-suc 2 (suc k),
  pow-suc 2 k,
)

-- The next multiple of a capacity.
pub mod-next : (a c : ℕ) → 0 < c → (a + c - a % c) % c ≡ 0
mod-next a c h =
    let eq : a + c - a % c ≡ suc (a / c) * c = grind (arith, div-add-mod a c) in
    ap (λ (t : ℕ). t % c) eq ∙ mul-mod_left (suc (a / c)) c
