-- ===== src/Prelude/Bits.antt =====
-- `x & (2^k - 1)` is the remainder by `2^k`, at every width; and single-bit tests.
use Prim.Native.Nat.{
  ℕ, zero, suc, ◌+◌, ◌-◌, ◌*◌, ◌/◌, ◌%◌, ◌^◌, ◌≤◌, ◌<◌, min, max, bit_and, bit_or, digits,
  bit_and-bitwise, bit_or-bitwise,
}
use mathlib.Core.Path.{◌≡◌, refl, ap, sym, ◌∙◌}
use native.Mathlib.Nat.{pow-suc, one-le-pow}
use native.Mathlib.Omega.{arith}

-- The digit recursion that the native operations stand for gives the same on any fuel that is enough.
module _ (last : ℕ → ℕ) (digit : ℕ → ℕ → ℕ) where
  run_dry : (s y : ℕ) → digits last digit s 0 y ≡ last y
  run_dry zero y = refl
  run_dry (suc s) y = refl

  digits-enough : (x y s t : ℕ) → x ≤ s → x ≤ t → digits last digit s x y ≡ digits last digit t x y
  digits-enough zero y s t le le' = run_dry s y ∙ sym (run_dry t y)
  digits-enough (suc x) y zero t le le' = absurd (omega arith)
  digits-enough (suc x) y (suc s) zero le le' = absurd (omega arith)
  digits-enough (suc x) y (suc s) (suc t) le le' =
      let half = suc x / 2 in
      ap (λ (v : ℕ). v * 2 + digit (suc x % 2) (y % 2))
        (digits-enough half (y / 2) s t (omega arith) (omega arith))

-- The lowest digits, and the rest.
bit_and_step : (a b : ℕ) → bit_and a b ≡ bit_and (a / 2) (b / 2) * 2 + min (a % 2) (b % 2)
bit_and_step zero b = omega (arith, bit_and-bitwise 0 b, bit_and-bitwise 0 (b / 2))
bit_and_step (suc a) b =
    let half = suc a / 2 in
    let same = digits-enough (λ b. zero) min half (b / 2) a half (omega arith) (omega arith) in
    omega (arith, same, bit_and-bitwise half (b / 2), bit_and-bitwise (suc a) b)

bit_or_step : (a b : ℕ) → bit_or a b ≡ bit_or (a / 2) (b / 2) * 2 + max (a % 2) (b % 2)
bit_or_step zero b = omega (arith, bit_or-bitwise 0 b, bit_or-bitwise 0 (b / 2))
bit_or_step (suc a) b =
    let half = suc a / 2 in
    let same = digits-enough (λ b. b) max half (b / 2) a half (omega arith) (omega arith) in
    omega (arith, same, bit_or-bitwise half (b / 2), bit_or-bitwise (suc a) b)

-- With no digit on the right, by halving.
zero_right : (n a : ℕ) → a ≤ n → (bit_and a 0 ≡ 0) × (bit_or a 0 ≡ a)
zero_right n zero h = (refl, refl)
zero_right zero (suc a) h = absurd (omega arith)
zero_right (suc n) (suc a) h =
    let ih = zero_right n (suc a / 2) (omega arith) in
    (omega (arith, ih, bit_and_step (suc a) 0), omega (arith, ih, bit_or_step (suc a) 0))

double_row : (q k : ℕ) → q * 2 ^ suc k ≡ 2 * (q * 2 ^ k)
double_row q k = omega (arith, ap (λ (t : ℕ). q * t) (pow-suc 2 k))

-- A number split in rows of `2 ^ k` loses its row under the mask.
bit_and-row : (k q r : ℕ) → r < 2 ^ k → bit_and (q * 2 ^ k + r) (2 ^ k - 1) ≡ r
bit_and-row zero q r h = omega (arith, (zero_right (q * 2 ^ 0 + r) (q * 2 ^ 0 + r) (omega arith)).0)
bit_and-row (suc k) q r h = ground (
  arith,
  pow-suc 2 k,
  one-le-pow k 2,
  double_row q k,
  bit_and_step (q * 2 ^ suc k + r) (2 ^ suc k - 1),
  bit_and-row k q (r / 2) (omega (arith, pow-suc 2 k)),
)

pub bit_and-mask : (k a : ℕ) → bit_and a (2 ^ k - 1) ≡ a % 2 ^ k
bit_and-mask k a = ground (arith, one-le-pow k 2, bit_and-row k (a / 2 ^ k) (a % 2 ^ k))

-- The mask of a power of two takes the remainder by it.
pub bit_and-eq-mod :
    (k c m : ℕ) (a : ℕ) → c ≡ 2 ^ k → m + 1 ≡ c → (bit_and a m ≡ a % c) × (bit_and a m < c)
bit_and-eq-mod k c m a e f =
    let m' : m ≡ 2 ^ k - 1 = omega arith in
    let b : bit_and a m ≡ a % c = rw (m', e) (bit_and-mask k a) in
    (b, omega (arith, one-le-pow k 2))

-- `x | (2^k - 1)` fills the low digits with ones.
bit_or-row : (k q r : ℕ) → r < 2 ^ k → bit_or (q * 2 ^ k + r) (2 ^ k - 1) ≡ q * 2 ^ k + (2 ^ k - 1)
bit_or-row zero q r h = omega (arith, (zero_right (q * 2 ^ 0 + r) (q * 2 ^ 0 + r) (omega arith)).1)
bit_or-row (suc k) q r h = ground (
  arith,
  pow-suc 2 k,
  one-le-pow k 2,
  double_row q k,
  bit_or_step (q * 2 ^ suc k + r) (2 ^ suc k - 1),
  bit_or-row k q (r / 2) (omega (arith, pow-suc 2 k)),
)

-- With the mask of a power of two, `(a | mask) + 1` is the next multiple of it after `a`.
pub bit_or-mask_next : (k c m : ℕ) (a : ℕ) → c ≡ 2 ^ k → m + 1 ≡ c → bit_or a m + 1 + a % c ≡ a + c
bit_or-mask_next k c m a e f =
    let m' : m ≡ 2 ^ k - 1 = omega arith in
    let b : bit_or a m ≡ a / 2 ^ k * 2 ^ k + (2 ^ k - 1) =
      rw m' (ground (arith, one-le-pow k 2, bit_or-row k (a / 2 ^ k) (a % 2 ^ k))) in
    rw e (omega (arith, b, one-le-pow k 2))

-- `x & !63` drops the remainder by 64.
pub bit_and-not_63 : (a : ℕ) → a < 2 ^ 64 → bit_and a (2 ^ 64 - 64) + a % 64 ≡ a
bit_and-not_63 a h = omega (
  arith,
  bit_and_step a (2 ^ 64 - 64),
  bit_and_step (a / 2) (2 ^ 63 - 32),
  bit_and_step (a / 2 / 2) (2 ^ 62 - 16),
  bit_and_step (a / 2 / 2 / 2) (2 ^ 61 - 8),
  bit_and_step (a / 2 / 2 / 2 / 2) (2 ^ 60 - 4),
  bit_and_step (a / 2 / 2 / 2 / 2 / 2) (2 ^ 59 - 2),
  bit_and-mask 58 (a / 2 / 2 / 2 / 2 / 2 / 2),
)
