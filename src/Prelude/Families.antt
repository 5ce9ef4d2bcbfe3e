-- ===== src/Prelude/Families.antt =====
-- Memory as a family: an array cell for each index, with update at one index.
use Prim.Native.Nat.{ℕ, zero, suc, ◌≤◌}
use mathlib.Core.Path.{◌≡◌}
use mathlib.Core.Logic.{◌≢◌}
use native.Mathlib.Decide.{dec_lt}
use native.Mathlib.Omega.{arith}
use ringfire.Prelude.Tests.{◌==◌, if◌then◌else◌}

module _ {ℓ} {A : Type ℓ} where
  abbrev pub update : (ℕ → A) → ℕ → A → ℕ → A
  update f i a j = if i == j then a else f j

  pub update_self : (f : ℕ → A) (i : ℕ) (a : A) → update f i a i ≡ a
  update_self f i a = ground arith

  pub update_ne : (f : ℕ → A) (i j : ℕ) (a : A) → i ≢ j → update f i a j ≡ f j
  update_ne f i j a h = ground arith

-- What no step lowers does not fall.
pub rises : (f : ℕ → ℕ) → ((t : ℕ) → f t ≤ f (suc t)) → (t u : ℕ) → t ≤ u → f t ≤ f u
rises f step zero zero le = omega arith
rises f step (suc t) zero le = absurd (omega arith)
rises f step t (suc u) le = elim (dec_lt t (suc u)) [
  | yes lt ↦ omega (arith, rises f step t u (omega arith), step u)
  | no same ↦ let e : t ≡ suc u = omega arith in rw e (omega arith)
]
