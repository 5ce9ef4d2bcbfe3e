-- ===== src/Replication/Action.antt =====
-- A method of src/replication.rs that changes its object and may fail: what was changed stays changed when
-- `?` ends the method. `none` is a panic.
use ringfire.Prelude.{Bool, true, false, Option, none, some}
use ringfire.Errors.{RingfireError, Result, ok, err}

abbrev pub Action : Type 0 → Type 0 → Type 0
Action S A = S → Option (Result A × S)

module _ {S : Type 0} where
  abbrev pub pure : {A : Type 0} → A → Action S A
  pure x s = some (ok x, s)

  abbrev pub fail_if : Bool → RingfireError → Action S (Unit {0})
  fail_if true e s = some (err e, s)
  fail_if false e s = some (ok tt, s)

  abbrev pub change : (S → S) → Action S (Unit {0})
  change f s = some (ok tt, f s)

  abbrev pub then_run :
      {A B : Type 0} → (A → Action S B) → Option (Result A × S) → Option (Result B × S)
  then_run k none = none
  then_run k (some (err e, s)) = some (err e, s)
  then_run k (some (ok x, s)) = k x s

  infixl 5 ◌>>=◌ ◌>>◌
  abbrev pub ◌>>=◌ : {A B : Type 0} → Action S A → (A → Action S B) → Action S B
  ◌>>=◌ m k s = then_run k (m s)

  abbrev pub ◌>>◌ : {B : Type 0} → Action S (Unit {0}) → Action S B → Action S B
  m >> k = m >>= λ _. k
