-- ===== src/Errors.antt =====
-- src/error.rs: the error type, and `Result` with its `?`.
use ringfire.Prelude.{ℕ, Bool, true, false, ◌≡◌, refl}
use Prim.Native.String.{String}

-- The kinds of `std::io::Error` that the code tells apart.
pub data IoError : Type 0 where
  not_found : IoError
  invalid_data : String → IoError
  os_error : ℕ → IoError

pub data RingfireError : Type 0 where
  io : IoError → RingfireError
  invalid_capacity : ℕ → RingfireError
  invalid_magic : (expected actual : ℕ) → RingfireError
  version_mismatch : (expected actual : ℕ) → RingfireError
  element_size_mismatch : (expected actual : ℕ) → RingfireError
  producer_already_exists : RingfireError
  key_out_of_range : (key capacity : ℕ) → RingfireError
  value_size_mismatch : (expected actual : ℕ) → RingfireError
  schema_mismatch : (expected actual : ℕ) (type_name : String) → RingfireError
  arena_payload_too_large : (len max_capacity : ℕ) → RingfireError
  buffer_too_small : (required provided : ℕ) → RingfireError
  no_available_reader_slots : RingfireError
  no_offset_file_configured : RingfireError
  backpressure_buffer_full : RingfireError
  corrupt_layout : String → RingfireError
  writer_stalled : (key : ℕ) → RingfireError
  unsupported : String → RingfireError
  protocol : String → RingfireError

pub data Result {ℓ} (A : Type ℓ) : Type ℓ where
  ok : A → Result A
  err : RingfireError → Result A

-- `?`: an error ends the function. `>>` is `?` on a check that has no value.
infixl 5 ◌>>=◌ ◌>>◌
abbrev pub ◌>>=◌ {ℓ κ} : {T : Type ℓ} {U : Type κ} → Result T → (T → Result U) → Result U
err e >>= rest = err e
ok x >>= rest = rest x

abbrev pub ◌>>◌ {κ} : {U : Type κ} → Result (Unit {0}) → Result U → Result U
check >> rest = check >>= λ _. rest

-- `if bad { return Err(e) }`.
abbrev pub refuse_if : Bool → RingfireError → Result (Unit {0})
refuse_if true e = err e
refuse_if false e = ok tt

-- Inversion of a successful check, for proofs where the parts stay shut.
pub >>-eq-ok {ℓ} :
    {B : Type ℓ} (m : Result (Unit {0})) (k : Result B) {b : B}
    → (m >> k) ≡ ok b
    → (m ≡ ok tt) × (k ≡ ok b)
>>-eq-ok (ok tt) k h = (refl, h)
>>-eq-ok (err e) k h = cc

pub refuse_if-ok : (b : Bool) (e : RingfireError) → refuse_if b e ≡ ok tt → b ≡ false
refuse_if-ok true e h = cc
refuse_if-ok false e h = refl

-- A `?` that succeeded had a value to go on with.
pub went_on {ℓ κ} :
    {T : Type ℓ} {U : Type κ} (m : Result T) (rest : T → Result U) {u : U}
    → (m >>= rest) ≡ ok u
    → (x : T) × (rest x ≡ ok u)
went_on (err e) rest h = cc
went_on (ok x) rest h = (x, h)
