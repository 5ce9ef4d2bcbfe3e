-- ===== src/Signature.antt =====
-- src/signature.rs: the layout signature of a type from its name, size and alignment. Characters are code points;
-- `is_alphanumeric` and `as_bytes` (the UTF-8 encoding) are the standard library's and parameters here.
mod Examples
use ringfire.Prelude.{
  ℕ, ◌≡◌, refl, ◌∙◌, ap, Bool, true, false, ◌&&◌, ◌||◌, List, [], ◌∷◌, ◌++◌, All, ◌==◌,
  if◌then◌else◌, mul_u64, bit_xor,
}
use ringfire.Replication.Bytes.{to_le_bytes}

pub fnv1a64_from : (hash : ℕ) → List ℕ → ℕ
fnv1a64_from hash [] = hash
fnv1a64_from hash (b ∷ bytes) = fnv1a64_from (mul_u64 (bit_xor hash b) 1099511628211) bytes

pub fnv1a64 : List ℕ → ℕ
fnv1a64 bytes = fnv1a64_from 14695981039346656037 bytes

abbrev pub colon : ℕ
colon = 58

abbrev pub underscore : ℕ
underscore = 95

module _ (is_alphanumeric : ℕ → Bool) where
  abbrev pub is_ident : ℕ → Bool
  is_ident c = is_alphanumeric c || c == underscore

  -- The loop of `short_type_name`; its last clauses are those where `peek` finds nothing.
  pub short_from : (ident out chars : List ℕ) → List ℕ
  short_from ident out [] = out ++ ident
  short_from ident out (c ∷ []) =
      if is_ident c then out ++ (ident ++ (c ∷ [])) else (out ++ ident) ++ (c ∷ [])
  short_from ident out (c ∷ d ∷ chars) =
      let pushed = short_from (ident ++ (c ∷ [])) out (d ∷ chars) in
      let cleared = short_from [] out chars in
      let kept = short_from [] ((out ++ ident) ++ (c ∷ [])) (d ∷ chars) in
      if is_ident c then pushed else if c == colon && d == colon then cleared else kept

  pub short_type_name : List ℕ → List ℕ
  short_type_name full = short_from [] [] full

  pub compute_layout_signature :
      (as_bytes : List ℕ → List ℕ) (type_name : List ℕ) (size align : ℕ) → ℕ
  compute_layout_signature as_bytes type_name size align =
      fnv1a64 (as_bytes (short_type_name type_name) ++ (to_le_bytes 8 size ++ to_le_bytes 8 align))

  module _ (colon_separates : is_alphanumeric colon ≡ false) where
    short_from_path :
        (segment ident out rest : List ℕ)
        → All (λ c. is_ident c ≡ true) segment
        → short_from ident out (segment ++ (colon ∷ colon ∷ rest)) ≡ short_from [] out rest
    unfolding short_from
    short_from_path [] ident out rest h = rw colon_separates refl
    short_from_path (c ∷ []) ident out rest h =
        rw h.0 (short_from_path [] (ident ++ (c ∷ [])) out rest tt)
    short_from_path (c ∷ d ∷ segment) ident out rest h =
        rw h.0 (short_from_path (d ∷ segment) (ident ++ (c ∷ [])) out rest h.1)

    -- Two types with the same size and alignment whose names differ only in the module or crate that
    -- they start with have the same signature, as the two binaries' copies of one struct do. The path's
    -- segment is made of letters, digits and `_`.
    pub compute_layout_signature-path :
        (as_bytes : List ℕ → List ℕ) (segment segment' rest : List ℕ) (size align : ℕ)
        → All (λ c. is_ident c ≡ true) segment
        → All (λ c. is_ident c ≡ true) segment'
        → compute_layout_signature as_bytes (segment ++ (colon ∷ colon ∷ rest)) size align
          ≡ compute_layout_signature as_bytes (segment' ++ (colon ∷ colon ∷ rest)) size align
    unfolding compute_layout_signature short_type_name
    compute_layout_signature-path as_bytes segment segment' rest size align h h' =
        rw (short_from_path segment [] [] rest h, short_from_path segment' [] [] rest h') refl
