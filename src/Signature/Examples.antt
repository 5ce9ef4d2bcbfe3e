-- ===== src/Signature/Examples.antt =====
-- A type of two crates, and the bytes of a known hash (src/signature.rs).
use ringfire.Prelude.{ℕ, ◌≡◌, refl, ◌&&◌, List, [], ◌∷◌, Bool, leb}
use ringfire.Signature.{
  fnv1a64, fnv1a64_from, short_from, short_type_name, compute_layout_signature,
  compute_layout_signature-path,
}

-- ASCII letters in lower case are enough here.
abbrev is_lower : ℕ → Bool
is_lower c = leb 97 c && leb c 122

abbrev same_bytes : List ℕ → List ℕ
same_bytes cs = cs

-- FNV-1a of "a".
hash_of_a : fnv1a64 (97 ∷ []) ≡ 12638187200555641996
unfolding fnv1a64 fnv1a64_from
hash_of_a = refl

-- `a::b<c::d>` becomes `b<d>`.
without_paths :
    short_type_name is_lower (97 ∷ 58 ∷ 58 ∷ 98 ∷ 60 ∷ 99 ∷ 58 ∷ 58 ∷ 100 ∷ 62 ∷ [])
    ≡ 98 ∷ 60 ∷ 100 ∷ 62 ∷ []
unfolding short_type_name short_from
without_paths = refl

compute_layout_signature-path_example :
    compute_layout_signature is_lower same_bytes (97 ∷ 58 ∷ 58 ∷ 100 ∷ []) 24 8
    ≡ compute_layout_signature is_lower same_bytes (98 ∷ 99 ∷ 58 ∷ 58 ∷ 100 ∷ []) 24 8
compute_layout_signature-path_example =
    compute_layout_signature-path is_lower refl same_bytes (97 ∷ []) (98 ∷ 99 ∷ []) (100 ∷ []) 24 8
      (refl, tt) (refl, (refl, tt))
