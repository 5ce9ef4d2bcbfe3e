-- ===== src/Names/Roundtrip.antt =====
-- A stored name keeps its shape and reads back.
use ringfire.Prelude.{
  ℕ, zero, suc, ◌-◌, min, ◌≡◌, ◌≢◌, refl, List, [], ◌∷◌, ◌++◌, arith, length, take, replicate,
  length-append, length-take, length-replicate, All,
}
use ringfire.Names.{name_buffer, read_name}

read_name_padded :
    (n k : ℕ) (bytes : List ℕ)
    → All (λ b. b ≢ 0) bytes
    → read_name (take n bytes ++ replicate (suc k) 0) ≡ take n bytes
unfolding read_name
read_name_padded zero k bytes h = refl
read_name_padded (suc n) k [] h = refl
read_name_padded (suc n) k (b ∷ bs) h = ground (arith, read_name_padded n k bs h.1)

-- A name with no NUL byte is stored in 32 bytes and reads back as its first 31 bytes.
read_name-name_buffer :
    (bytes : List ℕ)
    → All (λ b. b ≢ 0) bytes
    → (read_name (name_buffer bytes) ≡ take 31 bytes) × (length (name_buffer bytes) ≡ 32)
unfolding name_buffer
read_name-name_buffer bytes h =
    let pad : 32 - min 31 (length bytes) ≡ suc (31 - min 31 (length bytes)) = omega arith in
    (
      rw pad (read_name_padded 31 (31 - min 31 (length bytes)) bytes h),
      omega (
        arith,
        length-append (take 31 bytes) (replicate (32 - min 31 (length bytes)) 0),
        length-take 31 bytes,
        length-replicate {A = ℕ} (32 - min 31 (length bytes)) 0,
      ),
    )
