-- ===== src/Names.antt =====
-- The 32-byte names of src/registry.rs and src/checkpoint.rs: `name_buf[..len].copy_from_slice(..)`
-- with `len = min(31)`, and the reading back up to the first NUL.
pub mod Roundtrip
mod Examples
use ringfire.Prelude.{
  ℕ, suc, ◌+◌, ◌-◌, min, Bool, List, [], ◌∷◌, ◌++◌, length, take, replicate, ◌==◌, if◌then◌else◌,
}

pub name_buffer : List ℕ → List ℕ
name_buffer bytes = take 31 bytes ++ replicate (32 - min 31 (length bytes)) 0

-- `slot.name.iter().position(|&b| b == 0).unwrap_or(32)` and the slice up to there.
pub read_name : List ℕ → List ℕ
read_name [] = []
read_name (b ∷ bs) = if b == 0 then [] else b ∷ read_name bs
