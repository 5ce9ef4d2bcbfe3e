-- ===== src/Names/Examples.antt =====
-- A short name in its buffer.
use ringfire.Prelude.{◌≡◌, refl, [], ◌∷◌}
use ringfire.Names.{name_buffer, read_name}

reads_back : read_name (name_buffer (97 ∷ 98 ∷ [])) ≡ 97 ∷ 98 ∷ []
unfolding name_buffer read_name
reads_back = refl
