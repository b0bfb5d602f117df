-- ===== src/Arc4/Tests.antt =====
-- The theorems on RC4 at a concrete key.
use robin_mesh_v.Prelude.{ℕ, ◌≡◌, refl, some, List, [], ◌∷◌}
use robin_mesh_v.Arc4.{matrix_arc4, matrix_arc4_init, stream, turn, mix}

abbrev head : List ℕ
head = 5 ∷ 6 ∷ []

abbrev key : List ℕ
key = 1 ∷ 2 ∷ 3 ∷ []

abbrev secret : List ℕ
secret = 146 ∷ 48 ∷ []

encrypted :
    matrix_arc4 (matrix_arc4_init key) head
    ≡ ((matrix_arc4 (matrix_arc4_init key) head).0, some secret)
unfolding matrix_arc4 matrix_arc4_init mix stream turn
encrypted = refl

-- A published test vector: the key "Key" and the text "Plaintext".
published :
    (matrix_arc4
      (matrix_arc4_init (75 ∷ 101 ∷ 121 ∷ []))
      (80 ∷ 108 ∷ 97 ∷ 105 ∷ 110 ∷ 116 ∷ 101 ∷ 120 ∷ 116 ∷ [])).1
    ≡ some (0xBB ∷ 0xF3 ∷ 0x16 ∷ 0xE8 ∷ 0xD9 ∷ 0x40 ∷ 0xAF ∷ 0x0A ∷ 0xD3 ∷ [])
unfolding matrix_arc4 matrix_arc4_init mix stream turn
published = refl
