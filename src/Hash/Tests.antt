-- ===== src/Hash/Tests.antt =====
-- The test vectors of matrixMd5Test and matrixSha1Test, and the theorems at concrete pieces.
use robin_mesh_v.Prelude.{concat, ℕ, ◌≡◌, refl, some, List, [], ◌∷◌, replicate}
use robin_mesh_v.Hash.{flush, update_loop, update, spill, seal, finish, rol}
use robin_mesh_v.Hash.Final.{update_all}
use robin_mesh_v.Hash.Whole.{md5, sha1, matrix_md5_final-update_all, matrix_sha1_final-update_all}
use robin_mesh_v.Hash.Md5.{
  md5_round, md5_rounds, md5_compress, matrix_md5_init, matrix_md5_update, matrix_md5_final,
  md5_output,
}
use robin_mesh_v.Hash.Sha1.{
  expand, sha1_round, sha1_rounds, sha1_compress, matrix_sha1_init, matrix_sha1_update,
  matrix_sha1_final, sha1_output,
}

abbrev abc : List ℕ
abc = b'a' ∷ b'b' ∷ b'c' ∷ []

md5_abc :
    matrix_md5_final (matrix_md5_update matrix_md5_init abc)
    ≡ 0x90 ∷ 0x01 ∷ 0x50 ∷ 0x98 ∷ 0x3c ∷ 0xd2 ∷ 0x4f ∷ 0xb0 ∷ 0xd6 ∷ 0x96 ∷ 0x3f ∷ 0x7d ∷ 0x28
      ∷ 0xe1 ∷ 0x7f ∷ 0x72 ∷ []
unfolding matrix_md5_init matrix_md5_update matrix_md5_final update update_loop flush finish spill
    seal md5_compress md5_rounds md5_round rol md5_output
md5_abc = refl

sha1_abc :
    matrix_sha1_final (matrix_sha1_update matrix_sha1_init abc)
    ≡ some (
        0xa9 ∷ 0x99 ∷ 0x3e ∷ 0x36 ∷ 0x47 ∷ 0x06 ∷ 0x81 ∷ 0x6a ∷ 0xba ∷ 0x3e ∷ 0x25 ∷ 0x71 ∷ 0x78
        ∷ 0x50 ∷ 0xc2 ∷ 0x6c ∷ 0x9c ∷ 0xd0 ∷ 0xd8 ∷ 0x9d ∷ [])
unfolding matrix_sha1_init matrix_sha1_update matrix_sha1_final update update_loop flush finish
    spill seal sha1_compress sha1_rounds sha1_round expand rol sha1_output
sha1_abc = refl

abbrev pieces : List (List ℕ)
pieces = abc ∷ [] ∷ replicate 70 5 ∷ []

matrix_md5_final-update_all_example :
    matrix_md5_final (update_all matrix_md5_update matrix_md5_init pieces) ≡ md5 (concat pieces)
matrix_md5_final-update_all_example = matrix_md5_final-update_all pieces

matrix_sha1_final-update_all_example :
    matrix_sha1_final (update_all matrix_sha1_update matrix_sha1_init pieces)
    ≡ some (sha1 (concat pieces))
matrix_sha1_final-update_all_example = matrix_sha1_final-update_all pieces
