-- ===== src/Hash/Whole.antt =====
-- MD5 and SHA-1 of a message in pieces against the digests of their standards.
use robin_mesh_v.Prelude.{concat, ℕ, ◌≡◌, refl, ap, false, some, List, arith, length, leb}
use robin_mesh_v.Hash.{store64l, store64h, update}
use robin_mesh_v.Hash.Stream.{digest}
use robin_mesh_v.Hash.Final.{update_all, finish-update_all, update_all-short}
use robin_mesh_v.Hash.Md5.{
  md5_compress, matrix_md5_init, matrix_md5_update, matrix_md5_final, md5_output,
}
use robin_mesh_v.Hash.Sha1.{
  sha1_compress, matrix_sha1_init, matrix_sha1_update, matrix_sha1_final, sha1_output,
}

-- The digests: padding, blocks, compression from the initial state, output.
pub md5 : List ℕ → List ℕ
unfolding md5_output
md5 msg = md5_output (
    digest md5_compress store64l
      (record { a = 0x67452301; b = 0xefcdab89; c = 0x98badcfe; d = 0x10325476 }) msg)

pub sha1 : List ℕ → List ℕ
unfolding sha1_output
sha1 msg = sha1_output (
    digest sha1_compress store64h
      (record { a = 0x67452301; b = 0xefcdab89; c = 0x98badcfe; d = 0x10325476; e = 0xc3d2e1f0 })
      msg)

-- matrixMd5Init, any calls of matrixMd5Update and matrixMd5Final give the MD5 digest of all the bytes
-- that were passed, however they are cut into pieces.
pub matrix_md5_final-update_all :
    (pieces : List (List ℕ))
    → matrix_md5_final (update_all matrix_md5_update matrix_md5_init pieces) ≡ md5 (concat pieces)
unfolding matrix_md5_final matrix_md5_update matrix_md5_init md5 md5_output
matrix_md5_final-update_all pieces =
    ap md5_output (finish-update_all md5_compress _ store64l (λ n. refl) pieces)

-- matrixSha1Init, any calls of matrixSha1Update and matrixSha1Final give the SHA-1 digest of all the
-- bytes that were passed, however they are cut into pieces.
pub matrix_sha1_final-update_all :
    (pieces : List (List ℕ))
    → matrix_sha1_final (update_all matrix_sha1_update matrix_sha1_init pieces)
      ≡ some (sha1 (concat pieces))
unfolding matrix_sha1_final matrix_sha1_update matrix_sha1_init sha1 sha1_output
matrix_sha1_final-update_all pieces =
    let not_full : leb 64 (length (update_all (update sha1_compress) matrix_sha1_init pieces).buf)
        ≡ false =
      let short = update_all-short sha1_compress matrix_sha1_init.state pieces in
      ground (arith, short) in
    rw not_full (
      ap (λ h. some (sha1_output h))
        (finish-update_all sha1_compress matrix_sha1_init.state store64h (λ n. refl) pieces))

pub length-md5 : (msg : List ℕ) → length (md5 msg) ≡ 16
unfolding md5 md5_output
length-md5 msg = refl

pub length-sha1 : (msg : List ℕ) → length (sha1 msg) ≡ 20
unfolding sha1 sha1_output
length-sha1 msg = refl
