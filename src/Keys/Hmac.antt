-- ===== src/Keys/Hmac.antt =====
-- The MACs of src/sslv3.c, ssl3HMACSha1 and ssl3HMACMd5, with the functions of src/cipherSuite.c that call
-- them for a record.
use robin_mesh_v.Prelude.{
  ℕ, ◌+◌, ◌/◌, ◌%◌, ◌^◌, Bool, true, false, List, [], ◌∷◌, ◌==◌, length, take,
}
use robin_mesh_v.Session.{same_bytes}
use robin_mesh_v.Hash.Md5.{matrix_md5_init, matrix_md5_update, matrix_md5_final}
use robin_mesh_v.Hash.Sha1.{matrix_sha1_init, matrix_sha1_update}
use robin_mesh_v.Keys.{Sec, sha1_hash, pad1, pad2}

-- A byte of `seq`, with the bytes after it and whether the loop has gone through all of them.
unfoldable pub count_byte : ℕ → List ℕ × Bool → List ℕ × Bool
count_byte b (rest, true) = ((b + 1) % 256 ∷ rest, (b + 1) % 256 == 0)
count_byte b (rest, false) = (b ∷ rest, false)

-- The loop over `seq`, from the last byte.
unfoldable pub next_seq : List ℕ → List ℕ × Bool
next_seq [] = ([], true)
next_seq (b ∷ seq) = count_byte b (next_seq seq)

-- The three bytes that stand for a record's type and length in its MAC.
abbrev pub mac_head : ℕ → ℕ → List ℕ
mac_head ty len = ty ∷ len / 2 ^ 8 % 2 ^ 8 ∷ len % 2 ^ 8 ∷ []

-- `ssl3HMACSha1`: the MAC, and the sequence number after it.
unfoldable pub ssl3_hmac_sha1 : List ℕ → List ℕ → ℕ → List ℕ → List ℕ × List ℕ
ssl3_hmac_sha1 key seq ty bytes =
    let sha = matrix_sha1_update matrix_sha1_init (take 20 key) in
    let sha = matrix_sha1_update sha (pad1 40) in
    let sha = matrix_sha1_update sha (take 8 seq) in
    let sha = matrix_sha1_update sha (mac_head ty (length bytes)) in
    let hash = sha1_hash (matrix_sha1_update sha bytes) in
    let outer = matrix_sha1_update matrix_sha1_init (take 20 key) in
    let outer = matrix_sha1_update outer (pad2 40) in
    (sha1_hash (matrix_sha1_update outer hash), (next_seq seq).0)

-- `ssl3HMACMd5`
unfoldable pub ssl3_hmac_md5 : List ℕ → List ℕ → ℕ → List ℕ → List ℕ × List ℕ
ssl3_hmac_md5 key seq ty bytes =
    let md = matrix_md5_update matrix_md5_init (take 16 key) in
    let md = matrix_md5_update md (pad1 48) in
    let md = matrix_md5_update md (take 8 seq) in
    let md = matrix_md5_update md (mac_head ty (length bytes)) in
    let hash = matrix_md5_final (matrix_md5_update md bytes) in
    let outer = matrix_md5_update matrix_md5_init (take 16 key) in
    let outer = matrix_md5_update outer (pad2 48) in
    (matrix_md5_final (matrix_md5_update outer hash), (next_seq seq).0)

-- `sha1GenerateMac`, `md5GenerateMac`, as the MAC function that a suite has.
abbrev pub MacFunction : Type 0
MacFunction = List ℕ → List ℕ → ℕ → List ℕ → List ℕ × List ℕ

unfoldable pub generate_mac : MacFunction → ℕ → List ℕ → Sec → List ℕ × Sec
generate_mac hmac ty bytes sec =
    let (mac, seq) = hmac sec.write_mac sec.seq ty bytes in (mac, record sec { seq = seq })

-- `sha1VerifyMac`, `md5VerifyMac`: whether the `n` bytes of the MAC are right, and the keys after it.
unfoldable pub verify_mac : MacFunction → ℕ → ℕ → List ℕ → List ℕ → Sec → Bool × Sec
verify_mac hmac n ty bytes mac sec =
    let (buf, seq) = hmac sec.read_mac sec.rem_seq ty bytes in
    (same_bytes n buf mac, record sec { rem_seq = seq })
