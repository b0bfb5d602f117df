-- ===== src/Keys.antt =====
-- src/sslv3.c: the master secret, the key block and the Finished hash of SSL 3, with the
-- functions of src/cipherSuite.c and src/matrixSsl.c that copy the keys out of the block and use them.
pub mod Secrets
pub mod Hmac
pub mod Mac
pub mod Suites
pub mod Finished
mod Tests
use robin_mesh_v.Prelude.{
  ℕ, zero, suc, ◌+◌, ◌-◌, ◌*◌, ◌/◌, ◌%◌, ◌^◌, Bool, true, false, Option, none, some, List, [], ◌∷◌,
  ◌++◌, ltb, ◌==◌, if◌then◌else◌, length, take, drop, replicate,
}
use robin_mesh_v.Cipher.{CipherSpec, null_id}
use robin_mesh_v.Arc4.{Arc4, matrix_arc4, matrix_arc4_init}
use robin_mesh_v.Session.{same_bytes}
use robin_mesh_v.Hash.{HashState}
use robin_mesh_v.Hash.Md5.{Md5, matrix_md5_init, matrix_md5_update, matrix_md5_final}
use robin_mesh_v.Hash.Sha1.{Sha1, matrix_sha1_init, matrix_sha1_update, matrix_sha1_final}

-- Where matrixSha1Final returns -1, which no caller looks at, it writes nothing: here, no bytes.
abbrev pub or_nothing : Option (List ℕ) → List ℕ
or_nothing none = []
or_nothing (some hash) = hash

abbrev pub sha1_hash : HashState Sha1 → List ℕ
sha1_hash h = or_nothing (matrix_sha1_final h)

-- `salt[i]`: "A", "BB", up to ten of "J".
abbrev pub salt : ℕ → List ℕ
salt i = replicate (i + 1) (b'A' + i)

-- The first `n` bytes of `pad1` and `pad2`.
abbrev pub pad1 : ℕ → List ℕ
pad1 n = replicate n 0x36

abbrev pub pad2 : ℕ → List ℕ
pad2 n = replicate n 0x5c

-- SENDER_CLIENT and SENDER_SERVER.
abbrev pub sender_client : List ℕ
sender_client = 0x43 ∷ 0x4c ∷ 0x4e ∷ 0x54 ∷ []

abbrev pub sender_server : List ℕ
sender_server = 0x53 ∷ 0x52 ∷ 0x56 ∷ 0x52 ∷ []

-- One turn of the loops of `sslDeriveKeys` and `createKeyBlock`: 16 bytes of key material.
unfoldable pub key_piece : List ℕ → List ℕ → List ℕ → ℕ → List ℕ
key_piece secret random1 random2 i =
    let sha = matrix_sha1_update matrix_sha1_init (salt i) in
    let sha = matrix_sha1_update sha secret in
    let sha = matrix_sha1_update sha random1 in
    let sha = matrix_sha1_update sha random2 in
    let md = matrix_md5_update matrix_md5_init secret in
    matrix_md5_final (matrix_md5_update md (sha1_hash sha))

-- `n` turns, from `i` on.
unfoldable pub key_pieces : List ℕ → List ℕ → List ℕ → ℕ → ℕ → List ℕ
key_pieces secret random1 random2 zero i = []
key_pieces secret random1 random2 (suc n) i =
    key_piece secret random1 random2 i ++ key_pieces secret random1 random2 n (i + 1)

-- The master secret of `sslDeriveKeys`.
unfoldable pub make_master : List ℕ → List ℕ → List ℕ → List ℕ
make_master premaster client_random server_random =
    key_pieces premaster client_random server_random 3 0

-- `while (SSL_MD5_HASH_SIZE * keyIter < reqKeyLen) keyIter++;`
unfoldable pub key_turns : ℕ → ℕ → ℕ → ℕ
key_turns zero k need = k
key_turns (suc fuel) k need = elim (ltb (16 * k) need) [
  | true ↦ key_turns fuel (k + 1) need
  | false ↦ k
]

-- `reqKeyLen`
abbrev pub key_len : CipherSpec → ℕ
key_len c = 2 * c.mac_size + 2 * c.key_size + 2 * c.iv_size

-- SSL_MAX_KEY_BLOCK_SIZE, the size of `keyBlock`.
abbrev pub max_key_block_size : ℕ
max_key_block_size = 2 * 20 + 2 * 24 + 2 * 8

-- The part of `sslSec_t` that holds the keys: what has been written from `keyBlock` on, the six
-- pointers into it as distances, the live keys, the sequence numbers and the cipher contexts.
pub record Sec : Type 0 where
  pub key_block : List ℕ
  pub r_mac_ptr : ℕ
  pub w_mac_ptr : ℕ
  pub r_key_ptr : ℕ
  pub w_key_ptr : ℕ
  pub r_iv_ptr : ℕ
  pub w_iv_ptr : ℕ
  pub read_mac : List ℕ
  pub write_mac : List ℕ
  pub read_key : List ℕ
  pub write_key : List ℕ
  pub read_iv : List ℕ
  pub write_iv : List ℕ
  pub rem_seq : List ℕ
  pub seq : List ℕ
  pub encrypt_ctx : Arc4
  pub decrypt_ctx : Arc4

-- The six pointers that `createKeyBlock` sets, for a server and for a client.
unfoldable pub lay_out : CipherSpec → Bool → Sec → Sec
lay_out c true sec =
    let mac = c.mac_size in
    let key = mac + mac in
    let iv = key + c.key_size + c.key_size in
    record sec {
      r_mac_ptr = 0;
      w_mac_ptr = mac;
      r_key_ptr = key;
      w_key_ptr = key + c.key_size;
      r_iv_ptr = iv;
      w_iv_ptr = iv + c.iv_size;
    }
lay_out c false sec =
    let mac = c.mac_size in
    let key = mac + mac in
    let iv = key + c.key_size + c.key_size in
    record sec {
      w_mac_ptr = 0;
      r_mac_ptr = mac;
      w_key_ptr = key;
      r_key_ptr = key + c.key_size;
      w_iv_ptr = iv;
      r_iv_ptr = iv + c.iv_size;
    }

-- `createKeyBlock`, with SSL_FLAGS_SERVER as `server`; `none` is the return value -1.
unfoldable pub create_key_block : CipherSpec → Bool → List ℕ → List ℕ → List ℕ → Sec → Option Sec
create_key_block c server client_random server_random master sec =
    let turns = key_turns (key_len c) 1 (key_len c) in
    let block = key_pieces master server_random client_random turns 0 in
    if ltb 10 turns then none else some (lay_out c server (record sec { key_block = block }))

-- `memcpy` of `n` bytes at a distance into the key block, over the start of a live buffer.
abbrev pub copy_key : List ℕ → ℕ → ℕ → List ℕ → List ℕ
copy_key block at n old = take n (drop at block) ++ drop n old

-- `sslActivateReadCipher` on the keys, where `init` is the suite's function for INIT_DECRYPT_CIPHER.
unfoldable pub activate_read : (Sec → Option Sec) → CipherSpec → Sec → Option Sec
activate_read init c sec =
    let reset = record sec { rem_seq = replicate 8 0 } in
    if c.id == null_id
    then some reset
    else init (record reset {
      read_mac = copy_key sec.key_block sec.r_mac_ptr c.mac_size sec.read_mac;
      read_key = copy_key sec.key_block sec.r_key_ptr c.key_size sec.read_key;
      read_iv = copy_key sec.key_block sec.r_iv_ptr c.iv_size sec.read_iv;
    })

-- `sslActivateWriteCipher` likewise, with INIT_ENCRYPT_CIPHER.
unfoldable pub activate_write : (Sec → Option Sec) → CipherSpec → Sec → Option Sec
activate_write init c sec =
    let reset = record sec { seq = replicate 8 0 } in
    if c.id == null_id
    then some reset
    else init (record reset {
      write_mac = copy_key sec.key_block sec.w_mac_ptr c.mac_size sec.write_mac;
      write_key = copy_key sec.key_block sec.w_key_ptr c.key_size sec.write_key;
      write_iv = copy_key sec.key_block sec.w_iv_ptr c.iv_size sec.write_iv;
    })

-- `matrixCipher4Init` and `matrixCipher5Init`, for each type.
unfoldable pub init_decrypt : Sec → Option Sec
init_decrypt sec = some (record sec { decrypt_ctx = matrix_arc4_init (take 16 sec.read_key) })

unfoldable pub init_encrypt : Sec → Option Sec
init_encrypt sec = some (record sec { encrypt_ctx = matrix_arc4_init (take 16 sec.write_key) })

-- `sslGenerateFinishedHash`; `sender` is none for a negative number, else whether SSL_FLAGS_SERVER is set.
abbrev pub sender_bytes : Bool → List ℕ
sender_bytes true = sender_server
sender_bytes false = sender_client

unfoldable pub finished_md5 : HashState Md5 → List ℕ → Option Bool → List ℕ
finished_md5 md master sender =
    let md : HashState Md5 = elim sender [
      | none ↦ md
      | some s ↦ matrix_md5_update md (sender_bytes s)
    ] in
    let hash = matrix_md5_final (matrix_md5_update (matrix_md5_update md master) (pad1 48)) in
    let outer = matrix_md5_update (matrix_md5_update matrix_md5_init master) (pad2 48) in
    matrix_md5_final (matrix_md5_update outer hash)

unfoldable pub finished_sha1 : HashState Sha1 → List ℕ → Option Bool → List ℕ
finished_sha1 sha master sender =
    let sha : HashState Sha1 = elim sender [
      | none ↦ sha
      | some s ↦ matrix_sha1_update sha (sender_bytes s)
    ] in
    let hash = sha1_hash (matrix_sha1_update (matrix_sha1_update sha master) (pad1 40)) in
    let outer = matrix_sha1_update (matrix_sha1_update matrix_sha1_init master) (pad2 40) in
    sha1_hash (matrix_sha1_update outer hash)

unfoldable pub generate_finished_hash :
    HashState Md5 → HashState Sha1 → List ℕ → Option Bool → List ℕ
generate_finished_hash md sha master sender =
    finished_md5 md master sender ++ finished_sha1 sha master sender

-- `matrixArc4` as a suite's `encrypt` and `decrypt`, on the context that each is called with; what a
-- failing call leaves in the context is not followed.
unfoldable pub encrypt : Sec → List ℕ → Option (Sec × List ℕ)
encrypt sec bytes =
    let (ctx, result) = matrix_arc4 sec.encrypt_ctx bytes in
    elim result [ none ↦ none | some out ↦ some (record sec { encrypt_ctx = ctx }, out) ]

unfoldable pub decrypt : Sec → List ℕ → Option (Sec × List ℕ)
decrypt sec bytes =
    let (ctx, result) = matrix_arc4 sec.decrypt_ctx bytes in
    elim result [ none ↦ none | some out ↦ some (record sec { decrypt_ctx = ctx }, out) ]
