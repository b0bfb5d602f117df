-- ===== src/Cipher.antt =====
-- The cipher suites of cipherSuite.c, as the configuration in matrixConfig.h builds them: the table
-- `supportedCiphers`, its lookup, and the list that a ClientHello carries.
pub mod Suites
mod Tests
use robin_mesh_v.Prelude.{
  ℕ, ◌+◌, ◌-◌, ◌*◌, ◌/◌, ◌%◌, Option, none, some, List, [], ◌∷◌, ltb, ◌==◌, if◌then◌else◌, length,
}

-- `sslCipherSpec_t`. The seven callbacks are determined by `id`, so the row of the table is named
-- by its numbers.
pub record CipherSpec : Type 0 where
  pub id : ℕ
  pub mac_size : ℕ
  pub key_size : ℕ
  pub iv_size : ℕ
  pub block_size : ℕ

abbrev pub null_id : ℕ
null_id = 0x0000

abbrev pub rc4_md5_id : ℕ
rc4_md5_id = 0x0004

abbrev pub rc4_sha_id : ℕ
rc4_sha_id = 0x0005

abbrev pub des3_sha_id : ℕ
des3_sha_id = 0x000A

abbrev pub des3_sha : CipherSpec
des3_sha = record { id = des3_sha_id; mac_size = 20; key_size = 24; iv_size = 8; block_size = 8 }

abbrev pub rc4_sha : CipherSpec
rc4_sha = record { id = rc4_sha_id; mac_size = 20; key_size = 16; iv_size = 0; block_size = 1 }

abbrev pub rc4_md5 : CipherSpec
rc4_md5 = record { id = rc4_md5_id; mac_size = 16; key_size = 16; iv_size = 0; block_size = 1 }

abbrev pub null_spec : CipherSpec
null_spec = record { id = null_id; mac_size = 0; key_size = 0; iv_size = 0; block_size = 0 }

-- The suites before the NULL suite, which ends the table.
abbrev pub supported_ciphers : List CipherSpec
supported_ciphers = des3_sha ∷ rc4_sha ∷ rc4_md5 ∷ []

-- The `do … while` loop: the rows before NULL, then the NULL row itself.
find_spec : List CipherSpec → ℕ → Option CipherSpec
find_spec [] id = if null_id == id then some null_spec else none
find_spec (c ∷ cs) id = if c.id == id then some c else find_spec cs id

unfoldable pub get_cipher_spec : ℕ → Option CipherSpec
unfolding find_spec
get_cipher_spec id = find_spec supported_ciphers id

-- The suite numbers, two bytes each, network order; `left` is `end - c`.
write_suites : List CipherSpec → ℕ → Option (List ℕ)
write_suites [] left = some []
write_suites (c ∷ cs) left = if ltb left 2 then none else elim (write_suites cs (left - 2)) [
  | none ↦ none
  | some rest ↦ some (c.id / 256 % 256 ∷ c.id % 256 ∷ rest)
]

-- `none` is the return value -1; the bytes written and not their number are the result.
unfoldable pub get_cipher_spec_list : ℕ → Option (List ℕ)
unfolding write_suites
get_cipher_spec_list len =
    if ltb len 4 then none else elim (write_suites supported_ciphers (len - 2)) [
      | none ↦ none
      | some rest ↦
          let n : ℕ = length supported_ciphers * 2 in some (n / 256 % 256 ∷ n % 256 ∷ rest)
    ]

unfoldable pub get_cipher_spec_list_len : ℕ
get_cipher_spec_list_len = length supported_ciphers * 2 + 2
