-- ===== src/Cipher/Suites.antt =====
-- The list of suites that a client offers, of cipherSuite.c.
use robin_mesh_v.Prelude.{
  ℕ, ◌-◌, ◌≡◌, ◌≤◌, ◌<◌, ◌↔◌, refl, false, ltb, arith, none, some, List, length,
}
use robin_mesh_v.Cipher.{write_suites, get_cipher_spec_list, get_cipher_spec_list_len}

-- `sslGetCipherSpecList` fails exactly where the buffer is shorter than `sslGetCipherSpecListLen`
-- says, and else writes that many bytes.
get_cipher_spec_list-length :
    (len : ℕ)
    → ((get_cipher_spec_list len ≡ none) ↔ (len < get_cipher_spec_list_len))
      × ((bytes : List ℕ)
          → get_cipher_spec_list len ≡ some bytes
          → length bytes ≡ get_cipher_spec_list_len)
unfolding get_cipher_spec_list get_cipher_spec_list_len write_suites
get_cipher_spec_list-length len = (ground arith, λ bytes h. ground arith)

-- The list does not depend on the buffer's length where it fits.
pub get_cipher_spec_list-same :
    (left : ℕ) → 8 ≤ left → get_cipher_spec_list left ≡ get_cipher_spec_list 8
unfolding get_cipher_spec_list write_suites
get_cipher_spec_list-same left h =
    let a : ltb left 4 ≡ false = ground arith in
    let b : ltb (left - 2) 2 ≡ false = ground arith in
    let c : ltb (left - 2 - 2) 2 ≡ false = ground arith in
    let d : ltb (left - 2 - 2 - 2) 2 ≡ false = ground arith in rw (a, b, c, d) refl
