-- ===== src/Rsa.antt =====
-- The padding of PKCS #1 v1.5 and its removal, of src/crypto/peersec/rsa.c. The random source, sslGetEntropy
-- of the operating system layer, is a parameter, `none` for an error.
pub mod Padding
pub mod RoundTrip
mod Tests
use robin_mesh_v.Prelude.{
  ℕ, zero, suc, ◌+◌, ◌-◌, Bool, true, false, not, ◌&&◌, ◌||◌, Option, none, some, List, [], ◌∷◌,
  ◌++◌, map, replicate, ltb, ◌==◌, if◌then◌else◌, length,
}

abbrev pub rsa_public : ℕ
rsa_public = 1

-- A random byte of zero is changed to one.
abbrev pub no_zero : ℕ → ℕ
no_zero zero = 1
no_zero (suc b) = suc b

unfoldable pub pad_random : ℕ → List ℕ → Option (List ℕ) → Option (List ℕ)
pad_random t bytes none = none
pad_random t bytes (some fill) = some (0 ∷ t ∷ (map no_zero fill ++ (0 ∷ bytes)))

-- `sslPadRSA`
unfoldable pub ssl_pad_rsa : (ℕ → Option (List ℕ)) → List ℕ → ℕ → ℕ → Option (List ℕ)
ssl_pad_rsa entropy bytes outlen t =
    let random_len = outlen - 3 - length bytes in
    if ltb outlen (3 + length bytes + 8)
    then none
    else if t == rsa_public
    then some (0 ∷ t ∷ (replicate random_len 0xFF ++ (0 ∷ bytes)))
    else pad_random t bytes (entropy random_len)

-- The loop over the padding: what follows its zero, `none` for an error. Where no zero is found, `c` is
-- behind the end, which is never the length expected.
abbrev pub skip_pad : ℕ → List ℕ → Option (List ℕ)
skip_pad t [] = none
skip_pad t (zero ∷ c) = some c
skip_pad t (suc b ∷ c) =
    let rest = skip_pad t c in if t == rsa_public && not (suc b == 0xFF) then none else rest

-- The length of what follows.
abbrev pub check_len : ℕ → Option (List ℕ) → Option (List ℕ)
check_len outlen none = none
check_len outlen (some c) = if length c == outlen then some c else none

abbrev pub unpad_start : ℕ → ℕ → List ℕ → Option (List ℕ)
unpad_start t outlen (a ∷ b ∷ c) =
    if not (a == 0) || not (b == t) then none else check_len outlen (skip_pad t c)
unpad_start t outlen _ = none

-- `sslUnpadRSA`
unfoldable pub ssl_unpad_rsa : List ℕ → ℕ → ℕ → Option (List ℕ)
ssl_unpad_rsa bytes outlen t =
    if ltb (length bytes) (outlen + 10) then none else unpad_start t outlen bytes
