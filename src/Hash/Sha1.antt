-- ===== src/Hash/Sha1.antt =====
-- src/crypto/peersec/sha1.c, with `SMALL_CODE` as pscrypto.h has it. A word is a number below 2 ^ 32:
-- where `unsigned long` is wider, what is above is never looked at.
use robin_mesh_v.Prelude.{
  ℕ, zero, suc, ◌+◌, ◌%◌, ◌^◌, Option, none, some, List, [], ◌∷◌, ◌++◌, get_or, leb, if◌then◌else◌,
  length, bit_and, bit_or, bit_xor,
}
use robin_mesh_v.Hash.{HashState, rol, store32h, store64h, load32h, update, finish}

-- The state, and the five variables of the rounds.
pub record Sha1 : Type 0 where
  pub a : ℕ
  pub b : ℕ
  pub c : ℕ
  pub d : ℕ
  pub e : ℕ

-- F0, F1 and F3, F2.
abbrev pub choose : ℕ → ℕ → ℕ → ℕ
choose x y z = bit_xor z (bit_and x (bit_xor y z))

abbrev pub parity : ℕ → ℕ → ℕ → ℕ
parity x y z = bit_xor (bit_xor x y) z

abbrev pub majority : ℕ → ℕ → ℕ → ℕ
majority x y z = bit_or (bit_and x y) (bit_and z (bit_or x y))

-- The loop that expands `W`; the words are kept from the last to the first.
unfoldable pub expand : ℕ → List ℕ → List ℕ
expand zero w = w
expand (suc n) w = expand n (
    rol (bit_xor (bit_xor (bit_xor (get_or w 2 0) (get_or w 7 0)) (get_or w 13 0)) (get_or w 15 0))
      1
    ∷ w)

abbrev pub reverse_onto : List ℕ → List ℕ → List ℕ
reverse_onto [] ys = ys
reverse_onto (x ∷ xs) ys = reverse_onto xs (x ∷ ys)

-- FF0 to FF3, and the rotation of the five variables behind them.
unfoldable pub sha1_round : (ℕ → ℕ → ℕ → ℕ) → ℕ → Sha1 → ℕ → Sha1
sha1_round mix k r w = record {
  a = (rol r.a 5 + mix r.b r.c r.d + r.e + w + k) % 2 ^ 32;
  b = r.a;
  c = rol r.b 30;
  d = r.c;
  e = r.d;
}

-- One of the four loops, from the round `i` on.
unfoldable pub sha1_rounds : (ℕ → ℕ → ℕ → ℕ) → ℕ → ℕ → ℕ → List ℕ → Sha1 → Sha1
sha1_rounds mix k zero i w r = r
sha1_rounds mix k (suc n) i w r = sha1_rounds mix k n (i + 1) w (sha1_round mix k r (get_or w i 0))

-- `sha1_compress`
unfoldable pub sha1_compress : List ℕ → Sha1 → Sha1
sha1_compress block h =
    let w = reverse_onto (expand 64 (reverse_onto (load32h block) [])) [] in
    let r = sha1_rounds parity 0xca62c1d6 20 60 w (
      sha1_rounds majority 0x8f1bbcdc 20 40 w
        (sha1_rounds parity 0x6ed9eba1 20 20 w (sha1_rounds choose 0x5a827999 20 0 w h))) in
    record {
      a = (h.a + r.a) % 2 ^ 32;
      b = (h.b + r.b) % 2 ^ 32;
      c = (h.c + r.c) % 2 ^ 32;
      d = (h.d + r.d) % 2 ^ 32;
      e = (h.e + r.e) % 2 ^ 32;
    }

-- `matrixSha1Init`
unfoldable pub matrix_sha1_init : HashState Sha1
matrix_sha1_init = record {
  len = 0;
  state = record { a = 0x67452301; b = 0xefcdab89; c = 0x98badcfe; d = 0x10325476; e = 0xc3d2e1f0 };
  buf = [];
}

-- `matrixSha1Update`
unfoldable pub matrix_sha1_update : HashState Sha1 → List ℕ → HashState Sha1
matrix_sha1_update h bytes = update sha1_compress h bytes

-- The output, `state` word by word.
unfoldable pub sha1_output : Sha1 → List ℕ
sha1_output h = store32h h.a ++ (store32h h.b ++ (store32h h.c ++ (store32h h.d ++ store32h h.e)))

-- `matrixSha1Final`: the 20 bytes of `hash`, or -1.
unfoldable pub matrix_sha1_final : HashState Sha1 → Option (List ℕ)
matrix_sha1_final h =
    if leb 64 (length h.buf) then none else some (sha1_output (finish sha1_compress store64h h))
