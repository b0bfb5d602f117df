-- ===== src/Hash/Md5.antt =====
-- src/crypto/peersec/md5.c, with `SMALL_CODE` as pscrypto.h has it. A word is a number below 2 ^ 32:
-- where `unsigned long` is wider, what is above is never looked at.
use robin_mesh_v.Prelude.{
  ℕ, zero, suc, ◌+◌, ◌-◌, ◌%◌, ◌^◌, List, [], ◌∷◌, ◌++◌, get_or, bit_and, bit_or, bit_xor,
}
use robin_mesh_v.Hash.{HashState, rol, store32l, store64l, load32l, update, finish}

-- The state, and the four variables of the rounds.
pub record Md5 : Type 0 where
  pub a : ℕ
  pub b : ℕ
  pub c : ℕ
  pub d : ℕ

-- F, G, H and I.
abbrev pub mix_f : ℕ → ℕ → ℕ → ℕ
mix_f x y z = bit_xor z (bit_and x (bit_xor y z))

abbrev pub mix_g : ℕ → ℕ → ℕ → ℕ
mix_g x y z = bit_xor y (bit_and z (bit_xor y x))

abbrev pub mix_h : ℕ → ℕ → ℕ → ℕ
mix_h x y z = bit_xor (bit_xor x y) z

abbrev pub mix_i : ℕ → ℕ → ℕ → ℕ
mix_i x y z = bit_xor y (bit_or x (2 ^ 32 - 1 - z))

-- Worder, Rorder, Korder
abbrev pub w_order : List ℕ
w_order =
    0 ∷ 1 ∷ 2 ∷ 3 ∷ 4 ∷ 5 ∷ 6 ∷ 7 ∷ 8 ∷ 9 ∷ 10 ∷ 11 ∷ 12 ∷ 13 ∷ 14 ∷ 15 ∷ 1 ∷ 6 ∷ 11 ∷ 0 ∷ 5 ∷ 10
    ∷ 15 ∷ 4 ∷ 9 ∷ 14 ∷ 3 ∷ 8 ∷ 13 ∷ 2 ∷ 7 ∷ 12 ∷ 5 ∷ 8 ∷ 11 ∷ 14 ∷ 1 ∷ 4 ∷ 7 ∷ 10 ∷ 13 ∷ 0 ∷ 3 ∷ 6
    ∷ 9 ∷ 12 ∷ 15 ∷ 2 ∷ 0 ∷ 7 ∷ 14 ∷ 5 ∷ 12 ∷ 3 ∷ 10 ∷ 1 ∷ 8 ∷ 15 ∷ 6 ∷ 13 ∷ 4 ∷ 11 ∷ 2 ∷ 9 ∷ []

abbrev pub r_order : List ℕ
r_order =
    7 ∷ 12 ∷ 17 ∷ 22 ∷ 7 ∷ 12 ∷ 17 ∷ 22 ∷ 7 ∷ 12 ∷ 17 ∷ 22 ∷ 7 ∷ 12 ∷ 17 ∷ 22 ∷ 5 ∷ 9 ∷ 14 ∷ 20 ∷ 5
    ∷ 9 ∷ 14 ∷ 20 ∷ 5 ∷ 9 ∷ 14 ∷ 20 ∷ 5 ∷ 9 ∷ 14 ∷ 20 ∷ 4 ∷ 11 ∷ 16 ∷ 23 ∷ 4 ∷ 11 ∷ 16 ∷ 23 ∷ 4 ∷ 11
    ∷ 16 ∷ 23 ∷ 4 ∷ 11 ∷ 16 ∷ 23 ∷ 6 ∷ 10 ∷ 15 ∷ 21 ∷ 6 ∷ 10 ∷ 15 ∷ 21 ∷ 6 ∷ 10 ∷ 15 ∷ 21 ∷ 6 ∷ 10
    ∷ 15 ∷ 21 ∷ []

abbrev pub k_order : List ℕ
k_order =
    0xd76aa478 ∷ 0xe8c7b756 ∷ 0x242070db ∷ 0xc1bdceee ∷ 0xf57c0faf ∷ 0x4787c62a ∷ 0xa8304613
    ∷ 0xfd469501 ∷ 0x698098d8 ∷ 0x8b44f7af ∷ 0xffff5bb1 ∷ 0x895cd7be ∷ 0x6b901122 ∷ 0xfd987193
    ∷ 0xa679438e ∷ 0x49b40821 ∷ 0xf61e2562 ∷ 0xc040b340 ∷ 0x265e5a51 ∷ 0xe9b6c7aa ∷ 0xd62f105d
    ∷ 0x02441453 ∷ 0xd8a1e681 ∷ 0xe7d3fbc8 ∷ 0x21e1cde6 ∷ 0xc33707d6 ∷ 0xf4d50d87 ∷ 0x455a14ed
    ∷ 0xa9e3e905 ∷ 0xfcefa3f8 ∷ 0x676f02d9 ∷ 0x8d2a4c8a ∷ 0xfffa3942 ∷ 0x8771f681 ∷ 0x6d9d6122
    ∷ 0xfde5380c ∷ 0xa4beea44 ∷ 0x4bdecfa9 ∷ 0xf6bb4b60 ∷ 0xbebfbc70 ∷ 0x289b7ec6 ∷ 0xeaa127fa
    ∷ 0xd4ef3085 ∷ 0x04881d05 ∷ 0xd9d4d039 ∷ 0xe6db99e5 ∷ 0x1fa27cf8 ∷ 0xc4ac5665 ∷ 0xf4292244
    ∷ 0x432aff97 ∷ 0xab9423a7 ∷ 0xfc93a039 ∷ 0x655b59c3 ∷ 0x8f0ccc92 ∷ 0xffeff47d ∷ 0x85845dd1
    ∷ 0x6fa87e4f ∷ 0xfe2ce6e0 ∷ 0xa3014314 ∷ 0x4e0811a1 ∷ 0xf7537e82 ∷ 0xbd3af235 ∷ 0x2ad7d2bb
    ∷ 0xeb86d391 ∷ 0xe1f27f3a ∷ 0xf5710fb0 ∷ 0xada0e5c4 ∷ 0x98e4c919 ∷ []

-- FF, GG, HH and II, and the rotation of the four variables behind them.
unfoldable pub md5_round : (ℕ → ℕ → ℕ → ℕ) → Md5 → ℕ → ℕ → ℕ → Md5
md5_round mix r m s t =
    let sum = (r.a + mix r.b r.c r.d + m + t) % 2 ^ 32 in
    record { a = r.d; b = (rol sum s + r.b) % 2 ^ 32; c = r.b; d = r.c }

-- One of the four loops, from the round `i` on.
unfoldable pub md5_rounds : (ℕ → ℕ → ℕ → ℕ) → ℕ → ℕ → List ℕ → Md5 → Md5
md5_rounds mix zero i w r = r
md5_rounds mix (suc n) i w r =
    md5_rounds mix n (i + 1) w
      (md5_round mix r (get_or w (get_or w_order i 0) 0) (get_or r_order i 0) (get_or k_order i 0))

-- `md5_compress`
unfoldable pub md5_compress : List ℕ → Md5 → Md5
md5_compress block h =
    let w = load32l block in
    let r =
      md5_rounds mix_i 16 48 w
        (md5_rounds mix_h 16 32 w (md5_rounds mix_g 16 16 w (md5_rounds mix_f 16 0 w h))) in
    record {
      a = (h.a + r.a) % 2 ^ 32;
      b = (h.b + r.b) % 2 ^ 32;
      c = (h.c + r.c) % 2 ^ 32;
      d = (h.d + r.d) % 2 ^ 32;
    }

-- `matrixMd5Init`
unfoldable pub matrix_md5_init : HashState Md5
matrix_md5_init = record {
  len = 0;
  state = record { a = 0x67452301; b = 0xefcdab89; c = 0x98badcfe; d = 0x10325476 };
  buf = [];
}

-- `matrixMd5Update`
unfoldable pub matrix_md5_update : HashState Md5 → List ℕ → HashState Md5
matrix_md5_update h bytes = update md5_compress h bytes

-- The output, `state` word by word.
unfoldable pub md5_output : Md5 → List ℕ
md5_output h = store32l h.a ++ (store32l h.b ++ (store32l h.c ++ store32l h.d))

-- `matrixMd5Final`: the 16 bytes of `hash`.
unfoldable pub matrix_md5_final : HashState Md5 → List ℕ
matrix_md5_final h = md5_output (finish md5_compress store64l h)
