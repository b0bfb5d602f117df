-- ===== src/Hash.antt =====
-- The part that src/crypto/peersec/md5.c and src/crypto/peersec/sha1.c share: a context that collects
-- bytes in blocks of 64, and the padding at the end. The files write it out twice, around their own
-- `compress` and their own order of the bytes of the length. `USE_INT64` holds, and `psZeromem` at the
-- end, which clears a context that is not used again, is left out.
pub mod Stream
pub mod Final
pub mod Md5
pub mod Sha1
pub mod Whole
mod Tests
use robin_mesh_v.Prelude.{
  ℕ, zero, suc, ◌+◌, ◌-◌, ◌*◌, ◌/◌, ◌%◌, ◌^◌, min, List, [], ◌∷◌, ◌++◌, ltb, ◌==◌, if◌then◌else◌,
  length, take, drop, replicate, bit_or,
}

-- `md5_state`, `sha1_state`: `buf` holds the first `curlen` bytes of the array of 64.
pub record HashState (S : Type 0) : Type 0 where
  pub len : ℕ
  pub state : S
  pub buf : List ℕ

-- ROL, for a rotation by 1 to 31 bits.
unfoldable pub rol : ℕ → ℕ → ℕ
rol x y = bit_or (x * 2 ^ y % 2 ^ 32) (x % 2 ^ 32 / 2 ^ (32 - y))

-- STORE32L, STORE32H, STORE64L, STORE64H.
abbrev pub store32l : ℕ → List ℕ
store32l x = x % 256 ∷ x / 2 ^ 8 % 256 ∷ x / 2 ^ 16 % 256 ∷ x / 2 ^ 24 % 256 ∷ []

abbrev pub store32h : ℕ → List ℕ
store32h x = x / 2 ^ 24 % 256 ∷ x / 2 ^ 16 % 256 ∷ x / 2 ^ 8 % 256 ∷ x % 256 ∷ []

abbrev pub store64l : ℕ → List ℕ
store64l x = store32l (x % 2 ^ 32) ++ store32l (x / 2 ^ 32)

abbrev pub store64h : ℕ → List ℕ
store64h x = store32h (x / 2 ^ 32) ++ store32h (x % 2 ^ 32)

-- LOAD32L, LOAD32H, over a whole block.
abbrev pub load32l : List ℕ → List ℕ
load32l (a ∷ b ∷ c ∷ d ∷ bs) = (d * 2 ^ 24 + c * 2 ^ 16 + b * 2 ^ 8 + a) ∷ load32l bs
load32l _ = []

abbrev pub load32h : List ℕ → List ℕ
load32h (a ∷ b ∷ c ∷ d ∷ bs) = (a * 2 ^ 24 + b * 2 ^ 16 + c * 2 ^ 8 + d) ∷ load32h bs
load32h _ = []

module _ {S : Type 0} (compress : List ℕ → S → S) where
  -- The test whether 64 bytes are full.
  unfoldable pub flush : HashState S → HashState S
  flush h =
      if length h.buf == 64
      then record { len = (h.len + 512) % 2 ^ 64; state = compress h.buf h.state; buf = [] }
      else h

  -- The loop of `matrixMd5Update` and `matrixSha1Update`.
  unfoldable pub update_loop : ℕ → HashState S → List ℕ → HashState S
  update_loop zero h bytes = h
  update_loop (suc fuel) h [] = h
  update_loop (suc fuel) h (b ∷ bytes) =
      let n = min (length (b ∷ bytes)) (64 - length h.buf) in
      update_loop fuel (flush (record h { buf = h.buf ++ take n (b ∷ bytes) })) (drop n (b ∷ bytes))

  -- Each round takes a byte at least.
  unfoldable pub update : HashState S → List ℕ → HashState S
  update h bytes = update_loop (length bytes) h bytes

  -- With the 1 bit behind the bytes: zeros up to a whole block, where less than eight bytes are left.
  unfoldable pub spill : HashState S → HashState S
  spill h =
      if ltb 56 (length h.buf)
      then record h {
        state = compress (h.buf ++ replicate (64 - length h.buf) 0) h.state;
        buf = [];
      }
      else h

  -- The zeros and the length, which `store` writes.
  unfoldable pub seal : (ℕ → List ℕ) → HashState S → S
  seal store h = compress (h.buf ++ (replicate (56 - length h.buf) 0 ++ store h.len)) h.state

  -- `matrixMd5Final` and `matrixSha1Final`, up to the output.
  unfoldable pub finish : (ℕ → List ℕ) → HashState S → S
  finish store h =
      seal store
        (spill (record h { len = (h.len + length h.buf * 8) % 2 ^ 64; buf = h.buf ++ (0x80 ∷ []) }))
