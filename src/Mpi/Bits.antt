-- ===== src/Mpi/Bits.antt =====
-- The operations of src/crypto/peersec/mpi.c that see a big integer as bits and bytes: copying, shifts by
-- bits, and the unsigned form with the highest byte first.
pub mod Apart
pub mod Shifted
pub mod Read
pub mod Write
pub mod Size
use robin_mesh_v.Prelude.{
  ℕ, zero, suc, ◌+◌, ◌-◌, ◌*◌, ◌/◌, ◌%◌, ◌^◌, Bool, true, false, Option, none, some, List, [], ◌∷◌,
  ◌++◌, leb, ltb, ◌==◌, if◌then◌else◌, length, get_or, bit_or,
}
use robin_mesh_v.Mpi.{Mp, mp_grow, mp_zero, mp_clamp}
use robin_mesh_v.Mpi.Shift.{store_all, mp_lshd, mp_rshd}

-- The next step, where there was memory.
abbrev pub and_then : {Y : Type 0} → Option Mp → (Mp → Option Y) → Option Y
and_then none f = none
and_then (some c) f = f c

-- `mp_init`
abbrev pub mp_init : (ℕ → Bool) → Option Mp
mp_init can = if can 64 then some (record { alloc = 64; neg = false; dp = [] }) else none

-- `mp_copy`, to another number.
unfoldable pub mp_copy : (ℕ → Bool) → Mp → Mp → Option Mp
mp_copy can a b = store_all a.dp (mp_grow can (record b { neg = a.neg }) (length a.dp))

-- The last carry of `mp_mul_2d`, which is stored where it is not zero.
abbrev pub last_carry : ℕ → List ℕ
last_carry zero = []
last_carry (suc r) = suc r ∷ []

-- The loop of `mp_mul_2d` over the digits, with the carry `r`.
abbrev pub up_digits : ℕ → ℕ → List ℕ → List ℕ
up_digits d r [] = last_carry r
up_digits d r (a ∷ ds) =
    bit_or (a * 2 ^ d % 2 ^ 32) r % 2 ^ 28 ∷ up_digits d (a / 2 ^ (28 - d) % 2 ^ d) ds

-- `mp_mul_2d` for a number that is shifted in its place.
unfoldable pub mul_2d_here : (ℕ → Bool) → Mp → ℕ → Option Mp
mul_2d_here can c b = and_then (mp_grow can c (length c.dp + b / 28 + 1)) (λ c.
    and_then (if leb 28 b then mp_lshd can c (b / 28) else some c) (λ c.
      some (mp_clamp (if b % 28 == 0 then c else record c { dp = up_digits (b % 28) 0 c.dp }))))

-- `mp_mul_2d`
unfoldable pub mp_mul_2d : (ℕ → Bool) → Mp → ℕ → Mp → Option Mp
mp_mul_2d can a b c = and_then (mp_copy can a c) (λ c. mul_2d_here can c b)

-- The carry that the loop of `mp_div_2d` brings from the digits above.
abbrev pub low_bits : ℕ → List ℕ → ℕ
low_bits d [] = 0
low_bits d (a ∷ ds) = a % 2 ^ d

-- That loop, from the top.
abbrev pub down_digits : ℕ → List ℕ → List ℕ
down_digits d [] = []
down_digits d (a ∷ ds) =
    bit_or (a / 2 ^ d) (low_bits d ds * 2 ^ (28 - d) % 2 ^ 32) ∷ down_digits d ds

-- `mp_div_2d` for a number that is shifted in its place, without the remainder.
unfoldable pub div_2d_here : (ℕ → Bool) → Mp → ℕ → Option Mp
div_2d_here can c zero = some c
div_2d_here can c (suc b) = and_then (mp_init can) (λ t.
    let c = if leb 28 (suc b) then mp_rshd c (suc b / 28) else c in
    some
      (mp_clamp (if suc b % 28 == 0 then c else record c { dp = down_digits (suc b % 28) c.dp })))

-- `a->dp[0] |= *b++; a->used += 1;`, where the digits from `used` on are zero.
abbrev pub add_byte : ℕ → List ℕ → List ℕ
add_byte b [] = bit_or 0 b ∷ []
add_byte b (d ∷ ds) = bit_or d b ∷ ds ++ (0 ∷ [])

-- The loop of `mp_read_unsigned_bin`.
unfoldable pub read_bytes : (ℕ → Bool) → Mp → List ℕ → Option Mp
read_bytes can a [] = some (mp_clamp a)
read_bytes can a (b ∷ bs) =
    and_then (mul_2d_here can a 8) (λ a. read_bytes can (record a { dp = add_byte b a.dp }) bs)

-- `mp_read_unsigned_bin`
unfoldable pub mp_read_unsigned_bin : (ℕ → Bool) → Mp → List ℕ → Option Mp
mp_read_unsigned_bin can a bs =
    and_then (if ltb a.alloc 2 then mp_grow can a 2 else some a)
      (λ a. read_bytes can (mp_zero a) bs)

-- One more byte in front of those above it, where they could be written.
abbrev pub in_front : ℕ → Option (List ℕ) → Option (List ℕ)
in_front b none = none
in_front b (some bs) = some (bs ++ (b ∷ []))

-- The loop of `mp_to_unsigned_bin`, whose bytes `bn_reverse` puts in order: each goes behind those that
-- the later rounds write.
unfoldable pub write_bytes : (ℕ → Bool) → ℕ → Mp → Option (List ℕ)
write_bytes can zero t = some []
write_bytes can (suc fuel) t =
    if length t.dp == 0
    then some []
    else in_front (get_or t.dp 0 0 % 2 ^ 8)
        (and_then (div_2d_here can t 8) (λ t. write_bytes can fuel t))

-- `mp_to_unsigned_bin`: a number has four bytes at most in each digit.
unfoldable pub mp_to_unsigned_bin : (ℕ → Bool) → Mp → Option (List ℕ)
mp_to_unsigned_bin can a =
    and_then (mp_init can)
      (λ t. and_then (mp_copy can a t) (λ t. write_bytes can (4 * length a.dp + 1) t))

-- The bits of a digit, of which there are 32 at most.
abbrev pub digit_bits : ℕ → ℕ → ℕ
digit_bits fuel zero = 0
digit_bits zero (suc q) = 0
digit_bits (suc fuel) (suc q) = suc (digit_bits fuel (suc q / 2))

-- `mp_count_bits`
unfoldable pub mp_count_bits : Mp → ℕ
mp_count_bits a =
    if length a.dp == 0
    then 0
    else (length a.dp - 1) * 28 + digit_bits 32 (get_or a.dp (length a.dp - 1) 0)

-- `mp_unsigned_bin_size`
unfoldable pub mp_unsigned_bin_size : Mp → ℕ
mp_unsigned_bin_size a = let size = mp_count_bits a in size / 8 + (if size % 8 == 0 then 0 else 1)
