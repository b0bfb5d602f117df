-- ===== src/Mpi/Shift.antt =====
-- The shifts of src/crypto/peersec/mpi.c by one bit and by whole digits. For digits of 28 bits the bits
-- that `|` joins are apart, and it is written as a sum.
pub mod Halves
pub mod Digits
use robin_mesh_v.Prelude.{
  ℕ, zero, suc, ◌+◌, ◌-◌, ◌*◌, ◌/◌, ◌%◌, ◌^◌, Bool, false, Option, none, some, List, [], ◌∷◌, leb,
  ◌==◌, if◌then◌else◌, length, replicate, ◌++◌, drop,
}
use robin_mesh_v.Mpi.{Mp, mp_grow, mp_zero, store}

-- The new leading digit of `mp_mul_2`, for the last carry.
abbrev pub leading_digit : ℕ → List ℕ
leading_digit zero = []
leading_digit (suc r) = 1 ∷ []

-- The loop of `mp_mul_2`, with the carry `r`.
abbrev pub double_digits : ℕ → List ℕ → List ℕ
double_digits r [] = leading_digit r
double_digits r (a ∷ ds) = (a * 2 % 2 ^ 32 + r) % 2 ^ 28 ∷ double_digits (a / 2 ^ 27) ds

-- The carry out of the digits above.
abbrev pub low_bit : List ℕ → ℕ
low_bit [] = 0
low_bit (a ∷ ds) = a % 2

-- The loop of `mp_div_2`, from the top.
abbrev pub halve_digits : List ℕ → List ℕ
halve_digits [] = []
halve_digits (a ∷ ds) = (a / 2 + low_bit ds * 2 ^ 27) ∷ halve_digits ds

-- The digits are stored as they are.
unfoldable pub store_all : List ℕ → Option Mp → Option Mp
store_all ds none = none
store_all ds (some c) = some (record c { dp = ds })

-- `mp_mul_2`
unfoldable pub mp_mul_2 : (ℕ → Bool) → Mp → Mp → Option Mp
mp_mul_2 can a b =
    store_all (double_digits 0 a.dp) (mp_grow can (record b { neg = a.neg }) (length a.dp + 1))

-- `mp_div_2`
unfoldable pub mp_div_2 : (ℕ → Bool) → Mp → Mp → Option Mp
mp_div_2 can a b = store (halve_digits a.dp) (mp_grow can (record b { neg = a.neg }) (length a.dp))

-- `mp_lshd`, for a shift that is not negative; a zero that is shifted keeps the digits.
unfoldable pub mp_lshd : (ℕ → Bool) → Mp → ℕ → Option Mp
mp_lshd can a zero = some a
mp_lshd can a (suc b) =
    store_all (replicate (suc b) 0 ++ a.dp) (mp_grow can a (length a.dp + suc b))

-- `mp_rshd`
unfoldable pub mp_rshd : Mp → ℕ → Mp
mp_rshd a b = if leb (length a.dp) b then mp_zero a else record a { dp = drop b a.dp }
