-- ===== src/Mpi.antt =====
-- The big integers of src/crypto/peersec/mpi.c: comparison, addition, subtraction and multiplication by
-- a digit. An `mp_digit` has 32 bits, of which a digit uses 28; an `mp_word` has 64. A result may be
-- stored in an argument, since each digit is read before its place is written, so a function here gives
-- the value that its destination has afterwards.
pub mod Value
pub mod Compare
pub mod Sign
pub mod Refine
pub mod Order
pub mod Shift
pub mod Bits
mod Tests
use robin_mesh_v.Prelude.{
  ℕ, zero, suc, ◌+◌, ◌-◌, ◌*◌, ◌/◌, ◌%◌, ◌^◌, Bool, true, false, not, ◌&&◌, ◌||◌, Option, none,
  some, List, [], ◌∷◌, ltb, leb, ◌==◌, if◌then◌else◌, length, get_or, replicate, ◌++◌, drop,
}

-- `mp_int`: the number of digits that there is memory for, the sign, and the digits below `used`, the
-- lowest first. The digits from `used` on are zero.
pub record Mp : Type 0 where
  pub alloc : ℕ
  pub neg : Bool
  pub dp : List ℕ

-- MP_LT, MP_EQ, MP_GT.
pub data Cmp : Type 0 where
  mp_lt mp_eq mp_gt : Cmp

-- `mp_grow`, where `can` says whether memory for so many digits can be had; `none` is MP_MEM.
unfoldable pub mp_grow : (ℕ → Bool) → Mp → ℕ → Option Mp
mp_grow can a size =
    let size' = size + (64 * 2 - size % 64) in
    if ltb a.alloc size
    then if can size' then some (record a { alloc = size' }) else none
    else some a

-- The digits without the zeros at the top.
abbrev pub clamp_onto : ℕ → List ℕ → List ℕ
clamp_onto zero [] = []
clamp_onto (suc d) [] = suc d ∷ []
clamp_onto d (e ∷ ds) = d ∷ e ∷ ds

abbrev pub clamp : List ℕ → List ℕ
clamp [] = []
clamp (d ∷ ds) = clamp_onto d (clamp ds)

-- `mp_clamp`
unfoldable pub mp_clamp : Mp → Mp
mp_clamp a =
    let ds = clamp a.dp in record a { neg = if length ds == 0 then false else a.neg; dp = ds }

-- `mp_zero`, `mp_set`
unfoldable pub mp_zero : Mp → Mp
mp_zero a = record a { neg = false; dp = [] }

unfoldable pub mp_set : Mp → ℕ → Mp
mp_set a b = let d = b % 2 ^ 28 in record (mp_zero a) { dp = if d == 0 then [] else d ∷ [] }

abbrev pub cmp : ℕ → ℕ → Cmp
cmp a b = if ltb b a then mp_gt else if ltb a b then mp_lt else mp_eq

-- Digits of the same number, from the top; the first that differ decide.
abbrev pub cmp_onto : Cmp → Cmp → Cmp
cmp_onto mp_eq c = c
cmp_onto mp_lt c = mp_lt
cmp_onto mp_gt c = mp_gt

abbrev pub cmp_digits : List ℕ → List ℕ → Cmp
cmp_digits (a ∷ ds) (b ∷ es) = cmp_onto (cmp_digits ds es) (cmp a b)
cmp_digits _ _ = mp_eq

-- `mp_cmp_mag`
unfoldable pub mp_cmp_mag : Mp → Mp → Cmp
mp_cmp_mag a b =
    if ltb (length b.dp) (length a.dp)
    then mp_gt
    else if ltb (length a.dp) (length b.dp)
    then mp_lt
    else cmp_digits a.dp b.dp

abbrev pub same_sign : Bool → Bool → Bool
same_sign true b = b
same_sign false b = not b

-- `mp_cmp`
unfoldable pub mp_cmp : Mp → Mp → Cmp
mp_cmp a b =
    if not (same_sign a.neg b.neg)
    then (if a.neg then mp_lt else mp_gt)
    else if a.neg
    then mp_cmp_mag b a
    else mp_cmp_mag a b

-- The loop over the digits of the longer number, with the carry `u`, which is stored at the end.
abbrev pub carry_up : ℕ → List ℕ → List ℕ
carry_up u [] = u ∷ []
carry_up u (a ∷ ds) = let t = (a + u) % 2 ^ 32 in t % 2 ^ 28 ∷ carry_up (t / 2 ^ 28) ds

-- The loop over the digits of both, and that one behind it.
abbrev pub add_digits : ℕ → List ℕ → List ℕ → List ℕ
add_digits u [] es = carry_up u es
add_digits u (a ∷ ds) [] = carry_up u (a ∷ ds)
add_digits u (a ∷ ds) (b ∷ es) =
    let t = (a + b + u) % 2 ^ 32 in t % 2 ^ 28 ∷ add_digits (t / 2 ^ 28) ds es

-- Likewise for a difference, whose borrow is the top bit of the digit that has wrapped around.
abbrev pub borrow_up : ℕ → List ℕ → List ℕ
borrow_up u [] = []
borrow_up u (a ∷ ds) = let t = (a + 2 ^ 32 - u) % 2 ^ 32 in t % 2 ^ 28 ∷ borrow_up (t / 2 ^ 31) ds

abbrev pub sub_digits : ℕ → List ℕ → List ℕ → List ℕ
sub_digits u ds [] = borrow_up u ds
sub_digits u [] (b ∷ es) = []
sub_digits u (a ∷ ds) (b ∷ es) =
    let t = (a + 2 ^ 33 - b - u) % 2 ^ 32 in t % 2 ^ 28 ∷ sub_digits (t / 2 ^ 31) ds es

-- The products with a digit, each an `mp_word`, and the carry, an `mp_digit`.
abbrev pub mul_digits : ℕ → ℕ → List ℕ → List ℕ
mul_digits u b [] = u ∷ []
mul_digits u b (a ∷ ds) =
    let r = (u + a * b) % 2 ^ 64 in r % 2 ^ 28 ∷ mul_digits (r / 2 ^ 28 % 2 ^ 32) b ds

-- The digits are stored in a number that has been grown for them, and trimmed.
unfoldable pub store : List ℕ → Option Mp → Option Mp
store ds none = none
store ds (some c) = some (mp_clamp (record c { dp = ds }))

module _ (can : ℕ → Bool) where
  -- `s_mp_add`, `s_mp_sub`: the magnitudes; the sign of `c` stays.
  unfoldable pub s_mp_add : Mp → Mp → Mp → Option Mp
  s_mp_add a b c =
      let max = if ltb (length b.dp) (length a.dp) then length a.dp else length b.dp in
      store (add_digits 0 a.dp b.dp) (mp_grow can c (max + 1))

  unfoldable pub s_mp_sub : Mp → Mp → Mp → Option Mp
  s_mp_sub a b c = store (sub_digits 0 a.dp b.dp) (mp_grow can c (length a.dp))

  -- `mp_add`
  unfoldable pub mp_add : Mp → Mp → Mp → Option Mp
  mp_add a b c =
      if same_sign a.neg b.neg
      then s_mp_add a b (record c { neg = a.neg })
      else elim (mp_cmp_mag a b) [
        | mp_lt ↦ s_mp_sub b a (record c { neg = b.neg })
        | _ ↦ s_mp_sub a b (record c { neg = a.neg })
      ]

  -- `mp_sub`
  unfoldable pub mp_sub : Mp → Mp → Mp → Option Mp
  mp_sub a b c =
      if not (same_sign a.neg b.neg)
      then s_mp_add a b (record c { neg = a.neg })
      else elim (mp_cmp_mag a b) [
        | mp_lt ↦ s_mp_sub b a (record c { neg = not a.neg })
        | _ ↦ s_mp_sub a b (record c { neg = a.neg })
      ]

  -- `mp_mul_d`
  unfoldable pub mp_mul_d : Mp → ℕ → Mp → Option Mp
  mp_mul_d a b c =
      store (mul_digits 0 b a.dp) (mp_grow can (record c { neg = a.neg }) (length a.dp + 1))
