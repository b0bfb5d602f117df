-- ===== src/Mpi/Shift/Halves.antt =====
-- Doubling and halving as operations on integers.
use robin_mesh_v.Prelude.{
  ℕ, zero, suc, ◌+◌, ◌*◌, ◌/◌, ◌%◌, ◌^◌, ◌≤◌, ◌<◌, ◌≡◌, refl, ap, ◌∙◌, Bool, true, false, Option,
  none, List, [], ◌∷◌, ℤ, pos, negsuc, arith, length,
}
use robin_mesh_v.Mpi.{Mp}
use robin_mesh_v.Mpi.Value.{value, IsDigits, IsClamped, empty, top, above}
use robin_mesh_v.Mpi.Sign.{of_sign}
use robin_mesh_v.Mpi.Refine.{
  Represents, Outcome, no_memory, made, Grown, refused, grown, mp_grow-Grown, store-Outcome,
}
use robin_mesh_v.Mpi.Order.{times, of_sign-times}
use robin_mesh_v.Mpi.Shift.{double_digits, low_bit, halve_digits, store_all, mp_mul_2, mp_div_2}

value-double_digits :
    (r : ℕ) (ds : List ℕ) → IsDigits ds → r ≤ 1 → value (double_digits r ds) ≡ value ds * 2 + r
value-double_digits zero [] i l = refl
value-double_digits (suc zero) [] i l = refl
value-double_digits (suc (suc r)) [] i l = absurd (omega arith)
value-double_digits r (a ∷ ds) i l =
    let rest = value-double_digits (a / 2 ^ 27) ds (i.1) (omega (arith, i.0)) in
    omega (arith, rest, i.0)

double_digits-IsDigits : (r : ℕ) (ds : List ℕ) → IsDigits (double_digits r ds)
double_digits-IsDigits zero [] = _
double_digits-IsDigits (suc r) [] = (omega arith, _)
double_digits-IsDigits r (a ∷ ds) = (omega arith, double_digits-IsDigits (a / 2 ^ 27) ds)

length-double_digits : (r : ℕ) (ds : List ℕ) → length (double_digits r ds) ≤ length ds + 1
length-double_digits zero [] = omega arith
length-double_digits (suc r) [] = omega arith
length-double_digits r (a ∷ ds) = omega (arith, length-double_digits (a / 2 ^ 27) ds)

-- A top digit whose doubling is cut to zero leaves a new leading digit.
doubled_top :
    (r d q : ℕ)
    → r ≤ 1
    → 0 < d
    → d < 2 ^ 28
    → q ≡ d / 2 ^ 27
    → IsClamped ((d * 2 % 2 ^ 32 + r) % 2 ^ 28 ∷ double_digits q [])
doubled_top r d zero b l h e = top _ (omega arith)
doubled_top r d (suc q) b l h e = above _ 1 [] (top 1 (omega arith))

double_digits-IsClamped :
    (r : ℕ) (ds : List ℕ) → IsDigits ds → IsClamped ds → r ≤ 1 → IsClamped (double_digits r ds)
double_digits-IsClamped zero [] i empty h = empty
double_digits-IsClamped (suc r) [] i empty h = top 1 (omega arith)
double_digits-IsClamped r (d ∷ []) i (top _ l) h = doubled_top r d (d / 2 ^ 27) h l (i.0) refl
double_digits-IsClamped r (d ∷ e ∷ ds) i (above _ _ _ c) h =
    above _ _ _ (double_digits-IsClamped (d / 2 ^ 27) (e ∷ ds) (i.1) c (omega (arith, i.0)))

unsigned_double :
    (s : Bool) (ds : List ℕ)
    → (length ds ≡ 0 → s ≡ false)
    → length (double_digits 0 ds) ≡ 0
    → s ≡ false
unsigned_double s [] u e = u refl
unsigned_double s (d ∷ ds) u e = absurd (omega (arith, e))

-- mp_mul_2 on a number in good order gives, unless memory is refused, a number in good order that stands
-- for twice the integer, though it is not trimmed.
mp_mul_2-Outcome :
    (can : ℕ → Bool) (a b : Mp) {m : ℤ}
    → Represents a m
    → Outcome can (times m 2) (mp_mul_2 can a b)
unfolding mp_mul_2 store_all
mp_mul_2-Outcome can a b {m} p =
    go _ (mp_grow-Grown can (record b { neg = a.neg }) (length a.dp + 1))
  where
    go :
        (o : Option Mp)
        → Grown can (record b { neg = a.neg }) (length a.dp + 1) o
        → Outcome can (times m 2) (store_all (double_digits 0 a.dp) o)
    go none (refused n f) = no_memory n f
    go _ (grown alloc f) = made _ (record {
      digits = double_digits-IsDigits 0 a.dp;
      clamped = double_digits-IsClamped 0 a.dp p.digits p.clamped (omega arith);
      fits = omega (arith, length-double_digits 0 a.dp);
      unsigned = unsigned_double a.neg a.dp p.unsigned;
      is =
          ap (of_sign a.neg) (omega (arith, value-double_digits 0 a.dp p.digits (omega arith)))
          ∙ of_sign-times a.neg (value a.dp) 2
          ∙ ap (λ z. times z 2) p.is;
    })

-- Half an integer, towards zero.
abbrev half : ℤ → ℤ
half (pos m) = pos (m / 2)
half (negsuc m) = of_sign true (suc m / 2)

of_sign-half : (s : Bool) (m : ℕ) → of_sign s (m / 2) ≡ half (of_sign s m)
of_sign-half false m = refl
of_sign-half true zero = refl
of_sign-half true (suc m) = refl

low_bit-small : (ds : List ℕ) → low_bit ds ≤ 1
low_bit-small [] = omega arith
low_bit-small (d ∷ ds) = omega arith

value-halve_digits : (ds : List ℕ) → 2 * value (halve_digits ds) + low_bit ds ≡ value ds
value-halve_digits [] = refl
value-halve_digits (d ∷ ds) = omega (arith, value-halve_digits ds)

halve_digits-IsDigits : (ds : List ℕ) → IsDigits ds → IsDigits (halve_digits ds)
halve_digits-IsDigits [] i = _
halve_digits-IsDigits (d ∷ ds) i =
    (omega (arith, i.0, low_bit-small ds), halve_digits-IsDigits ds (i.1))

length-halve_digits : (ds : List ℕ) → length (halve_digits ds) ≡ length ds
length-halve_digits [] = refl
length-halve_digits (d ∷ ds) = ap suc (length-halve_digits ds)

-- mp_div_2 on a number in good order gives, unless memory is refused, a number in good order that stands
-- for half the integer, rounded towards zero.
mp_div_2-Outcome :
    (can : ℕ → Bool) (a b : Mp) {m : ℤ} → Represents a m → Outcome can (half m) (mp_div_2 can a b)
unfolding mp_div_2
mp_div_2-Outcome can a b {m} p =
    let halved : value (halve_digits a.dp) ≡ value a.dp / 2 =
      omega (arith, value-halve_digits a.dp, low_bit-small a.dp) in
    store-Outcome can (record b { neg = a.neg }) (halve_digits a.dp) (length a.dp) _
      (halve_digits-IsDigits a.dp p.digits) (omega (arith, length-halve_digits a.dp))
      (ap (of_sign a.neg) halved ∙ of_sign-half a.neg (value a.dp) ∙ ap half p.is)
