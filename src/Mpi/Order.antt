-- ===== src/Mpi/Order.antt =====
-- The comparison of big integers, and their products with a digit.
use robin_mesh_v.Prelude.{
  ℕ, zero, suc, ◌+◌, ◌*◌, ◌^◌, ◌<◌, ◌≡◌, refl, sym, ap, ◌∙◌, subst, Bool, true, false, not, List,
  [], ◌∷◌, ℤ, pos, negsuc, arith, length, if◌then◌else◌,
}
use robin_mesh_v.Mpi.{
  Mp, Cmp, mp_lt, mp_eq, mp_gt, mp_cmp_mag, mp_cmp, same_sign, mul_digits, mp_mul_d,
}
use robin_mesh_v.Mpi.Value.{
  value, IsClamped, value-mul_digits, mul_digits-IsDigits, length-mul_digits,
}
use robin_mesh_v.Mpi.Compare.{Compares, less, equal, greater, mp_cmp_mag-Compares, positive}
use robin_mesh_v.Mpi.Sign.{of_sign}
use robin_mesh_v.Mpi.Refine.{Represents, to_int, Outcome, store-Outcome}

infix 50 ◌<ℤ◌
abbrev pub ◌<ℤ◌ : ℤ → ℤ → Type 0
pos m <ℤ pos n = m < n
pos m <ℤ negsuc n = ⊥
negsuc m <ℤ pos n = Unit
negsuc m <ℤ negsuc n = n < m

-- What MP_LT, MP_EQ and MP_GT say of integers.
pub data Orders (m n : ℤ) : Cmp → Type 0 where
  below : m <ℤ n → Orders m n mp_lt
  same : m ≡ n → Orders m n mp_eq
  beyond : n <ℤ m → Orders m n mp_gt

pos-Orders : {m n : ℕ} (c : Cmp) → Compares m n c → Orders (pos m) (pos n) c
pos-Orders mp_lt (less h) = below h
pos-Orders mp_eq (equal h) = same (ap pos h)
pos-Orders mp_gt (greater h) = beyond h

neg-Orders :
    (m n : ℕ) (c : Cmp)
    → 0 < m
    → 0 < n
    → Compares n m c
    → Orders (of_sign true m) (of_sign true n) c
neg-Orders zero n c h l k = absurd (omega arith)
neg-Orders (suc m) zero c h l k = absurd (omega arith)
neg-Orders (suc m) (suc n) mp_lt h l (less k) = below (omega arith)
neg-Orders (suc m) (suc n) mp_eq h l (equal k) = same (ap (of_sign true) (sym k))
neg-Orders (suc m) (suc n) mp_gt h l (greater k) = beyond (omega arith)

mixed-Orders : (m n : ℕ) → 0 < m → (of_sign true m <ℤ pos n)
mixed-Orders zero n h = absurd (omega arith)
mixed-Orders (suc m) n h = _

negative : {a : Mp} {z : ℤ} → Represents a z → a.neg ≡ true → 0 < value a.dp
negative {a} r e = go a.dp r.clamped r.unsigned
  where
    go : (ds : List ℕ) → IsClamped ds → (length ds ≡ 0 → a.neg ≡ false) → 0 < value ds
    go [] k u = let f = u refl in absurd cc
    go (d ∷ ds) k u = positive d ds k

module _ (a b : Mp) {m n : ℤ} (p : Represents a m) (q : Represents b n) where
  by_sign :
      (s t : Bool)
      → (s ≡ true → 0 < value a.dp)
      → (t ≡ true → 0 < value b.dp)
      → Orders (of_sign s (value a.dp)) (of_sign t (value b.dp)) (
          if not (same_sign s t)
          then (if s then mp_lt else mp_gt)
          else if s
          then mp_cmp_mag b a
          else mp_cmp_mag a b)
  by_sign true false f g = below (mixed-Orders (value a.dp) (value b.dp) (f refl))
  by_sign false true f g = beyond (mixed-Orders (value b.dp) (value a.dp) (g refl))
  by_sign true true f g =
      neg-Orders (value a.dp) (value b.dp) (mp_cmp_mag b a) (f refl) (g refl)
        (mp_cmp_mag-Compares b a q.digits p.digits q.clamped p.clamped)
  by_sign false false f g =
      pos-Orders (mp_cmp_mag a b) (mp_cmp_mag-Compares a b p.digits q.digits p.clamped q.clamped)

  -- mp_cmp on numbers in good order says how their integers compare.
  mp_cmp-Orders : Orders m n (mp_cmp a b)
  unfolding mp_cmp
  mp_cmp-Orders =
      subst (λ z. Orders z n (mp_cmp a b)) p.is
        (subst (λ z. Orders (to_int a) z (mp_cmp a b)) q.is
          (by_sign a.neg b.neg (negative p) (negative q)))

-- An integer as often as `b` says.
abbrev pub times : ℤ → ℕ → ℤ
times (pos m) b = pos (m * b)
times (negsuc m) b = of_sign true (suc m * b)

pub of_sign-times : (s : Bool) (m b : ℕ) → of_sign s (m * b) ≡ times (of_sign s m) b
of_sign-times false m b = refl
of_sign-times true zero b = let e : 0 * b ≡ 0 = omega arith in ap (of_sign true) e ∙ ap pos (sym e)
of_sign-times true (suc m) b = refl

-- mp_mul_d on a number in good order and a digit of 28 bits gives, unless memory is refused, a number in
-- good order that stands for the product: no carry is lost.
pub mp_mul_d-Outcome :
    (can : ℕ → Bool) (a c : Mp) (b : ℕ) {m : ℤ}
    → Represents a m
    → b < 2 ^ 28
    → Outcome can (times m b) (mp_mul_d can a b c)
unfolding mp_mul_d
mp_mul_d-Outcome can a c b {m} p h =
    let made_of : value (mul_digits 0 b a.dp) ≡ value a.dp * b =
      omega (arith, value-mul_digits 0 b a.dp p.digits (omega arith) h) in
    store-Outcome can (record c { neg = a.neg }) (mul_digits 0 b a.dp) (length a.dp + 1) _
      (mul_digits-IsDigits 0 b a.dp p.digits (omega arith) h)
      (omega (arith, length-mul_digits 0 b a.dp))
      (ap (of_sign a.neg) made_of ∙ of_sign-times a.neg (value a.dp) b ∙ ap (λ z. times z b) p.is)
