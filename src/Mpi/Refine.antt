-- ===== src/Mpi/Refine.antt =====
-- The operations on big integers as operations on integers.
use robin_mesh_v.Prelude.{
  ℕ, zero, suc, ◌+◌, ◌-◌, ◌*◌, ◌%◌, ◌≤◌, ◌≡◌, refl, ap, ◌∙◌, subst, Bool, true, false, not, Option,
  none, some, List, [], ◌∷◌, ℤ, arith, length, ltb, ◌==◌, if◌then◌else◌,
}
use robin_mesh_v.Mpi.{
  Mp, Cmp, mp_lt, mp_eq, mp_gt, mp_grow, mp_clamp, clamp, clamp_onto, mp_cmp_mag, same_sign,
  add_digits, sub_digits, store, s_mp_add, s_mp_sub, mp_add, mp_sub,
}
use robin_mesh_v.Mpi.Value.{
  value, IsDigits, IsClamped, value-clamp, clamp-IsDigits, clamp-IsClamped, value-add_digits,
  add_digits-IsDigits, value-sub_digits, sub_digits-IsDigits, length-add_digits, length-sub_digits,
}
use robin_mesh_v.Mpi.Compare.{Compares, less, equal, greater, mp_cmp_mag-Compares}
use robin_mesh_v.Mpi.Sign.{
  ◌+ℤ◌, of_sign, minus, of_sign-not, of_sign-same, of_sign-greater, of_sign-less,
}

-- The integer of an `mp_int`.
abbrev pub to_int : Mp → ℤ
to_int a = of_sign a.neg (value a.dp)

-- An `mp_int` in good order, and its integer: digits of 28 bits, the top one not zero, in the memory
-- that there is, and no sign without digits.
pub record Represents (a : Mp) (z : ℤ) : Type 0 where
  pub digits : IsDigits a.dp
  pub clamped : IsClamped a.dp
  pub fits : length a.dp ≤ a.alloc
  pub unsigned : length a.dp ≡ 0 → a.neg ≡ false
  pub is : to_int a ≡ z

-- A result that stands for `z`, or MP_MEM where memory was refused.
pub data Outcome (can : ℕ → Bool) (z : ℤ) : Option Mp → Type 0 where
  no_memory : (n : ℕ) → can n ≡ false → Outcome can z none
  made : (c : Mp) → Represents c z → Outcome can z (some c)

pub data Grown (can : ℕ → Bool) (c : Mp) (size : ℕ) : Option Mp → Type 0 where
  refused : (n : ℕ) → can n ≡ false → Grown can c size none
  grown : (alloc : ℕ) → size ≤ alloc → Grown can c size (some (record c { alloc = alloc }))

pub mp_grow-Grown : (can : ℕ → Bool) (c : Mp) (size : ℕ) → Grown can c size (mp_grow can c size)
unfolding mp_grow
mp_grow-Grown can c size = go (ltb c.alloc size) (can larger) refl refl
  where
    larger : ℕ
    larger = size + (64 * 2 - size % 64)

    go :
        (x y : Bool)
        → ltb c.alloc size ≡ x
        → can (size + (64 * 2 - size % 64)) ≡ y
        → Grown can c size (
            if x
            then if y then some (record c { alloc = size + (64 * 2 - size % 64) }) else none
            else some c)
    go true true e f = grown (size + (64 * 2 - size % 64)) (omega arith)
    go true false e f = refused (size + (64 * 2 - size % 64)) f
    go false y e f = grown c.alloc (ground arith)

length-clamp_onto : (d : ℕ) (ds : List ℕ) → length (clamp_onto d ds) ≤ suc (length ds)
length-clamp_onto zero [] = omega arith
length-clamp_onto (suc d) [] = omega arith
length-clamp_onto zero (e ∷ ds) = omega arith
length-clamp_onto (suc d) (e ∷ ds) = omega arith

pub length-clamp : (ds : List ℕ) → length (clamp ds) ≤ length ds
length-clamp [] = omega arith
length-clamp (d ∷ ds) = omega (arith, length-clamp_onto d (clamp ds), length-clamp ds)

pub trimmed :
    (s : Bool) (ds : List ℕ)
    → of_sign (if length ds == 0 then false else s) (value ds) ≡ of_sign s (value ds)
trimmed true [] = refl
trimmed false [] = refl
trimmed s (d ∷ ds) = let e : (suc (length ds) == 0) ≡ false = ground arith in rw e refl

no_digits : (s : Bool) (n : ℕ) → n ≡ 0 → (if n == 0 then false else s) ≡ false
no_digits s n e = rw e refl

-- Trimming digits of 28 bits that the memory holds gives a number in good order.
pub mp_clamp-Represents :
    (c : Mp) (z : ℤ)
    → IsDigits c.dp
    → length c.dp ≤ c.alloc
    → of_sign c.neg (value c.dp) ≡ z
    → Represents (mp_clamp c) z
unfolding mp_clamp
mp_clamp-Represents c z i l e = record {
  digits = clamp-IsDigits c.dp i;
  clamped = clamp-IsClamped c.dp;
  fits = omega (arith, length-clamp c.dp);
  unsigned = no_digits c.neg (length (clamp c.dp));
  is = trimmed c.neg (clamp c.dp) ∙ ap (of_sign c.neg) (value-clamp c.dp) ∙ e;
}

module _ (can : ℕ → Bool) where
  pub store-Outcome :
      (c : Mp) (ds : List ℕ) (size : ℕ) (z : ℤ)
      → IsDigits ds
      → length ds ≤ size
      → of_sign c.neg (value ds) ≡ z
      → Outcome can z (store ds (mp_grow can c size))
  unfolding store
  store-Outcome c ds size z i l e = go _ (mp_grow-Grown can c size)
    where
      go : (o : Option Mp) → Grown can c size o → Outcome can z (store ds o)
      go none (refused n f) = no_memory n f
      go _ (grown alloc f) =
          made _ (mp_clamp-Represents (record c { alloc = alloc; dp = ds }) z i (omega arith) e)

  s_mp_sub-Outcome :
      (a b c : Mp)
      → IsDigits a.dp
      → IsDigits b.dp
      → value b.dp ≤ value a.dp
      → Outcome can (of_sign c.neg (value a.dp - value b.dp)) (s_mp_sub can a b c)
  unfolding s_mp_sub
  s_mp_sub-Outcome a b c i j h =
      let rest : value (sub_digits 0 a.dp b.dp) ≡ value a.dp - value b.dp =
        omega (arith, value-sub_digits 0 a.dp b.dp i j (omega arith) (omega arith)) in
      store-Outcome c (sub_digits 0 a.dp b.dp) (length a.dp) _ (sub_digits-IsDigits 0 a.dp b.dp)
        (length-sub_digits 0 a.dp b.dp) (ap (of_sign c.neg) rest)

  module _ (a b c : Mp) (i : IsDigits a.dp) (j : IsDigits b.dp) where
    s_mp_add-Outcome :
        (s : Bool)
        → Outcome can
            (of_sign s (value a.dp) +ℤ of_sign s (value b.dp))
            (s_mp_add can a b (record c { neg = s }))
    unfolding s_mp_add
    s_mp_add-Outcome s =
        let sum : value (add_digits 0 a.dp b.dp) ≡ value a.dp + value b.dp =
          omega (arith, value-add_digits 0 a.dp b.dp i j (omega arith)) in
        store-Outcome (record c { neg = s }) (add_digits 0 a.dp b.dp) _ _
          (add_digits-IsDigits 0 a.dp b.dp (omega arith))
          (longer (ltb (length b.dp) (length a.dp)) refl)
          (ap (of_sign s) sum ∙ of_sign-same s (value a.dp) (value b.dp))
      where
        longer :
            (x : Bool)
            → ltb (length b.dp) (length a.dp) ≡ x
            → length (add_digits 0 a.dp b.dp) ≤ (if x then length a.dp else length b.dp) + 1
        longer true e = (length-add_digits 0 a.dp b.dp).0 (ground arith)
        longer false e = (length-add_digits 0 a.dp b.dp).1 (ground arith)

    -- The two ways to subtract, by which magnitude is greater.
    subtract-Outcome :
        (s : Bool) (o : Cmp)
        → Compares (value a.dp) (value b.dp) o
        → Outcome can (of_sign s (value a.dp) +ℤ of_sign (not s) (value b.dp)) (elim o [
          | mp_lt ↦ s_mp_sub can b a (record c { neg = not s })
          | _ ↦ s_mp_sub can a b (record c { neg = s })
        ])
    subtract-Outcome s mp_lt (less h) =
        subst (λ z. Outcome can z (s_mp_sub can b a (record c { neg = not s })))
          (of_sign-less s (value a.dp) (value b.dp) (omega arith))
          (s_mp_sub-Outcome b a (record c { neg = not s }) j i (omega arith))
    subtract-Outcome s mp_eq (equal h) =
        subst (λ z. Outcome can z (s_mp_sub can a b (record c { neg = s })))
          (of_sign-greater s (value a.dp) (value b.dp) (omega arith))
          (s_mp_sub-Outcome a b (record c { neg = s }) i j (omega arith))
    subtract-Outcome s mp_gt (greater h) =
        subst (λ z. Outcome can z (s_mp_sub can a b (record c { neg = s })))
          (of_sign-greater s (value a.dp) (value b.dp) (omega arith))
          (s_mp_sub-Outcome a b (record c { neg = s }) i j (omega arith))

    module _ (k : IsClamped a.dp) (l : IsClamped b.dp) where
      add_signs :
          (s t : Bool)
          → Outcome can (of_sign s (value a.dp) +ℤ of_sign t (value b.dp)) (
              if same_sign s t
              then s_mp_add can a b (record c { neg = s })
              else elim (mp_cmp_mag a b) [
                | mp_lt ↦ s_mp_sub can b a (record c { neg = t })
                | _ ↦ s_mp_sub can a b (record c { neg = s })
              ])
      add_signs true true = s_mp_add-Outcome true
      add_signs false false = s_mp_add-Outcome false
      add_signs true false =
          subtract-Outcome true (mp_cmp_mag a b) (mp_cmp_mag-Compares a b i j k l)
      add_signs false true =
          subtract-Outcome false (mp_cmp_mag a b) (mp_cmp_mag-Compares a b i j k l)

      sub_signs :
          (s t : Bool)
          → Outcome can (of_sign s (value a.dp) +ℤ of_sign (not t) (value b.dp)) (
              if not (same_sign s t)
              then s_mp_add can a b (record c { neg = s })
              else elim (mp_cmp_mag a b) [
                | mp_lt ↦ s_mp_sub can b a (record c { neg = not s })
                | _ ↦ s_mp_sub can a b (record c { neg = s })
              ])
      sub_signs true false = s_mp_add-Outcome true
      sub_signs false true = s_mp_add-Outcome false
      sub_signs true true = subtract-Outcome true (mp_cmp_mag a b) (mp_cmp_mag-Compares a b i j k l)
      sub_signs false false =
          subtract-Outcome false (mp_cmp_mag a b) (mp_cmp_mag-Compares a b i j k l)

  module _ (a b c : Mp) {m n : ℤ} (p : Represents a m) (q : Represents b n) where
    -- mp_add on numbers in good order gives, unless memory is refused, a number in good order that stands
    -- for the sum of their integers, whatever their signs.
    pub mp_add-Outcome : Outcome can (m +ℤ n) (mp_add can a b c)
    unfolding mp_add
    mp_add-Outcome =
        subst (λ z. Outcome can z (mp_add can a b c))
          (ap (λ z. z +ℤ to_int b) p.is ∙ ap (λ z. m +ℤ z) q.is)
          (add_signs a b c p.digits q.digits p.clamped q.clamped a.neg b.neg)

    -- mp_sub on numbers in good order gives, unless memory is refused, a number in good order that stands
    -- for the difference of their integers, whatever their signs.
    mp_sub-Outcome : Outcome can (m +ℤ minus n) (mp_sub can a b c)
    unfolding mp_sub
    mp_sub-Outcome =
        subst (λ z. Outcome can z (mp_sub can a b c))
          (ap (λ z. to_int a +ℤ z) (of_sign-not b.neg (value b.dp))
            ∙ ap (λ z. z +ℤ minus (to_int b)) p.is
            ∙ ap (λ z. m +ℤ minus z) q.is)
          (sub_signs a b c p.digits q.digits p.clamped q.clamped a.neg b.neg)
