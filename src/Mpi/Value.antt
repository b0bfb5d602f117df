-- ===== src/Mpi/Value.antt =====
-- The number that digits stand for, and what the loops over digits do to it.
use robin_mesh_v.Prelude.{
  ℕ, zero, suc, ◌+◌, ◌-◌, ◌*◌, ◌/◌, ◌%◌, ◌^◌, ◌≤◌, ◌<◌, ◌≡◌, refl, ap, ◌∙◌, List, [], ◌∷◌, arith,
  length,
}
use robin_mesh_v.Mpi.{clamp, clamp_onto, carry_up, add_digits, borrow_up, sub_digits, mul_digits}

abbrev pub value : List ℕ → ℕ
value [] = 0
value (d ∷ ds) = d + 2 ^ 28 * value ds

abbrev pub IsDigits : List ℕ → Type 0
IsDigits [] = Unit
IsDigits (d ∷ ds) = (d < 2 ^ 28) × IsDigits ds

-- The top digit is not zero.
pub data IsClamped : List ℕ → Type 0 where
  empty : IsClamped []
  top : (d : ℕ) → 0 < d → IsClamped (d ∷ [])
  above : (d e : ℕ) (ds : List ℕ) → IsClamped (e ∷ ds) → IsClamped (d ∷ e ∷ ds)

value-clamp_onto : (d : ℕ) (ds : List ℕ) → value (clamp_onto d ds) ≡ d + 2 ^ 28 * value ds
value-clamp_onto zero [] = refl
value-clamp_onto (suc d) [] = refl
value-clamp_onto zero (e ∷ ds) = refl
value-clamp_onto (suc d) (e ∷ ds) = refl

pub value-clamp : (ds : List ℕ) → value (clamp ds) ≡ value ds
value-clamp [] = refl
value-clamp (d ∷ ds) = value-clamp_onto d (clamp ds) ∙ ap (λ v. d + 2 ^ 28 * v) (value-clamp ds)

clamp_onto-IsDigits : (d : ℕ) (ds : List ℕ) → d < 2 ^ 28 → IsDigits ds → IsDigits (clamp_onto d ds)
clamp_onto-IsDigits zero [] l i = i
clamp_onto-IsDigits (suc d) [] l i = (l, i)
clamp_onto-IsDigits zero (e ∷ ds) l i = (l, i)
clamp_onto-IsDigits (suc d) (e ∷ ds) l i = (l, i)

pub clamp-IsDigits : (ds : List ℕ) → IsDigits ds → IsDigits (clamp ds)
clamp-IsDigits [] i = i
clamp-IsDigits (d ∷ ds) i = clamp_onto-IsDigits d (clamp ds) (i.0) (clamp-IsDigits ds (i.1))

clamp_onto-IsClamped : (d : ℕ) (ds : List ℕ) → IsClamped ds → IsClamped (clamp_onto d ds)
clamp_onto-IsClamped zero [] i = empty
clamp_onto-IsClamped (suc d) [] i = top (suc d) (omega arith)
clamp_onto-IsClamped zero (e ∷ ds) i = above zero e ds i
clamp_onto-IsClamped (suc d) (e ∷ ds) i = above (suc d) e ds i

pub clamp-IsClamped : (ds : List ℕ) → IsClamped (clamp ds)
clamp-IsClamped [] = empty
clamp-IsClamped (d ∷ ds) = clamp_onto-IsClamped d (clamp ds) (clamp-IsClamped ds)

pub value-carry_up :
    (u : ℕ) (ds : List ℕ) → IsDigits ds → u ≤ 1 → value (carry_up u ds) ≡ value ds + u
value-carry_up u [] i l = omega arith
value-carry_up u (a ∷ ds) i l =
    let rest = value-carry_up ((a + u) % 2 ^ 32 / 2 ^ 28) ds (i.1) (omega (arith, i.0)) in
    omega (arith, rest, i.0)

pub carry_up-IsDigits : (u : ℕ) (ds : List ℕ) → u < 2 ^ 28 → IsDigits (carry_up u ds)
carry_up-IsDigits u [] l = (l, _)
carry_up-IsDigits u (a ∷ ds) l =
    (omega arith, carry_up-IsDigits ((a + u) % 2 ^ 32 / 2 ^ 28) ds (omega arith))

pub value-add_digits :
    (u : ℕ) (ds es : List ℕ)
    → IsDigits ds
    → IsDigits es
    → u ≤ 1
    → value (add_digits u ds es) ≡ value ds + value es + u
value-add_digits u [] es i j l = omega (arith, value-carry_up u es j l)
value-add_digits u (a ∷ ds) [] i j l = omega (arith, value-carry_up u (a ∷ ds) i l)
value-add_digits u (a ∷ ds) (b ∷ es) i j l =
    let rest =
      value-add_digits ((a + b + u) % 2 ^ 32 / 2 ^ 28) ds es (i.1) (j.1)
        (omega (arith, i.0, j.0)) in
    omega (arith, rest, i.0, j.0)

pub add_digits-IsDigits : (u : ℕ) (ds es : List ℕ) → u < 2 ^ 28 → IsDigits (add_digits u ds es)
add_digits-IsDigits u [] es l = carry_up-IsDigits u es l
add_digits-IsDigits u (a ∷ ds) [] l = carry_up-IsDigits u (a ∷ ds) l
add_digits-IsDigits u (a ∷ ds) (b ∷ es) l =
    (omega arith, add_digits-IsDigits ((a + b + u) % 2 ^ 32 / 2 ^ 28) ds es (omega arith))

pub value-borrow_up :
    (u : ℕ) (ds : List ℕ)
    → IsDigits ds
    → u ≤ 1
    → u ≤ value ds
    → value (borrow_up u ds) + u ≡ value ds
value-borrow_up u [] i l h = omega arith
value-borrow_up u (a ∷ ds) i l h =
    let rest =
      value-borrow_up ((a + 2 ^ 32 - u) % 2 ^ 32 / 2 ^ 31) ds (i.1) (omega arith)
        (omega (arith, i.0)) in
    omega (arith, rest, i.0)

pub value-sub_digits :
    (u : ℕ) (ds es : List ℕ)
    → IsDigits ds
    → IsDigits es
    → u ≤ 1
    → value es + u ≤ value ds
    → value (sub_digits u ds es) + value es + u ≡ value ds
value-sub_digits u [] [] i j l h = omega arith
value-sub_digits u (a ∷ ds) [] i j l h = omega (arith, value-borrow_up u (a ∷ ds) i l (omega arith))
value-sub_digits u [] (b ∷ es) i j l h = omega arith
value-sub_digits u (a ∷ ds) (b ∷ es) i j l h =
    let rest =
      value-sub_digits ((a + 2 ^ 33 - b - u) % 2 ^ 32 / 2 ^ 31) ds es (i.1) (j.1) (omega arith)
        (omega (arith, i.0, j.0)) in
    omega (arith, rest, i.0, j.0)

borrow_up-IsDigits : (u : ℕ) (ds : List ℕ) → IsDigits (borrow_up u ds)
borrow_up-IsDigits u [] = _
borrow_up-IsDigits u (a ∷ ds) =
    (omega arith, borrow_up-IsDigits ((a + 2 ^ 32 - u) % 2 ^ 32 / 2 ^ 31) ds)

pub sub_digits-IsDigits : (u : ℕ) (ds es : List ℕ) → IsDigits (sub_digits u ds es)
sub_digits-IsDigits u [] [] = _
sub_digits-IsDigits u (a ∷ ds) [] = borrow_up-IsDigits u (a ∷ ds)
sub_digits-IsDigits u [] (b ∷ es) = _
sub_digits-IsDigits u (a ∷ ds) (b ∷ es) =
    (omega arith, sub_digits-IsDigits ((a + 2 ^ 33 - b - u) % 2 ^ 32 / 2 ^ 31) ds es)

product_bound : (a b : ℕ) → a < 2 ^ 28 → b < 2 ^ 28 → a * b ≤ (2 ^ 28 - 1) * b
product_bound a b h l = grind arith

pub value-mul_digits :
    (u b : ℕ) (ds : List ℕ)
    → IsDigits ds
    → u < 2 ^ 28
    → b < 2 ^ 28
    → value (mul_digits u b ds) ≡ value ds * b + u
value-mul_digits u b [] i l m = grind arith
value-mul_digits u b (a ∷ ds) i l m =
    let small = product_bound a b (i.0) m in
    let rest =
      value-mul_digits ((u + a * b) % 2 ^ 64 / 2 ^ 28 % 2 ^ 32) b ds (i.1) (omega (arith, small))
        m in
    let spread : (a + 2 ^ 28 * value ds) * b ≡ a * b + 2 ^ 28 * (value ds * b) = grind arith in
    grind (arith, rest, small, spread)

pub mul_digits-IsDigits :
    (u b : ℕ) (ds : List ℕ) → IsDigits ds → u < 2 ^ 28 → b < 2 ^ 28 → IsDigits (mul_digits u b ds)
mul_digits-IsDigits u b [] i l m = (l, _)
mul_digits-IsDigits u b (a ∷ ds) i l m =
    let small = product_bound a b (i.0) m in
    (
      omega arith,
      mul_digits-IsDigits ((u + a * b) % 2 ^ 64 / 2 ^ 28 % 2 ^ 32) b ds (i.1) (omega (arith, small))
          m,
    )

length-carry_up : (u : ℕ) (ds : List ℕ) → length (carry_up u ds) ≡ suc (length ds)
length-carry_up u [] = refl
length-carry_up u (a ∷ ds) = ap suc (length-carry_up ((a + u) % 2 ^ 32 / 2 ^ 28) ds)

-- A sum has at most one digit more than either number that it is not longer than.
pub length-add_digits :
    (u : ℕ) (ds es : List ℕ)
    → (length es ≤ length ds → length (add_digits u ds es) ≤ length ds + 1)
      × (length ds ≤ length es → length (add_digits u ds es) ≤ length es + 1)
length-add_digits u [] es =
    (λ h. omega (arith, length-carry_up u es), λ h. omega (arith, length-carry_up u es))
length-add_digits u (a ∷ ds) [] =
    let n = length-carry_up ((a + u) % 2 ^ 32 / 2 ^ 28) ds in
    (λ h. omega (arith, n), λ h. absurd (omega arith))
length-add_digits u (a ∷ ds) (b ∷ es) =
    let rest = length-add_digits ((a + b + u) % 2 ^ 32 / 2 ^ 28) ds es in
    (
      λ h. let r = rest.0 (omega arith) in omega (arith, r),
      λ h. let r = rest.1 (omega arith) in omega (arith, r),
    )

length-borrow_up : (u : ℕ) (ds : List ℕ) → length (borrow_up u ds) ≡ length ds
length-borrow_up u [] = refl
length-borrow_up u (a ∷ ds) = ap suc (length-borrow_up ((a + 2 ^ 32 - u) % 2 ^ 32 / 2 ^ 31) ds)

pub length-sub_digits : (u : ℕ) (ds es : List ℕ) → length (sub_digits u ds es) ≤ length ds
length-sub_digits u [] [] = omega arith
length-sub_digits u (a ∷ ds) [] =
    omega (arith, length-borrow_up ((a + 2 ^ 32 - u) % 2 ^ 32 / 2 ^ 31) ds)
length-sub_digits u [] (b ∷ es) = omega arith
length-sub_digits u (a ∷ ds) (b ∷ es) =
    omega (arith, length-sub_digits ((a + 2 ^ 33 - b - u) % 2 ^ 32 / 2 ^ 31) ds es)

pub length-mul_digits : (u b : ℕ) (ds : List ℕ) → length (mul_digits u b ds) ≡ suc (length ds)
length-mul_digits u b [] = refl
length-mul_digits u b (a ∷ ds) =
    ap suc (length-mul_digits ((u + a * b) % 2 ^ 64 / 2 ^ 28 % 2 ^ 32) b ds)
