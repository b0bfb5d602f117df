-- ===== src/Mpi/Compare.antt =====
-- What the comparison of digits says of the numbers.
use robin_mesh_v.Prelude.{
  ℕ, ◌+◌, ◌*◌, ◌^◌, ◌<◌, ◌≡◌, refl, Bool, true, false, List, [], ◌∷◌, arith, length, ltb,
  if◌then◌else◌,
}
use robin_mesh_v.Mpi.{Mp, Cmp, mp_lt, mp_eq, mp_gt, cmp, cmp_onto, cmp_digits, mp_cmp_mag}
use robin_mesh_v.Mpi.Value.{value, IsDigits, IsClamped, empty, top, above}

-- What MP_LT, MP_EQ and MP_GT say.
pub data Compares (m n : ℕ) : Cmp → Type 0 where
  less : m < n → Compares m n mp_lt
  equal : m ≡ n → Compares m n mp_eq
  greater : n < m → Compares m n mp_gt

cmp-Compares : (a b : ℕ) → Compares a b (cmp a b)
cmp-Compares a b = go (ltb b a) (ltb a b) refl refl
  where
    go :
        (x y : Bool)
        → ltb b a ≡ x
        → ltb a b ≡ y
        → Compares a b (if x then mp_gt else if y then mp_lt else mp_eq)
    go true y e f = greater (ground arith)
    go false true e f = less (ground arith)
    go false false e f = equal (ground arith)

cmp_onto-Compares :
    (a b m n : ℕ) (c d : Cmp)
    → a < 2 ^ 28
    → b < 2 ^ 28
    → Compares m n c
    → Compares a b d
    → Compares (a + 2 ^ 28 * m) (b + 2 ^ 28 * n) (cmp_onto c d)
cmp_onto-Compares a b m n mp_lt d k l (less h) x = less (omega arith)
cmp_onto-Compares a b m n mp_gt d k l (greater h) x = greater (omega arith)
cmp_onto-Compares a b m n mp_eq mp_lt k l (equal h) (less x) = less (omega arith)
cmp_onto-Compares a b m n mp_eq mp_eq k l (equal h) (equal x) = equal (omega arith)
cmp_onto-Compares a b m n mp_eq mp_gt k l (equal h) (greater x) = greater (omega arith)

cmp_digits-Compares :
    (ds es : List ℕ)
    → IsDigits ds
    → IsDigits es
    → length ds ≡ length es
    → Compares (value ds) (value es) (cmp_digits ds es)
cmp_digits-Compares [] [] i j e = equal refl
cmp_digits-Compares [] (b ∷ es) i j e = absurd (omega arith)
cmp_digits-Compares (a ∷ ds) [] i j e = absurd (omega arith)
cmp_digits-Compares (a ∷ ds) (b ∷ es) i j e =
    cmp_onto-Compares a b (value ds) (value es) (cmp_digits ds es) (cmp a b) (i.0) (j.0)
      (cmp_digits-Compares ds es (i.1) (j.1) (omega arith)) (cmp-Compares a b)

pub positive : (d : ℕ) (ds : List ℕ) → IsClamped (d ∷ ds) → 0 < value (d ∷ ds)
positive d [] (top _ h) = omega arith
positive d (e ∷ ds) (above _ _ _ i) = omega (arith, positive e ds i)

tail-IsClamped : (d : ℕ) (ds : List ℕ) → IsClamped (d ∷ ds) → IsClamped ds
tail-IsClamped d [] i = empty
tail-IsClamped d (e ∷ ds) (above _ _ _ i) = i

shorter :
    (ds es : List ℕ) → IsDigits ds → IsClamped es → length ds < length es → value ds < value es
shorter ds [] i j l = absurd (omega arith)
shorter [] (b ∷ es) i j l = positive b es j
shorter (a ∷ ds) (b ∷ es) i j l =
    omega (arith, shorter ds es (i.1) (tail-IsClamped b es j) (omega arith), i.0)

pub mp_cmp_mag-Compares :
    (a b : Mp)
    → IsDigits a.dp
    → IsDigits b.dp
    → IsClamped a.dp
    → IsClamped b.dp
    → Compares (value a.dp) (value b.dp) (mp_cmp_mag a b)
unfolding mp_cmp_mag
mp_cmp_mag-Compares a b i j k l =
    go (ltb (length b.dp) (length a.dp)) (ltb (length a.dp) (length b.dp)) refl refl
  where
    go :
        (x y : Bool)
        → ltb (length b.dp) (length a.dp) ≡ x
        → ltb (length a.dp) (length b.dp) ≡ y
        → Compares
            (value a.dp)
            (value b.dp)
            (if x then mp_gt else if y then mp_lt else cmp_digits a.dp b.dp)
    go true y e f = greater (shorter b.dp a.dp j k (ground arith))
    go false true e f = less (shorter a.dp b.dp i l (ground arith))
    go false false e f = cmp_digits-Compares a.dp b.dp i j (ground arith)
