-- ===== src/Mpi/Shift/Digits.antt =====
-- Shifts by whole digits as products and quotients.
use robin_mesh_v.Prelude.{
  ℕ, zero, suc, ◌+◌, ◌*◌, ◌^◌, ◌<◌, ◌≡◌, refl, ap, ◌∙◌, Bool, true, false, Option, none, some, List,
  [], ◌∷◌, ℤ, arith, length, replicate, ◌++◌, drop, leb,
}
use robin_mesh_v.Mpi.{Mp, mp_zero}
use robin_mesh_v.Mpi.Value.{value, IsDigits, IsClamped, above}
use robin_mesh_v.Mpi.Sign.{of_sign}
use robin_mesh_v.Mpi.Refine.{
  Represents, Outcome, no_memory, made, Grown, refused, grown, mp_grow-Grown,
}
use robin_mesh_v.Mpi.Order.{times, of_sign-times}
use robin_mesh_v.Mpi.Shift.{store_all, mp_lshd, mp_rshd}

-- 2 ^ (28 * b)
abbrev pub power : ℕ → ℕ
power zero = 1
power (suc b) = 2 ^ 28 * power b

value-shifted : (b : ℕ) (ds : List ℕ) → value (replicate b 0 ++ ds) ≡ value ds * power b
value-shifted zero ds = omega arith
value-shifted (suc b) ds =
    let rest = value-shifted b ds in
    let spread : value ds * (2 ^ 28 * power b) ≡ 2 ^ 28 * (value ds * power b) = grind arith in
    omega (arith, rest, spread)

shifted-IsDigits : (b : ℕ) (ds : List ℕ) → IsDigits ds → IsDigits (replicate b 0 ++ ds)
shifted-IsDigits zero ds i = i
shifted-IsDigits (suc b) ds i = (omega arith, shifted-IsDigits b ds i)

length-shifted : (b : ℕ) (ds : List ℕ) → length (replicate b 0 ++ ds) ≡ b + length ds
length-shifted zero ds = omega arith
length-shifted (suc b) ds = omega (arith, length-shifted b ds)

drop-shifted : (b : ℕ) (ds : List ℕ) → drop b (replicate b 0 ++ ds) ≡ ds
drop-shifted zero ds = refl
drop-shifted (suc b) ds = drop-shifted b ds

zero_below : (ds : List ℕ) → 0 < length ds → IsClamped ds → IsClamped (0 ∷ ds)
zero_below [] l c = absurd (omega (arith, l))
zero_below (d ∷ ds) l c = above 0 d ds c

shifted-IsClamped :
    (b : ℕ) (ds : List ℕ) → 0 < length ds → IsClamped ds → IsClamped (replicate b 0 ++ ds)
shifted-IsClamped zero ds l c = c
shifted-IsClamped (suc b) ds l c =
    zero_below (replicate b 0 ++ ds) (omega (arith, length-shifted b ds))
      (shifted-IsClamped b ds l c)

-- mp_lshd on a number in good order that is not zero gives, unless memory is refused, a number in good
-- order that stands for the product with 2 ^ (28 * b), for a shift by b digits.
mp_lshd-Outcome :
    (can : ℕ → Bool) (a : Mp) (b : ℕ) {m : ℤ}
    → Represents a m
    → 0 < length a.dp
    → Outcome can (times m (power b)) (mp_lshd can a b)
unfolding mp_lshd store_all
mp_lshd-Outcome can a zero {m} p l = made a (record {
  digits = p.digits;
  clamped = p.clamped;
  fits = p.fits;
  unsigned = p.unsigned;
  is =
      ap (of_sign a.neg) (omega arith)
      ∙ of_sign-times a.neg (value a.dp) 1
      ∙ ap (λ z. times z 1) p.is;
})
mp_lshd-Outcome can a (suc b) {m} p l = go _ (mp_grow-Grown can a (length a.dp + suc b))
  where
    go :
        (o : Option Mp)
        → Grown can a (length a.dp + suc b) o
        → Outcome can (times m (power (suc b))) (store_all (replicate (suc b) 0 ++ a.dp) o)
    go none (refused n f) = no_memory n f
    go _ (grown alloc f) = made _ (record {
      digits = shifted-IsDigits (suc b) a.dp p.digits;
      clamped = shifted-IsClamped (suc b) a.dp l p.clamped;
      fits = omega (arith, length-shifted b a.dp);
      unsigned = λ e. absurd (omega (arith, e));
      is =
          ap (of_sign a.neg) (value-shifted (suc b) a.dp)
          ∙ of_sign-times a.neg (value a.dp) (power (suc b))
          ∙ ap (λ z. times z (power (suc b))) p.is;
    })

-- What a shift up and the same shift down make of a number: the same number, in the memory it has now.
pub data IsBack (a : Mp) (b : ℕ) : Option Mp → Type 0 where
  gone : IsBack a b none
  back : (c : Mp) (alloc : ℕ) → mp_rshd c b ≡ record a { alloc = alloc } → IsBack a b (some c)

rshd_shifted :
    (alloc : ℕ) (s : Bool) (b : ℕ) (ds : List ℕ)
    → (length ds ≡ 0 → s ≡ false)
    → mp_rshd (record { alloc = alloc; neg = s; dp = replicate b 0 ++ ds }) b
      ≡ record { alloc = alloc; neg = s; dp = ds }
unfolding mp_rshd mp_zero
rshd_shifted alloc s b [] u =
    let zeros : List ℕ = replicate b 0 ++ [] in
    let all : leb (length zeros) b ≡ true = let n = length-shifted b [] in ground (arith, n) in
    rw (all, u refl) refl
rshd_shifted alloc s b (d ∷ ds) u =
    let shifted : List ℕ = replicate b 0 ++ d ∷ ds in
    let more : leb (length shifted) b ≡ false =
      let n = length-shifted b (d ∷ ds) in ground (arith, n) in
    rw (more, drop-shifted b (d ∷ ds)) refl

-- For a number in good order, mp_rshd by as many digits as mp_lshd has shifted it by gives the same
-- digits and sign again, unless mp_lshd was refused memory.
mp_rshd-mp_lshd :
    (can : ℕ → Bool) (a : Mp) (b : ℕ) {m : ℤ} → Represents a m → IsBack a b (mp_lshd can a b)
unfolding mp_lshd store_all
mp_rshd-mp_lshd can a zero p = back a a.alloc (rshd_shifted a.alloc a.neg 0 a.dp p.unsigned)
mp_rshd-mp_lshd can a (suc b) p = go _ (mp_grow-Grown can a (length a.dp + suc b))
  where
    go :
        (o : Option Mp)
        → Grown can a (length a.dp + suc b) o
        → IsBack a (suc b) (store_all (replicate (suc b) 0 ++ a.dp) o)
    go none (refused n f) = gone
    go _ (grown alloc f) = back _ alloc (rshd_shifted alloc a.neg (suc b) a.dp p.unsigned)
