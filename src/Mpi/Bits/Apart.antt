-- ===== src/Mpi/Bits/Apart.antt =====
-- The inclusive "or" of numbers whose bits are apart.
use Prim.Native.Nat.{bit_or-bitwise}
use robin_mesh_v.Prelude.Digits.{digits_fuel}
use robin_mesh_v.Prelude.{
  ℕ, zero, suc, ◌+◌, ◌-◌, ◌*◌, ◌/◌, ◌%◌, ◌^◌, ◌≤◌, ◌<◌, ◌≡◌, sym, ◌∙◌, max, arith, bit_or,
}

pub zero-bit_or : (b : ℕ) → bit_or 0 b ≡ b
zero-bit_or b = bit_or-bitwise 0 b

bit_or_step : (a b : ℕ) → bit_or a b ≡ bit_or (a / 2) (b / 2) * 2 + max (a % 2) (b % 2)
bit_or_step zero b = omega (arith, zero-bit_or b, zero-bit_or (b / 2))
bit_or_step (suc a) b = omega (
  arith,
  bit_or-bitwise (suc a) b,
  bit_or-bitwise (suc a / 2) (b / 2),
  digits_fuel max a (suc a / 2) (suc a / 2) (b / 2) (omega arith) (omega arith),
)

bit_or-zero : (fuel a : ℕ) → a ≤ fuel → bit_or a 0 ≡ a
bit_or-zero fuel zero h = zero-bit_or 0
bit_or-zero zero (suc a) h = absurd (omega arith)
bit_or-zero (suc fuel) (suc a) h =
    omega (arith, bit_or_step (suc a) 0, bit_or-zero fuel (suc a / 2) (omega arith))

doubled : (k q : ℕ) → q * 2 ^ suc k ≡ 2 * (q * 2 ^ k)
doubled k q = let next : 2 ^ suc k ≡ 2 * 2 ^ k = omega arith in rw next (grind arith)

even : (n m : ℕ) → n ≡ 2 * m → n / 2 ≡ m
even n m e = omega (arith, e)

pub above-bit_or : (k q r : ℕ) → r < 2 ^ k → bit_or (q * 2 ^ k) r ≡ q * 2 ^ k + r
above-bit_or zero q zero l = bit_or-zero q (q * 1) (omega arith) ∙ omega arith
above-bit_or zero q (suc r) l = absurd (omega (arith, l))
above-bit_or (suc k) q r l =
    let next = doubled k q in
    let half = even (q * 2 ^ suc k) (q * 2 ^ k) next in
    let rest = above-bit_or k q (r / 2) (omega arith) in
    let top : bit_or (q * 2 ^ suc k / 2) (r / 2) ≡ q * 2 ^ k + r / 2 = rw half rest in
    omega (arith, bit_or_step (q * 2 ^ suc k) r, top, next)

pub below-bit_or : (k q r : ℕ) → r < 2 ^ k → bit_or r (q * 2 ^ k) ≡ q * 2 ^ k + r
below-bit_or zero q zero l = zero-bit_or (q * 1) ∙ omega arith
below-bit_or zero q (suc r) l = absurd (omega (arith, l))
below-bit_or (suc k) q r l =
    let next = doubled k q in
    let half = even (q * 2 ^ suc k) (q * 2 ^ k) next in
    let rest = below-bit_or k q (r / 2) (omega arith) in
    let top : bit_or (r / 2) (q * 2 ^ suc k / 2) ≡ q * 2 ^ k + r / 2 = rw half rest in
    omega (arith, bit_or_step r (q * 2 ^ suc k), top, next)

-- 2 ^ d and 2 ^ (n - d)
pub powers : (n d : ℕ) → d ≤ n → 2 ^ d * 2 ^ (n - d) ≡ 2 ^ n
powers n zero l = let e : n - 0 ≡ n = omega arith in rw e (omega arith)
powers zero (suc d) l = absurd (omega arith)
powers (suc n) (suc d) l =
    let rest = powers n d (omega arith) in
    let next : 2 ^ suc d ≡ 2 * 2 ^ d = omega arith in
    let all : 2 ^ suc n ≡ 2 * 2 ^ n = omega arith in rw (next, all, sym rest) (grind arith)
