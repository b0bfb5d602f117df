-- ===== src/Arc4/Xor.antt =====
-- The exclusive "or", as `matrixArc4` uses it.
use Prim.Native.Nat.{differ, bit_xor-bitwise}
use robin_mesh_v.Prelude.Digits.{digits_fuel}
use robin_mesh_v.Prelude.{ℕ, zero, suc, ◌+◌, ◌*◌, ◌/◌, ◌%◌, ◌≤◌, ◌<◌, ◌≡◌, refl, arith, bit_xor}

zero-bit_xor : (b : ℕ) → bit_xor 0 b ≡ b
zero-bit_xor b = bit_xor-bitwise 0 b

-- On single digits it is the sum without its carry.
differ_lem : (x y : ℕ) → x < 2 → y < 2 → differ x y ≡ (x + y) % 2
differ_lem zero zero p q = refl
differ_lem zero (suc zero) p q = refl
differ_lem zero (suc (suc y)) p q = absurd (omega arith)
differ_lem (suc zero) zero p q = refl
differ_lem (suc zero) (suc zero) p q = refl
differ_lem (suc zero) (suc (suc y)) p q = absurd (omega arith)
differ_lem (suc (suc x)) y p q = absurd (omega arith)

bit_xor_step : (a b : ℕ) → bit_xor a b ≡ bit_xor (a / 2) (b / 2) * 2 + (a % 2 + b % 2) % 2
bit_xor_step zero b = omega (arith, zero-bit_xor b, zero-bit_xor (b / 2))
bit_xor_step (suc a) b = omega (
  arith,
  bit_xor-bitwise (suc a) b,
  bit_xor-bitwise (suc a / 2) (b / 2),
  digits_fuel differ a (suc a / 2) (suc a / 2) (b / 2) (omega arith) (omega arith),
  differ_lem (suc a % 2) (b % 2) (omega arith) (omega arith),
)

twice_fuel : (fuel m n : ℕ) → m + n ≤ fuel → bit_xor (bit_xor m n) n ≡ m
twice_fuel zero zero zero h = refl
twice_fuel zero (suc m) n h = absurd (omega arith)
twice_fuel zero zero (suc n) h = absurd (omega arith)
twice_fuel (suc fuel) zero zero h = refl
twice_fuel (suc fuel) (suc m) n h =
    go (suc m) (bit_xor (suc m) n) (bit_xor_step (suc m) n) (bit_xor_step (bit_xor (suc m) n) n)
      (twice_fuel fuel (suc m / 2) (n / 2) (omega arith))
  where
    go :
        (a p : ℕ)
        → p ≡ bit_xor (a / 2) (n / 2) * 2 + (a % 2 + n % 2) % 2
        → bit_xor p n ≡ bit_xor (p / 2) (n / 2) * 2 + (p % 2 + n % 2) % 2
        → bit_xor (bit_xor (a / 2) (n / 2)) (n / 2) ≡ a / 2
        → bit_xor p n ≡ a
    go a p e f ih =
        let half : p / 2 ≡ bit_xor (a / 2) (n / 2) = omega (arith, e) in
        let bit : p % 2 ≡ (a % 2 + n % 2) % 2 = omega (arith, e) in
        let top : bit_xor (p / 2) (n / 2) ≡ a / 2 = rw half ih in omega (arith, f, top, bit)
twice_fuel (suc fuel) zero (suc n) h =
    rw (zero-bit_xor (suc n)) (self (suc n) (suc n) (omega arith))
  where
    self : (k n : ℕ) → n ≤ k → bit_xor n n ≡ 0
    self zero zero l = refl
    self zero (suc n) l = absurd (omega arith)
    self (suc k) zero l = refl
    self (suc k) (suc n) l =
        omega (arith, bit_xor_step (suc n) (suc n), self k (suc n / 2) (omega arith))

pub bit_xor_twice : (m n : ℕ) → bit_xor (bit_xor m n) n ≡ m
bit_xor_twice m n = twice_fuel (m + n) m n (omega arith)
