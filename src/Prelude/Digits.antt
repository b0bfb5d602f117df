-- ===== src/Prelude/Digits.antt =====
-- Functions on binary digits do not depend on the number of steps that are given, where it is enough.
use Prim.Native.Nat.{digits}
use robin_mesh_v.Prelude.{ℕ, zero, suc, ◌/◌, ◌≤◌, ◌≡◌, refl, arith}

pub digits_fuel :
    (g : ℕ → ℕ → ℕ) (n m a b : ℕ)
    → a ≤ n
    → a ≤ m
    → digits (λ b. b) g n a b ≡ digits (λ b. b) g m a b
digits_fuel g zero zero a b p q = refl
digits_fuel g zero (suc m) zero b p q = refl
digits_fuel g zero (suc m) (suc a) b p q = absurd (omega arith)
digits_fuel g (suc n) zero zero b p q = refl
digits_fuel g (suc n) zero (suc a) b p q = absurd (omega arith)
digits_fuel g (suc n) (suc m) zero b p q = refl
digits_fuel g (suc n) (suc m) (suc a) b p q =
    omega (arith, digits_fuel g n m (suc a / 2) (b / 2) (omega arith) (omega arith))
