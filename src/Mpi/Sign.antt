-- ===== src/Mpi/Sign.antt =====
-- The integers that signs and magnitudes stand for.
use robin_mesh_v.Prelude.{
  ℕ, zero, suc, ◌+◌, ◌-◌, ◌≤◌, ◌≡◌, refl, sym, ap, ◌∙◌, Bool, true, false, not, ℤ, pos, negsuc,
  arith, leb, if◌then◌else◌,
}

-- The integer m - n.
unfoldable pub diff : ℕ → ℕ → ℤ
diff m n = if leb n m then pos (m - n) else negsuc (n - m - 1)

infixl 60 ◌+ℤ◌
abbrev pub ◌+ℤ◌ : ℤ → ℤ → ℤ
pos m +ℤ pos n = pos (m + n)
pos m +ℤ negsuc n = diff m (suc n)
negsuc m +ℤ pos n = diff n (suc m)
negsuc m +ℤ negsuc n = negsuc (m + n + 1)

-- The integer with a sign and a magnitude.
abbrev pub of_sign : Bool → ℕ → ℤ
of_sign false m = pos m
of_sign true zero = pos 0
of_sign true (suc m) = negsuc m

abbrev pub minus : ℤ → ℤ
minus (pos m) = of_sign true m
minus (negsuc m) = pos (suc m)

pub of_sign-not : (s : Bool) (m : ℕ) → of_sign (not s) m ≡ minus (of_sign s m)
of_sign-not true zero = refl
of_sign-not true (suc m) = refl
of_sign-not false m = refl

diff-le : (m n : ℕ) → n ≤ m → diff m n ≡ pos (m - n)
unfolding diff
diff-le m n h = let e : leb n m ≡ true = ground arith in rw e refl

diff-lt : (m n k : ℕ) → m + suc k ≡ n → diff m n ≡ negsuc k
unfolding diff
diff-lt m n k h =
    let e : leb n m ≡ false = ground arith in let f : n - m - 1 ≡ k = omega arith in rw (e, f) refl

diff-ge : (m n : ℕ) → m ≤ n → diff m n ≡ of_sign true (n - m)
diff-ge m n h = go (n - m) refl
  where
    go : (k : ℕ) → n - m ≡ k → diff m n ≡ of_sign true k
    go zero e = diff-le m n (omega arith) ∙ ap pos (omega arith)
    go (suc k) e = diff-lt m n k (omega arith)

pos-of_sign : (m n : ℕ) → pos m +ℤ of_sign true n ≡ diff m n
pos-of_sign m zero = ap pos (omega arith) ∙ sym (diff-le m 0 (omega arith))
pos-of_sign m (suc n) = refl

of_sign-pos : (m n : ℕ) → of_sign true m +ℤ pos n ≡ diff n m
of_sign-pos zero n = ap pos (omega arith) ∙ sym (diff-le n 0 (omega arith))
of_sign-pos (suc m) n = refl

-- Magnitudes of the same sign are added, those of different signs subtracted.
pub of_sign-same : (s : Bool) (m n : ℕ) → of_sign s (m + n) ≡ of_sign s m +ℤ of_sign s n
of_sign-same false m n = refl
of_sign-same true zero n = go n
  where
    go : (n : ℕ) → of_sign true (0 + n) ≡ pos 0 +ℤ of_sign true n
    go n = ap (of_sign true) (omega arith) ∙ sym (diff-ge 0 n (omega arith)) ∙ sym (pos-of_sign 0 n)
of_sign-same true (suc m) zero =
    ap (of_sign true) (omega arith) ∙ sym (diff-ge 0 (suc m) (omega arith))
of_sign-same true (suc m) (suc n) =
    let e : suc m + suc n ≡ suc (m + n + 1) = omega arith in ap (of_sign true) e

pub of_sign-greater :
    (s : Bool) (m n : ℕ) → n ≤ m → of_sign s (m - n) ≡ of_sign s m +ℤ of_sign (not s) n
of_sign-greater false m n h = sym (diff-le m n h) ∙ sym (pos-of_sign m n)
of_sign-greater true m n h = sym (diff-ge n m h) ∙ sym (of_sign-pos m n)

pub of_sign-less :
    (s : Bool) (m n : ℕ) → m ≤ n → of_sign (not s) (n - m) ≡ of_sign s m +ℤ of_sign (not s) n
of_sign-less false m n h = sym (diff-ge m n h) ∙ sym (pos-of_sign m n)
of_sign-less true m n h = sym (diff-le n m h) ∙ sym (of_sign-pos m n)
