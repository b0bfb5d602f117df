-- ===== src/Prelude/Tables.antt =====
-- Bytes, and equations between functions on small numbers, by trying them all.
use Prim.Native.Nat.{ℕ, zero, suc, ◌<◌}
use mathlib.Core.Path.{◌≡◌, sym, ap, ◌∙◌}
use mathlib.Core.Logic.{inl, inr}
use mathlib.Core.Bool.{Bool, true, false}
use mathlib.Core.List.{List, [], ◌∷◌}
use native.Mathlib.Omega.{arith}
use robin_mesh_v.Prelude.Tests.{ltb, ◌==◌, if◌then◌else◌, Bool-cases}

abbrev pub IsBytes : List ℕ → Type 0
IsBytes [] = Unit
IsBytes (c ∷ cs) = (c < 256) × IsBytes cs

-- Are `f` and `g` equal at the numbers below `n`?
abbrev pub agree : (ℕ → ℕ) → (ℕ → ℕ) → ℕ → Bool
agree f g zero = true
agree f g (suc n) = if f n == g n then agree f g n else false

pub agree-equal : (f g : ℕ → ℕ) (n : ℕ) {x : ℕ} → agree f g n ≡ true → x < n → f x ≡ g x
agree-equal f g zero h small = absurd (omega arith)
agree-equal f g (suc n) {x} h small =
    let both : (f n ≡ g n) × (agree f g n ≡ true) = ground (arith, h) in
    elim (Bool-cases (ltb x n)) [
      | inl e ↦ agree-equal f g n (both.1) (ground arith)
      | inr e ↦ let here : x ≡ n = ground arith in ap f here ∙ both.0 ∙ ap g (sym here)
    ]
