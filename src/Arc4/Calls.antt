-- ===== src/Arc4/Calls.antt =====
-- Calls of `matrixArc4` against RC4 as it is published.
use robin_mesh_v.Prelude.{ℕ, ◌%◌, ◌≡◌, Option, none, some, List, [], ◌∷◌, ◌++◌}
use robin_mesh_v.Arc4.{Arc4, matrix_arc4}
use robin_mesh_v.Arc4.Reference.{running, Tabulates}

-- A context that has been used for `n` bytes since it was made from the key.
record At (key : List ℕ) (n : ℕ) (a : Arc4) : Type 0 where
  table : Tabulates a.state ((running key n).0)
  here : a.x ≡ n % 256
  there : a.y ≡ (running key n).1

-- Several calls of `matrixArc4`, where none fails: what they write.
abbrev and_calls : (Arc4 → Option (List ℕ)) → Arc4 × Option (List ℕ) → Option (List ℕ)
and_calls later (a, none) = none
and_calls later (a, some out) = elim (later a) [ none ↦ none | some rest ↦ some (out ++ rest) ]

unfoldable pub calls : Arc4 → List (List ℕ) → Option (List ℕ)
calls a [] = some []
calls a (b ∷ bs) = and_calls (λ a'. calls a' bs) (matrix_arc4 a b)
