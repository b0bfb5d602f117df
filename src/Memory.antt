-- ===== src/Memory.antt =====
-- Reading memory through pointers, with the end of the allocation written out, for the parsers of
-- pki/asn1.c.
use robin_mesh_v.Prelude.{ℕ, zero, suc, ◌+◌, List, [], ◌∷◌, Bool, true, false}

-- The negative return values: -1, and -8 for SSL_MEM_ERROR.
pub data Code : Type 0 where
  failed : Code
  mem_error : Code

-- `fault` is an access outside the allocation, which C leaves undefined.
pub data Outcome {ℓ} (A : Type ℓ) : Type ℓ where
  ok : A → Outcome A
  err : Code → Outcome A
  fault : Outcome A

infixl 5 ◌>>=◌ ◌>>◌
abbrev pub ◌>>=◌ {ℓ κ} : {A : Type ℓ} {B : Type κ} → Outcome A → (A → Outcome B) → Outcome B
ok a >>= f = f a
err c >>= f = err c
fault >>= f = fault

abbrev pub ◌>>◌ {ℓ} : {B : Type ℓ} → Outcome (Unit {0}) → Outcome B → Outcome B
m >> k = m >>= λ _. k

-- `if (b) return -1;`
abbrev pub refuse_if : Bool → Outcome (Unit {0})
refuse_if true = err failed
refuse_if false = ok tt

-- A pointer: its address, and the bytes from there to the end of the allocation.
pub record Ptr : Type 0 where
  pub at : ℕ
  pub mem : List ℕ

-- `*p`
abbrev pub peek : Ptr → Outcome ℕ
peek p = elim p.mem [ [] ↦ fault | c ∷ m ↦ ok c ]

-- `*p++`
abbrev pub next : Ptr → Outcome (ℕ × Ptr)
next p = elim p.mem [ [] ↦ fault | c ∷ m ↦ ok (c, record { at = p.at + 1; mem = m }) ]

-- `memcpy(_, p, n); p += n`
abbrev pub copy_from : List ℕ → ℕ → Outcome (List ℕ × List ℕ)
copy_from m zero = ok ([], m)
copy_from [] (suc n) = fault
copy_from (c ∷ m) (suc n) = copy_from m n >>= λ r. ok (c ∷ r.0, r.1)

abbrev pub copy : Ptr → ℕ → Outcome (List ℕ × Ptr)
copy p n = copy_from p.mem n >>= λ r. ok (r.0, record { at = p.at + n; mem = r.1 })
