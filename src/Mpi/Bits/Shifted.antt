-- ===== src/Mpi/Bits/Shifted.antt =====
-- What the loops of the shifts by eight bits do to the number.
use robin_mesh_v.Prelude.{
  ℕ, zero, suc, ◌+◌, ◌*◌, ◌/◌, ◌%◌, ◌^◌, ◌<◌, ◌≡◌, refl, ap, ◌∙◌, List, [], ◌∷◌, ◌++◌, arith,
  bit_or, length,
}
use robin_mesh_v.Mpi.Value.{value, IsDigits}
use robin_mesh_v.Mpi.Bits.{up_digits, low_bits, down_digits, add_byte}
use robin_mesh_v.Mpi.Bits.Apart.{above-bit_or, below-bit_or, zero-bit_or}

-- A digit that moves up by eight bits, with the byte that comes from below.
moved_up :
    (a r : ℕ)
    → a < 2 ^ 28
    → r < 2 ^ 8
    → (bit_or (a * 2 ^ 8 % 2 ^ 32) r % 2 ^ 28 + 2 ^ 28 * (a / 2 ^ 20 % 2 ^ 8) ≡ a * 2 ^ 8 + r)
moved_up a r l m =
    let join = above-bit_or 8 (a % 2 ^ 24) r m in
    let wrap : a * 2 ^ 8 % 2 ^ 32 ≡ a % 2 ^ 24 * 2 ^ 8 = omega arith in
    rw wrap (omega (arith, join))

pub value-up_digits :
    (r : ℕ) (ds : List ℕ)
    → IsDigits ds
    → r < 2 ^ 8
    → value (up_digits 8 r ds) ≡ value ds * 2 ^ 8 + r
value-up_digits zero [] i l = refl
value-up_digits (suc r) [] i l = omega arith
value-up_digits r (a ∷ ds) i l =
    let rest = value-up_digits (a / 2 ^ 20 % 2 ^ 8) ds (i.1) (omega arith) in
    omega (arith, rest, moved_up a r (i.0) l)

pub up_digits-IsDigits : (r : ℕ) (ds : List ℕ) → r < 2 ^ 8 → IsDigits (up_digits 8 r ds)
up_digits-IsDigits zero [] l = _
up_digits-IsDigits (suc r) [] l = (omega arith, _)
up_digits-IsDigits r (a ∷ ds) l =
    (omega arith, up_digits-IsDigits (a / 2 ^ 20 % 2 ^ 8) ds (omega arith))

-- The top digit has room for eight bits more.
abbrev pub IsLoose : List ℕ → Type 0
IsLoose [] = Unit
IsLoose (d ∷ []) = d < 2 ^ 20
IsLoose (d ∷ e ∷ ds) = IsLoose (e ∷ ds)

pub length-up_digits :
    (r d : ℕ) (ds : List ℕ) → IsLoose (d ∷ ds) → length (up_digits 8 r (d ∷ ds)) ≡ suc (length ds)
length-up_digits r d [] l =
    let none_left : d / 2 ^ 20 % 2 ^ 8 ≡ 0 = omega arith in rw none_left refl
length-up_digits r d (e ∷ ds) l = ap suc (length-up_digits (d / 2 ^ 20 % 2 ^ 8) e ds l)

-- A digit that moves down by eight bits, with those that come from above.
moved_down :
    (a r : ℕ)
    → a < 2 ^ 28
    → r < 2 ^ 8
    → bit_or (a / 2 ^ 8) (r * 2 ^ 20 % 2 ^ 32) ≡ a / 2 ^ 8 + r * 2 ^ 20
moved_down a r l m =
    let join = below-bit_or 20 r (a / 2 ^ 8) (omega arith) in
    let wrap : r * 2 ^ 20 % 2 ^ 32 ≡ r * 2 ^ 20 = omega arith in rw wrap (omega (arith, join))

pub low_bits-small : (ds : List ℕ) → low_bits 8 ds < 2 ^ 8
low_bits-small [] = omega arith
low_bits-small (d ∷ ds) = omega arith

pub value-down_digits :
    (ds : List ℕ) → IsDigits ds → 2 ^ 8 * value (down_digits 8 ds) + low_bits 8 ds ≡ value ds
value-down_digits [] i = refl
value-down_digits (a ∷ ds) i =
    omega
      (arith, value-down_digits ds (i.1), moved_down a (low_bits 8 ds) (i.0) (low_bits-small ds))

pub down_digits-IsDigits : (ds : List ℕ) → IsDigits ds → IsDigits (down_digits 8 ds)
down_digits-IsDigits [] i = _
down_digits-IsDigits (a ∷ ds) i = (
  omega (arith, i.0, low_bits-small ds, moved_down a (low_bits 8 ds) (i.0) (low_bits-small ds)),
  down_digits-IsDigits ds (i.1),
)

pub length-down_digits : (ds : List ℕ) → length (down_digits 8 ds) ≡ length ds
length-down_digits [] = refl
length-down_digits (a ∷ ds) = ap suc (length-down_digits ds)

-- A byte that comes in below a number of whole bytes.
value-snoc_zero : (ds : List ℕ) → value (ds ++ (0 ∷ [])) ≡ value ds
value-snoc_zero [] = refl
value-snoc_zero (d ∷ ds) = ap (λ v. d + 2 ^ 28 * v) (value-snoc_zero ds)

joined : (d b : ℕ) → d % 2 ^ 8 ≡ 0 → b < 2 ^ 8 → bit_or d b ≡ d + b
joined d b e l =
    let whole : d ≡ d / 2 ^ 8 * 2 ^ 8 = omega (arith, e) in
    ap (λ x. bit_or x b) whole ∙ above-bit_or 8 (d / 2 ^ 8) b l ∙ omega (arith, whole)

pub value-add_byte :
    (b : ℕ) (ds : List ℕ) → value ds % 2 ^ 8 ≡ 0 → b < 2 ^ 8 → value (add_byte b ds) ≡ value ds + b
value-add_byte b [] e l = omega (arith, zero-bit_or b)
value-add_byte b (d ∷ ds) e l = omega (arith, joined d b (omega (arith, e)) l, value-snoc_zero ds)

snoc_zero-IsDigits : (ds : List ℕ) → IsDigits ds → IsDigits (ds ++ (0 ∷ []))
snoc_zero-IsDigits [] i = (omega arith, _)
snoc_zero-IsDigits (d ∷ ds) i = (i.0, snoc_zero-IsDigits ds (i.1))

pub add_byte-IsDigits :
    (b : ℕ) (ds : List ℕ)
    → IsDigits ds
    → value ds % 2 ^ 8 ≡ 0
    → b < 2 ^ 8
    → IsDigits (add_byte b ds)
add_byte-IsDigits b [] i e l = (omega (arith, zero-bit_or b), _)
add_byte-IsDigits b (d ∷ ds) i e l =
    (omega (arith, i.0, e, joined d b (omega (arith, e)) l), snoc_zero-IsDigits ds (i.1))

snoc_zero-IsLoose : (d : ℕ) (ds : List ℕ) → IsLoose (d ∷ ds ++ (0 ∷ []))
snoc_zero-IsLoose d [] = omega arith
snoc_zero-IsLoose d (e ∷ ds) = snoc_zero-IsLoose e ds

pub add_byte-IsLoose : (b : ℕ) (ds : List ℕ) → b < 2 ^ 8 → IsLoose (add_byte b ds)
add_byte-IsLoose b [] l = omega (arith, zero-bit_or b)
add_byte-IsLoose b (d ∷ ds) l = snoc_zero-IsLoose _ ds

length-snoc : (ds : List ℕ) → length (ds ++ (0 ∷ [])) ≡ suc (length ds)
length-snoc [] = refl
length-snoc (d ∷ ds) = ap suc (length-snoc ds)

pub length-add_byte : (b : ℕ) (ds : List ℕ) → length (add_byte b ds) ≡ suc (length ds)
length-add_byte b [] = refl
length-add_byte b (d ∷ ds) = ap suc (length-snoc ds)
