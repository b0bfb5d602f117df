-- ===== src/Mpi/Bits/Write.antt =====
-- Writing a big integer in its unsigned form, and reading it back.
use robin_mesh_v.Prelude.{
  ℕ, zero, suc, ◌+◌, ◌*◌, ◌%◌, ◌^◌, ◌≤◌, ◌<◌, ◌≡◌, refl, sym, ap, ◌∙◌, subst, Bool, true, false,
  Option, none, some, List, [], ◌∷◌, ◌++◌, ℤ, pos, negsuc, arith, length, ◌==◌, if◌then◌else◌,
  get_or, append_nil, append_assoc,
}
use robin_mesh_v.Mpi.{Mp, mp_clamp}
use robin_mesh_v.Mpi.Value.{
  value, IsDigits, IsClamped, value-clamp, clamp-IsDigits, clamp-IsClamped,
}
use robin_mesh_v.Mpi.Compare.{positive}
use robin_mesh_v.Mpi.Sign.{of_sign}
use robin_mesh_v.Mpi.Shift.{store_all}
use robin_mesh_v.Mpi.Refine.{
  Represents, Outcome, no_memory, made, Grown, refused, grown, mp_grow-Grown,
}
use robin_mesh_v.Mpi.Bits.{
  and_then, mp_copy, down_digits, div_2d_here, in_front, write_bytes, mp_to_unsigned_bin,
  mp_read_unsigned_bin,
}
use robin_mesh_v.Mpi.Bits.Shifted.{value-down_digits, down_digits-IsDigits, low_bits-small}
use robin_mesh_v.Mpi.Bits.Read.{AreBytes, number_from, mp_read_unsigned_bin-Outcome}

-- The number of bytes, the lowest first.
abbrev pub number : List ℕ → ℕ
number [] = 0
number (b ∷ rs) = b + 2 ^ 8 * number rs

-- Bytes, the last of which is not zero.
abbrev pub AreTrimmed : List ℕ → Type 0
AreTrimmed [] = Unit
AreTrimmed (b ∷ rs) = (b < 2 ^ 8) × (0 < b + number rs) × AreTrimmed rs

abbrev pub backwards : List ℕ → List ℕ
backwards [] = []
backwards (b ∷ rs) = backwards rs ++ (b ∷ [])

-- 2 ^ (8 * n)
abbrev pub weight : ℕ → ℕ
weight zero = 1
weight (suc n) = 2 ^ 8 * weight n

-- Four bytes for each digit.
abbrev rounds : List ℕ → ℕ
rounds [] = 0
rounds (d ∷ ds) = suc (suc (suc (suc (rounds ds))))

rounds_lem : (ds : List ℕ) → rounds ds ≡ 4 * length ds
rounds_lem [] = refl
rounds_lem (d ∷ ds) = omega (arith, rounds_lem ds)

weight-positive : (n : ℕ) → 0 < weight n
weight-positive zero = omega arith
weight-positive (suc n) = omega (arith, weight-positive n)

below_weight : (ds : List ℕ) → IsDigits ds → value ds < weight (rounds ds)
below_weight [] i = omega arith
below_weight (d ∷ ds) i = omega (arith, i.0, below_weight ds (i.1))

pub weight-trimmed :
    (b : ℕ) (rs : List ℕ) → AreTrimmed (b ∷ rs) → weight (length rs) ≤ number (b ∷ rs)
weight-trimmed b [] i = omega (arith, i.1)
weight-trimmed b (c ∷ rs) i = omega (arith, weight-trimmed c rs (i.2))

weight_order : (m n : ℕ) → weight m < weight n → m < n
weight_order zero zero l = absurd (omega arith)
weight_order zero (suc n) l = omega arith
weight_order (suc m) zero l = absurd (omega (arith, weight-positive m))
weight_order (suc m) (suc n) l = omega (arith, weight_order m n (omega arith))

enough_rounds :
    (rs ds : List ℕ) → AreTrimmed rs → IsDigits ds → value ds ≡ number rs → length rs ≤ rounds ds
enough_rounds [] ds t i e = omega arith
enough_rounds (b ∷ rs) ds t i e = omega (
  arith,
  weight_order (length rs) (rounds ds) (omega (arith, below_weight ds i, weight-trimmed b rs t, e)),
)

no_digits : (ds : List ℕ) → IsClamped ds → value ds ≡ 0 → (length ds == 0) ≡ true
no_digits [] c e = refl
no_digits (d ∷ ds) c e = absurd (omega (arith, e, positive d ds c))

some_digits : (ds : List ℕ) → 0 < value ds → (length ds == 0) ≡ false
some_digits [] l = absurd (omega (arith, l))
some_digits (d ∷ ds) l = ground arith

low_byte : (ds : List ℕ) → get_or ds 0 0 % 2 ^ 8 ≡ value ds % 2 ^ 8
low_byte [] = refl
low_byte (d ∷ ds) = omega arith

abbrev magnitude : ℤ → ℕ
magnitude (pos m) = m
magnitude (negsuc m) = suc m

magnitude-of_sign : (s : Bool) (m : ℕ) → magnitude (of_sign s m) ≡ m
magnitude-of_sign false m = refl
magnitude-of_sign true zero = refl
magnitude-of_sign true (suc m) = refl

of_sign-pos : (s : Bool) (m n : ℕ) → of_sign s m ≡ pos n → m ≡ n
of_sign-pos s m n e = sym (magnitude-of_sign s m) ∙ ap magnitude e

-- A number in trimmed digits that stands for the bytes.
pub record Holds (rs : List ℕ) (t : Mp) : Type 0 where
  pub digits : IsDigits t.dp
  pub clamped : IsClamped t.dp
  pub is : value t.dp ≡ number rs

data Halved (can : ℕ → Bool) (rs : List ℕ) : Option Mp → Type 0 where
  lacking : (n : ℕ) → can n ≡ false → Halved can rs none
  halved : (c : Mp) → Holds rs c → Halved can rs (some c)

-- These bytes, or nothing where memory was refused.
pub data Written (can : ℕ → Bool) (bs : List ℕ) : Option (List ℕ) → Type 0 where
  unwritten : (n : ℕ) → can n ≡ false → Written can bs none
  written : Written can bs (some bs)

module _ (can : ℕ → Bool) where
  div_2d_here-Halved :
      (b : ℕ) (rs : List ℕ) (t : Mp)
      → b < 2 ^ 8
      → Holds (b ∷ rs) t
      → Halved can rs (div_2d_here can t 8)
  unfolding div_2d_here mp_clamp
  div_2d_here-Halved b rs t l h = go (can 64) refl
    where
      go :
          (x : Bool)
          → can 64 ≡ x
          → Halved can rs (
              and_then
                (if x then some (record { alloc = 64; neg = false; dp = [] }) else none)
                (λ _. some (mp_clamp (record t { dp = down_digits 8 t.dp }))))
      go false e = lacking 64 e
      go true e = halved _ (record {
        digits = clamp-IsDigits _ (down_digits-IsDigits t.dp h.digits);
        clamped = clamp-IsClamped (down_digits 8 t.dp);
        is = omega (
          arith,
          value-clamp (down_digits 8 t.dp),
          value-down_digits t.dp h.digits,
          low_bits-small t.dp,
          h.is,
        );
      })

  write_bytes-Written :
      (rs : List ℕ) (fuel : ℕ) (t : Mp)
      → AreTrimmed rs
      → length rs < fuel
      → Holds rs t
      → Written can (backwards rs) (write_bytes can fuel t)
  unfolding write_bytes
  write_bytes-Written [] zero t i l h = absurd (omega (arith, l))
  write_bytes-Written (b ∷ rs) zero t i l h = absurd (omega (arith, l))
  write_bytes-Written [] (suc fuel) t i l h = rw (no_digits t.dp h.clamped h.is) written
  write_bytes-Written (b ∷ rs) (suc fuel) t i l h =
      let more : (length t.dp == 0) ≡ false = some_digits t.dp (omega (arith, h.is, i.1)) in
      let byte : get_or t.dp 0 0 % 2 ^ 8 ≡ b = omega (arith, low_byte t.dp, h.is, i.0) in
      rw (more, byte)
        (go _ (div_2d_here-Halved b rs t (i.0) h)
          (λ c q. write_bytes-Written rs fuel c (i.2) (omega (arith, l)) q))
    where
      front :
          (o : Option (List ℕ))
          → Written can (backwards rs) o
          → Written can (backwards rs ++ (b ∷ [])) (in_front b o)
      front none (unwritten n f) = unwritten n f
      front _ written = written

      go :
          (o : Option Mp)
          → Halved can rs o
          → ((c : Mp) → Holds rs c → Written can (backwards rs) (write_bytes can fuel c))
          → Written can
              (backwards rs ++ (b ∷ []))
              (in_front b (and_then o (λ t. write_bytes can fuel t)))
      go none (lacking n f) later = unwritten n f
      go _ (halved c q) later = front _ (later c q)

  mp_to_unsigned_bin-Written :
      (rs : List ℕ) (a : Mp)
      → AreTrimmed rs
      → Holds rs a
      → Written can (backwards rs) (mp_to_unsigned_bin can a)
  unfolding mp_to_unsigned_bin mp_copy store_all
  mp_to_unsigned_bin-Written rs a i h = init (can 64) refl
    where
      few : length rs < 4 * length a.dp + 1
      few = omega (arith, enough_rounds rs a.dp i h.digits h.is, rounds_lem a.dp)

      go :
          (t : Mp) (o : Option Mp)
          → Grown can t (length a.dp) o
          → Written can
              (backwards rs)
              (and_then (store_all a.dp o) (λ t. write_bytes can (4 * length a.dp + 1) t))
      go t none (refused n f) = unwritten n f
      go t _ (grown alloc f) =
          write_bytes-Written rs (4 * length a.dp + 1) _ i few
            (record { digits = h.digits; clamped = h.clamped; is = h.is })

      init :
          (x : Bool)
          → can 64 ≡ x
          → Written can (backwards rs) (
              and_then
                (if x then some (record { alloc = 64; neg = false; dp = [] }) else none)
                (λ t. and_then (mp_copy can a t) (λ t. write_bytes can (4 * length a.dp + 1) t)))
      init false e = unwritten 64 e
      init true e =
          go (record { alloc = 64; neg = a.neg; dp = [] }) _
            (mp_grow-Grown can (record { alloc = 64; neg = a.neg; dp = [] }) (length a.dp))

-- Bytes that arrive, the highest first, on top of the lower ones so far, without zeros at the front.
abbrev push : ℕ → List ℕ → List ℕ
push zero [] = []
push (suc b) [] = suc b ∷ []
push b (r ∷ rs) = b ∷ r ∷ rs

abbrev pub low_first : List ℕ → List ℕ → List ℕ
low_first rs [] = rs
low_first rs (b ∷ bs) = low_first (push b rs) bs

-- The bytes from the first that is not zero.
abbrev pub without_zeros : List ℕ → List ℕ
without_zeros [] = []
without_zeros (zero ∷ bs) = without_zeros bs
without_zeros (suc b ∷ bs) = suc b ∷ bs

number-push : (b : ℕ) (rs : List ℕ) → number (push b rs) ≡ b + 2 ^ 8 * number rs
number-push zero [] = refl
number-push (suc b) [] = refl
number-push b (r ∷ rs) = refl

push-AreTrimmed : (b : ℕ) (rs : List ℕ) → b < 2 ^ 8 → AreTrimmed rs → AreTrimmed (push b rs)
push-AreTrimmed zero [] l i = _
push-AreTrimmed (suc b) [] l i = (l, omega arith, _)
push-AreTrimmed b (r ∷ rs) l i = (l, omega (arith, i.1), i)

number-low_first : (rs bs : List ℕ) → number_from (number rs) bs ≡ number (low_first rs bs)
number-low_first rs [] = refl
number-low_first rs (b ∷ bs) =
    ap (λ v. number_from v bs)
      (let e : number rs * 2 ^ 8 + b ≡ number (push b rs) = omega (arith, number-push b rs) in e)
    ∙ number-low_first (push b rs) bs

pub low_first-AreTrimmed :
    (rs bs : List ℕ) → AreTrimmed rs → AreBytes bs → AreTrimmed (low_first rs bs)
low_first-AreTrimmed rs [] i j = i
low_first-AreTrimmed rs (b ∷ bs) i j =
    low_first-AreTrimmed (push b rs) bs (push-AreTrimmed b rs (j.0) i) (j.1)

backwards-low_first :
    (r : ℕ) (rs bs : List ℕ) → backwards (low_first (r ∷ rs) bs) ≡ backwards (r ∷ rs) ++ bs
backwards-low_first r rs [] = sym (append_nil (backwards (r ∷ rs)))
backwards-low_first r rs (b ∷ bs) =
    backwards-low_first b (r ∷ rs) bs ∙ append_assoc (backwards (r ∷ rs)) (b ∷ []) bs

pub without_zeros_lem : (bs : List ℕ) → backwards (low_first [] bs) ≡ without_zeros bs
without_zeros_lem [] = refl
without_zeros_lem (zero ∷ bs) = without_zeros_lem bs
without_zeros_lem (suc b ∷ bs) = backwards-low_first (suc b) [] bs

pub Represents-Holds :
    (bs : List ℕ) (c : Mp) → Represents c (pos (number_from 0 bs)) → Holds (low_first [] bs) c
Represents-Holds bs c p = record {
  digits = p.digits;
  clamped = p.clamped;
  is = of_sign-pos c.neg (value c.dp) _ p.is ∙ number-low_first [] bs;
}

-- What mp_read_unsigned_bin has read from bytes, mp_to_unsigned_bin writes as these bytes from the first
-- that is not zero, unless memory is refused to one of them.
pub mp_to_unsigned_bin-mp_read_unsigned_bin :
    (can : ℕ → Bool) (a : Mp) (bs : List ℕ)
    → AreBytes bs
    → Written can
        (without_zeros bs)
        (and_then (mp_read_unsigned_bin can a bs) (mp_to_unsigned_bin can))
mp_to_unsigned_bin-mp_read_unsigned_bin can a bs i = go _ (mp_read_unsigned_bin-Outcome can a bs i)
  where
    go :
        (o : Option Mp)
        → Outcome can (pos (number_from 0 bs)) o
        → Written can (without_zeros bs) (and_then o (mp_to_unsigned_bin can))
    go none (no_memory n f) = unwritten n f
    go _ (made c p) =
        subst (λ q. Written can q (mp_to_unsigned_bin can c)) (without_zeros_lem bs)
          (mp_to_unsigned_bin-Written can (low_first [] bs) c (low_first-AreTrimmed [] bs _ i)
            (Represents-Holds bs c p))
