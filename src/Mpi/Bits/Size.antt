-- ===== src/Mpi/Bits/Size.antt =====
-- The number of bytes that mp_unsigned_bin_size counts, which callers of mp_to_unsigned_bin make room for.
use robin_mesh_v.Prelude.{
  ℕ, zero, suc, ◌+◌, ◌-◌, ◌*◌, ◌/◌, ◌%◌, ◌^◌, ◌≤◌, ◌<◌, ◌≡◌, refl, sym, ap, subst, ◌∙◌, Bool, false,
  Option, none, some, pos, List, [], ◌∷◌, arith, length, ◌==◌, if◌then◌else◌, get_or, length-append,
}
use robin_mesh_v.Mpi.{Mp}
use robin_mesh_v.Mpi.Value.{value, IsDigits, IsClamped, top, above}
use robin_mesh_v.Mpi.Bits.{digit_bits, mp_count_bits, mp_unsigned_bin_size}
use robin_mesh_v.Mpi.Compare.{positive}
use robin_mesh_v.Mpi.Refine.{Outcome, no_memory, made}
use robin_mesh_v.Mpi.Bits.{mp_read_unsigned_bin}
use robin_mesh_v.Mpi.Bits.Read.{AreBytes, number_from, mp_read_unsigned_bin-Outcome}
use robin_mesh_v.Mpi.Bits.Write.{
  backwards, low_first, low_first-AreTrimmed, without_zeros, without_zeros_lem, Represents-Holds,
  number, AreTrimmed, Holds, weight, weight-trimmed,
}

-- 2 ^ n
abbrev pow2 : ℕ → ℕ
pow2 zero = 1
pow2 (suc n) = 2 * pow2 n

pow2-positive : (n : ℕ) → 0 < pow2 n
pow2-positive zero = omega arith
pow2-positive (suc n) = omega (arith, pow2-positive n)

pow2_add : (m n : ℕ) → pow2 (m + n) ≡ pow2 m * pow2 n
pow2_add zero n = let e : 0 + n ≡ n = omega arith in rw e (omega arith)
pow2_add (suc m) n =
    let next : suc m + n ≡ suc (m + n) = omega arith in
    let rest = pow2_add m n in rw (next, rest) (grind arith)

pow2_order : (m n : ℕ) → pow2 m < pow2 n → m < n
pow2_order zero zero l = absurd (omega arith)
pow2_order zero (suc n) l = omega arith
pow2_order (suc m) zero l = absurd (omega (arith, pow2-positive m))
pow2_order (suc m) (suc n) l = omega (arith, pow2_order m n (omega arith))

-- A number with `c` bits.
record HasBits (v c : ℕ) : Type 0 where
  least : pow2 c ≤ 2 * v
  most : v < pow2 c

digit_bits-HasBits : (fuel q : ℕ) → 0 < q → q < pow2 fuel → HasBits q (digit_bits fuel q)
digit_bits-HasBits fuel zero l m = absurd (omega arith)
digit_bits-HasBits zero (suc q) l m = absurd (omega (arith, m))
digit_bits-HasBits (suc fuel) (suc zero) l m = record { least = omega arith; most = omega arith }
digit_bits-HasBits (suc fuel) (suc (suc q)) l m =
    let rest = digit_bits-HasBits fuel (suc (suc q) / 2) (omega arith) (omega (arith, m)) in
    record { least = omega (arith, rest.least, rest.most); most = omega (arith, rest.most) }

-- The bits of digits, by the top one.
abbrev all_bits : List ℕ → ℕ
all_bits [] = 0
all_bits (d ∷ []) = digit_bits 32 d
all_bits (d ∷ e ∷ ds) = 28 + all_bits (e ∷ ds)

next_digit : (k : ℕ) → pow2 (28 + k) ≡ 2 ^ 28 * pow2 k
next_digit k = pow2_add 28 k

all_bits-HasBits :
    (d : ℕ) (ds : List ℕ)
    → IsDigits (d ∷ ds)
    → IsClamped (d ∷ ds)
    → HasBits (value (d ∷ ds)) (all_bits (d ∷ ds))
all_bits-HasBits d [] i (top _ l) =
    let bits = digit_bits-HasBits 32 d l (omega (arith, i.0)) in
    record { least = omega (arith, bits.least); most = omega (arith, bits.most) }
all_bits-HasBits d (e ∷ ds) i (above _ _ _ c) =
    let rest = all_bits-HasBits e ds (i.1) c in
    let next = next_digit (all_bits (e ∷ ds)) in
    record { least = omega (arith, next, rest.least); most = omega (arith, next, rest.most, i.0) }

all_bits_lem :
    (d : ℕ) (ds : List ℕ)
    → all_bits (d ∷ ds) ≡ length ds * 28 + digit_bits 32 (get_or (d ∷ ds) (length ds) 0)
all_bits_lem d [] = omega arith
all_bits_lem d (e ∷ ds) = omega (arith, all_bits_lem e ds)

weight-pow2 : (n : ℕ) → weight n ≡ pow2 (8 * n)
weight-pow2 zero = refl
weight-pow2 (suc n) =
    let next : 8 * suc n ≡ 8 + 8 * n = omega arith in
    rw next (omega (arith, pow2_add 8 (8 * n), weight-pow2 n))

number-weight : (rs : List ℕ) → AreTrimmed rs → number rs < weight (length rs)
number-weight [] i = omega arith
number-weight (b ∷ rs) i = omega (arith, i.0, number-weight rs (i.2))

rounded : (c n : ℕ) → 8 * n < c → c ≤ 8 * suc n → c / 8 + (if c % 8 == 0 then 0 else 1) ≡ suc n
rounded c n l m = ground arith

count_lem : (a : Mp) (d : ℕ) (ds : List ℕ) → a.dp ≡ d ∷ ds → mp_count_bits a ≡ all_bits (d ∷ ds)
unfolding mp_count_bits
count_lem a d ds e =
    let more : (suc (length ds) == 0) ≡ false = ground arith in
    let last : suc (length ds) - 1 ≡ length ds = omega arith in
    rw (e, more, last) (sym (all_bits_lem d ds))

no_value : (ds : List ℕ) → IsClamped ds → value ds ≡ 0 → ds ≡ []
no_value [] c e = refl
no_value (d ∷ ds) c e = absurd (omega (arith, e, positive d ds c))

no_bits : (a : Mp) → a.dp ≡ [] → mp_count_bits a ≡ 0
unfolding mp_count_bits
no_bits a e = rw e refl

-- A number whose bytes are `b` and those of `rs` above it.
bits_between :
    (a : Mp) (b : ℕ) (rs : List ℕ)
    → AreTrimmed (b ∷ rs)
    → Holds (b ∷ rs) a
    → (8 * length rs < mp_count_bits a) × (mp_count_bits a ≤ 8 * suc (length rs))
bits_between a b rs i h = go a.dp refl
  where
    go :
        (ds : List ℕ)
        → a.dp ≡ ds
        → (8 * length rs < mp_count_bits a) × (mp_count_bits a ≤ 8 * suc (length rs))
    go [] e =
        let none_left : value a.dp ≡ 0 = ap value e in absurd (omega (arith, none_left, h.is, i.1))
    go (d ∷ ds) e =
        let c = all_bits (d ∷ ds) in
        let bits : HasBits (value a.dp) c =
          subst (λ q. HasBits (value q) c) (sym e)
            (all_bits-HasBits d ds (subst IsDigits e h.digits) (subst IsClamped e h.clamped)) in
        let count = count_lem a d ds e in
        let low : pow2 (8 * length rs) < pow2 c =
          omega (arith, weight-pow2 (length rs), weight-trimmed b rs i, bits.most, h.is) in
        let high : pow2 c < pow2 (suc (8 * suc (length rs))) =
          omega
            (arith, weight-pow2 (suc (length rs)), number-weight (b ∷ rs) i, bits.least, h.is) in
        (
          omega (arith, count, pow2_order (8 * length rs) c low),
          omega (arith, count, pow2_order c (suc (8 * suc (length rs))) high),
        )

-- mp_unsigned_bin_size is the number of bytes that stand for a number.
mp_unsigned_bin_size-length :
    (rs : List ℕ) (a : Mp) → AreTrimmed rs → Holds rs a → mp_unsigned_bin_size a ≡ length rs
unfolding mp_unsigned_bin_size
mp_unsigned_bin_size-length [] a i h =
    let none_left : mp_count_bits a ≡ 0 = no_bits a (no_value a.dp h.clamped h.is) in
    rw none_left refl
mp_unsigned_bin_size-length (b ∷ rs) a i h =
    let between = bits_between a b rs i h in
    rounded (mp_count_bits a) (length rs) (between.0) (between.1)

abbrev pub IsSized : ℕ → Option Mp → Type 0
IsSized n none = Unit
IsSized n (some c) = mp_unsigned_bin_size c ≡ n

length-backwards : (rs : List ℕ) → length (backwards rs) ≡ length rs
length-backwards [] = refl
length-backwards (b ∷ rs) =
    omega (arith, length-append (backwards rs) (b ∷ []), length-backwards rs)

-- For a number that mp_read_unsigned_bin has read from bytes, mp_unsigned_bin_size gives the number of
-- these bytes from the first that is not zero, which is what mp_to_unsigned_bin writes.
pub mp_unsigned_bin_size-mp_read_unsigned_bin :
    (can : ℕ → Bool) (a : Mp) (bs : List ℕ)
    → AreBytes bs
    → IsSized (length (without_zeros bs)) (mp_read_unsigned_bin can a bs)
mp_unsigned_bin_size-mp_read_unsigned_bin can a bs i =
    go _ (mp_read_unsigned_bin-Outcome can a bs i)
  where
    go :
        (o : Option Mp)
        → Outcome can (pos (number_from 0 bs)) o
        → IsSized (length (without_zeros bs)) o
    go none (no_memory n f) = _
    go _ (made c p) =
        mp_unsigned_bin_size-length (low_first [] bs) c (low_first-AreTrimmed [] bs _ i)
          (Represents-Holds bs c p)
        ∙ sym (length-backwards (low_first [] bs))
        ∙ ap length (without_zeros_lem bs)
