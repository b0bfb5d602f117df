-- ===== src/Asn/Bounds.antt =====
-- Which bytes the functions of pki/asn1.c read, and how far they move their pointer.
use robin_mesh_v.Prelude.{
  ℕ, zero, suc, ◌+◌, ◌-◌, ◌*◌, ◌/◌, ◌%◌, ◌^◌, Bool, true, false, ◌||◌, not, List, [], ◌∷◌, ltb, leb,
  ◌==◌, if◌then◌else◌, bit_xor, ◌≤◌, ◌<◌, ◌≡◌, refl, arith, length, ap, pos, negsuc,
}
use robin_mesh_v.Memory.{Code, Outcome, ok, err, failed, ◌>>=◌, Ptr, peek, next}
use robin_mesh_v.Asn.{
  read_word, read_complement, parse_long_length, parse_length, tagged_length, get_sequence, get_set,
  integer_value, get_integer,
}
use robin_mesh_v.Asn.Tag

-- `q` is `p` advanced by `k` bytes of the allocation.
pub record Advanced (p q : Ptr) (k : ℕ) : Type 0 where
  pub at_k : q.at ≡ p.at + k
  pub mem_k : length q.mem + k ≡ length p.mem

Advanced-refl : (p : Ptr) → Advanced p p 0
Advanced-refl p = omega arith

Advanced-trans : {p q r : Ptr} (j k : ℕ) → Advanced p q j → Advanced q r k → Advanced p r (j + k)
Advanced-trans j k a b = omega arith

-- A result that is no fault, whose pointer advanced by at most `hi` bytes.
pub data Safe {A : Type 0} (p : Ptr) (hi : ℕ) (P : A → Ptr → Type 0)
    : Outcome (A × Ptr) → Type 0 where
  parsed : (a : A) (q : Ptr) (k : ℕ) → k ≤ hi → Advanced p q k → P a q → Safe p hi P (ok (a, q))
  refused : (c : Code) → Safe p hi P (err c)

-- A later part starts at the pointer that the first one left, with what it left of the bound.
Safe_then :
    {A B : Type 0} {p : Ptr} {hi : ℕ} {P : A → Ptr → Type 0} {Q : B → Ptr → Type 0}
    {m : Outcome (A × Ptr)} (f : A × Ptr → Outcome (B × Ptr)) (total : ℕ)
    → Safe p hi P m
    → ((a : A) (q : Ptr) (k : ℕ)
        → k ≤ hi
        → Advanced p q k
        → P a q
        → (rest : ℕ) × (k + rest ≤ total) × Safe q rest Q (f (a, q)))
    → Safe p total Q (m >>= f)
Safe_then f total (parsed a q k le adv pa) rest =
    let (r, fits, s) = rest a q k le adv pa in extend k r fits adv s
  where
    extend :
        {B : Type 0} {Q : B → Ptr → Type 0} {p q : Ptr} {m : Outcome (B × Ptr)} (k r : ℕ)
        → k + r ≤ total
        → Advanced p q k
        → Safe q r Q m
        → Safe p total Q m
    extend k r fits adv (parsed b q' j le' adv' pb) =
        parsed b q' (k + j) (omega arith) (Advanced-trans k j adv adv') pb
    extend k r fits adv (refused c) = refused c
Safe_then f total (refused c) rest = refused c

-- Fewer promises, and a larger bound.
Safe_weaken :
    {A : Type 0} {p : Ptr} {lo hi : ℕ} {P Q : A → Ptr → Type 0} {m : Outcome (A × Ptr)}
    → lo ≤ hi
    → ((a : A) (q : Ptr) (k : ℕ) → k ≤ lo → Advanced p q k → P a q → Q a q)
    → Safe p lo P m
    → Safe p hi Q m
Safe_weaken h f (parsed a q k le adv pa) = parsed a q k (omega arith) adv (f a q k le adv pa)
Safe_weaken h f (refused c) = refused c

Safe_if :
    {A : Type 0} {p : Ptr} {hi : ℕ} {P : A → Ptr → Type 0} {m : Outcome (A × Ptr)} (b : Bool)
    → (b ≡ false → Safe p hi P m)
    → Safe p hi P (if b then err failed else m)
Safe_if true h = refused failed
Safe_if false h = h refl

next-Safe : (p : Ptr) → 1 ≤ length p.mem → Safe p 1 (λ c q. q.at ≡ p.at + 1) (next p)
next-Safe p h = go p.mem refl h
  where
    go : (m : List ℕ) → p.mem ≡ m → 1 ≤ length m → Safe p 1 (λ c q. q.at ≡ p.at + 1) (next p)
    go [] e h = absurd (omega arith)
    go (c ∷ m) e h = rw e (
        parsed c _ 1 (omega arith) (record { at_k = refl; mem_k = omega (arith, ap length e) })
          refl)

read_word-Safe :
    (n : ℕ) (p : Ptr) (acc : ℕ)
    → n ≤ length p.mem
    → acc < 2 ^ 32
    → Safe p n (λ v q. (v < 2 ^ 32) × (q.at ≡ p.at + n)) (read_word n p acc)
unfolding read_word
read_word-Safe zero p acc h small =
    parsed acc p 0 (omega arith) (Advanced-refl p) (small, omega arith)
read_word-Safe (suc n) p acc h small =
    Safe_then _ (suc n) (next-Safe p (omega arith)) λ c q k le adv e. (
      n,
      omega arith,
      Safe_weaken (omega arith) (λ v r j le' adv' w. (w.0, omega arith))
          (read_word-Safe n q ((acc * 2 ^ 8 + c) % 2 ^ 32) (omega arith) (omega arith)),
    )

read_complement-Safe :
    (n : ℕ) (p : Ptr) (acc : ℕ)
    → n ≤ length p.mem
    → Safe p n (λ v q. q.at ≡ p.at + n) (read_complement n p acc)
unfolding read_complement
read_complement-Safe zero p acc h = parsed acc p 0 (omega arith) (Advanced-refl p) (omega arith)
read_complement-Safe (suc n) p acc h =
    Safe_then _ (suc n) (next-Safe p (omega arith)) λ c q k le adv e. (
      n,
      omega arith,
      Safe_weaken (omega arith) (λ v r j le' adv' w. omega arith)
          (read_complement-Safe n q ((acc * 2 ^ 8 + bit_xor c 0xFF) % 2 ^ 32) (omega arith)),
    )

Safe_branch :
    {A : Type 0} {p : Ptr} {hi : ℕ} {P : A → Ptr → Type 0} {m n : Outcome (A × Ptr)} (b : Bool)
    → (b ≡ true → Safe p hi P m)
    → (b ≡ false → Safe p hi P n)
    → Safe p hi P (if b then m else n)
Safe_branch true h k = h refl
Safe_branch false h k = k refl

parse_long_length-Safe :
    (p : Ptr) (left n : ℕ)
    → left ≤ length p.mem
    → Safe p left (λ v q. v < 2 ^ 31) (parse_long_length p left n)
unfolding parse_long_length
parse_long_length-Safe p left n h = Safe_if (ltb 4 n || n == 0x7f || ltb left n) λ fits.
    Safe_then _ left (read_word-Safe n p 0 (ground arith) (omega arith)) λ v q k le adv w. (
      left - k,
      ground arith,
      Safe_if (leb (2 ^ 31) v) λ small. parsed v q 0 (omega arith) (Advanced-refl q) (ground arith),
    )

-- `asnParseLength` reads only the `size` bytes it is given, leaves the pointer inside them, behind
-- at least one, and returns a length that fits an `int32`.
pub parse_length-Safe :
    (p : Ptr) (size : ℕ)
    → size ≤ length p.mem
    → Safe p size (λ v q. (v < 2 ^ 31) × (p.at + 1 ≤ q.at)) (parse_length p size)
unfolding parse_length
parse_length-Safe p size h = Safe_if (ltb size 1) λ some_left.
    Safe_then _ size (next-Safe p (ground arith)) λ c q k le adv e. (
      size - k,
      ground arith,
      Safe_if (c == 0x80) λ definite.
          Safe_branch (c / 2 ^ 7 % 2 == 0)
            (λ short. parsed (c % 2 ^ 7) q 0 (omega arith) (Advanced-refl q) (omega arith))
            (λ long.
              Safe_weaken (ground arith) (λ v r j le' adv' w. omega arith)
                (parse_long_length-Safe q (size - 1) (c % 2 ^ 7) (ground arith))),
    )

-- The tag and the length that every parser of the file begins with: the pointer ends behind at least
-- two of the `len` bytes it may read and inside them, and the length fits an `int32`.
pub tagged_length-Safe :
    (p : Ptr) (len tag : ℕ)
    → len ≤ length p.mem
    → Safe p len (λ v q. (v < 2 ^ 31) × (p.at + 2 ≤ q.at)) (tagged_length p len tag)
unfolding tagged_length
tagged_length-Safe p len tag h = Safe_if (ltb len 1) λ some_left.
    Safe_then _ len (next-Safe p (ground arith)) λ c q k le adv e. (
      len - k,
      ground arith,
      Safe_if (not (c == tag)) λ same.
          Safe_weaken (ground arith) (λ v r j le' adv' w. omega arith)
            (parse_length-Safe q (len - 1) (ground arith)),
    )

-- `getSequence` and `getSet` on a buffer of `len` bytes: no access outside, the pointer advances
-- within it, and the length that they return is at most `len`.
pub get_sequence-Safe :
    (p : Ptr) (len : ℕ)
    → len ≤ length p.mem
    → Safe p len (λ v q. (v ≤ len) × (p.at + 2 ≤ q.at)) (get_sequence p len)
      × Safe p len (λ v q. (v ≤ len) × (p.at + 2 ≤ q.at)) (get_set p len)
unfolding get_sequence get_set
get_sequence-Safe p len h = (by_tag Tag.sequence, by_tag Tag.set)
  where
    by_tag :
        (tag : ℕ)
        → Safe p len
            (λ v q. (v ≤ len) × (p.at + 2 ≤ q.at))
            (tagged_length p len tag >>= λ r. if ltb len r.0 then err failed else ok r)
    by_tag tag = Safe_then _ len (tagged_length-Safe p len tag h) λ v q k le adv w. (
      len - k,
      omega arith,
      Safe_if (ltb len v) λ fits. parsed v q 0 (omega arith) (Advanced-refl q) (ground arith),
    )

peek-Safe : (p : Ptr) → 1 ≤ length p.mem → (c : ℕ) × (peek p ≡ ok c)
peek-Safe p h = go p.mem refl h
  where
    go : (m : List ℕ) → p.mem ≡ m → 1 ≤ length m → (c : ℕ) × (peek p ≡ ok c)
    go [] e h = absurd (omega arith)
    go (c ∷ m) e h = (c, rw e refl)

integer_value-Safe :
    (p : Ptr) (vlen : ℕ)
    → vlen ≤ length p.mem
    → 1 ≤ length p.mem
    → Safe p vlen (λ v q. Unit {0}) (integer_value p vlen)
unfolding integer_value
integer_value-Safe p vlen h one =
    let (c, e) = peek-Safe p one in
    rw e (
      Safe_branch (c / 2 ^ 7 % 2 == 0)
        (λ plus.
          Safe_then _ vlen (read_word-Safe vlen p 0 h (omega arith)) λ v q k le adv w.
            (0, omega arith, parsed (pos v) q 0 (omega arith) (Advanced-refl q) tt))
        (λ minus. Safe_then _ vlen (read_complement-Safe vlen p 0 h) λ v q k le adv w.
          (0, omega arith, parsed (negsuc v) q 0 (omega arith) (Advanced-refl q) tt)))

-- `getInteger` stays inside its buffer if at least one byte follows that buffer in the allocation:
-- the first byte of the value is looked at also where the value has none.
get_integer-Safe :
    (p : Ptr) (len : ℕ) → len + 1 ≤ length p.mem → Safe p len (λ v q. Unit {0}) (get_integer p len)
unfolding get_integer
get_integer-Safe p len h =
    Safe_then _ len (tagged_length-Safe p len Tag.integer (omega arith)) λ v q k le adv w. (
      len - k,
      omega arith,
      Safe_if (ltb 4 v || ltb (p.at + len) (q.at + v)) λ fits.
          Safe_weaken (ground arith) (λ v r j le' adv' w. tt)
            (integer_value-Safe q v (ground arith) (omega arith)),
    )
