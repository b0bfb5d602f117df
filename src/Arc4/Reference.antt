-- ===== src/Arc4/Reference.antt =====
-- RC4 as it is published, with the permutation as a function and the key stream byte by byte, and the
-- array of `matrixArc4Init` against it.
use native.Mathlib.Nat.{mod-add-mod}
use robin_mesh_v.Prelude.{
  ℕ, zero, suc, ◌+◌, ◌%◌, ◌≤◌, ◌<◌, ◌≡◌, refl, sym, ap, ◌∙◌, subst, List, [], ◌∷◌, length,
  length-set, get_or, set, bit_xor, arith, ◌==◌, if◌then◌else◌, Bool-cases, inl, inr,
}
use robin_mesh_v.Arc4.{swap, count_up, mix}

-- The function with its values at `x` and `y` exchanged.
abbrev pub exchange : (ℕ → ℕ) → ℕ → ℕ → ℕ → ℕ
exchange f x y k = if k == x then f y else if k == y then f x else f k

-- The permutation and the index j after `n` steps of the key schedule.
unfoldable pub scheduled : List ℕ → ℕ → (ℕ → ℕ) × ℕ
scheduled key zero = (λ k. k, 0)
scheduled key (suc n) =
    let (f, j) = scheduled key n in
    let j' = (j + f n + get_or key (n % length key) 0) % 256 in (exchange f n j', j')

-- Likewise after `n` bytes of the key stream.
unfoldable pub running : List ℕ → ℕ → (ℕ → ℕ) × ℕ
running key zero = ((scheduled key 256).0, 0)
running key (suc n) =
    let (f, j) = running key n in
    let i = suc n % 256 in let j' = (j + f i) % 256 in (exchange f i j', j')

-- The byte of the key stream at place `n`.
unfoldable pub key_byte : List ℕ → ℕ → ℕ
key_byte key n = let (f, j) = running key (suc n) in f ((f (suc n % 256) + f j) % 256)

-- What the bytes are from place `n` of the key stream on.
unfoldable pub encipher : List ℕ → ℕ → List ℕ → List ℕ
encipher key n [] = []
encipher key n (b ∷ bytes) = bit_xor b (key_byte key n) ∷ encipher key (suc n) bytes

-- The array of 256 bytes is that function.
pub record Tabulates (s : List ℕ) (f : ℕ → ℕ) : Type 0 where
  pub sized : length s ≡ 256
  pub at : (k : ℕ) → k < 256 → get_or s k 0 ≡ f k

get_or-set_self : (s : List ℕ) (i v : ℕ) → i < length s → get_or (set s i v) i 0 ≡ v
get_or-set_self [] i v l = absurd (omega (arith, l))
get_or-set_self (x ∷ s) zero v l = refl
get_or-set_self (x ∷ s) (suc i) v l = get_or-set_self s i v (omega (arith, l))

get_or-set_ne : (s : List ℕ) (i j v : ℕ) → (i ≡ j → ⊥) → get_or (set s i v) j 0 ≡ get_or s j 0
get_or-set_ne [] i j v h = refl
get_or-set_ne (x ∷ s) zero zero v h = absurd (h refl)
get_or-set_ne (x ∷ s) zero (suc j) v h = refl
get_or-set_ne (x ∷ s) (suc i) zero v h = refl
get_or-set_ne (x ∷ s) (suc i) (suc j) v h = get_or-set_ne s i j v (λ p. h (ap suc p))

exchanged :
    (s : List ℕ) (f : ℕ → ℕ) (x y k : ℕ)
    → Tabulates s f
    → x < 256
    → y < 256
    → k < 256
    → get_or (swap s x y) k 0 ≡ exchange f x y k
exchanged s f x y k t lx ly l = elim (Bool-cases (k == y)) [
  | inl e ↦
      let at_y : k ≡ y = ground arith in
      let new =
        get_or-set_self (set s x (get_or s y 0)) y (get_or s x 0)
          (omega (arith, t.sized, length-set s x (get_or s y 0))) in
      elim (Bool-cases (k == x)) [
        | inl d ↦ let both : x ≡ y = ground arith in rw (d, at_y) (new ∙ t.at x lx ∙ ap f both)
        | inr d ↦ rw (d, e) (rw at_y (new ∙ t.at x lx))
      ]
  | inr e ↦
      let old = get_or-set_ne (set s x (get_or s y 0)) y k (get_or s x 0) (λ q. ground arith) in
      elim (Bool-cases (k == x)) [
        | inl d ↦
            let at_x : x ≡ k = ground arith in
            rw d (
              old
              ∙ ap (λ q. get_or (set s x (get_or s y 0)) q 0) (sym at_x)
              ∙ get_or-set_self s x (get_or s y 0) (omega (arith, t.sized))
              ∙ t.at y ly)
        | inr d ↦
            rw (d, e) (old ∙ get_or-set_ne s x k (get_or s y 0) (λ q. ground arith) ∙ t.at k l)
      ]
]

pub swap-Tabulates :
    (s : List ℕ) (f : ℕ → ℕ) (x y : ℕ)
    → Tabulates s f
    → x < 256
    → y < 256
    → Tabulates (swap s x y) (exchange f x y)
swap-Tabulates s f x y t lx ly = record {
  sized =
      length-set (set s x (get_or s y 0)) y (get_or s x 0)
      ∙ length-set s x (get_or s y 0)
      ∙ t.sized;
  at = λ k l. exchanged s f x y k t lx ly l;
}

pub count_up-get_or : (n i k : ℕ) → k < n → get_or (count_up n i) k 0 ≡ i + k
count_up-get_or zero i k l = absurd (omega (arith, l))
count_up-get_or (suc n) i zero l = omega arith
count_up-get_or (suc n) i (suc k) l = omega (arith, count_up-get_or n (i + 1) k (omega arith))

pub length-count_up : (n i : ℕ) → length (count_up n i) ≡ n
length-count_up zero i = refl
length-count_up (suc n) i = ap suc (length-count_up n (i + 1))

next_index : (c i n : ℕ) → i ≡ c % n → (i + 1) % n ≡ (c + 1) % n
next_index c i n e = ap (λ k. (k + 1) % n) e ∙ mod-add-mod c n 1

pub mix-scheduled :
    (key : List ℕ) (n counter i j : ℕ) (s : List ℕ)
    → counter + n ≤ 256
    → i ≡ counter % length key
    → j ≡ (scheduled key counter).1
    → Tabulates s ((scheduled key counter).0)
    → Tabulates (mix key n counter i j s) ((scheduled key (counter + n)).0)
unfolding mix
mix-scheduled key zero counter i j s l e f t =
    let same : counter ≡ counter + 0 = omega arith in
    subst (λ c. Tabulates s ((scheduled key c).0)) same t
mix-scheduled key (suc n) counter i j s l e f t =
    let next : suc counter ≡ counter + 1 = omega arith in
    let all : counter + 1 + n ≡ counter + suc n = omega arith in
    let j' = (get_or key i 0 + get_or s counter 0 + j) % 256 in
    let chosen : j' ≡ (scheduled key (suc counter)).1 =
      unfold scheduled in
      omega (arith, f, t.at counter (omega arith), ap (λ k. get_or key k 0) e) in
    let swapped : Tabulates (swap s counter j') ((scheduled key (suc counter)).0) =
      unfold scheduled in
      subst (λ k. Tabulates (swap s counter j') (exchange ((scheduled key counter).0) counter k))
        chosen
        (swap-Tabulates s ((scheduled key counter).0) counter j' t (omega arith) (omega arith)) in
    subst
      (λ c.
        Tabulates (mix key n (counter + 1) ((i + 1) % length key) j' (swap s counter j'))
          ((scheduled key c).0))
      all
      (mix-scheduled key n (counter + 1) ((i + 1) % length key) j' (swap s counter j') (omega arith)
        (next_index counter i (length key) e) (subst (λ c. j' ≡ (scheduled key c).1) next chosen)
        (subst (λ c. Tabulates (swap s counter j') ((scheduled key c).0)) next swapped))
