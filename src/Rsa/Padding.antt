-- ===== src/Rsa/Padding.antt =====
-- What `sslUnpadRSA` accepts.
use robin_mesh_v.Prelude.{
  ℕ, zero, suc, ◌+◌, ◌≤◌, ◌≡◌, ◌≢◌, ◌↔◌, refl, sym, ap, ◌∙◌, Bool, true, false, not, ◌&&◌, ◌||◌,
  Option, none, some, some-injective, List, [], ◌∷◌, ◌++◌, arith, ltb, ◌==◌, if◌then◌else◌, length,
  length-append,
}
use robin_mesh_v.Rsa.{rsa_public, skip_pad, check_len, unpad_start, ssl_unpad_rsa}

-- Bytes of padding: none is zero, and for a private key's operation they are all ones.
abbrev pub IsFill : ℕ → List ℕ → Type 0
IsFill t [] = Unit
IsFill t (b ∷ bs) = (b ≢ 0) × ((t ≡ rsa_public → b ≡ 0xFF) × IsFill t bs)

-- 00, the type, at least seven bytes of padding, 00, and the data of the length expected.
pub record IsPadded (t outlen : ℕ) (bytes plain : List ℕ) : Type 0 where
  pub fill : List ℕ
  pub parts : bytes ≡ 0 ∷ t ∷ (fill ++ (0 ∷ plain))
  pub is_fill : IsFill t fill
  pub enough : 7 ≤ length fill
  pub plain_sized : length plain ≡ outlen

pub skip_pad-fill :
    (t : ℕ) (fill plain : List ℕ) → IsFill t fill → skip_pad t (fill ++ (0 ∷ plain)) ≡ some plain
skip_pad-fill t [] plain i = refl
skip_pad-fill t (zero ∷ fill) plain i = absurd (i.0 refl)
skip_pad-fill t (suc b ∷ fill) plain i =
    let fine : (t == rsa_public && not (suc b == 0xFF)) ≡ false = ground (arith, i.1.0) in
    rw fine (skip_pad-fill t fill plain (i.1.1))

-- What was skipped.
record Skipped (t : ℕ) (c plain : List ℕ) : Type 0 where
  fill : List ℕ
  parts : c ≡ fill ++ (0 ∷ plain)
  is_fill : IsFill t fill

skip_pad-Skipped : (t : ℕ) (c plain : List ℕ) → skip_pad t c ≡ some plain → Skipped t c plain
skip_pad-Skipped t [] plain e = absurd cc
skip_pad-Skipped t (zero ∷ c) plain e = record {
  fill = [];
  parts = ap (λ q. 0 ∷ q) (some-injective c plain e);
  is_fill = _;
}
skip_pad-Skipped t (suc b ∷ c) plain e =
    go (skip_pad-Skipped t c plain) (t == rsa_public && not (suc b == 0xFF)) refl e
  where
    go :
        (skip_pad t c ≡ some plain → Skipped t c plain)
        → (x : Bool) → (t == rsa_public && not (suc b == 0xFF)) ≡ x
        → (if x then none else skip_pad t c) ≡ some plain
        → Skipped t (suc b ∷ c) plain
    go h true f e = absurd cc
    go h false f e =
        let r = h e in
        record {
          fill = suc b ∷ r.fill;
          parts = ap (λ q. suc b ∷ q) r.parts;
          is_fill = (λ z. absurd (omega arith), (λ g. ground arith, r.is_fill));
        }

check_len-some :
    (outlen : ℕ) (o : Option (List ℕ)) (plain : List ℕ)
    → check_len outlen o ≡ some plain
    → (o ≡ some plain) × (length plain ≡ outlen)
check_len-some outlen none plain e = absurd cc
check_len-some outlen (some c) plain e = go (length c == outlen) refl e
  where
    go :
        (x : Bool)
        → (length c == outlen) ≡ x
        → (if x then some c else none) ≡ some plain
        → (some c ≡ some plain) × (length plain ≡ outlen)
    go true f e = (e, ap length (sym (some-injective c plain e)) ∙ equal f)
      where
        equal : (length c == outlen) ≡ true → length c ≡ outlen
        equal f = ground arith
    go false f e = absurd cc

-- Where the two first bytes are right.
unpad_start-some :
    (t outlen : ℕ) (bytes plain : List ℕ)
    → unpad_start t outlen bytes ≡ some plain
    → (c : List ℕ) × ((bytes ≡ 0 ∷ t ∷ c) × (check_len outlen (skip_pad t c) ≡ some plain))
unpad_start-some t outlen [] plain e = absurd cc
unpad_start-some t outlen (a ∷ []) plain e = absurd cc
unpad_start-some t outlen (a ∷ b ∷ c) plain e = go (a == 0) (b == t) refl refl e
  where
    go :
        (x y : Bool)
        → (a == 0) ≡ x
        → (b == t) ≡ y
        → (if not x || not y then none else check_len outlen (skip_pad t c)) ≡ some plain
        → (d : List ℕ) × ((a ∷ b ∷ c ≡ 0 ∷ t ∷ d) × (check_len outlen (skip_pad t d) ≡ some plain))
    go true true f g e =
        let zero_first : a ≡ 0 = ground arith in
        let type_next : b ≡ t = ground arith in
        (c, (ap (λ q. q ∷ b ∷ c) zero_first ∙ ap (λ q. 0 ∷ q ∷ c) type_next, e))
    go true false f g e = absurd cc
    go false y f g e = absurd cc

skip_start :
    (t outlen : ℕ) (c plain : List ℕ)
    → skip_pad t c ≡ some plain
    → length plain ≡ outlen
    → unpad_start t outlen (0 ∷ t ∷ c) ≡ some plain
skip_start t outlen c plain e f =
    let same : (t == t) ≡ true = ground arith in
    let right : (length plain == outlen) ≡ true = ground arith in rw (same, e, right) refl

module _ (t outlen : ℕ) (bytes plain : List ℕ) where
  unpad-IsPadded : ssl_unpad_rsa bytes outlen t ≡ some plain → IsPadded t outlen bytes plain
  unfolding ssl_unpad_rsa
  unpad-IsPadded e = go (ltb (length bytes) (outlen + 10)) refl e
    where
      long :
          {n m : ℕ}
          → ltb (length bytes) (outlen + 10) ≡ false
          → length bytes ≡ suc (suc n)
          → n ≡ m + suc (length plain)
          → length plain ≡ outlen
          → 7 ≤ m
      long f g h i = ground arith

      go :
          (x : Bool)
          → ltb (length bytes) (outlen + 10) ≡ x
          → (if x then none else unpad_start t outlen bytes) ≡ some plain
          → IsPadded t outlen bytes plain
      go true f e = absurd cc
      go false f e =
          let start = unpad_start-some t outlen bytes plain e in
          let checked = check_len-some outlen (skip_pad t start.0) plain (start.1.1) in
          let skipped = skip_pad-Skipped t start.0 plain (checked.0) in
          let parts : bytes ≡ 0 ∷ t ∷ (skipped.fill ++ (0 ∷ plain)) =
            start.1.0 ∙ ap (λ q. 0 ∷ t ∷ q) skipped.parts in
          record {
            fill = skipped.fill;
            parts = parts;
            is_fill = skipped.is_fill;
            enough = long f (ap length parts) (length-append skipped.fill (0 ∷ plain)) (checked.1);
            plain_sized = checked.1;
          }

  -- sslUnpadRSA gives out data exactly when the bytes are 00, the type, at least seven bytes of padding
  -- without a zero, which for the public type are all FF, 00, and that data with the length expected.
  pub ssl_unpad_rsa-IsPadded_iff :
      (ssl_unpad_rsa bytes outlen t ≡ some plain) ↔ IsPadded t outlen bytes plain
  unfolding ssl_unpad_rsa
  ssl_unpad_rsa-IsPadded_iff = (
    unpad-IsPadded,
    λ p.
        let n : length bytes ≡ suc (suc (length (p.fill ++ (0 ∷ plain)))) = ap length p.parts in
        let long : ltb (length bytes) (outlen + 10) ≡ false =
          ground (arith, n, length-append p.fill (0 ∷ plain), p.enough, p.plain_sized) in
        rw long (
          ap (unpad_start t outlen) p.parts
          ∙ skip_start t outlen (p.fill ++ (0 ∷ plain)) plain
              (skip_pad-fill t p.fill plain p.is_fill) p.plain_sized),
  )
