-- ===== src/Rsa/RoundTrip.antt =====
-- A value from `sslPadRSA` to `sslUnpadRSA`.
use robin_mesh_v.Prelude.{
  ℕ, zero, suc, ◌+◌, ◌-◌, ◌≤◌, ◌≡◌, refl, ◌∙◌, false, Option, none, some, List, [], ◌∷◌, ◌++◌, map,
  replicate, arith, ltb, ◌==◌, length, length-append, length-map, length-replicate, Bool-cases, inl,
  inr,
}
use robin_mesh_v.Rsa.{rsa_public, no_zero, pad_random, ssl_pad_rsa, ssl_unpad_rsa}
use robin_mesh_v.Rsa.Padding.{IsFill, ssl_unpad_rsa-IsPadded_iff}

no_zero-IsFill :
    (t : ℕ) → (t == rsa_public) ≡ false → (bytes : List ℕ) → IsFill t (map no_zero bytes)
no_zero-IsFill t p [] = _
no_zero-IsFill t p (zero ∷ bytes) =
    (λ e. absurd (omega arith), (λ e. ground arith, no_zero-IsFill t p bytes))
no_zero-IsFill t p (suc b ∷ bytes) =
    (λ e. absurd (omega arith), (λ e. ground arith, no_zero-IsFill t p bytes))

ones-IsFill : (t n : ℕ) → IsFill t (replicate n 0xFF)
ones-IsFill t zero = _
ones-IsFill t (suc n) = (λ e. absurd (omega arith), (λ e. refl, ones-IsFill t n))

-- The bytes of a padded value: 00, the type, eight bytes of padding at least, 00 and the value.
pub record Padded (t outlen : ℕ) (bytes plain : List ℕ) : Type 0 where
  pub fill : List ℕ
  pub parts : bytes ≡ 0 ∷ t ∷ (fill ++ (0 ∷ plain))
  pub is_fill : IsFill t fill
  pub enough : 8 ≤ length fill
  pub sized : length bytes ≡ outlen
  pub back : ssl_unpad_rsa bytes (length plain) t ≡ some plain

pub data Pads (entropy : ℕ → Option (List ℕ)) (t outlen : ℕ) (plain : List ℕ)
    : Option (List ℕ) → Type 0 where
  too_long : outlen ≤ length plain + 10 → Pads entropy t outlen plain none
  no_random : (n : ℕ) → entropy n ≡ none → Pads entropy t outlen plain none
  padded : (bytes : List ℕ) → Padded t outlen bytes plain → Pads entropy t outlen plain (some bytes)

filled :
    (t outlen : ℕ) (fill plain : List ℕ)
    → IsFill t fill
    → 11 + length plain ≤ outlen
    → length fill ≡ outlen - 3 - length plain
    → Padded t outlen (0 ∷ t ∷ (fill ++ (0 ∷ plain))) plain
filled t outlen fill plain i room size = record {
  fill = fill;
  parts = refl;
  is_fill = i;
  enough = omega arith;
  sized = omega (arith, length-append fill (0 ∷ plain), size);
  back =
      (ssl_unpad_rsa-IsPadded_iff t (length plain) (0 ∷ t ∷ (fill ++ (0 ∷ plain))) plain).1
        (record {
          fill = fill;
          parts = refl;
          is_fill = i;
          enough = omega arith;
          plain_sized = refl;
        });
}

module _ (entropy : ℕ → Option (List ℕ))
    (random : (n : ℕ) (bytes : List ℕ) → entropy n ≡ some bytes → length bytes ≡ n) where
  random_padding :
      (t outlen : ℕ) (plain : List ℕ) (o : Option (List ℕ))
      → (t == rsa_public) ≡ false
      → 11 + length plain ≤ outlen
      → entropy (outlen - 3 - length plain) ≡ o
      → Pads entropy t outlen plain (pad_random t plain o)
  unfolding pad_random
  random_padding t outlen plain none p room e = no_random _ e
  random_padding t outlen plain (some fill) p room e = padded _ (
      filled t outlen (map no_zero fill) plain (no_zero-IsFill t p fill) room
        (length-map fill no_zero ∙ random _ fill e))

  -- With a random source that gives as many bytes as it is asked for, or fails, sslPadRSA fails only for
  -- a value with less than eleven bytes of room, or where the random source fails. Else it writes 00, the
  -- type, at least eight bytes of padding without a zero, which for the public type are all FF, 00 and the
  -- value, of the length expected in all; and sslUnpadRSA gives that value back.
  pub ssl_pad_rsa-Pads :
      (t outlen : ℕ) (plain : List ℕ)
      → Pads entropy t outlen plain (ssl_pad_rsa entropy plain outlen t)
  unfolding ssl_pad_rsa
  ssl_pad_rsa-Pads t outlen plain = elim (Bool-cases (ltb outlen (3 + length plain + 8))) [
    | inl short ↦ rw short (too_long (ground arith))
    | inr wide ↦
        let room : 11 + length plain ≤ outlen = ground arith in
        elim (Bool-cases (t == rsa_public)) [
          | inl p ↦
              rw (wide, p)
                (padded _ (
                  filled t outlen _ plain (ones-IsFill t (outlen - 3 - length plain)) room
                    (length-replicate (outlen - 3 - length plain) 0xFF)))
          | inr p ↦ rw (wide, p) (random_padding t outlen plain _ p room refl)
        ]
  ]
