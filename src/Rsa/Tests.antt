-- ===== src/Rsa/Tests.antt =====
-- The theorems on RSA's padding at a small key.
use robin_mesh_v.Prelude.{
  ℕ, ◌≡◌, ◌↔◌, refl, sym, ap, ◌∙◌, Option, some, some-injective, List, [], ◌∷◌, length, replicate,
  length-replicate,
}
use robin_mesh_v.Rsa.{ssl_unpad_rsa, ssl_pad_rsa, pad_random}
use robin_mesh_v.Rsa.Padding.{IsPadded, ssl_unpad_rsa-IsPadded_iff}
use robin_mesh_v.Rsa.RoundTrip.{Pads, ssl_pad_rsa-Pads}

-- Seven bytes of padding.
abbrev seven : List ℕ
seven = 0 ∷ 2 ∷ 9 ∷ 9 ∷ 9 ∷ 9 ∷ 9 ∷ 9 ∷ 9 ∷ 0 ∷ 5 ∷ []

ssl_unpad_rsa-IsPadded_iff_example :
    (ssl_unpad_rsa seven 1 2 ≡ some (5 ∷ [])) ↔ IsPadded 2 1 seven (5 ∷ [])
ssl_unpad_rsa-IsPadded_iff_example = ssl_unpad_rsa-IsPadded_iff 2 1 seven (5 ∷ [])

-- Fewer than eight bytes of padding are accepted.
lenient : ssl_unpad_rsa seven 1 2 ≡ some (5 ∷ [])
unfolding ssl_unpad_rsa
lenient = refl

-- A random source of zeros.
abbrev zeros : ℕ → Option (List ℕ)
zeros n = some (replicate n 0)

padded_two :
    ssl_pad_rsa zeros (5 ∷ 6 ∷ []) 13 2
    ≡ some (0 ∷ 2 ∷ 1 ∷ 1 ∷ 1 ∷ 1 ∷ 1 ∷ 1 ∷ 1 ∷ 1 ∷ 0 ∷ 5 ∷ 6 ∷ [])
unfolding ssl_pad_rsa pad_random
padded_two = refl

ssl_pad_rsa-Pads_example : Pads zeros 2 13 (5 ∷ 6 ∷ []) (ssl_pad_rsa zeros (5 ∷ 6 ∷ []) 13 2)
ssl_pad_rsa-Pads_example =
    ssl_pad_rsa-Pads zeros
      (λ n bytes e. ap length (sym (some-injective _ _ e)) ∙ length-replicate n 0) 2 13 (5 ∷ 6 ∷ [])
