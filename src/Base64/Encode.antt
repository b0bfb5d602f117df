-- ===== src/Base64/Encode.antt =====
-- `ps_base64_decode` of crypto/peersec/base64.c against an encoder.
use robin_mesh_v.Prelude.{
  append_nil, append_assoc, ℕ, ◌+◌, ◌-◌, ◌*◌, ◌/◌, ◌%◌, ◌^◌, ◌≤◌, ◌<◌, ◌≡◌, ◌≢◌, refl, arith, ◌∙◌,
  ap, sym, true, List, [], ◌∷◌, ◌++◌, length, length-append, ltb, ◌==◌, if◌then◌else◌, agree,
  agree-equal, IsBytes,
}
use robin_mesh_v.Base64.{lookup, Decoder, done, decode_from, base64_decode, group_bytes}
use robin_mesh_v.Base64.Steps.{
  with_bits, with_group, decode_letter, decode_last_letter, decode_pad, decode_last_pad,
}

-- The letter for six bits.
abbrev pub letter : ℕ → ℕ
letter v =
    if ltb v 26
    then 65 + v
    else if ltb v 52
    then 71 + v
    else if ltb v 62
    then v - 4
    else if v == 62
    then 43
    else 47

-- Three bytes as four letters; one or two at the end with padding.
abbrev pub encode : List ℕ → List ℕ
encode [] = []
encode (a ∷ []) = letter (a / 4) ∷ letter (a % 4 * 16) ∷ 61 ∷ 61 ∷ []
encode (a ∷ b ∷ []) = letter (a / 4) ∷ letter (a % 4 * 16 + b / 16) ∷ letter (b % 16 * 4) ∷ 61 ∷ []
encode (a ∷ b ∷ c ∷ rest) =
    letter (a / 4)
    ∷ letter (a % 4 * 16 + b / 16)
    ∷ letter (b % 16 * 4 + c / 64)
    ∷ letter (c % 64)
    ∷ encode rest

letters : agree (λ v. lookup (letter v)) (λ v. v) 64 ≡ true
unfolding lookup
letters = refl

lookup-letter : (v : ℕ) → v < 64 → lookup (letter v) ≡ v
lookup-letter v small = agree-equal (λ x. lookup (letter x)) (λ x. x) 64 letters small

-- A decoder between two groups.
abbrev between : List ℕ → Decoder
between out = record { g = 3; y = 0; t = 0; out = out }

module _ (limit : ℕ) (out rest : List ℕ) where
  -- A letter inside a group.
  go :
      (d : Decoder) (v : ℕ)
      → d.g ≡ 3
      → v < 64
      → d.y ≢ 3
      → (rest : List ℕ)
      → decode_from limit d (letter v ∷ rest) ≡ decode_from limit (with_bits d v) rest
  go d v three small inside rest =
      decode_letter limit d rest (letter v) three (omega (arith, lookup-letter v small)) inside
      ∙ ap (λ c. decode_from limit (with_bits d c) rest) (lookup-letter v small)

  whole_group :
      (a b c : ℕ)
      → a < 256
      → b < 256
      → c < 256
      → length out + 3 ≤ limit
      → decode_from limit (between out) (
          letter (a / 4)
          ∷ letter (a % 4 * 16 + b / 16)
          ∷ letter (b % 16 * 4 + c / 64)
          ∷ letter (c % 64)
          ∷ rest)
        ≡ decode_from limit (between (out ++ (a ∷ b ∷ c ∷ []))) rest
  whole_group a b c ha hb hc room =
      let d1 = with_bits (between out) (a / 4) in
      let d2 = with_bits d1 (a % 4 * 16 + b / 16) in
      let d3 = with_bits d2 (b % 16 * 4 + c / 64) in
      let small : c % 64 < 64 = omega arith in
      go (between out) (a / 4) refl (omega arith) (omega arith) _
      ∙ go d1 (a % 4 * 16 + b / 16) refl (omega arith) (omega arith) _
      ∙ go d2 (b % 16 * 4 + c / 64) refl (omega arith) (omega arith) _
      ∙ decode_last_letter limit d3 rest (letter (c % 64)) refl
          (omega (arith, lookup-letter (c % 64) small)) refl room
      ∙ ap (λ v. decode_from limit (with_group d3 v) rest) (lookup-letter (c % 64) small)
      ∙ ap (λ o. decode_from limit (between (out ++ o)) rest) bytes
    where
      bytes :
          group_bytes 3 (
            (((0 * 2 ^ 6 + a / 4) * 2 ^ 6 + (a % 4 * 16 + b / 16)) * 2 ^ 6 + (b % 16 * 4 + c / 64))
              * 2 ^ 6
            + c % 64)
          ≡ a ∷ b ∷ c ∷ []
      bytes = ground arith

  two_bytes :
      (a b : ℕ)
      → a < 256
      → b < 256
      → length out + 2 ≤ limit
      → decode_from limit
          (between out)
          (letter (a / 4) ∷ letter (a % 4 * 16 + b / 16) ∷ letter (b % 16 * 4) ∷ 61 ∷ [])
        ≡ done (out ++ (a ∷ b ∷ []))
  two_bytes a b ha hb room =
      let d1 = with_bits (between out) (a / 4) in
      let d2 = with_bits d1 (a % 4 * 16 + b / 16) in
      let d3 = with_bits d2 (b % 16 * 4) in
      go (between out) (a / 4) refl (omega arith) (omega arith) _
      ∙ go d1 (a % 4 * 16 + b / 16) refl (omega arith) (omega arith) _
      ∙ go d2 (b % 16 * 4) refl (omega arith) (omega arith) _
      ∙ decode_last_pad limit d3 [] (omega arith) refl room
      ∙ last
    where
      bytes :
          group_bytes 2 (
            (((0 * 2 ^ 6 + a / 4) * 2 ^ 6 + (a % 4 * 16 + b / 16)) * 2 ^ 6 + b % 16 * 4) * 2 ^ 6
            + 0)
          ≡ a ∷ b ∷ []
      bytes = ground arith

      last :
          decode_from limit
            (record {
              g = 2;
              y = 0;
              t = 0;
              out =
                  out
                  ++ group_bytes 2 (
                      (((0 * 2 ^ 6 + a / 4) * 2 ^ 6 + (a % 4 * 16 + b / 16)) * 2 ^ 6 + b % 16 * 4)
                        * 2 ^ 6
                      + 0);
            })
            []
          ≡ done (out ++ (a ∷ b ∷ []))
      last = unfold decode_from in ap (λ o. done (out ++ o)) bytes

  one_byte :
      (a : ℕ)
      → a < 256
      → length out + 1 ≤ limit
      → decode_from limit (between out) (letter (a / 4) ∷ letter (a % 4 * 16) ∷ 61 ∷ 61 ∷ [])
        ≡ done (out ++ (a ∷ []))
  one_byte a ha room =
      let d1 = with_bits (between out) (a / 4) in
      let d2 = with_bits d1 (a % 4 * 16) in
      let d3 = with_bits (record d2 { g = 2 }) 0 in
      go (between out) (a / 4) refl (omega arith) (omega arith) _
      ∙ go d1 (a % 4 * 16) refl (omega arith) (omega arith) _
      ∙ decode_pad limit d2 _ (omega arith) (omega arith)
      ∙ decode_last_pad limit d3 [] (omega arith) refl room
      ∙ last
    where
      bytes :
          group_bytes 1 ((((0 * 2 ^ 6 + a / 4) * 2 ^ 6 + a % 4 * 16) * 2 ^ 6 + 0) * 2 ^ 6 + 0)
          ≡ a ∷ []
      bytes = ground arith

      last :
          decode_from limit
            (record {
              g = 1;
              y = 0;
              t = 0;
              out =
                  out
                  ++ group_bytes 1
                      ((((0 * 2 ^ 6 + a / 4) * 2 ^ 6 + a % 4 * 16) * 2 ^ 6 + 0) * 2 ^ 6 + 0);
            })
            []
          ≡ done (out ++ (a ∷ []))
      last = unfold decode_from in ap (λ o. done (out ++ o)) bytes

decode_from-encode :
    (limit : ℕ) (out bytes : List ℕ)
    → IsBytes bytes
    → length out + length bytes ≤ limit
    → decode_from limit (between out) (encode bytes) ≡ done (out ++ bytes)
decode_from-encode limit out [] small room = unfold decode_from in ap done (sym (append_nil out))
decode_from-encode limit out (a ∷ []) small room = one_byte limit out [] a (small.0) room
decode_from-encode limit out (a ∷ b ∷ []) small room =
    two_bytes limit out [] a b (small.0) (small.1.0) room
decode_from-encode limit out (a ∷ b ∷ c ∷ rest) small room =
    whole_group limit out (encode rest) a b c (small.0) (small.1.0) (small.1.1.0) (omega arith)
    ∙ decode_from-encode limit (out ++ (a ∷ b ∷ c ∷ [])) rest (small.1.1.1)
        (omega (arith, length-append out (a ∷ b ∷ c ∷ [])))
    ∙ ap done (append_assoc out (a ∷ b ∷ c ∷ []) rest)

-- `ps_base64_decode` gives back any bytes from their encoding, if the output has room for them.
pub base64_decode-encode :
    (limit : ℕ) (bytes : List ℕ)
    → IsBytes bytes
    → length bytes ≤ limit
    → base64_decode limit (encode bytes) ≡ done bytes
unfolding base64_decode
base64_decode-encode limit bytes small room = decode_from-encode limit [] bytes small (omega arith)
