-- ===== src/Base64/Steps.antt =====
-- The steps of `ps_base64_decode` on a letter and on padding.
use robin_mesh_v.Prelude.{
  ℕ, ◌+◌, ◌-◌, ◌*◌, ◌^◌, ◌≤◌, ◌<◌, ◌≡◌, ◌≢◌, refl, arith, ◌∙◌, true, false, List, ◌∷◌, ◌++◌, length,
  ltb, ◌==◌,
}
use robin_mesh_v.Base64.{lookup, Decoder, go_on, push, step, decode_from, group_bytes}

-- The decoder with six more bits, where they do not complete a group.
abbrev pub with_bits : Decoder → ℕ → Decoder
with_bits d c = record d { y = d.y + 1; t = d.t * 2 ^ 6 + c }

-- The decoder behind a completed group.
abbrev pub with_group : Decoder → ℕ → Decoder
with_group d c = record d { y = 0; t = 0; out = d.out ++ group_bytes d.g (d.t * 2 ^ 6 + c) }

push-with_bits :
    (limit : ℕ) (d : Decoder) (c : ℕ) → d.y ≢ 3 → push limit d c ≡ go_on (with_bits d c)
unfolding push
push-with_bits limit d c h = let inside : (d.y == 3) ≡ false = ground arith in rw inside refl

push-with_group :
    (limit : ℕ) (d : Decoder) (c : ℕ)
    → d.y ≡ 3
    → length d.out + d.g ≤ limit
    → push limit d c ≡ go_on (with_group d c)
unfolding push
push-with_group limit d c h room =
    let last : (d.y == 3) ≡ true = ground arith in
    let fits : ltb limit (length d.out + d.g) ≡ false = ground arith in rw (last, fits) refl

step_letter :
    (limit : ℕ) (d : Decoder) (ch : ℕ)
    → d.g ≡ 3
    → lookup ch < 64
    → step limit d ch ≡ push limit d (lookup ch)
unfolding step
step_letter limit d ch three small =
    let known : (lookup ch == 255) ≡ false = ground arith in
    let no_pad : (lookup ch == 254) ≡ false = ground arith in
    let whole : (d.g == 3) ≡ true = ground arith in rw (known, no_pad, whole) refl

step_pad :
    (limit : ℕ) (d : Decoder) → 0 < d.g → step limit d 61 ≡ push limit (record d { g = d.g - 1 }) 0
unfolding step lookup
step_pad limit d h = let some_left : (d.g == 0) ≡ false = ground arith in rw some_left refl

decode_go :
    (limit : ℕ) (d d' : Decoder) (ch : ℕ) (rest : List ℕ)
    → step limit d ch ≡ go_on d'
    → decode_from limit d (ch ∷ rest) ≡ decode_from limit d' rest
unfolding decode_from
decode_go limit d d' ch rest e = rw (decode_from, e) refl

module _ (limit : ℕ) (d : Decoder) (rest : List ℕ) where
  pub decode_letter :
      (ch : ℕ)
      → d.g ≡ 3
      → lookup ch < 64
      → d.y ≢ 3
      → decode_from limit d (ch ∷ rest) ≡ decode_from limit (with_bits d (lookup ch)) rest
  decode_letter ch three small inside =
      decode_go limit d _ ch rest
        (step_letter limit d ch three small ∙ push-with_bits limit d (lookup ch) inside)

  pub decode_last_letter :
      (ch : ℕ)
      → d.g ≡ 3
      → lookup ch < 64
      → d.y ≡ 3
      → length d.out + d.g ≤ limit
      → decode_from limit d (ch ∷ rest) ≡ decode_from limit (with_group d (lookup ch)) rest
  decode_last_letter ch three small last room =
      decode_go limit d _ ch rest
        (step_letter limit d ch three small ∙ push-with_group limit d (lookup ch) last room)

  pub decode_pad :
      0 < d.g
      → d.y ≢ 3
      → decode_from limit d (61 ∷ rest)
        ≡ decode_from limit (with_bits (record d { g = d.g - 1 }) 0) rest
  decode_pad some_left inside =
      decode_go limit d _ 61 rest
        (step_pad limit d some_left ∙ push-with_bits limit (record d { g = d.g - 1 }) 0 inside)

  pub decode_last_pad :
      0 < d.g
      → d.y ≡ 3
      → length d.out + (d.g - 1) ≤ limit
      → decode_from limit d (61 ∷ rest)
        ≡ decode_from limit (with_group (record d { g = d.g - 1 }) 0) rest
  decode_last_pad some_left last room =
      decode_go limit d _ 61 rest
        (step_pad limit d some_left ∙ push-with_group limit (record d { g = d.g - 1 }) 0 last room)
