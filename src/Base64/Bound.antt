-- ===== src/Base64/Bound.antt =====
-- How much `ps_base64_decode` of crypto/peersec/base64.c writes.
use robin_mesh_v.Prelude.{
  ℕ, ◌+◌, ◌*◌, ◌≤◌, ◌≡◌, refl, arith, ap, ◌∙◌, Bool, true, false, not, ◌&&◌, List, [], ◌∷◌, length,
  length-append, ltb, ◌==◌, if◌then◌else◌, ◌<◌, ◌^◌,
}
use robin_mesh_v.Base64.{
  lookup, Decoder, Decoded, done, invalid_packet, buffer_overflow, incomplete, Progress, go_on,
  stop, push, step, decode_from, base64_decode, group_bytes,
}
use robin_mesh_v.Base64.Steps.{with_bits, decode_letter, decode_pad, decode_last_pad}

-- What was written, whatever was returned.
abbrev pub written : Decoded → List ℕ
written (done out) = out
written (invalid_packet out) = out
written (buffer_overflow out) = out
written (incomplete out) = out

-- The bytes so far fit, but for one when three padding characters made a group.
abbrev Fits : ℕ → Decoder → Type 0
Fits limit d = length d.out ≤ limit + (if d.g == 0 && d.y == 0 then 1 else 0)

data Bounded (limit : ℕ) : Progress → Type 0 where
  further : {d : Decoder} → Fits limit d → Bounded limit (go_on d)
  ended : {r : Decoded} → length (written r) ≤ limit + 1 → Bounded limit (stop r)

Bounded-if :
    (limit : ℕ) (b : Bool) (m n : Progress)
    → (b ≡ true → Bounded limit m)
    → (b ≡ false → Bounded limit n)
    → Bounded limit (if b then m else n)
Bounded-if limit true m n f g = f refl
Bounded-if limit false m n f g = g refl

length-group_bytes : (g t : ℕ) → length (group_bytes g t) ≤ (if g == 0 then 1 else g)
length-group_bytes g t = ground arith

-- Without a group of three padding characters before.
push-Bounded :
    (limit : ℕ) (d : Decoder) (c : ℕ) → length d.out ≤ limit → Bounded limit (push limit d c)
unfolding push
push-Bounded limit d c h =
    Bounded-if limit (not (d.y == 3)) _ _ (λ _. further (ground arith))
      λ _.
        Bounded-if limit (ltb limit (length d.out + d.g)) _ _ (λ _. ended (omega arith))
          λ fits. further (
            ground (
              arith,
              length-append d.out (group_bytes d.g (d.t * 2 ^ 6 + c)),
              length-group_bytes d.g (d.t * 2 ^ 6 + c),
            ))

step-Bounded : (limit : ℕ) (d : Decoder) (ch : ℕ) → Fits limit d → Bounded limit (step limit d ch)
unfolding step
step-Bounded limit d ch h =
    Bounded-if limit (lookup ch == 255) _ _ (λ _. further h)
      λ _.
        Bounded-if limit (lookup ch == 254) _ _
          (λ _.
            Bounded-if limit (d.g == 0) _ _ (λ _. ended (ground arith))
              λ pos. push-Bounded limit _ 0 (ground arith))
          λ _.
            Bounded-if limit (not (d.g == 3)) _ _ (λ _. ended (ground arith))
              λ three. push-Bounded limit d (lookup ch) (ground arith)

decode_from-Bounded :
    (limit : ℕ) (d : Decoder) (text : List ℕ)
    → Fits limit d
    → length (written (decode_from limit d text)) ≤ limit + 1
unfolding decode_from
decode_from-Bounded limit d [] h = ground arith
decode_from-Bounded limit d (ch ∷ rest) h =
    by_step (λ d'. decode_from-Bounded limit d' rest) (step limit d ch) refl
      (step-Bounded limit d ch h)
  where
    by_step :
        ((d' : Decoder) → Fits limit d' → length (written (decode_from limit d' rest)) ≤ limit + 1)
        → (p : Progress) → step limit d ch ≡ p
        → Bounded limit p
        → length (written (decode_from limit d (ch ∷ rest))) ≤ limit + 1
    by_step ih (go_on d') e (further b) = rw (decode_from, e) (ih d' b)
    by_step ih (stop r) e (ended b) = rw (decode_from, e) b

-- Whatever the text, `ps_base64_decode` writes at most one byte more than the room it is given.
pub base64_decode-written :
    (limit : ℕ) (text : List ℕ) → length (written (base64_decode limit text)) ≤ limit + 1
unfolding base64_decode
base64_decode-written limit text = decode_from-Bounded limit _ text (ground arith)

-- And it does write that byte: a character and three padding characters, with no room at all, are
-- decoded to one byte.
pub base64_decode_overrun :
    (ch : ℕ) → lookup ch < 64 → base64_decode 0 (ch ∷ 61 ∷ 61 ∷ 61 ∷ []) ≡ done (lookup ch * 4 ∷ [])
unfolding base64_decode
base64_decode_overrun ch h =
    let first : Decoder = record { g = 3; y = 0; t = 0; out = [] } in
    let second = with_bits first (lookup ch) in
    let third = with_bits (record second { g = 2 }) 0 in
    let fourth = with_bits (record third { g = 1 }) 0 in
    decode_letter 0 first _ ch refl h (omega arith)
    ∙ decode_pad 0 second _ (omega arith) (omega arith)
    ∙ decode_pad 0 third _ (omega arith) (omega arith)
    ∙ decode_last_pad 0 fourth _ (omega arith) refl (omega arith)
    ∙ one_byte
  where
    one_byte :
        decode_from 0
          (record {
            g = 0;
            y = 0;
            t = 0;
            out = group_bytes 0 ((((0 * 2 ^ 6 + lookup ch) * 2 ^ 6 + 0) * 2 ^ 6 + 0) * 2 ^ 6 + 0);
          })
          []
        ≡ done (lookup ch * 4 ∷ [])
    one_byte = unfold decode_from in ap (λ x. done (x ∷ [])) (omega arith)
