-- ===== src/Base64.antt =====
-- `ps_base64_decode` of crypto/peersec/base64.c, which turns the text of PEM files into DER.
pub mod Steps
pub mod Bound
pub mod Encode
mod Tests
use robin_mesh_v.Prelude.{
  ℕ, ◌+◌, ◌-◌, ◌*◌, ◌/◌, ◌%◌, ◌^◌, Bool, true, false, not, List, [], ◌∷◌, ◌++◌, ltb, ◌==◌,
  if◌then◌else◌, length, get_or,
}

-- The table `map`: the six bits that a character stands for, 254 for the padding and 255 for a
-- character that is skipped.
abbrev pub code_map : List ℕ
code_map =
    255 ∷ 255 ∷ 255 ∷ 255 ∷ 255 ∷ 255 ∷ 255 ∷ 255 ∷ 255 ∷ 255 ∷ 255 ∷ 255 ∷ 255 ∷ 255 ∷ 255 ∷ 255
    ∷ 255 ∷ 255 ∷ 255 ∷ 255 ∷ 255 ∷ 255 ∷ 255 ∷ 255 ∷ 255 ∷ 255 ∷ 255 ∷ 255 ∷ 255 ∷ 255 ∷ 255 ∷ 255
    ∷ 255 ∷ 255 ∷ 255 ∷ 255 ∷ 255 ∷ 255 ∷ 255 ∷ 255 ∷ 255 ∷ 255 ∷ 255 ∷ 62 ∷ 255 ∷ 255 ∷ 255 ∷ 63
    ∷ 52 ∷ 53 ∷ 54 ∷ 55 ∷ 56 ∷ 57 ∷ 58 ∷ 59 ∷ 60 ∷ 61 ∷ 255 ∷ 255 ∷ 255 ∷ 254 ∷ 255 ∷ 255 ∷ 255 ∷ 0
    ∷ 1 ∷ 2 ∷ 3 ∷ 4 ∷ 5 ∷ 6 ∷ 7 ∷ 8 ∷ 9 ∷ 10 ∷ 11 ∷ 12 ∷ 13 ∷ 14 ∷ 15 ∷ 16 ∷ 17 ∷ 18 ∷ 19 ∷ 20 ∷ 21
    ∷ 22 ∷ 23 ∷ 24 ∷ 25 ∷ 255 ∷ 255 ∷ 255 ∷ 255 ∷ 255 ∷ 255 ∷ 26 ∷ 27 ∷ 28 ∷ 29 ∷ 30 ∷ 31 ∷ 32 ∷ 33
    ∷ 34 ∷ 35 ∷ 36 ∷ 37 ∷ 38 ∷ 39 ∷ 40 ∷ 41 ∷ 42 ∷ 43 ∷ 44 ∷ 45 ∷ 46 ∷ 47 ∷ 48 ∷ 49 ∷ 50 ∷ 51 ∷ 255
    ∷ 255 ∷ 255 ∷ 255 ∷ 255 ∷ 255 ∷ 255 ∷ 255 ∷ 255 ∷ 255 ∷ 255 ∷ 255 ∷ 255 ∷ 255 ∷ 255 ∷ 255 ∷ 255
    ∷ 255 ∷ 255 ∷ 255 ∷ 255 ∷ 255 ∷ 255 ∷ 255 ∷ 255 ∷ 255 ∷ 255 ∷ 255 ∷ 255 ∷ 255 ∷ 255 ∷ 255 ∷ 255
    ∷ 255 ∷ 255 ∷ 255 ∷ 255 ∷ 255 ∷ 255 ∷ 255 ∷ 255 ∷ 255 ∷ 255 ∷ 255 ∷ 255 ∷ 255 ∷ 255 ∷ 255 ∷ 255
    ∷ 255 ∷ 255 ∷ 255 ∷ 255 ∷ 255 ∷ 255 ∷ 255 ∷ 255 ∷ 255 ∷ 255 ∷ 255 ∷ 255 ∷ 255 ∷ 255 ∷ 255 ∷ 255
    ∷ 255 ∷ 255 ∷ 255 ∷ 255 ∷ 255 ∷ 255 ∷ 255 ∷ 255 ∷ 255 ∷ 255 ∷ 255 ∷ 255 ∷ 255 ∷ 255 ∷ 255 ∷ 255
    ∷ 255 ∷ 255 ∷ 255 ∷ 255 ∷ 255 ∷ 255 ∷ 255 ∷ 255 ∷ 255 ∷ 255 ∷ 255 ∷ 255 ∷ 255 ∷ 255 ∷ 255 ∷ 255
    ∷ 255 ∷ 255 ∷ 255 ∷ 255 ∷ 255 ∷ 255 ∷ 255 ∷ 255 ∷ 255 ∷ 255 ∷ 255 ∷ 255 ∷ 255 ∷ 255 ∷ 255 ∷ 255
    ∷ 255 ∷ 255 ∷ 255 ∷ 255 ∷ 255 ∷ 255 ∷ 255 ∷ 255 ∷ 255 ∷ 255 ∷ 255 ∷ 255 ∷ 255 ∷ 255 ∷ 255 ∷ 255
    ∷ 255 ∷ 255 ∷ 255 ∷ 255 ∷ []

unfoldable pub lookup : ℕ → ℕ
lookup c = get_or code_map c 255

-- The local variables: `g`, `y` and `t`, and the bytes written to `out`, whose number is `z`.
pub record Decoder : Type 0 where
  pub g : ℕ
  pub y : ℕ
  pub t : ℕ
  pub out : List ℕ

-- What the function returns, with what it wrote: 0, CRYPT_INVALID_PACKET, CRYPT_BUFFER_OVERFLOW, or
-- -1 for a group that is not complete.
pub data Decoded : Type 0 where
  done invalid_packet buffer_overflow incomplete : List ℕ → Decoded

pub data Progress : Type 0 where
  go_on : Decoder → Progress
  stop : Decoded → Progress

-- The bytes of a group: one, two or three by `g`.
abbrev pub group_bytes : ℕ → ℕ → List ℕ
group_bytes g t =
    t / 2 ^ 16 % 2 ^ 8 ∷ (if ltb 1 g then t / 2 ^ 8 % 2 ^ 8 ∷ [] else [])
    ++ (if ltb 2 g then t % 2 ^ 8 ∷ [] else [])

-- `t = (t << 6) | c`, and the group that this may complete. The low six bits of the shifted number are
-- zero, so the "or" is a sum.
unfoldable pub push : ℕ → Decoder → ℕ → Progress
push limit d c =
    let t = d.t * 2 ^ 6 + c in
    if not (d.y == 3)
    then go_on (record d { y = d.y + 1; t = t })
    else if ltb limit (length d.out + d.g)
    then stop (buffer_overflow d.out)
    else go_on (record d { y = 0; t = 0; out = d.out ++ group_bytes d.g t })

-- One character.
unfoldable pub step : ℕ → Decoder → ℕ → Progress
step limit d ch =
    let c = lookup ch in
    if c == 255
    then go_on d
    else if c == 254
    then (if d.g == 0 then stop (invalid_packet d.out) else push limit (record d { g = d.g - 1 }) 0)
    else if not (d.g == 3)
    then stop (invalid_packet d.out)
    else push limit d c

-- The loop from one character on.
unfoldable pub decode_from : ℕ → Decoder → List ℕ → Decoded
decode_from limit d [] = if d.y == 0 then done d.out else incomplete d.out
decode_from limit d (ch ∷ rest) = elim (step limit d ch) [
  | go_on d' ↦ decode_from limit d' rest
  | stop r ↦ r
]

-- The whole function, with `limit` for the room `*outlen` of the output.
unfoldable pub base64_decode : ℕ → List ℕ → Decoded
base64_decode limit text = decode_from limit (record { g = 3; y = 0; t = 0; out = [] }) text
