-- ===== src/Arc4.antt =====
-- RC4, crypto/peersec/arc4.c: `matrixArc4Init` and `matrixArc4`. The counters are `short`, so a key of
-- at most 256 bytes and data of at most 32767 are taken for granted; records are shorter.
pub mod Xor
pub mod Stream
pub mod Reference
pub mod Calls
mod Tests
use robin_mesh_v.Prelude.{
  ℕ, zero, suc, ◌+◌, ◌*◌, ◌%◌, ◌^◌, Option, none, some, List, [], ◌∷◌, ltb, if◌then◌else◌, length,
  get_or, set, bit_xor,
}

-- `ctx->arc4`
pub record Arc4 : Type 0 where
  pub state : List ℕ
  pub byte_count : ℕ
  pub x : ℕ
  pub y : ℕ

abbrev pub arc4_max_bytes : ℕ
arc4_max_bytes = 0x40000000

-- `tmp = state[i]; state[i] = state[j]; state[j] = tmp;`
abbrev pub swap : List ℕ → ℕ → ℕ → List ℕ
swap s i j = set (set s i (get_or s j 0)) j (get_or s i 0)

-- One turn of the loop of `matrixArc4`: the contexts' state after it and the byte of the key stream.
unfoldable pub turn : Arc4 → Arc4 × ℕ
turn a =
    let x = (a.x + 1) % 2 ^ 8 in
    let y = (get_or a.state x 0 + a.y) % 2 ^ 8 in
    let s = swap a.state x y in
    (record a { state = s; x = x; y = y }, get_or s ((get_or s x 0 + get_or s y 0) % 2 ^ 8) 0)

-- The loop over the bytes of `in`.
unfoldable pub stream : Arc4 → List ℕ → Arc4 × List ℕ
stream a [] = (a, [])
stream a (c ∷ cs) =
    let r = turn a in let rest = stream (r.0) cs in (rest.0, bit_xor c (r.1) ∷ rest.1)

-- `matrixArc4`: `none` is the return value -1, which leaves the count as it is raised. The count is a
-- `uint32`.
unfoldable pub matrix_arc4 : Arc4 → List ℕ → Arc4 × Option (List ℕ)
matrix_arc4 a bytes =
    let a' = record a { byte_count = (a.byte_count + length bytes) % 2 ^ 32 } in
    if ltb arc4_max_bytes a'.byte_count
    then (a', none)
    else let r = stream a' bytes in (r.0, some (r.1))

-- `0, 1, … 255`
abbrev pub count_up : ℕ → ℕ → List ℕ
count_up zero i = []
count_up (suc n) i = i ∷ count_up n (i + 1)

-- The second loop of `matrixArc4Init`, with `n` turns left at `counter`.
unfoldable pub mix : List ℕ → ℕ → ℕ → ℕ → ℕ → List ℕ → List ℕ
mix key zero counter index1 index2 s = s
mix key (suc n) counter index1 index2 s =
    let j = (get_or key index1 0 + get_or s counter 0 + index2) % 2 ^ 8 in
    mix key n (counter + 1) ((index1 + 1) % length key) j (swap s counter j)

unfoldable pub matrix_arc4_init : List ℕ → Arc4
matrix_arc4_init key = record {
  state = mix key 256 0 0 0 (count_up 256 0);
  byte_count = 0;
  x = 0;
  y = 0;
}
