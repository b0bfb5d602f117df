-- ===== src/Asn/Length.antt =====
-- `asnParseLength`, `getInteger` and `getBig` of pki/asn1.c against the encodings of DER.
use robin_mesh_v.Prelude.{
  ℕ, zero, suc, ◌+◌, ◌-◌, ◌/◌, ◌%◌, ◌^◌, Bool, true, List, [], ◌∷◌, ◌++◌, ltb, if◌then◌else◌,
  bit_xor, agree, agree-equal, IsBytes, ◌≤◌, ◌<◌, ◌≡◌, refl, arith, length, ℤ, pos, negsuc,
}
use robin_mesh_v.Memory.{ok, fault, copy_from}
use robin_mesh_v.Asn.{
  read_word, read_complement, parse_long_length, parse_length, tagged_length, integer_value,
  get_integer, get_big, big_endian,
}

-- A DER length in the fewest bytes.
abbrev pub encode_length : ℕ → List ℕ
encode_length n =
    if ltb n 128
    then n ∷ []
    else if ltb n (2 ^ 8)
    then 0x81 ∷ n ∷ []
    else if ltb n (2 ^ 16)
    then 0x82 ∷ n / 2 ^ 8 ∷ n % 2 ^ 8 ∷ []
    else if ltb n (2 ^ 24)
    then 0x83 ∷ n / 2 ^ 16 ∷ n / 2 ^ 8 % 2 ^ 8 ∷ n % 2 ^ 8 ∷ []
    else 0x84 ∷ n / 2 ^ 24 ∷ n / 2 ^ 16 % 2 ^ 8 ∷ n / 2 ^ 8 % 2 ^ 8 ∷ n % 2 ^ 8 ∷ []

-- `asnParseLength` reads back every length that an `int32` holds, in the short form and in each
-- long one, and stops at the value.
pub parse_length-encode :
    (n at size : ℕ) (rest : List ℕ)
    → n < 2 ^ 31
    → length (encode_length n) ≤ size
    → parse_length (record { at = at; mem = encode_length n ++ rest }) size
      ≡ ok (n, record { at = at + length (encode_length n); mem = rest })
unfolding parse_length parse_long_length read_word
parse_length-encode n at size rest small fits = ground arith

-- The number that a two's complement representation stands for, most significant byte first.
abbrev pub twos_complement : List ℕ → ℤ
twos_complement [] = pos 0
twos_complement (c ∷ cs) =
    if ltb c 128
    then pos (big_endian 0 (c ∷ cs))
    else negsuc (256 ^ length (c ∷ cs) - 1 - big_endian 0 (c ∷ cs))

-- Complementing a byte is subtracting it from 255.
complements : agree (λ c. bit_xor c 0xFF) (λ c. 255 - c) 256 ≡ true
complements = refl

bit_xor-ones : (c : ℕ) → c < 256 → bit_xor c 0xFF ≡ 255 - c
bit_xor-ones c small = agree-equal (λ x. bit_xor x 0xFF) (λ x. 255 - x) 256 complements small

-- The words that the loops of `getInteger` accumulate over one to four bytes.
integer_value_lem :
    (c : ℕ) (cs rest : List ℕ) (at : ℕ)
    → length cs ≤ 3
    → IsBytes (c ∷ cs)
    → integer_value (record { at = at; mem = c ∷ cs ++ rest }) (length (c ∷ cs))
      ≡ ok (twos_complement (c ∷ cs), record { at = at + length (c ∷ cs); mem = rest })
unfolding integer_value read_word read_complement
integer_value_lem a [] rest at h bytes = ground (arith, bit_xor-ones a)
integer_value_lem a (b ∷ []) rest at h bytes = ground (arith, bit_xor-ones a, bit_xor-ones b)
integer_value_lem a (b ∷ c ∷ []) rest at h bytes =
    ground (arith, bit_xor-ones a, bit_xor-ones b, bit_xor-ones c)
integer_value_lem a (b ∷ c ∷ d ∷ []) rest at h bytes =
    ground (arith, bit_xor-ones a, bit_xor-ones b, bit_xor-ones c, bit_xor-ones d)
integer_value_lem a (b ∷ c ∷ d ∷ e ∷ r) rest at h bytes = absurd (omega arith)

short_header :
    (n at len : ℕ) (tag : ℕ) (rest : List ℕ)
    → n < 128
    → 2 ≤ len
    → tagged_length (record { at = at; mem = tag ∷ n ∷ rest }) len tag
      ≡ ok (n, record { at = at + 1 + 1; mem = rest })
unfolding tagged_length parse_length
short_header n at len tag rest small h = ground arith

-- `getInteger` reads an INTEGER of one to four bytes as the two's complement number that they
-- stand for, and stops behind it.
pub get_integer-twos_complement :
    (c : ℕ) (cs rest : List ℕ) (at len : ℕ)
    → length cs ≤ 3
    → IsBytes (c ∷ cs)
    → 2 + length (c ∷ cs) ≤ len
    → get_integer (record { at = at; mem = 2 ∷ length (c ∷ cs) ∷ c ∷ cs ++ rest }) len
      ≡ ok (twos_complement (c ∷ cs), record { at = at + 2 + length (c ∷ cs); mem = rest })
unfolding get_integer
get_integer-twos_complement c cs rest at len short bytes fits =
    rw (short_header (length (c ∷ cs)) at len 2 (c ∷ cs ++ rest) (omega arith) (omega arith))
      (ground (arith, integer_value_lem c cs rest (at + 1 + 1) short bytes))

copy_from_short : (m : List ℕ) (n : ℕ) → length m < n → copy_from m n ≡ fault
copy_from_short m zero h = absurd (omega arith)
copy_from_short [] (suc n) h = refl
copy_from_short (c ∷ m) (suc n) h = rw (copy_from_short m n (omega arith)) refl

-- `getBig` trusts the length of an INTEGER: where fewer bytes follow it than it says, the value is
-- read past the end of the allocation, also if `len` covers just the bytes that are there.
pub get_big_overread :
    (alloc : ℕ → Bool) (n at len : ℕ) (body : List ℕ)
    → n < 2 ^ 31
    → length body < n
    → alloc n ≡ true
    → 1 + length (encode_length n) ≤ len
    → get_big alloc (record { at = at; mem = 2 ∷ encode_length n ++ body }) len ≡ fault
unfolding get_big tagged_length
get_big_overread alloc n at len body small short room header =
    ground (arith, parse_length-encode n (at + 1) (len - 1) body, copy_from_short body n)
