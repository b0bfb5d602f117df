-- ===== src/Asn/Tests.antt =====
-- The theorems on the DER parser at concrete bytes.
use robin_mesh_v.Prelude.{IsBytes, ℕ, ◌≡◌, ◌+◌, refl, arith, true, List, [], ◌∷◌, ◌++◌, length}
use robin_mesh_v.Memory.{Ptr, ok, fault}
use robin_mesh_v.Asn.{parse_length, get_integer, get_big}
use robin_mesh_v.Asn.Length.{
  encode_length, twos_complement, parse_length-encode, get_integer-twos_complement,
  get_big_overread,
}

-- SEQUENCE { INTEGER 5 } and a byte behind it.
abbrev sample : Ptr
sample = record { at = 100; mem = 0x30 ∷ 3 ∷ 2 ∷ 1 ∷ 5 ∷ 0 ∷ [] }

abbrev number : Ptr
number = record { at = 102; mem = 2 ∷ 1 ∷ 5 ∷ 0 ∷ [] }

parse_length-encode_example :
    parse_length (record { at = 7; mem = encode_length 300 ++ 1 ∷ [] }) 10
    ≡ ok (300, record { at = 7 + length (encode_length 300); mem = 1 ∷ [] })
parse_length-encode_example = parse_length-encode 300 7 10 (1 ∷ []) (omega arith) (omega arith)

-- The two bytes of a negative number.
abbrev minus_129 : List ℕ
minus_129 = 0xFF ∷ 0x7F ∷ []

abbrev tail : List ℕ
tail = 0x7F ∷ []

inner : IsBytes tail
inner = (omega arith, tt)

get_integer-twos_complement_example :
    get_integer (record { at = 0; mem = 2 ∷ length minus_129 ∷ 0xFF ∷ tail ++ [] }) 4
    ≡ ok (twos_complement minus_129, record { at = 0 + 2 + length minus_129; mem = [] })
get_integer-twos_complement_example =
    get_integer-twos_complement 0xFF tail [] 0 4 (omega arith) (omega arith, inner) (omega arith)

get_big_overread_example :
    get_big (λ n. true) (record { at = 0; mem = 2 ∷ encode_length 5 ++ 1 ∷ 2 ∷ [] }) 4 ≡ fault
get_big_overread_example =
    get_big_overread (λ n. true) 5 0 4 (1 ∷ 2 ∷ []) (omega arith) (omega arith) refl (omega arith)
