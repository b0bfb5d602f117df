-- ===== src/Base64/Tests.antt =====
-- The theorems on Base64 at concrete texts.
use robin_mesh_v.Prelude.{ℕ, ◌+◌, ◌*◌, ◌≤◌, ◌<◌, ◌≡◌, arith, List, [], ◌∷◌, length, IsBytes}
use robin_mesh_v.Base64.{lookup, base64_decode, done}
use robin_mesh_v.Base64.Bound.{written, base64_decode-written, base64_decode_overrun}
use robin_mesh_v.Base64.Encode.{encode, base64_decode-encode}

abbrev sample : List ℕ
sample = 77 ∷ 255 ∷ 110 ∷ 0 ∷ []

sample-IsBytes : IsBytes sample
sample-IsBytes = (omega arith, (omega arith, (omega arith, (omega arith, tt))))

base64_decode-encode_example : base64_decode 4 (encode sample) ≡ done sample
base64_decode-encode_example = base64_decode-encode 4 sample sample-IsBytes (omega arith)

abbrev text : List ℕ
text = 84 ∷ 87 ∷ 70 ∷ 117 ∷ []

base64_decode-written_example : length (written (base64_decode 2 text)) ≤ 2 + 1
base64_decode-written_example = base64_decode-written 2 text

small_letter : lookup 66 < 64
unfolding lookup
small_letter = omega arith

base64_decode_overrun_example : base64_decode 0 (66 ∷ 61 ∷ 61 ∷ 61 ∷ []) ≡ done (lookup 66 * 4 ∷ [])
base64_decode_overrun_example = base64_decode_overrun 66 small_letter
