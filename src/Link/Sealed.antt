-- ===== src/Link/Sealed.antt =====
-- A record that `writeRecordHeader` and `encryptRecord` write, as `matrixSslDecode` opens it.
use robin_mesh_v.Prelude.{
  ℕ, zero, suc, ◌+◌, ◌-◌, ◌≤◌, ◌<◌, ◌≡◌, refl, true, false, some, [], arith, length, get_or,
  replicate, ltb, leb, ◌==◌, if◌then◌else◌, length-replicate, Bool-cases, inl, inr,
}
use robin_mesh_v.Ssl.{Ssl}
use robin_mesh_v.Record.{handshake_record}
use robin_mesh_v.Record.Open.{IsPadding, stream, block}
use robin_mesh_v.Encode.Base.{
  Header, start_record, write_pad, pad_len_pwr2, write_record_info, write_handshake_header,
}

get_or-replicate : (n i v : ℕ) → i < n → get_or (replicate n v) i 0 ≡ v
get_or-replicate zero i v h = absurd (omega arith)
get_or-replicate (suc n) zero v h = refl
get_or-replicate (suc n) (suc i) v h = get_or-replicate n i v (omega arith)

pad_len_pwr2-range : (len b : ℕ) → 1 < b → (1 ≤ pad_len_pwr2 len b) × (pad_len_pwr2 len b ≤ b)
unfolding pad_len_pwr2
pad_len_pwr2-range len b h = grind arith

-- The padding that is written is padding for the reader.
pub write_pad-IsPadding :
    (t : Ssl) (len : ℕ) → IsPadding t (write_pad (pad_len_pwr2 len t.de_block_size))
write_pad-IsPadding t len = elim (Bool-cases (leb t.de_block_size 1)) [
  | inl e ↦ stream (ground arith) (no_pad e)
  | inr e ↦
      let big : 1 < t.de_block_size = ground arith in
      let n = pad_len_pwr2 len t.de_block_size in
      let range = pad_len_pwr2-range len t.de_block_size big in
      block big (n - 1) (omega (arith, length-replicate n (n - 1), range.0))
        (get_or-replicate n (n - 1) (n - 1) (omega (arith, range.0)))
        (λ _ _. omega (arith, range.0, range.1))
]
  where
    no_pad :
        leb t.de_block_size 1 ≡ true → length (write_pad (pad_len_pwr2 len t.de_block_size)) ≡ 0
    no_pad e = unfold pad_len_pwr2 in rw e refl

-- The padding that `writeRecordHeader` chooses for a message of `m` bytes, and what it leaves.
abbrev pub pad_of : Ssl → ℕ → ℕ
pad_of s m = if s.flags.write_secure then pad_len_pwr2 (m + s.en_mac_size) s.en_block_size else 0

-- A stream cipher has none.
pub pad_of-zero : (s : Ssl) (m : ℕ) → s.en_block_size ≤ 1 → pad_of s m ≡ 0
unfolding pad_len_pwr2
pad_of-zero s m l = ground arith

abbrev pub sent_header : Ssl → ℕ → ℕ → ℕ → Header
sent_header s ty hs_type m =
    let n = m + s.en_mac_size + pad_of s m in
    record {
      size = 5 + n;
      pad_len = pad_of s m;
      info = write_record_info s ty n;
      start = if ty == handshake_record then write_handshake_header hs_type (m - 4) else [];
    }

module _ (s : Ssl) (ty hs_type m room : ℕ)
    (no_mac : s.flags.write_secure ≡ false → s.en_mac_size ≡ 0)
    (fits : 5 + (m + s.en_mac_size + pad_of s m) ≤ room) where
  pub start_record-sent : start_record s ty hs_type (5 + m) room ≡ some (sent_header s ty hs_type m)
  unfolding start_record
  start_record-sent =
      let n = m + s.en_mac_size in
      let with_mac : (if s.flags.write_secure then 5 + m + s.en_mac_size else 5 + m) ≡ 5 + n =
        elim (Bool-cases s.flags.write_secure) [
          | inl b ↦ rw b (omega arith)
          | inr b ↦ rw b (omega (arith, no_mac b))
        ] in
      let content : 5 + n - 5 ≡ n = omega arith in
      let total : 5 + n + pad_of s m ≡ 5 + (n + pad_of s m) = omega arith in
      let roomy : ltb room (5 + (n + pad_of s m)) ≡ false = ground arith in
      let size : 5 + (n + pad_of s m) - 5 ≡ n + pad_of s m = omega arith in
      let body : 5 + m - 5 - 4 ≡ m - 4 = omega arith in
      rw (with_mac, content, total, roomy, size, body) refl
