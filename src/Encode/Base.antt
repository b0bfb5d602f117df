-- ===== src/Encode/Base.antt =====
-- What every record of sslEncode.c is written with: the headers, the padding, and the sealing of a
-- record by `writeRecordHeader` and `encryptRecord`.
use robin_mesh_v.Prelude.{
  true, ℕ, ◌+◌, ◌-◌, ◌*◌, ◌/◌, ◌%◌, ◌^◌, Option, none, some, List, [], ◌∷◌, ◌++◌, ltb, leb, ◌==◌,
  if◌then◌else◌, length, replicate,
}
use robin_mesh_v.Cipher.{CipherSpec}
use robin_mesh_v.Ssl.{Ssl}
use robin_mesh_v.Handshake.{add_hash}
use robin_mesh_v.Handshake.Base.{Conn, set_flags}
use robin_mesh_v.Record.{handshake_record}
use robin_mesh_v.Record.Base.{Buf, put, Encoded, Status}

abbrev pub record_head_len : ℕ
record_head_len = 5

abbrev pub hshake_head_len : ℕ
hshake_head_len = 4

-- What the encoder calls and this model does not look into, with a state `X`: the MAC of a record's
-- type and bytes, with its sequence number; the encryption of a record, `none` for a negative return;
-- what `sslActivateWriteCipher` does to the keys; the encryption of the premaster secret for a
-- certificate, `none` for a length other than the key's; the size of a certificate's key; and random
-- bytes, `none` for an error.
pub record Sealer (X : Type 0) : Type 0 where
  pub generate_mac : Ssl → X → ℕ → List ℕ → List ℕ × X
  pub encrypt : Ssl → X → List ℕ → Option (X × List ℕ)
  pub activate_write : Ssl → CipherSpec → X → X
  pub encrypt_pub : List ℕ → List ℕ → Option (List ℕ)
  pub public_size : List ℕ → ℕ
  pub entropy : X → ℕ → Option (X × List ℕ)

-- `psWriteRecordInfo`
abbrev pub write_record_info : Ssl → ℕ → ℕ → List ℕ
write_record_info s t len = t ∷ s.maj_ver ∷ s.min_ver ∷ len / 2 ^ 8 % 2 ^ 8 ∷ len % 2 ^ 8 ∷ []

-- A number of three bytes.
abbrev pub write_u24 : ℕ → List ℕ
write_u24 n = n / 2 ^ 16 % 2 ^ 8 ∷ n / 2 ^ 8 % 2 ^ 8 ∷ n % 2 ^ 8 ∷ []

-- `psWriteHandshakeHeader`
abbrev pub write_handshake_header : ℕ → ℕ → List ℕ
write_handshake_header t len = t ∷ write_u24 len

-- `sslPadLenPwr2`, for a block size that is a power of two.
unfoldable pub pad_len_pwr2 : ℕ → ℕ → ℕ
pad_len_pwr2 len block_size = if leb block_size 1 then 0 else block_size - len % block_size

-- `sslWritePad`
abbrev pub write_pad : ℕ → List ℕ
write_pad n = replicate n (n - 1)

-- `secureWriteAdditions`; while writing is secure, the block size is at least 1.
unfoldable pub secure_write_additions : Ssl → ℕ → ℕ
secure_write_additions s n =
    if s.flags.write_secure then n * s.en_mac_size + n * (s.en_block_size - 1) else 0

-- What `writeRecordHeader` leaves: the size of the whole record, the length of its padding, the
-- record's header, and the first of the bytes to be encrypted.
pub record Header : Type 0 where
  pub size : ℕ
  pub pad_len : ℕ
  pub info : List ℕ
  pub start : List ℕ

-- `writeRecordHeader` for a message of `size` bytes with its headers; `none` is SSL_FULL.
unfoldable pub start_record : Ssl → ℕ → ℕ → ℕ → ℕ → Option Header
start_record s t hs_type size room =
    let with_mac = if s.flags.write_secure then size + s.en_mac_size else size in
    let pad =
      if s.flags.write_secure
      then pad_len_pwr2 (with_mac - record_head_len) s.en_block_size
      else 0 in
    let total = with_mac + pad in
    if ltb room total
    then none
    else some (record {
      size = total;
      pad_len = pad;
      info = write_record_info s t (total - record_head_len);
      start =
          if t == handshake_record
          then write_handshake_header hs_type (size - record_head_len - hshake_head_len)
          else [];
    })

module _ {X : Type 0} (w : Sealer X) where
  -- The record is put into the output buffer if it has the size that was computed for it.
  unfoldable pub put_record : Conn → Buf → Header → X → Option (X × List ℕ) → Encoded X
  put_record k out h x none = record { conn = k; cx = x; out = out; code = Status.failed }
  put_record k out h x (some (x', bytes)) =
      if record_head_len + length bytes == h.size
      then record { conn = k; cx = x'; out = put (h.info ++ bytes) out; code = Status.success }
      else record { conn = k; cx = x'; out = out; code = Status.failed }

  -- `encryptRecord` on the message with `body` behind its header, and `out->end = c`.
  unfoldable pub seal_record : Conn → X → Buf → ℕ → Header → List ℕ → Encoded X
  seal_record k x out t h body =
      let plain = h.start ++ body in
      let k' = if t == handshake_record then add_hash plain k else k in
      let m = w.generate_mac k'.ssl x t plain in
      put_record k' out h (m.1) (w.encrypt k'.ssl (m.1) (plain ++ (m.0 ++ write_pad h.pad_len)))

  abbrev pub full_record : Conn → X → Buf → Encoded X
  full_record k x out = record { conn = k; cx = x; out = out; code = Status.full }

  abbrev pub failed_record : Conn → X → Buf → Encoded X
  failed_record k x out = record { conn = k; cx = x; out = out; code = Status.failed }

  -- The sealing once the header is there.
  unfoldable pub seal_started : Conn → X → Buf → ℕ → List ℕ → Option Header → Encoded X
  seal_started k x out t body none = full_record k x out
  seal_started k x out t body (some h) = seal_record k x out t h body

  -- A whole record of type `t` whose message, headers included, has `size` bytes.
  unfoldable pub write_record : Conn → X → Buf → ℕ → ℕ → ℕ → List ℕ → Encoded X
  write_record k x out t hs_type size body =
      seal_started k x out t body (start_record k.ssl t hs_type size out.room)

  -- `if (rc == SSL_SUCCESS) rc = …`
  abbrev pub and_then :
      Option (Encoded X) → (Conn → X → Buf → Option (Encoded X)) → Option (Encoded X)
  and_then none f = none
  and_then (some e) f = elim e.code [ Status.success ↦ f e.conn e.cx e.out | _ ↦ some e ]

  -- A change of the connection after a success.
  abbrev pub on_success : Encoded X → (Conn → Conn) → Encoded X
  on_success e f = elim e.code [ Status.success ↦ record e { conn = f e.conn } | _ ↦ e ]

-- `if (rc == SSL_ERROR) ssl->flags |= SSL_FLAGS_ERROR;`
abbrev pub mark_error : {X : Type 0} → Option (Encoded X) → Option (Encoded X)
mark_error none = none
mark_error (some e) = elim e.code [
  | Status.failed ↦
      some (record e { conn = set_flags e.conn (record (e.conn.ssl.flags) { error = true }) })
  | _ ↦ some e
]
