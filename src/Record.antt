-- ===== src/Record.antt =====
-- `matrixSslDecode` of sslDecode.c: the record layer, which takes the records of the input buffer one
-- after the other, opens them, and acts on their type. The pointer `c` is local to a call: `in->start`
-- moves only where the code assigns to it.
pub mod Base
pub mod Open
pub mod Each
pub mod Deliver
pub mod Run
mod Tests
use robin_mesh_v.Prelude.{
  ℕ, zero, suc, ◌+◌, ◌-◌, ◌*◌, ◌/◌, ◌%◌, ◌^◌, Bool, true, false, ◌&&◌, ◌||◌, not, Option, none,
  some, List, [], ◌∷◌, ltb, leb, ◌==◌, if◌then◌else◌, length, take, drop, get_or,
}
use robin_mesh_v.Cipher.{CipherSpec}
use robin_mesh_v.Ssl.{Ssl, Flags, Rec}
use robin_mesh_v.Handshake.{parse_handshake, Parsed, parsed, parse_error, parse_fault}
use robin_mesh_v.Handshake.Base.{
  Env, Conn, Rc, success, process_data, set_ssl, set_flags, client_hello, server_hello,
  hello_request, finished, hs_done, alert_illegal_parameter, alert_unexpected_message,
  alert_bad_record_mac, alert_handshake_failure, alert_none,
}
use Base.{
  Status, Buf, put, Encoded, Wire, Decoder, Next, again, respond, give, broken, Answer, returned,
  crashed, with_conn, refuse, activate_read_cipher,
}

abbrev pub change_cipher_spec : ℕ
change_cipher_spec = 20

abbrev pub alert_record : ℕ
alert_record = 21

abbrev pub handshake_record : ℕ
handshake_record = 22

abbrev pub application_data : ℕ
application_data = 23

abbrev pub max_plaintext_len : ℕ
max_plaintext_len = 0x4000

abbrev pub max_record_len : ℕ
max_record_len = 0x4000 + 2048

abbrev pub max_ignored_message_count : ℕ
max_ignored_message_count = 1024

-- The five bytes of a v3 header.
unfoldable pub read_v3_header : List ℕ → Option (Rec × List ℕ)
read_v3_header (t ∷ major ∷ minor ∷ a ∷ b ∷ c) =
    some (record { len = a * 2 ^ 8 + b; maj_ver = major; min_ver = minor; rec_type = t }, c)
read_v3_header _ = none

-- The header of the next record, and what follows it; `none` where it is not complete. A first
-- byte with its high bit set begins an SSLv2 header as long as no version is negotiated.
unfoldable pub read_record_header : Ssl → List ℕ → Option (Rec × List ℕ)
read_record_header s (a ∷ b ∷ c) =
    if not (s.maj_ver == 0) || a / 2 ^ 7 % 2 == 0
    then read_v3_header (a ∷ b ∷ c)
    else some (
      record { len = a % 2 ^ 7 * 2 ^ 8 + b; maj_ver = 2; min_ver = 0; rec_type = handshake_record },
      c,
    )
read_record_header s _ = none

-- The tests on the header: the alert for the first that fails.
unfoldable pub check_header : Ssl → Option ℕ
check_header s =
    let r = s.rec in
    if not (r.rec_type == change_cipher_spec)
      && not (r.rec_type == alert_record)
      && not (r.rec_type == handshake_record)
      && not (r.rec_type == application_data)
    then some alert_unexpected_message
    else if not (s.hs_state == server_hello)
        && not (s.hs_state == client_hello)
        && (not (r.maj_ver == s.maj_ver) || not (r.min_ver == s.min_ver))
    then some alert_illegal_parameter
    else if ltb max_record_len r.len || r.len == 0
    then some alert_illegal_parameter
    else none

-- Where the MAC begins, and whether the padding is wrong: `last` leaves the MAC at the end, which is
-- its place with a stream cipher and stands for it where a block cipher's padding is wrong.
abbrev pub place_mac : Bool → Bool → ℕ → ℕ → ℕ × Bool
place_mac true bad last padded = (last, false)
place_mac false true last padded = (last, true)
place_mac false false last padded = (padded, false)

-- Where the MAC begins in a record of `len` bytes, and whether the padding is wrong; with wrong
-- padding the last bytes stand for the MAC.
unfoldable pub find_mac : Ssl → List ℕ → ℕ × Bool
find_mac s p =
    let len = s.rec.len in
    let pad_len = get_or p (len - 1) 0 in
    let bad =
      s.maj_ver == 3 && s.min_ver == 0 && leb s.de_block_size pad_len
      || ltb len (s.de_mac_size + pad_len + 1) in
    place_mac (leb s.de_block_size 1) bad (len - s.de_mac_size) (len - pad_len - 1 - s.de_mac_size)

module _ {X : Type 0} (w : Wire X) where
  -- The data of a decrypted record, `none` for a wrong MAC or padding.
  unfoldable pub open_record : Ssl → X → List ℕ → Option (List ℕ)
  open_record s x p =
      let at = find_mac s p in
      if not s.flags.read_secure
      then some p
      else if ltb s.rec.len s.de_mac_size
      then none
      else if not
            (w.verify_mac s x s.rec.rec_type (take (at.0) p) (take s.de_mac_size (drop (at.0) p)))
          || at.1
      then none
      else some (take (at.0) p)

  -- `sslActivateReadCipher`, after which `rest` is left of the input.
  unfoldable pub activate : Decoder X → List ℕ → Option CipherSpec → Next X
  activate d rest none = broken
  activate d rest (some c) = again (record d {
    conn = activate_read_cipher c d.conn;
    cx = w.activate d.conn.ssl c d.cx;
    inp = rest;
  })

  -- A ChangeCipherSpec record.
  unfoldable pub take_change_cipher_spec : Decoder X → List ℕ → List ℕ → Next X
  take_change_cipher_spec d rest [] = refuse alert_illegal_parameter d
  take_change_cipher_spec d rest (v ∷ _) =
      if not (v == 1)
      then refuse alert_illegal_parameter d
      else if not (d.conn.ssl.hs_state == finished)
      then refuse alert_unexpected_message d
      else activate d rest d.conn.ssl.cipher

  -- An alert: its level and description, and a fatal or closing one ends the connection. The input
  -- buffer stays as it is.
  unfoldable pub take_alert : Decoder X → List ℕ → Next X
  take_alert d (level ∷ description ∷ _) =
      let f = d.conn.ssl.flags in
      let f' = record f { error = f.error || level == 2; closed = f.closed || description == 0 } in
      give
        (record d {
          conn = set_flags d.conn f';
          alert_level = level;
          alert_description = description;
        })
        Base.alerted
  take_alert d _ = refuse alert_illegal_parameter d

  -- What the result of `parseSSLHandshake` leads to.
  unfoldable pub after_handshake : Decoder X → List ℕ → Parsed → Next X
  after_handshake d rest (parsed k success) = give (record d { conn = k; inp = rest }) Base.success
  after_handshake d rest (parsed k process_data) = respond (record d { conn = k; inp = rest })
  after_handshake d rest (parse_error k) =
      if k.ssl.err == alert_none
      then refuse alert_handshake_failure (with_conn d k)
      else respond (with_conn d k)
  after_handshake d rest parse_fault = broken

  abbrev pub set_ignored : ℕ → Decoder X → Decoder X
  set_ignored n d = with_conn d (set_ssl d.conn (record (d.conn.ssl) { ignored_message_count = n }))

  -- Application data, of which there may be none.
  unfoldable pub take_application_data : Decoder X → List ℕ → List ℕ → Next X
  take_application_data d rest p =
      let s = d.conn.ssl in
      let n = s.ignored_message_count in
      let d' = record d { inp = rest } in
      if not (s.hs_state == hs_done) && not (s.hs_state == server_hello) || not s.flags.read_secure
      then refuse alert_unexpected_message d
      else if length p == 0
      then if ltb n max_ignored_message_count
        then again (set_ignored (n + 1) d')
        else refuse alert_unexpected_message (set_ignored (n + 1) d')
      else give (set_ignored (n - 1) (record d' { out = put p d.out })) Base.process_data

  -- The `switch` on the record's type.
  unfoldable pub take_record : Env → Decoder X → List ℕ → List ℕ → Next X
  take_record env d rest p =
      let t = d.conn.ssl.rec.rec_type in
      if t == change_cipher_spec
      then take_change_cipher_spec d rest p
      else if t == alert_record
      then take_alert d p
      else if t == handshake_record
      then after_handshake d rest (parse_handshake env d.conn p)
      else if t == application_data
      then take_application_data d rest p
      else give d Base.failed

  -- A record whose MAC and padding have been looked at.
  unfoldable pub take_opened : Env → Decoder X → List ℕ → Option (List ℕ) → Next X
  take_opened env d rest none = refuse alert_bad_record_mac d
  take_opened env d rest (some data_bytes) =
      if ltb max_plaintext_len (length data_bytes)
      then refuse alert_bad_record_mac d
      else take_record env d rest data_bytes

  -- A decrypted record.
  unfoldable pub take_decrypted : Env → Decoder X → List ℕ → Option (X × List ℕ) → Next X
  take_decrypted env d rest none = refuse alert_illegal_parameter d
  take_decrypted env d rest (some (x, p)) =
      let s = d.conn.ssl in
      take_opened env
        (record d {
          cx =
              if s.flags.read_secure && leb s.de_mac_size s.rec.len then w.next_sequence s x else x;
        })
        rest (open_record s x p)

  -- A record whose header has been looked at; `c` is what follows it.
  unfoldable pub take_body : Env → Decoder X → List ℕ → Option ℕ → Next X
  take_body env d c (some alert) = refuse alert d
  take_body env d c none =
      let s = d.conn.ssl in
      let len = s.rec.len in
      if ltb (length c) len
      then give d Base.partial
      else if ltb d.out.room len
      then give d Base.full
      else take_decrypted env d (drop len c) (w.decrypt s d.cx (take len c))

  abbrev pub set_rec : Rec → Decoder X → Decoder X
  set_rec r d = with_conn d (set_ssl d.conn (record (d.conn.ssl) { rec = r }))

  unfoldable pub take_header : Env → Decoder X → Option (Rec × List ℕ) → Next X
  take_header env d none = give d Base.partial
  take_header env d (some (r, c)) =
      take_body env (set_rec r d) c (check_header (record (d.conn.ssl) { rec = r }))

  -- From the label `decodeMore` on, up to where the next record or the response begins.
  unfoldable pub decode_record : Env → Decoder X → Next X
  decode_record env d =
      if length d.inp == 0
      then give d Base.success
      else take_header env d (read_record_header d.conn.ssl d.inp)

  -- What follows the encoding of the response, by what the encoder returned.
  unfoldable pub finish_response : Status → Decoder X → Answer X
  finish_response Base.success d =
      let s = d.conn.ssl in
      if s.err == alert_none
      then returned d Base.send_response
      else returned
          (record d {
            conn = set_flags d.conn (record (s.flags) { error = true });
            error = s.err % 2 ^ 8;
          })
          Base.failed
  finish_response Base.full d =
      returned (with_conn d (set_flags d.conn (record (d.conn.ssl.flags) { need_encode = true })))
        Base.full
  finish_response _ d = returned d Base.failed

  abbrev pub encoded : Decoder X → Option (Encoded X) → Answer X
  encoded d none = crashed
  encoded d (some e) = finish_response e.code (record d { conn = e.conn; cx = e.cx; out = e.out })

  -- `matrixSslEncodeClientHello(ssl, out, ssl->cipher->id)`
  unfoldable pub greet_again : Decoder X → Option CipherSpec → Answer X
  greet_again d none = crashed
  greet_again d (some c) = encoded d (w.encode_client_hello c.id d.conn d.cx d.out)

  -- From the label `encodeResponse` on.
  unfoldable pub respond_to : Decoder X → Answer X
  respond_to d =
      if d.conn.ssl.hs_state == hello_request
      then greet_again d d.conn.ssl.cipher
      else encoded d (w.encode_response d.conn d.cx d.out)

  -- The records one after the other. Each that is followed by another takes bytes of the input,
  -- whose length is the fuel.
  unfoldable pub decode_records : ℕ → Env → Decoder X → Answer X
  decode_records zero env d = crashed
  decode_records (suc fuel) env d = elim (decode_record env d) [
    | again d' ↦ decode_records fuel env d'
    | respond d' ↦ respond_to d'
    | give d' s ↦ returned d' s
    | broken ↦ crashed
  ]

  unfoldable pub matrix_ssl_decode : Env → Decoder X → Answer X
  matrix_ssl_decode env d =
      let f = d.conn.ssl.flags in
      let d' = record d { error = alert_none } in
      if f.error || f.closed
      then returned d' Base.failed
      else if f.need_encode
      then respond_to (with_conn d' (set_flags d.conn (record f { need_encode = false })))
      else decode_records (suc (length d.inp)) env d'
