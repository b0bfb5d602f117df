-- ===== src/Encode.antt =====
-- The encoder, sslEncode.c: application data, the flights of messages that answer what was read, and
-- the messages that the caller asks for.
pub mod Base
pub mod Writers
pub mod Room
pub mod Flights
pub mod Halfway
mod Tests
use robin_mesh_v.Prelude.{
  ℕ, ◌+◌, ◌-◌, ◌*◌, ◌%◌, ◌^◌, Bool, true, false, not, ◌&&◌, ◌||◌, Option, none, some, List, [], ◌∷◌,
  ◌++◌, ltb, ◌==◌, if◌then◌else◌, length, drop,
}
use robin_mesh_v.Cipher.{CipherSpec, get_cipher_spec, get_cipher_spec_list_len}
use robin_mesh_v.Ssl.{Ssl, Flags}
use robin_mesh_v.Handshake.Base.{
  Env, Conn, set_ssl, set_flags, set_resumed, set_state, reset_context, hello_request, client_hello,
  server_hello, client_key_exchange, finished, hs_done, alert_none, alert_no_certificate,
}
use robin_mesh_v.Record.{handshake_record, application_data, max_record_len}
use robin_mesh_v.Record.Base.{Buf, Encoded, Status}
use Base.{
  mark_error, Sealer, Header, record_head_len, hshake_head_len, start_record, seal_record,
  write_record, full_record, failed_record, and_then, on_success, secure_write_additions,
}
use Writers.{
  Local, total_length, make_random, suites_of, client_hello_body, write_server_hello,
  write_server_hello_done, write_certificate, write_change_cipher_spec, write_finished, write_alert,
  write_client_key_exchange,
}

abbrev pub max_mac_size : ℕ
max_mac_size = 20

abbrev pub max_block_size : ℕ
max_block_size = 16

-- The room that each flight is checked for: a server's hello, a server's resumption, the last messages of
-- a full handshake or of a client's resumption, and what a client sends after ServerHelloDone.
unfoldable pub hello_flight_size : Ssl → Local → ℕ
hello_flight_size s own =
    3 * record_head_len
    + 3 * hshake_head_len
    + 38
    + 32
    + 3
    + length own.own_certs * 3
    + total_length own.own_certs
    + secure_write_additions s 3

unfoldable pub resumption_flight_size : Ssl → ℕ
resumption_flight_size s =
    3 * record_head_len + 2 * hshake_head_len + 38 + 32 + 1 + 36 + secure_write_additions s 3

unfoldable pub last_flight_size : Ssl → ℕ
last_flight_size s = 2 * record_head_len + hshake_head_len + 1 + 36 + secure_write_additions s 2

abbrev pub is_ssl3 : Ssl → Bool
is_ssl3 s = s.maj_ver == 3 && s.min_ver == 0

unfoldable pub auth_size : Ssl → Local → List ℕ → ℕ
auth_size s own cert =
    if not s.flags.client_auth
    then 0
    else if ltb 0 s.cert_match
    then 6 + 2 * record_head_len + 2 * hshake_head_len + length cert + 2 + own.priv_size
    else if is_ssl3 s
    then 2 + record_head_len
    else 3 + record_head_len + hshake_head_len

unfoldable pub client_flight_size : Ssl → Local → List ℕ → ℕ → ℕ
client_flight_size s own cert key_size =
    auth_size s own cert
    + (3 * record_head_len
        + 2 * hshake_head_len
        + key_size
        + 1
        + 36
        + max_mac_size
        + max_block_size
        - 1)
    + secure_write_additions s
        (if not s.flags.client_auth then 2 else if ltb 0 s.cert_match then 4 else 3)

abbrev pub first_cert : List (List ℕ) → List ℕ
first_cert [] = []
first_cert (c ∷ cs) = c

module _ {X : Type 0} (w : Sealer X) (env : Env) (own : Local) where
  -- A flight is sent if there is room for all of it.
  abbrev pub if_room :
      ℕ → (Conn → X → Buf → Option (Encoded X)) → Conn → X → Buf → Option (Encoded X)
  if_room size f k x out = if ltb out.room size then some (full_record w k x out) else f k x out

  unfoldable pub hello_flight : Conn → X → Buf → Option (Encoded X)
  hello_flight k x out =
      and_then w
        (and_then w (write_server_hello w env own k x out) (write_certificate w env own true))
        (write_server_hello_done w env own)

  unfoldable pub last_flight : Conn → X → Buf → Option (Encoded X)
  last_flight k x out =
      and_then w (write_change_cipher_spec w env own k x out) (write_finished w env own)

  unfoldable pub resumption_flight : Conn → X → Buf → Option (Encoded X)
  resumption_flight k x out =
      and_then w
        (and_then w (write_server_hello w env own k x out) (write_change_cipher_spec w env own))
        (write_finished w env own)

  -- What client authentication puts before the key exchange.
  unfoldable pub authenticate : Conn → X → Buf → Option (Encoded X)
  authenticate k x out =
      let s = k.ssl in
      if not s.flags.client_auth
      then some (record { conn = k; cx = x; out = out; code = Status.success })
      else if s.cert_match == 0 && is_ssl3 s
      then write_alert w env own 1 alert_no_certificate k x out
      else write_certificate w env own (not (s.cert_match == 0)) k x out

  unfoldable pub client_flight : Conn → X → Buf → Option (Encoded X)
  client_flight k x out =
      and_then w
        (and_then w (and_then w (authenticate k x out) (write_client_key_exchange w env own))
          (write_change_cipher_spec w env own))
        (write_finished w env own)

  -- The client's side of the state SSL_HS_FINISHED.
  unfoldable pub client_answer : Conn → X → Buf → Option (Encoded X)
  client_answer k x out = elim k.ssl.certs [
    | [] ↦ some (failed_record w (set_flags k (record (k.ssl.flags) { error = true })) x out)
    | cert ∷ _ ↦ mark_error (
        if_room (client_flight_size k.ssl own (first_cert own.own_certs) (w.public_size cert))
          client_flight k x out)
  ]

  -- `sslEncodeResponse`. SSL_FULL is returned before the test for an error, which it would pass.
  unfoldable pub encode_response : Conn → X → Buf → Option (Encoded X)
  encode_response k x out =
      let s = k.ssl in
      if not (s.err == alert_none)
      then mark_error (write_alert w env own 2 (s.err % 2 ^ 8) k x out)
      else if s.hs_state == client_key_exchange
      then mark_error (if_room (hello_flight_size s own) hello_flight k x out)
      else if s.hs_state == hs_done
      then mark_error (if_room (last_flight_size s) last_flight k x out)
      else if s.hs_state == finished
      then (if s.flags.server
          then mark_error (if_room (resumption_flight_size s) resumption_flight k x out)
          else client_answer k x out)
      else mark_error (some (failed_record w k x out))

  -- `matrixSslEncodeClosureAlert`
  unfoldable pub matrix_ssl_encode_closure_alert : Conn → X → Buf → Option (Encoded X)
  matrix_ssl_encode_closure_alert k x out =
      if k.ssl.flags.error
      then some (failed_record w k x out)
      else write_alert w env own 1 0 k x out

  -- `matrixSslEncodeHelloRequest`
  unfoldable pub matrix_ssl_encode_hello_request : Conn → X → Buf → Option (Encoded X)
  matrix_ssl_encode_hello_request k x out =
      let f = k.ssl.flags in
      if f.error || f.closed
      then some (failed_record w k x out)
      else if not f.server || not (k.ssl.hs_state == hs_done)
      then some (failed_record w k x out)
      else some (
          write_record w k x out handshake_record hello_request (record_head_len + hshake_head_len)
            [])

  -- `matrixSslEncode`, whose positive return value stands for SSL_SUCCESS here.
  unfoldable pub matrix_ssl_encode : Conn → X → Buf → List ℕ → Encoded X
  matrix_ssl_encode k x out bytes =
      let f = k.ssl.flags in
      if f.error || not (k.ssl.hs_state == hs_done) || f.closed
      then failed_record w k x out
      else if ltb (max_record_len + 5) (record_head_len + length bytes)
      then failed_record w k x out
      else write_record w k x out application_data 0 (record_head_len + length bytes) bytes

  -- The state after a ClientHello is written.
  unfoldable pub end_client_hello : Conn → Conn
  end_client_hello k =
      let j = if k.ssl.hs_state == hs_done then reset_context k else k in
      set_state server_hello (set_flags j (record (j.ssl.flags) { client_auth = false }))

  unfoldable pub seal_client_hello : Conn → X → Buf → Header → Option (List ℕ) → Option (Encoded X)
  seal_client_hello k x out h none = some (full_record w k x out)
  seal_client_hello k x out h (some suites) = some (
      on_success w (seal_record w k x out handshake_record h (client_hello_body k.ssl suites))
        end_client_hello)

  unfoldable pub random_client_hello :
      Conn → X → Buf → Header → ℕ → Option (X × List ℕ) → Option (Encoded X)
  random_client_hello k x out h id none = some (failed_record w k x out)
  random_client_hello k x out h id (some (x', bytes)) =
      let s = k.ssl in
      seal_client_hello (set_ssl k (record s { client_random = make_random own.clock bytes })) x'
        out h
        (suites_of id (out.room - (record_head_len + hshake_head_len + 3 + 32 + s.session_id_len)))

  unfoldable pub started_client_hello : Conn → X → Buf → ℕ → Option Header → Option (Encoded X)
  started_client_hello k x out id none = some (full_record w k x out)
  started_client_hello k x out id (some h) =
      let s = k.ssl in
      random_client_hello
        (set_ssl k (record s { client_random = make_random own.clock (drop 4 s.client_random) })) x
        out h id (w.entropy x 28)

  -- The ClientHello for the suite `id`, or for all of them at 0; the length of the list of suites comes
  -- from the lookup of the suite.
  unfoldable pub sized_client_hello : Conn → X → Buf → ℕ → Option ℕ → Option (Encoded X)
  sized_client_hello k x out id none = some (failed_record w k x out)
  sized_client_hello k x out id (some cipher_len) = started_client_hello k x out id (
      start_record k.ssl handshake_record client_hello
        (record_head_len + hshake_head_len + 5 + 32 + k.ssl.session_id_len + cipher_len) out.room)

  unfoldable pub cipher_len_of : ℕ → Option CipherSpec → Option ℕ
  cipher_len_of id o =
      if id == 0 then some get_cipher_spec_list_len else elim o [ none ↦ none | some c ↦ some 4 ]

  -- A connection with a session id asks for its own suite.
  unfoldable pub suite_client_hello : Conn → X → Buf → ℕ → Option CipherSpec → Option (Encoded X)
  suite_client_hello k x out id own_suite =
      if k.ssl.session_id_len == 0
      then sized_client_hello (set_resumed false k) x out id (cipher_len_of id (get_cipher_spec id))
      else elim own_suite [
        | none ↦ none
        | some c ↦ sized_client_hello k x out c.id (cipher_len_of c.id (get_cipher_spec c.id))
      ]

  -- `matrixSslEncodeClientHello`
  unfoldable pub matrix_ssl_encode_client_hello : ℕ → Conn → X → Buf → Option (Encoded X)
  matrix_ssl_encode_client_hello id k x out =
      let s = k.ssl in
      if s.flags.error || s.flags.closed
      then some (failed_record w k x out)
      else if s.flags.server
          || not (s.hs_state == server_hello)
            && not (s.hs_state == hs_done)
            && not (s.hs_state == hello_request)
      then some (failed_record w k x out)
      else suite_client_hello (set_ssl k (record s { hs_hash = [] })) x out id s.cipher
