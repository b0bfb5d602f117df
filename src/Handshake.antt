-- ===== src/Handshake.antt =====
-- `parseSSLHandshake` of sslDecode.c: the state machine that takes the handshake messages of one
-- record in order. The children handle the single messages.
pub mod Base
pub mod ClientHello
pub mod KeyExchange
pub mod Client
pub mod Hello
pub mod Moves
pub mod Certificates
pub mod Entry
pub mod Order
pub mod Loop
mod Tests
use robin_mesh_v.Prelude.{
  ℕ, zero, suc, ◌+◌, ◌-◌, ◌*◌, ◌^◌, Bool, true, false, ◌&&◌, ◌||◌, not, Option, none, some, List,
  [], ◌∷◌, ltb, leb, ◌==◌, if◌then◌else◌, length, take, drop, ◌++◌,
}
use robin_mesh_v.Ssl.{Ssl, Flags}
use Base.{
  Env, Conn, Rc, success, process_data, Step, continue, stop, fault, fail, set_ssl, set_flags,
  set_state, reset_context, get_u24, hello_request, client_hello, server_hello, certificate,
  server_key_exchange, certificate_request, server_hello_done, client_key_exchange, finished,
  hs_done, alert_illegal_parameter, alert_unexpected_message,
}
use ClientHello.{handle_client_hello}
use KeyExchange.{handle_client_key_exchange, handle_finished}
use Client.{
  handle_hello_request, handle_server_hello, handle_certificate, handle_server_hello_done,
  handle_certificate_request,
}

-- A message type that is not the expected one is let through in three cases: a ClientHello on a
-- finished connection, a CertificateRequest in place of ServerHelloDone, and a HelloRequest to a
-- client on a finished connection.
unfoldable pub admit_type : Conn → ℕ → Option Conn
admit_type k t =
    let h = k.ssl.hs_state in
    if t == h || (t == client_hello && h == hs_done)
    then some k
    else if t == certificate_request && h == server_hello_done
    then some
        (set_state certificate_request (set_flags k (record (k.ssl.flags) { client_auth = true })))
    else if t == hello_request && h == hs_done && not k.ssl.flags.server
    then some (set_state t (reset_context k))
    else none

-- A ClientHello starts the hashes anew, and on a finished connection a new handshake.
unfoldable pub begin_hello : Conn → ℕ → Conn
begin_hello k t =
    let k' = set_ssl k (record (k.ssl) { hs_hash = [] }) in
    if not (t == client_hello)
    then k
    else if k.ssl.hs_state == hs_done
    then set_state t (reset_context k')
    else k'

-- `sslSnapshotHSHash`, taken before this message is hashed; only Finished reads it.
unfoldable pub snapshot : Env → Conn → List ℕ
snapshot env k = env.finished_hash k.ssl.hs_hash k.ssl.master_secret (not k.ssl.flags.server)

abbrev pub add_hash : List ℕ → Conn → Conn
add_hash bytes k = set_ssl k (record (k.ssl) { hs_hash = k.ssl.hs_hash ++ bytes })

-- The `switch` on the state.
unfoldable pub dispatch : Env → List ℕ → Conn → Rc → ℕ → List ℕ → Step
dispatch env hash k rc hs_len c =
    let h = k.ssl.hs_state in
    if h == client_hello
    then handle_client_hello env k c
    else if h == client_key_exchange
    then handle_client_key_exchange env k rc hs_len c
    else if h == finished
    then handle_finished hash k rc hs_len c
    else if h == hello_request
    then handle_hello_request k c
    else if h == server_hello
    then handle_server_hello env k rc c
    else if h == certificate
    then handle_certificate env k rc c
    else if h == server_hello_done
    then handle_server_hello_done k hs_len c
    else if h == certificate_request
    then handle_certificate_request k rc hs_len c
    else fail alert_unexpected_message k

-- A message with the header of SSLv3, whose bytes from the length on are `c`.
unfoldable pub read_v3 : Env → Conn → Rc → ℕ → List ℕ → Step
read_v3 env k rc t c = elim (get_u24 c) [
  | none ↦ fail alert_illegal_parameter k
  | some (n, rest) ↦
      if ltb (length rest) n
      then fail alert_illegal_parameter k
      else dispatch env (snapshot env k) (add_hash (t ∷ take (3 + n) c) k) rc n rest
]

-- The header of a message of type `t`; `inbuf` is the whole record, which an SSLv2 hello hashes.
unfoldable pub read_header : Env → List ℕ → Conn → Rc → ℕ → List ℕ → Step
read_header env inbuf k rc t c =
    if leb 3 k.ssl.rec.maj_ver
    then read_v3 env k rc t c
    else if k.ssl.rec.maj_ver == 2
    then dispatch env (snapshot env k) (add_hash inbuf k) rc (length inbuf - 1) c
    else fail alert_illegal_parameter k

-- One message.
unfoldable pub parse_message : Env → List ℕ → Conn → Rc → List ℕ → Step
parse_message env inbuf k rc [] = fail alert_illegal_parameter k
parse_message env inbuf k rc (t ∷ c) = elim (admit_type k t) [
  | none ↦ fail alert_illegal_parameter k
  | some k' ↦ read_header env inbuf (begin_hello k' t) rc t c
]

-- What the parser returns: SSL_SUCCESS or SSL_PROCESS_DATA, SSL_ERROR, or no defined result.
pub data Parsed : Type 0 where
  parsed : Conn → Rc → Parsed
  parse_error : Conn → Parsed
  parse_fault : Parsed

-- The messages of a record; each takes at least its type, so their number is at most that of the
-- bytes, which is the fuel.
unfoldable pub parse_messages : ℕ → Env → List ℕ → Conn → Rc → List ℕ → Parsed
parse_messages zero env inbuf k rc c = parsed k rc
parse_messages (suc fuel) env inbuf k rc c = elim (parse_message env inbuf k rc c) [
  | fault ↦ parse_fault
  | stop k' ↦ parse_error k'
  | continue k' rc' [] ↦ parsed k' rc'
  | continue k' rc' (x ∷ rest) ↦ parse_messages fuel env inbuf k' rc' (x ∷ rest)
]

unfoldable pub parse_handshake : Env → Conn → List ℕ → Parsed
parse_handshake env k inbuf = parse_messages (suc (length inbuf)) env inbuf k success inbuf
