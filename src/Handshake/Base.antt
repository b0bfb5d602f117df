-- ===== src/Handshake/Base.antt =====
-- The constants, the state and the outside world of the handshake parser `parseSSLHandshake` of
-- sslDecode.c.
use robin_mesh_v.Prelude.{
  ℕ, ◌+◌, ◌*◌, ◌^◌, Bool, false, Option, none, some, List, ◌∷◌, if◌then◌else◌,
}
use robin_mesh_v.Cipher.{CipherSpec}
use robin_mesh_v.Ssl.{Ssl, Flags}
use robin_mesh_v.Session.{Time, Table, Result, clear_session}

-- SSL_HS_ constants, the handshake message types and states.
abbrev pub hello_request : ℕ
hello_request = 0

abbrev pub client_hello : ℕ
client_hello = 1

abbrev pub server_hello : ℕ
server_hello = 2

abbrev pub certificate : ℕ
certificate = 11

abbrev pub server_key_exchange : ℕ
server_key_exchange = 12

abbrev pub certificate_request : ℕ
certificate_request = 13

abbrev pub server_hello_done : ℕ
server_hello_done = 14

abbrev pub client_key_exchange : ℕ
client_key_exchange = 16

abbrev pub finished : ℕ
finished = 20

abbrev pub hs_done : ℕ
hs_done = 255

abbrev pub alert_unexpected_message : ℕ
alert_unexpected_message = 10

abbrev pub alert_bad_record_mac : ℕ
alert_bad_record_mac = 20

abbrev pub alert_handshake_failure : ℕ
alert_handshake_failure = 40

abbrev pub alert_no_certificate : ℕ
alert_no_certificate = 41

abbrev pub alert_bad_certificate : ℕ
alert_bad_certificate = 42

abbrev pub alert_unsupported_certificate : ℕ
alert_unsupported_certificate = 43

abbrev pub alert_illegal_parameter : ℕ
alert_illegal_parameter = 47

abbrev pub alert_none : ℕ
alert_none = 255

-- What the parser calls and this model does not look into: the clock; `sslGenerateFinishedHash` on
-- the bytes hashed so far, the master secret and whether the sender is the server; the decryption
-- of the premaster secret with the server's key, `none` for a failure; the hashes of
-- `sslDeriveKeys`; and the X.509 functions on the chain, leaf first: the number of bytes that a
-- certificate takes, whether the chain holds together, whether its end is valid (`none` for an
-- error), and what the user's callback says (`none` for a refusal, else whether the connection may
-- be anonymous).
pub record Env : Type 0 where
  pub now : Time
  pub finished_hash : List ℕ → List ℕ → Bool → List ℕ
  pub decrypt_premaster : Option CipherSpec → List ℕ → Option (List ℕ)
  pub make_master : List ℕ → List ℕ → List ℕ → List ℕ
  pub parse_cert : List ℕ → Option ℕ
  pub validate_chain : List (List ℕ) → Bool
  pub validate_cert : List (List ℕ) → Option Bool
  pub has_validator : Bool
  pub user_validate : List (List ℕ) → Option Bool

-- The connection and the session cache that all connections share.
pub record Conn : Type 0 where
  pub ssl : Ssl
  pub table : Table

-- SSL_SUCCESS and SSL_PROCESS_DATA, the values that `rc` takes.
pub data Rc : Type 0 where
  success process_data : Rc

-- The result of handling one message: the parser goes on behind it, or returns SSL_ERROR, or reads
-- outside the record or through a null pointer.
pub data Step : Type 0 where
  continue : Conn → Rc → List ℕ → Step
  stop : Conn → Step
  fault : Step

-- `ssl->err = alert; return SSL_ERROR;`
abbrev pub fail : ℕ → Conn → Step
fail alert k = stop (record k { ssl = record (k.ssl) { err = alert } })

abbrev pub set_ssl : Conn → Ssl → Conn
set_ssl k s = record k { ssl = s }

abbrev pub set_flags : Conn → Flags → Conn
set_flags k f = record k { ssl = record (k.ssl) { flags = f } }

abbrev pub set_resumed : Bool → Conn → Conn
set_resumed b k = set_flags k (record (k.ssl.flags) { resumed = b })

abbrev pub set_state : ℕ → Conn → Conn
set_state h k = record k { ssl = record (k.ssl) { hs_state = h } }

-- `x = *c << 8; c++; x += *c; c++;`: the number and what follows it, `none` where the bytes end.
abbrev pub get_u16 : List ℕ → Option (ℕ × List ℕ)
get_u16 (a ∷ b ∷ c) = some (a * 2 ^ 8 + b, c)
get_u16 _ = none

-- The three byte number, likewise.
abbrev pub get_u24 : List ℕ → Option (ℕ × List ℕ)
get_u24 (a ∷ b ∷ c ∷ d) = some (a * 2 ^ 16 + b * 2 ^ 8 + c, d)
get_u24 _ = none

-- `sslResetContext`: a server releases its cached session, so that it may be found again.
unfoldable pub reset_context : Conn → Conn
reset_context k = if k.ssl.flags.server then of_result (clear_session k.ssl false k.table) else k
  where
    of_result : Result → Conn
    of_result r = record { ssl = r.ssl; table = r.table }
