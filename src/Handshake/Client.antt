-- ===== src/Handshake/Client.antt =====
-- The messages that a client reads: HelloRequest, ServerHello, Certificate, ServerHelloDone and
-- CertificateRequest.
use robin_mesh_v.Prelude.{
  ℕ, zero, suc, ◌+◌, ◌-◌, Bool, true, false, ◌&&◌, ◌||◌, not, Option, none, some, List, [], ◌∷◌,
  ◌++◌, ltb, ◌==◌, if◌then◌else◌, length, take, drop, replicate,
}
use robin_mesh_v.Cipher.{CipherSpec, null_spec, get_cipher_spec}
use robin_mesh_v.Session.{same_bytes}
use robin_mesh_v.Handshake.Base.{
  Env, Conn, Rc, process_data, Step, continue, fault, fail, set_ssl, get_u16, get_u24, set_state,
  set_resumed, finished, certificate, server_hello_done, client_key_exchange,
  alert_illegal_parameter, alert_handshake_failure, alert_no_certificate, alert_bad_certificate,
  alert_unsupported_certificate,
}
use robin_mesh_v.Handshake.KeyExchange.{derive_keys}

unfoldable pub handle_hello_request : Conn → List ℕ → Step
handle_hello_request k [] = continue k process_data []
handle_hello_request k (x ∷ c) = fail alert_illegal_parameter k

-- The compression byte, and the state after a ServerHello.
unfoldable pub end_server_hello : Env → Conn → Rc → List ℕ → Step
end_server_hello env k rc [] = fail alert_illegal_parameter k
end_server_hello env k rc (x ∷ c) =
    if not (x == 0)
    then fail alert_illegal_parameter k
    else if k.ssl.flags.resumed
    then continue (set_state finished (set_ssl k (derive_keys env k.ssl))) rc c
    else continue (set_state certificate k) rc c

-- The suite: a resumed session keeps its own, any other takes one that is supported.
unfoldable pub own_suite : Env → Conn → Rc → ℕ → Option CipherSpec → List ℕ → Step
own_suite env k rc id none c = fault
own_suite env k rc id (some s) c =
    if s.id == id then end_server_hello env k rc c else fail alert_handshake_failure k

unfoldable pub new_suite : Env → Conn → Rc → Option CipherSpec → List ℕ → Step
new_suite env k rc none c =
    fail alert_handshake_failure (set_ssl k (record (k.ssl) { cipher = none }))
new_suite env k rc (some s) c =
    end_server_hello env (set_ssl k (record (k.ssl) { cipher = some s })) rc c

unfoldable pub choose_suite : Env → Conn → Rc → ℕ → List ℕ → Step
choose_suite env k rc id c =
    if k.ssl.flags.resumed
    then own_suite env k rc id k.ssl.cipher c
    else new_suite env k rc (get_cipher_spec id) c

unfoldable pub read_suite : Env → Conn → Rc → List ℕ → Step
read_suite env k rc c = elim (get_u16 c) [
  | none ↦ fail alert_illegal_parameter k
  | some (id, rest) ↦ choose_suite env k rc id rest
]

-- What the client has of a cached session is dropped: its suite and its master secret.
abbrev pub drop_session : Conn → Conn
drop_session k = set_ssl k (record (k.ssl) {
  cipher = some null_spec;
  master_secret = replicate 48 0;
  flags = record (k.ssl.flags) { resumed = false };
})

-- The session id that the server answers, of `n` bytes, against the one that was asked for.
unfoldable pub answer_session : Conn → ℕ → List ℕ → Conn
answer_session k n id =
    let s = k.ssl in
    let store = λ (j : Conn).
      set_ssl j (record (j.ssl) { session_id_len = n; session_id = id ++ drop n s.session_id }) in
    if n == 0
    then (if s.session_id_len == 0
        then k
        else set_ssl (drop_session k)
            (record ((drop_session k).ssl) { session_id_len = 0; session_id = replicate 32 0 }))
    else if s.session_id_len == 0
    then store k
    else if same_bytes n s.session_id id
    then set_resumed true k
    else store (drop_session k)

-- The session id's length and bytes, behind the server's random.
unfoldable pub read_server_session : Env → Conn → Rc → List ℕ → Step
read_server_session env k rc [] = fail alert_illegal_parameter k
read_server_session env k rc (n ∷ c) =
    if ltb 32 n || ltb (length c) n
    then fail alert_illegal_parameter k
    else read_suite env (answer_session k n (take n c)) rc (drop n c)

unfoldable pub handle_server_hello : Env → Conn → Rc → List ℕ → Step
handle_server_hello env k rc (major ∷ minor ∷ c) =
    let k' = set_ssl k (record (k.ssl) { req_maj_ver = major; req_min_ver = minor }) in
    if not (major == k.ssl.maj_ver)
    then fail alert_handshake_failure k'
    else if ltb (length c) 33
    then fail alert_illegal_parameter k'
    else read_server_session env (set_ssl k' (record (k'.ssl) { server_random = take 32 c })) rc
        (drop 32 c)
handle_server_hello env k rc c = fail alert_illegal_parameter k

-- The chain of certificates: a length of three bytes before each, which is read without a look at
-- how much of the message is left. `fuel` bounds the certificates.
pub data Chain : Type 0 where
  chain : List (List ℕ) → List ℕ → Chain
  bad_chain : ℕ → List (List ℕ) → Chain
  overread : Chain

unfoldable pub read_chain : Env → ℕ → ℕ → List (List ℕ) → List ℕ → Chain
read_chain env zero left certs c = chain certs c
read_chain env (suc fuel) left certs c = if left == 0 then chain certs c else elim (get_u24 c) [
  | none ↦ overread
  | some (n, rest) ↦
      if ltb (length rest) n
      then bad_chain alert_illegal_parameter certs
      else elim (env.parse_cert (take n rest)) [
        | none ↦ bad_chain alert_bad_certificate certs
        | some parsed ↦
            read_chain env fuel (left - (n + 3)) (certs ++ take n rest ∷ []) (drop parsed rest)
      ]
]

-- `ssl->sec.cert` after the loop: it is set with the first certificate of the chain.
abbrev pub stored_certs : Conn → List (List ℕ) → List (List ℕ)
stored_certs k [] = k.ssl.certs
stored_certs k (x ∷ r) = x ∷ r

-- What the user's callback says decides; without one the connection goes on. Then a server expects
-- the key exchange, and a client ServerHelloDone.
unfoldable pub user_verdict : Conn → Rc → List ℕ → Option Bool → Step
user_verdict k rc c none = fail alert_bad_certificate k
user_verdict k rc c (some anon) =
    continue
      (set_state (if k.ssl.flags.server then client_key_exchange else server_hello_done)
        (set_ssl k (record (k.ssl) { anon = anon })))
      rc c

-- The check of the chain's end: an invalid one is left to the callback, if there is one.
unfoldable pub end_verdict : Env → Conn → Rc → List ℕ → Option Bool → Step
end_verdict env k rc c none = fail alert_bad_certificate k
end_verdict env k rc c (some valid) =
    if not valid && not env.has_validator
    then fail alert_bad_certificate k
    else user_verdict k rc c
        (if env.has_validator then env.user_validate k.ssl.certs else some false)

-- The checks on the chain, and the state after it.
unfoldable pub check_chain : Env → Conn → Rc → List ℕ → Step
check_chain env k rc c =
    if not (env.validate_chain k.ssl.certs)
    then fail alert_bad_certificate k
    else end_verdict env k rc c (env.validate_cert k.ssl.certs)

-- What follows the loop. The client's buffer for the premaster secret holds no defined bytes yet;
-- they are zeros here.
unfoldable pub after_chain : Env → Conn → Rc → Chain → Step
after_chain env k rc overread = fault
after_chain env k rc (bad_chain alert certs) =
    fail alert (set_ssl k (record (k.ssl) { certs = stored_certs k certs }))
after_chain env k rc (chain certs rest) =
    check_chain env (set_ssl k (record (k.ssl) { certs = stored_certs k certs })) rc rest

abbrev pub with_premaster : Conn → Conn
with_premaster k =
    if k.ssl.flags.server
    then k
    else set_ssl k (record (k.ssl) { premaster = some (replicate 48 0) })

-- The list of certificates, of `n` bytes.
unfoldable pub read_certificates : Env → Conn → Rc → ℕ → List ℕ → Step
read_certificates env k rc n c =
    let no_certs =
      if k.ssl.maj_ver == 3 && k.ssl.min_ver == 0
      then alert_no_certificate
      else alert_bad_certificate in
    if n == 0
    then fail no_certs k
    else if ltb (length c) 3
    then fail alert_illegal_parameter k
    else after_chain env (with_premaster k) rc (read_chain env n n [] c)

unfoldable pub handle_certificate : Env → Conn → Rc → List ℕ → Step
handle_certificate env k rc c = elim (get_u24 c) [
  | none ↦ fail alert_illegal_parameter k
  | some (n, rest) ↦ read_certificates env k rc n rest
]

unfoldable pub handle_server_hello_done : Conn → ℕ → List ℕ → Step
handle_server_hello_done k hs_len c =
    if not (hs_len == 0)
    then fail alert_bad_certificate k
    else continue (set_state finished k) process_data c

-- Is RSA_SIGN among the certificate types?
unfoldable pub accepts_rsa : List ℕ → Bool
accepts_rsa [] = false
accepts_rsa (x ∷ c) = x == 1 || accepts_rsa c

-- The names of the authorities: a length of two bytes before each, read unchecked as above.
unfoldable pub read_names : ℕ → ℕ → List ℕ → Chain
read_names zero left c = chain [] c
read_names (suc fuel) left c = if left == 0 then chain [] c else elim (get_u16 c) [
  | none ↦ overread
  | some (n, rest) ↦
      if ltb (length rest) n
      then bad_chain alert_illegal_parameter []
      else read_names fuel (left - (2 + n)) (drop n rest)
]

unfoldable pub after_names : Conn → Rc → Chain → Step
after_names k rc overread = fault
after_names k rc (bad_chain alert certs) = fail alert k
after_names k rc (chain certs rest) = continue (set_state server_hello_done k) rc rest

unfoldable pub read_authorities : Conn → Rc → List ℕ → Step
read_authorities k rc c = elim (get_u16 c) [
  | none ↦ fault
  | some (n, rest) ↦
      if ltb (length rest) n
      then fail alert_illegal_parameter k
      else after_names (set_ssl k (record (k.ssl) { cert_match = 0 })) rc (read_names n n rest)
]

unfoldable pub handle_certificate_request : Conn → Rc → ℕ → List ℕ → Step
handle_certificate_request k rc hs_len [] =
    if ltb hs_len 4 then fail alert_illegal_parameter k else fault
handle_certificate_request k rc hs_len (n ∷ c) =
    if ltb hs_len 4
    then fail alert_illegal_parameter k
    else if ltb (length c) n
    then fail alert_illegal_parameter k
    else if not (accepts_rsa (take n c))
    then fail alert_unsupported_certificate k
    else read_authorities k rc (drop n c)
