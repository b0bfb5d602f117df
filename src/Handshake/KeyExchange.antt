-- ===== src/Handshake/KeyExchange.antt =====
-- The messages that end a handshake: the ClientKeyExchange that a server reads, and Finished.
use robin_mesh_v.Prelude.{
  ℕ, Bool, true, ◌&&◌, ◌||◌, not, Option, none, some, List, [], ltb, ◌==◌, if◌then◌else◌, length,
  get_or, take, drop,
}
use robin_mesh_v.Cipher.{null_id}
use robin_mesh_v.Ssl.{Ssl, Flags}
use robin_mesh_v.Session.{update_session, same_bytes}
use robin_mesh_v.Handshake.Base.{
  Env, Conn, Rc, process_data, Step, continue, fail, set_ssl, set_flags, set_state, finished,
  hs_done, alert_illegal_parameter, alert_unexpected_message,
}

-- `sslActivatePublicCipher`
unfoldable pub activate_public_cipher : Conn → Conn
activate_public_cipher k = elim k.ssl.cipher [
  | none ↦ k
  | some c ↦
      if c.id == null_id then k else set_flags k (record (k.ssl.flags) { public_secure = true })
]

-- `sslDeriveKeys`, as far as it changes the master secret: that of a resumed session is kept. The
-- key block that it also makes is a function of the master secret and the two randoms.
unfoldable pub derive_keys : Env → Ssl → Ssl
derive_keys env s = if s.flags.resumed then s else elim s.premaster [
  | none ↦ s
  | some m ↦ record s {
    master_secret = env.make_master m s.client_random s.server_random;
    premaster = none;
  }
]

-- The first two bytes of the premaster secret are the version that the client asked for; a client
-- that asked for TLS may put the negotiated minor version.
unfoldable pub version_ok : Ssl → List ℕ → Bool
version_ok s m =
    get_or m 0 0 == s.req_maj_ver
    && (get_or m 1 0 == s.req_min_ver || not (ltb s.req_min_ver 1) && get_or m 1 0 == s.min_ver)

-- A premaster secret of the right size and version leads to the keys, and into the cached session.
-- Where the decryption fails, the contents of the premaster's buffer are undefined, and not modelled.
unfoldable pub accept_premaster : Env → Conn → Rc → Option (List ℕ) → List ℕ → Step
accept_premaster env k rc none c = fail alert_illegal_parameter k
accept_premaster env k rc (some m) c =
    let s = derive_keys env (record (k.ssl) { premaster = some m }) in
    let r = update_session s k.table in
    if not (length m == 48)
    then fail alert_illegal_parameter k
    else if not (version_ok k.ssl m)
    then fail alert_illegal_parameter (set_ssl k (record (k.ssl) { premaster = some m }))
    else continue (set_state finished (record { ssl = r.ssl; table = r.table })) rc c

unfoldable pub handle_client_key_exchange : Env → Conn → Rc → ℕ → List ℕ → Step
handle_client_key_exchange env k rc hs_len c =
    if ltb (length c) hs_len
    then fail alert_illegal_parameter k
    else accept_premaster env (activate_public_cipher k) rc
        (env.decrypt_premaster k.ssl.cipher (take hs_len c)) (drop hs_len c)

-- What the side that receives Finished has to send: a server after a full handshake, and a client
-- after a resumed one, has its own ChangeCipherSpec and Finished to write.
unfoldable pub after_finished : Flags → Rc → Rc
after_finished f rc =
    if f.server
    then (if f.resumed then rc else process_data)
    else (if f.resumed then process_data else rc)

-- `hash` is the hash of the messages before this one.
unfoldable pub handle_finished : List ℕ → Conn → Rc → ℕ → List ℕ → Step
handle_finished hash k rc hs_len c =
    if not k.ssl.flags.read_secure
    then fail alert_unexpected_message k
    else if not (hs_len == 36)
    then fail alert_illegal_parameter k
    else if ltb (length c) hs_len
    then fail alert_illegal_parameter k
    else if not (same_bytes hs_len c hash)
    then fail alert_illegal_parameter k
    else continue (record k { ssl = record (k.ssl) { hs_state = hs_done; certs = [] } })
        (after_finished k.ssl.flags rc) (drop hs_len c)
