-- ===== src/Encode/Writers.antt =====
-- The messages that sslEncode.c writes, one function for each.
use robin_mesh_v.Prelude.{
  ℕ, ◌+◌, ◌*◌, ◌/◌, ◌%◌, ◌^◌, Bool, true, Option, none, some, List, [], ◌∷◌, ◌++◌, ltb, ◌==◌,
  if◌then◌else◌, length, take, drop,
}
use robin_mesh_v.Cipher.{CipherSpec, null_id, get_cipher_spec_list}
use robin_mesh_v.Ssl.{Ssl}
use robin_mesh_v.Session.{register_session}
use robin_mesh_v.Handshake.Base.{
  Env, Conn, set_ssl, server_hello, certificate, server_hello_done, client_key_exchange, finished,
}
use robin_mesh_v.Handshake.KeyExchange.{derive_keys, activate_public_cipher}
use robin_mesh_v.Record.{handshake_record, change_cipher_spec, alert_record}
use robin_mesh_v.Record.Base.{Buf, Encoded, Status}
use robin_mesh_v.Encode.Base.{
  Sealer, Header, record_head_len, hshake_head_len, write_u24, start_record, seal_record,
  write_record, full_record, failed_record, on_success,
}

-- The certificates of `ssl->keys`, the first its own; the size of the private key; and `time(0)`.
pub record Local : Type 0 where
  pub own_certs : List (List ℕ)
  pub priv_size : ℕ
  pub clock : ℕ

abbrev pub total_length : List (List ℕ) → ℕ
total_length [] = 0
total_length (c ∷ cs) = length c + total_length cs

-- The time's four bytes, and random ones.
abbrev pub make_random : ℕ → List ℕ → List ℕ
make_random clock bytes =
    clock / 2 ^ 24 % 2 ^ 8 ∷ clock / 2 ^ 16 % 2 ^ 8 ∷ clock / 2 ^ 8 % 2 ^ 8 ∷ clock % 2 ^ 8 ∷ bytes

abbrev pub write_u16 : ℕ → List ℕ
write_u16 n = n / 2 ^ 8 % 2 ^ 8 ∷ n % 2 ^ 8 ∷ []

-- The body of a ServerHello.
unfoldable pub server_hello_body : Ssl → ℕ → List ℕ
server_hello_body s id =
    s.maj_ver ∷ s.min_ver ∷ s.server_random
    ++ (s.session_id_len ∷ (take s.session_id_len s.session_id ++ (write_u16 id ++ (0 ∷ []))))

-- The list of a Certificate message; an empty certificate is left out.
unfoldable pub cert_list : List (List ℕ) → List ℕ
cert_list [] = []
cert_list (c ∷ cs) =
    let rest = cert_list cs in
    if ltb 0 (length c) then write_u24 (length c) ++ (c ++ rest) else rest

-- The body of a Certificate message.
unfoldable pub certificate_body : List (List ℕ) → List ℕ
certificate_body certs = write_u24 (total_length certs + 3 * length certs) ++ cert_list certs

-- The suites of a ClientHello: all that are supported, or the one asked for.
unfoldable pub suites_of : ℕ → ℕ → Option (List ℕ)
suites_of id left =
    if id == 0
    then get_cipher_spec_list left
    else if ltb left 4
    then none
    else some (0 ∷ 2 ∷ write_u16 id)

-- The body of a ClientHello: no compression but the null one.
unfoldable pub client_hello_body : Ssl → List ℕ → List ℕ
client_hello_body s suites =
    s.maj_ver ∷ s.min_ver ∷ s.client_random
    ++ (s.session_id_len ∷ (take s.session_id_len s.session_id ++ (suites ++ (1 ∷ 0 ∷ []))))

module _ {X : Type 0} (w : Sealer X) (env : Env) (own : Local) where
  -- `writeServerHello` once the random is there: `matrixRegisterSession` may give it a session id.
  unfoldable pub register_hello : Conn → Conn
  register_hello k =
      if k.ssl.flags.resumed
      then k
      else let r = register_session env.now k.ssl k.table in record { ssl = r.ssl; table = r.table }

  unfoldable pub finish_server_hello : Conn → X → Buf → Option CipherSpec → Option (Encoded X)
  finish_server_hello k x out none = none
  finish_server_hello k x out (some c) = some (
      on_success w
        (write_record w k x out handshake_record server_hello
          (record_head_len + hshake_head_len + 38 + k.ssl.session_id_len)
          (server_hello_body k.ssl c.id))
        (λ j. if j.ssl.flags.resumed then set_ssl j (derive_keys env j.ssl) else j))

  unfoldable pub random_server_hello : Conn → X → Buf → Option (X × List ℕ) → Option (Encoded X)
  random_server_hello k x out none = some (failed_record w k x out)
  random_server_hello k x out (some (x', bytes)) =
      let k' =
        register_hello
          (set_ssl k (record (k.ssl) { server_random = make_random own.clock bytes })) in
      finish_server_hello k' x' out k'.ssl.cipher

  -- `writeServerHello`. The time's bytes are written before the random ones are asked for.
  unfoldable pub write_server_hello : Conn → X → Buf → Option (Encoded X)
  write_server_hello k x out =
      let s = k.ssl in
      random_server_hello
        (set_ssl k (record s { server_random = make_random own.clock (drop 4 s.server_random) })) x
        out (w.entropy x 28)

  -- `writeServerHelloDone`
  unfoldable pub write_server_hello_done : Conn → X → Buf → Option (Encoded X)
  write_server_hello_done k x out = some (
      write_record w k x out handshake_record server_hello_done (record_head_len + hshake_head_len)
        [])

  -- `writeCertificate`
  unfoldable pub write_certificate : Bool → Conn → X → Buf → Option (Encoded X)
  write_certificate not_empty k x out =
      let certs : List (List ℕ) = if not_empty then own.own_certs else [] in
      some (
        write_record w k x out handshake_record certificate
          (record_head_len + hshake_head_len + (3 + length certs * 3) + total_length certs)
          (certificate_body certs))

  -- `sslActivateWriteCipher` on the connection and on the cipher state.
  unfoldable pub activate_write_cipher : Encoded X → Option CipherSpec → Option (Encoded X)
  activate_write_cipher e none = none
  activate_write_cipher e (some c) =
      let s = record (e.conn.ssl) {
        en_mac_size = c.mac_size;
        en_iv_size = c.iv_size;
        en_block_size = c.block_size;
      } in
      if c.id == null_id
      then some (record e { conn = set_ssl e.conn s })
      else some (record e {
        conn = set_ssl e.conn (record s { flags = record (s.flags) { write_secure = true } });
        cx = w.activate_write s c e.cx;
      })

  -- `writeChangeCipherSpec`
  unfoldable pub write_change_cipher_spec : Conn → X → Buf → Option (Encoded X)
  write_change_cipher_spec k x out =
      let e = write_record w k x out change_cipher_spec 0 (record_head_len + 1) (1 ∷ []) in
      elim e.code [ Status.success ↦ activate_write_cipher e e.conn.ssl.cipher | _ ↦ some e ]

  -- `writeFinished`
  unfoldable pub write_finished : Conn → X → Buf → Option (Encoded X)
  write_finished k x out =
      let s = k.ssl in
      some (
        on_success w
          (write_record w k x out handshake_record finished (record_head_len + hshake_head_len + 36)
            (env.finished_hash s.hs_hash s.master_secret s.flags.server))
          (λ j. set_ssl j (record (j.ssl) { certs = [] })))

  -- `writeAlert`
  unfoldable pub write_alert : ℕ → ℕ → Conn → X → Buf → Option (Encoded X)
  write_alert level description k x out =
      some (write_record w k x out alert_record 0 (2 + record_head_len) (level ∷ description ∷ []))

  -- The premaster secret: the version that was asked for, and 46 random bytes.
  unfoldable pub seal_premaster : Conn → X → Buf → Header → Option (List ℕ) → Option (Encoded X)
  seal_premaster k x out h none = some (full_record w k x out)
  seal_premaster k x out h (some bytes) = some (
      on_success w (seal_record w k x out handshake_record h bytes)
        (λ j. set_ssl j (derive_keys env j.ssl)))

  unfoldable pub random_premaster :
      Conn → X → Buf → Header → List ℕ → Option (X × List ℕ) → Option (Encoded X)
  random_premaster k x out h cert none = some (failed_record w k x out)
  random_premaster k x out h cert (some (x', bytes)) =
      let s = k.ssl in
      let secret = s.req_maj_ver ∷ s.req_min_ver ∷ bytes in
      seal_premaster (activate_public_cipher (set_ssl k (record s { premaster = some secret }))) x'
        out h (w.encrypt_pub cert secret)

  unfoldable pub started_key_exchange : Conn → X → Buf → List ℕ → Option Header → Option (Encoded X)
  started_key_exchange k x out cert none = some (full_record w k x out)
  started_key_exchange k x out cert (some h) = elim k.ssl.premaster [
    | none ↦ none
    | some old ↦
        let s = k.ssl in
        random_premaster
          (set_ssl k (record s { premaster = some (s.req_maj_ver ∷ s.req_min_ver ∷ drop 2 old) })) x
          out h cert (w.entropy x 46)
  ]

  -- `writeClientKeyExchange`, for the server's certificate.
  unfoldable pub write_client_key_exchange : Conn → X → Buf → Option (Encoded X)
  write_client_key_exchange k x out = elim k.ssl.certs [
    | [] ↦ none
    | cert ∷ _ ↦ started_key_exchange k x out cert (
        start_record k.ssl handshake_record client_key_exchange
          (record_head_len + hshake_head_len + w.public_size cert) out.room)
  ]
