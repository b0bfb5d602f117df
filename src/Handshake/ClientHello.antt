-- ===== src/Handshake/ClientHello.antt =====
-- The server's handling of a ClientHello, in the form of SSLv3 and in that of SSLv2.
use robin_mesh_v.Prelude.{
  ℕ, ◌+◌, ◌-◌, ◌*◌, ◌%◌, ◌^◌, Bool, true, false, ◌&&◌, ◌||◌, not, Option, none, some, List, [], ◌∷◌,
  ◌++◌, ltb, ◌==◌, if◌then◌else◌, length, take, drop, replicate,
}
use robin_mesh_v.Cipher.{CipherSpec, null_spec, null_id, get_cipher_spec}
use robin_mesh_v.Ssl.{Ssl}
use robin_mesh_v.Session.{resume_session}
use robin_mesh_v.Handshake.Base.{
  Env, Conn, process_data, Step, continue, fault, fail, set_ssl, set_resumed, set_state, get_u16,
  client_key_exchange, finished, alert_illegal_parameter, alert_handshake_failure,
}

-- The loop over the suites of an SSLv3 hello, two bytes each: the connection's suite after it and
-- the last suite number read. A resumed session looks for its own suite; `none` is its missing.
unfoldable pub pick_suite : Bool → Option CipherSpec → ℕ → List ℕ → Option (Option CipherSpec × ℕ)
pick_suite resumed current last (a ∷ b ∷ rest) =
    let id = a * 2 ^ 8 + b in
    let more = pick_suite resumed current id rest in
    let more' = pick_suite resumed none id rest in
    if resumed
    then elim current [ none ↦ none | some c ↦ if c.id == id then some (some c, id) else more ]
    else elim (get_cipher_spec id) [ some c ↦ some (some c, id) | none ↦ more' ]
pick_suite resumed current last rest = some (current, last)

-- The loop over the suites of an SSLv2 hello, three bytes each.
unfoldable pub pick_suite_v2 : Option CipherSpec → List ℕ → Option CipherSpec
pick_suite_v2 current (a ∷ b ∷ c ∷ rest) =
    let more = pick_suite_v2 none rest in
    elim (get_cipher_spec (a * 2 ^ 16 + b * 2 ^ 8 + c)) [ some s ↦ some s | none ↦ more ]
pick_suite_v2 current rest = current

-- The ClientHello must be the last message in its record; the next state depends on resumption.
unfoldable pub end_hello : Conn → List ℕ → Step
end_hello k [] =
    continue (set_state (if k.ssl.flags.resumed then finished else client_key_exchange) k)
      process_data []
end_hello k (x ∷ c) = fail alert_illegal_parameter k

-- The extensions that a TLS client may add: a length, and bytes that are skipped.
unfoldable pub skip_extensions : Conn → List ℕ → Step
skip_extensions k [] = end_hello k []
skip_extensions k (x ∷ c) = elim (get_u16 (x ∷ c)) [
  | none ↦ fail alert_illegal_parameter k
  | some (n, rest) ↦
      if ltb (length rest) n then fail alert_illegal_parameter k else end_hello k (drop n rest)
]

-- The compression methods.
unfoldable pub skip_compression : Conn → List ℕ → Step
skip_compression k [] = fail alert_illegal_parameter k
skip_compression k (n ∷ c) =
    if ltb (length c) n
    then fail alert_illegal_parameter k
    else if k.ssl.req_min_ver == 0 && not (n == 1)
    then fail alert_illegal_parameter k
    else skip_extensions k (drop n c)

abbrev pub set_cipher : Option CipherSpec → Conn → Conn
set_cipher c k = record k { ssl = record (k.ssl) { cipher = c } }

-- The suite that was picked must be a real one, and the last one read.
unfoldable pub check_suite : Conn → Option (Option CipherSpec × ℕ) → List ℕ → Step
check_suite k none rest = fault
check_suite k (some (none, last)) rest =
    fail alert_handshake_failure (set_cipher (some null_spec) k)
check_suite k (some (some c, last)) rest =
    if not (c.id == last) || last == null_id
    then fail alert_handshake_failure (set_cipher (some null_spec) k)
    else skip_compression (set_cipher (some c) k) rest

-- The list of suites: its length, not zero and even, and its bytes.
unfoldable pub read_suites : Conn → List ℕ → Step
read_suites k c = elim (get_u16 c) [
  | none ↦ fail alert_illegal_parameter k
  | some (n, rest) ↦
      if n == 0 || n % 2 == 1
      then fail alert_illegal_parameter k
      else if ltb (length rest) n
      then fail alert_illegal_parameter k
      else check_suite k (pick_suite k.ssl.flags.resumed k.ssl.cipher 0 (take n rest)) (drop n rest)
]

-- The lookup of a session id that the client sent.
unfoldable pub look_up : Env → Conn → Conn
look_up env k =
    let r = resume_session env.now k.ssl k.table in
    elim r.ret [
      | some i ↦ record {
        ssl = record (r.ssl) {
          flags = record (r.ssl.flags) { client_auth = false; resumed = true };
        };
        table = r.table;
      }
      | none ↦ record {
        ssl = record (r.ssl) { session_id = replicate 32 0; session_id_len = 0 };
        table = r.table;
      }
    ]

-- The `n` bytes of the session id, written over the first bytes of `ssl->sessionId`.
unfoldable pub read_session_id : Env → Conn → ℕ → List ℕ → Step
read_session_id env k n c =
    let s = k.ssl in
    let k' = set_ssl k (record s { session_id_len = n }) in
    if n == 0
    then read_suites (set_resumed false k') c
    else if ltb 32 n || ltb (length c) n
    then fail alert_illegal_parameter k'
    else read_suites
        (look_up env
          (set_ssl k' (record (k'.ssl) { session_id = take n c ++ drop n s.session_id })))
        (drop n c)

-- The 32 random bytes and the length of the session id.
unfoldable pub read_random : Env → Conn → List ℕ → Step
read_random env k c =
    let k' = set_ssl k (record (k.ssl) { client_random = take 32 c }) in
    elim (drop 32 c) [
      | [] ↦ fail alert_illegal_parameter k
      | n ∷ rest ↦ read_session_id env k' n rest
    ]

-- The SSLv2 form once its suite is picked: the challenge fills the last bytes of the random.
unfoldable pub end_v2 : Conn → Option CipherSpec → ℕ → List ℕ → Step
end_v2 k none challenge_len c = fail alert_handshake_failure (set_cipher (some null_spec) k)
end_v2 k (some s) challenge_len c =
    let random = replicate (32 - challenge_len) 0 ++ take challenge_len c in
    if s.id == null_id
    then fail alert_handshake_failure (set_cipher (some null_spec) k)
    else end_hello (set_ssl k (record (k.ssl) { cipher = some s; client_random = random }))
        (drop challenge_len c)

-- The SSLv2 form, behind its three lengths.
unfoldable pub read_v2_body : Conn → ℕ → ℕ → List ℕ → Step
read_v2_body k suite_len challenge_len c =
    end_v2 k (pick_suite_v2 k.ssl.cipher (take suite_len c)) challenge_len (drop suite_len c)

-- The session id's length is kept in one byte, so only the second of its two bytes counts.
unfoldable pub read_v2 : Conn → List ℕ → Step
read_v2 k (s1 ∷ s0 ∷ i1 ∷ i0 ∷ h1 ∷ h0 ∷ c) =
    let suite_len = s1 * 2 ^ 8 + s0 in
    let challenge_len = h1 * 2 ^ 8 + h0 in
    let k' = set_ssl k (record (k.ssl) { session_id_len = i0 % 2 ^ 8 }) in
    if suite_len == 0 || not (suite_len % 3 == 0)
    then fail alert_illegal_parameter k
    else if not (i0 == 0)
    then fail alert_illegal_parameter k'
    else if ltb challenge_len 16 || ltb 32 challenge_len
    then fail alert_illegal_parameter k'
    else if not (length c == suite_len + challenge_len)
    then fail alert_illegal_parameter k'
    else read_v2_body k' suite_len challenge_len c
read_v2 k c = fail alert_illegal_parameter k

-- The whole message. The major version asked for is taken over, with minor version 0.
unfoldable pub handle_client_hello : Env → Conn → List ℕ → Step
handle_client_hello env k (major ∷ minor ∷ c) =
    let s : Ssl = record (k.ssl) { req_maj_ver = major; req_min_ver = minor } in
    let k' = set_ssl k (record s { maj_ver = major; min_ver = 0 }) in
    if ltb major 3
    then fail alert_handshake_failure (set_ssl k s)
    else if ltb 2 k.ssl.rec.maj_ver
    then read_random env k' c
    else read_v2 k' c
handle_client_hello env k c = fail alert_illegal_parameter k
