-- ===== src/Link/Hello.antt =====
-- A new client's ClientHello, as sslEncode.c writes it and sslDecode.c reads it.
use robin_mesh_v.Prelude.{
  ℕ, ◌≤◌, ◌≡◌, refl, sym, ap, ◌∙◌, subst, Bool, true, false, not, ◌&&◌, some, some-injective, List,
  [], ◌∷◌, ◌++◌, arith, ltb, ◌==◌, length, take, drop, take-append, drop-append,
}
use robin_mesh_v.Cipher.{
  CipherSpec, des3_sha, rc4_sha, rc4_md5, get_cipher_spec, get_cipher_spec_list,
}
use robin_mesh_v.Cipher.Suites.{get_cipher_spec_list-same}
use robin_mesh_v.Ssl.{Ssl}
use robin_mesh_v.Handshake.Base.{
  Env, Conn, process_data, Step, continue, set_ssl, client_key_exchange,
}
use robin_mesh_v.Handshake.ClientHello.{
  pick_suite, end_hello, skip_extensions, skip_compression, check_suite, read_suites,
  read_session_id, read_random, handle_client_hello,
}
use robin_mesh_v.Encode.Writers.{suites_of, client_hello_body}

-- The argument of `matrixSslEncodeClientHello`, and the suite that the server settles on: the first of
-- the table for 0.
pub data Asks : ℕ → CipherSpec → Type 0 where
  any_suite : Asks 0 des3_sha
  des3_sha_only : Asks 10 des3_sha
  rc4_sha_only : Asks 5 rc4_sha
  rc4_md5_only : Asks 4 rc4_md5

-- The server's connection when it has taken the hello of a client with the connection `s`.
abbrev pub greeted : Ssl → CipherSpec → Conn → Conn
greeted s c k = set_ssl k (record (k.ssl) {
  req_maj_ver = s.maj_ver;
  req_min_ver = s.min_ver;
  maj_ver = s.maj_ver;
  min_ver = 0;
  client_random = s.client_random;
  session_id_len = 0;
  flags = record (k.ssl.flags) { resumed = false };
  cipher = some c;
  hs_state = client_key_exchange;
})

and_false : (b : Bool) → (b && false) ≡ false
and_false true = refl
and_false false = refl

module _ (env : Env) (k : Conn) (s : Ssl) where
  -- The connection behind the session id.
  abbrev asked : Conn
  asked = set_ssl k (record (k.ssl) {
    req_maj_ver = s.maj_ver;
    req_min_ver = s.min_ver;
    maj_ver = s.maj_ver;
    min_ver = 0;
    client_random = s.client_random;
    session_id_len = 0;
    flags = record (k.ssl.flags) { resumed = false };
  })

  skipped :
      (c : CipherSpec)
      → skip_compression
          (record asked { ssl = record (asked.ssl) { cipher = some c } })
          (1 ∷ 0 ∷ [])
        ≡ continue (greeted s c k) process_data []
  unfolding skip_compression skip_extensions end_hello
  skipped c =
      let null_only : (s.min_ver == 0 && not (1 == 1)) ≡ false = and_false (s.min_ver == 0) in
      rw null_only refl

  given :
      {q : List ℕ} {t : Step} (suites : List ℕ)
      → some q ≡ some suites
      → read_suites asked (q ++ (1 ∷ 0 ∷ [])) ≡ t
      → read_suites asked (suites ++ (1 ∷ 0 ∷ [])) ≡ t
  given {q} {t} suites e =
      subst (λ p. read_suites asked (p ++ (1 ∷ 0 ∷ [])) ≡ t) (some-injective q suites e)

  read_suites-Asks :
      (id : ℕ) (c : CipherSpec) (suites : List ℕ)
      → Asks id c
      → suites_of id 8 ≡ some suites
      → read_suites asked (suites ++ (1 ∷ 0 ∷ [])) ≡ continue (greeted s c k) process_data []
  unfolding read_suites pick_suite check_suite get_cipher_spec suites_of get_cipher_spec_list
  read_suites-Asks id c suites any_suite e = given suites e (skipped des3_sha)
  read_suites-Asks id c suites des3_sha_only e = given suites e (skipped des3_sha)
  read_suites-Asks id c suites rc4_sha_only e = given suites e (skipped rc4_sha)
  read_suites-Asks id c suites rc4_md5_only e = given suites e (skipped rc4_md5)

  suites_of-same :
      (id : ℕ) (c : CipherSpec) (left : ℕ)
      → Asks id c
      → 8 ≤ left
      → suites_of id left ≡ suites_of id 8
  unfolding suites_of
  suites_of-same id c left any_suite h = get_cipher_spec_list-same left h
  suites_of-same id c left des3_sha_only h = let e : ltb left 4 ≡ false = ground arith in rw e refl
  suites_of-same id c left rc4_sha_only h = let e : ltb left 4 ≡ false = ground arith in rw e refl
  suites_of-same id c left rc4_md5_only h = let e : ltb left 4 ≡ false = ground arith in rw e refl

  -- What follows the versions.
  abbrev body : List ℕ → List ℕ
  body suites = s.client_random ++ (0 ∷ (suites ++ (1 ∷ 0 ∷ [])))

  read_random-body :
      (suites : List ℕ)
      → length s.client_random ≡ 32
      → read_random env
          (set_ssl k (record (k.ssl) {
            req_maj_ver = s.maj_ver;
            req_min_ver = s.min_ver;
            maj_ver = s.maj_ver;
            min_ver = 0;
          }))
          (body suites)
        ≡ read_suites asked (suites ++ (1 ∷ 0 ∷ []))
  unfolding read_random read_session_id
  read_random-body suites e =
      let tail = 0 ∷ (suites ++ (1 ∷ 0 ∷ [])) in
      let front : take 32 (body suites) ≡ s.client_random =
        ap (λ n. take n (body suites)) (sym e) ∙ take-append s.client_random tail in
      let back : drop 32 (body suites) ≡ tail =
        ap (λ n. drop n (body suites)) (sym e) ∙ drop-append s.client_random tail in
      rw (read_random, back, front) refl

  -- A server accepts the ClientHello of a new client of SSL 3, for any suite of the table or all of them,
  -- when it comes in an SSL 3 record: it takes the versions, the random and the suite over, the first of
  -- the table for all of them, expects the key exchange next, and asks for its answer to be encoded.
  pub handle_client_hello-client_hello_body :
      (id : ℕ) (c : CipherSpec) (left : ℕ) (suites : List ℕ)
      → Asks id c
      → 8 ≤ left
      → suites_of id left ≡ some suites
      → s.session_id_len ≡ 0
      → length s.client_random ≡ 32
      → 3 ≤ s.maj_ver
      → 3 ≤ k.ssl.rec.maj_ver
      → handle_client_hello env k (client_hello_body s suites)
        ≡ continue (greeted s c k) process_data []
  unfolding handle_client_hello client_hello_body
  handle_client_hello-client_hello_body id c left suites a h e z n v r =
      let modern : ltb s.maj_ver 3 ≡ false = ground arith in
      let record_3 : ltb 2 k.ssl.rec.maj_ver ≡ true = ground arith in
      rw (z, modern, record_3)
        (read_random-body suites n
          ∙ read_suites-Asks id c suites a (sym (suites_of-same id c left a h) ∙ e))
