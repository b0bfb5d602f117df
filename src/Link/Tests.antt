-- ===== src/Link/Tests.antt =====
-- The theorems on the two ends of a connection at a concrete pair of ciphers.
use robin_mesh_v.Prelude.{
  ℕ, suc, ◌+◌, ◌-◌, ◌≡◌, refl, sym, ap, ◌∙◌, true, false, none, some, List, [], ◌∷◌, ◌++◌, arith,
  length, map, replicate, length-map, length-replicate, some-injective, inr,
}
use robin_mesh_v.Cipher.{des3_sha, get_cipher_spec_list}
use robin_mesh_v.Ssl.{Ssl}
use robin_mesh_v.Session.{open_table, same_bytes}
use robin_mesh_v.Sample.{server, plain_flags, surroundings}
use robin_mesh_v.Handshake.Base.{Conn, set_ssl, continue, process_data}
use robin_mesh_v.Record.Base.{Wire, Decoder, Buf}
use robin_mesh_v.Encode.{matrix_ssl_encode, encode_response}
use robin_mesh_v.Encode.Base.{Sealer}
use robin_mesh_v.Encode.Writers.{Local, suites_of, client_hello_body}
use robin_mesh_v.Handshake.ClientHello.{handle_client_hello}
use robin_mesh_v.Link.Hello.{any_suite, greeted, handle_client_hello-client_hello_body}
use robin_mesh_v.Link.Peer.{Agree, Paired}
use robin_mesh_v.Link.Data.{IsReceived, matrix_ssl_encode-IsReceived}
use robin_mesh_v.Link.Alert.{IsAlerted, encode_response-IsAlerted}

-- A cipher that adds one to each byte; the MAC is 20 times the sequence number, which is the state.
abbrev bumping : Sealer ℕ
bumping = record {
  generate_mac = λ s x ty plain. (replicate 20 x, x + 1);
  encrypt = λ s x plain. some (x, map suc plain);
  activate_write = λ s c x. 0;
  encrypt_pub = λ cert bytes. some bytes;
  public_size = λ cert. 48;
  entropy = λ x n. some (x, replicate n 7);
}

abbrev unbump : List ℕ → List ℕ
unbump bytes = map (λ b. b - 1) bytes

abbrev unbumping : Wire ℕ
unbumping = record {
  decrypt = λ s x bytes. some (x, unbump bytes);
  verify_mac = λ s x t bytes mac. same_bytes 20 mac (replicate 20 x);
  next_sequence = λ s x. x + 1;
  activate = λ s c x. 0;
  encode_client_hello = λ id k x out. none;
  encode_response = λ k x out. none;
}

unbump-map : (bytes : List ℕ) → unbump (map suc bytes) ≡ bytes
unbump-map [] = refl
unbump-map (b ∷ bytes) =
    let e : suc b - 1 ≡ b = omega arith in
    ap (λ c. c ∷ unbump (map suc bytes)) e ∙ ap (λ q. b ∷ q) (unbump-map bytes)

-- A writer and a reader in the middle of a connection.
abbrev writing : Ssl
writing = record server {
  hs_state = 255;
  flags = record plain_flags { write_secure = true; read_secure = true };
  en_mac_size = 20;
  en_block_size = 8;
}

abbrev reading : Ssl
reading = record server {
  hs_state = 255;
  flags = record plain_flags { write_secure = true; read_secure = true; server = false };
  de_mac_size = 20;
  de_block_size = 8;
}

agreeing : (s : Ssl) → s.en_mac_size ≡ 20 → {top : ℕ} → Agree bumping unbumping s 3 reading 3 top
unfolding same_bytes
agreeing s e = record {
  length_mac = λ ty plain. length-replicate {A = ℕ} 20 3 ∙ sym e;
  length_encrypt = λ x1 x2 plain bytes f.
      ap length (sym (ap (λ p. p.1) (some-injective _ _ f))) ∙ length-map plain suc;
  encrypts = λ ty plain pad l f. ((4, map suc (plain ++ (replicate 20 3 ++ pad))), refl);
  behind = λ ty plain pad. 3;
  opens = λ rec ty plain pad bytes x2 f. (
    ap (λ q. some (3, unbump q)) (sym (ap (λ p. p.1) (some-injective _ _ f)))
        ∙ ap (λ q. some (3, q)) (unbump-map (plain ++ (replicate 20 3 ++ pad))),
    refl,
  );
}

sender-Paired : Paired writing reading
sender-Paired = record {
  major = refl;
  minor = refl;
  known = λ e. absurd (omega arith);
  security = refl;
  mac_size = refl;
  block_size = refl;
  no_mac = λ e. absurd cc;
  no_block = λ e. absurd cc;
  small_mac = omega arith;
  small_block = inr refl;
}

abbrev sender : Conn
sender = record { ssl = writing; table = open_table }

abbrev receiver : Decoder ℕ
receiver = record {
  conn = record { ssl = reading; table = open_table };
  cx = 3;
  inp = [];
  out = record { data_bytes = []; room = 100 };
  error = 255;
  alert_level = 0;
  alert_description = 0;
}

abbrev empty_out : Buf
empty_out = record { data_bytes = []; room = 100 }

abbrev local : Local
local = record { own_certs = []; priv_size = 64; clock = 1000 }

abbrev hello : List ℕ
hello = 104 ∷ 105 ∷ []

matrix_ssl_encode-IsReceived_example :
    IsReceived bumping unbumping surroundings local sender 3 empty_out hello
      (23 ∷ [])
      receiver
      (agreeing writing refl)
      (matrix_ssl_encode bumping surroundings local sender 3 empty_out hello)
matrix_ssl_encode-IsReceived_example =
    matrix_ssl_encode-IsReceived bumping unbumping surroundings local sender 3 empty_out hello
      (23 ∷ []) receiver sender-Paired (agreeing writing refl) refl
      (record { done = refl; no_error = refl; no_close = refl })
      (record { done = refl; no_error = refl; no_close = refl }) refl (omega arith) (omega arith)
      (omega arith) (omega arith)

-- A connection with the error `bad_record_mac`.
abbrev offended : Conn
offended = set_ssl sender (record writing { err = 20 })

encode_response-IsAlerted_example :
    IsAlerted bumping unbumping surroundings local offended 3 empty_out [] receiver 2 20
      (encode_response bumping surroundings local offended 3 empty_out)
encode_response-IsAlerted_example =
    encode_response-IsAlerted bumping unbumping surroundings local offended 3 empty_out [] receiver
      offended-Paired (agreeing (record writing { err = 20 }) refl)
      (record { no_error = refl; no_close = refl; no_encode = refl }) (λ e. absurd (omega arith))
      (omega arith) (omega arith)
  where
    offended-Paired : Paired (record writing { err = 20 }) reading
    offended-Paired = record {
      major = refl;
      minor = refl;
      known = λ e. absurd (omega arith);
      security = refl;
      mac_size = refl;
      block_size = refl;
      no_mac = λ e. absurd cc;
      no_block = λ e. absurd cc;
      small_mac = omega arith;
      small_block = inr refl;
    }

-- The server behind a record of SSL 3, and a client that offers all suites.
abbrev listening : Conn
listening = record { ssl = server; table = open_table }

abbrev offer : List ℕ
offer = 0 ∷ 6 ∷ 0 ∷ 10 ∷ 0 ∷ 5 ∷ 0 ∷ 4 ∷ []

offered : suites_of 0 100 ≡ some offer
unfolding suites_of get_cipher_spec_list
offered = refl

handle_client_hello-client_hello_body_example :
    handle_client_hello surroundings listening (client_hello_body server offer)
    ≡ continue (greeted server des3_sha listening) process_data []
handle_client_hello-client_hello_body_example =
    handle_client_hello-client_hello_body surroundings listening server 0 des3_sha 100 offer
      any_suite (omega arith) offered refl refl (omega arith) (omega arith)
