-- ===== src/Ssl.antt =====
-- The connection state `ssl_t` of matrixInternal.h, as far as sessions, records and handshakes
-- read and write it.
use robin_mesh_v.Prelude.{ℕ, Bool, Option, List}
use robin_mesh_v.Cipher.{CipherSpec}

-- `sslRec_t`: the header of the current record.
pub record Rec : Type 0 where
  pub len : ℕ
  pub maj_ver : ℕ
  pub min_ver : ℕ
  pub rec_type : ℕ

-- The bits of `flags`, one field for each SSL_FLAGS_ constant.
pub record Flags : Type 0 where
  pub server : Bool
  pub read_secure : Bool
  pub write_secure : Bool
  pub public_secure : Bool
  pub resumed : Bool
  pub closed : Bool
  pub need_encode : Bool
  pub error : Bool
  pub client_auth : Bool

-- The fields of `ssl_t` and of its `sslSec_t` (from `client_random` on). Bytes and lists of bytes
-- are numbers below 256; `hs_hash` holds what has gone into the two handshake hash contexts, which
-- are functions of it. `cipher` is a pointer into the table of suites, or NULL.
pub record Ssl : Type 0 where
  pub rec : Rec
  pub flags : Flags
  pub hs_state : ℕ
  pub err : ℕ
  pub ignored_message_count : ℕ
  pub req_maj_ver : ℕ
  pub req_min_ver : ℕ
  pub maj_ver : ℕ
  pub min_ver : ℕ
  pub session_id_len : ℕ
  pub session_id : List ℕ
  pub cipher : Option CipherSpec
  pub en_mac_size : ℕ
  pub en_iv_size : ℕ
  pub en_block_size : ℕ
  pub de_mac_size : ℕ
  pub de_iv_size : ℕ
  pub de_block_size : ℕ
  pub client_random : List ℕ
  pub server_random : List ℕ
  pub master_secret : List ℕ
  pub premaster : Option (List ℕ)
  pub hs_hash : List ℕ
  pub certs : List (List ℕ)
  pub cert_match : ℕ
  pub anon : Bool
