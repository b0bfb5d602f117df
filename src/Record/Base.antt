-- ===== src/Record/Base.antt =====
-- The buffers, the ciphers and the results of `matrixSslDecode` of sslDecode.c.
use robin_mesh_v.Prelude.{ℕ, ◌-◌, Bool, true, ◌==◌, if◌then◌else◌, Option, List, length, ◌++◌}
use robin_mesh_v.Cipher.{CipherSpec, null_id}
use robin_mesh_v.Ssl.{Ssl}
use robin_mesh_v.Handshake.Base.{Conn, set_ssl}

-- SSL_SUCCESS, SSL_ERROR, SSL_FULL, SSL_PARTIAL, SSL_SEND_RESPONSE, SSL_PROCESS_DATA, SSL_ALERT.
pub data Status : Type 0 where
  success failed full partial send_response process_data alerted : Status

-- The output buffer: the bytes up to `out->end`, and the room behind them.
pub record Buf : Type 0 where
  pub data_bytes : List ℕ
  pub room : ℕ

-- Bytes written at `out->end`, which is moved behind them.
abbrev pub put : List ℕ → Buf → Buf
put bytes b = record { data_bytes = b.data_bytes ++ bytes; room = b.room - length bytes }

-- What an encoder returns: the connection, the cipher state and the output buffer behind it.
pub record Encoded (X : Type 0) : Type 0 where
  pub conn : Conn
  pub cx : X
  pub out : Buf
  pub code : Status

-- What the decoder calls and this model does not look into: the ciphers, whose state (contexts,
-- keys and sequence numbers) is in `X`, and the encoders of sslEncode.c. `decrypt` is `none` for a
-- negative return; `verify_mac` is given the record's type, the data and the MAC; `activate` is what
-- `sslActivateReadCipher` does to the cipher state. An encoder's `none` is an access through a null
-- pointer.
pub record Wire (X : Type 0) : Type 0 where
  pub decrypt : Ssl → X → List ℕ → Option (X × List ℕ)
  pub verify_mac : Ssl → X → ℕ → List ℕ → List ℕ → Bool
  pub next_sequence : Ssl → X → X
  pub activate : Ssl → CipherSpec → X → X
  pub encode_client_hello : ℕ → Conn → X → Buf → Option (Encoded X)
  pub encode_response : Conn → X → Buf → Option (Encoded X)

-- The arguments of `matrixSslDecode`: the connection, the cipher state, the bytes from `in->start`
-- to `in->end`, the output buffer, and the three bytes that it writes.
pub record Decoder (X : Type 0) : Type 0 where
  pub conn : Conn
  pub cx : X
  pub inp : List ℕ
  pub out : Buf
  pub error : ℕ
  pub alert_level : ℕ
  pub alert_description : ℕ

-- How one record ends: `goto decodeMore`, `goto encodeResponse`, a return, or an access through a
-- null pointer or outside the record.
pub data Next (X : Type 0) : Type 0 where
  again : Decoder X → Next X
  respond : Decoder X → Next X
  give : Decoder X → Status → Next X
  broken : Next X

-- What the whole call returns.
pub data Answer (X : Type 0) : Type 0 where
  returned : Decoder X → Status → Answer X
  crashed : Answer X

module _ {X : Type 0} where
  abbrev pub with_conn : Decoder X → Conn → Decoder X
  with_conn d k = record d { conn = k }

  -- `ssl->err = alert; goto encodeResponse;`
  abbrev pub refuse : ℕ → Decoder X → Next X
  refuse alert d =
      respond (record d { conn = record (d.conn) { ssl = record (d.conn.ssl) { err = alert } } })

-- `sslActivateReadCipher` on the connection: the sizes of the suite, and secure reading unless it is
-- the null suite.
unfoldable pub activate_read_cipher : CipherSpec → Conn → Conn
activate_read_cipher c k =
    let s = record (k.ssl) {
      de_mac_size = c.mac_size;
      de_iv_size = c.iv_size;
      de_block_size = c.block_size;
    } in
    if c.id == null_id
    then set_ssl k s
    else set_ssl k (record s { flags = record (k.ssl.flags) { read_secure = true } })
