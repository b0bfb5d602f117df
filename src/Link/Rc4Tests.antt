-- ===== src/Link/Rc4Tests.antt =====
-- Two payloads over a connection with RC4 and MD5.
use robin_mesh_v.Prelude.{ℕ, true, false, none, List, [], ◌∷◌, replicate}
use robin_mesh_v.Ssl.{Ssl}
use robin_mesh_v.Session.{open_table}
use robin_mesh_v.Sample.{server, plain_flags}
use robin_mesh_v.Arc4.{Arc4}
use robin_mesh_v.Handshake.Base.{Conn}
use robin_mesh_v.Record.Base.{Wire, Decoder}
use robin_mesh_v.Encode.Base.{Sealer}
use robin_mesh_v.Encode.Writers.{Local}
use robin_mesh_v.Keys.{Sec}

abbrev context : Arc4
context = record { state = 1 ∷ 0 ∷ []; byte_count = 0; x = 0; y = 0 }

abbrev keys : Sec
keys = record {
  key_block = [];
  r_mac_ptr = 0;
  w_mac_ptr = 0;
  r_key_ptr = 0;
  w_key_ptr = 0;
  r_iv_ptr = 0;
  w_iv_ptr = 0;
  read_mac = replicate 16 9;
  write_mac = replicate 16 9;
  read_key = [];
  write_key = [];
  read_iv = [];
  write_iv = [];
  rem_seq = replicate 8 0;
  seq = replicate 8 0;
  encrypt_ctx = context;
  decrypt_ctx = context;
}

-- The callbacks that these two ends do not come to.
abbrev other_sealer : Sealer Sec
other_sealer = record {
  generate_mac = λ s x ty plain. ([], x);
  encrypt = λ s x plain. none;
  activate_write = λ s c x. x;
  encrypt_pub = λ cert bytes. none;
  public_size = λ cert. 0;
  entropy = λ x n. none;
}

abbrev other_wire : Wire Sec
other_wire = record {
  decrypt = λ s x bytes. none;
  verify_mac = λ s x t bytes mac. false;
  next_sequence = λ s x. x;
  activate = λ s c x. x;
  encode_client_hello = λ id k x out. none;
  encode_response = λ k x out. none;
}

abbrev writing : Ssl
writing = record server {
  hs_state = 255;
  flags = record plain_flags { write_secure = true; read_secure = true };
  en_mac_size = 16;
  en_block_size = 1;
}

abbrev reading : Ssl
reading = record server {
  hs_state = 255;
  flags = record plain_flags { write_secure = true; read_secure = true; server = false };
  de_mac_size = 16;
  de_block_size = 1;
}

abbrev sender : Conn
sender = record { ssl = writing; table = open_table }

abbrev receiver : Decoder Sec
receiver = record {
  conn = record { ssl = reading; table = open_table };
  cx = keys;
  inp = [];
  out = record { data_bytes = []; room = 0 };
  error = 255;
  alert_level = 0;
  alert_description = 0;
}

abbrev local : Local
local = record { own_certs = []; priv_size = 64; clock = 1000 }

abbrev payloads : List (List ℕ)
payloads = (104 ∷ 105 ∷ []) ∷ (7 ∷ []) ∷ []
