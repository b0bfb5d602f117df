-- ===== src/Sample.antt =====
-- Concrete connections, tables and surroundings for the tests of the other modules.
use robin_mesh_v.Prelude.{ℕ, true, false, none, some, List, [], ◌∷◌, replicate, take}
use robin_mesh_v.Cipher.{rc4_sha}
use robin_mesh_v.Ssl.{Ssl, Flags}
use robin_mesh_v.Session.{Time, Table, SessionEntry, empty_entry}
use robin_mesh_v.Handshake.Base.{Env}

abbrev pub noon : Time
noon = record { sec = 1000; usec = 0 }

abbrev pub hour_later : Time
hour_later = record { sec = 4600; usec = 0 }

-- The id that leads to entry 0.
abbrev pub first_id : List ℕ
first_id = 0 ∷ 0 ∷ 0 ∷ 0 ∷ replicate 28 7

abbrev pub plain_flags : Flags
plain_flags = record {
  server = true;
  read_secure = false;
  write_secure = false;
  public_secure = false;
  resumed = false;
  closed = false;
  need_encode = false;
  error = false;
  client_auth = false;
}

-- A server's connection that has negotiated a suite and no session id.
abbrev pub server : Ssl
server = record {
  rec = record { len = 0; maj_ver = 3; min_ver = 0; rec_type = 22 };
  flags = plain_flags;
  hs_state = 1;
  err = 255;
  ignored_message_count = 0;
  req_maj_ver = 3;
  req_min_ver = 0;
  maj_ver = 3;
  min_ver = 0;
  session_id_len = 0;
  session_id = replicate 32 0;
  cipher = some rc4_sha;
  en_mac_size = 0;
  en_iv_size = 0;
  en_block_size = 0;
  de_mac_size = 0;
  de_iv_size = 0;
  de_block_size = 0;
  client_random = replicate 32 6;
  server_random = replicate 32 7;
  master_secret = replicate 48 9;
  premaster = none;
  hs_hash = [];
  certs = [];
  cert_match = 0;
  anon = false;
}

-- The connection of a client that returns with the id of entry 0.
abbrev pub returning : Ssl
returning = record server { session_id_len = 32; session_id = first_id }

-- A session that no connection uses.
abbrev pub idle_entry : SessionEntry
idle_entry = record {
  id = first_id;
  master_secret = replicate 48 3;
  cipher = some rc4_sha;
  maj_ver = 3;
  min_ver = 0;
  flag = 0;
  start_time = noon;
  access_time = noon;
  in_use = 0;
}

abbrev pub idle_table : Table
idle_table = idle_entry ∷ replicate 31 empty_entry

-- A full table whose entry 0 is in use, and accessed before all the others.
abbrev pub stuck_table : Table
stuck_table =
    record idle_entry { in_use = 1 } ∷ replicate 31 (record idle_entry { access_time = hour_later })

abbrev pub surroundings : Env
surroundings = record {
  now = hour_later;
  finished_hash = λ bytes secret sender. replicate 36 5;
  decrypt_premaster = λ suite bytes. some (take 48 bytes);
  make_master = λ premaster client server. take 48 premaster;
  parse_cert = λ bytes. some 1;
  validate_chain = λ chain. true;
  validate_cert = λ chain. some true;
  has_validator = false;
  user_validate = λ chain. none;
}
