-- ===== src/Record/Tests.antt =====
-- The theorems on the record layer at concrete records.
use robin_mesh_v.Prelude.{ℕ, ◌≡◌, ◌↔◌, refl, arith, true, some, List, [], ◌∷◌, replicate}
use robin_mesh_v.Ssl.{Ssl, Rec}
use robin_mesh_v.Session.{open_table, same_bytes}
use robin_mesh_v.Sample.{server, plain_flags, surroundings}
use robin_mesh_v.Record.{
  open_record, find_mac, matrix_ssl_decode, decode_records, decode_record, take_header, take_body,
  take_decrypted, take_opened, take_record, take_alert, take_application_data, read_record_header,
  read_v3_header, check_header,
}
use robin_mesh_v.Record.Base.{Wire, Decoder, Status, returned}
use robin_mesh_v.Record.Open.{IsSealed, open_record-IsSealed_iff}
use robin_mesh_v.Record.Deliver.{Delivered}
use robin_mesh_v.Record.Run.{
  decode_records-fuel, matrix_ssl_decode-Delivered, matrix_ssl_decode-IsEnd, fatal,
}

-- A cipher that leaves the bytes as they are, whose state counts records, and whose MAC is 20 times
-- the byte 9.
abbrev clear : Wire ℕ
clear = record {
  decrypt = λ s x bytes. some (x, bytes);
  verify_mac = λ s x t bytes mac. same_bytes 20 mac (replicate 20 9);
  next_sequence = λ s x. x;
  activate = λ s c x. 0;
  encode_client_hello =
      λ id k x out. some (record { conn = k; cx = x; out = out; code = Status.success });
  encode_response = λ k x out. some (record { conn = k; cx = x; out = out; code = Status.success });
}

abbrev opened_rec : Rec
opened_rec = record { len = 23; maj_ver = 3; min_ver = 0; rec_type = 23 }

-- A connection that is done and reads with a stream cipher.
abbrev secured : Ssl
secured = record server {
  hs_state = 255;
  flags = record plain_flags { read_secure = true };
  de_mac_size = 20;
  de_block_size = 1;
}

abbrev payload : List ℕ
payload = 1 ∷ 2 ∷ 3 ∷ replicate 20 9

open_record-IsSealed_iff_example :
    (open_record clear (record secured { rec = opened_rec }) 0 payload ≡ some (1 ∷ 2 ∷ 3 ∷ []))
    ↔ IsSealed clear (record secured { rec = opened_rec }) 0 payload (1 ∷ 2 ∷ 3 ∷ [])
open_record-IsSealed_iff_example =
    open_record-IsSealed_iff clear (record secured { rec = opened_rec }) 0 payload (1 ∷ 2 ∷ 3 ∷ [])
      refl (omega arith) refl

abbrev before : Decoder ℕ
before = record {
  conn = record { ssl = secured; table = open_table };
  cx = 0;
  inp = 23 ∷ 3 ∷ 0 ∷ 0 ∷ 23 ∷ payload;
  out = record { data_bytes = []; room = 100 };
  error = 255;
  alert_level = 0;
  alert_description = 0;
}

abbrev after : Decoder ℕ
after = record before {
  conn = record { ssl = record secured { rec = opened_rec }; table = open_table };
  inp = [];
  out = record { data_bytes = 1 ∷ 2 ∷ 3 ∷ []; room = 97 };
}

handed_over : matrix_ssl_decode clear surroundings before ≡ returned after Status.process_data
unfolding matrix_ssl_decode decode_records decode_record take_header take_body take_decrypted
    take_opened take_record take_application_data read_record_header read_v3_header check_header
    open_record find_mac same_bytes
handed_over = refl

matrix_ssl_decode-Delivered_example : Delivered clear before.out after
matrix_ssl_decode-Delivered_example =
    matrix_ssl_decode-Delivered clear surroundings before after handed_over

decode_records-fuel_example :
    decode_records clear 40 surroundings before ≡ decode_records clear 50 surroundings before
decode_records-fuel_example =
    decode_records-fuel clear surroundings 40 50 before (omega arith) (omega arith)

-- The fatal alert 40 on a plain connection.
abbrev refused : Decoder ℕ
refused = record before {
  conn = record { ssl = server; table = open_table };
  inp = 21 ∷ 3 ∷ 0 ∷ 0 ∷ 2 ∷ 2 ∷ 40 ∷ [];
}

abbrev shut : Decoder ℕ
shut = record refused {
  conn = record {
    ssl = record server {
      rec = record { len = 2; maj_ver = 3; min_ver = 0; rec_type = 21 };
      flags = record plain_flags { error = true };
    };
    table = open_table;
  };
  alert_level = 2;
  alert_description = 40;
}

alerted : matrix_ssl_decode clear surroundings refused ≡ returned shut Status.alerted
unfolding matrix_ssl_decode decode_records decode_record take_header take_body take_decrypted
    take_opened take_record take_alert read_record_header read_v3_header check_header open_record
    find_mac
alerted = refl

matrix_ssl_decode-IsEnd_example :
    matrix_ssl_decode clear surroundings (record shut { inp = payload; out = after.out })
    ≡ returned (record shut { inp = payload; out = after.out; error = 255 }) Status.failed
matrix_ssl_decode-IsEnd_example =
    matrix_ssl_decode-IsEnd clear surroundings surroundings refused shut Status.alerted payload
      after.out alerted (fatal refl refl)
