-- ===== src/Encode/Tests.antt =====
-- The theorems on the flights of the encoder at concrete connections.
use robin_mesh_v.Prelude.{ℕ, ◌<◌, ◌≡◌, refl, arith, some, [], replicate}
use robin_mesh_v.Cipher.{rc4_sha}
use robin_mesh_v.Session.{open_table}
use robin_mesh_v.Sample.{server, surroundings}
use robin_mesh_v.Handshake.Base.{Conn}
use robin_mesh_v.Record.Base.{Buf}
use robin_mesh_v.Encode.{encode_response, hello_flight_size}
use robin_mesh_v.Encode.Base.{Sealer, full_record, secure_write_additions}
use robin_mesh_v.Encode.Writers.{Local}
use robin_mesh_v.Encode.Flights.{bare, encode_response-full}
use robin_mesh_v.Encode.Halfway.{IsHalfway, encode_response-IsHalfway}

-- The null suite.
abbrev clear : Sealer ℕ
clear = record {
  generate_mac = λ s x ty plain. ([], x);
  encrypt = λ s x plain. some (x, plain);
  activate_write = λ s c x. 0;
  encrypt_pub = λ cert bytes. some bytes;
  public_size = λ cert. 48;
  entropy = λ x n. some (x, replicate n 7);
}

abbrev local : Local
local = record { own_certs = []; priv_size = 64; clock = 1000 }

abbrev sixty : Buf
sixty = record { data_bytes = []; room = 60 }

-- A server that waits for the ClientKeyExchange, and one whose handshake is done.
abbrev waiting : Conn
waiting = record { ssl = record server { hs_state = 16 }; table = open_table }

abbrev complete : Conn
complete = record { ssl = record server { hs_state = 255 }; table = open_table }

no_room :
    encode_response clear surroundings local waiting 0 sixty
    ≡ some (full_record clear waiting 0 sixty)
unfolding encode_response hello_flight_size secure_write_additions
no_room = refl

encode_response-full_example :
    (60 < hello_flight_size (record server { hs_state = 16 }) local)
    × (full_record clear waiting 0 sixty ≡ full_record clear waiting 0 sixty)
encode_response-full_example =
    encode_response-full clear surroundings local waiting 0 sixty
      (full_record clear waiting 0 sixty) (bare 0 0) (omega arith) refl refl no_room refl

encode_response-IsHalfway_example :
    IsHalfway clear surroundings local complete 0 0 0 sixty rc4_sha
      (encode_response clear surroundings local complete 0 sixty)
encode_response-IsHalfway_example =
    encode_response-IsHalfway clear surroundings local complete 0 0 0 sixty rc4_sha refl refl refl
      (omega arith) refl refl refl refl (omega arith)
