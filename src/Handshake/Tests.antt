-- ===== src/Handshake/Tests.antt =====
-- The theorems on the handshake at concrete messages.
use robin_mesh_v.Prelude.{
  ℕ, ◌≡◌, refl, arith, true, none, List, [], ◌∷◌, ◌++◌, replicate, take, drop,
}
use robin_mesh_v.Session.{open_table, resume_session, id_index, same_bytes}
use robin_mesh_v.Sample.{server, plain_flags, surroundings}
use robin_mesh_v.Handshake.{
  parse_message, parse_messages, admit_type, begin_hello, read_header, read_v3, dispatch, snapshot,
}
use robin_mesh_v.Handshake.Base.{Conn, success, process_data, continue, finished}
use robin_mesh_v.Handshake.KeyExchange.{handle_finished, after_finished}
use robin_mesh_v.Handshake.ClientHello.{read_session_id}
use robin_mesh_v.Handshake.Hello.{Goes, stale_resumption}
use robin_mesh_v.Handshake.Order.{Stepped, parse_message-Stepped}
use robin_mesh_v.Handshake.Loop.{parse_messages-fuel}

-- A server that waits for the client's Finished on a secure connection.
abbrev waiting : Conn
waiting = record {
  ssl = record server { hs_state = 20; flags = record plain_flags { read_secure = true } };
  table = open_table;
}

abbrev body : List ℕ
body = 0 ∷ 0 ∷ 36 ∷ replicate 36 5

-- The same once the handshake is done.
abbrev ready : Conn
ready = record {
  ssl = record (waiting.ssl) { hs_state = 255; hs_hash = 20 ∷ body };
  table = open_table;
}

accepted :
    parse_message surroundings (20 ∷ body) waiting success (20 ∷ body)
    ≡ continue ready process_data []
unfolding parse_message admit_type begin_hello read_header read_v3 dispatch handle_finished snapshot
    same_bytes after_finished
accepted = refl

parse_message-Stepped_example : Stepped surroundings waiting 20 body ready []
parse_message-Stepped_example =
    parse_message-Stepped surroundings (20 ∷ body) waiting ready success process_data 20 body []
      accepted

parse_messages-fuel_example :
    parse_messages 41 surroundings (20 ∷ body) waiting success (20 ∷ body)
    ≡ parse_messages 60 surroundings (20 ∷ body) waiting success (20 ∷ body)
parse_messages-fuel_example =
    parse_messages-fuel 41 60 surroundings (20 ∷ body) waiting success (20 ∷ body) (omega arith)
      (omega arith)

abbrev idle : Conn
idle = record { ssl = server; table = open_table }

-- Version 3.0, a random, no session id, the suite RC4_SHA, and the null compression.
abbrev hello : List ℕ
hello = 3 ∷ 0 ∷ replicate 32 1 ++ 0 ∷ 0 ∷ 2 ∷ 0 ∷ 5 ∷ 1 ∷ 0 ∷ []

abbrev marked : Conn
marked = record {
  ssl = record server { flags = record plain_flags { resumed = true } };
  table = open_table;
}

-- What follows the length of the session id.
abbrev asking : List ℕ
asking = 0 ∷ 0 ∷ 0 ∷ 0 ∷ 0 ∷ 2 ∷ 0 ∷ 5 ∷ 1 ∷ 0 ∷ []

unknown :
    (resume_session surroundings.now
      (record (marked.ssl) {
        session_id_len = 4;
        session_id = take 4 asking ++ drop 4 marked.ssl.session_id;
      })
      marked.table).ret
    ≡ none
unfolding resume_session id_index open_table
unknown = refl

stale_resumption_example :
    Goes
      (λ k' rc rest.
        (k'.ssl.hs_state ≡ finished) × (k'.ssl.master_secret ≡ marked.ssl.master_secret))
      (read_session_id surroundings marked 4 asking)
stale_resumption_example = stale_resumption surroundings marked 4 asking refl (omega arith) unknown
