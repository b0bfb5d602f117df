-- ===== src/Link/Exchange.antt =====
-- Any number of application records over a suite with RC4, one after the other.
use robin_mesh_v.Prelude.{
  ℕ, ◌+◌, ◌^◌, ◌≤◌, ◌≡◌, true, false, Option, none, some, List, [], ◌∷◌, length,
}
use robin_mesh_v.Handshake.Base.{Env, Conn}
use robin_mesh_v.Record.{matrix_ssl_decode}
use robin_mesh_v.Record.Base.{Wire, Buf, Decoder, Status, Answer, returned}
use robin_mesh_v.Encode.{matrix_ssl_encode}
use robin_mesh_v.Encode.Base.{Sealer}
use robin_mesh_v.Encode.Writers.{Local}
use robin_mesh_v.Keys.{Sec}
use robin_mesh_v.Keys.Suites.{InStep}
use robin_mesh_v.Link.Peer.{Paired}
use robin_mesh_v.Link.Data.{IsOpen}

abbrev pub empty : ℕ → Buf
empty room = record { data_bytes = []; room = room }

abbrev pub taken : Option (List (List ℕ)) → List ℕ → Option (List (List ℕ))
taken none p = none
taken (some payloads) p = some (p ∷ payloads)

-- What an application gets out of one call, and out of the later ones.
abbrev pub received :
    {Y : Type 0} → Answer Y → (Decoder Y → Option (List (List ℕ))) → Option (List (List ℕ))
received (returned after Status.process_data) later = taken (later after) after.out.data_bytes
received _ later = none

-- One application writes each payload with `matrixSslEncode` into an empty buffer, and the other reads
-- what has been written with `matrixSslDecode`.
unfoldable pub exchange :
    {X Y : Type 0}
    → Sealer X
    → Wire Y
    → Env
    → Local
    → ℕ
    → Conn
    → X
    → Decoder Y
    → List (List ℕ)
    → Option (List (List ℕ))
exchange w r env own room k x d [] = some []
exchange w r env own room k x d (p ∷ ps) =
    let e = matrix_ssl_encode w env own k x (empty room) p in
    received (matrix_ssl_decode r env (record d { inp = e.out.data_bytes; out = empty room }))
      (λ after. exchange w r env own room e.conn e.cx after ps)

abbrev pub ArePayloads : List (List ℕ) → Type 0
ArePayloads [] = Unit
ArePayloads (p ∷ ps) = (1 ≤ length p) × (length p ≤ 2 ^ 14) × ArePayloads ps

-- Two open ends of a connection with RC4 and a MAC of `n` bytes.
pub record IsSession (n : ℕ) (k : Conn) (x : Sec) (d : Decoder Sec) : Type 0 where
  pub step : InStep n x d.cx
  pub paired : Paired k.ssl d.conn.ssl
  pub secure : k.ssl.flags.write_secure ≡ true
  pub writer : IsOpen k.ssl
  pub reader : IsOpen d.conn.ssl
  pub quiet : d.conn.ssl.flags.need_encode ≡ false
  pub sized : k.ssl.en_mac_size ≡ n
  pub streaming : k.ssl.en_block_size ≤ 1

-- What goes through the contexts for the payloads: each with its MAC.
abbrev pub sealed_bytes : ℕ → List (List ℕ) → ℕ
sealed_bytes n [] = 0
sealed_bytes n (p ∷ ps) = length p + n + sealed_bytes n ps
