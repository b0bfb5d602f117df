-- ===== src/Link/Peer.antt =====
-- What one side asks of the other: ciphers that undo each other, and the same sizes and versions.
use robin_mesh_v.Prelude.{ℕ, ◌+◌, ◌%◌, ◌≤◌, ◌≡◌, ◌≢◌, ◌⊎◌, true, false, some, List, ◌++◌, length}
use robin_mesh_v.Ssl.{Ssl, Rec}
use robin_mesh_v.Record.Base.{Wire}
use robin_mesh_v.Encode.Base.{Sealer}

-- The reader's ciphers, in the state `y`, open what the writer's seal in the state `x`, whatever the
-- reader knows of the record; a MAC has the size of the writer's suite; encryption keeps lengths, and
-- does not fail on a record of whole blocks, with `top` bytes beside the MAC at most.
pub record Agree {X Y : Type 0} (w : Sealer X) (r : Wire Y) (s : Ssl) (x : X) (t : Ssl) (y : Y)
    (top : ℕ) : Type 0 where
  pub length_mac :
      (ty : ℕ) (plain : List ℕ) → length ((w.generate_mac s x ty plain).0) ≡ s.en_mac_size
  pub length_encrypt :
      (x1 x2 : X) (plain bytes : List ℕ)
      → w.encrypt s x1 plain ≡ some (x2, bytes)
      → length bytes ≡ length plain
  pub encrypts :
      (ty : ℕ) (plain pad : List ℕ)
      → length plain + length pad ≤ top
      → (let m = w.generate_mac s x ty plain in
          s.en_block_size ≡ 8 → length (plain ++ (m.0 ++ pad)) % 8 ≡ 0)
      → let m = w.generate_mac s x ty plain in
        (e : X × List ℕ) × (w.encrypt s (m.1) (plain ++ (m.0 ++ pad)) ≡ some e)
  pub behind : ℕ → List ℕ → List ℕ → Y
  pub opens :
      (rec : Rec) (ty : ℕ) (plain pad bytes : List ℕ) (x2 : X)
      → (let m = w.generate_mac s x ty plain in
          w.encrypt s (m.1) (plain ++ (m.0 ++ pad)) ≡ some (x2, bytes))
      → let m = w.generate_mac s x ty plain in
        (r.decrypt (record t { rec = rec }) y bytes
          ≡ some (behind ty plain pad, plain ++ (m.0 ++ pad)))
        × (r.verify_mac (record t { rec = rec }) (behind ty plain pad) ty plain (m.0) ≡ true)

-- The reader's connection `t` reads as the writer's connection `s` writes, with the sizes of a suite
-- that the library has: those of the null suite before the first ChangeCipherSpec.
pub record Paired (s t : Ssl) : Type 0 where
  pub major : t.maj_ver ≡ s.maj_ver
  pub minor : t.min_ver ≡ s.min_ver
  pub known : s.maj_ver ≢ 0
  pub security : t.flags.read_secure ≡ s.flags.write_secure
  pub mac_size : t.de_mac_size ≡ s.en_mac_size
  pub block_size : t.de_block_size ≡ s.en_block_size
  pub no_mac : s.flags.write_secure ≡ false → s.en_mac_size ≡ 0
  pub no_block : s.flags.write_secure ≡ false → s.en_block_size ≤ 1
  pub small_mac : s.en_mac_size ≤ 20
  pub small_block : (s.en_block_size ≤ 1) ⊎ (s.en_block_size ≡ 8)
