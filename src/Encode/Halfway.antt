-- ===== src/Encode/Halfway.antt =====
-- The flight of ChangeCipherSpec and Finished, of which the room that is tested for holds only a part.
use robin_mesh_v.Prelude.{
  ℕ, ◌+◌, ◌≤◌, ◌<◌, ◌≡◌, refl, ap, ◌∙◌, true, false, not, Option, none, some, List, [], ◌∷◌, arith,
  ltb, ◌==◌,
}
use robin_mesh_v.Cipher.{CipherSpec, null_id}
use robin_mesh_v.Handshake.Base.{Env, Conn, set_ssl, hs_done, alert_none}
use robin_mesh_v.Record.{change_cipher_spec}
use robin_mesh_v.Record.Base.{Buf, put, Encoded, Status}
use robin_mesh_v.Encode.{encode_response, last_flight, last_flight_size}
use robin_mesh_v.Encode.Base.{
  Sealer, Header, mark_error, start_record, seal_started, seal_record, put_record, write_record,
  secure_write_additions, full_record,
}
use robin_mesh_v.Encode.Writers.{
  Local, write_change_cipher_spec, activate_write_cipher, write_finished,
}
use robin_mesh_v.Encode.Room.{Sizes, sizes, extra, Starts, no_room, ready, start_record-Starts}

Starts-none :
    (c : Sizes) (m room : ℕ) (o : Option Header)
    → room < 5 + m + extra c m
    → Starts c m room o
    → o ≡ none
Starts-none c m room none l (no_room f) = refl
Starts-none c m room (some h) l (ready _ f i g) = absurd (omega arith)

module _ {X : Type 0} (w : Sealer X) (env : Env) (own : Local) (k : Conn) (x x1 x2 : X) (out : Buf)
    (c : CipherSpec) where
  -- The record of the ChangeCipherSpec, on a connection that does not write securely.
  abbrev pub plain_change : List ℕ
  plain_change = 20 ∷ k.ssl.maj_ver ∷ k.ssl.min_ver ∷ 0 ∷ 1 ∷ 1 ∷ []

  -- SSL_FULL was returned behind the ChangeCipherSpec, with the new write cipher active.
  pub record IsHalfway (o : Option (Encoded X)) : Type 0 where
    pub encoded : Encoded X
    pub answered : o ≡ some encoded
    pub code : encoded.code ≡ Status.full
    pub wrote : encoded.out ≡ put plain_change out
    pub active : encoded.conn.ssl.flags.write_secure ≡ true

  -- The connection with the new sizes, and writing securely.
  abbrev active : Conn
  active =
      let s = record (k.ssl) {
        en_mac_size = c.mac_size;
        en_iv_size = c.iv_size;
        en_block_size = c.block_size;
      } in
      set_ssl k (record s { flags = record (s.flags) { write_secure = true } })

  abbrev changed : Encoded X
  changed = record { conn = k; cx = x2; out = put plain_change out; code = Status.success }

  module _ (bare : k.ssl.flags.write_secure ≡ false)
      (no_mac : w.generate_mac k.ssl x change_cipher_spec (1 ∷ []) ≡ ([], x1))
      (no_cipher : w.encrypt k.ssl x1 (1 ∷ []) ≡ some (x2, 1 ∷ [])) (room : 51 ≤ out.room) where
    start_change :
        start_record k.ssl change_cipher_spec 0 6 out.room
        ≡ some (record {
          size = 6;
          pad_len = 0;
          info = 20 ∷ k.ssl.maj_ver ∷ k.ssl.min_ver ∷ 0 ∷ 1 ∷ [];
          start = [];
        })
    unfolding start_record
    start_change = let fits : ltb out.room 6 ≡ false = ground arith in rw (bare, fits) refl

    write_change : write_record w k x out change_cipher_spec 0 6 (1 ∷ []) ≡ changed
    unfolding write_record seal_started seal_record put_record
    write_change = rw (start_change, no_mac, no_cipher) refl

    -- What the ChangeCipherSpec leaves.
    abbrev done : Encoded X
    done =
        let s = record (k.ssl) {
          en_mac_size = c.mac_size;
          en_iv_size = c.iv_size;
          en_block_size = c.block_size;
        } in
        record changed { conn = active; cx = w.activate_write s c x2 }

    change_done :
        k.ssl.cipher ≡ some c
        → (c.id == null_id) ≡ false
        → write_change_cipher_spec w env own k x out ≡ some done
    unfolding write_change_cipher_spec activate_write_cipher
    change_done e f =
        let through : write_change_cipher_spec w env own k x out
            ≡ activate_write_cipher w env own changed k.ssl.cipher =
          rw (write_change_cipher_spec, write_change)
            (ap (λ (r : Encoded X). activate_write_cipher w env own r r.conn.ssl.cipher)
              write_change) in
        through ∙ ap (activate_write_cipher w env own changed) e ∙ rw f refl

    finished_full :
        out.room < 51 + c.mac_size
        → write_finished w env own active done.cx done.out
          ≡ some (full_record w active done.cx done.out)
    unfolding write_finished write_record seal_started
    finished_full l =
        let stuck : start_record active.ssl 22 20 45 done.out.room ≡ none =
          Starts-none (sizes active.ssl) 40 done.out.room _ (omega arith)
            (start_record-Starts active.ssl 40 22 20 45 done.out.room refl) in
        rw stuck refl

    tested : last_flight_size k.ssl ≡ 51
    unfolding last_flight_size secure_write_additions
    tested = rw bare refl

    -- On the first handshake of a connection, which does not write securely yet, sslEncodeResponse in the
    -- state SSL_HS_DONE tests for 51 bytes of room. With that room, but less than the new suite's MAC
    -- more, it returns SSL_FULL behind the ChangeCipherSpec, which stays in the output, with the new
    -- cipher active for writing.
    pub encode_response-IsHalfway :
        k.ssl.cipher ≡ some c
        → (c.id == null_id) ≡ false
        → k.ssl.err ≡ alert_none
        → k.ssl.hs_state ≡ hs_done
        → out.room < 51 + c.mac_size
        → IsHalfway (encode_response w env own k x out)
    unfolding encode_response last_flight
    encode_response-IsHalfway e f he hs l =
        let calm : not (k.ssl.err == alert_none) ≡ false = ground arith in
        let other : (k.ssl.hs_state == 16) ≡ false = ground arith in
        let is_done : (k.ssl.hs_state == hs_done) ≡ true = ground arith in
        let fits : ltb out.room 51 ≡ false = ground arith in
        record {
          encoded = full_record w active done.cx done.out;
          answered =
              rw (calm, other, is_done, tested, fits, change_done e f)
                (ap mark_error (finished_full l));
          code = refl;
          wrote = refl;
          active = refl;
        }
