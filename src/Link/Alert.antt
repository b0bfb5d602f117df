-- ===== src/Link/Alert.antt =====
-- An alert from the encoder on one side to `matrixSslDecode` on the other.
use robin_mesh_v.Prelude.{
  ℕ, ◌+◌, ◌%◌, ◌^◌, ◌≤◌, ◌≡◌, ◌≢◌, refl, sym, ap, ◌∙◌, true, false, not, ◌||◌, Option, some, List,
  [], ◌∷◌, ◌++◌, arith, ◌==◌, subst,
}
use robin_mesh_v.Handshake.Base.{Env, Conn, alert_none, set_flags}
use robin_mesh_v.Record.{matrix_ssl_decode, take_record, take_alert, alert_record}
use robin_mesh_v.Record.Base.{Wire, Buf, put, Decoder, returned, Encoded, Status}
use robin_mesh_v.Encode.{encode_response, matrix_ssl_encode_closure_alert}
use robin_mesh_v.Encode.Base.{Sealer, write_record, mark_error}
use robin_mesh_v.Encode.Writers.{Local, write_alert}
use robin_mesh_v.Link.Peer.{Agree, Paired}
use robin_mesh_v.Link.Sealed.{pad_of}
use robin_mesh_v.Link.Opened.{opened, alert}
use robin_mesh_v.Link.Sent.{IsSent, write_record-IsSent}
use robin_mesh_v.Link.Data.{IsReady, matrix_ssl_decode-give, off}

mark_error-success :
    {X : Type 0} (e : Encoded X) → e.code ≡ Status.success → mark_error (some e) ≡ some e
mark_error-success e h = simp h

module _ {X Y : Type 0} (w : Sealer X) (r : Wire Y) (env : Env) (own : Local) (k : Conn) (x : X)
    (out : Buf) (rest : List ℕ) (d : Decoder Y) where
  -- The alert was written into `out` and, followed by `rest`, read by the peer: it returns SSL_ALERT with
  -- the level and the description, and keeps in its flags whether that ends the connection.
  pub record IsAlerted (level description : ℕ) (o : Option (Encoded X)) : Type 0 where
    pub encoded : Encoded X
    pub answered : o ≡ some encoded
    pub code : encoded.code ≡ Status.success
    pub sent : List ℕ
    pub wrote : encoded.out ≡ put sent out
    pub after : Decoder Y
    pub decoded :
        matrix_ssl_decode r env (record d { inp = sent ++ rest }) ≡ returned after Status.alerted
    pub same_level : after.alert_level ≡ level
    pub same_description : after.alert_description ≡ description
    pub error : after.conn.ssl.flags.error ≡ (level == 2)
    pub closed : after.conn.ssl.flags.closed ≡ (description == 0)

  take_record-alert :
      (c : Decoder Y) (level description : ℕ)
      → c.conn.ssl.rec.rec_type ≡ alert_record
      → take_record r env c rest (level ∷ description ∷ [])
        ≡ take_alert r c (level ∷ description ∷ [])
  unfolding take_record
  take_record-alert c level description e =
      let t = c.conn.ssl.rec.rec_type in
      let not_20 : (t == 20) ≡ false = ground arith in
      let is_21 : (t == 21) ≡ true = ground arith in rw (not_20, is_21) refl

  write_alert-IsAlerted :
      (level description : ℕ)
      → (paired : Paired k.ssl d.conn.ssl) → Agree w r k.ssl x d.conn.ssl d.cx (2 + pad_of k.ssl 2)
      → IsReady d.conn.ssl
      → 7 + k.ssl.en_mac_size + k.ssl.en_block_size ≤ out.room
      → 2 + k.ssl.en_mac_size + k.ssl.en_block_size ≤ d.out.room
      → IsAlerted level description (write_alert w env own level description k x out)
  unfolding write_alert take_alert
  write_alert-IsAlerted level description paired agree ready room1 room2 =
      let body : List ℕ = level ∷ description ∷ [] in
      let s : IsSent w r k x (record d { error = alert_none }) paired agree env out alert_record
          body rest (write_record w k x out alert_record 0 7 body) =
        write_record-IsSent w r k x (record d { error = alert_none }) paired agree env out
          alert_record body rest (alert refl) refl (omega arith) (omega arith) (omega arith) room1
          room2 in
      let c =
        opened w r k.ssl x (record d { error = alert_none; inp = s.sent ++ rest }) paired agree
          alert_record body s.size in
      let f = c.conn.ssl.flags in
      let after = record c {
        conn =
            set_flags c.conn
              (record f { error = f.error || level == 2; closed = f.closed || description == 0 });
        alert_level = level;
        alert_description = description;
      } in
      record {
        encoded = write_record w k x out alert_record 0 7 body;
        answered = refl;
        code = s.code;
        sent = s.sent;
        wrote = s.wrote;
        after = after;
        decoded =
            matrix_ssl_decode-give r env (record d { inp = s.sent ++ rest }) after Status.alerted
              ready (s.taken ∙ take_record-alert c level description refl);
        same_level = refl;
        same_description = refl;
        error = ap (λ b. b || level == 2) ready.no_error;
        closed = ap (λ b. b || description == 0) ready.no_close;
      }

  -- While an error is marked on the connection, sslEncodeResponse writes a fatal alert with its low eight
  -- bits, if there is room, and the peer whose ciphers agree and which has room for the record reads it: it
  -- returns SSL_ALERT with that level and description, and marks its own connection with an error.
  pub encode_response-IsAlerted :
      (paired : Paired k.ssl d.conn.ssl)
      → Agree w r k.ssl x d.conn.ssl d.cx (2 + pad_of k.ssl 2)
      → IsReady d.conn.ssl
      → k.ssl.err ≢ alert_none
      → 7 + k.ssl.en_mac_size + k.ssl.en_block_size ≤ out.room
      → 2 + k.ssl.en_mac_size + k.ssl.en_block_size ≤ d.out.room
      → IsAlerted 2 (k.ssl.err % 2 ^ 8) (encode_response w env own k x out)
  unfolding encode_response
  encode_response-IsAlerted paired agree ready h room1 room2 =
      let a = write_alert-IsAlerted 2 (k.ssl.err % 2 ^ 8) paired agree ready room1 room2 in
      let set : not (k.ssl.err == alert_none) ≡ true = ground arith in
      record {
        encoded = a.encoded;
        answered = rw (set, a.answered) (mark_error-success a.encoded a.code);
        code = a.code;
        sent = a.sent;
        wrote = a.wrote;
        after = a.after;
        decoded = a.decoded;
        same_level = a.same_level;
        same_description = a.same_description;
        error = a.error;
        closed = a.closed;
      }

  -- On a connection without an error matrixSslEncodeClosureAlert writes a close_notify, if there is room,
  -- and the peer reads it: it returns SSL_ALERT with a warning's level and marks its connection closed.
  matrix_ssl_encode_closure_alert-IsAlerted :
      (paired : Paired k.ssl d.conn.ssl)
      → Agree w r k.ssl x d.conn.ssl d.cx (2 + pad_of k.ssl 2)
      → IsReady d.conn.ssl
      → k.ssl.flags.error ≡ false
      → 7 + k.ssl.en_mac_size + k.ssl.en_block_size ≤ out.room
      → 2 + k.ssl.en_mac_size + k.ssl.en_block_size ≤ d.out.room
      → IsAlerted 1 0 (matrix_ssl_encode_closure_alert w env own k x out)
  unfolding matrix_ssl_encode_closure_alert
  matrix_ssl_encode_closure_alert-IsAlerted paired agree ready h room1 room2 =
      subst (IsAlerted 1 0) (sym (off _ _ _ h))
        (write_alert-IsAlerted 1 0 paired agree ready room1 room2)
