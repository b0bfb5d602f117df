-- ===== src/Link/Data.antt =====
-- Application data from `matrixSslEncode` on one side to `matrixSslDecode` on the other.
use robin_mesh_v.Prelude.{
  ℕ, ◌+◌, ◌-◌, ◌≤◌, ◌≡◌, refl, sym, ◌∙◌, Bool, true, false, not, ◌&&◌, ◌||◌, some, List, ◌++◌,
  arith, length, ltb, leb, ◌==◌, if◌then◌else◌, subst,
}
use robin_mesh_v.Ssl.{Ssl}
use robin_mesh_v.Handshake.Base.{Env, Conn, hs_done, alert_none}
use robin_mesh_v.Record.{
  decode_record, decode_records, matrix_ssl_decode, take_record, take_application_data,
  application_data, max_plaintext_len, set_ignored,
}
use robin_mesh_v.Record.Base.{Wire, Buf, put, Decoder, give, returned, Encoded, Status}
use robin_mesh_v.Encode.{matrix_ssl_encode}
use robin_mesh_v.Encode.Base.{Sealer, write_record, write_pad}
use robin_mesh_v.Encode.Writers.{Local}
use robin_mesh_v.Link.Peer.{Agree, Paired}
use robin_mesh_v.Link.Sealed.{pad_of}
use robin_mesh_v.Link.Opened.{opened, sealed_rec, app_data}
use robin_mesh_v.Link.Sent.{IsSent, write_record-IsSent}

-- The handshake is done, and nothing has ended the connection.
pub record IsOpen (s : Ssl) : Type 0 where
  pub done : s.hs_state ≡ hs_done
  pub no_error : s.flags.error ≡ false
  pub no_close : s.flags.closed ≡ false

-- A call of `matrixSslDecode` that begins with a record and is not for a response.
pub record IsReady (s : Ssl) : Type 0 where
  pub no_error : s.flags.error ≡ false
  pub no_close : s.flags.closed ≡ false
  pub no_encode : s.flags.need_encode ≡ false

pub off : {A : Type 0} (b : Bool) (u v : A) → b ≡ false → (if b then u else v) ≡ v
off b u v e = rw e refl

guard :
    (done hello secure : Bool)
    → done ≡ true
    → secure ≡ true
    → (not done && not hello || not secure) ≡ false
guard done hello secure e f = rw (e, f) refl

pub neither : (b c : Bool) → b ≡ false → c ≡ false → (b || c) ≡ false
neither b c e f = rw (e, f) refl

quiet_flags :
    (error done closed : Bool)
    → error ≡ false
    → done ≡ true
    → closed ≡ false
    → (error || not done || closed) ≡ false
quiet_flags error done closed e f g = rw (e, f, g) refl

both : (b c : Bool) → b ≡ true → c ≡ true → (b && c) ≡ true
both b c e f = rw (e, f) refl

module _ {Y : Type 0} (r : Wire Y) (env : Env) (d : Decoder Y) where
  -- A call that its first record ends.
  pub matrix_ssl_decode-give :
      (after : Decoder Y) (c : Status)
      → IsReady d.conn.ssl
      → decode_record r env (record d { error = alert_none }) ≡ give after c
      → matrix_ssl_decode r env d ≡ returned after c
  unfolding matrix_ssl_decode decode_records
  matrix_ssl_decode-give after c f e =
      let live : (d.conn.ssl.flags.error || d.conn.ssl.flags.closed) ≡ false =
        neither d.conn.ssl.flags.error d.conn.ssl.flags.closed f.no_error f.no_close in
      rw live (off _ _ _ f.no_encode ∙ rw (decode_records, e) refl)

module _ {X Y : Type 0} (w : Sealer X) (r : Wire Y) (env : Env) (own : Local) (k : Conn) (x : X)
    (out : Buf) (bytes rest : List ℕ) (d : Decoder Y) where
  -- What was written into `out` and, followed by `rest`, read by the peer: it returns the bytes, leaves
  -- what followed, and is ready for the next record.
  pub record IsReceived
      (agree : Agree w r k.ssl x d.conn.ssl d.cx (length bytes + pad_of k.ssl (length bytes)))
      (e : Encoded X) : Type 0 where
    pub sent : List ℕ
    pub code : e.code ≡ Status.success
    pub wrote : e.out ≡ put sent out
    pub after : Decoder Y
    pub decoded :
        matrix_ssl_decode r env (record d { inp = sent ++ rest })
        ≡ returned after Status.process_data
    pub got : after.out ≡ put bytes d.out
    pub left : after.inp ≡ rest
    pub still : Paired e.conn.ssl after.conn.ssl
    pub writer : IsOpen e.conn.ssl
    pub reader : IsOpen after.conn.ssl
    pub same_writer : e.conn ≡ k
    pub quiet : after.conn.ssl.flags.need_encode ≡ d.conn.ssl.flags.need_encode
    pub cipher : List ℕ
    pub sealed :
        w.encrypt k.ssl (w.generate_mac k.ssl x application_data bytes).1 (
          bytes
          ++ ((w.generate_mac k.ssl x application_data bytes).0
              ++ write_pad (pad_of k.ssl (length bytes))))
        ≡ some (e.cx, cipher)
    pub read_with : Ssl
    pub moved :
        after.cx
        ≡ r.next_sequence read_with
            (agree.behind application_data bytes (write_pad (pad_of k.ssl (length bytes))))

  -- What is returned for the application data in a record.
  abbrev reader_after : Decoder Y → Decoder Y
  reader_after c =
      set_ignored r (c.conn.ssl.ignored_message_count - 1)
        (record c { inp = rest; out = put bytes c.out })

  take_record-data :
      (c : Decoder Y)
      → c.conn.ssl.rec.rec_type ≡ application_data
      → c.conn.ssl.hs_state ≡ hs_done
      → c.conn.ssl.flags.read_secure ≡ true
      → 1 ≤ length bytes
      → take_record r env c rest bytes ≡ give (reader_after c) Status.process_data
  unfolding take_record take_application_data
  take_record-data c e h f l =
      let t = c.conn.ssl.rec.rec_type in
      let not_20 : (t == 20) ≡ false = ground arith in
      let not_21 : (t == 21) ≡ false = ground arith in
      let not_22 : (t == 22) ≡ false = ground arith in
      let is_23 : (t == 23) ≡ true = ground arith in
      let settled =
        guard (c.conn.ssl.hs_state == hs_done) (c.conn.ssl.hs_state == 2)
          c.conn.ssl.flags.read_secure (ground arith) f in
      let full : (length bytes == 0) ≡ false = ground arith in
      rw (not_20, not_21, not_22, is_23, settled, full) refl

  -- Between two open, secure connections whose ciphers agree, matrixSslEncode writes any 1 to 2^14 bytes
  -- that there is room for, and matrixSslDecode of the peer, which has room for the record and no answer
  -- to send, returns SSL_PROCESS_DATA with exactly those bytes, and leaves what follows the record in the
  -- input; both connections stay open and paired, so that the next record can follow.
  pub matrix_ssl_encode-IsReceived :
      (paired : Paired k.ssl d.conn.ssl)
      → (agree : Agree w r k.ssl x d.conn.ssl d.cx (length bytes + pad_of k.ssl (length bytes)))
      → k.ssl.flags.write_secure ≡ true
      → IsOpen k.ssl
      → IsOpen d.conn.ssl
      → d.conn.ssl.flags.need_encode ≡ false
      → 1 ≤ length bytes
      → length bytes ≤ max_plaintext_len
      → 5 + length bytes + k.ssl.en_mac_size + k.ssl.en_block_size ≤ out.room
      → length bytes + k.ssl.en_mac_size + k.ssl.en_block_size ≤ d.out.room
      → IsReceived agree (matrix_ssl_encode w env own k x out bytes)
  unfolding matrix_ssl_encode
  matrix_ssl_encode-IsReceived paired agree secure ok op quiet l few room1 room2 =
      let s : IsSent w r k x (record d { error = alert_none }) paired agree env out application_data
          bytes rest (write_record w k x out application_data 0 (5 + length bytes) bytes) =
        write_record-IsSent w r k x (record d { error = alert_none }) paired agree env out
          application_data bytes rest (app_data refl) refl l few (omega arith) room1 room2 in
      let fine =
        quiet_flags k.ssl.flags.error (k.ssl.hs_state == hs_done) k.ssl.flags.closed ok.no_error
          (ground arith) ok.no_close in
      let short : ltb (0x4000 + 2048 + 5) (5 + length bytes) ≡ false = ground arith in
      let same : matrix_ssl_encode w env own k x out bytes
          ≡ write_record w k x out application_data 0 (5 + length bytes) bytes =
        rw (fine, short) refl in
      let after = reader_after (
        opened w r k.ssl x (record d { error = alert_none; inp = s.sent ++ rest }) paired agree
          application_data bytes s.size) in
      subst (IsReceived agree) (sym same) (record {
        sent = s.sent;
        code = s.code;
        wrote = s.wrote;
        after = after;
        decoded =
            matrix_ssl_decode-give r env (record d { inp = s.sent ++ rest }) after
              Status.process_data
              (record { no_error = op.no_error; no_close = op.no_close; no_encode = quiet })
              (s.taken
                ∙ take_record-data
                    (opened w r k.ssl x (record d { error = alert_none; inp = s.sent ++ rest })
                      paired agree application_data bytes s.size)
                    refl op.done (paired.security ∙ secure) l);
        got = refl;
        left = refl;
        still =
            subst (λ (c : Conn). Paired c.ssl after.conn.ssl) (sym s.conn)
              (record {
                major = paired.major;
                minor = paired.minor;
                known = paired.known;
                security = paired.security;
                mac_size = paired.mac_size;
                block_size = paired.block_size;
                no_mac = paired.no_mac;
                no_block = paired.no_block;
                small_mac = paired.small_mac;
                small_block = paired.small_block;
              });
        writer = subst (λ (c : Conn). IsOpen c.ssl) (sym s.conn) ok;
        reader = record { done = op.done; no_error = op.no_error; no_close = op.no_close };
        same_writer = s.conn;
        quiet = refl;
        cipher = s.cipher;
        sealed = s.sealed;
        read_with = record (d.conn.ssl) { rec = sealed_rec k.ssl application_data s.size };
        moved =
            rw
              (both d.conn.ssl.flags.read_secure (leb d.conn.ssl.de_mac_size s.size)
                (paired.security ∙ secure) (ground (arith, paired.mac_size, s.whole)))
              refl;
      })
