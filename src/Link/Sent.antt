-- ===== src/Link/Sent.antt =====
-- A record from `writeRecordHeader` on one side to the switch of `matrixSslDecode` on the other.
use robin_mesh_v.Prelude.{
  ℕ, ◌+◌, ◌-◌, ◌%◌, ◌≤◌, ◌≡◌, ◌⊎◌, refl, sym, ap, ◌∙◌, true, false, some, List, [], ◌++◌, arith,
  length, ◌==◌, length-append, length-replicate, Bool-cases, inl, inr,
}
use robin_mesh_v.Ssl.{Ssl}
use robin_mesh_v.Handshake.Base.{Env, Conn}
use robin_mesh_v.Record.{decode_record, take_record, handshake_record, max_plaintext_len}
use robin_mesh_v.Record.Base.{Wire, Buf, put, Decoder, Encoded, Status}
use robin_mesh_v.Encode.Base.{
  Sealer, seal_record, seal_started, put_record, write_record, write_pad, pad_len_pwr2,
  write_record_info,
}
use robin_mesh_v.Link.Peer.{Agree, Paired}
use robin_mesh_v.Link.Sealed.{pad_of, sent_header, start_record-sent}
use robin_mesh_v.Link.Opened.{IsType, opened, decode_record-sealed}

pad_range :
    (len b : ℕ)
    → (b ≤ 1) ⊎ (b ≡ 8)
    → (pad_len_pwr2 len b ≤ b) × (b ≡ 8 → (len + pad_len_pwr2 len b) % 8 ≡ 0)
unfolding pad_len_pwr2
pad_range len b (inl e) = (ground arith, λ f. absurd (omega arith))
pad_range len b (inr e) = rw e (omega arith, λ f. omega arith)

eight : (b : ℕ) → (b ≤ 1) ⊎ (b ≡ 8) → b ≤ 8
eight b (inl e) = omega arith
eight b (inr e) = omega arith

module _ (s t : Ssl) (paired : Paired s t) (m : ℕ) where
  pub pad_of-le : pad_of s m ≤ s.en_block_size
  pad_of-le = elim (Bool-cases s.flags.write_secure) [
    | inl b ↦ rw b ((pad_range (m + s.en_mac_size) s.en_block_size paired.small_block).0)
    | inr b ↦ rw b (omega arith)
  ]

  pad_of-whole : s.en_block_size ≡ 8 → (m + s.en_mac_size + pad_of s m) % 8 ≡ 0
  pad_of-whole e = elim (Bool-cases s.flags.write_secure) [
    | inl b ↦ rw b ((pad_range (m + s.en_mac_size) s.en_block_size paired.small_block).1 e)
    | inr b ↦ absurd (omega (arith, paired.no_block b))
  ]

module _ {X Y : Type 0} (w : Sealer X) (r : Wire Y) (k : Conn) (x : X) (d : Decoder Y)
    (paired : Paired k.ssl d.conn.ssl) {top : ℕ}
    (agree : Agree w r k.ssl x d.conn.ssl d.cx top) where
  -- A record of the type `ty` and the bytes `body` has gone from one side to the other.
  pub record IsSent (env : Env) (out : Buf) (ty : ℕ) (body rest : List ℕ) (e : Encoded X)
      : Type 0 where
    pub sent : List ℕ
    pub code : e.code ≡ Status.success
    pub conn : e.conn ≡ k
    pub wrote : e.out ≡ put sent out
    pub size : ℕ
    pub cipher : List ℕ
    pub sealed :
        w.encrypt k.ssl
          (w.generate_mac k.ssl x ty body).1
          (body ++ ((w.generate_mac k.ssl x ty body).0 ++ write_pad (pad_of k.ssl (length body))))
        ≡ some (e.cx, cipher)
    pub whole : size ≡ length body + k.ssl.en_mac_size + pad_of k.ssl (length body)
    pub taken :
        decode_record r env (record d { inp = sent ++ rest })
        ≡ take_record r env
            (opened w r k.ssl x (record d { inp = sent ++ rest }) paired agree ty body size)
            rest
            body

  module _ (env : Env) (out : Buf) (ty : ℕ) (start plain rest : List ℕ) (i : IsType ty)
      (l : 1 ≤ length plain) (few : length plain ≤ max_plaintext_len)
      (room : length plain + k.ssl.en_mac_size + k.ssl.en_block_size ≤ d.out.room) where
    -- The MAC, the bytes to be encrypted, and what becomes of them.
    abbrev mac : List ℕ × X
    mac = w.generate_mac k.ssl x ty plain

    abbrev clear : List ℕ
    clear = plain ++ (mac.0 ++ write_pad (pad_of k.ssl (length plain)))

    length-clear : length clear ≡ length plain + k.ssl.en_mac_size + pad_of k.ssl (length plain)
    length-clear = omega (
      arith,
      length-append plain (mac.0 ++ write_pad (pad_of k.ssl (length plain))),
      length-append (mac.0) (write_pad (pad_of k.ssl (length plain))),
      length-replicate (pad_of k.ssl (length plain)) (pad_of k.ssl (length plain) - 1),
      agree.length_mac ty plain,
    )

    put_some :
        (e : X × List ℕ)
        → w.encrypt k.ssl mac.1 clear ≡ some e
        → IsSent env out ty plain rest (
            put_record w k out
              (record (sent_header k.ssl ty 0 (length plain)) { start = start })
              mac.1
              (some e))
    unfolding put_record
    put_some (x2, bytes) f =
        let n = length plain + k.ssl.en_mac_size + pad_of k.ssl (length plain) in
        let sized : length bytes ≡ n = agree.length_encrypt mac.1 x2 clear bytes f ∙ length-clear in
        let whole : (5 + length bytes == 5 + n) ≡ true = ground arith in
        let short = pad_of-le k.ssl d.conn.ssl paired (length plain) in
        rw whole (record {
          sent = write_record_info k.ssl ty n ++ bytes;
          code = refl;
          conn = refl;
          wrote = refl;
          size = length bytes;
          cipher = bytes;
          sealed = f;
          whole = sized;
          taken =
              decode_record-sealed w r k.ssl x
                (record d { inp = (write_record_info k.ssl ty n ++ bytes) ++ rest }) paired agree
                env ty plain bytes rest x2 f (omega arith) few
                (ap (λ j. (write_record_info k.ssl ty j ++ bytes) ++ rest) (sym sized)) i
                (omega (arith, eight k.ssl.en_block_size paired.small_block, paired.small_mac))
                (omega arith);
        })

    put_record-IsSent :
        length plain + pad_of k.ssl (length plain) ≤ top
        → IsSent env out ty plain rest (
            put_record w k out
              (record (sent_header k.ssl ty 0 (length plain)) { start = start })
              mac.1
              (w.encrypt k.ssl mac.1 clear))
    put_record-IsSent under =
        let pad = write_pad (pad_of k.ssl (length plain)) in
        let e =
          agree.encrypts ty plain pad
            (omega (
              arith,
              length-replicate (pad_of k.ssl (length plain)) (pad_of k.ssl (length plain) - 1),
              under,
            ))
            (λ f.
              ap (λ j. j % 8) length-clear
              ∙ pad_of-whole k.ssl d.conn.ssl paired (length plain) f) in
        rw (e.1) (put_some e.0 e.1)

  pub write_record-IsSent :
      (env : Env) (out : Buf) (ty : ℕ) (body rest : List ℕ)
      → IsType ty
      → (ty == handshake_record) ≡ false
      → 1 ≤ length body
      → length body ≤ max_plaintext_len
      → length body + pad_of k.ssl (length body) ≤ top
      → 5 + length body + k.ssl.en_mac_size + k.ssl.en_block_size ≤ out.room
      → length body + k.ssl.en_mac_size + k.ssl.en_block_size ≤ d.out.room
      → IsSent env out ty body rest (write_record w k x out ty 0 (5 + length body) body)
  unfolding write_record seal_started seal_record
  write_record-IsSent env out ty body rest i plain l few under room1 room2 =
      let short = pad_of-le k.ssl d.conn.ssl paired (length body) in
      let start = start_record-sent k.ssl ty 0 (length body) out.room paired.no_mac (omega arith) in
      rw (start, plain) (put_record-IsSent env out ty [] body rest i l few room2 under)
