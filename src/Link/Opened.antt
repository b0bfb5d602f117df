-- ===== src/Link/Opened.antt =====
-- How `matrixSslDecode` takes a record that the other side has sealed.
use robin_mesh_v.Prelude.{
  ℕ, suc, ◌+◌, ◌*◌, ◌/◌, ◌%◌, ◌^◌, ◌≤◌, ◌<◌, ◌≡◌, refl, sym, ap, ◌∙◌, Bool, true, false, not, ◌&&◌,
  ◌||◌, none, some, List, [], ◌∷◌, ◌++◌, arith, length, ltb, leb, ◌==◌, if◌then◌else◌,
  length-append, take-append, drop-append, append_nil, Bool-cases, inl, inr,
}
use robin_mesh_v.Ssl.{Ssl, Rec}
use robin_mesh_v.Handshake.Base.{Env}
use robin_mesh_v.Record.{
  open_record, take_decrypted, take_opened, take_body, take_header, decode_record, take_record,
  check_header, read_record_header, read_v3_header, handshake_record, change_cipher_spec,
  alert_record, application_data, max_record_len, max_plaintext_len, set_rec,
}
use robin_mesh_v.Record.Base.{Wire, Decoder}
use robin_mesh_v.Record.Open.{open_record-IsSealed_iff}
use robin_mesh_v.Encode.Base.{Sealer, write_pad, pad_len_pwr2, write_record_info}
use robin_mesh_v.Link.Peer.{Agree, Paired}
use robin_mesh_v.Link.Sealed.{write_pad-IsPadding, pad_of}

-- The header that the reader gets from `write_record_info`.
abbrev pub sealed_rec : Ssl → ℕ → ℕ → Rec
sealed_rec s ty n = record { len = n; maj_ver = s.maj_ver; min_ver = s.min_ver; rec_type = ty }

u16_back : (n : ℕ) → n < 2 ^ 16 → n / 2 ^ 8 % 2 ^ 8 * 2 ^ 8 + n % 2 ^ 8 ≡ n
u16_back n h = omega arith

read_record_header-write :
    (s t : Ssl) (ty n : ℕ) (c : List ℕ)
    → Paired s t
    → n < 2 ^ 16
    → read_record_header t (write_record_info s ty n ++ c) ≡ some (sealed_rec s ty n, c)
unfolding read_record_header read_v3_header
read_record_header-write s t ty n c p h =
    let known : (t.maj_ver == 0) ≡ false = ground (arith, p.major, p.known) in
    rw known (ap (λ m. some (record (sealed_rec s ty n) { len = m }, c)) (u16_back n h))

-- The types that a record may have.
pub data IsType (ty : ℕ) : Type 0 where
  change : ty ≡ change_cipher_spec → IsType ty
  alert : ty ≡ alert_record → IsType ty
  hshake : ty ≡ handshake_record → IsType ty
  app_data : ty ≡ application_data → IsType ty

abbrev is_no_type : ℕ → Bool
is_no_type ty =
    not (ty == change_cipher_spec)
    && not (ty == alert_record)
    && not (ty == handshake_record)
    && not (ty == application_data)

IsType-is_no_type : (ty : ℕ) → IsType ty → is_no_type ty ≡ false
IsType-is_no_type ty (change e) = ground arith
IsType-is_no_type ty (alert e) = ground arith
IsType-is_no_type ty (hshake e) = ground arith
IsType-is_no_type ty (app_data e) = ground arith

same_version :
    (h a b c d : ℕ)
    → c ≡ a
    → d ≡ b
    → (not (h == 2) && not (h == 1) && (not (a == c) || not (b == d))) ≡ false
same_version h a b c d e f = ground arith

check_header-sealed :
    (s t : Ssl) (ty n : ℕ)
    → Paired s t
    → IsType ty
    → 1 ≤ n
    → n ≤ max_record_len
    → check_header (record t { rec = sealed_rec s ty n }) ≡ none
unfolding check_header
check_header-sealed s t ty n p i l h =
    let len : (ltb max_record_len n || n == 0) ≡ false = ground arith in
    rw (
      IsType-is_no_type ty i,
      same_version t.hs_state s.maj_ver s.min_ver t.maj_ver t.min_ver p.major p.minor,
      len,
    )

positive : (n : ℕ) → (suc (suc (suc (suc (suc n)))) == 0) ≡ false
positive n = ground arith

empty : (m : List ℕ) → length m ≡ 0 → m ≡ []
empty [] e = refl
empty (b ∷ m) e = absurd (omega arith)

module _ {X Y : Type 0} (w : Sealer X) (r : Wire Y) (s t : Ssl) (x : X) (y : Y)
    (paired : Paired s t) {top : ℕ} (agree : Agree w r s x t y top) where
  -- The bytes that are encrypted for `plain`.
  abbrev pub clear : ℕ → List ℕ → ℕ → List ℕ
  clear ty plain pad = plain ++ ((w.generate_mac s x ty plain).0 ++ write_pad pad)

  pub open_record-sealed :
      (ty : ℕ) (plain bytes : List ℕ) (x2 : X)
      → w.encrypt s (w.generate_mac s x ty plain).1 (clear ty plain (pad_of s (length plain)))
        ≡ some (x2, bytes)
      → 1 ≤ length bytes
      → open_record r
          (record t { rec = sealed_rec s ty (length bytes) })
          (agree.behind ty plain (write_pad (pad_of s (length plain))))
          (clear ty plain (pad_of s (length plain)))
        ≡ some plain
  unfolding open_record
  open_record-sealed ty plain bytes x2 e l =
      let rec = sealed_rec s ty (length bytes) in
      let m = (w.generate_mac s x ty plain).0 in
      let p = clear ty plain (pad_of s (length plain)) in
      let sized : length p ≡ length bytes = sym (agree.length_encrypt _ x2 p bytes e) in
      elim (Bool-cases s.flags.write_secure) [
        | inl b ↦
            (open_record-IsSealed_iff r (record t { rec = rec })
                (agree.behind ty plain (write_pad (pad_of s (length plain)))) p plain sized l
                (paired.security ∙ b)).1
              (record {
                mac = m;
                padding = write_pad (pad_of s (length plain));
                parts = refl;
                mac_sized = agree.length_mac ty plain ∙ sym paired.mac_size;
                authentic =
                    (agree.opens rec ty plain (write_pad (pad_of s (length plain))) bytes x2 e).1;
                padded =
                    rw (pad_secure b)
                      (write_pad-IsPadding (record t { rec = rec }) (length plain + s.en_mac_size));
              })
        | inr b ↦
            let off : t.flags.read_secure ≡ false = paired.security ∙ b in
            let none_left : p ≡ plain =
              ap (λ q. plain ++ (q ++ write_pad (pad_of s (length plain))))
                (empty m (agree.length_mac ty plain ∙ paired.no_mac b))
              ∙ ap (λ n. plain ++ write_pad n) (pad_plain b)
              ∙ append_nil plain in
            rw off (ap some none_left)
      ]
    where
      pad_secure :
          s.flags.write_secure ≡ true
          → pad_of s (length plain) ≡ pad_len_pwr2 (length plain + s.en_mac_size) t.de_block_size
      pad_secure b = rw (b, paired.block_size) refl

      pad_plain : s.flags.write_secure ≡ false → pad_of s (length plain) ≡ 0
      pad_plain b = rw b refl

module _ {X Y : Type 0} (w : Sealer X) (r : Wire Y) (s : Ssl) (x : X) (d : Decoder Y)
    (paired : Paired s d.conn.ssl) {top : ℕ} (agree : Agree w r s x d.conn.ssl d.cx top) where
  -- The decoder when it comes to look at the record's type.
  abbrev pub opened : ℕ → List ℕ → ℕ → Decoder Y
  opened ty plain n =
      let rec = sealed_rec s ty n in
      let y' = agree.behind ty plain (write_pad (pad_of s (length plain))) in
      let t = d.conn.ssl in
      record (set_rec r rec d) {
        cx =
            if t.flags.read_secure && leb t.de_mac_size n
            then r.next_sequence (record t { rec = rec }) y'
            else y';
      }

  -- The next record of the input is one that the writer sealed: it is taken for what was sealed.
  module _ (env : Env) (ty : ℕ) (plain bytes rest : List ℕ) (x2 : X)
      (e : w.encrypt s
          (w.generate_mac s x ty plain).1
          (plain ++ ((w.generate_mac s x ty plain).0 ++ write_pad (pad_of s (length plain))))
        ≡ some (x2, bytes))
      (l : 1 ≤ length bytes) (few : length plain ≤ max_plaintext_len) where
    take_decrypted-sealed :
        take_decrypted r env
          (set_rec r (sealed_rec s ty (length bytes)) d)
          rest
          (r.decrypt (record (d.conn.ssl) { rec = sealed_rec s ty (length bytes) }) d.cx bytes)
        ≡ take_record r env (opened ty plain (length bytes)) rest plain
    unfolding take_decrypted take_opened
    take_decrypted-sealed =
        let small : ltb max_plaintext_len (length plain) ≡ false = ground arith in
        let dec = (agree.opens (sealed_rec s ty (length bytes)) ty plain _ bytes x2 e).0 in
        let op = open_record-sealed w r s d.conn.ssl x d.cx paired agree ty plain bytes x2 e l in
        rw (dec, op, small) refl

    pub decode_record-sealed :
        d.inp ≡ (write_record_info s ty (length bytes) ++ bytes) ++ rest
        → IsType ty
        → length bytes ≤ max_record_len
        → length bytes ≤ d.out.room
        → decode_record r env d ≡ take_record r env (opened ty plain (length bytes)) rest plain
    unfolding decode_record take_header take_body
    decode_record-sealed ei i h room =
        let head : read_record_header d.conn.ssl d.inp
            ≡ some (sealed_rec s ty (length bytes), bytes ++ rest) =
          ap (read_record_header d.conn.ssl) ei
          ∙ read_record_header-write s d.conn.ssl ty (length bytes) (bytes ++ rest) paired
              (omega arith) in
        let some_left : (length d.inp == 0) ≡ false =
          ap (λ q. length q == 0) ei ∙ positive (length (bytes ++ rest)) in
        let check = check_header-sealed s d.conn.ssl ty (length bytes) paired i l h in
        let all : ltb (length (bytes ++ rest)) (length bytes) ≡ false =
          ground (arith, length-append bytes rest) in
        let fits : ltb d.out.room (length bytes) ≡ false = ground arith in
        rw (some_left, head, check, all, fits, take-append bytes rest, drop-append bytes rest)
          take_decrypted-sealed
