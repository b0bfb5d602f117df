-- ===== src/Record/Deliver.antt =====
-- What `matrixSslDecode` hands to its caller as application data.
use robin_mesh_v.Prelude.{
  ℕ, ◌/◌, ◌%◌, ◌^◌, ◌≤◌, ◌<◌, ◌≡◌, refl, Bool, true, false, not, ◌&&◌, ◌||◌, Option, none, some,
  List, [], ◌∷◌, arith, length, drop, ltb, ◌==◌, if◌then◌else◌, length-drop, ◌⊎◌, ◌≢◌,
}
use robin_mesh_v.Cipher.{CipherSpec}
use robin_mesh_v.Ssl.{Ssl, Rec}
use robin_mesh_v.Handshake.{Parsed, parsed, parse_error, parse_fault, parse_handshake}
use robin_mesh_v.Handshake.Base.{
  Env, success, process_data, hs_done, server_hello, alert_none, finished,
}
use robin_mesh_v.Record.{
  open_record, take_change_cipher_spec, activate, take_opened, take_alert, after_handshake,
  take_application_data, take_record, take_decrypted, take_body, take_header, decode_record,
  change_cipher_spec, alert_record, handshake_record, application_data, read_record_header,
  read_v3_header, max_plaintext_len, set_rec,
}
use robin_mesh_v.Record.Base.{Wire, Buf, put, Decoder, Next, Status}
use robin_mesh_v.Record.Each.{Each, go_on, answer, end, crash, Each-test, Each-if}

-- From `out` to the decoder `d`: bytes were put into the output buffer, in a state in which the
-- handshake is done or is being repeated and reading is secure.
pub record Delivered {X : Type 0} (w : Wire X) (out : Buf) (d : Decoder X) : Type 0 where
  pub bytes : List ℕ
  pub put_out : d.out ≡ put bytes out
  pub some_bytes : 1 ≤ length bytes
  pub few_bytes : length bytes ≤ max_plaintext_len
  pub secure : d.conn.ssl.flags.read_secure ≡ true
  pub settled : (d.conn.ssl.hs_state ≡ hs_done) ⊎ (d.conn.ssl.hs_state ≡ server_hello)

-- What is returned from inside the loop: the error as it was, application data only as `Delivered`,
-- and an alert that ends the connection only with the flag for it.
pub record Given {X : Type 0} (w : Wire X) (out : Buf) (error : ℕ) (d : Decoder X) (s : Status)
    : Type 0 where
  pub kept : d.error ≡ error
  pub delivered : s ≡ Status.process_data → Delivered w out d
  pub shut :
      s ≡ Status.alerted
      → (d.alert_level ≡ 2) ⊎ (d.alert_description ≡ 0)
      → (d.conn.ssl.flags.error || d.conn.ssl.flags.closed) ≡ true

plain :
    {X : Type 0} {w : Wire X} {out : Buf} {d : Decoder X} {s : Status}
    → s ≢ Status.process_data
    → s ≢ Status.alerted
    → Given w out d.error d s
plain p a = record { kept = refl; delivered = λ e. absurd (p e); shut = λ e. absurd (a e) }

module _ {X : Type 0} (w : Wire X) (env : Env) where
  -- A record that another follows leaves the output buffer and the error as they were, and less input.
  abbrev pub Follows : ℕ → Buf → ℕ → Decoder X → Type 0
  Follows n out error d = (length d.inp < n) × (d.out ≡ out) × (d.error ≡ error)

  abbrev pub Fine : ℕ → Buf → ℕ → Next X → Type 0
  Fine n out error = Each (Follows n out error) (λ d. d.error ≡ error) (Given w out error)

  take_application_data-Fine :
      (n : ℕ) (d : Decoder X) (rest p : List ℕ)
      → length rest < n
      → length p ≤ max_plaintext_len
      → Fine n d.out d.error (take_application_data w d rest p)
  unfolding take_application_data
  take_application_data-Fine n d rest p lt le =
      Each-test
        (not (d.conn.ssl.hs_state == hs_done) && not (d.conn.ssl.hs_state == server_hello)
          || not d.conn.ssl.flags.read_secure)
        (λ _. answer refl)
        λ ready.
          Each-test (length p == 0) (λ _. Each-if _ (go_on (lt, refl, refl)) (answer refl))
            λ full. end (record {
              kept = refl;
              shut = λ e. absurd cc;
              delivered = λ _. record {
                bytes = p;
                put_out = refl;
                some_bytes = ground arith;
                few_bytes = le;
                secure = ground arith;
                settled = ground arith;
              };
            })

  activate-Fine :
      (n : ℕ) (d : Decoder X) (rest : List ℕ) (c : Option CipherSpec)
      → length rest < n
      → Fine n d.out d.error (activate w d rest c)
  unfolding activate
  activate-Fine n d rest none lt = crash
  activate-Fine n d rest (some c) lt = go_on (lt, refl, refl)

  take_change_cipher_spec-Fine :
      (n : ℕ) (d : Decoder X) (rest p : List ℕ)
      → length rest < n
      → Fine n d.out d.error (take_change_cipher_spec w d rest p)
  unfolding take_change_cipher_spec
  take_change_cipher_spec-Fine n d rest [] lt = answer refl
  take_change_cipher_spec-Fine n d rest (v ∷ _) lt = Each-if (not (v == 1)) (answer refl) (
      Each-if (not (d.conn.ssl.hs_state == finished)) (answer refl)
        (activate-Fine n d rest d.conn.ssl.cipher lt))

  shut_by : (x y : ℕ) (e c : Bool) → (x ≡ 2) ⊎ (y ≡ 0) → ((e || x == 2) || (c || y == 0)) ≡ true
  shut_by x y e c h = ground arith

  take_alert-Fine : (n : ℕ) (d : Decoder X) (p : List ℕ) → Fine n d.out d.error (take_alert w d p)
  unfolding take_alert
  take_alert-Fine n d [] = answer refl
  take_alert-Fine n d (x ∷ []) = answer refl
  take_alert-Fine n d (x ∷ y ∷ p) =
      end (record { kept = refl; delivered = λ e. absurd cc; shut = λ e. shut_by x y _ _ })

  after_handshake-Fine :
      (n : ℕ) (d : Decoder X) (rest : List ℕ) (r : Parsed)
      → Fine n d.out d.error (after_handshake w d rest r)
  unfolding after_handshake
  after_handshake-Fine n d rest (parsed k success) = end (plain (λ e. cc) (λ e. cc))
  after_handshake-Fine n d rest (parsed k process_data) = answer refl
  after_handshake-Fine n d rest (parse_error k) =
      Each-if (k.ssl.err == alert_none) (answer refl) (answer refl)
  after_handshake-Fine n d rest parse_fault = crash

  take_opened-Fine :
      (n : ℕ) (d : Decoder X) (rest : List ℕ) (o : Option (List ℕ))
      → length rest < n
      → Fine n d.out d.error (take_opened w env d rest o)
  unfolding take_opened take_record
  take_opened-Fine n d rest none lt = answer refl
  take_opened-Fine n d rest (some p) lt =
      Each-test (ltb max_plaintext_len (length p)) (λ _. answer refl)
        λ few.
          Each-if (d.conn.ssl.rec.rec_type == change_cipher_spec)
            (take_change_cipher_spec-Fine n d rest p lt)
            (Each-if (d.conn.ssl.rec.rec_type == alert_record) (take_alert-Fine n d p) (
              Each-if (d.conn.ssl.rec.rec_type == handshake_record)
                (after_handshake-Fine n d rest (parse_handshake env d.conn p))
                (Each-if (d.conn.ssl.rec.rec_type == application_data)
                  (take_application_data-Fine n d rest p lt (ground arith))
                  (end (plain (λ e. cc) (λ e. cc))))))

  take_decrypted-Fine :
      (n : ℕ) (d : Decoder X) (rest : List ℕ) (o : Option (X × List ℕ))
      → length rest < n
      → Fine n d.out d.error (take_decrypted w env d rest o)
  unfolding take_decrypted
  take_decrypted-Fine n d rest none lt = answer refl
  take_decrypted-Fine n d rest (some (x, p)) lt =
      take_opened-Fine n _ rest (open_record w d.conn.ssl x p) lt

  take_body-Fine :
      (n : ℕ) (d : Decoder X) (c : List ℕ) (o : Option ℕ)
      → length c < n
      → Fine n d.out d.error (take_body w env d c o)
  unfolding take_body
  take_body-Fine n d c (some a) lt = answer refl
  take_body-Fine n d c none lt =
      Each-if (ltb (length c) d.conn.ssl.rec.len) (end (plain (λ e. cc) (λ e. cc))) (
        Each-if (ltb d.out.room d.conn.ssl.rec.len) (end (plain (λ e. cc) (λ e. cc))) (
          take_decrypted-Fine n d (drop d.conn.ssl.rec.len c) _
            (omega (arith, length-drop d.conn.ssl.rec.len c))))

  Behind : ℕ → Option (Rec × List ℕ) → Type 0
  Behind n none = Unit
  Behind n (some r) = length (r.1) < n

  take_header-Fine :
      (n : ℕ) (d : Decoder X) (o : Option (Rec × List ℕ))
      → Behind n o
      → Fine n d.out d.error (take_header w env d o)
  unfolding take_header Behind
  take_header-Fine n d none lt = end (plain (λ e. cc) (λ e. cc))
  take_header-Fine n d (some (r, c)) lt = take_body-Fine n (set_rec w r d) c _ lt

  Behind-if :
      (n : ℕ) (b : Bool) (x y : Option (Rec × List ℕ))
      → Behind n x
      → Behind n y
      → Behind n (if b then x else y)
  Behind-if n true x y p q = p
  Behind-if n false x y p q = q

  read_v3_header-Behind : (c : List ℕ) → Behind (length c) (read_v3_header c)
  unfolding read_v3_header Behind
  read_v3_header-Behind [] = tt
  read_v3_header-Behind (a ∷ []) = tt
  read_v3_header-Behind (a ∷ b ∷ []) = tt
  read_v3_header-Behind (a ∷ b ∷ c ∷ []) = tt
  read_v3_header-Behind (a ∷ b ∷ c ∷ d ∷ []) = tt
  read_v3_header-Behind (a ∷ b ∷ c ∷ d ∷ e ∷ r) = omega arith

  read_record_header-Behind : (s : Ssl) (c : List ℕ) → Behind (length c) (read_record_header s c)
  unfolding read_record_header Behind
  read_record_header-Behind s [] = tt
  read_record_header-Behind s (a ∷ []) = tt
  read_record_header-Behind s (a ∷ b ∷ c) =
      Behind-if _ (not (s.maj_ver == 0) || a / 2 ^ 7 % 2 == 0) _ _
        (read_v3_header-Behind (a ∷ b ∷ c)) (omega arith)

  pub decode_record-Fine :
      (d : Decoder X) → Fine (length d.inp) d.out d.error (decode_record w env d)
  unfolding decode_record
  decode_record-Fine d =
      Each-if (length d.inp == 0) (end (plain (λ e. cc) (λ e. cc)))
        (take_header-Fine (length d.inp) d _ (read_record_header-Behind d.conn.ssl d.inp))
