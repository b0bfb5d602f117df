-- ===== src/Link/Rc4.antt =====
-- The suites with RC4: the ciphers and MACs of both ends, as src/cipherSuite.c has them, agree as long as
-- their keys, sequence numbers and contexts are in step, and stay in step.
use robin_mesh_v.Prelude.{
  ℕ, zero, suc, ◌+◌, ◌≤◌, ◌≡◌, refl, sym, ap, ◌∙◌, true, Option, none, some, some-injective, List,
  [], ◌∷◌, ◌++◌, arith, ◌==◌, length, take, length-append,
}
use robin_mesh_v.Ssl.{Ssl}
use robin_mesh_v.Session.{same_bytes}
use robin_mesh_v.Arc4.{Arc4, matrix_arc4, arc4_max_bytes}
use robin_mesh_v.Arc4.Stream.{
  matrix_arc4-Ran, Ran-matrix_arc4, matrix_arc4_twice, length-stream, byte_count-stream,
}
use robin_mesh_v.Keys.{Sec, encrypt, decrypt}
use robin_mesh_v.Keys.Hmac.{MacFunction, next_seq, generate_mac, verify_mac}
use robin_mesh_v.Keys.Suites.{IsHmac, InStep}
use robin_mesh_v.Record.Base.{Wire}
use robin_mesh_v.Encode.Base.{Sealer}
use robin_mesh_v.Link.Peer.{Agree}

-- The callbacks of a suite with RC4, over any for the rest.
abbrev pub rc4_sealer : MacFunction → Sealer Sec → Sealer Sec
rc4_sealer hmac base = record base {
  generate_mac = λ s x ty plain. generate_mac hmac ty plain x;
  encrypt = λ s x bytes. encrypt x bytes;
}

abbrev pub rc4_wire : MacFunction → ℕ → Wire Sec → Wire Sec
rc4_wire hmac n base = record base {
  decrypt = λ s y bytes. decrypt y bytes;
  verify_mac = λ s y ty plain mac. (verify_mac hmac n ty plain mac y).0;
  next_sequence = λ s y. record y { rem_seq = (next_seq y.rem_seq).0 };
}

same_bytes_self : (n : ℕ) (b : List ℕ) → same_bytes n b b ≡ true
unfolding same_bytes
same_bytes_self zero b = refl
same_bytes_self (suc n) [] = refl
same_bytes_self (suc n) (x ∷ b) =
    let e : (x == x) ≡ true = ground arith in rw (e, same_bytes_self n b) refl

-- What `encrypt` did where it succeeded.
record Encrypted (x x2 : Sec) (plain bytes : List ℕ) : Type 0 where
  ran : matrix_arc4 x.encrypt_ctx plain ≡ (x2.encrypt_ctx, some bytes)
  rest : x2 ≡ record x { encrypt_ctx = x2.encrypt_ctx }

encrypt-Encrypted :
    (x x2 : Sec) (plain bytes : List ℕ)
    → encrypt x plain ≡ some (x2, bytes)
    → Encrypted x x2 plain bytes
unfolding encrypt
encrypt-Encrypted x x2 plain bytes e = go (matrix_arc4 x.encrypt_ctx plain) refl e
  where
    go :
        (r : Arc4 × Option (List ℕ))
        → matrix_arc4 x.encrypt_ctx plain ≡ r
        → ◌≡◌ {A = Option (Sec × List ℕ)}
            (elim r.1 [ none ↦ none | some out ↦ some (record x { encrypt_ctx = r.0 }, out) ])
            (some (x2, bytes))
        → Encrypted x x2 plain bytes
    go (ctx, none) f e = absurd cc
    go (ctx, some out) f e =
        let whole = some-injective _ _ e in
        let same : record x { encrypt_ctx = ctx } ≡ x2 = ap (λ p. p.0) whole in
        record {
          ran =
              f
              ∙ ap (λ (s : Sec). (s.encrypt_ctx, some out)) same
              ∙ ap (λ b. (x2.encrypt_ctx, some b)) (ap (λ p. p.1) whole);
          rest = sym same ∙ ap (λ (s : Sec). record x { encrypt_ctx = s.encrypt_ctx }) same;
        }

-- As long as less than the limit has gone through a context, `matrixArc4` succeeds, and counts on.
matrix_arc4-some :
    (a : Arc4) (bytes : List ℕ)
    → a.byte_count + length bytes ≤ arc4_max_bytes
    → (r : Arc4 × List ℕ) × (matrix_arc4 a bytes ≡ (r.0, some (r.1)))
matrix_arc4-some a bytes l =
    (_, Ran-matrix_arc4 a bytes (a.byte_count + length bytes) (omega arith) l)

encrypt-ran :
    (x : Sec) (ctx : Arc4) (bytes out : List ℕ)
    → matrix_arc4 x.encrypt_ctx bytes ≡ (ctx, some out)
    → encrypt x bytes ≡ some (record x { encrypt_ctx = ctx }, out)
unfolding encrypt
encrypt-ran x ctx bytes out e =
    rw (e, encrypt) (ap (λ r. some (record x { encrypt_ctx = r.0 }, out)) e)

decrypt-ran :
    (y : Sec) (ctx : Arc4) (bytes out : List ℕ)
    → matrix_arc4 y.decrypt_ctx bytes ≡ (ctx, some out)
    → decrypt y bytes ≡ some (record y { decrypt_ctx = ctx }, out)
unfolding decrypt
decrypt-ran y ctx bytes out e =
    rw (e, decrypt) (ap (λ r. some (record y { decrypt_ctx = r.0 }, out)) e)

length-matrix_arc4 :
    (a b : Arc4) (bytes out : List ℕ)
    → matrix_arc4 a bytes ≡ (b, some out)
    → length out ≡ length bytes
length-matrix_arc4 a b bytes out e =
    let r = matrix_arc4-Ran a b bytes out e in
    ap length r.bytes_out ∙ length-stream (record a { byte_count = r.count }) bytes

byte_count-matrix_arc4 :
    (a b : Arc4) (bytes out : List ℕ)
    → matrix_arc4 a bytes ≡ (b, some out)
    → b.byte_count ≤ a.byte_count + length bytes
byte_count-matrix_arc4 a b bytes out e =
    let r = matrix_arc4-Ran a b bytes out e in
    let counted : b.byte_count ≡ r.count =
      ap (λ (c : Arc4). c.byte_count) r.state
      ∙ byte_count-stream (record a { byte_count = r.count }) bytes in
    omega (arith, counted, r.counted)

module _ (hmac : MacFunction) (n : ℕ) (ok : IsHmac hmac n) (base : Sealer Sec) (wire : Wire Sec)
    (s t : Ssl) (x y : Sec) (p : InStep n x y) (sized : s.en_mac_size ≡ n) (top : ℕ)
    (fresh : x.encrypt_ctx.byte_count + (top + n) ≤ arc4_max_bytes) where
  mac_of : ℕ → List ℕ → List ℕ
  mac_of ty plain = (generate_mac hmac ty plain x).0

  mac_of-size : (ty : ℕ) (plain : List ℕ) → length (mac_of ty plain) ≡ n
  unfolding mac_of generate_mac
  mac_of-size ty plain = ok.size x.write_mac x.seq ty plain

  -- The reader's keys when it has decrypted.
  reader_behind : ℕ → List ℕ → List ℕ → Sec
  reader_behind ty plain pad = record y {
    decrypt_ctx = (matrix_arc4 x.encrypt_ctx (plain ++ (mac_of ty plain ++ pad))).0;
  }

  encrypt_some :
      (ty : ℕ) (plain pad : List ℕ)
      → length plain + length pad ≤ top
      → (e : Sec × List ℕ) × (encrypt
            (generate_mac hmac ty plain x).1
            (plain ++ (mac_of ty plain ++ pad))
          ≡ some e)
  unfolding generate_mac
  encrypt_some ty plain pad l =
      let r = matrix_arc4-some x.encrypt_ctx (plain ++ (mac_of ty plain ++ pad)) (
        omega (
          arith,
          length-append plain (mac_of ty plain ++ pad),
          length-append (mac_of ty plain) pad,
          mac_of-size ty plain,
        )) in
      (_, encrypt-ran (generate_mac hmac ty plain x).1 _ _ _ (r.1))

  decrypted :
      (ty : ℕ) (plain pad bytes : List ℕ) (x2 : Sec)
      → encrypt (generate_mac hmac ty plain x).1 (plain ++ (mac_of ty plain ++ pad))
        ≡ some (x2, bytes)
      → decrypt y bytes ≡ some (reader_behind ty plain pad, plain ++ (mac_of ty plain ++ pad))
  unfolding reader_behind generate_mac
  decrypted ty plain pad bytes x2 e =
      let ran = (encrypt-Encrypted _ x2 _ bytes e).ran in
      let back = matrix_arc4_twice x.encrypt_ctx x2.encrypt_ctx _ bytes ran in
      decrypt-ran y x2.encrypt_ctx bytes _ (ap (λ c. matrix_arc4 c bytes) p.contexts ∙ back)
      ∙ ap (λ c. some (record y { decrypt_ctx = c }, plain ++ (mac_of ty plain ++ pad)))
          (sym (ap (λ r. r.0) ran))

  verified :
      (ty : ℕ) (plain pad : List ℕ)
      → (verify_mac hmac n ty plain (mac_of ty plain) (reader_behind ty plain pad)).0 ≡ true
  unfolding verify_mac mac_of generate_mac reader_behind
  verified ty plain pad =
      rw (p.numbers, ok.by_key y.read_mac x.write_mac x.seq ty plain p.keys) (same_bytes_self n _)

  -- The ciphers and MACs of both ends agree.
  pub InStep-Agree : Agree (rc4_sealer hmac base) (rc4_wire hmac n wire) s x t y top
  unfolding mac_of
  InStep-Agree = record {
    length_mac = λ ty plain. mac_of-size ty plain ∙ sym sized;
    length_encrypt = λ x1 x2 plain bytes e.
        length-matrix_arc4 x1.encrypt_ctx x2.encrypt_ctx plain bytes
          (encrypt-Encrypted x1 x2 plain bytes e).ran;
    encrypts = λ ty plain pad l f. encrypt_some ty plain pad l;
    behind = reader_behind;
    opens =
        λ rec ty plain pad bytes x2 e. (decrypted ty plain pad bytes x2 e, verified ty plain pad);
  }

  -- After a record both ends are in step again.
  pub InStep-next :
      (u : Ssl) (ty : ℕ) (plain pad cipher : List ℕ) (x2 : Sec)
      → (let m = generate_mac hmac ty plain x in
          encrypt m.1 (plain ++ (m.0 ++ pad)) ≡ some (x2, cipher))
      → InStep n x2 ((rc4_wire hmac n wire).next_sequence u (InStep-Agree.behind ty plain pad))
        × (x2.encrypt_ctx.byte_count ≤ x.encrypt_ctx.byte_count + (length plain + (n + length pad)))
  unfolding generate_mac reader_behind mac_of InStep-Agree
  InStep-next u ty plain pad cipher x2 e =
      let r = encrypt-Encrypted _ x2 _ cipher e in
      let size : length (plain ++ (mac_of ty plain ++ pad)) ≡ length plain + (n + length pad) =
        omega (
          arith,
          length-append plain (mac_of ty plain ++ pad),
          length-append (mac_of ty plain) pad,
          mac_of-size ty plain,
        ) in
      (
        record {
          keys = p.keys ∙ ap (λ (z : Sec). take n z.write_mac) (sym r.rest);
          numbers =
              ap (λ q. (next_seq q).0) p.numbers
              ∙ sym (ok.counts x.write_mac x.seq ty plain)
              ∙ ap (λ (z : Sec). z.seq) (sym r.rest);
          contexts = ap (λ q. q.0) r.ran;
        },
        omega (arith, byte_count-matrix_arc4 x.encrypt_ctx x2.encrypt_ctx _ cipher r.ran, size),
      )
