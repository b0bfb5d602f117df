-- ===== src/Keys/Suites.antt =====
-- The two suites with RC4: their MACs, and the keys of both ends once each has activated the other's.
use robin_mesh_v.Prelude.{
  ℕ, ◌+◌, ◌≤◌, ◌≡◌, refl, sym, ap, ◌∙◌, subst, Bool, true, false, none, some, some-injective, List,
  ◌++◌, arith, ltb, ◌==◌, if◌then◌else◌, length, take, drop, replicate, take-append, length-take,
  length-drop, not,
}
use robin_mesh_v.Cipher.{CipherSpec, null_id}
use robin_mesh_v.Arc4.{Arc4, matrix_arc4_init}
use robin_mesh_v.Keys.{
  Sec, key_pieces, key_turns, key_len, lay_out, create_key_block, copy_key, activate_read,
  activate_write, init_encrypt, init_decrypt,
}
use robin_mesh_v.Keys.Hmac.{MacFunction, next_seq, ssl3_hmac_md5, ssl3_hmac_sha1}
use robin_mesh_v.Keys.Secrets.{create_key_block-IsKeyBlock}
use robin_mesh_v.Keys.Mac.{length-ssl3_hmac_md5, length-ssl3_hmac_sha1}

-- A MAC of `n` bytes that looks at the first `n` bytes of the key, and counts the sequence number up.
pub record IsHmac (hmac : MacFunction) (n : ℕ) : Type 0 where
  pub by_key :
      (k l seq : List ℕ) (ty : ℕ) (bytes : List ℕ)
      → take n k ≡ take n l
      → hmac k seq ty bytes ≡ hmac l seq ty bytes
  pub size : (k seq : List ℕ) (ty : ℕ) (bytes : List ℕ) → length ((hmac k seq ty bytes).0) ≡ n
  pub counts :
      (k seq : List ℕ) (ty : ℕ) (bytes : List ℕ) → (hmac k seq ty bytes).1 ≡ (next_seq seq).0

-- The writer's keys `x` and the reader's `y`.
pub record InStep (n : ℕ) (x y : Sec) : Type 0 where
  pub keys : take n y.read_mac ≡ take n x.write_mac
  pub numbers : y.rem_seq ≡ x.seq
  pub contexts : y.decrypt_ctx ≡ x.encrypt_ctx

pub ssl3_hmac_md5-IsHmac : IsHmac ssl3_hmac_md5 16
unfolding ssl3_hmac_md5
ssl3_hmac_md5-IsHmac = record {
  by_key = λ k l seq ty bytes e. rw e refl;
  size = length-ssl3_hmac_md5;
  counts = λ k seq ty bytes. refl;
}

pub ssl3_hmac_sha1-IsHmac : IsHmac ssl3_hmac_sha1 20
unfolding ssl3_hmac_sha1
ssl3_hmac_sha1-IsHmac = record {
  by_key = λ k l seq ty bytes e. rw e refl;
  size = length-ssl3_hmac_sha1;
  counts = λ k seq ty bytes. refl;
}

take_front : (n : ℕ) (xs ys : List ℕ) → length xs ≡ n → take n (xs ++ ys) ≡ xs
take_front n xs ys e = subst (λ m. take m (xs ++ ys) ≡ xs) e (take-append xs ys)

-- A live buffer starts with what was copied.
take-copy_key :
    (block : List ℕ) (at n : ℕ) (old : List ℕ)
    → at + n ≤ length block
    → take n (copy_key block at n old) ≡ take n (drop at block)
take-copy_key block at n old l =
    take_front n (take n (drop at block)) (drop n old)
      (omega (arith, length-take n (drop at block), length-drop at block))

-- The same place of the same block makes the same live bytes.
live_same :
    (b1 b2 : List ℕ) (at1 at2 n : ℕ) (old1 old2 : List ℕ)
    → b2 ≡ b1
    → at2 ≡ at1
    → at1 + n ≤ length b1
    → take n (copy_key b2 at2 n old2) ≡ take n (copy_key b1 at1 n old1)
live_same b1 b2 at1 at2 n old1 old2 e f l =
    rw (e, f) (take-copy_key b1 at1 n old2 l ∙ sym (take-copy_key b1 at1 n old1 l))

-- Where the writer's pointers into the key block are, and the reader's.
module _ (c : CipherSpec) (u v : Sec) where
  mac_pointers : (a : Bool) → (lay_out c a u).w_mac_ptr ≡ (lay_out c (not a) v).r_mac_ptr
  unfolding lay_out
  mac_pointers true = refl
  mac_pointers false = refl

  key_pointers : (a : Bool) → (lay_out c a u).w_key_ptr ≡ (lay_out c (not a) v).r_key_ptr
  unfolding lay_out
  key_pointers true = refl
  key_pointers false = refl

lay_out-key_block : (c : CipherSpec) (a : Bool) (u : Sec) → (lay_out c a u).key_block ≡ u.key_block
unfolding lay_out
lay_out-key_block c true u = refl
lay_out-key_block c false u = refl

pointers_inside :
    (c : CipherSpec) (a : Bool) (u : Sec)
    → ((lay_out c a u).w_mac_ptr + c.mac_size ≤ key_len c)
      × ((lay_out c a u).w_key_ptr + c.key_size ≤ key_len c)
      × ((lay_out c a u).w_iv_ptr + c.iv_size ≤ key_len c)
unfolding lay_out
pointers_inside c true u = (omega arith, omega arith, omega arith)
pointers_inside c false u = (omega arith, omega arith, omega arith)

-- The key block of `createKeyBlock`, on either side.
abbrev block_of : CipherSpec → List ℕ → List ℕ → List ℕ → List ℕ
block_of c client server master =
    key_pieces master server client (key_turns (key_len c) 1 (key_len c)) 0

made_of :
    (c : CipherSpec) (a : Bool) (client server master : List ℕ) (u u1 : Sec)
    → create_key_block c a client server master u ≡ some u1
    → lay_out c a (record u { key_block = block_of c client server master }) ≡ u1
unfolding create_key_block
made_of c a client server master u u1 e = go (ltb 10 (key_turns (key_len c) 1 (key_len c))) e
  where
    go :
        (x : Bool)
        → (if x
            then none
            else some (lay_out c a (record u { key_block = block_of c client server master })))
          ≡ some u1
        → lay_out c a (record u { key_block = block_of c client server master }) ≡ u1
    go true f = absurd cc
    go false f = some-injective _ _ f

off : {A : Type 0} (p q : A) (b : Bool) → b ≡ false → (if b then p else q) ≡ q
off p q b h = rw h refl

-- What the two activations leave of a suite that is not the null suite.
record Written (c : CipherSpec) (u x : Sec) : Type 0 where
  key : x.write_mac ≡ copy_key u.key_block u.w_mac_ptr c.mac_size u.write_mac
  number : x.seq ≡ replicate 8 0
  context :
      x.encrypt_ctx
      ≡ matrix_arc4_init (take 16 (copy_key u.key_block u.w_key_ptr c.key_size u.write_key))

activate_write-Written :
    (c : CipherSpec) (u x : Sec)
    → (c.id == null_id) ≡ false
    → activate_write init_encrypt c u ≡ some x
    → Written c u x
unfolding activate_write init_encrypt
activate_write-Written c u x live e =
    let same = some-injective _ _ (sym (off _ _ (c.id == null_id) live) ∙ e) in
    record {
      key = ap (λ (z : Sec). z.write_mac) (sym same);
      number = ap (λ (z : Sec). z.seq) (sym same);
      context = ap (λ (z : Sec). z.encrypt_ctx) (sym same);
    }

record Read (c : CipherSpec) (u x : Sec) : Type 0 where
  key : x.read_mac ≡ copy_key u.key_block u.r_mac_ptr c.mac_size u.read_mac
  number : x.rem_seq ≡ replicate 8 0
  context :
      x.decrypt_ctx
      ≡ matrix_arc4_init (take 16 (copy_key u.key_block u.r_key_ptr c.key_size u.read_key))

activate_read-Read :
    (c : CipherSpec) (u x : Sec)
    → (c.id == null_id) ≡ false
    → activate_read init_decrypt c u ≡ some x
    → Read c u x
unfolding activate_read init_decrypt
activate_read-Read c u x live e =
    let same = some-injective _ _ (sym (off _ _ (c.id == null_id) live) ∙ e) in
    record {
      key = ap (λ (z : Sec). z.read_mac) (sym same);
      number = ap (λ (z : Sec). z.rem_seq) (sym same);
      context = ap (λ (z : Sec). z.decrypt_ctx) (sym same);
    }

-- Two ends that share the master secret and the randoms: once one has activated its write keys and the
-- other its read keys for a suite with RC4, the ciphers and MACs are in step, at the start of a context.
pub activate_read-activate_write :
    (c : CipherSpec) (a : Bool) (client server master : List ℕ) (u u1 v v1 x y : Sec)
    → (c.id == null_id) ≡ false
    → c.key_size ≡ 16
    → create_key_block c a client server master u ≡ some u1
    → create_key_block c (not a) client server master v ≡ some v1
    → activate_write init_encrypt c u1 ≡ some x
    → activate_read init_decrypt c v1 ≡ some y
    → InStep c.mac_size x y × (x.encrypt_ctx.byte_count ≡ 0)
unfolding matrix_arc4_init
activate_read-activate_write c a client server master u u1 v v1 x y live sized e f g h =
    let block = block_of c client server master in
    let w = activate_write-Written c u1 x live g in
    let r = activate_read-Read c v1 y live h in
    let m1 = made_of c a client server master u u1 e in
    let m2 = made_of c (not a) client server master v v1 f in
    let k = create_key_block-IsKeyBlock c a client server master u u1 e in
    let b1 : u1.key_block ≡ block =
      ap (λ (z : Sec). z.key_block) (sym m1) ∙ lay_out-key_block c a _ in
    let b2 : v1.key_block ≡ block =
      ap (λ (z : Sec). z.key_block) (sym m2) ∙ lay_out-key_block c (not a) _ in
    let same : v1.key_block ≡ u1.key_block = b2 ∙ sym b1 in
    let mac : v1.r_mac_ptr ≡ u1.w_mac_ptr =
      ap (λ (z : Sec). z.r_mac_ptr) (sym m2)
      ∙ sym (mac_pointers c _ _ a)
      ∙ ap (λ (z : Sec). z.w_mac_ptr) m1 in
    let key : v1.r_key_ptr ≡ u1.w_key_ptr =
      ap (λ (z : Sec). z.r_key_ptr) (sym m2)
      ∙ sym (key_pointers c _ _ a)
      ∙ ap (λ (z : Sec). z.w_key_ptr) m1 in
    let inside = pointers_inside c a (record u { key_block = block }) in
    let in_mac : u1.w_mac_ptr + c.mac_size ≤ length u1.key_block =
      omega (arith, inside.0, k.enough, ap (λ (z : Sec). z.w_mac_ptr) m1) in
    let in_key : u1.w_key_ptr + c.key_size ≤ length u1.key_block =
      omega (arith, inside.1, k.enough, ap (λ (z : Sec). z.w_key_ptr) m1) in
    let live_key =
      live_same u1.key_block v1.key_block u1.w_key_ptr v1.r_key_ptr c.key_size u1.write_key
        v1.read_key same key in_key in
    (
      record {
        keys =
            ap (take c.mac_size) r.key
            ∙ live_same u1.key_block v1.key_block u1.w_mac_ptr v1.r_mac_ptr c.mac_size u1.write_mac
                v1.read_mac same mac in_mac
            ∙ ap (take c.mac_size) (sym w.key);
        numbers = r.number ∙ sym w.number;
        contexts =
            r.context
            ∙ ap matrix_arc4_init (
                subst
                  (λ m.
                    take m (copy_key v1.key_block v1.r_key_ptr c.key_size v1.read_key)
                    ≡ take m (copy_key u1.key_block u1.w_key_ptr c.key_size u1.write_key))
                  sized live_key)
            ∙ sym w.context;
      },
      ap (λ (z : Arc4). z.byte_count) w.context,
    )
