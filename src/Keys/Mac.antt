-- ===== src/Keys/Mac.antt =====
-- The MACs of SSL 3 (src/sslv3.c) as their formulas, and the sequence number as a counter.
use robin_mesh_v.Prelude.{
  concat, ℕ, suc, ◌+◌, ◌*◌, ◌%◌, ◌≡◌, ◌⊎◌, inl, inr, refl, ap, ◌∙◌, Bool, true, false, List, [],
  ◌∷◌, ◌++◌, arith, ◌==◌, length, take, append_nil, IsBytes,
}
use robin_mesh_v.Hash.Md5.{matrix_md5_init, matrix_md5_update, matrix_md5_final}
use robin_mesh_v.Hash.Sha1.{matrix_sha1_init, matrix_sha1_update}
use robin_mesh_v.Hash.Whole.{md5, sha1, length-md5, length-sha1, matrix_md5_final-update_all}
use robin_mesh_v.Keys.{sha1_hash, pad1, pad2}
use robin_mesh_v.Keys.Hmac.{mac_head, count_byte, next_seq, ssl3_hmac_sha1, ssl3_hmac_md5}
use robin_mesh_v.Keys.Secrets.{sha1_hash-update_all}

-- The MAC of SSL 3 for a hash, with `n` bytes of padding in each of its two calls.
abbrev pub ssl3_mac : (List ℕ → List ℕ) → ℕ → List ℕ → List ℕ → ℕ → List ℕ → List ℕ
ssl3_mac hash n key seq ty bytes =
    hash
      (key ++ (pad2 n ++ hash (key ++ (pad1 n ++ (seq ++ (mac_head ty (length bytes) ++ bytes))))))

-- The number that bytes stand for, the highest byte first.
abbrev pub weight : List ℕ → ℕ
weight [] = 1
weight (b ∷ bs) = 256 * weight bs

abbrev pub be_value : List ℕ → ℕ
be_value [] = 0
be_value (b ∷ bs) = b * weight bs + be_value bs

abbrev pub carried : Bool → List ℕ → ℕ
carried true bs = weight bs
carried false bs = 0

weight-next_seq : (bs : List ℕ) → weight ((next_seq bs).0) ≡ weight bs
unfolding next_seq count_byte
weight-next_seq [] = refl
weight-next_seq (b ∷ bs) = go (next_seq bs) (weight-next_seq bs)
  where
    go :
        (r : List ℕ × Bool)
        → weight (r.0) ≡ weight bs
        → weight ((count_byte b r).0) ≡ 256 * weight bs
    go (rest, true) e = ap (λ n. 256 * n) e
    go (rest, false) e = ap (λ n. 256 * n) e

spread : (b w : ℕ) → (b + 1) * w ≡ b * w + w
spread b w = grind arith

-- One more, and what is carried out at the top.
next_seq-be_value :
    (bs : List ℕ)
    → IsBytes bs
    → be_value ((next_seq bs).0) + carried ((next_seq bs).1) bs ≡ be_value bs + 1
unfolding next_seq count_byte
next_seq-be_value [] i = refl
next_seq-be_value (b ∷ bs) i = go (next_seq bs) (next_seq-be_value bs (i.1)) (weight-next_seq bs)
  where
    last :
        (m n w : ℕ) (x : Bool)
        → ((b + 1) % 256 == 0) ≡ x
        → m + w ≡ n + 1
        → w ≡ weight bs
        → (b + 1) % 256 * w + m + carried x (b ∷ bs) ≡ b * weight bs + n + 1
    last m n w true e f g =
        let full : b ≡ 255 = ground (arith, i.0) in rw (full, g) (omega (arith, f, g))
    last m n w false e f g =
        let room : (b + 1) % 256 ≡ b + 1 = ground (arith, i.0) in
        rw (room, g) (omega (arith, spread b (weight bs), f, g))

    go :
        (r : List ℕ × Bool)
        → be_value (r.0) + carried (r.1) bs ≡ be_value bs + 1
        → weight (r.0) ≡ weight bs
        → be_value ((count_byte b r).0) + carried ((count_byte b r).1) (b ∷ bs)
          ≡ b * weight bs + be_value bs + 1
    go (rest, true) e w =
        last (be_value rest) (be_value bs) (weight rest) ((b + 1) % 256 == 0) refl
          (ap (λ q. be_value rest + q) w ∙ e) w
    go (rest, false) e w = rw w (omega (arith, e))

length-next_seq : (bs : List ℕ) → length ((next_seq bs).0) ≡ length bs
unfolding next_seq count_byte
length-next_seq [] = refl
length-next_seq (b ∷ bs) = go (next_seq bs) (length-next_seq bs)
  where
    go :
        (r : List ℕ × Bool)
        → length (r.0) ≡ length bs
        → length ((count_byte b r).0) ≡ suc (length bs)
    go (rest, true) e = ap suc e
    go (rest, false) e = ap suc e

-- The pieces that the two calls get, put together.
unnest :
    (hash : List ℕ → List ℕ) (n : ℕ) (key seq : List ℕ) (ty : ℕ) (bytes : List ℕ)
    → hash (
        concat (
          key
          ∷ pad2 n
          ∷ hash (concat (key ∷ pad1 n ∷ seq ∷ mac_head ty (length bytes) ∷ bytes ∷ []))
          ∷ []))
      ≡ ssl3_mac hash n key seq ty bytes
unnest hash n key seq ty bytes =
    ap (λ q. hash (key ++ (pad2 n ++ q))) (append_nil _)
    ∙ ap
        (λ q.
          hash (
            key
            ++ (pad2 n ++ hash (key ++ (pad1 n ++ (seq ++ (mac_head ty (length bytes) ++ q)))))))
        (append_nil bytes)

-- What a MAC is for a key, a sequence number, a type and bytes: the formula of SSL 3; and it leaves the
-- next number, which is all ones once it has come to the end.
pub record IsMac (hash : List ℕ → List ℕ) (n m : ℕ) (key seq : List ℕ) (ty : ℕ) (bytes : List ℕ)
    (r : List ℕ × List ℕ) : Type 0 where
  pub mac : r.0 ≡ ssl3_mac hash n (take m key) (take 8 seq) ty bytes
  pub size : length (r.0) ≡ m
  pub next : (be_value (r.1) ≡ be_value seq + 1) ⊎ (be_value (r.1) + weight seq ≡ be_value seq + 1)
  pub kept : length (r.1) ≡ length seq

next_number :
    (seq : List ℕ)
    → IsBytes seq
    → (be_value ((next_seq seq).0) ≡ be_value seq + 1)
      ⊎ (be_value ((next_seq seq).0) + weight seq ≡ be_value seq + 1)
next_number seq i = go ((next_seq seq).1) (next_seq-be_value seq i)
  where
    go :
        (x : Bool)
        → be_value ((next_seq seq).0) + carried x seq ≡ be_value seq + 1
        → (be_value ((next_seq seq).0) ≡ be_value seq + 1)
          ⊎ (be_value ((next_seq seq).0) + weight seq ≡ be_value seq + 1)
    go true e = inr e
    go false e = inl (omega (arith, e))

ssl3_hmac_sha1-mac :
    (key seq : List ℕ) (ty : ℕ) (bytes : List ℕ)
    → (ssl3_hmac_sha1 key seq ty bytes).0 ≡ ssl3_mac sha1 40 (take 20 key) (take 8 seq) ty bytes
unfolding ssl3_hmac_sha1
ssl3_hmac_sha1-mac key seq ty bytes =
    let text = take 8 seq ∷ mac_head ty (length bytes) ∷ bytes ∷ [] in
    ap
      (λ h. sha1_hash (
        matrix_sha1_update
          (matrix_sha1_update (matrix_sha1_update matrix_sha1_init (take 20 key)) (pad2 40)) h))
      (sha1_hash-update_all (take 20 key ∷ pad1 40 ∷ text))
    ∙ sha1_hash-update_all
        (take 20 key ∷ pad2 40 ∷ sha1 (concat (take 20 key ∷ pad1 40 ∷ text)) ∷ [])
    ∙ unnest sha1 40 (take 20 key) (take 8 seq) ty bytes

pub length-ssl3_hmac_sha1 :
    (key seq : List ℕ) (ty : ℕ) (bytes : List ℕ) → length ((ssl3_hmac_sha1 key seq ty bytes).0) ≡ 20
length-ssl3_hmac_sha1 key seq ty bytes =
    ap length (ssl3_hmac_sha1-mac key seq ty bytes) ∙ length-sha1 _

ssl3_hmac_md5-mac :
    (key seq : List ℕ) (ty : ℕ) (bytes : List ℕ)
    → (ssl3_hmac_md5 key seq ty bytes).0 ≡ ssl3_mac md5 48 (take 16 key) (take 8 seq) ty bytes
unfolding ssl3_hmac_md5
ssl3_hmac_md5-mac key seq ty bytes =
    let text = take 8 seq ∷ mac_head ty (length bytes) ∷ bytes ∷ [] in
    ap
      (λ h. matrix_md5_final (
        matrix_md5_update
          (matrix_md5_update (matrix_md5_update matrix_md5_init (take 16 key)) (pad2 48)) h))
      (matrix_md5_final-update_all (take 16 key ∷ pad1 48 ∷ text))
    ∙ matrix_md5_final-update_all
        (take 16 key ∷ pad2 48 ∷ md5 (concat (take 16 key ∷ pad1 48 ∷ text)) ∷ [])
    ∙ unnest md5 48 (take 16 key) (take 8 seq) ty bytes

pub length-ssl3_hmac_md5 :
    (key seq : List ℕ) (ty : ℕ) (bytes : List ℕ) → length ((ssl3_hmac_md5 key seq ty bytes).0) ≡ 16
length-ssl3_hmac_md5 key seq ty bytes =
    ap length (ssl3_hmac_md5-mac key seq ty bytes) ∙ length-md5 _

-- ssl3HMACMd5 gives the MAC of SSL 3 over MD5, 16 bytes, and counts the sequence number up, from all ones
-- to zero.
pub ssl3_hmac_md5-IsMac :
    (key seq : List ℕ) (ty : ℕ) (bytes : List ℕ)
    → IsBytes seq
    → IsMac md5 48 16 key seq ty bytes (ssl3_hmac_md5 key seq ty bytes)
unfolding ssl3_hmac_md5
ssl3_hmac_md5-IsMac key seq ty bytes i = record {
  mac = ssl3_hmac_md5-mac key seq ty bytes;
  size = length-ssl3_hmac_md5 key seq ty bytes;
  next = next_number seq i;
  kept = length-next_seq seq;
}
