-- ===== src/Keys/Secrets.antt =====
-- The master secret and the key block (src/sslv3.c) as the formulas of SSL 3 over MD5 and SHA-1.
use robin_mesh_v.Prelude.{
  concat, ℕ, zero, suc, ◌+◌, ◌*◌, ◌≤◌, ◌<◌, ◌≡◌, ◌⊎◌, ◌↔◌, inl, inr, refl, sym, ap, ◌∙◌, Bool, true,
  false, none, some, List, [], ◌∷◌, ◌++◌, subst, some-injective, arith, ltb, Bool-cases,
  if◌then◌else◌, length, length-append, append_nil,
}
use robin_mesh_v.Cipher.{CipherSpec}
use robin_mesh_v.Hash.Sha1.{matrix_sha1_init, matrix_sha1_update}
use robin_mesh_v.Hash.Final.{update_all}
use robin_mesh_v.Hash.Whole.{
  md5, sha1, length-md5, matrix_md5_final-update_all, matrix_sha1_final-update_all,
}
use robin_mesh_v.Keys.{
  or_nothing, sha1_hash, salt, key_piece, key_pieces, key_turns, key_len, max_key_block_size, Sec,
  create_key_block, lay_out,
}

pub sha1_hash-update_all :
    (pieces : List (List ℕ))
    → sha1_hash (update_all matrix_sha1_update matrix_sha1_init pieces) ≡ sha1 (concat pieces)
sha1_hash-update_all pieces = ap or_nothing (matrix_sha1_final-update_all pieces)

-- The key material of SSL 3, MD5(secret + SHA(salt + secret + random1 + random2)).
abbrev pub material : List ℕ → List ℕ → List ℕ → ℕ → List ℕ
material secret random1 random2 i =
    md5 (secret ++ sha1 (salt i ++ (secret ++ (random1 ++ random2))))

module _ (secret random1 random2 : List ℕ) where
  key_piece-material :
      (i : ℕ) → key_piece secret random1 random2 i ≡ material secret random1 random2 i
  unfolding key_piece
  key_piece-material i =
      let inner = sha1_hash-update_all (salt i ∷ secret ∷ random1 ∷ random2 ∷ []) in
      rw inner (
        matrix_md5_final-update_all
          (secret ∷ sha1 (concat (salt i ∷ secret ∷ random1 ∷ random2 ∷ [])) ∷ [])
        ∙ ap (λ q. md5 (secret ++ q)) (append_nil _)
        ∙ ap (λ q. md5 (secret ++ sha1 (salt i ++ (secret ++ (random1 ++ q)))))
            (append_nil random2))

  length-key_pieces : (n i : ℕ) → length (key_pieces secret random1 random2 n i) ≡ 16 * n
  unfolding key_pieces
  length-key_pieces zero i = refl
  length-key_pieces (suc n) i = omega (
    arith,
    length-append (key_piece secret random1 random2 i)
        (key_pieces secret random1 random2 n (i + 1)),
    ap length (key_piece-material i),
    length-md5 (secret ++ sha1 (salt i ++ (secret ++ (random1 ++ random2)))),
    length-key_pieces n (i + 1),
  )

-- The loop stops at the first count of turns that is enough.
key_turns-least :
    (fuel k need : ℕ)
    → need ≤ fuel + k
    → (need ≤ 16 * key_turns fuel k need)
      × ((key_turns fuel k need ≡ k) ⊎ (16 * key_turns fuel k need < need + 16))
unfolding key_turns
key_turns-least zero k need h = (omega arith, inl refl)
key_turns-least (suc fuel) k need h = elim (Bool-cases (ltb (16 * k) need)) [
  | inl e ↦
      let rest = key_turns-least fuel (k + 1) need (omega arith) in
      rw (e, key_turns) (rest.0, inr (over (key_turns fuel (k + 1) need) (ground arith) (rest.1)))
  | inr e ↦ rw (e, key_turns) (ground arith, inl refl)
]
  where
    over : (t : ℕ) → 16 * k < need → (t ≡ k + 1) ⊎ (16 * t < need + 16) → 16 * t < need + 16
    over t m (inl e) = omega arith
    over t m (inr l) = l

-- What `createKeyBlock` leaves for a suite: the key material of SSL 3, with the randoms the other way
-- round, in as many pieces of 16 bytes as it takes.
pub record IsKeyBlock (c : CipherSpec) (master client server block : List ℕ) : Type 0 where
  pub turns : ℕ
  pub material : block ≡ key_pieces master server client turns 0
  pub size : length block ≡ 16 * turns
  pub enough : key_len c ≤ length block
  pub least : (turns ≡ 1) ⊎ (length block < key_len c + 16)

pub create_key_block-IsKeyBlock :
    (c : CipherSpec) (server_side : Bool) (client server master : List ℕ) (sec made : Sec)
    → create_key_block c server_side client server master sec ≡ some made
    → IsKeyBlock c master client server made.key_block
unfolding create_key_block lay_out
create_key_block-IsKeyBlock c server_side client server master sec made e = go (ltb 10 turns) e
  where
    turns : ℕ
    turns = key_turns (key_len c) 1 (key_len c)

    block : List ℕ
    block = key_pieces master server client turns 0

    kept : (b : Bool) → (lay_out c b (record sec { key_block = block })).key_block ≡ block
    kept true = refl
    kept false = refl

    sized : length block ≡ 16 * turns
    sized = length-key_pieces master server client turns 0

    last :
        (turns ≡ 1) ⊎ (16 * turns < key_len c + 16) → (turns ≡ 1) ⊎ (length block < key_len c + 16)
    last (inl f) = inl f
    last (inr l) = inr (omega (arith, sized))

    whole : IsKeyBlock c master client server block
    whole =
        let l = key_turns-least (key_len c) 1 (key_len c) (omega arith) in
        record {
          turns = turns;
          material = refl;
          size = sized;
          enough = omega (arith, sized, l.0);
          least = last (l.1);
        }

    go :
        (x : Bool)
        → (if x then none else some (lay_out c server_side (record sec { key_block = block })))
          ≡ some made
        → IsKeyBlock c master client server made.key_block
    go true f = absurd cc
    go false f =
        subst (IsKeyBlock c master client server)
          (sym (kept server_side) ∙ ap (λ s. s.key_block) (some-injective _ _ f)) whole

-- createKeyBlock fails exactly for a suite that needs more than 160 bytes of key material.
pub create_key_block-none_iff :
    (c : CipherSpec) (server_side : Bool) (client server master : List ℕ) (sec : Sec)
    → (create_key_block c server_side client server master sec ≡ none) ↔ (160 < key_len c)
unfolding create_key_block
create_key_block-none_iff c server_side client server master sec =
    let l = key_turns-least (key_len c) 1 (key_len c) (omega arith) in
    go (ltb 10 (key_turns (key_len c) 1 (key_len c))) refl (l.0) (l.1)
  where
    block : List ℕ
    block = key_pieces master server client (key_turns (key_len c) 1 (key_len c)) 0

    few : (t : ℕ) → ltb 10 t ≡ true → (t ≡ 1) ⊎ (16 * t < key_len c + 16) → 160 < key_len c
    few t e (inl f) = absurd (ground arith)
    few t e (inr m) = ground arith

    go :
        (x : Bool)
        → ltb 10 (key_turns (key_len c) 1 (key_len c)) ≡ x
        → key_len c ≤ 16 * key_turns (key_len c) 1 (key_len c)
        → (key_turns (key_len c) 1 (key_len c) ≡ 1)
          ⊎ (16 * key_turns (key_len c) 1 (key_len c) < key_len c + 16)
        → ((if x then none else some (lay_out c server_side (record sec { key_block = block })))
            ≡ none)
          ↔ (160 < key_len c)
    go true e enough least = (λ f. few _ e least, λ f. refl)
    go false e enough least = (λ f. absurd cc, λ f. absurd (ground arith))

-- Where createKeyBlock succeeds, it writes past the end of keyBlock exactly for a suite that needs more
-- than 96 bytes of key material.
pub create_key_block_overrun :
    (c : CipherSpec) (server_side : Bool) (client server master : List ℕ) (sec made : Sec)
    → create_key_block c server_side client server master sec ≡ some made
    → (max_key_block_size < length made.key_block) ↔ (96 < key_len c)
create_key_block_overrun c server_side client server master sec made e =
    let k = create_key_block-IsKeyBlock c server_side client server master sec made e in
    go (length made.key_block) k.turns k.size k.enough k.least
  where
    go :
        (n turns : ℕ)
        → n ≡ 16 * turns
        → key_len c ≤ n
        → (turns ≡ 1) ⊎ (n < key_len c + 16)
        → (max_key_block_size < n) ↔ (96 < key_len c)
    go n turns size enough (inl f) = (λ l. absurd (omega arith), λ l. absurd (omega arith))
    go n turns size enough (inr m) = (λ l. omega arith, λ l. omega arith)
