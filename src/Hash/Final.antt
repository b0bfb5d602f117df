-- ===== src/Hash/Final.antt =====
-- The padding at the end: what `finish` gives is the digest of all that the context has taken in.
use robin_mesh_v.Prelude.{
  concat, concat, ℕ, zero, suc, ◌+◌, ◌-◌, ◌*◌, ◌%◌, ◌^◌, ◌≤◌, ◌<◌, ◌≡◌, refl, sym, ap, ◌∙◌, subst,
  Bool, true, false, List, [], ◌∷◌, ◌++◌, arith, ltb, if◌then◌else◌, length, replicate,
  length-append, length-replicate, append_nil, append_assoc,
}
use robin_mesh_v.Hash.{HashState, update, spill, seal, finish}
use robin_mesh_v.Hash.Stream.{
  AreBlocks, pad, compress_all, digest, Holds, concat-append, AreBlocks-append, compress_all-append,
  length-concat, digest-blocks, update-Holds, fresh-Holds,
}

zeros : ℕ → List ℕ
zeros n = replicate n 0

zeros-add : (m n : ℕ) → zeros (m + n) ≡ zeros m ++ zeros n
unfolding zeros
zeros-add zero n = let e : 0 + n ≡ n = omega arith in ap zeros e
zeros-add (suc m) n =
    let e : suc m + n ≡ suc (m + n) = omega arith in ap zeros e ∙ ap (λ q. 0 ∷ q) (zeros-add m n)

module _ {S : Type 0} (compress : List ℕ → S → S) (store : ℕ → List ℕ) (start : S)
    (length-store : (n : ℕ) → length (store n) ≡ 8) (h : HashState S) (msg : List ℕ)
    (p : Holds compress start 64 h msg) where
  length-msg : length msg ≡ 64 * length p.blocks + length h.buf
  length-msg = omega (
    arith,
    ap length (sym p.joined),
    length-append (concat p.blocks) h.buf,
    length-concat p.blocks p.are,
  )

  -- The bits that are counted, with those of the bytes that wait.
  counted_bits : (h.len + length h.buf * 8) % 2 ^ 64 ≡ length msg * 8 % 2 ^ 64
  counted_bits = omega (arith, p.counted, length-msg)

  -- The blocks so far and the tail with its padding are the padded message.
  padded :
      (z : ℕ)
      → z ≡ (119 - length msg % 64) % 64
      → concat p.blocks
          ++ (h.buf ++ (0x80 ∷ (zeros z ++ store ((h.len + length h.buf * 8) % 2 ^ 64))))
        ≡ pad store msg
  unfolding zeros
  padded z e = sym (append_assoc (concat p.blocks) h.buf _) ∙ rw (p.joined, e, counted_bits) refl

  -- The bytes that wait, with the 1 bit behind them, and the length as it is written.
  last : List ℕ
  last = h.buf ++ (0x80 ∷ [])

  bits : List ℕ
  bits = store ((h.len + length h.buf * 8) % 2 ^ 64)

  length-last : length last ≡ length h.buf + 1
  unfolding last
  length-last = length-append h.buf (0x80 ∷ [])

  length-zeros : (n : ℕ) → length (zeros n) ≡ n
  unfolding zeros
  length-zeros n = length-replicate n 0

  length-bits : length bits ≡ 8
  unfolding bits
  length-bits = length-store _

  ends : (n : ℕ) → length (zeros n ++ bits) ≡ n + 8
  ends n = omega (arith, length-append (zeros n) bits, length-zeros n, length-bits)

  -- More blocks behind those compressed so far, which make up the padded message with them.
  digest-more :
      (more : List (List ℕ))
      → AreBlocks more
      → concat p.blocks ++ concat more ≡ pad store msg
      → compress_all compress more h.state ≡ digest compress store start msg
  digest-more more q e =
      ap (compress_all compress more) (sym p.folded)
      ∙ sym (compress_all-append compress p.blocks more start)
      ∙ sym (
          digest-blocks compress store start msg (p.blocks ++ more)
            (AreBlocks-append p.blocks more p.are q) (concat-append p.blocks more ∙ e))

  -- The length still fits into the block.
  one_block :
      length last ≤ 56
      → compress (last ++ (zeros (56 - length last) ++ bits)) h.state
        ≡ digest compress store start msg
  one_block l =
      digest-more ((last ++ (zeros (56 - length last) ++ bits)) ∷ [])
        (
          omega (
            arith,
            length-append last (zeros (56 - length last) ++ bits),
            ends (56 - length last),
          ),
          _,
        )
        (whole (omega (arith, length-last, length-msg, l)))
    where
      whole :
          56 - length last ≡ (119 - length msg % 64) % 64
          → concat p.blocks ++ ((last ++ (zeros (56 - length last) ++ bits)) ++ []) ≡ pad store msg
      whole e =
          unfold last bits in
          ap (λ q. concat p.blocks ++ q) (append_nil _ ∙ append_assoc h.buf (0x80 ∷ []) _)
          ∙ padded (56 - length (h.buf ++ (0x80 ∷ []))) e

  -- It goes into a block of its own.
  two_blocks :
      56 < length last
      → compress (zeros 56 ++ bits) (compress (last ++ zeros (64 - length last)) h.state)
        ≡ digest compress store start msg
  two_blocks l =
      digest-more ((last ++ zeros (64 - length last)) ∷ (zeros 56 ++ bits) ∷ [])
        (
          omega (
            arith,
            length-append last (zeros (64 - length last)),
            length-zeros (64 - length last),
            length-last,
            p.below,
          ),
          (ends 56, _),
        )
        (ap (λ q. concat p.blocks ++ q) shape
          ∙ whole (omega (arith, length-last, length-msg, l, p.below)))
    where
      n : ℕ
      n = 64 - length last

      shape :
          (last ++ zeros (64 - length last)) ++ ((zeros 56 ++ bits) ++ [])
          ≡ last ++ (zeros (64 - length last + 56) ++ bits)
      shape =
          ap (λ q. (last ++ zeros (64 - length last)) ++ q) (append_nil (zeros 56 ++ bits))
          ∙ append_assoc last (zeros (64 - length last)) (zeros 56 ++ bits)
          ∙ ap (λ q. last ++ q)
              (sym (append_assoc (zeros (64 - length last)) (zeros 56) bits)
                ∙ ap (λ q. q ++ bits) (sym (zeros-add (64 - length last) 56)))

      whole :
          64 - length last + 56 ≡ (119 - length msg % 64) % 64
          → concat p.blocks ++ (last ++ (zeros (64 - length last + 56) ++ bits)) ≡ pad store msg
      whole e =
          unfold last bits in
          ap (λ q. concat p.blocks ++ q) (append_assoc h.buf (0x80 ∷ []) _)
          ∙ padded (64 - length (h.buf ++ (0x80 ∷ [])) + 56) e

  -- What `finish` gives is the digest of the bytes that the context has taken in.
  pub finish-digest : finish compress store h ≡ digest compress store start msg
  unfolding finish spill seal last bits zeros
  finish-digest = go (ltb 56 (length last)) refl
    where
      started : HashState S
      started = record h { len = (h.len + length h.buf * 8) % 2 ^ 64; buf = last }

      go :
          (x : Bool)
          → ltb 56 (length last) ≡ x
          → seal compress store (
              if x
              then record started {
                state = compress (last ++ replicate (64 - length last) 0) h.state;
                buf = [];
              }
              else started)
            ≡ digest compress store start msg
      go true e = two_blocks (ground arith)
      go false e = one_block (ground arith)

-- Several updates, one after the other.
abbrev pub update_all {ℓ} : {H : Type ℓ} → (H → List ℕ → H) → H → List (List ℕ) → H
update_all f h [] = h
update_all f h (b ∷ bs) = update_all f (f h b) bs

module _ {S : Type 0} (compress : List ℕ → S → S) (start : S) where
  update_all-Holds :
      (h : HashState S) (msg : List ℕ) (bs : List (List ℕ))
      → Holds compress start 64 h msg
      → Holds compress start 64 (update_all (update compress) h bs) (msg ++ concat bs)
  update_all-Holds h msg [] p = subst (Holds compress start 64 h) (sym (append_nil msg)) p
  update_all-Holds h msg (b ∷ bs) p =
      subst (Holds compress start 64 (update_all (update compress) (update compress h b) bs))
        (append_assoc msg b (concat bs))
        (update_all-Holds (update compress h b) (msg ++ b) bs
          (update-Holds compress start h msg b p))

  -- Whatever the pieces are that a message comes in, `finish` gives the digest of the whole message.
  pub finish-update_all :
      (store : ℕ → List ℕ)
      → ((n : ℕ) → length (store n) ≡ 8)
      → (bs : List (List ℕ))
      → finish compress store
          (update_all (update compress) (record { len = 0; state = start; buf = [] }) bs)
        ≡ digest compress store start (concat bs)
  finish-update_all store length-store bs =
      finish-digest compress store start length-store _ (concat bs)
        (update_all-Holds _ [] bs (fresh-Holds compress start))

  -- Whatever a context has taken in, less than a block waits in it.
  pub update_all-short :
      (bs : List (List ℕ))
      → length (update_all (update compress) (record { len = 0; state = start; buf = [] }) bs).buf
        < 64
  update_all-short bs = (update_all-Holds _ [] bs (fresh-Holds compress start)).below
