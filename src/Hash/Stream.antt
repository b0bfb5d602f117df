-- ===== src/Hash/Stream.antt =====
-- A context that is given bytes in any pieces against the padded message in blocks of 64.
use robin_mesh_v.Prelude.{
  concat, ℕ, zero, suc, ◌+◌, ◌-◌, ◌*◌, ◌/◌, ◌%◌, ◌^◌, ◌≤◌, ◌<◌, min, ◌≡◌, refl, sym, ap, ◌∙◌, subst,
  Bool, true, false, List, [], ◌∷◌, ◌++◌, arith, ◌==◌, if◌then◌else◌, length, take, drop, replicate,
  length-append, length-take, length-drop, take-append-drop, take-append, drop-append, append_nil,
  append_assoc,
}
use robin_mesh_v.Hash.{HashState, flush, update_loop, update}

abbrev pub AreBlocks : List (List ℕ) → Type 0
AreBlocks [] = Unit
AreBlocks (b ∷ bs) = (length b ≡ 64) × AreBlocks bs

-- A message cut into `n` blocks.
abbrev pub in_blocks : ℕ → List ℕ → List (List ℕ)
in_blocks zero bytes = []
in_blocks (suc n) bytes = take 64 bytes ∷ in_blocks n (drop 64 bytes)

-- A message with its padding: the 1 bit, zeros, and its length in bits, up to a whole block.
abbrev pub pad : (ℕ → List ℕ) → List ℕ → List ℕ
pad store msg =
    msg ++ (0x80 ∷ (replicate ((119 - length msg % 64) % 64) 0 ++ store (length msg * 8 % 2 ^ 64)))

abbrev pub compress_all {ℓ} : {S : Type ℓ} → (List ℕ → S → S) → List (List ℕ) → S → S
compress_all compress [] s = s
compress_all compress (b ∷ bs) s = compress_all compress bs (compress b s)

-- The hash as its standard has it, of a whole message.
abbrev pub digest {ℓ} : {S : Type ℓ} → (List ℕ → S → S) → (ℕ → List ℕ) → S → List ℕ → S
digest compress store start msg =
    compress_all compress (in_blocks (length (pad store msg) / 64) (pad store msg)) start

pub concat-append : (cs bs : List (List ℕ)) → concat (cs ++ bs) ≡ concat cs ++ concat bs
concat-append [] bs = refl
concat-append (a ∷ cs) bs = ap (λ q. a ++ q) (concat-append cs bs) ∙ sym (append_assoc a _ _)

pub AreBlocks-append : (cs bs : List (List ℕ)) → AreBlocks cs → AreBlocks bs → AreBlocks (cs ++ bs)
AreBlocks-append [] bs p q = q
AreBlocks-append (a ∷ cs) bs p q = (p.0, AreBlocks-append cs bs (p.1) q)

pub compress_all-append {ℓ} :
    {S : Type ℓ} (compress : List ℕ → S → S) (cs bs : List (List ℕ)) (s : S)
    → compress_all compress (cs ++ bs) s ≡ compress_all compress bs (compress_all compress cs s)
compress_all-append compress [] bs s = refl
compress_all-append compress (a ∷ cs) bs s = compress_all-append compress cs bs (compress a s)

pub length-concat : (bs : List (List ℕ)) → AreBlocks bs → length (concat bs) ≡ 64 * length bs
length-concat [] p = refl
length-concat (b ∷ bs) p = omega (arith, length-append b (concat bs), length-concat bs (p.1), p.0)

in_blocks-concat : (bs : List (List ℕ)) → AreBlocks bs → in_blocks (length bs) (concat bs) ≡ bs
in_blocks-concat [] p = refl
in_blocks-concat (b ∷ bs) p =
    let front : take 64 (b ++ concat bs) ≡ b = rw (← p.0) (take-append b (concat bs)) in
    let back : drop 64 (b ++ concat bs) ≡ concat bs = rw (← p.0) (drop-append b (concat bs)) in
    rw (front, back, in_blocks-concat bs (p.1)) refl

-- Blocks that make up the padded message are those that the digest compresses.
pub digest-blocks {ℓ} :
    {S : Type ℓ} (compress : List ℕ → S → S) (store : ℕ → List ℕ) (start : S) (msg : List ℕ)
    (bs : List (List ℕ))
    → AreBlocks bs
    → concat bs ≡ pad store msg
    → digest compress store start msg ≡ compress_all compress bs start
digest-blocks compress store start msg bs p e =
    let count : length (concat bs) / 64 ≡ length bs = omega (arith, length-concat bs p) in
    let cut : in_blocks (length (pad store msg) / 64) (pad store msg) ≡ bs =
      rw (← e, count) (in_blocks-concat bs p) in
    ap (λ q. compress_all compress q start) cut

module _ {S : Type 0} (compress : List ℕ → S → S) (start : S) where
  -- The context has taken in `msg`: its whole blocks are compressed, and less than `limit` bytes wait.
  pub record Holds (limit : ℕ) (h : HashState S) (msg : List ℕ) : Type 0 where
    pub blocks : List (List ℕ)
    pub are : AreBlocks blocks
    pub joined : concat blocks ++ h.buf ≡ msg
    pub folded : compress_all compress blocks start ≡ h.state
    pub counted : h.len ≡ length blocks * 512 % 2 ^ 64
    pub below : length h.buf < limit

  flush-Holds : (h : HashState S) (msg : List ℕ) → Holds 65 h msg → Holds 64 (flush compress h) msg
  unfolding flush
  flush-Holds h msg p = go (length h.buf == 64) refl
    where
      go :
          (x : Bool)
          → (length h.buf == 64) ≡ x
          → Holds 64
              (if x
                then record {
                  len = (h.len + 512) % 2 ^ 64;
                  state = compress h.buf h.state;
                  buf = [];
                }
                else h)
              msg
      go true e = record {
        blocks = p.blocks ++ (h.buf ∷ []);
        are = AreBlocks-append p.blocks (h.buf ∷ []) p.are (ground arith, _);
        joined =
            append_nil _
            ∙ concat-append p.blocks (h.buf ∷ [])
            ∙ ap (λ q. concat p.blocks ++ q) (append_nil h.buf)
            ∙ p.joined;
        folded =
            compress_all-append compress p.blocks (h.buf ∷ []) start ∙ ap (compress h.buf) p.folded;
        counted = omega (arith, p.counted, length-append p.blocks (h.buf ∷ []));
        below = omega arith;
      }
      go false e = record {
        blocks = p.blocks;
        are = p.are;
        joined = p.joined;
        folded = p.folded;
        counted = p.counted;
        below = ground (arith, p.below);
      }

  put-Holds :
      (h : HashState S) (msg more : List ℕ)
      → Holds 64 h msg
      → length h.buf + length more ≤ 64
      → Holds 65 (record h { buf = h.buf ++ more }) (msg ++ more)
  put-Holds h msg more p l = record {
    blocks = p.blocks;
    are = p.are;
    joined = sym (append_assoc (concat p.blocks) h.buf more) ∙ ap (λ q. q ++ more) p.joined;
    folded = p.folded;
    counted = p.counted;
    below = omega (arith, length-append h.buf more);
  }

  update_loop-Holds :
      (fuel : ℕ) (h : HashState S) (msg bytes : List ℕ)
      → length bytes ≤ fuel
      → Holds 64 h msg
      → Holds 64 (update_loop compress fuel h bytes) (msg ++ bytes)
  unfolding update_loop
  update_loop-Holds zero h msg [] l p = subst (Holds 64 h) (sym (append_nil msg)) p
  update_loop-Holds zero h msg (b ∷ bytes) l p = absurd (omega (arith, l))
  update_loop-Holds (suc fuel) h msg [] l p = subst (Holds 64 h) (sym (append_nil msg)) p
  update_loop-Holds (suc fuel) h msg (b ∷ bytes) l p =
      let n = min (length (b ∷ bytes)) (64 - length h.buf) in
      let more = take n (b ∷ bytes) in
      let rest = drop n (b ∷ bytes) in
      let here = put-Holds h msg more p (omega (arith, length-take n (b ∷ bytes), p.below)) in
      let step =
        update_loop-Holds fuel (flush compress (record h { buf = h.buf ++ more })) (msg ++ more)
          rest (omega (arith, length-drop n (b ∷ bytes), p.below)) (flush-Holds _ _ here) in
      subst (Holds 64 (update_loop compress (suc fuel) h (b ∷ bytes)))
        (append_assoc msg more rest ∙ ap (λ q. msg ++ q) (take-append-drop n (b ∷ bytes))) step

  -- Update takes the bytes in behind what the context holds.
  pub update-Holds :
      (h : HashState S) (msg bytes : List ℕ)
      → Holds 64 h msg
      → Holds 64 (update compress h bytes) (msg ++ bytes)
  unfolding update
  update-Holds h msg bytes p = update_loop-Holds (length bytes) h msg bytes (omega arith) p

  pub fresh-Holds : Holds 64 (record { len = 0; state = start; buf = [] }) []
  fresh-Holds = record {
    blocks = [];
    are = _;
    joined = refl;
    folded = refl;
    counted = omega arith;
    below = omega arith;
  }
