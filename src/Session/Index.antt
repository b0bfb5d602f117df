-- ===== src/Session/Index.antt =====
-- The session id and the table index in its first four bytes.
use robin_mesh_v.Prelude.{
  ℕ, zero, suc, ◌≤◌, ◌<◌, ◌≡◌, refl, ap, ◌↔◌, List, [], ◌∷◌, arith, true, length, set, get_or,
}
use robin_mesh_v.Session.{id_index, make_id, same_bytes, Table, SessionEntry, entry}

-- For bytes read as signed chars, the index is inside the table exactly when it is the first byte
-- and the three others are zero.
pub id_index_small :
    (a b c d : ℕ) (rest : List ℕ)
    → a < 256
    → b < 256
    → c < 256
    → d < 256
    → (id_index (a ∷ b ∷ c ∷ d ∷ rest) < 32) ↔ ((a < 32) × (b ≡ 0) × (c ≡ 0) × (d ≡ 0))
unfolding id_index
id_index_small a b c d rest ha hb hc hd = ground arith

-- An id that `matrixRegisterSession` makes leads back to its entry.
pub id_index-make_id :
    (random : List ℕ) (i : ℕ) → 4 ≤ length random → i < 32 → id_index (make_id random i) ≡ i
unfolding id_index make_id
id_index-make_id [] i h lt = absurd (omega arith)
id_index-make_id (a ∷ []) i h lt = absurd (omega arith)
id_index-make_id (a ∷ b ∷ []) i h lt = absurd (omega arith)
id_index-make_id (a ∷ b ∷ c ∷ []) i h lt = absurd (omega arith)
id_index-make_id (a ∷ b ∷ c ∷ d ∷ r) i h lt = ground arith

pub same_bytes_refl : (n : ℕ) (xs : List ℕ) → same_bytes n xs xs ≡ true
unfolding same_bytes
same_bytes_refl zero xs = refl
same_bytes_refl (suc n) [] = refl
same_bytes_refl (suc n) (x ∷ xs) = ground (arith, same_bytes_refl n xs)

pub length-set : (t : Table) (i : ℕ) (e : SessionEntry) → length (set t i e) ≡ length t
length-set [] i e = refl
length-set (x ∷ t) zero e = refl
length-set (x ∷ t) (suc i) e = ap suc (length-set t i e)

pub entry-set_self : (t : Table) (i : ℕ) (e : SessionEntry) → i < length t → entry (set t i e) i ≡ e
entry-set_self [] i e h = elim h [ ]
entry-set_self (x ∷ t) zero e h = refl
entry-set_self (x ∷ t) (suc i) e h = entry-set_self t i e (omega arith)

pub entry-set_ne :
    (t : Table) (i j : ℕ) (e : SessionEntry) → (i ≡ j → ⊥) → entry (set t i e) j ≡ entry t j
entry-set_ne [] i j e h = refl
entry-set_ne (x ∷ t) zero zero e h = absurd (h refl)
entry-set_ne (x ∷ t) zero (suc j) e h = refl
entry-set_ne (x ∷ t) (suc i) zero e h = refl
entry-set_ne (x ∷ t) (suc i) (suc j) e h = entry-set_ne t i j e (λ p. h (ap suc p))

-- The first `n` bytes of both agree, as far as both have them.
abbrev pub SameStart : ℕ → List ℕ → List ℕ → Type 0
SameStart n a b = (j : ℕ) → j < n → j < length a → j < length b → get_or a j 0 ≡ get_or b j 0

same_bytes-SameStart : (n : ℕ) (a b : List ℕ) → same_bytes n a b ≡ true → SameStart n a b
unfolding same_bytes
same_bytes-SameStart zero a b e j l m o = absurd (omega arith)
same_bytes-SameStart (suc n) [] b e j l m o = absurd (omega (arith, m))
same_bytes-SameStart (suc n) (x ∷ a) [] e j l m o = absurd (omega (arith, o))
same_bytes-SameStart (suc n) (x ∷ a) (y ∷ b) e zero l m o = ground arith
same_bytes-SameStart (suc n) (x ∷ a) (y ∷ b) e (suc j) l m o =
    same_bytes-SameStart n a b (ground arith) j (omega arith) (omega (arith, m)) (omega (arith, o))

SameStart-same_bytes : (n : ℕ) (a b : List ℕ) → SameStart n a b → same_bytes n a b ≡ true
unfolding same_bytes
SameStart-same_bytes zero a b e = refl
SameStart-same_bytes (suc n) [] b e = refl
SameStart-same_bytes (suc n) (x ∷ a) [] e = refl
SameStart-same_bytes (suc n) (x ∷ a) (y ∷ b) e =
    let first : x ≡ y = e 0 (omega arith) (omega arith) (omega arith) in
    let rest =
      SameStart-same_bytes n a b
        (λ j l m o. e (suc j) (omega arith) (omega (arith, m)) (omega (arith, o))) in
    ground (arith, first, rest)

-- The comparison of ids says whether their first bytes agree.
pub same_bytes_iff : (n : ℕ) (a b : List ℕ) → (same_bytes n a b ≡ true) ↔ SameStart n a b
same_bytes_iff n a b = (same_bytes-SameStart n a b, SameStart-same_bytes n a b)
