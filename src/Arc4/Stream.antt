-- ===== src/Arc4/Stream.antt =====
-- The key stream of `matrixArc4` over one call and over several (crypto/peersec/arc4.c).
use robin_mesh_v.Prelude.{
  ℕ, suc, ◌+◌, ◌%◌, ◌^◌, ◌≤◌, ◌≡◌, refl, arith, ap, sym, ◌∙◌, Bool, true, false, Option, none, some,
  List, [], ◌∷◌, ◌++◌, length, length-append, ltb, if◌then◌else◌,
}
use robin_mesh_v.Arc4.{Arc4, turn, stream, matrix_arc4, arc4_max_bytes}
use robin_mesh_v.Arc4.Xor.{bit_xor_twice}

pub length-stream : (a : Arc4) (bytes : List ℕ) → length ((stream a bytes).1) ≡ length bytes
unfolding stream
length-stream a [] = refl
length-stream a (c ∷ cs) = ap suc (length-stream ((turn a).0) cs)

stream-stream :
    (a : Arc4) (bytes : List ℕ) → stream a ((stream a bytes).1) ≡ ((stream a bytes).0, bytes)
unfolding stream
stream-stream a [] = refl
stream-stream a (c ∷ cs) = rw (stream-stream ((turn a).0) cs, bit_xor_twice c ((turn a).1)) refl

stream-append :
    (a : Arc4) (b c : List ℕ)
    → stream a (b ++ c)
      ≡ ((stream ((stream a b).0) c).0, (stream a b).1 ++ (stream ((stream a b).0) c).1)
unfolding stream
stream-append a [] c = refl
stream-append a (x ∷ b) c = rw (stream-append ((turn a).0) b c) refl

stream-count :
    (a : Arc4) (n : ℕ) (b : List ℕ)
    → stream (record a { byte_count = n }) b
      ≡ (record ((stream a b).0) { byte_count = n }, (stream a b).1)
unfolding stream turn
stream-count a n [] = refl
stream-count a n (c ∷ b) = rw (stream-count ((turn a).0) n b) refl

pub byte_count-stream : (a : Arc4) (b : List ℕ) → (stream a b).0.byte_count ≡ a.byte_count
unfolding stream turn
byte_count-stream a [] = refl
byte_count-stream a (c ∷ b) = byte_count-stream ((turn a).0) b

-- What a call that succeeds did.
pub record Ran (a a' : Arc4) (bytes out : List ℕ) : Type 0 where
  pub count : ℕ
  pub counted : count ≡ (a.byte_count + length bytes) % 2 ^ 32
  pub below : count ≤ arc4_max_bytes
  pub state : a' ≡ (stream (record a { byte_count = count }) bytes).0
  pub bytes_out : out ≡ (stream (record a { byte_count = count }) bytes).1

pub matrix_arc4-Ran :
    (a a' : Arc4) (bytes out : List ℕ) → matrix_arc4 a bytes ≡ (a', some out) → Ran a a' bytes out
unfolding matrix_arc4
matrix_arc4-Ran a a' bytes out h =
    by_limit (ltb arc4_max_bytes ((a.byte_count + length bytes) % 2 ^ 32)) refl h
  where
    counted_up : Arc4
    counted_up = record a { byte_count = (a.byte_count + length bytes) % 2 ^ 32 }

    by_limit :
        (b : Bool)
        → ltb arc4_max_bytes ((a.byte_count + length bytes) % 2 ^ 32) ≡ b
        → ◌≡◌ {A = Arc4 × Option (List ℕ)}
            (if b
              then (counted_up, none)
              else ((stream counted_up bytes).0, some ((stream counted_up bytes).1)))
            (a', some out)
        → Ran a a' bytes out
    by_limit true e q = absurd (no_result (ap (λ r. r.1) q))
      where
        no_result : none ≡ some out → ⊥
        no_result h = cc
    by_limit false e q = record {
      count = (a.byte_count + length bytes) % 2 ^ 32;
      counted = refl;
      below = ground arith;
      state = sym (ap (λ r. r.0) q);
      bytes_out = some-injective (sym (ap (λ r. r.1) q));
    }
      where
        some-injective : {x y : List ℕ} → some x ≡ some y → x ≡ y
        some-injective h = cc

pub Ran-matrix_arc4 :
    (a : Arc4) (bytes : List ℕ) (count : ℕ)
    → count ≡ (a.byte_count + length bytes) % 2 ^ 32
    → count ≤ arc4_max_bytes
    → let r = stream (record a { byte_count = count }) bytes in
      matrix_arc4 a bytes ≡ (r.0, some (r.1))
unfolding matrix_arc4
Ran-matrix_arc4 a bytes count e le =
    let fits : ltb arc4_max_bytes ((a.byte_count + length bytes) % 2 ^ 32) ≡ false =
      ground (arith, e) in
    rw (fits, sym e) refl

-- Of two equal RC4 contexts, one decrypts what the other encrypts: where matrixArc4 succeeds, a call with
-- the context of before on its output gives the bytes back, and the same context after it.
pub matrix_arc4_twice :
    (a a' : Arc4) (bytes out : List ℕ)
    → matrix_arc4 a bytes ≡ (a', some out)
    → matrix_arc4 a out ≡ (a', some bytes)
matrix_arc4_twice a a' bytes out h =
    let r = matrix_arc4-Ran a a' bytes out h in
    let same : length out ≡ length bytes =
      ap length r.bytes_out ∙ length-stream (record a { byte_count = r.count }) bytes in
    let back : stream (record a { byte_count = r.count }) out ≡ (a', bytes) =
      ap (stream (record a { byte_count = r.count })) r.bytes_out
      ∙ stream-stream (record a { byte_count = r.count }) bytes
      ∙ ap (λ k. (k, bytes)) (sym r.state) in
    Ran-matrix_arc4 a out r.count (omega (arith, same, r.counted)) r.below
    ∙ ap (λ p. (p.0, some (p.1))) back

-- Two calls that succeed are one call on the joined bytes.
matrix_arc4-append :
    (a a1 a2 : Arc4) (b c p q : List ℕ)
    → matrix_arc4 a b ≡ (a1, some p)
    → matrix_arc4 a1 c ≡ (a2, some q)
    → matrix_arc4 a (b ++ c) ≡ (a2, some (p ++ q))
matrix_arc4-append a a1 a2 b c p q h k =
    let r1 = matrix_arc4-Ran a a1 b p h in
    let r2 = matrix_arc4-Ran a1 a2 c q k in
    let n = r2.count in
    let first : stream (record a { byte_count = n }) b ≡ (record a1 { byte_count = n }, p) =
      stream-count (record a { byte_count = r1.count }) n b
      ∙ ap
          (λ (j : Arc4).
            (record j { byte_count = n }, (stream (record a { byte_count = r1.count }) b).1))
          (sym r1.state)
      ∙ ap (λ o. (record a1 { byte_count = n }, o)) (sym r1.bytes_out) in
    let so_far : a1.byte_count ≡ r1.count =
      ap (λ (j : Arc4). j.byte_count) r1.state
      ∙ byte_count-stream (record a { byte_count = r1.count }) b in
    let whole : stream (record a { byte_count = n }) (b ++ c) ≡ (a2, p ++ q) =
      stream-append (record a { byte_count = n }) b c
      ∙ ap (λ r. ((stream (r.0) c).0, r.1 ++ (stream (r.0) c).1)) first
      ∙ ap (λ j. (j, p ++ (stream (record a1 { byte_count = n }) c).1)) (sym r2.state)
      ∙ ap (λ o. (a2, p ++ o)) (sym r2.bytes_out) in
    Ran-matrix_arc4 a (b ++ c) n (omega (arith, r2.counted, so_far, r1.counted, length-append b c))
      r2.below
    ∙ ap (λ r. (r.0, some (r.1))) whole
