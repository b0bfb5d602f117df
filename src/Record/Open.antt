-- ===== src/Record/Open.antt =====
-- What `open_record`, the MAC and padding checks of `matrixSslDecode`, accepts.
use robin_mesh_v.Prelude.{
  take-append, drop-append, ℕ, zero, suc, ◌+◌, ◌-◌, ◌≤◌, ◌<◌, ◌≡◌, refl, sym, ap, ◌∙◌, Bool, true,
  false, not, ◌&&◌, ◌||◌, none, some, List, [], ◌∷◌, ◌++◌, arith, length, take, drop, get_or, ltb,
  leb, ◌==◌, if◌then◌else◌, length-take, length-drop, take-append-drop, ◌↔◌, length-append,
}
use robin_mesh_v.Ssl.{Ssl}
use robin_mesh_v.Record.{open_record, find_mac, place_mac}
use robin_mesh_v.Record.Base.{Wire}

-- The padding of a record: none for a stream cipher; for a block cipher as many bytes as the last one
-- says, and that one; in SSL 3.0 fewer than a block.
pub data IsPadding (s : Ssl) (padding : List ℕ) : Type 0 where
  stream : s.de_block_size ≤ 1 → length padding ≡ 0 → IsPadding s padding
  block :
      1 < s.de_block_size
      → (n : ℕ) → length padding ≡ suc n
      → get_or padding n 0 ≡ n
      → (s.maj_ver ≡ 3 → s.min_ver ≡ 0 → n < s.de_block_size)
      → IsPadding s padding

-- A decrypted record is data, the data's MAC, and padding.
pub record IsSealed {X : Type 0} (w : Wire X) (s : Ssl) (x : X) (p data_bytes : List ℕ)
    : Type 0 where
  pub mac : List ℕ
  pub padding : List ℕ
  pub parts : p ≡ data_bytes ++ (mac ++ padding)
  pub mac_sized : length mac ≡ s.de_mac_size
  pub authentic : w.verify_mac s x s.rec.rec_type data_bytes mac ≡ true
  pub padded : IsPadding s padding

get_or-drop : (n i : ℕ) (p : List ℕ) → get_or (drop n p) i 0 ≡ get_or p (n + i) 0
get_or-drop zero i p = let e : i ≡ 0 + i = omega arith in ap (λ j. get_or p j 0) e
get_or-drop (suc n) i [] = refl
get_or-drop (suc n) i (x ∷ p) =
    let e : suc (n + i) ≡ suc n + i = omega arith in
    get_or-drop n i p ∙ ap (λ j. get_or (x ∷ p) j 0) e

drop_none : (m : ℕ) → drop {A = ℕ} m [] ≡ []
drop_none zero = refl
drop_none (suc m) = refl

drop-drop : (n m : ℕ) (p : List ℕ) → drop m (drop n p) ≡ drop (n + m) p
drop-drop zero m p = let e : m ≡ 0 + m = omega arith in ap (λ j. drop j p) e
drop-drop (suc n) m [] = drop_none m ∙ sym (drop_none (suc n + m))
drop-drop (suc n) m (x ∷ p) =
    let e : suc (n + m) ≡ suc n + m = omega arith in drop-drop n m p ∙ ap (λ j. drop j (x ∷ p)) e

three_parts : (n m : ℕ) (p : List ℕ) → p ≡ take n p ++ (take m (drop n p) ++ drop (n + m) p)
three_parts n m p =
    sym (take-append-drop n p)
    ∙ ap (λ q. take n p ++ q)
        (sym (take-append-drop m (drop n p)) ∙ ap (λ q. take m (drop n p) ++ q) (drop-drop n m p))

-- Where `find_mac` sees no bad padding.
record Found (s : Ssl) (p : List ℕ) (n : ℕ) : Type 0 where
  fits : n + s.de_mac_size ≤ length p
  behind : IsPadding s (drop (n + s.de_mac_size) p)

pick :
    (P : ℕ → Type 0) (b c : Bool) (u v : ℕ)
    → (b ≡ true → P u)
    → (b ≡ false → c ≡ false → P v)
    → (place_mac b c u v).1 ≡ false
    → P ((place_mac b c u v).0)
pick P true c u v f g h = f refl
pick P false true u v f g h = absurd cc
pick P false false u v f g h = g refl refl

parts_false : (b c : Bool) → (b || c) ≡ false → (b ≡ false) × (c ≡ false)
parts_false true c h = absurd cc
parts_false false c h = (refl, h)

module _ (s : Ssl) (p : List ℕ) (sized : length p ≡ s.rec.len) (nonempty : 0 < s.rec.len)
    (long : s.de_mac_size ≤ s.rec.len) where
  Found-block :
      1 < s.de_block_size
      → (s.maj_ver == 3 && s.min_ver == 0 && leb s.de_block_size (get_or p (s.rec.len - 1) 0))
        ≡ false
      → s.de_mac_size + get_or p (s.rec.len - 1) 0 + 1 ≤ s.rec.len
      → Found s p (s.rec.len - get_or p (s.rec.len - 1) 0 - 1 - s.de_mac_size)
  Found-block big small room =
      let n = get_or p (s.rec.len - 1) 0 in
      let at = s.rec.len - n - 1 - s.de_mac_size in
      record {
        fits = omega arith;
        behind =
            block big n (omega (arith, length-drop (at + s.de_mac_size) p))
              (get_or-drop (at + s.de_mac_size) n p ∙ ap (λ j. get_or p j 0) (omega arith))
              (λ e e'. ground arith);
      }

  find_mac-Found : (find_mac s p).1 ≡ false → Found s p ((find_mac s p).0)
  unfolding find_mac
  find_mac-Found =
      pick (Found s p) (leb s.de_block_size 1) _ _ _
        (λ e. record {
          fits = omega arith;
          behind =
              stream (ground arith)
                (omega (arith, length-drop (s.rec.len - s.de_mac_size + s.de_mac_size) p));
        })
        (λ e b. let b' = parts_false _ _ b in Found-block (ground arith) (b'.0) (at_least (b'.1)))
    where
      at_least : {a b : ℕ} → ltb a b ≡ false → b ≤ a
      at_least h = ground arith

release_inv :
    (b c v m : Bool) (p q r : List ℕ)
    → b ≡ true
    → (if not b then some p else if c then none else if not v || m then none else some q) ≡ some r
    → (c ≡ false) × (m ≡ false) × (v ≡ true) × (q ≡ r)
release_inv false c v m p q r e h = absurd cc
release_inv true true v m p q r e h = absurd cc
release_inv true false false m p q r e h = absurd cc
release_inv true false true true p q r e h = absurd cc
release_inv true false true false p q r e h = (refl, refl, refl, cc)

release :
    (b c v m : Bool) (p q : List ℕ)
    → c ≡ false
    → m ≡ false
    → v ≡ true
    → b ≡ true
    → (if not b then some p else if c then none else if not v || m then none else some q) ≡ some q
release b c v m p q hc hm hv hb = rw (hc, hm, hv, hb)

-- A record that is opened while reading is secure is sealed.
open_record-IsSealed :
    {X : Type 0} (w : Wire X) (s : Ssl) (x : X) (p data_bytes : List ℕ)
    → length p ≡ s.rec.len
    → 0 < s.rec.len
    → s.flags.read_secure ≡ true
    → open_record w s x p ≡ some data_bytes
    → IsSealed w s x p data_bytes
unfolding open_record
open_record-IsSealed w s x p data_bytes sized nonempty secure h =
    let at = (find_mac s p).0 in
    let r =
      release_inv s.flags.read_secure (ltb s.rec.len s.de_mac_size) _ _ p (take at p) data_bytes
        secure h in
    let found = find_mac-Found s p sized nonempty (at_least (r.0)) (r.1) in
    record {
      mac = take s.de_mac_size (drop at p);
      padding = drop (at + s.de_mac_size) p;
      parts =
          three_parts at s.de_mac_size p
          ∙ ap (λ q. q ++ (take s.de_mac_size (drop at p) ++ drop (at + s.de_mac_size) p)) (r.3);
      mac_sized =
          omega (arith, length-take s.de_mac_size (drop at p), length-drop at p, found.fits);
      authentic =
          ap (λ q. w.verify_mac s x s.rec.rec_type q (take s.de_mac_size (drop at p))) (sym (r.3))
          ∙ r.2;
      padded = found.behind;
    }
  where
    at_least : {a b : ℕ} → ltb a b ≡ false → b ≤ a
    at_least h = ground arith

get_or-append : (a b : List ℕ) (i : ℕ) → get_or (a ++ b) (length a + i) 0 ≡ get_or b i 0
get_or-append [] b i = let e : 0 + i ≡ i = omega arith in ap (λ j. get_or b j 0) e
get_or-append (x ∷ a) b i =
    let e : suc (length a) + i ≡ suc (length a + i) = omega arith in
    ap (λ j. get_or (x ∷ a ++ b) j 0) e ∙ get_or-append a b i

module _ (s : Ssl) (a mac padding : List ℕ) (sized : length (a ++ (mac ++ padding)) ≡ s.rec.len)
    (mac_sized : length mac ≡ s.de_mac_size) where
  whole : s.rec.len ≡ length a + s.de_mac_size + length padding
  whole =
      omega (arith, sized, mac_sized, length-append a (mac ++ padding), length-append mac padding)

  IsPadding-find_mac : IsPadding s padding → find_mac s (a ++ (mac ++ padding)) ≡ (length a, false)
  unfolding find_mac
  IsPadding-find_mac (stream le e) =
      let small : leb s.de_block_size 1 ≡ true = ground arith in
      let at : s.rec.len - s.de_mac_size ≡ length a = omega (arith, whole) in rw (small, at)
  IsPadding-find_mac (block big n e last short) =
      let large : leb s.de_block_size 1 ≡ false = ground arith in
      let place : s.rec.len - 1 ≡ length a + (length mac + n) = omega (arith, whole) in
      let said : get_or (a ++ (mac ++ padding)) (s.rec.len - 1) 0 ≡ n =
        ap (λ j. get_or (a ++ (mac ++ padding)) j 0) place
        ∙ get_or-append a (mac ++ padding) (length mac + n)
        ∙ get_or-append mac padding n
        ∙ last in
      let room : ltb s.rec.len (s.de_mac_size + n + 1) ≡ false = ground (arith, whole) in
      let fine : (s.maj_ver == 3 && s.min_ver == 0 && leb s.de_block_size n) ≡ false =
        ground arith in
      let at : s.rec.len - n - 1 - s.de_mac_size ≡ length a = omega (arith, whole) in
      rw (said, large, room, fine, at)

-- While reading is secure, a decrypted record of the length in its header is opened exactly when it
-- is data, the data's MAC for the record's type, and well-formed padding, and then to that data.
pub open_record-IsSealed_iff :
    {X : Type 0} (w : Wire X) (s : Ssl) (x : X) (p data_bytes : List ℕ)
    → length p ≡ s.rec.len
    → 0 < s.rec.len
    → s.flags.read_secure ≡ true
    → (open_record w s x p ≡ some data_bytes) ↔ IsSealed w s x p data_bytes
unfolding open_record
open_record-IsSealed_iff w s x p a sized nonempty secure = (
  open_record-IsSealed w s x p a sized nonempty secure,
  λ i.
      let q = a ++ (i.mac ++ i.padding) in
      let found : find_mac s p ≡ (length a, false) =
        ap (find_mac s) i.parts
        ∙ IsPadding-find_mac s a i.mac i.padding (ap length (sym i.parts) ∙ sized) i.mac_sized
            i.padded in
      let cut : take (find_mac s p).0 p ≡ a =
        rw found (ap (take (length a)) i.parts ∙ take-append a (i.mac ++ i.padding)) in
      let mac : take s.de_mac_size (drop (find_mac s p).0 p) ≡ i.mac = rw found (
        ap (λ y. take s.de_mac_size (drop (length a) y)) i.parts
        ∙ ap (take s.de_mac_size) (drop-append a (i.mac ++ i.padding))
        ∙ ap (λ j. take j (i.mac ++ i.padding)) (sym i.mac_sized)
        ∙ take-append i.mac i.padding) in
      let long : ltb s.rec.len s.de_mac_size ≡ false = ground (
        arith,
        sized,
        ap length i.parts,
        i.mac_sized,
        length-append a (i.mac ++ i.padding),
        length-append i.mac i.padding,
      ) in
      let real : w.verify_mac s x s.rec.rec_type (take (find_mac s p).0 p)
            (take s.de_mac_size (drop (find_mac s p).0 p))
          ≡ true =
        rw (cut, mac) i.authentic in
      release s.flags.read_secure _ _ _ p (take (find_mac s p).0 p) long (ap (λ r. r.1) found) real
        secure
      ∙ ap some cut,
)
