-- ===== src/Mpi/Bits/Read.antt =====
-- Reading a big integer from its unsigned form.
use robin_mesh_v.Prelude.{
  ℕ, ◌+◌, ◌*◌, ◌/◌, ◌%◌, ◌^◌, ◌≤◌, ◌<◌, ◌≡◌, refl, ap, ◌∙◌, Bool, true, false, Option, none, some,
  List, [], ◌∷◌, pos, arith, length, ltb, ◌==◌, if◌then◌else◌,
}
use robin_mesh_v.Mpi.{Mp, mp_grow, mp_zero, mp_clamp, clamp}
use robin_mesh_v.Mpi.Value.{value, IsDigits, value-clamp, clamp-IsDigits}
use robin_mesh_v.Mpi.Refine.{
  Outcome, no_memory, made, Grown, refused, grown, mp_grow-Grown, mp_clamp-Represents, length-clamp,
}
use robin_mesh_v.Mpi.Sign.{of_sign}
use robin_mesh_v.Mpi.Bits.{
  and_then, up_digits, mul_2d_here, add_byte, read_bytes, mp_read_unsigned_bin,
}
use robin_mesh_v.Mpi.Bits.Shifted.{
  IsLoose, value-up_digits, up_digits-IsDigits, length-up_digits, value-add_byte, add_byte-IsDigits,
  add_byte-IsLoose, length-add_byte,
}

-- The number of bytes, the highest first, with `v` in front of them.
abbrev pub number_from : ℕ → List ℕ → ℕ
number_from v [] = v
number_from v (b ∷ bs) = number_from (v * 2 ^ 8 + b) bs

abbrev pub AreBytes : List ℕ → Type 0
AreBytes [] = Unit
AreBytes (b ∷ bs) = (b < 2 ^ 8) × AreBytes bs

-- The number between two rounds of the loop: not trimmed, with its memory around it.
pub record Reading (v : ℕ) (a : Mp) : Type 0 where
  pub digits : IsDigits a.dp
  pub loose : IsLoose a.dp
  pub fits : length a.dp ≤ a.alloc
  pub plain : a.neg ≡ false
  pub is : value a.dp ≡ v

-- A number that has been shifted by a byte, and has room for one digit more.
pub record Shifted (v : ℕ) (a : Mp) : Type 0 where
  pub digits : IsDigits a.dp
  pub room : length a.dp < a.alloc
  pub plain : a.neg ≡ false
  pub is : value a.dp ≡ v * 2 ^ 8

pub data Moved (can : ℕ → Bool) (v : ℕ) : Option Mp → Type 0 where
  lacking : (n : ℕ) → can n ≡ false → Moved can v none
  moved : (c : Mp) → Shifted v c → Moved can v (some c)

length-loose : (ds : List ℕ) → IsLoose ds → length (up_digits 8 0 ds) ≡ length ds
length-loose [] l = refl
length-loose (d ∷ ds) l = length-up_digits 0 d ds l

plain_clamp : (x s : Bool) → s ≡ false → (if x then false else s) ≡ false
plain_clamp true s e = refl
plain_clamp false s e = e

mul_2d_here-Moved :
    (can : ℕ → Bool) (a : Mp) {v : ℕ} → Reading v a → Moved can v (mul_2d_here can a 8)
unfolding mul_2d_here mp_clamp
mul_2d_here-Moved can a {v} p = go _ (mp_grow-Grown can a (length a.dp + 8 / 28 + 1))
  where
    go :
        (o : Option Mp)
        → Grown can a (length a.dp + 8 / 28 + 1) o
        → Moved can v (and_then o (λ c. some (mp_clamp (record c { dp = up_digits 8 0 c.dp }))))
    go none (refused n f) = lacking n f
    go _ (grown alloc f) = moved _ (record {
      digits = clamp-IsDigits _ (up_digits-IsDigits 0 a.dp (omega arith));
      room = omega (arith, length-clamp (up_digits 8 0 a.dp), length-loose a.dp p.loose);
      plain = plain_clamp (length (clamp (up_digits 8 0 a.dp)) == 0) a.neg p.plain;
      is = omega (
        arith,
        value-clamp (up_digits 8 0 a.dp),
        value-up_digits 0 a.dp p.digits (omega arith),
        p.is,
      );
    })

add_byte-Reading :
    (a : Mp) (b : ℕ) {v : ℕ}
    → Shifted v a
    → b < 2 ^ 8
    → Reading (v * 2 ^ 8 + b) (record a { dp = add_byte b a.dp })
add_byte-Reading a b {v} p l =
    let whole : value a.dp % 2 ^ 8 ≡ 0 = omega (arith, p.is) in
    record {
      digits = add_byte-IsDigits b a.dp p.digits whole l;
      loose = add_byte-IsLoose b a.dp l;
      fits = omega (arith, length-add_byte b a.dp, p.room);
      plain = p.plain;
      is = omega (arith, value-add_byte b a.dp whole l, p.is);
    }

module _ (can : ℕ → Bool) where
  read_bytes-Outcome :
      (bs : List ℕ) (a : Mp) {v : ℕ}
      → Reading v a
      → AreBytes bs
      → Outcome can (pos (number_from v bs)) (read_bytes can a bs)
  unfolding read_bytes
  read_bytes-Outcome [] a {v} p i = made _ (
      mp_clamp-Represents a (pos v) p.digits p.fits
        (ap (λ s. of_sign s (value a.dp)) p.plain ∙ ap pos p.is))
  read_bytes-Outcome (b ∷ bs) a {v} p i =
      go _ (mul_2d_here-Moved can a p)
        (λ c q. read_bytes-Outcome bs _ (add_byte-Reading c b q (i.0)) (i.1))
    where
      go :
          (o : Option Mp)
          → Moved can v o
          → ((c : Mp)
              → Shifted v c
              → Outcome can
                  (pos (number_from (v * 2 ^ 8 + b) bs))
                  (read_bytes can (record c { dp = add_byte b c.dp }) bs))
          → Outcome can
              (pos (number_from (v * 2 ^ 8 + b) bs))
              (and_then o (λ c. read_bytes can (record c { dp = add_byte b c.dp }) bs))
      go none (lacking n f) later = no_memory n f
      go _ (moved c q) later = later c q

  -- mp_read_unsigned_bin on bytes gives, unless memory is refused, a number in good order that stands for
  -- the number that the bytes spell, the highest first.
  pub mp_read_unsigned_bin-Outcome :
      (a : Mp) (bs : List ℕ)
      → AreBytes bs
      → Outcome can (pos (number_from 0 bs)) (mp_read_unsigned_bin can a bs)
  unfolding mp_read_unsigned_bin mp_zero
  mp_read_unsigned_bin-Outcome a bs i = go _ (tested (ltb a.alloc 2))
    where
      two : (o : Option Mp) → Grown can a 2 o → Grown can a 0 o
      two none (refused n f) = refused n f
      two _ (grown alloc f) = grown alloc (omega arith)

      tested : (x : Bool) → Grown can a 0 (if x then mp_grow can a 2 else some a)
      tested true = two _ (mp_grow-Grown can a 2)
      tested false = grown a.alloc (omega arith)

      go :
          (o : Option Mp)
          → Grown can a 0 o
          → Outcome can (pos (number_from 0 bs)) (and_then o (λ a. read_bytes can (mp_zero a) bs))
      go none (refused n f) = no_memory n f
      go _ (grown alloc f) =
          read_bytes-Outcome bs _
            (record { digits = _; loose = _; fits = omega arith; plain = refl; is = refl }) i
