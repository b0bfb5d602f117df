-- ===== src/Record/Each.antt =====
-- Properties of what one record leads to, by how it ends.
use robin_mesh_v.Prelude.{Bool, true, false, ◌≡◌, refl, if◌then◌else◌}
use robin_mesh_v.Record.Base.{Decoder, Next, again, respond, give, broken, Status}

-- `A` holds of the decoder that the next record is read with, `R` of one whose response is encoded, `G`
-- of one that is returned.
pub data Each {X : Type 0} (A R : Decoder X → Type 0) (G : Decoder X → Status → Type 0)
    : Next X → Type 0 where
  go_on : {d : Decoder X} → A d → Each A R G (again d)
  answer : {d : Decoder X} → R d → Each A R G (respond d)
  end : {d : Decoder X} {s : Status} → G d s → Each A R G (give d s)
  crash : Each A R G broken

module _ {X : Type 0} {A R : Decoder X → Type 0} {G : Decoder X → Status → Type 0} where
  pub Each-test :
      {m n : Next X} (b : Bool)
      → (b ≡ true → Each A R G m)
      → (b ≡ false → Each A R G n)
      → Each A R G (if b then m else n)
  Each-test true f g = f refl
  Each-test false f g = g refl

  pub Each-if :
      {m n : Next X} (b : Bool) → Each A R G m → Each A R G n → Each A R G (if b then m else n)
  Each-if true f g = f
  Each-if false f g = g

  pub Each-again : {d : Decoder X} → Each A R G (again d) → A d
  Each-again (go_on a) = a

  pub Each-give : {d : Decoder X} {s : Status} → Each A R G (give d s) → G d s
  Each-give (end g) = g

  pub Each-respond : {d : Decoder X} → Each A R G (respond d) → R d
  Each-respond (answer r) = r
