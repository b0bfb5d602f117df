-- ===== src/Mpi/Tests.antt =====
-- The theorems on big integers at concrete numbers.
use robin_mesh_v.Prelude.{ℕ, List, ◌≡◌, refl, Bool, true, false, some, [], ◌∷◌, pos, negsuc, arith}
use robin_mesh_v.Mpi.{
  Mp, mp_add, mp_mul_d, s_mp_add, s_mp_sub, mp_grow, store, mp_clamp, mp_zero, mp_cmp_mag,
}
use robin_mesh_v.Mpi.Value.{top, above}
use robin_mesh_v.Mpi.Sign.{◌+ℤ◌}
use robin_mesh_v.Mpi.Refine.{Represents, Outcome, mp_add-Outcome}
use robin_mesh_v.Mpi.Order.{times, mp_mul_d-Outcome}
use robin_mesh_v.Mpi.Shift.{mp_div_2, mp_mul_2, store_all}
use robin_mesh_v.Mpi.Bits.{
  and_then, mul_2d_here, read_bytes, mp_read_unsigned_bin, mp_to_unsigned_bin,
}
use robin_mesh_v.Mpi.Bits.Read.{AreBytes, mp_read_unsigned_bin-Outcome}
use robin_mesh_v.Mpi.Bits.Size.{IsSized, mp_unsigned_bin_size-mp_read_unsigned_bin}
use robin_mesh_v.Mpi.Bits.Write.{Written, mp_to_unsigned_bin-mp_read_unsigned_bin}

-- 2 ^ 28 + 5, and -7.
abbrev large : Mp
large = record { alloc = 64; neg = false; dp = 5 ∷ 1 ∷ [] }

abbrev minus_seven : Mp
minus_seven = record { alloc = 64; neg = true; dp = 7 ∷ [] }

abbrev none_yet : Mp
none_yet = record { alloc = 64; neg = false; dp = [] }

abbrev enough : ℕ → Bool
enough n = true

large-Represents : Represents large (pos 268435461)
large-Represents = record {
  digits = (omega arith, (omega arith, _));
  clamped = above 5 1 [] (top 1 (omega arith));
  fits = omega arith;
  unsigned = λ e. refl;
  is = refl;
}

minus_seven-Represents : Represents minus_seven (negsuc 6)
minus_seven-Represents = record {
  digits = (omega arith, _);
  clamped = top 7 (omega arith);
  fits = omega arith;
  unsigned = λ e. absurd (omega arith);
  is = refl;
}

-- The borrow goes through both digits, and the upper one is trimmed.
borrowed :
    mp_add enough large minus_seven none_yet
    ≡ some (record { alloc = 64; neg = false; dp = 268435454 ∷ [] })
unfolding mp_add s_mp_add s_mp_sub mp_grow store mp_clamp mp_cmp_mag
borrowed = refl

mp_add-Outcome_example :
    Outcome enough (pos 268435461 +ℤ negsuc 6) (mp_add enough large minus_seven none_yet)
mp_add-Outcome_example =
    mp_add-Outcome enough large minus_seven none_yet large-Represents minus_seven-Represents

mp_mul_d-Outcome_example :
    Outcome enough (times (pos 268435461) 268435455) (mp_mul_d enough large 268435455 none_yet)
mp_mul_d-Outcome_example =
    mp_mul_d-Outcome enough large none_yet 268435455 large-Represents (omega arith)

-- The low bit of the upper digit comes down, and the upper digit is trimmed.
halved :
    mp_div_2 enough large none_yet ≡ some (record { alloc = 64; neg = false; dp = 134217730 ∷ [] })
unfolding mp_div_2 mp_grow store mp_clamp
halved = refl

-- A new leading digit is in use at once.
doubled :
    mp_mul_2 enough (record { alloc = 64; neg = true; dp = 134217729 ∷ [] }) none_yet
    ≡ some (record { alloc = 64; neg = true; dp = 2 ∷ 1 ∷ [] })
unfolding mp_mul_2 mp_grow store_all
doubled = refl

-- Two zeros at the front, and bytes that two digits share.
abbrev some_bytes : List ℕ
some_bytes = 0 ∷ 0 ∷ 1 ∷ 255 ∷ 0 ∷ 4 ∷ 5 ∷ []

some_bytes-AreBytes : AreBytes some_bytes
some_bytes-AreBytes = (
  omega arith,
  (omega arith, (omega arith, (omega arith, (omega arith, (omega arith, (omega arith, _)))))),
)

read_two_digits :
    mp_read_unsigned_bin enough minus_seven some_bytes
    ≡ some (record { alloc = 64; neg = false; dp = 251659269 ∷ 31 ∷ [] })
unfolding mp_read_unsigned_bin read_bytes mul_2d_here mp_zero mp_grow mp_clamp
read_two_digits = refl

mp_read_unsigned_bin-Outcome_example :
    Outcome enough (pos 8573158405) (mp_read_unsigned_bin enough minus_seven some_bytes)
mp_read_unsigned_bin-Outcome_example =
    mp_read_unsigned_bin-Outcome enough minus_seven some_bytes some_bytes-AreBytes

mp_to_unsigned_bin-mp_read_unsigned_bin_example :
    Written enough
      (1 ∷ 255 ∷ 0 ∷ 4 ∷ 5 ∷ [])
      (and_then (mp_read_unsigned_bin enough minus_seven some_bytes) (mp_to_unsigned_bin enough))
mp_to_unsigned_bin-mp_read_unsigned_bin_example =
    mp_to_unsigned_bin-mp_read_unsigned_bin enough minus_seven some_bytes some_bytes-AreBytes

mp_unsigned_bin_size-mp_read_unsigned_bin_example :
    IsSized 5 (mp_read_unsigned_bin enough minus_seven some_bytes)
mp_unsigned_bin_size-mp_read_unsigned_bin_example =
    mp_unsigned_bin_size-mp_read_unsigned_bin enough minus_seven some_bytes some_bytes-AreBytes
