-- ===== src/Asn.antt =====
-- The DER parser of pki/asn1.c. A parser takes the pointer `*pp` and returns the advanced pointer
-- with what it wrote through its other arguments; on an error the C code leaves `*pp` alone. Lengths
-- are `int32`: where one is computed as a difference it is cut off at 0 here, since a negative one
-- and 0 are refused alike by the test `< 1` that meets them.
pub mod Tag
pub mod Bounds
pub mod Length
mod Tests
use Prim.Native.Nat.{bit_or}
use robin_mesh_v.Prelude.{
  ℕ, zero, suc, ◌+◌, ◌-◌, ◌*◌, ◌/◌, ◌%◌, ◌^◌, Bool, true, false, ◌&&◌, ◌||◌, not, List, [], ◌∷◌,
  ◌++◌, ltb, leb, ◌==◌, if◌then◌else◌, bit_xor, drop, ℤ, pos, negsuc,
}
use robin_mesh_v.Memory.{
  Outcome, ok, err, fault, failed, mem_error, ◌>>=◌, ◌>>◌, refuse_if, Ptr, peek, next, copy,
}

-- `while (n-- > 0) acc = (acc << 8) | *p++` in 32 bits: the low eight bits of the shifted word are
-- zero, so the "or" is a sum.
unfoldable pub read_word : ℕ → Ptr → ℕ → Outcome (ℕ × Ptr)
read_word zero p acc = ok (acc, p)
read_word (suc n) p acc = next p >>= λ r. read_word n r.1 ((acc * 2 ^ 8 + r.0) % 2 ^ 32)

-- The same loop with each byte complemented, `*p ^ 0xFF`.
unfoldable pub read_complement : ℕ → Ptr → ℕ → Outcome (ℕ × Ptr)
read_complement zero p acc = ok (acc, p)
read_complement (suc n) p acc =
    next p >>= λ r. read_complement n r.1 ((acc * 2 ^ 8 + bit_xor r.0 0xFF) % 2 ^ 32)

-- The length bytes after a first byte that counts them: as an `int32` the number must not be
-- negative.
unfoldable pub parse_long_length : Ptr → ℕ → ℕ → Outcome (ℕ × Ptr)
parse_long_length p left n =
    if ltb 4 n || n == 0x7f || ltb left n
    then err failed
    else read_word n p 0 >>= λ r. if leb (2 ^ 31) r.0 then err failed else ok r

-- `asnParseLength`: the length, and the pointer to the first byte of the value.
unfoldable pub parse_length : Ptr → ℕ → Outcome (ℕ × Ptr)
unfolding parse_long_length
parse_length p size =
    if ltb size 1
    then err failed
    else next p >>= λ r.
        if r.0 == 0x80
        then err failed
        else if r.0 / 2 ^ 7 % 2 == 0
        then ok (r.0 % 2 ^ 7, r.1)
        else parse_long_length r.1 (size - 1) (r.0 % 2 ^ 7)

-- `*(p++) != tag || asnParseLength(&p, len - 1, …) < 0`, after a test `len < 1`.
unfoldable pub tagged_length : Ptr → ℕ → ℕ → Outcome (ℕ × Ptr)
tagged_length p len tag =
    if ltb len 1
    then err failed
    else next p >>= λ r. if not (r.0 == tag) then err failed else parse_length r.1 (len - 1)

-- `getSequence`
unfoldable pub get_sequence : Ptr → ℕ → Outcome (ℕ × Ptr)
get_sequence p len =
    tagged_length p len Tag.sequence >>= λ r. if ltb len r.0 then err failed else ok r

-- `getSet`
unfoldable pub get_set : Ptr → ℕ → Outcome (ℕ × Ptr)
get_set p len = tagged_length p len Tag.set >>= λ r. if ltb len r.0 then err failed else ok r

-- The value of `getInteger`, by the high bit of its first byte.
unfoldable pub integer_value : Ptr → ℕ → Outcome (ℤ × Ptr)
integer_value p vlen = peek p >>= λ c.
    if c / 2 ^ 7 % 2 == 0
    then (read_word vlen p 0 >>= λ r. ok (pos r.0, r.1))
    else (read_complement vlen p 0 >>= λ r. ok (negsuc r.0, r.1))

-- `getInteger`
unfoldable pub get_integer : Ptr → ℕ → Outcome (ℤ × Ptr)
unfolding integer_value
get_integer p len = tagged_length p len Tag.integer >>= λ r.
    if ltb 4 r.0 || ltb (p.at + len) (r.1.at + r.0) then err failed else integer_value r.1 r.0

-- `getExplicitVersion`: the default 0 where the tag is another one.
unfoldable pub get_explicit_version : Ptr → ℕ → ℕ → Outcome (ℤ × Ptr)
get_explicit_version p len exp_val =
    if ltb len 1
    then err failed
    else peek p >>= λ c.
        if not (c == bit_or 0xA0 exp_val)
        then ok (pos 0, p)
        else next p >>= λ q. parse_length q.1 (len - 1) >>= λ r.
            if ltb (len - 1) r.0 then err failed else get_integer r.1 r.0

-- The number that bytes stand for, most significant first.
abbrev pub big_endian : ℕ → List ℕ → ℕ
big_endian acc [] = acc
big_endian acc (c ∷ cs) = big_endian (acc * 2 ^ 8 + c) cs

-- `alloc n` tells whether `psMalloc` finds `n` bytes.
module _ (alloc : ℕ → Bool) where
  -- `getBig`: the number itself stands for the `mp_int` that `mp_read_unsigned_bin` makes, which
  -- fails for want of memory only. The value's length is not compared with `len`.
  unfoldable pub get_big : Ptr → ℕ → Outcome (ℕ × Ptr)
  get_big p len = tagged_length p len Tag.integer >>= λ r.
      if not (alloc r.0) then err failed else copy r.1 r.0 >>= λ v. ok (big_endian 0 v.0, v.1)

  -- `getSerialNum`: the first byte is read before `len` is looked at.
  unfoldable pub get_serial_num : Ptr → ℕ → Outcome (List ℕ × Ptr)
  get_serial_num p len = next p >>= λ c.
      if not (c.0 == 0x82) && not (c.0 == Tag.integer)
      then err failed
      else if ltb len 1
      then err failed
      else parse_length c.1 (len - 1) >>= λ r.
          if not (alloc r.0) then err mem_error else copy r.1 r.0

  -- `getSignature`: the raw bits behind the count of ignored bits, which is taken to be 0. The
  -- length is `llen - 1` as a `size_t`.
  unfoldable pub get_signature : Ptr → ℕ → Outcome (List ℕ × Ptr)
  get_signature p len = tagged_length p len Tag.bit_string >>= λ r.
      if ltb (p.at + len) (r.1.at + r.0)
      then err failed
      else next r.1 >>= λ q.
          let sig_len = (r.0 + (2 ^ 32 - 1)) % 2 ^ 32 in
          if not (alloc sig_len) then err mem_error else copy q.1 sig_len

  -- `getImplicitBitString`: no bytes where the tag is another one.
  unfoldable pub get_implicit_bit_string : Ptr → ℕ → ℕ → Outcome (List ℕ × Ptr)
  get_implicit_bit_string p len imp_val =
      if ltb len 1
      then err failed
      else peek p >>= λ c.
          if not (c == bit_or 0xA0 imp_val)
          then ok ([], p)
          else next p >>= λ q. parse_length q.1 len >>= λ r.
              next r.1 >>= λ s. if not (alloc r.0) then err mem_error else copy s.1 r.0

  -- One of the two times of `getValidity`, as a string with its closing zero byte; `size` is what
  -- the length is parsed within, `end` the address behind the buffer. Its length comes along.
  get_time : Ptr → ℕ → ℕ → Outcome (List ℕ × ℕ × Ptr)
  get_time p end size =
      if ltb end (p.at + 1)
      then err failed
      else next p >>= λ c.
          if not (c.0 == Tag.utc_time) && not (c.0 == Tag.generalized_time)
          then err failed
          else parse_length c.1 size >>= λ r.
              if ltb end (r.1.at + r.0)
              then err failed
              else if not (alloc (r.0 + 1))
              then err mem_error
              else copy r.1 r.0 >>= λ v. ok (v.0 ++ 0 ∷ [], r.0, v.1)

  -- `getValidity`: notBefore and notAfter.
  unfoldable pub get_validity : Ptr → ℕ → Outcome (List ℕ × List ℕ × Ptr)
  unfolding get_time
  get_validity p len =
      let end = p.at + len in
      tagged_length p len Tag.sequence >>= λ r.
      if ltb end (r.1.at + r.0)
      then err failed
      else get_time r.1 end r.0 >>= λ b. get_time b.2 end (r.0 - b.1) >>= λ a. ok (b.0, a.0, a.2)

-- `while (arcLen-- > 0) *oi += *p++`
unfoldable pub sum_bytes : ℕ → Ptr → ℕ → Outcome (ℕ × Ptr)
sum_bytes zero p acc = ok (acc, p)
sum_bytes (suc n) p acc = next p >>= λ r. sum_bytes n r.1 (acc + r.0)

-- The optional NULL parameter behind an object identifier.
unfoldable pub skip_null : Ptr → ℕ → ℕ → Outcome (ℕ × Ptr)
skip_null p end oi = peek p >>= λ c.
    if not (c == Tag.null)
    then ok (oi, p)
    else if ltb end (p.at + 2)
    then err failed
    else ok (oi, record { at = p.at + 2; mem = drop 2 p.mem })

-- `*p != 0x2a && *(p + 1) != 0x86`
unfoldable pub not_rsa : Ptr → Outcome Bool
not_rsa p = next p >>= λ r. if r.0 == 0x2a then ok false else peek r.1 >>= λ c. ok (not (c == 0x86))

-- `getAlgorithmIdentifier`: the sum of the bytes of the object identifier.
unfoldable pub get_algorithm_identifier : Ptr → ℕ → Bool → Outcome (ℕ × Ptr)
get_algorithm_identifier p len is_pub_key =
    let end = p.at + len in
    if ltb len 1
    then err failed
    else get_sequence p len >>= λ s.
        if ltb end (s.1.at + 1)
        then err failed
        else next s.1 >>= λ q.
            if not (q.0 == Tag.oid)
            then err failed
            else parse_length q.1 (end - q.1.at) >>= λ r.
                if ltb s.0 r.0 || ltb end (r.1.at + 2)
                then err failed
                else (if is_pub_key then not_rsa r.1 else ok false) >>= λ other.
                    if other then err failed else sum_bytes r.0 r.1 0 >>= λ v. skip_null v.1 end v.0
