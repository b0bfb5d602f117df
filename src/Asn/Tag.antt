-- ===== src/Asn/Tag.antt =====
-- The tag bytes of pkiInternal.h that the parser looks for.
use Prim.Native.Nat.{ℕ}

abbrev pub integer : ℕ
integer = 2

abbrev pub bit_string : ℕ
bit_string = 3

abbrev pub null : ℕ
null = 5

abbrev pub oid : ℕ
oid = 6

abbrev pub utc_time : ℕ
utc_time = 23

abbrev pub generalized_time : ℕ
generalized_time = 24

-- ASN_SEQUENCE | ASN_CONSTRUCTED
abbrev pub sequence : ℕ
sequence = 0x30

-- ASN_SET | ASN_CONSTRUCTED
abbrev pub set : ℕ
set = 0x31
