-- ===== src/Types/RrType.antt =====
-- `enum class RRType : uint16_t` of core/include/dnsentinel/types.h; the parser casts any 16-bit
-- number to it.
use Prim.Native.Nat.{ℕ}

abbrev pub a_record : ℕ
a_record = 1

abbrev pub ns_record : ℕ
ns_record = 2

abbrev pub cname_record : ℕ
cname_record = 5

abbrev pub soa_record : ℕ
soa_record = 6

abbrev pub ptr_record : ℕ
ptr_record = 12

abbrev pub mx_record : ℕ
mx_record = 15

abbrev pub txt_record : ℕ
txt_record = 16

abbrev pub aaaa_record : ℕ
aaaa_record = 28

abbrev pub opt_record : ℕ
opt_record = 41
