-- ===== src/Wire/Builder/HeaderRoundTrip.antt =====
-- core/wire/builder.cpp and parser.cpp: `parse_header` reads back what `write_header` writes.
use dnsentinal.Common.{
  ℕ, ◌+◌, ◌*◌, ◌/◌, ◌^◌, ◌%◌, ◌≤◌, ◌<◌, ◌≡◌, ap, Bool, true, false, ◌∷◌, length, length-set, le→ltb,
  arith, ◌==◌, if◌then◌else◌,
}
use dnsentinal.Types.{Bytes, Header}
use dnsentinal.Wire.Builder.{flags_2, flags_3, write_header}
use dnsentinal.Wire.ByteIo.{byte_at, load_u16, store_u16, bit, u8}
use dnsentinal.Wire.Outcome.{ok}
use dnsentinal.Wire.Parser.{decode_flags, read_header, parse_header}
use dnsentinal.Wire.Parser.Safety.{IsHeader}

abbrev val : Bool → ℕ
val true = 1
val false = 0

val-le : (b : Bool) → val b ≤ 1
val-le true = omega arith
val-le false = omega arith

flag_val : (b : Bool) (v : ℕ) → (if b then v else 0) ≡ val b * v
flag_val true v = omega arith
flag_val false v = omega arith

val_test : (b : Bool) (x : ℕ) → x ≡ val b → (x == 1) ≡ b
val_test true x e = rw e
val_test false x e = rw e

u16_halves : (n : ℕ) → n < 2 ^ 16 → u8 (n / 2 ^ 8) * 2 ^ 8 + u8 n ≡ n
u16_halves n h = omega arith

module _ (h : Header) (v : IsHeader h) where
  abbrev b2 : ℕ
  b2 = u8 (flags_2 h)

  abbrev b3 : ℕ
  b3 = u8 (flags_3 h)

  qr_eq : bit b2 7 ≡ h.qr
  unfolding flags_2
  qr_eq =
      val_test h.qr _ (omega (arith, flag_val, val-le h.qr, val-le h.aa, val-le h.tc, val-le h.rd))

  aa_eq : bit b2 2 ≡ h.aa
  unfolding flags_2
  aa_eq =
      val_test h.aa _ (omega (arith, flag_val, val-le h.qr, val-le h.aa, val-le h.tc, val-le h.rd))

  tc_eq : bit b2 1 ≡ h.tc
  unfolding flags_2
  tc_eq =
      val_test h.tc _ (omega (arith, flag_val, val-le h.qr, val-le h.aa, val-le h.tc, val-le h.rd))

  rd_eq : bit b2 0 ≡ h.rd
  unfolding flags_2
  rd_eq =
      val_test h.rd _ (omega (arith, flag_val, val-le h.qr, val-le h.aa, val-le h.tc, val-le h.rd))

  opcode_eq : b2 / 2 ^ 3 % 2 ^ 4 ≡ h.opcode
  unfolding flags_2
  opcode_eq = omega (arith, v.opcode, flag_val, val-le h.qr, val-le h.aa, val-le h.tc, val-le h.rd)

  ra_eq : bit b3 7 ≡ h.ra
  unfolding flags_3
  ra_eq = val_test h.ra _ (omega (arith, flag_val, val-le h.ra, val-le h.ad, val-le h.cd))

  ad_eq : bit b3 5 ≡ h.ad
  unfolding flags_3
  ad_eq = val_test h.ad _ (omega (arith, flag_val, val-le h.ra, val-le h.ad, val-le h.cd))

  cd_eq : bit b3 4 ≡ h.cd
  unfolding flags_3
  cd_eq = val_test h.cd _ (omega (arith, flag_val, val-le h.ra, val-le h.ad, val-le h.cd))

  rcode_eq : b3 % 2 ^ 4 ≡ h.rcode
  unfolding flags_3
  rcode_eq = omega (arith, v.rcode, flag_val, val-le h.ra, val-le h.ad, val-le h.cd)

  decode_flags-flags : decode_flags h.id b2 b3 h.qdcount h.ancount h.nscount h.arcount ≡ h
  unfolding decode_flags
  decode_flags-flags = λ i. record {
    id = h.id;
    qr = qr_eq i;
    opcode = opcode_eq i;
    aa = aa_eq i;
    tc = tc_eq i;
    rd = rd_eq i;
    ra = ra_eq i;
    ad = ad_eq i;
    cd = cd_eq i;
    rcode = rcode_eq i;
    qdcount = h.qdcount;
    ancount = h.ancount;
    nscount = h.nscount;
    arcount = h.arcount;
  }

read_header-write_header :
    (out : Bytes) (h : Header)
    → 12 ≤ length out
    → IsHeader h
    → read_header (write_header out h) ≡ ok h
unfolding read_header write_header load_u16 byte_at store_u16
read_header-write_header (_ ∷ _ ∷ _ ∷ _ ∷ _ ∷ _ ∷ _ ∷ _ ∷ _ ∷ _ ∷ _ ∷ _ ∷ rest) h l v =
    rw
      (
        u16_halves h.id v.id,
        u16_halves h.qdcount v.qdcount,
        u16_halves h.ancount v.ancount,
        u16_halves h.nscount v.nscount,
        u16_halves h.arcount v.arcount,
      )
      (ap ok (decode_flags-flags h v))
read_header-write_header _ h l v = absurd (omega arith)

pub length-write_header : (out : Bytes) (h : Header) → length (write_header out h) ≡ length out
unfolding write_header store_u16
length-write_header out h = simp length-set

-- `parse_header` reads back every header whose fields fit their widths from a packet whose first
-- twelve bytes `write_header` has filled in, whatever follows.
pub parse_header-write_header :
    (out : Bytes) (h : Header)
    → 12 ≤ length out
    → IsHeader h
    → parse_header (write_header out h) ≡ ok h
unfolding parse_header
parse_header-write_header out h l v =
    rw (le→ltb (length (write_header out h)) 12 (omega (arith, length-write_header out h)))
      (read_header-write_header out h l v)
