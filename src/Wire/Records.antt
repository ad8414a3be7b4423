-- ===== src/Wire/Records.antt =====
-- core/wire/parser.cpp: questions, resource records and sections.
pub mod OptRoundTrip
pub mod Shape
pub mod Safety
pub mod Sections
use dnsentinal.Common.{
  ℕ, zero, suc, ◌+◌, ◌-◌, ◌*◌, ◌/◌, ◌^◌, ◌%◌, Bool, true, false, not, ◌&&◌, ◌||◌, List, [], ◌∷◌,
  ◌++◌, Option, none, some, ltb, leb, ◌==◌, if◌then◌else◌, length,
}
use dnsentinal.Types.{
  Bytes, Name, Question, RData, ipv4, ipv6, ns, cname, soa, mx, txt, ptr, raw, Rr, EdnsInfo,
  out_of_bailiwick,
}
use dnsentinal.Types.RrType
use dnsentinal.Wire.ByteIo.{byte_at, load_u16, load_u32, subspan, size_sub, bit}
use dnsentinal.Wire.Edns.{parse_opt}
use dnsentinal.Wire.Names.{read_name}
use dnsentinal.Wire.Outcome.{
  Outcome, ok, fail, out_of_fuel, buffer_too_short, rdata_length_mismatch, malformed_rdata,
  invalid_opt, ◌>>=◌,
}

-- `kClassIN` and `kRRFixedSize`
abbrev pub class_in : ℕ
class_in = 1

abbrev pub rr_fixed_size : ℕ
rr_fixed_size = 10

-- The loop over the character-strings of a TXT record, from `p` on. Each round moves `p`.
unfoldable pub read_strings : ℕ → Bytes → ℕ → List Bytes → Outcome (List Bytes)
read_strings zero rdata p strings = out_of_fuel
read_strings (suc fuel) rdata p strings =
    let next = do
      n ← byte_at rdata p
      let rest = λ (text : Bytes). read_strings fuel rdata (p + 1 + n) (strings ++ text ∷ [])
      if ltb (size_sub (length rdata) (p + 1)) n
          then fail malformed_rdata
          else subspan rdata (p + 1) n >>= rest
    in if ltb p (length rdata) then next else ok strings

-- The data of an address record of `size` bytes, or raw data in a class other than IN.
unfoldable pub read_address : (Bytes → RData) → ℕ → Bytes → ℕ → ℕ → Outcome RData
read_address build size rdata rdlen cls =
    if not (cls == class_in)
    then ok (raw rdata)
    else if not (rdlen == size)
    then fail rdata_length_mismatch
    else ok (build rdata)

module _ (msg : Bytes) where
  unfoldable pub read_question : ℕ → Outcome (Question × ℕ)
  read_question pos = do
    (qname, pos) ← read_name msg pos
    if ltb (size_sub (length msg) pos) 4 then fail buffer_too_short else (do
      qtype ← load_u16 msg pos
      qclass ← load_u16 msg (pos + 2)
      ok (record { qname = qname; qtype = qtype; qclass = qclass }, pos + 4))

  -- RDATA that is one name, which must end where the data does.
  unfoldable pub name_rdata : ℕ → ℕ → Outcome Name
  name_rdata pos end = do
    (n, pos) ← read_name msg pos
    if not (pos == end) then fail rdata_length_mismatch else ok n

  unfoldable pub read_mx : ℕ → ℕ → ℕ → Outcome RData
  read_mx pos rdlen end = if ltb rdlen 2 then fail rdata_length_mismatch else (do
    preference ← load_u16 msg pos
    exchange ← name_rdata (pos + 2) end
    ok (mx preference exchange))

  unfoldable pub read_soa : ℕ → ℕ → Outcome RData
  read_soa pos end = do
    (mname, pos) ← read_name msg pos
    (rname, pos) ← read_name msg pos
    if ltb end pos || not (size_sub end pos == 20) then fail rdata_length_mismatch else (do
      serial ← load_u32 msg pos
      refresh ← load_u32 msg (pos + 4)
      retry ← load_u32 msg (pos + 8)
      expire ← load_u32 msg (pos + 12)
      minimum ← load_u32 msg (pos + 16)
      ok (
          soa (record {
            mname = mname;
            rname = rname;
            serial = serial;
            refresh = refresh;
            retry = retry;
            expire = expire;
            minimum = minimum;
          })))

  unfoldable pub read_rdata : ℕ → ℕ → ℕ → ℕ → Outcome RData
  unfolding read_address name_rdata read_mx read_soa read_strings
  read_rdata pos rdlen rr_type cls = do
    let end = pos + rdlen
    rdata ← subspan msg pos rdlen
    if rr_type == RrType.a_record
        then read_address ipv4 4 rdata rdlen cls
        else if rr_type == RrType.aaaa_record
        then read_address ipv6 16 rdata rdlen cls
        else if rr_type == RrType.ns_record
        then (do n ← name_rdata pos end; ok (ns n))
        else if rr_type == RrType.cname_record
        then (do n ← name_rdata pos end; ok (cname n))
        else if rr_type == RrType.ptr_record
        then (do n ← name_rdata pos end; ok (ptr n))
        else if rr_type == RrType.mx_record
        then read_mx pos rdlen end
        else if rr_type == RrType.soa_record
        then read_soa pos end
        else if rr_type == RrType.txt_record
        then (do strings ← read_strings (suc (length rdata)) rdata 0 []; ok (txt strings))
        else ok (raw rdata)

-- What `read_section` changes: the position, the records and the OPT record.
pub record Section : Type 0 where
  pub pos : ℕ
  pub out : List Rr
  pub edns : Option EdnsInfo

abbrev pub has_opt : Option EdnsInfo → Bool
has_opt none = false
has_opt (some e) = true

abbrev pub is_root : Name → Bool
is_root n = length n.labels == 0

module _ (msg : Bytes) where
  unfoldable pub read_opt : Bool → Section → Name → ℕ → ℕ → ℕ → ℕ → Outcome Section
  read_opt is_additional s owner cls ttl pos rdlen =
      if not is_additional || has_opt s.edns || not (is_root owner) then fail invalid_opt else (do
        rdata ← subspan msg pos rdlen
        info ← parse_opt cls ttl rdata
        ok (record s { edns = some info; pos = pos + rdlen }))

  -- A TTL with the top bit set is treated as zero.
  unfoldable pub read_data : Section → Name → ℕ → ℕ → ℕ → ℕ → ℕ → Outcome Section
  read_data s owner rr_type cls ttl pos rdlen = do
    rdata ← read_rdata msg pos rdlen rr_type cls
    ok (record s {
      pos = pos + rdlen;
      out =
          s.out
          ++ (record {
            name = owner;
            rr_type = rr_type;
            cls = cls;
            ttl = if bit ttl 31 then 0 else ttl;
            rdata = rdata;
            trust = out_of_bailiwick;
          })
            ∷ [];
    })

  unfoldable pub read_fields : Bool → Section → Name → ℕ → Outcome Section
  read_fields is_additional s owner pos = do
    rr_type ← load_u16 msg pos
    cls ← load_u16 msg (pos + 2)
    ttl ← load_u32 msg (pos + 4)
    rdlen ← load_u16 msg (pos + 8)
    let pos = pos + rr_fixed_size
    if ltb (size_sub (length msg) pos) rdlen
        then fail buffer_too_short
        else if rr_type == RrType.opt_record
        then read_opt is_additional s owner cls ttl pos rdlen
        else read_data s owner rr_type cls ttl pos rdlen

  -- One round of the loop of `read_section`.
  unfoldable pub read_record : Bool → Section → Outcome Section
  unfolding read_fields read_opt read_data
  read_record is_additional s = do
    (owner, pos) ← read_name msg s.pos
    if ltb (size_sub (length msg) pos) rr_fixed_size
        then fail buffer_too_short
        else read_fields is_additional s owner pos

  unfoldable pub read_section : ℕ → Bool → Section → Outcome Section
  read_section zero is_additional s = ok s
  read_section (suc count) is_additional s = do
    s' ← read_record is_additional s
    read_section count is_additional s'
