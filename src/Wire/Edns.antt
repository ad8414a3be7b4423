-- ===== src/Wire/Edns.antt =====
-- core/wire/edns.cpp: the OPT pseudo-record, and the size of a UDP response.
pub mod Laws
use dnsentinal.Common.{
  ℕ, zero, suc, ◌+◌, ◌*◌, ◌/◌, ◌^◌, ◌%◌, Bool, true, false, ◌++◌, [], ◌∷◌, Option, none, some, ltb,
  ◌==◌, if◌then◌else◌, length, min, max,
}
use dnsentinal.Types.{Bytes, EdnsInfo}
use dnsentinal.Types.RrType
use dnsentinal.Wire.ByteIo.{load_u16, size_sub, bit, u8, put_u16, put_u32}
use dnsentinal.Wire.Outcome.{Outcome, ok, fail, out_of_fuel, malformed_rdata, ◌>>=◌}

-- `kEdnsUdpPayloadSize`, `kClassicUdpSize` and `kOptRecordSize`
abbrev pub edns_udp_payload_size : ℕ
edns_udp_payload_size = 1232

abbrev pub classic_udp_size : ℕ
classic_udp_size = 512

abbrev pub opt_record_size : ℕ
opt_record_size = 11

-- The loop over the options, from `pos` on. Each round moves `pos` by four at least, so the
-- length of the data is fuel enough.
unfoldable pub skip_options : ℕ → Bytes → ℕ → Outcome (Unit {0})
skip_options zero rdata pos = out_of_fuel
skip_options (suc fuel) rdata pos =
    let next = if ltb (size_sub (length rdata) pos) 4 then fail malformed_rdata else (do
      opt_len ← load_u16 rdata (pos + 2)
      let rest = skip_options fuel rdata (pos + 4 + opt_len)
      if ltb (size_sub (length rdata) (pos + 4)) opt_len then fail malformed_rdata else rest) in
    if ltb pos (length rdata) then next else ok tt

unfoldable pub parse_opt : ℕ → ℕ → Bytes → Outcome EdnsInfo
unfolding skip_options
parse_opt cls ttl rdata = do
  _ ← skip_options (suc (length rdata)) rdata 0
  ok (record {
    udp_payload_size = cls;
    extended_rcode = u8 (ttl / 2 ^ 24);
    version = u8 (ttl / 2 ^ 16);
    dnssec_ok = bit ttl 15;
  })

unfoldable pub opt_ttl : EdnsInfo → ℕ
opt_ttl edns =
    edns.extended_rcode * 2 ^ 24 + edns.version * 2 ^ 16 + (if edns.dnssec_ok then 2 ^ 15 else 0)

unfoldable pub write_opt : Bytes → EdnsInfo → Bytes
unfolding put_u16 put_u32 opt_ttl
write_opt out edns =
    let owner = out ++ 0 ∷ [] in
    let typed = put_u16 owner RrType.opt_record in
    let sized = put_u16 typed edns.udp_payload_size in
    let flagged = put_u32 sized (opt_ttl edns) in put_u16 flagged 0

-- `std::clamp` of the advertised size between 512 and our own limit.
unfoldable pub max_udp_response_size : Option EdnsInfo → ℕ → ℕ
max_udp_response_size none our_limit = classic_udp_size
max_udp_response_size (some client) our_limit =
    let upper = max our_limit classic_udp_size in
    if ltb client.udp_payload_size classic_udp_size
    then classic_udp_size
    else if ltb upper client.udp_payload_size
    then upper
    else client.udp_payload_size
