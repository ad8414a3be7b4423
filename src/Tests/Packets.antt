-- ===== src/Tests/Packets.antt =====
-- Packets on concrete inputs.
use dnsentinal.Common.{none, some, ◌≤◌, ◌≡◌, refl, true, [], ◌∷◌, length, arith, replicate}
use dnsentinal.Types.{Header, default_header, EdnsInfo, bytes_eq, name_eq, labels_eq}
use dnsentinal.Wire.Outcome.{Ensures, ok}
use dnsentinal.Wire.ByteIo.{put_u16, put_u32, store_u16, u16_bytes, u32_bytes}
use dnsentinal.Wire.Names.{read_name}
use dnsentinal.Wire.Names.Safety.{IsRead, read_name-IsRead}
use dnsentinal.Wire.Parser.{parse, parse_header}
use dnsentinal.Wire.Parser.Safety.{IsHeader, IsParsed, parse-IsParsed}
use dnsentinal.Wire.Edns.Laws.{IsEdns}
use dnsentinal.Wire.Writer.{
  write_question, write_rrs, write_rr, write_rdata, write_labels, remember, suffix_key, text_of,
  Writer, write_name, rollback, lookup,
}
use dnsentinal.Wire.Writer.Offsets.{IsSound, write_name-IsSound}
use dnsentinal.Wire.Builder.{
  build_message, write_questions, write_runs, runs, runs_from, same_rrset, write_next, opt_room,
  count_opt, append_opt, flags_2, flags_3, build, BuildOptions, final_header, write_sections,
  write_header,
}
use dnsentinal.Wire.Builder.Omissions.{Tells, build_limits}
use dnsentinal.Wire.Records.{Section, read_record}
use dnsentinal.Wire.Records.OptRoundTrip.{read_record-write_opt}
use dnsentinal.Wire.Edns.{write_opt}
use dnsentinal.Wire.Builder.HeaderRoundTrip.{parse_header-write_header}
use dnsentinal.Tests.Samples.{parsed, packet, packet-AreBytes, www_net, net, response}

parse-IsParsed_example : Ensures IsParsed (parse packet)
parse-IsParsed_example = parse-IsParsed packet packet-AreBytes (omega arith)

-- The pointer at 25.
read_name-IsRead_example : Ensures (IsRead packet 25) (read_name packet 25)
read_name-IsRead_example = read_name-IsRead packet 25 packet-AreBytes (omega arith) (omega arith)

default-IsHeader : IsHeader default_header
default-IsHeader = record {
  id = omega arith;
  opcode = omega arith;
  rcode = omega arith;
  qdcount = omega arith;
  ancount = omega arith;
  nscount = omega arith;
  arcount = omega arith;
}

abbrev options : BuildOptions
options = record { max_size = 512; compress = true }

build_limits_example :
    (length (build response options) ≤ 512)
    × (h : Header) × (parse_header (build response options) ≡ ok h)
    × Tells response h
build_limits_example = build_limits response options (omega arith) default-IsHeader (record {
  questions = omega arith;
  answers = omega arith;
  authority = omega arith;
  additional = omega arith;
})

parse_header-write_header_example :
    parse_header (write_header (replicate 12 0) default_header) ≡ ok default_header
parse_header-write_header_example =
    parse_header-write_header (replicate 12 0) default_header (omega arith) default-IsHeader

abbrev sound : Writer
sound = record { compress = true; out = replicate 16 0; suffixes = (3 ∷ net, 12) ∷ [] }

sound-IsSound : IsSound sound
sound-IsSound = ((omega arith, omega arith), tt)

write_name-IsSound_example : IsSound (write_name www_net sound) × IsSound (rollback sound 12)
write_name-IsSound_example = write_name-IsSound sound www_net 12 sound-IsSound (omega arith)

abbrev edns : EdnsInfo
edns = record { udp_payload_size = 4096; extended_rcode = 1; version = 0; dnssec_ok = true }

edns-IsEdns : IsEdns edns
edns-IsEdns = record { payload = omega arith; extended = omega arith; versioned = omega arith }

-- After a header.
abbrev section : Section
section = record { pos = 12; out = []; edns = none }

read_record-write_opt_example :
    read_record (write_opt (replicate 12 0) edns) true section
    ≡ ok (record section { edns = some edns; pos = 23 })
read_record-write_opt_example =
    read_record-write_opt (replicate 12 0) edns edns-IsEdns section refl (omega arith) refl

-- The same bytes, the owner of the record compressed.
build-parsed : build parsed options ≡ packet
unfolding build build_message write_sections write_questions write_runs runs runs_from same_rrset
    write_next opt_room final_header count_opt append_opt write_header flags_2 flags_3
    write_question write_rrs write_rr write_rdata write_name write_labels lookup remember suffix_key
    text_of rollback put_u16 put_u32 store_u16 u16_bytes u32_bytes bytes_eq name_eq labels_eq
build-parsed = refl
