-- ===== src/Wire/Parser.antt =====
-- core/wire/parser.cpp: `parse_header` and `parse`.
pub mod Safety
use dnsentinal.Common.{
  ℕ, zero, suc, ◌+◌, ◌*◌, ◌/◌, ◌^◌, ◌%◌, List, [], ◌∷◌, ◌++◌, none, true, false, ltb, if◌then◌else◌,
  length,
}
use dnsentinal.Types.{Bytes, Header, Question, Message}
use dnsentinal.Wire.ByteIo.{byte_at, load_u16, size_sub, bit}
use dnsentinal.Wire.Outcome.{Outcome, ok, fail, buffer_too_short, section_overflow, ◌>>=◌}
use dnsentinal.Wire.Records.{read_question, read_section, Section}

-- `kHeaderSize`, `kMinQuestionSize` and `kMinRRSize`
abbrev pub header_size : ℕ
header_size = 12

abbrev pub min_question_size : ℕ
min_question_size = 5

abbrev pub min_rr_size : ℕ
min_rr_size = 11

unfoldable pub decode_flags : ℕ → ℕ → ℕ → ℕ → ℕ → ℕ → ℕ → Header
decode_flags id b2 b3 qdcount ancount nscount arcount = record {
  id = id;
  qr = bit b2 7;
  opcode = b2 / 2 ^ 3 % 2 ^ 4;
  aa = bit b2 2;
  tc = bit b2 1;
  rd = bit b2 0;
  ra = bit b3 7;
  ad = bit b3 5;
  cd = bit b3 4;
  rcode = b3 % 2 ^ 4;
  qdcount = qdcount;
  ancount = ancount;
  nscount = nscount;
  arcount = arcount;
}

-- The twelve bytes of a header that is there.
unfoldable pub read_header : Bytes → Outcome Header
read_header packet = do
  b2 ← byte_at packet 2
  b3 ← byte_at packet 3
  id ← load_u16 packet 0
  qdcount ← load_u16 packet 4
  ancount ← load_u16 packet 6
  nscount ← load_u16 packet 8
  arcount ← load_u16 packet 10
  ok (decode_flags id b2 b3 qdcount ancount nscount arcount)

unfoldable pub parse_header : Bytes → Outcome Header
parse_header packet =
    if ltb (length packet) header_size then fail buffer_too_short else read_header packet

unfoldable pub read_questions : Bytes → ℕ → ℕ → List Question → Outcome (List Question × ℕ)
read_questions packet zero pos questions = ok (questions, pos)
read_questions packet (suc count) pos questions = do
  (q, pos) ← read_question packet pos
  read_questions packet count pos (questions ++ q ∷ [])

unfoldable pub min_needed : Header → ℕ
min_needed h = h.qdcount * min_question_size + (h.ancount + h.nscount + h.arcount) * min_rr_size

unfoldable pub parse_sections : Bytes → Header → Outcome Message
parse_sections packet h = do
  (questions, pos) ← read_questions packet h.qdcount header_size []
  answers ← read_section packet h.ancount false (record { pos = pos; out = []; edns = none })
  authority ← read_section packet h.nscount false (record answers { out = [] })
  additional ← read_section packet h.arcount true (record authority { out = [] })
  ok (record {
    header = h;
    questions = questions;
    answers = answers.out;
    authority = authority.out;
    additional = additional.out;
    edns = additional.edns;
  })

unfoldable pub parse : Bytes → Outcome Message
parse packet = do
  h ← parse_header packet
  if ltb (size_sub (length packet) header_size) (min_needed h)
      then fail section_overflow
      else parse_sections packet h
