-- ===== src/Tests/Samples.antt =====
-- The inputs of the tests.
use dnsentinal.Common.{
  ◌≡◌, refl, Bool, true, [], ◌∷◌, ◌++◌, ltb, ltb→lt, Bool-cases, inl, inr, arith, ◌&&◌,
}
use dnsentinal.Types.{
  Bytes, Name, AreBytes, Rr, ipv4, cname, in_answer, Question, Message, empty_message,
}
use dnsentinal.Wire.Outcome.{ok}
use dnsentinal.Wire.Parser.{
  parse, parse_header, read_header, decode_flags, read_questions, parse_sections, min_needed,
}
use dnsentinal.Wire.Records.{
  read_question, read_section, read_record, read_fields, read_data, read_rdata, read_address,
}
use dnsentinal.Wire.Names.{read_name, walk, round, read_part, read_label, follow_pointer, jump}
use dnsentinal.Wire.ByteIo.{byte_at, load_u16, load_u32, subspan}
use dnsentinal.Name.{append_label, lower, ascii_lower}
use dnsentinal.Types.{default_header, Header, out_of_bailiwick}

abbrev all_bytes : Bytes → Bool
all_bytes [] = true
all_bytes (c ∷ cs) = ltb c 256 && all_bytes cs

pub are_bytes : (cs : Bytes) → all_bytes cs ≡ true → AreBytes cs
are_bytes [] h = tt
are_bytes (c ∷ cs) h = elim (Bool-cases (ltb c 256)) [
  | inl e ↦ (ltb→lt c 256 e, are_bytes cs (rw e at h))
  | inr e ↦ absurd (ground (arith, e, h))
]

abbrev pub www : Bytes
www = 119 ∷ 119 ∷ 119 ∷ []

abbrev pub net : Bytes
net = 110 ∷ 101 ∷ 116 ∷ []

-- www.net and net
abbrev pub www_net : Name
www_net = record { labels = www ∷ net ∷ []; original_case = www ∷ net ∷ [] }

abbrev pub net_name : Name
net_name = record { labels = net ∷ []; original_case = net ∷ [] }

-- A response to a question about www.net, with one address whose owner is a pointer.
abbrev pub packet : Bytes
packet =
    (18 ∷ 52 ∷ 129 ∷ 128 ∷ 0 ∷ 1 ∷ 0 ∷ 1 ∷ 0 ∷ 0 ∷ 0 ∷ 0 ∷ [])
    ++ (3 ∷ 119 ∷ 119 ∷ 119 ∷ 3 ∷ 110 ∷ 101 ∷ 116 ∷ 0 ∷ 0 ∷ 1 ∷ 0 ∷ 1 ∷ [])
    ++ (192 ∷ 12 ∷ 0 ∷ 1 ∷ 0 ∷ 1 ∷ 0 ∷ 0 ∷ 0 ∷ 60 ∷ 0 ∷ 4 ∷ 192 ∷ 0 ∷ 2 ∷ 1 ∷ [])

pub packet-AreBytes : AreBytes packet
packet-AreBytes = are_bytes packet refl

abbrev pub address : Name → Rr
address owner = record {
  name = owner;
  rr_type = 1;
  cls = 1;
  ttl = 60;
  rdata = ipv4 (192 ∷ 0 ∷ 2 ∷ 1 ∷ []);
  trust = in_answer;
}

abbrev pub question : Question
question = record { qname = www_net; qtype = 1; qclass = 1 }

abbrev pub query : Message
query = record empty_message { questions = question ∷ [] }

abbrev pub response : Message
response = record query { answers = address www_net ∷ [] }

abbrev pub alias : Rr
alias = record (address www_net) { rr_type = 5; rdata = cname net_name }

abbrev pub router : Rr
router = record (address www_net) { rdata = ipv4 (192 ∷ 168 ∷ 0 ∷ 1 ∷ []) }

abbrev pub parsed_header : Header
parsed_header = record default_header {
  id = 0x1234;
  qr = true;
  rd = true;
  ra = true;
  qdcount = 1;
  ancount = 1;
}

abbrev pub parsed : Message
parsed = record response {
  header = parsed_header;
  answers = record (address www_net) { trust = out_of_bailiwick } ∷ [];
}

-- What the packet says.
pub parse-packet : parse packet ≡ ok parsed
unfolding parse parse_header read_header decode_flags read_questions parse_sections read_question
    read_name walk round read_part read_label follow_pointer jump byte_at load_u16 load_u32 subspan
    read_section read_record read_fields read_data read_rdata read_address append_label lower
    ascii_lower min_needed
parse-packet = refl
