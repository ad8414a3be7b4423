-- ===== src/Wire/Builder.antt =====
-- core/wire/builder.cpp: the header, RRset-boundary truncation, and whole messages.
pub mod HeaderRoundTrip
pub mod Limits
pub mod Omissions
use dnsentinal.Common.{
  ℕ, zero, suc, ◌+◌, ◌-◌, ◌*◌, ◌/◌, ◌^◌, ◌%◌, max, Bool, true, false, not, ◌&&◌, ◌||◌, List, [],
  ◌∷◌, ◌++◌, Option, none, some, ltb, leb, ◌==◌, if◌then◌else◌, length, take, replicate, set,
}
use dnsentinal.Types.{Bytes, Header, Question, Rr, EdnsInfo, Message, name_eq, default_header}
use dnsentinal.Wire.ByteIo.{u8, size_sub, store_u16}
use dnsentinal.Wire.Edns.{classic_udp_size, edns_udp_payload_size, opt_record_size, write_opt}
use dnsentinal.Wire.Parser.{header_size}
use dnsentinal.Wire.Writer.{Writer, size, rollback, write_question, write_rrs}

-- `kMaxTcpMessage`
abbrev pub max_tcp_message : ℕ
max_tcp_message = 0xffff

unfoldable pub same_rrset : Rr → Rr → Bool
same_rrset a b = a.rr_type == b.rr_type && a.cls == b.cls && name_eq a.name b.name

abbrev flag : Bool → ℕ → ℕ
flag b v = if b then v else 0

-- The flags are disjoint bits, so that `|` is a sum.
unfoldable pub flags_2 : Header → ℕ
flags_2 h =
    flag h.qr 0x80 + h.opcode % 2 ^ 4 * 2 ^ 3 + flag h.aa 0x04 + flag h.tc 0x02 + flag h.rd 0x01

unfoldable pub flags_3 : Header → ℕ
flags_3 h = flag h.ra 0x80 + flag h.ad 0x20 + flag h.cd 0x10 + h.rcode % 2 ^ 4

unfoldable pub write_header : Bytes → Header → Bytes
unfolding flags_2 flags_3 store_u16
write_header out h =
    let named = store_u16 out 0 h.id in
    let flagged = set (set named 2 (u8 (flags_2 h))) 3 (u8 (flags_3 h)) in
    let questions = store_u16 flagged 4 h.qdcount in
    let answers = store_u16 questions 6 h.ancount in
    let authority = store_u16 answers 8 h.nscount in store_u16 authority 10 h.arcount

-- What a loop leaves: the writer, its count, and whether it wrote everything.
pub record Written : Type 0 where
  pub writer : Writer
  pub count : ℕ
  pub complete : Bool

unfoldable pub write_questions : ℕ → List Question → Writer → ℕ → Written
write_questions limit [] w count = record { writer = w; count = count; complete = true }
write_questions limit (q ∷ qs) w count =
    let w' = write_question q w in
    let rest = write_questions limit qs w' ((count + 1) % 2 ^ 16) in
    if ltb limit (size w')
    then record { writer = rollback w' (size w); count = count; complete = false }
    else rest

-- The runs of consecutive records of one RRset; `run` is the one that `first` began.
unfoldable pub runs_from : Rr → List Rr → List Rr → List (List Rr)
runs_from first run [] = run ∷ []
runs_from first run (r ∷ rs) = elim (same_rrset first r) [
  | true ↦ runs_from first (run ++ r ∷ []) rs
  | false ↦ run ∷ runs_from r (r ∷ []) rs
]

unfoldable pub runs : List Rr → List (List Rr)
unfolding runs_from
runs [] = []
runs (r ∷ rs) = runs_from r (r ∷ []) rs

unfoldable pub write_runs : ℕ → List (List Rr) → Writer → ℕ → Written
write_runs limit [] w count = record { writer = w; count = count; complete = true }
write_runs limit (run ∷ more) w count =
    let w' = write_rrs run w in
    let rest = write_runs limit more w' ((count + length run) % 2 ^ 16) in
    if ltb limit (size w')
    then record { writer = rollback w' (size w); count = count; complete = false }
    else rest

abbrev pub write_section : ℕ → List Rr → Writer → Written
write_section limit rrs w = write_runs limit (runs rrs) w 0

-- A section is skipped once something before it did not fit.
unfoldable pub write_next : Written → ℕ → List Rr → Written
write_next before limit rrs =
    if before.complete then write_section limit rrs before.writer else record before { count = 0 }

unfoldable pub opt_room : Option EdnsInfo → ℕ
opt_room none = 0
opt_room (some e) = opt_record_size

-- What the four loops leave, in their order.
pub record Sections : Type 0 where
  pub questions : Written
  pub answers : Written
  pub authority : Written
  pub additional : Written

-- Room for the OPT record is kept, so that a truncated response still carries EDNS. Additional
-- records that do not fit are dropped without TC.
unfoldable pub write_sections : Message → ℕ → Bool → Sections
write_sections msg max_size compress =
    let w : Writer = record { compress = compress; out = replicate header_size 0; suffixes = [] } in
    let limit = size_sub max_size (opt_room msg.edns) in
    let qs = write_questions limit msg.questions w 0 in
    let an = write_next qs limit msg.answers in
    let nn = write_next an limit msg.authority in
    record {
      questions = qs;
      answers = an;
      authority = nn;
      additional = write_next nn limit msg.additional;
    }

unfoldable pub count_opt : Option EdnsInfo → ℕ → ℕ
count_opt none count = count
count_opt (some e) count = (count + 1) % 2 ^ 16

unfoldable pub final_header : Message → Sections → Header
unfolding count_opt
final_header msg s = record msg.header {
  qdcount = s.questions.count;
  ancount = s.answers.count;
  nscount = s.authority.count;
  arcount = count_opt msg.edns s.additional.count;
  tc = msg.header.tc || not s.authority.complete;
}

unfoldable pub append_opt : Option EdnsInfo → Bytes → Bytes
append_opt none out = out
append_opt (some e) out = write_opt out e

unfoldable pub build_message : Message → ℕ → Bool → Bytes
unfolding write_sections final_header append_opt
build_message msg max_size compress =
    let s = write_sections msg max_size compress in
    write_header (append_opt msg.edns s.additional.writer.out) (final_header msg s)

pub record BuildOptions : Type 0 where
  pub max_size : ℕ
  pub compress : Bool

unfoldable pub build : Message → BuildOptions → Bytes
build msg opts = build_message msg (max opts.max_size classic_udp_size) opts.compress

unfoldable pub build_tcp : Message → BuildOptions → Bytes
build_tcp msg opts =
    let out = build_message msg max_tcp_message opts.compress in
    let len = length out % 2 ^ 16 in u8 (len / 2 ^ 8) ∷ u8 len ∷ out

unfoldable pub response_edns : Option EdnsInfo → ℕ → Option EdnsInfo
response_edns none code = none
response_edns (some e) code = some (record {
  udp_payload_size = edns_udp_payload_size;
  extended_rcode = u8 (code / 2 ^ 4);
  version = 0;
  dnssec_ok = e.dnssec_ok;
})

unfoldable pub make_response : Message → ℕ → Message
unfolding response_edns
make_response query code = record {
  header = record default_header {
    id = query.header.id;
    qr = true;
    opcode = query.header.opcode;
    rd = query.header.rd;
    ra = true;
    cd = query.header.cd;
    rcode = code % 2 ^ 4;
  };
  questions = query.questions;
  answers = [];
  authority = [];
  additional = [];
  edns = response_edns query.edns code;
}
