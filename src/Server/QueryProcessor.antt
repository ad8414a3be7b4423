-- ===== src/Server/QueryProcessor.antt =====
-- core/server/query_processor.cpp: which queries are rejected at once, blocked answers, and what the
-- client is sent once a resolution ends, with the events that the callbacks get.
pub mod Answers
pub mod Rejections
use dnsentinal.Common.{
  ℕ, ◌+◌, Bool, true, false, not, ◌&&◌, ◌||◌, List, [], ◌∷◌, ◌++◌, Option, none, some,
  if◌then◌else◌, leb, ltb, ◌==◌, any, replicate,
}
use dnsentinal.Types.{Bytes, Name, Header, Question, Message, Rr, ipv4, ipv6, in_answer, EdnsInfo}
use dnsentinal.Types.RrType
use dnsentinal.Types.RCode
use dnsentinal.Wire.Builder.{make_response}
use dnsentinal.Policy.Rebinding.{RebindingConfig, strip}
use dnsentinal.Policy.CnameCheck.{TrieLookupResult, CloakedName, find_cloaked}

abbrev pub class_in : ℕ
class_in = 1

abbrev pub type_ixfr : ℕ
type_ixfr = 251

abbrev pub type_axfr : ℕ
type_axfr = 252

abbrev pub type_any : ℕ
type_any = 255

abbrev pub bad_vers : ℕ
bad_vers = 16

-- The checks of the question.
unfoldable pub reject_question : Question → Option ℕ
reject_question q =
    if not (q.qclass == class_in)
    then some RCode.refused
    else if q.qtype == type_ixfr || q.qtype == type_axfr
    then some RCode.refused
    else if q.qtype == RrType.opt_record || (leb 128 q.qtype && ltb q.qtype type_any)
    then some RCode.form_err
    else none

unfoldable pub reject_questions : List Question → Option ℕ
unfolding reject_question
reject_questions [] = some RCode.form_err
reject_questions (q ∷ []) = reject_question q
reject_questions (q ∷ r ∷ rest) = some RCode.form_err

abbrev pub other_version : Option EdnsInfo → Bool
other_version none = false
other_version (some e) = not (e.version == 0)

unfoldable pub reject_reason : Message → Option ℕ
unfolding reject_questions
reject_reason query =
    if other_version query.edns
    then some bad_vers
    else if not (query.header.opcode == 0)
    then some RCode.not_imp
    else reject_questions query.questions

pub data BlockResponse : Type 0 where
  null_ip : BlockResponse
  nxdomain_response : BlockResponse

-- The record of a blocked address query: an address that goes nowhere.
unfoldable pub null_records : ℕ → Question → List Rr
null_records block_ttl q =
    if q.qtype == RrType.a_record
    then record {
      name = q.qname;
      rr_type = RrType.a_record;
      cls = 1;
      ttl = block_ttl;
      rdata = ipv4 (replicate 4 0);
      trust = in_answer;
    }
      ∷ []
    else if q.qtype == RrType.aaaa_record
    then record {
      name = q.qname;
      rr_type = RrType.aaaa_record;
      cls = 1;
      ttl = block_ttl;
      rdata = ipv6 (replicate 16 0);
      trust = in_answer;
    }
      ∷ []
    else []

abbrev pub with_rcode : ℕ → Message → Message
with_rcode code m = record m { header = record m.header { rcode = code } }

abbrev pub null_answers : ℕ → List Question → List Rr
null_answers block_ttl [] = []
null_answers block_ttl (q ∷ rest) = null_records block_ttl q

-- The response to a query that `reject_reason` lets through has one question.
unfoldable pub blocked : Message → BlockResponse → ℕ → Message
unfolding null_records
blocked response nxdomain_response block_ttl = with_rcode RCode.nx_domain response
blocked response null_ip block_ttl = record response {
  answers = response.answers ++ null_answers block_ttl response.questions;
}

-- What the client is sent, and what is reported to `on_block_` and `on_rebinding_` before.
pub data Event : Type 0 where
  block_event : Question → CloakedName → Event
  rebinding_event : Question → List Rr → Bool → Event

abbrev pub is_address : Rr → Bool
is_address r = r.rr_type == RrType.a_record || r.rr_type == RrType.aaaa_record

-- The processor's parts that the end of a resolution uses.
pub record Processor : Type 0 where
  pub trie : Name → TrieLookupResult
  pub check_cname_chain : Bool
  pub response : BlockResponse
  pub block_ttl : ℕ
  pub rebinding : RebindingConfig
  pub is_v4_mapped : Bytes → Bool

-- The response with the records that are left, `removed` being those that were taken out.
unfoldable pub finish_stripped :
    Question → Message → Message → List Rr → List Rr → Message × List Event
finish_stripped asked response result [] kept = (
  record (with_rcode result.header.rcode response) { answers = kept; authority = result.authority },
  [],
)
finish_stripped asked response result (r ∷ removed) kept =
    let emptied = not (any is_address kept) in
    let answered : Message = record (with_rcode result.header.rcode response) {
      answers = kept;
      authority = result.authority;
    } in
    (
      (if emptied then with_rcode RCode.nx_domain response else answered),
      rebinding_event asked (r ∷ removed) emptied ∷ [],
    )

-- After the chain's check: rebinding protection, then the resolver's answer.
unfoldable pub finish_answer : Processor → Question → Message → Message → Message × List Event
unfolding finish_stripped strip
finish_answer processor asked response result =
    let stripped : List Rr × List Rr =
      strip processor.is_v4_mapped processor.rebinding asked.qname result.answers in
    finish_stripped asked response result stripped.0 stripped.1

-- `cloaked` is what the check of the chain found.
unfoldable pub finish_checked :
    Processor → Question → Message → Message → Option CloakedName → Message × List Event
unfolding finish_answer blocked
finish_checked processor asked response result none = finish_answer processor asked response result
finish_checked processor asked response result (some cloaked) =
    (blocked response processor.response processor.block_ttl, block_event asked cloaked ∷ [])

-- The check of the answer's CNAME chain; a name that a list matched is exempt.
unfoldable pub check_chain : Processor → Bool → Question → Message → Option CloakedName
unfolding find_cloaked
check_chain processor matched asked result =
    if processor.check_cname_chain && not matched
    then find_cloaked processor.trie asked.qname result.answers
    else none

-- The end of a resolution: `result` is none on a `ResolveError`, `matched` tells whether a list
-- matched the name, `response` is fresh from `make_response` and has the one question `asked`.
unfoldable pub finish :
    Processor → Bool → Question → Message → Option Message → Message × List Event
unfolding finish_checked check_chain
finish processor matched asked response none = (with_rcode RCode.serv_fail response, [])
finish processor matched asked response (some result) =
    finish_checked processor asked response result (check_chain processor matched asked result)
