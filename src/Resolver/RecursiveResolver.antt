-- ===== src/Resolver/RecursiveResolver.antt =====
-- core/resolver/recursive_resolver.cpp: the steps of one resolution. A step ends where the code
-- returns to the event loop: it gives the task and what the tasks share, and what comes next. The
-- table of tasks, their timers, the clients that join one, their callbacks and the alert for a
-- suspected forger are not here. `uniform`
-- and `random` are `arc4random_uniform` and `arc4random`.
pub mod Budget
pub mod Handlers
pub mod Hops
pub mod Loops
pub mod Retries
pub mod Spending
mod Records
mod Tasks
unfoldable pub use Records.*
unfoldable pub use Tasks.*
use dnsentinal.Common.{
  ℕ, zero, suc, ◌+◌, ◌*◌, ◌-◌, ◌%◌, ◌^◌, min, Bool, true, false, not, ◌&&◌, ◌||◌, List, [], ◌∷◌,
  ◌++◌, Option, none, some, leb, ltb, ◌==◌, if◌then◌else◌, any, keep_if, length,
}
use dnsentinal.Common.Int.{ℤ}
use dnsentinal.Types.{
  Name, Rr, Question, Message, EdnsInfo, empty_message, in_glue, in_authority, in_answer, TrustRank,
}
use dnsentinal.Types.RCode
use dnsentinal.Types.RrType
use dnsentinal.Name.{is_subdomain_of}
use dnsentinal.Cache.{Cache, lookup, insert}
use dnsentinal.Cache.Entries.{CacheEntry, Layout}
use dnsentinal.Security.Bailiwick.{filter_to_bailiwick}
use dnsentinal.Security.ZeroX20.{randomize_case}
use dnsentinal.Resolver.ServerSelection
use dnsentinal.Resolver.ServerSelection.{pick, record_answer, record_unusable, record_failure}
use dnsentinal.Resolver.Upstream.{
  Transport, udp, tcp, UpstreamError, case_mismatch, spoof_suspected, Reply, answer, failure,
}

-- `kNxdomainType`, `kMaxSubqueryDepth` and `kMaxRetryRounds`
abbrev pub nxdomain_type : ℕ
nxdomain_type = 0

abbrev pub max_subquery_depth : ℕ
max_subquery_depth = 4

abbrev pub max_retry_rounds : ℕ
max_retry_rounds = 2

-- The query sent, to whom, how, how long it may take, and whether its case counts.
pub record Ask : Type 0 where
  pub query : Message
  pub server : Address
  pub transport : Transport
  pub timeout_ms : ℕ
  pub match_case : Bool

pub data Next : Type 0 where
  finishes : Message → Next
  fails : ResolveError → Next
  asks : Ask → Next
  looks_up : Question → List Question → Next

pub data Step : Type 0 where
  then_next : Task → Shared → Next → Step

abbrev pub shared_of : Step → Shared
shared_of (then_next t s n) = s

abbrev pub is_tcp : Transport → Bool
is_tcp tcp = true
is_tcp udp = false

-- The wait, doubled for each timeout in this zone until it is as long as it may be.
abbrev pub doubled : ℕ → ℕ → ℕ → ℕ
doubled zero most wait = wait
doubled (suc n) most wait = if ltb wait most then doubled n most (wait * 2) else wait

abbrev pub untried : List Address → List Address → List Address
untried servers tried = keep_if (λ s. not (has_address s tried)) servers

abbrev pub erase_address : Address → List Address → List Address
erase_address a = keep_if (λ s. not (s == a))

abbrev pub erase_addresses : List Address → List Address → List Address
erase_addresses [] tried = tried
erase_addresses (a ∷ rest) tried = erase_addresses rest (erase_address a tried)

-- The loop over the name servers without an address: the task, and the address to look up.
unfoldable pub next_glueless : ResolverConfig → Task → List Name → Task × Option Question
unfolding would_cycle
next_glueless config t [] = (record t { unresolved = [] }, none)
next_glueless config t (n ∷ rest) =
    let q : Question = record { qname = n; qtype = RrType.a_record; qclass = class_in } in
    let later = next_glueless config t rest in
    let counted = record t {
      unresolved = rest;
      glueless_lookups = (t.glueless_lookups + 1) % 2 ^ 8;
    } in
    if not (ltb t.glueless_lookups config.max_glueless_ns)
    then (record t { unresolved = n ∷ rest }, none)
    else (if would_cycle t q || leb max_subquery_depth (length t.ancestry)
        then later
        else (counted, some q))

abbrev pub own_question : Task → Question
own_question t = record { qname = t.qname; qtype = t.question.qtype; qclass = class_in }

-- Another round for those that timed out.
abbrev pub next_round : Task → Task
next_round t = record t {
  retry_rounds = (t.retry_rounds + 1) % 2 ^ 8;
  tried = erase_addresses t.timed_out t.tried;
  timed_out = [];
}

abbrev pub may_retry : Task → Bool
may_retry t = not (none_of t.timed_out) && ltb t.retry_rounds max_retry_rounds

-- No server is left to ask: look one up, or try those again that timed out, or give up.
unfoldable pub no_server : Task → Task → Shared → Option Question → Step → Step
no_server t asked s (some q) retried =
    then_next asked s (looks_up q (t.ancestry ++ own_question t ∷ []))
no_server t asked s none retried =
    if may_retry asked then retried else then_next asked s (fails all_servers_failed)

-- What the answer section came to: records of the type asked for, a chain of aliases that is too
-- long, or neither, and then whether an alias was followed.
pub data Answered : Type 0 where
  found : List Rr → Answered
  too_long : Answered
  ended : Bool → Answered

-- What the cache says before any server is asked.
pub data Cached : Type 0 where
  hit : Message → Cached
  chain_too_long miss : Cached

-- The end of the loop over the cached aliases.
unfoldable pub from_cache : Task → Shared → Cached → Step → Step
from_cache t s (hit response) asking = then_next t s (finishes response)
from_cache t s chain_too_long asking = then_next t s (fails max_cname_chain_exceeded)
from_cache t s miss asking = asking

-- The end of the loop over the answer section.
unfoldable pub from_answers : Task → Shared → Answered → Step → Step → Step
unfolding outcome
from_answers t s (found records) afresh rest =
    then_next t s (finishes (outcome t RCode.no_error records []))
from_answers t s too_long afresh rest = then_next t s (fails max_cname_chain_exceeded)
from_answers t s (ended true) afresh rest = afresh
from_answers t s (ended false) afresh rest = rest

abbrev pub authoritative : Option CacheEntry → Option (List Rr)
authoritative none = none
authoritative (some e) = elim e.trust [ in_answer ↦ some e.records | _ ↦ none ]

abbrev pub negative_records : Option CacheEntry → Option (List Rr)
negative_records none = none
negative_records (some e) = if e.is_negative then some e.records else none

-- The first record of a cached alias that may be followed.
abbrev pub alias_of : Option CacheEntry → Option Rr
alias_of none = none
alias_of (some e) = elim (authoritative (some e)) [
  | none ↦ none
  | some [] ↦ none
  | some (r ∷ rest) ↦ if e.is_negative then none else some r
]

abbrev pub labels_of : Name → ℕ
labels_of n = length n.labels

-- A delegation toward the name, further down than the zone asked.
unfoldable pub is_downward : Task → List Rr → Bool
unfolding is_subdomain_of
is_downward t [] = false
is_downward t (r ∷ rest) =
    ltb (labels_of t.zone) (labels_of r.name) && is_subdomain_of t.qname r.name

abbrev pub proof_of : Option (Rr × ℕ) → List Rr
proof_of none = []
proof_of (some (r, minimum)) = r ∷ []

abbrev pub has_soa : Option (Rr × ℕ) → Bool
has_soa none = false
has_soa (some s) = true

abbrev pub has_records : List Rr → Bool
has_records [] = false
has_records (r ∷ rest) = true

abbrev pub answer_rank : Bool → TrustRank
answer_rank true = in_answer
answer_rank false = in_authority

module _ (config : ResolverConfig) (hints : RootHints) (layout : Layout) (uniform : ℕ → ℕ → ℕ)
    (random : ℕ → ℕ) (now : ℕ) where
  unfoldable pub send_query : Task → Shared → Address → Transport → Step
  unfolding randomize_case
  send_query t s address transport =
      let sent_0x20 =
        config.use_0x20 && not (is_tcp transport) && not (has_address address s.no_0x20) in
      let asking = record t {
        tried = if is_tcp transport then t.tried else t.tried ++ address ∷ [];
        asked = address;
        over_tcp = is_tcp transport;
        sent_0x20 = sent_0x20;
        sent_at = now;
      } in
      let qname = if sent_0x20 then randomize_case random t.qname else t.qname in
      let edns : EdnsInfo = record {
        udp_payload_size = config.edns_buffer;
        extended_rcode = 0;
        version = 0;
        dnssec_ok = false;
      } in
      let query = record empty_message {
        questions = record (own_question t) { qname = qname } ∷ [];
        edns = some edns;
      } in
      let usual = ServerSelection.timeout s.selection address config.query_timeout_ms now in
      let wait =
        min (doubled t.timeouts config.max_query_timeout_ms usual) config.max_query_timeout_ms in
      let ask : Ask = record {
        query = query;
        server = address;
        transport = transport;
        timeout_ms = wait;
        match_case = sent_0x20;
      } in
      if leb config.max_upstream_queries s.queries
      then then_next t s (fails max_queries_exceeded)
      else then_next asking (record s { queries = (s.queries + 1) % 2 ^ 32 }) (asks ask)

  -- The servers that timed out get another round, of which there are few: as much fuel as rounds
  -- and one more ends it.
  unfoldable pub next_server_on : ℕ → Task → Shared → Step
  unfolding send_query next_glueless no_server
  next_server_on zero t s = then_next t s (fails all_servers_failed)
  next_server_on (suc fuel) t s =
      let open_servers = untried t.servers t.tried in
      let (asked, glueless) = next_glueless config t t.unresolved in
      let retried = next_server_on fuel (next_round asked) s in
      if none_of open_servers
      then no_server t asked s glueless retried
      else send_query t s (pick s.selection uniform now open_servers) udp

  unfoldable pub next_server : Task → Shared → Step
  unfolding next_server_on
  next_server t s = next_server_on (1 + max_retry_rounds) t s

  unfoldable pub on_child_done : Task → Shared → Option Message → Step
  unfolding next_server add_servers
  on_child_done t s none = next_server t s
  on_child_done t s (some response) =
      next_server (add_servers t (ipv4_addresses response.answers)) s

  -- The loop of `step` over the cached aliases; each hop counts, so the most of them and one more is
  -- fuel enough, unless the most is 255: then the hops, a byte, wrap and are never too many.
  unfoldable pub read_cache : ℕ → Task → Cache → (Task × Cache) × Cached
  unfolding lookup outcome follow_cname
  read_cache zero t cache = ((t, cache), miss)
  read_cache (suc fuel) t cache =
      let qtype = t.question.qtype in
      let (c1, nx) = lookup cache (key_in t.qname nxdomain_type) now in
      let (c2, direct) = lookup c1 (key_in t.qname qtype) now in
      let (c3, alias) = lookup c2 (key_in t.qname RrType.cname_record) now in
      elim nx.entry [
        | some e ↦ ((t, c1), hit (outcome t RCode.nx_domain [] e.records))
        | none ↦ elim (negative_records direct.entry) [
          | some proof ↦ ((t, c2), hit (outcome t RCode.no_error [] proof))
          | none ↦ elim (authoritative direct.entry) [
            | some records ↦ ((t, c2), hit (outcome t RCode.no_error records []))
            | none ↦ elim (if qtype == RrType.cname_record then none else alias_of alias.entry) [
              | none ↦ ((t, if qtype == RrType.cname_record then c2 else c3), miss)
              | some r ↦
                  let (followed, may) = follow_cname config t r in
                  let later = read_cache fuel followed c3 in
                  if may then later else ((followed, c3), chain_too_long)
            ]
          ]
        ]
      ]

  unfoldable pub step : Task → Shared → Step
  unfolding read_cache start_at_closest_zone next_server from_cache
  step t s =
      let ((read, cache), cached) = read_cache (1 + config.max_cname_chain) t s.cache in
      let (c, placed) = start_at_closest_zone config hints cache read now in
      if not (t.question.qclass == class_in)
      then then_next t s (fails serv_fail)
      else from_cache read (record s { cache = cache }) cached
          (next_server placed (record s { cache = c }))

  -- Only UDP round trips are samples.
  unfoldable pub rate : Task → Shared → Bool → ℤ → Shared
  unfolding record_answer record_unusable
  rate t s true rtt = record s {
    selection = record_answer s.selection t.asked (if t.over_tcp then none else some rtt) now;
  }
  rate t s false rtt = record s { selection = record_unusable s.selection t.asked now }

  unfoldable pub cache_glue : Cache → List Rr → List Rr → Cache
  unfolding collect min_ttl insert
  cache_glue cache additional [] = cache
  cache_glue cache additional (r ∷ rest) = elim (ns_target r.rdata) [
    | none ↦ cache_glue cache additional rest
    | some name ↦
        let glue = collect additional name RrType.a_record in
        let stored =
          insert layout cache (key_in name RrType.a_record) glue in_glue (min_ttl glue) false now in
        cache_glue (if has_records glue then stored else cache) additional rest
  ]

  -- The loop over the answer section, with the same bound as that of `step`.
  unfoldable pub read_answers : ℕ → Task → Cache → Message → Bool → (Task × Cache) × Answered
  unfolding collect min_ttl insert cache_glue follow_cname
  read_answers zero t cache response followed = ((t, cache), ended followed)
  read_answers (suc fuel) t cache response followed =
      let qtype = t.question.qtype in
      let rank = answer_rank response.header.aa in
      let records = collect response.answers t.qname qtype in
      let aliases = collect response.answers t.qname RrType.cname_record in
      let stored =
        insert layout cache (key_in t.qname qtype) records rank (min_ttl records) false now in
      let glued = cache_glue stored response.additional records in
      if has_records records
      then ((t, if qtype == RrType.ns_record then glued else stored), found records)
      else (if qtype == RrType.cname_record then ((t, cache), ended followed) else elim aliases [
        | [] ↦ ((t, cache), ended followed)
        | r ∷ others ↦
            let key = key_in t.qname RrType.cname_record in
            let aliased = insert layout cache key (r ∷ []) rank r.ttl false now in
            let (next, may) = follow_cname config t r in
            let later = read_answers fuel next aliased response true in
            if may then later else ((next, aliased), too_long)
      ])

  abbrev store_negative : Cache → Name → ℕ → Option (Rr × ℕ) → Cache
  store_negative cache name qtype none = cache
  store_negative cache name qtype (some (r, minimum)) =
      insert layout cache (key_in name qtype) (r ∷ []) in_authority (negative_ttl (r, minimum)) true
        now

  -- A referral that leads down.
  unfoldable pub refer : Task → Shared → Message → List Rr → Step
  unfolding insert cache_glue enter_zone next_server min_ttl
  refer t s response [] = next_server t s
  refer t s response (r ∷ rest) =
      let ns = r ∷ rest in
      let referred = record t { referrals = (t.referrals + 1) % 2 ^ 16 } in
      let stored =
        insert layout s.cache (key_in r.name RrType.ns_record) ns in_authority (min_ttl ns) false
          now in
      let glued = cache_glue stored response.additional ns in
      let (cache, entered) = enter_zone hints glued referred r.name ns response.additional now in
      if ltb config.max_referral_depth referred.referrals
      then then_next referred s (fails max_depth_exceeded)
      else next_server entered (record s { cache = cache })

  -- What is left of a response without an answer: a denial, a referral, no data, or nothing.
  unfoldable pub conclude : Task → Shared → Message → Option (Rr × ℕ) → List Rr → Bool → Step
  unfolding outcome refer next_server
  conclude t s response soa ns downward =
      let denied = record s { cache = store_negative s.cache t.qname nxdomain_type soa } in
      let empty = record s { cache = store_negative s.cache t.qname t.question.qtype soa } in
      if response.header.rcode == RCode.nx_domain
      then then_next t denied (finishes (outcome t RCode.nx_domain [] (proof_of soa)))
      else (if has_records ns
          then (if downward then refer t s response ns else next_server t s)
          else (if response.header.aa || has_soa soa
              then then_next t empty (finishes (outcome t RCode.no_error [] (proof_of soa)))
              else next_server t s))

  -- A response of a usable kind, filtered to the zone.
  unfoldable pub handle_records : Task → Shared → Message → ℤ → Step
  unfolding collect find_soa referral_ns is_downward rate read_answers step conclude from_answers
  handle_records t s response rtt =
      let qtype = t.question.qtype in
      let direct = has_records (collect response.answers t.qname qtype) in
      let aliased = has_records (collect response.answers t.qname RrType.cname_record) in
      let answered = direct || (not (qtype == RrType.cname_record) && aliased) in
      let soa = find_soa response.authority t.qname in
      let ns = if response.header.aa then [] else referral_ns response.authority in
      let downward = is_downward t ns in
      let useful =
        answered
        || response.header.rcode == RCode.nx_domain
        || (if has_records ns then downward else response.header.aa || has_soa soa) in
      let rated = rate t s useful rtt in
      let ((read, cache), outcome_of) =
        read_answers (1 + config.max_cname_chain) t rated.cache response false in
      let stored = record rated { cache = cache } in
      from_answers read stored outcome_of (step read stored)
        (conclude read stored response soa ns downward)

  unfoldable pub handle_response : Task → Shared → Message → ℤ → Step
  unfolding restore_case rate next_server send_query filter_to_bailiwick handle_records
  handle_response t s message rtt =
      let response = if t.sent_0x20 then restore_case message t.qname else message in
      let code = response.header.rcode in
      if response.header.tc
      then (if t.over_tcp
          then next_server t (rate t s false rtt)
          else send_query t (rate t s true rtt) t.asked tcp)
      else (if not (code == RCode.no_error) && not (code == RCode.nx_domain)
          then next_server t (rate t s false rtt)
          else handle_records t s (filter_to_bailiwick response t.zone).0 rtt)

  -- The failed query of a server, with the retries that are not its fault.
  unfoldable pub handle_failure : Task → Shared → UpstreamError → Step
  unfolding send_query record_failure next_server
  handle_failure t s spoof_suspected = send_query t s t.asked tcp
  handle_failure t s case_mismatch =
      send_query (record t { tried = erase_address t.asked t.tried })
        (record s { no_0x20 = t.asked ∷ s.no_0x20 }) t.asked udp
  handle_failure t s UpstreamError.network_error =
      next_server t (record s { selection = record_failure s.selection t.asked now })
  handle_failure t s UpstreamError.timeout =
      next_server
        (record t { timeouts = (t.timeouts + 1) % 2 ^ 32; timed_out = t.timed_out ++ t.asked ∷ [] })
        (record s { selection = record_failure s.selection t.asked now })

  unfoldable pub on_response : Task → Shared → Reply → ℤ → Step
  unfolding handle_response handle_failure
  on_response t s (answer message) rtt = handle_response t s message rtt
  on_response t s (failure error) rtt = handle_failure t s error
