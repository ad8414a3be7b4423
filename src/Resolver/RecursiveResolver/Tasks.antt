-- ===== src/Resolver/RecursiveResolver/Tasks.antt =====
-- core/resolver/recursive_resolver.cpp: one task, and the zone cut it is at. The parts of the
-- resolver that a task works with are passed from step to step; the clock is read once in a step.
use dnsentinal.Common.{
  ℕ, zero, suc, ◌+◌, ◌%◌, ◌^◌, Bool, true, false, ◌&&◌, ◌||◌, List, [], ◌∷◌, ◌++◌, Option, none,
  some, ltb, ◌==◌, if◌then◌else◌, any, length,
}
use dnsentinal.Types.{Name, root, name_eq, Rr, Question, Message, empty_message, default_header}
use dnsentinal.Types.RrType
use dnsentinal.Name.{parent}
use dnsentinal.Cache.{Cache, lookup}
use dnsentinal.Cache.Entries.{CacheKey, CacheEntry}
use dnsentinal.Resolver.ServerSelection.{Selection}
use dnsentinal.Resolver.RecursiveResolver.Records.{
  Address, class_in, collect, ns_target, cname_target, ipv4_addresses,
}

pub data ResolveError : Type 0 where
  timeout serv_fail max_queries_exceeded max_depth_exceeded : ResolveError
  max_cname_chain_exceeded all_servers_failed network_error : ResolveError

pub record StubZone : Type 0 where
  pub zone : Name
  pub servers : List Address

pub record ResolverConfig : Type 0 where
  pub use_0x20 : Bool
  pub edns_buffer : ℕ
  pub max_upstream_queries : ℕ
  pub max_referral_depth : ℕ
  pub max_cname_chain : ℕ
  pub max_glueless_ns : ℕ
  pub query_timeout_ms : ℕ
  pub max_query_timeout_ms : ℕ
  pub stub_zones : List StubZone

pub record RootHints : Type 0 where
  pub ns : List Rr
  pub addresses : List Rr

-- The fields that steps of one task read and write; its timers and callbacks are with the caller.
pub record Task : Type 0 where
  pub question : Question
  pub qname : Name
  pub chain : List Rr
  pub cname_hops : ℕ
  pub ancestry : List Question
  pub zone : Name
  pub servers : List Address
  pub unresolved : List Name
  pub tried : List Address
  pub timed_out : List Address
  pub retry_rounds : ℕ
  pub asked : Address
  pub over_tcp : Bool
  pub sent_0x20 : Bool
  pub glueless_lookups : ℕ
  pub referrals : ℕ
  pub timeouts : ℕ
  pub sent_at : ℕ

-- What the tasks share. `queries` is the budget of the client query that the task belongs to.
pub record Shared : Type 0 where
  pub cache : Cache
  pub selection : Selection
  pub no_0x20 : List Address
  pub queries : ℕ

unfoldable pub new_task : Question → List Question → Task
new_task q ancestry = record {
  question = q;
  qname = q.qname;
  chain = [];
  cname_hops = 0;
  ancestry = ancestry;
  zone = root;
  servers = [];
  unresolved = [];
  tried = [];
  timed_out = [];
  retry_rounds = 0;
  asked = 0;
  over_tcp = false;
  sent_0x20 = false;
  glueless_lookups = 0;
  referrals = 0;
  timeouts = 0;
  sent_at = 0;
}

unfoldable pub outcome : Task → ℕ → List Rr → List Rr → Message
outcome t rcode answers authority = record empty_message {
  header = record default_header { qr = true; rcode = rcode % 2 ^ 8 };
  questions = t.question ∷ [];
  answers = t.chain ++ answers;
  authority = authority;
}

-- The hop counts even when it is refused.
unfoldable pub follow_cname : ResolverConfig → Task → Rr → Task × Bool
follow_cname config t r = elim (cname_target r.rdata) [
  | none ↦ (t, false)
  | some target ↦
      let hops = (t.cname_hops + 1) % 2 ^ 8 in
      let hopped = record t { cname_hops = hops } in
      if ltb config.max_cname_chain hops
      then (hopped, false)
      else (record hopped { chain = t.chain ++ r ∷ []; qname = target }, true)
]

abbrev pub has_address : Address → List Address → Bool
has_address a = any (λ s. s == a)

unfoldable pub add_server : Task → Address → Task
add_server t a = if has_address a t.servers then t else record t { servers = t.servers ++ a ∷ [] }

unfoldable pub add_servers : Task → List Address → Task
unfolding add_server
add_servers t [] = t
add_servers t (a ∷ rest) = add_servers (add_server t a) rest

unfoldable pub reset_zone : Task → Name → Task
reset_zone t zone = record t {
  zone = zone;
  servers = [];
  unresolved = [];
  tried = [];
  timed_out = [];
  retry_rounds = 0;
  glueless_lookups = 0;
  timeouts = 0;
}

abbrev pub key_in : Name → ℕ → CacheKey
key_in name qtype = record { name = name; qtype = qtype; qclass = class_in }

abbrev pub none_of : List Address → Bool
none_of [] = true
none_of (a ∷ rest) = false

-- A cached address set that is not negative.
abbrev pub cached_addresses : Option CacheEntry → List Address
cached_addresses none = []
cached_addresses (some e) = if e.is_negative then [] else ipv4_addresses e.records

-- The addresses of a name server: fresh from a referral, or from the cache.
unfoldable pub server_addresses : Cache → Name → List Rr → ℕ → Cache × List Address
unfolding lookup collect ipv4_addresses
server_addresses cache name glue now =
    let fresh = ipv4_addresses (collect glue name RrType.a_record) in
    let (looked, found) = lookup cache (key_in name RrType.a_record) now in
    if none_of fresh then (looked, cached_addresses found.entry) else (cache, fresh)

unfoldable pub add_name_server : Cache × Task → Name → List Rr → ℕ → Cache × Task
unfolding server_addresses add_servers
add_name_server (cache, t) name glue now =
    let (next, addresses) = server_addresses cache name glue now in
    let noted =
      if none_of addresses then record t { unresolved = t.unresolved ++ name ∷ [] } else t in
    (next, add_servers noted addresses)

unfoldable pub add_name_servers : Cache × Task → List Rr → List Rr → ℕ → Cache × Task
unfolding add_name_server
add_name_servers state [] glue now = state
add_name_servers state (r ∷ rest) glue now = elim (ns_target r.rdata) [
  | none ↦ add_name_servers state rest glue now
  | some name ↦ add_name_servers (add_name_server state name glue now) rest glue now
]

abbrev pub is_root : Name → Bool
is_root n = elim n.labels [ [] ↦ true | label ∷ rest ↦ false ]

unfoldable pub enter_zone : RootHints → Cache → Task → Name → List Rr → List Rr → ℕ → Cache × Task
unfolding reset_zone add_name_servers add_servers
enter_zone hints cache t zone ns_records glue now =
    let (next, entered) = add_name_servers (cache, reset_zone t zone) ns_records glue now in
    let rooted = add_servers entered (ipv4_addresses hints.addresses) in
    (next, if is_root zone then rooted else entered)

-- All stub zones of this name together, if there is one.
unfoldable pub stub_servers : List StubZone → Name → Option (List Address)
stub_servers [] name = none
stub_servers (stub ∷ rest) name =
    let others = stub_servers rest name in
    if name_eq stub.zone name
    then some (elim others [ none ↦ stub.servers | some more ↦ stub.servers ++ more ])
    else others

abbrev pub usable_ns : Option CacheEntry → List Rr
usable_ns none = []
usable_ns (some e) = if e.is_negative then [] else e.records

-- The loop over the ancestors of the name, of which there is one more than it has labels.
unfoldable pub closest_zone :
    ℕ → ResolverConfig → RootHints → Cache → Task → Name → ℕ → Cache × Task
unfolding stub_servers lookup enter_zone reset_zone add_servers parent
closest_zone zero config hints cache t z now = enter_zone hints cache t root hints.ns [] now
closest_zone (suc fuel) config hints cache t z now =
    let (looked, found) = lookup cache (key_in z RrType.ns_record) now in
    let higher = closest_zone fuel config hints looked t (parent z) now in
    elim (stub_servers config.stub_zones z) [
      | some servers ↦ (cache, add_servers (reset_zone t z) servers)
      | none ↦ elim (usable_ns found.entry) [
        | r ∷ rest ↦ enter_zone hints looked t z (r ∷ rest) [] now
        | [] ↦ if is_root z then enter_zone hints looked t root hints.ns [] now else higher
      ]
    ]

unfoldable pub start_at_closest_zone : ResolverConfig → RootHints → Cache → Task → ℕ → Cache × Task
unfolding closest_zone
start_at_closest_zone config hints cache t now =
    closest_zone (1 + length t.qname.labels) config hints cache t t.qname now

abbrev pub question_eq : Question → Question → Bool
question_eq a b = name_eq a.qname b.qname && a.qtype == b.qtype && a.qclass == b.qclass

unfoldable pub would_cycle : Task → Question → Bool
would_cycle t q =
    (name_eq q.qname t.qname && q.qtype == t.question.qtype) || any (question_eq q) t.ancestry
