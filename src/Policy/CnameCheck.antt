-- ===== src/Policy/CnameCheck.antt =====
-- core/policy/cname_check.cpp: the chain of an answer's CNAME records, and the first hop of it that
-- the block lists cover. The lists are given by their lookup.
pub mod Chain
use dnsentinal.Common.{
  ℕ, zero, suc, ◌+◌, Bool, true, false, not, ◌&&◌, ◌||◌, List, [], ◌∷◌, ◌++◌, Option, none, some,
  if◌then◌else◌, ◌==◌, any, length,
}
use dnsentinal.Types.{
  Bytes, Name, name_eq, RData, ipv4, ipv6, ns, cname, soa, mx, txt, ptr, raw, Rr,
}
use dnsentinal.Common.Options.{◌>>=◌}
use dnsentinal.Types.RrType

-- `std::get` of the target
abbrev pub target_of : RData → Option Name
target_of (ipv4 addr) = none
target_of (ipv6 addr) = none
target_of (ns n) = none
target_of (cname n) = some n
target_of (soa s) = none
target_of (mx preference n) = none
target_of (txt strings) = none
target_of (ptr n) = none
target_of (raw bytes) = none

unfoldable pub hop : Name → Rr → Option Name
hop current r =
    if r.rr_type == RrType.cname_record && name_eq r.name current then target_of r.rdata else none

abbrev pub or_else : Option Name → Option Name → Option Name
or_else none rest = rest
or_else (some n) rest = some n

-- The target of the first CNAME record of `current`.
unfoldable pub next_hop : Name → List Rr → Option Name
unfolding hop
next_hop current [] = none
next_hop current (r ∷ rest) = or_else (hop current r) (next_hop current rest)

abbrev pub is_seen : List Name → Name → Bool
is_seen seen target = any (λ n. name_eq target n) seen

-- One round of the loop, then the ones after it.
unfoldable pub follow_hop :
    List Name → Option Name → (Name → Option (List Name)) → Option (List Name)
follow_hop seen none later_hops = some []
follow_hop seen (some target) later_hops =
    if is_seen seen target then some [] else later_hops target >>= (λ chain. some (target ∷ chain))

-- The loop from `current`: the names it pushes from here on. `seen` holds the query name and the
-- names pushed so far; the result is none when the fuel runs out.
unfoldable pub follow : ℕ → List Rr → List Name → Name → Option (List Name)
unfolding next_hop follow_hop
follow zero answers seen current = none
follow (suc fuel) answers seen current =
    follow_hop seen (next_hop current answers)
      (λ target. follow fuel answers (target ∷ seen) target)

unfoldable pub cname_chain : Name → List Rr → Option (List Name)
unfolding follow
cname_chain qname answers = follow (length answers + 1) answers (qname ∷ []) qname

pub data ListAction : Type 0 where
  block : ListAction
  allow : ListAction

pub record TrieLookupResult : Type 0 where
  pub matched : Bool
  pub action : ListAction
  pub rule : Bytes
  pub source : Bytes

pub record CloakedName : Type 0 where
  pub chain : List Name
  pub match : TrieLookupResult

abbrev pub is_block : ListAction → Bool
is_block block = true
is_block allow = false

-- `passed` holds the query name and the hops before these.
unfoldable pub first_blocked :
    (Name → TrieLookupResult) → List Name → List Name → Option CloakedName
first_blocked trie passed [] = none
first_blocked trie passed (n ∷ rest) =
    if (trie n).matched && is_block (trie n).action
    then some (record { chain = passed ++ n ∷ []; match = trie n })
    else first_blocked trie (passed ++ n ∷ []) rest

abbrev pub blocked_of : (Name → TrieLookupResult) → Name → Option (List Name) → Option CloakedName
blocked_of trie qname none = none
blocked_of trie qname (some chain) = first_blocked trie (qname ∷ []) chain

unfoldable pub find_cloaked : (Name → TrieLookupResult) → Name → List Rr → Option CloakedName
unfolding first_blocked cname_chain
find_cloaked trie qname answers =
    if any (λ r. r.rr_type == RrType.cname_record) answers
    then blocked_of trie qname (cname_chain qname answers)
    else none
