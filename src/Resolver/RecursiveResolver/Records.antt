-- ===== src/Resolver/RecursiveResolver/Records.antt =====
-- core/resolver/recursive_resolver.cpp: what the resolver takes from the sections of a response.
use dnsentinal.Common.{
  ℕ, ◌+◌, ◌*◌, ◌-◌, ◌^◌, min, Bool, true, false, ◌&&◌, List, [], ◌∷◌, ◌++◌, Option, none, some,
  ◌==◌, if◌then◌else◌, keep_if, get_or,
}
use dnsentinal.Types.{Bytes, Name, name_eq, RData, ipv4, ns, cname, soa, Rr, Message}
use dnsentinal.Name.{is_subdomain_of}

-- `kClassIN`
abbrev pub class_in : ℕ
class_in = 1

-- `in_addr_t`: the four bytes as one number.
abbrev pub Address : Type 0
Address = ℕ

abbrev pub address_of : Bytes → Address
address_of b = get_or b 0 0 * 2 ^ 24 + get_or b 1 0 * 2 ^ 16 + get_or b 2 0 * 2 ^ 8 + get_or b 3 0

abbrev pub is_of : Name → ℕ → Rr → Bool
is_of name rr_type r = r.cls == class_in && r.rr_type == rr_type && name_eq r.name name

unfoldable pub collect : List Rr → Name → ℕ → List Rr
collect section name rr_type = keep_if (is_of name rr_type) section

abbrev least_ttl : ℕ → List Rr → ℕ
least_ttl ttl [] = ttl
least_ttl ttl (r ∷ rest) = least_ttl (min ttl r.ttl) rest

unfoldable pub min_ttl : List Rr → ℕ
min_ttl [] = 0
min_ttl (r ∷ rest) = least_ttl (2 ^ 32 - 1) (r ∷ rest)

-- `std::get<RDataSOA>(rdata).minimum`, if it is one
abbrev pub soa_minimum : RData → Option ℕ
soa_minimum (soa s) = some s.minimum
soa_minimum _ = none

abbrev pub ns_target : RData → Option Name
ns_target (ns n) = some n
ns_target _ = none

abbrev pub cname_target : RData → Option Name
cname_target (cname n) = some n
cname_target _ = none

abbrev pub ipv4_of : RData → Option Address
ipv4_of (ipv4 b) = some (address_of b)
ipv4_of _ = none

abbrev pub is_some : Option Name → Bool
is_some none = false
is_some (some a) = true

-- The record, and its SOA MINIMUM.
unfoldable pub find_soa : List Rr → Name → Option (Rr × ℕ)
find_soa [] qname = none
find_soa (r ∷ rest) qname =
    let later = find_soa rest qname in
    elim (soa_minimum r.rdata) [
      | none ↦ later
      | some minimum ↦ if is_subdomain_of qname r.name then some (r, minimum) else later
    ]

abbrev pub negative_ttl : Rr × ℕ → ℕ
negative_ttl (r, minimum) = min r.ttl minimum

-- Whether a record joins those of the first one's owner.
unfoldable pub joins : List Rr → Rr → Bool
joins [] r = r.cls == class_in && is_some (ns_target r.rdata)
joins (first ∷ rest) r =
    r.cls == class_in && is_some (ns_target r.rdata) && name_eq r.name first.name

unfoldable pub referral_from : List Rr → List Rr → List Rr
unfolding joins
referral_from found [] = found
referral_from found (r ∷ rest) =
    referral_from (if joins found r then found ++ r ∷ [] else found) rest

unfoldable pub referral_ns : List Rr → List Rr
unfolding referral_from
referral_ns authority = referral_from [] authority

unfoldable pub ipv4_addresses : List Rr → List Address
ipv4_addresses [] = []
ipv4_addresses (r ∷ rest) =
    let others = ipv4_addresses rest in
    elim (ipv4_of r.rdata) [ none ↦ others | some a ↦ a ∷ others ]

abbrev restored : Name → Rr → Rr
restored asked r =
    if name_eq r.name asked
    then record r { name = record r.name { original_case = asked.original_case } }
    else r

abbrev restored_all : Name → List Rr → List Rr
restored_all asked [] = []
restored_all asked (r ∷ rest) = restored asked r ∷ restored_all asked rest

unfoldable pub restore_case : Message → Name → Message
restore_case response asked = record response {
  answers = restored_all asked response.answers;
  authority = restored_all asked response.authority;
  additional = restored_all asked response.additional;
}
