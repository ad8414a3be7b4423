-- ===== src/Policy/Rebinding.antt =====
-- core/policy/rebinding.cpp: private addresses are stripped from answers.
use dnsentinal.Common.{
  ℕ, ◌+◌, ◌≡◌, refl, Bool, true, false, not, ◌||◌, List, [], ◌∷◌, ◌++◌, if◌then◌else◌, any, keep_if,
  replicate, All, Bool-cases, inl, inr, length, arith, ◌⊎◌,
}
use dnsentinal.Types.{Bytes, Name, RData, ipv4, ipv6, ns, cname, soa, mx, txt, ptr, raw, Rr}
use dnsentinal.Name.{is_subdomain_of}
use dnsentinal.Policy.Acl.{inet, inet6, Subnet, SocketAddress, v4, v6, contains}

abbrev pub net_v4 : Bytes → ℕ → Subnet
net_v4 network prefix = record {
  family = inet;
  network = network ++ replicate 12 0;
  prefix = prefix;
}

abbrev pub net_v6 : Bytes → ℕ → Subnet
net_v6 network prefix = record { family = inet6; network = network; prefix = prefix }

-- What `parse_subnet` reads from the texts of the ranges.
unfoldable pub private_ranges : List Subnet
private_ranges =
    net_v4 (0 ∷ 0 ∷ 0 ∷ 0 ∷ []) 8
    ∷ net_v4 (10 ∷ 0 ∷ 0 ∷ 0 ∷ []) 8
    ∷ net_v4 (100 ∷ 64 ∷ 0 ∷ 0 ∷ []) 10
    ∷ net_v4 (127 ∷ 0 ∷ 0 ∷ 0 ∷ []) 8
    ∷ net_v4 (169 ∷ 254 ∷ 0 ∷ 0 ∷ []) 16
    ∷ net_v4 (172 ∷ 16 ∷ 0 ∷ 0 ∷ []) 12
    ∷ net_v4 (192 ∷ 168 ∷ 0 ∷ 0 ∷ []) 16
    ∷ net_v6 (replicate 16 0) 128
    ∷ net_v6 (replicate 15 0 ++ 1 ∷ []) 128
    ∷ net_v6 (252 ∷ replicate 15 0) 7
    ∷ net_v6 (254 ∷ 128 ∷ replicate 14 0) 10
    ∷ []

unfoldable pub in_private_range : (Bytes → Bool) → SocketAddress → Bool
unfolding private_ranges contains
in_private_range is_v4_mapped address = any (λ s. contains is_v4_mapped s address) private_ranges

unfoldable pub is_private_address : (Bytes → Bool) → RData → Bool
unfolding in_private_range
is_private_address is_v4_mapped (ipv4 addr) = in_private_range is_v4_mapped (v4 addr)
is_private_address is_v4_mapped (ipv6 addr) = in_private_range is_v4_mapped (v6 addr)
is_private_address is_v4_mapped (ns n) = false
is_private_address is_v4_mapped (cname n) = false
is_private_address is_v4_mapped (soa s) = false
is_private_address is_v4_mapped (mx preference n) = false
is_private_address is_v4_mapped (txt strings) = false
is_private_address is_v4_mapped (ptr n) = false
is_private_address is_v4_mapped (raw bytes) = false

pub record RebindingConfig : Type 0 where
  pub enabled : Bool
  pub exempt_zones : List Name

unfoldable pub exempt : RebindingConfig → Name → Bool
exempt config qname = any (λ zone. is_subdomain_of qname zone) config.exempt_zones

-- What is removed, and the answers that stay, in their order.
unfoldable pub strip : (Bytes → Bool) → RebindingConfig → Name → List Rr → List Rr × List Rr
unfolding exempt is_private_address
strip is_v4_mapped config qname answers =
    if not config.enabled || exempt config qname then ([], answers) else (
      keep_if (λ r. is_private_address is_v4_mapped r.rdata) answers,
      keep_if (λ r. not (is_private_address is_v4_mapped r.rdata)) answers,
    )

abbrev pub count_if : (Rr → Bool) → List Rr → ℕ
count_if p rs = length (keep_if p rs)

keep_if-All : (p : Rr → Bool) (rs : List Rr) → All (λ r. p r ≡ true) (keep_if p rs)
keep_if-All p [] = tt
keep_if-All p (r ∷ rs) = elim (Bool-cases (p r)) [
  | inl e ↦ rw e (e, keep_if-All p rs)
  | inr e ↦ rw e (keep_if-All p rs)
]

keep_if-not :
    (p q : Rr → Bool) (rs : List Rr)
    → count_if q (keep_if p rs) + count_if q (keep_if (λ r. not (p r)) rs) ≡ count_if q rs
keep_if-not p q [] = omega arith
keep_if-not p q (r ∷ rs) = ground (arith, keep_if-not p q rs)

-- The answer keeps no private address and what is removed is one, when the filter is on and the name
-- is not exempt; else the answer is as it was. Each record is in one of the two as often as it was in
-- the answer, whatever the test `q` that tells it.
pub strip_lem :
    (is_v4_mapped : Bytes → Bool) (config : RebindingConfig) (qname : Name) (answers : List Rr)
    (q : Rr → Bool)
    → ((not config.enabled || exempt config qname ≡ true)
          × (strip is_v4_mapped config qname answers ≡ ([], answers))
        ⊎ ((not config.enabled || exempt config qname ≡ false)
            × All
                (λ r. is_private_address is_v4_mapped r.rdata ≡ true)
                (strip is_v4_mapped config qname answers).0
            × All
                (λ r. not (is_private_address is_v4_mapped r.rdata) ≡ true)
                (strip is_v4_mapped config qname answers).1))
      × (count_if q (strip is_v4_mapped config qname answers).0
            + count_if q (strip is_v4_mapped config qname answers).1
          ≡ count_if q answers)
unfolding strip
strip_lem is_v4_mapped config qname answers q =
    let p : Rr → Bool = λ r. is_private_address is_v4_mapped r.rdata in
    elim (Bool-cases (not config.enabled || exempt config qname)) [
      | inl e ↦ rw e (inl (refl, refl), omega arith)
      | inr e ↦ rw e (
        inr (refl, keep_if-All p answers, keep_if-All (λ r. not (p r)) answers),
        keep_if-not p q answers,
      )
    ]
