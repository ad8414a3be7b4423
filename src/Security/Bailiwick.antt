-- ===== src/Security/Bailiwick.antt =====
-- core/security/bailiwick.cpp: records outside the zone of the server that sent them are dropped.
use dnsentinal.Common.{
  ℕ, ◌+◌, ◌-◌, ◌≡◌, refl, ◌&&◌, Bool, true, List, [], ◌∷◌, All, keep_if, length, length-keep_if-le,
  arith, Bool-cases, inl, inr,
}
use dnsentinal.Types.{Name, Rr, Message}
use dnsentinal.Name.{is_subdomain_of}

abbrev in_bailiwick : Name → Rr → Bool
in_bailiwick zone r = is_subdomain_of r.name zone

-- `std::erase_if` of one section: what stays, and how many went.
unfoldable pub erase_outside : Name → List Rr → List Rr
erase_outside zone = keep_if (in_bailiwick zone)

unfoldable pub filter_to_bailiwick : Message → Name → Message × ℕ
unfolding erase_outside
filter_to_bailiwick response zone =
    let answers = erase_outside zone response.answers in
    let authority = erase_outside zone response.authority in
    let additional = erase_outside zone response.additional in
    (
      record response { answers = answers; authority = authority; additional = additional },
      (length response.answers - length answers)
          + (length response.authority - length authority)
          + (length response.additional - length additional),
    )

abbrev pub Inside : Name → List Rr → Type 0
Inside zone = All (λ r. is_subdomain_of r.name zone ≡ true)

erase_outside-Inside : (zone : Name) (rs : List Rr) → Inside zone (erase_outside zone rs)
unfolding erase_outside
erase_outside-Inside zone [] = tt
erase_outside-Inside zone (r ∷ rs) = elim (Bool-cases (is_subdomain_of r.name zone)) [
  | inl e ↦ rw e (e, erase_outside-Inside zone rs)
  | inr e ↦ rw e (erase_outside-Inside zone rs)
]

erase_outside-Inside_kept :
    (zone : Name) (rs : List Rr) → Inside zone rs → erase_outside zone rs ≡ rs
unfolding erase_outside
erase_outside-Inside_kept zone [] h = refl
erase_outside-Inside_kept zone (r ∷ rs) h =
    ground (arith, h.0, erase_outside-Inside_kept zone rs h.1)

abbrev pub records : Message → ℕ
records m = length m.answers + length m.authority + length m.additional

abbrev count_if : (Rr → Bool) → List Rr → ℕ
count_if p rs = length (keep_if p rs)

-- Every record that is inside is there as often as before, and no other record is.
abbrev pub SameInside : Name → List Rr → List Rr → Type 0
SameInside zone before kept =
    (test : Rr → Bool)
    → count_if test kept ≡ count_if (λ r. test r && is_subdomain_of r.name zone) before

erase_outside-SameInside : (zone : Name) (rs : List Rr) → SameInside zone rs (erase_outside zone rs)
unfolding erase_outside
erase_outside-SameInside zone [] test = refl
erase_outside-SameInside zone (r ∷ rs) test = ground (arith, erase_outside-SameInside zone rs test)

-- After the filter the three sections hold the records of the zone or below it that they held
-- before, each as often as before, and no others; the returned number is that of the records that
-- went, and header, questions and EDNS are as before.
pub filter_to_bailiwick_lem :
    (response : Message) (zone : Name)
    → let (kept, removed) = filter_to_bailiwick response zone in
      (Inside zone kept.answers × SameInside zone response.answers kept.answers)
      × (Inside zone kept.authority × SameInside zone response.authority kept.authority)
      × (Inside zone kept.additional × SameInside zone response.additional kept.additional)
      × (removed + records kept ≡ records response)
      × (kept.header ≡ response.header)
      × (kept.questions ≡ response.questions)
      × (kept.edns ≡ response.edns)
unfolding filter_to_bailiwick
filter_to_bailiwick_lem m zone = (
  (erase_outside-Inside zone m.answers, erase_outside-SameInside zone m.answers),
  (erase_outside-Inside zone m.authority, erase_outside-SameInside zone m.authority),
  (erase_outside-Inside zone m.additional, erase_outside-SameInside zone m.additional),
  omega (
    arith,
    length-keep_if-le (in_bailiwick zone) m.answers,
    length-keep_if-le (in_bailiwick zone) m.authority,
    length-keep_if-le (in_bailiwick zone) m.additional,
  ),
  refl,
  refl,
  refl,
)

-- A response whose records are all of the zone or below it is left as it is.
pub filter_to_bailiwick-Inside :
    (response : Message) (zone : Name)
    → Inside zone response.answers
    → Inside zone response.authority
    → Inside zone response.additional
    → filter_to_bailiwick response zone ≡ (response, 0)
unfolding filter_to_bailiwick
filter_to_bailiwick-Inside m zone a b c = ground (
  arith,
  erase_outside-Inside_kept zone m.answers a,
  erase_outside-Inside_kept zone m.authority b,
  erase_outside-Inside_kept zone m.additional c,
)
