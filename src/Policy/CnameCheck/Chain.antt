-- ===== src/Policy/CnameCheck/Chain.antt =====
-- core/policy/cname_check.cpp: the chain ends, and is what the CNAME records say.
use dnsentinal.Common.{
  ℕ, zero, suc, ◌+◌, ◌≤◌, ◌<◌, ◌≡◌, refl, sym, ap, ◌∙◌, Bool, true, false, not, List, [], ◌∷◌,
  Option, none, some, length, keep_if, arith, Bool-cases, Option-cases, inl, inr, length-keep_if-le,
}
use dnsentinal.Types.{Name, name_eq, Rr}
use dnsentinal.Types.Equality.{labels_eq_iff}
use dnsentinal.Policy.CnameCheck.{
  target_of, hop, next_hop, or_else, is_seen, follow, follow_hop, cname_chain,
}

-- A chain of names from `n`, each the target of the first CNAME record of the one before it and
-- none of them seen before.
pub data IsChain (answers : List Rr) : List Name → Name → List Name → Type 0 where
  stop : (seen : List Name) (n : Name) → IsChain answers seen n []
  link :
      (seen : List Name) (n target : Name) (rest : List Name)
      → next_hop n answers ≡ some target
      → is_seen seen target ≡ false
      → IsChain answers (target ∷ seen) target rest
      → IsChain answers seen n (target ∷ rest)

abbrev new_target : List Name → Option Name → Bool
new_target seen none = false
new_target seen (some target) = not (is_seen seen target)

-- How many of the records have a target not yet seen.
unseen : List Name → List Rr → ℕ
unseen seen rs = length (keep_if (λ r. new_target seen (target_of r.rdata)) rs)

name_eq_refl : (n : Name) → name_eq n n ≡ true
unfolding name_eq
name_eq_refl n = (labels_eq_iff n.labels n.labels).1 refl

unseen-cons-le :
    (target : Name) (seen : List Name) (rs : List Rr) → unseen (target ∷ seen) rs ≤ unseen seen rs
unfolding unseen
unseen-cons-le target seen [] = omega arith
unseen-cons-le target seen (r ∷ rs) = elim (Option-cases (target_of r.rdata)) [
  | inl e ↦ rw e (unseen-cons-le target seen rs)
  | inr (t, e) ↦ ground (arith, e, unseen-cons-le target seen rs)
]

hop-target :
    (current : Name) (r : Rr) (target : Name)
    → hop current r ≡ some target
    → target_of r.rdata ≡ some target
unfolding hop
hop-target current r target h = ground (arith, h)

unseen-lt :
    (current target : Name) (seen : List Name) (rs : List Rr)
    → next_hop current rs ≡ some target
    → is_seen seen target ≡ false
    → unseen (target ∷ seen) rs < unseen seen rs
unfolding next_hop unseen
unseen-lt current target seen [] h new = absurd (cc)
unseen-lt current target seen (r ∷ rs) h new = elim (Option-cases (hop current r)) [
  | inl e ↦
      let h' : next_hop current rs ≡ some target =
        ap (λ o. or_else o (next_hop current rs)) (sym e) ∙ h in
      let ih = unseen-lt current target seen rs h' new in
      elim (Option-cases (target_of r.rdata)) [
        | inl none_of ↦ rw none_of ih
        | inr (t, some_of) ↦ ground (arith, some_of, ih)
      ]
  | inr (t, e) ↦
      let same : some t ≡ some target = ap (λ o. or_else o (next_hop current rs)) (sym e) ∙ h in
      let own = hop-target current r target (e ∙ same) in
      rw (own, new, name_eq_refl target) (omega (arith, unseen-cons-le target seen rs))
]

follow-IsChain :
    (answers : List Rr) (fuel : ℕ) (seen : List Name) (current : Name)
    → unseen seen answers < fuel
    → (chain : List Name) × (follow fuel answers seen current ≡ some chain)
      × IsChain answers seen current chain
unfolding follow follow_hop
follow-IsChain answers zero seen current h = absurd (omega arith)
follow-IsChain answers (suc fuel) seen current h = elim (Option-cases (next_hop current answers)) [
  | inl e ↦ ([], rw e refl, stop seen current)
  | inr (target, e) ↦ elim (Bool-cases (is_seen seen target)) [
    | inl old ↦ ([], rw (e, old) refl, stop seen current)
    | inr new ↦
        let ih =
          follow-IsChain answers fuel (target ∷ seen) target
            (omega (arith, unseen-lt current target seen answers e new)) in
        (target ∷ ih.0, rw (e, new, ih.1) refl, link seen current target ih.0 e new ih.2)
  ]
]

-- The loop ends, having gone through names each of which is the target of the first CNAME record of
-- the one before it, from the query name on, and no name twice.
pub cname_chain-IsChain :
    (qname : Name) (answers : List Rr)
    → (chain : List Name) × (cname_chain qname answers ≡ some chain)
      × IsChain answers (qname ∷ []) qname chain
unfolding cname_chain unseen
cname_chain-IsChain qname answers =
    follow-IsChain answers (length answers + 1) (qname ∷ []) qname
      (omega (arith, length-keep_if-le (λ r. new_target (qname ∷ []) (target_of r.rdata)) answers))
