-- ===== src/Policy/BlocklistTrie/Deepest.antt =====
-- core/policy/blocklist_trie.cpp: which rule a lookup reports.
use mathlib.Core.List.{reverse}
use dnsentinal.Common.{
  ℕ, ◌+◌, ◌≡◌, refl, ap, ◌∙◌, Bool, true, false, List, [], ◌∷◌, Option, none, some, Option-cases,
  inl, inr, if◌then◌else◌,
}
use dnsentinal.Types.{Bytes, Name}
use dnsentinal.Policy.BlocklistTrie.{
  BlocklistTrie, Node, block, allow, Hits, no_hits, child, walk, meet, block_covers, allow_covers,
  TrieLookupResult, unmatched, report, lookup,
}

-- A node on the way down: whether the whole name led there, its depth, and the node.
abbrev pub Stop : Type 0
Stop = Bool × ℕ × Node

-- The nodes on the way down, as far as the labels lead.
unfoldable pub path : BlocklistTrie → ℕ → Node → List Bytes → List Stop
path trie depth node [] = (true, depth, node) ∷ []
path trie depth node (label ∷ rest) =
    (false, depth, node)
    ∷ elim (child trie node label) [ none ↦ [] | some n ↦ path trie (depth + 1) n rest ]

abbrev pub first_of : Option (ℕ × ℕ) → Option (ℕ × ℕ) → Option (ℕ × ℕ)
first_of (some hit) other = some hit
first_of none other = other

-- The last stop with a rule that covers the name: its depth and the rule's source.
unfoldable pub deepest : (Bool → Node → Bool) → (Node → ℕ) → List Stop → Option (ℕ × ℕ)
deepest covers source [] = none
deepest covers source ((whole, depth, node) ∷ rest) =
    first_of (deepest covers source rest)
      (if covers whole node then some (depth, source node) else none)

abbrev pub deepest_block : List Stop → Option (ℕ × ℕ)
deepest_block = deepest block_covers (λ n. n.block_source)

abbrev pub deepest_allow : List Stop → Option (ℕ × ℕ)
deepest_allow = deepest allow_covers (λ n. n.allow_source)

-- What a lookup should say of the rules on its way.
unfoldable pub verdict : BlocklistTrie → Name → List Stop → TrieLookupResult
verdict trie domain stops = elim (deepest_allow stops) [
  | some hit ↦ report trie domain allow hit
  | none ↦ elim (deepest_block stops) [ some hit ↦ report trie domain block hit | none ↦ unmatched ]
]

first_of-if :
    (o : Option (ℕ × ℕ)) (b : Bool) (hit : ℕ × ℕ) (h : Option (ℕ × ℕ))
    → first_of o (if b then some hit else h)
      ≡ first_of (first_of o (if b then some hit else none)) h
first_of-if (some x) b hit h = refl
first_of-if none true hit h = refl
first_of-if none false hit h = refl

walk-deepest :
    (trie : BlocklistTrie) (depth : ℕ) (node : Node) (labels : List Bytes) (h : Hits)
    → ((walk trie depth node labels h).block_hit
        ≡ first_of (deepest_block (path trie depth node labels)) h.block_hit)
      × ((walk trie depth node labels h).allow_hit
          ≡ first_of (deepest_allow (path trie depth node labels)) h.allow_hit)
unfolding walk path deepest meet
walk-deepest trie depth node [] h =
    (first_of-if none _ _ h.block_hit, first_of-if none _ _ h.allow_hit)
walk-deepest trie depth node (label ∷ rest) h = elim (Option-cases (child trie node label)) [
  | inl e ↦ rw (e, walk, path) (first_of-if none _ _ h.block_hit, first_of-if none _ _ h.allow_hit)
  | inr (n, e) ↦
      let ih = walk-deepest trie (depth + 1) n rest (meet false depth node h) in
      rw (e, walk, path)
        (ih.0 ∙ first_of-if _ _ _ h.block_hit, ih.1 ∙ first_of-if _ _ _ h.allow_hit)
]

first_of-none : (o : Option (ℕ × ℕ)) → first_of o none ≡ o
first_of-none (some hit) = refl
first_of-none none = refl

report_hits : BlocklistTrie → Name → Option (ℕ × ℕ) → Option (ℕ × ℕ) → TrieLookupResult
report_hits trie domain allow_hit block_hit = elim allow_hit [
  | some hit ↦ report trie domain allow hit
  | none ↦ elim block_hit [ some hit ↦ report trie domain block hit | none ↦ unmatched ]
]

lookup-report_hits :
    (trie : BlocklistTrie) (domain : Name) (top : Node) (rest : List Node)
    → trie.nodes ≡ top ∷ rest
    → let h = walk trie 0 top (reverse domain.labels) no_hits in
      lookup trie domain ≡ report_hits trie domain h.allow_hit h.block_hit
unfolding lookup report_hits
lookup-report_hits trie domain top rest e = simp (e, lookup) refl

-- A lookup in a trie that has a root follows the name's labels from the last one down. Of the nodes
-- on that way, if one has an allow rule that covers the name, the deepest such rule is reported;
-- else the deepest block rule that covers it; else there is no match. A rule for a name and all
-- below covers every name that the way leads through, and an exact rule covers the name alone.
pub lookup-verdict :
    (trie : BlocklistTrie) (domain : Name) (top : Node) (rest : List Node)
    → trie.nodes ≡ top ∷ rest
    → lookup trie domain ≡ verdict trie domain (path trie 0 top (reverse domain.labels))
unfolding verdict report_hits
lookup-verdict trie domain top rest e =
    let stops = path trie 0 top (reverse domain.labels) in
    let hits = walk-deepest trie 0 top (reverse domain.labels) no_hits in
    lookup-report_hits trie domain top rest e
    ∙ ap
        (λ o. report_hits trie domain o (walk trie 0 top (reverse domain.labels) no_hits).block_hit)
        (hits.1 ∙ first_of-none (deepest_allow stops))
    ∙ ap (report_hits trie domain (deepest_allow stops))
        (hits.0 ∙ first_of-none (deepest_block stops))
