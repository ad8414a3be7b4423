-- ===== src/Policy/BlocklistTrie.antt =====
-- core/policy/blocklist_trie.cpp and blocklist_trie.h: the trie of the block and allow rules. The
-- list files are in BlocklistTrie/ListFile, the collected rules in BlocklistTrie/Rules, the layout
-- of the trie in BlocklistTrie/Freeze; here are the lookups.
pub mod Deepest
pub mod Keys
pub mod Loading
mod Rules
mod Freeze
mod ListFile
unfoldable pub use Rules.*
unfoldable pub use Freeze.*
unfoldable pub use ListFile.*
use mathlib.Core.List.{reverse, foldl}
use dnsentinal.Common.{
  ℕ, zero, suc, ◌+◌, ◌-◌, Bool, true, false, not, ◌&&◌, ◌||◌, List, [], ◌∷◌, Option, none, some,
  ltb, ◌==◌, if◌then◌else◌, length, take, drop, get_elem?,
}
use dnsentinal.Common.Options.{◌>>=◌}
use dnsentinal.Types.{Bytes, Name, root, bytes_eq}
use dnsentinal.Name.{append_label}
use dnsentinal.Name.Text.{to_string}

unfoldable pub label_of : BlocklistTrie → Node → Bytes
label_of trie node = take node.label_length (drop node.label_offset trie.labels)

-- `compare_labels(a, b) < 0`
unfoldable pub labels_less : Bytes → Bytes → Bool
unfolding bytes_less
labels_less a b = ltb (length a) (length b) || (length a == length b && bytes_less a b)

-- `std::lower_bound`: the first node that is not less.
unfoldable pub lower_bound : BlocklistTrie → Bytes → List Node → Option Node
unfolding labels_less label_of
lower_bound trie label [] = none
lower_bound trie label (n ∷ rest) =
    if labels_less (label_of trie n) label then lower_bound trie label rest else some n

unfoldable pub child : BlocklistTrie → Node → Bytes → Option Node
unfolding lower_bound bytes_eq
child trie parent label =
    let range = take parent.child_count (drop parent.first_child trie.nodes) in
    elim (lower_bound trie label range) [
      | none ↦ none
      | some n ↦ if bytes_eq (label_of trie n) label then some n else none
    ]

-- The variables of the loop: the depth and the source of the last block rule and allow rule met.
pub record Hits : Type 0 where
  pub block_hit : Option (ℕ × ℕ)
  pub allow_hit : Option (ℕ × ℕ)

abbrev pub no_hits : Hits
no_hits = record { block_hit = none; allow_hit = none }

abbrev pub block_covers : Bool → Node → Bool
block_covers whole_name n = n.flags.block_subtree || (whole_name && n.flags.block_exact)

abbrev pub allow_covers : Bool → Node → Bool
allow_covers whole_name n = n.flags.allow_subtree || (whole_name && n.flags.allow_exact)

unfoldable pub meet : Bool → ℕ → Node → Hits → Hits
meet whole_name depth n h = record {
  block_hit = if block_covers whole_name n then some (depth, n.block_source) else h.block_hit;
  allow_hit = if allow_covers whole_name n then some (depth, n.allow_source) else h.allow_hit;
}

-- The loop, over the labels that are left, from the top down.
unfoldable pub walk : BlocklistTrie → ℕ → Node → List Bytes → Hits → Hits
unfolding meet child
walk trie depth node [] h = meet true depth node h
walk trie depth node (label ∷ rest) h =
    let next = meet false depth node h in
    elim (child trie node label) [ none ↦ next | some n ↦ walk trie (depth + 1) n rest next ]

pub record TrieMatch : Type 0 where
  pub action : ListAction
  pub rule : Bytes
  pub source : Bytes

-- `matched`, or not; `sources_.at` throws for a source that is not there.
pub data TrieLookupResult : Type 0 where
  matched : TrieMatch → TrieLookupResult
  unmatched out_of_range : TrieLookupResult

-- The last `depth` labels of the name.
unfoldable pub rule_text : Name → ℕ → Bytes
unfolding append_label to_string
rule_text domain depth =
    to_string (foldl append_label root (drop (length domain.labels - depth) domain.labels))

unfoldable pub report : BlocklistTrie → Name → ListAction → ℕ × ℕ → TrieLookupResult
unfolding rule_text
report trie domain action (depth, source) = elim (get_elem? trie.sources source) [
  | none ↦ out_of_range
  | some name ↦ matched (record { action = action; rule = rule_text domain depth; source = name })
]

unfoldable pub lookup : BlocklistTrie → Name → TrieLookupResult
unfolding walk report
lookup trie domain = elim trie.nodes [
  | [] ↦ unmatched
  | top ∷ rest ↦
      let h = walk trie 0 top (reverse domain.labels) no_hits in
      elim h.allow_hit [
        | some hit ↦ report trie domain allow hit
        | none ↦ elim h.block_hit [ some hit ↦ report trie domain block hit | none ↦ unmatched ]
      ]
]

unfoldable pub size : BlocklistTrie → ℕ
size trie = trie.rule_count
