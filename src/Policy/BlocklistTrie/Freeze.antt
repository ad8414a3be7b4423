-- ===== src/Policy/BlocklistTrie/Freeze.antt =====
-- core/policy/blocklist_trie.cpp: `Builder::build`, which lays the rules out as a trie. Rules under a
-- node are the part of the sorted list that the source names by `begin` and `end`.
use dnsentinal.Common.{
  ℕ, zero, suc, ◌+◌, ◌%◌, ◌^◌, Bool, true, false, not, ◌&&◌, ◌||◌, List, [], ◌∷◌, ◌++◌, Option,
  none, some, ltb, ◌==◌, if◌then◌else◌, length, take, drop, get_or, set,
}
use dnsentinal.Types.{Bytes, bytes_eq}
use dnsentinal.Policy.BlocklistTrie.Rules.{Flags, no_flags, Rule, Builder}

pub record Node : Type 0 where
  pub label_offset : ℕ
  pub label_length : ℕ
  pub flags : Flags
  pub block_source : ℕ
  pub allow_source : ℕ
  pub first_child : ℕ
  pub child_count : ℕ

abbrev pub new_node : Node
new_node = record {
  label_offset = 0;
  label_length = 0;
  flags = no_flags;
  block_source = 0;
  allow_source = 0;
  first_child = 0;
  child_count = 0;
}

pub record BlocklistTrie : Type 0 where
  pub nodes : List Node
  pub labels : Bytes
  pub sources : List Bytes
  pub rule_count : ℕ

abbrev pub empty_trie : BlocklistTrie
empty_trie = record { nodes = []; labels = []; sources = []; rule_count = 0 }

-- `<` of strings, byte by byte.
unfoldable pub bytes_less : Bytes → Bytes → Bool
bytes_less [] [] = false
bytes_less [] (b ∷ bs) = true
bytes_less (a ∷ as') [] = false
bytes_less (a ∷ as') (b ∷ bs) = ltb a b || (a == b && bytes_less as' bs)

-- `std::stable_sort` by key: equal keys stay in their order.
unfoldable pub insert_rule : Rule → List Rule → List Rule
unfolding bytes_less
insert_rule r [] = r ∷ []
insert_rule r (s ∷ rest) =
    let later = insert_rule r rest in if bytes_less s.key r.key then s ∷ later else r ∷ s ∷ rest

unfoldable pub sort_rules : List Rule → List Rule
unfolding insert_rule
sort_rules [] = []
sort_rules (r ∷ rest) = insert_rule r (sort_rules rest)

abbrev pub blocks : Flags → Bool
blocks f = f.block_exact || f.block_subtree

abbrev pub allows : Flags → Bool
allows f = f.allow_exact || f.allow_subtree

abbrev join_flags : Flags → Flags → Flags
join_flags f g = record {
  block_exact = f.block_exact || g.block_exact;
  block_subtree = f.block_subtree || g.block_subtree;
  allow_exact = f.allow_exact || g.allow_exact;
  allow_subtree = f.allow_subtree || g.allow_subtree;
}

-- A rule for the node's very name: the first list to name it is its source.
unfoldable pub mark : Node → Rule → Node
mark node r = record node {
  flags = join_flags node.flags r.flags;
  block_source = if blocks r.flags && not (blocks node.flags) then r.source else node.block_source;
  allow_source = if allows r.flags && not (allows node.flags) then r.source else node.allow_source;
}

unfoldable pub mark_all : ℕ → Node → List Rule → Node × List Rule
unfolding mark
mark_all offset node [] = (node, [])
mark_all offset node (r ∷ rest) =
    let more = mark_all offset (mark node r) rest in
    if length r.key == offset then more else (node, r ∷ rest)

-- The length and the label that a key goes on with.
abbrev next_length : ℕ → Rule → ℕ
next_length offset r = get_or r.key offset 0

abbrev next_part : ℕ → ℕ → Rule → Bytes
next_part offset n r = take (1 + n) (drop offset r.key)

-- The rules at the front that share this part, and the others.
unfoldable pub span_part : ℕ → Bytes → List Rule → List Rule × List Rule
unfolding bytes_eq
span_part offset part [] = ([], [])
span_part offset part (r ∷ rest) =
    let (same, others) = span_part offset part rest in
    if bytes_eq (take (length part) (drop offset r.key)) part
    then (r ∷ same, others)
    else ([], r ∷ rest)

pub record Work : Type 0 where
  pub node : ℕ
  pub rules : List Rule
  pub offset : ℕ

-- What the loops change: the trie, the interned labels with their offsets, and the queue.
pub record Building : Type 0 where
  pub nodes : List Node
  pub labels : Bytes
  pub interned : List (Bytes × ℕ)
  pub queue : List Work

unfoldable pub interned_at : Bytes → List (Bytes × ℕ) → Option ℕ
unfolding bytes_eq
interned_at label [] = none
interned_at label ((l, offset) ∷ rest) =
    if bytes_eq l label then some offset else interned_at label rest

-- Where the label stands in `labels_`, to which it is added if it is new.
unfoldable pub intern : Building → Bytes → Building × ℕ
unfolding interned_at
intern b label = elim (interned_at label b.interned) [
  | some offset ↦ (b, offset)
  | none ↦
      let offset = length b.labels % 2 ^ 32 in
      (record b { labels = b.labels ++ label; interned = (label, offset) ∷ b.interned }, offset)
]

unfoldable pub add_child : Building → ℕ → ℕ → Rule → List Rule → Building
unfolding intern
add_child b offset n r same =
    let (next, label_offset) = intern b (take n (drop (offset + 1) r.key)) in
    let child = record new_node { label_offset = label_offset; label_length = n } in
    record next {
      nodes = next.nodes ++ child ∷ [];
      queue =
          next.queue
          ++ record { node = length next.nodes % 2 ^ 32; rules = r ∷ same; offset = offset + 1 + n }
            ∷ [];
    }

-- One child for each label that the rules go on with; a child takes at least one rule, so as much
-- fuel as there are rules ends it.
unfoldable pub add_children : ℕ → ℕ → Building → List Rule → Building × ℕ
unfolding span_part add_child
add_children fuel offset b [] = (b, 0)
add_children zero offset b (r ∷ rest) = (b, 0)
add_children (suc fuel) offset b (r ∷ rest) =
    let n = next_length offset r in
    let (same, others) = span_part offset (next_part offset n r) rest in
    let (next, count) = add_children fuel offset (add_child b offset n r same) others in
    (next, count + 1)

abbrev set_children : List Node → ℕ → Node → ℕ → ℕ → List Node
set_children nodes i node first count =
    set nodes i (record node { first_child = first % 2 ^ 32; child_count = count % 2 ^ 32 })

unfoldable pub work_on : Building → Work → Building
unfolding mark_all add_children
work_on b w =
    let (node, below) = mark_all w.offset (get_or b.nodes w.node new_node) w.rules in
    let first = length b.nodes in
    let (next, count) = add_children (length below) w.offset b below in
    record next { nodes = set_children next.nodes w.node node first count }

-- Breadth-first.
unfoldable pub work_off : ℕ → Building → Building
unfolding work_on
work_off zero b = b
work_off (suc fuel) b = elim b.queue [
  | [] ↦ b
  | w ∷ rest ↦ work_off fuel (work_on (record b { queue = rest }) w)
]

abbrev key_bytes : List Rule → ℕ
key_bytes [] = 0
key_bytes (r ∷ rest) = length r.key + key_bytes rest

abbrev pub has_rule : Node → Bool
has_rule n = blocks n.flags || allows n.flags

unfoldable pub count_rules : List Node → ℕ
count_rules [] = 0
count_rules (n ∷ rest) = let more = count_rules rest in if has_rule n then more + 1 else more

-- Every node but the root has a byte of some key of its own, the length of its label; so this fuel
-- empties the queue.
unfoldable pub build : Builder → BlocklistTrie
unfolding sort_rules work_off count_rules
build builder =
    let sorted = sort_rules builder.rules in
    let start : Building = record {
      nodes = new_node ∷ [];
      labels = [];
      interned = [];
      queue = record { node = 0; rules = sorted; offset = 0 } ∷ [];
    } in
    let done = work_off (1 + key_bytes sorted) start in
    record {
      nodes = done.nodes;
      labels = done.labels;
      sources = builder.sources;
      rule_count = count_rules done.nodes;
    }
