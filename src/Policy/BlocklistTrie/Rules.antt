-- ===== src/Policy/BlocklistTrie/Rules.antt =====
-- core/policy/blocklist_trie.cpp: the rules that a `Builder` collects. A file is its contents, or
-- the `errno` of opening it.
use mathlib.Core.List.{reverse}
use dnsentinal.Common.{
  ℕ, ◌+◌, ◌%◌, ◌^◌, Bool, true, false, List, [], ◌∷◌, ◌++◌, Option, none, some, if◌then◌else◌,
  length, ◌⊎◌, inl, inr,
}
use dnsentinal.Types.{Bytes, Name, bytes_eq}
use dnsentinal.Name.Text.{from_string}
use dnsentinal.Policy.BlocklistTrie.ListFile.{lines, is_empty, read_line}

pub data ListAction : Type 0 where
  block allow : ListAction

pub record ListFileStats : Type 0 where
  pub rules : ℕ
  pub skipped : ℕ

-- `kBlockExact`, `kBlockSubtree`, `kAllowExact` and `kAllowSubtree`: the bits of a rule or a node.
pub record Flags : Type 0 where
  pub block_exact : Bool
  pub block_subtree : Bool
  pub allow_exact : Bool
  pub allow_subtree : Bool

abbrev pub no_flags : Flags
no_flags = record {
  block_exact = false;
  block_subtree = false;
  allow_exact = false;
  allow_subtree = false;
}

pub record Rule : Type 0 where
  pub key : Bytes
  pub flags : Flags
  pub source : ℕ

pub record Builder : Type 0 where
  pub rules : List Rule
  pub sources : List Bytes

abbrev pub new_builder : Builder
new_builder = record { rules = []; sources = [] }

-- The index of a list's name, and the names with it.
unfoldable pub source_id : List Bytes → Bytes → ℕ → List Bytes × ℕ
unfolding bytes_eq
source_id [] source i = (source ∷ [], i % 2 ^ 16)
source_id (s ∷ rest) source i =
    let (others, id) = source_id rest source (i + 1) in
    if bytes_eq s source then (s ∷ rest, i % 2 ^ 16) else (s ∷ others, id)

-- Labels from the top down, each after its length in a byte.
unfoldable pub key_of : List Bytes → Bytes
key_of [] = []
key_of (label ∷ rest) = length label % 2 ^ 8 ∷ label ++ key_of rest

abbrev pub flags_of : ListAction → Bool → Flags
flags_of block true = record no_flags { block_subtree = true }
flags_of block false = record no_flags { block_exact = true }
flags_of allow true = record no_flags { allow_subtree = true }
flags_of allow false = record no_flags { allow_exact = true }

unfoldable pub add : Builder → Name → ListAction → Bytes → Bool → Builder
unfolding source_id key_of
add b domain action source include_subdomains =
    let (sources, id) = source_id b.sources source 0 in
    let rule : Rule = record {
      key = key_of (reverse domain.labels);
      flags = flags_of action include_subdomains;
      source = id;
    } in
    record { rules = b.rules ++ rule ∷ []; sources = sources }

abbrev pub skip : ListFileStats → ListFileStats
skip stats = record stats { skipped = (stats.skipped + 1) % 2 ^ 64 }

abbrev pub took : ListFileStats → ListFileStats
took stats = record stats { rules = (stats.rules + 1) % 2 ^ 64 }

-- `label_count() == 0`
abbrev pub unlabelled : List Bytes → Bool
unlabelled [] = true
unlabelled (label ∷ rest) = false

-- Never the root, which would match everything.
unfoldable pub below_root : Option Name → Option Name
below_root none = none
below_root (some n) = if unlabelled n.labels then none else some n

unfoldable pub usable : Bytes → Option Name
unfolding from_string below_root
usable text = if is_empty text then none else below_root (from_string text)

unfoldable pub add_name :
    Bytes → ListAction → Builder × ListFileStats → Option Name → Builder × ListFileStats
unfolding add
add_name path action (b, stats) none = (b, skip stats)
add_name path action (b, stats) (some name) = (add b name action path true, took stats)

unfoldable pub add_names :
    Bytes → ListAction → Builder × ListFileStats → List Bytes → Builder × ListFileStats
unfolding add_name usable
add_names path action state [] = state
add_names path action state (text ∷ rest) =
    add_names path action (add_name path action state (usable text)) rest

abbrev pub skip_if : Bool → Builder × ListFileStats → Builder × ListFileStats
skip_if skipped (b, stats) = (b, if skipped then skip stats else stats)

-- `std::expected<T, std::string>`, with the error as the value it is made from.
pub data Result (A : Type 0) : Type 0 where
  loaded : A → Result A
  cannot_open : Bytes → ℕ → Result A
  cancelled : Result A

module _ (is_address : Bytes → Bool) where
  unfoldable pub load_lines :
      Bytes → ListAction → Builder × ListFileStats → List Bytes → Builder × ListFileStats
  unfolding add_names read_line
  load_lines path action state [] = state
  load_lines path action state (raw ∷ rest) =
      let (names, skipped) = read_line is_address raw in
      load_lines path action (add_names path action (skip_if skipped state) names) rest

  unfoldable pub load_file :
      Builder → Bytes → ListAction → Bytes ⊎ ℕ → Result (Builder × ListFileStats)
  unfolding load_lines lines
  load_file b path action (inr errno) = cannot_open path errno
  load_file b path action (inl content) =
      loaded (load_lines path action (b, record { rules = 0; skipped = 0 }) (lines content))
