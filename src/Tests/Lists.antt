-- ===== src/Tests/Lists.antt =====
-- Block lists: loading, building, looking up.
use mathlib.Core.List.{reverse}
use dnsentinal.Common.{
  ◌≡◌, refl, Bool, true, false, List, [], ◌∷◌, ◌++◌, none, arith, inl, inr, ◌↔◌, list_eq,
}
use dnsentinal.Types.{Bytes, bytes_eq}
use dnsentinal.Policy.BlocklistTrie.{
  BlocklistTrie, block, allow, Builder, new_builder, loaded, load_file, Rule, no_flags, empty_trie,
  load_lines, read_line, trim, up_to, split_fields, line_names, is_ip_address, unwrap_domain,
  add_names, add_name, usable, below_root, add, source_id, is_hosts_boilerplate, sort_rules,
  insert_rule, bytes_less, work_off, work_on, mark_all, mark, add_children, span_part, add_child,
  intern, interned_at, count_rules, walk, meet, child, lower_bound, labels_less, label_of, report,
  rule_text, trim_front, trim_back, fields_from, plain, build, lookup, lines, key_of, Node,
  new_node, matched,
}
use dnsentinal.Policy.BlocklistTrie.Deepest.{lookup-verdict, verdict, path}
use dnsentinal.Policy.BlocklistTrie.Keys.{key_of_iff}
use dnsentinal.Policy.BlocklistTrie.Loading.{load_file-NonRoot, NonRoot}
use dnsentinal.Policy.Blocklists.{ListsConfig, Files, new_blocklists}
use dnsentinal.Policy.Blocklists.Reloads.{
  Event, loads, starts, collects, worker_done, promised_all, run, idle,
}
use dnsentinal.Policy.Blocklists.Refinement.{run-promised_all, abstract_of}
use dnsentinal.Name.{append_label, lower, ascii_lower}
use dnsentinal.Name.Text.{
  from_string, to_string, to_text, scan, consume, push_char, finish_label, print_labels,
  print_label, print_byte,
}
use dnsentinal.Tests.Samples.{www_net, net, www}

-- `*.net`, a comment, and `www.net` with a newline.
abbrev feed : Bytes
feed =
    b'*' ∷ b'.' ∷ b'n' ∷ b'e' ∷ b't' ∷ b' ' ∷ b'#' ∷ b'x' ∷ b'\n' ∷ b'!' ∷ b'\n' ∷ b'w' ∷ b'w'
    ∷ b'w' ∷ b'.' ∷ b'n' ∷ b'e' ∷ b't' ∷ b'\n' ∷ []

abbrev never : Bytes → Bool
never text = false

abbrev source : Bytes
source = b'f' ∷ []

abbrev rule_net : Rule
rule_net = record { key = 3 ∷ net; flags = record no_flags { block_subtree = true }; source = 0 }

abbrev rule_www_net : Rule
rule_www_net = record rule_net { key = 3 ∷ net ++ 3 ∷ www }

abbrev two_rules : Builder
two_rules = record { rules = rule_net ∷ rule_www_net ∷ []; sources = source ∷ [] }

load_feed :
    load_file never new_builder source block (inl feed)
    ≡ loaded (two_rules, record { rules = 2; skipped = 0 })
unfolding load_file lines load_lines read_line trim trim_front trim_back up_to split_fields
    fields_from line_names is_ip_address unwrap_domain plain add_names add_name usable below_root
    from_string add source_id key_of bytes_eq list_eq is_hosts_boilerplate scan consume push_char
    finish_label append_label lower
load_feed = refl

load_file-NonRoot_example : NonRoot two_rules
load_file-NonRoot_example =
    load_file-NonRoot never new_builder two_rules (record { rules = 2; skipped = 0 }) source block
      (inl feed) tt load_feed

-- The rule for `www.net` allows.
abbrev mixed : Builder
mixed = record two_rules {
  rules = record rule_www_net { flags = record no_flags { allow_exact = true } } ∷ rule_net ∷ [];
}

abbrev top : Node
top = record new_node { first_child = 1; child_count = 1 }

abbrev node_net : Node
node_net = record new_node {
  label_length = 3;
  flags = record no_flags { block_subtree = true };
  first_child = 2;
  child_count = 1;
}

abbrev node_www_net : Node
node_www_net = record new_node {
  label_offset = 3;
  label_length = 3;
  flags = record no_flags { allow_exact = true };
  first_child = 3;
}

abbrev mixed_trie : BlocklistTrie
mixed_trie = record {
  nodes = top ∷ node_net ∷ node_www_net ∷ [];
  labels = net ++ www;
  sources = source ∷ [];
  rule_count = 2;
}

build-mixed : build mixed ≡ mixed_trie
unfolding build sort_rules insert_rule bytes_less work_off work_on mark_all mark add_children
    span_part add_child intern interned_at bytes_eq list_eq count_rules
build-mixed = refl

allowed_www_net :
    lookup mixed_trie www_net
    ≡ matched (record { action = allow; rule = www ++ b'.' ∷ net ++ b'.' ∷ []; source = source })
unfolding lookup walk meet child lower_bound labels_less label_of bytes_less bytes_eq list_eq report
    rule_text append_label lower ascii_lower to_string to_text print_labels print_label print_byte
allowed_www_net = refl

lookup-verdict_example :
    lookup mixed_trie www_net
    ≡ verdict mixed_trie www_net (path mixed_trie 0 top (reverse www_net.labels))
lookup-verdict_example = lookup-verdict mixed_trie www_net top (node_net ∷ node_www_net ∷ []) refl

key_of_iff_example :
    ((rest : Bytes) × (key_of (net ∷ []) ++ rest ≡ key_of (net ∷ www ∷ [])))
    ↔ ((below : List Bytes) × (◌≡◌ {A = List Bytes} (net ∷ www ∷ []) ((net ∷ []) ++ below)))
key_of_iff_example =
    key_of_iff (net ∷ []) (net ∷ www ∷ []) (omega arith, tt) (omega arith, (omega arith, tt))

-- A file that is there, and one that is not.
abbrev present : Files
present = record { stat = λ name. none; open_file = λ name. inl feed }

abbrev missing : Files
missing = record { stat = λ name. none; open_file = λ name. inr 2 }

abbrev one_list : ListsConfig
one_list = record {
  blocklists = source ∷ [];
  allowlists = [];
  block_ttl = 60;
  check_cname_chain = true;
  reload_check_seconds = 60;
}

abbrev reloads : List Event
reloads =
    loads present
    ∷ starts
    ∷ starts
    ∷ collects
    ∷ worker_done missing (λ name. false)
    ∷ collects
    ∷ collects
    ∷ []

run-promised_all_example :
    let (last, outputs) = run never (new_blocklists one_list) reloads in
    let (promise, expected) =
      promised_all never one_list (record { lists = empty_trie; phase = idle }) reloads in
    (abstract_of last ≡ promise) × (outputs ≡ expected)
run-promised_all_example = run-promised_all never one_list reloads
