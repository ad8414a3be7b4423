-- ===== src/Policy/BlocklistTrie/Loading.antt =====
-- core/policy/blocklist_trie.cpp: what the rules of a list file are.
use mathlib.Core.List.{reverse, reverse-cons}
use dnsentinal.Common.{
  ℕ, ◌≡◌, ◌≢◌, refl, sym, ap, subst, ◌∙◌, Bool, true, false, List, [], ◌∷◌, ◌++◌, Option, none,
  some, All, All-append, Option-cases, Bool-cases, inl, inr, arith, ◌⊎◌,
}
use mathlib.Core.Option.{some-injective}
use dnsentinal.Types.{Bytes, Name}
use dnsentinal.Name.Text.{from_string}
use dnsentinal.Policy.BlocklistTrie.{
  Builder, Rule, ListAction, ListFileStats, loaded, key_of, add, add_name, add_names, usable,
  below_root, unlabelled, is_empty, load_lines, load_file, lines, skip_if, read_line,
}

loaded-injective : {A : Type 0} {x y : A} → loaded x ≡ loaded y → x ≡ y
loaded-injective e = cc e

-- A rule for the root would match every name.
abbrev pub NonRoot : Builder → Type 0
NonRoot b = All (λ (r : Rule). r.key ≢ []) b.rules

key_of-snoc : (xs : List Bytes) (l : Bytes) → key_of (xs ++ l ∷ []) ≢ []
unfolding key_of
key_of-snoc [] l e = cc e
key_of-snoc (x ∷ xs) l e = cc e

key_of-reverse : (l : Bytes) (ls : List Bytes) → key_of (reverse (l ∷ ls)) ≢ []
key_of-reverse l ls e = key_of-snoc (reverse ls) l (ap key_of (sym (reverse-cons l ls)) ∙ e)

unlabelled-cons :
    (xs : List Bytes) → unlabelled xs ≡ false → (l : Bytes) × (ls : List Bytes) × (xs ≡ l ∷ ls)
unlabelled-cons [] h = absurd (cc h)
unlabelled-cons (l ∷ ls) h = (l, ls, refl)

below_root-labels :
    (o : Option Name) (n : Name)
    → below_root o ≡ some n
    → (l : Bytes) × (ls : List Bytes) × (n.labels ≡ l ∷ ls)
unfolding below_root
below_root-labels none n h = absurd (cc h)
below_root-labels (some m) n h = elim (Bool-cases (unlabelled m.labels)) [
  | inl e ↦ absurd (ground (arith, e, h))
  | inr e ↦
      let known : some m ≡ some n = rw e at h in
      let (l, ls, same) = unlabelled-cons m.labels e in
      (l, ls, cc (ap (λ (x : Name). x.labels) (some-injective m n known), same))
]

-- A name that is taken has a label.
usable-labels :
    (text : Bytes) (n : Name)
    → usable text ≡ some n
    → (l : Bytes) × (ls : List Bytes) × (n.labels ≡ l ∷ ls)
unfolding usable
usable-labels text n h = elim (Bool-cases (is_empty text)) [
  | inl e ↦ absurd (ground (arith, e, h))
  | inr e ↦ below_root-labels (from_string text) n (rw e at h)
]

add-NonRoot :
    (b : Builder) (n : Name) (action : ListAction) (source : Bytes) (below : Bool) (l : Bytes)
    (ls : List Bytes)
    → n.labels ≡ l ∷ ls
    → NonRoot b
    → NonRoot (add b n action source below)
unfolding add
add-NonRoot b n action source below l ls e h =
    All-append _ b.rules _ h
      ((λ z. key_of-reverse l ls (sym (ap (λ x. key_of (reverse x)) e) ∙ z)), tt)

abbrev Clean : Builder × ListFileStats → Type 0
Clean state = NonRoot state.0

add_name-Clean :
    (path : Bytes) (action : ListAction) (state : Builder × ListFileStats) (text : Bytes)
    → Clean state
    → Clean (add_name path action state (usable text))
unfolding add_name
add_name-Clean path action (b, stats) text h = elim (Option-cases (usable text)) [
  | inl e ↦ rw (e, add_name) h
  | inr (n, e) ↦
      let (l, ls, labels) = usable-labels text n e in
      rw (e, add_name) (add-NonRoot b n action path true l ls labels h)
]

add_names-Clean :
    (path : Bytes) (action : ListAction) (state : Builder × ListFileStats) (texts : List Bytes)
    → Clean state
    → Clean (add_names path action state texts)
unfolding add_names
add_names-Clean path action state [] h = h
add_names-Clean path action state (text ∷ rest) h =
    add_names-Clean path action (add_name path action state (usable text)) rest
      (add_name-Clean path action state text h)

load_lines-Clean :
    (is_address : Bytes → Bool) (path : Bytes) (action : ListAction)
    (state : Builder × ListFileStats) (raws : List Bytes)
    → Clean state
    → Clean (load_lines is_address path action state raws)
unfolding load_lines
load_lines-Clean is_address path action state [] h = h
load_lines-Clean is_address path action state (raw ∷ rest) h =
    let (names, skipped) = read_line is_address raw in
    load_lines-Clean is_address path action (add_names path action (skip_if skipped state) names)
      rest (add_names-Clean path action (skip_if skipped state) names h)

-- Whatever a list file holds, loading it adds no rule for the root, which would match every name.
pub load_file-NonRoot :
    (is_address : Bytes → Bool) (b after : Builder) (stats : ListFileStats) (path : Bytes)
    (action : ListAction) (file : Bytes ⊎ ℕ)
    → NonRoot b
    → load_file is_address b path action file ≡ loaded (after, stats)
    → NonRoot after
unfolding load_file
load_file-NonRoot is_address b after stats path action (inr errno) h e = absurd (cc e)
load_file-NonRoot is_address b after stats path action (inl content) h e =
    let start : ListFileStats = record { rules = 0; skipped = 0 } in
    let clean = load_lines-Clean is_address path action (b, start) (lines content) h in
    subst Clean (loaded-injective e) clean
