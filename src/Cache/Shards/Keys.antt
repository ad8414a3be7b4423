-- ===== src/Cache/Shards/Keys.antt =====
-- core/cache/cache.cpp: the keys of one shard, and taking one out of its list.
use dnsentinal.Common.{ℕ, ◌+◌, ◌≤◌, ◌≡◌, refl, ◌↔◌, true, List, [], ◌∷◌, none, some, arith}
use dnsentinal.Types.Equality.{name_eq_iff}
use dnsentinal.Cache.Entries.{CacheKey, key_eq}
use dnsentinal.Cache.Shards.{Node, find, remove}

-- Keys are compared by canonical labels, type and class.
abbrev pub SameKey : CacheKey → CacheKey → Type 0
SameKey a b = (a.name.labels ≡ b.name.labels) × (a.qtype ≡ b.qtype) × (a.qclass ≡ b.qclass)

pub key_eq_iff : (a b : CacheKey) → (key_eq a b ≡ true) ↔ SameKey a b
unfolding key_eq
key_eq_iff a b = ground (arith, name_eq_iff a.name b.name)

pub key_eq_congr : (a b c : CacheKey) → SameKey a b → key_eq c a ≡ key_eq c b
key_eq_congr a b c h = ground (arith, key_eq_iff c a, key_eq_iff c b)

pub find_congr : (a b : CacheKey) (ns : List Node) → SameKey a b → find a ns ≡ find b ns
unfolding find
find_congr a b [] h = refl
find_congr a b (n ∷ ns) h = ground (arith, key_eq_congr a b n.key h, find_congr a b ns h)

abbrev pub total : List Node → ℕ
total [] = 0
total (n ∷ ns) = n.bytes + total ns

abbrev pub AllWithin : ℕ → List Node → Type 0
AllWithin budget [] = Unit
AllWithin budget (n ∷ ns) = (n.bytes ≤ budget) × AllWithin budget ns

-- No key stands twice.
abbrev pub Distinct : List Node → Type 0
Distinct [] = Unit
Distinct (n ∷ ns) = (find n.key ns ≡ none) × Distinct ns

pub find-key :
    (key : CacheKey) (ns : List Node) {n : Node} → find key ns ≡ some n → SameKey n.key key
unfolding find
find-key key [] e = absurd (cc)
find-key key (m ∷ ns) {n} e = ground (arith, key_eq_iff m.key key, find-key key ns {n = n})

pub total-remove :
    (key : CacheKey) (ns : List Node) {n : Node}
    → find key ns ≡ some n
    → total (remove key ns) + n.bytes ≡ total ns
unfolding find remove
total-remove key [] e = absurd (cc)
total-remove key (m ∷ ns) {n} e = ground (arith, total-remove key ns {n = n})

pub AllWithin-remove :
    (budget : ℕ) (key : CacheKey) (ns : List Node)
    → AllWithin budget ns
    → AllWithin budget (remove key ns)
unfolding remove
AllWithin-remove budget key [] h = tt
AllWithin-remove budget key (m ∷ ns) h = ground (arith, AllWithin-remove budget key ns h.1)

-- Removing a key hides no other key, and brings none.
find-remove-none :
    (k key : CacheKey) (ns : List Node) → find k ns ≡ none → find k (remove key ns) ≡ none
unfolding find remove
find-remove-none k key [] h = refl
find-remove-none k key (m ∷ ns) h = ground (arith, find-remove-none k key ns)

pub Distinct-remove : (key : CacheKey) (ns : List Node) → Distinct ns → Distinct (remove key ns)
unfolding remove
Distinct-remove key [] h = tt
Distinct-remove key (m ∷ ns) h =
    ground (arith, Distinct-remove key ns h.1, find-remove-none m.key key ns h.0)

pub find-remove_self :
    (key : CacheKey) (ns : List Node) → Distinct ns → find key (remove key ns) ≡ none
unfolding find remove
find-remove_self key [] h = refl
find-remove_self key (m ∷ ns) h =
    ground (arith, find-remove_self key ns h.1, key_eq_iff m.key key, find_congr m.key key ns)
