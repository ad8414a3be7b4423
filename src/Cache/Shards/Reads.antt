-- ===== src/Cache/Shards/Reads.antt =====
-- core/cache/cache.cpp: what a lookup in one shard finds after an insert, and the order of eviction.
use dnsentinal.Common.{
  ℕ, zero, suc, ◌+◌, ◌≤◌, ◌<◌, ◌^◌, ◌%◌, ◌≡◌, refl, sym, ap, ◌∙◌, inl, inr, false, ◌&&◌, List, [],
  ◌∷◌, ◌++◌, Option, none, some, ltb, length, arith, Bool-cases, append-nil, append_assoc, le→ltb,
}
use dnsentinal.Types.{rank}
use dnsentinal.Cache.Entries.{CacheKey, CacheEntry}
use dnsentinal.Cache.Shards.Keys.{SameKey, find-key, key_eq_iff}
use dnsentinal.Cache.Shards.{
  Node, Shard, find, remove, read_node, shard_lookup, last_node, before_last, erase_last, trim,
  replace_node, write_node, shard_insert,
}

-- `ns` is `ms` without some nodes at the end, and still has the first one.
abbrev pub KeepsFront : List Node → List Node → Type 0
KeepsFront ns [] = ns ≡ []
KeepsFront ns (m ∷ ms) =
    (kept : List Node) × (gone : List Node) × (ns ≡ m ∷ kept) × (ms ≡ kept ++ gone)

before_last-split : (n : Node) (ns : List Node) → n ∷ ns ≡ before_last n ns ++ last_node n ns ∷ []
unfolding before_last last_node
before_last-split n [] = refl
before_last-split n (m ∷ ms) = ap (◌∷◌ n) (before_last-split m ms)

erased :
    (s : Shard) (n m : Node) (ms : List Node)
    → s.lru ≡ n ∷ m ∷ ms
    → (erase_last s.lru s).lru ≡ n ∷ before_last m ms
unfolding erase_last before_last
erased s n m ms e = rw (e, erase_last)

-- What may not be replaced: live data of a higher rank.
abbrev pub Outranks : Option Node → CacheEntry → ℕ → Type 0
Outranks none e now = ⊥
Outranks (some n) e now = (now < n.entry.expires_at) × (rank e.trust < rank n.entry.trust)

module _ (budget : ℕ) where
  -- Evicting takes nodes from the end of the list, the least recently used ones, and keeps the first
  -- node of a list that has one.
  pub trim-KeepsFront :
      (fuel : ℕ) (s : Shard) (n : Node) (ns : List Node)
      → s.lru ≡ n ∷ ns
      → KeepsFront (trim budget fuel s).lru (n ∷ ns)
  unfolding trim
  trim-KeepsFront zero s n ns e = (ns, [], e, sym (append-nil ns))
  trim-KeepsFront (suc fuel) s n [] e = ([], [], ground (arith, e), refl)
  trim-KeepsFront (suc fuel) s n (m ∷ ms) e =
      elim (Bool-cases (ltb budget s.bytes && ltb 1 (length s.lru))) [
        | inr stop ↦ rw (stop, trim) (m ∷ ms, [], e, sym (append-nil (m ∷ ms)))
        | inl go ↦
            let (kept, gone, p, q) =
              trim-KeepsFront fuel (erase_last s.lru s) n (before_last m ms) (erased s n m ms e) in
            rw (go, trim)
              (
                kept,
                gone ++ last_node m ms ∷ [],
                p,
                before_last-split m ms
                    ∙ ap (λ t. t ++ last_node m ms ∷ []) q
                    ∙ append_assoc kept gone (last_node m ms ∷ []),
              )
      ]

  -- A node of the key stands in front, with this entry.
  abbrev Front : CacheKey → CacheEntry → Shard → Type 0
  Front key e s =
      (n : Node) × (ns : List Node) × (s.lru ≡ n ∷ ns) × SameKey n.key key × (n.entry ≡ e)

  trim-Front :
      (key : CacheKey) (e : CacheEntry) (s : Shard) (n : Node) (ns : List Node)
      → s.lru ≡ n ∷ ns
      → SameKey n.key key
      → n.entry ≡ e
      → Front key e (trim budget (length s.lru) s)
  trim-Front key e s n ns h same entry =
      let (kept, gone, p, q) = trim-KeepsFront (length s.lru) s n ns h in (n, kept, p, same, entry)

  write_node-Front :
      (s : Shard) (key : CacheKey) (e : CacheEntry) (bytes now : ℕ) (o : Option Node)
      → find key s.lru ≡ o
      → bytes ≤ budget
      → ¬ Outranks o e now
      → Front key e (write_node budget s key e bytes now o)
  unfolding write_node replace_node
  write_node-Front s key e bytes now none found fits free =
      rw (le→ltb budget bytes fits, write_node)
        (trim-Front key e _ _ s.lru refl (refl, refl, refl) refl)
  write_node-Front s key e bytes now (some n) found fits free =
      let open_to : (ltb now n.entry.expires_at && ltb (rank e.trust) (rank n.entry.trust))
          ≡ false =
        ground arith in
      rw (open_to, le→ltb budget bytes fits, replace_node)
        (trim-Front key e _ _ (remove key s.lru) refl (find-key key s.lru found) refl)

  find-Front :
      (key : CacheKey) (ms : List Node) (n : Node) (ns : List Node)
      → ms ≡ n ∷ ns
      → SameKey n.key key
      → find key ms ≡ some n
  unfolding find
  find-Front key ms n ns p same = rw (p, find) (ground (arith, key_eq_iff n.key key))

  read_node-live :
      (s : Shard) (key : CacheKey) (now : ℕ) (n : Node)
      → now < n.entry.expires_at
      → (s' : Shard) × (read_node s key now (some n)
          ≡ some (record n.entry { hit_count = (n.entry.hit_count + 1) % 2 ^ 64 }, s'))
  unfolding read_node
  read_node-live s key now n live =
      let used : CacheEntry = record n.entry { hit_count = (n.entry.hit_count + 1) % 2 ^ 64 } in
      (record s { lru = record n { entry = used } ∷ remove key s.lru }, ground arith)

  lookup-Front :
      (key : CacheKey) (e : CacheEntry) (s : Shard) (now : ℕ)
      → Front key e s
      → now < e.expires_at
      → (s' : Shard) × (shard_lookup s key now
          ≡ some (record e { hit_count = (e.hit_count + 1) % 2 ^ 64 }, s'))
  unfolding shard_lookup
  lookup-Front key e s now (n, ns, p, same, q) live =
      let (s', read) = read_node-live s key now n (ground arith) in
      (
        s',
        ap (read_node s key now) (find-Front key s.lru n ns p same)
            ∙ read
            ∙ ap
                (λ (x : CacheEntry). some (record x { hit_count = (x.hit_count + 1) % 2 ^ 64 }, s'))
                q,
      )

  -- After an insert that fits the budget and replaces no live data of higher rank, a lookup of
  -- the key before the entry expires finds that entry.
  pub shard_lookup-shard_insert :
      (s : Shard) (key : CacheKey) (e : CacheEntry) (bytes now later : ℕ)
      → bytes ≤ budget
      → ¬ Outranks (find key s.lru) e now
      → later < e.expires_at
      → (s' : Shard) × (shard_lookup (shard_insert budget s key e bytes now) key later
          ≡ some (record e { hit_count = (e.hit_count + 1) % 2 ^ 64 }, s'))
  unfolding shard_insert
  shard_lookup-shard_insert s key e bytes now later fits free live =
      lookup-Front key e _ later
        (write_node-Front s key e bytes now (find key s.lru) refl fits free) live

  -- Live data of a higher rank is not touched by an insert.
  pub shard_insert_outranked :
      (s : Shard) (key : CacheKey) (e : CacheEntry) (bytes now : ℕ)
      → Outranks (find key s.lru) e now
      → shard_insert budget s key e bytes now ≡ s
  unfolding shard_insert
  shard_insert_outranked s key e bytes now h = by_node (find key s.lru) h
    where
      by_node : (o : Option Node) → Outranks o e now → write_node budget s key e bytes now o ≡ s
      by_node none h = absurd h
      by_node (some n) h = unfold write_node replace_node in ground arith

-- An entry whose time has come is not found.
pub shard_lookup_expired :
    (s : Shard) (key : CacheKey) (now : ℕ) (n : Node)
    → find key s.lru ≡ some n
    → n.entry.expires_at ≤ now
    → shard_lookup s key now ≡ none
unfolding shard_lookup read_node
shard_lookup_expired s key now n found old = rw found (ground arith)
