-- ===== src/Cache/Shards/Budget.antt =====
-- core/cache/cache.cpp: every operation on a shard keeps its accounting.
use dnsentinal.Common.{
  ℕ, ◌+◌, ◌<◌, ◌^◌, ◌%◌, ◌≡◌, refl, ap, ◌∙◌, inl, inr, ◌&&◌, ◌∷◌, Option, none, some, leb, ltb,
  length, arith, Bool-cases, subst,
}
use mathlib.Core.Option.{some-injective}
use dnsentinal.Types.{rank}
use dnsentinal.Wire.ByteIo.{size_sub}
use dnsentinal.Cache.Entries.{CacheKey, CacheEntry}
use dnsentinal.Cache.Shards.{
  Node, Shard, find, remove, read_node, shard_lookup, replace_node, write_node, shard_insert,
  evict_node, shard_evict,
}
use dnsentinal.Cache.Shards.Keys.{
  find-key, total-remove, AllWithin-remove, Distinct-remove, find_congr, find-remove_self,
}
use dnsentinal.Cache.Shards.Trim.{IsBudgeted, trim-IsBudgeted}

module _ (budget : ℕ) (small : budget < 2 ^ 63) (s : Shard) (v : IsBudgeted budget s) where
  removed-IsBudgeted :
      (key : CacheKey) (n : Node)
      → find key s.lru ≡ some n
      → IsBudgeted budget (record { lru = remove key s.lru; bytes = size_sub s.bytes n.bytes })
  removed-IsBudgeted key n found =
      let less = total-remove key s.lru found in
      record {
        counted = record {
          exact = omega (arith, v.counted.exact, v.within, less);
          each = AllWithin-remove budget key s.lru v.counted.each;
          distinct = Distinct-remove key s.lru v.counted.distinct;
        };
        within = omega (arith, v.counted.exact, v.within, less);
      }

  -- What was found under a key is found under its own key.
  found_self : (key : CacheKey) (n : Node) → find key s.lru ≡ some n → find n.key s.lru ≡ some n
  found_self key n found = find_congr n.key key s.lru (find-key key s.lru found) ∙ found

  moved_distinct :
      (key : CacheKey) (n : Node) → find key s.lru ≡ some n → find n.key (remove key s.lru) ≡ none
  moved_distinct key n found =
      find_congr n.key key (remove key s.lru) (find-key key s.lru found)
      ∙ find-remove_self key s.lru v.counted.distinct

  read_node-IsBudgeted :
      (key : CacheKey) (now : ℕ) (o : Option Node) {e : CacheEntry} {s' : Shard}
      → find key s.lru ≡ o
      → read_node s key now o ≡ some (e, s')
      → IsBudgeted budget s'
  unfolding read_node
  read_node-IsBudgeted key now none found h = absurd (cc)
  read_node-IsBudgeted key now (some n) {e} {s'} found h =
      let rest = removed-IsBudgeted key n found in
      let used : CacheEntry = record n.entry { hit_count = (n.entry.hit_count + 1) % 2 ^ 64 } in
      let front : Shard = record s { lru = record n { entry = used } ∷ remove key s.lru } in
      elim (Bool-cases (leb n.entry.expires_at now)) [
        | inl expired ↦ absurd (ground arith)
        | inr live ↦
            let same : (used, front) ≡ (e, s') = some-injective _ _ (rw live at h) in
            subst (IsBudgeted budget) (ap (λ (p : CacheEntry × Shard). p.1) same) (record {
              counted = record {
                exact = omega (arith, v.counted.exact, total-remove key s.lru found);
                each = (
                  omega (arith, v.counted.exact, v.within, total-remove key s.lru found),
                  rest.counted.each,
                );
                distinct = (moved_distinct key n found, rest.counted.distinct);
              };
              within = v.within;
            })
      ]

  evict_node-IsBudgeted :
      (key : CacheKey) (o : Option Node) → find key s.lru ≡ o → IsBudgeted budget (evict_node s o)
  unfolding evict_node
  evict_node-IsBudgeted key none found = v
  evict_node-IsBudgeted key (some n) found = removed-IsBudgeted n.key n (found_self key n found)

  replace_node-IsBudgeted :
      (n : Node) (key : CacheKey) (e : CacheEntry) (bytes now : ℕ)
      → find key s.lru ≡ some n
      → IsBudgeted budget (replace_node budget s n key e bytes now)
  unfolding replace_node
  replace_node-IsBudgeted n key e bytes now found =
      let rest = removed-IsBudgeted key n found in
      let s' : Shard = record {
        lru = record { key = n.key; entry = e; bytes = bytes } ∷ remove key s.lru;
        bytes = size_sub s.bytes n.bytes + bytes;
      } in
      elim (Bool-cases (ltb now n.entry.expires_at && ltb (rank e.trust) (rank n.entry.trust))) [
        | inl kept ↦ rw (kept, replace_node) v
        | inr replaced ↦ elim (Bool-cases (ltb budget bytes)) [
          | inl large ↦
              rw (replaced, large, replace_node)
                (removed-IsBudgeted n.key n (found_self key n found))
          | inr fits ↦
              rw (replaced, fits, replace_node)
                (trim-IsBudgeted budget (length s'.lru) s'
                  (record {
                    exact = omega (arith, rest.counted.exact);
                    each = (ground arith, rest.counted.each);
                    distinct = (moved_distinct key n found, rest.counted.distinct);
                  })
                  (ground (arith, rest.within)) (omega arith))
        ]
      ]

  write_node-IsBudgeted :
      (key : CacheKey) (e : CacheEntry) (bytes now : ℕ) (o : Option Node)
      → find key s.lru ≡ o
      → IsBudgeted budget (write_node budget s key e bytes now o)
  unfolding write_node
  write_node-IsBudgeted key e bytes now (some n) found =
      replace_node-IsBudgeted n key e bytes now found
  write_node-IsBudgeted key e bytes now none found =
      let s' : Shard = record {
        lru = record { key = key; entry = e; bytes = bytes } ∷ s.lru;
        bytes = s.bytes + bytes;
      } in
      elim (Bool-cases (ltb budget bytes)) [
        | inl large ↦ rw (large, write_node) v
        | inr fits ↦
            rw (fits, write_node)
              (trim-IsBudgeted budget (length s'.lru) s'
                (record {
                  exact = omega (arith, v.counted.exact);
                  each = (ground arith, v.counted.each);
                  distinct = (found, v.counted.distinct);
                })
                (ground (arith, v.within)) (omega arith))
      ]

  -- Every operation on a shard keeps its byte count exact and within the budget, each of its
  -- nodes within the budget, and its keys distinct.
  pub shard_IsBudgeted :
      (key : CacheKey)
      → ((now : ℕ) (e : CacheEntry) (s' : Shard)
          → shard_lookup s key now ≡ some (e, s')
          → IsBudgeted budget s')
        × ((e : CacheEntry) (bytes now : ℕ)
            → IsBudgeted budget (shard_insert budget s key e bytes now))
        × IsBudgeted budget (shard_evict s key)
  unfolding shard_lookup shard_insert shard_evict
  shard_IsBudgeted key = (
    λ now e s' h. read_node-IsBudgeted key now (find key s.lru) refl h,
    λ e bytes now. write_node-IsBudgeted key e bytes now (find key s.lru) refl,
    evict_node-IsBudgeted key (find key s.lru) refl,
  )
