-- ===== src/Cache/Invariant.antt =====
-- core/cache/cache.cpp: the whole cache, its memory bound and what a lookup returns.
use dnsentinal.Common.{
  ℕ, zero, suc, ◌*◌, ◌/◌, ◌^◌, ◌≤◌, ◌<◌, max, ◌≡◌, refl, ap, Bool, List, [], ◌∷◌, map, Option, none,
  some, ◌==◌, length, length-set, get_or, set, replicate, All, arith, Bool-cases, inl, inr,
}
use dnsentinal.Types.{Rr, TrustRank}
use dnsentinal.Cache.Entries.{CacheKey, CacheEntry, CacheConfig, Layout}
use dnsentinal.Cache.Shards.{Shard, empty_shard, shard_lookup}
use dnsentinal.Cache.Shards.Trim.{IsBudgeted}
use dnsentinal.Cache.Shards.Budget.{shard_IsBudgeted}
use dnsentinal.Cache.{
  Cache, init, shard_for, shard_of, finish_lookup, lookup, effective_ttl, insert, evict, flush,
  sum_over, memory_used,
}

-- The invariant of the cache.
pub record IsValid (c : Cache) : Type 0 where
  pub sharded : 0 < length c.shards
  pub small : c.shard_budget < 2 ^ 63
  pub split : c.shard_budget * length c.shards ≤ c.config.max_memory_bytes
  pub budgeted : All (IsBudgeted c.shard_budget) c.shards

module _ {ℓ κ} {A : Type ℓ} (P : A → Type κ) where
  All-get_or : (xs : List A) (i : ℕ) (d : A) → P d → All P xs → P (get_or xs i d)
  All-get_or [] i d h v = h
  All-get_or (x ∷ xs) zero d h v = v.0
  All-get_or (x ∷ xs) (suc i) d h v = All-get_or xs i d h v.1

  All-set : (xs : List A) (i : ℕ) (a : A) → P a → All P xs → All P (set xs i a)
  All-set [] i a h v = tt
  All-set (x ∷ xs) zero a h v = (h, v.1)
  All-set (x ∷ xs) (suc i) a h v = (v.0, All-set xs i a h v.1)

  All-replicate : (n : ℕ) (a : A) → P a → All P (replicate n a)
  All-replicate zero a h = tt
  All-replicate (suc n) a h = (h, All-replicate n a h)

module _ {ℓ} {A : Type ℓ} where
  length-replicate : (n : ℕ) (a : A) → length (replicate n a) ≡ n
  length-replicate zero a = refl
  length-replicate (suc n) a = ap suc (length-replicate n a)

  pub get_or-set : (xs : List A) (i : ℕ) (a d : A) → i < length xs → get_or (set xs i a) i d ≡ a
  get_or-set [] i a d h = absurd (omega arith)
  get_or-set (x ∷ xs) zero a d h = refl
  get_or-set (x ∷ xs) (suc i) a d h = get_or-set xs i a d (omega arith)

empty_shard-IsBudgeted : (budget : ℕ) → IsBudgeted budget empty_shard
empty_shard-IsBudgeted budget = record {
  counted = record { exact = refl; each = tt; distinct = tt };
  within = omega arith;
}

div-mul-le : (m n : ℕ) → m / n * n ≤ m
div-mul-le m n = grind arith

-- A new cache within 2^63 bytes satisfies the invariant.
pub init-IsValid : (config : CacheConfig) → config.max_memory_bytes < 2 ^ 63 → IsValid (init config)
unfolding init
init-IsValid config h =
    let n = max config.num_shards 1 in
    record {
      sharded = omega (arith, length-replicate n empty_shard);
      small = grind (arith, div-mul-le config.max_memory_bytes n);
      split = rw (length-replicate n empty_shard) (div-mul-le config.max_memory_bytes n);
      budgeted = All-replicate (IsBudgeted _) n empty_shard (empty_shard-IsBudgeted _);
    }

module _ (c : Cache) (v : IsValid c) (key : CacheKey) where
  shard_of-IsBudgeted : IsBudgeted c.shard_budget (shard_of c key)
  shard_of-IsBudgeted =
      All-get_or (IsBudgeted c.shard_budget) c.shards (shard_for c key) empty_shard
        (empty_shard-IsBudgeted c.shard_budget) v.budgeted

  with_shard-IsValid :
      (s : Shard) (hits misses : ℕ)
      → IsBudgeted c.shard_budget s
      → IsValid
          (record c { shards = set c.shards (shard_for c key) s; hits = hits; misses = misses })
  with_shard-IsValid s hits misses h = record {
    sharded = omega (arith, v.sharded, length-set c.shards (shard_for c key) s);
    small = v.small;
    split = rw (length-set c.shards (shard_for c key) s) v.split;
    budgeted = All-set (IsBudgeted c.shard_budget) c.shards (shard_for c key) s h v.budgeted;
  }

  finish_lookup-IsValid :
      (now : ℕ) (o : Option (CacheEntry × Shard))
      → shard_lookup (shard_of c key) key now ≡ o
      → IsValid (finish_lookup c key now o).0
  unfolding finish_lookup
  finish_lookup-IsValid now none e = record {
    sharded = v.sharded;
    small = v.small;
    split = v.split;
    budgeted = v.budgeted;
  }
  finish_lookup-IsValid now (some (entry, s)) e = with_shard-IsValid s _ _ (
      (shard_IsBudgeted c.shard_budget v.small (shard_of c key) shard_of-IsBudgeted key).0 now entry
        s e)

  pub insert-IsValid :
      (layout : Layout) (records : List Rr) (trust : TrustRank) (ttl : ℕ) (negative : Bool)
      (now : ℕ)
      → IsValid (insert layout c key records trust ttl negative now)
  unfolding insert
  insert-IsValid layout records trust ttl negative now =
      elim (Bool-cases (effective_ttl c.config ttl == 0)) [
        | inl uncached ↦ rw (uncached, insert) v
        | inr cached ↦
            rw (cached, insert)
              (with_shard-IsValid _ c.hits c.misses (
                (shard_IsBudgeted c.shard_budget v.small (shard_of c key) shard_of-IsBudgeted key).1
                  _ _ now))
      ]

  pub lookup-IsValid : (now : ℕ) → IsValid (lookup c key now).0
  unfolding lookup
  lookup-IsValid now = finish_lookup-IsValid now (shard_lookup (shard_of c key) key now) refl

  pub evict-IsValid : IsValid (evict c key)
  unfolding evict
  evict-IsValid =
      with_shard-IsValid _ c.hits c.misses
        (shard_IsBudgeted c.shard_budget v.small (shard_of c key) shard_of-IsBudgeted key).2

length-map_empty : (ss : List Shard) → length (map (λ s. empty_shard) ss) ≡ length ss
length-map_empty [] = refl
length-map_empty (s ∷ ss) = ap suc (length-map_empty ss)

All-map_empty : (budget : ℕ) (ss : List Shard) → All (IsBudgeted budget) (map (λ s. empty_shard) ss)
All-map_empty budget [] = tt
All-map_empty budget (s ∷ ss) = (empty_shard-IsBudgeted budget, All-map_empty budget ss)

pub flush-IsValid : (c : Cache) → IsValid c → IsValid (flush c)
unfolding flush
flush-IsValid c v = record {
  sharded = omega (arith, v.sharded, length-map_empty c.shards);
  small = v.small;
  split = rw (length-map_empty c.shards) v.split;
  budgeted = All-map_empty c.shard_budget c.shards;
}

sum_bytes-le :
    (budget : ℕ) (ss : List Shard)
    → All (IsBudgeted budget) ss
    → sum_over (λ s. s.bytes) ss ≤ budget * length ss
unfolding sum_over
sum_bytes-le budget [] v = omega arith
sum_bytes-le budget (s ∷ ss) v = grind (arith, v.0.within, sum_bytes-le budget ss v.1)

pub memory_used-le : (c : Cache) → IsValid c → memory_used c ≤ c.config.max_memory_bytes
unfolding memory_used
memory_used-le c v = omega (arith, v.split, sum_bytes-le c.shard_budget c.shards v.budgeted)
