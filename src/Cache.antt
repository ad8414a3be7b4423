-- ===== src/Cache.antt =====
-- core/cache/cache.cpp and core/include/dnsentinel/cache/cache.h: the sharded LRU cache. A point in
-- time is its nanoseconds since the clock's epoch; the clock is read once in each call, and
-- its value `now` is an argument. A call holds its shard's lock throughout, so that calls on one
-- shard follow one another.
pub mod Entries
pub mod Shards
pub mod Invariant
pub mod History
pub mod Reads
use Prim.Native.Nat.{bit_xor}
use dnsentinal.Common.{
  ℕ, zero, suc, ◌+◌, ◌-◌, ◌*◌, ◌/◌, ◌%◌, ◌^◌, min, max, Bool, true, false, List, [], ◌∷◌, map,
  Option, none, some, leb, ltb, ◌==◌, if◌then◌else◌, length, get_or, set, replicate,
}
use dnsentinal.Types.{Name, Rr, TrustRank}
use dnsentinal.Name.{hash}
use Entries.{CacheKey, CacheEntry, CacheConfig, LookupResult, Layout, entry_bytes}
use Shards.{Shard, empty_shard, shard_lookup, shard_insert, shard_evict}

pub record Cache : Type 0 where
  pub shards : List Shard
  pub config : CacheConfig
  pub shard_budget : ℕ
  pub hits : ℕ
  pub misses : ℕ

abbrev pub nanos : ℕ → ℕ
nanos seconds = seconds * 10 ^ 9

unfoldable pub init : CacheConfig → Cache
init config =
    let n = max config.num_shards 1 in
    record {
      shards = replicate n empty_shard;
      config = config;
      shard_budget = config.max_memory_bytes / n;
      hits = 0;
      misses = 0;
    }

-- `KeyHash`; the class fits the low 16 bits, so that `|` is a sum.
unfoldable pub key_hash : CacheKey → ℕ
key_hash k =
    let h = hash k.name in
    bit_xor h
      ((k.qtype * 2 ^ 16 + k.qclass + 0x9e3779b97f4a7c15 + h * 2 ^ 6 % 2 ^ 64 + h / 2 ^ 2) % 2 ^ 64)

-- High bits pick the shard.
unfoldable pub shard_for : Cache → CacheKey → ℕ
shard_for c key = key_hash key / 2 ^ 32 % length c.shards

abbrev pub shard_of : Cache → CacheKey → Shard
shard_of c key = get_or c.shards (shard_for c key) empty_shard

abbrev with_shard : Cache → CacheKey → Shard → Cache
with_shard c key s = record c { shards = set c.shards (shard_for c key) s }

-- The time that is left, as each record's TTL.
unfoldable pub with_remaining : ℕ → CacheEntry → CacheEntry
with_remaining now e = record e {
  records = map {A = Rr} (λ r. record r { ttl = (e.expires_at - now) / 10 ^ 9 % 2 ^ 32 }) e.records;
}

abbrev pub result_of : Option CacheEntry → LookupResult
result_of e = record { entry = e; is_stale = false; needs_prefetch = false }

unfoldable pub finish_lookup :
    Cache → CacheKey → ℕ → Option (CacheEntry × Shard) → Cache × LookupResult
unfolding with_remaining
finish_lookup c key now none = (record c { misses = (c.misses + 1) % 2 ^ 64 }, result_of none)
finish_lookup c key now (some (e, s)) = (
  record (with_shard c key s) { hits = (c.hits + 1) % 2 ^ 64 },
  result_of (some (with_remaining now e)),
)

unfoldable pub lookup : Cache → CacheKey → ℕ → Cache × LookupResult
unfolding finish_lookup
lookup c key now = finish_lookup c key now (shard_lookup (shard_of c key) key now)

unfoldable pub effective_ttl : CacheConfig → ℕ → ℕ
effective_ttl config ttl = min (max ttl config.min_ttl) config.max_ttl

module _ (layout : Layout) where
  unfoldable pub insert : Cache → CacheKey → List Rr → TrustRank → ℕ → Bool → ℕ → Cache
  insert c key records trust ttl negative now =
      let effective = effective_ttl c.config ttl in
      let entry : CacheEntry = record {
        records = records;
        trust = trust;
        expires_at = now + nanos effective;
        inserted_at = now;
        hit_count = 0;
        is_negative = negative;
      } in
      if effective == 0
      then c
      else with_shard c key (
          shard_insert c.shard_budget (shard_of c key) key entry (entry_bytes layout key entry) now)

unfoldable pub evict : Cache → CacheKey → Cache
evict c key = with_shard c key (shard_evict (shard_of c key) key)

unfoldable pub flush : Cache → Cache
flush c = record c { shards = map (λ s. empty_shard) c.shards }

unfoldable pub sum_over : (Shard → ℕ) → List Shard → ℕ
sum_over f [] = 0
sum_over f (s ∷ ss) = f s + sum_over f ss

unfoldable pub size : Cache → ℕ
unfolding sum_over
size c = sum_over (λ s. length s.lru) c.shards

unfoldable pub memory_used : Cache → ℕ
unfolding sum_over
memory_used c = sum_over (λ s. s.bytes) c.shards
