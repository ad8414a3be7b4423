-- ===== src/Cache/History.antt =====
-- core/cache/cache.cpp: any sequence of calls on a cache.
use dnsentinal.Common.{
  ℕ, ◌≤◌, ◌<◌, ◌≡◌, refl, subst, ◌∙◌, Option, none, some, arith, ◌^◌, Bool, List, [], ◌∷◌,
}
use dnsentinal.Types.{Rr, TrustRank}
use dnsentinal.Cache.Entries.{CacheKey, CacheEntry, CacheConfig, Layout}
use dnsentinal.Cache.Invariant.{
  IsValid, init-IsValid, lookup-IsValid, insert-IsValid, evict-IsValid, flush-IsValid,
  memory_used-le,
}
use dnsentinal.Cache.Shards.{Shard, shard_lookup}
use dnsentinal.Cache.{
  Cache, init, shard_of, finish_lookup, lookup, insert, evict, flush, memory_used,
}

-- A call, with the time at which it reads the clock.
pub data Call : Type 0 where
  lookups : CacheKey → ℕ → Call
  inserts : CacheKey → List Rr → TrustRank → ℕ → Bool → ℕ → Call
  evicts : CacheKey → Call
  flushes : Call

finish_lookup-config :
    (c : Cache) (key : CacheKey) (now : ℕ) (o : Option (CacheEntry × Shard))
    → (finish_lookup c key now o).0.config ≡ c.config
unfolding finish_lookup
finish_lookup-config c key now none = refl
finish_lookup-config c key now (some (e, s)) = refl

init-config : (config : CacheConfig) → (init config).config ≡ config
unfolding init
init-config config = refl

module _ (layout : Layout) where
  pub step : Cache → Call → Cache
  step c (lookups key now) = (lookup c key now).0
  step c (inserts key records trust ttl negative now) =
      insert layout c key records trust ttl negative now
  step c (evicts key) = evict c key
  step c flushes = flush c

  pub run : Cache → List Call → Cache
  run c [] = c
  run c (call ∷ calls) = run (step c call) calls

  step-IsValid : (c : Cache) (call : Call) → IsValid c → IsValid (step c call)
  unfolding step
  step-IsValid c (lookups key now) v = lookup-IsValid c v key now
  step-IsValid c (inserts key records trust ttl negative now) v =
      insert-IsValid c v key layout records trust ttl negative now
  step-IsValid c (evicts key) v = evict-IsValid c v key
  step-IsValid c flushes v = flush-IsValid c v

  run-IsValid : (c : Cache) (calls : List Call) → IsValid c → IsValid (run c calls)
  unfolding run
  run-IsValid c [] v = v
  run-IsValid c (call ∷ calls) v = run-IsValid (step c call) calls (step-IsValid c call v)

  step-config : (c : Cache) (call : Call) → (step c call).config ≡ c.config
  unfolding step lookup insert evict flush
  step-config c (lookups key now) =
      finish_lookup-config c key now (shard_lookup (shard_of c key) key now)
  step-config c (inserts key records trust ttl negative now) = ground arith
  step-config c (evicts key) = refl
  step-config c flushes = refl

  run-config : (c : Cache) (calls : List Call) → (run c calls).config ≡ c.config
  unfolding run
  run-config c [] = refl
  run-config c (call ∷ calls) = run-config (step c call) calls ∙ step-config c call

  -- Whatever is called on a new cache, in whatever order and at whatever times, each shard's
  -- byte count stays the sum over its nodes, no key stands twice in a shard, and the memory in
  -- use never exceeds `max_memory_bytes` (itself below 2^63).
  pub run-init_memory :
      (config : CacheConfig) (calls : List Call)
      → config.max_memory_bytes < 2 ^ 63
      → IsValid (run (init config) calls)
        × (memory_used (run (init config) calls) ≤ config.max_memory_bytes)
  run-init_memory config calls h =
      let v = run-IsValid (init config) calls (init-IsValid config h) in
      let kept = run-config (init config) calls in
      (
        v,
        subst (λ (k : CacheConfig). memory_used (run (init config) calls) ≤ k.max_memory_bytes)
            (kept ∙ init-config config) (memory_used-le (run (init config) calls) v),
      )
