-- ===== src/Cache/Reads.antt =====
-- core/cache/cache.cpp: what a lookup returns after an insert.
use dnsentinal.Common.{
  ℕ, ◌+◌, ◌-◌, ◌/◌, ◌%◌, ◌^◌, ◌≤◌, ◌<◌, ◌≡◌, ◌≢◌, refl, ap, ◌∙◌, Bool, List, map, some, ◌==◌,
  length, length-set, set, arith, Bool-cases, inl, inr, ==_iff,
}
use mathlib.Core.Option
use dnsentinal.Types.{Rr, TrustRank}
use dnsentinal.Cache.Entries.{CacheKey, CacheEntry, Layout, entry_bytes}
use dnsentinal.Cache.Invariant.{get_or-set}
use dnsentinal.Cache.Shards.{Shard, empty_shard, find, shard_insert}
use dnsentinal.Cache.Shards.Reads.{Outranks, shard_lookup-shard_insert}
use dnsentinal.Cache.{
  Cache, nanos, shard_for, shard_of, finish_lookup, lookup, effective_ttl, insert,
}

module _ (layout : Layout) (c : Cache) (key : CacheKey) (records : List Rr) (trust : TrustRank)
    (ttl : ℕ) (negative : Bool) (now : ℕ) where
  -- The entry that `insert` builds.
  abbrev pub inserted : CacheEntry
  inserted = record {
    records = records;
    trust = trust;
    expires_at = now + nanos (effective_ttl c.config ttl);
    inserted_at = now;
    hit_count = 0;
    is_negative = negative;
  }

  -- The records as a lookup returns them: each with the whole seconds left as its TTL.
  abbrev pub remaining : ℕ → List Rr
  remaining later =
      map {A = Rr}
        (λ r. record r {
          ttl = (now + nanos (effective_ttl c.config ttl) - later) / 10 ^ 9 % 2 ^ 32;
        })
        records

  abbrev after : Cache
  after = insert layout c key records trust ttl negative now

  abbrev new_shard : Shard
  new_shard =
      shard_insert c.shard_budget (shard_of c key) key inserted (entry_bytes layout key inserted)
        now

  module _ (sharded : 0 < length c.shards) (lives : effective_ttl c.config ttl ≢ 0) where
    after-with_shard : after ≡ record c { shards = set c.shards (shard_for c key) new_shard }
    unfolding insert
    after-with_shard = elim (Bool-cases (effective_ttl c.config ttl == 0)) [
      | inl zero_ttl ↦ absurd (lives ((==_iff _ 0).0 zero_ttl))
      | inr cached ↦ rw (cached, insert)
    ]

    shard_for-lt : shard_for c key < length c.shards
    unfolding shard_for
    shard_for-lt = grind arith

    shard_of-after : shard_of after key ≡ new_shard
    unfolding shard_for
    shard_of-after =
        ap (λ (d : Cache). shard_of d key) after-with_shard
        ∙ rw (length-set c.shards (shard_for c key) new_shard)
            (get_or-set c.shards (shard_for c key) new_shard empty_shard shard_for-lt)

    after-config : after.config ≡ c.config
    after-config = ap (λ (d : Cache). d.config) after-with_shard

    -- In a cache with a shard, a lookup of the key, after an insert with a clamped TTL other than 0
    -- whose entry fits a shard and replaces no live data of a higher rank, and before the clamped TTL has passed, returns the records that were
    -- inserted, each with the whole seconds that are left.
    pub lookup-insert :
        (later : ℕ)
        → entry_bytes layout key inserted ≤ c.shard_budget
        → ¬ Outranks (find key (shard_of c key).lru) inserted now
        → later < now + nanos (effective_ttl c.config ttl)
        → Option.map (λ (e : CacheEntry). e.records) (lookup after key later).1.entry
          ≡ some (remaining later)
    unfolding lookup
    lookup-insert later fits free live =
        let (s', found) =
          shard_lookup-shard_insert c.shard_budget (shard_of c key) key inserted
            (entry_bytes layout key inserted) now later fits free live in
        rw (shard_of-after, found) (unfold finish_lookup in refl)
