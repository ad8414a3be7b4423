-- ===== src/Tests/Caching.antt =====
-- The cache on concrete calls.
use dnsentinal.Common.{refl, ◌≤◌, ◌≡◌, false, List, [], ◌∷◌, arith, some}
use mathlib.Core.Option
use dnsentinal.Types.{in_answer, in_glue}
use dnsentinal.Name.{hash, wire_length, labels_length}
use dnsentinal.Cache.{Cache, init, lookup, insert, memory_used, shard_for, key_hash, effective_ttl}
use dnsentinal.Cache.Entries.{
  CacheKey, CacheEntry, CacheConfig, Layout, entry_bytes, records_bytes, rdata_bytes, name_bytes,
}
use dnsentinal.Cache.History.{Call, lookups, inserts, evicts, flushes, run, run-init_memory}
use dnsentinal.Cache.Invariant.{IsValid}
use dnsentinal.Cache.Shards.Reads.{KeepsFront, trim-KeepsFront}
use dnsentinal.Cache.Reads.{lookup-insert}
use dnsentinal.Cache.Shards.{Node, Shard, trim, empty_shard, find}
use dnsentinal.Tests.Samples.{www_net, net_name, address}

abbrev layout : Layout
layout = record { string_size = 32; key_size = 56; entry_size = 64; rr_size = 144 }

abbrev config : CacheConfig
config = record { max_memory_bytes = 1000; num_shards = 1; min_ttl = 0; max_ttl = 86400 }

abbrev key : CacheKey
key = record { name = www_net; qtype = 1; qclass = 1 }

abbrev other_key : CacheKey
other_key = record key { name = net_name }

-- Two entries that do not fit together.
abbrev calls : List Call
calls =
    inserts key (address www_net ∷ []) in_answer 60 false 0
    ∷ lookups key 1_000_000_000
    ∷ inserts other_key (address net_name ∷ []) in_glue 30 false 2_000_000_000
    ∷ evicts key
    ∷ flushes
    ∷ []

run-init_memory_example :
    IsValid (run layout (init config) calls) × (memory_used (run layout (init config) calls) ≤ 1000)
run-init_memory_example = run-init_memory layout config calls (omega arith)

abbrev empty_cache : Cache
empty_cache = record {
  shards = empty_shard ∷ [];
  config = config;
  shard_budget = 1000;
  hits = 0;
  misses = 0;
}

-- Five seconds after.
lookup-insert_example :
    Option.map
      (λ (e : CacheEntry). e.records)
      (lookup
        (insert layout empty_cache key (address www_net ∷ []) in_answer 60 false 0)
        key
        5_000_000_000).1.entry
    ≡ some (record (address www_net) { ttl = 55 } ∷ [])
unfolding effective_ttl entry_bytes records_bytes rdata_bytes name_bytes wire_length labels_length
    find shard_for key_hash hash
lookup-insert_example =
    lookup-insert layout empty_cache key (address www_net ∷ []) in_answer 60 false 0 (omega arith)
      (λ e. absurd (omega (arith, e))) 5_000_000_000 (omega arith) (λ h. h) (omega arith)

abbrev answer_entry : CacheEntry
answer_entry = record {
  records = address www_net ∷ [];
  trust = in_answer;
  expires_at = 60_000_000_000;
  inserted_at = 0;
  hit_count = 0;
  is_negative = false;
}

abbrev node : Node
node = record { key = key; entry = answer_entry; bytes = 700 }

abbrev crowded : Shard
crowded = record { lru = node ∷ record node { key = other_key } ∷ []; bytes = 1400 }

trim-KeepsFront_example : KeepsFront (trim 1000 2 crowded).lru crowded.lru
trim-KeepsFront_example =
    trim-KeepsFront 1000 2 crowded node (record node { key = other_key } ∷ []) refl
