-- ===== src/Tests/Resolutions.antt =====
-- Steps of a resolution.
use dnsentinal.Common.{◌<◌, ◌+◌, List, map, ℕ, ◌≤◌, ◌≡◌, false, ◌-◌, true, [], ◌∷◌, some, arith}
use dnsentinal.Common.Int.{pos}
use dnsentinal.Cache.{Cache}
use dnsentinal.Cache.Entries.{CacheConfig, Layout}
use dnsentinal.Cache.Shards.{empty_shard}
use dnsentinal.Resolver.ServerSelection.{Selection}
use dnsentinal.Resolver.Upstream.{answer}
use dnsentinal.Resolver.RecursiveResolver.{
  ResolverConfig, read_cache, read_answers, next_server, RootHints, Task, Shared, new_task,
  add_server,
}
use dnsentinal.Resolver.RecursiveResolver.Spending.{
  Input, begins, child_done, replied, Visit, queries_sent, queries_sent_lem,
}
use dnsentinal.Resolver.RecursiveResolver.Retries.{Retries, next_server-Retries}
use dnsentinal.Resolver.RecursiveResolver.Hops.{read_cache-read_answers}
use dnsentinal.Tests.Samples.{question, response}

abbrev layout : Layout
layout = record { string_size = 32; key_size = 56; entry_size = 64; rr_size = 144 }

abbrev cache_config : CacheConfig
cache_config = record { max_memory_bytes = 1000; num_shards = 1; min_ttl = 0; max_ttl = 86400 }

abbrev cache : Cache
cache = record {
  shards = empty_shard ∷ [];
  config = cache_config;
  shard_budget = 1000;
  hits = 0;
  misses = 0;
}

abbrev config : ResolverConfig
config = record {
  use_0x20 = true;
  edns_buffer = 1232;
  max_upstream_queries = 30;
  max_referral_depth = 16;
  max_cname_chain = 8;
  max_glueless_ns = 5;
  query_timeout_ms = 800;
  max_query_timeout_ms = 3000;
  stub_zones = [];
}

abbrev hints : RootHints
hints = record { ns = []; addresses = [] }

abbrev selection : Selection
selection = record { explore_one_in = 20; servers = []; updates = 0 }

abbrev last_of : ℕ → ℕ → ℕ
last_of k n = n - 1

abbrev words : ℕ → ℕ
words k = k

-- One query short of the limit, with one server to ask.
abbrev task : Task
task = add_server (new_task question []) 7

abbrev shared : Shared
shared = record { cache = cache; selection = selection; no_0x20 = []; queries = 29 }

-- The task begins, its reply comes, and it looks for another server.
abbrev visits : List Visit
visits = map visit (begins ∷ replied (answer response) (pos 1000) ∷ child_done (some response) ∷ [])
  where
    visit : Input → Visit
    visit input = record {
      task = task;
      input = input;
      cache = cache;
      selection = selection;
      no_0x20 = [];
      uniform = last_of;
      random = words;
      now = 100;
    }

queries_sent_lem_example : 29 + queries_sent config hints layout visits 29 ≤ 30
queries_sent_lem_example =
    queries_sent_lem config hints layout visits 29 (omega arith) (omega arith)

-- The one server timed out.
abbrev waiting : Task
waiting = record task { tried = 7 ∷ []; timed_out = 7 ∷ [] }

below : (k n : ℕ) → 0 < n → last_of k n < n
below k n h = omega arith

next_server-Retries_example :
    Retries waiting (next_server config hints layout last_of words 100 waiting shared)
unfolding new_task add_server
next_server-Retries_example =
    next_server-Retries config hints layout last_of below words 100 waiting shared (omega arith)

read_cache-read_answers_example :
    (read_cache config hints layout last_of words 100 20 task cache
      ≡ read_cache config hints layout last_of words 100 9 task cache)
    × (read_answers config hints layout last_of words 100 20 task cache response false
        ≡ read_answers config hints layout last_of words 100 9 task cache response false)
unfolding new_task add_server
read_cache-read_answers_example =
    read_cache-read_answers config hints layout last_of words 100 20 task cache response false
      (omega arith) (omega arith) (omega arith)
