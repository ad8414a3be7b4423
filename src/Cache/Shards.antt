-- ===== src/Cache/Shards.antt =====
-- core/cache/cache.cpp: one shard. Its index holds for each node of the list the iterator to it, so
-- that looking a key up in the index is finding its node in the list.
pub mod Keys
pub mod Trim
pub mod Budget
pub mod Reads
use dnsentinal.Common.{
  ℕ, zero, suc, ◌+◌, ◌-◌, ◌%◌, ◌^◌, Bool, true, false, ◌&&◌, List, [], ◌∷◌, Option, none, some, leb,
  ltb, if◌then◌else◌, length,
}
use dnsentinal.Types.{TrustRank, rank}
use dnsentinal.Wire.ByteIo.{size_sub}
use dnsentinal.Cache.Entries.{CacheKey, CacheEntry, key_eq}

pub record Node : Type 0 where
  pub key : CacheKey
  pub entry : CacheEntry
  pub bytes : ℕ

-- The front of `lru` is the most recently used.
pub record Shard : Type 0 where
  pub lru : List Node
  pub bytes : ℕ

abbrev pub empty_shard : Shard
empty_shard = record { lru = []; bytes = 0 }

-- `index.find`
unfoldable pub find : CacheKey → List Node → Option Node
find key [] = none
find key (n ∷ ns) = if key_eq n.key key then some n else find key ns

-- `lru.erase` of the node with the key
unfoldable pub remove : CacheKey → List Node → List Node
remove key [] = []
remove key (n ∷ ns) = if key_eq n.key key then ns else n ∷ remove key ns

abbrev pub erase : Shard → Node → Shard
erase s n = record { lru = remove n.key s.lru; bytes = size_sub s.bytes n.bytes }

-- A hit moves the node to the front and counts.
unfoldable pub read_node : Shard → CacheKey → ℕ → Option Node → Option (CacheEntry × Shard)
read_node s key now none = none
read_node s key now (some n) =
    let used = record n.entry { hit_count = (n.entry.hit_count + 1) % 2 ^ 64 } in
    if leb n.entry.expires_at now
    then none
    else some (used, record s { lru = record n { entry = used } ∷ remove key s.lru })

unfoldable pub shard_lookup : Shard → CacheKey → ℕ → Option (CacheEntry × Shard)
unfolding read_node
shard_lookup s key now = read_node s key now (find key s.lru)

-- The last node, and the nodes before it.
unfoldable pub last_node : Node → List Node → Node
last_node n [] = n
last_node n (m ∷ ms) = last_node m ms

unfoldable pub before_last : Node → List Node → List Node
before_last n [] = []
before_last n (m ∷ ms) = n ∷ before_last m ms

unfoldable pub erase_last : List Node → Shard → Shard
unfolding last_node before_last
erase_last [] s = s
erase_last (n ∷ ns) s = record {
  lru = before_last n ns;
  bytes = size_sub s.bytes (last_node n ns).bytes;
}

-- The eviction loop; each round takes a node away, so that their number is fuel enough.
unfoldable pub trim : ℕ → ℕ → Shard → Shard
unfolding erase_last
trim budget zero s = s
trim budget (suc fuel) s =
    let rest = trim budget fuel (erase_last s.lru s) in
    if ltb budget s.bytes && ltb 1 (length s.lru) then rest else s

abbrev trim_all : ℕ → Shard → Shard
trim_all budget s = trim budget (length s.lru) s

unfoldable pub replace_node : ℕ → Shard → Node → CacheKey → CacheEntry → ℕ → ℕ → Shard
replace_node budget s n key entry bytes now =
    if ltb now n.entry.expires_at && ltb (rank entry.trust) (rank n.entry.trust)
    then s
    else if ltb budget bytes
    then erase s n
    else trim_all budget (record {
      lru = record { key = n.key; entry = entry; bytes = bytes } ∷ remove key s.lru;
      bytes = size_sub s.bytes n.bytes + bytes;
    })

unfoldable pub write_node : ℕ → Shard → CacheKey → CacheEntry → ℕ → ℕ → Option Node → Shard
unfolding replace_node
write_node budget s key entry bytes now (some n) = replace_node budget s n key entry bytes now
write_node budget s key entry bytes now none =
    if ltb budget bytes
    then s
    else trim_all budget (record {
      lru = record { key = key; entry = entry; bytes = bytes } ∷ s.lru;
      bytes = s.bytes + bytes;
    })

unfoldable pub shard_insert : ℕ → Shard → CacheKey → CacheEntry → ℕ → ℕ → Shard
unfolding write_node
shard_insert budget s key entry bytes now = write_node budget s key entry bytes now (find key s.lru)

unfoldable pub evict_node : Shard → Option Node → Shard
evict_node s none = s
evict_node s (some n) = erase s n

unfoldable pub shard_evict : Shard → CacheKey → Shard
unfolding evict_node
shard_evict s key = evict_node s (find key s.lru)
