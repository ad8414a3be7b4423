-- ===== src/Cache/Entries.antt =====
-- core/include/dnsentinel/cache/cache.h: keys, entries and configuration; core/cache/cache.cpp: the
-- approximate size of an entry. The sizes of C++ objects, which the platform sets, are a
-- parameter.
use dnsentinal.Common.{ℕ, ◌+◌, ◌*◌, Bool, ◌&&◌, List, [], ◌∷◌, Option, ◌==◌, length}
use dnsentinal.Types.{
  Bytes, Name, RData, ipv4, ipv6, ns, cname, soa, mx, txt, ptr, raw, Rr, TrustRank, name_eq,
}
use dnsentinal.Name.{wire_length}

pub record CacheKey : Type 0 where
  pub name : Name
  pub qtype : ℕ
  pub qclass : ℕ

unfoldable pub key_eq : CacheKey → CacheKey → Bool
key_eq a b = name_eq a.name b.name && (a.qtype == b.qtype && a.qclass == b.qclass)

pub record CacheEntry : Type 0 where
  pub records : List Rr
  pub trust : TrustRank
  pub expires_at : ℕ
  pub inserted_at : ℕ
  pub hit_count : ℕ
  pub is_negative : Bool

-- The fields that the code reads; it does not read those for serve-stale and prefetch.
pub record CacheConfig : Type 0 where
  pub max_memory_bytes : ℕ
  pub num_shards : ℕ
  pub min_ttl : ℕ
  pub max_ttl : ℕ

pub record LookupResult : Type 0 where
  pub entry : Option CacheEntry
  pub is_stale : Bool
  pub needs_prefetch : Bool

-- `sizeof` of `std::string`, `CacheKey`, `CacheEntry` and `RR`
pub record Layout : Type 0 where
  pub string_size : ℕ
  pub key_size : ℕ
  pub entry_size : ℕ
  pub rr_size : ℕ

-- `kNodeOverhead`
abbrev pub node_overhead : ℕ
node_overhead = 64

module _ (layout : Layout) where
  unfoldable pub name_bytes : Name → ℕ
  name_bytes n = 2 * (length n.labels * layout.string_size + wire_length n)

  unfoldable pub text_bytes : List Bytes → ℕ
  text_bytes [] = 0
  text_bytes (s ∷ ss) = length s + text_bytes ss

  unfoldable pub rdata_bytes : RData → ℕ
  unfolding name_bytes text_bytes
  rdata_bytes (ipv4 a) = 0
  rdata_bytes (ipv6 a) = 0
  rdata_bytes (ns n) = name_bytes n
  rdata_bytes (cname n) = name_bytes n
  rdata_bytes (ptr n) = name_bytes n
  rdata_bytes (mx preference n) = name_bytes n
  rdata_bytes (soa d) = name_bytes d.mname + name_bytes d.rname
  rdata_bytes (txt strings) = length strings * layout.string_size + text_bytes strings
  rdata_bytes (raw bytes) = length bytes

  unfoldable pub records_bytes : List Rr → ℕ
  unfolding rdata_bytes
  records_bytes [] = 0
  records_bytes (r ∷ rs) =
      layout.rr_size + name_bytes r.name + rdata_bytes r.rdata + records_bytes rs

  unfoldable pub entry_bytes : CacheKey → CacheEntry → ℕ
  unfolding records_bytes
  entry_bytes key e =
      node_overhead
      + layout.key_size
      + layout.entry_size
      + name_bytes key.name
      + records_bytes e.records
