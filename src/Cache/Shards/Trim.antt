-- ===== src/Cache/Shards/Trim.antt =====
-- core/cache/cache.cpp: the accounting of one shard, and the loop that evicts its last nodes.
use dnsentinal.Common.{
  ℕ, zero, suc, ◌+◌, ◌≤◌, ◌<◌, ◌^◌, ◌≡◌, refl, ap, inl, inr, ◌&&◌, List, [], ◌∷◌, none, ltb, length,
  arith, Bool-cases,
}
use dnsentinal.Cache.Entries.{CacheKey}
use dnsentinal.Cache.Shards.{Node, Shard, find, last_node, before_last, erase_last, trim}
use dnsentinal.Cache.Shards.Keys.{total, AllWithin, Distinct}

pub total-before_last :
    (n : Node) (ns : List Node) → total (before_last n ns) + (last_node n ns).bytes ≡ total (n ∷ ns)
unfolding before_last last_node
total-before_last n [] = omega arith
total-before_last n (m ∷ ms) = omega (arith, total-before_last m ms)

pub length-before_last : (n : Node) (ns : List Node) → length (before_last n ns) ≡ length ns
unfolding before_last
length-before_last n [] = refl
length-before_last n (m ∷ ms) = ap suc (length-before_last m ms)

pub AllWithin-before_last :
    (budget : ℕ) (n : Node) (ns : List Node)
    → AllWithin budget (n ∷ ns)
    → AllWithin budget (before_last n ns)
unfolding before_last
AllWithin-before_last budget n [] h = tt
AllWithin-before_last budget n (m ∷ ms) h = (h.0, AllWithin-before_last budget m ms h.1)

pub find-before_last :
    (key : CacheKey) (n : Node) (ns : List Node)
    → find key (n ∷ ns) ≡ none
    → find key (before_last n ns) ≡ none
unfolding find before_last
find-before_last key n [] h = refl
find-before_last key n (m ∷ ms) h = ground (arith, find-before_last key m ms)

pub Distinct-before_last :
    (n : Node) (ns : List Node) → Distinct (n ∷ ns) → Distinct (before_last n ns)
unfolding before_last
Distinct-before_last n [] h = tt
Distinct-before_last n (m ∷ ms) h = (find-before_last n.key m ms h.0, Distinct-before_last m ms h.1)

-- What holds of a shard within its operations: all but the budget.
pub record IsCounted (budget : ℕ) (s : Shard) : Type 0 where
  pub exact : s.bytes ≡ total s.lru
  pub each : AllWithin budget s.lru
  pub distinct : Distinct s.lru

-- The invariant of a shard.
pub record IsBudgeted (budget : ℕ) (s : Shard) : Type 0 where
  pub counted : IsCounted budget s
  pub within : s.bytes ≤ budget

pub erase_last-IsCounted :
    (budget : ℕ) (ns : List Node) (b : ℕ)
    → IsCounted budget (record { lru = ns; bytes = b })
    → b < 2 ^ 64
    → IsCounted budget (erase_last ns (record { lru = ns; bytes = b }))
      × ((erase_last ns (record { lru = ns; bytes = b })).bytes ≤ b)
unfolding erase_last
erase_last-IsCounted budget [] b v h = (v, omega arith)
erase_last-IsCounted budget (n ∷ ns) b v h =
    let split = total-before_last n ns in
    (
      record {
        exact = omega (arith, v.exact, split);
        each = AllWithin-before_last budget n ns v.each;
        distinct = Distinct-before_last n ns v.distinct;
      },
      omega (arith, v.exact, split),
    )

pub length-erase_last :
    (ns : List Node) (s : Shard)
    → 1 < length ns
    → s.lru ≡ ns
    → length (erase_last ns s).lru + 1 ≡ length ns
unfolding erase_last
length-erase_last [] s h e = absurd (omega arith)
length-erase_last (n ∷ ns) s h e = omega (arith, length-before_last n ns)

pub single : (budget : ℕ) (ns : List Node) → length ns ≤ 1 → AllWithin budget ns → total ns ≤ budget
single budget [] h v = omega arith
single budget (n ∷ []) h v = omega (arith, v.0)
single budget (n ∷ m ∷ ns) h v = absurd (omega arith)

-- The loop ends within the budget: at the latest with one node, which fits.
pub trim-IsBudgeted :
    (budget fuel : ℕ) (s : Shard)
    → IsCounted budget s
    → s.bytes < 2 ^ 64
    → length s.lru ≤ fuel
    → IsBudgeted budget (trim budget fuel s)
unfolding trim
trim-IsBudgeted budget zero s v h l = record {
  counted = v;
  within = omega (arith, v.exact, single budget s.lru (omega arith) v.each);
}
trim-IsBudgeted budget (suc fuel) s v h l =
    elim (Bool-cases (ltb budget s.bytes && ltb 1 (length s.lru))) [
      | inr e ↦
          rw (e, trim)
            (record { counted = v; within = ground (arith, v.exact, single budget s.lru, v.each) })
      | inl e ↦
          let (counted, less) = erase_last-IsCounted budget s.lru s.bytes v h in
          let shorter = length-erase_last s.lru s (ground arith) refl in
          rw (e, trim)
            (trim-IsBudgeted budget fuel (erase_last s.lru s) counted (omega arith) (omega arith))
    ]
