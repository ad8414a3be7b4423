-- ===== src/Name.antt =====
-- core/wire/name.cpp: construction of names, their size, their order in the tree and their hash.
-- The presentation format is in Name/Text.
pub mod Text
pub mod Subdomain
pub mod Limits
pub mod RoundTrip
use Prim.Native.Nat.{bit_xor}
use dnsentinal.Common.{
  ℕ, ◌+◌, ◌-◌, ◌*◌, ◌%◌, ◌^◌, Bool, true, false, ◌&&◌, List, [], ◌∷◌, ◌++◌, map, leb, ltb, ◌==◌,
  if◌then◌else◌, length,
}
use dnsentinal.Types.{Bytes, Name, root, bytes_eq}
use mathlib.Core.List.{reverse, foldl}

-- Bytes from 0x80 are negative as `char` and so are no letters, as here.
unfoldable pub ascii_lower : ℕ → ℕ
ascii_lower c = if leb b'A' c && leb c b'Z' then c - b'A' + b'a' else c

unfoldable pub lower : Bytes → Bytes
unfolding ascii_lower
lower = map ascii_lower

unfoldable pub append_label : Name → Bytes → Name
append_label n label = record n {
  original_case = n.original_case ++ label ∷ [];
  labels = n.labels ++ lower label ∷ [];
}

-- The loop of `wire_length`, without the trailing root label.
unfoldable pub labels_length : List Bytes → ℕ
labels_length [] = 0
labels_length (l ∷ ls) = 1 + length l + labels_length ls

unfoldable pub wire_length : Name → ℕ
unfolding labels_length
wire_length n = 1 + labels_length n.labels

-- `std::equal` over the range of the first list; the second holds at least as many.
unfoldable pub equal_prefix : List Bytes → List Bytes → Bool
equal_prefix [] ys = true
equal_prefix (x ∷ xs) [] = false
equal_prefix (x ∷ xs) (y ∷ ys) = bytes_eq x y && equal_prefix xs ys

unfoldable pub is_subdomain_of : Name → Name → Bool
is_subdomain_of n zone =
    if ltb (length n.labels) (length zone.labels)
    then false
    else equal_prefix (reverse zone.labels) (reverse n.labels)

abbrev tail_labels : List Bytes → List Bytes
tail_labels [] = []
tail_labels (l ∷ ls) = ls

parent_of : List Bytes → Name → Name
parent_of [] n = root
parent_of (l ∷ ls) n = record {
  labels = ls;
  original_case =
      if length n.original_case == length n.labels then tail_labels n.original_case else ls;
}

unfoldable pub parent : Name → Name
unfolding parent_of
parent n = parent_of n.labels n

-- One round of 64-bit FNV-1a.
mix : ℕ → ℕ → ℕ
mix h b = bit_xor h b * 1099511628211 % 2 ^ 64

hash_label : ℕ → Bytes → ℕ
unfolding mix
hash_label h label = foldl mix (mix h (length label % 2 ^ 8)) label

unfoldable pub hash : Name → ℕ
unfolding hash_label
hash n = foldl hash_label 14695981039346656037 n.labels
