-- ===== src/Security/ZeroX20.antt =====
-- core/security/zero_x20.cpp: random letter case for query names. `arc4random` is the argument
-- `random`, whose value at n is the n-th word that it returns.
pub mod Laws
use dnsentinal.Common.{
  ℕ, zero, suc, ◌+◌, ◌-◌, ◌*◌, ◌/◌, ◌%◌, Bool, true, false, ◌&&◌, ◌||◌, List, [], ◌∷◌, leb, ◌==◌,
  if◌then◌else◌, length, list_eq,
}
use dnsentinal.Types.{Bytes, Name, labels_eq}

unfoldable pub is_letter : ℕ → Bool
is_letter c = (leb b'a' c && leb c b'z') || (leb b'A' c && leb c b'Z')

unfoldable pub as_written : Name → List Bytes
as_written n = if length n.original_case == length n.labels then n.original_case else n.labels

-- The bits at hand, how many of them are unused, and the words drawn so far.
pub record Bits : Type 0 where
  pub bits : ℕ
  pub left : ℕ
  pub drawn : ℕ

abbrev pub no_bits : Bits
no_bits = record { bits = 0; left = 0; drawn = 0 }

module _ (random : ℕ → ℕ) where
  unfoldable pub refill : Bits → Bits
  refill s =
      if s.left == 0 then record { bits = random s.drawn; left = 32; drawn = s.drawn + 1 } else s

  -- One character: `c - 'a' + 'A'` is below zero for no byte.
  unfoldable pub flip_char : ℕ → Bits → ℕ × Bits
  unfolding refill is_letter
  flip_char c s =
      let t = refill s in
      if is_letter c
      then (
        (if t.bits % 2 == 1 then c + b'A' - b'a' else c),
        record t { bits = t.bits / 2; left = t.left - 1 },
      )
      else (c, s)

  unfoldable pub flip_label : Bytes → Bits → Bytes × Bits
  flip_label [] s = ([], s)
  flip_label (c ∷ cs) s =
      let (c', t) = flip_char c s in let (cs', u) = flip_label cs t in (c' ∷ cs', u)

  unfoldable pub flip_labels : List Bytes → Bits → List Bytes × Bits
  flip_labels [] s = ([], s)
  flip_labels (l ∷ ls) s =
      let (l', t) = flip_label l s in let (ls', u) = flip_labels ls t in (l' ∷ ls', u)

  unfoldable pub randomize_case : Name → Name
  randomize_case n = record n { original_case = (flip_labels n.labels no_bits).0 }

unfoldable pub letters : Bytes → ℕ
unfolding is_letter
letters [] = 0
letters (c ∷ cs) = (if is_letter c then 1 else 0) + letters cs

unfoldable pub labels_letters : List Bytes → ℕ
unfolding letters
labels_letters [] = 0
labels_letters (l ∷ ls) = letters l + labels_letters ls

unfoldable pub case_entropy_bits : Name → ℕ
unfolding labels_letters
case_entropy_bits n = labels_letters n.labels

unfoldable pub same_case : Name → Name → Bool
unfolding as_written
same_case a b = labels_eq (as_written a) (as_written b)
