-- ===== src/Policy/BlocklistTrie/Keys.antt =====
-- core/policy/blocklist_trie.cpp: the keys that the rules are sorted by.
use dnsentinal.Common.{
  ◌%◌, ◌^◌, ◌<◌, ◌≡◌, refl, sym, ap, ◌∙◌, ◌↔◌, List, [], ◌∷◌, ◌++◌, length, All, arith,
  append_assoc,
}
use dnsentinal.Types.{Bytes}
use dnsentinal.Policy.BlocklistTrie.{key_of}

abbrev pub Short : List Bytes → Type 0
Short = All (λ (l : Bytes). length l < 256)

-- Two lists of the same length in front of something.
append-split :
    (a b : Bytes) {s t : Bytes} → length a ≡ length b → a ++ s ≡ b ++ t → (a ≡ b) × (s ≡ t)
append-split [] [] h e = (refl, e)
append-split [] (y ∷ ys) h e = absurd (omega (arith, h))
append-split (x ∷ xs) [] h e = absurd (omega (arith, h))
append-split (x ∷ xs) (y ∷ ys) {s} {t} h e =
    let first : x ≡ y = cc e in
    let tails : xs ++ s ≡ ys ++ t = cc e in
    let (same, rest) = append-split xs ys (omega (arith, h)) tails in (cc (first, same), rest)

-- What follows a key in a longer key is a key: of the labels that follow.
key_of-rest :
    (upper lower : List Bytes) (rest : Bytes)
    → Short upper
    → Short lower
    → key_of upper ++ rest ≡ key_of lower
    → (below : List Bytes) × (lower ≡ upper ++ below)
unfolding key_of
key_of-rest [] lower rest h k e = (lower, refl)
key_of-rest (u ∷ us) [] rest h k e = absurd (cc e)
key_of-rest (u ∷ us) (l ∷ ls) rest h k e =
    let lengths : length u % 2 ^ 8 ≡ length l % 2 ^ 8 = cc e in
    let tails : (u ++ key_of us) ++ rest ≡ l ++ key_of ls = cc e in
    let (same, others) =
      append-split u l (omega (arith, lengths, h.0, k.0))
        (sym (append_assoc u (key_of us) rest) ∙ tails) in
    let (below, found) = key_of-rest us ls rest h.1 k.1 others in (below, cc (same, found))

key_of-append : (upper below : List Bytes) → key_of (upper ++ below) ≡ key_of upper ++ key_of below
unfolding key_of
key_of-append [] below = refl
key_of-append (u ∷ us) below =
    ap (λ x. length u % 2 ^ 8 ∷ u ++ x) (key_of-append us below)
    ∙ ap (λ x. length u % 2 ^ 8 ∷ x) (sym (append_assoc u (key_of us) (key_of below)))

-- The key of one name begins the key of another exactly if the other is that name or below it:
-- its labels, from the top down, are the first one's and some more. So the sorted keys hold every
-- subtree in one run, and equal keys are of equal names; if labels are shorter than 256 bytes.
pub key_of_iff :
    (upper lower : List Bytes)
    → Short upper
    → Short lower
    → ((rest : Bytes) × (key_of upper ++ rest ≡ key_of lower))
      ↔ ((below : List Bytes) × (lower ≡ upper ++ below))
key_of_iff upper lower h k = (
  λ (rest, e). key_of-rest upper lower rest h k e,
  λ (below, e). (key_of below, sym (ap key_of e ∙ key_of-append upper below)),
)
