-- ===== src/Resolver/ServerSelection/Choice.antt =====
-- core/resolver/server_selection.cpp: `pick` chooses a candidate, and one of the best rank unless it
-- explores.
use dnsentinal.Common.{
  ℕ, zero, suc, ◌<◌, ◌≡◌, refl, sym, inl, inr, Bool, true, false, not, ◌&&◌, ◌||◌, List, [], ◌∷◌,
  ◌++◌, ltb, ◌==◌, length, get_or, All, All-append, arith, Bool-cases, subst,
}
use dnsentinal.Resolver.ServerSelection.{
  Address, Rank, rank, rank_lt, rank_eq, is_empty, Best, consider, choose, Selection, pick,
}

-- An address of the list, as a value of it and its place.
pub data Among (a : Address) : List Address → Type 0 where
  here : {rest : List Address} → Among a (a ∷ rest)
  later : {b : Address} {rest : List Address} → Among a rest → Among a (b ∷ rest)

-- `x` is not behind `y` in the order of ranks.
abbrev pub NotAfter : Rank → Rank → Type 0
NotAfter x y = rank_lt y x ≡ false

NotAfter-refl : (x : Rank) → NotAfter x x
unfolding rank_lt
NotAfter-refl (false, x) = ground arith
NotAfter-refl (true, x) = ground arith

rank_eq→≡ : (x y : Rank) → rank_eq x y ≡ true → x ≡ y
unfolding rank_eq
rank_eq→≡ (false, x) (false, y) h = ground arith
rank_eq→≡ (true, x) (true, y) h = ground arith
rank_eq→≡ (false, x) (true, y) h = absurd (cc)
rank_eq→≡ (true, x) (false, y) h = absurd (cc)

NotAfter-of_lt : (x y z : Rank) → rank_lt x y ≡ true → NotAfter y z → NotAfter x z
unfolding rank_lt
NotAfter-of_lt (x, a) (y, b) (z, c) h k = ground arith

-- What the loop has after the candidates `seen`, of which at least one.
record IsBest (rank_of : Address → Rank) (seen : List Address) (b : Best) : Type 0 where
  filled : is_empty b.best ≡ false
  ranked : All (λ a. rank_of a ≡ b.best_rank) b.best
  first : All (λ a. NotAfter b.best_rank (rank_of a)) seen

is_empty-append : (xs : List Address) (a : Address) → is_empty (xs ++ a ∷ []) ≡ false
is_empty-append [] a = refl
is_empty-append (x ∷ xs) a = refl

All-NotAfter :
    (rank_of : Address → Rank) (x y : Rank) (others : List Address)
    → rank_lt x y ≡ true
    → All (λ a. NotAfter y (rank_of a)) others
    → All (λ a. NotAfter x (rank_of a)) others
All-NotAfter rank_of x y [] h k = tt
All-NotAfter rank_of x y (a ∷ rest) h k =
    (NotAfter-of_lt x y (rank_of a) h k.0, All-NotAfter rank_of x y rest h k.1)

consider-IsBest :
    (rank_of : Address → Rank) (seen : List Address) (b : Best) (a : Address)
    → IsBest rank_of seen b
    → IsBest rank_of (a ∷ seen) (consider b a (rank_of a))
unfolding consider
consider-IsBest rank_of seen b a h = elim (Bool-cases (rank_lt (rank_of a) b.best_rank)) [
  | inl less ↦
      rw (h.filled, less)
        (record {
          filled = refl;
          ranked = (refl, tt);
          first = (
            NotAfter-refl (rank_of a),
            All-NotAfter rank_of (rank_of a) b.best_rank seen less h.first,
          );
        })
  | inr more ↦ elim (Bool-cases (rank_eq (rank_of a) b.best_rank)) [
    | inl same ↦
        rw (h.filled, more, same)
          (record {
            filled = is_empty-append b.best a;
            ranked =
                All-append (λ x. rank_of x ≡ b.best_rank) b.best (a ∷ []) h.ranked
                  (rank_eq→≡ (rank_of a) b.best_rank same, tt);
            first = (more, h.first);
          })
    | inr other ↦
        rw (h.filled, more, other)
          (record { filled = h.filled; ranked = h.ranked; first = (more, h.first) })
  ]
]

choose-IsBest :
    (rank_of : Address → Rank) (rest seen : List Address) (b : Best)
    → IsBest rank_of seen b
    → (IsBest rank_of seen (choose rank_of rest b))
      × All (λ a. NotAfter ((choose rank_of rest b).best_rank) (rank_of a)) rest
unfolding choose
choose-IsBest rank_of [] seen b h = (h, tt)
choose-IsBest rank_of (a ∷ rest) seen b h =
    let ih =
      choose-IsBest rank_of rest (a ∷ seen) (consider b a (rank_of a))
        (consider-IsBest rank_of seen b a h) in
    (
      record { filled = ih.0.filled; ranked = ih.0.ranked; first = ih.0.first.1 },
      (ih.0.first.0, ih.1),
    )

-- The loop over at least one candidate.
loop : (Address → Rank) → List Address → Best
loop rank_of candidates = choose rank_of candidates (record { best = []; best_rank = (false, 0) })

loop-IsBest :
    (rank_of : Address → Rank) (a : Address) (rest : List Address)
    → IsBest rank_of (a ∷ rest) (loop rank_of (a ∷ rest))
unfolding loop choose consider
loop-IsBest rank_of a rest =
    let one : Best = record { best = a ∷ []; best_rank = rank_of a } in
    let h =
      choose-IsBest rank_of rest (a ∷ []) one
        (record { filled = refl; ranked = (refl, tt); first = (NotAfter-refl (rank_of a), tt) }) in
    record { filled = h.0.filled; ranked = h.0.ranked; first = (h.0.first.0, h.1) }

consider-All :
    (P : Address → Type 0) (b : Best) (a : Address) (r : Rank)
    → P a
    → All P b.best
    → All P (consider b a r).best
unfolding consider
consider-All P b a r h k = elim (Bool-cases (is_empty b.best || rank_lt r b.best_rank)) [
  | inl e ↦ rw e (h, tt)
  | inr e ↦ elim (Bool-cases (rank_eq r b.best_rank)) [
    | inl e' ↦ rw (e, e') (All-append P b.best (a ∷ []) k (h, tt))
    | inr e' ↦ rw (e, e') k
  ]
]

choose-All :
    (P : Address → Type 0) (rank_of : Address → Rank) (rest : List Address) (b : Best)
    → All P rest
    → All P b.best
    → All P (choose rank_of rest b).best
unfolding choose
choose-All P rank_of [] b h k = k
choose-All P rank_of (a ∷ rest) b h k =
    choose-All P rank_of rest (consider b a (rank_of a)) h.1 (consider-All P b a (rank_of a) h.0 k)

All-later :
    (b : Address) (others xs : List Address)
    → All (λ a. Among a others) xs
    → All (λ a. Among a (b ∷ others)) xs
All-later b others [] h = tt
All-later b others (x ∷ xs) h = (later h.0, All-later b others xs h.1)

All-Among : (xs : List Address) → All (λ a. Among a xs) xs
All-Among [] = tt
All-Among (x ∷ xs) = (here, All-later x xs xs (All-Among xs))

All-get_or :
    (P : Address → Type 0) (xs : List Address) (i d : ℕ)
    → i < length xs
    → All P xs
    → P (get_or xs i d)
All-get_or P [] i d h k = absurd (omega arith)
All-get_or P (x ∷ xs) zero d h k = k.0
All-get_or P (x ∷ xs) (suc i) d h k = All-get_or P xs i d (omega arith) k.1

is_empty-length : (xs : List Address) → is_empty xs ≡ false → 0 < length xs
is_empty-length [] h = absurd (cc)
is_empty-length (x ∷ xs) h = omega arith

-- Whether the call draws a candidate at random.
abbrev pub explores : Selection → (ℕ → ℕ → ℕ) → List Address → Bool
explores s random candidates =
    (ltb 1 (length candidates) && not (s.explore_one_in == 0)) && random 0 s.explore_one_in == 0

module _ (s : Selection) (random : ℕ → ℕ → ℕ) (below : (k n : ℕ) → 0 < n → random k n < n) (now : ℕ)
    (a : Address) (rest : List Address) where
  chosen :
      (P : Address → Type 0)
      → All P (loop (rank s now) (a ∷ rest)).best
      → explores s random (a ∷ rest) ≡ false
      → P (pick s random now (a ∷ rest))
  unfolding pick loop
  chosen P h e =
      let b = loop (rank s now) (a ∷ rest) in
      let filled = is_empty-length b.best ((loop-IsBest (rank s now) a rest).filled) in
      elim (Bool-cases (length b.best == 1)) [
        | inl one ↦ rw (e, one) (All-get_or P b.best 0 0 filled h)
        | inr many ↦ rw (e, many) (All-get_or P b.best _ 0 (below _ (length b.best) filled) h)
      ]

  loop-Among : All (λ x. Among x (a ∷ rest)) (loop (rank s now) (a ∷ rest)).best
  unfolding loop
  loop-Among =
      choose-All (λ x. Among x (a ∷ rest)) (rank s now) (a ∷ rest)
        (record { best = []; best_rank = (false, 0) }) (All-Among (a ∷ rest)) tt

  explored : explores s random (a ∷ rest) ≡ true → Among (pick s random now (a ∷ rest)) (a ∷ rest)
  unfolding pick
  explored e = rw e (
      All-get_or (λ x. Among x (a ∷ rest)) (a ∷ rest) _ 0
        (below 1 (length (a ∷ rest)) (omega arith)) (All-Among (a ∷ rest)))

  -- If a draw below n is below n, `pick` gives one of the candidates, of which there is at least one.
  pub pick-Among : Among (pick s random now (a ∷ rest)) (a ∷ rest)
  pick-Among = elim (Bool-cases (explores s random (a ∷ rest))) [
    | inl e ↦ explored e
    | inr e ↦ chosen (λ x. Among x (a ∷ rest)) loop-Among e
  ]

  ranked_first :
      All
        (λ x. All (λ y. NotAfter (rank s now x) (rank s now y)) (a ∷ rest))
        (loop (rank s now) (a ∷ rest)).best
  ranked_first =
      let h = loop-IsBest (rank s now) a rest in
      same_rank (loop (rank s now) (a ∷ rest)).best_rank (loop (rank s now) (a ∷ rest)).best
        h.ranked h.first
    where
      same_rank :
          (r : Rank) (xs : List Address)
          → All (λ x. rank s now x ≡ r) xs
          → All (λ y. NotAfter r (rank s now y)) (a ∷ rest)
          → All (λ x. All (λ y. NotAfter (rank s now x) (rank s now y)) (a ∷ rest)) xs
      same_rank r [] h k = tt
      same_rank r (x ∷ xs) h k = (
        subst (λ r. All (λ y. NotAfter r (rank s now y)) (a ∷ rest)) (sym h.0) k,
        same_rank r xs h.1 k,
      )

  -- If a draw below n is below n, there is a candidate, and the call does not explore, no candidate ranks before the one that `pick` gives.
  pub pick-NotAfter :
      explores s random (a ∷ rest) ≡ false
      → All (λ y. NotAfter (rank s now (pick s random now (a ∷ rest))) (rank s now y)) (a ∷ rest)
  pick-NotAfter e =
      chosen (λ x. All (λ y. NotAfter (rank s now x) (rank s now y)) (a ∷ rest)) ranked_first e
