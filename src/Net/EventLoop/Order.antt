-- ===== src/Net/EventLoop/Order.antt =====
-- core/net/event_loop.cpp: `timers_` stays in the order of its keys.
use dnsentinal.Common.{
  ◌≡◌, refl, subst, Bool, true, false, List, [], ◌∷◌, ◌≤◌, All, keep_if, length, arith, Bool-cases,
  inl, inr,
}
use dnsentinal.Net.EventLoop.{Timer, before, emplace}

-- What is left of a list when some elements are dropped.
pub data Subsequence {A : Type 0} : List A → List A → Type 0 where
  none_left : Subsequence [] []
  kept : {x : A} {xs ys : List A} → Subsequence xs ys → Subsequence (x ∷ xs) (x ∷ ys)
  dropped : {y : A} {xs ys : List A} → Subsequence xs ys → Subsequence xs (y ∷ ys)

module _ {A : Type 0} where
  pub Subsequence-refl : (xs : List A) → Subsequence xs xs
  Subsequence-refl [] = none_left
  Subsequence-refl (x ∷ xs) = kept (Subsequence-refl xs)

  pub Subsequence-trans :
      {ys zs : List A} → Subsequence ys zs → {xs : List A} → Subsequence xs ys → Subsequence xs zs
  Subsequence-trans none_left s = s
  Subsequence-trans (kept t) (kept s) = kept (Subsequence-trans t s)
  Subsequence-trans (kept t) (dropped s) = dropped (Subsequence-trans t s)
  Subsequence-trans (dropped t) s = dropped (Subsequence-trans t s)

  pub Subsequence-eq : {xs ys : List A} → xs ≡ ys → Subsequence xs ys
  Subsequence-eq {xs} e = subst (Subsequence xs) e (Subsequence-refl xs)

  pub Subsequence-length : {xs ys : List A} → Subsequence xs ys → length xs ≤ length ys
  Subsequence-length none_left = omega arith
  Subsequence-length (kept s) = omega (arith, Subsequence-length s)
  Subsequence-length (dropped s) = omega (arith, Subsequence-length s)

  pub Subsequence-nil : (xs : List A) → Subsequence [] xs
  Subsequence-nil [] = none_left
  Subsequence-nil (x ∷ xs) = dropped (Subsequence-nil xs)

  pub Subsequence-keep_if :
      (p q : A → Bool) (xs : List A) → Subsequence (keep_if p (keep_if q xs)) (keep_if p xs)
  Subsequence-keep_if p q [] = none_left
  Subsequence-keep_if p q (x ∷ xs) = elim (Bool-cases (q x)) [
    | inl e ↦ elim (Bool-cases (p x)) [
      | inl f ↦ rw (e, f) (kept (Subsequence-keep_if p q xs))
      | inr f ↦ rw (e, f) (Subsequence-keep_if p q xs)
    ]
    | inr e ↦ elim (Bool-cases (p x)) [
      | inl f ↦ rw (e, f) (dropped (Subsequence-keep_if p q xs))
      | inr f ↦ rw (e, f) (Subsequence-keep_if p q xs)
    ]
  ]

  pub All-keep_if : (P : A → Type 0) (q : A → Bool) (xs : List A) → All P xs → All P (keep_if q xs)
  All-keep_if P q [] h = tt
  All-keep_if P q (x ∷ xs) h = elim (Bool-cases (q x)) [
    | inl e ↦ rw e (h.0, All-keep_if P q xs h.1)
    | inr e ↦ rw e (All-keep_if P q xs h.1)
  ]

  pub keep_if-none : (p : A → Bool) (xs : List A) → All (λ x. p x ≡ false) xs → keep_if p xs ≡ []
  keep_if-none p [] h = refl
  keep_if-none p (x ∷ xs) h = rw h.0 (keep_if-none p xs h.1)

  pub All-map : {P Q : A → Type 0} (xs : List A) → ((x : A) → P x → Q x) → All P xs → All Q xs
  All-map [] f h = tt
  All-map (x ∷ xs) f h = (f x h.0, All-map xs f h.1)

module _ {C : Type 0} where
  abbrev pub Before : Timer C → Timer C → Type 0
  Before s t = before s t ≡ true

  abbrev pub Ordered : List (Timer C) → Type 0
  Ordered [] = Unit
  Ordered (t ∷ rest) = All (Before t) rest × Ordered rest

  Before-trans : (s t u : Timer C) → Before s t → Before t u → Before s u
  unfolding before
  Before-trans s t u h k = ground arith

  pub All-emplace :
      (P : Timer C → Type 0) (t : Timer C) (ts : List (Timer C))
      → P t
      → All P ts
      → All P (emplace t ts)
  unfolding emplace
  All-emplace P t [] p h = (p, tt)
  All-emplace P t (s ∷ rest) p h = elim (Bool-cases (before t s)) [
    | inl e ↦ rw e (p, h)
    | inr e ↦ elim (Bool-cases (before s t)) [
      | inl f ↦ rw (e, f) (h.0, All-emplace P t rest p h.1)
      | inr f ↦ rw (e, f) h
    ]
  ]

  pub emplace-Ordered : (t : Timer C) (ts : List (Timer C)) → Ordered ts → Ordered (emplace t ts)
  unfolding emplace
  emplace-Ordered t [] h = (tt, tt)
  emplace-Ordered t (s ∷ rest) h = elim (Bool-cases (before t s)) [
    | inl e ↦ rw e ((e, All-map rest (λ u k. Before-trans t s u e k) h.0), h)
    | inr e ↦ elim (Bool-cases (before s t)) [
      | inl f ↦ rw (e, f) (All-emplace (Before s) t rest f h.0, emplace-Ordered t rest h.1)
      | inr f ↦ rw (e, f) h
    ]
  ]

  pub keep_if-Ordered :
      (q : Timer C → Bool) (ts : List (Timer C)) → Ordered ts → Ordered (keep_if q ts)
  keep_if-Ordered q [] h = tt
  keep_if-Ordered q (t ∷ rest) h = elim (Bool-cases (q t)) [
    | inl e ↦ rw e (All-keep_if (Before t) q rest h.0, keep_if-Ordered q rest h.1)
    | inr e ↦ rw e (keep_if-Ordered q rest h.1)
  ]

  -- A timer that a test refuses does not change what passes it.
  pub keep_if-emplace :
      (p : Timer C → Bool) (t : Timer C) (ts : List (Timer C))
      → p t ≡ false
      → keep_if p (emplace t ts) ≡ keep_if p ts
  unfolding emplace
  keep_if-emplace p t [] h = rw h refl
  keep_if-emplace p t (s ∷ rest) h = ground (arith, keep_if-emplace p t rest h)
