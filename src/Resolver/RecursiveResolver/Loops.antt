-- ===== src/Resolver/RecursiveResolver/Loops.antt =====
-- core/resolver/recursive_resolver.cpp: the retries end.
use dnsentinal.Common.{
  ℕ, zero, suc, ◌+◌, ◌<◌, ◌≤◌, ◌≡◌, refl, true, not, List, [], ◌∷◌, Option, none, some, arith,
  Bool-cases, inl, inr, leb, ltb, if◌then◌else◌, ◌||◌, length, ap,
}
use dnsentinal.Types.{Name, Question}
use dnsentinal.Types.RrType
use dnsentinal.Cache.Entries.{Layout}
use dnsentinal.Resolver.ServerSelection.{pick}
use dnsentinal.Resolver.Upstream.{udp}
use dnsentinal.Resolver.RecursiveResolver.{
  ResolverConfig, RootHints, Task, Shared, Step, next_glueless, next_round, may_retry, no_server,
  send_query, next_server_on, next_server, max_retry_rounds, none_of, untried, would_cycle,
  max_subquery_depth, class_in,
}

pub next_glueless-retry_rounds :
    (config : ResolverConfig) (t : Task) (names : List Name)
    → (next_glueless config t names).0.retry_rounds ≡ t.retry_rounds
unfolding next_glueless
next_glueless-retry_rounds config t [] = refl
next_glueless-retry_rounds config t (n ∷ rest) =
    let q : Question = record { qname = n; qtype = RrType.a_record; qclass = class_in } in
    let skips = would_cycle t q || leb max_subquery_depth (length t.ancestry) in
    elim (Bool-cases (not (ltb t.glueless_lookups config.max_glueless_ns))) [
      | inl e ↦ simp e refl
      | inr e ↦ elim (Bool-cases skips) [
        | inl f ↦ simp (e, f) (next_glueless-retry_rounds config t rest)
        | inr f ↦ simp (e, f) refl
      ]
    ]

pub may_retry-rounds : (t : Task) → may_retry t ≡ true → t.retry_rounds < 2
may_retry-rounds t h = ground (arith, h)

no_server-ap :
    (t asked : Task) (s : Shared) (o : Option Question) (x y : Step)
    → (may_retry asked ≡ true → x ≡ y)
    → no_server t asked s o x ≡ no_server t asked s o y
unfolding no_server
no_server-ap t asked s (some q) x y h = refl
no_server-ap t asked s none x y h = elim (Bool-cases (may_retry asked)) [
  | inl e ↦ rw (e, h e) refl
  | inr e ↦ rw e refl
]

module _ (config : ResolverConfig) (hints : RootHints) (layout : Layout) (uniform : ℕ → ℕ → ℕ)
    (random : ℕ → ℕ) (now : ℕ) where
  abbrev asks_next : ℕ → Task → Shared → Step
  asks_next = next_server_on config hints layout uniform random now

  next_server_on-ap :
      (m n : ℕ) (t : Task) (s : Shared)
      → (may_retry (next_glueless config t t.unresolved).0 ≡ true
          → asks_next m (next_round (next_glueless config t t.unresolved).0) s
            ≡ asks_next n (next_round (next_glueless config t t.unresolved).0) s)
      → asks_next (suc m) t s ≡ asks_next (suc n) t s
  unfolding next_server_on
  next_server_on-ap m n t s h =
      let found = next_glueless config t t.unresolved in
      let again : ℕ → Step = λ fuel. asks_next fuel (next_round found.0) s in
      let a = pick s.selection uniform now (untried t.servers t.tried) in
      ap
        (λ (x : Step).
          if none_of (untried t.servers t.tried)
          then x
          else send_query config hints layout uniform random now t s a udp)
        (no_server-ap t found.0 s found.1 (again m) (again n) h)

  next_server_on-enough :
      (m n : ℕ) (t : Task) (s : Shared)
      → max_retry_rounds ≤ t.retry_rounds + m
      → max_retry_rounds ≤ t.retry_rounds + n
      → asks_next (suc m) t s ≡ asks_next (suc n) t s
  next_server_on-enough zero n t s h k = next_server_on-ap zero n t s (λ e.
      let same = next_glueless-retry_rounds config t t.unresolved in
      let few = may_retry-rounds (next_glueless config t t.unresolved).0 e in
      absurd (omega (arith, same, few, h)))
  next_server_on-enough (suc m) zero t s h k = next_server_on-ap (suc m) zero t s (λ e.
      let same = next_glueless-retry_rounds config t t.unresolved in
      let few = may_retry-rounds (next_glueless config t t.unresolved).0 e in
      absurd (omega (arith, same, few, k)))
  next_server_on-enough (suc m) (suc n) t s h k = next_server_on-ap (suc m) (suc n) t s (λ e.
      let same = next_glueless-retry_rounds config t t.unresolved in
      let few = may_retry-rounds (next_glueless config t t.unresolved).0 e in
      next_server_on-enough m n (next_round (next_glueless config t t.unresolved).0) s
        (omega (arith, same, few, h)) (omega (arith, same, few, k)))

  -- The retries of the servers that timed out end: `next_server` with any fuel above the retry
  -- rounds there may be comes to the same.
  pub next_server_on-next_server :
      (fuel : ℕ) (t : Task) (s : Shared)
      → max_retry_rounds < fuel
      → asks_next fuel t s ≡ next_server config hints layout uniform random now t s
  unfolding next_server
  next_server_on-next_server zero t s h = absurd (omega (arith, h))
  next_server_on-next_server (suc fuel) t s h =
      next_server_on-enough fuel max_retry_rounds t s (omega (arith, h)) (omega arith)
