-- ===== src/Resolver/RecursiveResolver/Hops.antt =====
-- core/resolver/recursive_resolver.cpp: the loops over aliases end.
use dnsentinal.Common.{
  ℕ, zero, suc, ◌+◌, ◌%◌, ◌^◌, ◌<◌, ◌≤◌, ◌≡◌, refl, Bool, true, false, List, [], ◌∷◌, Option, none,
  arith, Bool-cases, Option-cases, inl, inr, ltb, if◌then◌else◌, ◌==◌, ◌⊎◌,
}
use mathlib.Core.Bool.{false≢true}
use dnsentinal.Types.{Rr, Message}
use dnsentinal.Types.RrType
use dnsentinal.Cache.{Cache, lookup, insert}
use dnsentinal.Cache.Entries.{Layout}
use dnsentinal.Resolver.RecursiveResolver.{
  ResolverConfig, RootHints, Task, follow_cname, read_cache, Cached, cname_target, read_answers,
  Answered, answer_rank, has_records, collect, key_in, nxdomain_type, negative_records,
  authoritative, alias_of,
}

List-cases {ℓ} :
    {A : Type ℓ} → (xs : List A) → (xs ≡ []) ⊎ ((x : A) × (rest : List A) × (xs ≡ x ∷ rest))
List-cases [] = inl refl
List-cases (x ∷ rest) = inr (x, rest, refl)

module _ (config : ResolverConfig) (hints : RootHints) (layout : Layout) (uniform : ℕ → ℕ → ℕ)
    (random : ℕ → ℕ) (now : ℕ) where
  abbrev reads : ℕ → Task → Cache → (Task × Cache) × Cached
  reads = read_cache config hints layout uniform random now

  -- The hops after an alias was followed.
  follow_cname-hops :
      (t : Task) (r : Rr)
      → (follow_cname config t r).1 ≡ true
      → ((follow_cname config t r).0.cname_hops ≡ (t.cname_hops + 1) % 2 ^ 8)
        × ((t.cname_hops + 1) % 2 ^ 8 ≤ config.max_cname_chain)
  unfolding follow_cname
  follow_cname-hops t r =
      let hops = (t.cname_hops + 1) % 2 ^ 8 in
      elim (Option-cases (cname_target r.rdata)) [
        | inl e ↦ rw (follow_cname, e) (λ h. absurd (false≢true h))
        | inr (target, e) ↦ elim (Bool-cases (ltb config.max_cname_chain hops)) [
          | inl f ↦ rw (follow_cname, e, f) (λ h. absurd (false≢true h))
          | inr f ↦ rw (follow_cname, e, f) (λ h. (refl, ground (arith, f)))
        ]
      ]

  read_cache-ap :
      (m n : ℕ) (t : Task) (cache : Cache)
      → ((r : Rr) (c : Cache)
          → (follow_cname config t r).1 ≡ true
          → reads m (follow_cname config t r).0 c ≡ reads n (follow_cname config t r).0 c)
      → reads (suc m) t cache ≡ reads (suc n) t cache
  unfolding read_cache lookup
  read_cache-ap m n t cache h =
      let qtype = t.question.qtype in
      let nx = lookup cache (key_in t.qname nxdomain_type) now in
      let direct = lookup nx.0 (key_in t.qname qtype) now in
      let alias = lookup direct.0 (key_in t.qname RrType.cname_record) now in
      let followed = λ (r : Rr). follow_cname config t r in
      let next : Option Rr =
        if qtype == RrType.cname_record then none else alias_of alias.1.entry in
      elim (Option-cases nx.1.entry) [
        | inr (e, a) ↦ rw (read_cache, a) refl
        | inl a ↦ elim (Option-cases (negative_records direct.1.entry)) [
          | inr (proof, b) ↦ rw (read_cache, a, b) refl
          | inl b ↦ elim (Option-cases (authoritative direct.1.entry)) [
            | inr (records, c) ↦ rw (read_cache, a, b, c) refl
            | inl c ↦ elim (Option-cases next) [
              | inl d ↦ rw (read_cache, a, b, c, d) refl
              | inr (r, d) ↦ elim (Bool-cases (followed r).1) [
                | inl f ↦ rw (read_cache, a, b, c, d, f) (h r alias.0 f)
                | inr f ↦ rw (read_cache, a, b, c, d, f) refl
              ]
            ]
          ]
        ]
      ]

  -- How far the hops are from the most of them, before an alias is followed and after.
  hops_left :
      (t : Task) (r : Rr) (m : ℕ)
      → config.max_cname_chain < 255
      → t.cname_hops ≤ config.max_cname_chain
      → config.max_cname_chain ≤ t.cname_hops + m
      → (follow_cname config t r).1 ≡ true
      → ((follow_cname config t r).0.cname_hops ≡ t.cname_hops + 1)
        × (t.cname_hops < config.max_cname_chain)
        × (0 < m)
  hops_left t r m small few h e =
      let (same, within) = follow_cname-hops t r e in
      (
        omega (arith, same, few, small),
        omega (arith, within, few, small),
        omega (arith, within, few, small, h),
      )

  read_cache-enough :
      (m n : ℕ) (t : Task) (cache : Cache)
      → config.max_cname_chain < 255
      → t.cname_hops ≤ config.max_cname_chain
      → config.max_cname_chain ≤ t.cname_hops + m
      → config.max_cname_chain ≤ t.cname_hops + n
      → reads (suc m) t cache ≡ reads (suc n) t cache
  read_cache-enough zero n t cache small few h k = read_cache-ap zero n t cache (λ r c e.
      let (same, within, positive) = hops_left t r zero small few h e in
      absurd (omega (arith, positive)))
  read_cache-enough (suc m) zero t cache small few h k =
      read_cache-ap (suc m) zero t cache (λ r c e.
        let (same, within, positive) = hops_left t r zero small few k e in
        absurd (omega (arith, positive)))
  read_cache-enough (suc m) (suc n) t cache small few h k =
      read_cache-ap (suc m) (suc n) t cache (λ r c e.
        let (same, within, positive) = hops_left t r (suc m) small few h e in
        read_cache-enough m n (follow_cname config t r).0 c small (omega (arith, same, within))
          (omega (arith, same, h)) (omega (arith, same, k)))

  abbrev answers_read : ℕ → Task → Cache → Message → Bool → (Task × Cache) × Answered
  answers_read = read_answers config hints layout uniform random now

  read_answers-ap :
      (m n : ℕ) (t : Task) (cache : Cache) (response : Message) (followed : Bool)
      → ((r : Rr) (c : Cache)
          → (follow_cname config t r).1 ≡ true
          → answers_read m (follow_cname config t r).0 c response true
            ≡ answers_read n (follow_cname config t r).0 c response true)
      → answers_read (suc m) t cache response followed
        ≡ answers_read (suc n) t cache response followed
  unfolding read_answers
  read_answers-ap m n t cache response followed h =
      let is_cname = t.question.qtype == RrType.cname_record in
      let rank = answer_rank response.header.aa in
      let key = key_in t.qname RrType.cname_record in
      let aliased = λ (r : Rr). insert layout cache key (r ∷ []) rank r.ttl false now in
      elim (Bool-cases (has_records (collect response.answers t.qname t.question.qtype))) [
        | inl a ↦ rw (read_answers, a) refl
        | inr a ↦ elim (Bool-cases is_cname) [
          | inl b ↦ rw (read_answers, a, b) refl
          | inr b ↦ elim (List-cases (collect response.answers t.qname RrType.cname_record)) [
            | inl c ↦ rw (read_answers, a, b, c) refl
            | inr (r, rest, c) ↦ elim (Bool-cases (follow_cname config t r).1) [
              | inl d ↦ rw (read_answers, a, b, c, d) (h r (aliased r) d)
              | inr d ↦ rw (read_answers, a, b, c, d) refl
            ]
          ]
        ]
      ]

  read_answers-enough :
      (m n : ℕ) (t : Task) (cache : Cache) (response : Message) (followed : Bool)
      → config.max_cname_chain < 255
      → t.cname_hops ≤ config.max_cname_chain
      → config.max_cname_chain ≤ t.cname_hops + m
      → config.max_cname_chain ≤ t.cname_hops + n
      → answers_read (suc m) t cache response followed
        ≡ answers_read (suc n) t cache response followed
  read_answers-enough zero n t cache response followed small few h k =
      read_answers-ap zero n t cache response followed (λ r c e.
        let (same, within, positive) = hops_left t r zero small few h e in
        absurd (omega (arith, positive)))
  read_answers-enough (suc m) zero t cache response followed small few h k =
      read_answers-ap (suc m) zero t cache response followed (λ r c e.
        let (same, within, positive) = hops_left t r zero small few k e in
        absurd (omega (arith, positive)))
  read_answers-enough (suc m) (suc n) t cache response followed small few h k =
      read_answers-ap (suc m) (suc n) t cache response followed (λ r c e.
        let (same, within, positive) = hops_left t r (suc m) small few h e in
        read_answers-enough m n (follow_cname config t r).0 c response true small
          (omega (arith, same, within)) (omega (arith, same, h)) (omega (arith, same, k)))

  -- If `max_cname_chain` is below 255 and the task has followed no more aliases than that, the loops
  -- over the cached aliases and over those of a response end: with any fuel above the limit they come
  -- to the same.
  pub read_cache-read_answers :
      (fuel : ℕ) (t : Task) (cache : Cache) (response : Message) (followed : Bool)
      → config.max_cname_chain < 255
      → t.cname_hops ≤ config.max_cname_chain
      → config.max_cname_chain < fuel
      → (reads fuel t cache ≡ reads (1 + config.max_cname_chain) t cache)
        × (answers_read fuel t cache response followed
            ≡ answers_read (1 + config.max_cname_chain) t cache response followed)
  read_cache-read_answers zero t cache response followed small few h = absurd (omega (arith, h))
  read_cache-read_answers (suc n) t cache response followed small few h =
      let most = config.max_cname_chain in
      let enough : most ≤ t.cname_hops + n = omega (arith, h) in
      let one : 1 + most ≡ suc most = omega arith in
      rw one (
        read_cache-enough n most t cache small few enough (omega arith),
        read_answers-enough n most t cache response followed small few enough (omega arith),
      )
