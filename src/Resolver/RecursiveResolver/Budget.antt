-- ===== src/Resolver/RecursiveResolver/Budget.antt =====
-- core/resolver/recursive_resolver.cpp: asking a server counts in the client's budget.
use dnsentinal.Common.{
  ℕ, zero, suc, ◌+◌, ◌^◌, ◌<◌, ◌≤◌, ◌≡◌, refl, Bool, true, false, Option, none, some, arith,
  Bool-cases, inl, inr, leb, if◌then◌else◌,
}
use dnsentinal.Types.{Question}
use dnsentinal.Resolver.ServerSelection.{pick}
use dnsentinal.Cache.Entries.{Layout}
use dnsentinal.Resolver.Upstream.{Transport, udp}
use dnsentinal.Resolver.RecursiveResolver.{
  ResolverConfig, RootHints, Task, Shared, Step, Next, then_next, shared_of, no_server, may_retry,
  fails, all_servers_failed, send_query, next_server_on, next_server, Address, Answered, found,
  too_long, ended, Cached, hit, chain_too_long, miss, finishes, asks, looks_up, from_cache,
  from_answers, next_glueless, next_round, max_retry_rounds, untried, none_of,
}

-- The queries that a step sends.
abbrev pub sent_by : Next → ℕ
sent_by (asks ask) = 1
sent_by (finishes response) = 0
sent_by (fails error) = 0
sent_by (looks_up q ancestry) = 0

abbrev pub next_of : Step → Next
next_of (then_next t s next) = next

-- After a step the client's budget is within its limit, and counts one more for a query sent.
pub record Within (config : ResolverConfig) (before : ℕ) (st : Step) : Type 0 where
  pub within : (shared_of st).queries ≤ config.max_upstream_queries
  pub spent : (shared_of st).queries ≡ before + sent_by (next_of st)

abbrev pub Fits : ResolverConfig → Shared → Type 0
Fits config s = s.queries ≤ config.max_upstream_queries

module _ (config : ResolverConfig) (hints : RootHints) (layout : Layout) (uniform : ℕ → ℕ → ℕ)
    (random : ℕ → ℕ) (now : ℕ) (small : config.max_upstream_queries < 2 ^ 32) where
  pub if-Within :
      {n : ℕ} (b : Bool) (x y : Step)
      → Within config n x
      → Within config n y
      → Within config n (if b then x else y)
  if-Within true x y h k = h
  if-Within false x y h k = k

  -- A step that sends nothing.
  pub quiet-Within :
      (t : Task) (s : Shared) (n : Next)
      → sent_by n ≡ 0
      → Fits config s
      → Within config s.queries (then_next t s n)
  quiet-Within t s n e h = record { within = h; spent = omega (arith, e) }

  pub send_query-Within :
      (t : Task) (s : Shared) (address : Address) (transport : Transport)
      → Fits config s
      → Within config s.queries
          (send_query config hints layout uniform random now t s address transport)
  unfolding send_query
  send_query-Within t s address transport h =
      elim (Bool-cases (leb config.max_upstream_queries s.queries)) [
        | inl e ↦ rw (e, send_query) (record { within = h; spent = omega arith })
        | inr e ↦
            rw (e, send_query)
              (record { within = ground (arith, e, h, small); spent = ground (arith, e, h, small) })
      ]

  no_server-Within :
      (t asked : Task) (s : Shared) (o : Option Question) (retried : Step)
      → Fits config s
      → Within config s.queries retried
      → Within config s.queries (no_server t asked s o retried)
  unfolding no_server
  no_server-Within t asked s (some q) retried h k = record { within = h; spent = omega arith }
  no_server-Within t asked s none retried h k =
      if-Within (may_retry asked) _ _ k (quiet-Within asked s (fails all_servers_failed) refl h)

  next_server_on-Within :
      (fuel : ℕ) (t : Task) (s : Shared)
      → Fits config s
      → Within config s.queries (next_server_on config hints layout uniform random now fuel t s)
  unfolding next_server_on
  next_server_on-Within zero t s h = record { within = h; spent = omega arith }
  next_server_on-Within (suc fuel) t s h =
      let step = next_glueless config t t.unresolved in
      let retried =
        next_server_on config hints layout uniform random now fuel (next_round step.0) s in
      let a = pick s.selection uniform now (untried t.servers t.tried) in
      if-Within (none_of (untried t.servers t.tried)) (no_server t step.0 s step.1 retried)
        (send_query config hints layout uniform random now t s a udp)
        (no_server-Within t step.0 s step.1 retried h
          (next_server_on-Within fuel (next_round step.0) s h))
        (send_query-Within t s a udp h)

  pub next_server-Within :
      (t : Task) (s : Shared)
      → Fits config s
      → Within config s.queries (next_server config hints layout uniform random now t s)
  unfolding next_server
  next_server-Within t s h = next_server_on-Within (1 + max_retry_rounds) t s h

  pub from_cache-Within :
      (t : Task) (s : Shared) (c : Cached) (asking : Step)
      → Fits config s
      → Within config s.queries asking
      → Within config s.queries (from_cache t s c asking)
  unfolding from_cache
  from_cache-Within t s (hit response) asking h k = record { within = h; spent = omega arith }
  from_cache-Within t s chain_too_long asking h k = record { within = h; spent = omega arith }
  from_cache-Within t s miss asking h k = k

  pub from_answers-Within :
      (t : Task) (s : Shared) (a : Answered) (afresh rest : Step)
      → Fits config s
      → Within config s.queries afresh
      → Within config s.queries rest
      → Within config s.queries (from_answers t s a afresh rest)
  unfolding from_answers
  from_answers-Within t s (found records) afresh rest h k l = record {
    within = h;
    spent = omega arith;
  }
  from_answers-Within t s too_long afresh rest h k l = record { within = h; spent = omega arith }
  from_answers-Within t s (ended true) afresh rest h k l = k
  from_answers-Within t s (ended false) afresh rest h k l = l
