-- ===== src/Resolver/RecursiveResolver/Retries.antt =====
-- core/resolver/recursive_resolver.cpp: `next_server` asks no server again but in one of the few
-- rounds of retries.
use dnsentinal.Common.{
  ℕ, zero, suc, ◌+◌, ◌≤◌, ◌<◌, ◌≡◌, ◌⊎◌, refl, true, false, List, [], ◌∷◌, Option, none, some, All,
  arith, Bool-cases, inl, inr, leb,
}
use dnsentinal.Types.{Question}
use dnsentinal.Cache.Entries.{Layout}
use dnsentinal.Resolver.ServerSelection.{Selection, pick}
use dnsentinal.Resolver.ServerSelection.Choice.{Among, here, later, pick-Among}
use dnsentinal.Resolver.Upstream.{udp}
use dnsentinal.Resolver.RecursiveResolver.{
  Address, ResolverConfig, RootHints, Task, Shared, Step, then_next, Next, asks, finishes, fails,
  looks_up, has_address, untried, none_of, next_glueless, next_round, may_retry, no_server,
  send_query, next_server_on, next_server, max_retry_rounds, all_servers_failed,
}
use dnsentinal.Resolver.RecursiveResolver.Loops.{next_glueless-retry_rounds, may_retry-rounds}

abbrev pub task_of : Step → Task
task_of (then_next t s next) = t

-- The server that a step asks, if it asks one, was not tried, or this is a further round.
abbrev pub AsksAfresh : Task → Step → Type 0
AsksAfresh t (then_next asked s (asks ask)) =
    (has_address ask.server t.tried ≡ false) ⊎ (t.retry_rounds < asked.retry_rounds)
AsksAfresh t (then_next asked s (finishes response)) = Unit {0}
AsksAfresh t (then_next asked s (fails error)) = Unit {0}
AsksAfresh t (then_next asked s (looks_up q ancestry)) = Unit {0}

-- The rounds only rise, to `max_retry_rounds` at most.
pub record Retries (t : Task) (st : Step) : Type 0 where
  pub rises : t.retry_rounds ≤ (task_of st).retry_rounds
  pub capped : (task_of st).retry_rounds ≤ max_retry_rounds
  pub fresh : AsksAfresh t st

All-Among_get :
    (P : Address → Type 0) (a : Address) (xs : List Address) → All P xs → Among a xs → P a
All-Among_get P a [] h k = elim k [ ]
All-Among_get P a (x ∷ xs) h here = h.0
All-Among_get P a (x ∷ xs) h (later k) = All-Among_get P a xs h.1 k

untried-All :
    (servers tried : List Address) → All (λ a. has_address a tried ≡ false) (untried servers tried)
untried-All [] tried = tt
untried-All (a ∷ servers) tried = elim (Bool-cases (has_address a tried)) [
  | inl e ↦ rw e (untried-All servers tried)
  | inr e ↦ rw e (e, untried-All servers tried)
]

-- A step on a task that is in the rounds of `t`.
same-Retries :
    (t asked : Task) (s : Shared) (next : Next)
    → asked.retry_rounds ≡ t.retry_rounds
    → t.retry_rounds ≤ max_retry_rounds
    → AsksAfresh t (then_next asked s next)
    → Retries t (then_next asked s next)
same-Retries t asked s next same few h = record {
  rises = omega (arith, same);
  capped = omega (arith, same, few);
  fresh = h;
}

later_AsksAfresh :
    (t u : Task) (st : Step)
    → t.retry_rounds < u.retry_rounds
    → u.retry_rounds ≤ (task_of st).retry_rounds
    → AsksAfresh t st
later_AsksAfresh t u (then_next asked s (asks ask)) h k = inr (omega (arith, h, k))
later_AsksAfresh t u (then_next asked s (finishes response)) h k = tt
later_AsksAfresh t u (then_next asked s (fails error)) h k = tt
later_AsksAfresh t u (then_next asked s (looks_up q ancestry)) h k = tt

-- A step of a further round.
later-Retries :
    (t u : Task) (st : Step) → t.retry_rounds < u.retry_rounds → Retries u st → Retries t st
later-Retries t u st h r = record {
  rises = omega (arith, h, r.rises);
  capped = r.capped;
  fresh = later_AsksAfresh t u st h r.rises;
}

module _ (config : ResolverConfig) (hints : RootHints) (layout : Layout) (uniform : ℕ → ℕ → ℕ)
    (below : (k n : ℕ) → 0 < n → uniform k n < n) (random : ℕ → ℕ) (now : ℕ) where
  send_query-Retries :
      (t : Task) (s : Shared) (address : Address)
      → t.retry_rounds ≤ max_retry_rounds
      → has_address address t.tried ≡ false
      → Retries t (send_query config hints layout uniform random now t s address udp)
  unfolding send_query
  send_query-Retries t s address few e =
      elim (Bool-cases (leb config.max_upstream_queries s.queries)) [
        | inl full ↦ rw (full, send_query) (same-Retries t _ _ _ refl few tt)
        | inr room ↦ rw (room, send_query) (same-Retries t _ _ _ refl few (inl e))
      ]

  pick-untried :
      (selection : Selection) (servers tried : List Address)
      → none_of (untried servers tried) ≡ false
      → has_address (pick selection uniform now (untried servers tried)) tried ≡ false
  pick-untried selection servers tried h = go (untried servers tried) (untried-All servers tried) h
    where
      go :
          (open_servers : List Address)
          → All (λ a. has_address a tried ≡ false) open_servers
          → none_of open_servers ≡ false
          → has_address (pick selection uniform now open_servers) tried ≡ false
      go [] v k = absurd (cc)
      go (a ∷ rest) v k =
          All-Among_get (λ b. has_address b tried ≡ false) (pick selection uniform now (a ∷ rest))
            (a ∷ rest) v (pick-Among selection uniform below now a rest)

  no_server-Retries :
      (t asked : Task) (s : Shared) (o : Option Question) (retried : Step)
      → asked.retry_rounds ≡ t.retry_rounds
      → t.retry_rounds ≤ max_retry_rounds
      → (may_retry asked ≡ true → Retries t retried)
      → Retries t (no_server t asked s o retried)
  unfolding no_server
  no_server-Retries t asked s (some q) retried same few h = same-Retries t asked s _ same few tt
  no_server-Retries t asked s none retried same few h = elim (Bool-cases (may_retry asked)) [
    | inl e ↦ rw e (h e)
    | inr e ↦ rw e (same-Retries t asked s (fails all_servers_failed) same few tt)
  ]

  next_server_on-Retries :
      (fuel : ℕ) (t : Task) (s : Shared)
      → t.retry_rounds ≤ max_retry_rounds
      → Retries t (next_server_on config hints layout uniform random now fuel t s)
  unfolding next_server_on
  next_server_on-Retries zero t s few = same-Retries t t s (fails all_servers_failed) refl few tt
  next_server_on-Retries (suc fuel) t s few =
      let found = next_glueless config t t.unresolved in
      let same = next_glueless-retry_rounds config t t.unresolved in
      let again = next_round found.0 in
      let open_servers = untried t.servers t.tried in
      let retried = next_server_on config hints layout uniform random now fuel again s in
      let a = pick s.selection uniform now open_servers in
      elim (Bool-cases (none_of open_servers)) [
        | inl e ↦
            rw (next_server_on, e)
              (no_server-Retries t found.0 s found.1 retried same few (λ may.
                let rounds = may_retry-rounds found.0 may in
                later-Retries t again retried (omega (arith, same, rounds))
                  (next_server_on-Retries fuel again s (omega (arith, same, rounds)))))
        | inr e ↦
            rw (next_server_on, e)
              (send_query-Retries t s a few (pick-untried s.selection t.servers t.tried e))
      ]

  -- Where `uniform` draws below its bound and the task is in a round of retries up to
  -- `max_retry_rounds`: `next_server` leaves it in that round or in a later one, again up to
  -- `max_retry_rounds`, and if it asks a server that was tried already, then in a later one.
  pub next_server-Retries :
      (t : Task) (s : Shared)
      → t.retry_rounds ≤ max_retry_rounds
      → Retries t (next_server config hints layout uniform random now t s)
  unfolding next_server
  next_server-Retries t s few = next_server_on-Retries (1 + max_retry_rounds) t s few
