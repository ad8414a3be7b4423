-- ===== src/Resolver/RecursiveResolver/Spending.antt =====
-- core/resolver/recursive_resolver.cpp: the queries that a client's resolution sends, over all of its
-- steps and those of its sub-queries, which share its budget.
use dnsentinal.Common.{ℕ, ◌+◌, ◌^◌, ◌≤◌, ◌<◌, List, [], ◌∷◌, Option, arith}
use dnsentinal.Common.Int.{ℤ}
use dnsentinal.Types.{Message}
use dnsentinal.Cache.{Cache}
use dnsentinal.Cache.Entries.{Layout}
use dnsentinal.Resolver.ServerSelection.{Selection}
use dnsentinal.Resolver.Upstream.{Reply}
use dnsentinal.Resolver.RecursiveResolver.{
  Address, ResolverConfig, RootHints, Task, Shared, Step, shared_of, step, on_child_done,
  on_response,
}
use dnsentinal.Resolver.RecursiveResolver.Budget.{Within, sent_by, next_of}
use dnsentinal.Resolver.RecursiveResolver.Handlers.{
  step-Within, on_child_done-Within, on_response-Within,
}

-- What a task goes on with.
pub data Input : Type 0 where
  begins : Input
  child_done : Option Message → Input
  replied : Reply → ℤ → Input

-- One step of one of the tasks: whatever state it finds, but for the budget.
pub record Visit : Type 0 where
  pub task : Task
  pub input : Input
  pub cache : Cache
  pub selection : Selection
  pub no_0x20 : List Address
  pub uniform : ℕ → ℕ → ℕ
  pub random : ℕ → ℕ
  pub now : ℕ

abbrev found : Visit → ℕ → Shared
found v queries = record {
  cache = v.cache;
  selection = v.selection;
  no_0x20 = v.no_0x20;
  queries = queries;
}

module _ (config : ResolverConfig) (hints : RootHints) (layout : Layout) where
  unfoldable pub take_input : Visit → Input → ℕ → Step
  take_input v begins n = step config hints layout v.uniform v.random v.now v.task (found v n)
  take_input v (child_done o) n =
      on_child_done config hints layout v.uniform v.random v.now v.task (found v n) o
  take_input v (replied reply rtt) n =
      on_response config hints layout v.uniform v.random v.now v.task (found v n) reply rtt

  -- The queries sent in the steps, from a budget of which `n` are spent.
  unfoldable pub queries_sent : List Visit → ℕ → ℕ
  queries_sent [] n = 0
  queries_sent (v ∷ rest) n =
      let taken = take_input v v.input n in
      sent_by (next_of taken) + queries_sent rest (shared_of taken).queries

  take_input-Within :
      config.max_upstream_queries < 2 ^ 32
      → (v : Visit) (input : Input) (n : ℕ) → n ≤ config.max_upstream_queries
      → Within config n (take_input v input n)
  unfolding take_input
  take_input-Within small v begins n h =
      step-Within config hints layout v.uniform v.random v.now small v.task (found v n) h
  take_input-Within small v (child_done o) n h =
      on_child_done-Within config hints layout v.uniform v.random v.now small v.task (found v n) o h
  take_input-Within small v (replied reply rtt) n h =
      on_response-Within config hints layout v.uniform v.random v.now small v.task (found v n) reply
        rtt h

  -- Whatever steps the tasks of one client's resolution take, in whatever order and whatever they
  -- are answered, the queries that they send are together no more than what is left of
  -- `max_upstream_queries`, a limit below 2^32.
  pub queries_sent_lem :
      (visits : List Visit) (n : ℕ)
      → config.max_upstream_queries < 2 ^ 32
      → n ≤ config.max_upstream_queries
      → n + queries_sent visits n ≤ config.max_upstream_queries
  unfolding queries_sent
  queries_sent_lem [] n small h = omega (arith, h)
  queries_sent_lem (v ∷ rest) n small h =
      let w = take_input-Within small v v.input n h in
      let later =
        queries_sent_lem rest (shared_of (take_input v v.input n)).queries small w.within in
      omega (arith, w.spent, later)
