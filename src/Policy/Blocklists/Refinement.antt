-- ===== src/Policy/Blocklists/Refinement.antt =====
-- core/policy/blocklists.cpp: the lists keep the promise of Policy/Blocklists/Reloads.
use dnsentinal.Common.{
  ◌≡◌, refl, ap, ◌∙◌, subst, Bool, true, false, List, [], ◌∷◌, Option, none, some,
}
use dnsentinal.Types.{Bytes}
use dnsentinal.Policy.BlocklistTrie.{
  Result, loaded, cannot_open, cancelled, BlocklistTrie, empty_trie,
}
use dnsentinal.Policy.Blocklists.{
  ListsConfig, Loaded, Attempt, Blocklists, new_blocklists, FileStamp, read_lists, use_attempt,
  load, start_reload, worker_ends, finish_reload,
}
use dnsentinal.Policy.Blocklists.Reloads.{
  Event, loads, starts, collects, worker_done, Phase, idle, busy, ready, Promise, adopt, report_of,
  promised, promised_all, step, run,
}

abbrev pub phase_of : Bool → Option Attempt → Phase
phase_of true none = busy
phase_of true (some attempt) = ready attempt.result
phase_of false finished = idle

-- The promise that a state of the code stands for.
abbrev pub abstract_of : Blocklists → Promise
abstract_of l = record { lists = l.trie; phase = phase_of l.reloading l.finished }

-- An outcome waits only while a reload is under way.
abbrev IsSound : Bool → Option Attempt → Type 0
IsSound false (some attempt) = ⊥
IsSound _ _ = Unit

record Kept (config : ListsConfig) (l : Blocklists) : Type 0 where
  configured : l.config ≡ config
  sound : IsSound l.reloading l.finished

module _ (config : ListsConfig) (trie : BlocklistTrie) (reloading : Bool)
    (finished : Option Attempt) where
  abbrev lists_with : List FileStamp → Blocklists
  lists_with stamps = record {
    config = config;
    trie = trie;
    stamps = stamps;
    reloading = reloading;
    finished = finished;
  }

  -- An attempt is used as the promise says, and leaves the reload as it is.
  use_attempt-adopt :
      (stamps old : List FileStamp) (result : Result Loaded)
      → let attempt : Attempt = record { stamps = stamps; result = result } in
        use_attempt (lists_with old) attempt
        ≡ (record (lists_with stamps) { trie = adopt trie result }, report_of result)
  unfolding use_attempt
  use_attempt-adopt stamps old (loaded found) = refl
  use_attempt-adopt stamps old (cannot_open path errno) = refl
  use_attempt-adopt stamps old cancelled = refl

module _ (is_address : Bytes → Bool) where
  abbrev Refines : ListsConfig → Blocklists → Event → Type 0
  Refines config l event =
      (abstract_of (step is_address l event).0
        ≡ (promised is_address config (abstract_of l) event).0)
      × ((step is_address l event).1 ≡ (promised is_address config (abstract_of l) event).1)
      × Kept config (step is_address l event).0

  refines :
      (config : ListsConfig) (trie : BlocklistTrie) (stamps : List FileStamp) (reloading : Bool)
      (finished : Option Attempt) (event : Event)
      → IsSound reloading finished
      → Refines config (lists_with config trie reloading finished stamps) event
  unfolding step promised load start_reload finish_reload worker_ends
  refines config trie stamps reloading finished (loads files) h =
      let attempt = read_lists is_address config files (λ path. false) in
      let used =
        use_attempt-adopt config trie reloading finished attempt.stamps stamps attempt.result in
      rw used (refl, refl, record { configured = refl; sound = h })
  refines config trie stamps true none starts h =
      (refl, refl, record { configured = refl; sound = tt })
  refines config trie stamps true (some a) starts h =
      (refl, refl, record { configured = refl; sound = tt })
  refines config trie stamps false none starts h =
      (refl, refl, record { configured = refl; sound = tt })
  refines config trie stamps false (some a) starts h = absurd h
  refines config trie stamps true none collects h =
      (refl, refl, record { configured = refl; sound = tt })
  refines config trie stamps false none collects h =
      (refl, refl, record { configured = refl; sound = tt })
  refines config trie stamps false (some a) collects h = absurd h
  refines config trie stamps true (some a) collects h =
      let used = use_attempt-adopt config trie false none a.stamps stamps a.result in
      rw used (refl, refl, record { configured = refl; sound = tt })
  refines config trie stamps true none (worker_done files stopped) h =
      (refl, refl, record { configured = refl; sound = tt })
  refines config trie stamps true (some a) (worker_done files stopped) h =
      (refl, refl, record { configured = refl; sound = tt })
  refines config trie stamps false none (worker_done files stopped) h =
      (refl, refl, record { configured = refl; sound = tt })
  refines config trie stamps false (some a) (worker_done files stopped) h = absurd h

  step-Refines :
      (config : ListsConfig) (l : Blocklists) (event : Event)
      → Kept config l
      → Refines config l event
  step-Refines config l event k =
      subst (λ c. Refines c l event) k.configured
        (refines l.config l.trie l.stamps l.reloading l.finished event k.sound)

  run-Refines :
      (config : ListsConfig) (l : Blocklists) (events : List Event)
      → Kept config l
      → let (last, outputs) = run is_address l events in
        let (promise, expected) = promised_all is_address config (abstract_of l) events in
        (abstract_of last ≡ promise) × (outputs ≡ expected)
  unfolding run promised_all
  run-Refines config l [] k = (refl, refl)
  run-Refines config l (event ∷ events) k =
      let (same, seen, kept) = step-Refines config l event k in
      let ih = run-Refines config (step is_address l event).0 events kept in
      (
        ih.0 ∙ ap (λ s. (promised_all is_address config s events).0) same,
        cc (seen, ih.1 ∙ ap (λ s. (promised_all is_address config s events).1) same),
      )

  -- Loading and reloading refine the promise: whatever is called and whenever the worker ends, the
  -- caller sees what the promise says, and the lists in use are the promise's, that is, none at
  -- first, then those of the last load or collected reload that succeeded. A failed or cancelled one
  -- leaves the lists in use, and a second reload does not start while one is under way or waits to
  -- be collected.
  pub run-promised_all :
      (config : ListsConfig) (events : List Event)
      → let (last, outputs) = run is_address (new_blocklists config) events in
        let (promise, expected) =
          promised_all is_address config (record { lists = empty_trie; phase = idle }) events in
        (abstract_of last ≡ promise) × (outputs ≡ expected)
  unfolding new_blocklists
  run-promised_all config events =
      run-Refines config (new_blocklists config) events (record { configured = refl; sound = tt })
