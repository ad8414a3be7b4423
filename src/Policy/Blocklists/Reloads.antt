-- ===== src/Policy/Blocklists/Reloads.antt =====
-- core/policy/blocklists.cpp: what the reloading of the lists promises, and that it keeps it.
use dnsentinal.Common.{Bool, true, false, List, [], ◌∷◌, Option, none, some, if◌then◌else◌}
use dnsentinal.Types.{Bytes}
use dnsentinal.Policy.BlocklistTrie.{Result, loaded, cannot_open, cancelled, BlocklistTrie}
use dnsentinal.Policy.Blocklists.{
  ListsConfig, LoadReport, Loaded, Attempt, Files, Blocklists, read_lists, load, start_reload,
  worker_ends, finish_reload,
}

-- What is done to the lists, with the files as they are at that time.
pub data Event : Type 0 where
  loads : Files → Event
  starts collects : Event
  worker_done : Files → (Bytes → Bool) → Event

-- What the caller sees of it.
pub data Output : Type 0 where
  nothing : Output
  started : Bool → Output
  reported : Result LoadReport → Output
  collected : Option (Result LoadReport) → Output

abbrev pub report_of : Result Loaded → Result LoadReport
report_of (loaded found) = loaded found.report
report_of (cannot_open path errno) = cannot_open path errno
report_of cancelled = cancelled

-- No reload, one under way, or one whose outcome waits to be collected.
pub data Phase : Type 0 where
  idle busy : Phase
  ready : Result Loaded → Phase

-- The promise: the lists in use, and what the reload is at.
pub record Promise : Type 0 where
  pub lists : BlocklistTrie
  pub phase : Phase

-- Only a success changes the lists in use.
abbrev pub adopt : BlocklistTrie → Result Loaded → BlocklistTrie
adopt lists (loaded found) = found.trie
adopt lists (cannot_open path errno) = lists
adopt lists cancelled = lists

-- A worker runs from the start of a reload to its end, so an end at any other time is none.
abbrev ends_in : Phase → Attempt → Phase
ends_in busy attempt = ready attempt.result
ends_in phase attempt = phase

abbrev is_running : Blocklists → Bool
is_running l = elim l.finished [ none ↦ l.reloading | some attempt ↦ false ]

module _ (is_address : Bytes → Bool) (config : ListsConfig) where
  unfoldable pub promised : Promise → Event → Promise × Output
  promised s (loads files) =
      let result = (read_lists is_address config files (λ path. false)).result in
      (record s { lists = adopt s.lists result }, reported (report_of result))
  promised s starts = elim s.phase [
    | idle ↦ (record s { phase = busy }, started true)
    | busy ↦ (s, started false)
    | ready result ↦ (s, started false)
  ]
  promised s collects = elim s.phase [
    | idle ↦ (s, collected none)
    | busy ↦ (s, collected none)
    | ready result ↦
        (record { lists = adopt s.lists result; phase = idle }, collected (some (report_of result)))
  ]
  promised s (worker_done files stopped) =
      (record s { phase = ends_in s.phase (read_lists is_address config files stopped) }, nothing)

  unfoldable pub promised_all : Promise → List Event → Promise × List Output
  unfolding promised
  promised_all s [] = (s, [])
  promised_all s (event ∷ events) =
      let (next, output) = promised s event in
      let (last, outputs) = promised_all next events in (last, output ∷ outputs)

module _ (is_address : Bytes → Bool) where
  unfoldable pub step : Blocklists → Event → Blocklists × Output
  unfolding load start_reload finish_reload worker_ends
  step l (loads files) = let (next, result) = load is_address l files in (next, reported result)
  step l starts = let (next, began) = start_reload l in (next, started began)
  step l collects = let (next, result) = finish_reload l in (next, collected result)
  step l (worker_done files stopped) =
      (if is_running l then worker_ends is_address l files stopped else l, nothing)

  unfoldable pub run : Blocklists → List Event → Blocklists × List Output
  unfolding step
  run l [] = (l, [])
  run l (event ∷ events) =
      let (next, output) = step l event in
      let (last, outputs) = run next events in (last, output ∷ outputs)
