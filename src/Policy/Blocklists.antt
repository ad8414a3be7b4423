-- ===== src/Policy/Blocklists.antt =====
-- core/policy/blocklists.cpp and blocklists.h: the lists in use, and their reloading on a worker
-- thread. `Files` is what the file system answers at one time: `stat`, and the contents of a file or
-- the `errno` of opening it. A call holds the mutex while it touches `finished_`, so the worker's end
-- is one step.
pub mod Refinement
pub mod Reloads
use dnsentinal.Common.{
  ℕ, ◌+◌, Bool, true, false, not, ◌&&◌, ◌||◌, List, [], ◌∷◌, ◌++◌, Option, none, some, ◌==◌,
  if◌then◌else◌, map, ◌⊎◌, inl, inr, list_eq,
}
use dnsentinal.Types.{Bytes}
use dnsentinal.Policy.BlocklistTrie.{
  ListAction, block, allow, ListFileStats, Builder, new_builder, Result, loaded, cannot_open,
  cancelled, load_file, BlocklistTrie, empty_trie, build, size,
}

pub record ListsConfig : Type 0 where
  pub blocklists : List Bytes
  pub allowlists : List Bytes
  pub block_ttl : ℕ
  pub check_cname_chain : Bool
  pub reload_check_seconds : ℕ

pub record ListReport : Type 0 where
  pub path : Bytes
  pub action : ListAction
  pub stats : ListFileStats

-- Without the memory taken and the time it took.
pub record LoadReport : Type 0 where
  pub files : List ListReport
  pub domains : ℕ

pub record FileStamp : Type 0 where
  pub exists : Bool
  pub device : ℕ
  pub inode : ℕ
  pub size : ℕ
  pub seconds : ℕ
  pub nanoseconds : ℕ

abbrev pub no_stamp : FileStamp
no_stamp = record { exists = false; device = 0; inode = 0; size = 0; seconds = 0; nanoseconds = 0 }

abbrev pub same : Bool → Bool → Bool
same true b = b
same false b = not b

-- `FileStamp::operator==`
unfoldable pub stamp_eq : FileStamp → FileStamp → Bool
stamp_eq a b =
    same a.exists b.exists
    && a.device == b.device
    && a.inode == b.inode
    && a.size == b.size
    && a.seconds == b.seconds
    && a.nanoseconds == b.nanoseconds

pub record Loaded : Type 0 where
  pub trie : BlocklistTrie
  pub report : LoadReport

pub record Attempt : Type 0 where
  pub stamps : List FileStamp
  pub result : Result Loaded

pub record Files : Type 0 where
  pub stat : Bytes → Option FileStamp
  pub open_file : Bytes → Bytes ⊎ ℕ

pub record Blocklists : Type 0 where
  pub config : ListsConfig
  pub trie : BlocklistTrie
  pub stamps : List FileStamp
  pub reloading : Bool
  pub finished : Option Attempt

unfoldable pub new_blocklists : ListsConfig → Blocklists
new_blocklists config = record {
  config = config;
  trie = empty_trie;
  stamps = [];
  reloading = false;
  finished = none;
}

abbrev stamp_of : Option FileStamp → FileStamp
stamp_of none = no_stamp
stamp_of (some stamp) = stamp

unfoldable pub stamp_files : Files → ListsConfig → List FileStamp
stamp_files files config =
    map (λ path. stamp_of (files.stat path)) (config.blocklists ++ config.allowlists)

-- The lists with what each is for, in the order they are read.
abbrev pub listed : ListsConfig → List (Bytes × ListAction)
listed config =
    map (λ path. (path, block)) config.blocklists ++ map (λ path. (path, allow)) config.allowlists

-- The stamps are kept even on failure.
unfoldable pub use_attempt : Blocklists → Attempt → Blocklists × Result LoadReport
use_attempt l attempt =
    let stamped = record l { stamps = attempt.stamps } in
    elim attempt.result [
      | loaded found ↦ (record stamped { trie = found.trie }, loaded found.report)
      | cannot_open path errno ↦ (stamped, cannot_open path errno)
      | cancelled ↦ (stamped, cancelled)
    ]

unfoldable pub start_reload : Blocklists → Blocklists × Bool
start_reload l = if l.reloading then (l, false) else (record l { reloading = true }, true)

unfoldable pub finish_reload : Blocklists → Blocklists × Option (Result LoadReport)
unfolding use_attempt
finish_reload l = elim l.finished [
  | none ↦ (l, none)
  | some attempt ↦
      let collected = record l { finished = none; reloading = false } in
      let (next, result) = use_attempt collected attempt in (next, some result)
]

unfoldable pub files_changed : Blocklists → Files → Bool
unfolding stamp_files stamp_eq list_eq
files_changed l files = not (list_eq stamp_eq (stamp_files files l.config) l.stamps)

module _ (is_address : Bytes → Bool) where
  -- The loops of `read_lists`: each file is asked for a stop first.
  unfoldable pub read_files :
      Files
      → (Bytes → Bool)
      → List (Bytes × ListAction)
      → Builder
      → List ListReport
      → Result (Builder × List ListReport)
  unfolding load_file
  read_files files stopped [] b reports = loaded (b, reports)
  read_files files stopped ((path, action) ∷ rest) b reports =
      elim (load_file is_address b path action (files.open_file path)) [
        | loaded (next, stats) ↦
            let report : ListReport = record { path = path; action = action; stats = stats } in
            let others = read_files files stopped rest next (reports ++ report ∷ []) in
            if stopped path then cancelled else others
        | cannot_open p errno ↦ if stopped path then cancelled else cannot_open p errno
        | cancelled ↦ cancelled
      ]

  unfoldable pub loaded_of : Result (Builder × List ListReport) → Result Loaded
  unfolding build size
  loaded_of (loaded (b, reports)) =
      let trie = build b in
      loaded (record { trie = trie; report = record { files = reports; domains = size trie } })
  loaded_of (cannot_open path errno) = cannot_open path errno
  loaded_of cancelled = cancelled

  -- `stopped` says of each list whether a stop was requested when it came to it.
  unfoldable pub read_lists : ListsConfig → Files → (Bytes → Bool) → Attempt
  unfolding stamp_files read_files loaded_of
  read_lists config files stopped = record {
    stamps = stamp_files files config;
    result = loaded_of (read_files files stopped (listed config) new_builder []);
  }

  unfoldable pub load : Blocklists → Files → Blocklists × Result LoadReport
  unfolding read_lists use_attempt
  load l files = use_attempt l (read_lists l.config files (λ path. false))

  -- The end of the worker.
  unfoldable pub worker_ends : Blocklists → Files → (Bytes → Bool) → Blocklists
  unfolding read_lists
  worker_ends l files stopped = record l { finished = some (read_lists l.config files stopped) }
