-- ===== src/Resolver/ServerSelection.antt =====
-- core/resolver/server_selection.cpp: round-trip times and the choice of a server. A point in time is
-- in nanoseconds, a round-trip time in microseconds, a timeout in milliseconds; a call reads
-- the clock at one instant `now`.
pub mod Choice
pub mod Estimates
use dnsentinal.Common.{
  ℕ, zero, suc, ◌+◌, ◌-◌, ◌*◌, ◌/◌, ◌%◌, ◌^◌, min, max, Bool, true, false, not, ◌&&◌, ◌||◌, List,
  [], ◌∷◌, ◌++◌, Option, none, some, leb, ltb, ◌==◌, if◌then◌else◌, length, get_or,
}
use dnsentinal.Common.Int.{ℤ, pos_part}

abbrev pub Address : Type 0
Address = ℕ

-- `kUnmeasured`, `kTimeoutPenalty`, `kMaxSrtt`, `kMaxFailures`, `kMinTimeout`, `kForgetAfter` and
-- `kPruneEvery`
abbrev pub unmeasured : ℕ
unmeasured = 400_000

abbrev pub timeout_penalty : ℕ
timeout_penalty = 2_000_000

abbrev pub max_srtt : ℕ
max_srtt = 5_000_000

abbrev pub max_failures : ℕ
max_failures = 5

abbrev pub min_timeout : ℕ
min_timeout = 100

abbrev pub forget_after : ℕ
forget_after = 900_000_000_000

abbrev pub prune_every : ℕ
prune_every = 1024

pub record Info : Type 0 where
  pub measured : Bool
  pub srtt : ℕ
  pub rttvar : ℕ
  pub failures : ℕ
  pub updated : ℕ

abbrev pub new_info : Info
new_info = record { measured = false; srtt = 0; rttvar = 0; failures = 0; updated = 0 }

abbrev pub Servers : Type 0
Servers = List (Address × Info)

pub record Selection : Type 0 where
  pub explore_one_in : ℕ
  pub servers : Servers
  pub updates : ℕ

unfoldable pub find : Address → Servers → Option Info
find server [] = none
find server ((a, i) ∷ rest) = if a == server then some i else find server rest

unfoldable pub put : Address → Info → Servers → Servers
put server info [] = (server, info) ∷ []
put server info ((a, i) ∷ rest) =
    if a == server then (a, info) ∷ rest else (a, i) ∷ put server info rest

-- Times do not go back, so that `now - updated` is not negative.
abbrev pub forgotten : ℕ → Info → Bool
forgotten now i = ltb forget_after (now - i.updated)

unfoldable pub if_fresh : ℕ → Option Info → Option Info
if_fresh now none = none
if_fresh now (some i) = if forgotten now i then none else some i

unfoldable pub fresh : Selection → Address → ℕ → Option Info
unfolding if_fresh
fresh s server now = if_fresh now (find server s.servers)

unfoldable pub reset_old : ℕ → Option Info → Info
reset_old now none = new_info
reset_old now (some i) = if not (i.updated == 0) && forgotten now i then new_info else i

unfoldable pub entry : Selection → Address → ℕ → Info
unfolding reset_old
entry s server now = reset_old now (find server s.servers)

unfoldable pub prune : ℕ → Servers → Servers
prune now [] = []
prune now ((a, i) ∷ rest) =
    let kept = prune now rest in if forgotten now i then kept else (a, i) ∷ kept

-- The entry is stored with its new time; now and then the forgotten ones are swept out.
unfoldable pub touched : Selection → Address → Info → ℕ → Selection
touched s server info now =
    let servers = put server (record info { updated = now }) s.servers in
    let updates = (s.updates + 1) % 2 ^ 32 in
    record s {
      servers = if updates % prune_every == 0 then prune now servers else servers;
      updates = updates;
    }

-- Deprioritised, then by SRTT.
abbrev pub Rank : Type 0
Rank = Bool × ℕ

unfoldable pub rank_info : Option Info → Rank
rank_info none = (false, unmeasured)
rank_info (some i) = (leb max_failures i.failures, (if i.measured then i.srtt else unmeasured))

unfoldable pub rank : Selection → ℕ → Address → Rank
unfolding rank_info
rank s now a = rank_info (fresh s a now)

-- `<` and `==` of pairs
unfoldable pub rank_lt : Rank → Rank → Bool
rank_lt (false, x) (true, y) = true
rank_lt (true, x) (false, y) = false
rank_lt (false, x) (false, y) = ltb x y
rank_lt (true, x) (true, y) = ltb x y

unfoldable pub rank_eq : Rank → Rank → Bool
rank_eq (false, x) (true, y) = false
rank_eq (true, x) (false, y) = false
rank_eq (false, x) (false, y) = x == y
rank_eq (true, x) (true, y) = x == y

abbrev pub is_empty : List Address → Bool
is_empty [] = true
is_empty (a ∷ rest) = false

pub record Best : Type 0 where
  pub best : List Address
  pub best_rank : Rank

-- One round of the loop over the candidates, on one of rank `r`.
unfoldable pub consider : Best → Address → Rank → Best
consider b a r =
    if is_empty b.best || rank_lt r b.best_rank
    then record { best = a ∷ []; best_rank = r }
    else if rank_eq r b.best_rank
    then record b { best = b.best ++ a ∷ [] }
    else b

unfoldable pub choose : (Address → Rank) → List Address → Best → Best
choose rank_of [] b = b
choose rank_of (a ∷ rest) b = choose rank_of rest (consider b a (rank_of a))

-- `random k n` is what the k-th draw of this call gives below n. The candidates are not empty.
unfoldable pub pick : Selection → (ℕ → ℕ → ℕ) → ℕ → List Address → Address
pick s random now candidates =
    let n = length candidates in
    let explores = ltb 1 n && not (s.explore_one_in == 0) in
    let b = (choose (rank s now) candidates (record { best = []; best_rank = (false, 0) })).best in
    if explores && random 0 s.explore_one_in == 0
    then get_or candidates (random 1 n) 0
    else if length b == 1
    then get_or b 0 0
    else get_or b (random (if explores then 1 else 0) (length b)) 0

unfoldable pub timeout_of : Option Info → ℕ → ℕ
timeout_of none ceiling = ceiling
timeout_of (some i) ceiling =
    let rto = (i.srtt + 4 * i.rttvar + 999) / 1000 in
    let low = min min_timeout ceiling in
    if not i.measured
    then ceiling
    else if ltb rto low
    then low
    else if ltb ceiling rto
    then ceiling
    else rto

unfoldable pub timeout : Selection → Address → ℕ → ℕ → ℕ
unfolding timeout_of
timeout s server ceiling now = timeout_of (fresh s server now) ceiling

-- A sample; the first one as in RFC 6298 §2.2.
unfoldable pub add_sample : Info → ℕ → Info
add_sample i sample =
    let error = if ltb sample i.srtt then i.srtt - sample else sample - i.srtt in
    if not i.measured
    then record i { srtt = sample; rttvar = sample / 2; measured = true }
    else record i { rttvar = (3 * i.rttvar + error) / 4; srtt = (7 * i.srtt + sample) / 8 }

unfoldable pub answered : Info → Option ℤ → Info
unfolding add_sample
answered i none = record i { failures = 0 }
answered i (some rtt) = add_sample (record i { failures = 0 }) (pos_part rtt)

unfoldable pub record_answer : Selection → Address → Option ℤ → ℕ → Selection
unfolding answered
record_answer s server rtt now = touched s server (answered (entry s server now) rtt) now

unfoldable pub unusable : Info → Info
unusable i = record i { failures = (i.failures + 1) % 2 ^ 32 }

unfoldable pub record_unusable : Selection → Address → ℕ → Selection
unfolding unusable
record_unusable s server now = touched s server (unusable (entry s server now)) now

-- A timeout is a measurement too.
unfoldable pub failed : Info → Info
failed i =
    let srtt = if i.measured then i.srtt else unmeasured in
    record i {
      measured = true;
      srtt = min (srtt + timeout_penalty) max_srtt;
      failures = (i.failures + 1) % 2 ^ 32;
    }

unfoldable pub record_failure : Selection → Address → ℕ → Selection
unfolding failed
record_failure s server now = touched s server (failed (entry s server now)) now
