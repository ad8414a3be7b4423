-- ===== src/Resolver/ServerSelection/Estimates.antt =====
-- core/resolver/server_selection.cpp: the bounds of the timeout and of the estimates it reads.
use dnsentinal.Common.{ℕ, ◌≤◌, ◌≡◌, Option, none, some, true, min, max, arith}
use dnsentinal.Resolver.ServerSelection.{
  Address, Info, Selection, timeout_of, timeout, fresh, add_sample, failed, max_srtt, min_timeout,
}

timeout_of-Between :
    (i : Option Info) (ceiling : ℕ)
    → (min min_timeout ceiling ≤ timeout_of i ceiling) × (timeout_of i ceiling ≤ ceiling)
unfolding timeout_of
timeout_of-Between none ceiling = ground arith
timeout_of-Between (some i) ceiling = ground arith

-- A timeout is at most the ceiling, and at least 100 ms or the ceiling, whichever is less.
pub timeout-Between :
    (s : Selection) (server : Address) (ceiling now : ℕ)
    → (min min_timeout ceiling ≤ timeout s server ceiling now)
      × (timeout s server ceiling now ≤ ceiling)
unfolding timeout
timeout-Between s server ceiling now = timeout_of-Between (fresh s server now) ceiling

-- A sample of a measured server leaves the smoothed time between the sample and the old value.
pub add_sample-Between :
    (i : Info) (sample : ℕ)
    → i.measured ≡ true
    → (min i.srtt sample ≤ (add_sample i sample).srtt)
      × ((add_sample i sample).srtt ≤ max i.srtt sample)
unfolding add_sample
add_sample-Between i sample h = ground arith

pub failed-le : (i : Info) → (failed i).srtt ≤ max_srtt
unfolding failed
failed-le i = ground arith
