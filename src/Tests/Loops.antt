-- ===== src/Tests/Loops.antt =====
-- Runs of the event loop and of what stands on it.
use dnsentinal.Common.{ℕ, ◌≡◌, refl, List, [], ◌∷◌, none, arith}
use dnsentinal.Net.EventLoop.{
  EventLoop, Call, adds_timer, adds_fd, calls, new_loop, run_due_timers, call, add_timer, add_fd,
  remove_fd, deliver, before, emplace,
}
use dnsentinal.Net.EventLoop.Callbacks.{due}
use dnsentinal.Net.EventLoop.Order.{Subsequence}
use dnsentinal.Net.EventLoop.Due.{run_due_timers_lem, run_due_timers-due}
use dnsentinal.Net.EventLoop.Stale.{deliver-removed}
use dnsentinal.Common.Maps.{find, put, erase}

-- Every callback adds a timer without delay at 7.
abbrev again : ℕ → ℕ → EventLoop ℕ → List (Call ℕ)
again callback mask l = adds_timer 0 callback 7 ∷ []

-- Timers at 9, 5 and 5.
abbrev alarms : EventLoop ℕ
alarms = calls new_loop (adds_timer 8 0 1 ∷ adds_timer 4 1 1 ∷ adds_timer 3 2 2 ∷ [])

run_due_timers_lem_example :
    let (final, fired) = run_due_timers again alarms 7 in
    (due 7 alarms.next_timer_id final.timers ≡ [])
    × Subsequence fired (due 7 alarms.next_timer_id alarms.timers)
unfolding calls call add_timer emplace before
run_due_timers_lem_example =
    run_due_timers_lem again 1 7 (λ callback l. ((omega arith, tt), omega arith)) alarms
      ((refl, (refl, tt)), ((refl, tt), (tt, tt))) (omega arith, (omega arith, (omega arith, tt)))
      (omega arith)

run_due_timers-due_example :
    (run_due_timers again alarms 7).1 ≡ due 7 alarms.next_timer_id alarms.timers
unfolding calls call add_timer emplace before
run_due_timers-due_example =
    run_due_timers-due again 1 7 (λ callback l. ((omega arith, tt), omega arith)) alarms
      ((refl, (refl, tt)), ((refl, tt), (tt, tt))) (omega arith, (omega arith, (omega arith, tt)))
      (omega arith) (λ callback l. (tt, tt))

-- The loop watches descriptor 3.
abbrev watching : EventLoop ℕ
watching = calls new_loop (adds_fd 3 0 none ∷ [])

deliver-removed_example :
    let later = calls (remove_fd watching 3) (adds_fd 3 1 none ∷ []) in
    deliver again later 1 1 ≡ later
unfolding calls call add_fd find put erase
deliver-removed_example =
    deliver-removed again watching 3 1 1 (adds_fd 3 1 none ∷ []) refl (omega arith) (omega arith)
