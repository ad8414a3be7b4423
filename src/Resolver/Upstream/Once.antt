-- ===== src/Resolver/Upstream/Once.antt =====
-- core/resolver/upstream.cpp: `done` is called once for each query.
use dnsentinal.Common.{ℕ, suc, ◌+◌, ◌^◌, ◌<◌, ◌≡◌, refl, Bool, List, [], ◌∷◌, none, length, All}
use dnsentinal.Common.Maps.{find}
use dnsentinal.Types.{Message}
use dnsentinal.Net.EventLoop.{EventLoop}
use dnsentinal.Resolver.Upstream.{
  Reply, UpstreamClient, new_client, Transport, Surroundings, send, Action,
}
use dnsentinal.Resolver.Upstream.History.{
  Event, sends, cancels, fails, runs_out, receives, advances, step, run,
}
use dnsentinal.Resolver.Upstream.Invariant.{
  Distinct, Once, new-Once, less-Once, finish-Once, cancel-Once, on_timeout-Once, on_readable-Once,
  on_tcp_event-Once,
}
use dnsentinal.Resolver.Upstream.Sending.{send-SentAs}

module _ (c : UpstreamClient) (query : Message) (delay : ℕ) (transport : Transport)
    (match_case : Bool) (env : Surroundings) where
  send-Once :
      (room : ℕ) → Once (suc room) c → Once room (send c query delay transport match_case env).0
  send-Once room o =
      let s = send-SentAs c query delay transport match_case env in
      rw (s.next_same, s.pending_put, s.called_same)
        (new-Once room c.next_id c.pending c.called s.pending o)

step-Once :
    (room : ℕ) (c : UpstreamClient) (event : Event) → Once (suc room) c → Once room (step c event)
unfolding step
step-Once room c (sends query delay transport match_case env) o =
    send-Once c query delay transport match_case env room o
step-Once room c (cancels id) o = cancel-Once room c id (less-Once room c o)
step-Once room c (fails id) o = finish-Once room c id _ (less-Once room c o)
step-Once room c (runs_out id) o = on_timeout-Once room c id (less-Once room c o)
step-Once room c (receives id received) o = on_readable-Once room c id received (less-Once room c o)
step-Once room c (advances id hung_up sent received epoll) o =
    on_tcp_event-Once room c id hung_up sent received epoll (less-Once room c o)

run-Once :
    (c : UpstreamClient) (events : List Event) → Once (length events) c → Once 0 (run c events)
unfolding run
run-Once c [] o = o
run-Once c (event ∷ events) o = run-Once (step c event) events (step-Once (length events) c event o)

-- Whatever happens to a new client, in whatever order, no query's `done` is called twice, and a
-- query whose `done` was called is no longer pending; as long as fewer than 2^64 - 1 things happen.
pub run-Distinct :
    (loop : EventLoop Action) (threshold : ℕ) (events : List Event)
    → 1 + length events < 2 ^ 64
    → let c = run (new_client loop threshold) events in
      Distinct c.called × All (λ (x : ℕ × Reply). find x.0 c.pending ≡ none) c.called
unfolding find
run-Distinct loop threshold events h =
    let o =
      run-Once (new_client loop threshold) events
        (record { fits = h; below = tt; ended = tt; once = tt; fresh = λ id k. refl }) in
    (o.once, o.ended)
