-- ===== src/Resolver/Upstream/History.antt =====
-- core/resolver/upstream.cpp: any sequence of events that reach a client.
use dnsentinal.Common.{ℕ, Bool, List, [], ◌∷◌, Option}
use dnsentinal.Types.{Message}
use dnsentinal.Resolver.Upstream.{
  failure, network_error, Received, Sent, UpstreamClient, Transport, Surroundings, send, cancel,
  finish, on_readable, on_tcp_event, on_timeout,
}

-- What happens to a client, with what each event gets from outside.
pub data Event : Type 0 where
  sends : Message → ℕ → Transport → Bool → Surroundings → Event
  cancels fails runs_out : ℕ → Event
  receives : ℕ → List Received → Event
  advances : ℕ → Bool → List Sent → List Received → Option ℕ → Event

unfoldable pub step : UpstreamClient → Event → UpstreamClient
unfolding send cancel finish on_timeout on_readable on_tcp_event
step c (sends query delay transport match_case env) =
    (send c query delay transport match_case env).0
step c (cancels id) = cancel c id
step c (fails id) = finish c id (failure network_error)
step c (runs_out id) = on_timeout c id
step c (receives id received) = on_readable c id received
step c (advances id hung_up sent received epoll) = on_tcp_event c id hung_up sent received epoll

unfoldable pub run : UpstreamClient → List Event → UpstreamClient
unfolding step
run c [] = c
run c (event ∷ events) = run (step c event) events
