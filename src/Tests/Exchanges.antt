-- ===== src/Tests/Exchanges.antt =====
-- Exchanges with upstream servers.
use dnsentinal.Common.{
  ℕ, ◌≡◌, refl, true, List, [], ◌∷◌, ◌++◌, some, none, arith, map, All, inr, ap, ◌∙◌, list_eq,
}
use dnsentinal.Types.{Bytes, labels_eq, bytes_eq, name_eq}
use dnsentinal.Wire.Outcome.{ok}
use dnsentinal.Wire.Parser.{parse, parse_header}
use dnsentinal.Security.ZeroX20.{same_case, as_written}
use dnsentinal.Resolver.Upstream.{
  Pending, no_stats, Reply, answer, failure, spoof_suspected, bytes, new_pending, read_udp,
  read_tcp, judge_frame, match, match_questions, question_eq, yes,
}
use dnsentinal.Resolver.Upstream.Answers.{Answers, verdict, Forged}
use dnsentinal.Resolver.Upstream.Accepted.{Among, read_udp-Answers}
use dnsentinal.Resolver.Upstream.Forgeries.{read_udp-answer, read_udp-spoof_suspected}
use dnsentinal.Resolver.Upstream.Framing.{read_tcp-judge_frame}
use dnsentinal.Net.EventLoop.{new_loop}
use dnsentinal.Common.Maps.{find}
use dnsentinal.Resolver.Upstream.{udp, connected, Surroundings, new_client}
use dnsentinal.Resolver.Upstream.History.{Event, sends, receives, runs_out, run}
use dnsentinal.Resolver.Upstream.Invariant.{Distinct}
use dnsentinal.Resolver.Upstream.Once.{run-Distinct}
use dnsentinal.Tests.Samples.{query, packet, question, parsed, parse-packet}

-- A query for the question of `packet`, with its id.
abbrev asked : Pending
asked = new_pending 4660 question true

short-Forged : Forged asked (1 ∷ [])
unfolding parse parse_header match
short-Forged h = cc

matching : match (ok parsed) 4660 question true ≡ yes
unfolding match match_questions question_eq same_case as_written name_eq labels_eq bytes_eq list_eq
matching = refl

packet-yes : verdict asked packet ≡ yes
packet-yes = ap (λ m. match m 4660 question true) parse-packet ∙ matching

read_udp-answer_example :
    (read_udp 5 asked no_stats (map bytes ((1 ∷ []) ∷ (1 ∷ []) ∷ []) ++ bytes packet ∷ [])).reply
    ≡ some (answer parsed)
read_udp-answer_example =
    read_udp-answer 5 asked no_stats ((1 ∷ []) ∷ (1 ∷ []) ∷ []) packet [] parsed (omega arith)
      (short-Forged, (short-Forged, tt)) (inr (omega arith)) parse-packet packet-yes

read_udp-spoof_suspected_example :
    (read_udp 2 asked no_stats (map bytes ((1 ∷ []) ∷ (1 ∷ []) ∷ []) ++ bytes packet ∷ [])).reply
    ≡ some (failure spoof_suspected)
read_udp-spoof_suspected_example =
    read_udp-spoof_suspected 2 asked no_stats ((1 ∷ []) ∷ (1 ∷ []) ∷ []) (bytes packet ∷ [])
      (omega arith) (short-Forged, (short-Forged, tt)) (omega arith) (omega arith)

read_udp-Answers_example :
    (datagram : Bytes) × Among datagram (bytes (1 ∷ []) ∷ bytes packet ∷ [])
    × (parse datagram ≡ ok parsed)
    × Answers asked parsed
read_udp-Answers_example =
    read_udp-Answers 5 asked no_stats (bytes (1 ∷ []) ∷ bytes packet ∷ []) parsed (
      read_udp-answer 5 asked no_stats ((1 ∷ []) ∷ []) packet [] parsed (omega arith)
        (short-Forged, tt) (inr (omega arith)) parse-packet packet-yes)

read_tcp-judge_frame_example :
    read_tcp asked no_stats (map bytes ((0 ∷ []) ∷ (2 ∷ 7 ∷ []) ∷ (8 ∷ []) ∷ []))
    ≡ judge_frame (record asked { received = 0 ∷ 2 ∷ 7 ∷ 8 ∷ [] }) no_stats
read_tcp-judge_frame_example =
    read_tcp-judge_frame asked no_stats 0 2 (7 ∷ 8 ∷ []) (0 ∷ []) ((2 ∷ 7 ∷ []) ∷ (8 ∷ []) ∷ [])
      refl (omega arith) refl ((λ e. cc), ((λ e. cc), ((λ e. cc), tt))) refl

abbrev working : Surroundings
working = record {
  random = 4660;
  socket = some 7;
  connect = connected;
  epoll = none;
  takes = λ datagram. true;
  now = 1;
}

-- A query is answered, and then its timer goes off all the same.
abbrev answered_late : List Event
answered_late = sends query 100 udp true working ∷ receives 1 (bytes packet ∷ []) ∷ runs_out 1 ∷ []

run-Distinct_example :
    let c = run (new_client new_loop 5) answered_late in
    Distinct c.called × All (λ (x : ℕ × Reply). find x.0 c.pending ≡ none) c.called
run-Distinct_example = run-Distinct new_loop 5 answered_late (omega arith)
