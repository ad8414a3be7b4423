-- ===== src/Resolver/Upstream/Replies.antt =====
-- core/resolver/upstream.cpp: the exchange of one query, as far as its own data goes.
use dnsentinal.Common.{
  ℕ, ◌+◌, ◌*◌, ◌%◌, ◌^◌, Bool, true, false, not, ◌&&◌, ◌||◌, List, [], ◌∷◌, ◌++◌, Option, none,
  some, leb, ltb, ◌==◌, if◌then◌else◌, length, take, drop, get_or,
}
use dnsentinal.Types.{Bytes, Message, Question, name_eq}
use dnsentinal.Wire.Outcome.{Outcome, ok}
use dnsentinal.Wire.ByteIo.{size_sub}
use dnsentinal.Wire.Parser.{parse}
use dnsentinal.Security.ZeroX20.{same_case}

pub data UpstreamError : Type 0 where
  timeout network_error case_mismatch spoof_suspected : UpstreamError

-- `std::expected<Message, UpstreamError>`
pub data Reply : Type 0 where
  answer : Message → Reply
  failure : UpstreamError → Reply

pub record Stats : Type 0 where
  pub sent : ℕ
  pub sent_tcp : ℕ
  pub answered : ℕ
  pub timeouts : ℕ
  pub errors : ℕ
  pub mismatched : ℕ
  pub case_mismatches : ℕ
  pub spoof_alerts : ℕ

abbrev pub no_stats : Stats
no_stats = record {
  sent = 0;
  sent_tcp = 0;
  answered = 0;
  timeouts = 0;
  errors = 0;
  mismatched = 0;
  case_mismatches = 0;
  spoof_alerts = 0;
}

abbrev pub counted : ℕ → ℕ
counted n = (n + 1) % 2 ^ 64

pub record Pending : Type 0 where
  pub fd : Option ℕ
  pub txid : ℕ
  pub question : Question
  pub timer : ℕ
  pub match_case : Bool
  pub wrong_case_seen : Bool
  pub suspicious : ℕ
  pub out : Bytes
  pub written : ℕ
  pub received : Bytes

-- What `recv` gives: bytes, `EINTR`, or another error.
pub data Received : Type 0 where
  bytes : Bytes → Received
  interrupted broken : Received

-- What `send` gives.
pub data Sent : Type 0 where
  wrote : ℕ → Sent
  interrupted broken : Sent

pub data Match : Type 0 where
  no wrong_case yes : Match

-- `Question::operator==`
unfoldable pub question_eq : Question → Question → Bool
question_eq a b = name_eq a.qname b.qname && a.qtype == b.qtype && a.qclass == b.qclass

unfoldable pub match_questions : List Question → Question → Bool → Match
unfolding question_eq
match_questions (q ∷ []) question match_case =
    if not (question_eq q question)
    then no
    else (if match_case && not (same_case q.qname question.qname) then wrong_case else yes)
match_questions _ question match_case = no

unfoldable pub match : Outcome Message → ℕ → Question → Bool → Match
unfolding match_questions
match (ok msg) txid question match_case =
    if not msg.header.qr || not (msg.header.id == txid)
    then no
    else match_questions msg.questions question match_case
match _ txid question match_case = no

-- The query, the counters, and the reply once the query is over.
pub record Exchange : Type 0 where
  pub pending : Pending
  pub stats : Stats
  pub reply : Option Reply

abbrev pub over : Pending → Stats → Reply → Exchange
over p s r = record { pending = p; stats = s; reply = some r }

abbrev pub waiting : Pending → Stats → Exchange
waiting p s = record { pending = p; stats = s; reply = none }

-- `broke_off`, and the same lines of `on_readable`.
abbrev pub broke_off : Pending → Stats → Exchange
broke_off p s = over p (record s { errors = counted s.errors }) (failure network_error)

-- A datagram that is not the reply is counted.
unfoldable pub suspect : Match → Pending → Stats → Pending × Stats
suspect wrong_case p s =
    (record p { wrong_case_seen = true }, record s { case_mismatches = counted s.case_mismatches })
suspect _ p s = (p, record s { mismatched = counted s.mismatched })

-- `spoof_threshold_ != 0 && ++p.suspicious >= spoof_threshold_`
unfoldable pub raise : ℕ → Pending → Pending × Bool
raise threshold p =
    let suspicious = (p.suspicious + 1) % 2 ^ 32 in
    if threshold == 0
    then (p, false)
    else (record p { suspicious = suspicious }, leb threshold suspicious)

abbrev pub answered : Pending → Stats → Message → Exchange
answered p s msg = over p (record s { answered = counted s.answered }) (answer msg)

-- Nobody but the server and a forger can send to the connected socket.
unfoldable pub raise_alarm : ℕ → Pending × Stats → Exchange
unfolding raise
raise_alarm threshold (p, s) =
    let (raised, alarm) = raise threshold p in
    if alarm
    then over raised (record s { spoof_alerts = counted s.spoof_alerts }) (failure spoof_suspected)
    else waiting raised s

unfoldable pub judge_udp : ℕ → Pending → Stats → Outcome Message → Match → Exchange
unfolding raise_alarm suspect
judge_udp threshold p s (ok msg) yes = answered p s msg
judge_udp threshold p s m verdict = raise_alarm threshold (suspect verdict p s)

-- The loop of `on_readable`.
unfoldable pub read_udp : ℕ → Pending → Stats → List Received → Exchange
unfolding match judge_udp
read_udp threshold p s [] = waiting p s
read_udp threshold p s (interrupted ∷ rest) = read_udp threshold p s rest
read_udp threshold p s (broken ∷ rest) = broke_off p s
read_udp threshold p s (bytes datagram ∷ rest) =
    let m = parse datagram in
    let next = judge_udp threshold p s m (match m p.txid p.question p.match_case) in
    elim next.reply [ none ↦ read_udp threshold next.pending next.stats rest | some reply ↦ next ]

pub data Progress : Type 0 where
  blocked broke complete : Progress

-- The loop that sends the query.
unfoldable pub write_out : Pending → List Sent → Pending × Progress
write_out p [] = (p, if ltb p.written (length p.out) then blocked else complete)
write_out p (wrote n ∷ rest) =
    let next = write_out (record p { written = (p.written + n) % 2 ^ 64 }) rest in
    if ltb p.written (length p.out) then next else (p, complete)
write_out p (interrupted ∷ rest) =
    let next = write_out p rest in if ltb p.written (length p.out) then next else (p, complete)
write_out p (broken ∷ rest) = (p, if ltb p.written (length p.out) then broke else complete)

-- `(size_t{p.in[0]} << 8) | p.in[1]`
abbrev pub frame_length : Bytes → ℕ
frame_length received = get_or received 0 0 * 2 ^ 8 + get_or received 1 0

abbrev pub incomplete : Bytes → Bool
incomplete received =
    ltb (length received) 2 || ltb (size_sub (length received) 2) (frame_length received)

unfoldable pub judge_tcp : Pending → Stats → Outcome Message → Match → Exchange
judge_tcp p s (ok msg) yes = answered p s msg
judge_tcp p s m wrong_case =
    over p (record s { case_mismatches = counted s.case_mismatches }) (failure case_mismatch)
judge_tcp p s m verdict = broke_off p (record s { mismatched = counted s.mismatched })

unfoldable pub judge_frame : Pending → Stats → Exchange
unfolding match judge_tcp
judge_frame p s =
    let m = parse (take (frame_length p.received) (drop 2 p.received)) in
    judge_tcp p s m (match m p.txid p.question p.match_case)

-- The loop that reads the response.
unfoldable pub read_tcp : Pending → Stats → List Received → Exchange
unfolding judge_frame
read_tcp p s [] = waiting p s
read_tcp p s (interrupted ∷ rest) = read_tcp p s rest
read_tcp p s (broken ∷ rest) = broke_off p s
read_tcp p s (bytes [] ∷ rest) = broke_off p s
read_tcp p s (bytes (c ∷ cs) ∷ rest) =
    let more = record p { received = p.received ++ c ∷ cs } in
    let next = read_tcp more s rest in if incomplete more.received then next else judge_frame more s
