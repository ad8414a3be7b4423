-- ===== src/Resolver/Upstream.antt =====
-- core/resolver/upstream.cpp and upstream.h: one query to one server. A query's `done` goes by the
-- query's id, and what is called is logged; the closures given to the event loop are the actions
-- below, and a `done` that calls back in is a later step, since it is called last. What the system
-- calls give is an argument: the descriptor is `none` for -1, a list of results of `recv` or `send`
-- ends where the socket would block.
pub mod Accepted
pub mod Answers
pub mod Forgeries
pub mod Framing
pub mod History
pub mod Invariant
pub mod Once
pub mod Sending
mod Replies
unfoldable pub use Replies.*
use dnsentinal.Common.{
  ℕ, ◌+◌, ◌%◌, ◌^◌, Bool, true, false, not, ◌&&◌, ◌||◌, List, [], ◌∷◌, ◌++◌, Option, none, some,
  ◌==◌, if◌then◌else◌, ltb, length,
}
use dnsentinal.Common.Maps.{find, erase, put}
use dnsentinal.Types.{Bytes, Message, Question, root}
use dnsentinal.Wire.Builder.{build, build_tcp}
use dnsentinal.Net.EventLoop.{
  EventLoop, ErrorCode, success, no_such_file_or_directory, add_fd, modify_fd, remove_fd, add_timer,
  cancel_timer,
}

-- What the closures that the event loop holds do.
pub data Action : Type 0 where
  reports_failure times_out reads writes_or_reads : ℕ → Action

pub record UpstreamClient : Type 0 where
  pub loop : EventLoop Action
  pub spoof_threshold : ℕ
  pub next_id : ℕ
  pub pending : List (ℕ × Pending)
  pub stats : Stats
  pub called : List (ℕ × Reply)

abbrev pub new_client : EventLoop Action → ℕ → UpstreamClient
new_client loop threshold = record {
  loop = loop;
  spoof_threshold = threshold;
  next_id = 1;
  pending = [];
  stats = no_stats;
  called = [];
}

pub data Transport : Type 0 where
  udp tcp : Transport

pub data Connected : Type 0 where
  connected in_progress refused : Connected

-- What a call of `send` gets from outside: `arc4random`, the descriptor of `socket`, the result of
-- `connect`, the `errno` of `epoll_ctl`, whether the datagram is sent, and the time.
pub record Surroundings : Type 0 where
  pub random : ℕ
  pub socket : Option ℕ
  pub connect : Connected
  pub epoll : Option ℕ
  pub takes : Bytes → Bool
  pub now : ℕ

abbrev pub no_question : Question
no_question = record { qname = root; qtype = 0; qclass = 1 }

abbrev pub first_question : List Question → Question
first_question [] = no_question
first_question (q ∷ rest) = q

abbrev pub new_pending : ℕ → Question → Bool → Pending
new_pending txid question match_case = record {
  fd = none;
  txid = txid;
  question = question;
  timer = 0;
  match_case = match_case;
  wrong_case_seen = false;
  suspicious = 0;
  out = [];
  written = 0;
  received = [];
}

-- Waits for `delay` with this query, under this id.
unfoldable pub arm : UpstreamClient → ℕ → Pending → Action → ℕ → ℕ → UpstreamClient
unfolding add_timer put
arm c id p action delay now =
    let (loop, timer) = add_timer c.loop delay action now in
    record c { loop = loop; pending = put id (record p { timer = timer }) c.pending }

unfoldable pub fail_soon : UpstreamClient → ℕ → Pending → ℕ → UpstreamClient
unfolding arm
fail_soon c id p now =
    arm (record c { stats = record c.stats { errors = counted c.stats.errors } }) id p
      (reports_failure id) 0 now

unfoldable pub is_success : ErrorCode → Bool
is_success success = true
is_success _ = false

-- The end of `send`, once the socket is watched.
unfoldable pub sent_off : UpstreamClient → ℕ → Pending → ℕ → ℕ → UpstreamClient
unfolding arm
sent_off c id p delay now =
    arm (record c { stats = record c.stats { sent = counted c.stats.sent } }) id p (times_out id)
      delay now

-- Either the query is on its way, or `add_fd` refused.
unfoldable pub started :
    UpstreamClient → UpstreamClient → ℕ → Pending → ℕ → ℕ → Bool → UpstreamClient
unfolding sent_off fail_soon
started watching failed id p delay now true = sent_off watching id p delay now
started watching failed id p delay now false = fail_soon failed id p now

unfoldable pub watch_tcp : UpstreamClient → ℕ → Pending → ℕ → ℕ → Surroundings → UpstreamClient
unfolding add_fd is_success started
watch_tcp c id p fd delay env =
    let (loop, code) = add_fd c.loop fd (writes_or_reads id) env.epoll in
    let watched = record c { loop = loop } in
    let tallied = record watched {
      stats = record c.stats { sent_tcp = counted c.stats.sent_tcp };
    } in
    started tallied watched id p delay env.now (is_success code)

unfoldable pub watch_udp : UpstreamClient → ℕ → Pending → ℕ → ℕ → Surroundings → UpstreamClient
unfolding add_fd is_success started
watch_udp c id p fd delay env =
    let (loop, code) = add_fd c.loop fd (reads id) env.epoll in
    let watched = record c { loop = loop } in
    started watched watched id p delay env.now (is_success code)

unfoldable pub send_query :
    UpstreamClient → ℕ → Pending → Message → ℕ → ℕ → Transport → Surroundings → UpstreamClient
unfolding watch_tcp watch_udp fail_soon
send_query c id p query fd delay tcp env =
    watch_tcp c id (record p { out = build_tcp query (record { max_size = 512; compress = true }) })
      fd delay env
send_query c id p query fd delay udp env =
    let sent = env.takes (build query (record { max_size = 512; compress = true })) in
    if sent then watch_udp c id p fd delay env else fail_soon c id p env.now

unfoldable pub is_refused : Transport → Connected → Bool
is_refused transport connected = false
is_refused tcp in_progress = false
is_refused transport state = true

-- Opens the socket, connects it and sends the query.
unfoldable pub open_query :
    UpstreamClient → ℕ → Pending → Message → ℕ → Transport → Surroundings → UpstreamClient
unfolding send_query fail_soon is_refused
open_query c id p query delay transport env = elim env.socket [
  | none ↦ fail_soon c id p env.now
  | some fd ↦
      let opened = record p { fd = some fd } in
      if is_refused transport env.connect
      then fail_soon c id opened env.now
      else send_query c id opened query fd delay transport env
]

unfoldable pub send :
    UpstreamClient → Message → ℕ → Transport → Bool → Surroundings → UpstreamClient × ℕ
unfolding open_query
send c query delay transport match_case env =
    let id = c.next_id in
    let txid = env.random % 2 ^ 16 in
    let p = new_pending txid (first_question query.questions) match_case in
    let numbered = record query { header = record query.header { id = txid } } in
    let next = record c { next_id = (id + 1) % 2 ^ 64 } in
    (open_query next id p numbered delay transport env, id)

-- The socket is closed and the timer cancelled.
unfoldable pub release : EventLoop Action → Pending → EventLoop Action
unfolding remove_fd cancel_timer
release loop p =
    let closed : EventLoop Action = elim p.fd [ none ↦ loop | some fd ↦ remove_fd loop fd ] in
    if p.timer == 0 then closed else (cancel_timer closed p.timer).0

unfoldable pub cancel : UpstreamClient → ℕ → UpstreamClient
unfolding find erase release
cancel c id = elim (find id c.pending) [
  | none ↦ c
  | some p ↦ record c { loop = release c.loop p; pending = erase id c.pending }
]

unfoldable pub finish : UpstreamClient → ℕ → Reply → UpstreamClient
unfolding find erase release
finish c id reply = elim (find id c.pending) [
  | none ↦ c
  | some p ↦ record c {
    loop = release c.loop p;
    pending = erase id c.pending;
    called = c.called ++ (id, reply) ∷ [];
  }
]

-- Writes back what an exchange did, and ends the query if it is over.
unfoldable pub settle : UpstreamClient → ℕ → Exchange → UpstreamClient
unfolding put finish
settle c id e =
    let next = record c { pending = put id e.pending c.pending; stats = e.stats } in
    elim e.reply [ none ↦ next | some reply ↦ finish next id reply ]

unfoldable pub on_readable : UpstreamClient → ℕ → List Received → UpstreamClient
unfolding find read_udp settle
on_readable c id received = elim (find id c.pending) [
  | none ↦ c
  | some p ↦ settle c id (read_udp c.spoof_threshold p c.stats received)
]

-- The query is sent: from now on the socket is watched for the response.
unfoldable pub finish_writing : UpstreamClient → ℕ → Pending → Option ℕ → UpstreamClient
unfolding modify_fd is_success settle
finish_writing c id p epoll =
    let code : ErrorCode = elim p.fd [
      | none ↦ no_such_file_or_directory
      | some fd ↦ modify_fd c.loop fd epoll
    ] in
    settle c id (if is_success code then waiting p c.stats else broke_off p c.stats)

unfoldable pub on_writable : UpstreamClient → ℕ → Pending × Progress → Option ℕ → UpstreamClient
unfolding settle finish_writing
on_writable c id (p, blocked) epoll = settle c id (waiting p c.stats)
on_writable c id (p, broke) epoll = settle c id (broke_off p c.stats)
on_writable c id (p, complete) epoll = finish_writing c id p epoll

-- `hung_up`: the event mask has EPOLLERR or EPOLLHUP.
unfoldable pub on_tcp_event :
    UpstreamClient → ℕ → Bool → List Sent → List Received → Option ℕ → UpstreamClient
unfolding find write_out read_tcp on_writable settle
on_tcp_event c id hung_up sent received epoll = elim (find id c.pending) [
  | none ↦ c
  | some p ↦
      let writing : UpstreamClient =
        if hung_up
        then settle c id (broke_off p c.stats)
        else on_writable c id (write_out p sent) epoll in
      if ltb p.written (length p.out) then writing else settle c id (read_tcp p c.stats received)
]

-- The callback of the timer of a query that was sent.
unfoldable pub on_timeout : UpstreamClient → ℕ → UpstreamClient
unfolding find finish
on_timeout c id =
    let tallied = record c { stats = record c.stats { timeouts = counted c.stats.timeouts } } in
    let seen : Bool = elim (find id c.pending) [ none ↦ false | some p ↦ p.wrong_case_seen ] in
    finish tallied id (failure (if seen then case_mismatch else timeout))

-- The destructor: no `done` is called.
unfoldable pub destroy : UpstreamClient → EventLoop Action
unfolding release
destroy c = release_all c.loop c.pending
  where
    release_all : EventLoop Action → List (ℕ × Pending) → EventLoop Action
    release_all loop [] = loop
    release_all loop (entry ∷ rest) = release_all (release loop entry.1) rest
