-- ===== src/Resolver/Upstream/Sending.antt =====
-- core/resolver/upstream.cpp: what `send` does to the queries in flight.
use dnsentinal.Common.{
  ℕ, ◌+◌, ◌%◌, ◌^◌, ◌≡◌, inl, inr, refl, Bool, true, false, some, Option-cases, if◌then◌else◌,
}
use dnsentinal.Common.Maps.{put}
use dnsentinal.Types.{Message}
use dnsentinal.Wire.Builder.{BuildOptions, build, build_tcp}
use dnsentinal.Net.EventLoop.{EventLoop, add_fd}
use dnsentinal.Resolver.Upstream.{
  Pending, Stats, UpstreamClient, Transport, tcp, udp, open_query, new_pending, first_question,
  Surroundings, send, Action, arm, fail_soon, send_query, watch_tcp, watch_udp, started, sent_off,
  is_success, is_refused, writes_or_reads, counted, reads,
}

-- `send` puts the query under its id and calls nothing.
pub record SentAs (c : UpstreamClient) (id : ℕ) (d : UpstreamClient) : Type 0 where
  pub pending : Pending
  pub next_same : d.next_id ≡ c.next_id
  pub pending_put : d.pending ≡ put id pending c.pending
  pub called_same : d.called ≡ c.called

if-SentAs :
    (c : UpstreamClient) (id : ℕ) (b : Bool) (d d' : UpstreamClient)
    → SentAs c id d
    → SentAs c id d'
    → SentAs c id (if b then d else d')
if-SentAs c id true d d' h k = h
if-SentAs c id false d d' h k = k

fail_soon-SentAs :
    (c : UpstreamClient) (id : ℕ) (p : Pending) (now : ℕ) → SentAs c id (fail_soon c id p now)
unfolding fail_soon arm
fail_soon-SentAs c id p now = record {
  pending = _;
  next_same = refl;
  pending_put = refl;
  called_same = refl;
}

-- What the counters and the loop are does not matter.
started-SentAs :
    (c : UpstreamClient) (id : ℕ) (p : Pending) (delay now : ℕ) (loop : EventLoop Action)
    (stats : Stats) (b : Bool)
    → let watched = record c { loop = loop } in
      SentAs c id (started (record watched { stats = stats }) watched id p delay now b)
unfolding started sent_off fail_soon arm
started-SentAs c id p delay now loop stats true = record {
  pending = _;
  next_same = refl;
  pending_put = refl;
  called_same = refl;
}
started-SentAs c id p delay now loop stats false = record {
  pending = _;
  next_same = refl;
  pending_put = refl;
  called_same = refl;
}

module _ (c : UpstreamClient) (id : ℕ) (p : Pending) (fd delay : ℕ) (env : Surroundings) where
  watch_tcp-SentAs : SentAs c id (watch_tcp c id p fd delay env)
  unfolding watch_tcp
  watch_tcp-SentAs =
      let (loop, code) = add_fd c.loop fd (writes_or_reads id) env.epoll in
      started-SentAs c id p delay env.now loop
        (record c.stats { sent_tcp = counted c.stats.sent_tcp }) (is_success code)

  watch_udp-SentAs : SentAs c id (watch_udp c id p fd delay env)
  unfolding watch_udp
  watch_udp-SentAs =
      let (loop, code) = add_fd c.loop fd (reads id) env.epoll in
      started-SentAs c id p delay env.now loop c.stats (is_success code)

send_query-SentAs :
    (c : UpstreamClient) (id : ℕ) (p : Pending) (query : Message) (fd delay : ℕ)
    (transport : Transport) (env : Surroundings)
    → SentAs c id (send_query c id p query fd delay transport env)
unfolding send_query
send_query-SentAs c id p query fd delay tcp env =
    let options : BuildOptions = record { max_size = 512; compress = true } in
    watch_tcp-SentAs c id (record p { out = build_tcp query options }) fd delay env
send_query-SentAs c id p query fd delay udp env =
    if-SentAs c id (env.takes (build query (record { max_size = 512; compress = true }))) _ _
      (watch_udp-SentAs c id p fd delay env) (fail_soon-SentAs c id p env.now)

open_query-SentAs :
    (c : UpstreamClient) (id : ℕ) (p : Pending) (query : Message) (delay : ℕ)
    (transport : Transport) (env : Surroundings)
    → SentAs c id (open_query c id p query delay transport env)
unfolding open_query
open_query-SentAs c id p query delay transport env = elim (Option-cases env.socket) [
  | inl e ↦ rw (e, open_query) (fail_soon-SentAs c id p env.now)
  | inr (fd, e) ↦
      let opened : Pending = record p { fd = some fd } in
      rw (e, open_query)
        (if-SentAs c id (is_refused transport env.connect) _ _
          (fail_soon-SentAs c id opened env.now)
          (send_query-SentAs c id opened query fd delay transport env))
]

module _ (c : UpstreamClient) (query : Message) (delay : ℕ) (transport : Transport)
    (match_case : Bool) (env : Surroundings) where
  pub send-SentAs :
      SentAs
        (record c { next_id = (c.next_id + 1) % 2 ^ 64 })
        c.next_id
        (send c query delay transport match_case env).0
  unfolding send
  send-SentAs =
      let p = new_pending (env.random % 2 ^ 16) (first_question query.questions) match_case in
      open_query-SentAs _ _ p _ delay transport env
