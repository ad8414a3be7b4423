-- ===== src/Resolver/RecursiveResolver/Handlers.antt =====
-- core/resolver/recursive_resolver.cpp: every step counts the queries it sends in the client's budget.
use dnsentinal.Common.{
  ℕ, ◌+◌, ◌%◌, ◌^◌, ◌++◌, ◌<◌, ◌≡◌, refl, Bool, true, false, not, List, [], ◌∷◌, Option, none, some,
  arith, if◌then◌else◌, ltb, ◌==◌, ◌&&◌, ◌||◌,
}
use dnsentinal.Common.Int.{ℤ}
use dnsentinal.Types.{Message, Rr, in_authority}
use dnsentinal.Types.RCode
use dnsentinal.Types.RrType
use dnsentinal.Cache.{insert}
use dnsentinal.Security.Bailiwick.{filter_to_bailiwick}
use dnsentinal.Resolver.ServerSelection.{record_failure}
use dnsentinal.Cache.Entries.{Layout}
use dnsentinal.Resolver.Upstream.{
  udp, tcp, UpstreamError, case_mismatch, spoof_suspected, Reply, answer, failure,
}
use dnsentinal.Resolver.RecursiveResolver.{
  ResolverConfig, RootHints, Task, Shared, Step, Next, then_next, fails, send_query, next_server,
  on_child_done, step, rate, refer, conclude, handle_records, handle_response, handle_failure,
  on_response, has_records, read_answers, read_cache, collect, find_soa, referral_ns, is_downward,
  restore_case, key_in, min_ttl, cache_glue, enter_zone, store_negative, outcome, proof_of,
  finishes, nxdomain_type, has_soa, erase_address, from_cache, from_answers, add_servers,
  ipv4_addresses, start_at_closest_zone, class_in, serv_fail, max_depth_exceeded,
}
use dnsentinal.Resolver.RecursiveResolver.Budget.{
  Within, Fits, if-Within, quiet-Within, send_query-Within, next_server-Within, from_cache-Within,
  from_answers-Within,
}

module _ (config : ResolverConfig) (hints : RootHints) (layout : Layout) (uniform : ℕ → ℕ → ℕ)
    (random : ℕ → ℕ) (now : ℕ) (small : config.max_upstream_queries < 2 ^ 32) where
  pub on_child_done-Within :
      (t : Task) (s : Shared) (o : Option Message)
      → Fits config s
      → Within config s.queries (on_child_done config hints layout uniform random now t s o)
  unfolding on_child_done
  on_child_done-Within t s none h =
      next_server-Within config hints layout uniform random now small t s h
  on_child_done-Within t s (some response) h =
      next_server-Within config hints layout uniform random now small
        (add_servers t (ipv4_addresses response.answers)) s h

  pub step-Within :
      (t : Task) (s : Shared)
      → Fits config s
      → Within config s.queries (step config hints layout uniform random now t s)
  unfolding step
  step-Within t s h =
      let found =
        read_cache config hints layout uniform random now (1 + config.max_cname_chain) t s.cache in
      let started = start_at_closest_zone config hints found.0.1 found.0.0 now in
      let read : Shared = record s { cache = found.0.1 } in
      let placed : Shared = record s { cache = started.0 } in
      let asking = next_server config hints layout uniform random now started.1 placed in
      if-Within config hints layout uniform random now small (not (t.question.qclass == class_in))
        (then_next t s (fails serv_fail)) (from_cache found.0.0 read found.1 asking)
        (quiet-Within config hints layout uniform random now small t s (fails serv_fail) refl h)
        (from_cache-Within config hints layout uniform random now small found.0.0 read found.1
          asking h
          (next_server-Within config hints layout uniform random now small started.1 placed h))

  refer-Within :
      (t : Task) (s : Shared) (response : Message) (ns : List Rr)
      → Fits config s
      → Within config s.queries (refer config hints layout uniform random now t s response ns)
  unfolding refer
  refer-Within t s response [] h =
      next_server-Within config hints layout uniform random now small t s h
  refer-Within t s response (r ∷ rest) h =
      let ns = r ∷ rest in
      let referred = record t { referrals = (t.referrals + 1) % 2 ^ 16 } in
      let stored =
        insert layout s.cache (key_in r.name RrType.ns_record) ns in_authority (min_ttl ns) false
          now in
      let glued = cache_glue config hints layout uniform random now stored response.additional ns in
      let entered = enter_zone hints glued referred r.name ns response.additional now in
      let kept : Shared = record s { cache = entered.0 } in
      if-Within config hints layout uniform random now small
        (ltb config.max_referral_depth referred.referrals)
        (then_next referred s (fails max_depth_exceeded))
        (next_server config hints layout uniform random now entered.1 kept)
        (quiet-Within config hints layout uniform random now small referred s
          (fails max_depth_exceeded) refl h)
        (next_server-Within config hints layout uniform random now small entered.1 kept h)

  conclude-Within :
      (t : Task) (s : Shared) (response : Message) (soa : Option (Rr × ℕ)) (ns : List Rr)
      (downward : Bool)
      → Fits config s
      → Within config s.queries
          (conclude config hints layout uniform random now t s response soa ns downward)
  unfolding conclude
  conclude-Within t s response soa ns downward h =
      let next = next_server config hints layout uniform random now t s in
      let stored : ℕ → Shared = λ type. record s {
        cache = store_negative config hints layout uniform random now s.cache t.qname type soa;
      } in
      let said : ℕ → Next = λ rcode. finishes (outcome t rcode [] (proof_of soa)) in
      let referred = refer config hints layout uniform random now t s response ns in
      let denied = then_next t (stored nxdomain_type) (said RCode.nx_domain) in
      let empty = then_next t (stored t.question.qtype) (said RCode.no_error) in
      let otherwise = if response.header.aa || has_soa soa then empty else next in
      let further = if downward then referred else next in
      let again = next_server-Within config hints layout uniform random now small t s h in
      if-Within config hints layout uniform random now small
        (response.header.rcode == RCode.nx_domain) denied
        (if has_records ns then further else otherwise) (record { within = h; spent = omega arith })
        (if-Within config hints layout uniform random now small (has_records ns) further otherwise
          (if-Within config hints layout uniform random now small downward referred next
            (refer-Within t s response ns h) again)
          (if-Within config hints layout uniform random now small
            (response.header.aa || has_soa soa) empty next
            (record { within = h; spent = omega arith }) again))

  rate-queries :
      (t : Task) (s : Shared) (useful : Bool) (rtt : ℤ)
      → (rate config hints layout uniform random now t s useful rtt).queries ≡ s.queries
  unfolding rate
  rate-queries t s true rtt = refl
  rate-queries t s false rtt = refl

  rate-Fits :
      (t : Task) (s : Shared) (useful : Bool) (rtt : ℤ)
      → Fits config s
      → Fits config (rate config hints layout uniform random now t s useful rtt)
  rate-Fits t s useful rtt h = rw (rate-queries t s useful rtt) h

  rated-Within :
      (t : Task) (s : Shared) (useful : Bool) (rtt : ℤ) (st : Step)
      → Within config (rate config hints layout uniform random now t s useful rtt).queries st
      → Within config s.queries st
  rated-Within t s useful rtt st h = record {
    within = h.within;
    spent = omega (arith, h.spent, rate-queries t s useful rtt);
  }

  handle_failure-Within :
      (t : Task) (s : Shared) (e : UpstreamError)
      → Fits config s
      → Within config s.queries (handle_failure config hints layout uniform random now t s e)
  unfolding handle_failure
  handle_failure-Within t s spoof_suspected h =
      send_query-Within config hints layout uniform random now small t s t.asked tcp h
  handle_failure-Within t s case_mismatch h =
      send_query-Within config hints layout uniform random now small
        (record t { tried = erase_address t.asked t.tried })
        (record s { no_0x20 = t.asked ∷ s.no_0x20 }) t.asked udp h
  handle_failure-Within t s UpstreamError.network_error h =
      next_server-Within config hints layout uniform random now small t
        (record s { selection = record_failure s.selection t.asked now }) h
  handle_failure-Within t s UpstreamError.timeout h =
      next_server-Within config hints layout uniform random now small
        (record t { timeouts = (t.timeouts + 1) % 2 ^ 32; timed_out = t.timed_out ++ t.asked ∷ [] })
        (record s { selection = record_failure s.selection t.asked now }) h

  handle_records-Within :
      (t : Task) (s : Shared) (response : Message) (rtt : ℤ)
      → Fits config s
      → Within config s.queries
          (handle_records config hints layout uniform random now t s response rtt)
  unfolding handle_records
  handle_records-Within t s response rtt h =
      let qtype = t.question.qtype in
      let direct = has_records (collect response.answers t.qname qtype) in
      let aliased = has_records (collect response.answers t.qname RrType.cname_record) in
      let answered = direct || (not (qtype == RrType.cname_record) && aliased) in
      let soa = find_soa response.authority t.qname in
      let ns = if response.header.aa then [] else referral_ns response.authority in
      let downward = is_downward t ns in
      let useful =
        answered
        || response.header.rcode == RCode.nx_domain
        || (if has_records ns then downward else response.header.aa || has_soa soa) in
      let rated = rate config hints layout uniform random now t s useful rtt in
      let fuel = 1 + config.max_cname_chain in
      let read =
        read_answers config hints layout uniform random now fuel t rated.cache response false in
      let stored : Shared = record rated { cache = read.0.1 } in
      let fits = rate-Fits t s useful rtt h in
      let afresh = step config hints layout uniform random now read.0.0 stored in
      let rest =
        conclude config hints layout uniform random now read.0.0 stored response soa ns downward in
      rated-Within t s useful rtt (from_answers read.0.0 stored read.1 afresh rest) (
        from_answers-Within config hints layout uniform random now small read.0.0 stored read.1
          afresh rest fits (step-Within read.0.0 stored fits)
          (conclude-Within read.0.0 stored response soa ns downward fits))

  handle_response-Within :
      (t : Task) (s : Shared) (message : Message) (rtt : ℤ)
      → Fits config s
      → Within config s.queries
          (handle_response config hints layout uniform random now t s message rtt)
  unfolding handle_response
  handle_response-Within t s message rtt h =
      let response = if t.sent_0x20 then restore_case message t.qname else message in
      let code = response.header.rcode in
      let rated : Bool → Shared =
        λ useful. rate config hints layout uniform random now t s useful rtt in
      let next = next_server config hints layout uniform random now t (rated false) in
      let again = send_query config hints layout uniform random now t (rated true) t.asked tcp in
      let inside = (filter_to_bailiwick response t.zone).0 in
      let records = handle_records config hints layout uniform random now t s inside rtt in
      let unusable = not (code == RCode.no_error) && not (code == RCode.nx_domain) in
      let moves_on = rated-Within t s false rtt next (
        next_server-Within config hints layout uniform random now small t (rated false)
          (rate-Fits t s false rtt h)) in
      let asks_again = rated-Within t s true rtt again (
        send_query-Within config hints layout uniform random now small t (rated true) t.asked tcp
          (rate-Fits t s true rtt h)) in
      if-Within config hints layout uniform random now small response.header.tc
        (if t.over_tcp then next else again) (if unusable then next else records)
        (if-Within config hints layout uniform random now small t.over_tcp next again moves_on
          asks_again)
        (if-Within config hints layout uniform random now small unusable next records moves_on
          (handle_records-Within t s inside rtt h))

  pub on_response-Within :
      (t : Task) (s : Shared) (reply : Reply) (rtt : ℤ)
      → Fits config s
      → Within config s.queries (on_response config hints layout uniform random now t s reply rtt)
  unfolding on_response
  on_response-Within t s (answer message) rtt h = handle_response-Within t s message rtt h
  on_response-Within t s (failure error) rtt h = handle_failure-Within t s error h
