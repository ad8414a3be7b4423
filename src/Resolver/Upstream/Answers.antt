-- ===== src/Resolver/Upstream/Answers.antt =====
-- core/resolver/upstream.cpp: which datagrams end a query over UDP.
use dnsentinal.Common.{
  ℕ, ◌+◌, ◌%◌, ◌^◌, ◌<◌, ◌≡◌, ◌≢◌, inl, inr, refl, sym, ap, subst, ◌∙◌, Bool, true, false, ◌&&◌,
  ◌||◌, List, [], ◌∷◌, none, some, leb, ◌==◌, arith, Bool-cases, not, if◌then◌else◌,
}
use dnsentinal.Types.{Bytes, Message, Question}
use dnsentinal.Wire.Outcome.{Outcome, ok, fail, out_of_bounds, out_of_fuel}
use dnsentinal.Wire.Parser.{parse}
use dnsentinal.Security.ZeroX20.{same_case}
use dnsentinal.Resolver.Upstream.{
  Pending, Stats, Reply, failure, spoof_suspected, Received, bytes, Match, no, wrong_case, yes,
  question_eq, match, match_questions, Exchange, raise, raise_alarm, suspect, judge_udp, read_udp,
}

-- A response to our query: its id and its one question, in our case if that is asked for.
abbrev pub Answers : Pending → Message → Type 0
Answers p msg =
    (msg.header.qr ≡ true)
    × (msg.header.id ≡ p.txid)
    × ((q : Question) × (msg.questions ≡ q ∷ [])
        × (question_eq q p.question ≡ true)
        × (p.match_case ≡ true → same_case q.qname p.question.qname ≡ true))

abbrev pub verdict : Pending → Bytes → Match
verdict p datagram = match (parse datagram) p.txid p.question p.match_case

abbrev pub Forged : Pending → Bytes → Type 0
Forged p datagram = verdict p datagram ≢ yes

choice-yes :
    (same asked cased : Bool)
    → (if not same then no else (if asked && not cased then wrong_case else yes)) ≡ yes
    → (same ≡ true) × (asked ≡ true → cased ≡ true)
choice-yes same asked cased h = ground arith

match_questions-yes :
    (qs : List Question) (question : Question) (match_case : Bool)
    → match_questions qs question match_case ≡ yes
    → (q : Question) × (qs ≡ q ∷ [])
      × (question_eq q question ≡ true)
      × (match_case ≡ true → same_case q.qname question.qname ≡ true)
unfolding match_questions
match_questions-yes [] question match_case h = absurd (cc)
match_questions-yes (q ∷ r ∷ rest) question match_case h = absurd (cc)
match_questions-yes (q ∷ []) question match_case h =
    let k = choice-yes (question_eq q question) match_case (same_case q.qname question.qname) h in
    (q, refl, k.0, k.1)

pub match-yes :
    (p : Pending) (msg : Message)
    → match (ok msg) p.txid p.question p.match_case ≡ yes
    → Answers p msg
unfolding match
match-yes p msg h = elim (Bool-cases (not msg.header.qr || not (msg.header.id == p.txid))) [
  | inl e ↦ absurd (ground (arith, e, h))
  | inr e ↦
      let known : match_questions msg.questions p.question p.match_case ≡ yes = rw (e) at h in
      (
        ground (arith, e),
        ground (arith, e),
        match_questions-yes msg.questions p.question p.match_case known,
      )
]

judge_udp-forged :
    (threshold : ℕ) (p : Pending) (s : Stats) (m : Outcome Message) (v : Match)
    → v ≢ yes
    → judge_udp threshold p s m v ≡ raise_alarm threshold (suspect v p s)
unfolding judge_udp
judge_udp-forged threshold p s (ok msg) yes h = absurd (h refl)
judge_udp-forged threshold p s (ok msg) no h = refl
judge_udp-forged threshold p s (ok msg) wrong_case h = refl
judge_udp-forged threshold p s (fail e) v h = refl
judge_udp-forged threshold p s out_of_bounds v h = refl
judge_udp-forged threshold p s out_of_fuel v h = refl

-- The same query, later.
pub record SameQuery (p p' : Pending) : Type 0 where
  pub txid : p'.txid ≡ p.txid
  pub question : p'.question ≡ p.question
  pub match_case : p'.match_case ≡ p.match_case

suspect-Same :
    (v : Match) (p : Pending) (s : Stats)
    → SameQuery p (suspect v p s).0 × ((suspect v p s).0.suspicious ≡ p.suspicious)
unfolding suspect
suspect-Same no p s = (record { txid = refl; question = refl; match_case = refl }, refl)
suspect-Same yes p s = (record { txid = refl; question = refl; match_case = refl }, refl)
suspect-Same wrong_case p s = (record { txid = refl; question = refl; match_case = refl }, refl)

raise-Same : (threshold : ℕ) (p : Pending) → SameQuery p (raise threshold p).0
unfolding raise
raise-Same threshold p = elim (Bool-cases (threshold == 0)) [
  | inl e ↦ rw e (record { txid = refl; question = refl; match_case = refl })
  | inr e ↦ rw e (record { txid = refl; question = refl; match_case = refl })
]

raise_alarm-Same :
    (threshold : ℕ) (p : Pending) (s : Stats)
    → (raise_alarm threshold (p, s)).pending ≡ (raise threshold p).0
unfolding raise_alarm
raise_alarm-Same threshold p s = ground arith

pub Same-trans : {p q r : Pending} → SameQuery p q → SameQuery q r → SameQuery p r
Same-trans a b = record {
  txid = b.txid ∙ a.txid;
  question = b.question ∙ a.question;
  match_case = b.match_case ∙ a.match_case;
}

pub Same-verdict :
    {p p' : Pending}
    → SameQuery p p'
    → (datagram : Bytes) → verdict p' datagram ≡ verdict p datagram
Same-verdict {p} {p'} same datagram = rw (same.txid, same.question, same.match_case) refl

pub Same-Answers :
    {p p' : Pending} → SameQuery p p' → (msg : Message) → Answers p' msg → Answers p msg
Same-Answers {p} {p'} same msg a = rw (same.txid, same.question, same.match_case) at a

-- Whether a forgery raises the alarm.
abbrev pub alarms : ℕ → Pending → Bool
alarms threshold p = not (threshold == 0) && leb threshold ((p.suspicious + 1) % 2 ^ 32)

raise_alarm-reply :
    (threshold : ℕ) (p : Pending) (s : Stats)
    → (alarms threshold p ≡ true
        → (raise_alarm threshold (p, s)).reply ≡ some (failure spoof_suspected))
      × (alarms threshold p ≡ false → (raise_alarm threshold (p, s)).reply ≡ none)
unfolding raise_alarm raise
raise_alarm-reply threshold p s = ground arith

raise_alarm-suspicious :
    (threshold : ℕ) (p : Pending) (s : Stats)
    → threshold ≢ 0
    → p.suspicious + 1 < 2 ^ 32
    → (raise_alarm threshold (p, s)).pending.suspicious ≡ p.suspicious + 1
unfolding raise_alarm raise
raise_alarm-suspicious threshold p s h k = ground arith

module _ (threshold : ℕ) (p : Pending) (s : Stats) (datagram : Bytes) (rest : List Received) where
  pub judged-goes_on :
      let next = judge_udp threshold p s (parse datagram) (verdict p datagram) in
      next.reply ≡ none
      → read_udp threshold p s (bytes datagram ∷ rest)
        ≡ read_udp threshold next.pending next.stats rest
  unfolding read_udp
  judged-goes_on h = rw (h, read_udp) refl

  pub judged-over :
      let next = judge_udp threshold p s (parse datagram) (verdict p datagram) in
      (r : Reply) → next.reply ≡ some r → read_udp threshold p s (bytes datagram ∷ rest) ≡ next
  unfolding read_udp
  judged-over r h = rw (h, read_udp) refl

module _ (threshold : ℕ) (p : Pending) (s : Stats) (datagram : Bytes) (rest : List Received)
    (forged : Forged p datagram) where
  -- The query and the counters after the forgery.
  pub after : Exchange
  after = raise_alarm threshold (suspect (verdict p datagram) p s)

  judged : judge_udp threshold p s (parse datagram) (verdict p datagram) ≡ after
  unfolding after
  judged = judge_udp-forged threshold p s (parse datagram) (verdict p datagram) forged

  pub after-Same : SameQuery p after.pending
  unfolding after
  after-Same =
      let first = suspect (verdict p datagram) p s in
      let seen = (suspect-Same (verdict p datagram) p s).0 in
      subst (SameQuery p) (sym (raise_alarm-Same threshold first.0 first.1))
        (Same-trans seen (raise-Same threshold first.0))

  after-reply :
      (alarms threshold p ≡ true → after.reply ≡ some (failure spoof_suspected))
      × (alarms threshold p ≡ false → after.reply ≡ none)
  unfolding after
  after-reply =
      let first = suspect (verdict p datagram) p s in
      let same = (suspect-Same (verdict p datagram) p s).1 in
      let both = raise_alarm-reply threshold first.0 first.1 in
      (λ h. both.0 (rw same h), λ h. both.1 (rw same h))

  pub after-suspicious :
      threshold ≢ 0 → p.suspicious + 1 < 2 ^ 32 → after.pending.suspicious ≡ p.suspicious + 1
  unfolding after
  after-suspicious h k =
      let first = suspect (verdict p datagram) p s in
      let same = (suspect-Same (verdict p datagram) p s).1 in
      raise_alarm-suspicious threshold first.0 first.1 h (rw same k) ∙ ap (λ n. n + 1) same

  pub read_udp-goes_on :
      alarms threshold p ≡ false
      → read_udp threshold p s (bytes datagram ∷ rest)
        ≡ read_udp threshold after.pending after.stats rest
  read_udp-goes_on h =
      judged-goes_on threshold p s datagram rest
        (ap (λ (e : Exchange). e.reply) judged ∙ after-reply.1 h)
      ∙ ap (λ (e : Exchange). read_udp threshold e.pending e.stats rest) judged

  pub read_udp-alarms :
      alarms threshold p ≡ true
      → (read_udp threshold p s (bytes datagram ∷ rest)).reply ≡ some (failure spoof_suspected)
  read_udp-alarms h =
      let replied = ap (λ (e : Exchange). e.reply) judged ∙ after-reply.0 h in
      ap (λ (e : Exchange). e.reply)
        (judged-over threshold p s datagram rest (failure spoof_suspected) replied)
      ∙ replied
