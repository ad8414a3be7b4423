-- ===== src/Resolver/Upstream/Accepted.antt =====
-- core/resolver/upstream.cpp: what is accepted as the reply over UDP.
use dnsentinal.Common.{
  ℕ, ◌≡◌, ◌≢◌, ◌⊎◌, inl, inr, refl, sym, ap, ◌∙◌, List, [], ◌∷◌, some, Bool-cases, subst,
}
use dnsentinal.Types.{Bytes, Message}
use dnsentinal.Wire.Outcome.{Outcome, ok, fail, out_of_bounds, out_of_fuel}
use dnsentinal.Wire.Parser.{parse}
use dnsentinal.Resolver.Upstream.{
  Pending, Stats, answer, Received, bytes, interrupted, broken, Match, no, wrong_case, yes, match,
  Exchange, judge_udp, read_udp, answered,
}
use dnsentinal.Resolver.Upstream.Answers.{
  Answers, verdict, Same-Answers, alarms, after, after-Same, read_udp-goes_on, read_udp-alarms,
  match-yes, judged-over,
}

abbrev pub Among : Bytes → List Received → Type 0
Among datagram [] = ⊥
Among datagram (r ∷ rest) = (r ≡ bytes datagram) ⊎ Among datagram rest

Match-cases : (v : Match) → (v ≡ yes) ⊎ (v ≢ yes)
Match-cases yes = inl refl
Match-cases no = inr (λ e. cc)
Match-cases wrong_case = inr (λ e. cc)

-- Only a parsed message matches.
match-ok :
    (p : Pending) (m : Outcome Message)
    → match m p.txid p.question p.match_case ≡ yes
    → (msg : Message) × (m ≡ ok msg)
unfolding match
match-ok p (ok msg) h = (msg, refl)
match-ok p (fail e) h = absurd (cc)
match-ok p out_of_bounds h = absurd (cc)
match-ok p out_of_fuel h = absurd (cc)

judge_udp-answer :
    (threshold : ℕ) (p : Pending) (s : Stats) (genuine : Bytes) (msg : Message)
    → parse genuine ≡ ok msg
    → verdict p genuine ≡ yes
    → judge_udp threshold p s (parse genuine) (verdict p genuine) ≡ answered p s msg
unfolding judge_udp
judge_udp-answer threshold p s genuine msg e v =
    ap (λ m. judge_udp threshold p s m (verdict p genuine)) e
    ∙ ap (judge_udp threshold p s (ok msg)) v

pub accept-answer :
    (threshold : ℕ) (p : Pending) (s : Stats) (genuine : Bytes) (rest : List Received)
    (msg : Message)
    → parse genuine ≡ ok msg
    → verdict p genuine ≡ yes
    → (read_udp threshold p s (bytes genuine ∷ rest)).reply ≡ some (answer msg)
accept-answer threshold p s genuine rest msg e v =
    let judged = judge_udp-answer threshold p s genuine msg e v in
    let replied = ap (λ (x : Exchange). x.reply) judged in
    ap (λ (x : Exchange). x.reply) (judged-over threshold p s genuine rest (answer msg) replied)
    ∙ replied

-- An answer that `on_readable` ends a query with is the parse of a datagram that was received, and
-- it is a response with the query's id and one question equal to the query's, in exactly its case
-- if the case counts.
pub read_udp-Answers :
    (threshold : ℕ) (p : Pending) (s : Stats) (received : List Received) (msg : Message)
    → (read_udp threshold p s received).reply ≡ some (answer msg)
    → (datagram : Bytes) × Among datagram received × (parse datagram ≡ ok msg) × Answers p msg
unfolding read_udp
read_udp-Answers threshold p s [] msg h = absurd (cc)
read_udp-Answers threshold p s (interrupted ∷ rest) msg h =
    let (d, among, parsed, a) = read_udp-Answers threshold p s rest msg h in
    (d, inr among, parsed, a)
read_udp-Answers threshold p s (broken ∷ rest) msg h = absurd (cc)
read_udp-Answers threshold p s (bytes d ∷ rest) msg h = elim (Match-cases (verdict p d)) [
  | inl v ↦
      let (m, e) = match-ok p (parse d) v in
      let taken = accept-answer threshold p s d rest m e v in
      let same : m ≡ msg = cc (taken, h) in
      (
        d,
        inl refl,
        e ∙ ap ok same,
        subst (Answers p) same
            (match-yes p m (ap (λ x. match x p.txid p.question p.match_case) (sym e) ∙ v)),
      )
  | inr f ↦ elim (Bool-cases (alarms threshold p)) [
    | inl a ↦ absurd (cc (read_udp-alarms threshold p s d rest f a, h))
    | inr a ↦
        let next = after threshold p s d rest f in
        let goes_on = ap (λ (x : Exchange). x.reply) (read_udp-goes_on threshold p s d rest f a) in
        let (found, among, parsed, answers) =
          read_udp-Answers threshold next.pending next.stats rest msg (sym goes_on ∙ h) in
        (found, inr among, parsed, Same-Answers (after-Same threshold p s d rest f) msg answers)
  ]
]
