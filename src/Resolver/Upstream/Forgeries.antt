-- ===== src/Resolver/Upstream/Forgeries.antt =====
-- core/resolver/upstream.cpp: forged datagrams in front of the server's own.
use dnsentinal.Common.{
  ℕ, suc, ◌+◌, ◌^◌, ◌<◌, ◌≤◌, ◌≡◌, ◌⊎◌, inl, inr, refl, sym, ap, ◌∙◌, false, List, [], ◌∷◌, ◌++◌,
  some, arith, Bool-cases, length, All, map,
}
use dnsentinal.Types.{Bytes, Message}
use dnsentinal.Wire.Outcome.{ok}
use dnsentinal.Wire.Parser.{parse}
use dnsentinal.Resolver.Upstream.{
  Pending, Stats, answer, failure, spoof_suspected, Received, bytes, yes, Exchange, read_udp,
}
use dnsentinal.Resolver.Upstream.Accepted.{accept-answer}
use dnsentinal.Resolver.Upstream.Answers.{
  verdict, Forged, SameQuery, Same-trans, Same-verdict, alarms, after, after-Same, after-suspicious,
  read_udp-goes_on, read_udp-alarms,
}

-- So few datagrams that no alarm is raised.
abbrev pub Tolerated : ℕ → Pending → ℕ → Type 0
Tolerated threshold p n = (threshold ≡ 0) ⊎ (p.suspicious + n < threshold)

Tolerated-alarms :
    (threshold : ℕ) (p : Pending) (n : ℕ)
    → threshold < 2 ^ 32
    → Tolerated threshold p (suc n)
    → alarms threshold p ≡ false
Tolerated-alarms threshold p n small (inl e) = ground arith
Tolerated-alarms threshold p n small (inr e) = ground arith

Tolerated-after :
    (threshold : ℕ) (p : Pending) (s : Stats) (d : Bytes) (rest : List Received) (f : Forged p d)
    (n : ℕ)
    → threshold < 2 ^ 32
    → Tolerated threshold p (suc n)
    → Tolerated threshold (after threshold p s d rest f).pending n
Tolerated-after threshold p s d rest f n small (inl e) = inl e
Tolerated-after threshold p s d rest f n small (inr e) =
    let grown =
      after-suspicious threshold p s d rest f (λ z. omega (arith, z, e))
        (omega (arith, e, small)) in
    inr (omega (arith, e, grown))

Same-Forged :
    {p p' : Pending} → SameQuery p p' → (ds : List Bytes) → All (Forged p) ds → All (Forged p') ds
Same-Forged same [] h = tt
Same-Forged same (d ∷ ds) h = (λ e. h.0 (sym (Same-verdict same d) ∙ e), Same-Forged same ds h.1)

-- What is left to read, and with what.
record Skipped (threshold : ℕ) (p : Pending) (s : Stats) (ds : List Bytes) (rest : List Received)
    : Type 0 where
  later : Pending
  stats : Stats
  same : SameQuery p later
  skips : read_udp threshold p s (map bytes ds ++ rest) ≡ read_udp threshold later stats rest

skip-Forged :
    (threshold : ℕ) (p : Pending) (s : Stats) (ds : List Bytes) (rest : List Received)
    → threshold < 2 ^ 32
    → All (Forged p) ds
    → Tolerated threshold p (length ds)
    → Skipped threshold p s ds rest
skip-Forged threshold p s [] rest small h few = record {
  later = p;
  stats = s;
  same = record { txid = refl; question = refl; match_case = refl };
  skips = refl;
}
skip-Forged threshold p s (d ∷ ds) rest small h few =
    let next = after threshold p s d (map bytes ds ++ rest) h.0 in
    let same = after-Same threshold p s d (map bytes ds ++ rest) h.0 in
    let still = Tolerated-after threshold p s d (map bytes ds ++ rest) h.0 (length ds) small few in
    let ih =
      skip-Forged threshold next.pending next.stats ds rest small (Same-Forged same ds h.1) still in
    record {
      later = ih.later;
      stats = ih.stats;
      same = Same-trans same ih.same;
      skips =
          read_udp-goes_on threshold p s d (map bytes ds ++ rest) h.0
            (Tolerated-alarms threshold p (length ds) small few)
          ∙ ih.skips;
    }

-- Forged datagrams do not cut a query short: as long as there are fewer of them than raise the
-- alarm (with threshold 0, however many), the next datagram that answers the query ends it with
-- its message. Forged is what is not the response, or is in another case when that counts.
pub read_udp-answer :
    (threshold : ℕ) (p : Pending) (s : Stats) (forged : List Bytes) (genuine : Bytes)
    (rest : List Received) (msg : Message)
    → threshold < 2 ^ 32
    → All (Forged p) forged
    → Tolerated threshold p (length forged)
    → parse genuine ≡ ok msg
    → verdict p genuine ≡ yes
    → (read_udp threshold p s (map bytes forged ++ bytes genuine ∷ rest)).reply ≡ some (answer msg)
read_udp-answer threshold p s forged genuine rest msg small h few e v =
    let skip = skip-Forged threshold p s forged (bytes genuine ∷ rest) small h few in
    ap (λ (e : Exchange). e.reply) skip.skips
    ∙ accept-answer threshold skip.later skip.stats genuine rest msg e
        (Same-verdict skip.same genuine ∙ v)

-- As soon as forged datagrams reach the threshold, if that is not 0, the query ends with
-- `SpoofSuspected`, whatever comes after them.
pub read_udp-spoof_suspected :
    (threshold : ℕ) (p : Pending) (s : Stats) (forged : List Bytes) (rest : List Received)
    → threshold < 2 ^ 32
    → All (Forged p) forged
    → p.suspicious < threshold
    → threshold ≤ p.suspicious + length forged
    → (read_udp threshold p s (map bytes forged ++ rest)).reply ≡ some (failure spoof_suspected)
read_udp-spoof_suspected threshold p s [] rest small h low high = absurd (omega (arith, low, high))
read_udp-spoof_suspected threshold p s (d ∷ ds) rest small h low high =
    let later = map bytes ds ++ rest in
    let next = after threshold p s d later h.0 in
    elim (Bool-cases (alarms threshold p)) [
      | inl e ↦ read_udp-alarms threshold p s d later h.0 e
      | inr e ↦
          let grown =
            after-suspicious threshold p s d later h.0 (λ z. omega (arith, z, low))
              (omega (arith, low, small)) in
          ap (λ (e : Exchange). e.reply) (read_udp-goes_on threshold p s d later h.0 e)
          ∙ read_udp-spoof_suspected threshold next.pending next.stats ds rest small
              (Same-Forged (after-Same threshold p s d later h.0) ds h.1)
              (ground (arith, e, grown, low, small)) (omega (arith, high, grown))
    ]
