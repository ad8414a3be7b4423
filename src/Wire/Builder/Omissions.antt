-- ===== src/Wire/Builder/Omissions.antt =====
-- core/wire/builder.cpp: what a message leaves out to stay within its size, and how its header tells.
use dnsentinal.Common.{
  ℕ, ◌+◌, ◌^◌, ◌%◌, ◌≤◌, ◌<◌, ◌≡◌, refl, ap, ◌∙◌, max, Bool, false, not, ◌||◌, List, [], ◌∷◌, ◌++◌,
  Option, none, some, length, length-append, ltb, arith, replicate, Bool-cases, inl, inr, All,
}
use dnsentinal.Types.{Header, Question, Rr, EdnsInfo, Message}
use dnsentinal.Wire.Builder.{
  opt_room, Written, same_rrset, write_questions, runs_from, runs, write_runs, write_next,
  write_sections, count_opt, final_header, BuildOptions, build,
}
use dnsentinal.Wire.Builder.Limits.{build_message_size, parse_header-build_message}
use dnsentinal.Wire.ByteIo.{size_sub}
use dnsentinal.Wire.Outcome.{ok}
use dnsentinal.Wire.Parser.Safety.{IsHeader}
use dnsentinal.Wire.Parser.{parse_header}
use dnsentinal.Wire.Writer.{Writer, size, write_question, write_rrs}

-- Of `n` entries, as many were written as counted, and not all just if some were left out.
record Tallies (n : ℕ) (r : Written) : Type 0 where
  most : r.count ≤ n
  left_out : not r.complete ≡ ltb r.count n

not-ltb : (n : ℕ) → false ≡ ltb n n
not-ltb n = ground arith

write_questions-Tallies :
    (limit : ℕ) (qs : List Question) (w : Writer) (count n : ℕ)
    → n ≡ count + length qs
    → n < 2 ^ 16
    → Tallies n (write_questions limit qs w count)
unfolding write_questions
write_questions-Tallies limit [] w count n e small = record {
  most = omega (arith, e);
  left_out = ground (arith, e);
}
write_questions-Tallies limit (q ∷ qs) w count n e small =
    elim (Bool-cases (ltb limit (size (write_question q w)))) [
      | inl f ↦
          rw (write_questions, f) (record { most = omega (arith, e); left_out = ground (arith, e) })
      | inr f ↦
          rw (write_questions, f)
            (write_questions-Tallies limit qs (write_question q w) ((count + 1) % 2 ^ 16) n
              (omega (arith, e, small)) small)
    ]

abbrev total : List (List Rr) → ℕ
total [] = 0
total (run ∷ more) = length run + total more

-- Every run has a record.
abbrev NonEmpty : List (List Rr) → Type 0
NonEmpty = All (λ run. 0 < length run)

runs_from-total :
    (first : Rr) (run rs : List Rr)
    → 0 < length run
    → (total (runs_from first run rs) ≡ length run + length rs) × NonEmpty (runs_from first run rs)
unfolding runs_from
runs_from-total first run [] h = (omega arith, (h, tt))
runs_from-total first run (r ∷ rs) h = elim (Bool-cases (same_rrset first r)) [
  | inl e ↦
      let longer = length-append run (r ∷ []) in
      let (sum, full) = runs_from-total first (run ++ r ∷ []) rs (omega (arith, longer)) in
      rw (runs_from, e) (omega (arith, sum, longer), full)
  | inr e ↦
      let (sum, full) = runs_from-total r (r ∷ []) rs (omega arith) in
      rw (runs_from, e) (omega (arith, sum), (h, full))
]

runs-total : (rs : List Rr) → (total (runs rs) ≡ length rs) × NonEmpty (runs rs)
unfolding runs
runs-total [] = (refl, tt)
runs-total (r ∷ rs) =
    let (sum, full) = runs_from-total r (r ∷ []) rs (omega arith) in (omega (arith, sum), full)

write_runs-Tallies :
    (limit : ℕ) (rs : List (List Rr)) (w : Writer) (count n : ℕ)
    → NonEmpty rs
    → n ≡ count + total rs
    → n < 2 ^ 16
    → Tallies n (write_runs limit rs w count)
unfolding write_runs
write_runs-Tallies limit [] w count n full e small = record {
  most = omega (arith, e);
  left_out = ground (arith, e);
}
write_runs-Tallies limit (run ∷ more) w count n full e small =
    elim (Bool-cases (ltb limit (size (write_rrs run w)))) [
      | inl f ↦
          rw (write_runs, f)
            (record { most = omega (arith, e); left_out = ground (arith, e, full.0) })
      | inr f ↦
          rw (write_runs, f)
            (write_runs-Tallies limit more (write_rrs run w) ((count + length run) % 2 ^ 16) n
              full.1 (omega (arith, e, small)) small)
    ]

-- The same of a section after `before`: nothing of it is written once something was left out.
record Follows (n : ℕ) (before r : Written) : Type 0 where
  most : r.count ≤ n
  left_out : not r.complete ≡ not before.complete || ltb r.count n

write_next-Follows :
    (limit : ℕ) (before : Written) (rrs : List Rr)
    → length rrs < 2 ^ 16
    → Follows (length rrs) before (write_next before limit rrs)
unfolding write_next
write_next-Follows limit before rrs small = elim (Bool-cases before.complete) [
  | inl e ↦
      let (sum, full) = runs-total rrs in
      let w =
        write_runs-Tallies limit (runs rrs) before.writer 0 (length rrs) full (omega (arith, sum))
          small in
      rw (write_next, e) (record { most = w.most; left_out = w.left_out })
  | inr e ↦ rw (write_next, e) (record { most = omega arith; left_out = refl })
]

abbrev opts : Option EdnsInfo → ℕ
opts none = 0
opts (some e) = 1

count_opt-opts :
    (edns : Option EdnsInfo) (n : ℕ) → n + 1 < 2 ^ 16 → count_opt edns n ≡ opts edns + n
unfolding count_opt
count_opt-opts none n h = omega arith
count_opt-opts (some e) n h = omega (arith, h)

-- The numbers of entries of a message fit the counts of a header.
pub record IsCountable (msg : Message) : Type 0 where
  pub questions : length msg.questions < 2 ^ 16
  pub answers : length msg.answers < 2 ^ 16
  pub authority : length msg.authority < 2 ^ 16
  pub additional : length msg.additional + 1 < 2 ^ 16

-- A header that tells what was written of a message: counts that are no more than there was, TC if
-- it was set or if a question or a record of the answer or authority section was left out, and
-- only then, and the other fields of the message's header.
pub record Tells (msg : Message) (h : Header) : Type 0 where
  pub questions : h.qdcount ≤ length msg.questions
  pub answers : h.ancount ≤ length msg.answers
  pub authority : h.nscount ≤ length msg.authority
  pub opt : opts msg.edns ≤ h.arcount
  pub additional : h.arcount ≤ opts msg.edns + length msg.additional
  pub truncated : h.tc ≡ (
      msg.header.tc
      || (ltb h.qdcount (length msg.questions)
          || ltb h.ancount (length msg.answers)
          || ltb h.nscount (length msg.authority)))
  pub others : h ≡ record msg.header {
    qdcount = h.qdcount;
    ancount = h.ancount;
    nscount = h.nscount;
    arcount = h.arcount;
    tc = h.tc;
  }

final_header-Tells :
    (msg : Message) (max_size : ℕ) (compress : Bool)
    → IsCountable msg
    → Tells msg (final_header msg (write_sections msg max_size compress))
unfolding write_sections final_header
final_header-Tells msg max_size compress c =
    let s = write_sections msg max_size compress in
    let limit = size_sub max_size (opt_room msg.edns) in
    let w : Writer = record { compress = compress; out = replicate 12 0; suffixes = [] } in
    let q =
      write_questions-Tallies limit msg.questions w 0 (length msg.questions) (omega arith)
        c.questions in
    let a = write_next-Follows limit s.questions msg.answers c.answers in
    let n = write_next-Follows limit s.answers msg.authority c.authority in
    let d = write_next-Follows limit s.authority msg.additional (omega (arith, c.additional)) in
    let o = count_opt-opts msg.edns s.additional.count (omega (arith, d.most, c.additional)) in
    record {
      questions = q.most;
      answers = a.most;
      authority = n.most;
      opt = omega (arith, o);
      additional = omega (arith, o, d.most);
      truncated =
          ap (λ b. msg.header.tc || b)
            (n.left_out
              ∙ ap (λ b. b || ltb s.authority.count (length msg.authority))
                  (a.left_out
                    ∙ ap (λ b. b || ltb s.answers.count (length msg.answers)) q.left_out));
      others = refl;
    }

-- If the size asked for is below 2^16, the fields of the header fit their widths and the numbers of
-- entries fit its counts: a built message is at most as long as the size asked for, or as 512 bytes
-- if that is less, its OPT record included. Its first twelve bytes are read back as a header whose
-- counts are no more than the message has entries (the OPT record counted among the additional
-- ones), whose TC is set just if it was set in the message or the counts show that a question or a
-- record of the answer or authority section was left out, and whose other fields are the message's.
pub build_limits :
    (msg : Message) (opts : BuildOptions)
    → opts.max_size < 2 ^ 16
    → IsHeader msg.header
    → IsCountable msg
    → (length (build msg opts) ≤ max opts.max_size 512)
      × (h : Header) × (parse_header (build msg opts) ≡ ok h)
      × Tells msg h
unfolding build
build_limits msg opts small h c =
    let m = max opts.max_size 512 in
    (
      build_message_size msg m opts.compress (omega arith) (omega arith),
      final_header msg (write_sections msg m opts.compress),
      parse_header-build_message msg m opts.compress (omega arith) (omega arith) h,
      final_header-Tells msg m opts.compress c,
    )
