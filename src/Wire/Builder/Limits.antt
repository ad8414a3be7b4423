-- ===== src/Wire/Builder/Limits.antt =====
-- core/wire/builder.cpp: a message never exceeds the size asked for, and starts with its header.
use dnsentinal.Common.{
  ℕ, ◌+◌, ◌-◌, ◌^◌, ◌%◌, ◌≤◌, ◌<◌, ◌≡◌, Bool, List, [], ◌∷◌, Option, none, some, length,
  length-append, ltb, arith, Bool-cases, inl, inr, replicate,
}
use dnsentinal.Types.{Bytes, Question, Rr, EdnsInfo, Message}
use dnsentinal.Wire.Builder.HeaderRoundTrip.{length-write_header, parse_header-write_header}
use dnsentinal.Wire.Builder.{
  Written, write_questions, runs, write_runs, write_next, Sections, opt_room, write_sections,
  count_opt, final_header, append_opt, build_message,
}
use dnsentinal.Wire.ByteIo.{size_sub}
use dnsentinal.Wire.Edns.{write_opt}
use dnsentinal.Wire.Outcome.{ok}
use dnsentinal.Wire.Parser.Safety.{IsHeader}
use dnsentinal.Wire.Parser.{parse_header}
use dnsentinal.Wire.Writer.Sizes.{
  length-put_u16, length-put_u32, size-rollback, write_question-grows, write_rrs-grows,
}
use dnsentinal.Wire.Writer.{Writer, size, write_question, write_rrs}

-- Between the header and the limit, with a count of 16 bits.
pub record Fits (limit : ℕ) (r : Written) : Type 0 where
  pub low : 12 ≤ size r.writer
  pub high : size r.writer ≤ limit
  pub counted : r.count < 2 ^ 16

module _ (limit : ℕ) where
  write_questions-Fits :
      (qs : List Question) (w : Writer) (count : ℕ)
      → 12 ≤ size w
      → size w ≤ limit
      → count < 2 ^ 16
      → Fits limit (write_questions limit qs w count)
  unfolding write_questions
  write_questions-Fits [] w count l h c = record { low = l; high = h; counted = c }
  write_questions-Fits (q ∷ qs) w count l h c =
      let w' = write_question q w in
      let grows = write_question-grows q w in
      elim (Bool-cases (ltb limit (size w'))) [
        | inl e ↦
            rw (e, write_questions)
              (record {
                low = omega (arith, size-rollback w' (size w), grows);
                high = omega (arith, size-rollback w' (size w));
                counted = c;
              })
        | inr e ↦
            rw (e, write_questions)
              (write_questions-Fits qs w' ((count + 1) % 2 ^ 16) (omega (arith, grows))
                (ground arith) (omega arith))
      ]

  write_runs-Fits :
      (rs : List (List Rr)) (w : Writer) (count : ℕ)
      → 12 ≤ size w
      → size w ≤ limit
      → count < 2 ^ 16
      → Fits limit (write_runs limit rs w count)
  unfolding write_runs
  write_runs-Fits [] w count l h c = record { low = l; high = h; counted = c }
  write_runs-Fits (run ∷ more) w count l h c =
      let w' = write_rrs run w in
      let grows = write_rrs-grows run w in
      elim (Bool-cases (ltb limit (size w'))) [
        | inl e ↦
            rw (e, write_runs)
              (record {
                low = omega (arith, size-rollback w' (size w), grows);
                high = omega (arith, size-rollback w' (size w));
                counted = c;
              })
        | inr e ↦
            rw (e, write_runs)
              (write_runs-Fits more w' ((count + length run) % 2 ^ 16) (omega (arith, grows))
                (ground arith) (omega arith))
      ]

  write_next-Fits :
      (r : Written) (rrs : List Rr) → Fits limit r → Fits limit (write_next r limit rrs)
  unfolding write_next
  write_next-Fits r rrs v = elim (Bool-cases r.complete) [
    | inl e ↦ rw (e, write_next) (write_runs-Fits (runs rrs) r.writer 0 v.low v.high (omega arith))
    | inr e ↦ rw (e, write_next) (record { low = v.low; high = v.high; counted = omega arith })
  ]

length-append_opt :
    (edns : Option EdnsInfo) (out : Bytes)
    → length (append_opt edns out) ≡ length out + opt_room edns
unfolding append_opt opt_room write_opt
length-append_opt none out = omega arith
length-append_opt (some e) out =
    omega (arith, length-put_u16, length-put_u32, length-append {0} out (0 ∷ []))

opt_room-le : (edns : Option EdnsInfo) → opt_room edns ≤ 11
unfolding opt_room
opt_room-le none = omega arith
opt_room-le (some e) = omega arith

count_opt-lt : (edns : Option EdnsInfo) (n : ℕ) → n < 2 ^ 16 → count_opt edns n < 2 ^ 16
unfolding count_opt
count_opt-lt none n h = h
count_opt-lt (some e) n h = omega arith

-- Every section ends between the header and the limit.
record AllFit (limit : ℕ) (s : Sections) : Type 0 where
  questions : Fits limit s.questions
  answers : Fits limit s.answers
  authority : Fits limit s.authority
  additional : Fits limit s.additional

module _ (msg : Message) (max_size : ℕ) (compress : Bool) (low : 23 ≤ max_size)
    (high : max_size < 2 ^ 16) where
  write_sections-AllFit :
      AllFit (max_size - opt_room msg.edns) (write_sections msg max_size compress)
  unfolding write_sections
  write_sections-AllFit = rw size_sub-opt_room (
      let w : Writer = record { compress = compress; out = replicate 12 0; suffixes = [] } in
      let limit = max_size - opt_room msg.edns in
      let q =
        write_questions-Fits limit msg.questions w 0 (omega arith)
          (omega (arith, opt_room-le msg.edns)) (omega arith) in
      let a = write_next-Fits limit _ msg.answers q in
      let n = write_next-Fits limit _ msg.authority a in
      record {
        questions = q;
        answers = a;
        authority = n;
        additional = write_next-Fits limit _ msg.additional n;
      })
    where
      size_sub-opt_room : size_sub max_size (opt_room msg.edns) ≡ max_size - opt_room msg.edns
      size_sub-opt_room = omega (arith, opt_room-le msg.edns)

  pub build_message_size : length (build_message msg max_size compress) ≤ max_size
  unfolding build_message
  build_message_size =
      let v = write_sections-AllFit in
      let s = write_sections msg max_size compress in
      omega (
        arith,
        v.additional.high,
        opt_room-le msg.edns,
        length-append_opt msg.edns s.additional.writer.out,
        length-write_header (append_opt msg.edns s.additional.writer.out) (final_header msg s),
      )

  pub parse_header-build_message :
      IsHeader msg.header
      → parse_header (build_message msg max_size compress)
        ≡ ok (final_header msg (write_sections msg max_size compress))
  unfolding build_message
  parse_header-build_message h =
      let v = write_sections-AllFit in
      let s = write_sections msg max_size compress in
      parse_header-write_header (append_opt msg.edns s.additional.writer.out) (final_header msg s)
        (omega (arith, v.additional.low, length-append_opt msg.edns s.additional.writer.out))
        (unfold final_header in
          record {
            id = h.id;
            opcode = h.opcode;
            rcode = h.rcode;
            qdcount = v.questions.counted;
            ancount = v.answers.counted;
            nscount = v.authority.counted;
            arcount = count_opt-lt msg.edns s.additional.count v.additional.counted;
          })
