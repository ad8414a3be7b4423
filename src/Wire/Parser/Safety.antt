-- ===== src/Wire/Parser/Safety.antt =====
-- core/wire/parser.cpp: `parse` is safe on every packet, and what it accepts fits the wire.
use dnsentinal.Common.{
  ℕ, zero, suc, ◌+◌, ◌^◌, ◌≤◌, ◌<◌, ◌≡◌, refl, true, false, List, [], ◌∷◌, ◌++◌, none, All,
  All-append, length, length-append, ltb, arith,
}
use dnsentinal.Types.{Bytes, Header, Question, Message, AreBytes}
use dnsentinal.Wire.ByteIo.{size_sub}
use dnsentinal.Wire.ByteIo.Bounds.{byte_at-Ensures, load_u16-Ensures}
use dnsentinal.Wire.Outcome.{Ensures, gives, refuses, Ensures-bind, Ensures-if, Ensures-map}
use dnsentinal.Wire.Parser.{
  parse_header, read_header, decode_flags, read_questions, min_needed, parse_sections, parse,
}
use dnsentinal.Wire.Records.Safety.{read_question-IsQuestion}
use dnsentinal.Wire.Records.Sections.{IsOpt, opt_count, read_section-Reads}
use dnsentinal.Wire.Records.Shape.{IsQuestion, IsRr}

-- The header's fields fit their widths.
pub record IsHeader (h : Header) : Type 0 where
  pub id : h.id < 2 ^ 16
  pub opcode : h.opcode < 2 ^ 4
  pub rcode : h.rcode < 2 ^ 4
  pub qdcount : h.qdcount < 2 ^ 16
  pub ancount : h.ancount < 2 ^ 16
  pub nscount : h.nscount < 2 ^ 16
  pub arcount : h.arcount < 2 ^ 16

-- A message as the parser hands it on: all fields fit the wire, and each section holds what the
-- header claims, the OPT record being counted in the additional section.
pub record IsParsed (m : Message) : Type 0 where
  pub headed : IsHeader m.header
  pub questions : All IsQuestion m.questions
  pub answers : All IsRr m.answers
  pub authority : All IsRr m.authority
  pub additional : All IsRr m.additional
  pub edns : IsOpt m.edns
  pub qdcount : length m.questions ≡ m.header.qdcount
  pub ancount : length m.answers ≡ m.header.ancount
  pub nscount : length m.authority ≡ m.header.nscount
  pub arcount : length m.additional + opt_count m.edns ≡ m.header.arcount

module _ (packet : Bytes) (b : AreBytes packet) (small : length packet < 2 ^ 63) where
  pub parse_header-IsHeader : Ensures (λ h. IsHeader h × (12 ≤ length packet)) (parse_header packet)
  unfolding parse_header read_header decode_flags
  parse_header-IsHeader =
      Ensures-if (ltb (length packet) 12) (λ _. refuses)
        λ e.
          let long : 12 ≤ length packet = ground arith in
          Ensures-bind (byte_at-Ensures packet 2 b (omega arith)) λ b2 _.
            Ensures-bind (byte_at-Ensures packet 3 b (omega arith)) λ b3 _.
              Ensures-bind (load_u16-Ensures packet 0 b (omega arith)) λ id x₀.
                Ensures-bind (load_u16-Ensures packet 4 b (omega arith)) λ qd x₁.
                  Ensures-bind (load_u16-Ensures packet 6 b (omega arith)) λ an x₂.
                    Ensures-bind (load_u16-Ensures packet 8 b (omega arith)) λ nn x₃.
                      Ensures-bind (load_u16-Ensures packet 10 b (omega arith)) λ ar x₄. gives (
                        record {
                          id = x₀;
                          opcode = omega arith;
                          rcode = omega arith;
                          qdcount = x₁;
                          ancount = x₂;
                          nscount = x₃;
                          arcount = x₄;
                        },
                        long,
                      )

  abbrev AreRead : ℕ → List Question × ℕ → Type 0
  AreRead n r = All IsQuestion r.0 × (length r.0 ≡ n) × (r.1 ≤ length packet)

  read_questions-AreRead :
      (count pos : ℕ) (questions : List Question)
      → pos ≤ length packet
      → All IsQuestion questions
      → Ensures (AreRead (length questions + count)) (read_questions packet count pos questions)
  unfolding read_questions
  read_questions-AreRead zero pos questions h v = gives (v, omega arith, h)
  read_questions-AreRead (suc count) pos questions h v =
      Ensures-bind (read_question-IsQuestion packet b small pos h) λ r (q, inside).
        Ensures-map
          (read_questions-AreRead count r.1 (questions ++ r.0 ∷ []) inside
            (All-append IsQuestion questions (r.0 ∷ []) v (q, tt)))
          λ s (all, counted, place). (all, omega (arith, length-append {0} questions), place)

  parse_sections-IsParsed :
      (h : Header) → IsHeader h → 12 ≤ length packet → Ensures IsParsed (parse_sections packet h)
  unfolding parse_sections
  parse_sections-IsParsed h v long =
      Ensures-bind (read_questions-AreRead h.qdcount 12 [] long tt) λ r (all, counted, place).
        Ensures-bind
          (read_section-Reads packet b small false h.ancount
            (record { pos = r.1; out = []; edns = none })
            (record { inside = place; records = tt; opt = tt }))
          λ an x.
            Ensures-bind
              (read_section-Reads packet b small false h.nscount (record an { out = [] })
                (record { inside = x.fits.inside; records = tt; opt = x.fits.opt }))
              λ nn y.
                Ensures-bind
                  (read_section-Reads packet b small true h.arcount (record nn { out = [] })
                    (record { inside = y.fits.inside; records = tt; opt = y.fits.opt }))
                  λ ar z.
                    let none_yet : an.edns ≡ none = x.kept refl in
                    let none_still : nn.edns ≡ none = ground (arith, y.kept refl) in
                    gives (record {
                      headed = v;
                      questions = all;
                      answers = x.fits.records;
                      authority = y.fits.records;
                      additional = z.fits.records;
                      edns = z.fits.opt;
                      qdcount = omega arith;
                      ancount = ground (arith, x.counted);
                      nscount = ground (arith, y.counted);
                      arcount = ground (arith, z.counted);
                    })

  -- Whatever the bytes of a packet shorter than 2^63 are, `parse` ends without reading a byte
  -- outside the packet. It fails or returns a message in which every name is within the size
  -- limits and in both case forms, every number fits its field, RDATA has the form of its type,
  -- TTLs are below 2^31, and the sections hold as many entries as the header says (the OPT
  -- record counted in the additional section).
  pub parse-IsParsed : Ensures IsParsed (parse packet)
  unfolding parse
  parse-IsParsed = Ensures-bind parse_header-IsHeader λ h (v, long).
      Ensures-if (ltb (size_sub (length packet) 12) (min_needed h)) (λ _. refuses)
        λ _. parse_sections-IsParsed h v long
