-- ===== src/Server/QueryProcessor/Rejections.antt =====
-- core/server/query_processor.cpp: which queries are well-formed for `handle`.
use dnsentinal.Common.{
  ◌≤◌, ◌<◌, ◌≡◌, ◌⊎◌, ◌↔◌, ◌≢◌, refl, true, false, List, [], ◌∷◌, none, Bool-cases, inl, inr, arith,
  ◌==◌, ==_iff,
}
use dnsentinal.Types.{Question, Message}
use dnsentinal.Types.RrType
use dnsentinal.Server.QueryProcessor.{
  reject_question, reject_questions, reject_reason, other_version, class_in, type_any,
}

-- A question about data of the Internet class: not an OPT, a transfer or another meta type.
pub record IsAnswerable (q : Question) : Type 0 where
  pub class_is_in : q.qclass ≡ class_in
  pub not_opt : q.qtype ≢ RrType.opt_record
  pub data_type : q.qtype < 128 ⊎ type_any ≤ q.qtype

reject_question-IsAnswerable : (q : Question) → reject_question q ≡ none → IsAnswerable q
unfolding reject_question
reject_question-IsAnswerable q h = record {
  class_is_in = ground arith;
  not_opt = λ e. ground arith;
  data_type = ground arith;
}

reject_question_answerable : (q : Question) → IsAnswerable q → reject_question q ≡ none
unfolding reject_question
reject_question_answerable q h = ground (arith, h.class_is_in, h.not_opt, h.data_type)

abbrev pub AsksOne : List Question → Type 0
AsksOne qs = (q : Question) × (qs ≡ q ∷ []) × IsAnswerable q

reject_questions-AsksOne : (qs : List Question) → reject_questions qs ≡ none → AsksOne qs
unfolding reject_questions
reject_questions-AsksOne [] h = absurd (cc)
reject_questions-AsksOne (q ∷ []) h = (q, refl, reject_question-IsAnswerable q h)
reject_questions-AsksOne (q ∷ r ∷ rest) h = absurd (cc)

reject_questions_one : (qs : List Question) → AsksOne qs → reject_questions qs ≡ none
unfolding reject_questions
reject_questions_one qs (q, e, h) = rw (e, reject_questions) (reject_question_answerable q h)

-- `reject_reason` finds no reason to reject a query just when the query has EDNS version 0 or none, is a
-- standard query, and has one question, which is answerable: of class IN, and of a type that is neither
-- OPT nor between 128 and 254, where the transfers and the other meta types are.
pub reject_reason_iff :
    (query : Message)
    → (reject_reason query ≡ none)
      ↔ ((other_version query.edns ≡ false) × (query.header.opcode ≡ 0) × AsksOne query.questions)
unfolding reject_reason
reject_reason_iff query = (
  (λ h. elim (Bool-cases (other_version query.edns)) [
    | inl e ↦ absurd (ground (arith, e, h))
    | inr e ↦ elim (Bool-cases (query.header.opcode == 0)) [
      | inl o ↦ (e, (==_iff _ 0).0 o, reject_questions-AsksOne query.questions (passed e o h))
      | inr o ↦ absurd (ground (arith, e, o, h))
    ]
  ]),
  (λ h. rw (h.0, h.1) (reject_questions_one query.questions h.2)),
)
  where
    passed :
        other_version query.edns ≡ false
        → (query.header.opcode == 0) ≡ true
        → reject_reason query ≡ none
        → reject_questions query.questions ≡ none
    passed e o h = ground (arith, e, o, h)
