-- ===== src/Server/QueryProcessor/Answers.antt =====
-- core/server/query_processor.cpp: what the client is sent once the resolution ends.
use dnsentinal.Common.{
  ◌≡◌, ◌⊎◌, refl, Bool, true, false, not, ◌||◌, List, [], ◌∷◌, Option, none, some, All, Bool-cases,
  inl, inr, any,
}
use dnsentinal.Types.{Question, Message, Rr}
use dnsentinal.Policy.Rebinding.{exempt, is_private_address, strip, strip_lem}
use dnsentinal.Policy.CnameCheck.{CloakedName}
use dnsentinal.Server.QueryProcessor.{
  Processor, is_address, finish_stripped, finish_answer, finish_checked, finish, check_chain,
  blocked, block_event,
}

abbrev pub NonePrivate : Processor → List Rr → Type 0
NonePrivate processor = All (λ r. not (is_private_address processor.is_v4_mapped r.rdata) ≡ true)

finish_stripped-All :
    (P : Rr → Type 0) (asked : Question) (response result : Message) (removed kept : List Rr)
    → response.answers ≡ []
    → All P kept
    → All P (finish_stripped asked response result removed kept).0.answers
unfolding finish_stripped
finish_stripped-All P asked response result [] kept empty h = h
finish_stripped-All P asked response result (r ∷ removed) kept empty h =
    elim (Bool-cases (any is_address kept)) [ inl e ↦ rw e h | inr e ↦ rw (e, empty) tt ]

module _ (processor : Processor) (asked : Question) (response : Message)
    (empty : response.answers ≡ [])
    (active : not processor.rebinding.enabled || exempt processor.rebinding asked.qname
      ≡ false) where
  strip-NonePrivate :
      (answers : List Rr)
      → NonePrivate processor
          (strip processor.is_v4_mapped processor.rebinding asked.qname answers).1
  strip-NonePrivate answers =
      elim (strip_lem processor.is_v4_mapped processor.rebinding asked.qname answers is_address).0 [
        | inl (off, same) ↦ absurd (cc)
        | inr (on, removed, kept) ↦ kept
      ]

  finish_answer-NonePrivate :
      (result : Message)
      → NonePrivate processor (finish_answer processor asked response result).0.answers
  unfolding finish_answer
  finish_answer-NonePrivate result =
      finish_stripped-All (λ r. not (is_private_address processor.is_v4_mapped r.rdata) ≡ true)
        asked response result _ _ empty (strip-NonePrivate result.answers)

  finish_checked-NonePrivate :
      (result : Message) (cloaked : Option CloakedName)
      → (((c : CloakedName) × (cloaked ≡ some c)
            × (finish_checked processor asked response result cloaked ≡ (
              blocked response processor.response processor.block_ttl,
              block_event asked c ∷ [],
            )))
          ⊎ NonePrivate processor
              (finish_checked processor asked response result cloaked).0.answers)
  unfolding finish_checked
  finish_checked-NonePrivate result none = inr (finish_answer-NonePrivate result)
  finish_checked-NonePrivate result (some c) = inl (c, refl, refl)

  -- With rebinding protection on, a name that is not exempt and a response without answers at the
  -- start, the answer section at the end of a resolution has no private address, unless a name of the
  -- CNAME chain is blocked; then the response is the blocked one, and the block is reported. (The
  -- authority section is the resolver's, as it is.)
  pub finish-NonePrivate :
      (matched : Bool) (result : Option Message)
      → (((c : CloakedName) × (r : Message) × (result ≡ some r)
            × (check_chain processor matched asked r ≡ some c)
            × (finish processor matched asked response result ≡ (
              blocked response processor.response processor.block_ttl,
              block_event asked c ∷ [],
            )))
          ⊎ NonePrivate processor (finish processor matched asked response result).0.answers)
  unfolding finish
  finish-NonePrivate matched none = inr (rw empty tt)
  finish-NonePrivate matched (some result) =
      elim (finish_checked-NonePrivate result (check_chain processor matched asked result)) [
        | inl (c, found, e) ↦ inl (c, result, refl, found, e)
        | inr h ↦ inr h
      ]
