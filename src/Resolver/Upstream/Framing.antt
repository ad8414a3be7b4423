-- ===== src/Resolver/Upstream/Framing.antt =====
-- core/resolver/upstream.cpp: a response over TCP arrives in pieces.
use dnsentinal.Common.{
  ℕ, ◌+◌, ◌*◌, ◌^◌, ◌<◌, ◌≡◌, ◌≢◌, refl, sym, ap, ◌∙◌, true, false, List, [], ◌∷◌, ◌++◌, arith,
  length, length-append, All, map, append_assoc, append-nil, ltb, le→ltb, lt→ltb,
}
use dnsentinal.Types.{Bytes}
use dnsentinal.Resolver.Upstream.{Pending, Stats, bytes, read_tcp, judge_frame, incomplete}

abbrev pub joined : List Bytes → Bytes
joined [] = []
joined (piece ∷ rest) = piece ++ joined rest

length-pos : (x : Bytes) → x ≢ [] → 0 < length x
length-pos [] h = absurd (h refl)
length-pos (c ∷ cs) h = omega arith

-- What was received is the start of a frame, and it is known whether it is all of it.
incomplete-prefix :
    (hi lo : ℕ) (payload received rest : Bytes)
    → hi * 2 ^ 8 + lo ≡ length payload
    → length payload < 2 ^ 16
    → received ++ rest ≡ hi ∷ lo ∷ payload
    → incomplete received ≡ ltb (length received) (length payload + 2)
incomplete-prefix hi lo payload [] rest e small h = ground arith
incomplete-prefix hi lo payload (a ∷ []) rest e small h = ground arith
incomplete-prefix hi lo payload (a ∷ b ∷ received) rest e small h =
    let first : a ≡ hi = cc h in
    let second : b ≡ lo = cc h in
    let bound = ap length h in
    ground (arith, e, small, first, second, length-append received rest, bound)

module _ (s : Stats) (hi lo : ℕ) (payload : Bytes) (framed : hi * 2 ^ 8 + lo ≡ length payload)
    (small : length payload < 2 ^ 16) where
  read_tcp-pieces :
      (p : Pending) (piece : Bytes) (pieces : List Bytes)
      → All (λ x. x ≢ []) (piece ∷ pieces)
      → p.received ++ joined (piece ∷ pieces) ≡ hi ∷ lo ∷ payload
      → read_tcp p s (map bytes (piece ∷ pieces))
        ≡ judge_frame (record p { received = hi ∷ lo ∷ payload }) s
  unfolding read_tcp
  read_tcp-pieces p [] pieces filled h = absurd (filled.0 refl)
  read_tcp-pieces p (c ∷ cs) [] filled h =
      let all : p.received ++ c ∷ cs ≡ hi ∷ lo ∷ payload =
        ap (λ x. p.received ++ x) (sym (append-nil (c ∷ cs))) ∙ h in
      let over =
        incomplete-prefix hi lo payload (hi ∷ lo ∷ payload) [] framed small
          (append-nil (hi ∷ lo ∷ payload)) in
      let complete : incomplete (hi ∷ lo ∷ payload) ≡ false =
        over ∙ le→ltb (length (hi ∷ lo ∷ payload)) (length payload + 2) (omega arith) in
      rw (all, complete) refl
  read_tcp-pieces p (c ∷ cs) (piece ∷ pieces) filled h =
      let more : Pending = record p { received = p.received ++ c ∷ cs } in
      let joins : more.received ++ joined (piece ∷ pieces) ≡ hi ∷ lo ∷ payload =
        append_assoc p.received (c ∷ cs) (joined (piece ∷ pieces)) ∙ h in
      let shorter : length more.received < length payload + 2 = omega (
        arith,
        ap length joins,
        length-append more.received (joined (piece ∷ pieces)),
        length-append piece (joined pieces),
        length-pos piece filled.1.0,
      ) in
      let known : incomplete more.received ≡ true =
        incomplete-prefix hi lo payload more.received _ framed small joins
        ∙ lt→ltb (length more.received) (length payload + 2) shorter in
      let ih = read_tcp-pieces more piece pieces filled.1 joins in rw known ih

-- However TCP cuts the framed response into pieces, of which none is empty, the loop of
-- `on_tcp_event` reads all of them and then judges the whole frame, if nothing was received before;
-- the frame is the length of the payload in two bytes, and the payload.
pub read_tcp-judge_frame :
    (p : Pending) (s : Stats) (hi lo : ℕ) (payload piece : Bytes) (pieces : List Bytes)
    → hi * 2 ^ 8 + lo ≡ length payload
    → length payload < 2 ^ 16
    → p.received ≡ []
    → All (λ x. x ≢ []) (piece ∷ pieces)
    → joined (piece ∷ pieces) ≡ hi ∷ lo ∷ payload
    → read_tcp p s (map bytes (piece ∷ pieces))
      ≡ judge_frame (record p { received = hi ∷ lo ∷ payload }) s
read_tcp-judge_frame p s hi lo payload piece pieces framed small fresh filled h =
    read_tcp-pieces s hi lo payload framed small p piece pieces filled
      (ap (λ x. x ++ joined (piece ∷ pieces)) fresh ∙ h)
