-- ===== src/Wire/Records/OptRoundTrip.antt =====
-- core/wire/edns.cpp and parser.cpp: the parser reads back the OPT record that `write_opt` writes.
use dnsentinal.Common.{
  ℕ, suc, ◌+◌, ◌/◌, ◌^◌, ◌%◌, ◌<◌, ◌≡◌, refl, ap, true, false, [], ◌∷◌, ◌++◌, none, some, get_elem?,
  length, length-append, leb, ltb, arith,
}
use dnsentinal.Types.{Bytes, EdnsInfo, root}
use dnsentinal.Types.RrType
use dnsentinal.Wire.ByteIo.{
  byte_at, load_u16, load_u32, subspan, u8, u16_bytes, u32_bytes, put_u16, put_u32, size_sub,
}
use dnsentinal.Wire.Edns.{opt_ttl, write_opt}
use dnsentinal.Wire.Edns.Laws.{IsEdns, parse_opt-opt_ttl}
use dnsentinal.Wire.Names.{walk, round, read_part, read_label, read_name}
use dnsentinal.Wire.Outcome.{ok}
use dnsentinal.Wire.Records.{Section, read_fields, read_opt, read_record, rr_fixed_size}

-- The bytes behind `out` are read as those of what follows.
get_elem?-append :
    (out rest : Bytes) (i : ℕ) → get_elem? (out ++ rest) (length out + i) ≡ get_elem? rest i
get_elem?-append [] rest i = let e : 0 + i ≡ i = omega arith in rw e refl
get_elem?-append (b ∷ out) rest i =
    let e : length (b ∷ out) + i ≡ suc (length out + i) = omega arith in
    rw e (get_elem?-append out rest i)

byte_at-append :
    (out rest : Bytes) (i : ℕ) → byte_at (out ++ rest) (length out + i) ≡ byte_at rest i
unfolding byte_at
byte_at-append out rest i = rw (byte_at, get_elem?-append out rest i) refl

-- The bytes of the record.
abbrev tail_of : EdnsInfo → Bytes
tail_of e =
    0
    ∷ u8 (41 / 2 ^ 8)
    ∷ u8 41
    ∷ u8 (e.udp_payload_size / 2 ^ 8)
    ∷ u8 e.udp_payload_size
    ∷ u8 (opt_ttl e / 2 ^ 16 % 2 ^ 16 / 2 ^ 8)
    ∷ u8 (opt_ttl e / 2 ^ 16 % 2 ^ 16)
    ∷ u8 (opt_ttl e % 2 ^ 16 / 2 ^ 8)
    ∷ u8 (opt_ttl e % 2 ^ 16)
    ∷ 0
    ∷ 0
    ∷ []

write_opt-tail_of : (out : Bytes) (e : EdnsInfo) → write_opt out e ≡ out ++ tail_of e
unfolding write_opt put_u16 put_u32 u16_bytes u32_bytes
write_opt-tail_of [] e = refl
write_opt-tail_of (b ∷ out) e = ap (◌∷◌ b) (write_opt-tail_of out e)

module _ (out : Bytes) (e : EdnsInfo) (v : IsEdns e) where
  abbrev msg : Bytes
  msg = out ++ tail_of e

  abbrev n : ℕ
  n = length out

  at : (i : ℕ) → byte_at msg (n + i) ≡ byte_at (tail_of e) i
  at i = byte_at-append out (tail_of e) i

  ttl_fits : opt_ttl e < 2 ^ 32
  unfolding opt_ttl
  ttl_fits = ground (arith, v.extended, v.versioned)

  load_u16-type : load_u16 msg (n + 1) ≡ ok RrType.opt_record
  unfolding load_u16
  load_u16-type =
      let next : n + 1 + 1 ≡ n + 2 = omega arith in rw (next, at 1, at 2) (unfold byte_at in refl)

  load_u16-class : load_u16 msg (n + 1 + 2) ≡ ok e.udp_payload_size
  unfolding load_u16
  load_u16-class =
      let first : n + 1 + 2 ≡ n + 3 = omega arith in
      let next : n + 3 + 1 ≡ n + 4 = omega arith in
      rw (first, next, at 3, at 4) (unfold byte_at in ap ok (omega (arith, v.payload)))

  load_u32-ttl : load_u32 msg (n + 1 + 4) ≡ ok (opt_ttl e)
  unfolding load_u32
  load_u32-ttl =
      let first : n + 1 + 4 ≡ n + 5 = omega arith in
      let second : n + 5 + 1 ≡ n + 6 = omega arith in
      let third : n + 5 + 2 ≡ n + 7 = omega arith in
      let fourth : n + 5 + 3 ≡ n + 8 = omega arith in
      rw (first, second, third, fourth, at 5, at 6, at 7, at 8)
        (unfold byte_at in ap ok (omega (arith, ttl_fits)))

  load_u16-rdlen : load_u16 msg (n + 1 + 8) ≡ ok 0
  unfolding load_u16
  load_u16-rdlen =
      let first : n + 1 + 8 ≡ n + 9 = omega arith in
      let next : n + 9 + 1 ≡ n + 10 = omega arith in
      rw (first, next, at 9, at 10) (unfold byte_at in refl)

  length-msg : length msg ≡ n + 11
  length-msg = length-append out (tail_of e)

  read_name-root : read_name msg n ≡ ok (root, n + 1)
  unfolding read_name walk byte_at
  read_name-root =
      let more : leb (length msg) n ≡ false = ground (arith, length-msg) in
      let same : n + 0 ≡ n = omega arith in
      let zero_byte : byte_at msg n ≡ ok 0 = rw same at (at 0) in
      rw (round, more, zero_byte) (unfold read_part read_label in refl)

  subspan-none : subspan msg (n + 1 + rr_fixed_size) 0 ≡ ok []
  unfolding subspan
  subspan-none =
      let inside : leb (n + 1 + rr_fixed_size + 0) (length msg) ≡ true =
        ground (arith, length-msg) in
      rw inside refl

  module _ (s : Section) (fresh : s.edns ≡ none) (short : n < 2 ^ 63) where
    read_opt-opt :
        read_opt msg true s root e.udp_payload_size (opt_ttl e) (n + 1 + rr_fixed_size) 0
        ≡ ok (record s { edns = some e; pos = n + 11 })
    unfolding read_opt
    read_opt-opt =
        let last : n + 1 + rr_fixed_size + 0 ≡ n + 11 = omega arith in
        simp (read_opt, fresh, subspan-none, parse_opt-opt_ttl e v, last) refl

    read_fields-opt :
        read_fields msg true s root (n + 1) ≡ ok (record s { edns = some e; pos = n + 11 })
    unfolding read_fields
    read_fields-opt =
        let room : ltb (size_sub (length msg) (n + 1 + rr_fixed_size)) 0 ≡ false = ground arith in
        rw (read_fields, load_u16-type, load_u16-class, load_u32-ttl, load_u16-rdlen, room)
          read_opt-opt

    -- The OPT record that `write_opt` appends to an output below 2^63 bytes, of EDNS data that fits its
    -- fields, is read back by the parser: a record of the additional section at the end of that output,
    -- where no OPT record was read before, gives the same EDNS data and the position behind it, and
    -- adds no other record.
    pub read_record-write_opt :
        s.pos ≡ n
        → read_record (write_opt out e) true s ≡ ok (record s { edns = some e; pos = n + 11 })
    unfolding read_record
    read_record-write_opt at_end =
        let room : ltb (size_sub (length msg) (n + 1)) rr_fixed_size ≡ false =
          ground (arith, length-msg, short) in
        rw (write_opt-tail_of out e, read_record, at_end, read_name-root, room) read_fields-opt
