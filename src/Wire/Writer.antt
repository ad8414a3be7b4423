-- ===== src/Wire/Writer.antt =====
-- core/wire/builder.cpp: the class `Writer`, with suffix compression. Its preconditions (labels of 1
-- to 63 bytes, names of at most 255, strings of at most 255) are the asserts of the source.
pub mod Sizes
pub mod Offsets
use dnsentinal.Common.{
  ℕ, zero, suc, ◌+◌, ◌-◌, ◌*◌, ◌/◌, ◌^◌, ◌%◌, Bool, true, false, ◌&&◌, List, [], ◌∷◌, ◌++◌, Option,
  none, some, ltb, leb, ◌==◌, if◌then◌else◌, length, take, keep_if,
}
use dnsentinal.Types.{
  Bytes, Name, Question, RData, ipv4, ipv6, ns, cname, soa, mx, txt, ptr, raw, Rr, bytes_eq,
  name_eq,
}
use dnsentinal.Wire.ByteIo.{u8, put_u16, put_u32, store_u16}

-- `kMaxPointerOffset`
abbrev pub max_pointer_offset : ℕ
max_pointer_offset = 0x3fff

-- `suffixes` maps the canonical wire form of a name suffix to the offset where it was written.
pub record Writer : Type 0 where
  pub compress : Bool
  pub out : Bytes
  pub suffixes : List (Bytes × ℕ)

abbrev pub size : Writer → ℕ
size w = length w.out

unfoldable pub rollback : Writer → ℕ → Writer
rollback w mark = record w {
  out = take mark w.out;
  suffixes = keep_if (λ e. ltb e.1 mark) w.suffixes;
}

unfoldable pub lookup : Bytes → List (Bytes × ℕ) → Option ℕ
lookup key [] = none
lookup key ((k, offset) ∷ entries) = if bytes_eq k key then some offset else lookup key entries

-- `keys[i]`
unfoldable pub suffix_key : List Bytes → Bytes
suffix_key [] = []
suffix_key (l ∷ ls) = u8 (length l) ∷ (l ++ suffix_key ls)

abbrev pub put_byte : Writer → ℕ → Writer
put_byte w b = record w { out = w.out ++ u8 b ∷ [] }

abbrev pub put_bytes : Writer → Bytes → Writer
put_bytes w bytes = record w { out = w.out ++ bytes }

-- The labels in original case, if there is one for each.
unfoldable pub text_of : Name → List Bytes
text_of n = if length n.original_case == length n.labels then n.original_case else n.labels

unfoldable pub remember : Writer → Bytes → Writer
remember w key =
    if w.compress && leb (size w) max_pointer_offset
    then record w { suffixes = (key, size w % 2 ^ 16) ∷ w.suffixes }
    else w

abbrev pub find_suffix : Writer → Bytes → Option ℕ
find_suffix w key = if w.compress then lookup key w.suffixes else none

-- The loop over the labels: canonical ones, and as they are written. Offsets in the map fit 14
-- bits, so that `0xC000 | offset` is a sum.
unfoldable pub write_labels : List Bytes → List Bytes → Writer → Writer
write_labels (l ∷ ls) (t ∷ ts) w =
    let new =
      write_labels ls ts (put_bytes (put_byte (remember w (suffix_key (l ∷ ls))) (length t)) t) in
    elim (find_suffix w (suffix_key (l ∷ ls))) [
      | some offset ↦ record w { out = put_u16 w.out (0xc000 + offset) }
      | none ↦ new
    ]
write_labels _ _ w = put_byte w 0

unfoldable pub write_name : Name → Writer → Writer
write_name n w = write_labels n.labels (text_of n) w

abbrev pub put_16 : Writer → ℕ → Writer
put_16 w v = record w { out = put_u16 w.out v }

abbrev pub put_32 : Writer → ℕ → Writer
put_32 w v = record w { out = put_u32 w.out v }

unfoldable pub write_question : Question → Writer → Writer
write_question q w = put_16 (put_16 (write_name q.qname w) q.qtype) q.qclass

unfoldable pub write_strings : List Bytes → Writer → Writer
write_strings [] w = w
write_strings (s ∷ strings) w = write_strings strings (put_bytes (put_byte w (length s)) s)

unfoldable pub write_rdata : RData → Writer → Writer
write_rdata (ipv4 a) w = put_bytes w a
write_rdata (ipv6 a) w = put_bytes w a
write_rdata (ns n) w = write_name n w
write_rdata (cname n) w = write_name n w
write_rdata (ptr n) w = write_name n w
write_rdata (mx preference n) w = write_name n (put_16 w preference)
write_rdata (soa d) w =
    let named = write_name d.rname (write_name d.mname w) in
    put_32 (put_32 (put_32 (put_32 (put_32 named d.serial) d.refresh) d.retry) d.expire) d.minimum
write_rdata (txt strings) w = write_strings strings w
write_rdata (raw bytes) w = put_bytes w bytes

-- The length of the RDATA is patched in once it is known.
unfoldable pub write_rr : Rr → Writer → Writer
write_rr r w =
    let fixed = put_32 (put_16 (put_16 (write_name r.name w) r.rr_type) r.cls) r.ttl in
    let rdlen_at = size fixed in
    let written = write_rdata r.rdata (put_16 fixed 0) in
    record written { out = store_u16 written.out rdlen_at (size written - rdlen_at - 2) }

unfoldable pub write_rrs : List Rr → Writer → Writer
write_rrs [] w = w
write_rrs (r ∷ rs) w = write_rrs rs (write_rr r w)
