-- ===== src/Wire/Writer/Sizes.antt =====
-- core/wire/builder.cpp: the writer only appends, and `rollback` restores a size.
use dnsentinal.Common.{
  ℕ, ◌+◌, ◌≤◌, ◌<◌, ◌≡◌, min, List, [], ◌∷◌, length, length-append, length-set, length-take,
  Option-cases, inl, inr, arith,
}
use native.Mathlib.Nat.{le_trans, le_refl}
use dnsentinal.Types.{
  Bytes, Name, Question, RData, ipv4, ipv6, ns, cname, soa, mx, txt, ptr, raw, Rr,
}
use dnsentinal.Wire.ByteIo.{u8, u16_bytes, u32_bytes, put_u16, put_u32, store_u16}
use dnsentinal.Wire.Writer.{
  Writer, size, rollback, suffix_key, put_byte, put_bytes, remember, find_suffix, write_labels,
  write_name, put_16, put_32, write_question, write_strings, write_rdata, write_rr, write_rrs,
}

pub length-put_u16 : (out : Bytes) (v : ℕ) → length (put_u16 out v) ≡ length out + 2
unfolding put_u16
length-put_u16 out v = omega (arith, length-append {0} out (u16_bytes v))

pub length-put_u32 : (out : Bytes) (v : ℕ) → length (put_u32 out v) ≡ length out + 4
unfolding put_u32
length-put_u32 out v = omega (arith, length-append {0} out (u32_bytes v))

pub length-store_u16 : (out : Bytes) (off v : ℕ) → length (store_u16 out off v) ≡ length out
unfolding store_u16
length-store_u16 out off v = simp length-set

pub size-remember : (w : Writer) (key : Bytes) → size (remember w key) ≡ size w
unfolding remember
size-remember w key = ground arith

pub size-put_bytes : (w : Writer) (bytes : Bytes) → size (put_bytes w bytes) ≡ size w + length bytes
size-put_bytes w bytes = length-append w.out bytes

pub size-rollback : (w : Writer) (mark : ℕ) → size (rollback w mark) ≡ min mark (size w)
unfolding rollback
size-rollback w mark = length-take mark w.out

ruleset sizes = (arith, length-put_u16, length-put_u32, length-store_u16, size-remember)

pub write_labels-grows : (ls ts : List Bytes) (w : Writer) → size w < size (write_labels ls ts w)
unfolding write_labels
write_labels-grows (l ∷ ls) (t ∷ ts) w = elim (Option-cases (find_suffix w (suffix_key (l ∷ ls)))) [
  | inr (offset, e) ↦ rw (e, write_labels) (omega sizes)
  | inl e ↦
      let kept = remember w (suffix_key (l ∷ ls)) in
      let marked = put_byte kept (length t) in
      rw (e, write_labels)
        (omega (
          sizes,
          size-remember w (suffix_key (l ∷ ls)),
          size-put_bytes kept (u8 (length t) ∷ []),
          size-put_bytes marked t,
          write_labels-grows ls ts (put_bytes marked t),
        ))
]
write_labels-grows [] ts w = omega (arith, size-put_bytes w (u8 0 ∷ []))
write_labels-grows (l ∷ ls) [] w = omega (arith, size-put_bytes w (u8 0 ∷ []))

pub write_name-grows : (n : Name) (w : Writer) → size w < size (write_name n w)
unfolding write_name
write_name-grows n w = write_labels-grows n.labels _ w

pub write_question-grows : (q : Question) (w : Writer) → size w ≤ size (write_question q w)
unfolding write_question
write_question-grows q w = omega (sizes, write_name-grows q.qname w)

write_strings-grows : (strings : List Bytes) (w : Writer) → size w ≤ size (write_strings strings w)
unfolding write_strings
write_strings-grows [] w = le_refl _
write_strings-grows (s ∷ strings) w =
    let marked = put_byte w (length s) in
    omega (
      arith,
      size-put_bytes w (u8 (length s) ∷ []),
      size-put_bytes marked s,
      write_strings-grows strings (put_bytes marked s),
    )

write_rdata-grows : (d : RData) (w : Writer) → size w ≤ size (write_rdata d w)
unfolding write_rdata
write_rdata-grows (ipv4 a) w = omega (arith, size-put_bytes w a)
write_rdata-grows (ipv6 a) w = omega (arith, size-put_bytes w a)
write_rdata-grows (ns n) w = omega (arith, write_name-grows n w)
write_rdata-grows (cname n) w = omega (arith, write_name-grows n w)
write_rdata-grows (ptr n) w = omega (arith, write_name-grows n w)
write_rdata-grows (mx preference n) w = omega (sizes, write_name-grows n (put_16 w preference))
write_rdata-grows (soa d) w =
    omega (sizes, write_name-grows d.mname w, write_name-grows d.rname (write_name d.mname w))
write_rdata-grows (txt strings) w = write_strings-grows strings w
write_rdata-grows (raw bytes) w = omega (arith, size-put_bytes w bytes)

pub write_rr-grows : (r : Rr) (w : Writer) → size w ≤ size (write_rr r w)
unfolding write_rr
write_rr-grows r w =
    let named = write_name r.name w in
    let fixed = put_32 (put_16 (put_16 named r.rr_type) r.cls) r.ttl in
    omega (sizes, write_name-grows r.name w, write_rdata-grows r.rdata (put_16 fixed 0))

pub write_rrs-grows : (rs : List Rr) (w : Writer) → size w ≤ size (write_rrs rs w)
unfolding write_rrs
write_rrs-grows [] w = le_refl _
write_rrs-grows (r ∷ rs) w = le_trans (write_rr-grows r w) (write_rrs-grows rs (write_rr r w))
