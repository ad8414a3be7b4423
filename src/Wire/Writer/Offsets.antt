-- ===== src/Wire/Writer/Offsets.antt =====
-- core/wire/builder.cpp: every compression target lies in what is already written, within reach of
-- a 14-bit pointer, and `rollback` forgets the targets that it cuts off.
use dnsentinal.Common.{
  ℕ, ◌+◌, ◌≤◌, ◌<◌, ◌&&◌, List, [], ◌∷◌, length, length-take, Option-cases, Bool-cases, inl, inr,
  arith, leb, ltb, All, keep_if,
}
use dnsentinal.Types.{Bytes, Name}
use dnsentinal.Wire.ByteIo.{u8}
use dnsentinal.Wire.Writer.{
  Writer, size, rollback, suffix_key, put_byte, put_bytes, remember, find_suffix, write_labels,
  write_name, text_of,
}
use dnsentinal.Wire.Writer.Sizes.{length-put_u16, size-put_bytes}

abbrev Reachable : ℕ → Bytes × ℕ → Type 0
Reachable limit e = (e.1 < limit) × (e.1 ≤ 0x3fff)

-- Every offset in the map is below the end of the output and fits 14 bits.
abbrev pub IsSound : Writer → Type 0
IsSound w = All (Reachable (size w)) w.suffixes

Reachable-mono :
    {m n : ℕ} (entries : List (Bytes × ℕ))
    → m ≤ n
    → All (Reachable m) entries
    → All (Reachable n) entries
Reachable-mono [] h v = tt
Reachable-mono (e ∷ entries) h v = ((omega arith, v.0.1), Reachable-mono entries h v.1)

-- After one more byte the new target is behind the end of the output.
remember-IsSound :
    (w : Writer) (key : Bytes) (b : ℕ) → IsSound w → IsSound (put_byte (remember w key) b)
unfolding remember
remember-IsSound w key b v = elim (Bool-cases (w.compress && leb (size w) 0x3fff)) [
  | inl new ↦
      rw (new, remember)
        (
          (omega (arith, size-put_bytes w (u8 b ∷ [])), ground arith),
          Reachable-mono {m = size w} w.suffixes (omega (arith, size-put_bytes w (u8 b ∷ []))) v,
        )
  | inr old ↦
      rw (old, remember)
        (Reachable-mono {m = size w} w.suffixes (omega (arith, size-put_bytes w (u8 b ∷ []))) v)
]

append-IsSound : (w : Writer) (bytes : Bytes) → IsSound w → IsSound (put_bytes w bytes)
append-IsSound w bytes v =
    Reachable-mono {m = size w} w.suffixes (omega (arith, size-put_bytes w bytes)) v

write_labels-IsSound :
    (ls ts : List Bytes) (w : Writer) → IsSound w → IsSound (write_labels ls ts w)
unfolding write_labels
write_labels-IsSound (l ∷ ls) (t ∷ ts) w v =
    elim (Option-cases (find_suffix w (suffix_key (l ∷ ls)))) [
      | inr (offset, e) ↦
          rw (e, write_labels)
            (Reachable-mono {m = size w} w.suffixes
              (omega (arith, length-put_u16 w.out (0xc000 + offset))) v)
      | inl e ↦
          let kept = remember w (suffix_key (l ∷ ls)) in
          let marked = put_byte kept (length t) in
          rw (e, write_labels)
            (write_labels-IsSound ls ts (put_bytes marked t)
              (append-IsSound marked t (remember-IsSound w (suffix_key (l ∷ ls)) (length t) v)))
    ]
write_labels-IsSound [] ts w v = append-IsSound w (u8 0 ∷ []) v
write_labels-IsSound (l ∷ ls) [] w v = append-IsSound w (u8 0 ∷ []) v

keep_below :
    (mark limit : ℕ) (entries : List (Bytes × ℕ))
    → All (Reachable limit) entries
    → All (Reachable mark) (keep_if (λ e. ltb e.1 mark) entries)
keep_below mark limit [] v = tt
keep_below mark limit (e ∷ entries) v = elim (Bool-cases (ltb e.1 mark)) [
  | inl low ↦ rw low ((ground arith, v.0.1), keep_below mark limit entries v.1)
  | inr high ↦ rw high (keep_below mark limit entries v.1)
]

rollback-IsSound : (w : Writer) (mark : ℕ) → IsSound w → mark ≤ size w → IsSound (rollback w mark)
unfolding rollback
rollback-IsSound w mark v h =
    Reachable-mono {m = mark} (rollback w mark).suffixes (omega (arith, length-take mark w.out))
      (keep_below mark (size w) w.suffixes v)

-- A writer is sound if the offsets that it has recorded lie in its output and have 14 bits. Writing a
-- name keeps it so, and so does cutting its output back to a mark inside it.
pub write_name-IsSound :
    (w : Writer) (n : Name) (mark : ℕ)
    → IsSound w
    → mark ≤ size w
    → IsSound (write_name n w) × IsSound (rollback w mark)
unfolding write_name
write_name-IsSound w n mark v h =
    (write_labels-IsSound n.labels (text_of n) w v, rollback-IsSound w mark v h)
