-- ===== src/Name/Limits.antt =====
-- core/wire/name.cpp: the size limits of RFC 1035 and the two case forms.
use dnsentinal.Common.{
  ℕ, zero, suc, ◌+◌, ◌≤◌, ◌≡◌, refl, ap, ◌∙◌, List, [], ◌∷◌, ◌++◌, map, some, All, All-append,
  length, length-append, arith, Bool-cases, ltb, ◌==◌, inl, inr, subst,
}
use mathlib.Core.List.{map-append}
use mathlib.Core.Option.{some-injective}
use dnsentinal.Common.Options.{>>=-eq-some}
use dnsentinal.Types.{Bytes, Name, root, bytes_eq}
use dnsentinal.Name.{lower, append_label, labels_length, wire_length}
use dnsentinal.Name.Text.{
  Scan, start, finish_nonempty, finish_label, push_char, escape, finish_name, read_text, consume,
  scan, from_string,
}

abbrev pub IsLabel : Bytes → Type 0
IsLabel l = (1 ≤ length l) × (length l ≤ 63)

-- The invariant of `Name` and the limits that hold of a name from outside.
pub record IsValid (n : Name) : Type 0 where
  pub sized : All IsLabel n.labels
  pub short : wire_length n ≤ 255
  pub folded : n.labels ≡ map lower n.original_case

pub length-lower : (l : Bytes) → length (lower l) ≡ length l
unfolding lower
length-lower [] = refl
length-lower (c ∷ cs) = ap suc (length-lower cs)

pub labels_length-append :
    (ls ms : List Bytes) → labels_length (ls ++ ms) ≡ labels_length ls + labels_length ms
unfolding labels_length
labels_length-append [] ms = omega arith
labels_length-append (l ∷ ls) ms = omega (arith, labels_length-append ls ms)

-- One more label keeps the invariant, if there is room for it.
pub append_label-IsValid :
    (n : Name) (l : Bytes)
    → IsValid n
    → IsLabel l
    → wire_length n + 1 + length l ≤ 255
    → IsValid (append_label n l) × (wire_length (append_label n l) ≡ wire_length n + 1 + length l)
unfolding append_label wire_length labels_length
append_label-IsValid n l v h fits =
    let grown = labels_length-append n.labels (lower l ∷ []) in
    (
      record {
        sized =
            All-append IsLabel n.labels (lower l ∷ []) v.sized
              ((omega (arith, length-lower l), omega (arith, length-lower l)), tt);
        short = omega (arith, grown, length-lower l);
        folded = ap (λ ls. ls ++ lower l ∷ []) v.folded ∙ map-append-sym;
      },
      omega (arith, grown, length-lower l),
    )
  where
    map-append-sym :
        map lower n.original_case ++ lower l ∷ [] ≡ map lower (n.original_case ++ l ∷ [])
    map-append-sym = rw (map-append lower n.original_case (l ∷ []))

record Good (s : Scan) : Type 0 where
  valid : IsValid s.name
  counted : s.wire_len ≡ wire_length s.name
  fits : length s.label ≤ 63

finish_nonempty-Good :
    (l : Bytes) (s : Scan) {s' : Scan}
    → s.label ≡ l
    → finish_nonempty l s ≡ some s'
    → Good s
    → Good s'
unfolding finish_nonempty
finish_nonempty-Good [] s e h g = absurd (cc)
finish_nonempty-Good (c ∷ cs) s {s'} e h g =
    elim (Bool-cases (ltb 255 (s.wire_len + (1 + length s.label)))) [
      | inl long ↦ absurd (ground arith)
      | inr room ↦
          let size : length s.label ≡ suc (length cs) = ap length e in
          let grown =
            append_label-IsValid s.name s.label g.valid (omega arith, g.fits)
              (ground (arith, g.counted)) in
          subst Good (some-injective _ s' (rw room at h)) (record {
            valid = grown.0;
            counted = omega (arith, grown.1, g.counted);
            fits = omega arith;
          })
    ]

push_char-Good : (s : Scan) (c : ℕ) {s' : Scan} → push_char s c ≡ some s' → Good s → Good s'
unfolding push_char
push_char-Good s c {s'} h g = ground (arith, length-append s.label (c ∷ []))

finish_label-Good : (s : Scan) {s' : Scan} → finish_label s ≡ some s' → Good s → Good s'
unfolding finish_label
finish_label-Good s h g = finish_nonempty-Good s.label s refl h g

consume-Good :
    (c : ℕ) (rest : Bytes) (s : Scan) {s' : Scan} {skip : ℕ}
    → consume c rest s ≡ some (s', skip)
    → Good s
    → Good s'
unfolding consume
consume-Good c rest s h g = elim (Bool-cases (c == b'.')) [
  | inl dot ↦
      let (t, e, f) = >>=-eq-some (finish_label s) _ (rw dot at h) in
      ground (arith, finish_label-Good s e g)
  | inr other ↦ elim (Bool-cases (c == b'\\')) [
    | inl slash ↦
        let (p, e, f) = >>=-eq-some (escape rest) _ (rw (other, slash) at h) in
        let (t, e', f') = >>=-eq-some (push_char s p.0) _ f in
        ground (arith, push_char-Good s p.0 e' g)
    | inr plain ↦
        let (t, e, f) = >>=-eq-some (push_char s c) _ (rw (other, plain) at h) in
        ground (arith, push_char-Good s c e g)
  ]
]

scan-Good :
    (skip : ℕ) (text : Bytes) (s : Scan) {s' : Scan} → scan skip text s ≡ some s' → Good s → Good s'
unfolding scan
scan-Good zero [] s h g = ground arith
scan-Good (suc skip) [] s h g = ground arith
scan-Good (suc skip) (c ∷ rest) s h g = scan-Good skip rest s h g
scan-Good zero (c ∷ rest) s h g =
    let (p, e, f) = >>=-eq-some (consume c rest s) _ h in
    scan-Good p.1 rest p.0 f (consume-Good c rest s e g)

finish_name-IsValid :
    (l : Bytes) (s : Scan) {n : Name} → finish_name l s ≡ some n → Good s → IsValid n
unfolding finish_name
finish_name-IsValid [] s {n} h g = subst IsValid (some-injective s.name n h) g.valid
finish_name-IsValid (c ∷ cs) s {n} h g =
    let (t, e, f) = >>=-eq-some (finish_label s) _ h in
    subst IsValid (some-injective t.name n f) (finish_label-Good s e g).valid

pub root-IsValid : IsValid root
unfolding wire_length labels_length
root-IsValid = record { sized = tt; short = omega arith; folded = refl }

read_text-IsValid : (text : Bytes) {n : Name} → read_text text ≡ some n → IsValid n
unfolding read_text wire_length labels_length
read_text-IsValid [] h = absurd (cc)
read_text-IsValid (c ∷ text) h =
    let (s, e, f) = >>=-eq-some (scan 0 (c ∷ text) start) _ h in
    finish_name-IsValid s.label s f (
      scan-Good 0 (c ∷ text) start e
        (record { valid = root-IsValid; counted = refl; fits = omega arith }))

-- A name that `from_string` accepts has labels of 1 to 63 bytes, takes at most 255 bytes on the
-- wire, and its canonical labels are its original labels in lower case.
pub from_string-IsValid : (text : Bytes) {n : Name} → from_string text ≡ some n → IsValid n
unfolding from_string
from_string-IsValid text {n} h = elim (Bool-cases (bytes_eq text (b'.' ∷ []))) [
  | inl dot ↦ subst IsValid (some-injective root n (rw dot at h)) root-IsValid
  | inr other ↦ read_text-IsValid text (rw other at h)
]
