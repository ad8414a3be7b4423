-- ===== src/Name/RoundTrip.antt =====
-- core/wire/name.cpp: `from_string` reads back what `to_string` prints.
use dnsentinal.Common.{
  ℕ, ◌+◌, ◌≤◌, ◌<◌, ◌≡◌, ◌≢◌, refl, ap, sym, ◌∙◌, List, [], ◌∷◌, ◌++◌, map, some, All, append_assoc,
  append-nil, length, length-append, arith, Bool-cases, inl, inr,
}
use dnsentinal.Types.{IsByte, Bytes, Name, root, bytes_eq}
use dnsentinal.Types.Equality.{bytes_eq_iff}
use dnsentinal.Name.{ascii_lower, lower, append_label, labels_length, wire_length}
use dnsentinal.Name.Limits.{IsLabel, IsValid}
use dnsentinal.Name.Text.{
  Scan, start, is_digit, finish_nonempty, finish_label, push_char, three_digits, escape, consume,
  scan, read_text, finish_name, from_string, needs_backslash, print_byte, print_label, print_labels,
  to_text, to_string,
}

abbrev with_char : Scan → ℕ → Scan
with_char s c = record s { label = s.label ++ c ∷ [] }

-- One printed byte is read as one byte of the label.
scan-print_byte :
    (c : ℕ) (rest : Bytes) (s : Scan)
    → c < 256
    → length s.label < 63
    → scan 0 (print_byte c ++ rest) s ≡ scan 0 rest (with_char s c)
unfolding scan consume push_char escape three_digits print_byte is_digit needs_backslash
scan-print_byte c rest s h room = ground arith

scan-print_label :
    (l : Bytes) (rest : Bytes) (s : Scan)
    → All IsByte l
    → length s.label + length l ≤ 63
    → scan 0 (print_label l ++ rest) s ≡ scan 0 (b'.' ∷ rest) (record s { label = s.label ++ l })
unfolding print_label
scan-print_label [] rest s b h = rw append-nil
scan-print_label (c ∷ cs) rest s b h =
    ap (λ t. scan 0 t s) (append_assoc (print_byte c) (print_label cs) rest)
    ∙ scan-print_byte c (print_label cs ++ rest) s b.0 (omega arith)
    ∙ scan-print_label cs rest (with_char s c) b.1 (omega (arith, length-append s.label (c ∷ [])))
    ∙ ap (λ l. scan 0 (b'.' ∷ rest) (record s { label = l })) (append_assoc s.label (c ∷ []) cs)

-- The dot ends a label that is not empty and that has room.
scan_dot :
    (l : Bytes) (rest : Bytes) (n : Name) (size : ℕ)
    → 1 ≤ length l
    → size + 1 + length l ≤ 255
    → scan 0 (b'.' ∷ rest) (record { name = n; wire_len = size; label = l })
      ≡ scan 0 rest
          (record { name = append_label n l; wire_len = size + (1 + length l); label = [] })
unfolding scan consume finish_label finish_nonempty
scan_dot [] rest n size h fits = absurd (omega arith)
scan_dot (c ∷ cs) rest n size h fits = ground arith

abbrev append_labels : Name → List Bytes → Name
append_labels n [] = n
append_labels n (l ∷ ls) = append_labels (append_label n l) ls

scan-print_labels :
    (ls : List Bytes) (n : Name) (size : ℕ)
    → All (All IsByte) ls
    → All IsLabel ls
    → size + labels_length ls ≤ 255
    → scan 0 (print_labels ls) (record { name = n; wire_len = size; label = [] })
      ≡ some (record { name = append_labels n ls; wire_len = size + labels_length ls; label = [] })
unfolding print_labels labels_length
scan-print_labels [] n size b h fits = unfold scan in ground arith
scan-print_labels (l ∷ ls) n size b h fits =
    scan-print_label l (print_labels ls) (record { name = n; wire_len = size; label = [] }) b.0
      (omega arith)
    ∙ scan_dot l (print_labels ls) n size h.0.0 (omega arith)
    ∙ scan-print_labels ls (append_label n l) (size + (1 + length l)) b.1 h.1 (omega arith)
    ∙ ap
        (λ k.
          some (record { name = append_labels (append_label n l) ls; wire_len = k; label = [] }))
        (omega arith)

lower-ascii_lower : (c : ℕ) → ascii_lower (ascii_lower c) ≡ ascii_lower c
unfolding ascii_lower
lower-ascii_lower c = ground arith

lower-lower : (l : Bytes) → lower (lower l) ≡ lower l
unfolding lower
lower-lower [] = refl
lower-lower (c ∷ cs) = ground (arith, lower-ascii_lower c, lower-lower cs)

map-lower-map-lower : (ls : List Bytes) → map lower (map lower ls) ≡ map lower ls
map-lower-map-lower [] = refl
map-lower-map-lower (l ∷ ls) = ground (arith, lower-lower l, map-lower-map-lower ls)

append_labels_lem :
    (ls : List Bytes) (n : Name)
    → append_labels n ls
      ≡ record { labels = n.labels ++ map lower ls; original_case = n.original_case ++ ls }
unfolding append_label
append_labels_lem [] n = ground (arith, append-nil n.labels, append-nil n.original_case)
append_labels_lem (l ∷ ls) n =
    append_labels_lem ls (append_label n l)
    ∙ ground (
      arith,
      append_assoc n.labels (lower l ∷ []) (map lower ls),
      append_assoc n.original_case (l ∷ []) ls,
    )

print_byte-ne_dot : (c : ℕ) (rest : Bytes) → print_byte c ++ rest ≢ b'.' ∷ []
unfolding print_byte needs_backslash
print_byte-ne_dot c rest = ground arith

print_byte-ne_nil : (c : ℕ) (rest : Bytes) → print_byte c ++ rest ≢ []
unfolding print_byte
print_byte-ne_nil c rest = ground arith

print_labels-ne_dot :
    (l : Bytes) (ls : List Bytes) → 1 ≤ length l → print_labels (l ∷ ls) ≢ b'.' ∷ []
unfolding print_labels print_label
print_labels-ne_dot [] ls h e = absurd (omega arith)
print_labels-ne_dot (c ∷ cs) ls h e =
    print_byte-ne_dot c (print_label cs ++ print_labels ls)
      (sym (append_assoc (print_byte c) (print_label cs) (print_labels ls)) ∙ e)

print_labels-ne_nil : (l : Bytes) (ls : List Bytes) → print_labels (l ∷ ls) ≢ []
unfolding print_labels print_label
print_labels-ne_nil [] ls e = absurd (cc)
print_labels-ne_nil (c ∷ cs) ls e =
    print_byte-ne_nil c (print_label cs ++ print_labels ls)
      (sym (append_assoc (print_byte c) (print_label cs) (print_labels ls)) ∙ e)

-- Text that is not empty and ends in a dot leaves no label open.
read_text_complete :
    (text : Bytes) (n : Name) (size : ℕ)
    → text ≢ []
    → scan 0 text start ≡ some (record { name = n; wire_len = size; label = [] })
    → read_text text ≡ some n
unfolding read_text finish_name
read_text_complete [] n size ne e = absurd (ne refl)
read_text_complete (c ∷ text) n size ne e = rw e

from_string-print_labels :
    (l : Bytes) (ls : List Bytes)
    → 1 ≤ length l
    → from_string (print_labels (l ∷ ls)) ≡ read_text (print_labels (l ∷ ls))
unfolding from_string
from_string-print_labels l ls h = elim (Bool-cases (bytes_eq (print_labels (l ∷ ls)) (b'.' ∷ []))) [
  | inl dot ↦ absurd (print_labels-ne_dot l ls h ((bytes_eq_iff _ _).0 dot))
  | inr other ↦ rw other
]

-- What `from_string` makes of the printed form of a label sequence in lower case.
from_string-to_text :
    (ls : List Bytes)
    → All (All IsByte) ls
    → All IsLabel ls
    → 1 + labels_length ls ≤ 255
    → map lower ls ≡ ls
    → from_string (to_text ls) ≡ some (record { labels = ls; original_case = ls })
unfolding to_text
from_string-to_text [] b h fits low = unfold from_string bytes_eq in refl
from_string-to_text (l ∷ ls) b h fits low =
    from_string-print_labels l ls h.0.0
    ∙ read_text_complete (print_labels (l ∷ ls)) _ _ (print_labels-ne_nil l ls)
        (scan-print_labels (l ∷ ls) root 1 b h fits)
    ∙ ap some (
        append_labels_lem (l ∷ ls) root
        ∙ ap (λ k. record { labels = k; original_case = l ∷ ls }) low)

-- Printing a valid name whose labels are bytes and parsing the text gives the same canonical
-- labels; the original case is lost, since the canonical labels are printed.
pub from_string-to_string :
    (n : Name)
    → IsValid n
    → All (All IsByte) n.labels
    → from_string (to_string n) ≡ some (record { labels = n.labels; original_case = n.labels })
unfolding to_string wire_length
from_string-to_string n v b =
    from_string-to_text n.labels b v.sized v.short
      (ap (map lower) v.folded ∙ map-lower-map-lower n.original_case ∙ sym v.folded)
