-- ===== src/Name/Text.antt =====
-- core/wire/name.cpp: the presentation format, `Name::from_string` and `Name::to_string`.
use dnsentinal.Common.{
  ℕ, zero, suc, ◌+◌, ◌-◌, ◌*◌, ◌/◌, ◌%◌, Bool, ◌&&◌, ◌||◌, List, [], ◌∷◌, ◌++◌, Option, none, some,
  leb, ltb, ◌==◌, if◌then◌else◌, length,
}
use dnsentinal.Common.Options.{◌>>=◌}
use dnsentinal.Types.{Bytes, Name, root, bytes_eq, max_label_length, max_name_wire_length}
use dnsentinal.Name.{append_label}

unfoldable pub is_digit : ℕ → Bool
is_digit c = leb b'0' c && leb c b'9'

unfoldable pub needs_backslash : ℕ → Bool
needs_backslash c =
    c == b'.'
    || c == b'\\'
    || c == b'"'
    || c == b'('
    || c == b')'
    || c == b';'
    || c == b'@'
    || c == b'$'

-- The variables of the loop of `from_string`.
pub record Scan : Type 0 where
  pub name : Name
  pub wire_len : ℕ
  pub label : Bytes

unfoldable pub finish_nonempty : Bytes → Scan → Option Scan
finish_nonempty [] s = none
finish_nonempty (c ∷ cs) s =
    let wire_len = s.wire_len + (1 + length s.label) in
    if ltb max_name_wire_length wire_len
    then none
    else some (record { name = append_label s.name s.label; wire_len = wire_len; label = [] })

unfoldable pub finish_label : Scan → Option Scan
unfolding finish_nonempty
finish_label s = finish_nonempty s.label s

unfoldable pub push_char : Scan → ℕ → Option Scan
push_char s c =
    if length s.label == max_label_length
    then none
    else some (record s { label = s.label ++ c ∷ [] })

-- `\DDD` behind its first digit: the value, and the bytes that the loop skips.
unfoldable pub three_digits : ℕ → Bytes → Option (ℕ × ℕ)
unfolding is_digit
three_digits d (e ∷ f ∷ _) =
    let value = (d - b'0') * 100 + (e - b'0') * 10 + (f - b'0') in
    if is_digit e && is_digit f then if ltb 255 value then none else some (value, 3) else none
three_digits d _ = none

-- What follows a backslash.
unfoldable pub escape : Bytes → Option (ℕ × ℕ)
unfolding three_digits
escape [] = none
escape (d ∷ rest) = if is_digit d then three_digits d rest else some (d, 1)

-- One round of the loop: the new variables, and how far `i` advances beyond the one step.
unfoldable pub consume : ℕ → Bytes → Scan → Option (Scan × ℕ)
consume c rest s =
    if c == b'.'
    then (do s' ← finish_label s; some (s', 0))
    else if c == b'\\'
    then (do (c', skip) ← escape rest; s' ← push_char s c'; some (s', skip))
    else (do s' ← push_char s c; some (s', 0))

unfoldable pub scan : ℕ → Bytes → Scan → Option Scan
scan skip [] s = some s
scan (suc skip) (c ∷ rest) s = scan skip rest s
scan zero (c ∷ rest) s = do (s', skip) ← consume c rest s; scan skip rest s'

-- The relative form leaves the last label unterminated.
unfoldable pub finish_name : Bytes → Scan → Option Name
finish_name [] s = some s.name
finish_name (c ∷ cs) s = do s' ← finish_label s; some s'.name

abbrev pub start : Scan
start = record { name = root; wire_len = 1; label = [] }

unfoldable pub read_text : Bytes → Option Name
unfolding finish_name
read_text [] = none
read_text (c ∷ text) = do s ← scan 0 (c ∷ text) start; finish_name s.label s

unfoldable pub from_string : Bytes → Option Name
unfolding read_text
from_string text = if bytes_eq text (b'.' ∷ []) then some root else read_text text

unfoldable pub print_byte : ℕ → Bytes
unfolding needs_backslash
print_byte c =
    if needs_backslash c
    then b'\\' ∷ c ∷ []
    else if ltb c 0x21 || ltb 0x7e c
    then b'\\' ∷ (b'0' + c / 100) ∷ (b'0' + c / 10 % 10) ∷ (b'0' + c % 10) ∷ []
    else c ∷ []

unfoldable pub print_label : Bytes → Bytes
print_label [] = b'.' ∷ []
print_label (c ∷ cs) = print_byte c ++ print_label cs

unfoldable pub print_labels : List Bytes → Bytes
print_labels [] = []
print_labels (l ∷ ls) = print_label l ++ print_labels ls

unfoldable pub to_text : List Bytes → Bytes
to_text [] = b'.' ∷ []
to_text (l ∷ ls) = print_labels (l ∷ ls)

unfoldable pub to_string : Name → Bytes
unfolding to_text
to_string n = to_text n.labels
