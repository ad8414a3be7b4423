-- ===== src/Tests/Names.antt =====
-- Names on concrete inputs.
use dnsentinal.Common.{◌<◌, ℕ, ◌+◌, ◌*◌, ◌↔◌, ◌≡◌, refl, true, [], ◌∷◌, map, some, arith}
use dnsentinal.Types.{Bytes, Name, bytes_eq}
use dnsentinal.Name.{lower, ascii_lower, is_subdomain_of, append_label, wire_length, labels_length}
use dnsentinal.Name.Limits.{IsValid, from_string-IsValid}
use dnsentinal.Name.RoundTrip.{from_string-to_string}
use dnsentinal.Name.Subdomain.{is_subdomain_of_iff, Below}
use dnsentinal.Name.Text.{
  from_string, to_string, read_text, scan, consume, escape, push_char, three_digits, is_digit,
  finish_label, finish_nonempty, finish_name,
}
use dnsentinal.Security.ZeroX20.{randomize_case, case_entropy_bits, flip_labels, no_bits}
use dnsentinal.Security.ZeroX20.Laws.{spelled_labels, randomize_case_lem}
use dnsentinal.Tests.Samples.{www_net, net_name, are_bytes, www, net}

www_net-IsValid : IsValid www_net
unfolding lower ascii_lower wire_length labels_length
www_net-IsValid = record {
  sized = ((omega arith, omega arith), ((omega arith, omega arith), tt));
  short = omega arith;
  folded = refl;
}

from_string-to_string_example :
    from_string (to_string www_net)
    ≡ some (record { labels = www ∷ net ∷ []; original_case = www ∷ net ∷ [] })
from_string-to_string_example =
    from_string-to_string www_net www_net-IsValid (are_bytes www refl, (are_bytes net refl, tt))

-- A\046b
abbrev escaped : Bytes
escaped = 65 ∷ 92 ∷ 48 ∷ 52 ∷ 54 ∷ 98 ∷ []

abbrev escaped_name : Name
escaped_name = record {
  labels = (97 ∷ 46 ∷ 98 ∷ []) ∷ [];
  original_case = (65 ∷ 46 ∷ 98 ∷ []) ∷ [];
}

from_string-escaped : from_string escaped ≡ some escaped_name
unfolding from_string read_text scan consume escape push_char three_digits is_digit finish_label
    finish_nonempty finish_name append_label lower ascii_lower bytes_eq
from_string-escaped = refl

from_string-IsValid_example : IsValid escaped_name
from_string-IsValid_example = from_string-IsValid escaped {n = escaped_name} from_string-escaped

is_subdomain_of_iff_example : (is_subdomain_of www_net net_name ≡ true) ↔ Below www_net net_name
is_subdomain_of_iff_example = is_subdomain_of_iff www_net net_name

abbrev alternating : ℕ → ℕ
alternating n = 0x55555555

randomize_case_lem_example :
    ((randomize_case alternating www_net).labels ≡ www_net.labels)
    × (map lower (randomize_case alternating www_net).original_case ≡ www_net.labels)
    × ((randomize_case alternating www_net).original_case
        ≡ spelled_labels alternating 0 www_net.labels)
    × ((flip_labels alternating www_net.labels no_bits).1.left < 32)
    × ((flip_labels alternating www_net.labels no_bits).1.drawn * 32
        ≡ case_entropy_bits www_net + (flip_labels alternating www_net.labels no_bits).1.left)
unfolding lower ascii_lower
randomize_case_lem_example = randomize_case_lem alternating www_net refl
