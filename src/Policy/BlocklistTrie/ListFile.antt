-- ===== src/Policy/BlocklistTrie/ListFile.antt =====
-- core/policy/blocklist_trie.cpp: the lines of a list file. Whether a text is an IP address is what
-- `inet_pton` says, a parameter.
use dnsentinal.Common.{
  ℕ, Bool, true, false, not, ◌&&◌, ◌||◌, List, [], ◌∷◌, ◌++◌, ◌==◌, if◌then◌else◌, any, keep_if,
}
use dnsentinal.Types.{Bytes, bytes_eq}

-- `std::getline` until the end of the file: a newline ends a line and starts none.
unfoldable pub lines : Bytes → List Bytes
lines [] = []
lines (c ∷ cs) = let rest = lines cs in if c == b'\n' then [] ∷ rest else prepend rest
  where
    prepend : List Bytes → List Bytes
    prepend [] = (c ∷ []) ∷ []
    prepend (line ∷ rest) = (c ∷ line) ∷ rest

abbrev pub is_empty : Bytes → Bool
is_empty [] = true
is_empty (c ∷ cs) = false

abbrev is_blank : ℕ → Bool
is_blank c = c == b' ' || c == b'\t'

abbrev is_trimmed : ℕ → Bool
is_trimmed c = is_blank c || c == b'\r'

unfoldable pub trim_front : Bytes → Bytes
trim_front [] = []
trim_front (c ∷ cs) = if is_trimmed c then trim_front cs else c ∷ cs

unfoldable pub trim_back : Bytes → Bytes
trim_back [] = []
trim_back (c ∷ cs) =
    let rest = trim_back cs in if is_trimmed c && is_empty rest then [] else c ∷ rest

unfoldable pub trim : Bytes → Bytes
unfolding trim_front trim_back
trim s = trim_back (trim_front s)

-- `s.substr(0, s.find(c))`
unfoldable pub up_to : ℕ → Bytes → Bytes
up_to c [] = []
up_to c (b ∷ bs) = if b == c then [] else b ∷ up_to c bs

-- The fields from here on, of which the first begins with what was read of it.
unfoldable pub fields_from : Bytes → Bytes → List Bytes
fields_from field [] = if is_empty field then [] else field ∷ []
fields_from field (c ∷ cs) =
    let ended = fields_from [] cs in
    let longer = fields_from (field ++ c ∷ []) cs in
    if is_blank c then (if is_empty field then ended else field ∷ ended) else longer

unfoldable pub split_fields : Bytes → List Bytes
unfolding fields_from
split_fields = fields_from []

abbrev localhost : Bytes
localhost = b'l' ∷ b'o' ∷ b'c' ∷ b'a' ∷ b'l' ∷ b'h' ∷ b'o' ∷ b's' ∷ b't' ∷ []

abbrev localhost_localdomain : Bytes
localhost_localdomain =
    b'l' ∷ b'o' ∷ b'c' ∷ b'a' ∷ b'l' ∷ b'h' ∷ b'o' ∷ b's' ∷ b't' ∷ b'.' ∷ b'l' ∷ b'o' ∷ b'c' ∷ b'a'
    ∷ b'l' ∷ b'd' ∷ b'o' ∷ b'm' ∷ b'a' ∷ b'i' ∷ b'n' ∷ []

abbrev local : Bytes
local = b'l' ∷ b'o' ∷ b'c' ∷ b'a' ∷ b'l' ∷ []

abbrev broadcasthost : Bytes
broadcasthost =
    b'b' ∷ b'r' ∷ b'o' ∷ b'a' ∷ b'd' ∷ b'c' ∷ b'a' ∷ b's' ∷ b't' ∷ b'h' ∷ b'o' ∷ b's' ∷ b't' ∷ []

abbrev ip6_localhost : Bytes
ip6_localhost =
    b'i' ∷ b'p' ∷ b'6' ∷ b'-' ∷ b'l' ∷ b'o' ∷ b'c' ∷ b'a' ∷ b'l' ∷ b'h' ∷ b'o' ∷ b's' ∷ b't' ∷ []

abbrev ip6_loopback : Bytes
ip6_loopback =
    b'i' ∷ b'p' ∷ b'6' ∷ b'-' ∷ b'l' ∷ b'o' ∷ b'o' ∷ b'p' ∷ b'b' ∷ b'a' ∷ b'c' ∷ b'k' ∷ []

abbrev ip6_localnet : Bytes
ip6_localnet =
    b'i' ∷ b'p' ∷ b'6' ∷ b'-' ∷ b'l' ∷ b'o' ∷ b'c' ∷ b'a' ∷ b'l' ∷ b'n' ∷ b'e' ∷ b't' ∷ []

abbrev ip6_mcastprefix : Bytes
ip6_mcastprefix =
    b'i' ∷ b'p' ∷ b'6' ∷ b'-' ∷ b'm' ∷ b'c' ∷ b'a' ∷ b's' ∷ b't' ∷ b'p' ∷ b'r' ∷ b'e' ∷ b'f' ∷ b'i'
    ∷ b'x' ∷ []

abbrev ip6_allnodes : Bytes
ip6_allnodes =
    b'i' ∷ b'p' ∷ b'6' ∷ b'-' ∷ b'a' ∷ b'l' ∷ b'l' ∷ b'n' ∷ b'o' ∷ b'd' ∷ b'e' ∷ b's' ∷ []

abbrev ip6_allrouters : Bytes
ip6_allrouters =
    b'i' ∷ b'p' ∷ b'6' ∷ b'-' ∷ b'a' ∷ b'l' ∷ b'l' ∷ b'r' ∷ b'o' ∷ b'u' ∷ b't' ∷ b'e' ∷ b'r' ∷ b's'
    ∷ []

abbrev ip6_allhosts : Bytes
ip6_allhosts =
    b'i' ∷ b'p' ∷ b'6' ∷ b'-' ∷ b'a' ∷ b'l' ∷ b'l' ∷ b'h' ∷ b'o' ∷ b's' ∷ b't' ∷ b's' ∷ []

abbrev any_address : Bytes
any_address = b'0' ∷ b'.' ∷ b'0' ∷ b'.' ∷ b'0' ∷ b'.' ∷ b'0' ∷ []

-- `kNames`
abbrev hosts_names : List Bytes
hosts_names =
    localhost ∷ localhost_localdomain ∷ local ∷ broadcasthost ∷ ip6_localhost ∷ ip6_loopback
    ∷ ip6_localnet ∷ ip6_mcastprefix ∷ ip6_allnodes ∷ ip6_allrouters ∷ ip6_allhosts ∷ any_address
    ∷ []

unfoldable pub is_hosts_boilerplate : Bytes → Bool
unfolding bytes_eq
is_hosts_boilerplate name = any (λ n. bytes_eq n name) hosts_names

-- `entry.ends_with(c)`, and what is in front of the last byte
abbrev ends_with : ℕ → Bytes → Bool
ends_with c [] = false
ends_with c (b ∷ []) = b == c
ends_with c (b ∷ rest) = ends_with c rest

abbrev without_last : Bytes → Bytes
without_last [] = []
without_last (b ∷ []) = []
without_last (b ∷ rest) = b ∷ without_last rest

abbrev is_special : ℕ → Bool
is_special c =
    any (λ s. c == s) (b'/' ∷ b'*' ∷ b'$' ∷ b'^' ∷ b'|' ∷ b'@' ∷ b':' ∷ b'=' ∷ b'?' ∷ b'&' ∷ [])

-- Empty if anything of a pattern is left.
unfoldable pub plain : Bytes → Bytes
plain entry = if any is_special entry then [] else entry

unfoldable pub unwrap_domain : Bytes → Bytes
unfolding plain
unwrap_domain (a ∷ b ∷ rest) =
    if a == b'|' && b == b'|'
    then (if ends_with b'^' rest then plain (without_last rest) else [])
    else (if a == b'*' && b == b'.' then plain rest else plain (a ∷ b ∷ rest))
unwrap_domain entry = plain entry

-- The names that a line lists, and whether it counts as skipped.
module _ (is_address : Bytes → Bool) where
  -- The zone index is cut off, and a C string ends at a zero byte.
  unfoldable pub is_ip_address : Bytes → Bool
  unfolding up_to
  is_ip_address text = is_address (up_to 0 (up_to b'%' text))

  unfoldable pub line_names : List Bytes → List Bytes × Bool
  unfolding is_ip_address is_hosts_boilerplate unwrap_domain
  line_names [] = ([], false)
  line_names (first ∷ rest) =
      if is_ip_address first
      then (keep_if (λ n. not (is_hosts_boilerplate n)) rest, has_none rest)
      else (if has_none rest then (unwrap_domain first ∷ [], false) else ([], true))
    where
      has_none : List Bytes → Bool
      has_none [] = true
      has_none (field ∷ more) = false

  -- `none` for a comment, a header or nothing at all.
  unfoldable pub read_line : Bytes → List Bytes × Bool
  unfolding trim up_to split_fields line_names
  read_line raw = uncommented (trim raw)
    where
      uncommented : Bytes → List Bytes × Bool
      uncommented [] = ([], false)
      uncommented (c ∷ cs) =
          if c == b'!' || c == b'['
          then ([], false)
          else line_names (split_fields (trim (up_to b'#' (c ∷ cs))))
