-- ===== src/Name/Subdomain.antt =====
-- core/wire/name.cpp: `is_subdomain_of` and `parent` are about suffixes of the label sequence.
use mathlib.Core.List.{reverse, reverse-append, reverse-reverse}
use dnsentinal.Common.{
  ◌≡◌, refl, sym, ap, ◌∙◌, true, ◌↔◌, List, [], ◌∷◌, ◌++◌, append_assoc, arith, length,
  length-append, le→ltb,
}
use dnsentinal.Types.{Bytes, Name}
use dnsentinal.Types.Equality.{bytes_eq_iff}
use dnsentinal.Name.{equal_prefix, is_subdomain_of}

prefix_split :
    (xs ys : List Bytes) → equal_prefix xs ys ≡ true → (zs : List Bytes) × (ys ≡ xs ++ zs)
unfolding equal_prefix
prefix_split [] ys h = (ys, refl)
prefix_split (x ∷ xs) [] h = absurd (cc)
prefix_split (x ∷ xs) (y ∷ ys) h =
    let (zs, e) = prefix_split xs ys (ground arith) in (zs, ground (arith, bytes_eq_iff x y))

prefix_join : (xs zs : List Bytes) → equal_prefix xs (xs ++ zs) ≡ true
unfolding equal_prefix
prefix_join [] zs = refl
prefix_join (x ∷ xs) zs = ground (arith, bytes_eq_iff x x, prefix_join xs zs)

-- Below or at `zone`: the labels of `zone` end those of the name.
abbrev pub Below : Name → Name → Type 0
Below n zone = (pre : List Bytes) × (n.labels ≡ pre ++ zone.labels)

below : (n zone : Name) → is_subdomain_of n zone ≡ true → Below n zone
unfolding is_subdomain_of
below n zone h =
    let (zs, e) = prefix_split (reverse zone.labels) (reverse n.labels) (ground arith) in
    (
      reverse zs,
      sym (reverse-reverse n.labels)
          ∙ ap reverse e
          ∙ reverse-append (reverse zone.labels) zs
          ∙ ap (◌++◌ (reverse zs)) (reverse-reverse zone.labels),
    )

subdomain : (n zone : Name) → Below n zone → is_subdomain_of n zone ≡ true
unfolding is_subdomain_of
subdomain n zone (pre, e) =
    rw
      (
        e,
        le→ltb (length (pre ++ zone.labels)) (length zone.labels)
            (omega (arith, length-append pre zone.labels)),
      )
      (rw (reverse-append pre zone.labels) (prefix_join (reverse zone.labels) (reverse pre)))

-- `is_subdomain_of` compares whole labels from the right: it holds exactly when the name's labels
-- are some further labels in front of the zone's.
pub is_subdomain_of_iff : (n zone : Name) → (is_subdomain_of n zone ≡ true) ↔ Below n zone
is_subdomain_of_iff n zone = (below n zone, subdomain n zone)

pub is_subdomain_of_refl : (n : Name) → is_subdomain_of n n ≡ true
is_subdomain_of_refl n = subdomain n n ([], refl)

pub is_subdomain_of_trans :
    (a b c : Name)
    → is_subdomain_of a b ≡ true
    → is_subdomain_of b c ≡ true
    → is_subdomain_of a c ≡ true
is_subdomain_of_trans a b c h k =
    let (p, e) = below a b h in
    let (q, f) = below b c k in
    subdomain a c (p ++ q, e ∙ ap (◌++◌ p) f ∙ sym (append_assoc p q c.labels))
