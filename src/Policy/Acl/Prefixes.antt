-- ===== src/Policy/Acl/Prefixes.antt =====
-- core/policy/acl.cpp: a client is in a subnet if it agrees with the subnet's address in the bits of
-- the prefix, the addresses read as numbers.
use dnsentinal.Common.{
  ℕ, suc, ◌+◌, ◌-◌, ◌*◌, ◌/◌, ◌^◌, ◌≤◌, ◌<◌, ◌≡◌, ◌↔◌, refl, ap, sym, ◌∙◌, min, Bool, true, false,
  [], ◌∷◌, ◌++◌, append-nil, length, arith, replicate, leb, Bool-cases, inl, inr,
}
use native.Mathlib.Nat.{mul-div_left, one-le-pow}
use dnsentinal.Types.{Bytes, AreBytes}
use dnsentinal.Types.Equality.{bytes_eq_iff}
use dnsentinal.Policy.Acl.{
  keep_high, mask, network, Family, inet, inet6, address_bytes, SocketAddress, v4, v6, Subnet,
  contains, contains_ip, ip_address,
}
use dnsentinal.Policy.Acl.Numbers.{value, cut_blocks, value-div_first, value-div_more, value-div-lt}

keep_high_iff :
    (keep b c : ℕ)
    → (keep_high keep b ≡ keep_high keep c) ↔ (b / 2 ^ (8 - keep) ≡ c / 2 ^ (8 - keep))
unfolding keep_high
keep_high_iff keep b c =
    let d = 2 ^ (8 - keep) in
    let positive = one-le-pow (8 - keep) 2 (omega arith) in
    (
      (λ h.
          sym (mul-div_left (b / d) positive) ∙ ap (λ n. n / d) h ∙ mul-div_left (c / d) positive),
      (λ h. ap (λ n. n * d) h),
    )

-- No bit of a prefix that has ended is kept.
mask-zero : (xs : Bytes) → AreBytes xs → mask (length xs) 0 xs ≡ replicate (length xs) 0
unfolding mask
mask-zero [] h = refl
mask-zero (b ∷ xs) h =
    let none_kept : keep_high 0 b ≡ 0 = unfold keep_high in omega (arith, h.0) in
    rw (none_kept, mask-zero xs h.1) refl

abbrev head_of : Bytes → ℕ
head_of [] = 0
head_of (b ∷ bytes) = b

abbrev rest_of : Bytes → Bytes
rest_of [] = []
rest_of (b ∷ bytes) = bytes

-- Two addresses have one network just if their numbers agree in the bits of the prefix.
abbrev Agree : ℕ → Bytes → Bytes → Type 0
Agree p xs ys =
    (mask (length xs) p xs ≡ mask (length xs) p ys)
    ↔ (value xs / 2 ^ (8 * length xs - p) ≡ value ys / 2 ^ (8 * length xs - p))

module _ (p b c : ℕ) (xs ys : Bytes) (h : AreBytes xs) (k : AreBytes ys)
    (same : length xs ≡ length ys) where
  mask_iff_short : p ≤ 8 → Agree p (b ∷ xs) (c ∷ ys)
  unfolding mask
  mask_iff_short short =
      let least : min p 8 ≡ p = omega (arith, short) in
      let over : p - 8 ≡ 0 = omega (arith, short) in
      let first = value-div_first b p xs h short in
      let second : value (c ∷ ys) / 2 ^ (8 * length (b ∷ xs) - p) ≡ c / 2 ^ (8 - p) =
        ap (λ m. value (c ∷ ys) / 2 ^ (8 * suc m - p)) same ∙ value-div_first c p ys k short in
      let ends : mask (length xs) 0 xs ≡ mask (length xs) 0 ys =
        mask-zero xs h
        ∙ ap (λ m. replicate m 0) same
        ∙ sym (mask-zero ys k)
        ∙ ap (λ m. mask m 0 ys) (sym same) in
      rw (least, over)
        (
          (λ e. first ∙ (keep_high_iff p b c).0 (ap (λ l. head_of l) e) ∙ sym second),
          (λ e. λ i. (keep_high_iff p b c).1 (sym first ∙ e ∙ second) i ∷ ends i),
        )

  mask_iff_long : 8 ≤ p → p ≤ 8 * length (b ∷ xs) → Agree (p - 8) xs ys → Agree p (b ∷ xs) (c ∷ ys)
  unfolding mask
  mask_iff_long long inside rest =
      let q = p - 8 in
      let e = 2 ^ q in
      let d = 2 ^ (8 * length xs - q) in
      let least : min p 8 ≡ 8 = omega (arith, long) in
      let short : 8 * length (b ∷ xs) - p ≡ 8 * length xs - q = omega (arith, long) in
      let whole : (n : ℕ) → keep_high 8 n ≡ n = λ n. unfold keep_high in omega arith in
      let within : q ≤ 8 * length xs = omega (arith, inside, long) in
      let within' : q ≤ 8 * length ys = omega (arith, within, same) in
      let first = value-div_more b q xs within in
      let second : value (c ∷ ys) / d ≡ c * e + value ys / d =
        ap (λ m. value (c ∷ ys) / 2 ^ (8 * m - q)) same
        ∙ value-div_more c q ys within'
        ∙ ap (λ m. c * e + value ys / 2 ^ (8 * m - q)) (sym same) in
      let low = value-div-lt q xs h within in
      let low' : value ys / d < e = rw same (value-div-lt q ys k within') in
      rw (least, short, whole b, whole c)
        (
          (λ eq.
              first
              ∙ ap (λ n. n * e + value xs / d) (ap (λ l. head_of l) eq)
              ∙ ap (λ n. c * e + n) (rest.0 (ap (λ l. rest_of l) eq))
              ∙ sym second),
          (λ eq.
              let sums : b * e + value xs / d ≡ c * e + value ys / d = sym first ∙ eq ∙ second in
              let heads : b ≡ c =
                sym (cut_blocks b e (value xs / d) low)
                ∙ ap (λ n. n / e) sums
                ∙ cut_blocks c e (value ys / d) low' in
              let scaled : b * e ≡ c * e = ap (λ n. n * e) heads in
              let tails : value xs / d ≡ value ys / d = omega (arith, sums, scaled) in
              λ i. heads i ∷ rest.1 tails i),
        )

mask_iff :
    (p : ℕ) (xs ys : Bytes)
    → AreBytes xs
    → AreBytes ys
    → length xs ≡ length ys
    → p ≤ 8 * length xs
    → Agree p xs ys
unfolding mask
mask_iff p [] [] h k same inside = ((λ e. refl), (λ e. refl))
mask_iff p [] (c ∷ ys) h k same inside = absurd (omega (arith, same))
mask_iff p (b ∷ xs) [] h k same inside = absurd (omega (arith, same))
mask_iff p (b ∷ xs) (c ∷ ys) h k same inside =
    let same' : length xs ≡ length ys = omega (arith, same) in
    elim (Bool-cases (leb p 8)) [
      | inl e ↦ mask_iff_short p b c xs ys h.1 k.1 same' (ground (arith, e))
      | inr e ↦
          mask_iff_long p b c xs ys h.1 k.1 same' (ground (arith, e)) inside
            (mask_iff (p - 8) xs ys h.1 k.1 same' (ground (arith, inside, e)))
    ]

-- What follows the masked bytes is compared as it is.
mask-append :
    (p : ℕ) (xs ys zs : Bytes)
    → length xs ≡ length ys
    → (mask (length xs) p (xs ++ zs) ≡ mask (length xs) p (ys ++ zs))
      ↔ (mask (length xs) p xs ≡ mask (length xs) p ys)
unfolding mask
mask-append p [] [] zs same = ((λ e. refl), (λ e. refl))
mask-append p [] (c ∷ ys) zs same = absurd (omega (arith, same))
mask-append p (b ∷ xs) [] zs same = absurd (omega (arith, same))
mask-append p (b ∷ xs) (c ∷ ys) zs same =
    let rest = mask-append (p - 8) xs ys zs (omega (arith, same)) in
    (
      (λ e. λ i. head_of (e i) ∷ rest.0 (ap (λ l. rest_of l) e) i),
      (λ e. λ i. head_of (e i) ∷ rest.1 (ap (λ l. rest_of l) e) i),
    )

-- A client of one of the two families.
abbrev pub client : Family → Bytes → SocketAddress
client inet addr = v4 addr
client inet6 addr = v6 addr

abbrev padded : Family → Bytes → Bytes
padded inet addr = addr ++ replicate 12 0
padded inet6 addr = addr

-- The subnet of the first `p` bits of an address.
abbrev pub subnet_of : Family → ℕ → Bytes → Subnet
subnet_of family p addr = record {
  family = family;
  network = mask (address_bytes family) p (padded family addr);
  prefix = p;
}

agree_padded :
    (n p : ℕ) (xs ys zs : Bytes)
    → AreBytes xs
    → AreBytes ys
    → length xs ≡ n
    → length ys ≡ n
    → p ≤ 8 * n
    → (mask n p (xs ++ zs) ≡ mask n p (ys ++ zs))
      ↔ (value xs / 2 ^ (8 * n - p) ≡ value ys / 2 ^ (8 * n - p))
agree_padded n p xs ys zs h k e f inside =
    let same : length xs ≡ length ys = e ∙ sym f in
    let (to, from) = mask-append p xs ys zs same in
    let (up, down) = mask_iff p xs ys h k same (omega (arith, e, inside)) in
    rw⁻¹ e ((λ g. up (to g)), (λ g. from (down g)))

padded-Agree :
    (family : Family) (p : ℕ) (xs ys : Bytes)
    → AreBytes xs
    → AreBytes ys
    → length xs ≡ address_bytes family
    → length ys ≡ address_bytes family
    → p ≤ 8 * address_bytes family
    → (mask (address_bytes family) p (padded family xs)
        ≡ mask (address_bytes family) p (padded family ys))
      ↔ (value xs / 2 ^ (8 * address_bytes family - p)
          ≡ value ys / 2 ^ (8 * address_bytes family - p))
padded-Agree inet p xs ys h k e f inside = agree_padded 4 p xs ys (replicate 12 0) h k e f inside
padded-Agree inet6 p xs ys h k e f inside =
    rw (append-nil xs, append-nil ys) at (agree_padded 16 p xs ys [] h k e f inside)

-- A client of an address that is no IPv4-mapped one is in the subnet of the first `p` bits of an
-- address of its family, just if both addresses, read as numbers of 32 or 128 bits, agree in their
-- first `p` bits.
pub contains-subnet_of :
    (is_v4_mapped : Bytes → Bool) (family : Family) (p : ℕ) (xs ys : Bytes)
    → AreBytes xs
    → AreBytes ys
    → length xs ≡ address_bytes family
    → length ys ≡ address_bytes family
    → p ≤ 8 * address_bytes family
    → is_v4_mapped xs ≡ false
    → (contains is_v4_mapped (subnet_of family p ys) (client family xs) ≡ true) ↔ (
        value xs / 2 ^ (8 * address_bytes family - p)
        ≡ value ys / 2 ^ (8 * address_bytes family - p))
unfolding contains contains_ip ip_address network
contains-subnet_of is_v4_mapped inet p xs ys h k e f inside plain =
    let (up, down) = padded-Agree inet p xs ys h k e f inside in
    ((λ g. up ((bytes_eq_iff _ _).0 g)), (λ g. (bytes_eq_iff _ _).1 (down g)))
contains-subnet_of is_v4_mapped inet6 p xs ys h k e f inside plain =
    let (up, down) = padded-Agree inet6 p xs ys h k e f inside in
    rw plain ((λ g. up ((bytes_eq_iff _ _).0 g)), (λ g. (bytes_eq_iff _ _).1 (down g)))
