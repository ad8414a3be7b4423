-- ===== src/Policy/Acl/Nesting.antt =====
-- core/policy/acl.cpp: networks nest by their prefix.
use dnsentinal.Common.{
  true, Bool, ℕ, zero, suc, ◌+◌, ◌-◌, ◌*◌, ◌/◌, ◌^◌, ◌≤◌, ◌≡◌, refl, ap, sym, ◌∙◌, min, [], ◌∷◌,
  false, Option, none, some, arith, ◌&&◌,
}
use native.Mathlib.Nat.{
  div-div-eq-div-mul, mul-div_left, one-le-pow, pow-succ', mul_assoc, one-mul, zero-add, suc-add,
}
use dnsentinal.Types.{Bytes}
use dnsentinal.Types.Equality.{bytes_eq_iff}
use dnsentinal.Policy.Acl.{
  keep_high, mask, network, IpAddress, Subnet, SocketAddress, contains, contains_ip, ip_address,
  address_bytes, family_eq, Family, inet, inet6,
}

pub pow_add : (y d : ℕ) → 2 ^ (y + d) ≡ 2 ^ y * 2 ^ d
pow_add zero d = ap (λ n. 2 ^ n) (zero-add d) ∙ sym (one-mul (2 ^ d))
pow_add (suc y) d =
    ap (λ n. 2 ^ n) (suc-add y d)
    ∙ pow-succ' 2 (y + d)
    ∙ ap (λ n. 2 * n) (pow_add y d)
    ∙ sym (mul_assoc 2 (2 ^ y) (2 ^ d))
    ∙ ap (λ n. n * 2 ^ d) (sym (pow-succ' 2 y))

-- Whole blocks of 2^y are cut into whole blocks of 2^(y+d).
cut : (b y d : ℕ) → b / 2 ^ y * 2 ^ y / 2 ^ (y + d) ≡ b / 2 ^ (y + d)
cut b y d =
    ap (λ n. b / 2 ^ y * 2 ^ y / n) (pow_add y d)
    ∙ sym (div-div-eq-div-mul (b / 2 ^ y * 2 ^ y) (2 ^ y) (2 ^ d))
    ∙ ap (λ n. n / 2 ^ d) (mul-div_left (b / 2 ^ y) (one-le-pow y 2 (omega arith)))
    ∙ div-div-eq-div-mul b (2 ^ y) (2 ^ d)
    ∙ ap (λ n. b / n) (sym (pow_add y d))

keep_high-keep_high :
    (p q b : ℕ) → p ≤ q → keep_high (min p 8) (keep_high (min q 8) b) ≡ keep_high (min p 8) b
unfolding keep_high
keep_high-keep_high p q b h =
    let y = 8 - min q 8 in
    let d = min q 8 - min p 8 in
    let e : 8 - min p 8 ≡ y + d = omega arith in rw e (ap (λ n. n * 2 ^ (y + d)) (cut b y d))

mask-mask : (n p q : ℕ) (bytes : Bytes) → p ≤ q → mask n p (mask n q bytes) ≡ mask n p bytes
unfolding mask
mask-mask zero p q bytes h = refl
mask-mask (suc n) p q [] h = refl
mask-mask (suc n) p q (b ∷ bytes) h =
    rw (keep_high-keep_high p q b h, mask-mask n (p - 8) (q - 8) bytes (omega arith)) refl

-- The network of a network is the wider network.
pub network-network : (p q : ℕ) (ip : IpAddress) → p ≤ q → network p (network q ip) ≡ network p ip
unfolding network
network-network p q ip h =
    ap (λ bytes. record ip { bytes = bytes }) (mask-mask (address_bytes ip.family) p q ip.bytes h)

-- The subnet of the first `p` bits of a subnet's network.
abbrev pub widened : ℕ → Subnet → Subnet
widened p subnet = record subnet {
  network = mask (address_bytes subnet.family) p subnet.network;
  prefix = p;
}

and_true : {a b : Bool} → a && b ≡ true → (a ≡ true) × (b ≡ true)
and_true {a = true} {b = true} h = (refl, refl)
and_true {a = true} {b = false} h = absurd (cc)
and_true {a = false} {b} h = absurd (cc)

family_eq→≡ : (a b : Family) → family_eq a b ≡ true → a ≡ b
family_eq→≡ inet inet h = refl
family_eq→≡ inet inet6 h = absurd (cc)
family_eq→≡ inet6 inet h = absurd (cc)
family_eq→≡ inet6 inet6 h = refl

contains_ip-widened :
    (subnet : Subnet) (p : ℕ) (ip : Option IpAddress)
    → p ≤ subnet.prefix
    → contains_ip subnet ip ≡ true
    → contains_ip (widened p subnet) ip ≡ true
unfolding contains_ip
contains_ip-widened subnet p none h k = absurd (cc)
contains_ip-widened subnet p (some ip) h k =
    let both = and_true k in
    let same = (bytes_eq_iff _ _).0 both.1 in
    let kind = family_eq→≡ ip.family subnet.family both.0 in
    rw (both.0) (
      (bytes_eq_iff _ _).1 (
        sym (mask-mask (address_bytes ip.family) p subnet.prefix ip.bytes h)
        ∙ ap (λ bytes. mask (address_bytes ip.family) p bytes) same
        ∙ ap (λ family. mask (address_bytes family) p subnet.network) kind))

-- A client of a subnet is also in the subnet of the first `p` bits of its network, where `p` is at most
-- the prefix.
pub contains-widened :
    (is_v4_mapped : Bytes → Bool) (subnet : Subnet) (p : ℕ) (client : SocketAddress)
    → p ≤ subnet.prefix
    → contains is_v4_mapped subnet client ≡ true
    → contains is_v4_mapped (widened p subnet) client ≡ true
unfolding contains
contains-widened is_v4_mapped subnet p client h k =
    contains_ip-widened subnet p (ip_address is_v4_mapped client) h k
