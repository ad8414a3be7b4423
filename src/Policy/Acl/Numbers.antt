-- ===== src/Policy/Acl/Numbers.antt =====
-- core/policy/acl.cpp: addresses as numbers, whose first bits are quotients.
use dnsentinal.Common.{
  ℕ, ◌+◌, ◌-◌, ◌*◌, ◌/◌, ◌^◌, ◌≤◌, ◌<◌, ◌≡◌, ap, sym, ◌∙◌, [], ◌∷◌, length, arith,
}
use native.Mathlib.Nat.{
  div-div-eq-div-mul, one-le-pow, div-eq_of_lt, mul-add-div_right, mul-le-mul_right, mul_assoc,
  div-lt_iff_lt-mul,
}
use dnsentinal.Types.{Bytes, AreBytes}
use dnsentinal.Policy.Acl.Nesting.{pow_add}

-- The number that bytes spell, the first byte the highest.
abbrev pub value : Bytes → ℕ
value [] = 0
value (b ∷ bytes) = b * 2 ^ (8 * length bytes) + value bytes

blocks-lt : (b v e : ℕ) → b < 256 → v < e → b * e + v < 256 * e
blocks-lt b v e h k = omega (arith, mul-le-mul_right e (b-le))
  where
    b-le : b ≤ 255
    b-le = omega (arith, h)

value-lt : (bytes : Bytes) → AreBytes bytes → value bytes < 2 ^ (8 * length bytes)
value-lt [] h = omega arith
value-lt (b ∷ bytes) h =
    let e : 8 * length (b ∷ bytes) ≡ 8 + 8 * length bytes = omega arith in
    rw (e, pow_add 8 (8 * length bytes))
      (blocks-lt b (value bytes) (2 ^ (8 * length bytes)) h.0 (value-lt bytes h.1))

pub pow-positive : (n : ℕ) → 0 < 2 ^ n
pow-positive n = one-le-pow n 2 (omega arith)

-- Whole blocks and less than a block more are cut into the number of the blocks.
pub cut_blocks : (b e v : ℕ) → v < e → (b * e + v) / e ≡ b
cut_blocks b e v h =
    mul-add-div_right {m = e} (omega (arith, h)) b v
    ∙ ap (λ n. b + n) (div-eq_of_lt h)
    ∙ omega arith

-- The first bits of a byte.
pub value-div_first :
    (b p : ℕ) (bytes : Bytes)
    → AreBytes bytes
    → p ≤ 8
    → value (b ∷ bytes) / 2 ^ (8 * length (b ∷ bytes) - p) ≡ b / 2 ^ (8 - p)
value-div_first b p bytes h k =
    let n = 8 * length bytes in
    let e : 8 * length (b ∷ bytes) - p ≡ n + (8 - p) = omega (arith, k) in
    rw (e, pow_add n (8 - p))
      (sym (div-div-eq-div-mul (value (b ∷ bytes)) (2 ^ n) (2 ^ (8 - p)))
        ∙ ap (λ x. x / 2 ^ (8 - p)) (cut_blocks b (2 ^ n) (value bytes) (value-lt bytes h)))

-- A first byte whole, and the first bits of the others.
pub value-div_more :
    (b q : ℕ) (bytes : Bytes)
    → q ≤ 8 * length bytes
    → value (b ∷ bytes) / 2 ^ (8 * length bytes - q)
      ≡ b * 2 ^ q + value bytes / 2 ^ (8 * length bytes - q)
value-div_more b q bytes k =
    let n = 8 * length bytes in
    let d = 2 ^ (n - q) in
    let e : n ≡ q + (n - q) = omega (arith, k) in
    let whole : 2 ^ n ≡ 2 ^ q * d = ap (λ x. 2 ^ x) e ∙ pow_add q (n - q) in
    ap (λ x. (b * x + value bytes) / d) whole
    ∙ ap (λ x. (x + value bytes) / d) (sym (mul_assoc b (2 ^ q) d))
    ∙ mul-add-div_right {m = d} (pow-positive (n - q)) (b * 2 ^ q) (value bytes)

pub value-div-lt :
    (q : ℕ) (bytes : Bytes)
    → AreBytes bytes
    → q ≤ 8 * length bytes
    → value bytes / 2 ^ (8 * length bytes - q) < 2 ^ q
value-div-lt q bytes h k =
    let n = 8 * length bytes in
    let e : q + (n - q) ≡ n = omega (arith, k) in
    let whole : 2 ^ q * 2 ^ (n - q) ≡ 2 ^ n = sym (pow_add q (n - q)) ∙ ap (λ x. 2 ^ x) e in
    (div-lt_iff_lt-mul (pow-positive (n - q))).1 (rw whole (value-lt bytes h))
