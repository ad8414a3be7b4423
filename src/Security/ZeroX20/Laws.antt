-- ===== src/Security/ZeroX20/Laws.antt =====
-- core/security/zero_x20.cpp: the randomised name is the same name, and each letter has its own bit.
use dnsentinal.Common.{
  suc, ℕ, ◌+◌, ◌*◌, ◌≡◌, refl, ap, ◌∙◌, List, [], ◌∷◌, map, arith, ◌-◌, ◌/◌, ◌%◌, ◌^◌, ◌<◌, ◌≤◌,
  ◌==◌, ==_iff, ◌&&◌, ◌⊎◌, inl, inr, Bool-cases, if◌then◌else◌,
}
use native.Mathlib.Nat.{div-div-eq-div-mul, pow-succ'}
use dnsentinal.Types.{Bytes, Name}
use dnsentinal.Name.{ascii_lower, lower}
use dnsentinal.Security.ZeroX20.{
  Bits, refill, is_letter, flip_char, flip_label, flip_labels, no_bits, randomize_case, letters,
  labels_letters, case_entropy_bits,
}

module _ (random : ℕ → ℕ) where
  lower-flip_char :
      (c : ℕ) (s : Bits) → ascii_lower c ≡ c → ascii_lower (flip_char random c s).0 ≡ c
  unfolding flip_char ascii_lower
  lower-flip_char c s h = ground arith

  lower-flip_label : (l : Bytes) (s : Bits) → lower l ≡ l → lower (flip_label random l s).0 ≡ l
  unfolding flip_label lower
  lower-flip_label [] s h = refl
  lower-flip_label (c ∷ cs) s h =
      ground (arith, lower-flip_char c s, lower-flip_label cs (flip_char random c s).1)

  lower-flip_labels :
      (ls : List Bytes) (s : Bits) → map lower ls ≡ ls → map lower (flip_labels random ls s).0 ≡ ls
  unfolding flip_labels
  lower-flip_labels [] s h = refl
  lower-flip_labels (l ∷ ls) s h =
      ground (arith, lower-flip_label l s, lower-flip_labels ls (flip_label random l s).1)

  -- The k-th random bit: bit k % 32 of word k / 32.
  abbrev pub random_bit : ℕ → ℕ
  random_bit k = random (k / 32) / 2 ^ (k % 32) % 2

  -- A label in which the letters from the k-th on have the case of the bits from the k-th on.
  abbrev spelled_char : ℕ → ℕ → ℕ
  spelled_char k c = if is_letter c && random_bit k == 1 then c + b'A' - b'a' else c

  unfoldable pub spelled : ℕ → Bytes → Bytes
  spelled k [] = []
  spelled k (c ∷ cs) = spelled_char k c ∷ spelled (k + letters (c ∷ [])) cs

  unfoldable pub spelled_labels : ℕ → List Bytes → List Bytes
  unfolding spelled
  spelled_labels k [] = []
  spelled_labels k (l ∷ ls) = spelled k l ∷ spelled_labels (k + letters l) ls

  -- After k letters: the bits drawn so far are those used and those left, which are next.
  record At (k : ℕ) (s : Bits) : Type 0 where
    few : s.left < 32
    balance : s.drawn * 32 ≡ k + s.left
    next : s.left ≡ 0 ⊎ (s.bits ≡ random (k / 32) / 2 ^ (k % 32))

  refill-At :
      (k : ℕ) (s : Bits)
      → At k s
      → ((refill random s).bits ≡ random (k / 32) / 2 ^ (k % 32))
        × ((refill random s).drawn * 32 ≡ k + (refill random s).left)
        × (0 < (refill random s).left)
        × ((refill random s).left ≤ 32)
  unfolding refill
  refill-At k s a = elim (Bool-cases (s.left == 0)) [
    | inl e ↦
        let none_left = (==_iff s.left 0).0 e in
        let word : s.drawn ≡ k / 32 = omega (arith, a.balance, none_left) in
        let fresh : k % 32 ≡ 0 = omega (arith, a.balance, none_left) in
        rw (e, refill)
          (
            rw (word, fresh) (omega arith),
            omega (arith, a.balance, none_left),
            omega arith,
            omega arith,
          )
    | inr e ↦
        let some_left : 0 < s.left = ground (arith, e) in
        rw (e, refill)
          (
            elim a.next [
              | inl none_left ↦ absurd (omega (arith, none_left, some_left))
              | inr same ↦ same
            ],
            a.balance,
            some_left,
            omega (arith, a.few),
          )
  ]

  halve : (x j : ℕ) → x / 2 ^ j / 2 ≡ x / 2 ^ (j + 1)
  halve x j =
      let e : j + 1 ≡ suc j = omega arith in
      rw e (div-div-eq-div-mul x (2 ^ j) 2 ∙ ap (λ n. x / n) (omega (arith, pow-succ' 2 j)))

  -- One bit of those at hand is used.
  used-At :
      (k : ℕ) (t : Bits)
      → t.bits ≡ random (k / 32) / 2 ^ (k % 32)
      → t.drawn * 32 ≡ k + t.left
      → 0 < t.left
      → t.left ≤ 32
      → At (k + 1) (record t { bits = t.bits / 2; left = t.left - 1 })
  used-At k t same balance some_left few = record {
    few = omega (arith, few, some_left);
    balance = omega (arith, balance, some_left);
    next = elim (Bool-cases (t.left == 1)) [
      | inl e ↦ inl (ground (arith, e))
      | inr e ↦
          let more : 1 < t.left = ground (arith, e, some_left) in
          let word : (k + 1) / 32 ≡ k / 32 = omega (arith, balance, more, few) in
          let bit : (k + 1) % 32 ≡ k % 32 + 1 = omega (arith, balance, more, few) in
          inr (rw (word, bit) (ap (λ n. n / 2) same ∙ halve (random (k / 32)) (k % 32)))
    ];
  }

  flip_char-At :
      (k c : ℕ) (s : Bits)
      → At k s
      → ((flip_char random c s).0 ≡ spelled_char k c)
        × At (k + letters (c ∷ [])) (flip_char random c s).1
  unfolding flip_char letters
  flip_char-At k c s a = elim (Bool-cases (is_letter c)) [
    | inl e ↦
        let (same, balance, some_left, few) = refill-At k s a in
        rw (e, flip_char, letters)
          (rw same refl, used-At k (refill random s) same balance some_left few)
    | inr e ↦ let same : k + 0 ≡ k = omega arith in rw (e, flip_char, letters, same) (refl, a)
  ]

  flip_label-At :
      (k : ℕ) (l : Bytes) (s : Bits)
      → At k s
      → ((flip_label random l s).0 ≡ spelled k l) × At (k + letters l) (flip_label random l s).1
  unfolding flip_label spelled letters
  flip_label-At k [] s a = (refl, (let same : k + 0 ≡ k = omega arith in rw same a))
  flip_label-At k (c ∷ cs) s a =
      let (char, next) = flip_char-At k c s a in
      let (rest, last) = flip_label-At (k + letters (c ∷ [])) cs (flip_char random c s).1 next in
      let sum : k + letters (c ∷ cs) ≡ k + letters (c ∷ []) + letters cs = omega arith in
      (rw (char, rest) refl, rw sum last)

  flip_labels-At :
      (k : ℕ) (ls : List Bytes) (s : Bits)
      → At k s
      → ((flip_labels random ls s).0 ≡ spelled_labels k ls)
        × At (k + labels_letters ls) (flip_labels random ls s).1
  unfolding flip_labels spelled_labels labels_letters
  flip_labels-At k [] s a = (refl, (let same : k + 0 ≡ k = omega arith in rw same a))
  flip_labels-At k (l ∷ ls) s a =
      let (label, next) = flip_label-At k l s a in
      let (rest, last) = flip_labels-At (k + letters l) ls (flip_label random l s).1 next in
      let sum : k + labels_letters (l ∷ ls) ≡ k + letters l + labels_letters ls = omega arith in
      (rw (label, rest) refl, rw sum last)

  -- Randomising the case of a name in lower case gives the same canonical labels, and an original
  -- case that folds back to them. In it the k-th letter of the name, counted from 0, is a capital just
  -- if bit k % 32 of the (k / 32)-th random word is set, and every other character is as it was. The
  -- words drawn have as many bits as there are letters, as `case_entropy_bits` counts them, and less
  -- than a word more.
  pub randomize_case_lem :
      (n : Name)
      → map lower n.labels ≡ n.labels
      → ((randomize_case random n).labels ≡ n.labels)
        × (map lower (randomize_case random n).original_case ≡ n.labels)
        × ((randomize_case random n).original_case ≡ spelled_labels 0 n.labels)
        × ((flip_labels random n.labels no_bits).1.left < 32)
        × ((flip_labels random n.labels no_bits).1.drawn * 32
            ≡ case_entropy_bits n + (flip_labels random n.labels no_bits).1.left)
  unfolding randomize_case case_entropy_bits
  randomize_case_lem n h =
      let start : At 0 no_bits = record {
        few = omega arith;
        balance = omega arith;
        next = inl refl;
      } in
      let (same, at) = flip_labels-At 0 n.labels no_bits start in
      (refl, lower-flip_labels n.labels no_bits h, same, at.few, omega (arith, at.balance))
