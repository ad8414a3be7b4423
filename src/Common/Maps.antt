-- ===== src/Common/Maps.antt =====
-- Maps with numbers for keys (`std::unordered_map`), as lists of pairs.
use Prim.Native.Nat.{ℕ}
use mathlib.Core.List.{List, [], ◌∷◌}
use mathlib.Core.Bool.{not}
use mathlib.Core.Logic.{◌≢◌}
use mathlib.Core.Option.{Option, none, some}
use mathlib.Core.Path.{◌≡◌, refl}
use native.Mathlib.Omega.{arith}
use dnsentinal.Common.{◌==◌, if◌then◌else◌, keep_if}

module _ {ℓ} {A : Type ℓ} where
  unfoldable pub find : ℕ → List (ℕ × A) → Option A
  find key [] = none
  find key (p ∷ rest) = if p.0 == key then some p.1 else find key rest

  unfoldable pub erase : ℕ → List (ℕ × A) → List (ℕ × A)
  erase key = keep_if (λ p. not (p.0 == key))

  -- What the key stands for from now on.
  unfoldable pub put : ℕ → A → List (ℕ × A) → List (ℕ × A)
  unfolding erase
  put key a m = (key, a) ∷ erase key m

  pub find-erase : (key : ℕ) (m : List (ℕ × A)) → find key (erase key m) ≡ none
  unfolding find erase
  find-erase key [] = refl
  find-erase key (p ∷ rest) = ground (arith, find-erase key rest)

  pub find-erase_other :
      (key other : ℕ) (m : List (ℕ × A)) → other ≢ key → find key (erase other m) ≡ find key m
  unfolding find erase
  find-erase_other key other [] h = refl
  find-erase_other key other (p ∷ rest) h = ground (arith, find-erase_other key other rest h)

  pub find-put : (key : ℕ) (a : A) (m : List (ℕ × A)) → find key (put key a m) ≡ some a
  unfolding find put
  find-put key a m = ground arith

  pub find-put_other :
      (key other : ℕ) (a : A) (m : List (ℕ × A))
      → other ≢ key
      → find key (put other a m) ≡ find key m
  unfolding find put
  find-put_other key other a m h = ground (arith, find-erase_other key other m h)

  pub find-erase-none :
      (key other : ℕ) (m : List (ℕ × A)) → find key m ≡ none → find key (erase other m) ≡ none
  unfolding find erase
  find-erase-none key other [] h = refl
  find-erase-none key other (p ∷ rest) h = ground (arith, find-erase-none key other rest)
