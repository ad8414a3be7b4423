-- ===== src/Wire/Outcome.antt =====
-- What a read of a packet comes to: a value, a `ParseError` (core/include/dnsentinel/wire/parser.h),
-- or one of two faults that C++ does not catch: a read outside the buffer, and a loop that goes on.
use dnsentinal.Common.{◌≡◌, refl, Bool, true, false, if◌then◌else◌}

pub data ParseError : Type 0 where
  buffer_too_short invalid_header label_too_long name_too_long compression_loop : ParseError
  invalid_label_type section_overflow rdata_length_mismatch malformed_rdata : ParseError
  invalid_opt : ParseError

pub data Outcome {ℓ} (A : Type ℓ) : Type ℓ where
  ok : A → Outcome A
  fail : ParseError → Outcome A
  out_of_bounds : Outcome A
  out_of_fuel : Outcome A

infixl 5 ◌>>=◌
abbrev pub ◌>>=◌ {ℓ κ} : {A : Type ℓ} {B : Type κ} → Outcome A → (A → Outcome B) → Outcome B
ok a >>= f = f a
fail e >>= f = fail e
out_of_bounds >>= f = out_of_bounds
out_of_fuel >>= f = out_of_fuel

-- The read ends, stays inside the buffer, and its value has the property.
pub data Ensures {ℓ κ} {A : Type ℓ} (P : A → Type κ) : Outcome A → Type (ℓ ⊔ κ) where
  gives : {a : A} → P a → Ensures P (ok a)
  refuses : {e : ParseError} → Ensures P (fail e)

pub Ensures-bind {ℓ κ μ} :
    {A : Type ℓ} {B : Type ℓ} {P : A → Type κ} {Q : B → Type μ} {m : Outcome A} {f : A → Outcome B}
    → Ensures P m
    → ((a : A) → P a → Ensures Q (f a))
    → Ensures Q (m >>= f)
Ensures-bind (gives {a} p) k = k a p
Ensures-bind refuses k = refuses

pub Ensures-if {ℓ κ} :
    {A : Type ℓ} {P : A → Type κ} (b : Bool) {m m' : Outcome A}
    → (b ≡ true → Ensures P m)
    → (b ≡ false → Ensures P m')
    → Ensures P (if b then m else m')
Ensures-if true h k = h refl
Ensures-if false h k = k refl

pub Ensures-map {ℓ κ μ} :
    {A : Type ℓ} {P : A → Type κ} {Q : A → Type μ} {m : Outcome A}
    → Ensures P m
    → ((a : A) → P a → Q a)
    → Ensures Q m
Ensures-map (gives {a} p) k = gives (k a p)
Ensures-map refuses k = refuses
