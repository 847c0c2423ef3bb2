-- ===== src/Billing/Provider/Cents.antt =====
-- centsValue.MarshalJSON of backend/internal/billing/asaas.go: an amount of cents as a decimal number.
-- The bytes are a list of numbers.
use fluenthub.Prelude.{
  ℕ, zero, suc, ◌+◌, ◌-◌, ◌*◌, ◌/◌, ◌%◌, ◌≤◌, ◌<◌, ap, Bool-cases, inl, inr, ◌≡◌, refl, ◌∙◌, List,
  [], ◌∷◌, ◌++◌, if◌then◌else◌, arith, ltb, length, All,
}
use fluenthub.Prelude.Int.{ℤ, pos, negsuc}
use fluenthub.Prelude.Action.{Result, ok, err, reason}

-- fmt's %d of a number, before the digits that are already written.
unfoldable pub decimal_before : ℕ → ℕ → List ℕ → List ℕ
decimal_before zero n digits = digits
decimal_before (suc fuel) n digits =
    let longer = decimal_before fuel (n / 10) ((b'0' + n % 10) ∷ digits) in
    if ltb n 10 then (b'0' + n) ∷ digits else longer

-- Every round divides by ten, so `suc n` rounds are enough.
unfoldable pub decimal : ℕ → List ℕ
unfolding decimal_before
decimal n = decimal_before (suc n) n []

-- %02d of a number below 100
abbrev pub two_digits : ℕ → List ℕ
two_digits n = (b'0' + n / 10 % 10) ∷ (b'0' + n % 10) ∷ []

unfoldable pub marshal_cents : ℤ → Result (List ℕ)
unfolding decimal
marshal_cents (negsuc n) = err (reason "negative monetary value")
marshal_cents (pos n) = ok (decimal (n / 100) ++ b'.' ∷ two_digits (n % 100))

-- The number that a text of digits stands for, after a number read before it.
abbrev pub read_after : ℕ → List ℕ → ℕ
read_after acc [] = acc
read_after acc (c ∷ text) = read_after (acc * 10 + (c - b'0')) text

abbrev pub IsDigit : ℕ → Type 0
IsDigit c = (b'0' ≤ c) × (c ≤ b'9')

decimal_before-digits :
    (fuel n : ℕ) (digits : List ℕ)
    → n < fuel
    → All IsDigit digits
    → All IsDigit (decimal_before fuel n digits)
unfolding decimal_before
decimal_before-digits zero n digits h d = d
decimal_before-digits (suc fuel) n digits h d =
    ground (arith, decimal_before-digits fuel (n / 10) ((b'0' + n % 10) ∷ digits))

read_after-decimal_before :
    (fuel n : ℕ) (digits : List ℕ)
    → n < fuel
    → read_after 0 (decimal_before fuel n digits) ≡ read_after n digits
unfolding decimal_before
read_after-decimal_before zero n digits h = absurd (omega arith)
read_after-decimal_before (suc fuel) n digits h = elim (Bool-cases (ltb n 10)) [
  | inl small ↦ rw small (ap (λ a. read_after a digits) (last_digit n))
  | inr large ↦ rw large (
      read_after-decimal_before fuel (n / 10) ((b'0' + n % 10) ∷ digits) (ground arith)
      ∙ ap (λ a. read_after a digits) (next_digit n))
]
  where
    last_digit : (n : ℕ) → 0 * 10 + (b'0' + n - b'0') ≡ n
    last_digit n = omega arith

    next_digit : (n : ℕ) → n / 10 * 10 + (b'0' + n % 10 - b'0') ≡ n
    next_digit n = omega arith

decimal-digits : (n : ℕ) → All IsDigit (decimal n)
unfolding decimal
decimal-digits n = decimal_before-digits (suc n) n [] (omega arith) tt

read_after-decimal : (n : ℕ) → read_after 0 (decimal n) ≡ n
unfolding decimal
read_after-decimal n = read_after-decimal_before (suc n) n [] (omega arith)

two_digits-digits : (n : ℕ) → All IsDigit (two_digits n)
two_digits-digits n = omega arith

read_after-two_digits : (n : ℕ) → n < 100 → read_after 0 (two_digits n) ≡ n
read_after-two_digits n h = omega arith

marshal_cents_lem :
    (n : ℕ) → marshal_cents (pos n) ≡ ok (decimal (n / 100) ++ b'.' ∷ two_digits (n % 100))
unfolding marshal_cents
marshal_cents_lem n = refl

-- The text of an amount is a run of digits, a point and two digits; the digits before the point are the
-- amount in whole units, those after it the cents, so no cent is lost or gained.
pub marshal_cents_exact :
    (n : ℕ)
    → (whole : List ℕ) × (cents : List ℕ) × (marshal_cents (pos n) ≡ ok (whole ++ b'.' ∷ cents))
      × All IsDigit whole
      × All IsDigit cents
      × (length cents ≡ 2)
      × (read_after 0 whole * 100 + read_after 0 cents ≡ n)
marshal_cents_exact n = (
  decimal (n / 100),
  two_digits (n % 100),
  marshal_cents_lem n,
  decimal-digits (n / 100),
  two_digits-digits (n % 100),
  refl,
  omega (arith, read_after-decimal (n / 100), read_after-two_digits (n % 100)),
)

marshal_test : marshal_cents (pos 12305) ≡ ok (b'1' ∷ b'2' ∷ b'3' ∷ b'.' ∷ b'0' ∷ b'5' ∷ [])
unfolding marshal_cents
marshal_test = refl
