-- ===== src/Text/Digits.antt =====
-- The digits of a number are read back as the number.
use lwos.Common.{
  ℕ, zero, suc, ◌+◌, ◌-◌, ◌*◌, ◌/◌, ◌%◌, ◌^◌, ◌<◌, ◌≡◌, refl, ◌∙◌, ap, true, false, List, [], ◌∷◌,
  ◌++◌, leb, ◌==◌, if◌then◌else◌, arith, Bool-cases, inl, inr,
}
use lwos.Common.Bits.{shl}
use lwos.Fault.{ok, ◌>>=◌}
use lwos.Text.{digit_char, i2a, word_digits}

-- The value of a digit, and of digits behind a number.
abbrev pub digit_value : ℕ → ℕ
digit_value c = if leb 65 c then c - 55 else c - 48

abbrev pub number_from : (base acc : ℕ) → List ℕ → ℕ
number_from base acc [] = acc
number_from base acc (c ∷ digits) = number_from base (acc * base + digit_value c) digits

number_from-snoc :
    (base acc : ℕ) (digits : List ℕ) (c : ℕ)
    → number_from base acc (digits ++ (c ∷ [])) ≡ number_from base acc digits * base + digit_value c
number_from-snoc base acc [] c = refl
number_from-snoc base acc (d ∷ digits) c =
    number_from-snoc base (acc * base + digit_value d) digits c

digit_value-digit_char : (m : ℕ) → m < 16 → digit_value (digit_char false m) ≡ m
unfolding digit_char
digit_value-digit_char m h = ground arith

-- What is used of the base.
record IsBase (base : ℕ) : Type 0 where
  split : (v : ℕ) → v / base * base + v % base ≡ v
  small : (v : ℕ) → v % base < 16
  below : (v m : ℕ) → v < 2 * m → v / base < m

ten-IsBase : IsBase 10
ten-IsBase = record {
  split = λ v. omega arith;
  small = λ v. omega arith;
  below = λ v m h. omega arith;
}

sixteen-IsBase : IsBase 16
sixteen-IsBase = record {
  split = λ v. omega arith;
  small = λ v. omega arith;
  below = λ v m h. omega arith;
}

i2a-single :
    (fuel value base : ℕ)
    → value / base ≡ 0
    → i2a (suc fuel) false value base ≡ ok (digit_char false (value % base) ∷ [])
unfolding i2a
i2a-single fuel value base quotient =
    let single : (value / base == 0) ≡ true = ground arith in rw single refl

i2a-longer :
    (fuel value base : ℕ) (digits : List ℕ)
    → (value / base == 0) ≡ false
    → i2a fuel false (value / base) base ≡ ok digits
    → i2a (suc fuel) false value base ≡ ok (digits ++ (digit_char false (value % base) ∷ []))
unfolding i2a
i2a-longer fuel value base digits longer run = rw (longer, run, ◌>>=◌) refl

single_digit :
    (base value : ℕ)
    → IsBase base
    → value / base ≡ 0
    → number_from base 0 (digit_char false (value % base) ∷ []) ≡ value
single_digit base value b quotient =
    let whole : 0 * base + value % base ≡ value =
      ap (λ q. q * base + value % base) {x = 0} {y = value / base} (omega arith) ∙ b.split value in
    ap (λ d. 0 * base + d) (digit_value-digit_char (value % base) (b.small value)) ∙ whole

i2a-number :
    (base : ℕ)
    → IsBase base
    → (fuel value : ℕ) → value < shl 1 (suc fuel)
    → (digits : List ℕ) × (i2a (suc fuel) false value base ≡ ok digits)
      × (number_from base 0 digits ≡ value)
i2a-number base b zero value h =
    let quotient : value / base ≡ 0 = omega (arith, b.below value 1 h) in
    (
      digit_char false (value % base) ∷ [],
      i2a-single zero value base quotient,
      single_digit base value b quotient,
    )
i2a-number base b (suc fuel) value h = elim (Bool-cases (value / base == 0)) [
  | inl single ↦
      let quotient : value / base ≡ 0 = ground arith in
      (
        digit_char false (value % base) ∷ [],
        i2a-single (suc fuel) value base quotient,
        single_digit base value b quotient,
      )
  | inr longer ↦
      let (digits, run, number) =
        i2a-number base b fuel (value / base) (b.below value (shl 1 (suc fuel)) h) in
      (
        digits ++ (digit_char false (value % base) ∷ []),
        i2a-longer (suc fuel) value base digits longer run,
        number_from-snoc base 0 digits (digit_char false (value % base))
            ∙ (ap (λ n. n * base + digit_value (digit_char false (value % base))) number
                ∙ (ap (λ d. value / base * base + d)
                      (digit_value-digit_char (value % base) (b.small value))
                    ∙ b.split value)),
      )
]

-- For a number of 32 bits i2a comes to its end, in base 10 as in base 16, and its digits are those of
-- the number: read in the base, they give it back.
pub i2a_reads_back :
    (value : ℕ)
    → value < 2 ^ 32
    → ((digits : List ℕ) × (i2a word_digits false value 10 ≡ ok digits)
        × (number_from 10 0 digits ≡ value))
      × ((digits : List ℕ) × (i2a word_digits false value 16 ≡ ok digits)
          × (number_from 16 0 digits ≡ value))
i2a_reads_back value h =
    (i2a-number 10 ten-IsBase 31 value h, i2a-number 16 sixteen-IsBase 31 value h)
