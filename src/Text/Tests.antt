-- ===== src/Text/Tests.antt =====
-- Numbers as text, and two names.
use lwos.Common.{ℕ, ◌-◌, ◌≡◌, ◌<◌, refl, [], ◌∷◌, arith, ltb, if◌then◌else◌}
use lwos.Common.Int.{pos, negsuc, ◌-ℤ◌}
use lwos.Fault.{ok}
use lwos.Text.{as_int, int, plain, vsprintf, i2a, itoa, itoa_loop, digit_char, convert, strcmp}

-- 0x1af
itoa_run : itoa 431 ≡ 48 ∷ 120 ∷ 49 ∷ 65 ∷ 70 ∷ []
unfolding itoa itoa_loop
itoa_run = refl

-- With `%x` the digits of -17 are `/` and `/`.
negative_hexadecimal : vsprintf plain (37 ∷ 120 ∷ []) (int (negsuc 16) ∷ []) ≡ ok (47 ∷ 47 ∷ [])
unfolding vsprintf convert i2a digit_char as_int
negative_hexadecimal = refl

-- With `%d` a word of 2^31 and more is a negative number.
high_word : vsprintf plain (37 ∷ 100 ∷ []) (int (pos 4294967295) ∷ []) ≡ ok (45 ∷ 49 ∷ [])
unfolding vsprintf convert i2a digit_char as_int
high_word = refl

-- The same two bytes at 10 and at 20.
abbrev memory : ℕ → ℕ
memory at = if ltb at 15 then at else if ltb at 22 then at - 10 else 99

memory-small : (at : ℕ) → memory at < 256
memory-small at = ground arith

-- The first of two strings is the start of the second.
strcmp_run : strcmp (97 ∷ []) (97 ∷ 200 ∷ []) ≡ pos 56
unfolding strcmp ◌-ℤ◌
strcmp_run = refl
