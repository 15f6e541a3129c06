-- ===== src/Text.antt =====
-- The library (lib): numbers as text, formatted text, and the comparison of bytes and strings.
--
-- A string is the list of its characters without the final 0; a char is signed. Pointers to strings
-- are taken not to be null.
pub mod Digits
pub mod Compare
pub mod Format
mod Tests
use lwos.Common.{
  ℕ, zero, suc, ◌+◌, ◌-◌, ◌*◌, ◌/◌, ◌%◌, ◌^◌, Bool, true, false, not, ◌&&◌, ◌||◌, List, [], ◌∷◌,
  ◌++◌, length, replicate, bit_and, ltb, leb, ◌==◌, if◌then◌else◌,
}
use lwos.Common.Int.{ℤ, pos, negsuc, ◌-ℤ◌}
use lwos.Fault.{Result, ok, err, wild, spin, check, ◌>>=◌, ◌>>◌}

-- A byte as a char.
abbrev pub char_value : ℕ → ℤ
char_value b = if ltb b 128 then pos b else pos b -ℤ pos 256

-- The loop of `memcmp` over `n` bytes.
pub memcmp_loop : (n : ℕ) → (ℕ → ℕ) → (p1 p2 : ℕ) → ℤ
memcmp_loop zero mem p1 p2 = pos 0
memcmp_loop (suc n) mem p1 p2 =
    let rest = memcmp_loop n mem (p1 + 1) (p2 + 1) in
    if mem p1 == mem p2 then rest else char_value (mem p1) -ℤ char_value (mem p2)

pub memcmp : (ℕ → ℕ) → (s1 s2 n : ℕ) → ℤ
memcmp mem s1 s2 n = if (s1 == 0) || (s2 == 0) then pos s1 -ℤ pos s2 else memcmp_loop n mem s1 s2

pub strcmp : List ℕ → List ℕ → ℤ
strcmp [] [] = pos 0
strcmp [] (b ∷ s2) = pos 0 -ℤ char_value b
strcmp (a ∷ s1) [] = char_value a -ℤ pos 0
strcmp (a ∷ s1) (b ∷ s2) =
    let rest = strcmp s1 s2 in if a == b then rest else char_value a -ℤ char_value b

-- `strcat`, with room for the result behind the first string.
pub strcat : List ℕ → List ℕ → List ℕ
strcat [] s2 = s2
strcat (a ∷ s1) s2 = a ∷ strcat s1 s2

-- The character of a digit in `i2a`. In C the remainder of a negative number is not positive.
pub digit_char : (negative : Bool) → ℕ → ℕ
digit_char negative m = if negative then 48 - m else if ltb m 10 then m + 48 else m - 10 + 65

-- `i2a`, of a number with that sign: the digits behind those that are already there. A call for each
-- digit.
pub i2a : ℕ → (negative : Bool) → (value base : ℕ) → Result (List ℕ)
i2a zero negative value base = err spin
i2a (suc fuel) negative value base =
    let more = i2a fuel negative (value / base) base in
    let last : List ℕ = digit_char negative (value % base) ∷ [] in
    if value / base == 0 then ok last else (more >>= λ digits. ok (digits ++ last))

-- The loop of `itoa` over the hexadecimal digits: `n` are left, of the 32-bit word.
pub itoa_loop : (n : ℕ) → (flag : Bool) → (number : ℕ) → List ℕ
itoa_loop zero flag number = []
itoa_loop (suc n) flag number =
    let ch : ℕ = bit_and (number / 2 ^ (4 * n)) 0xf in
    let shown : ℕ = if ltb 57 (ch + 48) then ch + 48 + 7 else ch + 48 in
    let flag' : Bool = flag || ltb 0 ch in
    let rest = itoa_loop n flag' number in if flag' then shown ∷ rest else rest

pub itoa : ℕ → List ℕ
itoa number = 48 ∷ 120 ∷ (if number == 0 then 48 ∷ [] else itoa_loop 8 false number)

-- An argument of `vsprintf`.
pub data Arg : Type 0 where
  int : ℤ → Arg
  char : ℕ → Arg
  str : List ℕ → Arg

-- Where `vsprintf` stands in the format: outside of a directive, behind a `%`, or behind the fill
-- character and some digits of the width.
pub data Phase : Type 0 where
  plain percent : Phase
  width : (cs align_nr : ℕ) → Phase

abbrev pub str_default_len : ℕ
str_default_len = 1024

-- Enough calls for a number of 32 bits.
abbrev pub word_digits : ℕ
word_digits = 32

-- A word as an int, which is how `vsprintf` reads an argument.
pub as_int : ℤ → ℤ
as_int (pos n) = if ltb n (2 ^ 31) then pos n else negsuc (2 ^ 32 - 1 - n)
as_int (negsuc n) = negsuc n

-- `*q++ = '-'` and `i2a(m, 10, &q)`; the smallest int stays negative when its sign is changed.
abbrev pub decimal : ℤ → Result (List ℕ)
decimal (pos n) = i2a word_digits false n 10
decimal (negsuc n) = i2a word_digits (n + 1 == 2 ^ 31) (n + 1) 10 >>= λ digits. ok (45 ∷ digits)

abbrev pub hexadecimal : ℤ → Result (List ℕ)
hexadecimal (pos n) = i2a word_digits false n 16
hexadecimal (negsuc n) = i2a word_digits true (n + 1) 16

-- The text in `tmp` and the arguments left, after the `switch`. An argument of another kind than the
-- directive asks for is read as something else.
pub convert : (directive : ℕ) → List Arg → Result (List ℕ × List Arg)
convert directive args =
    if directive == 99
    then take_char args
    else if directive == 120
    then take_int hexadecimal args
    else if directive == 100
    then take_int decimal args
    else if directive == 115
    then take_str args
    else ok ([], args)
  where
    take_char : List Arg → Result (List ℕ × List Arg)
    take_char (char c ∷ args) = ok (if c == 0 then [] else c ∷ [], args)
    take_char args = err wild

    take_int : (ℤ → Result (List ℕ)) → List Arg → Result (List ℕ × List Arg)
    take_int show (int v ∷ args) = show (as_int v) >>= λ text. ok (text, args)
    take_int show args = err wild

    take_str : List Arg → Result (List ℕ × List Arg)
    take_str (str s ∷ args) = check (ltb (length s) str_default_len) wild >> ok (s, args)
    take_str args = err wild

abbrev pub is_digit : ℕ → Bool
is_digit c = leb 48 c && leb c 57

abbrev pub padding : (cs align_nr : ℕ) → List ℕ → List ℕ
padding cs align_nr text = replicate (align_nr - length text) cs

-- `vsprintf`: the text before the final 0. A format that ends inside a directive is read on behind its
-- end.
pub vsprintf : Phase → List ℕ → List Arg → Result (List ℕ)
vsprintf plain [] args = ok []
vsprintf percent [] args = err wild
vsprintf (width cs n) [] args = err wild
vsprintf plain (c ∷ format) args =
    let literal = vsprintf plain format args >>= λ rest. ok (c ∷ rest) in
    let directive = vsprintf percent format args in if c == 37 then directive else literal
vsprintf percent (c ∷ format) args =
    let literal = vsprintf plain format args >>= λ rest. ok (c ∷ rest) in
    let filled = vsprintf (width 48 0) format args in
    let digit = vsprintf (width 32 (c - 48)) format args in
    let done = convert c args >>= λ (text, args').
    vsprintf plain format args' >>= λ rest. ok (text ++ rest) in
    if c == 37 then literal else if c == 48 then filled else if is_digit c then digit else done
vsprintf (width cs n) (c ∷ format) args =
    let digit = vsprintf (width cs (n * 10 + (c - 48))) format args in
    let done = convert c args >>= λ (text, args').
    vsprintf plain format args' >>= λ rest. ok (padding cs n text ++ text ++ rest) in
    if is_digit c then digit else done
