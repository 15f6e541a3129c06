-- ===== src/Fs/Imap/Byte.antt =====
-- The lowest clear bit of a byte, and the byte with that bit set.
use lwos.Common.{
  ℕ, ◌<◌, ◌^◌, ◌≡◌, refl, Bool, true, false, ◌&&◌, bit_or, ltb, ltb→lt, ◌==◌, ==_iff, if◌then◌else◌,
  arith, and-true,
}
use lwos.Common.Bits.{passes_below, passes_below-lt}
use lwos.Fault.{Result, ok, err}
use lwos.Fs.Imap.{bit, lowest_clear}

-- Bit `k` is the lowest clear bit of `b`, and setting it leaves a byte with the others as they were.
test_lowest : ℕ → Result ℕ → Bool
test_lowest b (err fault) = false
test_lowest b (ok k) =
    ltb k 8
    && ((bit b k == 0)
        && (ltb (bit_or b (2 ^ k)) 256
            && (passes_below (λ m. bit (bit_or b (2 ^ k)) m == (if m == k then 1 else bit b m)) 8
                && passes_below (λ m. if ltb m k then bit b m == 1 else true) 8)))

table : passes_below (λ b. test_lowest b (lowest_clear 8 b 0)) 255 ≡ true
unfolding passes_below bit lowest_clear test_lowest
table = refl

pub record IsLowest (b k : ℕ) : Type 0 where
  pub in_byte : k < 8
  pub clear : bit b k ≡ 0
  pub stays : bit_or b (2 ^ k) < 256
  pub marked : (m : ℕ) → m < 8 → bit (bit_or b (2 ^ k)) m ≡ (if m == k then 1 else bit b m)
  pub below : (m : ℕ) → m < k → bit b m ≡ 1

test_lowest-IsLowest :
    (b : ℕ) (run : Result ℕ) → test_lowest b run ≡ true → (k : ℕ) × (run ≡ ok k) × IsLowest b k
unfolding test_lowest
test_lowest-IsLowest b (err fault) h = cc
test_lowest-IsLowest b (ok k) h =
    let (in_byte, h1) = and-true (ltb k 8) _ h in
    let (clear, h2) = and-true (bit b k == 0) _ h1 in
    let (stays, h3) = and-true (ltb (bit_or b (2 ^ k)) 256) _ h2 in
    let (marked, below) =
      and-true (passes_below (λ m. bit (bit_or b (2 ^ k)) m == (if m == k then 1 else bit b m)) 8) _
        h3 in
    (
      k,
      refl,
      record {
        in_byte = ltb→lt k 8 in_byte;
        clear = (==_iff _ _).0 clear;
        stays = ltb→lt _ 256 stays;
        marked = λ m small. (==_iff _ _).0 (passes_below-lt _ 8 marked small);
        below = λ m small.
            let passed =
              passes_below-lt (λ i. if ltb i k then bit b i == 1 else true) 8 {v = m} below
                (omega (arith, ltb→lt k 8 in_byte)) in
            ground arith;
      },
    )

pub lowest_clear-IsLowest : (b : ℕ) → b < 255 → (k : ℕ) × (lowest_clear 8 b 0 ≡ ok k) × IsLowest b k
lowest_clear-IsLowest b h = test_lowest-IsLowest b _ (passes_below-lt _ 255 table h)
