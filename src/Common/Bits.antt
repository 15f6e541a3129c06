-- ===== src/Common/Bits.antt =====
-- `|` of disjoint fields and `&` with a low mask as arithmetic. A shift doubles one bit at a time.
use Prim.Native.Nat.{digits, bit_and-bitwise, bit_or-bitwise}
use lwos.Common.{
  ℕ, zero, suc, ◌+◌, ◌*◌, ◌/◌, ◌%◌, ◌≤◌, ◌<◌, min, max, bit_and, bit_or, ◌≡◌, refl, ap, ◌∙◌, arith,
  Bool, true, ◌&&◌, ◌==◌, ==_iff,
}

-- `q << k`.
abbrev pub shl : ℕ → ℕ → ℕ
shl q zero = q
shl q (suc k) = 2 * shl q k

-- `k` ones.
abbrev pub ones : ℕ → ℕ
ones zero = 0
ones (suc k) = 2 * ones k + 1

-- Once the fuel covers the first number, more of it changes nothing.
module _ (z : ℕ → ℕ) (f : ℕ → ℕ → ℕ) where
  more_fuel : (n a b : ℕ) (m : ℕ) → a ≤ n → a ≤ m → digits z f n a b ≡ digits z f m a b
  more_fuel n zero b m p q = base n m
    where
      base : (i j : ℕ) → digits z f i 0 b ≡ digits z f j 0 b
      base zero zero = refl
      base zero (suc j) = refl
      base (suc i) zero = refl
      base (suc i) (suc j) = refl
  more_fuel zero (suc a) b m p q = absurd (omega arith)
  more_fuel (suc n) (suc a) b zero p q = absurd (omega arith)
  more_fuel (suc n) (suc a) b (suc m) p q =
      let halved = more_fuel n (suc a / 2) (b / 2) m (omega arith) (omega arith) in rw halved

pub bit_or_step : (a b : ℕ) → bit_or a b ≡ 2 * bit_or (a / 2) (b / 2) + max (a % 2) (b % 2)
bit_or_step zero b = omega (arith, bit_or-bitwise 0 b, bit_or-bitwise 0 (b / 2))
bit_or_step (suc a) b = omega (
  arith,
  bit_or-bitwise (suc a) b,
  bit_or-bitwise (suc a / 2) (b / 2),
  more_fuel (λ c. c) max a (suc a / 2) (b / 2) (suc a / 2) (omega arith) (omega arith),
)

pub bit_and_step : (a b : ℕ) → bit_and a b ≡ 2 * bit_and (a / 2) (b / 2) + min (a % 2) (b % 2)
bit_and_step zero b = omega (arith, bit_and-bitwise 0 b, bit_and-bitwise 0 (b / 2))
bit_and_step (suc a) b = omega (
  arith,
  bit_and-bitwise (suc a) b,
  bit_and-bitwise (suc a / 2) (b / 2),
  more_fuel (λ c. 0) min a (suc a / 2) (b / 2) (suc a / 2) (omega arith) (omega arith),
)

below_or_zero : (n a : ℕ) → a ≤ n → bit_or a 0 ≡ a
below_or_zero n zero h = bit_or-bitwise 0 0
below_or_zero zero (suc a) h = absurd (omega arith)
below_or_zero (suc n) (suc a) h =
    omega (arith, bit_or_step (suc a) 0, below_or_zero n (suc a / 2) (omega arith))

below_and_zero : (n a : ℕ) → a ≤ n → bit_and a 0 ≡ 0
below_and_zero n zero h = bit_and-bitwise 0 0
below_and_zero zero (suc a) h = absurd (omega arith)
below_and_zero (suc n) (suc a) h =
    omega (arith, bit_and_step (suc a) 0, below_and_zero n (suc a / 2) (omega arith))

-- `(q << k) | r` is a sum when `r` has at most `k` bits.
pub bit_or-shl : (k q r : ℕ) → r ≤ ones k → bit_or (shl q k) r ≡ shl q k + r
bit_or-shl zero q zero h = omega (arith, below_or_zero q q (omega arith))
bit_or-shl zero q (suc r) h = absurd (omega arith)
bit_or-shl (suc k) q r h =
    ground (arith, bit_or_step (2 * shl q k) r, bit_or-shl k q (r / 2) (omega arith))

-- `|` with a number above them leaves the low bits alone.
pub bit_or_above :
    (k p r c : ℕ) → r ≤ ones k → bit_or (shl p k + r) (shl c k) ≡ shl (bit_or p c) k + r
bit_or_above zero p zero c h = ap (λ n. bit_or n c) {x = p + 0} {y = p} (omega arith) ∙ omega arith
bit_or_above zero p (suc r) c h = absurd (omega arith)
bit_or_above (suc k) p r c h =
    let half : (2 * shl p k + r) / 2 ≡ shl p k + r / 2 = omega arith in
    let half' : (2 * shl c k) / 2 ≡ shl c k = omega arith in
    bit_or_step (2 * shl p k + r) (2 * shl c k)
    ∙ rw (half, half', bit_or_above k p (r / 2) c (omega arith)) (omega arith)

pub or_0 : (x : ℕ) → bit_or x 0 ≡ x
or_0 x = below_or_zero x x (omega arith)

pub or_above_0x1ff : (x c : ℕ) → bit_or x (shl c 9) % 512 ≡ x % 512
or_above_0x1ff x c =
    let split : x ≡ shl (x / 512) 9 + x % 512 = omega arith in
    ap (λ n. bit_or n (shl c 9) % 512) split
    ∙ (ap (λ n. n % 512) (bit_or_above 9 (x / 512) (x % 512) c (omega arith)) ∙ omega arith)

-- `&` with `k` ones keeps the low bits.
pub bit_and-ones : (k q r : ℕ) → r ≤ ones k → bit_and (shl q k + r) (ones k) ≡ r
bit_and-ones zero q zero h = omega (arith, below_and_zero (q + 0) (q + 0) (omega arith))
bit_and-ones zero q (suc r) h = absurd (omega arith)
bit_and-ones (suc k) q r h =
    ground (
      arith,
      bit_and_step (2 * shl q k + r) (2 * ones k + 1),
      bit_and-ones k q (r / 2) (omega arith),
    )

-- `x` without its low `k` bits.
abbrev shr : ℕ → ℕ → ℕ
shr x zero = x
shr x (suc k) = shr (x / 2) k

bit_and-shl : (k x y : ℕ) → bit_and x (shl y k) ≡ shl (bit_and (shr x k) y) k
bit_and-shl zero x y = refl
bit_and-shl (suc k) x y =
    let half : (2 * shl y k) / 2 ≡ shl y k = omega arith in
    bit_and_step x (2 * shl y k) ∙ rw (half, bit_and-shl k (x / 2) y) (omega arith)

pub and_0x100 : (x : ℕ) → bit_and x 0x100 ≡ x / 256 % 2 * 256
and_0x100 x =
    bit_and-shl 8 x 1
    ∙ omega (
      arith,
      bit_and-ones 1 (shr x 8 / 2) (shr x 8 % 2),
      ap (λ n. bit_and n 1) {x = shr x 8} {y = 2 * (shr x 8 / 2) + shr x 8 % 2} (omega arith),
    )

-- The test passes at every number below the bound.
unfoldable pub passes_below : (ℕ → Bool) → ℕ → Bool
passes_below test zero = true
passes_below test (suc top) = passes_below test top && test top

pub passes_below-lt :
    (test : ℕ → Bool) (top : ℕ) {v : ℕ} → passes_below test top ≡ true → v < top → test v ≡ true
unfolding passes_below
passes_below-lt test zero run h = absurd (omega arith)
passes_below-lt test (suc top) {v} run h = ground (arith, passes_below-lt test top {v = v})

-- The masks that the kernel uses.
pub and_0x7f : (x : ℕ) → bit_and x 0x7f ≡ x % 128
and_0x7f x = ground (arith, bit_and-ones 7 (x / 128) (x % 128))

pub and_0xf : (x : ℕ) → bit_and x 0xf ≡ x % 16
and_0xf x = ground (arith, bit_and-ones 4 (x / 16) (x % 16))

pub and_0xff : (x : ℕ) → bit_and x 0xff ≡ x % 256
and_0xff x = ground (arith, bit_and-ones 8 (x / 256) (x % 256))

pub and_0x1ff : (x : ℕ) → bit_and x 0x1ff ≡ x % 512
and_0x1ff x = ground (arith, bit_and-ones 9 (x / 512) (x % 512))

pub and_0xffff : (x : ℕ) → bit_and x 0xffff ≡ x % 0x10000
and_0xffff x = ground (arith, bit_and-ones 16 (x / 0x10000) (x % 0x10000))

high_nibble_table : passes_below (λ y. bit_and y 0xf0 == y / 16 * 16) 256 ≡ true
unfolding passes_below
high_nibble_table = refl

pub and_0xf0 : (y : ℕ) → y < 256 → bit_and y 0xf0 ≡ y / 16 * 16
and_0xf0 y h = (==_iff _ _).0 (passes_below-lt _ 256 high_nibble_table h)
