-- ===== src/Fs/Smap/Bits.antt =====
-- The bits that a byte of the sector map gets.
use lwos.Common.{
  ℕ, zero, suc, ◌+◌, ◌-◌, ◌^◌, ◌≤◌, ◌<◌, ◌≡◌, refl, ◌∙◌, true, ◌&&◌, bit_or, ltb, leb, ltb→lt, ◌==◌,
  ==_iff, if◌then◌else◌, arith, and-true, Bool-cases, inl, inr,
}
use lwos.Common.Bits.{passes_below, passes_below-lt}
use lwos.Fault.{ok, ◌>>◌}
use lwos.Fs.Imap.{bit}
use lwos.Fs.Smap.{fill_bits}

-- Setting bit `k` of a byte.
set_table :
    passes_below
      (λ b.
        passes_below
          (λ k.
            ltb (bit_or b (2 ^ k)) 256
            && passes_below (λ m. bit (bit_or b (2 ^ k)) m == (if m == k then 1 else bit b m)) 8)
          8)
      256
    ≡ true
unfolding passes_below bit
set_table = refl

bit-set :
    (b k : ℕ)
    → b < 256
    → k < 8
    → (bit_or b (2 ^ k) < 256)
      × ((m : ℕ) → m < 8 → bit (bit_or b (2 ^ k)) m ≡ (if m == k then 1 else bit b m))
bit-set b k byte inside =
    let at_b = passes_below-lt _ 256 {v = b} set_table byte in
    let at_k = passes_below-lt _ 8 {v = k} at_b inside in
    let (small, bits) = and-true (ltb (bit_or b (2 ^ k)) 256) _ at_k in
    (ltb→lt _ 256 small, λ m h. (==_iff _ _).0 (passes_below-lt _ 8 {v = m} bits h))

-- Of the bits from `k` on, `left` are set, or all that there are.
pub record IsFilledBits (k left byte byte' left' : ℕ) : Type 0 where
  pub small : byte' < 256
  pub count : left' ≡ left - (8 - k)
  pub bits : (m : ℕ) → m < 8 → bit byte' m ≡ (if leb k m && ltb m (k + left) then 1 else bit byte m)

pub fill_bits-IsFilledBits :
    (n k byte left : ℕ)
    → k + n ≡ 8
    → byte < 256
    → 0 < left
    → ((m : ℕ) → k ≤ m → m < 8 → m < k + left → bit byte m ≡ 0)
    → (byte' : ℕ) × (left' : ℕ) × (fill_bits n k byte left ≡ ok (byte', left'))
      × IsFilledBits k left byte byte' left'
unfolding fill_bits
fill_bits-IsFilledBits zero k byte left e small some_left clear =
    (byte, left, refl, record { small = small; count = omega arith; bits = λ m h. ground arith })
fill_bits-IsFilledBits (suc n) k byte left e small some_left clear =
    let (small', set) = bit-set byte k small (omega arith) in
    let here : (bit byte k == 0) ≡ true =
      (==_iff _ _).1 (clear k (omega arith) (omega arith) (omega arith)) in
    elim (Bool-cases (left - 1 == 0)) [
      | inl last ↦
          rw (here, ◌>>◌, last)
            (
              bit_or byte (2 ^ k),
              left - 1,
              refl,
              record {
                small = small';
                count = ground arith;
                bits = λ m h. set m h ∙ ground (arith, last);
              },
            )
      | inr more ↦
          let (byte', left', run, f) =
            fill_bits-IsFilledBits n (k + 1) (bit_or byte (2 ^ k)) (left - 1) (omega arith) small'
              (ground arith)
              (λ m a b c. set m b ∙ ground (arith, clear m (omega arith) b (omega arith))) in
          rw (here, ◌>>◌, more, run)
            (
              byte',
              left',
              refl,
              record {
                small = f.small;
                count = omega (arith, f.count);
                bits = λ m h. f.bits m h ∙ ground (arith, set m h, more);
              },
            )
    ]
