-- ===== src/Fs/Imap/First.antt =====
-- The first byte of a sector that has a clear bit.
use lwos.Common.{
  ℕ, zero, suc, ◌+◌, ◌≤◌, ◌<◌, ◌≡◌, ◌≢◌, inl, inr, refl, ◌∙◌, sym, ap, none, some, ◌==◌, ==_iff,
  arith, Bool-cases,
}
use lwos.Fs.Imap.{find_byte}

-- Byte `j` is the first of those from `start` on that is not full.
pub record IsFound (fsbuf : ℕ → ℕ) (start j : ℕ) : Type 0 where
  pub from : start ≤ j
  pub not_full : fsbuf j ≢ 255
  pub full_before : (m : ℕ) → start ≤ m → m < j → fsbuf m ≡ 255

pub find_byte-IsFound :
    (n : ℕ) (fsbuf : ℕ → ℕ) (start i : ℕ)
    → start ≤ i
    → i < start + n
    → fsbuf i ≢ 255
    → (j : ℕ) × (find_byte n fsbuf start ≡ some j) × (j ≤ i) × IsFound fsbuf start j
unfolding find_byte
find_byte-IsFound zero fsbuf start i h k free = absurd (omega arith)
find_byte-IsFound (suc n) fsbuf start i h k free = elim (Bool-cases (fsbuf start == 255)) [
  | inl full ↦
      let other : start ≢ i = (λ e. free (ap fsbuf (sym e) ∙ (==_iff (fsbuf start) 255).0 full)) in
      let after : start + 1 ≤ i = omega arith in
      let (j, run, near, f) = find_byte-IsFound n fsbuf (start + 1) i after (omega arith) free in
      rw (full, run)
        (
          j,
          refl,
          near,
          record {
            from = omega (arith, f.from);
            not_full = f.not_full;
            full_before = λ m a b. elim (Bool-cases (m == start)) [
              | inl here ↦ ground (arith, full, here)
              | inr later ↦ f.full_before m (ground arith) b
            ];
          },
        )
  | inr free_here ↦ rw free_here (
    start,
    refl,
    h,
    record {
      from = omega arith;
      not_full = λ e. ground (arith, free_here, e);
      full_before = λ m a b. absurd (omega arith);
    },
  )
]

pub find_byte_full :
    (n : ℕ) (fsbuf : ℕ → ℕ) (start : ℕ)
    → ((m : ℕ) → start ≤ m → m < start + n → fsbuf m ≡ 255)
    → find_byte n fsbuf start ≡ none
unfolding find_byte
find_byte_full zero fsbuf start full = refl
find_byte_full (suc n) fsbuf start full =
    rw
      (
        full start (omega arith) (omega arith),
        find_byte_full n fsbuf (start + 1) (λ m a b. full m (omega arith) (omega arith)),
      )
      refl
