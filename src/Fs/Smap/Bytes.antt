-- ===== src/Fs/Smap/Bytes.antt =====
-- The run of bits that `alloc_smap_bit` sets, byte by byte.
use lwos.Common.{
  ℕ, ◌+◌, ◌-◌, ◌*◌, ◌≤◌, ◌<◌, ◌≡◌, ◌≢◌, ◌⊎◌, refl, ◌∙◌, sym, ap, true, false, ◌&&◌, ltb, leb, ◌==◌,
  if◌then◌else◌, arith, Bool-cases, inl, inr,
}
use lwos.Fault.{Result, ok, ◌>>=◌}
use lwos.Proc.{update}
use lwos.Fs.{SuperBlock, sector_size}
use lwos.Fs.Imap.{bit, lowest_clear}
use lwos.Fs.Imap.Alloc.{bit_255}
use lwos.Fs.Imap.Byte.{IsLowest, lowest_clear-IsLowest}
use lwos.Fs.Smap.{Run, mark_byte, smap_byte}
use lwos.Fs.Smap.Bits.{fill_bits-IsFilledBits}

-- The run has `total` bits, from bit `first` of the map on, and these are the bits afterwards.
abbrev pub with_run : (first total : ℕ) → (old : ℕ → ℕ) → ℕ → ℕ
with_run first total old b = if leb first b && ltb b (first + total) then 1 else old b

-- What is left to set before bit `p`, and the result as it is known there.
abbrev pub left_at : (first total p : ℕ) → ℕ
left_at first total p = if leb p first then total else first + total - p

abbrev pub sect_at : (sect first p : ℕ) → ℕ
sect_at sect first p = if leb p first then 0 else sect

-- The first clear bit of the map is `first`, and `total` bits from there on are clear.
pub record IsFree (first total : ℕ) (old : ℕ → ℕ) : Type 0 where
  pub lower : (b : ℕ) → b < first → old b ≡ 1
  pub clear : (b : ℕ) → first ≤ b → b < first + total → old b ≡ 0

-- The byte at bit `p` of the map holds the bits of a map.
abbrev pub Holds : (fsbuf : ℕ → ℕ) → (j p : ℕ) → (old : ℕ → ℕ) → Type 0
Holds fsbuf j p old = (m : ℕ) → m < 8 → bit (fsbuf j) m ≡ old (p + m)

mark_byte-Holds :
    (first total sect j k p left : ℕ) (old fsbuf : ℕ → ℕ) (free : ℕ)
    → k < 8
    → fsbuf j < 256
    → 0 < left
    → IsFree first total old
    → Holds fsbuf j p old
    → first ≤ p + k
    → (p + k ≡ first) ⊎ (k ≡ 0)
    → p + k + left ≡ first + total
    → (fsbuf' : ℕ → ℕ) × (mark_byte j k sect
          (record { left = left; free_sect_nr = free; fsbuf = fsbuf })
        ≡ ok (record { left = left - (8 - k); free_sect_nr = sect; fsbuf = fsbuf' }))
      × ((x : ℕ) → x ≢ j → fsbuf' x ≡ fsbuf x)
      × (fsbuf' j < 256)
      × Holds fsbuf' j p (with_run first total old)
unfolding mark_byte
mark_byte-Holds first total sect j k p left old fsbuf free in_byte small some_left run holds from
      start end =
    let (byte, rest, filled, f) =
      fill_bits-IsFilledBits (8 - k) k (fsbuf j) left (omega arith) small some_left
        (λ m a b c. holds m b ∙ run.clear (p + m) (omega arith) (omega arith)) in
    let here : update fsbuf j byte j ≡ byte = ground arith in
    rw (filled, ◌>>=◌, f.count)
      (
        update fsbuf j byte,
        refl,
        λ x other. ground arith,
        ground (arith, f.small),
        λ m h. ap (λ (v : ℕ). bit v m) here ∙ (f.bits m h ∙ ground (arith, holds m h, start)),
      )

abbrev pub the_run : (left sect : ℕ) → (ℕ → ℕ) → Run
the_run left sect fsbuf = record { left = left; free_sect_nr = sect; fsbuf = fsbuf }

-- The state at bit `p` of the map.
abbrev pub run_at : (first total sect p : ℕ) → (ℕ → ℕ) → Run
run_at first total sect p fsbuf = the_run (left_at first total p) (sect_at sect first p) fsbuf

smap_byte-full :
    (sb : SuperBlock) (i j : ℕ) (r : Run)
    → (r.free_sect_nr == 0) ≡ true
    → (r.fsbuf j == 255) ≡ true
    → smap_byte sb i j r ≡ ok r
unfolding smap_byte
smap_byte-full sb i j r none_yet full = rw (none_yet, full) refl

smap_byte-first :
    (sb : SuperBlock) (i j k : ℕ) (r : Run)
    → (r.free_sect_nr == 0) ≡ true
    → (r.fsbuf j == 255) ≡ false
    → lowest_clear 8 (r.fsbuf j) 0 ≡ ok k
    → smap_byte sb i j r ≡ mark_byte j k ((i * sector_size + j) * 8 + k + sb.n_1st_sect - 1) r
unfolding smap_byte
smap_byte-first sb i j k r none_yet free lowest = rw (none_yet, free, lowest, ◌>>=◌) refl

smap_byte-next :
    (sb : SuperBlock) (i j : ℕ) (r : Run)
    → (r.free_sect_nr == 0) ≡ false
    → smap_byte sb i j r ≡ mark_byte j 0 r.free_sect_nr r
unfolding smap_byte
smap_byte-next sb i j r some_yet = rw some_yet refl

pub Run_eq :
    (left left' sect sect' : ℕ) (fsbuf : ℕ → ℕ)
    → left ≡ left'
    → sect ≡ sect'
    → the_run left sect fsbuf ≡ the_run left' sect' fsbuf
Run_eq left left' sect sect' fsbuf e f = rw (e, f) refl

-- The first clear bit of the map is not in a full byte, and is the lowest clear bit of another.
first_beyond :
    (first p : ℕ) (old fsbuf : ℕ → ℕ) (j : ℕ)
    → p ≤ first
    → old first ≡ 0
    → Holds fsbuf j p old
    → fsbuf j ≡ 255
    → p + 8 ≤ first
first_beyond first p old fsbuf j low unset holds full = elim (Bool-cases (leb (p + 8) first)) [
  | inl beyond ↦ ground arith
  | inr inside ↦
      let m : ℕ = first - p in
      let in_byte : m < 8 = ground arith in
      let back : p + m ≡ first = omega arith in
      let clear : bit (fsbuf j) m ≡ 0 = holds m in_byte ∙ (ap old back ∙ unset) in
      let set : bit (fsbuf j) m ≡ 1 = ap (λ (v : ℕ). bit v m) full ∙ bit_255 m in_byte in
      absurd (omega (arith, clear, set))
]

first_lowest :
    (first p : ℕ) (old fsbuf : ℕ → ℕ) (j k : ℕ)
    → p ≤ first
    → old first ≡ 0
    → ((b : ℕ) → b < first → old b ≡ 1)
    → Holds fsbuf j p old
    → IsLowest (fsbuf j) k
    → first ≡ p + k
first_lowest first p old fsbuf j k low unset lower holds lowest =
    elim (Bool-cases (ltb first (p + k))) [
      | inl before ↦
          let m : ℕ = first - p in
          let in_byte : m < k = ground arith in
          let back : p + m ≡ first = omega arith in
          let clear : bit (fsbuf j) m ≡ 0 =
            holds m (omega (arith, lowest.in_byte, in_byte)) ∙ (ap old back ∙ unset) in
          absurd (omega (arith, clear, lowest.below m in_byte))
      | inr not_before ↦ elim (Bool-cases (ltb (p + k) first)) [
        | inl behind ↦
            let set : bit (fsbuf j) k ≡ 1 = holds k lowest.in_byte ∙ lower (p + k) (ground arith) in
            absurd (omega (arith, set, lowest.clear))
        | inr not_behind ↦ ground arith
      ]
    ]

-- Byte `j` of sector `i` starts at bit `p`.
pub record IsDone (first total sect p j : ℕ) (old fsbuf : ℕ → ℕ) (out : Result Run) : Type 0 where
  pub fsbuf' : ℕ → ℕ
  pub result : out ≡ ok (run_at first total sect (p + 8) fsbuf')
  pub others : (x : ℕ) → x ≢ j → fsbuf' x ≡ fsbuf x
  pub small : fsbuf' j < 256
  pub holds : Holds fsbuf' j p (with_run first total old)

pub smap_byte-IsDone :
    (sb : SuperBlock) (first total i j p sect : ℕ) (old fsbuf : ℕ → ℕ)
    → p ≡ (i * sector_size + j) * 8
    → sect ≡ first + sb.n_1st_sect - 1
    → 0 < sect
    → 0 < total
    → fsbuf j < 256
    → 0 < left_at first total p
    → IsFree first total old
    → Holds fsbuf j p old
    → IsDone first total sect p j old fsbuf (smap_byte sb i j (run_at first total sect p fsbuf))
smap_byte-IsDone sb first total i j p sect old fsbuf at name named some small some_left run holds =
    let r : Run = run_at first total sect p fsbuf in
    let unset : old first ≡ 0 = run.clear first (omega arith) (omega arith) in
    elim (Bool-cases (leb p first)) [
      | inl early ↦
          let none_yet : (r.free_sect_nr == 0) ≡ true = ground arith in
          elim (Bool-cases (fsbuf j == 255)) [
            | inl full ↦
                let beyond : p + 8 ≤ first =
                  first_beyond first p old fsbuf j (ground arith) unset holds (ground arith) in
                record {
                  fsbuf' = fsbuf;
                  result =
                      smap_byte-full sb i j r none_yet full
                      ∙ ap ok (
                          Run_eq (left_at first total p) (left_at first total (p + 8))
                            (sect_at sect first p) (sect_at sect first (p + 8)) fsbuf (ground arith)
                            (ground arith));
                  others = λ x h. refl;
                  small = small;
                  holds = λ m h. holds m h ∙ ground arith;
                }
            | inr free ↦
                let (k, lowest, low) = lowest_clear-IsLowest (fsbuf j) (ground arith) in
                let here : first ≡ p + k =
                  first_lowest first p old fsbuf j k (ground arith) unset run.lower holds low in
                let (fsbuf', marked, others, small', holds') =
                  mark_byte-Holds first total sect j k p (left_at first total p) old fsbuf
                    (sect_at sect first p) low.in_byte small some_left run holds
                    (omega (arith, here)) (inl (sym here)) (ground (arith, here)) in
                let number : (i * sector_size + j) * 8 + k + sb.n_1st_sect - 1 ≡ sect =
                  omega arith in
                record {
                  fsbuf' = fsbuf';
                  result =
                      smap_byte-first sb i j k r none_yet free lowest
                      ∙ (ap (λ (c : ℕ). mark_byte j k c r) number
                          ∙ (marked
                              ∙ ap ok (
                                  Run_eq (left_at first total p - (8 - k))
                                    (left_at first total (p + 8)) sect (sect_at sect first (p + 8))
                                    fsbuf' (ground (arith, low.in_byte))
                                    (ground (arith, low.in_byte)))));
                  others = others;
                  small = small';
                  holds = holds';
                }
          ]
      | inr late ↦
          let some_yet : (r.free_sect_nr == 0) ≡ false = ground arith in
          let (fsbuf', marked, others, small', holds') =
            mark_byte-Holds first total (sect_at sect first p) j 0 p (left_at first total p) old
              fsbuf (sect_at sect first p) (omega arith) small some_left run holds (ground arith)
              (inr refl) (ground arith) in
          record {
            fsbuf' = fsbuf';
            result =
                smap_byte-next sb i j r some_yet
                ∙ (marked
                    ∙ ap ok (
                        Run_eq (left_at first total p - 8) (left_at first total (p + 8))
                          (sect_at sect first p) (sect_at sect first (p + 8)) fsbuf' (ground arith)
                          (ground arith)));
            others = others;
            small = small';
            holds = holds';
          }
    ]
