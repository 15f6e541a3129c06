-- ===== src/Fs/Smap/Map.antt =====
-- The bits of the sector map on the disk, before and after a round of the loop over its sectors.
use lwos.Common.{
  ℕ, suc, ◌+◌, ◌-◌, ◌*◌, ◌/◌, ◌%◌, ◌≤◌, ◌<◌, ◌≡◌, refl, ◌∙◌, ap, ◌&&◌, ltb, leb, ◌==◌,
  if◌then◌else◌, arith, Bool-cases, inl, inr, ◌⊎◌,
}
use lwos.Fault.{Result}
use lwos.Fs.{SuperBlock, sector_size, read_sectors, write_sectors}
use lwos.Fs.Imap.{bit}
use lwos.Fs.Smap.{Run, smap_blk0_nr}
use lwos.Fs.Smap.Bytes.{with_run, sect_at, Holds}
use lwos.Fs.Smap.Sector.{IsSector}

-- Bit `b` of the sector map.
abbrev pub smap_bit : SuperBlock → (disk : ℕ → ℕ) → (b : ℕ) → ℕ
smap_bit sb disk b = bit (disk (smap_blk0_nr sb * sector_size + b / 8)) (b % 8)

-- The number of bits in a sector.
abbrev pub sector_bits : ℕ
sector_bits = 4096

-- Bits of the map, from the bytes of its sector `i`.
smap_bit-byte :
    (sb : SuperBlock) (disk fsbuf bits : ℕ → ℕ) (i : ℕ)
    → ((x : ℕ) → x < sector_size → disk ((smap_blk0_nr sb + i) * sector_size + x) ≡ fsbuf x)
    → ((x : ℕ) → x < sector_size → Holds fsbuf x ((i * sector_size + x) * 8) bits)
    → (b : ℕ) → i * sector_bits ≤ b
    → b < (i + 1) * sector_bits
    → smap_bit sb disk b ≡ bits b
smap_bit-byte sb disk fsbuf bits i same holds b lo hi =
    let x : ℕ = b / 8 - i * sector_size in
    let inside : x < sector_size = omega arith in
    let at : smap_blk0_nr sb * sector_size + b / 8 ≡ (smap_blk0_nr sb + i) * sector_size + x =
      omega arith in
    let back : (i * sector_size + x) * 8 + b % 8 ≡ b = omega arith in
    ap (λ (a : ℕ). bit (disk a) (b % 8)) at
    ∙ (ap (λ (v : ℕ). bit v (b % 8)) (same x inside)
        ∙ (holds x inside (b % 8) (omega arith) ∙ ap bits back))

pub byte-smap_bit :
    (sb : SuperBlock) (disk bits : ℕ → ℕ) (i n x m : ℕ)
    → ((b : ℕ) → i * sector_bits ≤ b → b < (i + suc n) * sector_bits → smap_bit sb disk b ≡ bits b)
    → x < sector_size
    → m < 8
    → bit (disk ((smap_blk0_nr sb + i) * sector_size + x)) m ≡ bits ((i * sector_size + x) * 8 + m)
byte-smap_bit sb disk bits i n x m old inside low =
    let b : ℕ = (i * sector_size + x) * 8 + m in
    let at : (smap_blk0_nr sb + i) * sector_size + x ≡ smap_blk0_nr sb * sector_size + b / 8 =
      omega arith in
    let place : m ≡ b % 8 = omega arith in
    ap (λ (a : ℕ). bit (disk a) m) at
    ∙ (ap (λ (c : ℕ). bit (disk (smap_blk0_nr sb * sector_size + b / 8)) c) place
        ∙ old b (omega arith) (omega arith))

-- The disk behind a sector's loop: the sector is written once a first sector was found.
pub record IsWritten (sb : SuperBlock) (i : ℕ) (bits disk disk' : ℕ → ℕ) : Type 0 where
  pub inside :
      (b : ℕ) → i * sector_bits ≤ b → b < (i + 1) * sector_bits → smap_bit sb disk' b ≡ bits b
  pub outside :
      (at : ℕ)
      → (at < (smap_blk0_nr sb + i) * sector_size)
        ⊎ ((smap_blk0_nr sb + i) * sector_size + sector_size ≤ at)
      → disk' at ≡ disk at
  pub small : (at : ℕ) → disk' at < 256

pub sector-IsWritten :
    (sb : SuperBlock) (first total sect i : ℕ) (old disk fsbuf0 : ℕ → ℕ) (out : Result Run)
    (f : IsSector first total sect i 0 old (read_sectors disk (smap_blk0_nr sb + i) 1 fsbuf0) out)
    → 0 < sect
    → ((at : ℕ) → disk at < 256)
    → ((b : ℕ) → i * sector_bits ≤ b → b < (i + 1) * sector_bits → smap_bit sb disk b ≡ old b)
    → IsWritten sb i (with_run first total old) disk (
        if sect_at sect first ((i + 1) * sector_bits) == 0
        then disk
        else write_sectors disk (smap_blk0_nr sb + i) 1 f.fsbuf')
sector-IsWritten sb first total sect i old disk fsbuf0 out f named small bits =
    let blk : ℕ = smap_blk0_nr sb + i in
    elim (Bool-cases (sect_at sect first ((i + 1) * sector_bits) == 0)) [
      | inl not_yet ↦ rw not_yet (record {
        inside = λ b lo hi. bits b lo hi ∙ ground (arith, not_yet);
        outside = λ at off. refl;
        small = small;
      })
      | inr found ↦ rw found (record {
        inside =
            smap_bit-byte sb (write_sectors disk blk 1 f.fsbuf') f.fsbuf' (with_run first total old)
              i (λ x h. ground arith) (λ x h. f.holds x (omega arith) h);
        outside = λ at off. ground arith;
        small = λ at.
            elim (Bool-cases
              (leb (blk * sector_size) at && ltb at (blk * sector_size + sector_size))) [
                | inl here ↦ ground (arith, f.small (at - blk * sector_size))
                | inr other ↦ ground (arith, small at)
              ];
      })
    ]

-- The run is marked in the sectors of the map from `i` on and below `j`; nothing else has changed.
pub record IsMarked (sb : SuperBlock) (first total i j : ℕ) (old disk disk' : ℕ → ℕ) : Type 0 where
  pub bits :
      (b : ℕ)
      → i * sector_bits ≤ b
      → b < j * sector_bits
      → smap_bit sb disk' b ≡ with_run first total old b
  pub elsewhere :
      (at : ℕ)
      → (at < (smap_blk0_nr sb + i) * sector_size) ⊎ ((smap_blk0_nr sb + j) * sector_size ≤ at)
      → disk' at ≡ disk at

pub IsWritten-later :
    (sb : SuperBlock) (i : ℕ) (bits disk disk' : ℕ → ℕ) (b : ℕ)
    → IsWritten sb i bits disk disk'
    → (i + 1) * sector_bits ≤ b
    → smap_bit sb disk' b ≡ smap_bit sb disk b
IsWritten-later sb i bits disk disk' b w later =
    ap (λ (v : ℕ). bit v (b % 8))
      (w.outside (smap_blk0_nr sb * sector_size + b / 8) (inr (omega arith)))

pub IsMarked-last :
    (sb : SuperBlock) (first total i n : ℕ) (old disk disk' : ℕ → ℕ)
    → IsWritten sb i (with_run first total old) disk disk'
    → first + total ≤ (i + 1) * sector_bits
    → ((b : ℕ) → i * sector_bits ≤ b → b < (i + suc n) * sector_bits → smap_bit sb disk b ≡ old b)
    → IsMarked sb first total i (i + suc n) old disk disk'
IsMarked-last sb first total i n old disk disk' w ends bits = record {
  bits = λ b lo hi. elim (Bool-cases (ltb b ((i + 1) * sector_bits))) [
    | inl here ↦ w.inside b lo (ground arith)
    | inr later ↦
        IsWritten-later sb i (with_run first total old) disk disk' b w (ground arith)
        ∙ (bits b lo hi ∙ ground arith)
  ];
  elsewhere = λ at off. w.outside at (sides at off);
}
  where
    sides :
        (at : ℕ)
        → (at < (smap_blk0_nr sb + i) * sector_size)
          ⊎ ((smap_blk0_nr sb + (i + suc n)) * sector_size ≤ at)
        → (at < (smap_blk0_nr sb + i) * sector_size)
          ⊎ ((smap_blk0_nr sb + i) * sector_size + sector_size ≤ at)
    sides at (inl low) = inl low
    sides at (inr high) = inr (omega arith)

pub IsMarked-more :
    (sb : SuperBlock) (first total i n : ℕ) (old disk disk1 disk' : ℕ → ℕ)
    → IsWritten sb i (with_run first total old) disk disk1
    → IsMarked sb first total (i + 1) (i + 1 + n) old disk1 disk'
    → IsMarked sb first total i (i + suc n) old disk disk'
IsMarked-more sb first total i n old disk disk1 disk' w m = record {
  bits = λ b lo hi. elim (Bool-cases (ltb b ((i + 1) * sector_bits))) [
    | inl here ↦
        let inside : b < (i + 1) * sector_bits = ground arith in
        ap (λ (v : ℕ). bit v (b % 8))
          (m.elsewhere (smap_blk0_nr sb * sector_size + b / 8) (inl (omega arith)))
        ∙ w.inside b lo inside
    | inr later ↦ m.bits b (ground arith) (omega arith)
  ];
  elsewhere = λ at off. m.elsewhere at (upper at off) ∙ w.outside at (lower at off);
}
  where
    upper :
        (at : ℕ)
        → (at < (smap_blk0_nr sb + i) * sector_size)
          ⊎ ((smap_blk0_nr sb + (i + suc n)) * sector_size ≤ at)
        → (at < (smap_blk0_nr sb + (i + 1)) * sector_size)
          ⊎ ((smap_blk0_nr sb + (i + 1 + n)) * sector_size ≤ at)
    upper at (inl low) = inl (omega arith)
    upper at (inr high) = inr (omega arith)

    lower :
        (at : ℕ)
        → (at < (smap_blk0_nr sb + i) * sector_size)
          ⊎ ((smap_blk0_nr sb + (i + suc n)) * sector_size ≤ at)
        → (at < (smap_blk0_nr sb + i) * sector_size)
          ⊎ ((smap_blk0_nr sb + i) * sector_size + sector_size ≤ at)
    lower at (inl low) = inl low
    lower at (inr high) = inr (omega arith)
