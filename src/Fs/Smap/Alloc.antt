-- ===== src/Fs/Smap/Alloc.antt =====
-- `alloc_smap_bit` marks a run of sectors as used, from the first free one on.
use lwos.Common.{
  ℕ, zero, suc, ◌+◌, ◌-◌, ◌*◌, ◌≤◌, ◌<◌, ◌≡◌, refl, ◌∙◌, ap, subst, true, ◌==◌, if◌then◌else◌,
  arith, Bool-cases, inl, inr,
}
use lwos.Fault.{Result, ok, ◌>>=◌}
use lwos.Fs.{SuperBlock, sector_size, read_sectors, write_sectors}
use lwos.Fs.Imap.{bit}
use lwos.Fs.Smap.{Run, smap_bytes, smap_blk0_nr, smap_sectors, alloc_smap_bit}
use lwos.Fs.Smap.Bytes.{with_run, left_at, sect_at, IsFree, run_at}
use lwos.Fs.Smap.Sector.{smap_bytes-IsSector}
use lwos.Fs.Smap.Map.{
  smap_bit, sector_bits, byte-smap_bit, IsWritten, sector-IsWritten, IsWritten-later, IsMarked,
  IsMarked-last, IsMarked-more,
}

-- The loop ends with the run marked, and its first sector.
Ends :
    (sb : SuperBlock) (first total sect i j : ℕ) (old disk : ℕ → ℕ)
    → Result ((ℕ → ℕ) × Run)
    → Type 0
Ends sb first total sect i j old disk out =
    (disk' : ℕ → ℕ) × (r : Run) × (out ≡ ok (disk', r))
    × (r.left ≡ 0)
    × (r.free_sect_nr ≡ sect)
    × IsMarked sb first total i j old disk disk'

-- One round of the loop, its sector's bytes done.
smap_sectors-round :
    (n i : ℕ) (sb : SuperBlock) (first total sect : ℕ) (old disk fsbuf0 fsbuf : ℕ → ℕ) (r : Run)
    → let q : ℕ = (i + 1) * sector_bits in
      let blk : ℕ = smap_blk0_nr sb + i in
      let disk1 = if sect_at sect first q == 0 then disk else write_sectors disk blk 1 fsbuf in
      0 < total
      → smap_bytes sb sector_size i 0 (record {
        left = r.left;
        free_sect_nr = r.free_sect_nr;
        fsbuf = read_sectors disk blk 1 fsbuf0;
      })
        ≡ ok (run_at first total sect q fsbuf)
      → IsWritten sb i (with_run first total old) disk disk1
      → ((b : ℕ) → i * sector_bits ≤ b → b < (i + suc n) * sector_bits → smap_bit sb disk b ≡ old b)
      → (0 < left_at first total q
          → Ends sb first total sect (i + 1) (i + 1 + n) old disk1 (
              smap_sectors sb n (i + 1) (left_at first total q) (sect_at sect first q) disk1 fsbuf))
      → Ends sb first total sect i
          (i + suc n)
          old
          disk
          (smap_sectors sb (suc n) i r.left r.free_sect_nr disk fsbuf0)
unfolding smap_sectors Ends
smap_sectors-round n i sb first total sect old disk fsbuf0 fsbuf r some run w bits rest =
    let q : ℕ = (i + 1) * sector_bits in
    let blk : ℕ = smap_blk0_nr sb + i in
    let disk1 : (ℕ → ℕ) =
      if sect_at sect first q == 0 then disk else write_sectors disk blk 1 fsbuf in
    elim (Bool-cases (left_at first total q == 0)) [
      | inl done ↦
          rw (run, ◌>>=◌, done)
            (
              disk1,
              run_at first total sect q fsbuf,
              refl,
              ground arith,
              ground (arith, done),
              IsMarked-last sb first total i n old disk disk1 w (ground (arith, done)) bits,
            )
      | inr again ↦
          let (disk', r', run', none_left, found, marked) = rest (ground arith) in
          rw (run, ◌>>=◌, again)
            (
              disk',
              r',
              run',
              none_left,
              found,
              IsMarked-more sb first total i n old disk disk1 disk' w marked,
            )
    ]

smap_sectors-Ends :
    (n i : ℕ) (sb : SuperBlock) (first total sect : ℕ) (old disk fsbuf : ℕ → ℕ)
    → sect ≡ first + sb.n_1st_sect - 1
    → 0 < sect
    → 0 < total
    → IsFree first total old
    → first + total ≤ (i + n) * sector_bits
    → 0 < left_at first total (i * sector_bits)
    → ((at : ℕ) → disk at < 256)
    → ((b : ℕ) → i * sector_bits ≤ b → b < (i + n) * sector_bits → smap_bit sb disk b ≡ old b)
    → Ends sb first total sect i (i + n) old disk (
        smap_sectors sb n i
          (left_at first total (i * sector_bits))
          (sect_at sect first (i * sector_bits))
          disk
          fsbuf)
smap_sectors-Ends zero i sb first total sect old disk fsbuf name named some run fits more small
      bits =
    absurd (ground arith)
smap_sectors-Ends (suc n) i sb first total sect old disk fsbuf name named some run fits more small
      bits =
    let blk : ℕ = smap_blk0_nr sb + i in
    let f =
      smap_bytes-IsSector sector_size i 0 (i * sector_bits) sb first total sect old
        (read_sectors disk blk 1 fsbuf) refl (omega arith) name named some run
        (λ x h. ground (arith, small (blk * sector_size + x)))
        (λ x a h m low.
          ap (λ (v : ℕ). bit v m) (ground arith) ∙ byte-smap_bit sb disk old i n x m bits h low) in
    let w =
      sector-IsWritten sb first total sect i old disk fsbuf _ f named small
        (λ b lo hi. bits b lo (omega arith)) in
    smap_sectors-round n i sb first total sect old disk fsbuf f.fsbuf'
      (run_at first total sect (i * sector_bits) fsbuf) some f.result w bits
      (λ more'.
        smap_sectors-Ends n (i + 1) sb first total sect old _ f.fsbuf' name named some run
          (omega arith) more' w.small
          (λ b lo hi.
            IsWritten-later sb i (with_run first total old) disk _ b w lo
            ∙ bits b (omega arith) (omega arith)))

-- The lowest clear bit of the sector map is `first`, the `total` bits from there on are clear and in
-- the map, the count is not 0, and the sector for bit `first` is not number 0: then alloc_smap_bit
-- returns that sector, sets exactly these bits, and changes nothing outside of the map.
pub alloc_smap_bit-IsMarked :
    (sb : SuperBlock) (first total : ℕ) (disk fsbuf : ℕ → ℕ)
    → 0 < total
    → 0 < first + sb.n_1st_sect - 1
    → IsFree first total (smap_bit sb disk)
    → first + total ≤ sb.nr_smap_sects * sector_bits
    → ((at : ℕ) → disk at < 256)
    → (disk' : ℕ → ℕ) × (fsbuf' : ℕ → ℕ) × (alloc_smap_bit sb total disk fsbuf
        ≡ ok (first + sb.n_1st_sect - 1, disk', fsbuf'))
      × IsMarked sb first total 0 sb.nr_smap_sects (smap_bit sb disk) disk disk'
unfolding alloc_smap_bit Ends
alloc_smap_bit-IsMarked sb first total disk fsbuf some named run fits small =
    let n : ℕ = sb.nr_smap_sects in
    let (disk', r, loop, none_left, found, m) =
      smap_sectors-Ends n 0 sb first total (first + sb.n_1st_sect - 1) (smap_bit sb disk) disk fsbuf
        refl named some run (omega arith) (ground arith) small (λ b lo hi. refl) in
    let sect : ℕ = first + sb.n_1st_sect - 1 in
    let all : total ≡ left_at first total (0 * sector_bits) = ground arith in
    let none_yet : 0 ≡ sect_at sect first (0 * sector_bits) = ground arith in
    let start : smap_sectors sb n 0 total 0 disk fsbuf ≡ ok (disk', r) =
      ap (λ (c : ℕ). smap_sectors sb n 0 c 0 disk fsbuf) all
      ∙ (ap (λ (c : ℕ). smap_sectors sb n 0 (left_at first total (0 * sector_bits)) c disk fsbuf)
            none_yet
          ∙ loop) in
    let whole : 0 + n ≡ n = omega arith in
    let ends : (r.left == 0) ≡ true = ground (arith, none_left) in
    rw (start, ◌>>=◌, ends, found)
      (
        disk',
        r.fsbuf,
        refl,
        subst (λ (j : ℕ). IsMarked sb first total 0 j (smap_bit sb disk) disk disk') whole m,
      )
