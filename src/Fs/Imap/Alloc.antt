-- ===== src/Fs/Imap/Alloc.antt =====
-- `alloc_imap_bit` takes the first free inode; of a full map it returns inode 0.
use lwos.Common.{
  ℕ, ◌+◌, ◌*◌, ◌/◌, ◌%◌, ◌^◌, ◌<◌, ◌≡◌, ◌≢◌, inl, inr, refl, ◌∙◌, sym, ap, true, false, bit_or,
  some, ◌==◌, ==_iff, if◌then◌else◌, arith, Bool-cases,
}
use lwos.Common.Bits.{passes_below, passes_below-lt}
use lwos.Fault.{ok, ◌>>=◌}
use lwos.Proc.{update}
use lwos.Fs.{SuperBlock, sector_size, read_sectors, write_sectors}
use lwos.Fs.Imap.{bit, lowest_clear, Allocated, mark_bit, alloc_imap_bit}
use lwos.Fs.Imap.Byte.{IsLowest, lowest_clear-IsLowest}
use lwos.Fs.Imap.First.{IsFound, find_byte-IsFound, find_byte_full}

-- Bit `n` of the first sector of the inode map.
abbrev pub imap_bit : (ℕ → ℕ) → ℕ → ℕ
imap_bit disk n = bit (disk (2 * sector_size + n / 8)) (n % 8)

-- The number of bits in a sector.
abbrev pub sector_bits : ℕ
sector_bits = 4096

-- The inode was the first free one, and is the only one whose bit has changed.
pub record IsFirstFree (disk : ℕ → ℕ) (a : Allocated) : Type 0 where
  pub in_map : a.inode_nr < sector_bits
  pub was_clear : imap_bit disk (a.inode_nr) ≡ 0
  pub lower : (n : ℕ) → n < a.inode_nr → imap_bit disk n ≡ 1
  pub marked :
      (n : ℕ)
      → n < sector_bits
      → imap_bit (a.disk) n ≡ (if n == a.inode_nr then 1 else imap_bit disk n)
  pub elsewhere : (at : ℕ) → at / sector_size ≢ 2 → a.disk at ≡ disk at

bits_of_255 : passes_below (λ m. bit 255 m == 1) 8 ≡ true
unfolding passes_below bit
bits_of_255 = refl

pub bit_255 : (m : ℕ) → m < 8 → bit 255 m ≡ 1
bit_255 m h = (==_iff _ _).0 (passes_below-lt _ 8 bits_of_255 h)

-- The bits of the map after byte `j` was changed in the buffer and written back.
written_bit :
    (disk fsbuf : ℕ → ℕ) (j v : ℕ)
    → j < sector_size
    → (n : ℕ) → n < sector_bits
    → write_sectors disk 2 1 (update (read_sectors disk 2 1 fsbuf) j v) (2 * sector_size + n / 8)
      ≡ (if j == n / 8 then v else disk (2 * sector_size + n / 8))
written_bit disk fsbuf j v h n k = ground arith

-- Setting bit `k` of byte `j`, the lowest clear one of the first byte that is not full.
set-IsFirstFree :
    (disk fsbuf : ℕ → ℕ) (j k : ℕ)
    → j < sector_size
    → ((i : ℕ) → i < j → disk (2 * sector_size + i) ≡ 255)
    → IsLowest (disk (2 * sector_size + j)) k
    → IsFirstFree disk (record {
      inode_nr = (0 * sector_size + j) * 8 + k;
      disk =
          write_sectors disk 2 1
            (update (read_sectors disk 2 1 fsbuf) j (bit_or (disk (2 * sector_size + j)) (2 ^ k)));
      fsbuf = update (read_sectors disk 2 1 fsbuf) j (bit_or (disk (2 * sector_size + j)) (2 ^ k));
    })
set-IsFirstFree disk fsbuf j k h full b =
    let byte : ((0 * sector_size + j) * 8 + k) / 8 ≡ j = omega (arith, b.in_byte) in
    let place : ((0 * sector_size + j) * 8 + k) % 8 ≡ k = omega (arith, b.in_byte) in
    let after = written_bit disk fsbuf j (bit_or (disk (2 * sector_size + j)) (2 ^ k)) h in
    record {
      in_map = omega (arith, b.in_byte);
      was_clear = rw (byte, place) b.clear;
      lower = λ n less. elim (Bool-cases (n / 8 == j)) [
        | inl here ↦
            let same : n / 8 ≡ j = (==_iff (n / 8) j).0 here in
            rw same (b.below (n % 8) (omega arith))
        | inr before ↦
            let earlier : n / 8 < j = ground (arith, b.in_byte) in
            rw (full (n / 8) earlier) (bit_255 (n % 8) (omega arith))
      ];
      marked = λ n small. elim (Bool-cases (j == n / 8)) [
        | inl here ↦
            let same : n / 8 ≡ j = ground (arith, here) in
            let same_test : (n % 8 == k) ≡ (n == (0 * sector_size + j) * 8 + k) =
              ground (arith, same, b.in_byte) in
            ap (λ v. bit v (n % 8)) (after n small ∙ rw here refl)
            ∙ (b.marked (n % 8) (omega arith) ∙ rw (same_test, same) refl)
        | inr other ↦
            let not_it : (n == (0 * sector_size + j) * 8 + k) ≡ false =
              ground (arith, other, b.in_byte) in
            ap (λ v. bit v (n % 8)) {y = disk (2 * sector_size + n / 8)}
              (after n small ∙ rw other refl)
            ∙ rw not_it refl
      ];
      elsewhere = λ at off. ground arith;
    }

mark_bit-eq-ok :
    (disk fsbuf : ℕ → ℕ) (j k byte : ℕ)
    → fsbuf j ≡ byte
    → lowest_clear 8 byte 0 ≡ ok k
    → mark_bit 0 disk fsbuf (some j)
      ≡ ok (record {
        inode_nr = (0 * sector_size + j) * 8 + k;
        disk = write_sectors disk 2 1 (update fsbuf j (bit_or byte (2 ^ k)));
        fsbuf = update fsbuf j (bit_or byte (2 ^ k));
      })
unfolding mark_bit
mark_bit-eq-ok disk fsbuf j k byte e run = rw (e, run, ◌>>=◌) refl

mark_bit-IsFirstFree :
    (disk fsbuf : ℕ → ℕ) (j : ℕ)
    → ((at : ℕ) → disk at < 256)
    → j < sector_size
    → IsFound (read_sectors disk 2 1 fsbuf) 0 j
    → (a : Allocated) × (mark_bit 0 disk (read_sectors disk 2 1 fsbuf) (some j) ≡ ok a)
      × IsFirstFree disk a
unfolding mark_bit
mark_bit-IsFirstFree disk fsbuf j bytes h f =
    let loaded : (i : ℕ)
        → i < sector_size
        → read_sectors disk 2 1 fsbuf i ≡ disk (2 * sector_size + i) =
      (λ i small. ground arith) in
    let not_full : disk (2 * sector_size + j) ≢ 255 = (λ e. f.not_full (loaded j h ∙ e)) in
    let small : disk (2 * sector_size + j) < 255 = omega (arith, bytes (2 * sector_size + j)) in
    let (k, run, b) = lowest_clear-IsLowest (disk (2 * sector_size + j)) small in
    let full : (i : ℕ) → i < j → disk (2 * sector_size + i) ≡ 255 =
      (λ i less. sym (loaded i (omega arith)) ∙ f.full_before i (omega arith) less) in
    (
      _,
      mark_bit-eq-ok disk (read_sectors disk 2 1 fsbuf) j k (disk (2 * sector_size + j))
          (loaded j h) run,
      set-IsFirstFree disk fsbuf j k h full b,
    )

-- If the bytes of the disk are bytes and the first sector of the map has a clear bit, the lowest one
-- is taken: it is set on the disk, and no other bit of the map or byte of the disk is changed.
pub alloc_imap_bit-IsFirstFree :
    (sb : SuperBlock) (disk fsbuf : ℕ → ℕ) (i : ℕ)
    → ((at : ℕ) → disk at < 256)
    → 0 < sb.nr_imap_sects
    → i < sector_size
    → disk (2 * sector_size + i) ≢ 255
    → (a : Allocated) × (alloc_imap_bit sb disk fsbuf ≡ ok a) × IsFirstFree disk a
unfolding alloc_imap_bit
alloc_imap_bit-IsFirstFree sb disk fsbuf i bytes map h free =
    let (j, run, near, f) =
      find_byte-IsFound sector_size (read_sectors disk 2 1 fsbuf) 0 i (omega arith) (omega arith)
        (λ e. free (ground arith)) in
    let some_map : (sb.nr_imap_sects == 0) ≡ false = ground arith in
    rw (some_map, run) (mark_bit-IsFirstFree disk fsbuf j bytes (omega arith) f)

-- If the first sector of the map is full, inode 0 is returned and nothing is marked, whatever the
-- sectors that follow hold.
pub alloc_imap_bit_full :
    (sb : SuperBlock) (disk fsbuf : ℕ → ℕ)
    → 0 < sb.nr_imap_sects
    → ((i : ℕ) → i < sector_size → disk (2 * sector_size + i) ≡ 255)
    → alloc_imap_bit sb disk fsbuf
      ≡ ok (record { inode_nr = 0; disk = disk; fsbuf = read_sectors disk 2 1 fsbuf })
unfolding alloc_imap_bit mark_bit
alloc_imap_bit_full sb disk fsbuf map full =
    let some_map : (sb.nr_imap_sects == 0) ≡ false = ground arith in
    rw
      (
        some_map,
        find_byte_full sector_size (read_sectors disk 2 1 fsbuf) 0
            (λ m a b. ground (arith, full m)),
      )
      refl
