-- ===== src/Fs/Imap.antt =====
-- fs/open.c: `alloc_imap_bit`, which picks the inode of a new file in the inode map.
pub mod Byte
pub mod First
pub mod Alloc
mod Tests
use lwos.Common.{
  ℕ, zero, suc, ◌+◌, ◌*◌, ◌/◌, ◌%◌, ◌^◌, Option, none, some, bit_or, ◌==◌, if◌then◌else◌,
}
use lwos.Fault.{Result, ok, err, spin, panic, ◌>>=◌}
use lwos.Proc.{update}
use lwos.Fs.{SuperBlock, sector_size, read_sectors, write_sectors}

-- `(b >> m) & 1`.
unfoldable pub bit : ℕ → ℕ → ℕ
bit b m = b / 2 ^ m % 2

-- `for (k = 0; ((b >> k) & 1) != 0; k++){}`.
pub lowest_clear : ℕ → ℕ → ℕ → Result ℕ
lowest_clear zero b k = err spin
lowest_clear (suc fuel) b k =
    let rest = lowest_clear fuel b (k + 1) in if bit b k == 0 then ok k else rest

-- The loop over the bytes of the sector: the first of `n` bytes from `j` on that is not 0xff.
pub find_byte : ℕ → (ℕ → ℕ) → ℕ → Option ℕ
find_byte zero fsbuf j = none
find_byte (suc n) fsbuf j =
    let rest = find_byte n fsbuf (j + 1) in if fsbuf j == 255 then rest else some j

-- The inode number, the disk and the sector buffer.
pub record Allocated : Type 0 where
  pub inode_nr : ℕ
  pub disk : ℕ → ℕ
  pub fsbuf : ℕ → ℕ

-- What follows the loop over the bytes of sector `i` of the map, which is in the buffer.
pub mark_bit : (i : ℕ) (disk fsbuf : ℕ → ℕ) → Option ℕ → Result Allocated
mark_bit i disk fsbuf none = ok (record { inode_nr = 0; disk = disk; fsbuf = fsbuf })
mark_bit i disk fsbuf (some j) = lowest_clear 8 (fsbuf j) 0 >>= λ k.
    let fsbuf' = update fsbuf j (bit_or (fsbuf j) (2 ^ k)) in
    ok (record {
      inode_nr = (i * sector_size + j) * 8 + k;
      disk = write_sectors disk (2 + i) 1 fsbuf';
      fsbuf = fsbuf';
    })

-- The body of the outer loop ends with a `return`, so only the first sector of the map is visited.
pub alloc_imap_bit : SuperBlock → (disk fsbuf : ℕ → ℕ) → Result Allocated
alloc_imap_bit sb disk fsbuf =
    let fsbuf' = read_sectors disk 2 1 fsbuf in
    if sb.nr_imap_sects == 0
    then err panic
    else mark_bit 0 disk fsbuf' (find_byte sector_size fsbuf' 0)
