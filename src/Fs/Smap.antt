-- ===== src/Fs/Smap.antt =====
-- fs/open.c: `alloc_smap_bit`, which marks the sectors of a new file in the sector map.
pub mod Bits
pub mod Bytes
pub mod Sector
pub mod Map
pub mod Alloc
mod Tests
use lwos.Common.{ℕ, zero, suc, ◌+◌, ◌-◌, ◌*◌, ◌^◌, bit_or, ltb, ◌==◌, if◌then◌else◌}
use lwos.Fault.{Result, ok, assertion, check, ◌>>=◌, ◌>>◌}
use lwos.Proc.{update}
use lwos.Fs.{SuperBlock, sector_size, read_sectors, write_sectors}
use lwos.Fs.Imap.{bit, lowest_clear}

-- `for (; k < 8; k++)`: `n` bits of the byte from `k` on. The byte, and `nr_sects_to_alloc`.
pub fill_bits : (n k byte left : ℕ) → Result (ℕ × ℕ)
fill_bits zero k byte left = ok (byte, left)
fill_bits (suc n) k byte left =
    let byte' : ℕ = bit_or byte (2 ^ k) in
    let rest = fill_bits n (k + 1) byte' (left - 1) in
    check (bit byte k == 0) assertion >> (if left - 1 == 0 then ok (byte', left - 1) else rest)

-- `nr_sects_to_alloc`, `free_sect_nr` and the sector buffer.
pub record Run : Type 0 where
  pub left : ℕ
  pub free_sect_nr : ℕ
  pub fsbuf : ℕ → ℕ

-- The last loop of the body for byte `j`, from bit `k` on.
pub mark_byte : (j k free_sect_nr : ℕ) → Run → Result Run
mark_byte j k free_sect_nr r = fill_bits (8 - k) k (r.fsbuf j) r.left >>= λ (byte, left).
    ok (record { left = left; free_sect_nr = free_sect_nr; fsbuf = update r.fsbuf j byte })

-- The body of the loop for byte `j` of sector `i` of the map.
pub smap_byte : SuperBlock → (i j : ℕ) → Run → Result Run
smap_byte sb i j r =
    let found = lowest_clear 8 (r.fsbuf j) 0 >>= λ k.
    mark_byte j k ((i * sector_size + j) * 8 + k + sb.n_1st_sect - 1) r in
    if r.free_sect_nr == 0
    then (if r.fsbuf j == 255 then ok r else found)
    else mark_byte j 0 r.free_sect_nr r

-- The loop over `n` bytes from `j` on.
pub smap_bytes : SuperBlock → (n i j : ℕ) → Run → Result Run
smap_bytes sb zero i j r = ok r
smap_bytes sb (suc n) i j r =
    let rest = smap_byte sb i j r >>= λ r'. smap_bytes sb n i (j + 1) r' in
    if ltb 0 r.left then rest else ok r

-- `smap_blk0_nr`.
abbrev pub smap_blk0_nr : SuperBlock → ℕ
smap_blk0_nr sb = 1 + 1 + sb.nr_imap_sects

-- The loop over `n` sectors of the map from `i` on: the disk, and the rest.
pub smap_sectors :
    SuperBlock → (n i left free_sect_nr : ℕ) → (disk fsbuf : ℕ → ℕ) → Result ((ℕ → ℕ) × Run)
smap_sectors sb zero i left free_sect_nr disk fsbuf =
    ok (disk, record { left = left; free_sect_nr = free_sect_nr; fsbuf = fsbuf })
smap_sectors sb (suc n) i left free_sect_nr disk fsbuf =
    let sect : ℕ = smap_blk0_nr sb + i in
    let start : Run = record {
      left = left;
      free_sect_nr = free_sect_nr;
      fsbuf = read_sectors disk sect 1 fsbuf;
    } in
    smap_bytes sb sector_size i 0 start >>= λ r.
    let disk' = if r.free_sect_nr == 0 then disk else write_sectors disk sect 1 r.fsbuf in
    let rest = smap_sectors sb n (i + 1) r.left r.free_sect_nr disk' r.fsbuf in
    if r.left == 0 then ok (disk', r) else rest

-- `alloc_smap_bit`: the first sector, the disk and the sector buffer.
pub alloc_smap_bit :
    SuperBlock → (nr_sects_to_alloc : ℕ) → (disk fsbuf : ℕ → ℕ) → Result (ℕ × (ℕ → ℕ) × (ℕ → ℕ))
alloc_smap_bit sb nr_sects_to_alloc disk fsbuf =
    smap_sectors sb sb.nr_smap_sects 0 nr_sects_to_alloc 0 disk fsbuf >>= λ (disk', r).
    check (r.left == 0) assertion >> ok (r.free_sect_nr, disk', r.fsbuf)
