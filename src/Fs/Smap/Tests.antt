-- ===== src/Fs/Smap/Tests.antt =====
-- A map of one sector, whose first byte is used, with four sectors of a file behind it.
use lwos.Common.{ℕ, ◌+◌, ◌/◌, ◌%◌, ◌≡◌, refl, true, ap, ◌==◌, ==_iff, if◌then◌else◌, arith, ◌∙◌}
use lwos.Common.Bits.{passes_below, passes_below-lt}
use lwos.Fault.{ok}
use lwos.Fs.{SuperBlock}
use lwos.Fs.Imap.{bit}
use lwos.Fs.Imap.Alloc.{bit_255}
use lwos.Fs.Smap.{alloc_smap_bit, fill_bits}
use lwos.Fs.Smap.Bytes.{IsFree}
use lwos.Fs.Smap.Map.{smap_bit, IsMarked}
use lwos.Fs.Smap.Alloc.{alloc_smap_bit-IsMarked}

abbrev super_block : SuperBlock
super_block = record { nr_imap_sects = 1; nr_smap_sects = 1; n_1st_sect = 200 }

-- The map is sector 3.
abbrev disk : ℕ → ℕ
disk at = if at == 1536 then 255 else 0

fill_run : fill_bits 6 2 3 4 ≡ ok (0x3f, 0)
unfolding fill_bits bit
fill_run = refl

bits_of_0 : passes_below (λ m. bit 0 m == 0) 8 ≡ true
unfolding passes_below bit
bits_of_0 = refl

free : IsFree 8 12 (smap_bit super_block disk)
free = record {
  lower = λ b h.
      let byte : disk (1536 + b / 8) ≡ 255 = ground arith in
      ap (λ (v : ℕ). bit v (b % 8)) byte ∙ bit_255 (b % 8) (omega arith);
  clear = λ b lo hi.
      let byte : disk (1536 + b / 8) ≡ 0 = ground arith in
      ap (λ (v : ℕ). bit v (b % 8)) byte
      ∙ (==_iff (bit 0 (b % 8)) 0).0 (passes_below-lt _ 8 {v = b % 8} bits_of_0 (omega arith));
}

alloc_smap_bit-IsMarked_example :
    (disk' : ℕ → ℕ) × (fsbuf' : ℕ → ℕ) × (alloc_smap_bit super_block 12 disk (λ at. 7)
      ≡ ok (207, disk', fsbuf'))
    × IsMarked super_block 8 12 0 1 (smap_bit super_block disk) disk disk'
alloc_smap_bit-IsMarked_example =
    alloc_smap_bit-IsMarked super_block 8 12 disk (λ at. 7) (omega arith) (omega arith) free
      (omega arith) (λ at. ground arith)
