-- ===== src/Fs/Imap/Tests.antt =====
-- Allocations in a map whose first inodes are taken, and in a full one.
use lwos.Common.{ℕ, ◌≡◌, ◌==◌, if◌then◌else◌, arith}
use lwos.Fault.{ok}
use lwos.Fs.{SuperBlock}
use lwos.Fs.Imap.{Allocated, alloc_imap_bit}
use lwos.Fs.Imap.Alloc.{IsFirstFree, alloc_imap_bit-IsFirstFree}

abbrev sb : SuperBlock
sb = record { nr_imap_sects = 1; nr_smap_sects = 20; n_1st_sect = 279 }

-- Inodes 0 to 10 are taken.
abbrev map_on_disk : ℕ → ℕ
map_on_disk at = if at == 1024 then 255 else if at == 1025 then 7 else 0

alloc_imap_bit-IsFirstFree_example :
    (a : Allocated) × (alloc_imap_bit sb map_on_disk (λ at. 0) ≡ ok a) × IsFirstFree map_on_disk a
alloc_imap_bit-IsFirstFree_example =
    alloc_imap_bit-IsFirstFree sb map_on_disk (λ at. 0) 3 (λ at. ground arith) (omega arith)
      (omega arith) (ground arith)
