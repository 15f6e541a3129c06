-- ===== src/Hd/Tests.antt =====
-- Requests to a drive whose bytes count up, and a chain of two tables.
use lwos.Common.{
  ℕ, ◌+◌, ◌-◌, ◌*◌, ◌%◌, ◌≡◌, refl, Bool, true, false, ◌&&◌, List, [], ◌∷◌, arith, ltb, leb, ◌==◌,
  if◌then◌else◌, length, get_or,
}
use lwos.Common.Int.{pos}
use lwos.Fault.{ok, err, spin}
use lwos.Fs.{sector_size}
use lwos.Hd.{
  Controller, PartInfo, Hd, Request, part_of, drv_of_dev, sector_cmd, hd_rdwt, hd_cmd_out, transfer,
  nr_prim_per_drive, nr_sub_per_part,
}
use lwos.Hd.Lba.{lba, lba-sector_cmd, drive_of, is_lba_mode}
use lwos.Hd.Transfer.{IsDrive}
use lwos.Hd.Whole.{IsRequest, hd_rdwt-read}
use lwos.Hd.Partition.{partition_extended, part_ent_at}
use lwos.Hd.Partition.Chain.{Chain, last, link, logical_at, partition_extended-logical}

abbrev counting : ℕ → ℕ
counting n = n % 251

abbrev drive : Controller
drive = record {
  answer = λ cmd k i. counting ((lba cmd + k) * sector_size + i);
  is_idle = λ cmd. true;
  wants_data = λ cmd k. true;
}

drive-IsDrive : IsDrive counting drive
drive-IsDrive = record {
  idle = λ cmd. refl;
  wants = λ cmd k. refl;
  reads = λ cmd k i read mode first h l. refl;
}

abbrev area : PartInfo
area = record { base = 63; size = 1000 }

abbrev disk : Hd
disk = record { open_cnt = pos 1; primary = λ n. area; logical = λ n. area; mem = λ i. 7; out = [] }

-- A thousand bytes from the third sector of the first partition on.
abbrev request : Bool → Request
request reading = record { reading = reading; device = 1; position = 1024; cnt = 1000; la = 5000 }

request-IsRequest : (reading : Bool) → IsRequest (request reading) disk area
unfolding part_of drv_of_dev
request-IsRequest reading = record {
  known = refl;
  first_drive = refl;
  aligned = refl;
  low = omega arith;
  short = omega arith;
}

hd_rdwt-read_example :
    (hd' : Hd) × (hd_rdwt drive (request true) disk ≡ ok hd')
    × ((at : ℕ)
        → hd'.mem at ≡ (
            if leb 5000 at && ltb at (5000 + 1000)
            then counting (1024 + 63 * sector_size + (at - 5000))
            else 7))
hd_rdwt-read_example =
    hd_rdwt-read drive counting (request true) disk area drive-IsDrive (request-IsRequest true) refl

-- Two sectors from there on.
abbrev two_sectors : Request
two_sectors = record { reading = false; device = 1; position = 1024; cnt = 1024; la = 5000 }

-- The last byte of the thousand does not reach the drive in a whole sector.
partial_write : hd_rdwt drive (request false) disk ≡ err spin
unfolding hd_rdwt hd_cmd_out transfer part_of drv_of_dev
partial_write = refl

lba-sector_cmd_example :
    (lba (sector_cmd 1 123456789 1 0x20) ≡ 123456789)
    × (drive_of (sector_cmd 1 123456789 1 0x20) ≡ 1)
    × (is_lba_mode (sector_cmd 1 123456789 1 0x20) ≡ true)
lba-sector_cmd_example = lba-sector_cmd 1 123456789 1 0x20 (omega arith) (omega arith)

-- The table in sector 63 leads to the one ten sectors on, which is the last.
abbrev chained : Controller
chained = record {
  answer = λ cmd k i.
      if cmd.lba_low == 63
      then (if i == 466 then 5 else if i == 470 then 10 else if i == 454 then 1 else 0)
      else 0;
  is_idle = λ cmd. true;
  wants_data = λ cmd k. true;
}

abbrev tables : List ℕ
tables = 63 ∷ 73 ∷ []

two_tables : Chain chained (drv_of_dev 1) 63 63 tables
unfolding drv_of_dev sector_cmd part_ent_at
two_tables = link (omega arith) (last refl)

first_drive : drv_of_dev 1 ≡ 0
unfolding drv_of_dev
first_drive = refl

partition_extended-logical_example :
    (hd' : Hd) × (partition_extended chained 1 disk ≡ ok hd')
    × ((m : ℕ)
        → let first : ℕ = (1 % nr_prim_per_drive - 1) * nr_sub_per_part in
          hd'.logical m ≡ (
            if leb first m && ltb m (first + length tables)
            then logical_at chained (drv_of_dev 1) (get_or tables (m - first) 0)
            else disk.logical m))
    × (hd'.primary ≡ disk.primary)
    × (hd'.mem ≡ disk.mem)
partition_extended-logical_example =
    partition_extended-logical chained 1 disk tables (λ cmd. refl) first_drive (omega arith)
      two_tables (omega arith)
