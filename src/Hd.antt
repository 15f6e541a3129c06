-- ===== src/Hd.antt =====
-- kernel/hd.c: the hard disk driver; include/sys/hd.h.
--
-- The controller is a parameter: what it answers to a command, and whether it gets ready in time.
pub mod Lba
pub mod Transfer
pub mod Whole
pub mod Partition
mod Tests
use lwos.Common.{
  ℕ, zero, suc, ◌+◌, ◌-◌, ◌*◌, ◌/◌, ◌%◌, ◌^◌, min, Bool, true, false, not, ◌&&◌, List, [], ◌∷◌,
  ◌++◌, map, bit_and, bit_or, ltb, leb, ◌==◌, if◌then◌else◌,
}
use lwos.Common.Int.{ℤ, pos, ◌+ℤ◌, ◌-ℤ◌}
use lwos.Fault.{Result, ok, err, assertion, panic, wild, spin, check, ◌>>=◌, ◌>>◌}
use lwos.Proc.{update}
use lwos.Fs.{phys_copy, sector_size}
use lwos.Tty.{bytes}

pub record HdCmd : Type 0 where
  pub features : ℕ
  pub count : ℕ
  pub lba_low : ℕ
  pub lba_mid : ℕ
  pub lba_high : ℕ
  pub device : ℕ
  pub command : ℕ

-- `answer cmd k i` is byte `i` of the sector that follows the interrupt number `k` after the command.
-- `is_idle` and `wants_data` are what `waitfor` returns before a command and before sector `k` of a
-- write.
pub record Controller : Type 0 where
  pub answer : HdCmd → ℕ → ℕ → ℕ
  pub is_idle : HdCmd → Bool
  pub wants_data : HdCmd → ℕ → Bool

-- What goes out to the controller: a command, and the bytes of a sector.
pub data Output : Type 0 where
  issue : HdCmd → Output
  data_out : List ℕ → Output

pub record PartInfo : Type 0 where
  pub base : ℕ
  pub size : ℕ

-- `hd_info[0]`, memory, and the output so far.
pub record Hd : Type 0 where
  pub open_cnt : ℤ
  pub primary : ℕ → PartInfo
  pub logical : ℕ → PartInfo
  pub mem : ℕ → ℕ
  pub out : List Output

abbrev pub nr_part_per_drive : ℕ
nr_part_per_drive = 4

abbrev pub nr_sub_per_part : ℕ
nr_sub_per_part = 16

abbrev pub nr_sub_per_drive : ℕ
nr_sub_per_drive = nr_sub_per_part * nr_part_per_drive

abbrev pub nr_prim_per_drive : ℕ
nr_prim_per_drive = nr_part_per_drive + 1

abbrev pub max_prim : ℕ
max_prim = 2 * nr_prim_per_drive

abbrev pub minor_hd1a : ℕ
minor_hd1a = 16

abbrev pub ata_read : ℕ
ata_read = 0x20

abbrev pub ata_write : ℕ
ata_write = 0x30

abbrev pub ata_identify : ℕ
ata_identify = 0xec

-- `DRV_OF_DEV`. A division rounds towards 0, so the devices below `MINOR_hd1a` give 0.
pub drv_of_dev : ℕ → ℕ
drv_of_dev dev =
    if leb dev max_prim then dev / nr_prim_per_drive else (dev - minor_hd1a) / nr_sub_per_drive

-- `MAKE_DEVICE_REG`, as the byte that it is stored in.
pub make_device_reg : (lba drv lba_highest : ℕ) → ℕ
make_device_reg lba drv lba_highest =
    bit_or (bit_or (bit_or (lba * 64) (drv * 16)) (bit_and lba_highest 0xf)) 0xa0 % 256

-- The command that `hd_rdwt` and `get_part_table` fill in.
pub sector_cmd : (drive sect_nr count command : ℕ) → HdCmd
sector_cmd drive sect_nr count command = record {
  features = 0;
  count = count % 256;
  lba_low = bit_and sect_nr 0xff;
  lba_mid = bit_and (sect_nr / 2 ^ 8) 0xff;
  lba_high = bit_and (sect_nr / 2 ^ 16) 0xff;
  device = make_device_reg 1 drive (bit_and (sect_nr / 2 ^ 24) 0xf);
  command = command;
}

-- `hd_info[drive]` has one entry, and `logical` is read only from the first logical device on.
pub part_of : ℕ → Hd → Result PartInfo
part_of device hd =
    if ltb 0 (drv_of_dev device)
    then err wild
    else if ltb device max_prim
    then ok (hd.primary device)
    else if ltb device minor_hd1a
    then err wild
    else ok (hd.logical ((device - minor_hd1a) % nr_sub_per_drive))

-- A `DEV_READ` or `DEV_WRITE` request, with the linear address of its buffer.
pub record Request : Type 0 where
  pub reading : Bool
  pub device : ℕ
  pub position : ℕ
  pub cnt : ℕ
  pub la : ℕ

module _ (c : Controller) where
  pub hd_cmd_out : HdCmd → Hd → Result Hd
  hd_cmd_out cmd hd =
      check (c.is_idle cmd) panic >> ok (record hd { out = hd.out ++ (issue cmd ∷ []) })

  -- The loop of `hd_rdwt`, from sector `k` on. `bytes_left` ends at 0 or below. When fewer bytes than
  -- a sector are written the drive waits for the others, and the interrupt never comes.
  pub transfer : ℕ → Request → HdCmd → (k bytes_left la : ℕ) → Hd → Result Hd
  transfer zero r cmd k bytes_left la hd = err spin
  transfer (suc fuel) r cmd k bytes_left la hd =
      let n : ℕ = min sector_size bytes_left in
      let read =
        transfer fuel r cmd (k + 1) (bytes_left - sector_size) (la + sector_size)
          (record hd { mem = phys_copy hd.mem la (c.answer cmd k) 0 n }) in
      let write =
        transfer fuel r cmd (k + 1) (bytes_left - sector_size) (la + sector_size)
          (record hd { out = hd.out ++ (data_out (bytes hd.mem la n) ∷ []) }) in
      if bytes_left == 0
      then ok hd
      else if r.reading
      then read
      else (check (c.wants_data cmd k) panic >> (check (leb sector_size bytes_left) spin >> write))

  -- `pos >> 9` is compared with `1 << 31`, which is `2 ^ 64 - 2 ^ 31` as a 64-bit number.
  pub hd_rdwt : Request → Hd → Result Hd
  hd_rdwt r hd = do
    check (ltb (r.position / sector_size) (2 ^ 64 - 2 ^ 31)) assertion
    check (bit_and r.position 0x1ff == 0) assertion
    part ← part_of r.device hd
    let sect_nr : ℕ = (r.position / sector_size + part.base) % 2 ^ 32
    let count : ℕ = (r.cnt + sector_size - 1) / sector_size
    let cmd =
        sector_cmd (drv_of_dev r.device) sect_nr count (if r.reading then ata_read else ata_write)
    hd' ← hd_cmd_out cmd hd
    transfer (count + 1) r cmd 0 r.cnt r.la hd'
