-- ===== src/Hd/Partition.antt =====
-- kernel/hd.c: the partition tables, opening, closing and the other requests; the dispatch of `task_hd`.
pub mod Chain
use lwos.Common.{
  ℕ, zero, suc, ◌+◌, ◌-◌, ◌*◌, ◌/◌, ◌%◌, ◌^◌, Bool, true, false, not, ltb, leb, ◌==◌, if◌then◌else◌,
}
use lwos.Common.Int.{ℤ, pos, negsuc, ◌+ℤ◌, ◌-ℤ◌}
use lwos.Fault.{Result, ok, err, assertion, wild, spin, check, ◌>>=◌, ◌>>◌}
use lwos.Proc.{update}
use lwos.Fs.{put_u32}
use lwos.Hd.{
  HdCmd, Controller, PartInfo, Hd, Request, ata_read, ata_identify, sector_cmd, part_of, drv_of_dev,
  make_device_reg, nr_part_per_drive, nr_sub_per_part, nr_prim_per_drive, hd_cmd_out, hd_rdwt,
}

-- `struct part_ent`.
pub record PartEnt : Type 0 where
  pub boot_ind : ℕ
  pub start_head : ℕ
  pub start_sector : ℕ
  pub start_cyl : ℕ
  pub sys_id : ℕ
  pub end_head : ℕ
  pub end_sector : ℕ
  pub end_cyl : ℕ
  pub start_sect : ℕ
  pub nr_sects : ℕ

-- Four bytes, low byte first.
abbrev u32_at : (ℕ → ℕ) → ℕ → ℕ
u32_at m at = m at + m (at + 1) * 2 ^ 8 + m (at + 2) * 2 ^ 16 + m (at + 3) * 2 ^ 24

-- The entry that is stored at an address.
unfoldable pub part_ent_at : (ℕ → ℕ) → ℕ → PartEnt
part_ent_at m at = record {
  boot_ind = m at;
  start_head = m (at + 1);
  start_sector = m (at + 2);
  start_cyl = m (at + 3);
  sys_id = m (at + 4);
  end_head = m (at + 5);
  end_sector = m (at + 6);
  end_cyl = m (at + 7);
  start_sect = u32_at m (at + 8);
  nr_sects = u32_at m (at + 12);
}

abbrev pub partition_table_offset : ℕ
partition_table_offset = 0x1be

abbrev pub no_part : ℕ
no_part = 0

abbrev pub ext_part : ℕ
ext_part = 5

abbrev pub p_primary : ℕ
p_primary = 0

abbrev pub p_extended : ℕ
p_extended = 1

-- Whether the count of the open devices is 0.
abbrev is_zero : ℤ → Bool
is_zero (pos zero) = true
is_zero (pos (suc n)) = false
is_zero (negsuc n) = false

module _ (c : Controller) where
  -- `get_part_table`: the entries by their indices.
  pub get_part_table : (drive sect_nr : ℕ) → Hd → Result ((ℕ → PartEnt) × Hd)
  get_part_table drive sect_nr hd =
      let cmd = sector_cmd drive sect_nr 1 ata_read in
      hd_cmd_out c cmd hd >>= λ hd'.
      ok ((λ i. part_ent_at (c.answer cmd 0) (partition_table_offset + i * 16)), hd')

  -- The loop over the tables of an extended partition: `n` rounds left, round `i`, with its table in
  -- sector `s`.
  pub extended_loop : (n drive ext_start_sect nr_1st_sub i s : ℕ) → Hd → Result Hd
  extended_loop zero drive ext_start_sect nr_1st_sub i s hd = ok hd
  extended_loop (suc n) drive ext_start_sect nr_1st_sub i s hd =
      get_part_table drive s hd >>= λ (part_tbl, hd1).
      let info : PartInfo = record {
        base = (s + (part_tbl 0).start_sect) % 2 ^ 32;
        size = (part_tbl 0).nr_sects;
      } in
      let hd2 : Hd = record hd1 { logical = update hd1.logical (nr_1st_sub + i) info } in
      let rest =
        extended_loop n drive ext_start_sect nr_1st_sub (i + 1)
          ((ext_start_sect + (part_tbl 1).start_sect) % 2 ^ 32) hd2 in
      if (part_tbl 1).sys_id == no_part then ok hd2 else rest

  -- The branch for `P_EXTENDED`. `hd_info` has an entry for drive 0 only. For `j` 0 the index of the first logical partition is negative.
  pub partition_extended : (device : ℕ) → Hd → Result Hd
  partition_extended device hd =
      let j : ℕ = device % nr_prim_per_drive in
      let s : ℕ = (hd.primary j).base in
      check (drv_of_dev device == 0) wild
      >> (check (not (j == 0)) wild
          >> extended_loop nr_sub_per_part (drv_of_dev device) s ((j - 1) * nr_sub_per_part) 0 s hd)

  -- The loop over the entries of the first table: `n` rounds left, round `i`. The count is of the
  -- entries in use.
  pub primary_loop : (n device i nr_prim_parts : ℕ) → (ℕ → PartEnt) → Hd → Result (ℕ × Hd)
  primary_loop zero device i nr_prim_parts part_tbl hd = ok (nr_prim_parts, hd)
  primary_loop (suc n) device i nr_prim_parts part_tbl hd =
      let dev_nr : ℕ = i + 1 in
      let info : PartInfo = record {
        base = (part_tbl i).start_sect;
        size = (part_tbl i).nr_sects;
      } in
      let hd1 : Hd = record hd { primary = update hd.primary dev_nr info } in
      let skip = primary_loop n device (i + 1) nr_prim_parts part_tbl hd in
      let use_it =
        check (drv_of_dev device == 0) wild
        >> (if (part_tbl i).sys_id == ext_part
            then partition_extended (device + dev_nr) hd1
            else ok hd1)
        >>= λ hd2. primary_loop n device (i + 1) (nr_prim_parts + 1) part_tbl hd2 in
      if (part_tbl i).sys_id == no_part then skip else use_it

  pub partition : (device style : ℕ) → Hd → Result Hd
  partition device style hd =
      let drive : ℕ = drv_of_dev device in
      if style == p_primary
      then (get_part_table drive drive hd >>= λ (part_tbl, hd1).
          primary_loop nr_part_per_drive device 0 0 part_tbl hd1 >>= λ (nr_prim_parts, hd2).
          check (not (nr_prim_parts == 0)) assertion >> ok hd2)
      else if style == p_extended
      then partition_extended device hd
      else err assertion

  -- `hd_identify`: the size is in the words 60 and 61 of the answer.
  pub hd_identify : ℕ → Hd → Result Hd
  hd_identify drive hd =
      let cmd : HdCmd = record {
        features = 0;
        count = 0;
        lba_low = 0;
        lba_mid = 0;
        lba_high = 0;
        device = make_device_reg 0 drive 0;
        command = ata_identify;
      } in
      hd_cmd_out c cmd hd >>= λ hd1.
      let info : PartInfo = record { base = 0; size = u32_at (c.answer cmd 0) 120 } in
      ok (record hd1 { primary = update hd1.primary 0 info })

  pub hd_open : ℕ → Hd → Result Hd
  hd_open device hd = do
    let drive : ℕ = drv_of_dev device
    check (drive == 0) assertion
    hd1 ← hd_identify drive hd
    let hd2 : Hd = record hd1 { open_cnt = hd1.open_cnt +ℤ pos 1 }
    if is_zero hd1.open_cnt
        then partition (drive * (nr_part_per_drive + 1)) p_primary hd2
        else ok hd2

  pub hd_close : ℕ → Hd → Result Hd
  hd_close device hd =
      check (drv_of_dev device == 0) assertion >> ok (record hd { open_cnt = hd.open_cnt -ℤ pos 1 })

-- `hd_ioctl` with `DIOCTL_GET_GEO`, whose number is 1, and the linear address of its buffer.
pub hd_ioctl : (device request dst : ℕ) → Hd → Result Hd
hd_ioctl device request dst hd =
    if request == 1
    then (part_of device hd >>= λ part.
        ok (record hd { mem = put_u32 (put_u32 hd.mem dst part.base) (dst + 4) part.size }))
    else err assertion

-- A message to the driver.
pub data HdMessage : Type 0 where
  dev_open dev_close : (device : ℕ) → HdMessage
  dev_rdwt : Request → HdMessage
  dev_ioctl : (device request dst : ℕ) → HdMessage
  unknown : HdMessage

-- One round of `task_hd`, which answers the sender afterwards.
pub task_hd : Controller → HdMessage → Hd → Result Hd
task_hd c (dev_open device) hd = hd_open c device hd
task_hd c (dev_close device) hd = hd_close c device hd
task_hd c (dev_rdwt r) hd = hd_rdwt c r hd
task_hd c (dev_ioctl device request dst) hd = hd_ioctl device request dst hd
task_hd c unknown hd = err spin
