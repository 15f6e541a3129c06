-- ===== src/Fs.antt =====
-- The file system task (fs): its tables, and its access to the sectors of the root device.
--
-- Memory, the task's sector buffer and the disk are functions from addresses to bytes. The disk is
-- the one that `rw_sector` reaches through the driver: all inodes lie on it, and the sizes and
-- positions of files are natural numbers, which in the source are ints far below 2^31.
pub mod Rdwt
pub mod Imap
pub mod Smap
pub mod Names
pub mod Descriptors
pub mod Inodes
pub mod Dir
use lwos.Common.{ℕ, ◌+◌, ◌-◌, ◌*◌, ◌/◌, ◌%◌, Bool, ◌&&◌, Option, ltb, leb, if◌then◌else◌}

abbrev pub sector_size : ℕ
sector_size = 512

-- `FSBUF_SIZE >> SECTOR_SIZE_SHIFT`.
abbrev pub fsbuf_sectors : ℕ
fsbuf_sectors = 2048

pub record Inode : Type 0 where
  pub i_mode : ℕ
  pub i_size : ℕ
  pub i_start_sect : ℕ
  pub i_nr_sects : ℕ
  pub i_cnt : ℕ
  pub i_num : ℕ

-- `fd_inode` is an index into the inode table.
pub record FileDesc : Type 0 where
  pub fd_mode : ℕ
  pub fd_pos : ℕ
  pub fd_cnt : ℕ
  pub fd_inode : Option ℕ

abbrev pub i_type_mask : ℕ
i_type_mask = 61440

abbrev pub i_regular : ℕ
i_regular = 32768

abbrev pub i_directory : ℕ
i_directory = 16384

abbrev pub i_char_special : ℕ
i_char_special = 8192

abbrev pub o_rdwr : ℕ
o_rdwr = 2

-- `phys_copy(dst, src, n)` from the bytes `source` into the bytes `target`.
abbrev pub phys_copy : (target : ℕ → ℕ) (dst : ℕ) (source : ℕ → ℕ) (src n : ℕ) → ℕ → ℕ
phys_copy target dst source src n at =
    if leb dst at && ltb at (dst + n) then source (src + (at - dst)) else target at

-- The sectors that one transfer of the driver can have: the count in `hd_cmd` is a byte, which tells
-- the drive 256 sectors when it is 0. For more the driver waits for an interrupt that never comes.
abbrev pub max_transfer : ℕ
max_transfer = 256

-- The buffer after `rw_sector(DEV_READ, dev, sect * SECTOR_SIZE, n * SECTOR_SIZE, TASK_FS, fsbuf)`, for
-- up to `max_transfer` sectors.
abbrev pub read_sectors : (disk : ℕ → ℕ) (sect n : ℕ) (fsbuf : ℕ → ℕ) → ℕ → ℕ
read_sectors disk sect n fsbuf = phys_copy fsbuf 0 disk (sect * sector_size) (n * sector_size)

-- The disk after `rw_sector(DEV_WRITE, …)` with the same arguments, for up to `max_transfer` sectors.
abbrev pub write_sectors : (disk : ℕ → ℕ) (sect n : ℕ) (fsbuf : ℕ → ℕ) → ℕ → ℕ
write_sectors disk sect n fsbuf = phys_copy disk (sect * sector_size) fsbuf 0 (n * sector_size)

-- The super block's fields that lead to the inodes.
pub record SuperBlock : Type 0 where
  pub nr_imap_sects : ℕ
  pub nr_smap_sects : ℕ
  pub n_1st_sect : ℕ

abbrev pub inode_size : ℕ
inode_size = 32

-- `blk_nr` of `get_inode` and `sync_inode`.
abbrev pub inode_sector : SuperBlock → ℕ → ℕ
inode_sector sb num = 1 + 1 + sb.nr_imap_sects + sb.nr_smap_sects + (num - 1) / 16

-- A `u32` stored at an address, low byte first.
abbrev pub put_u32 : (ℕ → ℕ) → (at v : ℕ) → ℕ → ℕ
put_u32 m at v =
    phys_copy m at
      (λ i.
        if ltb i 1
        then v % 256
        else if ltb i 2
        then v / 256 % 256
        else if ltb i 3
        then v / 65536 % 256
        else v / 16777216 % 256)
      0 4

-- The four fields of an inode that are on the disk, written into the sector buffer.
pub put_inode_fields : Inode → (ℕ → ℕ) → ℕ → ℕ
put_inode_fields p fsbuf =
    let at : ℕ = (p.i_num - 1) % 16 * inode_size in
    put_u32
      (put_u32 (put_u32 (put_u32 fsbuf at p.i_mode) (at + 4) p.i_size) (at + 8) p.i_start_sect)
      (at + 12) p.i_nr_sects

-- `sync_inode`: the disk and the sector buffer afterwards.
pub sync_inode : SuperBlock → Inode → (disk fsbuf : ℕ → ℕ) → (ℕ → ℕ) × (ℕ → ℕ)
sync_inode sb p disk fsbuf =
    let blk_nr : ℕ = inode_sector sb p.i_num in
    let fsbuf' = put_inode_fields p (read_sectors disk blk_nr 1 fsbuf) in
    (write_sectors disk blk_nr 1 fsbuf', fsbuf')
