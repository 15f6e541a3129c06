-- ===== src/Fs/Rdwt.antt =====
-- fs/read_write.c: `do_rdwt`, which reads and writes open files.
pub mod Transfer
pub mod Whole
pub mod Roundtrip
mod Tests
use lwos.Common.{
  ℕ, zero, suc, ◌+◌, ◌-◌, ◌*◌, ◌/◌, ◌%◌, Bool, not, ◌&&◌, ◌||◌, bit_and, min, ltb, leb, ◌==◌,
  if◌then◌else◌,
}
use lwos.Fault.{Result, ok, err, assertion, spin, check, ◌>>=◌, ◌>>◌}
use lwos.Fs.{
  SuperBlock, Inode, FileDesc, sector_size, max_transfer, fsbuf_sectors, i_type_mask, i_regular,
  i_directory, i_char_special, o_rdwr, phys_copy, read_sectors, write_sectors, sync_inode,
}

-- The message's fields that `do_rdwt` reads. `writing` tells WRITE from READ, `seg` is the base of
-- the caller's data segment.
pub record Request : Type 0 where
  pub writing : Bool
  pub source : ℕ
  pub seg : ℕ
  pub buf : ℕ
  pub cnt : ℕ

-- What the loop reads and writes.
pub record State : Type 0 where
  pub disk : ℕ → ℕ
  pub fsbuf : ℕ → ℕ
  pub mem : ℕ → ℕ
  pub fd_pos : ℕ
  pub off : ℕ
  pub bytes_rw : ℕ
  pub bytes_left : ℕ

-- `va2la(src, buf + bytes_rw)`.
abbrev pub user_address : Request → ℕ → ℕ
user_address r bytes_rw = r.seg + (r.buf + bytes_rw)

-- One pass through the loop, for the sectors from `i` on.
pub pass : Request → (chunk i : ℕ) → State → State
pass r chunk i s =
    let bytes : ℕ = min s.bytes_left (chunk * sector_size - s.off) in
    let fsbuf = read_sectors s.disk i chunk s.fsbuf in
    let fsbuf' =
      if r.writing then phys_copy fsbuf s.off s.mem (user_address r s.bytes_rw) bytes else fsbuf in
    record {
      disk = if r.writing then write_sectors s.disk i chunk fsbuf' else s.disk;
      fsbuf = fsbuf';
      mem =
          if r.writing
          then s.mem
          else phys_copy s.mem (user_address r s.bytes_rw) fsbuf s.off bytes;
      fd_pos = s.fd_pos + bytes;
      off = 0;
      bytes_rw = s.bytes_rw + bytes;
      bytes_left = s.bytes_left - bytes;
    }

-- The loop: `for (i = …; i <= rw_sect_max; i += chunk)`.
pub pass_loop : ℕ → Request → (chunk rw_sect_max i : ℕ) → State → Result State
pass_loop zero r chunk rw_sect_max i s = err spin
pass_loop (suc fuel) r chunk rw_sect_max i s =
    let rest = pass_loop fuel r chunk rw_sect_max (i + chunk) (pass r chunk i s) in
    if leb i rw_sect_max then rest else ok s

-- The first sector of the request and the last one.
abbrev pub rw_sect_min : Inode → ℕ → ℕ
rw_sect_min pin pos = pin.i_start_sect + pos / sector_size

abbrev pub rw_sect_max : Inode → Request → ℕ → ℕ
rw_sect_max pin r pos =
    pin.i_start_sect
    + (if r.writing
        then min (pos + r.cnt) (pin.i_nr_sects * sector_size)
        else min (pos + r.cnt) pin.i_size)
      / sector_size

-- What `do_rdwt` returns with: the number of bytes; or a message to the driver of a terminal, with
-- the caller's number for the answer, whose `CNT` is asserted to be the request's and is returned.
pub data Reply : Type 0 where
  returned : ℕ → Reply
  to_driver : (writing : Bool) (device buf cnt procnr : ℕ) → Reply

-- The open file, its inode, the disk and memory.
pub record Files : Type 0 where
  pub sb : SuperBlock
  pub desc : FileDesc
  pub pin : Inode
  pub disk : ℕ → ℕ
  pub fsbuf : ℕ → ℕ
  pub mem : ℕ → ℕ

-- The state in which the loop starts.
abbrev pub start : Request → Files → State
start r f = record {
  disk = f.disk;
  fsbuf = f.fsbuf;
  mem = f.mem;
  fd_pos = f.desc.fd_pos;
  off = f.desc.fd_pos % sector_size;
  bytes_rw = 0;
  bytes_left = r.cnt;
}

-- `if (fd_pos > pin->i_size) …` and the return.
pub settle : Files → State → Reply × Files
settle f s =
    let f' : Files = record f {
      desc = record (f.desc) { fd_pos = s.fd_pos };
      disk = s.disk;
      fsbuf = s.fsbuf;
      mem = s.mem;
    } in
    let pin' : Inode = record (f.pin) { i_size = s.fd_pos } in
    let (disk', fsbuf') = sync_inode f.sb pin' s.disk s.fsbuf in
    (
      returned s.bytes_rw,
      if ltb f.pin.i_size s.fd_pos
          then record f' { pin = pin'; disk = disk'; fsbuf = fsbuf' }
          else f',
    )

-- The part for regular files and the root directory. A first transfer of more sectors than the driver
-- can have does not end.
pub rdwt_file : Request → Files → Result (Reply × Files)
rdwt_file r f = do
  check ((f.pin.i_mode == i_regular) || (f.pin.i_mode == i_directory)) assertion
  let pos = f.desc.fd_pos
  let first = rw_sect_min f.pin pos
  let last = rw_sect_max f.pin r pos
  let chunk = min (last + 1 - first) fsbuf_sectors
  check (leb chunk max_transfer) spin
  s ← pass_loop (last + 1 - first + 1) r chunk last first (start r f)
  ok (settle f s)

-- `filp[fd]` and its inode are taken to point into their tables, as the first assertions check.
pub do_rdwt : Request → Files → Result (Reply × Files)
do_rdwt r f =
    if bit_and f.desc.fd_mode o_rdwr == 0
    then ok (returned 0, f)
    else if bit_and f.pin.i_mode i_type_mask == i_char_special
    then (let dev : ℕ = f.pin.i_start_sect in
        check (dev / 256 % 256 == 4) assertion
        >> ok (to_driver r.writing (dev % 256) r.buf r.cnt r.source, f))
    else rdwt_file r f
