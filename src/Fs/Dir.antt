-- ===== src/Fs/Dir.antt =====
-- Directories: `search_file` of fs/misc.c and `new_dir_entry` of fs/open.c.
--
-- The root directory is the inode in slot `root` of the inode table. A name is the list of its
-- characters, all different from 0.
pub mod Scan
pub mod Search
pub mod Entry
pub mod Insert
pub mod Written
pub mod Roundtrip
mod Tests
use lwos.Common.{
  ℕ, zero, suc, ◌+◌, ◌-◌, ◌*◌, ◌/◌, ◌%◌, Bool, true, false, not, ◌&&◌, Option, none, some, List, [],
  ◌∷◌, length, get_or, ltb, leb, ◌==◌, if◌then◌else◌,
}
use lwos.Fault.{Result, ok, err, wild, ◌>>=◌}
use lwos.Proc.{update}
use lwos.Fs.{Inode, SuperBlock, sector_size, read_sectors, write_sectors, put_u32, sync_inode}
use lwos.Fs.Inodes.{Store, get_u32}
use lwos.Fs.Names.{max_filename_len, strip_path}

abbrev pub dir_entry_size : ℕ
dir_entry_size = 16

-- `SECTOR_SIZE / DIR_ENTRY_SIZE`.
abbrev pub sector_entries : ℕ
sector_entries = 32

-- The local `filename` of `search_file`, which is filled with 0 at first.
abbrev pub filename : List ℕ → ℕ → ℕ
filename name i = get_or name i 0

-- `memcmp(filename, pde->name, n) == 0`, from byte `i` on.
pub same_from : (n i : ℕ) → List ℕ → (fsbuf : ℕ → ℕ) → (at : ℕ) → Bool
same_from zero i name fsbuf at = true
same_from (suc n) i name fsbuf at =
    (filename name i == fsbuf (at + i)) && same_from n (i + 1) name fsbuf at

-- The entry at `pde` has the name.
pub has_name : List ℕ → (fsbuf : ℕ → ℕ) → (pde : ℕ) → Bool
has_name name fsbuf pde = same_from max_filename_len 0 name fsbuf (pde + 4)

-- How the loop over the entries of a sector ends: with the entry's inode, behind the last entry of the
-- directory, or with the count `m` of the entries so far.
pub data Seen : Type 0 where
  found : (inode_nr : ℕ) → Seen
  stop : Seen
  go_on : (m : ℕ) → Seen

-- The inner loop of `search_file`: `n` entries left, from entry `j` on.
pub scan_entries : (n j m nr_dir_entries : ℕ) → List ℕ → (fsbuf : ℕ → ℕ) → Seen
scan_entries zero j m nr name fsbuf = go_on m
scan_entries (suc n) j m nr name fsbuf =
    let rest = scan_entries n (j + 1) (m + 1) nr name fsbuf in
    if has_name name fsbuf (j * dir_entry_size)
    then found (get_u32 fsbuf (j * dir_entry_size))
    else if ltb nr (m + 1)
    then stop
    else rest

-- What follows the inner loop: `return`, `break`, or the next sector.
abbrev pub end_scan : (fsbuf : ℕ → ℕ) → (rest : ℕ → ℕ × (ℕ → ℕ)) → Seen → ℕ × (ℕ → ℕ)
end_scan fsbuf rest (found inode_nr) = (inode_nr, fsbuf)
end_scan fsbuf rest stop = (0, fsbuf)
end_scan fsbuf rest (go_on m) = rest m

-- The outer loop: `n` sectors left, from the one after `i` others on. The inode, 0 if there is none,
-- and the sector buffer.
pub scan_sectors :
    (n i m nr_dir_entries dir_blk0_nr : ℕ) → List ℕ → (disk fsbuf : ℕ → ℕ) → ℕ × (ℕ → ℕ)
scan_sectors zero i m nr blk0 name disk fsbuf = (0, fsbuf)
scan_sectors (suc n) i m nr blk0 name disk fsbuf =
    let fsbuf' = read_sectors disk (blk0 + i) 1 fsbuf in
    end_scan fsbuf' (λ m'. scan_sectors n (i + 1) m' nr blk0 name disk fsbuf')
      (scan_entries sector_entries 0 m nr name fsbuf')

-- `search_file` behind `strip_path`.
pub search_dir : Inode → List ℕ → (disk fsbuf : ℕ → ℕ) → ℕ × (ℕ → ℕ)
search_dir dir name disk fsbuf =
    let blocks : ℕ = (dir.i_size + sector_size - 1) / sector_size in
    if length name == 0
    then (dir.i_num, fsbuf)
    else scan_sectors blocks 0 0 (dir.i_size / dir_entry_size) dir.i_start_sect name disk fsbuf

-- `search_file`: the number of the inode, 0 if there is none.
pub search_file : (root : ℕ) → Option (List ℕ) → Store → Result (ℕ × Store)
search_file root path s = strip_path max_filename_len path >>= λ stripped. elim stripped [
  | none ↦ ok (0, s)
  | some name ↦
      let (inode_nr, fsbuf') = search_dir (s.inode_table root) name s.disk s.fsbuf in
      ok (inode_nr, record s { fsbuf = fsbuf' })
]

-- How the loop of `new_dir_entry` over the entries of a sector ends: at a free entry, behind the last
-- entry of the directory, or with the count of the entries so far.
pub data Place : Type 0 where
  hole : (j : ℕ) → Place
  past : (j : ℕ) → Place
  next : (m : ℕ) → Place

pub find_place : (n j m nr_dir_entries : ℕ) → (fsbuf : ℕ → ℕ) → Place
find_place zero j m nr fsbuf = next m
find_place (suc n) j m nr fsbuf =
    let rest = find_place n (j + 1) (m + 1) nr fsbuf in
    if ltb nr (m + 1)
    then past j
    else if get_u32 fsbuf (j * dir_entry_size) == 0
    then hole j
    else rest

-- `strcpy(p, name)`.
pub strcpy : (ℕ → ℕ) → (p : ℕ) → List ℕ → ℕ → ℕ
strcpy m p name at =
    if leb p at && ltb at (p + length name)
    then get_or name (at - p) 0
    else if at == p + length name
    then 0
    else m at

-- What follows the loops: entry `j` of sector `i`, which is in the buffer, gets the inode and the
-- name, and the directory grows if `grow`.
pub write_entry :
    SuperBlock → (root i j : ℕ) → (grow : Bool) → (inode_nr : ℕ) → List ℕ → Store → Store
write_entry sb root i j grow inode_nr name s =
    let dir : Inode = s.inode_table root in
    let dir' : Inode = if grow then record dir { i_size = dir.i_size + dir_entry_size } else dir in
    let pde : ℕ = j * dir_entry_size in
    let fsbuf1 = strcpy (put_u32 s.fsbuf pde inode_nr) (pde + 4) name in
    let disk1 = write_sectors s.disk (dir.i_start_sect + i) 1 fsbuf1 in
    let (disk2, fsbuf2) = sync_inode sb dir' disk1 fsbuf1 in
    record { inode_table = update s.inode_table root dir'; disk = disk2; fsbuf = fsbuf2 }

-- What follows the inner loop: the write, or the next sector.
abbrev pub end_place :
    (write : (j : ℕ) → (grow : Bool) → Store) (rest : ℕ → Result Store) → Place → Result Store
end_place write rest (hole j) = ok (write j false)
end_place write rest (past j) = ok (write j true)
end_place write rest (next m) = rest m

-- The outer loop of `new_dir_entry` and what follows it. Behind all sectors `pde` points behind the
-- buffered one.
pub place_entry :
    SuperBlock → (n root i m nr_dir_entries inode_nr : ℕ) → List ℕ → Store → Result Store
place_entry sb zero root i m nr inode_nr name s = err wild
place_entry sb (suc n) root i m nr inode_nr name s =
    let start : ℕ = (s.inode_table root).i_start_sect in
    let s' : Store = record s { fsbuf = read_sectors s.disk (start + i) 1 s.fsbuf } in
    end_place (λ j grow. write_entry sb root i j grow inode_nr name s')
      (λ m'. place_entry sb n root (i + 1) m' nr inode_nr name s')
      (find_place sector_entries 0 m nr s'.fsbuf)

pub new_dir_entry : SuperBlock → (root inode_nr : ℕ) → List ℕ → Store → Result Store
new_dir_entry sb root inode_nr name s =
    let size : ℕ = (s.inode_table root).i_size in
    place_entry sb ((size + sector_size) / sector_size) root 0 0 (size / dir_entry_size) inode_nr
      name s
