-- ===== src/Fs/Inodes.antt =====
-- fs/main.c: `get_inode` and the table of inodes that it keeps as a cache; `new_inode` of fs/open.c.
--
-- All inodes are on the root device, so an inode is told by its number.
pub mod Search
pub mod Cache
pub mod Load
mod Tests
use lwos.Common.{
  ℕ, zero, suc, ◌+◌, ◌-◌, ◌*◌, ◌/◌, ◌%◌, ◌^◌, Bool, true, false, not, ◌&&◌, Option, none, some,
  ◌==◌, if◌then◌else◌,
}
use lwos.Fault.{Result, ok, err, panic, wild, ◌>>=◌}
use lwos.Proc.{update}
use lwos.Fs.{Inode, SuperBlock, inode_size, inode_sector, i_regular, read_sectors, sync_inode}

abbrev pub nr_inode : ℕ
nr_inode = 64

-- `inode_table`, the disk and the sector buffer.
pub record Store : Type 0 where
  pub inode_table : ℕ → Inode
  pub disk : ℕ → ℕ
  pub fsbuf : ℕ → ℕ

-- What the search through the table ends with: the slot of the inode, or the first free slot.
pub data Slot : Type 0 where
  cached : ℕ → Slot
  spare : Option ℕ → Slot

abbrev pub is_used : Inode → Bool
is_used p = not (p.i_cnt == 0)

-- `if (!q) q = p`.
abbrev pub keep_first : Option ℕ → ℕ → Option ℕ
keep_first none p = some p
keep_first (some q) p = some q

-- The loop over `n` slots from `p` on.
pub find_slot : (n p : ℕ) → (ℕ → Inode) → (num : ℕ) → Option ℕ → Slot
find_slot zero p table num q = spare q
find_slot (suc n) p table num q =
    let rest = find_slot n (p + 1) table num (if is_used (table p) then q else keep_first q p) in
    if is_used (table p) && ((table p).i_num == num) then cached p else rest

-- A `u32` from an address on, low byte first.
abbrev pub get_u32 : (ℕ → ℕ) → ℕ → ℕ
get_u32 m at = m at + m (at + 1) * 2 ^ 8 + m (at + 2) * 2 ^ 16 + m (at + 3) * 2 ^ 24

-- The fields of inode `num` that are in the sector buffer, and one reference.
pub loaded : (num : ℕ) → (ℕ → ℕ) → Inode
loaded num fsbuf =
    let at : ℕ = (num - 1) % 16 * inode_size in
    record {
      i_mode = get_u32 fsbuf at;
      i_size = get_u32 fsbuf (at + 4);
      i_start_sect = get_u32 fsbuf (at + 8);
      i_nr_sects = get_u32 fsbuf (at + 12);
      i_cnt = 1;
      i_num = num;
    }

-- What `get_inode` does with the slot.
pub take_slot : SuperBlock → (num : ℕ) → Slot → Store → Result (ℕ × Store)
take_slot sb num (cached p) s =
    let inode = s.inode_table p in
    ok (
      p,
      record s { inode_table = update s.inode_table p (record inode { i_cnt = inode.i_cnt + 1 }) },
    )
take_slot sb num (spare none) s = err panic
take_slot sb num (spare (some q)) s =
    let fsbuf' = read_sectors s.disk (inode_sector sb num) 1 s.fsbuf in
    ok (q, record s { inode_table = update s.inode_table q (loaded num fsbuf'); fsbuf = fsbuf' })

-- The slot of the inode; `none` is a null pointer.
pub get_inode : SuperBlock → ℕ → Store → Result (Option ℕ × Store)
get_inode sb num s =
    let found = take_slot sb num (find_slot nr_inode 0 s.inode_table num none) s >>= λ (p, s').
    ok (some p, s') in
    if num == 0 then ok (none, s) else found

abbrev pub nr_default_file_sects : ℕ
nr_default_file_sects = 2048

-- `new_inode`. A null pointer from `get_inode` would be written through.
pub new_inode : SuperBlock → (inode_nr start_sect : ℕ) → Store → Result (ℕ × Store)
new_inode sb inode_nr start_sect s = get_inode sb inode_nr s >>= λ (slot, s1). elim slot [
  | none ↦ err wild
  | some p ↦
      let inode : Inode = record {
        i_mode = i_regular;
        i_size = 0;
        i_start_sect = start_sect;
        i_nr_sects = nr_default_file_sects;
        i_cnt = 1;
        i_num = inode_nr;
      } in
      let (disk', fsbuf') = sync_inode sb inode s1.disk s1.fsbuf in
      ok (p, record { inode_table = update s1.inode_table p inode; disk = disk'; fsbuf = fsbuf' })
]
