-- ===== src/Fs/Dir/Written.antt =====
-- What `new_dir_entry` leaves on the disk: the entry it chose has the inode and the name.
use lwos.Common.{
  ℕ, ◌+◌, ◌-◌, ◌*◌, ◌≤◌, ◌<◌, ◌≡◌, ◌⊎◌, ◌∙◌, sym, ap, inl, inr, Bool, true, false, ◌&&◌, List,
  length, ltb, leb, arith, Bool-cases,
}
use lwos.Fs.{
  Inode, SuperBlock, sector_size, inode_sector, read_sectors, write_sectors, put_u32,
  put_inode_fields, sync_inode,
}
use lwos.Fs.Inodes.{Store}
use lwos.Fs.Dir.{dir_entry_size, sector_entries, strcpy, write_entry}
use lwos.Fs.Dir.Scan.{dir_bytes}
use lwos.Fs.Dir.Insert.{entered, strcpy_off, put_u32_off}

write_sectors_off :
    (disk : ℕ → ℕ) (sect : ℕ) (fsbuf : ℕ → ℕ) (at : ℕ)
    → (at < sect * sector_size) ⊎ (sect * sector_size + sector_size ≤ at)
    → write_sectors disk sect 1 fsbuf at ≡ disk at
write_sectors_off disk sect fsbuf at off = ground arith

write_sectors_on :
    (disk : ℕ → ℕ) (sect : ℕ) (fsbuf : ℕ → ℕ) (x : ℕ)
    → x < sector_size
    → write_sectors disk sect 1 fsbuf (sect * sector_size + x) ≡ fsbuf x
write_sectors_on disk sect fsbuf x h = ground arith

-- An entry moves with the buffer that it stands in.
strcpy_shift :
    (f g : ℕ → ℕ) (a p q : ℕ) (name : List ℕ) (x : ℕ)
    → q ≡ a + p
    → f x ≡ g (a + x)
    → strcpy f p name x ≡ strcpy g q name (a + x)
unfolding strcpy
strcpy_shift f g a p q name x e same =
    let back : a + x - (a + p) ≡ x - p = omega arith in ground arith

put_u32_shift :
    (f g : ℕ → ℕ) (a p q v x : ℕ)
    → q ≡ a + p
    → f x ≡ g (a + x)
    → put_u32 f p v x ≡ put_u32 g q v (a + x)
put_u32_shift f g a p q v x e same = ground arith

entered_shift :
    (f g : ℕ → ℕ) (a j p inode_nr : ℕ) (name : List ℕ) (x : ℕ)
    → p * dir_entry_size ≡ a + j * dir_entry_size
    → f x ≡ g (a + x)
    → entered f j inode_nr name x ≡ entered g p inode_nr name (a + x)
entered_shift f g a j p inode_nr name x e same =
    let at : ℕ = j * dir_entry_size in
    let at' : ℕ = p * dir_entry_size in
    strcpy_shift (put_u32 f at inode_nr) (put_u32 g at' inode_nr) a (at + 4) (at' + 4) name x
      (omega arith) (put_u32_shift f g a at at' inode_nr x e same)

entered_same :
    (f : ℕ → ℕ) (p inode_nr : ℕ) (name : List ℕ) (at : ℕ)
    → length name < 12
    → (at < p * dir_entry_size) ⊎ (p * dir_entry_size + dir_entry_size ≤ at)
    → entered f p inode_nr name at ≡ f at
entered_same f p inode_nr name at short off =
    strcpy_off (put_u32 f (p * dir_entry_size) inode_nr) (p * dir_entry_size + 4) name at
      (ground arith)
    ∙ put_u32_off f (p * dir_entry_size) inode_nr at (ground arith)

-- The sector of entry `j`, written back, is that of entry `32 b + j` of the directory.
entered_sector :
    (disk : ℕ → ℕ) (start b j inode_nr : ℕ) (name : List ℕ) (fsbuf : ℕ → ℕ) (at : ℕ)
    → j < sector_entries
    → length name < 12
    → write_sectors disk
        (start + b)
        1
        (entered (read_sectors disk (start + b) 1 fsbuf) j inode_nr name)
        (start * sector_size + at)
      ≡ entered (dir_bytes disk start) (b * sector_entries + j) inode_nr name at
entered_sector disk start b j inode_nr name fsbuf at inside short =
    let buffer = read_sectors disk (start + b) 1 fsbuf in
    let p : ℕ = b * sector_entries + j in
    elim (Bool-cases (leb (b * sector_size) at && ltb at (b * sector_size + sector_size))) [
      | inl within ↦
          let x : ℕ = at - b * sector_size in
          let low : b * sector_size ≤ at = ground arith in
          let x_low : x < sector_size = ground arith in
          let here : b * sector_size + x ≡ at = omega arith in
          let there : start * sector_size + at ≡ (start + b) * sector_size + x = omega arith in
          rw there (
            write_sectors_on disk (start + b) (entered buffer j inode_nr name) x x_low
            ∙ (entered_shift buffer (dir_bytes disk start) (b * sector_size) j p inode_nr name x
                  (omega arith) (ground arith)
                ∙ ap (λ (c : ℕ). entered (dir_bytes disk start) p inode_nr name c) here))
      | inr without ↦
          let off : (at < b * sector_size) ⊎ (b * sector_size + sector_size ≤ at) = ground arith in
          write_sectors_off disk (start + b) (entered buffer j inode_nr name)
            (start * sector_size + at) (ground arith)
          ∙ sym (entered_same (dir_bytes disk start) p inode_nr name at short (ground arith))
    ]

sync_inode_off :
    (sb : SuperBlock) (p : Inode) (disk fsbuf : ℕ → ℕ) (at : ℕ)
    → inode_sector sb p.i_num * sector_size + sector_size ≤ at
    → (sync_inode sb p disk fsbuf).0 at ≡ disk at
unfolding sync_inode
sync_inode_off sb p disk fsbuf at beyond =
    let blk_nr : ℕ = inode_sector sb p.i_num in
    write_sectors_off disk blk_nr (put_inode_fields p (read_sectors disk blk_nr 1 fsbuf)) at
      (inr beyond)

-- What the directory holds after the write.
pub dir_bytes-write_entry :
    (sb : SuperBlock) (root b j : ℕ) (grow : Bool) (inode_nr : ℕ) (name : List ℕ) (s : Store)
    (fsbuf : ℕ → ℕ)
    → let start : ℕ = (s.inode_table root).i_start_sect in
      j < sector_entries
      → length name < 12
      → inode_sector sb (s.inode_table root).i_num < start
      → (at : ℕ)
      → dir_bytes
          (write_entry sb root b j grow inode_nr name
            (record s { fsbuf = read_sectors s.disk (start + b) 1 fsbuf })).disk
          start
          at
        ≡ entered (dir_bytes s.disk start) (b * sector_entries + j) inode_nr name at
unfolding write_entry
dir_bytes-write_entry sb root b j true inode_nr name s fsbuf inside short apart at =
    let dir : Inode = s.inode_table root in
    let start : ℕ = dir.i_start_sect in
    let buffer = entered (read_sectors s.disk (start + b) 1 fsbuf) j inode_nr name in
    sync_inode_off sb (record dir { i_size = dir.i_size + dir_entry_size })
      (write_sectors s.disk (start + b) 1 buffer) buffer (start * sector_size + at) (omega arith)
    ∙ entered_sector s.disk start b j inode_nr name fsbuf at inside short
dir_bytes-write_entry sb root b j false inode_nr name s fsbuf inside short apart at =
    let dir : Inode = s.inode_table root in
    let start : ℕ = dir.i_start_sect in
    let buffer = entered (read_sectors s.disk (start + b) 1 fsbuf) j inode_nr name in
    sync_inode_off sb dir (write_sectors s.disk (start + b) 1 buffer) buffer
      (start * sector_size + at) (omega arith)
    ∙ entered_sector s.disk start b j inode_nr name fsbuf at inside short

-- The directory's inode, which has grown by an entry or not.
abbrev pub grown : (grow : Bool) → Inode → Inode
grown true dir = record dir { i_size = dir.i_size + dir_entry_size }
grown false dir = dir

pub inode-write_entry :
    (sb : SuperBlock) (root b j : ℕ) (grow : Bool) (inode_nr : ℕ) (name : List ℕ) (s : Store)
    → (write_entry sb root b j grow inode_nr name s).inode_table root
      ≡ grown grow (s.inode_table root)
unfolding write_entry
inode-write_entry sb root b j true inode_nr name s = ground arith
inode-write_entry sb root b j false inode_nr name s = ground arith
