-- ===== src/Fs/Inodes/Load.antt =====
-- An inode that was written with `sync_inode` is read back by `get_inode`.
use lwos.Common.{
  ℕ, ◌+◌, ◌-◌, ◌*◌, ◌/◌, ◌%◌, ◌^◌, ◌≤◌, ◌<◌, ◌≡◌, ◌≢◌, ◌⊎◌, inl, refl, ◌∙◌, none, some, false, ◌==◌,
  arith,
}
use lwos.Fault.{ok, ◌>>=◌}
use lwos.Proc.{update}
use lwos.Fs.{
  Inode, SuperBlock, sector_size, inode_size, inode_sector, put_u32, read_sectors, write_sectors,
  put_inode_fields, sync_inode,
}
use lwos.Fs.Inodes.{
  Store, Slot, cached, spare, loaded, get_u32, nr_inode, find_slot, take_slot, get_inode,
}
use lwos.Fs.Inodes.Search.{Holds, IsOutcome, find_slot-IsOutcome}

-- The other words of the buffer stay.
get_u32-put_u32_off :
    (m : ℕ → ℕ) (at v b : ℕ)
    → (b + 4 ≤ at) ⊎ (at + 4 ≤ b)
    → get_u32 (put_u32 m at v) b ≡ get_u32 m b
get_u32-put_u32_off m at v b off = ground arith

byte_0 : (m : ℕ → ℕ) (at v : ℕ) → put_u32 m at v at ≡ v % 256
byte_0 m at v = ground arith

byte_1 : (m : ℕ → ℕ) (at v : ℕ) → put_u32 m at v (at + 1) ≡ v / 256 % 256
byte_1 m at v = ground arith

byte_2 : (m : ℕ → ℕ) (at v : ℕ) → put_u32 m at v (at + 2) ≡ v / 65536 % 256
byte_2 m at v = ground arith

byte_3 : (m : ℕ → ℕ) (at v : ℕ) → put_u32 m at v (at + 3) ≡ v / 16777216 % 256
byte_3 m at v = ground arith

pub get_u32-put_u32 : (m : ℕ → ℕ) (at v : ℕ) → v < 2 ^ 32 → get_u32 (put_u32 m at v) at ≡ v
get_u32-put_u32 m at v h =
    rw (byte_0 m at v, byte_1 m at v, byte_2 m at v, byte_3 m at v) (omega arith)

-- The fields of an inode are words of 32 bits.
pub record IsWords (p : Inode) : Type 0 where
  pub mode : p.i_mode < 2 ^ 32
  pub size : p.i_size < 2 ^ 32
  pub start_sect : p.i_start_sect < 2 ^ 32
  pub nr_sects : p.i_nr_sects < 2 ^ 32

loaded-put_inode_fields :
    (p : Inode) (fsbuf : ℕ → ℕ)
    → IsWords p
    → loaded p.i_num (put_inode_fields p fsbuf) ≡ record p { i_cnt = 1 }
unfolding loaded put_inode_fields
loaded-put_inode_fields p fsbuf w =
    let at : ℕ = (p.i_num - 1) % 16 * inode_size in
    let m1 = put_u32 fsbuf at p.i_mode in
    let m2 = put_u32 m1 (at + 4) p.i_size in
    let m3 = put_u32 m2 (at + 8) p.i_start_sect in
    let m4 = put_u32 m3 (at + 12) p.i_nr_sects in
    let mode : get_u32 m4 at ≡ p.i_mode =
      get_u32-put_u32_off m3 (at + 12) p.i_nr_sects at (inl (omega arith))
      ∙ (get_u32-put_u32_off m2 (at + 8) p.i_start_sect at (inl (omega arith))
          ∙ (get_u32-put_u32_off m1 (at + 4) p.i_size at (inl (omega arith))
              ∙ get_u32-put_u32 fsbuf at p.i_mode (w.mode))) in
    let size : get_u32 m4 (at + 4) ≡ p.i_size =
      get_u32-put_u32_off m3 (at + 12) p.i_nr_sects (at + 4) (inl (omega arith))
      ∙ (get_u32-put_u32_off m2 (at + 8) p.i_start_sect (at + 4) (inl (omega arith))
          ∙ get_u32-put_u32 m1 (at + 4) p.i_size (w.size)) in
    let start : get_u32 m4 (at + 8) ≡ p.i_start_sect =
      get_u32-put_u32_off m3 (at + 12) p.i_nr_sects (at + 8) (inl (omega arith))
      ∙ get_u32-put_u32 m2 (at + 8) p.i_start_sect (w.start_sect) in
    let sects : get_u32 m4 (at + 12) ≡ p.i_nr_sects =
      get_u32-put_u32 m3 (at + 12) p.i_nr_sects (w.nr_sects) in
    rw (mode, size, start, sects) refl

-- A sector that was written is read back.
read-write :
    (disk : ℕ → ℕ) (sect : ℕ) (fsbuf other : ℕ → ℕ) (i : ℕ)
    → i < sector_size
    → read_sectors (write_sectors disk sect 1 fsbuf) sect 1 other i ≡ fsbuf i
read-write disk sect fsbuf other i h = ground arith

get_u32-agree :
    (f g : ℕ → ℕ) (at : ℕ)
    → ((i : ℕ) → i < sector_size → f i ≡ g i)
    → at + 3 < sector_size
    → get_u32 f at ≡ get_u32 g at
get_u32-agree f g at same inside =
    rw
      (
        same at (omega arith),
        same (at + 1) (omega arith),
        same (at + 2) (omega arith),
        same (at + 3) (omega arith),
      )
      refl

loaded-agree :
    (num : ℕ) (f g : ℕ → ℕ) → ((i : ℕ) → i < sector_size → f i ≡ g i) → loaded num f ≡ loaded num g
unfolding loaded
loaded-agree num f g same =
    let at : ℕ = (num - 1) % 16 * inode_size in
    rw
      (
        get_u32-agree f g at same (omega arith),
        get_u32-agree f g (at + 4) same (omega arith),
        get_u32-agree f g (at + 8) same (omega arith),
        get_u32-agree f g (at + 12) same (omega arith),
      )
      refl

-- What the sector of an inode holds after `sync_inode`.
loaded-sync_inode :
    (sb : SuperBlock) (p : Inode) (disk fsbuf other : ℕ → ℕ)
    → IsWords p
    → loaded p.i_num (read_sectors (sync_inode sb p disk fsbuf).0 (inode_sector sb p.i_num) 1 other)
      ≡ record p { i_cnt = 1 }
unfolding sync_inode
loaded-sync_inode sb p disk fsbuf other w =
    let sect : ℕ = inode_sector sb p.i_num in
    let buffer = put_inode_fields p (read_sectors disk sect 1 fsbuf) in
    loaded-agree p.i_num (read_sectors (write_sectors disk sect 1 buffer) sect 1 other) buffer
      (λ i h. read-write disk sect buffer other i h)
    ∙ loaded-put_inode_fields p (read_sectors disk sect 1 fsbuf) w

take_slot-load :
    (sb : SuperBlock) (p : Inode) (slot : Slot) (s : Store) (free : ℕ)
    → IsOutcome s.inode_table nr_inode 0 p.i_num none slot
    → ((m : ℕ) → m < nr_inode → Holds s.inode_table m p.i_num → ⊥)
    → free < nr_inode
    → (s.inode_table free).i_cnt ≡ 0
    → loaded p.i_num (read_sectors s.disk (inode_sector sb p.i_num) 1 s.fsbuf)
      ≡ record p { i_cnt = 1 }
    → (i : ℕ) × (s' : Store) × (take_slot sb p.i_num slot s ≡ ok (i, s'))
      × (s'.inode_table i ≡ record p { i_cnt = 1 })
unfolding take_slot
take_slot-load sb p (cached i) s free (from, to, holds) absent low unused content =
    absurd (absent i to holds)
take_slot-load sb p (spare none) s free (_, _, used) absent low unused content =
    absurd (omega (arith, used free (omega arith) (omega arith)))
take_slot-load sb p (spare (some i)) s free outcome absent low unused content =
    let fsbuf' = read_sectors s.disk (inode_sector sb p.i_num) 1 s.fsbuf in
    let here : update s.inode_table i (loaded p.i_num fsbuf') i ≡ loaded p.i_num fsbuf' =
      ground arith in
    (
      i,
      record s { inode_table = update s.inode_table i (loaded p.i_num fsbuf'); fsbuf = fsbuf' },
      refl,
      here ∙ content,
    )

-- After sync_inode wrote an inode whose fields are 32-bit words, get_inode of its number succeeds, if
-- the number is not 0, no slot of the table has it and one is free, and gives an inode with the same
-- fields and one reference.
pub get_inode-sync_inode :
    (sb : SuperBlock) (p : Inode) (table : ℕ → Inode) (disk fsbuf : ℕ → ℕ) (free : ℕ)
    → IsWords p
    → p.i_num ≢ 0
    → ((m : ℕ) → m < nr_inode → Holds table m p.i_num → ⊥)
    → free < nr_inode
    → (table free).i_cnt ≡ 0
    → let (disk', fsbuf') = sync_inode sb p disk fsbuf in
      (i : ℕ) × (s' : Store) × (get_inode sb p.i_num
          (record { inode_table = table; disk = disk'; fsbuf = fsbuf' })
        ≡ ok (some i, s'))
      × (s'.inode_table i ≡ record p { i_cnt = 1 })
unfolding get_inode
get_inode-sync_inode sb p table disk fsbuf free w some_number absent low unused =
    let (disk', fsbuf') = sync_inode sb p disk fsbuf in
    let s : Store = record { inode_table = table; disk = disk'; fsbuf = fsbuf' } in
    let some_inode : (p.i_num == 0) ≡ false = ground arith in
    let (i, s', run, content) =
      take_slot-load sb p (find_slot nr_inode 0 table p.i_num none) s free
        (find_slot-IsOutcome nr_inode 0 table p.i_num none) absent low unused
        (loaded-sync_inode sb p disk fsbuf fsbuf' w) in
    rw (some_inode, run, ◌>>=◌) (i, s', refl, content)
