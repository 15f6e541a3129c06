-- ===== src/Fs/Inodes/Tests.antt =====
-- A table with the root's inode in its first slot.
use lwos.Common.{ℕ, ◌<◌, ◌≡◌, refl, some, arith, ◌==◌, if◌then◌else◌}
use lwos.Fault.{ok}
use lwos.Fs.{Inode, SuperBlock, sync_inode}
use lwos.Fs.Inodes.{Store, get_inode, nr_inode}
use lwos.Fs.Inodes.Search.{Holds}
use lwos.Fs.Inodes.Cache.{IsCache, IsGotten, get_inode-IsGotten}
use lwos.Fs.Inodes.Load.{IsWords, get_inode-sync_inode}

abbrev inode : ℕ → ℕ → Inode
inode num cnt = record {
  i_mode = 32768;
  i_size = 70000;
  i_start_sect = 300;
  i_nr_sects = 2048;
  i_cnt = cnt;
  i_num = num;
}

abbrev table : ℕ → Inode
table m = if m == 0 then inode 1 3 else inode 0 0

table-IsCache : IsCache table
table-IsCache p q num hp hq (p_used, p_num) (q_used, q_num) = ground arith

abbrev super_block : SuperBlock
super_block = record { nr_imap_sects = 1; nr_smap_sects = 4; n_1st_sect = 200 }

abbrev store : Store
store = record { inode_table = table; disk = λ i. 0; fsbuf = λ i. 1 }

get_inode-IsGotten_example :
    (p : ℕ) × (s' : Store) × (get_inode super_block 1 store ≡ ok (some p, s'))
    × IsGotten 1 p table s'.inode_table
    × (s'.disk ≡ store.disk)
get_inode-IsGotten_example =
    get_inode-IsGotten super_block 1 store 1 (omega arith) table-IsCache (omega arith) refl

not_yet : (m : ℕ) → m < nr_inode → Holds table m 7 → ⊥
not_yet m h (used, number) = ground arith

seven-IsWords : IsWords (inode 7 1)
seven-IsWords = record {
  mode = omega arith;
  size = omega arith;
  start_sect = omega arith;
  nr_sects = omega arith;
}

get_inode-sync_inode_example :
    let (disk', fsbuf') = sync_inode super_block (inode 7 1) (λ i. 0) (λ i. 1) in
    (i : ℕ) × (s' : Store) × (get_inode super_block 7
        (record { inode_table = table; disk = disk'; fsbuf = fsbuf' })
      ≡ ok (some i, s'))
    × (s'.inode_table i ≡ inode 7 1)
get_inode-sync_inode_example =
    get_inode-sync_inode super_block (inode 7 1) table (λ i. 0) (λ i. 1) 1 seven-IsWords
      (omega arith) not_yet (omega arith) refl
