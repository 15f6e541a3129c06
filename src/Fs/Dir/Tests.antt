-- ===== src/Fs/Dir/Tests.antt =====
-- A directory with one entry, the directory itself.
use lwos.Common.{ℕ, ◌≡◌, refl, some, List, [], ◌∷◌, ◌==◌, if◌then◌else◌, arith}
use lwos.Fault.{ok}
use lwos.Fs.{Inode, SuperBlock}
use lwos.Fs.Names.Strip.{strip_path_short}
use lwos.Fs.Names.{max_filename_len, strip_path}
use lwos.Fs.Inodes.{Store}
use lwos.Fs.Dir.{
  new_dir_entry, search_dir, search_file, scan_sectors, scan_entries, has_name, same_from,
}
use lwos.Fs.Dir.Scan.{dir_bytes}
use lwos.Fs.Dir.Roundtrip.{IsReady, search_file-new_dir_entry}

abbrev sb : SuperBlock
sb = record { nr_imap_sects = 1; nr_smap_sects = 1; n_1st_sect = 5 }

abbrev root : Inode
root = record {
  i_mode = 16384;
  i_size = 16;
  i_start_sect = 5;
  i_nr_sects = 4;
  i_cnt = 1;
  i_num = 1;
}

-- The directory's first entry is its own inode, with the name "."
abbrev disk : ℕ → ℕ
disk at = if at == 2560 then 1 else if at == 2564 then 46 else 0

abbrev store : Store
store = record { inode_table = λ i. root; disk = disk; fsbuf = λ at. 0 }

-- "/ab" and "ab"
abbrev path : List ℕ
path = 47 ∷ 97 ∷ 98 ∷ []

abbrev name : List ℕ
name = 97 ∷ 98 ∷ []

stripped : strip_path max_filename_len (some path) ≡ ok (some name)
stripped = strip_path_short 12 name (omega arith) (omega arith) refl

absent : (search_dir root name disk (λ at. 0)).0 ≡ 0
unfolding search_dir scan_sectors scan_entries has_name same_from
absent = refl

root-IsReady : IsReady sb root (dir_bytes disk 5)
root-IsReady = record { apart = omega arith; clean = λ p free x h. ground arith }

search_file-new_dir_entry_example :
    (s' : Store) × (s'' : Store) × (new_dir_entry sb 0 7 name store ≡ ok s')
    × (search_file 0 (some path) s' ≡ ok (7, s''))
search_file-new_dir_entry_example =
    search_file-new_dir_entry sb 0 7 path name store stripped (λ e. omega arith) (omega arith)
      (omega arith) root-IsReady absent
