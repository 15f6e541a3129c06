-- ===== src/Fs/Dir/Roundtrip.antt =====
-- A name that `new_dir_entry` enters is found by `search_file`.
use lwos.Common.{
  ℕ, ◌+◌, ◌-◌, ◌*◌, ◌/◌, ◌^◌, ◌≤◌, ◌<◌, ◌≡◌, ◌≢◌, ◌⊎◌, inl, inr, refl, ◌∙◌, sym, ap, Bool, true,
  false, some, List, length, arith,
}
use lwos.Fault.{ok, ◌>>=◌}
use lwos.Fs.{Inode, SuperBlock, sector_size, inode_sector, read_sectors}
use lwos.Fs.Names.{max_filename_len, strip_path}
use lwos.Fs.Inodes.{Store, get_u32}
use lwos.Fs.Dir.{
  dir_entry_size, sector_entries, has_name, write_entry, new_dir_entry, search_dir, search_file,
}
use lwos.Fs.Dir.Scan.{dir_bytes, lookup, get_u32-Agree, has_name-Agree}
use lwos.Fs.Dir.Search.{search_dir-lookup, lookup_first, lookup_nothing}
use lwos.Fs.Dir.Entry.{IsUsed, IsSpot, Ends, new_dir_entry-Ends}
use lwos.Fs.Dir.Insert.{entered, get_u32-entered, has_name-entered, entered_other}
use lwos.Fs.Dir.Written.{grown, inode-write_entry, dir_bytes-write_entry}

-- The inode of the directory is in a sector before the directory's, and an entry that is free, or the
-- one behind the last, has no name.
pub record IsReady (sb : SuperBlock) (dir : Inode) (bytes : ℕ → ℕ) : Type 0 where
  pub apart : inode_sector sb dir.i_num < dir.i_start_sect
  pub clean :
      (p : ℕ)
      → ((p < dir.i_size / dir_entry_size) × (get_u32 bytes (p * dir_entry_size) ≡ 0))
        ⊎ (p ≡ dir.i_size / dir_entry_size)
      → (x : ℕ) → x < max_filename_len
      → bytes (p * dir_entry_size + 4 + x) ≡ 0

lookup-entered :
    (n n' nr nr' p inode_nr : ℕ) (name : List ℕ) (bytes bytes' : ℕ → ℕ)
    → length name < max_filename_len
    → inode_nr < 2 ^ 32
    → ((at : ℕ) → bytes' at ≡ entered bytes p inode_nr name at)
    → ((m : ℕ) → m < p → IsUsed bytes m)
    → ((x : ℕ) → x < max_filename_len → bytes (p * dir_entry_size + 4 + x) ≡ 0)
    → lookup n 0 nr name bytes ≡ 0
    → (p ≤ n) × (p ≤ nr) × (p < n') × (p ≤ nr')
    → lookup n' 0 nr' name bytes' ≡ inode_nr
lookup-entered n n' nr nr' p inode_nr name bytes bytes' short word same before clean nothing
      (in_n, in_nr, in_n', in_nr') =
    let at : ℕ = p * dir_entry_size in
    let entry : (x : ℕ) → (0 + x) * dir_entry_size ≡ x * dir_entry_size = (λ x. omega arith) in
    let absent : (x : ℕ) → x < p → has_name name bytes' ((0 + x) * dir_entry_size) ≡ false = (λ x h.
      has_name-Agree name bytes' bytes ((0 + x) * dir_entry_size) ((0 + x) * dir_entry_size) (λ i k.
        same ((0 + x) * dir_entry_size + i)
        ∙ entered_other bytes p (0 + x) inode_nr name short (omega arith) i k)
      ∙ lookup_nothing x n 0 nr name bytes (omega arith) (omega arith)
          (λ y k e. before y (omega arith) (ap (get_u32 bytes) (sym (entry y)) ∙ e)) nothing) in
    let here : has_name name bytes' ((0 + p) * dir_entry_size) ≡ true =
      has_name-Agree name bytes' (entered bytes p inode_nr name) ((0 + p) * dir_entry_size) at
        (λ i k. ap bytes' (omega arith) ∙ same (at + i))
      ∙ has_name-entered bytes p inode_nr name short clean in
    lookup_first p n' 0 nr' name bytes' in_n' (omega arith) absent here
    ∙ (get_u32-Agree bytes' (entered bytes p inode_nr name) ((0 + p) * dir_entry_size) at
          (λ i k. ap bytes' (omega arith) ∙ same (at + i))
        ∙ get_u32-entered bytes p inode_nr name word)

search_dir-entered :
    (sb : SuperBlock) (dir : Inode) (p inode_nr : ℕ) (grow : Bool) (name : List ℕ)
    (disk disk' fsbuf fsbuf' : ℕ → ℕ)
    → length name ≢ 0
    → length name < max_filename_len
    → inode_nr < 2 ^ 32
    → IsReady sb dir (dir_bytes disk dir.i_start_sect)
    → IsSpot (dir_bytes disk dir.i_start_sect) (dir.i_size / dir_entry_size) p grow
    → ((at : ℕ)
        → dir_bytes disk' dir.i_start_sect at
          ≡ entered (dir_bytes disk dir.i_start_sect) p inode_nr name at)
    → (search_dir dir name disk fsbuf).0 ≡ 0
    → (search_dir (grown grow dir) name disk' fsbuf').0 ≡ inode_nr
search_dir-entered sb dir p inode_nr true name disk disk' fsbuf fsbuf' some_name short word ready
      spot same nothing =
    let last : p ≡ dir.i_size / dir_entry_size = spot.end refl in
    search_dir-lookup (grown true dir) name disk' fsbuf' some_name
    ∙ lookup-entered ((dir.i_size + sector_size - 1) / sector_size * sector_entries)
        (((grown true dir).i_size + sector_size - 1) / sector_size * sector_entries)
        (dir.i_size / dir_entry_size) ((grown true dir).i_size / dir_entry_size) p inode_nr name
        (dir_bytes disk dir.i_start_sect) (dir_bytes disk' dir.i_start_sect) short word same
        spot.before (ready.clean p (inr last))
        (sym (search_dir-lookup dir name disk fsbuf some_name) ∙ nothing)
        (omega arith, omega arith, omega arith, omega arith)
search_dir-entered sb dir p inode_nr false name disk disk' fsbuf fsbuf' some_name short word ready
      spot same nothing =
    let (low, free) = spot.free refl in
    search_dir-lookup dir name disk' fsbuf' some_name
    ∙ lookup-entered ((dir.i_size + sector_size - 1) / sector_size * sector_entries)
        ((dir.i_size + sector_size - 1) / sector_size * sector_entries)
        (dir.i_size / dir_entry_size) (dir.i_size / dir_entry_size) p inode_nr name
        (dir_bytes disk dir.i_start_sect) (dir_bytes disk' dir.i_start_sect) short word same
        spot.before (ready.clean p (inl (low, free)))
        (sym (search_dir-lookup dir name disk fsbuf some_name) ∙ nothing)
        (omega arith, omega arith, omega arith, omega arith)

search_file-named :
    (root : ℕ) (path name : List ℕ) (s : Store)
    → strip_path max_filename_len (some path) ≡ ok (some name)
    → (s' : Store) × (search_file root (some path) s
        ≡ ok ((search_dir (s.inode_table root) name s.disk s.fsbuf).0, s'))
unfolding search_file
search_file-named root path name s stripped =
    let (inode_nr, fsbuf') = search_dir (s.inode_table root) name s.disk s.fsbuf in
    rw (stripped, ◌>>=◌) (record s { fsbuf = fsbuf' }, refl)

-- The path gives a name of 1 to 11 characters that is not in the root directory, the directory is
-- ready (its inode's sector is before its own, free entries and the one behind the last have no name)
-- and the number fits 32 bits: then new_dir_entry of the name and the number succeeds, and search_file
-- of the path then gives the number.
pub search_file-new_dir_entry :
    (sb : SuperBlock) (root inode_nr : ℕ) (path name : List ℕ) (s : Store)
    → let dir : Inode = s.inode_table root in
      strip_path max_filename_len (some path) ≡ ok (some name)
      → length name ≢ 0
      → length name < max_filename_len
      → inode_nr < 2 ^ 32
      → IsReady sb dir (dir_bytes s.disk dir.i_start_sect)
      → (search_dir dir name s.disk s.fsbuf).0 ≡ 0
      → (s' : Store) × (s'' : Store) × (new_dir_entry sb root inode_nr name s ≡ ok s')
        × (search_file root (some path) s' ≡ ok (inode_nr, s''))
unfolding Ends
search_file-new_dir_entry sb root inode_nr path name s stripped some_name short word ready nothing =
    let dir : Inode = s.inode_table root in
    let start : ℕ = dir.i_start_sect in
    let (p, b, j, grow, fsbuf, at, inside, spot, run) =
      new_dir_entry-Ends sb root inode_nr name s in
    let loaded : Store = record s { fsbuf = read_sectors s.disk (start + b) 1 fsbuf } in
    let s' : Store = write_entry sb root b j grow inode_nr name loaded in
    let same : (x : ℕ)
        → dir_bytes s'.disk start x ≡ entered (dir_bytes s.disk start) p inode_nr name x =
      (λ x.
        dir_bytes-write_entry sb root b j grow inode_nr name s fsbuf inside short ready.apart x
        ∙ ap (λ (q : ℕ). entered (dir_bytes s.disk start) q inode_nr name x) (sym at)) in
    let (s'', found) = search_file-named root path name s' stripped in
    (
      s',
      s'',
      run,
      found
          ∙ ap (λ (v : ℕ). ok (v, s''))
              (ap (λ (d : Inode). (search_dir d name s'.disk s'.fsbuf).0)
                  (inode-write_entry sb root b j grow inode_nr name loaded)
                ∙ search_dir-entered sb dir p inode_nr grow name s.disk s'.disk s.fsbuf s'.fsbuf
                    some_name short word ready spot same nothing),
    )
