-- ===== src/Fs/Dir/Search.antt =====
-- `search_file` looks a name up in the sequence of entries.
use lwos.Common.{
  ℕ, zero, suc, ◌+◌, ◌-◌, ◌*◌, ◌/◌, ◌≤◌, ◌<◌, ◌≡◌, ◌≢◌, refl, ◌∙◌, sym, ap, inl, inr, true, false,
  List, length, ltb, ◌==◌, arith, Bool-cases,
}
use lwos.Fs.{Inode, sector_size, read_sectors}
use lwos.Fs.Inodes.{get_u32}
use lwos.Fs.Dir.{
  dir_entry_size, sector_entries, has_name, Seen, found, stop, go_on, end_scan, scan_entries,
  scan_sectors, search_dir,
}
use lwos.Fs.Dir.Scan.{dir_bytes, lookup, lookup-found, lookup-suc, Means, scan_entries-Means}

-- The end of the outer loop's body.
after_sector :
    (n i k nr blk0 : ℕ) (name : List ℕ) (disk fsbuf : ℕ → ℕ) (seen : Seen)
    → Means sector_entries k nr name (dir_bytes disk blk0) seen
    → ((m : ℕ)
        → m ≡ k + sector_entries
        → (scan_sectors n (i + 1) m nr blk0 name disk fsbuf).0
          ≡ lookup (n * sector_entries) m nr name (dir_bytes disk blk0))
    → (end_scan fsbuf (λ m. scan_sectors n (i + 1) m nr blk0 name disk fsbuf) seen).0
      ≡ lookup (sector_entries + n * sector_entries) k nr name (dir_bytes disk blk0)
unfolding Means
after_sector n i k nr blk0 name disk fsbuf (found v) means rest = sym (means (n * sector_entries))
after_sector n i k nr blk0 name disk fsbuf stop means rest = sym (means (n * sector_entries))
after_sector n i k nr blk0 name disk fsbuf (go_on m) (count, means) rest =
    rest m count
    ∙ (ap (λ (c : ℕ). lookup (n * sector_entries) c nr name (dir_bytes disk blk0)) count
        ∙ sym (means (n * sector_entries)))

pub scan_sectors-lookup :
    (n i k nr blk0 : ℕ) (name : List ℕ) (disk fsbuf : ℕ → ℕ)
    → k ≡ i * sector_entries
    → (scan_sectors n i k nr blk0 name disk fsbuf).0
      ≡ lookup (n * sector_entries) k nr name (dir_bytes disk blk0)
unfolding scan_sectors lookup
scan_sectors-lookup zero i k nr blk0 name disk fsbuf e = refl
scan_sectors-lookup (suc n) i k nr blk0 name disk fsbuf e =
    let fsbuf' = read_sectors disk (blk0 + i) 1 fsbuf in
    let count : suc n * sector_entries ≡ sector_entries + n * sector_entries = omega arith in
    rw count (
      after_sector n i k nr blk0 name disk fsbuf' (scan_entries sector_entries 0 k nr name fsbuf')
        (scan_entries-Means sector_entries 0 k nr name fsbuf' (dir_bytes disk blk0)
          (λ x h. ground (arith, h, e)))
        (λ m c. scan_sectors-lookup n (i + 1) m nr blk0 name disk fsbuf' (omega arith)))

-- For a name that is not empty, search_dir gives what one loop over the entries of the directory
-- gives, from the first to the one behind the last but not past the last sector that the size covers:
-- the inode of the first entry with the name, or 0.
pub search_dir-lookup :
    (dir : Inode) (name : List ℕ) (disk fsbuf : ℕ → ℕ)
    → length name ≢ 0
    → (search_dir dir name disk fsbuf).0
      ≡ lookup
          ((dir.i_size + sector_size - 1) / sector_size * sector_entries)
          0
          (dir.i_size / dir_entry_size)
          name
          (dir_bytes disk dir.i_start_sect)
unfolding search_dir
search_dir-lookup dir name disk fsbuf some_name =
    let named : (length name == 0) ≡ false = ground arith in
    rw named (
      scan_sectors-lookup ((dir.i_size + sector_size - 1) / sector_size) 0 0
        (dir.i_size / dir_entry_size) dir.i_start_sect name disk fsbuf refl)

-- The first entry with the name is the one that is found.
pub lookup_first :
    (d n k nr : ℕ) (name : List ℕ) (bytes : ℕ → ℕ)
    → d < n
    → k + d ≤ nr
    → ((x : ℕ) → x < d → has_name name bytes ((k + x) * dir_entry_size) ≡ false)
    → has_name name bytes ((k + d) * dir_entry_size) ≡ true
    → lookup n k nr name bytes ≡ get_u32 bytes ((k + d) * dir_entry_size)
unfolding lookup
lookup_first d zero k nr name bytes inside old others here = absurd (omega arith)
lookup_first zero (suc n) k nr name bytes inside old others here =
    let first : k + 0 ≡ k = omega arith in
    let here' : has_name name bytes (k * dir_entry_size) ≡ true =
      ap (λ (c : ℕ). has_name name bytes (c * dir_entry_size)) (sym first) ∙ here in
    rw here' (ap (λ (c : ℕ). get_u32 bytes (c * dir_entry_size)) (sym first))
lookup_first (suc d) (suc n) k nr name bytes inside old others here =
    let move : (x : ℕ) → k + 1 + x ≡ k + suc x = (λ x. omega arith) in
    let this : has_name name bytes (k * dir_entry_size) ≡ false =
      ap (λ (c : ℕ). has_name name bytes (c * dir_entry_size)) (omega arith)
      ∙ others 0 (omega arith) in
    let more : ltb nr (k + 1) ≡ false = ground arith in
    rw (this, more)
      (lookup_first d n (k + 1) nr name bytes (omega arith) (omega arith)
          (λ x h.
            ap (λ (c : ℕ). has_name name bytes (c * dir_entry_size)) (move x)
            ∙ others (suc x) (omega arith))
          (ap (λ (c : ℕ). has_name name bytes (c * dir_entry_size)) (move d) ∙ here)
        ∙ ap (λ (c : ℕ). get_u32 bytes (c * dir_entry_size)) (move d))

-- Where nothing is found, the first entry does not have the name if it is in use.
lookup_nothing_here :
    (n k nr : ℕ) (name : List ℕ) (bytes : ℕ → ℕ)
    → get_u32 bytes ((k + 0) * dir_entry_size) ≢ 0
    → lookup (suc n) k nr name bytes ≡ 0
    → has_name name bytes (k * dir_entry_size) ≡ false
lookup_nothing_here n k nr name bytes used nothing =
    elim (Bool-cases (has_name name bytes (k * dir_entry_size))) [
      | inl here ↦ absurd (
          used (
            ap (λ (c : ℕ). get_u32 bytes (c * dir_entry_size)) (omega arith)
            ∙ (sym (lookup-found n k nr name bytes here) ∙ nothing)))
      | inr other ↦ other
    ]

-- Nor does any other before the first that is not in use.
pub lookup_nothing :
    (d n k nr : ℕ) (name : List ℕ) (bytes : ℕ → ℕ)
    → d < n
    → k + d ≤ nr
    → ((x : ℕ) → x ≤ d → get_u32 bytes ((k + x) * dir_entry_size) ≢ 0)
    → lookup n k nr name bytes ≡ 0
    → has_name name bytes ((k + d) * dir_entry_size) ≡ false
lookup_nothing d zero k nr name bytes inside old used nothing = absurd (omega arith)
lookup_nothing zero (suc n) k nr name bytes inside old used nothing =
    ap (λ (c : ℕ). has_name name bytes (c * dir_entry_size)) (omega arith)
    ∙ lookup_nothing_here n k nr name bytes (used 0 (omega arith)) nothing
lookup_nothing (suc d) (suc n) k nr name bytes inside old used nothing =
    let move : (x : ℕ) → k + suc x ≡ k + 1 + x = (λ x. omega arith) in
    let other = lookup_nothing_here n k nr name bytes (used 0 (omega arith)) nothing in
    ap (λ (c : ℕ). has_name name bytes (c * dir_entry_size)) (move d)
    ∙ lookup_nothing d n (k + 1) nr name bytes (omega arith) (omega arith)
        (λ x h e.
          used (suc x) (omega arith)
            (ap (λ (c : ℕ). get_u32 bytes (c * dir_entry_size)) (move x) ∙ e))
        (sym (lookup-suc n k nr name bytes other (ground arith)) ∙ nothing)
