-- ===== src/Fs/Dir/Entry.antt =====
-- `new_dir_entry` takes the first free entry of the directory, or the one behind the last.
use lwos.Common.{
  ℕ, zero, suc, ◌+◌, ◌-◌, ◌*◌, ◌/◌, ◌≤◌, ◌<◌, ◌≡◌, ◌≢◌, refl, ◌∙◌, sym, ap, inl, inr, Bool, true,
  false, List, ltb, ◌==◌, ==_iff, arith, Bool-cases,
}
use lwos.Fault.{Result, ok}
use lwos.Fs.{SuperBlock, sector_size, read_sectors}
use lwos.Fs.Inodes.{Store, get_u32}
use lwos.Fs.Dir.{
  dir_entry_size, sector_entries, Place, hole, past, next, end_place, find_place, write_entry,
  place_entry, new_dir_entry,
}
use lwos.Fs.Dir.Scan.{dir_bytes, Agree, get_u32-Agree}

-- Entry `k` of the directory has an inode.
abbrev pub IsUsed : (bytes : ℕ → ℕ) → (k : ℕ) → Type 0
IsUsed bytes k = get_u32 bytes (k * dir_entry_size) ≢ 0

-- The `n` entries from `k` on are in use.
abbrev Used : (bytes : ℕ → ℕ) → (k n : ℕ) → Type 0
Used bytes k n = (x : ℕ) → x < n → IsUsed bytes (k + x)

same_entry :
    (bytes : ℕ → ℕ) (k m : ℕ)
    → k ≡ m
    → get_u32 bytes (k * dir_entry_size) ≡ get_u32 bytes (m * dir_entry_size)
same_entry bytes k m e = ap (λ (c : ℕ). get_u32 bytes (c * dir_entry_size)) e

Used-suc : (bytes : ℕ → ℕ) (k n : ℕ) → IsUsed bytes k → Used bytes (k + 1) n → Used bytes k (suc n)
Used-suc bytes k n here later zero h = λ e. here (same_entry bytes k (k + 0) (omega arith) ∙ e)
Used-suc bytes k n here later (suc x) h =
    λ e. later x (omega arith) (same_entry bytes (k + 1 + x) (k + suc x) (omega arith) ∙ e)

==_false : (v : ℕ) → (v == 0) ≡ false → v ≢ 0
==_false v h e = ground arith

-- What an end of the inner loop says: entry `j` of the sector is entry `k` of the directory.
Chosen : (bytes : ℕ → ℕ) → (n j k nr : ℕ) → Place → Type 0
Chosen bytes n j k nr (hole q) =
    (d : ℕ) × (q ≡ j + d)
    × (d < n)
    × (k + d < nr)
    × (get_u32 bytes ((k + d) * dir_entry_size) ≡ 0)
    × Used bytes k d
Chosen bytes n j k nr (past q) = (d : ℕ) × (q ≡ j + d) × (d < n) × (k + d ≡ nr) × Used bytes k d
Chosen bytes n j k nr (next m) = (m ≡ k + n) × (k + n ≤ nr) × Used bytes k n

Chosen-suc :
    (bytes : ℕ → ℕ) (n j k nr : ℕ) (place : Place)
    → IsUsed bytes k
    → Chosen bytes n (j + 1) (k + 1) nr place
    → Chosen bytes (suc n) j k nr place
unfolding Chosen
Chosen-suc bytes n j k nr (hole q) used (d, at, inside, old, free, before) = (
  suc d,
  omega arith,
  omega arith,
  omega arith,
  same_entry bytes (k + suc d) (k + 1 + d) (omega arith) ∙ free,
  Used-suc bytes k d used before,
)
Chosen-suc bytes n j k nr (past q) used (d, at, inside, end, before) =
    (suc d, omega arith, omega arith, omega arith, Used-suc bytes k d used before)
Chosen-suc bytes n j k nr (next m) used (count, old, before) =
    (omega arith, omega arith, Used-suc bytes k n used before)

find_place-Chosen :
    (n j k nr : ℕ) (fsbuf bytes : ℕ → ℕ)
    → k ≤ nr
    → Agree fsbuf bytes (j * dir_entry_size) (k * dir_entry_size) (n * dir_entry_size)
    → Chosen bytes n j k nr (find_place n j k nr fsbuf)
unfolding find_place Chosen
find_place-Chosen zero j k nr fsbuf bytes low agree =
    (omega arith, omega arith, λ x h. absurd (omega arith))
find_place-Chosen (suc n) j k nr fsbuf bytes low agree =
    let word =
      get_u32-Agree fsbuf bytes (j * dir_entry_size) (k * dir_entry_size)
        (λ x h. agree x (omega arith)) in
    elim (Bool-cases (ltb nr (k + 1))) [
      | inl end ↦ rw end (0, omega arith, omega arith, ground arith, λ x h. absurd (omega arith))
      | inr more ↦ elim (Bool-cases (get_u32 fsbuf (j * dir_entry_size) == 0)) [
        | inl free ↦
            rw (more, free)
              (
                0,
                omega arith,
                omega arith,
                ground arith,
                same_entry bytes (k + 0) k (omega arith)
                    ∙ (sym word ∙ (==_iff (get_u32 fsbuf (j * dir_entry_size)) 0).0 free),
                λ x h. absurd (omega arith),
              )
        | inr taken ↦
            rw (more, taken)
              (Chosen-suc bytes n j k nr (find_place n (j + 1) (k + 1) nr fsbuf)
                (λ e. ==_false (get_u32 fsbuf (j * dir_entry_size)) taken (word ∙ e))
                (find_place-Chosen n (j + 1) (k + 1) nr fsbuf bytes (ground arith) (λ x h.
                  let there : fsbuf (j * dir_entry_size + (dir_entry_size + x))
                      ≡ bytes (k * dir_entry_size + (dir_entry_size + x)) =
                    agree (dir_entry_size + x) (omega arith) in
                  ground (arith, there))))
      ]
    ]

-- Entry `p` is the first one that is not in use, or the one behind the last if `grow`.
pub record IsSpot (bytes : ℕ → ℕ) (nr p : ℕ) (grow : Bool) : Type 0 where
  pub before : (m : ℕ) → m < p → IsUsed bytes m
  pub within : p ≤ nr
  pub free : grow ≡ false → (p < nr) × (get_u32 bytes (p * dir_entry_size) ≡ 0)
  pub end : grow ≡ true → p ≡ nr

-- The result is that of a write to such an entry, whose sector is in the buffer.
unfoldable pub Ends : SuperBlock → (root nr inode_nr : ℕ) → List ℕ → Store → Result Store → Type 0
Ends sb root nr inode_nr name s r =
    let start : ℕ = (s.inode_table root).i_start_sect in
    (p : ℕ) × (b : ℕ) × (j : ℕ) × (grow : Bool) × (fsbuf : ℕ → ℕ) × (p ≡ b * sector_entries + j)
    × (j < sector_entries)
    × IsSpot (dir_bytes s.disk start) nr p grow
    × (r
        ≡ ok (
            write_entry sb root b j grow inode_nr name
              (record s { fsbuf = read_sectors s.disk (start + b) 1 fsbuf })))

Used-append :
    (bytes : ℕ → ℕ) (k n : ℕ)
    → ((m : ℕ) → m < k → IsUsed bytes m)
    → Used bytes k n
    → (m : ℕ) → m < k + n
    → IsUsed bytes m
Used-append bytes k n before used m h = elim (Bool-cases (ltb m k)) [
  | inl low ↦ before m (ground arith)
  | inr high ↦
      λ e. used (m - k) (ground arith) (same_entry bytes (k + (m - k)) m (ground arith) ∙ e)
]

end_place-Ends :
    (i k : ℕ) (sb : SuperBlock) (root nr inode_nr : ℕ) (name : List ℕ) (s : Store)
    (rest : ℕ → Result Store) (place : Place)
    → let start : ℕ = (s.inode_table root).i_start_sect in
      let bytes = dir_bytes s.disk start in
      k ≡ i * sector_entries
      → ((m : ℕ) → m < k → IsUsed bytes m)
      → Chosen bytes sector_entries 0 k nr place
      → ((m : ℕ)
          → m ≡ k + sector_entries
          → m ≤ nr
          → ((x : ℕ) → x < m → IsUsed bytes x)
          → Ends sb root nr inode_nr name s (rest m))
      → Ends sb root nr inode_nr name s (
          end_place
            (λ j grow.
              write_entry sb root i j grow inode_nr name
                (record s { fsbuf = read_sectors s.disk (start + i) 1 s.fsbuf }))
            rest
            place)
unfolding Ends Chosen
end_place-Ends i k sb root nr inode_nr name s rest (hole q) at used
      (d, here, inside, old, free, before) more =
    let bytes = dir_bytes s.disk (s.inode_table root).i_start_sect in
    (
      k + d,
      i,
      q,
      false,
      s.fsbuf,
      omega arith,
      omega arith,
      record {
        before = Used-append bytes k d used before;
        within = omega arith;
        free = λ e. (old, free);
        end = λ e. ground arith;
      },
      refl,
    )
end_place-Ends i k sb root nr inode_nr name s rest (past q) at used (d, here, inside, last, before)
      more =
    let bytes = dir_bytes s.disk (s.inode_table root).i_start_sect in
    (
      k + d,
      i,
      q,
      true,
      s.fsbuf,
      omega arith,
      omega arith,
      record {
        before = Used-append bytes k d used before;
        within = omega arith;
        free = λ e. ground arith;
        end = λ e. last;
      },
      refl,
    )
end_place-Ends i k sb root nr inode_nr name s rest (next m) at used (count, low, all) more =
    let bytes = dir_bytes s.disk (s.inode_table root).i_start_sect in
    more m count (omega arith) (λ x h. Used-append bytes k sector_entries used all x (omega arith))

place_entry-Ends :
    (n i k : ℕ) (sb : SuperBlock) (root nr inode_nr : ℕ) (name : List ℕ) (s : Store)
    → let bytes = dir_bytes s.disk (s.inode_table root).i_start_sect in
      k ≡ i * sector_entries
      → k ≤ nr
      → nr < k + n * sector_entries
      → ((m : ℕ) → m < k → IsUsed bytes m)
      → Ends sb root nr inode_nr name s (place_entry sb n root i k nr inode_nr name s)
unfolding place_entry Ends
place_entry-Ends zero i k sb root nr inode_nr name s at low high used = absurd (omega arith)
place_entry-Ends (suc n) i k sb root nr inode_nr name s at low high used =
    let start : ℕ = (s.inode_table root).i_start_sect in
    let fsbuf' = read_sectors s.disk (start + i) 1 s.fsbuf in
    let s' : Store = record s { fsbuf = fsbuf' } in
    end_place-Ends i k sb root nr inode_nr name s
      (λ m. place_entry sb n root (i + 1) m nr inode_nr name s')
      (find_place sector_entries 0 k nr fsbuf') at used
      (find_place-Chosen sector_entries 0 k nr fsbuf' (dir_bytes s.disk start) low
        (λ x h. ground (arith, at, h)))
      (λ m c l u.
        place_entry-Ends n (i + 1) m sb root nr inode_nr name s' (omega arith) l (omega arith) u)

pub new_dir_entry-Ends :
    (sb : SuperBlock) (root inode_nr : ℕ) (name : List ℕ) (s : Store)
    → Ends sb root
        ((s.inode_table root).i_size / dir_entry_size)
        inode_nr
        name
        s
        (new_dir_entry sb root inode_nr name s)
unfolding new_dir_entry
new_dir_entry-Ends sb root inode_nr name s =
    let size : ℕ = (s.inode_table root).i_size in
    place_entry-Ends ((size + sector_size) / sector_size) 0 0 sb root (size / dir_entry_size)
      inode_nr name s refl (omega arith) (omega arith) (λ m h. absurd (omega arith))
