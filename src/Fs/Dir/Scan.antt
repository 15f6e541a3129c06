-- ===== src/Fs/Dir/Scan.antt =====
-- A directory as one sequence of entries: how the loops over sectors and their entries walk it.
use lwos.Common.{
  ℕ, zero, suc, ◌+◌, ◌*◌, ◌<◌, ◌≡◌, refl, ◌∙◌, sym, ap, inl, inr, true, false, List, ltb,
  if◌then◌else◌, arith, Bool-cases,
}
use lwos.Fs.{sector_size}
use lwos.Fs.Inodes.{get_u32}
use lwos.Fs.Dir.{dir_entry_size, same_from, has_name, Seen, found, stop, go_on, scan_entries}

-- The bytes of a directory that starts in this sector.
abbrev pub dir_bytes : (disk : ℕ → ℕ) → (blk0 : ℕ) → ℕ → ℕ
dir_bytes disk blk0 at = disk (blk0 * sector_size + at)

-- The inode of the first of the `n` entries from `k` on that has the name, up to the one behind the
-- last entry.
unfoldable pub lookup : (n k nr : ℕ) → List ℕ → (bytes : ℕ → ℕ) → ℕ
lookup zero k nr name bytes = 0
lookup (suc n) k nr name bytes =
    let rest = lookup n (k + 1) nr name bytes in
    if has_name name bytes (k * dir_entry_size)
    then get_u32 bytes (k * dir_entry_size)
    else if ltb nr (k + 1)
    then 0
    else rest

-- The `n` bytes of a buffer from `i` on are those of another from `k` on.
abbrev pub Agree : (f g : ℕ → ℕ) → (i k n : ℕ) → Type 0
Agree f g i k n = (x : ℕ) → x < n → f (i + x) ≡ g (k + x)

same_from-Agree :
    (n i : ℕ) (name : List ℕ) (f g : ℕ → ℕ) (a b : ℕ)
    → Agree f g a b (i + n)
    → same_from n i name f a ≡ same_from n i name g b
unfolding same_from
same_from-Agree zero i name f g a b agree = refl
same_from-Agree (suc n) i name f g a b agree =
    rw
      (agree i (omega arith), same_from-Agree n (i + 1) name f g a b (λ x h. agree x (omega arith)))
      refl

pub get_u32-Agree : (f g : ℕ → ℕ) (a b : ℕ) → Agree f g a b 4 → get_u32 f a ≡ get_u32 g b
get_u32-Agree f g a b agree =
    let here : f (a + 0) ≡ g (b + 0) = agree 0 (omega arith) in
    let first : f a ≡ g b = ground (arith, here) in
    rw (first, agree 1 (omega arith), agree 2 (omega arith), agree 3 (omega arith)) refl

pub has_name-Agree :
    (name : List ℕ) (f g : ℕ → ℕ) (a b : ℕ)
    → Agree f g a b dir_entry_size
    → has_name name f a ≡ has_name name g b
unfolding has_name
has_name-Agree name f g a b agree = same_from-Agree 12 0 name f g (a + 4) (b + 4) (λ x h.
    let here : f (a + (4 + x)) ≡ g (b + (4 + x)) = agree (4 + x) (omega arith) in
    ground (arith, here))

-- What an end of the inner loop says of the `n` entries from `k` on, with any others behind them.
unfoldable pub Means : (n k nr : ℕ) → List ℕ → (bytes : ℕ → ℕ) → Seen → Type 0
Means n k nr name bytes (found v) = (r : ℕ) → lookup (n + r) k nr name bytes ≡ v
Means n k nr name bytes stop = (r : ℕ) → lookup (n + r) k nr name bytes ≡ 0
Means n k nr name bytes (go_on m) =
    (m ≡ k + n) × ((r : ℕ) → lookup (n + r) k nr name bytes ≡ lookup r (k + n) nr name bytes)

-- One entry more is counted from the other side.
suc-add : (n r : ℕ) → suc n + r ≡ suc (n + r)
suc-add n r = omega arith

pub lookup-found :
    (n k nr : ℕ) (name : List ℕ) (bytes : ℕ → ℕ)
    → has_name name bytes (k * dir_entry_size) ≡ true
    → lookup (suc n) k nr name bytes ≡ get_u32 bytes (k * dir_entry_size)
unfolding lookup
lookup-found n k nr name bytes here = rw here refl

lookup-stop :
    (n k nr : ℕ) (name : List ℕ) (bytes : ℕ → ℕ)
    → has_name name bytes (k * dir_entry_size) ≡ false
    → ltb nr (k + 1) ≡ true
    → lookup (suc n) k nr name bytes ≡ 0
unfolding lookup
lookup-stop n k nr name bytes other end = rw (other, end) refl

pub lookup-suc :
    (n k nr : ℕ) (name : List ℕ) (bytes : ℕ → ℕ)
    → has_name name bytes (k * dir_entry_size) ≡ false
    → ltb nr (k + 1) ≡ false
    → lookup (suc n) k nr name bytes ≡ lookup n (k + 1) nr name bytes
unfolding lookup
lookup-suc n k nr name bytes other more = rw (other, more) refl

Means-suc :
    (n k nr : ℕ) (name : List ℕ) (bytes : ℕ → ℕ) (seen : Seen)
    → has_name name bytes (k * dir_entry_size) ≡ false
    → ltb nr (k + 1) ≡ false
    → Means n (k + 1) nr name bytes seen
    → Means (suc n) k nr name bytes seen
unfolding Means
Means-suc n k nr name bytes (found v) other more m =
    λ r. rw (suc-add n r) (lookup-suc (n + r) k nr name bytes other more ∙ m r)
Means-suc n k nr name bytes stop other more m =
    λ r. rw (suc-add n r) (lookup-suc (n + r) k nr name bytes other more ∙ m r)
Means-suc n k nr name bytes (go_on c) other more (count, m) =
    let last : k + 1 + n ≡ k + suc n = omega arith in
    (
      count ∙ last,
      λ r. rw (suc-add n r) (
          lookup-suc (n + r) k nr name bytes other more
          ∙ (m r ∙ ap (λ (e : ℕ). lookup r e nr name bytes) last)),
    )

-- Entry `j` of the sector in the buffer is entry `k` of the directory.
pub scan_entries-Means :
    (n j k nr : ℕ) (name : List ℕ) (fsbuf bytes : ℕ → ℕ)
    → Agree fsbuf bytes (j * dir_entry_size) (k * dir_entry_size) (n * dir_entry_size)
    → Means n k nr name bytes (scan_entries n j k nr name fsbuf)
unfolding scan_entries Means
scan_entries-Means zero j k nr name fsbuf bytes agree =
    let none_left : k ≡ k + 0 = omega arith in
    (none_left, λ r. let all : 0 + r ≡ r = omega arith in rw (all, sym none_left) refl)
scan_entries-Means (suc n) j k nr name fsbuf bytes agree =
    let same =
      has_name-Agree name fsbuf bytes (j * dir_entry_size) (k * dir_entry_size)
        (λ x h. agree x (omega arith)) in
    let word =
      get_u32-Agree fsbuf bytes (j * dir_entry_size) (k * dir_entry_size)
        (λ x h. agree x (omega arith)) in
    elim (Bool-cases (has_name name fsbuf (j * dir_entry_size))) [
      | inl here ↦ rw here (λ r.
          rw (suc-add n r) (lookup-found (n + r) k nr name bytes (sym same ∙ here) ∙ sym word))
      | inr other ↦ elim (Bool-cases (ltb nr (k + 1))) [
        | inl end ↦
            rw (other, end)
              (λ r. rw (suc-add n r) (lookup-stop (n + r) k nr name bytes (sym same ∙ other) end))
        | inr more ↦
            rw (other, more)
              (Means-suc n k nr name bytes (scan_entries n (j + 1) (k + 1) nr name fsbuf)
                (sym same ∙ other) more
                (scan_entries-Means n (j + 1) (k + 1) nr name fsbuf bytes (λ x h.
                  let there : fsbuf (j * dir_entry_size + (dir_entry_size + x))
                      ≡ bytes (k * dir_entry_size + (dir_entry_size + x)) =
                    agree (dir_entry_size + x) (omega arith) in
                  ground (arith, there))))
      ]
    ]
