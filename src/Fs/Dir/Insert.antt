-- ===== src/Fs/Dir/Insert.antt =====
-- A name that `new_dir_entry` enters is found by `search_file`.
use lwos.Common.{
  ℕ, zero, suc, ◌+◌, ◌-◌, ◌*◌, ◌^◌, ◌≤◌, ◌<◌, ◌≡◌, ◌≢◌, ◌⊎◌, refl, ◌∙◌, sym, inl, inr, true, List,
  [], ◌∷◌, length, get_or, ltb, leb, ◌==◌, arith, Bool-cases,
}
use lwos.Fs.{put_u32}
use lwos.Fs.Inodes.{get_u32}
use lwos.Fs.Inodes.Load.{get_u32-put_u32}
use lwos.Fs.Dir.{dir_entry_size, same_from, has_name, filename, strcpy}
use lwos.Fs.Dir.Scan.{Agree, get_u32-Agree}

same_from-true :
    (n i : ℕ) (name : List ℕ) (f : ℕ → ℕ) (at : ℕ)
    → ((x : ℕ) → x < i + n → filename name x ≡ f (at + x))
    → same_from n i name f at ≡ true
unfolding same_from
same_from-true zero i name f at same = refl
same_from-true (suc n) i name f at same =
    let here : (filename name i == f (at + i)) ≡ true = ground (arith, same i (omega arith)) in
    rw (here, same_from-true n (i + 1) name f at (λ x h. same x (omega arith))) refl

get_or_past : (name : List ℕ) (x : ℕ) → length name ≤ x → get_or name x 0 ≡ 0
get_or_past [] x h = refl
get_or_past (c ∷ name) zero h = absurd (omega arith)
get_or_past (c ∷ name) (suc x) h = get_or_past name x (omega arith)

pub strcpy_off :
    (m : ℕ → ℕ) (p : ℕ) (name : List ℕ) (at : ℕ)
    → (at < p) ⊎ (p + length name < at)
    → strcpy m p name at ≡ m at
unfolding strcpy
strcpy_off m p name at off = ground arith

pub strcpy_on :
    (m : ℕ → ℕ) (p : ℕ) (name : List ℕ) (x : ℕ)
    → x ≤ length name
    → strcpy m p name (p + x) ≡ get_or name x 0
unfolding strcpy
strcpy_on m p name x h =
    let back : p + x - p ≡ x = omega arith in rw back (ground (arith, get_or_past name x))

pub put_u32_off : (m : ℕ → ℕ) (at v b : ℕ) → (b < at) ⊎ (at + 4 ≤ b) → put_u32 m at v b ≡ m b
put_u32_off m at v b off = ground arith

-- Entry `p` with the inode and the name.
abbrev pub entered : (bytes : ℕ → ℕ) → (p inode_nr : ℕ) → List ℕ → ℕ → ℕ
entered bytes p inode_nr name =
    strcpy (put_u32 bytes (p * dir_entry_size) inode_nr) (p * dir_entry_size + 4) name

pub has_name-entered :
    (bytes : ℕ → ℕ) (p inode_nr : ℕ) (name : List ℕ)
    → length name < 12
    → ((x : ℕ) → x < 12 → bytes (p * dir_entry_size + 4 + x) ≡ 0)
    → has_name name (entered bytes p inode_nr name) (p * dir_entry_size) ≡ true
unfolding has_name
has_name-entered bytes p inode_nr name short clean =
    same_from-true 12 0 name (entered bytes p inode_nr name) (p * dir_entry_size + 4) (λ x h.
      elim (Bool-cases (leb x (length name))) [
        | inl on ↦ sym (
            strcpy_on (put_u32 bytes (p * dir_entry_size) inode_nr) (p * dir_entry_size + 4) name x
              (ground arith))
        | inr off ↦
            get_or_past name x (ground arith)
            ∙ sym (
                strcpy_off (put_u32 bytes (p * dir_entry_size) inode_nr) (p * dir_entry_size + 4)
                  name (p * dir_entry_size + 4 + x) (inr (ground arith))
                ∙ (put_u32_off bytes (p * dir_entry_size) inode_nr (p * dir_entry_size + 4 + x)
                      (inr (omega arith))
                    ∙ clean x (omega arith)))
      ])

pub get_u32-entered :
    (bytes : ℕ → ℕ) (p inode_nr : ℕ) (name : List ℕ)
    → inode_nr < 2 ^ 32
    → get_u32 (entered bytes p inode_nr name) (p * dir_entry_size) ≡ inode_nr
get_u32-entered bytes p inode_nr name word =
    let at : ℕ = p * dir_entry_size in
    get_u32-Agree (entered bytes p inode_nr name) (put_u32 bytes at inode_nr) at at
      (λ x h. strcpy_off (put_u32 bytes at inode_nr) (at + 4) name (at + x) (inl (omega arith)))
    ∙ get_u32-put_u32 bytes at inode_nr word

pub entered_other :
    (bytes : ℕ → ℕ) (p m inode_nr : ℕ) (name : List ℕ)
    → length name < 12
    → m ≢ p
    → Agree
        (entered bytes p inode_nr name)
        bytes
        (m * dir_entry_size)
        (m * dir_entry_size)
        dir_entry_size
entered_other bytes p m inode_nr name short other = λ x h.
    let at : ℕ = p * dir_entry_size in
    elim (Bool-cases (ltb m p)) [
      | inl low ↦
          let low' : m < p = ground arith in
          strcpy_off (put_u32 bytes at inode_nr) (at + 4) name (m * dir_entry_size + x)
            (inl (omega arith))
          ∙ put_u32_off bytes at inode_nr (m * dir_entry_size + x) (inl (omega arith))
      | inr high ↦
          let high' : p < m = ground arith in
          strcpy_off (put_u32 bytes at inode_nr) (at + 4) name (m * dir_entry_size + x)
            (inr (omega arith))
          ∙ put_u32_off bytes at inode_nr (m * dir_entry_size + x) (inr (omega arith))
    ]
