-- ===== src/Fs/Names/Strip.antt =====
-- Short names, long names, and paths into other directories.
use lwos.Common.{
  ℕ, zero, suc, ◌+◌, ◌≤◌, ◌<◌, ◌≡◌, refl, ◌∙◌, ap, Bool, true, false, ◌||◌, some, List, [], ◌∷◌,
  ◌++◌, take, length, length-append, append-nil, append_assoc, length-take, ltb, leb, ◌==◌, lt→ltb,
  arith,
}
use lwos.Fault.{ok, err, wild}
use lwos.Fs.Names.{max_filename_len, slash, end_name, copy_name, skip_slash, strip_path}

abbrev pub has_slash : List ℕ → Bool
has_slash [] = false
has_slash (c ∷ path) = (c == slash) || has_slash path

-- The first character is not a slash, nor is one of the rest.
no_slash :
    (c : ℕ) (path : List ℕ)
    → has_slash (c ∷ path) ≡ false
    → ((c == slash) ≡ false) × (has_slash path ≡ false)
no_slash c path h = (ground arith, ground arith)

length-snoc : (name : List ℕ) (c : ℕ) → length (name ++ (c ∷ [])) ≡ length name + 1
length-snoc name c = length-append name (c ∷ [])

copy_name_more :
    (size c : ℕ) (path name : List ℕ)
    → (c == slash) ≡ false
    → length name + 1 < max_filename_len
    → max_filename_len ≤ size
    → copy_name size (c ∷ path) name ≡ copy_name size path (name ++ (c ∷ []))
unfolding copy_name
copy_name_more size c path name plain room big =
    let inside : ltb (length name) size ≡ true = lt→ltb (length name) size (omega arith) in
    let not_full : leb max_filename_len (length (name ++ (c ∷ []))) ≡ false =
      ground (arith, length-snoc name c) in
    rw (plain, inside, not_full) refl

copy_name_last :
    (size c : ℕ) (path name : List ℕ)
    → (c == slash) ≡ false
    → length name + 1 ≡ max_filename_len
    → max_filename_len ≤ size
    → copy_name size (c ∷ path) name ≡ end_name size (name ++ (c ∷ []))
unfolding copy_name
copy_name_last size c path name plain room big =
    let inside : ltb (length name) size ≡ true = lt→ltb (length name) size (omega arith) in
    let full : leb max_filename_len (length (name ++ (c ∷ []))) ≡ true =
      ground (arith, length-snoc name c) in
    rw (plain, inside, full) refl

-- `n` characters are still to come before the name is full.
copy_name-long :
    (size n : ℕ) (path name : List ℕ)
    → length name + suc n ≡ max_filename_len
    → max_filename_len ≤ size
    → suc n ≤ length path
    → has_slash (take (suc n) path) ≡ false
    → copy_name size path name ≡ end_name size (name ++ take (suc n) path)
unfolding copy_name
copy_name-long size n [] name room big long plain = absurd (omega arith)
copy_name-long size zero (c ∷ path) name room big long plain =
    copy_name_last size c path name (no_slash c [] plain).0 room big
copy_name-long size (suc n) (c ∷ path) name room big long plain =
    let (first, others) = no_slash c (take (suc n) path) plain in
    copy_name_more size c path name first (omega arith) big
    ∙ (copy_name-long size n path (name ++ (c ∷ [])) (omega (arith, length-snoc name c)) big
          (omega arith) others
        ∙ ap (end_name size) (append_assoc name (c ∷ []) (take (suc n) path)))

copy_name_short :
    (size : ℕ) (path name : List ℕ)
    → length name + length path < max_filename_len
    → max_filename_len ≤ size
    → has_slash path ≡ false
    → copy_name size path name ≡ ok (some (name ++ path))
unfolding copy_name end_name
copy_name_short size [] name room big plain =
    rw (lt→ltb (length name) size (omega arith), append-nil name) refl
copy_name_short size (c ∷ path) name room big plain =
    let (first, others) = no_slash c path plain in
    copy_name_more size c path name first (omega arith) big
    ∙ (copy_name_short size path (name ++ (c ∷ [])) (omega (arith, length-snoc name c)) big others
        ∙ ap (λ whole. ok (some whole)) (append_assoc name (c ∷ []) path))

end_name_fits :
    (size : ℕ) (name : List ℕ) → length name < size → end_name size name ≡ ok (some name)
unfolding end_name
end_name_fits size name h = rw (lt→ltb (length name) size h) refl

end_name_over : (size : ℕ) (name : List ℕ) → size ≤ length name → end_name size name ≡ err wild
unfolding end_name
end_name_over size name h = let over : ltb (length name) size ≡ false = ground arith in rw over refl

-- A file of the root directory whose name has fewer than twelve characters: the name is what
-- `strip_path` returns, whatever the size of the buffer is from twelve bytes on.
pub strip_path_short :
    (size : ℕ) (name : List ℕ)
    → max_filename_len ≤ size
    → length name < max_filename_len
    → has_slash name ≡ false
    → strip_path size (some (slash ∷ name)) ≡ ok (some name)
unfolding strip_path skip_slash
strip_path_short size name big short plain = copy_name_short size name [] (omega arith) big plain

-- A name of twelve characters or more: the first twelve are returned, whatever follows them in the
-- path, if the buffer has room for one byte more.
pub strip_path_long :
    (size : ℕ) (path : List ℕ)
    → max_filename_len < size
    → max_filename_len ≤ length path
    → has_slash (take max_filename_len path) ≡ false
    → strip_path size (some (slash ∷ path)) ≡ ok (some (take max_filename_len path))
unfolding strip_path skip_slash end_name
strip_path_long size path big long plain =
    copy_name-long size 11 path [] (omega arith) (omega arith) (omega arith) plain
    ∙ end_name_fits size (take max_filename_len path)
        (omega (arith, length-take max_filename_len path))

-- With the buffer of `search_file`, which has twelve bytes, such a name runs over the end of it.
pub strip_path_overflow :
    (path : List ℕ)
    → max_filename_len ≤ length path
    → has_slash (take max_filename_len path) ≡ false
    → strip_path max_filename_len (some (slash ∷ path)) ≡ err wild
unfolding strip_path skip_slash end_name
strip_path_overflow path long plain =
    copy_name-long max_filename_len 11 path [] (omega arith) (omega arith) (omega arith) plain
    ∙ end_name_over max_filename_len (take max_filename_len path)
        (omega (arith, length-take max_filename_len path))
