-- ===== src/Fs/Names.antt =====
-- fs/misc.c: `strip_path`, which takes the file's name out of a path.
--
-- A string is the list of its characters without the final 0. The directory that the function also
-- returns is always the root.
pub mod Strip
mod Tests
use lwos.Common.{
  ℕ, ◌+◌, Bool, true, false, ◌||◌, Option, none, some, List, [], ◌∷◌, ◌++◌, length, ltb, leb, ◌==◌,
  if◌then◌else◌,
}
use lwos.Fault.{Result, ok, err, wild, check, ◌>>=◌, ◌>>◌}

abbrev pub max_filename_len : ℕ
max_filename_len = 12

abbrev pub slash : ℕ
slash = 47

-- `*t = 0` behind the name, in a buffer of `size` bytes.
pub end_name : (size : ℕ) → List ℕ → Result (Option (List ℕ))
end_name size name = check (ltb (length name) size) wild >> ok (some name)

-- The loop: the rest of the path, and the name so far.
pub copy_name : (size : ℕ) → (path name : List ℕ) → Result (Option (List ℕ))
copy_name size [] name = end_name size name
copy_name size (c ∷ path) name =
    let name' = name ++ (c ∷ []) in
    let rest = copy_name size path name' in
    if c == slash
    then ok none
    else (check (ltb (length name) size) wild
        >> (if leb max_filename_len (length name') then end_name size name' else rest))

-- `if (*s == '/') s++`.
pub skip_slash : List ℕ → List ℕ
skip_slash [] = []
skip_slash (c ∷ path) = if c == slash then path else c ∷ path

-- `none` is the result -1.
pub strip_path : (size : ℕ) → Option (List ℕ) → Result (Option (List ℕ))
strip_path size none = ok none
strip_path size (some path) = copy_name size (skip_slash path) []
