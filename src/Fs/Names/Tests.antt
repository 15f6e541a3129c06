-- ===== src/Fs/Names/Tests.antt =====
-- The paths "/abc" and "/abcdefghijkl/m", with a buffer as long as that of `search_file`.
use lwos.Common.{ℕ, ◌≡◌, refl, some, List, [], ◌∷◌}
use lwos.Fault.{ok, err, wild}
use lwos.Fs.Names.{strip_path, skip_slash, copy_name, end_name}

abbrev abc : List ℕ
abc = 97 ∷ 98 ∷ 99 ∷ []

abbrev long_path : List ℕ
long_path = 97 ∷ 98 ∷ 99 ∷ 100 ∷ 101 ∷ 102 ∷ 103 ∷ 104 ∷ 105 ∷ 106 ∷ 107 ∷ 108 ∷ 47 ∷ 109 ∷ []

short_run : strip_path 12 (some (47 ∷ abc)) ≡ ok (some abc)
unfolding strip_path skip_slash copy_name end_name
short_run = refl

overflow_run : strip_path 12 (some (47 ∷ long_path)) ≡ err wild
unfolding strip_path skip_slash copy_name end_name
overflow_run = refl
