-- ===== src/Fs/Descriptors/Seek.antt =====
-- The positions that `do_lseek` sets.
use lwos.Common.{ℕ, ◌≤◌, ◌≡◌, refl, ◌∙◌, ap, ◌⊎◌, inl, inr, Option, none, some, arith, Option-cases}
use lwos.Common.Int.{ℤ, pos, negsuc, ◌+ℤ◌}
use lwos.Fault.{ok, ◌>>=◌}
use lwos.Fs.Descriptors.{
  Tables, target, set_desc, seek_base, in_file, from_base, sought, move_to, do_lseek,
}

in_file-le : (f_size : ℕ) (p : ℤ) (n : ℕ) → in_file f_size p ≡ some n → n ≤ f_size
unfolding in_file
in_file-le f_size (pos m) n h = ground arith
in_file-le f_size (negsuc m) n h = cc

from_base-le :
    (f_size : ℕ) (off : ℤ) (base : Option ℕ) (n : ℕ)
    → from_base f_size off base ≡ some n
    → n ≤ f_size
unfolding from_base
from_base-le f_size off none n h = cc
from_base-le f_size off (some base) n h = in_file-le f_size (pos base +ℤ off) n h

sought-le :
    (whence fd_pos f_size : ℕ) (off : ℤ) (n : ℕ)
    → sought whence fd_pos f_size off ≡ some n
    → n ≤ f_size
unfolding sought
sought-le whence fd_pos f_size off n h =
    from_base-le f_size off (seek_base whence fd_pos f_size) n h

-- A request of `do_lseek` for an open file either fails with -1 and changes nothing, or sets the
-- position of the file's descriptor to one inside the file, returns it, and changes nothing else.
pub do_lseek-le :
    (pid fd : ℕ) (off : ℤ) (whence : ℕ) (t : Tables) (d i : ℕ)
    → t.filp pid fd ≡ some d
    → (t.f_desc_table d).fd_inode ≡ some i
    → (do_lseek pid fd off whence t ≡ ok (none, t))
      ⊎ ((n : ℕ) × (n ≤ (t.inode_table i).i_size)
          × (do_lseek pid fd off whence t
              ≡ ok (some n, set_desc d (record (t.f_desc_table d) { fd_pos = n }) t)))
unfolding do_lseek target move_to
do_lseek-le pid fd off whence t d i open_file of_inode =
    let p : Option ℕ = sought whence ((t.f_desc_table d).fd_pos) ((t.inode_table i).i_size) off in
    let run : do_lseek pid fd off whence t ≡ ok (move_to d t p) =
      rw (open_file, ◌>>=◌, of_inode) refl in
    elim (Option-cases p) [
      | inl invalid ↦ inl (run ∙ ap (λ o. ok (move_to d t o)) invalid)
      | inr (n, valid) ↦
          inr (n, sought-le whence _ _ off n valid, run ∙ ap (λ o. ok (move_to d t o)) valid)
    ]
