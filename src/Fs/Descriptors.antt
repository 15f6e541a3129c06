-- ===== src/Fs/Descriptors.antt =====
-- Open files: `do_close` and `do_lseek` of fs/open.c, `put_inode`, `fs_fork` and `fs_exit` of
-- fs/main.c.
pub mod Seek
mod Tests
use lwos.Common.{
  ℕ, zero, suc, ◌+◌, ◌-◌, Bool, true, false, Option, none, some, ltb, leb, ◌==◌, if◌then◌else◌,
}
use lwos.Common.Int.{ℤ, pos, negsuc, ◌+ℤ◌}
use lwos.Fault.{Result, ok, err, assertion, wild, check, ◌>>=◌, ◌>>◌}
use lwos.Proc.{update}
use lwos.Fs.{Inode, FileDesc}

-- `filp` of each process, `f_desc_table` and `inode_table`.
pub record Tables : Type 0 where
  pub filp : ℕ → ℕ → Option ℕ
  pub f_desc_table : ℕ → FileDesc
  pub inode_table : ℕ → Inode

abbrev pub nr_files : ℕ
nr_files = 64

-- The entry that a pointer leads to; a null pointer leads nowhere.
pub target : Option ℕ → Result ℕ
target none = err wild
target (some i) = ok i

abbrev pub set_inode_cnt : ℕ → ℕ → Tables → Tables
set_inode_cnt i n t = record t {
  inode_table = update t.inode_table i (record (t.inode_table i) { i_cnt = n });
}

abbrev pub set_desc : ℕ → FileDesc → Tables → Tables
set_desc d f t = record t { f_desc_table = update t.f_desc_table d f }

abbrev pub set_filp : (pid fd : ℕ) → Option ℕ → Tables → Tables
set_filp pid fd v t = record t { filp = update t.filp pid (update (t.filp pid) fd v) }

pub put_inode : ℕ → Tables → Result Tables
put_inode i t =
    check (ltb 0 (t.inode_table i).i_cnt) assertion
    >> ok (set_inode_cnt i ((t.inode_table i).i_cnt - 1) t)

-- `if (--filp->fd_cnt == 0) …` and `filp = 0`, for descriptor `d` at slot `fd` of a process.
pub drop_desc : (pid fd d : ℕ) → Tables → Tables
drop_desc pid fd d t =
    let f = t.f_desc_table d in
    let f1 : FileDesc = record f { fd_cnt = f.fd_cnt - 1 } in
    let f2 : FileDesc = if f1.fd_cnt == 0 then record f1 { fd_inode = none } else f1 in
    set_filp pid fd none (set_desc d f2 t)

pub do_close : (pid fd : ℕ) → Tables → Result Tables
do_close pid fd t = do
  d ← target (t.filp pid fd)
  i ← target (t.f_desc_table d).fd_inode
  t1 ← put_inode i t
  ok (drop_desc pid fd d t1)

-- The loop of `fs_fork` over `n` slots from `fd` on.
pub fork_loop : ℕ → (pid fd : ℕ) → Tables → Result Tables
fork_loop zero pid fd t = ok t
fork_loop (suc n) pid fd t = elim (t.filp pid fd) [
  | none ↦ fork_loop n pid (fd + 1) t
  | some d ↦ do
    let f = t.f_desc_table d
    i ← target f.fd_inode
    let t1 = set_desc d (record f { fd_cnt = f.fd_cnt + 1 }) t
    fork_loop n pid (fd + 1) (set_inode_cnt i ((t1.inode_table i).i_cnt + 1) t1)
]

pub fs_fork : ℕ → Tables → Result Tables
fs_fork pid t = fork_loop nr_files pid 0 t

-- The loop of `fs_exit` over `n` slots from `fd` on. Reference counts are positive here.
pub exit_loop : ℕ → (pid fd : ℕ) → Tables → Result Tables
exit_loop zero pid fd t = ok t
exit_loop (suc n) pid fd t = elim (t.filp pid fd) [
  | none ↦ exit_loop n pid (fd + 1) t
  | some d ↦ do
    i ← target (t.f_desc_table d).fd_inode
    exit_loop n pid (fd + 1) (drop_desc pid fd d (set_inode_cnt i ((t.inode_table i).i_cnt - 1) t))
]

pub fs_exit : ℕ → Tables → Result Tables
fs_exit pid t = exit_loop nr_files pid 0 t

-- `SEEK_SET`, `SEEK_CUR` and `SEEK_END`: what the offset is added to. `none` is the `default`.
pub seek_base : (whence fd_pos f_size : ℕ) → Option ℕ
seek_base whence fd_pos f_size =
    if whence == 1
    then some 0
    else if whence == 2
    then some fd_pos
    else if whence == 3
    then some f_size
    else none

-- `if ((pos > f_size) || (pos < 0)) return -1`.
pub in_file : ℕ → ℤ → Option ℕ
in_file f_size (pos n) = if leb n f_size then some n else none
in_file f_size (negsuc n) = none

-- The new position, if the request is valid.
pub from_base : (f_size : ℕ) → ℤ → Option ℕ → Option ℕ
from_base f_size off none = none
from_base f_size off (some base) = in_file f_size (pos base +ℤ off)

pub sought : (whence fd_pos f_size : ℕ) → ℤ → Option ℕ
sought whence fd_pos f_size off = from_base f_size off (seek_base whence fd_pos f_size)

-- The result, `none` for -1, and the tables.
pub move_to : (d : ℕ) → Tables → Option ℕ → Option ℕ × Tables
move_to d t none = (none, t)
move_to d t (some n) = (some n, set_desc d (record (t.f_desc_table d) { fd_pos = n }) t)

pub do_lseek : (pid fd : ℕ) → (off : ℤ) → (whence : ℕ) → Tables → Result (Option ℕ × Tables)
do_lseek pid fd off whence t = do
  d ← target (t.filp pid fd)
  let f = t.f_desc_table d
  i ← target f.fd_inode
  ok (move_to d t (sought whence f.fd_pos (t.inode_table i).i_size off))
