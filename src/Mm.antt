-- ===== src/Mm.antt =====
-- The memory manager (mm): the memory of a new process, and how processes end and are waited for.
--
-- Message exchanges of the task appear as a list in the order in which they are made.
pub mod Alloc
pub mod Children
pub mod Leave
pub mod Life
pub mod Fork
mod Tests
use lwos.Common.{
  ℕ, zero, suc, ◌+◌, ◌-◌, ◌*◌, Bool, true, false, not, ◌&&◌, ◌||◌, Option, none, some, List, [],
  ◌∷◌, ◌++◌, ltb, leb, ◌==◌, if◌then◌else◌,
}
use lwos.Common.Int.{ℤ}
use lwos.Fault.{Result, ok, err, assertion, panic, wild, check, ◌>>=◌, ◌>>◌}
use lwos.Proc.{Flags, flags, Process, nr_slots, nr_native, update}

abbrev pub procs_base : ℕ
procs_base = 0xa00000

abbrev pub proc_image_size_default : ℕ
proc_image_size_default = 0x100000

-- Sizes and pids are natural numbers, whose sums stay below 2^31.
pub alloc_mem : (memory_size pid memsize : ℕ) → Result ℕ
alloc_mem memory_size pid memsize = do
  check (leb nr_native pid) assertion
  check (leb memsize proc_image_size_default) panic
  let base = procs_base + (pid - nr_native) * proc_image_size_default
  check (ltb (base + memsize) memory_size) panic
  ok base

-- What the task sends: `EXIT` to the file system, which answers; `SYSCALL_RET` to a parent with the
-- child's pid and status; `SYSCALL_RET` to a process without children; `FORK` to the file system, which
-- answers; `SYSCALL_RET` to a new child, with `RETVAL` and `PID` 0; `SYSCALL_RET` to a process that
-- forked, with `RETVAL` and `PID`, which is `none` if it was not set.
pub data Sent : Type 0 where
  exit_notice : (pid : ℕ) → Sent
  child_done : (parent pid : ℕ) → (status : ℤ) → Sent
  no_child : (pid : ℕ) → Sent
  fork_notice : (pid : ℕ) → Sent
  child_started : (pid : ℕ) → Sent
  forked : (parent : ℕ) → (retval : ℤ) → (pid : Option ℕ) → Sent

pub record Table : Type 0 where
  pub procs : ℕ → Process
  pub sent : List Sent

abbrev pub init : ℕ
init = 5

abbrev pub put_process : ℕ → Process → Table → Table
put_process i p t = record t { procs = update t.procs i p }

abbrev pub send : Sent → Table → Table
send m t = record t { sent = t.sent ++ (m ∷ []) }

-- The flags `HANGING` and `WAITING` set to a value.
abbrev pub set_hanging : Bool → Process → Process
set_hanging b p = record p { flags = record (p.flags) { hanging = b } }

abbrev pub set_waiting : Bool → Process → Process
set_waiting b p = record p { flags = record (p.flags) { waiting = b } }

-- `proc->flags = FREE_SLOT`.
abbrev pub freed : Process → Process
freed p = record p { flags = flags false false false false true }

abbrev pub task_mm_pid : ℕ
task_mm_pid = 4

-- `send_recv(SEND, party, …)`: `sys_sendrec` asserts that the party is a task or a native process,
-- and not the sender.
pub tell : (party : ℕ) → Sent → Table → Result Table
tell party m t =
    check (ltb party nr_native && not (party == task_mm_pid)) assertion >> ok (send m t)

pub cleanup : ℕ → Table → Result Table
cleanup i t =
    let parent = (t.procs i).p_parent in
    tell parent (child_done parent i (t.procs i).exit_status) t >>= λ t'.
    ok (put_process i (freed (t'.procs i)) t')

-- `flags == HANGING`: no other flag is set.
abbrev pub only_hanging : Flags → Bool
only_hanging f = f.hanging && not (f.sending || f.receiving || f.waiting || f.free_slot)

-- The loop of `do_wait` over `n` slots from `i` on: the first hanging child, and the children
-- counted so far.
pub scan_children : ℕ → (ℕ → Process) → (pid i children : ℕ) → Option ℕ × ℕ
scan_children zero procs pid i children = (none, children)
scan_children (suc n) procs pid i children =
    let is_child = (procs i).p_parent == pid in
    let children' = if is_child then children + 1 else children in
    let rest = scan_children n procs pid (i + 1) children' in
    if is_child && only_hanging (procs i).flags then (some i, children') else rest

-- What `do_wait` does with the outcome of the loop.
pub answer_wait : ℕ → Option ℕ × ℕ → Table → Result Table
answer_wait pid (some i, children) t = cleanup i t
answer_wait pid (none, zero) t = tell pid (no_child pid) t
answer_wait pid (none, suc n) t = ok (put_process pid (set_waiting true (t.procs pid)) t)

pub do_wait : ℕ → Table → Result Table
do_wait pid t = answer_wait pid (scan_children nr_slots t.procs pid 0 0) t

-- The loop of `do_exit` over `n` slots from `i` on: children of the process go to `INIT`. The branch
-- for one that hangs while `INIT` waits ends with `assert(0)`.
pub reparent : ℕ → (pid i : ℕ) → Table → Result Table
reparent zero pid i t = ok t
reparent (suc n) pid i t =
    let is_child = (t.procs i).p_parent == pid in
    let t' = if is_child then put_process i (record (t.procs i) { p_parent = init }) t else t in
    let rest = reparent n pid (i + 1) t' in
    if is_child && ((t'.procs init).flags.waiting && (t'.procs i).flags.hanging)
    then err assertion
    else rest

-- `do_exit` up to the loop. The table has no slot for a parent such as `NO_TASK`.
pub leave : (pid : ℕ) → (status : ℤ) → Table → Result Table
leave pid status t =
    let parent = (t.procs pid).p_parent in
    let t1 = send (exit_notice pid) t in
    let t2 = put_process pid (record (t1.procs pid) { exit_status = status }) t1 in
    check (ltb parent nr_slots) wild
    >> (if (t2.procs parent).flags.waiting
        then cleanup pid (put_process parent (set_waiting false (t2.procs parent)) t2)
        else ok (put_process pid (set_hanging true (t2.procs pid)) t2))

pub do_exit : (pid : ℕ) → (status : ℤ) → Table → Result Table
do_exit pid status t = leave pid status t >>= λ t'. reparent nr_slots pid 0 t'
