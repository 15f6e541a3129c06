-- ===== src/Mm/Fork.antt =====
-- mm/forkexit.c: `do_fork`, and mm/main.c: the loop body of `task_mm`.
--
-- Memory is a function from addresses to bytes. The name of the child and its `ldt_sel` are not in
-- `Process`, nor is what is printed.
pub mod Child
mod Tests
use lwos.Common.{
  ℕ, zero, suc, ◌+◌, ◌-◌, ◌*◌, ◌/◌, ◌^◌, Bool, true, false, not, ◌&&◌, ◌||◌, List, [], ◌∷◌, ◌++◌,
  bit_and, ltb, leb, ◌==◌, if◌then◌else◌, Option, none, some,
}
use lwos.Common.Int.{ℤ, pos, negsuc}
use lwos.Fault.{Result, ok, err, assertion, wild, check, ◌>>=◌, ◌>>◌}
use lwos.Protect.{Descriptor, init_desc, reassembly, seg_base, seg_limit}
use lwos.Proc.{Flags, Process, nr_slots, nr_native, update}
use lwos.Mm.{
  proc_image_size_default, alloc_mem, Sent, fork_notice, child_started, forked, Table, send, tell,
  do_exit, do_wait,
}

-- `p->flags == FREE_SLOT`.
abbrev pub only_free : Flags → Bool
only_free f = f.free_slot && not (f.sending || f.receiving || f.waiting || f.hanging)

-- The loop over `n` slots from `i` on, with the slot at which it ends.
pub find_free : (n i : ℕ) → (ℕ → Process) → ℕ
find_free zero i procs = i
find_free (suc n) i procs =
    let rest = find_free n (i + 1) procs in if only_free (procs i).flags then i else rest

-- `(caller_T_limit + 1) * (... & (DA_LIMIT_4K >> 8) ? 4096 : 1)`, of a limit and a descriptor.
pub seg_size : (limit : ℕ) → Descriptor → ℕ
seg_size limit d = (limit + 1) * (if bit_and d.limit_high_attr2 0x80 == 0 then 1 else 4096)

-- `caller_D_S_limit`.
abbrev pub data_limit : Descriptor → ℕ
data_limit d = reassembly (bit_and d.limit_high_attr2 0xf) 0x10000 0 1 d.limit_low

-- The last `assert` before the copy.
abbrev pub same_segments : (code data' : Descriptor) → Bool
same_segments code data' =
    (seg_base code == seg_base data')
    && ((seg_limit code == data_limit data')
        && (seg_size (seg_limit code) code == seg_size (seg_limit code) data'))

-- The process table with the messages that the task sends, and all memory.
pub record World : Type 0 where
  pub table : Table
  pub mem : ℕ → ℕ

-- `(PROC_IMAGE_SIZE_DEFAULT - 1) >> LIMIT_4K_SHITF`.
abbrev pub image_limit : ℕ
image_limit = (proc_image_size_default - 1) / 2 ^ 12

-- `*p = proc_table[pid]`, and what is set in the copy.
abbrev pub child_of : (pid child_base : ℕ) → Process → Process
child_of pid child_base caller = record caller {
  p_parent = pid;
  ldt_code = init_desc child_base image_limit 0xc0f8;
  ldt_data = init_desc child_base image_limit 0xc0f2;
}

-- `phys_copy`: `n` bytes, one after the other.
pub copy_up : (n dst src : ℕ) → (ℕ → ℕ) → ℕ → ℕ
copy_up zero dst src mem = mem
copy_up (suc n) dst src mem = copy_up n (dst + 1) (src + 1) (update mem dst (mem src))

-- `do_fork` once a slot is found, up to the message to the file system. A size that an int cannot
-- hold is one that C leaves open.
pub make_child : (memory_size pid child_pid : ℕ) → World → Result World
make_child memory_size pid child_pid w =
    let t : Table = w.table in
    let caller : Process = t.procs pid in
    let caller_base : ℕ = seg_base caller.ldt_code in
    let caller_size : ℕ = seg_size (seg_limit caller.ldt_code) caller.ldt_code in
    check (ltb caller_size (2 ^ 31)) wild
    >> (check (same_segments caller.ldt_code caller.ldt_data) assertion
        >> (alloc_mem memory_size child_pid caller_size >>= λ child_base. ok (record {
          table = record {
            procs = update t.procs child_pid (child_of pid child_base caller);
            sent = t.sent ++ (fork_notice child_pid ∷ []);
          };
          mem = copy_up caller_size child_base caller_base w.mem;
        })))

-- The message to the child.
pub start_child : (child_pid : ℕ) → World → Result World
start_child child_pid w =
    tell child_pid (child_started child_pid) w.table >>= λ t. ok (record w { table = t })

-- `do_fork`: the value it returns, `mm_msg.PID`, and the state. `none` leaves `PID` as it was.
pub do_fork : (memory_size pid : ℕ) → World → Result (ℤ × Option ℕ × World)
do_fork memory_size pid w =
    let child_pid : ℕ = find_free nr_slots 0 w.table.procs in
    let child = make_child memory_size pid child_pid w >>= λ w1.
    start_child child_pid w1 >>= λ w2. ok (pos 0, some child_pid, w2) in
    check (leb nr_native child_pid) assertion
    >> (if child_pid == nr_slots then ok (negsuc 0, none, w) else child)

-- The requests that `task_mm` knows, and any other type.
pub data Request : Type 0 where
  fork_request : Request
  exit_request : (status : ℤ) → Request
  wait_request : Request
  unknown : Request

-- The body of the loop of `task_mm`, behind the receive.
pub task_mm : (memory_size src : ℕ) → Request → World → Result World
task_mm memory_size src fork_request w = do_fork memory_size src w >>= λ (retval, pid, w').
    tell src (forked src retval pid) w'.table >>= λ t. ok (record w' { table = t })
task_mm memory_size src (exit_request status) w =
    do_exit src status w.table >>= λ t. ok (record w { table = t })
task_mm memory_size src wait_request w = do_wait src w.table >>= λ t. ok (record w { table = t })
task_mm memory_size src unknown w = err assertion
