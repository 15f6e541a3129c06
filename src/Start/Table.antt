-- ===== src/Start/Table.antt =====
-- kernel/main.c: `kernel_main`, which fills the process table.
--
-- `init_clock` and `init_keyboard`, which only set up the devices and the handlers of their
-- interrupts, and the jump to the first process are left out.
pub mod Fill
pub mod First
use lwos.Common.{
  ℕ, zero, suc, ◌+◌, ◌-◌, ◌*◌, ◌/◌, ◌%◌, ◌^◌, Bool, true, false, Option, none, some, List, [], ◌∷◌,
  get_or, bit_and, bit_or, ltb, leb, ◌==◌, if◌then◌else◌,
}
use lwos.Common.Int.{ℤ, pos}
use lwos.Fault.{Result, ok, err, wild, assertion, check, ◌>>=◌, ◌>>◌}
use lwos.Protect.{Descriptor, init_desc}
use lwos.Proc.{Process, Kernel, flags, nr_slots, nr_native, no_task, update, eq_ℤ}
use lwos.Text.{strcmp}
use lwos.Start.{Registers, Machine, Link}
use lwos.Start.Elf.{Elf, get_kernel_map}
use lwos.Start.Gates.{privilege_task, privilege_user}

-- `TASK`, without the address of the code.
pub record Task : Type 0 where
  pub stacksize : ℕ
  pub name : List ℕ
  pub priority : ℕ

-- `STACK_SIZE_DEFAULT`, and `STACK_SIZE_TOTAL`.
abbrev pub stack_size_default : ℕ
stack_size_default = 0x4000

abbrev pub stack_size_total : ℕ
stack_size_total = 9 * stack_size_default

abbrev pub nr_tasks : ℕ
nr_tasks = 5

abbrev pub task : List ℕ → ℕ → Task
task name priority = record { stacksize = stack_size_default; name = name; priority = priority }

-- "INIT"
abbrev pub init_name : List ℕ
init_name = 73 ∷ 78 ∷ 73 ∷ 84 ∷ []

-- `task_table` and behind it `user_process_table`.
abbrev pub task_list : List Task
task_list =
    task (116 ∷ 116 ∷ 121 ∷ []) 20
    ∷ task (115 ∷ 121 ∷ 115 ∷ []) 20
    ∷ task (104 ∷ 100 ∷ []) 20
    ∷ task (102 ∷ 115 ∷ []) 20
    ∷ task (109 ∷ 109 ∷ []) 20
    ∷ task init_name 25
    ∷ task (84 ∷ 101 ∷ 115 ∷ 116 ∷ 65 ∷ []) 5
    ∷ task (84 ∷ 101 ∷ 115 ∷ 116 ∷ 66 ∷ []) 10
    ∷ task (84 ∷ 101 ∷ 115 ∷ 116 ∷ 67 ∷ []) 15
    ∷ []

-- The entry of slot `i`; only the first `nr_native` slots are looked up.
abbrev pub task_at : ℕ → Task
task_at i = get_or task_list i (task [] 0)

-- The attributes `DA_C`, `DA_DRW`, `DA_32` and `DA_LIMIT_4K`.
abbrev pub da_c : ℕ
da_c = 0x98

abbrev pub da_drw : ℕ
da_drw = 0x92

abbrev pub da_32_4k : ℕ
da_32_4k = 0xc000

-- The local descriptors of every process but INIT.
pub copy_ldt : (gdt : ℕ → Descriptor) → (priv : ℕ) → Process → Process
copy_ldt gdt priv p =
    let code = gdt 1 in
    let data' = gdt 2 in
    record p {
      ldt_code = record code { attr1 = bit_or da_c (priv * 2 ^ 5) };
      ldt_data = record data' { attr1 = bit_or da_drw (priv * 2 ^ 5) };
    }

-- Those of INIT, which cover the kernel. `none` is a map that was not found.
pub init_ldt : Option (ℕ × ℕ) → (priv : ℕ) → Process → Result Process
init_ldt none priv p = err assertion
init_ldt (some (k_base, k_limit)) priv p =
    let limit : ℕ = (k_base + k_limit) % 2 ^ 32 / 2 ^ 12 in
    ok (record p {
      ldt_code = init_desc 0 limit (bit_or (da_32_4k + da_c) (priv * 2 ^ 5));
      ldt_data = init_desc 0 limit (bit_or (da_32_4k + da_drw) (priv * 2 ^ 5));
    })

-- The registers: selectors of the local descriptors, with the privilege `rpl`.
pub start_registers : (rpl eflags eip esp : ℕ) → Registers → Registers
start_registers rpl eflags eip esp r =
    let data' : ℕ = bit_or (1 * 2 ^ 3 + 4) rpl in
    record r {
      cs = bit_or 4 rpl;
      ds = data';
      es = data';
      fs = data';
      ss = data';
      gs = bit_or (bit_and 0x1b 0xfffc) rpl;
      eip = eip;
      esp = esp;
      eflags = eflags;
    }

-- The fields of a process that can run, with no message on its way.
pub reset_fields : Process → Process
reset_fields p = record p {
  flags = flags false false false false false;
  msg = 0;
  recvfrom = no_task;
  sendto = no_task;
  has_int_msg = false;
  sending_queue = none;
  next_sending = none;
  filp = λ fd. if ltb fd 64 then none else p.filp fd;
}

-- `if (strcmp(t->name, "INIT") != 0)` and what depends on it.
pub fill_ldt :
    (boot : ℕ → ℕ) (files : ℕ → Elf) (gdt : ℕ → Descriptor) (t : Task) (priv : ℕ)
    → Process
    → Result Process
fill_ldt boot files gdt t priv p =
    let init_result = get_kernel_map boot files >>= λ found. init_ldt found priv p in
    if eq_ℤ (strcmp (t.name) init_name) (pos 0) then init_result else ok (copy_ldt gdt priv p)

-- The rest of the loop's body for a slot that is used, once its local descriptors are filled.
abbrev pub finish_slot : Link → (i priv eflags stk : ℕ) → Process → Machine → Machine
finish_slot link i priv eflags stk p m =
    let k : Kernel = m.kernel in
    let t : Task = task_at i in
    record m {
      kernel = record k { procs = update k.procs i (reset_fields p) };
      regs = update m.regs i (start_registers priv eflags (link.entry i) stk (m.regs i));
      name = update m.name i (t.name);
    }

-- The loop's body for a slot that is used.
pub start_process :
    Link → (boot : ℕ → ℕ) → (files : ℕ → Elf) → (i stk : ℕ) → Machine → Result Machine
start_process link boot files i stk m =
    let k : Kernel = m.kernel in
    let is_task : Bool = ltb i nr_tasks in
    let priv : ℕ = if is_task then privilege_task else privilege_user in
    let eflags : ℕ = if is_task then 0x1202 else 0x0202 in
    fill_ldt boot files m.gdt (task_at i) priv (record (k.procs i) { p_parent = 57 }) >>= λ p.
    ok (finish_slot link i priv eflags stk p m)

-- `p->flags = FREE_SLOT`.
pub free_slot : (i : ℕ) → Machine → Machine
free_slot i m =
    let k : Kernel = m.kernel in
    let p : Process = k.procs i in
    record m {
      kernel = record k {
        procs = update k.procs i (record p { flags = flags false false false false true });
      };
    }

-- The loop over `n` slots from `i` on, with the top of the stacks that are left.
pub fill_table :
    (n i stk : ℕ) → Link → (boot : ℕ → ℕ) → (files : ℕ → Elf) → Machine → Result Machine
fill_table zero i stk link boot files m = ok m
fill_table (suc n) i stk link boot files m =
    let freed = fill_table n (i + 1) stk link boot files (free_slot i m) in
    if leb nr_native i
    then freed
    else start_process link boot files i stk m >>= λ m'.
        fill_table n (i + 1) (stk - (task_at i).stacksize) link boot files m'

pub kernel_main : Link → (boot : ℕ → ℕ) → (files : ℕ → Elf) → Machine → Result Machine
kernel_main link boot files m =
    fill_table nr_slots 0 (link.task_stack + stack_size_total) link boot files m >>= λ m'.
    let k : Kernel = m'.kernel in
    ok (record m' { kernel = record k { ticks = 0; k_reenter = 0; ready = 0 } })
