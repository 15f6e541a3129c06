-- ===== src/Start/Table/Fill.antt =====
-- What `kernel_main` makes of the slots of the process table.
use lwos.Common.{
  ℕ, zero, suc, ◌+◌, ◌-◌, ◌*◌, ◌/◌, ◌%◌, ◌^◌, ◌≤◌, ◌<◌, ◌≡◌, refl, ◌∙◌, ap, ltb, leb, ◌==◌,
  if◌then◌else◌, arith, Bool-cases, inl, inr, true, false, bit_or, some, ==_iff,
}
use lwos.Common.Int.{pos}
use lwos.Common.Bits.{passes_below, passes_below-lt}
use lwos.Fault.{Result, ok, ◌>>=◌}
use lwos.Protect.{Descriptor, ldt_seg_linear}
use lwos.Protect.Laws.{seg_base-init_desc}
use lwos.Proc.{Process, Kernel, flags, nr_slots, nr_native, eq_ℤ, is_clear}
use lwos.Text.{strcmp}
use lwos.Start.{Registers, Machine, Link}
use lwos.Start.Elf.{Elf, get_kernel_map}
use lwos.Start.Table.{
  Task, task_at, stack_size_default, nr_tasks, init_name, da_32_4k, da_drw, copy_ldt, init_ldt,
  fill_ldt, reset_fields, start_registers, finish_slot, start_process, free_slot, fill_table,
  stack_size_total, kernel_main,
}
use lwos.Start.Gates.{privilege_task, privilege_user}

stacksize_table : passes_below (λ i. (task_at i).stacksize == stack_size_default) nr_native ≡ true
unfolding passes_below
stacksize_table = refl

stacksize_at : (i : ℕ) → i < nr_native → (task_at i).stacksize ≡ stack_size_default
stacksize_at i h =
    (==_iff (task_at i).stacksize stack_size_default).0
      (passes_below-lt _ nr_native {v = i} stacksize_table h)

-- What the local descriptors do to a process: its data segment starts at 0, and its turn stays.
record IsLaid (p p' : Process) : Type 0 where
  base : ldt_seg_linear p'.ldt_data ≡ 0
  ticks : p'.ticks ≡ p.ticks
  priority : p'.priority ≡ p.priority

fill_ldt-IsLaid :
    (boot : ℕ → ℕ) (files : ℕ → Elf) (gdt : ℕ → Descriptor) (t : Task) (priv : ℕ) (p : Process)
    (b l : ℕ)
    → get_kernel_map boot files ≡ ok (some (b, l))
    → ldt_seg_linear (gdt 2) ≡ 0
    → (p' : Process) × (fill_ldt boot files gdt t priv p ≡ ok p') × IsLaid p p'
unfolding fill_ldt init_ldt copy_ldt ldt_seg_linear
fill_ldt-IsLaid boot files gdt t priv p b l found flat =
    let limit : ℕ = (b + l) % 2 ^ 32 / 2 ^ 12 in
    elim (Bool-cases (eq_ℤ (strcmp (t.name) init_name) (pos 0))) [
      | inl init ↦
          rw (init, found, ◌>>=◌)
            (
              _,
              refl,
              record {
                base =
                    (seg_base-init_desc 0 limit (bit_or (da_32_4k + da_drw) (priv * 2 ^ 5))
                      (omega arith)).0;
                ticks = refl;
                priority = refl;
              },
            )
      | inr other ↦ rw other (_, refl, record { base = flat; ticks = refl; priority = refl })
    ]

-- The top of the stack of slot `s`.
abbrev pub stack_top : Link → (s : ℕ) → ℕ
stack_top link s = link.task_stack + (nr_native - s) * stack_size_default

-- What the slot of a task or of a first process holds.
pub record IsStarted (link : Link) (m : Machine) (s : ℕ) : Type 0 where
  pub esp : (m.regs s).esp ≡ stack_top link s
  pub base : ldt_seg_linear (m.kernel.procs s).ldt_data ≡ 0
  pub can_run : is_clear (m.kernel.procs s).flags ≡ true

-- The slots from `i` on and below `j` are filled.
pub record IsFilled (link : Link) (m m' : Machine) (i j : ℕ) : Type 0 where
  pub procs_before : (s : ℕ) → s < i → m'.kernel.procs s ≡ m.kernel.procs s
  pub regs_before : (s : ℕ) → s < i → m'.regs s ≡ m.regs s
  pub used : (s : ℕ) → i ≤ s → s < j → s < nr_native → IsStarted link m' s
  pub free :
      (s : ℕ)
      → i ≤ s
      → s < j
      → nr_native ≤ s
      → (m'.kernel.procs s).flags ≡ flags false false false false true
  pub turn :
      (s : ℕ)
      → ((m'.kernel.procs s).ticks ≡ (m.kernel.procs s).ticks)
        × ((m'.kernel.procs s).priority ≡ (m.kernel.procs s).priority)

IsFilled-free :
    (link : Link) (m m' : Machine) (i j : ℕ)
    → nr_native ≤ i
    → IsFilled link (free_slot i m) m' (i + 1) j
    → IsFilled link m m' i j
unfolding free_slot
IsFilled-free link m m' i j beyond f = record {
  procs_before = λ s h. f.procs_before s (omega arith) ∙ ground arith;
  regs_before = λ s h. f.regs_before s (omega arith);
  used = λ s a b native. absurd (omega arith);
  free = λ s a b native. elim (Bool-cases (s == i)) [
    | inl here ↦
        let same : s ≡ i = ground arith in
        rw same (ap (λ (p : Process). p.flags) (f.procs_before i (omega arith)) ∙ ground arith)
    | inr later ↦ f.free s (ground arith) b native
  ];
  turn = λ s. let (t, p) = f.turn s in (t ∙ ground arith, p ∙ ground arith);
}

IsFilled-used :
    (link : Link) (priv eflags stk : ℕ) (p : Process) (m m' : Machine) (i j : ℕ)
    → i < nr_native
    → stk ≡ stack_top link i
    → IsLaid (m.kernel.procs i) p
    → IsFilled link (finish_slot link i priv eflags stk p m) m' (i + 1) j
    → IsFilled link m m' i j
unfolding reset_fields start_registers
IsFilled-used link priv eflags stk p m m' i j native top laid f =
    let m1 : Machine = finish_slot link i priv eflags stk p m in
    let put : m1.kernel.procs i ≡ reset_fields p = ground arith in
    let regs : m1.regs i ≡ start_registers priv eflags (link.entry i) stk (m.regs i) =
      ground arith in
    let process = f.procs_before i (omega arith) ∙ put in
    record {
      procs_before = λ s h. f.procs_before s (omega arith) ∙ ground arith;
      regs_before = λ s h. f.regs_before s (omega arith) ∙ ground arith;
      used = λ s a b h. elim (Bool-cases (s == i)) [
        | inl here ↦
            let same : s ≡ i = ground arith in
            rw same (record {
              esp = ap (λ (r : Registers). r.esp) (f.regs_before i (omega arith) ∙ regs) ∙ top;
              base = ap (λ (q : Process). ldt_seg_linear q.ldt_data) process ∙ laid.base;
              can_run = ap (λ (q : Process). is_clear q.flags) process;
            })
        | inr later ↦ f.used s (ground arith) b h
      ];
      free = λ s a b h. f.free s (omega arith) b h;
      turn = λ s. elim (Bool-cases (s == i)) [
        | inl here ↦
            let same : s ≡ i = ground arith in
            rw same (
              ap (λ (q : Process). q.ticks) process ∙ laid.ticks,
              ap (λ (q : Process). q.priority) process ∙ laid.priority,
            )
        | inr later ↦ let (t, q) = f.turn s in (t ∙ ground arith, q ∙ ground arith)
      ];
    }

start_process-IsLaid :
    (link : Link) (boot : ℕ → ℕ) (files : ℕ → Elf) (i stk b l : ℕ) (m : Machine)
    → get_kernel_map boot files ≡ ok (some (b, l))
    → ldt_seg_linear (m.gdt 2) ≡ 0
    → (priv : ℕ) × (eflags : ℕ) × (p : Process) × IsLaid (m.kernel.procs i) p
      × (start_process link boot files i stk m ≡ ok (finish_slot link i priv eflags stk p m))
unfolding start_process
start_process-IsLaid link boot files i stk b l m found flat =
    let k : Kernel = m.kernel in
    let is_task = ltb i nr_tasks in
    let priv : ℕ = if is_task then privilege_task else privilege_user in
    let (p, run, laid) =
      fill_ldt-IsLaid boot files m.gdt (task_at i) priv (record (k.procs i) { p_parent = 57 }) b l
        found flat in
    (
      priv,
      if is_task then 0x1202 else 0x0202,
      p,
      record { base = laid.base; ticks = laid.ticks; priority = laid.priority },
      ap
          (λ (r : Result Process).
            r >>= λ q. ok (finish_slot link i priv (if is_task then 0x1202 else 0x0202) stk q m))
          run,
    )

fill_table-IsFilled :
    (n i j stk : ℕ) (link : Link) (boot : ℕ → ℕ) (files : ℕ → Elf) (b l : ℕ) (m : Machine)
    → i + n ≡ j
    → (i < nr_native → stk ≡ stack_top link i)
    → get_kernel_map boot files ≡ ok (some (b, l))
    → ldt_seg_linear (m.gdt 2) ≡ 0
    → (m' : Machine) × (fill_table n i stk link boot files m ≡ ok m') × IsFilled link m m' i j
unfolding fill_table free_slot
fill_table-IsFilled zero i j stk link boot files b l m e top found flat = (
  m,
  refl,
  record {
    procs_before = λ s h. refl;
    regs_before = λ s h. refl;
    used = λ s lo hi h. absurd (omega arith);
    free = λ s lo hi h. absurd (omega arith);
    turn = λ s. (refl, refl);
  },
)
fill_table-IsFilled (suc n) i j stk link boot files b l m e top found flat =
    elim (Bool-cases (leb nr_native i)) [
      | inl beyond ↦
          let late : nr_native ≤ i = ground arith in
          let (m', run, f) =
            fill_table-IsFilled n (i + 1) j stk link boot files b l (free_slot i m) (omega arith)
              (λ h. absurd (omega arith)) found flat in
          rw (beyond, run) (m', refl, IsFilled-free link m m' i j late f)
      | inr native ↦
          let early : i < nr_native = ground arith in
          let (priv, eflags, p, laid, start) =
            start_process-IsLaid link boot files i stk b l m found flat in
          let (m', run, f) =
            fill_table-IsFilled n (i + 1) j (stk - (task_at i).stacksize) link boot files b l
              (finish_slot link i priv eflags stk p m) (omega arith)
              (λ h. omega (arith, stacksize_at i early, top early)) found flat in
          rw (native, start, ◌>>=◌)
            (m', run, IsFilled-used link priv eflags stk p m m' i j early (top early) laid f)
    ]

-- The kernel's image was found and the kernel's data segment starts at 0: then kernel_main succeeds.
-- The nine slots of the tasks and first processes can run, with data segments that start at 0, and
-- have stacks of 0x4000 bytes one below the other in the stack area; the other slots are free; and
-- no slot's ticks or priority has changed.
pub kernel_main-IsFilled :
    (link : Link) (boot : ℕ → ℕ) (files : ℕ → Elf) (b l : ℕ) (m : Machine)
    → get_kernel_map boot files ≡ ok (some (b, l))
    → ldt_seg_linear (m.gdt 2) ≡ 0
    → (m' : Machine) × (kernel_main link boot files m ≡ ok m') × IsFilled link m m' 0 nr_slots
unfolding kernel_main
kernel_main-IsFilled link boot files b l m found flat =
    let (m', run, f) =
      fill_table-IsFilled nr_slots 0 nr_slots (link.task_stack + stack_size_total) link boot files b
        l m refl (λ h. refl) found flat in
    let k : Kernel = m'.kernel in
    rw (run, ◌>>=◌)
      (
        record m' { kernel = record k { ticks = 0; k_reenter = 0; ready = 0 } },
        refl,
        record {
          procs_before = λ s h. f.procs_before s h;
          regs_before = λ s h. f.regs_before s h;
          used = λ s a c h.
              let u = f.used s a c h in record { esp = u.esp; base = u.base; can_run = u.can_run };
          free = λ s a c h. f.free s a c h;
          turn = λ s. f.turn s;
        },
      )
