-- ===== src/Start/Table/First.antt =====
-- The kernel right after its start: what the scheduler and the message passing find.
use lwos.Common.{ℕ, ◌+◌, ◌%◌, ◌^◌, ◌<◌, ◌≡◌, refl, ◌∙◌, ap, ltb, not, ◌||◌, ◌==◌, arith, some, true}
use lwos.Fault.{ok, err, spin}
use lwos.Protect.{ldt_seg_linear}
use lwos.Proc.{Process, nr_native}
use lwos.Ipc.{schedule_loop, va2la}
use lwos.Ipc.Schedule.{schedule_spins}
use lwos.Start.{Machine, Link}
use lwos.Start.Elf.{Elf, get_kernel_map}
use lwos.Start.Gates.{init_protect}
use lwos.Start.Gates.Segments.{init_protect-IsCleared}
use lwos.Start.Table.{kernel_main}
use lwos.Start.Table.Fill.{kernel_main-IsFilled}

-- The kernel's image is found and the kernel's data segment starts at 0: then init_protect and
-- kernel_main succeed, and schedule, called in the state that they leave, loops for ever, because
-- every slot has neither ticks nor a priority.
pub schedule_loop-kernel_main :
    (link : Link) (boot : ℕ → ℕ) (files : ℕ → Elf) (b l : ℕ) (m : Machine)
    → get_kernel_map boot files ≡ ok (some (b, l))
    → ldt_seg_linear (m.gdt 2) ≡ 0
    → (m1 : Machine) × (m2 : Machine) × (init_protect link m ≡ ok m1)
      × (kernel_main link boot files m1 ≡ ok m2)
      × ((fuel : ℕ) → schedule_loop fuel m2.kernel ≡ err spin)
schedule_loop-kernel_main link boot files b l m found flat =
    let (m1, protected', data_segment, cleared) = init_protect-IsCleared link m in
    let (m2, started, f) =
      kernel_main-IsFilled link boot files b l m1 found (data_segment ∙ flat) in
    (
      m1,
      m2,
      protected',
      started,
      λ fuel. schedule_spins fuel m2.kernel (λ s h run.
          let (segment, clear) = cleared s h in
          let (t, p) = f.turn s in
          (
            t ∙ ap (λ (q : Process). q.ticks) clear.process,
            p ∙ ap (λ (q : Process). q.priority) clear.process,
          )),
    )

-- The kernel's image is found and the kernel's data segment starts at 0: then kernel_main succeeds,
-- and afterwards va2la of an address below 2^32 in a task or first process gives the address itself.
pub va2la-kernel_main :
    (link : Link) (boot : ℕ → ℕ) (files : ℕ → Elf) (b l : ℕ) (m : Machine)
    → get_kernel_map boot files ≡ ok (some (b, l))
    → ldt_seg_linear (m.gdt 2) ≡ 0
    → (m' : Machine) × (kernel_main link boot files m ≡ ok m')
      × ((pid va : ℕ) → pid < nr_native → va < 2 ^ 32 → va2la pid va m'.kernel ≡ ok va)
unfolding va2la
va2la-kernel_main link boot files b l m found flat =
    let (m', started, f) = kernel_main-IsFilled link boot files b l m found flat in
    (
      m',
      started,
      λ pid va native word.
          let u = f.used pid (omega arith) (omega arith) native in
          let same : (ldt_seg_linear (m'.kernel.procs pid).ldt_data + va) % 2 ^ 32 ≡ va =
            omega (arith, u.base) in
          let holds : (not (ltb pid nr_native) || (va == va)) ≡ true = ground arith in
          rw (same, holds) refl,
    )
