-- ===== src/Start/Tests.antt =====
-- A machine as the loader leaves it: flat segments from 0, and an image of one loaded section.
use lwos.Common.{ℕ, ◌+◌, ◌*◌, ◌^◌, ◌<◌, ◌≡◌, refl, true, false, some, [], ◌==◌, if◌then◌else◌}
use lwos.Fault.{ok, err, spin}
use lwos.Protect.{init_desc, ldt_seg_linear}
use lwos.Proc.{Kernel, zero_message, nr_slots, nr_native}
use lwos.Ipc.{schedule_loop, va2la}
use lwos.Start.{Gate, Machine, Link}
use lwos.Start.Elf.{Elf, get_boot_params, map_loop, get_kernel_map}
use lwos.Start.Gates.{
  zero_process, zero_tss, zero_descriptor, zero_registers, init_protect, selector_kernel_ds,
  seg2linear, makelinear, init_idt_desc, init_gates, gates,
}
use lwos.Start.Gates.Segments.{IsZero, init_protect-IsCleared}
use lwos.Start.Table.{kernel_main}
use lwos.Start.Table.First.{schedule_loop-kernel_main, va2la-kernel_main}

abbrev link : Link
link = record {
  handler = λ v. 0x31000 + v * 16;
  entry = λ i. 0x32000 + i * 16;
  ldts = λ i. 0x33000 + i * 512 + 80;
  tss = 0x34000;
  task_stack = 0x40000;
}

abbrev zero_gate : Gate
zero_gate = record { offset_low = 0; selector = 0; dcount = 0; attribute = 0; offset_high = 0 }

abbrev kernel : Kernel
kernel = record {
  procs = λ i. zero_process;
  before = zero_process;
  mem = λ la. zero_message;
  ready = 0;
  ticks = 0;
  k_reenter = 0;
  key_pressed = false;
}

abbrev machine : Machine
machine = record {
  kernel = kernel;
  regs = λ i. zero_registers;
  ldt_sel = λ i. 0;
  name = λ i. [];
  gdt = λ i. if i == 2 then init_desc 0 0xfffff 0xc092 else zero_descriptor;
  idt = λ v. zero_gate;
  tss = zero_tss;
}

-- The boot parameters, and an image whose second section is loaded.
abbrev boot : ℕ → ℕ
boot i = if i == 0 then 0xb007 else if i == 1 then 0x2000000 else 0x70000

abbrev image : Elf
image = record {
  has_magic = true;
  e_shnum = 3;
  section_header = λ i. record { is_alloc = i == 1; sh_addr = 0x30400; sh_size = 0x20000 };
}

abbrev files : ℕ → Elf
files at = image

map_found : get_kernel_map boot files ≡ ok (some (0x30400, 0x1ffff))
unfolding get_kernel_map get_boot_params map_loop
map_found = refl

flat : ldt_seg_linear (machine.gdt 2) ≡ 0
unfolding ldt_seg_linear init_desc
flat = refl

-- The gate of the system call can be used from every privilege.
sys_call_run : (init_gates gates link.handler machine.idt 0x90).attribute ≡ 0xee
unfolding init_gates init_idt_desc
sys_call_run = refl

init_protect-IsCleared_example :
    (m' : Machine) × (init_protect link machine ≡ ok m')
    × (ldt_seg_linear (m'.gdt 2) ≡ ldt_seg_linear (machine.gdt 2))
    × ((s : ℕ)
        → s < nr_slots
        → (seg2linear m'.gdt (m'.ldt_sel s)
            ≡ makelinear machine.gdt selector_kernel_ds (link.ldts s))
          × IsZero m' s)
init_protect-IsCleared_example = init_protect-IsCleared link machine

schedule_loop-kernel_main_example :
    (m1 : Machine) × (m2 : Machine) × (init_protect link machine ≡ ok m1)
    × (kernel_main link boot files m1 ≡ ok m2)
    × ((fuel : ℕ) → schedule_loop fuel m2.kernel ≡ err spin)
schedule_loop-kernel_main_example =
    schedule_loop-kernel_main link boot files 0x30400 0x1ffff machine map_found flat

va2la-kernel_main_example :
    (m' : Machine) × (kernel_main link boot files machine ≡ ok m')
    × ((pid va : ℕ) → pid < nr_native → va < 2 ^ 32 → va2la pid va m'.kernel ≡ ok va)
va2la-kernel_main_example = va2la-kernel_main link boot files 0x30400 0x1ffff machine map_found flat
