-- ===== src/Start.antt =====
-- The start of the kernel: kernel/protect.c fills the descriptor tables, lib/klib.c finds where the
-- kernel lies, and kernel/main.c fills the process table.
pub mod Elf
pub mod Gates
pub mod Table
mod Tests
use lwos.Common.{ℕ, List}
use lwos.Protect.{Descriptor}
use lwos.Proc.{Kernel}

-- `GATE`.
pub record Gate : Type 0 where
  pub offset_low : ℕ
  pub selector : ℕ
  pub dcount : ℕ
  pub attribute : ℕ
  pub offset_high : ℕ

-- `TSS`.
pub record Tss : Type 0 where
  pub backlink : ℕ
  pub esp0 : ℕ
  pub ss0 : ℕ
  pub esp1 : ℕ
  pub ss1 : ℕ
  pub esp2 : ℕ
  pub ss2 : ℕ
  pub cr3 : ℕ
  pub eip : ℕ
  pub eflags : ℕ
  pub eax : ℕ
  pub ecx : ℕ
  pub edx : ℕ
  pub ebx : ℕ
  pub esp : ℕ
  pub ebp : ℕ
  pub esi : ℕ
  pub edi : ℕ
  pub es : ℕ
  pub cs : ℕ
  pub ss : ℕ
  pub ds : ℕ
  pub fs : ℕ
  pub gs : ℕ
  pub ldt : ℕ
  pub trap : ℕ
  pub iobase : ℕ

-- `STACK_FRAME`.
pub record Registers : Type 0 where
  pub gs : ℕ
  pub fs : ℕ
  pub es : ℕ
  pub ds : ℕ
  pub edi : ℕ
  pub esi : ℕ
  pub ebp : ℕ
  pub kernel_esp : ℕ
  pub ebx : ℕ
  pub edx : ℕ
  pub ecx : ℕ
  pub eax : ℕ
  pub retaddr : ℕ
  pub eip : ℕ
  pub cs : ℕ
  pub eflags : ℕ
  pub esp : ℕ
  pub ss : ℕ

-- The tables, with the fields of a `PROCESS` that `Kernel` leaves out.
pub record Machine : Type 0 where
  pub kernel : Kernel
  pub regs : ℕ → Registers
  pub ldt_sel : ℕ → ℕ
  pub name : ℕ → List ℕ
  pub gdt : ℕ → Descriptor
  pub idt : ℕ → Gate
  pub tss : Tss

-- Where the linker puts the handler of a vector, the code of a task or process, the local descriptors
-- of a slot, the TSS, and the stacks.
pub record Link : Type 0 where
  pub handler : ℕ → ℕ
  pub entry : ℕ → ℕ
  pub ldts : ℕ → ℕ
  pub tss : ℕ
  pub task_stack : ℕ
