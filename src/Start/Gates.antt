-- ===== src/Start/Gates.antt =====
-- kernel/protect.c: `init_protect`, which fills the tables of interrupt gates and of segments.
--
-- `init_8259A` only writes to ports, and is left out.
pub mod Segments
use lwos.Common.{
  ℕ, zero, suc, ◌+◌, ◌-◌, ◌*◌, ◌/◌, ◌%◌, ◌^◌, Bool, true, false, Option, none, List, [], ◌∷◌,
  bit_and, bit_or, ltb,
}
use lwos.Common.Int.{ℤ, pos}
use lwos.Fault.{Result, ok, assertion, check, ◌>>=◌, ◌>>◌}
use lwos.Protect.{Descriptor, init_desc, ldt_seg_linear}
use lwos.Proc.{Process, Kernel, flags, nr_slots, update}
use lwos.Start.{Gate, Tss, Registers, Machine, Link}

-- `PRIVILEGE_KERNEL`, `PRIVILEGE_TASK` and `PRIVILEGE_USER`.
abbrev pub privilege_kernel : ℕ
privilege_kernel = 0

abbrev pub privilege_task : ℕ
privilege_task = 1

abbrev pub privilege_user : ℕ
privilege_user = 3

abbrev pub selector_kernel_cs : ℕ
selector_kernel_cs = 0x08

abbrev pub selector_kernel_ds : ℕ
selector_kernel_ds = 0x10

abbrev pub selector_ldt_first : ℕ
selector_ldt_first = 0x28

abbrev pub index_tss : ℕ
index_tss = 4

abbrev pub index_ldt_first : ℕ
index_ldt_first = 5

abbrev pub gdt_size : ℕ
gdt_size = 128

-- `DA_386IGate`, `DA_386TSS` and `DA_LDT`.
abbrev pub da_386i_gate : ℕ
da_386i_gate = 0x8e

abbrev pub da_386_tss : ℕ
da_386_tss = 0x89

abbrev pub da_ldt : ℕ
da_ldt = 0x82

-- `sizeof(TSS)` and `sizeof(DESCRIPTOR)`.
abbrev pub tss_bytes : ℕ
tss_bytes = 104

abbrev pub descriptor_bytes : ℕ
descriptor_bytes = 8

-- `init_idt_desc`.
unfoldable pub init_idt_desc : (vector desc_type base privilege : ℕ) → (ℕ → Gate) → ℕ → Gate
init_idt_desc vector desc_type base privilege idt = update idt vector (record {
  offset_low = bit_and base 0xffff;
  selector = selector_kernel_cs;
  dcount = 0;
  attribute = bit_or desc_type (privilege * 2 ^ 5) % 2 ^ 8;
  offset_high = bit_and (base / 2 ^ 16) 0xffff;
})

-- The calls of `init_idt_desc`, each with its vector and privilege.
abbrev pub gates : List (ℕ × ℕ)
gates =
    (0x0, 0)
    ∷ (0x1, 0)
    ∷ (0x2, 0)
    ∷ (0x3, 3)
    ∷ (0x4, 3)
    ∷ (0x5, 0)
    ∷ (0x6, 0)
    ∷ (0x7, 0)
    ∷ (0x8, 0)
    ∷ (0x9, 0)
    ∷ (0xa, 0)
    ∷ (0xb, 0)
    ∷ (0xc, 0)
    ∷ (0xd, 0)
    ∷ (0xe, 0)
    ∷ (0x10, 0)
    ∷ (0x20, 0)
    ∷ (0x21, 0)
    ∷ (0x22, 0)
    ∷ (0x23, 0)
    ∷ (0x24, 0)
    ∷ (0x25, 0)
    ∷ (0x26, 0)
    ∷ (0x27, 0)
    ∷ (0x28, 0)
    ∷ (0x29, 0)
    ∷ (0x2a, 0)
    ∷ (0x2b, 0)
    ∷ (0x2c, 0)
    ∷ (0x2d, 0)
    ∷ (0x2e, 0)
    ∷ (0x2f, 0)
    ∷ (0x90, 3)
    ∷ []

unfoldable pub init_gates : List (ℕ × ℕ) → (handler : ℕ → ℕ) → (ℕ → Gate) → ℕ → Gate
init_gates [] handler idt = idt
init_gates ((vector, privilege) ∷ calls) handler idt =
    init_gates calls handler (init_idt_desc vector da_386i_gate (handler vector) privilege idt)

-- `seg2linear`.
abbrev pub seg2linear : (ℕ → Descriptor) → (seg : ℕ) → ℕ
seg2linear gdt seg = ldt_seg_linear (gdt (seg / 2 ^ 3))

-- `makelinear`.
abbrev pub makelinear : (ℕ → Descriptor) → (seg off : ℕ) → ℕ
makelinear gdt seg off = (seg2linear gdt seg + off) % 2 ^ 32

abbrev pub zero_descriptor : Descriptor
zero_descriptor = record {
  limit_low = 0;
  base_low = 0;
  base_mid = 0;
  attr1 = 0;
  limit_high_attr2 = 0;
  base_high = 0;
}

abbrev pub zero_registers : Registers
zero_registers = record {
  gs = 0;
  fs = 0;
  es = 0;
  ds = 0;
  edi = 0;
  esi = 0;
  ebp = 0;
  kernel_esp = 0;
  ebx = 0;
  edx = 0;
  ecx = 0;
  eax = 0;
  retaddr = 0;
  eip = 0;
  cs = 0;
  eflags = 0;
  esp = 0;
  ss = 0;
}

-- `memset(&tss, 0, sizeof(tss))`.
abbrev pub zero_tss : Tss
zero_tss = record {
  backlink = 0;
  esp0 = 0;
  ss0 = 0;
  esp1 = 0;
  ss1 = 0;
  esp2 = 0;
  ss2 = 0;
  cr3 = 0;
  eip = 0;
  eflags = 0;
  eax = 0;
  ecx = 0;
  edx = 0;
  ebx = 0;
  esp = 0;
  ebp = 0;
  esi = 0;
  edi = 0;
  es = 0;
  cs = 0;
  ss = 0;
  ds = 0;
  fs = 0;
  gs = 0;
  ldt = 0;
  trap = 0;
  iobase = 0;
}

-- `memset(&proc_table[i], 0, sizeof(PROCESS))`.
abbrev pub zero_process : Process
zero_process = record {
  ldt_code = zero_descriptor;
  ldt_data = zero_descriptor;
  ticks = 0;
  priority = 0;
  flags = flags false false false false false;
  msg = 0;
  recvfrom = pos 0;
  sendto = pos 0;
  has_int_msg = false;
  sending_queue = none;
  next_sending = none;
  filp = λ fd. none;
  p_parent = 0;
  exit_status = pos 0;
}

-- The body of the loop.
pub clear_slot : Link → (i : ℕ) → Machine → Machine
clear_slot link i m =
    let k : Kernel = m.kernel in
    record m {
      kernel = record k { procs = update k.procs i zero_process };
      regs = update m.regs i zero_registers;
      ldt_sel = update m.ldt_sel i (selector_ldt_first + i * 2 ^ 3);
      name = update m.name i [];
      gdt = update m.gdt (index_ldt_first + i) (
          init_desc (makelinear m.gdt selector_kernel_ds (link.ldts i)) (2 * descriptor_bytes - 1)
            da_ldt);
    }

-- The loop over `n` slots from `i` on.
pub clear_slots : (n i : ℕ) → Link → Machine → Result Machine
clear_slots zero i link m = ok m
clear_slots (suc n) i link m =
    let rest = clear_slots n (i + 1) link (clear_slot link i m) in
    check (ltb (index_ldt_first + i) gdt_size) assertion >> rest

pub init_protect : Link → Machine → Result Machine
init_protect link m = clear_slots nr_slots 0 link (record m {
  idt = init_gates gates link.handler m.idt;
  tss = record zero_tss { ss0 = selector_kernel_ds; iobase = tss_bytes };
  gdt =
      update m.gdt index_tss
        (init_desc (makelinear m.gdt selector_kernel_ds link.tss) (tss_bytes - 1) da_386_tss);
})
