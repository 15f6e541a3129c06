-- ===== src/Start/Gates/Segments.antt =====
-- The segments of the local descriptor tables, and the process table, after `init_protect`.
use lwos.Common.{
  ℕ, zero, suc, ◌+◌, ◌-◌, ◌*◌, ◌/◌, ◌%◌, ◌^◌, ◌≤◌, ◌<◌, ◌≡◌, refl, ◌∙◌, ap, ltb, ◌==◌, arith,
  Bool-cases, inl, inr, true, [],
}
use lwos.Fault.{ok}
use lwos.Protect.{Descriptor, init_desc, ldt_seg_linear}
use lwos.Protect.Laws.{seg_base-init_desc}
use lwos.Proc.{update, nr_slots}
use lwos.Start.{Machine, Link}
use lwos.Start.Gates.{
  selector_kernel_ds, index_ldt_first, selector_ldt_first, gdt_size, seg2linear, makelinear,
  zero_process, zero_registers, zero_tss, clear_slot, clear_slots, init_protect, init_gates, gates,
  tss_bytes, da_386_tss, index_tss,
}

-- All of a slot's `PROCESS` but the selector is 0.
pub record IsZero (m : Machine) (s : ℕ) : Type 0 where
  pub process : m.kernel.procs s ≡ zero_process
  pub regs : m.regs s ≡ zero_registers
  pub name : m.name s ≡ []

-- The slots from `i` on and below `j` are cleared, and have a segment for their local descriptors.
pub record IsCleared (link : Link) (m m' : Machine) (i j : ℕ) : Type 0 where
  pub gdt_before : (x : ℕ) → x < index_ldt_first + i → m'.gdt x ≡ m.gdt x
  pub sel_before : (s : ℕ) → s < i → m'.ldt_sel s ≡ m.ldt_sel s
  pub slot_before :
      (s : ℕ)
      → s < i
      → (m'.kernel.procs s ≡ m.kernel.procs s) × (m'.regs s ≡ m.regs s) × (m'.name s ≡ m.name s)
  pub segment :
      (s : ℕ)
      → i ≤ s
      → s < j
      → seg2linear m'.gdt (m'.ldt_sel s) ≡ makelinear m.gdt selector_kernel_ds (link.ldts s)
  pub slot : (s : ℕ) → i ≤ s → s < j → IsZero m' s

-- The body of the loop, for the slot itself.
clear_slot-gdt :
    (link : Link) (i x : ℕ) (m : Machine)
    → x < index_ldt_first + i
    → (clear_slot link i m).gdt x ≡ m.gdt x
unfolding clear_slot
clear_slot-gdt link i x m h = ground arith

clear_slot-before :
    (link : Link) (i s : ℕ) (m : Machine)
    → s < i
    → ((clear_slot link i m).ldt_sel s ≡ m.ldt_sel s)
      × ((clear_slot link i m).kernel.procs s ≡ m.kernel.procs s)
      × ((clear_slot link i m).regs s ≡ m.regs s)
      × ((clear_slot link i m).name s ≡ m.name s)
unfolding clear_slot
clear_slot-before link i s m h = (ground arith, ground arith, ground arith, ground arith)

clear_slot-sel :
    (link : Link) (i : ℕ) (m : Machine)
    → (clear_slot link i m).ldt_sel i ≡ selector_ldt_first + i * 2 ^ 3
unfolding clear_slot
clear_slot-sel link i m = ground arith

clear_slot-IsZero : (link : Link) (i : ℕ) (m : Machine) → IsZero (clear_slot link i m) i
unfolding clear_slot
clear_slot-IsZero link i m = record {
  process = ground arith;
  regs = ground arith;
  name = ground arith;
}

-- Slots that the rest of the loop leaves alone stay cleared.
IsZero-kept :
    (m m' : Machine) (s : ℕ)
    → (m'.kernel.procs s ≡ m.kernel.procs s) × (m'.regs s ≡ m.regs s) × (m'.name s ≡ m.name s)
    → IsZero m s
    → IsZero m' s
IsZero-kept m m' s (procs, regs, name) z = record {
  process = procs ∙ z.process;
  regs = regs ∙ z.regs;
  name = name ∙ z.name;
}

clear_slot-segment :
    (link : Link) (i : ℕ) (m : Machine)
    → ldt_seg_linear ((clear_slot link i m).gdt (index_ldt_first + i))
      ≡ makelinear m.gdt selector_kernel_ds (link.ldts i)
unfolding clear_slot
clear_slot-segment link i m =
    let base : ℕ = makelinear m.gdt selector_kernel_ds (link.ldts i) in
    let desc = init_desc base 15 0x82 in
    let here : update m.gdt (index_ldt_first + i) desc (index_ldt_first + i) ≡ desc =
      ground arith in
    ap ldt_seg_linear here ∙ (seg_base-init_desc base 15 0x82 (omega arith)).0

IsCleared-here :
    (i j : ℕ) (link : Link) (m m' : Machine)
    → IsCleared link (clear_slot link i m) m' (i + 1) j
    → seg2linear m'.gdt (m'.ldt_sel i) ≡ makelinear m.gdt selector_kernel_ds (link.ldts i)
IsCleared-here i j link m m' c =
    let sel : m'.ldt_sel i / 2 ^ 3 ≡ index_ldt_first + i =
      omega (arith, c.sel_before i (omega arith), clear_slot-sel link i m) in
    ap (λ (x : ℕ). ldt_seg_linear (m'.gdt x)) sel
    ∙ (ap ldt_seg_linear (c.gdt_before (index_ldt_first + i) (omega arith))
        ∙ clear_slot-segment link i m)

IsCleared-suc :
    (i j : ℕ) (link : Link) (m m' : Machine)
    → IsCleared link (clear_slot link i m) m' (i + 1) j
    → IsCleared link m m' i j
IsCleared-suc i j link m m' c = record {
  gdt_before = λ x h. c.gdt_before x (omega arith) ∙ clear_slot-gdt link i x m h;
  sel_before = λ s h. c.sel_before s (omega arith) ∙ (clear_slot-before link i s m h).0;
  slot_before = λ s h.
      let (procs, regs, name) = c.slot_before s (omega arith) in
      let (_, first_procs, first_regs, first_name) = clear_slot-before link i s m h in
      (procs ∙ first_procs, regs ∙ first_regs, name ∙ first_name);
  segment = λ s a b. elim (Bool-cases (s == i)) [
    | inl here ↦ let same : s ≡ i = ground arith in rw same (IsCleared-here i j link m m' c)
    | inr later ↦
        c.segment s (ground arith) b
        ∙ ap (λ (d : Descriptor). (ldt_seg_linear d + link.ldts s) % 2 ^ 32)
            (clear_slot-gdt link i 2 m (omega arith))
  ];
  slot = λ s a b. elim (Bool-cases (s == i)) [
    | inl here ↦
        let same : s ≡ i = ground arith in
        rw same (
          IsZero-kept (clear_slot link i m) m' i (c.slot_before i (omega arith))
            (clear_slot-IsZero link i m))
    | inr later ↦ c.slot s (ground arith) b
  ];
}

clear_slots-IsCleared :
    (n i j : ℕ) (link : Link) (m : Machine)
    → i + n ≡ j
    → j ≤ nr_slots
    → (m' : Machine) × (clear_slots n i link m ≡ ok m') × IsCleared link m m' i j
unfolding clear_slots
clear_slots-IsCleared zero i j link m e top = (
  m,
  refl,
  record {
    gdt_before = λ x h. refl;
    sel_before = λ s h. refl;
    slot_before = λ s h. (refl, refl, refl);
    segment = λ s a b. absurd (omega arith);
    slot = λ s a b. absurd (omega arith);
  },
)
clear_slots-IsCleared (suc n) i j link m e top =
    let (m', run, c) =
      clear_slots-IsCleared n (i + 1) j link (clear_slot link i m) (omega arith) top in
    let fits : ltb (index_ldt_first + i) gdt_size ≡ true = ground arith in
    rw fits (m', run, IsCleared-suc i j link m m' c)

-- init_protect always succeeds, and clears every slot: all but the selector is 0, the saved
-- registers and the name too. The local descriptor table that a slot's
-- selector leads to is the one in the slot, at its address in the kernel's data segment.
pub init_protect-IsCleared :
    (link : Link) (m : Machine)
    → (m' : Machine) × (init_protect link m ≡ ok m')
      × (ldt_seg_linear (m'.gdt 2) ≡ ldt_seg_linear (m.gdt 2))
      × ((s : ℕ)
          → s < nr_slots
          → (seg2linear m'.gdt (m'.ldt_sel s) ≡ makelinear m.gdt selector_kernel_ds (link.ldts s))
            × IsZero m' s)
unfolding init_protect
init_protect-IsCleared link m =
    let tables : Machine = record m {
      idt = init_gates gates link.handler m.idt;
      tss = record zero_tss { ss0 = selector_kernel_ds; iobase = tss_bytes };
      gdt =
          update m.gdt index_tss
            (init_desc (makelinear m.gdt selector_kernel_ds link.tss) (tss_bytes - 1) da_386_tss);
    } in
    let (m', run, c) = clear_slots-IsCleared nr_slots 0 nr_slots link tables refl (omega arith) in
    let data_segment : tables.gdt 2 ≡ m.gdt 2 = refl in
    (
      m',
      run,
      ap ldt_seg_linear (c.gdt_before 2 (omega arith)),
      λ s h. (c.segment s (omega arith) h, c.slot s (omega arith) h),
    )
