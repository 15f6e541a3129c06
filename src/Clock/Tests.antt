-- ===== src/Clock/Tests.antt =====
-- Three interrupts of the clock while process 6 has five ticks left.
use lwos.Common.{◌≡◌, refl, false, none, arith}
use lwos.Common.Int.{pos}
use lwos.Fault.{ok}
use lwos.Protect.{Descriptor}
use lwos.Proc.{Process, Kernel, flags, zero_message, no_task}
use lwos.Clock.Quantum.{interrupts, StillRuns, interrupts-StillRuns}

abbrev flat : Descriptor
flat = record {
  limit_low = 0xffff;
  base_low = 0;
  base_mid = 0;
  attr1 = 0x92;
  limit_high_attr2 = 0xcf;
  base_high = 0;
}

abbrev able : Process
able = record {
  ldt_code = flat;
  ldt_data = flat;
  ticks = 5;
  priority = 20;
  flags = flags false false false false false;
  msg = 0;
  recvfrom = no_task;
  sendto = no_task;
  has_int_msg = false;
  sending_queue = none;
  next_sending = none;
  filp = λ i. none;
  p_parent = 57;
  exit_status = pos 0;
}

abbrev busy : Kernel
busy = record {
  procs = λ i. able;
  before = able;
  mem = λ a. zero_message;
  ready = 6;
  ticks = 1000;
  k_reenter = 0;
  key_pressed = false;
}

interrupts-StillRuns_example : (k' : Kernel) × (interrupts 3 busy ≡ ok k') × StillRuns 3 busy k'
interrupts-StillRuns_example = interrupts-StillRuns 3 busy refl (omega arith)
