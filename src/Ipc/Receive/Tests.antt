-- ===== src/Ipc/Receive/Tests.antt =====
-- The theorems on interrupts at the disk task, slot 2, and on the parties of a system call.
use lwos.Common.{◌≡◌, refl, true, false, none, arith, ◌==◌, if◌then◌else◌, inr}
use lwos.Common.Int.{pos}
use lwos.Fault.{ok}
use lwos.Protect.{Descriptor, ldt_seg_linear}
use lwos.Proc.{Process, Kernel, flags, zero_message, no_task, interrupt}
use lwos.Ipc.{va2la}
use lwos.Ipc.Receive.{msg_receive, inform_init}
use lwos.Ipc.Receive.Interrupt.{Informed, interrupt_kept}

abbrev flat : Descriptor
flat = record {
  limit_low = 0xffff;
  base_low = 0;
  base_mid = 0;
  attr1 = 0x92;
  limit_high_attr2 = 0xcf;
  base_high = 0;
}

abbrev idle : Process
idle = record {
  ldt_code = flat;
  ldt_data = flat;
  ticks = 3;
  priority = 20;
  flags = flags false false false false false;
  msg = 0;
  recvfrom = no_task;
  sendto = no_task;
  has_int_msg = false;
  sending_queue = none;
  next_sending = none;
  filp = λ i. none;
  p_parent = 57;
  exit_status = pos 0;
}

abbrev quiet : Kernel
quiet = record {
  procs = λ i. idle;
  before = idle;
  mem = λ a. record zero_message { type = a };
  ready = 0;
  ticks = 0;
  k_reenter = 0;
  key_pressed = false;
}

-- The disk task waits for its interrupt.
abbrev awaiting : Kernel
awaiting = record quiet {
  procs = λ i.
      if i == 2
      then record idle {
        flags = flags false true false false false;
        msg = 200;
        recvfrom = interrupt;
      }
      else idle;
}

-- Its interrupt came while it was busy.
abbrev pending : Kernel
pending = record quiet { procs = λ i. if i == 2 then record idle { has_int_msg = true } else idle }

interrupt_kept_example :
    (k1 k2 : Kernel) × (inform_init 2 quiet ≡ ok k1)
    × (msg_receive 2 interrupt 200 k1 ≡ ok k2)
    × Informed 2 200 200 interrupt quiet k2
unfolding va2la ldt_seg_linear
interrupt_kept_example =
    interrupt_kept 2 200 200 interrupt quiet (omega arith) refl refl (inr refl) refl
