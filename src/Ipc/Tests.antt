-- ===== src/Ipc/Tests.antt =====
-- The theorems on message passing and scheduling at concrete process tables.
use lwos.Common.{
  ℕ, ◌≡◌, refl, Bool, true, false, Option, none, some, [], ◌∷◌, arith, ◌==◌, if◌then◌else◌, inl,
  ◌⊎◌,
}
use lwos.Common.Int.{pos}
use lwos.Fault.{ok}
use lwos.Protect.{Descriptor, ldt_seg_linear}
use lwos.Proc.{Process, Kernel, flags, zero_message, no_task, any}
use lwos.Ipc.{
  choose, schedule_loop, schedule, va2la, deadlock_loop, deadlock, print_cycle, msg_send,
}
use lwos.Ipc.Receive.{msg_receive}
use lwos.Ipc.Schedule.{Scheduled, schedule-Scheduled, schedule_returns}
use lwos.Ipc.Deadlock.{WaitsOn, IsRanked, deadlock_sound, deadlock_returns, not-WaitsOn}
use lwos.Ipc.Queue.{IsQueue}
use lwos.Ipc.Send.{Enqueued, msg_send_enqueues}
use lwos.Ipc.Deliver.{Delivered, msg_send_delivers}
use lwos.Ipc.Receive.Take.{Accepted, msg_receive-any, msg_receive_from_any_place}

abbrev flat : Descriptor
flat = record {
  limit_low = 0xffff;
  base_low = 0;
  base_mid = 0;
  attr1 = 0x92;
  limit_high_attr2 = 0xcf;
  base_high = 0;
}

abbrev idle : Process
idle = record {
  ldt_code = flat;
  ldt_data = flat;
  ticks = 3;
  priority = 20;
  flags = flags false false false false false;
  msg = 0;
  recvfrom = no_task;
  sendto = no_task;
  has_int_msg = false;
  sending_queue = none;
  next_sending = none;
  filp = λ i. none;
  p_parent = 57;
  exit_status = pos 0;
}

-- Blocked sending to slot 3.
abbrev sender : ℕ → Option ℕ → Process
sender m next = record idle {
  flags = flags true false false false false;
  msg = m;
  sendto = pos 3;
  next_sending = next;
}

abbrev quiet : Kernel
quiet = record {
  procs = λ i. idle;
  before = idle;
  mem = λ a. record zero_message { type = a };
  ready = 0;
  ticks = 0;
  k_reenter = 0;
  key_pressed = false;
}

-- Slots 5 and 6 wait for slot 3.
abbrev busy : Kernel
busy = record quiet {
  procs = λ i.
      if i == 5
      then sender 500 (some 6)
      else if i == 6
      then sender 600 none
      else if i == 3
      then record idle { sending_queue = some 5 }
      else idle;
}

-- Slot 3 waits for a message from anybody.
abbrev expecting : Kernel
expecting = record quiet {
  procs = λ i.
      if i == 3
      then record idle { flags = flags false true false false false; msg = 300; recvfrom = any }
      else idle;
}

busy-IsQueue : IsQueue busy 3 (5 ∷ 6 ∷ [])
busy-IsQueue = record { chain = (refl, (refl, refl)); distinct = (refl, (refl, tt)) }

abbrev rank : ℕ → ℕ
rank i = if i == 5 then 1 else if i == 6 then 1 else 0

busy-IsRanked : IsRanked busy rank
busy-IsRanked = record {
  small = λ p. ground arith;
  edge = λ p s. (3, ground arith, omega arith, ground arith, ground arith);
}

schedule-Scheduled_example : Scheduled quiet quiet
unfolding schedule schedule_loop choose
schedule-Scheduled_example = schedule-Scheduled quiet refl

schedule_returns_example : (k' : Kernel) × (schedule quiet ≡ ok k')
schedule_returns_example = schedule_returns quiet 4 (omega arith) refl (inl (omega arith))

abbrev exhausted : Kernel
exhausted = record quiet { procs = λ i. record idle { ticks = 0; priority = 0 } }

deadlock_sound_example :
    ((true ≡ true) × WaitsOn busy.procs 3 5) ⊎ ((true ≡ false) × ¬ (WaitsOn busy.procs 3 5))
unfolding deadlock deadlock_loop print_cycle
deadlock_sound_example = deadlock_sound 3 5 busy true refl

deadlock_returns_example : (b : Bool) × (deadlock 7 5 busy ≡ ok b)
deadlock_returns_example = deadlock_returns 7 5 busy rank busy-IsRanked

msg_send_enqueues_example :
    (k' : Kernel) × (msg_send 7 (pos 3) 700 busy ≡ ok k') × Enqueued 7 3 700 busy (5 ∷ 6 ∷ []) k'
msg_send_enqueues_example =
    msg_send_enqueues 7 3 700 busy (5 ∷ 6 ∷ []) rank (omega arith) (omega arith) refl refl
      busy-IsQueue refl (omega arith)
      (record {
        other = 0;
        in_table = omega arith;
        not_caller = omega arith;
        runnable = refl;
        priority = omega arith;
      })
      busy-IsRanked (not-WaitsOn refl) refl

msg_send_delivers_example :
    (k' : Kernel) × (msg_send 7 (pos 3) 700 expecting ≡ ok k')
    × Delivered 7 3 700 300 700 expecting k'
unfolding va2la ldt_seg_linear
msg_send_delivers_example = msg_send_delivers 7 3 700 300 700 expecting (record {
  apart = omega arith;
  inside = omega arith;
  sender = refl;
  message = refl;
  receiver = refl;
  buffer = refl;
  expects = refl;
  not_sending = refl;
  to_address = refl;
  from_address = refl;
})

msg_receive-any_example :
    (k' : Kernel) × (msg_receive 3 any 300 busy ≡ ok k') × Accepted 3 5 300 300 500 busy (6 ∷ []) k'
unfolding va2la ldt_seg_linear
msg_receive-any_example =
    msg_receive-any 3 5 300 300 500 busy (6 ∷ [])
      (record {
        inside = omega arith;
        apart = omega arith;
        receiver = refl;
        message = refl;
        sender = refl;
        to_address = refl;
        from_address = refl;
      })
      refl busy-IsQueue

msg_receive_from_any_place_example :
    (k' : Kernel) × (msg_receive 3 (pos 6) 300 busy ≡ ok k')
    × Accepted 3 6 300 300 600 busy (5 ∷ []) k'
unfolding va2la ldt_seg_linear
msg_receive_from_any_place_example =
    msg_receive_from_any_place 3 6 300 300 600 busy (5 ∷ 6 ∷ [])
      (record {
        inside = omega arith;
        apart = omega arith;
        receiver = refl;
        message = refl;
        sender = refl;
        to_address = refl;
        from_address = refl;
      })
      (omega arith) busy-IsQueue refl (omega arith)
