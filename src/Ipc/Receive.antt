-- ===== src/Ipc/Receive.antt =====
-- The rest of kernel/proc.c: receiving, the interrupt message, and the system call on top of both.
pub mod Party
pub mod Dequeue
pub mod Take
pub mod Interrupt
mod Tests
use lwos.Common.{
  ℕ, zero, suc, Bool, true, false, not, ◌&&◌, ◌||◌, Option, none, some, ltb, ◌==◌, if◌then◌else◌,
}
use lwos.Common.Int.{ℤ, pos, negsuc}
use lwos.Fault.{Result, ok, err, assertion, panic, wild, spin, ◌>>=◌, ◌>>◌, check}
use lwos.Proc.{
  Process, Kernel, Message, zero_message, nr_slots, any, no_task, interrupt, is_clear, is_receiving,
  put_proc, put_message, eq_ℤ,
}
use lwos.Ipc.{va2la, block, is_idle, is_blocked_on, msg_send}

abbrev pub hardware_int : ℕ
hardware_int = 1

-- The message that stands for an interrupt.
abbrev pub interrupt_message : Message
interrupt_message = record zero_message { source = interrupt; type = hardware_int }

-- The early return of `msg_receive`: an interrupt is pending and the caller takes it.
pub take_interrupt : (cur msg : ℕ) → Kernel → Result Kernel
take_interrupt cur msg k = do
  check (not (msg == 0)) assertion
  to ← va2la cur msg k
  let k1 = put_message to interrupt_message k
  let p = record (k1.procs cur) { has_int_msg = false }
  check (is_clear p.flags && (p.msg == 0) && eq_ℤ p.sendto no_task) assertion
  ok (put_proc cur p k1)

-- The walk along the sending queue for `src`: the process before it. `none` is `prev == 0`.
pub find_before : ℕ → (ℕ → Process) → (src : ℕ) → (p prev : Option ℕ) → Result (Option ℕ)
find_before zero procs src p prev = err spin
find_before (suc fuel) procs src none prev = ok prev
find_before (suc fuel) procs src (some p) prev = elim (p == src) [
  | true ↦ ok prev
  | false ↦ find_before fuel procs src (procs p).next_sending (some p)
]

abbrev pub points_to : Option ℕ → ℕ → Bool
points_to none i = false
points_to (some j) i = j == i

abbrev pub is_null : Option ℕ → Bool
is_null none = true
is_null (some _) = false

-- `if (from == me->sending_queue) … else …`: `from` leaves the queue.
pub unlink : (cur from : ℕ) → (prev : Option ℕ) → Kernel → Result Kernel
unlink cur from prev k = do
  k1 ← elim (points_to (k.procs cur).sending_queue from) [
    | true ↦ do
      check (is_null prev) assertion
      let q = (k.procs from).next_sending
      ok (put_proc cur (record (k.procs cur) { sending_queue = q }) k)
    | false ↦ elim prev [
      | none ↦ err assertion
      | some b ↦
          let q = (k.procs from).next_sending in
          ok (put_proc b (record (k.procs b) { next_sending = q }) k)
    ]
  ]
  ok (put_proc from (record (k1.procs from) { next_sending = none }) k1)

-- `if (copyok)`: the message of `from` is handed over, and `from` runs on.
pub accept : (cur from : ℕ) → (prev : Option ℕ) → (msg : ℕ) → Kernel → Result Kernel
accept cur from prev msg k = do
  check (is_idle (k.procs cur) && not (is_null (k.procs cur).sending_queue)) assertion
  check (is_blocked_on cur (k.procs from)) assertion
  k1 ← unlink cur from prev k
  check (not (msg == 0)) assertion
  check (not ((k1.procs from).msg == 0)) assertion
  to ← va2la cur msg k1
  la ← va2la from (k1.procs from).msg k1
  let k2 = put_message to (k1.mem la) k1
  let f = k2.procs from
  let f' = record f { msg = 0; sendto = no_task; flags = record f.flags { sending = false } }
  check (is_clear f'.flags) assertion
  ok (put_proc from f' k2)

-- The `else` of `if (copyok)`: nobody has a message for the caller yet.
pub wait_for : (cur : ℕ) → (src : ℤ) → (msg : ℕ) → Kernel → Result Kernel
wait_for cur src msg k = do
  let p = k.procs cur
  let p' = record p { flags = record p.flags { receiving = true }; msg = msg; recvfrom = src }
  k1 ← block cur (put_proc cur p' k)
  let q = k1.procs cur
  check (is_receiving q.flags && not (q.msg == 0) && not (eq_ℤ q.recvfrom no_task)) assertion
  check (eq_ℤ q.sendto no_task && not q.has_int_msg) assertion
  ok k1

-- `src` names one process. A read in front of the table finds `before`; if that seems to be sending
-- to the caller, the code goes on to write there, or fails an assertion on the way.
pub receive_from : (cur : ℕ) → (src : ℤ) → (msg : ℕ) → Kernel → Result Kernel
receive_from cur (pos s) msg k =
    if ltb s nr_slots
    then (if (k.procs s).flags.sending && eq_ℤ (k.procs s).sendto (pos cur)
        then (do
          check (not (is_null (k.procs cur).sending_queue)) assertion
          prev ← find_before (suc nr_slots) k.procs s (k.procs cur).sending_queue none
          accept cur s prev msg k)
        else wait_for cur (pos s) msg k)
    else err wild
receive_from cur (negsuc n) msg k =
    if eq_ℤ (negsuc n) interrupt && not (k.before.flags.sending && eq_ℤ k.before.sendto (pos cur))
    then wait_for cur (negsuc n) msg k
    else err wild

pub msg_receive : (cur : ℕ) → (src : ℤ) → (msg : ℕ) → Kernel → Result Kernel
msg_receive cur src msg k = do
  check (not (eq_ℤ (pos cur) src)) assertion
  if (k.procs cur).has_int_msg && (eq_ℤ src any || eq_ℤ src interrupt)
      then take_interrupt cur msg k
      else if eq_ℤ src any
      then elim (k.procs cur).sending_queue [
        | none ↦ wait_for cur src msg k
        | some from ↦ accept cur from none msg k
      ]
      else receive_from cur src msg k

-- `inform_init`: an interrupt for `task_nr` is delivered at once or kept pending. The waiting
-- message is written through its address as it stands.
pub inform_init : ℕ → Kernel → Result Kernel
inform_init task_nr k =
    let p = k.procs task_nr in
    if p.flags.receiving && (eq_ℤ p.recvfrom interrupt || eq_ℤ p.recvfrom any)
    then (do
      let m = record (k.mem p.msg) { source = interrupt; type = hardware_int }
      let f = record p.flags { receiving = false }
      let p' = record p { msg = 0; has_int_msg = false; flags = f; recvfrom = no_task }
      check (is_idle p') assertion
      ok (put_proc task_nr p' (put_message p.msg m k)))
    else ok (put_proc task_nr (record p { has_int_msg = true }) k)

-- `SEND` and `RECEIVE` of include/sys/const.h.
abbrev pub send_function : ℕ
send_function = 1

abbrev pub receive_function : ℕ
receive_function = 2

-- What `sys_sendrec` accepts as the other party.
abbrev pub is_party : ℤ → Bool
is_party (pos i) = ltb i 9 || eq_ℤ (pos i) any
is_party (negsuc n) = eq_ℤ (negsuc n) interrupt

-- `sys_sendrec`. Its result is always 0, as is that of the two functions it calls.
pub sys_sendrec : (function : ℕ) → (src_dest : ℤ) → (msg caller : ℕ) → Kernel → Result Kernel
sys_sendrec function src_dest msg caller k = do
  check (k.k_reenter == 0) assertion
  check (is_party src_dest) assertion
  la ← va2la caller msg k
  let k1 = put_message la (record (k.mem la) { source = pos caller }) k
  check (not (eq_ℤ (pos caller) src_dest)) assertion
  if function == send_function
      then msg_send caller src_dest msg k1
      else if function == receive_function
      then msg_receive caller src_dest msg k1
      else err panic
