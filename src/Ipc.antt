-- ===== src/Ipc.antt =====
-- kernel/proc.c: the scheduler and the message passing between processes. Each function takes the
-- kernel's state and returns the new one, or the fault that stops the kernel.
pub mod Receive
pub mod Schedule
pub mod Deadlock
pub mod Chain
pub mod Queue
pub mod Send
pub mod Deliver
mod Tests
use lwos.Common.{
  ℕ, zero, suc, ◌+◌, ◌%◌, ◌^◌, Bool, true, false, not, ◌&&◌, ◌||◌, none, some, ltb, ◌==◌,
  if◌then◌else◌,
}
use lwos.Common.Int.{ℤ, pos, negsuc}
use lwos.Fault.{Result, ok, err, assertion, panic, wild, spin, ◌>>=◌, ◌>>◌, check}
use lwos.Protect.{ldt_seg_linear}
use lwos.Proc.{
  Process, Kernel, nr_slots, nr_native, any, no_task, is_clear, is_sending, put_proc, put_message,
  eq_ℤ,
}

-- The first loop of `schedule`, over the `n` slots from `i` on: `greatest_ticks` and `p_proc_ready`.
pub choose : (ℕ → Process) → ℕ → ℕ → ℕ → ℕ → ℕ × ℕ
choose procs zero i greatest ready = (greatest, ready)
choose procs (suc n) i greatest ready =
    let better : Bool = is_clear (procs i).flags && ltb greatest (procs i).ticks in
    choose procs n (i + 1) (if better then (procs i).ticks else greatest)
      (if better then i else ready)

-- The second loop: every slot gets its priority as ticks.
abbrev pub refill : Kernel → Kernel
refill k = record k {
  procs =
      λ i. let p = k.procs i in record p { ticks = if ltb i nr_slots then p.priority else p.ticks };
}

-- One round of `while (!greatest_ticks)`, and the rounds that the fuel allows.
pub schedule_loop : ℕ → Kernel → Result Kernel
schedule_loop zero k = err spin
schedule_loop (suc fuel) k =
    let (greatest, chosen) = choose k.procs nr_slots 0 0 k.ready in
    let k' : Kernel = record k { ready = chosen } in
    elim (greatest == 0) [ true ↦ schedule_loop fuel (refill k') | false ↦ ok k' ]

unfoldable pub schedule : Kernel → Result Kernel
schedule k = schedule_loop 2 k

-- `va2la`: the linear address of `va` in the data segment of `pid`.
unfoldable pub va2la : ℕ → ℕ → Kernel → Result ℕ
va2la pid va k =
    let la : ℕ = (ldt_seg_linear (k.procs pid).ldt_data + va) % 2 ^ 32 in
    check (not (ltb pid nr_native) || la == va) assertion >> ok la

pub block : ℕ → Kernel → Result Kernel
block p k = do check (not (is_clear (k.procs p).flags)) assertion; schedule k

-- `proc_table + i`, for an access to the slot.
abbrev pub slot : ℤ → Result ℕ
slot (pos i) = if ltb i nr_slots then ok i else err wild
slot (negsuc i) = err wild

-- The `do … while` of `deadlock`, which prints the cycle.
pub print_cycle : ℕ → ℕ → ℕ → Kernel → Result (Unit {0})
print_cycle zero src p k = err spin
print_cycle (suc fuel) src p k = do
  check (not ((k.procs p).msg == 0)) assertion
  q ← slot (k.procs p).sendto
  elim (q == src) [ true ↦ ok tt | false ↦ print_cycle fuel src q k ]

-- The loop of `deadlock`, at slot `p`. A state has `nr_slots` slots, so a walk of more steps goes
-- round a cycle for ever.
pub deadlock_loop : ℕ → (src dest p : ℕ) → Kernel → Result Bool
deadlock_loop zero src dest p k = err spin
deadlock_loop (suc fuel) src dest p k = elim (k.procs p).flags.sending [
  | false ↦ ok false
  | true ↦ elim (eq_ℤ (k.procs p).sendto (pos src)) [
    | true ↦ do print_cycle (suc nr_slots) src dest k; ok true
    | false ↦ do q ← slot (k.procs p).sendto; deadlock_loop fuel src dest q k
  ]
]

pub deadlock : ℕ → ℕ → Kernel → Result Bool
deadlock src dest k = deadlock_loop (suc nr_slots) src dest dest k

-- The four assertions on a process that is ready to run.
abbrev pub is_idle : Process → Bool
is_idle p = is_clear p.flags && (p.msg == 0) && eq_ℤ p.recvfrom no_task && eq_ℤ p.sendto no_task

-- The four assertions on a process that is blocked sending to `dest`.
abbrev pub is_blocked_on : ℕ → Process → Bool
is_blocked_on dest p =
    is_sending p.flags && not (p.msg == 0) && eq_ℤ p.recvfrom no_task && eq_ℤ p.sendto (pos dest)

-- The branch of `msg_send` where the receiver waits for this sender.
pub deliver : (cur dest msg : ℕ) → Kernel → Result Kernel
deliver cur dest msg k = do
  check (not ((k.procs dest).msg == 0)) assertion
  check (not (msg == 0)) assertion
  to ← va2la dest (k.procs dest).msg k
  from ← va2la cur msg k
  let k1 = put_message to (k.mem from) k
  let d = k1.procs dest
  let d' = record d { msg = 0; flags = record d.flags { receiving = false }; recvfrom = no_task }
  let k2 = put_proc dest d' k1
  check (is_idle (k2.procs dest)) assertion
  check (is_idle (k2.procs cur)) assertion
  ok k2

-- The walk to the last process of a sending queue.
pub last_in_queue : ℕ → (ℕ → Process) → ℕ → Result ℕ
last_in_queue zero procs p = err spin
last_in_queue (suc fuel) procs p = elim (procs p).next_sending [
  | none ↦ ok p
  | some q ↦ last_in_queue fuel procs q
]

-- `p` goes to the end of the sending queue of `dest`.
pub append_sender : (p dest : ℕ) → Kernel → Result Kernel
append_sender p dest k = do
  k1 ← elim (k.procs dest).sending_queue [
    | some first ↦ do
      tail ← last_in_queue nr_slots k.procs first
      ok (put_proc tail (record (k.procs tail) { next_sending = some p }) k)
    | none ↦ ok (put_proc dest (record (k.procs dest) { sending_queue = some p }) k)
  ]
  ok (put_proc p (record (k1.procs p) { next_sending = none }) k1)

-- The other branch of `msg_send`.
pub enqueue : (cur dest msg : ℕ) → Kernel → Result Kernel
enqueue cur dest msg k = do
  let s = k.procs cur
  let f = record s.flags { sending = true }
  check (is_sending f) assertion
  let k1 = put_proc cur (record s { flags = f; sendto = pos dest; msg = msg }) k
  k2 ← append_sender cur dest k1
  k3 ← block cur k2
  check (is_blocked_on dest (k3.procs cur)) assertion
  ok k3

-- `(pdest->flags & RECEIVING) && (pdest->recvfrom == sender || pdest->recvfrom == ANY)`.
abbrev pub waits_for : ℕ → Process → Bool
waits_for sender p = p.flags.receiving && (eq_ℤ p.recvfrom (pos sender) || eq_ℤ p.recvfrom any)

pub msg_send : ℕ → ℤ → ℕ → Kernel → Result Kernel
msg_send cur dst msg k = do
  check (not (eq_ℤ (pos cur) dst)) assertion
  dest ← slot dst
  cycle ← deadlock cur dest k
  check (not cycle) panic
  if waits_for cur (k.procs dest) then deliver cur dest msg k else enqueue cur dest msg k
