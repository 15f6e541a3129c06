-- ===== src/Ipc/Receive/Interrupt.antt =====
-- Interrupt messages of kernel/proc.c: an interrupt is handed to a waiting process or kept until it
-- receives, and what happens to a process that waits for something else meanwhile.
use lwos.Common.{
  ℕ, ◌<◌, ◌≡◌, ◌∙◌, ap, Bool, true, false, not, ◌&&◌, ◌||◌, ◌≢◌, ◌⊎◌, inl, inr, arith, ◌==◌,
  Bool-cases, lt→ltb,
}
use lwos.Common.Int.{ℤ, pos}
use lwos.Fault.{ok, err, assertion, ◌>>=◌}
use lwos.Proc.{
  Process, Kernel, nr_slots, any, interrupt, put_proc, put_message, is_clear, is_receiving, no_task,
  eq_ℤ,
}
use lwos.Ipc.{va2la, block, schedule, is_idle}
use lwos.Ipc.Receive.{
  interrupt_message, hardware_int, take_interrupt, wait_for, receive_from, msg_receive, inform_init,
}
use lwos.Ipc.Receive.Take.{va2la-same}
use lwos.Ipc.Schedule.{schedule-Scheduled, schedule_returns}
use lwos.Ipc.Send.{CanSwitch}

-- The process waits for an interrupt, or for any message.
abbrev pub expects_interrupt : Process → Bool
expects_interrupt p = p.flags.receiving && (eq_ℤ p.recvfrom interrupt || eq_ℤ p.recvfrom any)

module _ (task msg to : ℕ) (src : ℤ) (k : Kernel) where
  -- The process holds the interrupt's message, has none pending, and can run.
  pub record Informed (k' : Kernel) : Type 0 where
    pub message : k'.mem to ≡ interrupt_message
    pub pending : (k'.procs task).has_int_msg ≡ false
    pub runs : is_idle (k'.procs task) ≡ true

  abbrev noted : Kernel
  noted = put_proc task (record (k.procs task) { has_int_msg = true }) k

  abbrev taken : Kernel
  taken =
      let k1 = put_message to interrupt_message noted in
      put_proc task (record (k1.procs task) { has_int_msg = false }) k1

  inform_init-noted : is_idle (k.procs task) ≡ true → inform_init task k ≡ ok noted
  unfolding inform_init
  inform_init-noted idle =
      let not_waiting : expects_interrupt (k.procs task) ≡ false = ground arith in rw not_waiting

  take_interrupt-taken :
      is_idle (k.procs task) ≡ true
      → (msg == 0) ≡ false
      → va2la task msg k ≡ ok to
      → take_interrupt task msg noted ≡ ok taken
  unfolding take_interrupt
  take_interrupt-taken idle full address =
      let p = (put_message to interrupt_message noted).procs task in
      let still : (is_clear p.flags && (p.msg == 0) && eq_ℤ p.sendto no_task) ≡ true =
        ground arith in
      let same : va2la task msg noted ≡ ok to =
        va2la-same task msg k noted (ground arith) ∙ address in
      rw (full, ◌>>=◌, same, still)

  receive-takes :
      (eq_ℤ src any || eq_ℤ src interrupt) ≡ true
      → eq_ℤ (pos task) src ≡ false
      → msg_receive task src msg noted ≡ take_interrupt task msg noted
  unfolding msg_receive
  receive-takes from_int ne =
      let pending : (noted.procs task).has_int_msg ≡ true = ground arith in
      rw (ne, ◌>>=◌, pending, from_int)

  taken-Informed : is_idle (k.procs task) ≡ true → Informed taken
  taken-Informed idle = record {
    message = ground arith;
    pending = ground arith;
    runs = ground arith;
  }

  -- An interrupt for a process that is busy with something else is not lost: as soon as the process
  -- runs and receives from `ANY` or from `INTERRUPT`, it gets the interrupt's message at once.
  pub interrupt_kept :
      task < nr_slots
      → is_idle (k.procs task) ≡ true
      → (msg == 0) ≡ false
      → (src ≡ any) ⊎ (src ≡ interrupt)
      → va2la task msg k ≡ ok to
      → (k1 k2 : Kernel) × (inform_init task k ≡ ok k1)
        × (msg_receive task src msg k1 ≡ ok k2)
        × Informed k2
  interrupt_kept inside idle full from_int address =
      let wants : (eq_ℤ src any || eq_ℤ src interrupt) ≡ true = elim from_int [
        | inl e ↦ rw e
        | inr e ↦ rw e
      ] in
      let ne : eq_ℤ (pos task) src ≡ false = elim from_int [
        | inl e ↦ rw e (ground arith)
        | inr e ↦ rw e
      ] in
      (
        noted,
        taken,
        inform_init-noted idle,
        receive-takes wants ne ∙ take_interrupt-taken idle full address,
        taken-Informed idle,
      )

-- An interrupt for a process that waits for it wakes the process: its message names the interrupt,
-- nothing is left pending, and no other process changes.
pub interrupt_wakes :
    (task : ℕ) (k : Kernel)
    → is_receiving (k.procs task).flags ≡ true
    → expects_interrupt (k.procs task) ≡ true
    → eq_ℤ (k.procs task).sendto no_task ≡ true
    → (k' : Kernel) × (inform_init task k ≡ ok k')
      × ((k'.mem (k.procs task).msg).source ≡ interrupt)
      × ((k'.mem (k.procs task).msg).type ≡ hardware_int)
      × (is_idle (k'.procs task) ≡ true)
      × ((k'.procs task).has_int_msg ≡ false)
      × ((i : ℕ) → i ≢ task → k'.procs i ≡ k.procs i)
unfolding inform_init
interrupt_wakes task k waits expects free =
    let p = k.procs task in
    let f = record p.flags { receiving = false } in
    let p' = record p { msg = 0; has_int_msg = false; flags = f; recvfrom = no_task } in
    let m = record (k.mem p.msg) { source = interrupt; type = hardware_int } in
    let k' : Kernel = put_proc task p' (put_message p.msg m k) in
    let idle : is_idle p' ≡ true = ground arith in
    (
      k',
      rw (expects, idle, ◌>>=◌),
      ground arith,
      ground arith,
      ground arith,
      ground arith,
      λ i ne. ground arith,
    )

module _ (cur msg : ℕ) (src : ℤ) (k : Kernel) where
  abbrev waiting : Process
  waiting =
      let p = k.procs cur in
      record p { flags = record p.flags { receiving = true }; msg = msg; recvfrom = src }

  abbrev parked : Kernel
  parked = put_proc cur waiting k

  -- The last assertion of the blocking branch wants no interrupt to be pending.
  wait_for-asserts :
      (k1 : Kernel)
      → schedule parked ≡ ok k1
      → (k1.procs cur).has_int_msg ≡ true
      → wait_for cur src msg k ≡ err assertion
  unfolding wait_for block
  wait_for-asserts k1 scheduled pending =
      let q = k1.procs cur in
      let stuck : is_clear (parked.procs cur).flags ≡ false = ground arith in
      let first : Bool =
        is_receiving q.flags && not (q.msg == 0) && not (eq_ℤ q.recvfrom no_task) in
      let second : (eq_ℤ q.sendto no_task && not q.has_int_msg) ≡ false = ground arith in
      elim (Bool-cases first) [
        | inl passed ↦ rw (stuck, ◌>>=◌, scheduled, passed, second)
        | inr failed ↦ rw (stuck, ◌>>=◌, scheduled, failed)
      ]

-- A process with an interrupt pending that asks for a message from one process, which is not
-- sending to it, stops the kernel: it is blocked, and the assertion behind that wants no interrupt
-- to be pending.
pub pending_interrupt_asserts :
    (cur s msg : ℕ) (k : Kernel)
    → cur ≢ s
    → s < nr_slots
    → (k.procs cur).has_int_msg ≡ true
    → ((k.procs s).flags.sending && eq_ℤ (k.procs s).sendto (pos cur)) ≡ false
    → CanSwitch cur s msg k
    → msg_receive cur (pos s) msg k ≡ err assertion
unfolding msg_receive receive_from
pending_interrupt_asserts cur s msg k apart inside pending not_sending sw =
    let k0 = parked cur msg (pos s) k in
    let same : k0.procs sw.other ≡ k.procs sw.other = ground (arith, sw.not_caller) in
    let (k1, scheduled) =
      schedule_returns k0 sw.other sw.in_table (rw same sw.runnable) (inr (rw same sw.priority)) in
    let kept : (k1.procs cur).has_int_msg ≡ true =
      ap (λ p. p.has_int_msg) ((schedule-Scheduled k0 scheduled).same cur) ∙ ground arith in
    let ne : (cur == s) ≡ false = ground arith in
    let ne_any : eq_ℤ (pos s) any ≡ false = ground arith in
    let none_wanted : ((k.procs cur).has_int_msg && (eq_ℤ (pos s) any || false)) ≡ false =
      ground arith in
    rw (ne, ◌>>=◌, none_wanted, ne_any, lt→ltb s nr_slots inside, not_sending)
      (wait_for-asserts cur msg (pos s) k k1 scheduled kept)
