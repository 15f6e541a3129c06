-- ===== src/Ipc/Deliver.antt =====
-- The rendezvous of kernel/proc.c: what `msg_send` and `msg_receive` do when both sides are there.
use lwos.Common.{ℕ, ◌<◌, ◌≡◌, true, false, ◌||◌, ◌≢◌, arith, ◌==◌, lt→ltb}
use lwos.Common.Int.{pos}
use lwos.Fault.{ok, ◌>>=◌}
use lwos.Proc.{Process, Kernel, nr_slots, put_proc, put_message, is_receiving, no_task, eq_ℤ}
use lwos.Ipc.{va2la, deadlock, deadlock_loop, is_idle, deliver, waits_for, msg_send}

module _ (cur dest msg to from : ℕ) (k : Kernel) where
  -- The sender's message is at the receiver's address and memory is otherwise unchanged; the
  -- receiver can run again, with its own queue as it was; and no other process changes.
  pub record Delivered (k' : Kernel) : Type 0 where
    pub message : k'.mem to ≡ k.mem from
    pub other_mem : (a : ℕ) → a ≢ to → k'.mem a ≡ k.mem a
    pub receiver : is_idle (k'.procs dest) ≡ true
    pub queue : (k'.procs dest).sending_queue ≡ (k.procs dest).sending_queue
    pub others : (i : ℕ) → i ≢ dest → k'.procs i ≡ k.procs i

  abbrev woken : Process
  woken =
      let d = k.procs dest in
      record d { msg = 0; flags = record d.flags { receiving = false }; recvfrom = no_task }

  abbrev handed : Kernel
  handed = put_proc dest woken (put_message to (k.mem from) k)

  handed-Delivered : is_idle woken ≡ true → Delivered handed
  handed-Delivered idle = record {
    message = ground arith;
    other_mem = λ a ne. ground arith;
    receiver = ground arith;
    queue = ground arith;
    others = λ i ne. ground arith;
  }

  -- Both parties are as their blocking and their running leave them.
  pub record CanMeet : Type 0 where
    pub apart : cur ≢ dest
    pub inside : dest < nr_slots
    pub sender : is_idle (k.procs cur) ≡ true
    pub message : (msg == 0) ≡ false
    pub receiver : is_receiving (k.procs dest).flags ≡ true
    pub buffer : ((k.procs dest).msg == 0) ≡ false
    pub expects :
        (eq_ℤ (k.procs dest).recvfrom (pos cur) || eq_ℤ (k.procs dest).recvfrom (pos 47)) ≡ true
    pub not_sending : eq_ℤ (k.procs dest).sendto no_task ≡ true
    pub to_address : va2la dest (k.procs dest).msg k ≡ ok to
    pub from_address : va2la cur msg k ≡ ok from

  module _ (m : CanMeet) where
    woken_idle : is_idle woken ≡ true
    woken_idle = ground (arith, m.receiver, m.not_sending)

    cur_idle : is_idle (handed.procs cur) ≡ true
    cur_idle = ground (arith, m.sender, m.apart)

    dest_idle : is_idle (handed.procs dest) ≡ true
    dest_idle = ground (arith, woken_idle)

    deliver-handed : deliver cur dest msg k ≡ ok handed
    unfolding deliver
    deliver-handed =
        rw (m.buffer, m.message, ◌>>=◌, m.to_address, m.from_address, dest_idle, cur_idle)

    no_chain : deadlock cur dest k ≡ ok false
    unfolding deadlock deadlock_loop
    no_chain = let r = m.receiver in ground arith

    -- When the receiver waits for this sender or for any, `msg_send` succeeds: it copies the
    -- message, wakes the receiver and leaves the sender running.
    pub msg_send_delivers : (k' : Kernel) × (msg_send cur (pos dest) msg k ≡ ok k') × Delivered k'
    unfolding msg_send
    msg_send_delivers =
        let ne : (cur == dest) ≡ false = ground (arith, m.apart) in
        let waits : waits_for cur (k.procs dest) ≡ true = ground (arith, m.receiver, m.expects) in
        (
          handed,
          rw (ne, lt→ltb dest nr_slots m.inside, ◌>>=◌, no_chain, waits) deliver-handed,
          handed-Delivered woken_idle,
        )
