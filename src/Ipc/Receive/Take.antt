-- ===== src/Ipc/Receive/Take.antt =====
-- `msg_receive` of kernel/proc.c when a sender is waiting: which one is served, and what changes.
use lwos.Common.{
  ℕ, suc, ◌≤◌, ◌<◌, ◌≡◌, ◌∙◌, ap, true, false, ◌&&◌, ◌||◌, ◌≢◌, Option, none, some, List, [], ◌∷◌,
  arith, ◌==◌, length, lt→ltb,
}
use lwos.Common.Int.{pos}
use lwos.Fault.{ok, ◌>>=◌, >>=-eq-ok}
use lwos.Proc.{Process, Kernel, nr_slots, any, put_proc, put_message, is_clear, no_task, eq_ℤ}
use lwos.Ipc.{va2la, is_idle, is_blocked_on}
use lwos.Ipc.Chain.{Chain, member, without, frame}
use lwos.Ipc.Queue.{links, IsQueue, Requeued, unqueued}
use lwos.Ipc.Receive.{find_before, unlink, is_null, accept, receive_from, msg_receive}
use lwos.Ipc.Receive.Dequeue.{behead, unlink-behead, behead-Requeued, dequeue-without}

pub va2la-same :
    (pid va : ℕ) (k k' : Kernel)
    → (k'.procs pid).ldt_data ≡ (k.procs pid).ldt_data
    → va2la pid va k' ≡ va2la pid va k
unfolding va2la
va2la-same pid va k k' e = rw (e, va2la)

module _ (cur from msg to la : ℕ) (k : Kernel) where
  -- The message of `from` is at the receiver's address and memory is otherwise unchanged; `from`
  -- can run again and has left the queue, which keeps the order of the others; and no other
  -- process changes but for queue pointers.
  pub record Accepted (ys : List ℕ) (k' : Kernel) : Type 0 where
    pub message : k'.mem to ≡ k.mem la
    pub other_mem : (a : ℕ) → a ≢ to → k'.mem a ≡ k.mem a
    pub sender : is_idle (k'.procs from) ≡ true
    pub queue : IsQueue k' cur ys
    pub others : (i : ℕ) → i ≢ from → unqueued (k'.procs i) ≡ unqueued (k.procs i)

  -- The receiver runs, the sender is blocked on it, and both messages have addresses.
  pub record CanTake : Type 0 where
    pub inside : cur < nr_slots
    pub apart : cur ≢ from
    pub receiver : is_idle (k.procs cur) ≡ true
    pub message : (msg == 0) ≡ false
    pub sender : is_blocked_on cur (k.procs from) ≡ true
    pub to_address : va2la cur msg k ≡ ok to
    pub from_address : va2la from (k.procs from).msg k ≡ ok la

  module _ (t : CanTake) (xs ys : List ℕ) (k1 : Kernel) (r : Requeued k k1 from cur xs ys) where
    abbrev freed : Process
    freed =
        let f = k1.procs from in
        record f { msg = 0; sendto = no_task; flags = record f.flags { sending = false } }

    abbrev served : Kernel
    served = put_proc from freed (put_message to (k1.mem la) k1)

    blocked_still : is_blocked_on cur (k1.procs from) ≡ true
    blocked_still = ap (is_blocked_on cur) (r.same from) ∙ t.sender

    freed_idle : is_idle freed ≡ true
    freed_idle = let b = blocked_still in ground arith

    same_link : (i : ℕ) → links served i ≡ links k1 i
    same_link i = ground arith

    head : (served.procs cur).sending_queue ≡ (k1.procs cur).sending_queue
    head = ground arith

    spared : (i : ℕ) → i ≢ from → served.procs i ≡ k1.procs i
    spared i ne = ground arith

    served-Accepted : Accepted ys served
    served-Accepted = record {
      message = rw r.same_mem (ground arith);
      other_mem = λ a ne. rw r.same_mem (ground arith);
      sender = ground (arith, freed_idle);
      queue = record {
        chain =
            rw head (frame (links k1) (links served) ys _ (λ i i_in. same_link i) r.queue.chain);
        distinct = r.queue.distinct;
      };
      others = λ i ne. ap unqueued (spared i ne) ∙ r.same i;
    }

    accept-served :
        (prev : Option ℕ)
        → is_null (k.procs cur).sending_queue ≡ false
        → unlink cur from prev k ≡ ok k1
        → accept cur from prev msg k ≡ ok served
    unfolding accept
    accept-served prev waiting unlinked =
        let here : va2la cur msg k1 ≡ ok to =
          va2la-same cur msg k k1 (ap (λ p. p.ldt_data) (r.same cur)) ∙ t.to_address in
        let full : (((k1.procs from).msg == 0) ≡ false)
            × ((k1.procs from).msg ≡ (k.procs from).msg) =
          (let b = blocked_still in ground arith, ap (λ p. p.msg) (r.same from)) in
        let there : va2la from (k1.procs from).msg k1 ≡ ok la =
          va2la-same from (k1.procs from).msg k k1 (ap (λ p. p.ldt_data) (r.same from))
          ∙ (ap (λ (a : ℕ). va2la from a k) full.1 ∙ t.from_address) in
        let clear : is_clear freed.flags ≡ true = let f = freed_idle in ground arith in
        rw (t.receiver, waiting, ◌>>=◌, t.sender, unlinked, t.message, full.0, here, there, clear)

  any_steps :
      CanTake
      → (k.procs cur).has_int_msg ≡ false
      → (k.procs cur).sending_queue ≡ some from
      → msg_receive cur any msg k ≡ accept cur from none msg k
  unfolding msg_receive
  any_steps t quiet head =
      let ne : eq_ℤ (pos cur) any ≡ false = ground (arith, t.inside) in rw (ne, quiet, ◌>>=◌, head)

  from_steps :
      (prev : Option ℕ)
      → CanTake
      → from < nr_slots
      → is_null (k.procs cur).sending_queue ≡ false
      → find_before (suc nr_slots) k.procs from (k.procs cur).sending_queue none ≡ ok prev
      → msg_receive cur (pos from) msg k ≡ accept cur from prev msg k
  unfolding msg_receive receive_from
  from_steps prev t in_table waiting found =
      let ne : eq_ℤ (pos cur) (pos from) ≡ false = ground (arith, t.apart) in
      let ne_any : eq_ℤ (pos from) any ≡ false = ground arith in
      let sends : (k.procs from).flags.sending ≡ true = let b = t.sender in ground arith in
      let to_me : eq_ℤ (k.procs from).sendto (pos cur) ≡ true = let b = t.sender in ground arith in
      let quiet : ((k.procs cur).has_int_msg && (eq_ℤ (pos from) any || false)) ≡ false =
        ground arith in
      rw (ne, ◌>>=◌, quiet, ne_any, lt→ltb from nr_slots in_table, sends, to_me, waiting, found)

  -- With no interrupt pending, a receiver that takes a message from any process is served by the
  -- process at the head of its sending queue.
  pub msg_receive-any :
      (xs : List ℕ)
      → CanTake
      → (k.procs cur).has_int_msg ≡ false
      → IsQueue k cur (from ∷ xs)
      → (k' : Kernel) × (msg_receive cur any msg k ≡ ok k') × Accepted xs k'
  msg_receive-any xs t quiet q =
      let r = behead-Requeued cur from k t.apart xs q in
      let k1 : Kernel = behead cur from k t.apart in
      (
        served t (from ∷ xs) xs k1 r,
        any_steps t quiet q.chain.0
            ∙ accept-served t (from ∷ xs) xs k1 r none (rw q.chain.0)
                (unlink-behead cur from k t.apart xs q),
        served-Accepted t (from ∷ xs) xs k1 r,
      )

  -- A receiver that asks for one process, which is blocked on it, is served by that process from
  -- any place in its sending queue; whether an interrupt is pending does not matter.
  pub msg_receive_from_any_place :
      (xs : List ℕ)
      → CanTake
      → from < nr_slots
      → IsQueue k cur xs
      → member from xs ≡ true
      → length xs ≤ nr_slots
      → (k' : Kernel) × (msg_receive cur (pos from) msg k ≡ ok k') × Accepted (without from xs) k'
  msg_receive_from_any_place xs t in_table q m fits =
      let (k1, dequeued, r) = dequeue-without cur from k t.apart xs q m fits in
      let (prev, found, unlinked) =
        >>=-eq-ok (find_before (suc nr_slots) k.procs from (k.procs cur).sending_queue none)
          (λ p. unlink cur from p k) dequeued in
      let waiting : is_null (k.procs cur).sending_queue ≡ false = waits xs q.chain m in
      (
        served t xs (without from xs) k1 r,
        from_steps prev t in_table waiting found
            ∙ accept-served t xs (without from xs) k1 r prev waiting unlinked,
        served-Accepted t xs (without from xs) k1 r,
      )
    where
      waits :
          (zs : List ℕ)
          → Chain (links k) (k.procs cur).sending_queue zs
          → member from zs ≡ true
          → is_null (k.procs cur).sending_queue ≡ false
      waits [] c i = cc
      waits (z ∷ zs) c i = rw c.0
