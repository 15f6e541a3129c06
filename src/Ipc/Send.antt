-- ===== src/Ipc/Send.antt =====
-- `msg_send` of kernel/proc.c as a whole: the message is handed over at once, or the sender joins
-- the end of the receiver's queue.
use lwos.Common.{
  ℕ, ◌≤◌, ◌<◌, ◌≡◌, ◌∙◌, ap, true, false, ◌≢◌, List, [], ◌∷◌, ◌++◌, arith, ◌==◌, length,
  if◌then◌else◌, lt→ltb, inl, inr,
}
use lwos.Common.Int.{pos}
use lwos.Fault.{ok, err, panic, ◌>>=◌}
use lwos.Proc.{Process, Kernel, nr_slots, put_proc, is_clear, is_sending, eq_ℤ_refl}
use lwos.Ipc.{
  block, schedule, deadlock, is_idle, is_blocked_on, deliver, enqueue, waits_for, msg_send,
  append_sender,
}
use lwos.Ipc.Chain.{member, frame}
use lwos.Ipc.Queue.{links, IsQueue, Requeued, unqueued, append_sender-append}
use lwos.Ipc.Schedule.{IsRunnable, Scheduled, schedule-Scheduled, schedule_returns}
use lwos.Ipc.Deadlock.{WaitsOn, deadlock_sound, deadlock_returns, IsRanked}

-- A process but for what queues and scheduling change.
abbrev pub settled : Process → Process
settled p = record (unqueued p) { ticks = 0 }

same_rest_trans :
    (k1 k2 k3 : Kernel)
    → (k2.before ≡ k1.before)
      × (k2.ticks ≡ k1.ticks)
      × (k2.k_reenter ≡ k1.k_reenter)
      × (k2.key_pressed ≡ k1.key_pressed)
    → (k3.before ≡ k2.before)
      × (k3.ticks ≡ k2.ticks)
      × (k3.k_reenter ≡ k2.k_reenter)
      × (k3.key_pressed ≡ k2.key_pressed)
    → (k3.before ≡ k1.before)
      × (k3.ticks ≡ k1.ticks)
      × (k3.k_reenter ≡ k1.k_reenter)
      × (k3.key_pressed ≡ k1.key_pressed)
same_rest_trans k1 k2 k3 (before, ticks, k_reenter, key_pressed)
      (before', ticks', k_reenter', key_pressed') =
    (before' ∙ before, ticks' ∙ ticks, k_reenter' ∙ k_reenter, key_pressed' ∙ key_pressed)

module _ (cur dest msg : ℕ) (k : Kernel) where
  abbrev pub sending : Process
  sending =
      let s = k.procs cur in
      record s { flags = record s.flags { sending = true }; sendto = pos dest; msg = msg }

  abbrev marked : Kernel
  marked = put_proc cur sending k

  -- The sender is in the queue, behind those that were there, and blocked; the message stays where
  -- it is; of the sender only its mark, its receiver and its message's place change, and nothing of
  -- any other process, but for queue pointers and ticks; memory and the kernel's other variables
  -- stay; and the kernel goes on with a process that can run.
  pub record Enqueued (xs : List ℕ) (k' : Kernel) : Type 0 where
    pub queue : IsQueue k' dest (xs ++ (cur ∷ []))
    pub blocked : is_blocked_on dest (k'.procs cur) ≡ true
    pub message : (k'.procs cur).msg ≡ msg
    pub sender : settled (k'.procs cur) ≡ settled sending
    pub others : (i : ℕ) → i ≢ cur → settled (k'.procs i) ≡ settled (k.procs i)
    pub same_mem : k'.mem ≡ k.mem
    pub same_rest :
        (k'.before ≡ k.before)
        × (k'.ticks ≡ k.ticks)
        × (k'.k_reenter ≡ k.k_reenter)
        × (k'.key_pressed ≡ k.key_pressed)
    pub next_runs : IsRunnable (k'.procs k'.ready)

  enqueue_steps :
      (k2 k3 : Kernel)
      → is_idle (k.procs cur) ≡ true
      → append_sender cur dest marked ≡ ok k2
      → is_clear (k2.procs cur).flags ≡ false
      → schedule k2 ≡ ok k3
      → is_blocked_on dest (k3.procs cur) ≡ true
      → enqueue cur dest msg k ≡ ok k3
  unfolding enqueue block
  enqueue_steps k2 k3 idle appended stuck scheduled blocked =
      let f : is_sending sending.flags ≡ true = ground arith in
      rw (f, ◌>>=◌, appended, stuck, scheduled, blocked)

  marked-other : (i : ℕ) → i ≢ cur → marked.procs i ≡ k.procs i
  marked-other i ne = ground arith

  marked_self : marked.procs cur ≡ sending
  marked_self = ground arith

  marked-links : (i : ℕ) → links marked i ≡ links k i
  marked-links i = ground arith

  marked-IsQueue : (xs : List ℕ) → IsQueue k dest xs → IsQueue marked dest xs
  marked-IsQueue xs q =
      let head : (marked.procs dest).sending_queue ≡ (k.procs dest).sending_queue = ground arith in
      record {
        chain = rw head (frame (links k) (links marked) xs _ (λ i i_in. marked-links i) q.chain);
        distinct = q.distinct;
      }

  sending-blocked :
      is_idle (k.procs cur) ≡ true → (msg == 0) ≡ false → is_blocked_on dest sending ≡ true
  sending-blocked idle full = ground (arith, eq_ℤ_refl (pos dest))

  module _ (apart : cur ≢ dest) (idle : is_idle (k.procs cur) ≡ true) (full : (msg == 0) ≡ false)
      (xs : List ℕ) (k2 : Kernel) (r : Requeued marked k2 cur dest xs (xs ++ (cur ∷ []))) where
    queued_blocked : is_blocked_on dest (k2.procs cur) ≡ true
    queued_blocked =
        ap (is_blocked_on dest) (r.same cur)
        ∙ (ap (is_blocked_on dest) marked_self ∙ sending-blocked idle full)

    queued_stuck : is_clear (k2.procs cur).flags ≡ false
    queued_stuck = let b = queued_blocked in ground arith

    queued_settled : (i : ℕ) → i ≢ cur → settled (k2.procs i) ≡ settled (k.procs i)
    queued_settled i ne = ap settled (r.same i) ∙ ap settled (marked-other i ne)

    queued-Enqueued : (k3 : Kernel) → Scheduled k2 k3 → Enqueued xs k3
    queued-Enqueued k3 s = record {
      queue = record {
        chain = rw (ap (λ p. p.sending_queue) (s.same dest)) (
            frame (links k2) (links k3) (xs ++ (cur ∷ [])) _
              (λ i i_in. ap (λ p. p.next_sending) (s.same i)) r.queue.chain);
        distinct = r.queue.distinct;
      };
      blocked = ap (is_blocked_on dest) (s.same cur) ∙ queued_blocked;
      message =
          ap (λ p. p.msg) (s.same cur)
          ∙ (ap (λ p. p.msg) (r.same cur) ∙ ap (λ p. p.msg) marked_self);
      sender = ap settled (s.same cur) ∙ (ap settled (r.same cur) ∙ ap settled marked_self);
      others = λ i ne. ap settled (s.same i) ∙ queued_settled i ne;
      same_mem = s.same_mem ∙ r.same_mem;
      same_rest = same_rest_trans marked k2 k3 r.same_rest s.same_rest;
      next_runs = s.runnable;
    }

  -- Some process other than the caller can run when the caller blocks.
  pub record CanSwitch : Type 0 where
    pub other : ℕ
    pub in_table : other < nr_slots
    pub not_caller : other ≢ cur
    pub runnable : IsRunnable (k.procs other)
    pub priority : 0 < (k.procs other).priority

  enqueue-Enqueued :
      (xs : List ℕ)
      → cur ≢ dest
      → is_idle (k.procs cur) ≡ true
      → (msg == 0) ≡ false
      → IsQueue k dest xs
      → member cur xs ≡ false
      → length xs ≤ nr_slots
      → CanSwitch
      → (k' : Kernel) × (enqueue cur dest msg k ≡ ok k') × Enqueued xs k'
  enqueue-Enqueued xs apart idle full q out fits sw =
      let (k2, appended, r) =
        append_sender-append cur dest marked apart xs (marked-IsQueue xs q) out fits in
      let same = queued_settled apart idle full xs k2 r sw.other sw.not_caller in
      let (k3, scheduled) =
        schedule_returns k2 sw.other sw.in_table (ap (λ p. is_clear p.flags) same ∙ sw.runnable)
          (inr (rw (ap (λ p. p.priority) same) sw.priority)) in
      let e = queued-Enqueued apart idle full xs k2 r k3 (schedule-Scheduled k2 scheduled) in
      (
        k3,
        enqueue_steps k2 k3 idle appended (queued_stuck apart idle full xs k2 r) scheduled
            e.blocked,
        e,
      )

  send_steps :
      cur ≢ dest
      → dest < nr_slots
      → deadlock cur dest k ≡ ok false
      → msg_send cur (pos dest) msg k
        ≡ (if waits_for cur (k.procs dest) then deliver cur dest msg k else enqueue cur dest msg k)
  unfolding msg_send
  send_steps apart inside clear =
      let ne : (cur == dest) ≡ false = ground arith in
      rw (ne, lt→ltb dest nr_slots inside, ◌>>=◌, clear)

  no_cycle :
      (rank : ℕ → ℕ)
      → IsRanked k rank
      → ¬ (WaitsOn k.procs cur dest)
      → deadlock cur dest k ≡ ok false
  no_cycle rank r none_waits =
      let (b, answer) = deadlock_returns cur dest k rank r in
      elim (deadlock_sound cur dest k b answer) [
        | inl (_, w) ↦ absurd (none_waits w)
        | inr (e, _) ↦ answer ∙ ap ok e
      ]

  -- A receiver that does not wait for this sender: unless the receiver waits for the sender in
  -- turn, and if some other process can run, `msg_send` succeeds and leaves the sender blocked at
  -- the end of the receiver's queue.
  pub msg_send_enqueues :
      (xs : List ℕ) (rank : ℕ → ℕ)
      → cur ≢ dest
      → dest < nr_slots
      → is_idle (k.procs cur) ≡ true
      → (msg == 0) ≡ false
      → IsQueue k dest xs
      → member cur xs ≡ false
      → length xs ≤ nr_slots
      → CanSwitch
      → IsRanked k rank
      → ¬ (WaitsOn k.procs cur dest)
      → waits_for cur (k.procs dest) ≡ false
      → (k' : Kernel) × (msg_send cur (pos dest) msg k ≡ ok k') × Enqueued xs k'
  msg_send_enqueues xs rank apart inside idle full q out fits sw r none_waits busy =
      let (k', sent, e) = enqueue-Enqueued xs apart idle full q out fits sw in
      (k', send_steps apart inside (no_cycle rank r none_waits) ∙ (rw busy sent), e)

  -- If the receiver waits for the sender, directly or through others, `msg_send` panics.
  pub msg_send_panics :
      (rank : ℕ → ℕ)
      → cur ≢ dest
      → dest < nr_slots
      → IsRanked k rank
      → WaitsOn k.procs cur dest
      → msg_send cur (pos dest) msg k ≡ err panic
  unfolding msg_send
  msg_send_panics rank apart inside r waits =
      let (b, answer) = deadlock_returns cur dest k rank r in
      let ne : (cur == dest) ≡ false = ground arith in
      elim (deadlock_sound cur dest k b answer) [
        | inl (e, _) ↦ rw (ne, lt→ltb dest nr_slots inside, ◌>>=◌, answer ∙ ap ok e)
        | inr (_, clear) ↦ absurd (clear waits)
      ]
