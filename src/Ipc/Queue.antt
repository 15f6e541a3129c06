-- ===== src/Ipc/Queue.antt =====
-- The sending queue of a process: `msg_send` appends to it and `msg_receive` takes out of it, and
-- both do so for the list that the pointers spell out.
use lwos.Common.{
  ℕ, zero, suc, ◌≤◌, ◌<◌, ◌≡◌, refl, true, false, ◌≢◌, none, some, List, [], ◌∷◌, ◌++◌, arith,
  length,
}
use lwos.Fault.{ok}
use lwos.Proc.{Process, Kernel, nr_slots, put_proc}
use lwos.Ipc.{last_in_queue, append_sender}
use lwos.Ipc.Chain.{Next, Chain, member, Distinct, last, member-last, Chain-snoc, Distinct-snoc}

abbrev pub links : Kernel → Next
links k i = (k.procs i).next_sending

-- The processes `xs` wait, in this order, to send to `d`.
pub record IsQueue (k : Kernel) (d : ℕ) (xs : List ℕ) : Type 0 where
  pub chain : Chain (links k) (k.procs d).sending_queue xs
  pub distinct : Distinct xs

-- A process but for the two fields of the queues.
abbrev pub unqueued : Process → Process
unqueued p = record p { sending_queue = none; next_sending = none }

-- From `k` to `k'` the queue of `d` turned from `xs` into `ys`, and no pointer but those of `d`, of
-- its queue and of `p` changed, nor any other field, nor memory, nor the rest of the kernel.
pub record Requeued (k k' : Kernel) (p d : ℕ) (xs ys : List ℕ) : Type 0 where
  pub queue : IsQueue k' d ys
  pub other_heads : (i : ℕ) → i ≢ d → (k'.procs i).sending_queue ≡ (k.procs i).sending_queue
  pub other_links : (i : ℕ) → i ≢ p → member i xs ≡ false → links k' i ≡ links k i
  pub same : (i : ℕ) → unqueued (k'.procs i) ≡ unqueued (k.procs i)
  pub same_mem : k'.mem ≡ k.mem
  pub same_ready : k'.ready ≡ k.ready
  pub same_rest :
      (k'.before ≡ k.before)
      × (k'.ticks ≡ k.ticks)
      × (k'.k_reenter ≡ k.k_reenter)
      × (k'.key_pressed ≡ k.key_pressed)

last_in_queue-last :
    (procs : ℕ → Process) (fuel x : ℕ) (ys : List ℕ)
    → Chain (λ i. (procs i).next_sending) (procs x).next_sending ys
    → length ys < fuel
    → last_in_queue fuel procs x ≡ ok (last x ys)
unfolding last_in_queue
last_in_queue-last procs zero x ys c h = absurd (omega arith)
last_in_queue-last procs (suc fuel) x [] c h = rw (c, last_in_queue)
last_in_queue-last procs (suc fuel) x (y ∷ ys) c h =
    rw (c.0, last_in_queue) (last_in_queue-last procs fuel y ys c.1 (omega arith))

module _ (p dest : ℕ) (k : Kernel) (apart : p ≢ dest) where
  -- The two writes for an empty queue.
  abbrev started : Kernel
  started =
      let k1 = put_proc dest (record (k.procs dest) { sending_queue = some p }) k in
      put_proc p (record (k1.procs p) { next_sending = none }) k1

  started-Requeued : Requeued k started p dest [] (p ∷ [])
  started-Requeued = record {
    queue = record { chain = ground arith; distinct = ground arith };
    other_heads = λ i ne. ground arith;
    other_links = λ i ne out. ground arith;
    same = λ i. ground arith;
    same_mem = refl;
    same_ready = refl;
    same_rest = (refl, refl, refl, refl);
  }

  -- The two writes behind the slot `tail`.
  abbrev linked : ℕ → Kernel
  linked tail =
      let k1 = put_proc tail (record (k.procs tail) { next_sending = some p }) k in
      put_proc p (record (k1.procs p) { next_sending = none }) k1

  linked-Requeued :
      (x : ℕ) (ys : List ℕ)
      → IsQueue k dest (x ∷ ys)
      → member p (x ∷ ys) ≡ false
      → Requeued k (linked (last x ys)) p dest (x ∷ ys) ((x ∷ ys) ++ (p ∷ []))
  linked-Requeued x ys q out =
      let tail_in : member (last x ys) (x ∷ ys) ≡ true = member-last x ys in
      let p_not_tail : p ≢ last x ys = ground arith in
      let head : ((linked (last x ys)).procs dest).sending_queue ≡ (k.procs dest).sending_queue =
        ground arith in
      record {
        queue = record {
          chain = rw head (
              Chain-snoc (links k) (links (linked (last x ys))) p x ys _ q.chain q.distinct
                (ground arith) (ground arith) (λ i i_in ne. ground arith));
          distinct = Distinct-snoc p (x ∷ ys) q.distinct out;
        };
        other_heads = λ i ne. ground arith;
        other_links = λ i ne not_in. ground arith;
        same = λ i. ground arith;
        same_mem = refl;
        same_ready = refl;
        same_rest = (refl, refl, refl, refl);
      }

  -- Appending to the queue of `dest` never fails, and puts the process behind those that wait
  -- already.
  pub append_sender-append :
      (xs : List ℕ)
      → IsQueue k dest xs
      → member p xs ≡ false
      → length xs ≤ nr_slots
      → (k' : Kernel) × (append_sender p dest k ≡ ok k') × Requeued k k' p dest xs (xs ++ (p ∷ []))
  unfolding append_sender
  append_sender-append [] q out h = (started, rw (q.chain, append_sender), started-Requeued)
  append_sender-append (x ∷ ys) q out h = (
    linked (last x ys),
    rw (q.chain.0, last_in_queue-last k.procs nr_slots x ys q.chain.1 (omega arith), append_sender),
    linked-Requeued x ys q out,
  )
