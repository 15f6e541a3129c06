-- ===== src/Ipc/Receive/Dequeue.antt =====
-- Taking a sender out of a sending queue, wherever in the queue it stands.
use lwos.Common.{
  ℕ, zero, suc, ◌≤◌, ◌<◌, ◌≡◌, refl, ◌∙◌, ap, true, false, ◌≢◌, Option, none, some, List, [], ◌∷◌,
  arith, ◌==◌, ==_iff, length, if◌then◌else◌, Bool-cases, inl, inr,
}
use lwos.Fault.{Result, ok, ◌>>=◌}
use lwos.Proc.{Process, Kernel, nr_slots, put_proc}
use lwos.Ipc.Chain.{Next, Chain, member, without, frame, Chain-without, Distinct-without}
use lwos.Ipc.Queue.{links, IsQueue, Requeued}
use lwos.Ipc.Receive.{find_before, unlink}

-- What the walk for `src` comes back with.
abbrev before : ℕ → Option ℕ → List ℕ → Option ℕ
before src prev [] = prev
before src prev (x ∷ xs) = if x == src then prev else before src (some x) xs

find_before-before :
    (procs : ℕ → Process) (fuel src : ℕ) (xs : List ℕ) (h prev : Option ℕ)
    → Chain (λ i. (procs i).next_sending) h xs
    → length xs < fuel
    → find_before fuel procs src h prev ≡ ok (before src prev xs)
unfolding find_before
find_before-before procs zero src xs h prev c l = absurd (omega arith)
find_before-before procs (suc fuel) src [] h prev c l = rw (c, find_before)
find_before-before procs (suc fuel) src (x ∷ xs) h prev c l = elim (Bool-cases (x == src)) [
  | inl hit ↦ rw (c.0, hit, find_before)
  | inr miss ↦
      rw (c.0, miss, find_before)
        (find_before-before procs fuel src xs _ (some x) c.1 (omega arith))
]

-- Behind the head, the walk stops at a listed slot that points to `src`.
before-some :
    (next : Next) (src x : ℕ) (xs : List ℕ)
    → Chain next (next x) xs
    → member src xs ≡ true
    → (x == src) ≡ false
    → (b : ℕ) × (before src (some x) xs ≡ some b)
      × (member b (x ∷ xs) ≡ true)
      × (next b ≡ some src)
      × ((b == src) ≡ false)
before-some next src x [] c m ne = absurd (cc m)
before-some next src x (y ∷ ys) c m ne = elim (Bool-cases (y == src)) [
  | inl hit ↦ (x, rw hit, ground arith, c.0 ∙ ap some ((==_iff y src).0 hit), ne)
  | inr miss ↦
      let (b, e, b_in, points, ne') = before-some next src y ys c.1 (ground arith) miss in
      (b, rw miss e, ground arith, points, ne')
]

module _ (cur from : ℕ) (k : Kernel) (apart : cur ≢ from) where
  -- The walk for `from` and its removal, as `msg_receive` puts them together.
  abbrev pub dequeue : Result Kernel
  dequeue = do
    prev ← find_before (suc nr_slots) k.procs from (k.procs cur).sending_queue none
    unlink cur from prev k

  abbrev pub cleared : Kernel → Kernel
  cleared k1 = put_proc from (record (k1.procs from) { next_sending = none }) k1

  abbrev pub behead : Kernel
  behead = cleared (put_proc cur (record (k.procs cur) { sending_queue = links k from }) k)

  abbrev bypass : ℕ → Kernel
  bypass b = cleared (put_proc b (record (k.procs b) { next_sending = links k from }) k)

  pub behead-Requeued :
      (xs : List ℕ) → IsQueue k cur (from ∷ xs) → Requeued k behead from cur (from ∷ xs) xs
  behead-Requeued xs q =
      let here : (behead.procs cur).sending_queue ≡ links k from = ground arith in
      record {
        queue = record {
          chain =
              rw here (
                frame (links k) (links behead) xs (links k from) (λ i i_in. ground arith)
                  q.chain.1);
          distinct = q.distinct.1;
        };
        other_heads = λ i ne. ground arith;
        other_links = λ i ne not_in. ground arith;
        same = λ i. ground arith;
        same_mem = refl;
        same_ready = refl;
        same_rest = (refl, refl, refl, refl);
      }

  bypass-Requeued :
      (b : ℕ) (xs : List ℕ)
      → IsQueue k cur xs
      → member b xs ≡ true
      → links k b ≡ some from
      → b ≢ from
      → Requeued k (bypass b) from cur xs (without from xs)
  bypass-Requeued b xs q b_in points ne =
      let here : ((bypass b).procs cur).sending_queue ≡ (k.procs cur).sending_queue =
        ground arith in
      record {
        queue = record {
          chain = rw here (
              Chain-without (links k) (links (bypass b)) from b xs _ q.chain q.distinct b_in points
                (ground arith) (λ i i_in i_b i_from. ground arith));
          distinct = Distinct-without from xs q.distinct;
        };
        other_heads = λ i ne'. ground arith;
        other_links = λ i ne' not_in. ground arith;
        same = λ i. ground arith;
        same_mem = refl;
        same_ready = refl;
        same_rest = (refl, refl, refl, refl);
      }

  pub unlink-behead : (xs : List ℕ) → IsQueue k cur (from ∷ xs) → unlink cur from none k ≡ ok behead
  unfolding unlink
  unlink-behead xs q = rw (q.chain.0, (==_iff from from).1 refl, unlink)

  unlink-bypass :
      (x b : ℕ)
      → (k.procs cur).sending_queue ≡ some x
      → (x == from) ≡ false
      → unlink cur from (some b) k ≡ ok (bypass b)
  unfolding unlink
  unlink-bypass x b head ne = rw (head, ne, unlink)

  walk :
      (x : ℕ) (xs : List ℕ)
      → IsQueue k cur (x ∷ xs)
      → length (x ∷ xs) ≤ nr_slots
      → find_before (suc nr_slots) k.procs from (k.procs cur).sending_queue none
        ≡ ok (before from none (x ∷ xs))
  walk x xs q h =
      find_before-before k.procs (suc nr_slots) from (x ∷ xs) _ none q.chain (omega arith)

  dequeue_steps :
      (prev : Option ℕ) {k' : Kernel}
      → find_before (suc nr_slots) k.procs from (k.procs cur).sending_queue none ≡ ok prev
      → unlink cur from prev k ≡ ok k'
      → dequeue ≡ ok k'
  dequeue_steps prev found unlinked = rw (found, ◌>>=◌) unlinked

  -- A waiting sender leaves the queue from any place in it, without a fault, and the others keep
  -- their order.
  pub dequeue-without :
      (xs : List ℕ)
      → IsQueue k cur xs
      → member from xs ≡ true
      → length xs ≤ nr_slots
      → (k' : Kernel) × (dequeue ≡ ok k') × Requeued k k' from cur xs (without from xs)
  unfolding unlink
  dequeue-without [] q m h = absurd (cc m)
  dequeue-without (x ∷ xs) q m h = elim (Bool-cases (x == from)) [
    | inl hit ↦
        let e : x ≡ from = (==_iff x from).0 hit in
        let q' : IsQueue k cur (from ∷ xs) = rw e at q in
        rw hit (
          behead,
          dequeue_steps none (walk x xs q h ∙ ap ok (rw hit)) (unlink-behead xs q'),
          rw e (behead-Requeued xs q'),
        )
    | inr miss ↦
        let (b, found, b_in, points, ne) =
          before-some (links k) from x xs q.chain.1 (ground arith) miss in
        (
          bypass b,
          dequeue_steps (some b) (walk x xs q h ∙ ap ok (rw miss found))
              (unlink-bypass x b q.chain.0 miss),
          bypass-Requeued b (x ∷ xs) q b_in points (ground arith),
        )
  ]
