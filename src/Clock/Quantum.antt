-- ===== src/Clock/Quantum.antt =====
-- A process runs until its ticks are used up.
use lwos.Common.{
  ℕ, zero, suc, ◌+◌, ◌<◌, ◌≡◌, ◌≢◌, refl, ◌∙◌, sym, ap, true, false, not, ltb, ◌==◌, lt→ltb, arith,
  subst, Bool-cases, inl, inr,
}
use lwos.Fault.{Result, ok, ◌>>=◌}
use lwos.Proc.{Kernel}
use lwos.Clock.{count_tick, clock_handler}

-- `n` interrupts of the clock, with nothing in between.
pub interrupts : ℕ → Kernel → Result Kernel
interrupts zero k = ok k
interrupts (suc n) k = clock_handler k >>= interrupts n

-- What the clock leaves alone while the running process has ticks left.
pub record StillRuns (n : ℕ) (k k' : Kernel) : Type 0 where
  pub runs : k'.ready ≡ k.ready
  pub left : (k'.procs k.ready).ticks + n ≡ (k.procs k.ready).ticks
  pub others : (i : ℕ) → i ≢ k.ready → k'.procs i ≡ k.procs i
  pub rest : (k'.key_pressed ≡ k.key_pressed) × (k'.k_reenter ≡ k.k_reenter) × (k'.mem ≡ k.mem)

count_tick-StillRuns : (k : Kernel) → 0 < (k.procs (k.ready)).ticks → StillRuns 1 k (count_tick k)
unfolding count_tick
count_tick-StillRuns k h =
    let some_left : ((k.procs (k.ready)).ticks == 0) ≡ false = ground arith in
    rw some_left (record {
      runs = refl;
      left = ground arith;
      others = λ i other. ground arith;
      rest = (refl, refl, refl);
    })

StillRuns-trans :
    (n m : ℕ) (k k' k'' : Kernel) → StillRuns n k k' → StillRuns m k' k'' → StillRuns (n + m) k k''
StillRuns-trans n m k k' k'' a b =
    let left' : (k''.procs (k.ready)).ticks + m ≡ (k'.procs (k.ready)).ticks =
      ap (λ i. (k''.procs i).ticks + m) (sym a.runs)
      ∙ (b.left ∙ ap (λ i. (k'.procs i).ticks) a.runs) in
    record {
      runs = b.runs ∙ a.runs;
      left = omega (arith, a.left, left');
      others = λ i other. b.others i (λ e. other (e ∙ a.runs)) ∙ a.others i other;
      rest = ((b.rest).0 ∙ (a.rest).0, (b.rest).1 ∙ (a.rest).1, (b.rest).2 ∙ (a.rest).2);
    }

clock_handler-count_tick :
    (k : Kernel)
    → k.key_pressed ≡ false
    → 1 < (k.procs (k.ready)).ticks
    → clock_handler k ≡ ok (count_tick k)
unfolding clock_handler
clock_handler-count_tick k quiet h =
    let t = count_tick-StillRuns k (omega (arith, h)) in
    let no_key : (count_tick k).key_pressed ≡ false = (t.rest).0 ∙ quiet in
    let used : ((count_tick k).procs (k.ready)).ticks + 1 ≡ (k.procs (k.ready)).ticks = t.left in
    let ticks_left : ltb 0 ((count_tick k).procs ((count_tick k).ready)).ticks ≡ true =
      lt→ltb 0 _
        (subst (λ i. 0 < ((count_tick k).procs i).ticks) (sym t.runs) (omega (arith, used, h))) in
    elim (Bool-cases (not ((count_tick k).k_reenter == 0))) [
      | inl nested ↦ rw (no_key, ◌>>=◌, nested) refl
      | inr outermost ↦ rw (no_key, ◌>>=◌, outermost, ticks_left) refl
    ]

-- While no key is pressed, a process runs on through fewer interrupts of the clock than it has ticks:
-- each takes one tick of it, and no other process and no message changes.
pub interrupts-StillRuns :
    (n : ℕ) (k : Kernel)
    → k.key_pressed ≡ false
    → n < (k.procs (k.ready)).ticks
    → (k' : Kernel) × (interrupts n k ≡ ok k') × StillRuns n k k'
unfolding interrupts
interrupts-StillRuns zero k quiet h = (
  k,
  refl,
  record { runs = refl; left = omega arith; others = λ i other. refl; rest = (refl, refl, refl) },
)
interrupts-StillRuns (suc n) k quiet h =
    let first = count_tick-StillRuns k (omega (arith, h)) in
    let run1 = clock_handler-count_tick k quiet (omega (arith, h)) in
    let used : ((count_tick k).procs (k.ready)).ticks + 1 ≡ (k.procs (k.ready)).ticks =
      first.left in
    let enough : n < ((count_tick k).procs ((count_tick k).ready)).ticks =
      subst (λ i. n < ((count_tick k).procs i).ticks) (sym first.runs) (omega (arith, used, h)) in
    let (k', run, others) = interrupts-StillRuns n (count_tick k) ((first.rest).0 ∙ quiet) enough in
    (
      k',
      ap (λ r. r >>= interrupts n) run1 ∙ run,
      subst (λ m. StillRuns m k k') {x = 1 + n} {y = suc n} (omega arith)
          (StillRuns-trans 1 n k (count_tick k) k' first others),
    )
