-- ===== src/Ipc/Schedule.antt =====
-- `schedule` of kernel/proc.c: which process runs next, and when the search for one ends.
use lwos.Common.{
  ℕ, zero, suc, ◌+◌, ◌≤◌, ◌<◌, ◌≡◌, refl, ◌⊎◌, inl, inr, true, false, arith, ltb, ltb→lt, lt→ltb,
  and-true, ◌==◌, Bool-cases, ◌&&◌, ◌∙◌,
}
use lwos.Fault.{ok, err, spin, ok-injective}
use lwos.Proc.{Process, Kernel, nr_slots, is_clear}
use lwos.Ipc.{choose, refill, schedule_loop, schedule}

-- The process is in no queue and waits for nothing.
abbrev pub IsRunnable : Process → Type 0
IsRunnable p = is_clear p.flags ≡ true

-- `r` is among the slots from `i` up to `j`, runnable, and has `g` ticks.
pub record IsChosen (procs : ℕ → Process) (i j g r : ℕ) : Type 0 where
  pub from : i ≤ r
  pub upto : r < j
  pub runnable : IsRunnable (procs r)
  pub ticks : (procs r).ticks ≡ g

-- The outcome of the first loop.
record Chose (procs : ℕ → Process) (i j g0 r0 : ℕ) (out : ℕ × ℕ) : Type 0 where
  grows : g0 ≤ out.0
  greatest : (s : ℕ) → i ≤ s → s < j → IsRunnable (procs s) → (procs s).ticks ≤ out.0
  winner : ((out.0 ≡ g0) × (out.1 ≡ r0)) ⊎ ((g0 < out.0) × IsChosen procs i j out.0 out.1)

choose-Chose :
    (procs : ℕ → Process) (n i j g r : ℕ) → i + n ≡ j → Chose procs i j g r (choose procs n i g r)
unfolding choose
choose-Chose procs zero i j g r e = record {
  grows = omega arith;
  greatest = λ s h h' run. absurd (omega arith);
  winner = inl (refl, refl);
}
choose-Chose procs (suc n) i j g r e =
    elim (Bool-cases (is_clear (procs i).flags && ltb g (procs i).ticks)) [
      | inl better ↦ rw better (
          let rest = choose-Chose procs n (i + 1) j (procs i).ticks i (omega arith) in
          record {
            grows = omega (
              arith,
              rest.grows,
              ltb→lt g (procs i).ticks
                  (and-true (is_clear (procs i).flags) (ltb g (procs i).ticks) better).1,
            );
            greatest = λ s h h' run. ground (arith, rest.grows, rest.greatest s);
            winner = ground (arith, rest.winner);
          })
      | inr not_better ↦ rw not_better (
          let rest = choose-Chose procs n (i + 1) j g r (omega arith) in
          record {
            grows = rest.grows;
            greatest = λ s h h' run. ground (arith, rest.grows, rest.greatest s);
            winner = ground (arith, rest.winner);
          })
    ]

-- What `schedule` promises: it keeps everything but the choice and the ticks, and chooses a
-- process that can run, has ticks left, and has as many as any that can run.
pub record Scheduled (k k' : Kernel) : Type 0 where
  pub in_table : k'.ready < nr_slots
  pub runnable : IsRunnable (k'.procs k'.ready)
  pub has_ticks : 0 < (k'.procs k'.ready).ticks
  pub greatest :
      (s : ℕ)
      → s < nr_slots
      → IsRunnable (k'.procs s)
      → (k'.procs s).ticks ≤ (k'.procs k'.ready).ticks
  pub same : (s : ℕ) → record (k'.procs s) { ticks = 0 } ≡ record (k.procs s) { ticks = 0 }
  pub same_mem : k'.mem ≡ k.mem
  pub same_rest :
      (k'.before ≡ k.before)
      × (k'.ticks ≡ k.ticks)
      × (k'.k_reenter ≡ k.k_reenter)
      × (k'.key_pressed ≡ k.key_pressed)

abbrev first_loop : Kernel → ℕ × ℕ
first_loop k = choose k.procs nr_slots 0 0 k.ready

first_loop-Chose : (k : Kernel) → Chose k.procs 0 nr_slots 0 k.ready (first_loop k)
first_loop-Chose k = choose-Chose k.procs nr_slots 0 nr_slots 0 k.ready (omega arith)

settled :
    (k : Kernel)
    → ((first_loop k).0 == 0) ≡ false
    → Scheduled k (record k { ready = (first_loop k).1 })
settled k found = record {
  in_table = won.1.upto;
  runnable = won.1.runnable;
  has_ticks = omega (arith, won.0, won.1.ticks);
  greatest = λ s h run. omega (arith, c.greatest s (omega arith) h run, won.1.ticks);
  same = λ s. refl;
  same_mem = refl;
  same_rest = (refl, refl, refl, refl);
}
  where
    c : Chose k.procs 0 nr_slots 0 k.ready (first_loop k)
    c = first_loop-Chose k

    won : (0 < (first_loop k).0) × IsChosen k.procs 0 nr_slots (first_loop k).0 (first_loop k).1
    won = ground (arith, c.winner)

refilled : {k k' : Kernel} (r : ℕ) → Scheduled (refill (record k { ready = r })) k' → Scheduled k k'
refilled {k} {k'} r s = record {
  in_table = s.in_table;
  runnable = s.runnable;
  has_ticks = s.has_ticks;
  greatest = s.greatest;
  same = s.same;
  same_mem = s.same_mem;
  same_rest = s.same_rest;
}

schedule_loop-Scheduled :
    (fuel : ℕ) (k : Kernel) {k' : Kernel} → schedule_loop fuel k ≡ ok k' → Scheduled k k'
unfolding schedule_loop
schedule_loop-Scheduled zero k h = cc
schedule_loop-Scheduled (suc fuel) k {k'} h = elim (Bool-cases ((first_loop k).0 == 0)) [
  | inl again ↦ refilled (first_loop k).1 (
      schedule_loop-Scheduled fuel (refill (record k { ready = (first_loop k).1 }))
        (rw (again, schedule_loop) at h))
  | inr found ↦ rw (← ok-injective (rw (found, schedule_loop) at h)) (settled k found)
]

-- `schedule` changes only the choice and the ticks. What it chooses is a process in the table that
-- can run, has ticks left, and has at least as many ticks as every other process that can run.
pub schedule-Scheduled : (k : Kernel) {k' : Kernel} → schedule k ≡ ok k' → Scheduled k k'
unfolding schedule
schedule-Scheduled k h = schedule_loop-Scheduled 2 k h

found_some :
    (k : Kernel) (s : ℕ)
    → s < nr_slots
    → IsRunnable (k.procs s)
    → 0 < (k.procs s).ticks
    → ((first_loop k).0 == 0) ≡ false
found_some k s h run pos = ground (arith, (first_loop-Chose k).greatest s (omega arith) h run)

abbrev chosen : Kernel → Kernel
chosen k = record k { ready = (first_loop k).1 }

round-found :
    (fuel : ℕ) (k : Kernel)
    → ((first_loop k).0 == 0) ≡ false
    → schedule_loop (suc fuel) k ≡ ok (chosen k)
unfolding schedule_loop
round-found fuel k found = rw (found, schedule_loop)

round-again :
    (fuel : ℕ) (k : Kernel)
    → ((first_loop k).0 == 0) ≡ true
    → schedule_loop (suc fuel) k ≡ schedule_loop fuel (refill (chosen k))
unfolding schedule_loop
round-again fuel k again = rw (again, schedule_loop)

-- The search ends if some process can run and has ticks left or a priority above zero.
pub schedule_returns :
    (k : Kernel) (s : ℕ)
    → s < nr_slots
    → IsRunnable (k.procs s)
    → (0 < (k.procs s).ticks) ⊎ (0 < (k.procs s).priority)
    → (k' : Kernel) × (schedule k ≡ ok k')
unfolding schedule
schedule_returns k s h run (inl pos) = (chosen k, round-found 1 k (found_some k s h run pos))
schedule_returns k s h run (inr pos) =
    let k1 : Kernel = refill (chosen k) in
    let ticks : 0 < (k1.procs s).ticks = ground (arith, lt→ltb s nr_slots h) in
    elim (Bool-cases ((first_loop k).0 == 0)) [
      | inl again ↦
          (chosen k1, round-again 1 k again ∙ round-found 0 k1 (found_some k1 s h run ticks))
      | inr found ↦ (chosen k, round-found 1 k found)
    ]

-- If no process that can run has ticks left or a priority above zero, no number of rounds ends the
-- search: the fuel of `schedule` is not what stops it.
pub schedule_spins :
    (fuel : ℕ) (k : Kernel)
    → ((s : ℕ)
        → s < nr_slots
        → IsRunnable (k.procs s)
        → ((k.procs s).ticks ≡ 0) × ((k.procs s).priority ≡ 0))
    → schedule_loop fuel k ≡ err spin
unfolding schedule_loop
schedule_spins zero k none_left = refl
schedule_spins (suc fuel) k none_left =
    round-again fuel k nothing ∙ schedule_spins fuel (refill (chosen k)) still
  where
    c : Chose k.procs 0 nr_slots 0 k.ready (first_loop k)
    c = first_loop-Chose k

    nothing : ((first_loop k).0 == 0) ≡ true
    nothing = elim (c.winner) [
      | inl (e, _) ↦ ground (arith, e)
      | inr (p, w) ↦ ground (arith, p, w.ticks, none_left (first_loop k).1 w.upto w.runnable)
    ]

    still :
        (s : ℕ)
        → s < nr_slots
        → IsRunnable (k.procs s)
        → (((refill (chosen k)).procs s).ticks ≡ 0) × ((k.procs s).priority ≡ 0)
    still s h run = ground (arith, none_left s h run)
