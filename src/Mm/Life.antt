-- ===== src/Mm/Life.antt =====
-- The end of a process: `do_exit`, and a `do_wait` of its parent before or after it.
use lwos.Common.{
  ℕ, zero, suc, ◌+◌, ◌<◌, ◌≡◌, ◌≢◌, refl, ◌∙◌, sym, ap, inl, inr, ◌⊎◌, true, false, ◌&&◌, [], ◌∷◌,
  ◌++◌, ltb, leb, ◌==◌, if◌then◌else◌, arith, Bool-cases,
}
use lwos.Common.Int.{ℤ}
use lwos.Fault.{ok, ◌>>=◌}
use lwos.Proc.{Process, nr_slots, update, flags}
use lwos.Mm.{
  Table, child_done, exit_notice, only_hanging, init, reparent, do_exit, do_wait, set_waiting,
  set_hanging, put_process,
}
use lwos.Mm.Leave.{CanTell, left, leave-left, left_calm, left-waited, left-unwaited}
use lwos.Mm.Children.{hanging_child, do_wait-waits}

-- The children of `pid` in the `n` slots from `start` on are children of `INIT`.
abbrev adopted : (n start pid : ℕ) → (ℕ → Process) → ℕ → Process
adopted n start pid procs m =
    if leb start m && (ltb m (start + n) && ((procs m).p_parent == pid))
    then record (procs m) { p_parent = init }
    else procs m

reparent-adopted :
    (n pid start : ℕ) (t : Table)
    → (t.procs init).flags.waiting ≡ false
    → pid ≢ init
    → (t' : Table) × (reparent n pid start t ≡ ok t')
      × (t'.sent ≡ t.sent)
      × ((m : ℕ) → t'.procs m ≡ adopted n start pid (t.procs) m)
unfolding reparent
reparent-adopted zero pid start t calm other = (t, refl, refl, λ m. ground arith)
reparent-adopted (suc n) pid start t calm other =
    elim (Bool-cases ((t.procs start).p_parent == pid)) [
      | inl child ↦
          let t1 : Table = put_process start (record (t.procs start) { p_parent = init }) t in
          let calm1 : (t1.procs init).flags.waiting ≡ false = ground arith in
          let (t2, run, same, procs) = reparent-adopted n pid (start + 1) t1 calm1 other in
          rw (child, calm1, run) (t2, refl, same, λ m. procs m ∙ ground arith)
      | inr not_child ↦
          let (t2, run, same, procs) = reparent-adopted n pid (start + 1) t calm other in
          rw (not_child, run) (t2, refl, same, λ m. procs m ∙ ground arith)
    ]

-- A process other than `INIT` ends whose parent is another process that can be told, a task or a
-- native process; if the parent is not `INIT`, `INIT` does not wait. Then `do_exit` succeeds, and no
-- process of the table has the process as its parent.
pub do_exit_no_orphans :
    (pid : ℕ) (status : ℤ) (t : Table) (m : ℕ)
    → pid ≢ init
    → (t.procs pid).p_parent ≢ pid
    → CanTell ((t.procs pid).p_parent)
    → ((t.procs pid).p_parent ≡ init) ⊎ ((t.procs init).flags.waiting ≡ false)
    → m < nr_slots
    → (t' : Table) × (do_exit pid status t ≡ ok t') × ((t'.procs m).p_parent ≢ pid)
unfolding do_exit
do_exit_no_orphans pid status t m other not_self c calm h =
    let (t', run, same, procs) =
      reparent-adopted nr_slots pid 0 (left pid status t) (left_calm pid status t other calm)
        other in
    rw (leave-left pid status t (omega (arith, c.native)) (λ waits. c), ◌>>=◌)
      (
        t',
        run,
        λ e.
            let kept : (adopted nr_slots 0 pid ((left pid status t).procs) m).p_parent ≡ pid =
              sym (ap (λ p. p.p_parent) (procs m)) ∙ e in
            ground arith,
      )

flags-adopted :
    (pid : ℕ) (procs : ℕ → Process) (m : ℕ)
    → (adopted nr_slots 0 pid procs m).flags ≡ (procs m).flags
flags-adopted pid procs m = ground arith

-- A process other than `INIT` ends whose parent waits and is another process that can be told, a task
-- or a native process; if the parent is not `INIT`, `INIT` does not wait: `do_exit` succeeds, the file system is told, then the parent, with pid and status, and
-- nobody else; the slot is free and the parent no longer waits.
pub do_exit-told :
    (pid : ℕ) (status : ℤ) (t : Table)
    → (t.procs pid).p_parent ≢ pid
    → CanTell ((t.procs pid).p_parent)
    → (t.procs ((t.procs pid).p_parent)).flags.waiting ≡ true
    → ((t.procs pid).p_parent ≡ init) ⊎ ((t.procs init).flags.waiting ≡ false)
    → pid ≢ init
    → (t' : Table) × (do_exit pid status t ≡ ok t')
      × (t'.sent
          ≡ (t.sent ++ (exit_notice pid ∷ []))
            ++ (child_done ((t.procs pid).p_parent) pid status ∷ []))
      × ((t'.procs pid).flags ≡ flags false false false false true)
      × ((t'.procs ((t.procs pid).p_parent)).flags.waiting ≡ false)
unfolding do_exit
do_exit-told pid status t other c waits calm not_init =
    let parent : ℕ = (t.procs pid).p_parent in
    let (told, free, released) = left-waited pid status t other waits in
    let (t', run, same, procs) =
      reparent-adopted nr_slots pid 0 (left pid status t) (left_calm pid status t not_init calm)
        not_init in
    rw (leave-left pid status t (omega (arith, c.native)) (λ w. c), ◌>>=◌)
      (
        t',
        run,
        same ∙ told,
        ap (λ p. p.flags) (procs pid)
            ∙ (flags-adopted pid ((left pid status t).procs) pid ∙ ap (λ p. p.flags) free),
        ap (λ p. p.flags.waiting) (procs parent)
            ∙ (ap (λ f. f.waiting) (flags-adopted pid ((left pid status t).procs) parent)
                ∙ ap (λ p. p.flags.waiting) released),
      )

adopted_other :
    (pid : ℕ) (procs : ℕ → Process) (m : ℕ)
    → (procs m).p_parent ≢ pid
    → adopted nr_slots 0 pid procs m ≡ procs m
adopted_other pid procs m h = ground arith

-- A process that ends while it waits for the answer to its request, as `exit` makes it do, and whose
-- parent does not wait yet, is never seen: `do_exit` succeeds, and a later `do_wait` of the parent,
-- which has no other child that hangs with no other flag set, leaves the parent waiting and does
-- nothing else. The process is not `INIT` and has no children, its parent is another process of the
-- table, and `INIT` does not wait.
pub do_exit_unseen :
    (pid : ℕ) (status : ℤ) (t : Table)
    → pid < nr_slots
    → pid ≢ init
    → (t.procs pid).p_parent ≢ pid
    → (t.procs pid).p_parent < nr_slots
    → (t.procs pid).flags.receiving ≡ true
    → (t.procs ((t.procs pid).p_parent)).flags.waiting ≡ false
    → (t.procs init).flags.waiting ≡ false
    → ((m : ℕ) → m < nr_slots → hanging_child (t.procs) ((t.procs pid).p_parent) m ≡ false)
    → ((m : ℕ) → m < nr_slots → (t.procs m).p_parent ≢ pid)
    → (t' : Table) × (do_exit pid status t ≡ ok t')
      × (do_wait ((t.procs pid).p_parent) t'
          ≡ ok (
              put_process
                ((t.procs pid).p_parent)
                (set_waiting true (t'.procs ((t.procs pid).p_parent)))
                t'))
unfolding do_exit
do_exit_unseen pid status t h not_init other in_table receives idle calm no_other childless =
    let parent : ℕ = (t.procs pid).p_parent in
    let (told, procs1) = left-unwaited pid status t other idle in
    let calm1 : ((left pid status t).procs init).flags.waiting ≡ false =
      ap (λ p. p.flags.waiting) (procs1 init) ∙ ground arith in
    let (t', run, same, procs) =
      reparent-adopted nr_slots pid 0 (left pid status t) calm1 not_init in
    let now : (m : ℕ)
        → m < nr_slots
        → t'.procs m
          ≡ update (t.procs) pid (set_hanging true (record (t.procs pid) { exit_status = status }))
              m =
      (λ m small.
        let kept : ((left pid status t).procs m).p_parent ≢ pid = (λ e.
          let early : (update (t.procs) pid
                (set_hanging true (record (t.procs pid) { exit_status = status })) m).p_parent
              ≡ pid =
            sym (ap (λ p. p.p_parent) (procs1 m)) ∙ e in
          ground (arith, childless m small)) in
        procs m ∙ (adopted_other pid ((left pid status t).procs) m kept ∙ procs1 m)) in
    rw
      (
        leave-left pid status t in_table
            (λ w. absurd (let clash : true ≡ false = sym w ∙ idle in cc)),
        ◌>>=◌,
      )
      (
        t',
        run,
        do_wait-waits t' parent pid h (ap (λ p. p.p_parent) (now pid h) ∙ ground arith) (λ m small.
            ap (λ p. (p.p_parent == parent) && only_hanging (p.flags)) (now m small)
            ∙ ground (arith, no_other m small)),
      )
