-- ===== src/Mm/Leave.antt =====
-- `do_exit` up to its loop: the parent is told at once, or the process hangs.
use lwos.Common.{
  lt→ltb, subst, Bool, ℕ, ◌<◌, ◌≡◌, ◌≢◌, refl, sym, ◌⊎◌, true, false, not, ◌&&◌, [], ◌∷◌, ◌++◌, ltb,
  ◌==◌, if◌then◌else◌, arith,
}
use lwos.Common.Int.{ℤ}
use lwos.Fault.{Result, ok, ◌>>=◌, ◌>>◌}
use lwos.Proc.{nr_slots, nr_native, update}
use lwos.Mm.{
  Table, Sent, send, tell, task_mm_pid, child_done, exit_notice, init, leave, cleanup, freed,
  set_waiting, set_hanging, put_process,
}

-- A table with a slot cleaned up.
cleaned : ℕ → Table → Table
cleaned i t =
    let t' = send (child_done (t.procs i).p_parent i (t.procs i).exit_status) t in
    put_process i (freed (t'.procs i)) t'

-- The table with the process marked, before its parent is looked at.
marked : (pid : ℕ) → (status : ℤ) → Table → Table
marked pid status t =
    let t1 = send (exit_notice pid) t in
    put_process pid (record (t1.procs pid) { exit_status = status }) t1

released : ℕ → Table → Table
released parent t = put_process parent (set_waiting false (t.procs parent)) t

-- The table before the loop, when the code gets there.
pub left : (pid : ℕ) → (status : ℤ) → Table → Table
unfolding marked released
left pid status t =
    let parent = (t.procs pid).p_parent in
    let t2 = marked pid status t in
    if (t2.procs parent).flags.waiting
    then cleaned pid (released parent t2)
    else put_process pid (set_hanging true (t2.procs pid)) t2

-- A parent that the memory manager can tell: a task or a native process, and not the manager.
pub record CanTell (parent : ℕ) : Type 0 where
  pub native : parent < nr_native
  pub not_self : parent ≢ task_mm_pid

tell-send : (parent : ℕ) (m : Sent) (t : Table) → CanTell parent → tell parent m t ≡ ok (send m t)
unfolding tell
tell-send parent m t c =
    let named : (ltb parent nr_native && not (parent == task_mm_pid)) ≡ true =
      ground (arith, c.native, c.not_self) in
    rw named refl

cleanup-cleaned :
    (i : ℕ) (t : Table) → CanTell ((t.procs i).p_parent) → cleanup i t ≡ ok (cleaned i t)
unfolding cleanup cleaned
cleanup-cleaned i t c = rw (tell-send ((t.procs i).p_parent) _ t c, ◌>>=◌) refl

if_ok :
    (b : Bool) (x y : Table) (r : Result Table)
    → (b ≡ true → r ≡ ok x)
    → (if b then r else ok y) ≡ ok (if b then x else y)
if_ok true x y r h = h refl
if_ok false x y r h = refl

-- `do_exit` gets to its loop, if the parent is in the table and can be told when it waits.
pub leave-left :
    (pid : ℕ) (status : ℤ) (t : Table)
    → (t.procs pid).p_parent < nr_slots
    → ((t.procs ((t.procs pid).p_parent)).flags.waiting ≡ true → CanTell ((t.procs pid).p_parent))
    → leave pid status t ≡ ok (left pid status t)
unfolding leave left marked released
leave-left pid status t in_table tells =
    let parent : ℕ = (t.procs pid).p_parent in
    let t2 = marked pid status t in
    let t3 = released parent t2 in
    let inside : ltb parent nr_slots ≡ true = lt→ltb parent nr_slots in_table in
    let same : (t3.procs pid).p_parent ≡ parent = ground arith in
    rw (inside, ◌>>◌)
      (if_ok (t2.procs parent).flags.waiting (cleaned pid t3)
        (put_process pid (set_hanging true (t2.procs pid)) t2) (cleanup pid t3)
        (λ waits.
          let early : (t.procs parent).flags.waiting ≡ true = ground arith in
          cleanup-cleaned pid t3 (subst CanTell (sym same) (tells early))))

-- `INIT` does not wait once the parent is served.
pub left_calm :
    (pid : ℕ) (status : ℤ) (t : Table)
    → pid ≢ init
    → ((t.procs pid).p_parent ≡ init) ⊎ ((t.procs init).flags.waiting ≡ false)
    → ((left pid status t).procs init).flags.waiting ≡ false
unfolding left marked released cleaned
left_calm pid status t other calm = ground arith

-- The parent waits: it is told the pid and the status at once, no longer waits, and the slot is free.
pub left-waited :
    (pid : ℕ) (status : ℤ) (t : Table)
    → (t.procs pid).p_parent ≢ pid
    → (t.procs ((t.procs pid).p_parent)).flags.waiting ≡ true
    → ((left pid status t).sent
        ≡ (t.sent ++ (exit_notice pid ∷ []))
          ++ (child_done ((t.procs pid).p_parent) pid status ∷ []))
      × ((left pid status t).procs pid ≡ freed (record (t.procs pid) { exit_status = status }))
      × ((left pid status t).procs ((t.procs pid).p_parent)
          ≡ set_waiting false (t.procs ((t.procs pid).p_parent)))
unfolding left marked released cleaned
left-waited pid status t other waits =
    let apart : (pid == (t.procs pid).p_parent) ≡ false = ground arith in
    let apart' : ((t.procs pid).p_parent == pid) ≡ false = ground arith in
    let self : (pid == pid) ≡ true = ground arith in
    let self' : ((t.procs pid).p_parent == (t.procs pid).p_parent) ≡ true = ground arith in
    rw (apart, waits, apart', self, self') (refl, refl, ground arith)

-- The parent does not wait: the process is marked as hanging, and nobody is told but the file system.
pub left-unwaited :
    (pid : ℕ) (status : ℤ) (t : Table)
    → (t.procs pid).p_parent ≢ pid
    → (t.procs ((t.procs pid).p_parent)).flags.waiting ≡ false
    → ((left pid status t).sent ≡ t.sent ++ (exit_notice pid ∷ []))
      × ((m : ℕ)
          → (left pid status t).procs m
            ≡ update
                (t.procs)
                pid
                (set_hanging true (record (t.procs pid) { exit_status = status }))
                m)
unfolding left marked released
left-unwaited pid status t other idle =
    let apart : (pid == (t.procs pid).p_parent) ≡ false = ground arith in
    let self : (pid == pid) ≡ true = ground arith in
    rw (apart, idle, self) (refl, λ m. ground arith)
