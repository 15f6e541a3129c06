-- ===== src/Mm/Children.antt =====
-- What the loop of `do_wait` finds.
use lwos.Common.{
  ℕ, zero, suc, ◌+◌, ◌≤◌, ◌<◌, ◌≡◌, ◌≢◌, refl, ◌∙◌, sym, ap, inl, inr, Bool, true, false, ◌&&◌,
  Option, none, some, ◌==◌, ==_iff, if◌then◌else◌, arith, Bool-cases, and-true,
}
use lwos.Fault.{ok}
use lwos.Proc.{Process, nr_slots}
use lwos.Mm.{
  Table, only_hanging, scan_children, answer_wait, do_wait, cleanup, set_waiting, put_process,
}

abbrev pub hanging_child : (ℕ → Process) → (pid i : ℕ) → Bool
hanging_child procs pid i = ((procs i).p_parent == pid) && only_hanging (procs i).flags

-- Slot `i` is a child that hangs, and the first one from `start` on.
pub record IsFirstHanging (procs : ℕ → Process) (pid start i : ℕ) : Type 0 where
  pub child : (procs i).p_parent ≡ pid
  pub hangs : only_hanging (procs i).flags ≡ true
  pub from : start ≤ i
  pub first : (m : ℕ) → start ≤ m → m < i → hanging_child procs pid m ≡ false

scan_children-IsFirstHanging :
    (n : ℕ) (procs : ℕ → Process) (pid start children i : ℕ)
    → start ≤ i
    → i < start + n
    → (procs i).p_parent ≡ pid
    → only_hanging (procs i).flags ≡ true
    → (j : ℕ) × ((scan_children n procs pid start children).0 ≡ some j)
      × IsFirstHanging procs pid start j
unfolding scan_children
scan_children-IsFirstHanging zero procs pid start children i a b child hangs = absurd (omega arith)
scan_children-IsFirstHanging (suc n) procs pid start children i a b child hangs =
    elim (Bool-cases (hanging_child procs pid start)) [
      | inl here ↦
          let (is_child, hanging) = and-true _ _ here in
          rw here (
            start,
            refl,
            record {
              child = (==_iff _ _).0 is_child;
              hangs = hanging;
              from = omega arith;
              first = λ m p q. absurd (omega arith);
            },
          )
      | inr not_here ↦
          let other : start ≢ i = (λ e.
            let found : hanging_child procs pid i ≡ true = ground (arith, child, hangs) in
            let clash : true ≡ false = sym (ap (hanging_child procs pid) e ∙ found) ∙ not_here in
            cc) in
          let (j, run, f) =
            scan_children-IsFirstHanging n procs pid (start + 1)
              (if (procs start).p_parent == pid then children + 1 else children) i (omega arith)
              (omega arith) child hangs in
          rw (not_here, run)
            (
              j,
              refl,
              record {
                child = f.child;
                hangs = f.hangs;
                from = omega (arith, f.from);
                first = λ m p q. elim (Bool-cases (m == start)) [
                  | inl same ↦ ap (hanging_child procs pid) ((==_iff m start).0 same) ∙ not_here
                  | inr later ↦ f.first m (ground arith) q
                ];
              },
            )
    ]

scan_children-none :
    (n : ℕ) (procs : ℕ → Process) (pid start children : ℕ)
    → ((m : ℕ) → start ≤ m → m < start + n → hanging_child procs pid m ≡ false)
    → (scan_children n procs pid start children).0 ≡ none
unfolding scan_children
scan_children-none zero procs pid start children none_hangs = refl
scan_children-none (suc n) procs pid start children none_hangs =
    rw (none_hangs start (omega arith) (omega arith)) (
      scan_children-none n procs pid (start + 1) _
        (λ m p q. none_hangs m (omega arith) (omega arith)))

-- The loop counts up.
scan_children-le :
    (n : ℕ) (procs : ℕ → Process) (pid start children : ℕ)
    → children ≤ (scan_children n procs pid start children).1
unfolding scan_children
scan_children-le zero procs pid start children = omega arith
scan_children-le (suc n) procs pid start children =
    let ih =
      scan_children-le n procs pid (start + 1)
        (if (procs start).p_parent == pid then children + 1 else children) in
    ground (arith, ih)

-- A child counts.
scan_children-pos :
    (n : ℕ) (procs : ℕ → Process) (pid start children i : ℕ)
    → start ≤ i
    → i < start + n
    → (procs i).p_parent ≡ pid
    → 0 < (scan_children n procs pid start children).1
unfolding scan_children
scan_children-pos zero procs pid start children i a b child = absurd (omega arith)
scan_children-pos (suc n) procs pid start children i a b child = elim (Bool-cases (start == i)) [
  | inl same ↦
      let here : ((procs start).p_parent == pid) ≡ true =
        ap (λ m. (procs m).p_parent == pid) ((==_iff start i).0 same) ∙ (==_iff _ _).1 child in
      let rest = scan_children-le n procs pid (start + 1) (children + 1) in
      rw here (ground (arith, rest))
  | inr other ↦
      let rest =
        scan_children-pos n procs pid (start + 1)
          (if (procs start).p_parent == pid then children + 1 else children) i (ground arith)
          (omega arith) child in
      ground (arith, rest)
]

answer_wait-cleanup :
    (t : Table) (pid j : ℕ) (found : Option ℕ × ℕ)
    → found.0 ≡ some j
    → answer_wait pid found t ≡ cleanup j t
unfolding answer_wait
answer_wait-cleanup t pid j (some i, children) e =
    let same : i ≡ j = cc in ap (λ m. cleanup m t) same
answer_wait-cleanup t pid j (none, children) e = cc

-- `do_wait` with a child that hangs: the first such child is told of to the waiting process, with
-- its status, and its slot is free.
pub do_wait-cleanup :
    (t : Table) (pid i : ℕ)
    → i < nr_slots
    → (t.procs i).p_parent ≡ pid
    → only_hanging (t.procs i).flags ≡ true
    → (j : ℕ) × IsFirstHanging (t.procs) pid 0 j × (do_wait pid t ≡ cleanup j t)
unfolding do_wait
do_wait-cleanup t pid i h child hangs =
    let (j, run, f) =
      scan_children-IsFirstHanging nr_slots (t.procs) pid 0 0 i (omega arith) (omega arith) child
        hangs in
    (j, f, answer_wait-cleanup t pid j (scan_children nr_slots (t.procs) pid 0 0) run)

answer_wait-waits :
    (t : Table) (pid : ℕ) (found : Option ℕ × ℕ)
    → found.0 ≡ none
    → 0 < found.1
    → answer_wait pid found t ≡ ok (put_process pid (set_waiting true (t.procs pid)) t)
unfolding answer_wait
answer_wait-waits t pid (some i, children) e pos = cc
answer_wait-waits t pid (none, zero) e pos = absurd (omega arith)
answer_wait-waits t pid (none, suc n) e pos = refl

-- A process with children none of which hangs with no other flag set waits, and is told nothing.
pub do_wait-waits :
    (t : Table) (pid i : ℕ)
    → i < nr_slots
    → (t.procs i).p_parent ≡ pid
    → ((m : ℕ) → m < nr_slots → hanging_child (t.procs) pid m ≡ false)
    → do_wait pid t ≡ ok (put_process pid (set_waiting true (t.procs pid)) t)
unfolding do_wait
do_wait-waits t pid i h child none_hangs =
    answer_wait-waits t pid (scan_children nr_slots (t.procs) pid 0 0)
      (scan_children-none nr_slots (t.procs) pid 0 0 (λ m p q. none_hangs m (omega arith)))
      (scan_children-pos nr_slots (t.procs) pid 0 0 i (omega arith) (omega arith) child)
