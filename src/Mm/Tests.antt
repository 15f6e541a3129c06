-- ===== src/Mm/Tests.antt =====
-- A small family of processes.
use lwos.Common.{
  ◌+◌, ◌≤◌, ◌<◌, ◌≡◌, ◌≢◌, ◌⊎◌, inl, refl, true, false, none, [], ◌∷◌, ◌==◌, if◌then◌else◌, arith,
}
use lwos.Common.Int.{pos}
use lwos.Fault.{ok, err, assertion}
use lwos.Protect.{Descriptor}
use lwos.Proc.{Process, flags, no_task}
use lwos.Mm.{
  Table, exit_notice, child_done, alloc_mem, do_exit, leave, cleanup, tell, set_waiting,
  put_process,
}
use lwos.Mm.Alloc.{alloc_mem-apart}
use lwos.Mm.Leave.{CanTell}
use lwos.Mm.Life.{do_exit_no_orphans, do_exit-told}

alloc_mem-apart_example :
    ((0xa00000 + 0x100000 ≤ 0xb00000) ⊎ (0xb00000 + 0x80000 ≤ 0xa00000))
    × (0xa00000 ≤ 0xa00000)
    × (0xa00000 + 0x100000 < 0x2000000)
unfolding alloc_mem
alloc_mem-apart_example =
    alloc_mem-apart 0x2000000 9 10 0x100000 0x80000 0xa00000 0xb00000
      (λ e. absurd (omega (arith, e))) refl refl

abbrev flat : Descriptor
flat = record {
  limit_low = 0;
  base_low = 0;
  base_mid = 0;
  attr1 = 0;
  limit_high_attr2 = 0;
  base_high = 0;
}

-- A child of `INIT` at rest.
abbrev resting : Process
resting = record {
  ldt_code = flat;
  ldt_data = flat;
  ticks = 3;
  priority = 20;
  flags = flags false false false false false;
  msg = 0;
  recvfrom = no_task;
  sendto = no_task;
  has_int_msg = false;
  sending_queue = none;
  next_sending = none;
  filp = λ i. none;
  p_parent = 5;
  exit_status = pos 0;
}

-- `INIT` is the parent of process 9, and that the parent of process 10, which waits for the answer of
-- the task.
abbrev family : Table
family = record {
  procs = λ i.
      if i == 10
      then record resting { p_parent = 9; flags = flags false true false false false }
      else resting;
  sent = [];
}

abbrev waiting_family : Table
waiting_family = put_process 5 (set_waiting true (family.procs 5)) family

init-CanTell : CanTell 5
init-CanTell = record { native = omega arith; not_self = λ e. absurd (omega (arith, e)) }

do_exit_no_orphans_example :
    (t' : Table) × (do_exit 9 (pos 0) family ≡ ok t') × ((t'.procs 10).p_parent ≢ 9)
do_exit_no_orphans_example =
    do_exit_no_orphans 9 (pos 0) family 10 (λ e. absurd (omega (arith, e)))
      (λ e. absurd (omega (arith, e))) init-CanTell (inl refl) (omega arith)

-- Process 9 cannot be told.
forked_parent :
    do_exit 10 (pos 7) (put_process 9 (set_waiting true (family.procs 9)) family) ≡ err assertion
unfolding do_exit leave cleanup tell
forked_parent = refl

do_exit-told_example :
    (t' : Table) × (do_exit 9 (pos 7) waiting_family ≡ ok t')
    × (t'.sent ≡ exit_notice 9 ∷ child_done 5 9 (pos 7) ∷ [])
    × ((t'.procs 9).flags ≡ flags false false false false true)
    × ((t'.procs 5).flags.waiting ≡ false)
do_exit-told_example =
    do_exit-told 9 (pos 7) waiting_family (λ e. absurd (omega (arith, e))) init-CanTell refl
      (inl refl) (λ e. absurd (omega (arith, e)))
