-- ===== src/Mm/Fork/Tests.antt =====
-- INIT forks.
use lwos.Common.{ℕ, ◌≡◌, refl, true, false, none, inr, [], ltb, if◌then◌else◌, arith}
use lwos.Common.Int.{pos, negsuc}
use lwos.Fault.{ok, err, assertion}
use lwos.Protect.{init_desc, seg_base, seg_limit}
use lwos.Proc.{Process, flags, no_task, nr_slots}
use lwos.Mm.Fork.{seg_size, same_segments, World, find_free, make_child, do_fork, unknown, task_mm}
use lwos.Mm.Fork.Child.{caller_size, IsForked, do_fork-IsForked, do_fork_full}

-- Segments from 0 that cover 0x60 pages.
abbrev init_process : Process
init_process = record {
  ldt_code = init_desc 0 0x5f 0xc0f8;
  ldt_data = init_desc 0 0x5f 0xc0f2;
  ticks = 3;
  priority = 25;
  flags = flags false true false false false;
  msg = 0x8000;
  recvfrom = pos 4;
  sendto = no_task;
  has_int_msg = false;
  sending_queue = none;
  next_sending = none;
  filp = λ i. none;
  p_parent = 57;
  exit_status = pos 0;
}

abbrev free_process : Process
free_process = record init_process { flags = flags false false false false true }

-- The first `n` slots are taken.
abbrev world : ℕ → World
world n = record {
  table = record { procs = λ i. if ltb i n then init_process else free_process; sent = [] };
  mem = λ at. at;
}

same : same_segments init_process.ldt_code init_process.ldt_data ≡ true
unfolding seg_base seg_limit seg_size init_desc
same = refl

base : seg_base init_process.ldt_code ≡ 0
unfolding seg_base init_desc
base = refl

size : caller_size init_process ≡ 0x60000
unfolding seg_size seg_limit init_desc
size = refl

unknown_run : task_mm 0x2000000 7 unknown (world 9) ≡ err assertion
unfolding task_mm
unknown_run = refl

do_fork-IsForked_example :
    (w' : World) × (make_child 0x2000000 5 (find_free nr_slots 0 (world 11).table.procs) (world 11)
      ≡ ok w')
    × IsForked 5 11 (world 11) w'
    × (do_fork 0x2000000 5 (world 11) ≡ err assertion)
do_fork-IsForked_example =
    do_fork-IsForked 0x2000000 5 11 (world 11) (omega arith) (omega arith) refl
      (λ s h. ground arith) same (omega (arith, size)) (omega (arith, size))
      (inr (omega (arith, size, base)))

do_fork_full_example : do_fork 0x2000000 5 (world 37) ≡ ok (negsuc 0, none, world 37)
do_fork_full_example = do_fork_full 0x2000000 5 (world 37) (λ s h. ground arith)
