-- ===== src/Clock.antt =====
-- kernel/clock.c: the handler of the clock's interrupt.
pub mod Quantum
mod Tests
use lwos.Common.{ℕ, zero, suc, ◌+◌, ◌-◌, Bool, true, false, not, ltb, leb, ◌==◌, if◌then◌else◌}
use lwos.Fault.{Result, ok, err, ◌>>=◌}
use lwos.Proc.{Process, Kernel, put_proc}
use lwos.Ipc.{schedule}
use lwos.Ipc.Receive.{inform_init}

abbrev pub max_ticks : ℕ
max_ticks = 0x7fffabcd

-- The handler up to `if (key_pressed)`: the time goes on, and the running process has used a tick.
pub count_tick : Kernel → Kernel
count_tick k =
    let k1 : Kernel = record k { ticks = if leb max_ticks (k.ticks + 1) then 0 else k.ticks + 1 } in
    let p : Process = k1.procs k1.ready in
    if p.ticks == 0 then k1 else put_proc k1.ready (record p { ticks = p.ticks - 1 }) k1

pub clock_handler : Kernel → Result Kernel
clock_handler k = do
  let k1 = count_tick k
  k2 ← if k1.key_pressed then inform_init 0 k1 else ok k1
  if not (k2.k_reenter == 0)
      then ok k2
      else (if ltb 0 (k2.procs k2.ready).ticks then ok k2 else schedule k2)
