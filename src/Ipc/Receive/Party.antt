-- ===== src/Ipc/Receive/Party.antt =====
-- Whom `sys_sendrec` lets a process talk to.
use lwos.Common.{ℕ, ◌≤◌, ◌≡◌, refl, false, ◌==◌, arith, Bool-cases, inl, inr}
use lwos.Common.Int.{pos}
use lwos.Fault.{err, assertion}
use lwos.Proc.{Kernel, nr_native, nr_slots}
use lwos.Ipc.Receive.{is_party, sys_sendrec}

forked_party : (i : ℕ) → nr_native ≤ i → i ≤ nr_slots → is_party (pos i) ≡ false
forked_party i low high = ground arith

-- Whatever a process asks for, with a process that `do_fork` made as the other party, the kernel
-- stops by an assertion.
pub sys_sendrec_forked :
    (function i msg caller : ℕ) (k : Kernel)
    → nr_native ≤ i
    → i ≤ nr_slots
    → sys_sendrec function (pos i) msg caller k ≡ err assertion
unfolding sys_sendrec
sys_sendrec_forked function i msg caller k low high = elim (Bool-cases (k.k_reenter == 0)) [
  | inl outermost ↦ rw (outermost, forked_party i low high) refl
  | inr nested ↦ rw nested refl
]
