-- ===== src/Mm/Alloc.antt =====
-- The memory that `alloc_mem` gives to processes.
use lwos.Common.{
  ℕ, ◌+◌, ◌-◌, ◌*◌, ◌≤◌, ◌<◌, ◌≡◌, ◌≢◌, sym, ◌⊎◌, inl, inr, ltb, arith, subst, Bool-cases, ltb→lt,
  leb→le,
}
use lwos.Fault.{ok, ok-injective, check-eq-ok}
use lwos.Proc.{nr_native}
use lwos.Mm.{alloc_mem, procs_base, proc_image_size_default}

-- What a successful allocation has checked, and what it returns.
record IsGiven (memory_size pid memsize base : ℕ) : Type 0 where
  at : base ≡ procs_base + (pid - nr_native) * proc_image_size_default
  user : nr_native ≤ pid
  small : memsize ≤ proc_image_size_default
  inside : base + memsize < memory_size

alloc_mem-IsGiven :
    (memory_size pid memsize base : ℕ)
    → alloc_mem memory_size pid memsize ≡ ok base
    → IsGiven memory_size pid memsize base
unfolding alloc_mem
alloc_mem-IsGiven memory_size pid memsize base h =
    let (user, h1) = check-eq-ok _ _ _ h in
    let (small, h2) = check-eq-ok _ _ _ h1 in
    let (inside, h3) = check-eq-ok _ _ _ h2 in
    let at = ok-injective h3 in
    record {
      at = sym at;
      user = leb→le nr_native pid user;
      small = leb→le memsize proc_image_size_default small;
      inside = subst (λ b. b + memsize < memory_size) at (ltb→lt _ memory_size inside);
    }

-- Two processes never get the same byte, and all memory given lies above the kernel and inside the
-- machine's memory.
pub alloc_mem-apart :
    (memory_size pid pid' memsize memsize' base base' : ℕ)
    → pid ≢ pid'
    → alloc_mem memory_size pid memsize ≡ ok base
    → alloc_mem memory_size pid' memsize' ≡ ok base'
    → ((base + memsize ≤ base') ⊎ (base' + memsize' ≤ base))
      × (procs_base ≤ base)
      × (base + memsize < memory_size)
alloc_mem-apart memory_size pid pid' memsize memsize' base base' other run run' =
    let g = alloc_mem-IsGiven memory_size pid memsize base run in
    let g' = alloc_mem-IsGiven memory_size pid' memsize' base' run' in
    (
      elim (Bool-cases (ltb pid pid')) [
        | inl before ↦
            inl (omega (arith, ltb→lt pid pid' before, g.at, g'.at, g.user, g'.user, g.small))
        | inr behind ↦ inr (ground (arith, g.at, g'.at, g.user, g'.user, g'.small))
      ],
      omega (arith, g.at),
      g.inside,
    )
