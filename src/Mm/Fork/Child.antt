-- ===== src/Mm/Fork/Child.antt =====
-- What `do_fork` gives the child.
use lwos.Common.{
  ℕ, zero, suc, ◌+◌, ◌-◌, ◌*◌, ◌^◌, ◌≤◌, ◌<◌, ◌≡◌, ◌≢◌, ◌⊎◌, refl, ◌∙◌, sym, ap, true, false, [],
  ◌∷◌, ◌++◌, ltb, leb, ◌==◌, none, arith, Bool-cases, inl, inr, lt→ltb,
}
use lwos.Common.Int.{negsuc}
use lwos.Fault.{ok, err, assertion, check, ◌>>=◌, ◌>>◌}
use lwos.Protect.{ldt_seg_linear, seg_base, seg_limit}
use lwos.Protect.Laws.{seg_base-init_desc}
use lwos.Proc.{Process, nr_slots, nr_native, update}
use lwos.Mm.{procs_base, proc_image_size_default, alloc_mem, fork_notice, tell}
use lwos.Mm.Fork.{
  only_free, find_free, seg_size, same_segments, World, child_of, copy_up, make_child, start_child,
  do_fork,
}

-- The first free slot is found.
find_free-first :
    (n i c : ℕ) (procs : ℕ → Process)
    → i ≤ c
    → c < i + n
    → only_free (procs c).flags ≡ true
    → ((s : ℕ) → i ≤ s → s < c → only_free (procs s).flags ≡ false)
    → find_free n i procs ≡ c
unfolding find_free
find_free-first zero i c procs lo hi free taken = absurd (omega arith)
find_free-first (suc n) i c procs lo hi free taken = elim (Bool-cases (i == c)) [
  | inl here ↦
      let same : i ≡ c = ground arith in
      let now : only_free (procs i).flags ≡ true = rw same free in rw now same
  | inr later ↦
      let low : i < c = ground arith in
      rw (taken i (omega arith) low) (
        find_free-first n (i + 1) c procs (omega arith) (omega arith) free
          (λ s a b. taken s (omega arith) b))
]

-- A table with no free slot is searched to its end.
find_free-none :
    (n i j : ℕ) (procs : ℕ → Process)
    → i + n ≡ j
    → ((s : ℕ) → i ≤ s → s < j → only_free (procs s).flags ≡ false)
    → find_free n i procs ≡ j
unfolding find_free
find_free-none zero i j procs e taken = omega arith
find_free-none (suc n) i j procs e taken =
    rw (taken i (omega arith) (omega arith))
      (find_free-none n (i + 1) j procs (omega arith) (λ s a b. taken s (omega arith) b))

-- The place of the child's image.
abbrev pub child_base : (c : ℕ) → ℕ
child_base c = procs_base + (c - nr_native) * proc_image_size_default

abbrev pub caller_size : Process → ℕ
caller_size p = seg_size (seg_limit p.ldt_code) p.ldt_code

alloc_mem-child_base :
    (memory_size c size : ℕ)
    → nr_native ≤ c
    → size ≤ proc_image_size_default
    → child_base c + size < memory_size
    → alloc_mem memory_size c size ≡ ok (child_base c)
unfolding alloc_mem
alloc_mem-child_base memory_size c size user small room =
    let a : leb nr_native c ≡ true = ground arith in
    let b : leb size proc_image_size_default ≡ true = ground arith in
    let d : ltb (child_base c + size) memory_size ≡ true = lt→ltb _ memory_size room in
    rw (a, ◌>>=◌, check, b, d) refl

-- Two areas of `n` bytes that do not overlap.
abbrev pub IsApart : (n a b : ℕ) → Type 0
IsApart n a b = (a + n ≤ b) ⊎ (b + n ≤ a)

copy_up-off :
    (n dst src at : ℕ) (mem : ℕ → ℕ)
    → (at < dst) ⊎ (dst + n ≤ at)
    → copy_up n dst src mem at ≡ mem at
unfolding copy_up
copy_up-off zero dst src at mem off = refl
copy_up-off (suc n) dst src at mem off =
    copy_up-off n (dst + 1) (src + 1) at (update mem dst (mem src)) (ground arith) ∙ ground arith

copy_up-on :
    (n dst src x : ℕ) (mem : ℕ → ℕ)
    → IsApart n dst src
    → x < n
    → copy_up n dst src mem (dst + x) ≡ mem (src + x)
unfolding copy_up
copy_up-on zero dst src x mem off h = absurd (omega arith)
copy_up-on (suc n) dst src x mem off h = elim (Bool-cases (x == 0)) [
  | inl first ↦
      let start : x ≡ 0 = ground arith in
      copy_up-off n (dst + 1) (src + 1) (dst + x) (update mem dst (mem src)) (inl (omega arith))
      ∙ ground arith
  | inr later ↦
      let next : 1 + (x - 1) ≡ x = ground arith in
      let rest =
        copy_up-on n (dst + 1) (src + 1) (x - 1) (update mem dst (mem src)) (ground arith)
          (ground arith) in
      let here : dst + 1 + (x - 1) ≡ dst + x = omega arith in
      let there : src + 1 + (x - 1) ≡ src + x = omega arith in
      ap (copy_up n (dst + 1) (src + 1) (update mem dst (mem src))) (sym here)
      ∙ (rest ∙ (ap (update mem dst (mem src)) there ∙ ground arith))
]

-- Slot `c` has a copy of the caller in segments of its own, with a copy of the caller's memory.
pub record IsForked (pid c : ℕ) (w w' : World) : Type 0 where
  pub child : w'.table.procs c ≡ child_of pid (child_base c) (w.table.procs pid)
  pub others : (s : ℕ) → s ≢ c → w'.table.procs s ≡ w.table.procs s
  pub data_base : ldt_seg_linear (w'.table.procs c).ldt_data ≡ child_base c
  pub code_base : ldt_seg_linear (w'.table.procs c).ldt_code ≡ child_base c
  pub image :
      (x : ℕ)
      → x < caller_size (w.table.procs pid)
      → w'.mem (child_base c + x) ≡ w.mem (seg_base (w.table.procs pid).ldt_code + x)
  pub rest :
      (at : ℕ)
      → (at < child_base c) ⊎ (child_base c + caller_size (w.table.procs pid) ≤ at)
      → w'.mem at ≡ w.mem at
  pub told : w'.table.sent ≡ w.table.sent ++ (fork_notice c ∷ [])

make_child-IsForked :
    (memory_size pid c : ℕ) (w : World)
    → let caller : Process = w.table.procs pid in
      nr_native ≤ c
      → c < nr_slots
      → same_segments caller.ldt_code caller.ldt_data ≡ true
      → caller_size caller ≤ proc_image_size_default
      → child_base c + caller_size caller < memory_size
      → IsApart (caller_size caller) (child_base c) (seg_base caller.ldt_code)
      → (w' : World) × (make_child memory_size pid c w ≡ ok w') × IsForked pid c w w'
unfolding make_child
make_child-IsForked memory_size pid c w user inside same small room off =
    let caller : Process = w.table.procs pid in
    let size : ℕ = caller_size caller in
    let an_int : ltb size (2 ^ 31) ≡ true = lt→ltb size (2 ^ 31) (omega arith) in
    let here : update w.table.procs c (child_of pid (child_base c) caller) c
        ≡ child_of pid (child_base c) caller =
      ground arith in
    rw (an_int, ◌>>◌, same, alloc_mem-child_base memory_size c size user small room)
      (
        _,
        refl,
        record {
          child = here;
          others = λ s h. ground arith;
          data_base =
              ap (λ (p : Process). ldt_seg_linear p.ldt_data) here
              ∙ (seg_base-init_desc (child_base c) 255 0xc0f2 (omega arith)).0;
          code_base =
              ap (λ (p : Process). ldt_seg_linear p.ldt_code) here
              ∙ (seg_base-init_desc (child_base c) 255 0xc0f8 (omega arith)).0;
          image = λ x h. copy_up-on size (child_base c) (seg_base caller.ldt_code) x w.mem off h;
          rest = λ at h. copy_up-off size (child_base c) (seg_base caller.ldt_code) at w.mem h;
          told = refl;
        },
      )

-- No process that do_fork makes can be told that it runs.
start_child-assertion : (c : ℕ) (w : World) → nr_native ≤ c → start_child c w ≡ err assertion
unfolding start_child tell
start_child-assertion c w user = let above : ltb c nr_native ≡ false = ground arith in rw above refl

-- A caller whose code and data segments are the same and not above 1 MB, a first free slot that is
-- none of the native ones, room in memory for the image, and no overlap of the image with the
-- caller's: then do_fork makes a child in that slot, up to the message to the file system. The slot
-- has a copy of the caller with new segments, the image there is a copy of the caller's, other slots
-- and the rest of memory stay. But do_fork does not return: telling the child fails an assertion.
pub do_fork-IsForked :
    (memory_size pid c : ℕ) (w : World)
    → let caller : Process = w.table.procs pid in
      nr_native ≤ c
      → c < nr_slots
      → only_free (w.table.procs c).flags ≡ true
      → ((s : ℕ) → s < c → only_free (w.table.procs s).flags ≡ false)
      → same_segments caller.ldt_code caller.ldt_data ≡ true
      → caller_size caller ≤ proc_image_size_default
      → child_base c + caller_size caller < memory_size
      → IsApart (caller_size caller) (child_base c) (seg_base caller.ldt_code)
      → (w' : World) × (make_child memory_size pid (find_free nr_slots 0 w.table.procs) w ≡ ok w')
        × IsForked pid c w w'
        × (do_fork memory_size pid w ≡ err assertion)
unfolding do_fork
do_fork-IsForked memory_size pid c w user inside free taken same small room off =
    let slot : find_free nr_slots 0 w.table.procs ≡ c =
      find_free-first nr_slots 0 c w.table.procs (omega arith) (omega arith) free
        (λ s a b. taken s b) in
    let (w', run, f) = make_child-IsForked memory_size pid c w user inside same small room off in
    let native : leb nr_native c ≡ true = ground arith in
    let some_slot : (c == nr_slots) ≡ false = ground arith in
    rw (slot, native, ◌>>◌, some_slot, run, ◌>>=◌, start_child-assertion c w' user)
      (w', refl, f, refl)

-- With no free slot do_fork returns -1, and changes nothing.
pub do_fork_full :
    (memory_size pid : ℕ) (w : World)
    → ((s : ℕ) → s < nr_slots → only_free (w.table.procs s).flags ≡ false)
    → do_fork memory_size pid w ≡ ok (negsuc 0, none, w)
unfolding do_fork
do_fork_full memory_size pid w taken =
    let end : find_free nr_slots 0 w.table.procs ≡ nr_slots =
      find_free-none nr_slots 0 nr_slots w.table.procs refl (λ s a b. taken s b) in
    rw end refl
