-- ===== src/Start/Elf/Bounds.antt =====
-- The map covers the sections that are loaded, and no more.
use lwos.Common.{
  ℕ, zero, suc, ◌+◌, ◌-◌, ◌^◌, ◌≤◌, ◌<◌, ◌≡◌, refl, ◌∙◌, sym, ap, true, some, ltb, ◌==◌,
  if◌then◌else◌, arith, Bool-cases, inl, inr, lt→ltb,
}
use lwos.Fault.{ok, ◌>>=◌, ◌>>◌}
use lwos.Start.Elf.{Section, Elf, boot_param_magic, get_boot_params, top, map_loop, get_kernel_map}

-- The lowest address and the highest end of the loaded sections among those from `i` on.
record IsHull (header : ℕ → Section) (i j b0 t0 b t : ℕ) : Type 0 where
  below : b ≤ b0
  above : t0 ≤ t
  covers :
      (k : ℕ)
      → i ≤ k
      → k < j
      → (header k).is_alloc ≡ true
      → (b ≤ (header k).sh_addr) × (top (header k) ≤ t)

map_loop-IsHull :
    (n i j : ℕ) (header : ℕ → Section) (b t : ℕ)
    → i + n ≡ j
    → let out = map_loop n i header b t in IsHull header i j b t out.0 out.1
unfolding map_loop
map_loop-IsHull zero i j header b t e = record {
  below = omega arith;
  above = omega arith;
  covers = λ k lo hi alloc. absurd (omega arith);
}
map_loop-IsHull (suc n) i j header b t e =
    let h : Section = header i in
    let b' : ℕ = if h.is_alloc then (if ltb h.sh_addr b then h.sh_addr else b) else b in
    let t' : ℕ = if h.is_alloc then (if ltb t (top h) then top h else t) else t in
    let rest = map_loop-IsHull n (i + 1) j header b' t' (omega arith) in
    let step_b : b' ≤ b = ground arith in
    let step_t : t ≤ t' = ground arith in
    record {
      below = omega (arith, rest.below);
      above = omega (arith, rest.above);
      covers = λ k lo hi alloc. elim (Bool-cases (k == i)) [
        | inl here ↦
            let same : k ≡ i = ground arith in
            let alloc' : h.is_alloc ≡ true =
              ap (λ (c : ℕ). (header c).is_alloc) (sym same) ∙ alloc in
            let low : b' ≤ h.sh_addr = ground arith in
            let high : top h ≤ t' = ground arith in
            rw same (omega (arith, rest.below), omega (arith, rest.above))
        | inr later ↦ rest.covers k (ground arith) hi alloc
      ];
    }

-- With the boot parameters in place, an ELF file, and at least one loaded section that has a size and
-- ends below 2^32, get_kernel_map finds a range that every loaded section starts in, or behind its
-- start, and ends in, ends counted modulo 2^32.
pub get_kernel_map_covers :
    (boot : ℕ → ℕ) (files : ℕ → Elf) (k : ℕ)
    → let elf : Elf = files (boot 2) in
      let header : (ℕ → Section) = elf.section_header in
      boot 0 ≡ boot_param_magic
      → elf.has_magic ≡ true
      → k < elf.e_shnum
      → (header k).is_alloc ≡ true
      → 0 < (header k).sh_size
      → (header k).sh_addr + (header k).sh_size < 2 ^ 32
      → (b : ℕ) × (l : ℕ) × (get_kernel_map boot files ≡ ok (some (b, l)))
        × ((s : ℕ)
            → s < elf.e_shnum
            → (header s).is_alloc ≡ true
            → (b ≤ (header s).sh_addr) × (top (header s) ≤ b + l + 1))
unfolding get_kernel_map get_boot_params
get_kernel_map_covers boot files k magic elf_magic inside alloc size fits =
    let elf : Elf = files (boot 2) in
    let header : (ℕ → Section) = elf.section_header in
    let (b, t) = map_loop elf.e_shnum 0 header (2 ^ 32 - 1) 0 in
    let hull = map_loop-IsHull elf.e_shnum 0 elf.e_shnum header (2 ^ 32 - 1) 0 (omega arith) in
    let (low, high) = hull.covers k (omega arith) inside alloc in
    let apart : b < t = omega (arith, low, high) in
    let boot_magic : (boot 0 == boot_param_magic) ≡ true = ground arith in
    let some_bytes : ltb b t ≡ true = lt→ltb b t apart in
    rw (boot_magic, ◌>>=◌, elf_magic, some_bytes, ◌>>◌)
      (
        b,
        t - b - 1,
        refl,
        λ s h a. let (lo, hi) = hull.covers s (omega arith) h a in (lo, omega (arith, hi, apart)),
      )
