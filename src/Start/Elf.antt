-- ===== src/Start/Elf.antt =====
-- lib/klib.c: `get_kernel_map`, the addresses that the kernel's image takes up.
--
-- `elf_header` and its sections are of the system's elf.h: the model has the fields that are read.
pub mod Bounds
use lwos.Common.{
  ℕ, zero, suc, ◌+◌, ◌-◌, ◌*◌, ◌%◌, ◌^◌, Bool, Option, none, some, ltb, ◌==◌, if◌then◌else◌,
}
use lwos.Fault.{Result, ok, assertion, check, ◌>>=◌, ◌>>◌}

-- `sh_flags & SHF_ALLOC`, `sh_addr` and `sh_size`.
pub record Section : Type 0 where
  pub is_alloc : Bool
  pub sh_addr : ℕ
  pub sh_size : ℕ

-- `e_ident` starts with `ELFMAG`; `e_shnum`; the section headers.
pub record Elf : Type 0 where
  pub has_magic : Bool
  pub e_shnum : ℕ
  pub section_header : ℕ → Section

-- `struct boot_params`.
pub record BootParams : Type 0 where
  pub mem_size : ℕ
  pub kernel_file : ℕ

-- `BOOT_PARAM_MAGIC`.
abbrev pub boot_param_magic : ℕ
boot_param_magic = 0xb007

-- `get_boot_params`, from the ints at `BOOT_PARAM_ADDR`.
unfoldable pub get_boot_params : (p : ℕ → ℕ) → Result BootParams
get_boot_params p = do
  check (p 0 == boot_param_magic) assertion
  ok (record { mem_size = p 1; kernel_file = p 2 })

-- `section_header->sh_addr + section_header->sh_size`, an int that is compared as unsigned.
abbrev pub top : Section → ℕ
top h = (h.sh_addr + h.sh_size) % 2 ^ 32

-- The loop over `n` sections from `i` on: `*b` and `t`.
unfoldable pub map_loop : (n i : ℕ) → (ℕ → Section) → (b t : ℕ) → ℕ × ℕ
map_loop zero i header b t = (b, t)
map_loop (suc n) i header b t =
    let h : Section = header i in
    map_loop n (i + 1) header (if h.is_alloc then (if ltb h.sh_addr b then h.sh_addr else b) else b)
      (if h.is_alloc then (if ltb t (top h) then top h else t) else t)

-- What follows the loop.
abbrev pub end_map : ℕ × ℕ → Result (Option (ℕ × ℕ))
end_map (b, t) = check (ltb b t) assertion >> ok (some (b, t - b - 1))

-- `get_kernel_map`: `*b` and `*l`, or `none` for -1. `files` reads the file at an address.
unfoldable pub get_kernel_map : (boot : ℕ → ℕ) → (files : ℕ → Elf) → Result (Option (ℕ × ℕ))
get_kernel_map boot files = get_boot_params boot >>= λ bp.
    let elf : Elf = files bp.kernel_file in
    if elf.has_magic
    then end_map (map_loop elf.e_shnum 0 elf.section_header (2 ^ 32 - 1) 0)
    else ok none
