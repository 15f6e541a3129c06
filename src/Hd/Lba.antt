-- ===== src/Hd/Lba.antt =====
-- The sector number in the registers of a command.
use lwos.Common.{
  ℕ, ◌+◌, ◌*◌, ◌/◌, ◌%◌, ◌^◌, ◌<◌, ◌≡◌, refl, ◌∙◌, ap, Bool, true, ◌&&◌, bit_and, ◌==◌, arith,
  ==_iff, and-true, Bool-cases, inl, inr,
}
use lwos.Common.Bits.{and_0xf, and_0xff, passes_below, passes_below-lt}
use lwos.Hd.{HdCmd, make_device_reg, sector_cmd}

-- The number that a drive takes from the registers in LBA mode, 28 bits.
abbrev pub lba : HdCmd → ℕ
lba cmd = cmd.lba_low + cmd.lba_mid * 2 ^ 8 + cmd.lba_high * 2 ^ 16 + cmd.device % 16 * 2 ^ 24

-- Bit 6 of the device register.
abbrev pub is_lba_mode : HdCmd → Bool
is_lba_mode cmd = cmd.device / 64 % 2 == 1

-- Bit 4 of the device register.
abbrev pub drive_of : HdCmd → ℕ
drive_of cmd = cmd.device / 16 % 2

abbrev device_check : ℕ → ℕ → Bool
device_check drive h =
    (make_device_reg 1 drive h % 16 == h)
    && ((make_device_reg 1 drive h / 64 % 2 == 1) && (make_device_reg 1 drive h / 16 % 2 == drive))

first_table : passes_below (λ h. device_check 0 h) 16 ≡ true
unfolding passes_below make_device_reg
first_table = refl

second_table : passes_below (λ h. device_check 1 h) 16 ≡ true
unfolding passes_below make_device_reg
second_table = refl

device_check-holds : (drive h : ℕ) → drive < 2 → h < 16 → device_check drive h ≡ true
device_check-holds drive h small low = elim (Bool-cases (drive == 0)) [
  | inl zero ↦
      ap (λ d. device_check d h) {x = drive} {y = 0} (ground arith)
      ∙ passes_below-lt (λ n. device_check 0 n) 16 first_table low
  | inr one ↦
      ap (λ d. device_check d h) {x = drive} {y = 1} (ground arith)
      ∙ passes_below-lt (λ n. device_check 1 n) 16 second_table low
]

-- The registers of a command for a sector below 2^28 on one of two drives give back the sector and
-- the drive, in LBA mode.
pub lba-sector_cmd :
    (drive sect_nr count command : ℕ)
    → drive < 2
    → sect_nr < 2 ^ 28
    → (lba (sector_cmd drive sect_nr count command) ≡ sect_nr)
      × (drive_of (sector_cmd drive sect_nr count command) ≡ drive)
      × (is_lba_mode (sector_cmd drive sect_nr count command) ≡ true)
unfolding sector_cmd
lba-sector_cmd drive sect_nr count command small low =
    let top : ℕ = bit_and (sect_nr / 2 ^ 24) 0xf in
    let top_eq : top ≡ sect_nr / 2 ^ 24 = omega (arith, and_0xf (sect_nr / 2 ^ 24)) in
    let (nibble, modes) =
      and-true (make_device_reg 1 drive top % 16 == top) _
        (device_check-holds drive top small (omega arith)) in
    let (mode, number) = and-true (make_device_reg 1 drive top / 64 % 2 == 1) _ modes in
    let low4 : make_device_reg 1 drive top % 16 ≡ top = (==_iff _ _).0 nibble in
    (
      omega (
        arith,
        low4,
        top_eq,
        and_0xff sect_nr,
        and_0xff (sect_nr / 2 ^ 8),
        and_0xff (sect_nr / 2 ^ 16),
      ),
      (==_iff _ _).0 number,
      mode,
    )
