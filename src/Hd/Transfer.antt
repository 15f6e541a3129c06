-- ===== src/Hd/Transfer.antt =====
-- The loop of `hd_rdwt` against a drive that answers as the ATA commands say.
use lwos.Common.{
  ℕ, zero, suc, ◌+◌, ◌-◌, ◌*◌, ◌/◌, ◌%◌, ◌≤◌, ◌<◌, min, ◌≡◌, refl, ◌∙◌, ap, true, false, ◌&&◌, [],
  ◌∷◌, ◌++◌, ltb, leb, ◌==◌, if◌then◌else◌, arith, Bool-cases, inl, inr,
}
use lwos.Fault.{ok}
use lwos.Fs.{phys_copy, sector_size}
use lwos.Tty.{bytes}
use lwos.Hd.{HdCmd, Controller, data_out, Hd, Request, ata_read, transfer}
use lwos.Hd.Lba.{lba, drive_of, is_lba_mode}

-- A sector count of 0 asks for 256 sectors.
abbrev pub sectors : HdCmd → ℕ
sectors cmd = if cmd.count == 0 then 256 else cmd.count

-- A drive with these bytes, as the ATA standard describes READ SECTORS in LBA mode; it is always ready
-- in time.
pub record IsDrive (disk : ℕ → ℕ) (c : Controller) : Type 0 where
  pub idle : (cmd : HdCmd) → c.is_idle cmd ≡ true
  pub wants : (cmd : HdCmd) (k : ℕ) → c.wants_data cmd k ≡ true
  pub reads :
      (cmd : HdCmd) (k i : ℕ)
      → cmd.command ≡ ata_read
      → is_lba_mode cmd ≡ true
      → drive_of cmd ≡ 0
      → k < sectors cmd
      → i < sector_size
      → c.answer cmd k i ≡ disk ((lba cmd + k) * sector_size + i)

-- Memory after the sectors from `k` on were copied to an address.
abbrev pub copied : Controller → HdCmd → (k left la : ℕ) → (ℕ → ℕ) → ℕ → ℕ
copied c cmd k left la mem at =
    if leb la at && ltb at (la + left)
    then c.answer cmd (k + (at - la) / sector_size) ((at - la) % sector_size)
    else mem at

module _ (c : Controller) (r : Request) (cmd : HdCmd) where
  copied-suc :
      (k left la : ℕ) (mem : ℕ → ℕ) (at : ℕ)
      → copied c cmd
          (k + 1)
          (left - sector_size)
          (la + sector_size)
          (phys_copy mem la (c.answer cmd k) 0 (min sector_size left))
          at
        ≡ copied c cmd k left la mem at
  copied-suc k left la mem at = elim (Bool-cases (leb (la + sector_size) at)) [
    | inl later ↦
        let sector : k + 1 + (at - (la + sector_size)) / sector_size ≡ k + (at - la) / sector_size =
          ground arith in
        let byte : (at - (la + sector_size)) % sector_size ≡ (at - la) % sector_size =
          ground arith in
        rw (sector, byte) (ground arith)
    | inr now ↦ elim (Bool-cases (leb la at)) [
      | inl inside ↦
          let sector : k + (at - la) / sector_size ≡ k = ground arith in
          let byte : (at - la) % sector_size ≡ 0 + (at - la) = ground arith in
          rw (now, inside, sector, byte) (ground arith)
      | inr before ↦ rw (now, before) refl
    ]
  ]

  after_read : (k left la : ℕ) → Hd → Hd
  after_read k left la hd = record hd {
    mem = phys_copy hd.mem la (c.answer cmd k) 0 (min sector_size left);
  }

  unfoldable pub after_write : (left la : ℕ) → Hd → Hd
  after_write left la hd = record hd {
    out = hd.out ++ (data_out (bytes hd.mem la (min sector_size left)) ∷ []);
  }

  pub transfer-done : (fuel k la : ℕ) (hd : Hd) → transfer c (suc fuel) r cmd k 0 la hd ≡ ok hd
  unfolding transfer
  transfer-done fuel k la hd = refl

  read_step :
      (fuel k left la : ℕ) (hd : Hd)
      → (left == 0) ≡ false
      → r.reading ≡ true
      → transfer c (suc fuel) r cmd k left la hd
        ≡ transfer c fuel r cmd
            (k + 1)
            (left - sector_size)
            (la + sector_size)
            (after_read k left la hd)
  unfolding transfer after_read
  read_step fuel k left la hd some_left reading = rw (some_left, reading) refl

  pub write_step :
      (fuel k left la : ℕ) (hd : Hd)
      → (left == 0) ≡ false
      → r.reading ≡ false
      → c.wants_data cmd k ≡ true
      → leb sector_size left ≡ true
      → transfer c (suc fuel) r cmd k left la hd
        ≡ transfer c fuel r cmd
            (k + 1)
            (left - sector_size)
            (la + sector_size)
            (after_write left la hd)
  unfolding transfer after_write
  write_step fuel k left la hd some_left writing wants whole =
      rw (some_left, writing, wants, whole) refl

  -- A read copies the answers, sector by sector, and writes nothing else.
  pub transfer-read :
      (fuel k left la : ℕ) (hd : Hd)
      → r.reading ≡ true
      → left ≤ fuel * sector_size
      → (hd' : Hd) × (transfer c (suc fuel) r cmd k left la hd ≡ ok hd')
        × ((at : ℕ) → hd'.mem at ≡ copied c cmd k left la hd.mem at)
        × (hd'.out ≡ hd.out)
  unfolding after_read
  transfer-read zero k left la hd reading enough =
      let none_left : left ≡ 0 = omega arith in
      (
        hd,
        ap (λ n. transfer c 1 r cmd k n la hd) none_left ∙ transfer-done 0 k la hd,
        (λ at. ground arith),
        refl,
      )
  transfer-read (suc fuel) k left la hd reading enough = elim (Bool-cases (left == 0)) [
    | inl none_left ↦
        let zero_left : left ≡ 0 = ground arith in
        (
          hd,
          ap (λ n. transfer c (suc (suc fuel)) r cmd k n la hd) zero_left
              ∙ transfer-done (suc fuel) k la hd,
          (λ at. ground arith),
          refl,
        )
    | inr some_left ↦
        let (hd', run, here, out) =
          transfer-read fuel (k + 1) (left - sector_size) (la + sector_size)
            (after_read k left la hd) reading (omega arith) in
        (
          hd',
          read_step (suc fuel) k left la hd some_left reading ∙ run,
          (λ at. here at ∙ copied-suc k left la hd.mem at),
          out,
        )
  ]
