-- ===== src/Hd/Whole.antt =====
-- `hd_rdwt` as a whole: what is read and what is written.
use lwos.Common.{
  ℕ, suc, ◌+◌, ◌-◌, ◌*◌, ◌/◌, ◌%◌, ◌^◌, ◌≤◌, ◌<◌, ◌≡◌, refl, ◌∙◌, ap, true, ◌&&◌, List, [], ◌∷◌,
  ◌++◌, bit_and, ltb, leb, ◌==◌, if◌then◌else◌, arith, Bool-cases, inl, inr,
}
use lwos.Common.Bits.{and_0x1ff}
use lwos.Fault.{Result, ok, check, ◌>>=◌, ◌>>◌}
use lwos.Fs.{sector_size}
use lwos.Tty.{bytes}
use lwos.Hd.{
  HdCmd, Controller, Output, issue, data_out, PartInfo, Hd, Request, ata_read, ata_write,
  sector_cmd, part_of, drv_of_dev, hd_cmd_out, transfer, hd_rdwt,
}
use lwos.Hd.Lba.{lba, drive_of, is_lba_mode, lba-sector_cmd}
use lwos.Hd.Transfer.{sectors, IsDrive, transfer-read}

-- The bytes that a list of outputs carries.
abbrev pub payload : List Output → List ℕ
payload [] = []
payload (issue cmd ∷ out) = payload out
payload (data_out sector ∷ out) = sector ++ payload out

-- The output of a write, behind what there was.
record IsSent (c : Controller) (run : Result Hd) (left la : ℕ) (hd : Hd) : Type 0 where
  after : Hd
  ends : run ≡ ok after
  more : List Output
  out : after.out ≡ hd.out ++ more
  sent : payload more ≡ bytes hd.mem la left
  mem : after.mem ≡ hd.mem

-- A sector of a partition, and whether a request for it reaches the drive as it is meant.
pub record IsRequest (r : Request) (hd : Hd) (part : PartInfo) : Type 0 where
  pub known : part_of r.device hd ≡ ok part
  pub first_drive : drv_of_dev r.device ≡ 0
  pub aligned : r.position % sector_size ≡ 0
  pub low : r.position / sector_size + part.base < 2 ^ 28
  pub short : r.cnt ≤ 256 * sector_size

-- The command of a request.
abbrev cmd_of : Request → PartInfo → HdCmd
cmd_of r part =
    sector_cmd (drv_of_dev r.device) ((r.position / sector_size + part.base) % 2 ^ 32)
      ((r.cnt + sector_size - 1) / sector_size) (if r.reading then ata_read else ata_write)

hd_rdwt-transfer :
    (c : Controller) (disk : ℕ → ℕ) (r : Request) (hd : Hd) (part : PartInfo)
    → IsDrive disk c
    → IsRequest r hd part
    → hd_rdwt c r hd
      ≡ transfer c
          ((r.cnt + sector_size - 1) / sector_size + 1)
          r
          (cmd_of r part)
          0
          r.cnt
          r.la
          (record hd { out = hd.out ++ (issue (cmd_of r part) ∷ []) })
unfolding hd_rdwt hd_cmd_out
hd_rdwt-transfer c disk r hd part drive q =
    let below : ltb (r.position / sector_size) (2 ^ 64 - 2 ^ 31) ≡ true = ground (arith, q.low) in
    let whole : (bit_and r.position 0x1ff == 0) ≡ true =
      ground (arith, q.aligned, and_0x1ff r.position) in
    let idle : c.is_idle (cmd_of r part) ≡ true = drive.idle (cmd_of r part) in
    rw (below, whole, q.known, check, ◌>>=◌, ◌>>◌, idle) refl

cmd_of-lba :
    (r : Request) (hd : Hd) (part : PartInfo)
    → IsRequest r hd part
    → (lba (cmd_of r part) ≡ r.position / sector_size + part.base)
      × (drive_of (cmd_of r part) ≡ 0)
      × (is_lba_mode (cmd_of r part) ≡ true)
cmd_of-lba r hd part q =
    let (sector, drive, mode) =
      lba-sector_cmd (drv_of_dev r.device) ((r.position / sector_size + part.base) % 2 ^ 32)
        ((r.cnt + sector_size - 1) / sector_size) (if r.reading then ata_read else ata_write)
        (omega (arith, q.first_drive)) (omega (arith, q.low)) in
    (sector ∙ omega (arith, q.low), drive ∙ q.first_drive, mode)

cmd_of-sectors :
    (r : Request) (part : PartInfo) (i : ℕ)
    → r.cnt ≤ 256 * sector_size
    → i < r.cnt
    → i / sector_size < sectors (cmd_of r part)
unfolding sector_cmd
cmd_of-sectors r part i short inside = ground arith

cmd_of-command :
    (r : Request) (part : PartInfo)
    → (cmd_of r part).command ≡ (if r.reading then ata_read else ata_write)
unfolding sector_cmd
cmd_of-command r part = refl

-- A read of up to 256 sectors, at a sector boundary of a partition of the first drive whose sectors
-- have numbers of 28 bits, with a drive that answers as the ATA standard says: it comes to its end,
-- the buffer holds the bytes of the partition from the position on, and no other memory is changed.
pub hd_rdwt-read :
    (c : Controller) (disk : ℕ → ℕ) (r : Request) (hd : Hd) (part : PartInfo)
    → IsDrive disk c
    → IsRequest r hd part
    → r.reading ≡ true
    → (hd' : Hd) × (hd_rdwt c r hd ≡ ok hd')
      × ((at : ℕ)
          → hd'.mem at ≡ (
              if leb r.la at && ltb at (r.la + r.cnt)
              then disk (r.position + part.base * sector_size + (at - r.la))
              else hd.mem at))
hd_rdwt-read c disk r hd part drive q reading =
    let cmd = cmd_of r part in
    let (hd', run, here, _) =
      transfer-read c r cmd ((r.cnt + sector_size - 1) / sector_size) 0 r.cnt r.la
        (record hd { out = hd.out ++ (issue cmd ∷ []) }) reading (omega arith) in
    let run' =
      ap (λ n. transfer c n r cmd 0 r.cnt r.la (record hd { out = hd.out ++ (issue cmd ∷ []) }))
        {x = (r.cnt + sector_size - 1) / sector_size + 1}
        {y = suc ((r.cnt + sector_size - 1) / sector_size)} (omega arith) in
    let (sector, first, mode) = cmd_of-lba r hd part q in
    let is_read : cmd.command ≡ ata_read =
      cmd_of-command r part ∙ ap (λ b. if b then ata_read else ata_write) reading in
    (
      hd',
      hd_rdwt-transfer c disk r hd part drive q ∙ (run' ∙ run),
      λ at. here at ∙ elim (Bool-cases (leb r.la at && ltb at (r.la + r.cnt))) [
        | inr outside ↦ rw outside refl
        | inl inside ↦
            let byte : ℕ = at - r.la in
            let in_time = cmd_of-sectors r part byte (q.short) (ground (arith, inside)) in
            let answered =
              drive.reads cmd (0 + byte / sector_size) (byte % sector_size) is_read mode first
                (omega (arith, in_time)) (omega arith) in
            rw inside (answered ∙ ap disk (omega (arith, sector, q.aligned)))
      ],
    )
