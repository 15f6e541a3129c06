-- ===== src/Hd/Partition/Chain.antt =====
-- The logical partitions of an extended one: a chain of tables on the disk.
use lwos.Common.{
  ℕ, zero, suc, ◌+◌, ◌-◌, ◌*◌, ◌%◌, ◌^◌, ◌≤◌, ◌≡◌, ◌≢◌, refl, ◌∙◌, ap, true, false, ◌&&◌, length,
  get_or, ltb, leb, ◌==◌, if◌then◌else◌, arith, Bool-cases, inl, inr, List, [], ◌∷◌, ◌++◌,
}
use lwos.Fault.{ok, check, ◌>>=◌, ◌>>◌}
use lwos.Proc.{update}
use lwos.Hd.{
  HdCmd, Controller, issue, PartInfo, Hd, ata_read, sector_cmd, drv_of_dev, nr_sub_per_part,
  nr_prim_per_drive, hd_cmd_out,
}
use lwos.Hd.Partition.{
  PartEnt, part_ent_at, partition_table_offset, no_part, get_part_table, extended_loop,
  partition_extended,
}

module _ (c : Controller) (drive : ℕ) where
  -- Entry `i` of the table in a sector.
  abbrev pub entry : ℕ → ℕ → PartEnt
  entry sect_nr i =
      part_ent_at (c.answer (sector_cmd drive sect_nr 1 ata_read) 0)
        (partition_table_offset + i * 16)

  -- The sector of the table that follows the one in `s`.
  abbrev pub next_table : (start s : ℕ) → ℕ
  next_table start s = (start + (entry s 1).start_sect) % 2 ^ 32

  -- The tables of an extended partition, from the one in `s` on: all but the last lead to another.
  pub data Chain (start : ℕ) : ℕ → List ℕ → Type 0 where
    last : {s : ℕ} → (entry s 1).sys_id ≡ no_part → Chain start s (s ∷ [])
    link :
        {s : ℕ} {more : List ℕ}
        → (entry s 1).sys_id ≢ no_part
        → Chain start (next_table start s) more
        → Chain start s (s ∷ more)

  -- The logical partition that a table describes.
  abbrev pub logical_at : ℕ → PartInfo
  logical_at s = record {
    base = (s + (entry s 0).start_sect) % 2 ^ 32;
    size = (entry s 0).nr_sects;
  }

  -- The logical partitions of a list of tables, from a place on.
  abbrev placed : (at : ℕ) → List ℕ → (ℕ → PartInfo) → ℕ → PartInfo
  placed at [] logical = logical
  placed at (s ∷ tables) logical = placed (at + 1) tables (update logical at (logical_at s))

  placed_at :
      (at : ℕ) (tables : List ℕ) (logical : ℕ → PartInfo) (m : ℕ)
      → placed at tables logical m ≡ (
          if leb at m && ltb m (at + length tables)
          then logical_at (get_or tables (m - at) 0)
          else logical m)
  placed_at at [] logical m = ground arith
  placed_at at (s ∷ tables) logical m =
      placed_at (at + 1) tables (update logical at (logical_at s)) m ∙ elim (Bool-cases (m == at)) [
        | inl here ↦ let first : m - at ≡ 0 = ground arith in rw first (ground arith)
        | inr elsewhere ↦ elim (Bool-cases (leb (at + 1) m)) [
          | inl later ↦
              let next : m - at ≡ suc (m - (at + 1)) = ground arith in rw next (ground arith)
          | inr before ↦ ground arith
        ]
      ]

  read_table : ℕ → Hd → Hd
  read_table s hd = record hd { out = hd.out ++ (issue (sector_cmd drive s 1 ata_read) ∷ []) }

  with_logical : (nr_1st_sub i s : ℕ) → Hd → Hd
  with_logical nr_1st_sub i s hd = record (read_table s hd) {
    logical = update (read_table s hd).logical (nr_1st_sub + i) (logical_at s);
  }

  module _ (idle : (cmd : HdCmd) → c.is_idle cmd ≡ true) where
    table-ok :
        (s : ℕ) (hd : Hd) → get_part_table c drive s hd ≡ ok ((λ i. entry s i), read_table s hd)
    unfolding get_part_table hd_cmd_out read_table
    table-ok s hd = rw (idle (sector_cmd drive s 1 ata_read), check, ◌>>=◌) refl

    loop_last :
        (n start first i s : ℕ) (hd : Hd)
        → (entry s 1).sys_id ≡ no_part
        → extended_loop c (suc n) drive start first i s hd ≡ ok (with_logical first i s hd)
    unfolding extended_loop with_logical
    loop_last n start first i s hd at_end =
        let stop : ((entry s 1).sys_id == no_part) ≡ true = ground arith in
        rw (table-ok s hd, ◌>>=◌, stop) refl

    loop_link :
        (n start first i s : ℕ) (hd : Hd)
        → (entry s 1).sys_id ≢ no_part
        → extended_loop c (suc n) drive start first i s hd
          ≡ extended_loop c n drive start first
              (i + 1)
              (next_table start s)
              (with_logical first i s hd)
    unfolding extended_loop with_logical
    loop_link n start first i s hd leads =
        let goes : ((entry s 1).sys_id == no_part) ≡ false = ground arith in
        rw (table-ok s hd, ◌>>=◌, goes) refl

    loop_chain :
        (tables : List ℕ) (n start first i s : ℕ) (hd : Hd)
        → Chain start s tables
        → length tables ≤ n
        → (hd' : Hd) × (extended_loop c n drive start first i s hd ≡ ok hd')
          × (hd'.logical ≡ placed (first + i) tables hd.logical)
          × (hd'.primary ≡ hd.primary)
          × (hd'.mem ≡ hd.mem)
    unfolding read_table with_logical
    loop_chain tables zero start first i s hd (last at_end) enough = absurd (omega arith)
    loop_chain tables zero start first i s hd (link leads more) enough = absurd (omega arith)
    loop_chain tables (suc n) start first i s hd (last at_end) enough =
        (with_logical first i s hd, loop_last n start first i s hd at_end, refl, refl, refl)
    loop_chain tables (suc n) start first i s hd (link {more = more} leads chain) enough =
        let (hd', run, logical, primary, mem) =
          loop_chain more n start first (i + 1) (next_table start s) (with_logical first i s hd)
            chain (omega arith) in
        (
          hd',
          loop_link n start first i s hd leads ∙ run,
          logical
              ∙ ap (λ at. placed at more (update hd.logical (first + i) (logical_at s)))
                  {x = first + (i + 1)} {y = first + i + 1} (omega arith),
          primary,
          mem,
        )

-- A device of the first drive that is an extended partition with a chain of at most 16 tables, on a
-- controller that gets ready: partition comes to its end, logical partition number k of those that belong to the device is
-- the one that table k describes, from the sector of the table on, and all other logical partitions,
-- the primary ones and memory are as they were.
pub partition_extended-logical :
    (c : Controller) (device : ℕ) (hd : Hd) (tables : List ℕ)
    → ((cmd : HdCmd) → c.is_idle cmd ≡ true)
    → drv_of_dev device ≡ 0
    → device % nr_prim_per_drive ≢ 0
    → Chain c
        (drv_of_dev device)
        (hd.primary (device % nr_prim_per_drive)).base
        (hd.primary (device % nr_prim_per_drive)).base
        tables
    → length tables ≤ nr_sub_per_part
    → (hd' : Hd) × (partition_extended c device hd ≡ ok hd')
      × ((m : ℕ)
          → let first : ℕ = (device % nr_prim_per_drive - 1) * nr_sub_per_part in
            hd'.logical m ≡ (
              if leb first m && ltb m (first + length tables)
              then logical_at c (drv_of_dev device) (get_or tables (m - first) 0)
              else hd.logical m))
      × (hd'.primary ≡ hd.primary)
      × (hd'.mem ≡ hd.mem)
unfolding partition_extended
partition_extended-logical c device hd tables idle first_drive inner chain short =
    let j : ℕ = device % nr_prim_per_drive in
    let first : ℕ = (j - 1) * nr_sub_per_part in
    let known : (drv_of_dev device == 0) ≡ true = ground arith in
    let some_part : (j == 0) ≡ false = ground arith in
    let (hd', run, logical, primary, mem) =
      loop_chain c (drv_of_dev device) idle tables nr_sub_per_part (hd.primary j).base first 0
        (hd.primary j).base hd chain short in
    rw (known, some_part, check, ◌>>◌, ◌>>=◌)
      (
        hd',
        run,
        λ m.
            ap (λ l. l m) logical
            ∙ (ap (λ at. placed c (drv_of_dev device) at tables hd.logical m) {x = first + 0}
                  {y = first} (omega arith)
                ∙ placed_at c (drv_of_dev device) first tables hd.logical m),
        primary,
        mem,
      )
