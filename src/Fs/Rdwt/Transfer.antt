-- ===== src/Fs/Rdwt/Transfer.antt =====
-- What the loop of `do_rdwt` moves between the disk and the caller's memory, sector by sector.
use lwos.Common.{
  ℕ, zero, suc, ◌+◌, ◌-◌, ◌*◌, ◌≤◌, ◌<◌, ◌≡◌, refl, sym, min, leb, if◌then◌else◌, arith, ◌⊎◌, subst,
  leb→le, Bool-cases, inl, inr,
}
use lwos.Fault.{ok}
use lwos.Fs.{sector_size, phys_copy, read_sectors, write_sectors}
use lwos.Fs.Rdwt.{Request, State, user_address, pass, pass_loop}

-- A piece, and the next one behind it.
phys_copy-phys_copy :
    (target source : ℕ → ℕ) (dst src n m at : ℕ)
    → phys_copy (phys_copy target dst source src n) (dst + n) source (src + n) m at
      ≡ phys_copy target dst source src (n + m) at
phys_copy-phys_copy target source dst src n m at = ground arith

-- Bytes put into sectors that were read, and the sectors written back.
write_sectors-phys_copy :
    (disk fsbuf mem : ℕ → ℕ) (i chunk off src n at : ℕ)
    → off + n ≤ chunk * sector_size
    → write_sectors disk i chunk (phys_copy (read_sectors disk i chunk fsbuf) off mem src n) at
      ≡ phys_copy disk (i * sector_size + off) mem src n at
write_sectors-phys_copy disk fsbuf mem i chunk off src n at h = ground arith

-- Bytes taken out of sectors that were read.
phys_copy-read_sectors :
    (disk fsbuf mem : ℕ → ℕ) (i chunk off dst n at : ℕ)
    → off + n ≤ chunk * sector_size
    → phys_copy mem dst (read_sectors disk i chunk fsbuf) off n at
      ≡ phys_copy mem dst disk (i * sector_size + off) n at
phys_copy-read_sectors disk fsbuf mem i chunk off dst n at h = ground arith

-- The bytes after a move of `n` bytes between disk address `la` and the caller's memory.
abbrev pub disk_after : Request → State → (la n at : ℕ) → ℕ
disk_after r s la n at =
    if r.writing then phys_copy s.disk la s.mem (user_address r s.bytes_rw) n at else s.disk at

abbrev pub mem_after : Request → State → (la n at : ℕ) → ℕ
mem_after r s la n at =
    if r.writing then s.mem at else phys_copy s.mem (user_address r s.bytes_rw) s.disk la n at

-- `n` bytes were moved.
pub record Moved (r : Request) (la n : ℕ) (s s' : State) : Type 0 where
  pub counted : s'.bytes_rw ≡ s.bytes_rw + n
  pub advanced : s'.fd_pos ≡ s.fd_pos + n
  pub on_disk : (at : ℕ) → s'.disk at ≡ disk_after r s la n at
  pub in_mem : (at : ℕ) → s'.mem at ≡ mem_after r s la n at

pass-Moved :
    (r : Request) (chunk i : ℕ) (s : State)
    → s.off ≤ chunk * sector_size
    → Moved r
        (i * sector_size + s.off)
        (min (s.bytes_left) (chunk * sector_size - s.off))
        s
        (pass r chunk i s)
unfolding pass
pass-Moved r chunk i s h = elim (Bool-cases (r.writing)) [
  | inl writes ↦ record {
    counted = refl;
    advanced = refl;
    on_disk = λ at. rw writes (
        write_sectors-phys_copy (s.disk) (s.fsbuf) (s.mem) i chunk (s.off)
          (user_address r (s.bytes_rw)) (min (s.bytes_left) (chunk * sector_size - s.off)) at
          (omega arith));
    in_mem = λ at. rw writes refl;
  }
  | inr reads ↦ record {
    counted = refl;
    advanced = refl;
    on_disk = λ at. rw reads refl;
    in_mem = λ at. rw reads (
        phys_copy-read_sectors (s.disk) (s.fsbuf) (s.mem) i chunk (s.off)
          (user_address r (s.bytes_rw)) (min (s.bytes_left) (chunk * sector_size - s.off)) at
          (omega arith));
  }
]

Moved-trans :
    (r : Request) (la n m : ℕ) (s s' s'' : State)
    → Moved r la n s s'
    → Moved r (la + n) m s' s''
    → Moved r la (n + m) s s''
Moved-trans r la n m s s' s'' a b = record {
  counted = omega (arith, a.counted, b.counted);
  advanced = omega (arith, a.advanced, b.advanced);
  on_disk = λ at. ground (
    arith,
    a.on_disk at,
    b.on_disk at,
    a.counted,
    a.in_mem (user_address r (s'.bytes_rw) + (at - (la + n))),
  );
  in_mem = λ at. ground (
    arith,
    a.in_mem at,
    b.in_mem at,
    a.counted,
    a.on_disk (la + n + (at - user_address r (s'.bytes_rw))),
  );
}

Moved-refl : (r : Request) (la : ℕ) (s : State) → Moved r la 0 s s
Moved-refl r la s = record {
  counted = omega arith;
  advanced = omega arith;
  on_disk = λ at. ground arith;
  in_mem = λ at. ground arith;
}

-- Where a move of nothing starts does not matter.
Moved-elsewhere :
    (r : Request) (la la' n : ℕ) (s s' : State)
    → (n ≡ 0) ⊎ (la ≡ la')
    → Moved r la n s s'
    → Moved r la' n s s'
Moved-elsewhere r la la' n s s' h a = record {
  counted = a.counted;
  advanced = a.advanced;
  on_disk = λ at. elim h [
    | inl nothing ↦ ground (arith, a.on_disk at)
    | inr same ↦ rw (← same) (a.on_disk at)
  ];
  in_mem = λ at. elim h [
    | inl nothing ↦ ground (arith, a.in_mem at)
    | inr same ↦ rw (← same) (a.in_mem at)
  ];
}

pass_left :
    (r : Request) (chunk i : ℕ) (s : State)
    → ((pass r chunk i s).off ≡ 0)
      × ((pass r chunk i s).bytes_left
          ≡ s.bytes_left - min (s.bytes_left) (chunk * sector_size - s.off))
unfolding pass
pass_left r chunk i s = (refl, refl)

-- The two ways a piece can end: with the request, or with the sectors that were read.
piece_cases :
    (left chunk i off : ℕ)
    → off < sector_size
    → 0 < chunk
    → (left - min left (chunk * sector_size - off) ≡ 0)
      ⊎ ((i + chunk) * sector_size ≡ i * sector_size + off + min left (chunk * sector_size - off))
piece_cases left chunk i off h pos = elim (Bool-cases (leb left (chunk * sector_size - off))) [
  | inl fits ↦ inl (ground arith)
  | inr more ↦ inr (ground arith)
]

-- The loop moves all that is left, if the sectors up to the last one reach that far.
pub pass_loop-Moved :
    (fuel : ℕ) (r : Request) (chunk last i : ℕ) (s : State)
    → 0 < chunk
    → s.off < sector_size
    → s.bytes_left ≤ (last + 1) * sector_size - (i * sector_size + s.off)
    → last + 1 - i < fuel
    → (s' : State) × (pass_loop fuel r chunk last i s ≡ ok s')
      × Moved r (i * sector_size + s.off) (s.bytes_left) s s'
unfolding pass_loop
pass_loop-Moved zero r chunk last i s pos off reach enough = absurd (omega arith)
pass_loop-Moved (suc fuel) r chunk last i s pos off reach enough =
    let n : ℕ = min (s.bytes_left) (chunk * sector_size - s.off) in
    let s1 : State = pass r chunk i s in
    let (at_start, less) = pass_left r chunk i s in
    let first : Moved r (i * sector_size + s.off) n s s1 = pass-Moved r chunk i s (omega arith) in
    elim (Bool-cases (leb i last)) [
      | inl more ↦
          let (s', run, others) =
            pass_loop-Moved fuel r chunk last (i + chunk) s1 pos (omega (arith, at_start))
              (omega (arith, at_start, less)) (omega (arith, leb→le i last more)) in
          let where_next : (s1.bytes_left ≡ 0)
              ⊎ ((i + chunk) * sector_size + s1.off ≡ i * sector_size + s.off + n) =
            elim (piece_cases (s.bytes_left) chunk i (s.off) off pos) [
              | inl nothing ↦ inl (omega (arith, less, nothing))
              | inr same ↦ inr (omega (arith, at_start, same))
            ] in
          let next : Moved r (i * sector_size + s.off + n) (s1.bytes_left) s1 s' =
            Moved-elsewhere r ((i + chunk) * sector_size + s1.off) (i * sector_size + s.off + n)
              (s1.bytes_left) s1 s' where_next others in
          let all : n + s1.bytes_left ≡ s.bytes_left = omega (arith, less) in
          rw (more, run)
            (
              s',
              refl,
              subst (λ m. Moved r (i * sector_size + s.off) m s s') all
                  (Moved-trans r (i * sector_size + s.off) n (s1.bytes_left) s s1 s' first next),
            )
      | inr done ↦
          let nothing : s.bytes_left ≡ 0 = ground arith in
          rw done (
            s,
            refl,
            subst (λ m. Moved r (i * sector_size + s.off) m s s) (sym nothing)
                (Moved-refl r (i * sector_size + s.off) s),
          )
    ]
