-- ===== src/Fs/Rdwt/Whole.antt =====
-- `do_rdwt` as a whole on files: the reply, the file's position and size, the disk and memory.
use lwos.Common.{
  ℕ, ◌+◌, ◌-◌, ◌*◌, ◌/◌, ◌%◌, ◌≤◌, ◌<◌, ◌≡◌, ◌≢◌, refl, ◌∙◌, ap, true, false, min, max, ltb, leb,
  ◌==◌, arith, Bool-cases, inl, inr, ◌⊎◌, subst, bit_and, ◌||◌,
}
use lwos.Fault.{ok, check, ◌>>=◌}
use lwos.Fs.{
  SuperBlock, Inode, sector_size, max_transfer, fsbuf_sectors, sync_inode, inode_sector, i_regular,
  i_directory, o_rdwr,
}
use lwos.Fs.Rdwt.{
  Request, State, Files, returned, rw_sect_min, rw_sect_max, start, settle, rdwt_file, do_rdwt,
}
use lwos.Fs.Rdwt.Transfer.{Moved, disk_after, mem_after, pass_loop-Moved}

sync_inode-elsewhere :
    (sb : SuperBlock) (p : Inode) (disk fsbuf : ℕ → ℕ) (at : ℕ)
    → at / sector_size ≢ inode_sector sb (p.i_num)
    → (sync_inode sb p disk fsbuf).0 at ≡ disk at
unfolding sync_inode
sync_inode-elsewhere sb p disk fsbuf at h = ground arith

-- The outcome of a transfer of all the bytes of the request.
pub record Transferred (r : Request) (f f' : Files) : Type 0 where
  pub kept : (f'.sb ≡ f.sb) × (f'.pin ≡ record (f.pin) { i_size = f'.pin.i_size })
  pub mode : f'.desc.fd_mode ≡ f.desc.fd_mode
  pub advanced : f'.desc.fd_pos ≡ f.desc.fd_pos + r.cnt
  pub size : f'.pin.i_size ≡ max (f.pin.i_size) (f.desc.fd_pos + r.cnt)
  pub in_mem :
      (at : ℕ)
      → f'.mem at
        ≡ mem_after r (start r f) (f.pin.i_start_sect * sector_size + f.desc.fd_pos) (r.cnt) at
  pub on_disk :
      (at : ℕ)
      → at / sector_size ≢ inode_sector (f.sb) (f.pin.i_num)
      → f'.disk at
        ≡ disk_after r (start r f) (f.pin.i_start_sect * sector_size + f.desc.fd_pos) (r.cnt) at

settle-Transferred :
    (r : Request) (f : Files) (s' : State)
    → Moved r (f.pin.i_start_sect * sector_size + f.desc.fd_pos) (r.cnt) (start r f) s'
    → ((settle f s').0 ≡ returned (r.cnt)) × Transferred r f ((settle f s').1)
unfolding settle
settle-Transferred r f s' m = elim (Bool-cases (ltb (f.pin.i_size) (s'.fd_pos))) [
  | inl grown ↦ rw grown (
    ap returned (omega (arith, m.counted)),
    record {
      kept = (refl, refl);
      mode = refl;
      advanced = m.advanced;
      size = ground (arith, m.advanced);
      in_mem = m.in_mem;
      on_disk = λ at h.
          sync_inode-elsewhere (f.sb) (record (f.pin) { i_size = s'.fd_pos }) (s'.disk) (s'.fsbuf)
            at h
          ∙ m.on_disk at;
    },
  )
  | inr not_grown ↦ rw not_grown (
    ap returned (omega (arith, m.counted)),
    record {
      kept = (refl, refl);
      mode = refl;
      advanced = m.advanced;
      size = ground (arith, m.advanced);
      in_mem = m.in_mem;
      on_disk = λ at h. m.on_disk at;
    },
  )
]

-- A regular file or a directory that is open for reading and writing.
pub record IsOpenFile (f : Files) : Type 0 where
  pub for_both : (bit_and (f.desc.fd_mode) o_rdwr == 0) ≡ false
  pub kind : (f.pin.i_mode ≡ i_regular) ⊎ (f.pin.i_mode ≡ i_directory)

do_rdwt-rdwt_file : (r : Request) (f : Files) → IsOpenFile f → do_rdwt r f ≡ rdwt_file r f
unfolding do_rdwt
do_rdwt-rdwt_file r f o = elim o.kind [
  | inl regular ↦ rw (o.for_both, regular) refl
  | inr directory ↦ rw (o.for_both, directory) refl
]

is_file :
    (mode : ℕ)
    → (mode ≡ i_regular) ⊎ (mode ≡ i_directory)
    → ((mode == i_regular) || (mode == i_directory)) ≡ true
is_file mode h = ground arith

-- A request that does not reach beyond the last sector that the loop visits, and for which these are
-- 256 sectors at most, is transferred.
pub do_rdwt-Transferred :
    (r : Request) (f : Files)
    → IsOpenFile f
    → rw_sect_min (f.pin) (f.desc.fd_pos) ≤ rw_sect_max (f.pin) r (f.desc.fd_pos)
    → f.pin.i_start_sect * sector_size + f.desc.fd_pos + r.cnt
      ≤ (rw_sect_max (f.pin) r (f.desc.fd_pos) + 1) * sector_size
    → rw_sect_max (f.pin) r (f.desc.fd_pos) < rw_sect_min (f.pin) (f.desc.fd_pos) + max_transfer
    → (f' : Files) × (do_rdwt r f ≡ ok (returned (r.cnt), f')) × Transferred r f f'
unfolding rdwt_file
do_rdwt-Transferred r f o forward reach short =
    let first : ℕ = rw_sect_min (f.pin) (f.desc.fd_pos) in
    let last : ℕ = rw_sect_max (f.pin) r (f.desc.fd_pos) in
    let chunk : ℕ = min (last + 1 - first) fsbuf_sectors in
    let (s', run, m) =
      pass_loop-Moved (last + 1 - first + 1) r chunk last first (start r f) (omega arith)
        (omega arith) (omega arith) (omega arith) in
    let driven : leb chunk max_transfer ≡ true = ground arith in
    let at : first * sector_size + f.desc.fd_pos % sector_size
        ≡ f.pin.i_start_sect * sector_size + f.desc.fd_pos =
      omega arith in
    let (answer, t) =
      settle-Transferred r f s' (subst (λ la. Moved r la (r.cnt) (start r f) s') at m) in
    (
      (settle f s').1,
      do_rdwt-rdwt_file r f o
          ∙ (rw (is_file (f.pin.i_mode) o.kind, check, driven, run, ◌>>=◌) refl
              ∙ ap (λ reply. ok (reply, (settle f s').1)) answer),
      t,
    )

-- A read of an open file that starts inside it and runs past its end, though not past the last
-- sector of it, and that touches at most 256 sectors, is not cut short: it returns all that it was asked for, and the file's size has
-- grown to where it ended.
pub do_rdwt-read_past_end :
    (r : Request) (f : Files)
    → r.writing ≡ false
    → IsOpenFile f
    → f.desc.fd_pos ≤ f.pin.i_size
    → f.pin.i_size < f.desc.fd_pos + r.cnt
    → f.desc.fd_pos + r.cnt ≤ (f.pin.i_size / sector_size + 1) * sector_size
    → (f.desc.fd_pos + r.cnt) / sector_size < f.desc.fd_pos / sector_size + max_transfer
    → (f' : Files) × (do_rdwt r f ≡ ok (returned (r.cnt), f'))
      × (f'.pin.i_size ≡ f.desc.fd_pos + r.cnt)
do_rdwt-read_past_end r f reads o inside past near short =
    let (f', run, t) =
      do_rdwt-Transferred r f o (ground (arith, reads)) (ground (arith, reads))
        (ground (arith, reads)) in
    (f', run, omega (arith, t.size))
