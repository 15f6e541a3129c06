-- ===== src/Fs/Smap/Sector.antt =====
-- The bytes of one sector of the map.
use lwos.Common.{
  ℕ, zero, suc, ◌+◌, ◌-◌, ◌*◌, ◌≤◌, ◌<◌, ◌≡◌, refl, ◌∙◌, ap, ltb, ◌==◌, arith, Bool-cases, inl, inr,
}
use lwos.Fault.{Result, ok, ◌>>=◌}
use lwos.Fs.{SuperBlock, sector_size}
use lwos.Fs.Imap.{bit}
use lwos.Fs.Smap.{Run, smap_bytes}
use lwos.Fs.Smap.Bytes.{with_run, left_at, sect_at, IsFree, Holds, run_at, Run_eq, smap_byte-IsDone}

-- The bytes of sector `i` of the map from `j` on have their new bits.
pub record IsSector (first total sect i j : ℕ) (old fsbuf : ℕ → ℕ) (out : Result Run) : Type 0 where
  pub fsbuf' : ℕ → ℕ
  pub result : out ≡ ok (run_at first total sect ((i + 1) * 4096) fsbuf')
  pub before : (x : ℕ) → x < j → fsbuf' x ≡ fsbuf x
  pub small : (x : ℕ) → x < sector_size → fsbuf' x < 256
  pub holds :
      (x : ℕ)
      → j ≤ x
      → x < sector_size
      → Holds fsbuf' x ((i * sector_size + x) * 8) (with_run first total old)

pub smap_bytes-IsSector :
    (n i j p : ℕ) (sb : SuperBlock) (first total sect : ℕ) (old fsbuf : ℕ → ℕ)
    → j + n ≡ sector_size
    → p ≡ (i * sector_size + j) * 8
    → sect ≡ first + sb.n_1st_sect - 1
    → 0 < sect
    → 0 < total
    → IsFree first total old
    → ((x : ℕ) → x < sector_size → fsbuf x < 256)
    → ((x : ℕ) → j ≤ x → x < sector_size → Holds fsbuf x ((i * sector_size + x) * 8) old)
    → IsSector first total sect i j old fsbuf
        (smap_bytes sb n i j (run_at first total sect p fsbuf))
unfolding smap_bytes
smap_bytes-IsSector zero i j p sb first total sect old fsbuf e at name named some run small holds =
    let same : p ≡ (i + 1) * 4096 = omega arith in
    record {
      fsbuf' = fsbuf;
      result = ap (λ (q : ℕ). ok (run_at first total sect q fsbuf)) same;
      before = λ x h. refl;
      small = small;
      holds = λ x a b. absurd (omega arith);
    }
smap_bytes-IsSector (suc n) i j p sb first total sect old fsbuf e at name named some run small
      holds =
    let end : ℕ = (i + 1) * 4096 in
    let close : p ≤ end = omega arith in
    elim (Bool-cases (ltb 0 (left_at first total p))) [
      | inl some_left ↦
          let d =
            smap_byte-IsDone sb first total i j p sect old fsbuf at name named some
              (small j (omega arith)) (ground arith) run
              (rw at (holds j (omega arith) (omega arith))) in
          let rest =
            smap_bytes-IsSector n i (j + 1) (p + 8) sb first total sect old d.fsbuf' (omega arith)
              (omega arith) name named some run
              (λ x h. elim (Bool-cases (x == j)) [
                | inl here ↦ let same : x ≡ j = ground arith in rw same d.small
                | inr other ↦ rw (d.others x (ground arith)) (small x h)
              ])
              (λ x a b m h.
                ap (λ (v : ℕ). bit v m) (d.others x (omega arith)) ∙ holds x (omega arith) b m h) in
          rw (some_left, d.result, ◌>>=◌)
            (record {
              fsbuf' = rest.fsbuf';
              result = rest.result;
              before = λ x h. rest.before x (omega arith) ∙ d.others x (omega arith);
              small = rest.small;
              holds = λ x a b. elim (Bool-cases (x == j)) [
                | inl here ↦
                    let same : x ≡ j = ground arith in
                    rw same (λ m h.
                      ap (λ (v : ℕ). bit v m) (rest.before j (omega arith))
                      ∙ (d.holds m h ∙ ap (λ (q : ℕ). with_run first total old (q + m)) at))
                | inr other ↦ rest.holds x (ground arith) b
              ];
            })
      | inr none_left ↦
          let l : left_at first total p ≡ left_at first total end = ground (arith, close) in
          let s : sect_at sect first p ≡ sect_at sect first end = ground (arith, close) in
          rw none_left (record {
            fsbuf' = fsbuf;
            result = ap ok (
                Run_eq (left_at first total p) (left_at first total end) (sect_at sect first p)
                  (sect_at sect first end) fsbuf l s);
            before = λ x h. refl;
            small = small;
            holds = λ x a b m h. holds x a b m h ∙ ground (arith, none_left, at);
          })
    ]
