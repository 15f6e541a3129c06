-- ===== src/Fs/Inodes/Cache.antt =====
-- The table of inodes as a cache: no inode is in two slots, and `get_inode` keeps it so.
use lwos.Common.{
  ℕ, ◌+◌, ◌<◌, ◌≡◌, ◌≢◌, ◌⊎◌, refl, ◌∙◌, sym, ap, false, none, some, ◌==◌, arith, Bool-cases, inl,
  inr, subst,
}
use lwos.Fault.{ok, ◌>>=◌}
use lwos.Proc.{update}
use lwos.Fs.{Inode, SuperBlock, read_sectors, inode_sector}
use lwos.Fs.Inodes.{Store, Slot, cached, spare, find_slot, take_slot, get_inode, nr_inode, loaded}
use lwos.Fs.Inodes.Search.{Holds, IsOutcome, find_slot-IsOutcome}

-- No inode is in two slots.
abbrev pub IsCache : (ℕ → Inode) → Type 0
IsCache table =
    (p q num : ℕ) → p < nr_inode → q < nr_inode → Holds table p num → Holds table q num → p ≡ q

-- The table after `get_inode`: slot `p` has the inode with one reference more, and is the slot that
-- had it, or was free; no inode is in two slots, and the other slots are as they were.
pub record IsGotten (num p : ℕ) (before after : ℕ → Inode) : Type 0 where
  pub inside : p < nr_inode
  pub number : (after p).i_num ≡ num
  pub references :
      (Holds before p num × ((after p).i_cnt ≡ (before p).i_cnt + 1))
      ⊎ (((before p).i_cnt ≡ 0)
          × ((after p).i_cnt ≡ 1)
          × ((m : ℕ) → m < nr_inode → Holds before m num → ⊥))
  pub cache : IsCache after
  pub others : (m : ℕ) → m ≢ p → after m ≡ before m

update_elsewhere :
    (table : ℕ → Inode) (p : ℕ) (inode : Inode) (m : ℕ) → m ≢ p → update table p inode m ≡ table m
update_elsewhere table p inode m other = ground arith

update_here : (table : ℕ → Inode) (p : ℕ) (inode : Inode) → update table p inode p ≡ inode
update_here table p inode = ground arith

-- The slot that an inode is read into: no other slot held it.
fill-IsCache :
    (table : ℕ → Inode) (i num : ℕ) (inode : Inode)
    → IsCache table
    → inode.i_num ≡ num
    → ((m : ℕ) → m < nr_inode → Holds table m num → ⊥)
    → IsCache (update table i inode)
fill-IsCache table i num inode cache number absent p q n hp hq (p_used, p_num) (q_used, q_num) =
    elim (Bool-cases (p == i)) [
      | inl p_here ↦ elim (Bool-cases (q == i)) [
        | inl q_here ↦ ground arith
        | inr q_there ↦
            let at_q = update_elsewhere table i inode q (ground arith) in
            let now_p : update table i inode p ≡ inode =
              ap (update table i inode) {x = p} {y = i} (ground arith)
              ∙ update_here table i inode in
            let same : n ≡ num = sym p_num ∙ (ap (λ (x : Inode). x.i_num) now_p ∙ number) in
            absurd (
              absent q hq (
                subst (λ (x : Inode). 0 < x.i_cnt) at_q q_used,
                sym (ap (λ (x : Inode). x.i_num) at_q) ∙ (q_num ∙ same),
              ))
      ]
      | inr p_there ↦
          let at_p = update_elsewhere table i inode p (ground arith) in
          let old_p : Holds table p n = (
            subst (λ (x : Inode). 0 < x.i_cnt) at_p p_used,
            sym (ap (λ (x : Inode). x.i_num) at_p) ∙ p_num,
          ) in
          elim (Bool-cases (q == i)) [
            | inl q_here ↦
                let now_q : update table i inode q ≡ inode =
                  ap (update table i inode) {x = q} {y = i} (ground arith)
                  ∙ update_here table i inode in
                let same : n ≡ num = sym q_num ∙ (ap (λ (x : Inode). x.i_num) now_q ∙ number) in
                absurd (absent p hp (old_p.0, old_p.1 ∙ same))
            | inr q_there ↦
                let at_q = update_elsewhere table i inode q (ground arith) in
                cache p q n hp hq old_p (
                  subst (λ (x : Inode). 0 < x.i_cnt) at_q q_used,
                  sym (ap (λ (x : Inode). x.i_num) at_q) ∙ q_num,
                )
          ]
    ]

-- One reference more to an inode that has some.
abbrev referenced : (ℕ → Inode) → ℕ → Inode
referenced table p = record (table p) { i_cnt = (table p).i_cnt + 1 }

referenced-Holds :
    (table : ℕ → Inode) (p m num : ℕ)
    → 0 < (table p).i_cnt
    → Holds (update table p (referenced table p)) m num
    → Holds table m num
referenced-Holds table p m num some_left (used, number) = elim (Bool-cases (m == p)) [
  | inl here ↦
      let at : m ≡ p = ground arith in
      let now : update table p (referenced table p) m ≡ referenced table p =
        ap (update table p (referenced table p)) at ∙ update_here table p (referenced table p) in
      subst (λ k. Holds table k num) (sym at)
        (some_left, sym (ap (λ (x : Inode). x.i_num) now) ∙ number)
  | inr there ↦
      let at = update_elsewhere table p (referenced table p) m (ground arith) in
      (subst (λ (x : Inode). 0 < x.i_cnt) at used, sym (ap (λ (x : Inode). x.i_num) at) ∙ number)
]

take_slot-IsGotten :
    (sb : SuperBlock) (num : ℕ) (slot : Slot) (s : Store)
    → IsCache s.inode_table
    → IsOutcome s.inode_table nr_inode 0 num none slot
    → (free : ℕ) → free < nr_inode
    → (s.inode_table free).i_cnt ≡ 0
    → (p : ℕ) × (s' : Store) × (take_slot sb num slot s ≡ ok (p, s'))
      × IsGotten num p s.inode_table s'.inode_table
      × (s'.disk ≡ s.disk)
unfolding take_slot loaded
take_slot-IsGotten sb num (cached p) s cache (from, to, holds) free low unused =
    let now = update_here s.inode_table p (referenced s.inode_table p) in
    (
      p,
      record s { inode_table = update s.inode_table p (referenced s.inode_table p) },
      refl,
      record {
        inside = to;
        number = ap (λ (x : Inode). x.i_num) now ∙ holds.1;
        references = inl (holds, ap (λ (x : Inode). x.i_cnt) now);
        cache = λ a b n ha hb hold_a hold_b.
            cache a b n ha hb (referenced-Holds s.inode_table p a n holds.0 hold_a)
              (referenced-Holds s.inode_table p b n holds.0 hold_b);
        others = λ m other. update_elsewhere s.inode_table p (referenced s.inode_table p) m other;
      },
      refl,
    )
take_slot-IsGotten sb num (spare none) s cache (absent, none_before, used) free low unused =
    absurd (omega (arith, used free (omega arith) (omega arith)))
take_slot-IsGotten sb num (spare (some i)) s cache (absent, place) free low unused = elim place [
  | inl impossible ↦ cc
  | inr (from, to, empty) ↦
      let gone : (m : ℕ) → m < nr_inode → Holds s.inode_table m num → ⊥ =
        λ m h holds. absent m (omega arith) (omega arith) holds in
      let inode : Inode = loaded num (read_sectors s.disk (inode_sector sb num) 1 s.fsbuf) in
      let now = update_here s.inode_table i inode in
      (
        i,
        record s {
          inode_table = update s.inode_table i inode;
          fsbuf = read_sectors s.disk (inode_sector sb num) 1 s.fsbuf;
        },
        refl,
        record {
          inside = omega arith;
          number = ap (λ (x : Inode). x.i_num) now;
          references = inr (empty, ap (λ (x : Inode). x.i_cnt) now, gone);
          cache = fill-IsCache s.inode_table i num inode cache refl gone;
          others = λ m other. update_elsewhere s.inode_table i inode m other;
        },
        refl,
      )
]

-- In a table where no inode is in two slots and one slot is free, get_inode of a number other than 0
-- succeeds: the slot that had the inode gets one reference more; if there is none, a free
-- slot gets it with one reference. Afterwards no inode is in two slots, the other slots are as they
-- were, and so is the disk.
pub get_inode-IsGotten :
    (sb : SuperBlock) (num : ℕ) (s : Store) (free : ℕ)
    → num ≢ 0
    → IsCache s.inode_table
    → free < nr_inode
    → (s.inode_table free).i_cnt ≡ 0
    → (p : ℕ) × (s' : Store) × (get_inode sb num s ≡ ok (some p, s'))
      × IsGotten num p s.inode_table s'.inode_table
      × (s'.disk ≡ s.disk)
unfolding get_inode
get_inode-IsGotten sb num s free some_number cache low unused =
    let some_inode : (num == 0) ≡ false = ground arith in
    let (p, s', run, gotten, disk) =
      take_slot-IsGotten sb num (find_slot nr_inode 0 s.inode_table num none) s cache
        (find_slot-IsOutcome nr_inode 0 s.inode_table num none) free low unused in
    rw (some_inode, run, ◌>>=◌) (p, s', refl, gotten, disk)
