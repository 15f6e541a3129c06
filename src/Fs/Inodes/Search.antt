-- ===== src/Fs/Inodes/Search.antt =====
-- What the search of `get_inode` through the table ends with.
use lwos.Common.{
  ℕ, zero, suc, ◌+◌, ◌≤◌, ◌<◌, ◌≡◌, ◌⊎◌, refl, ◌∙◌, sym, ap, ◌&&◌, Option, none, some, ◌==◌,
  if◌then◌else◌, arith, Bool-cases, inl, inr, subst,
}
use lwos.Fs.{Inode}
use lwos.Fs.Inodes.{Slot, cached, spare, is_used, keep_first, find_slot}

-- A slot that holds the inode of this number.
abbrev pub Holds : (ℕ → Inode) → (p num : ℕ) → Type 0
Holds table p num = (0 < (table p).i_cnt) × ((table p).i_num ≡ num)

-- The inode is in none of `n` slots from `p` on.
abbrev pub Absent : (ℕ → Inode) → (n p num : ℕ) → Type 0
Absent table n p num = (m : ℕ) → p ≤ m → m < p + n → Holds table m num → ⊥

-- What the search through `n` slots from `p` on tells, with `q` found before.
abbrev pub IsOutcome : (ℕ → Inode) → (n p num : ℕ) → Option ℕ → Slot → Type 0
IsOutcome table n p num q (cached i) = (p ≤ i) × (i < p + n) × Holds table i num
IsOutcome table n p num q (spare none) =
    Absent table n p num × (q ≡ none) × ((m : ℕ) → p ≤ m → m < p + n → 0 < (table m).i_cnt)
IsOutcome table n p num q (spare (some i)) =
    Absent table n p num × ((q ≡ some i) ⊎ ((p ≤ i) × (i < p + n) × ((table i).i_cnt ≡ 0)))

-- One more slot in front, which does not hold the inode.
Absent-suc :
    (table : ℕ → Inode) (n p num : ℕ)
    → (Holds table p num → ⊥)
    → Absent table n (p + 1) num
    → Absent table (suc n) p num
Absent-suc table n p num here rest m from to holds = elim (Bool-cases (m == p)) [
  | inl same ↦ let at : m ≡ p = ground arith in here (subst (λ k. Holds table k num) at holds)
  | inr later ↦ rest m (ground arith) (omega arith) holds
]

-- What was found so far, behind slot `p`.
abbrev so_far : (ℕ → Inode) → ℕ → Option ℕ → Option ℕ
so_far table p q = if is_used (table p) then q else keep_first q p

so_far-none :
    (table : ℕ → Inode) (p : ℕ) (q : Option ℕ)
    → so_far table p q ≡ none
    → (q ≡ none) × (0 < (table p).i_cnt)
so_far-none table p none e = elim (Bool-cases (is_used (table p))) [
  | inl used ↦ (refl, ground arith)
  | inr unused ↦
      let now : some p ≡ none = ap (λ b. if b then none else some p) (sym unused) ∙ e in cc
]
so_far-none table p (some j) e = elim (Bool-cases (is_used (table p))) [
  | inl used ↦ let now : some j ≡ none = ap (λ b. if b then some j else some j) (sym used) ∙ e in cc
  | inr unused ↦
      let now : some j ≡ none = ap (λ b. if b then some j else some j) (sym unused) ∙ e in cc
]

so_far-some :
    (table : ℕ → Inode) (p : ℕ) (q : Option ℕ) (i : ℕ)
    → so_far table p q ≡ some i
    → (q ≡ some i) ⊎ ((i ≡ p) × ((table p).i_cnt ≡ 0))
so_far-some table p none i e = elim (Bool-cases (is_used (table p))) [
  | inl used ↦ let now : none ≡ some i = ap (λ b. if b then none else some p) (sym used) ∙ e in cc
  | inr unused ↦
      let now : some p ≡ some i = ap (λ b. if b then none else some p) (sym unused) ∙ e in
      inr (cc, ground arith)
]
so_far-some table p (some j) i e = elim (Bool-cases (is_used (table p))) [
  | inl used ↦ inl (ap (λ b. if b then some j else some j) (sym used) ∙ e)
  | inr unused ↦ inl (ap (λ b. if b then some j else some j) (sym unused) ∙ e)
]

IsOutcome-suc :
    (table : ℕ → Inode) (n p num : ℕ) (q : Option ℕ) (slot : Slot)
    → (Holds table p num → ⊥)
    → IsOutcome table n (p + 1) num (if is_used (table p) then q else keep_first q p) slot
    → IsOutcome table (suc n) p num q slot
IsOutcome-suc table n p num q (cached i) here (from, to, holds) = (omega arith, omega arith, holds)
IsOutcome-suc table n p num q (spare none) here (absent, none_yet, used) =
    let (none_before, used_here) = so_far-none table p q none_yet in
    (
      Absent-suc table n p num here absent,
      none_before,
      λ m from to. elim (Bool-cases (m == p)) [
        | inl same ↦ let at : p ≡ m = ground arith in subst (λ k. 0 < (table k).i_cnt) at used_here
        | inr later ↦ used m (ground arith) (omega arith)
      ],
    )
IsOutcome-suc table n p num q (spare (some i)) here (absent, place) = (
  Absent-suc table n p num here absent,
  elim place [
    | inr (from, to, free) ↦ inr (omega arith, omega arith, free)
    | inl e ↦ elim (so_far-some table p q i e) [
      | inl before ↦ inl before
      | inr (at, free) ↦ inr (omega arith, omega arith, ap (λ k. (table k).i_cnt) at ∙ free)
    ]
  ],
)

pub find_slot-IsOutcome :
    (n p : ℕ) (table : ℕ → Inode) (num : ℕ) (q : Option ℕ)
    → IsOutcome table n p num q (find_slot n p table num q)
unfolding find_slot
find_slot-IsOutcome zero p table num none =
    (λ m from to holds. omega arith, refl, λ m from to. absurd (omega arith))
find_slot-IsOutcome zero p table num (some i) = (λ m from to holds. omega arith, inl refl)
find_slot-IsOutcome (suc n) p table num q =
    elim (Bool-cases (is_used (table p) && ((table p).i_num == num))) [
      | inl here ↦ rw here (omega arith, omega arith, ground arith)
      | inr not_here ↦ rw not_here (
          IsOutcome-suc table n p num q _ (λ holds. ground (arith, holds.0, holds.1))
            (find_slot-IsOutcome n (p + 1) table num
              (if is_used (table p) then q else keep_first q p)))
    ]
