-- ===== src/Text/Compare.antt =====
-- The comparisons tell exactly equal bytes and equal strings apart from the others.
use lwos.Common.{
  ℕ, zero, suc, ◌+◌, ◌-◌, ◌<◌, ◌≡◌, ◌≢◌, ◌↔◌, refl, ◌∙◌, sym, ap, false, ◌||◌, List, [], ◌∷◌, ◌==◌,
  if◌then◌else◌, arith, Bool-cases, inl, inr, ltb,
}
use lwos.Common.Int.{ℤ, pos, pos_part, neg_part, ◌-ℤ◌, -ℤ_parts}
use lwos.Text.{char_value, memcmp, memcmp_loop, strcmp}

difference_parts : (x y : ℤ) → x -ℤ y ≡ pos 0 → pos_part x + neg_part y ≡ neg_part x + pos_part y
difference_parts x y e = omega (arith, -ℤ_parts x y, ap pos_part e, ap neg_part e)

char_value_parts :
    (a : ℕ)
    → a < 256
    → (pos_part (char_value a) ≡ (if ltb a 128 then a else 0))
      × (neg_part (char_value a) ≡ (if ltb a 128 then 0 else 256 - a))
unfolding ◌-ℤ◌
char_value_parts a h = (ground arith, ground arith)

-- Different bytes are different chars.
char_value-apart : (a b : ℕ) → a < 256 → b < 256 → char_value a -ℤ char_value b ≡ pos 0 → a ≡ b
char_value-apart a b ha hb e =
    let (pos_a, neg_a) = char_value_parts a ha in
    let (pos_b, neg_b) = char_value_parts b hb in
    ground (arith, difference_parts (char_value a) (char_value b) e, pos_a, neg_a, pos_b, neg_b)

memcmp_loop_iff :
    (n : ℕ) (mem : ℕ → ℕ) (p1 p2 : ℕ)
    → ((at : ℕ) → mem at < 256)
    → (memcmp_loop n mem p1 p2 ≡ pos 0) ↔ ((i : ℕ) → i < n → mem (p1 + i) ≡ mem (p2 + i))
unfolding memcmp_loop
memcmp_loop_iff zero mem p1 p2 bytes = (λ e i h. absurd (omega arith), λ same. refl)
memcmp_loop_iff (suc n) mem p1 p2 bytes =
    let (to, from) = memcmp_loop_iff n mem (p1 + 1) (p2 + 1) bytes in
    let now : (a : ℕ) → mem (a + 0) ≡ mem a = λ a. ap mem {x = a + 0} {y = a} (omega arith) in
    let next : (a i : ℕ) → mem (a + 1 + i) ≡ mem (a + suc i) =
      λ a i. ap mem {x = a + 1 + i} {y = a + suc i} (omega arith) in
    elim (Bool-cases (mem p1 == mem p2)) [
      | inl same ↦ rw same (
        (λ e i h. at_each (to e) (ground arith) i h),
        λ all. from (λ i h. next p1 i ∙ (all (suc i) (omega arith) ∙ sym (next p2 i))),
      )
      | inr differ ↦ rw differ (
        (λ e i h.
            absurd (ground (arith, char_value-apart (mem p1) (mem p2) (bytes p1) (bytes p2) e))),
        λ all. absurd (ground (arith, now p1, now p2, all 0 (omega arith))),
      )
    ]
  where
    at_each :
        ((i : ℕ) → i < n → mem (p1 + 1 + i) ≡ mem (p2 + 1 + i))
        → mem p1 ≡ mem p2
        → (i : ℕ) → i < suc n
        → mem (p1 + i) ≡ mem (p2 + i)
    at_each rest first zero h =
        ap mem {x = p1 + 0} {y = p1} (omega arith)
        ∙ (first ∙ ap mem {x = p2} {y = p2 + 0} (omega arith))
    at_each rest first (suc i) h =
        ap mem {x = p1 + suc i} {y = p1 + 1 + i} (omega arith)
        ∙ (rest i (omega arith) ∙ ap mem {x = p2 + 1 + i} {y = p2 + suc i} (omega arith))

-- For two pointers that are not null, memcmp is 0 exactly when the first n bytes at them are equal.
pub memcmp_iff :
    (mem : ℕ → ℕ) (s1 s2 n : ℕ)
    → ((at : ℕ) → mem at < 256)
    → s1 ≢ 0
    → s2 ≢ 0
    → (memcmp mem s1 s2 n ≡ pos 0) ↔ ((i : ℕ) → i < n → mem (s1 + i) ≡ mem (s2 + i))
unfolding memcmp
memcmp_iff mem s1 s2 n bytes first second =
    let there : ((s1 == 0) || (s2 == 0)) ≡ false = ground arith in
    rw there (memcmp_loop_iff n mem s1 s2 bytes)

-- Characters of a string: bytes other than 0.
pub data IsText : List ℕ → Type 0 where
  end : IsText []
  more : {c : ℕ} {s : List ℕ} → 0 < c → c < 256 → IsText s → IsText (c ∷ s)

-- strcmp of two strings is 0 exactly when they are equal.
pub strcmp_iff : (s1 s2 : List ℕ) → IsText s1 → IsText s2 → (strcmp s1 s2 ≡ pos 0) ↔ (s1 ≡ s2)
unfolding strcmp
strcmp_iff [] [] end end = (λ e. refl, λ e. refl)
strcmp_iff [] (b ∷ s2) end (more low high rest) =
    (λ e. absurd (omega (arith, char_value-apart 0 b (omega arith) high e)), λ e. cc)
strcmp_iff (a ∷ s1) [] (more low high rest) end =
    (λ e. absurd (omega (arith, char_value-apart a 0 high (omega arith) e)), λ e. cc)
strcmp_iff (a ∷ s1) (b ∷ s2) (more low high rest) (more low' high' rest') =
    let (to, from) = strcmp_iff s1 s2 rest rest' in
    elim (Bool-cases (a == b)) [
      | inl same ↦
          let heads : a ≡ b = ground arith in
          rw same
            ((λ e. let tails : s1 ≡ s2 = to e in cc), λ e. let tails : s1 ≡ s2 = cc in from tails)
      | inr differ ↦ rw differ (
        (λ e. absurd (ground (arith, char_value-apart a b high high' e))),
        λ e. let heads : a ≡ b = cc in absurd (ground arith),
      )
    ]
