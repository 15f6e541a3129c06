-- ===== src/Ipc/Chain.antt =====
-- Linked lists through a `next` pointer in each slot, as the sending queues are.
use lwos.Common.{
  ℕ, ◌≡◌, refl, ◌∙◌, sym, ap, Bool, true, false, ◌||◌, ◌≢◌, Option, none, some, List, [], ◌∷◌, ◌++◌,
  arith, ◌==◌, ==_iff, if◌then◌else◌, Bool-cases, inl, inr,
}

abbrev pub Next : Type 0
Next = ℕ → Option ℕ

-- From the head `h` the pointers lead through the slots `xs`, in this order, to NULL.
abbrev pub Chain : Next → Option ℕ → List ℕ → Type 0
Chain next h [] = h ≡ none
Chain next h (x ∷ xs) = (h ≡ some x) × Chain next (next x) xs

abbrev pub member : ℕ → List ℕ → Bool
member a [] = false
member a (x ∷ xs) = (a == x) || member a xs

-- No slot is listed twice.
abbrev pub Distinct : List ℕ → Type 0
Distinct [] = Unit {0}
Distinct (x ∷ xs) = (member x xs ≡ false) × Distinct xs

abbrev pub last : ℕ → List ℕ → ℕ
last x [] = x
last x (y ∷ ys) = last y ys

-- The list without its first `a`.
abbrev pub without : ℕ → List ℕ → List ℕ
without a [] = []
without a (x ∷ xs) = if x == a then xs else x ∷ without a xs

pub member-last : (x : ℕ) (ys : List ℕ) → member (last x ys) (x ∷ ys) ≡ true
member-last x [] = ground arith
member-last x (y ∷ ys) = ground (arith, member-last y ys)

-- A chain is determined by the pointers of its own slots.
pub frame :
    (next next' : Next) (xs : List ℕ) (h : Option ℕ)
    → ((i : ℕ) → member i xs ≡ true → next' i ≡ next i)
    → Chain next h xs
    → Chain next' h xs
frame next next' [] h same c = c
frame next next' (x ∷ xs) h same c = (
  c.0,
  frame next next' xs (next' x) (λ i m. same i (ground arith)) (rw (same x (ground arith)) c.1),
)

-- Linking `s` behind the last slot appends it.
pub Chain-snoc :
    (next next' : Next) (s x : ℕ) (ys : List ℕ) (h : Option ℕ)
    → Chain next h (x ∷ ys)
    → Distinct (x ∷ ys)
    → next' (last x ys) ≡ some s
    → next' s ≡ none
    → ((i : ℕ) → member i (x ∷ ys) ≡ true → i ≢ last x ys → next' i ≡ next i)
    → Chain next' h ((x ∷ ys) ++ (s ∷ []))
Chain-snoc next next' s x [] h c d tail end same = (c.0, (tail, end))
Chain-snoc next next' s x (y ∷ ys) h c d tail end same =
    let at_x : next' x ≡ next x = same x (ground arith) (ground (arith, member-last y ys)) in
    (
      c.0,
      rw at_x
          (Chain-snoc next next' s y ys (next x) c.1 d.1 tail end (λ i m. same i (ground arith))),
    )

some_injective : {x y : ℕ} → some x ≡ some y → x ≡ y
some_injective h = cc

-- What a listed slot points to comes later in the list.
member_of_next :
    (next : Next) (a b x : ℕ) (xs : List ℕ)
    → Chain next (next x) xs
    → member b (x ∷ xs) ≡ true
    → next b ≡ some a
    → member a xs ≡ true
member_of_next next a b x [] c m before = ground (arith, ==_iff b x, ap next)
member_of_next next a b x (y ∷ ys) c m before = elim (Bool-cases (b == x)) [
  | inl e ↦
      let same : b ≡ x = (==_iff b x).0 e in
      let y_is_a : some y ≡ some a = sym c.0 ∙ (ap next (sym same) ∙ before) in ground arith
  | inr ne ↦ ground (arith, member_of_next next a b y ys c.1)
]

-- Unlinking `a`, behind the slot `b` that comes just before it.
pub Chain-without :
    (next next' : Next) (a b : ℕ) (xs : List ℕ) (h : Option ℕ)
    → Chain next h xs
    → Distinct xs
    → member b xs ≡ true
    → next b ≡ some a
    → next' b ≡ next a
    → ((i : ℕ) → member i xs ≡ true → i ≢ b → i ≢ a → next' i ≡ next i)
    → Chain next' h (without a xs)
Chain-without next next' a b [] h c d m before cut same = c
Chain-without next next' a b (x ∷ []) h c d m before cut same =
    absurd (cc (member_of_next next a b x [] c.1 m before))
Chain-without next next' a b (x ∷ y ∷ ys) h c d m before cut same =
    let later : member a (y ∷ ys) ≡ true = member_of_next next a b x (y ∷ ys) c.1 m before in
    let ne : (x == a) ≡ false = ground arith in
    elim (Bool-cases (b == x)) [
      | inl e ↦
          let same_x : b ≡ x = (==_iff b x).0 e in
          let y_is_a : y ≡ a = some_injective (sym c.1.0 ∙ (ap next (sym same_x) ∙ before)) in
          let to_y : next' x ≡ next y = ap next' (sym same_x) ∙ (cut ∙ ap next (sym y_is_a)) in
          rw (ne, (==_iff y a).1 y_is_a)
            (
              c.0,
              rw to_y (
                  frame next next' ys (next y)
                    (λ i i_in. same i (ground arith) (ground arith) (ground arith)) c.1.1),
            )
      | inr further ↦
          let to_x : next' x ≡ next x = same x (ground arith) (ground arith) (ground arith) in
          rw ne (
            c.0,
            rw to_x (
                Chain-without next next' a b (y ∷ ys) (next x) c.1 d.1 (ground arith) before cut
                  (λ i i_in. same i (ground arith))),
          )
    ]

pub member-snoc : (a p : ℕ) (xs : List ℕ) → member a (xs ++ (p ∷ [])) ≡ (member a xs || (a == p))
member-snoc a p [] = ground arith
member-snoc a p (x ∷ xs) = ground (arith, member-snoc a p xs)

pub Distinct-snoc :
    (p : ℕ) (xs : List ℕ) → Distinct xs → member p xs ≡ false → Distinct (xs ++ (p ∷ []))
Distinct-snoc p [] d out = (refl, tt)
Distinct-snoc p (x ∷ xs) d out =
    (ground (arith, member-snoc x p xs), Distinct-snoc p xs d.1 (ground arith))

pub member-without : (i a : ℕ) (xs : List ℕ) → member i xs ≡ false → member i (without a xs) ≡ false
member-without i a [] out = refl
member-without i a (x ∷ xs) out = ground (arith, member-without i a xs)

pub Distinct-without : (a : ℕ) (xs : List ℕ) → Distinct xs → Distinct (without a xs)
Distinct-without a [] d = tt
Distinct-without a (x ∷ xs) d = elim (Bool-cases (x == a)) [
  | inl hit ↦ rw hit d.1
  | inr miss ↦ rw miss (member-without x a xs d.0, Distinct-without a xs d.1)
]
