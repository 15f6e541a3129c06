-- ===== src/Ring/Refine.antt =====
-- A valid ring behaves as the queue of the values between its pointers.
use lwos.Common.{
  ℕ, zero, suc, ◌+◌, ◌-◌, ◌≤◌, ◌<◌, ◌≡◌, refl, ◌∙◌, sym, ap, ◌≢◌, List, [], ◌∷◌, ◌++◌, arith, ltb,
  if◌then◌else◌, length, get_or, set, length-set, Bool-cases, inl, inr, ltb→lt, get_or-set_same,
  get_or-set_other,
}
use lwos.Ring.{Ring, advance, put, take_one}

module _ (size : ℕ) where
  -- `n` values from index `i` on, round the end of the array.
  abbrev pub stretch : List ℕ → ℕ → ℕ → List ℕ
  stretch buf i zero = []
  stretch buf i (suc n) = get_or buf i 0 ∷ stretch buf (advance size i) n

  -- The index `n` steps on from `i`.
  abbrev pub steps : ℕ → ℕ → ℕ
  steps i zero = i
  steps i (suc n) = steps (advance size i) n

  -- Both pointers are inside the array, and the head is `count` steps ahead of the tail.
  pub record IsRing (r : Ring) : Type 0 where
    pub storage : length r.buf ≡ size
    pub positive : 0 < size
    pub tail_in : r.tail < size
    pub fits : r.count ≤ size
    pub ahead : r.head ≡ steps r.tail r.count

  abbrev pub contents : Ring → List ℕ
  contents r = stretch r.buf r.tail r.count

  advance-lt : (i : ℕ) → i < size → advance size i < size
  advance-lt i h = ground arith

  -- `n` steps from `i`, as a number.
  steps_value :
      (n i : ℕ)
      → i < size
      → n ≤ size
      → steps i n ≡ (if ltb (i + n) size then i + n else i + n - size)
  steps_value zero i h k = ground arith
  steps_value (suc n) i h k = ground (arith, steps_value n (advance size i) (advance-lt i h))

  steps-lt : (n i : ℕ) → i < size → n ≤ size → steps i n < size
  steps-lt n i h k = ground (arith, steps_value n i h k)

  steps-suc : (n i : ℕ) → steps i (suc n) ≡ advance size (steps i n)
  steps-suc zero i = refl
  steps-suc (suc n) i = steps-suc n (advance size i)

  pub length-stretch : (buf : List ℕ) (n i : ℕ) → length (stretch buf i n) ≡ n
  length-stretch buf zero i = refl
  length-stretch buf (suc n) i = ap suc (length-stretch buf n (advance size i))

  -- A write off the stretch leaves it alone.
  stretch-set_off :
      (buf : List ℕ) (v n i j : ℕ)
      → ((m : ℕ) → m < n → steps i m ≢ j)
      → stretch (set buf j v) i n ≡ stretch buf i n
  stretch-set_off buf v zero i j off = refl
  stretch-set_off buf v (suc n) i j off =
      let first : get_or (set buf j v) i 0 ≡ get_or buf i 0 =
        get_or-set_other buf j i v 0 (λ e. off 0 (omega arith) e) in
      rw first (
        ap (λ rest. get_or buf i 0 ∷ rest)
          (stretch-set_off buf v n (advance size i) j (λ m h. off (suc m) (omega arith))))

  stretch-suc :
      (buf : List ℕ) (n i : ℕ)
      → stretch buf i (suc n) ≡ stretch buf i n ++ (get_or buf (steps i n) 0 ∷ [])
  stretch-suc buf zero i = refl
  stretch-suc buf (suc n) i =
      ap (λ rest. get_or buf i 0 ∷ rest) (stretch-suc buf n (advance size i))

  steps_add_one : (n i : ℕ) → steps i (n + 1) ≡ advance size (steps i n)
  steps_add_one n i = ap (steps i) {x = n + 1} {y = suc n} (omega arith) ∙ steps-suc n i

  steps_pos : (n i : ℕ) → 0 < n → steps i n ≡ steps (advance size i) (n - 1)
  steps_pos zero i h = absurd (omega arith)
  steps_pos (suc n) i h = ap (steps (advance size i)) {x = n} {y = suc n - 1} (omega arith)

  stretch_pos :
      (buf : List ℕ) (n i : ℕ)
      → 0 < n
      → stretch buf i n ≡ get_or buf i 0 ∷ stretch buf (advance size i) (n - 1)
  stretch_pos buf zero i h = absurd (omega arith)
  stretch_pos buf (suc n) i h =
      ap (λ m. get_or buf i 0 ∷ stretch buf (advance size i) m) {x = n} {y = suc n - 1}
        (omega arith)

  put-stretch :
      (r : Ring) (v : ℕ)
      → IsRing r
      → r.count < size
      → stretch (set r.buf r.head v) r.tail (r.count + 1) ≡ contents r ++ (v ∷ [])
  put-stretch r v s room =
      let at : r.head < size = rw s.ahead (steps-lt r.count r.tail s.tail_in s.fits) in
      let written : get_or (set r.buf r.head v) r.head 0 ≡ v =
        get_or-set_same r.buf r.head v 0 (omega (arith, s.storage)) in
      let free : (m : ℕ) → m < r.count → steps r.tail m ≢ r.head = (λ m h. ground (
        arith,
        s.ahead,
        s.tail_in,
        steps_value m r.tail s.tail_in (omega arith),
        steps_value r.count r.tail s.tail_in s.fits,
      )) in
      ap (stretch (set r.buf r.head v) r.tail) {x = r.count + 1} {y = suc r.count} (omega arith)
      ∙ (stretch-suc (set r.buf r.head v) r.count r.tail
          ∙ rw (stretch-set_off r.buf v r.count r.tail r.head free, ← s.ahead, written))

  -- `put` keeps the ring valid; it appends the value if there is room and else drops it.
  pub put-contents :
      (r : Ring) (v : ℕ)
      → IsRing r
      → IsRing (put size r v)
        × (contents (put size r v)
            ≡ (if ltb (length (contents r)) size then contents r ++ (v ∷ []) else contents r))
  unfolding put
  put-contents r v s = elim (Bool-cases (ltb r.count size)) [
    | inl room ↦
        let room' : r.count < size = ltb→lt r.count size room in
        let at : r.head < size = rw s.ahead (steps-lt r.count r.tail s.tail_in s.fits) in
        rw (room, length-stretch r.buf r.count r.tail, room)
          (
            record {
              storage = length-set r.buf r.head v ∙ s.storage;
              positive = s.positive;
              tail_in = s.tail_in;
              fits = omega arith;
              ahead = ap (advance size) s.ahead ∙ sym (steps_add_one r.count r.tail);
            },
            put-stretch r v s room',
          )
    | inr full ↦ rw (full, length-stretch r.buf r.count r.tail, full) (s, refl)
  ]

  -- `take_one` of a ring that is not empty keeps it valid, and returns the oldest value and leaves
  -- the others in order.
  pub take_one-contents :
      (r : Ring)
      → IsRing r
      → 0 < r.count
      → IsRing (take_one size r).1
        × (contents r ≡ (take_one size r).0 ∷ contents (take_one size r).1)
  unfolding take_one
  take_one-contents r s h = (
    record {
      storage = s.storage;
      positive = s.positive;
      tail_in = advance-lt r.tail s.tail_in;
      fits = omega (arith, s.fits);
      ahead = s.ahead ∙ steps_pos r.count r.tail h;
    },
    stretch_pos r.buf r.count r.tail h,
  )
