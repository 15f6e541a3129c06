-- ===== src/Ipc/Deadlock.antt =====
-- `deadlock` of kernel/proc.c: the walk along the chain of blocked senders decides whether a
-- message would close a cycle.
use lwos.Common.{
  ℕ, zero, suc, ◌≤◌, ◌<◌, ◌≡◌, refl, ◌∙◌, ◌⊎◌, inl, inr, Bool, true, false, arith, lt→ltb, ◌==◌,
  ==_iff, Bool-cases, sym,
}
use lwos.Common.Int.{ℤ, pos, negsuc}
use lwos.Fault.{ok, >>=-eq-ok, ◌>>=◌}
use lwos.Proc.{Process, Kernel, nr_slots, eq_ℤ, eq_ℤ→≡, eq_ℤ_refl}
use lwos.Ipc.{slot, print_cycle, deadlock_loop, deadlock}

-- `p` is blocked sending, and the process that it sends to is `q` or waits for `q` in turn.
pub data WaitsOn (procs : ℕ → Process) (q : ℕ) : ℕ → Type 0 where
  direct : {p : ℕ} → (procs p).flags.sending ≡ true → (procs p).sendto ≡ pos q → WaitsOn procs q p
  through :
      {p : ℕ} (d : ℕ)
      → (procs p).flags.sending ≡ true
      → (procs p).sendto ≡ pos d
      → WaitsOn procs q d
      → WaitsOn procs q p

slot-pos : (a : ℤ) {i : ℕ} → slot a ≡ ok i → a ≡ pos i
slot-pos (pos j) h = ground arith
slot-pos (negsuc j) h = cc

pos_injective : (i j : ℕ) → pos i ≡ pos j → i ≡ j
pos_injective i j h = cc

module _ (src dest : ℕ) (k : Kernel) where
  found-WaitsOn : (fuel p : ℕ) → deadlock_loop fuel src dest p k ≡ ok true → WaitsOn k.procs src p
  unfolding deadlock_loop
  found-WaitsOn zero p h = cc
  found-WaitsOn (suc fuel) p h = elim (Bool-cases (k.procs p).flags.sending) [
    | inr idle ↦ absurd (cc (rw (idle, deadlock_loop) at h))
    | inl sends ↦ elim (Bool-cases (eq_ℤ (k.procs p).sendto (pos src))) [
      | inl e ↦ direct sends (eq_ℤ→≡ _ _ e)
      | inr ne ↦
          let (q, s, rest) =
            >>=-eq-ok (slot (k.procs p).sendto) (λ q. deadlock_loop fuel src dest q k)
              (rw (sends, ne, deadlock_loop) at h) in
          through q sends (slot-pos _ s) (found-WaitsOn fuel q rest)
    ]
  ]

  -- One step of the walk, on the equation of its result.
  clear_step :
      (fuel p : ℕ)
      → (k.procs p).flags.sending ≡ true
      → deadlock_loop (suc fuel) src dest p k ≡ ok false
      → (eq_ℤ (k.procs p).sendto (pos src) ≡ false)
        × ((q : ℕ) × ((k.procs p).sendto ≡ pos q) × (deadlock_loop fuel src dest q k ≡ ok false))
  unfolding deadlock_loop
  clear_step fuel p sends h = elim (Bool-cases (eq_ℤ (k.procs p).sendto (pos src))) [
    | inl e ↦
        let (u, _, x) =
          >>=-eq-ok (print_cycle (suc nr_slots) src dest k) (λ _. ok true)
            (rw (sends, e, deadlock_loop) at h) in
        absurd (cc x)
    | inr ne ↦
        let (q, s, rest) =
          >>=-eq-ok (slot (k.procs p).sendto) (λ q. deadlock_loop fuel src dest q k)
            (rw (sends, ne, deadlock_loop) at h) in
        (ne, (q, slot-pos _ s, rest))
  ]

  clear-not-WaitsOn :
      (fuel : ℕ) {p : ℕ} → WaitsOn k.procs src p → deadlock_loop fuel src dest p k ≡ ok false → ⊥
  unfolding deadlock_loop
  clear-not-WaitsOn zero w h = cc
  clear-not-WaitsOn (suc fuel) {p} (direct sends e) h =
      let ne : eq_ℤ (k.procs p).sendto (pos src) ≡ false = (clear_step fuel p sends h).0 in
      cc (eq_ℤ_refl (pos src))
  clear-not-WaitsOn (suc fuel) {p} (through d sends e w) h =
      let (_, (q, e', rest)) = clear_step fuel p sends h in
      clear-not-WaitsOn fuel w (rw (pos_injective d q (sym e ∙ e')) rest)

  -- `deadlock` answers 1 only if the receiver waits for the sender, directly or through others, and
  -- 0 only if it does not.
  pub deadlock_sound :
      (b : Bool)
      → deadlock src dest k ≡ ok b
      → ((b ≡ true) × WaitsOn k.procs src dest) ⊎ ((b ≡ false) × ¬ (WaitsOn k.procs src dest))
  unfolding deadlock
  deadlock_sound true h = inl (refl, found-WaitsOn (suc nr_slots) dest h)
  deadlock_sound false h = inr (refl, λ w. clear-not-WaitsOn (suc nr_slots) w h)

-- A state whose chains of blocked senders are finite: every blocked sender has a message and sends
-- to a slot of the table whose rank is lower.
pub record IsRanked (k : Kernel) (rank : ℕ → ℕ) : Type 0 where
  pub small : (p : ℕ) → rank p ≤ nr_slots
  pub edge :
      (p : ℕ)
      → (k.procs p).flags.sending ≡ true
      → (d : ℕ) × ((k.procs p).sendto ≡ pos d)
        × (d < nr_slots)
        × (rank d < rank p)
        × (((k.procs p).msg == 0) ≡ false)

slot_ok : (a : ℤ) (d : ℕ) → a ≡ pos d → d < nr_slots → slot a ≡ ok d
slot_ok a d e h = rw e (rw (lt→ltb d nr_slots h))

module _ (src dest : ℕ) (k : Kernel) (rank : ℕ → ℕ) (r : IsRanked k rank) where
  print_cycle_returns :
      (fuel : ℕ) {p : ℕ} → WaitsOn k.procs src p → rank p < fuel → print_cycle fuel src p k ≡ ok tt
  unfolding print_cycle
  print_cycle_returns zero w h = absurd (omega arith)
  print_cycle_returns (suc fuel) {p} (direct sends e) h =
      let (d, e', inside, _, full) = r.edge p sends in
      let same : d ≡ src = pos_injective d src (sym e' ∙ e) in
      rw (full, slot_ok _ d e' inside, ◌>>=◌, (==_iff d src).1 same, print_cycle)
  print_cycle_returns (suc fuel) {p} (through c sends e w) h =
      let (d, e', inside, lower, full) = r.edge p sends in
      let same : c ≡ d = pos_injective c d (sym e ∙ e') in
      elim (Bool-cases (d == src)) [
        | inl at_src ↦ rw (full, slot_ok _ d e' inside, ◌>>=◌, at_src, print_cycle)
        | inr further ↦
            rw (full, slot_ok _ d e' inside, ◌>>=◌, further, print_cycle)
              (print_cycle_returns fuel (rw same at w) (omega arith))
      ]

  walk_returns :
      (fuel p : ℕ)
      → (WaitsOn k.procs src p → WaitsOn k.procs src dest)
      → rank p < fuel
      → (b : Bool) × (deadlock_loop fuel src dest p k ≡ ok b)
  unfolding deadlock_loop
  walk_returns zero p reach h = absurd (omega arith)
  walk_returns (suc fuel) p reach h = elim (Bool-cases (k.procs p).flags.sending) [
    | inr idle ↦ (false, rw (idle, deadlock_loop))
    | inl sends ↦
        let (d, e, inside, lower, _) = r.edge p sends in
        elim (Bool-cases (eq_ℤ (k.procs p).sendto (pos src))) [
          | inl hit ↦
              let w = reach (direct sends (eq_ℤ→≡ _ _ hit)) in
              (
                true,
                rw (
                  sends,
                  hit,
                  print_cycle_returns (suc nr_slots) w (omega (arith, r.small dest)),
                  deadlock_loop,
                ),
              )
          | inr miss ↦
              let (b, rest) =
                walk_returns fuel d (λ w. reach (through d sends e w)) (omega arith) in
              (b, rw (sends, miss, slot_ok _ d e inside, deadlock_loop) rest)
        ]
  ]

  -- Where chains of blocked senders are finite, the search for a cycle ends with an answer.
  pub deadlock_returns : (b : Bool) × (deadlock src dest k ≡ ok b)
  unfolding deadlock
  deadlock_returns = walk_returns (suc nr_slots) dest (λ w. w) (omega (arith, r.small dest))

pub not-WaitsOn :
    {procs : ℕ → Process} {q p : ℕ} → (procs p).flags.sending ≡ false → ¬ (WaitsOn procs q p)
not-WaitsOn idle (direct sends e) = cc
not-WaitsOn idle (through d sends e w) = cc
