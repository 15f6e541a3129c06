-- ===== src/Console/Output.antt =====
-- What a character does to a console: where the cursor goes, and that it stays inside the console and
-- on the screen.
use lwos.Common.{
  ℕ, ◌+◌, ◌-◌, ◌*◌, ◌/◌, ◌%◌, ◌≤◌, ◌<◌, ◌≡◌, ◌≢◌, ◌⊎◌, inl, inr, refl, ◌∙◌, sym, ap, true, false,
  ltb, leb, ◌==◌, if◌then◌else◌, arith, Bool-cases, subst,
}
use lwos.Fault.{ok, err, spin, check, ◌>>=◌}
use lwos.Proc.{update}
use lwos.Console.{
  Console, Display, is_off_screen, screen_size, screen_width, newline, backspace, place,
  wrap_around, out_char, is_inside, flush, show_cursor,
}
use lwos.Console.Scroll.{IsConsole, IsAhead, show_cursor_lem, show_cursor_spins, sub_u32_plain}

-- The cursor behind a character, before the console wraps around.
abbrev pub stepped : Console → ℕ → ℕ
stepped c ch =
    if ch == newline
    then c.orig + screen_width * ((c.cursor - c.orig) / screen_width + 1)
    else if ch == backspace
    then (if ltb c.orig c.cursor then c.cursor - 1 else c.cursor)
    else c.cursor + 1

-- The console after a character: if the cursor has left it, its last lines are its first ones, and
-- the cursor is at the start of the last of them.
abbrev pub typed : Console → ℕ → Console
typed c ch =
    if stepped c ch == c.orig + c.con_size
    then record c {
      crtc_start = c.orig;
      cursor = c.orig + (screen_size - screen_width);
      is_full = true;
    }
    else record c { cursor = stepped c ch }

place-consoles :
    (n ch : ℕ) (d : Display) (m : ℕ)
    → IsConsole (d.consoles n)
    → (place n ch d).consoles m
      ≡ update (d.consoles) n (record (d.consoles n) { cursor = stepped (d.consoles n) ch }) m
unfolding place
place-consoles n ch d m w =
    rw
      (sub_u32_plain ((d.consoles n).cursor) ((d.consoles n).orig) (w.cursor_from)
        (omega (arith, w.cursor_to, w.in_memory)))
      (elim (Bool-cases (ch == newline)) [
        | inl line ↦ rw line refl
        | inr other ↦ elim (Bool-cases (ch == backspace)) [
          | inl back ↦ elim (Bool-cases (ltb ((d.consoles n).orig) ((d.consoles n).cursor))) [
            | inl inside ↦ rw (other, back, inside) refl
            | inr at_start ↦ rw (other, back, at_start) (ground arith)
          ]
          | inr plain ↦ rw (other, plain) refl
        ]
      ])

wrap_around-consoles :
    (n : ℕ) (d : Display) (m : ℕ) (c : Console)
    → d.consoles n ≡ c
    → c.orig ≤ c.cursor
    → c.cursor ≤ c.orig + c.con_size
    → (lines : ℕ) → c.con_size ≡ lines * screen_width
    → c.orig + c.con_size ≤ 16384
    → (wrap_around n d).consoles m ≡ (
        if c.cursor == c.orig + c.con_size
        then update
            (d.consoles)
            n
            (record c {
              crtc_start = c.orig;
              cursor = c.orig + (screen_size - screen_width);
              is_full = true;
            })
            m
        else d.consoles m)
unfolding wrap_around
wrap_around-consoles n d m c at low high lines whole memory =
    rw (at, sub_u32_plain (c.cursor) (c.orig) low (omega arith))
      (elim (Bool-cases (c.cursor == c.orig + c.con_size)) [
        | inl over ↦
            let left : leb (c.con_size) (c.cursor - c.orig) ≡ true = ground arith in
            let column : (c.cursor - c.orig) % screen_width ≡ 0 = ground (arith, whole) in
            rw (over, left, column) (ground arith)
        | inr inside ↦
            let stays : leb (c.con_size) (c.cursor - c.orig) ≡ false = ground arith in
            rw (inside, stays) refl
      ])

stepped_bounds :
    (c : Console) (ch : ℕ)
    → IsConsole c
    → (c.orig ≤ stepped c ch) × (stepped c ch ≤ c.orig + c.con_size)
stepped_bounds c ch w = ground (arith, w.whole, w.cursor_from, w.cursor_to)

typed-IsConsole : (c : Console) (ch : ℕ) → IsConsole c → IsConsole (typed c ch)
typed-IsConsole c ch w =
    let (low, high) = stepped_bounds c ch w in
    elim (Bool-cases (stepped c ch == c.orig + c.con_size)) [
      | inl over ↦ rw over (record {
        lines = w.lines;
        whole = w.whole;
        room = w.room;
        in_memory = w.in_memory;
        cursor_from = omega arith;
        cursor_to = omega (arith, w.room);
        top = 0;
        shown = omega arith;
        shown_to = omega (arith, w.room);
      })
      | inr inside ↦ rw inside (record {
        lines = w.lines;
        whole = w.whole;
        room = w.room;
        in_memory = w.in_memory;
        cursor_from = low;
        cursor_to = ground (arith, inside, high);
        top = w.top;
        shown = w.shown;
        shown_to = w.shown_to;
      })
    ]

-- The display before the loop of `out_char`.
abbrev ready : (n ch : ℕ) → Display → Display
ready n ch d = wrap_around n (place n ch d)

ready-consoles :
    (n ch : ℕ) (d : Display) (m : ℕ)
    → IsConsole (d.consoles n)
    → (ready n ch d).consoles m ≡ update (d.consoles) n (typed (d.consoles n) ch) m
ready-consoles n ch d m w =
    let c : Console = d.consoles n in
    let c1 : Console = record c { cursor = stepped c ch } in
    let (low, high) = stepped_bounds c ch w in
    let at : (place n ch d).consoles n ≡ c1 = place-consoles n ch d n w ∙ ground arith in
    wrap_around-consoles n (place n ch d) m c1 at low high (w.lines) (w.whole) (w.in_memory)
    ∙ elim (Bool-cases (stepped c ch == c.orig + c.con_size)) [
      | inl over ↦ rw over (ground (arith, place-consoles n ch d m w))
      | inr inside ↦ rw inside (place-consoles n ch d m w)
    ]

is_inside-true : (c : Console) → IsConsole c → is_inside c ≡ true
is_inside-true c w =
    rw (sub_u32_plain (c.cursor) (c.orig) (w.cursor_from) (omega (arith, w.cursor_to, w.in_memory)))
      (ground (arith, w.cursor_from, w.cursor_to))

flush-consoles : (n : ℕ) (d : Display) → (flush n d).consoles ≡ d.consoles
unfolding flush
flush-consoles n d = elim (Bool-cases (n == d.current)) [
  | inl here ↦ rw here refl
  | inr elsewhere ↦ rw elsewhere refl
]

typed-IsAhead :
    (c : Console) (ch : ℕ)
    → (c.is_full ≡ true) ⊎ (c.crtc_start ≤ stepped c ch)
    → IsAhead (typed c ch)
typed-IsAhead c ch ahead = elim (Bool-cases (stepped c ch == c.orig + c.con_size)) [
  | inl over ↦ rw over (inl refl)
  | inr inside ↦ rw inside ahead
]

-- After a character the console is well formed, its cursor is where `typed` puts it and on the
-- screen, and the other consoles are as they were.
pub record IsTyped (n ch : ℕ) (d d' : Display) : Type 0 where
  pub formed : IsConsole (d'.consoles n)
  pub on_screen : is_off_screen (d'.consoles n) ≡ false
  pub cursor_lem : (d'.consoles n).cursor ≡ (typed (d.consoles n) ch).cursor
  pub others : (m : ℕ) → m ≢ n → d'.consoles m ≡ d.consoles m

-- On a well-formed console `out_char` ends, with no assertion failing, unless the character moves the
-- cursor above the screen of a console that is not full yet.
pub out_char-IsTyped :
    (n ch : ℕ) (d : Display)
    → IsConsole (d.consoles n)
    → ((d.consoles n).is_full ≡ true) ⊎ ((d.consoles n).crtc_start ≤ stepped (d.consoles n) ch)
    → (d' : Display) × (out_char n ch d ≡ ok d') × IsTyped n ch d d'
unfolding out_char
out_char-IsTyped n ch d w ahead =
    let c : Console = d.consoles n in
    let d1 : Display = ready n ch d in
    let now : d1.consoles n ≡ typed c ch = ready-consoles n ch d n w ∙ ground arith in
    let w1 : IsConsole (d1.consoles n) = subst IsConsole (sym now) (typed-IsConsole c ch w) in
    let ahead1 : IsAhead (d1.consoles n) = subst IsAhead (sym now) (typed-IsAhead c ch ahead) in
    let (d2, run, s) = show_cursor_lem n d1 w1 ahead1 in
    rw (is_inside-true c w, is_inside-true (d1.consoles n) w1, check, run, ◌>>=◌)
      (
        flush n d2,
        refl,
        record {
          formed = rw (flush-consoles n d2) (s.formed);
          on_screen = rw (flush-consoles n d2) (s.on_screen);
          cursor_lem = rw (flush-consoles n d2) (s.same_cursor ∙ ap (λ c1. c1.cursor) now);
          others = λ m h.
              rw (flush-consoles n d2) (s.others m h ∙ (ready-consoles n ch d m w ∙ ground arith));
        },
      )

-- A backspace in the first cell of the screen of a console that is not full, and not in the first of
-- the console: the loop of `out_char` never ends.
pub backspace_spins :
    (fuel n : ℕ) (d : Display)
    → IsConsole (d.consoles n)
    → (d.consoles n).is_full ≡ false
    → (d.consoles n).orig < (d.consoles n).cursor
    → (d.consoles n).cursor ≡ (d.consoles n).crtc_start
    → show_cursor fuel n (wrap_around n (place n backspace d)) ≡ err spin
backspace_spins fuel n d w not_full inside first =
    let c : Console = d.consoles n in
    let back : stepped c backspace ≡ c.cursor - 1 = ground arith in
    let stays : (stepped c backspace == c.orig + c.con_size) ≡ false =
      ground (arith, w.cursor_to, back) in
    let now : typed c backspace ≡ record c { cursor = c.cursor - 1 } =
      rw stays (ap (λ k. record c { cursor = k }) back) in
    show_cursor_spins fuel n (ready n backspace d) (typed c backspace)
      (typed-IsConsole c backspace w) (ready-consoles n backspace d n w ∙ ground arith)
      (ap (λ c1. c1.is_full) now ∙ not_full)
      (subst (λ (c1 : Console). c1.cursor < c1.crtc_start) (sym now) (omega (arith, first, inside)))
