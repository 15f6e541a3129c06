-- ===== src/Console/Manual.antt =====
-- Scrolling by hand, in both directions, and the choice of a console.
use lwos.Common.{
  ℕ, ◌+◌, ◌-◌, ◌*◌, ◌≤◌, ◌<◌, ◌≡◌, ◌≢◌, ◌⊎◌, inl, inr, refl, ◌∙◌, sym, ap, true, not, ◌&&◌, ltb,
  leb, ◌==◌, arith, Bool-cases, subst,
}
use lwos.Fault.{ok}
use lwos.Proc.{update}
use lwos.Console.{
  Console, Display, sub_u32, scroll_up, scroll_down, screen_size, screen_width, scroll_screen,
  move_screen, flush, select_console, up, down, oldest, scr_top,
}
use lwos.Console.Scroll.{
  IsConsole, IsAhead, sub_u32_plain, scroll_up-IsConsole, scroll_up_lines, scr_top_lines,
}

-- A place for the top of the screen.
record IsTop (c : Console) (w : IsConsole c) (start : ℕ) : Type 0 where
  line : ℕ
  at : start ≡ c.orig + line * screen_width
  fits : line + 25 ≤ w.lines
  back : (c.is_full ≡ true) ⊎ (start ≤ c.crtc_start)

module _ (c : Console) (w : IsConsole c) where
  top_fits : w.top + 25 ≤ w.lines
  top_fits = omega (arith, w.shown, w.shown_to, w.whole)

  stays : IsTop c w (c.crtc_start)
  stays = record { line = w.top; at = w.shown; fits = top_fits; back = inr (omega arith) }

  one_back : c.orig < c.crtc_start → IsTop c w (sub_u32 c.crtc_start screen_width)
  one_back h =
      let less : sub_u32 c.crtc_start screen_width ≡ c.crtc_start - screen_width =
        sub_u32_plain (c.crtc_start) screen_width (omega (arith, w.shown))
          (omega (arith, w.shown_to, w.in_memory)) in
      record {
        line = w.top - 1;
        at = omega (arith, less, w.shown);
        fits = omega (arith, top_fits);
        back = inr (omega (arith, less));
      }

  last_screen : c.is_full ≡ true → IsTop c w (c.orig + sub_u32 c.con_size screen_size)
  last_screen full = record {
    line = w.lines - 25;
    at = omega (arith, w.whole, w.in_memory, w.room);
    fits = omega (arith, w.whole, w.room);
    back = inl full;
  }

  scroll_down-IsTop : IsTop c w (scroll_down c)
  unfolding scroll_down
  scroll_down-IsTop = elim (Bool-cases (not c.is_full && ltb 0 (scr_top c))) [
    | inl below ↦ rw below (one_back (ground (arith, scr_top_lines c w, w.shown)))
    | inr other ↦ rw other (elim (Bool-cases (c.is_full && not (scr_top c == oldest c))) [
      | inr fixed ↦ rw fixed stays
      | inl differs ↦
          rw differs
            (elim (Bool-cases (leb (sub_u32 c.con_size screen_size) (sub_u32 c.cursor c.orig))) [
              | inl end ↦ rw end (elim (Bool-cases (c.crtc_start == c.orig)) [
                | inl first ↦ rw first stays
                | inr later ↦ rw later (one_back (ground (arith, w.shown)))
              ])
              | inr inside ↦ rw inside (elim (Bool-cases (c.crtc_start == c.orig)) [
                | inl first ↦ rw first (last_screen (ground arith))
                | inr later ↦ rw later (one_back (ground (arith, w.shown)))
              ])
            ])
    ])
  ]

  IsTop-IsConsole : (start : ℕ) → IsTop c w start → IsConsole (record c { crtc_start = start })
  IsTop-IsConsole start t = record {
    lines = w.lines;
    whole = w.whole;
    room = w.room;
    in_memory = w.in_memory;
    cursor_from = w.cursor_from;
    cursor_to = w.cursor_to;
    top = t.line;
    shown = t.at;
    shown_to = omega (arith, t.at, t.fits, w.whole);
  }

  scroll_up-IsAhead : IsAhead c → IsAhead (record c { crtc_start = scroll_up c })
  scroll_up-IsAhead (inl full) = inl full
  scroll_up-IsAhead (inr before) = elim (Bool-cases c.is_full) [
    | inl full ↦ inl full
    | inr growing ↦ inr (ground (arith, scroll_up_lines c w, growing, w.shown, w.cursor_from))
  ]

  scroll_down-IsAhead : IsAhead c → IsAhead (record c { crtc_start = scroll_down c })
  scroll_down-IsAhead (inl full) = inl full
  scroll_down-IsAhead (inr before) = elim scroll_down-IsTop.back [
    | inl full ↦ inl full
    | inr earlier ↦ inr (omega arith)
  ]

move_screen-consoles :
    (n start : ℕ) (d : Display) (m : ℕ)
    → (move_screen n start d).consoles m
      ≡ update (d.consoles) n (record (d.consoles n) { crtc_start = start }) m
unfolding flush
move_screen-consoles n start d m = ground arith

-- A well-formed console that scrolling up comes to the cursor of stays so, keeps its cursor, and the
-- others are as they were.
pub record IsScrolled (n : ℕ) (d d' : Display) : Type 0 where
  pub formed : IsConsole (d'.consoles n)
  pub ahead : IsAhead (d'.consoles n)
  pub same_cursor : (d'.consoles n).cursor ≡ (d.consoles n).cursor
  pub others : (m : ℕ) → m ≢ n → d'.consoles m ≡ d.consoles m

move_screen-IsScrolled :
    (n start : ℕ) (d : Display)
    → IsConsole (record (d.consoles n) { crtc_start = start })
    → IsAhead (record (d.consoles n) { crtc_start = start })
    → IsScrolled n d (move_screen n start d)
move_screen-IsScrolled n start d w ahead =
    let now : (move_screen n start d).consoles n ≡ record (d.consoles n) { crtc_start = start } =
      move_screen-consoles n start d n ∙ ground arith in
    record {
      formed = subst IsConsole (sym now) w;
      ahead = subst IsAhead (sym now) ahead;
      same_cursor = ap (λ c. c.cursor) now;
      others = λ m other. move_screen-consoles n start d m ∙ ground arith;
    }

-- Scrolling in either direction, on a well-formed console whose cursor can be reached by scrolling
-- up: it succeeds, the console stays such a one and keeps its cursor, and the others are as they were.
pub scroll_screen-IsScrolled :
    (n direction : ℕ) (d : Display)
    → IsConsole (d.consoles n)
    → IsAhead (d.consoles n)
    → direction ≤ 1
    → (d' : Display) × (scroll_screen n direction d ≡ ok d') × IsScrolled n d d'
unfolding scroll_screen
scroll_screen-IsScrolled n direction d w ahead h = elim (Bool-cases (direction == down)) [
  | inl older ↦ rw older (
    move_screen n (scroll_down (d.consoles n)) d,
    refl,
    move_screen-IsScrolled n (scroll_down (d.consoles n)) d
        (IsTop-IsConsole (d.consoles n) w _ (scroll_down-IsTop (d.consoles n) w))
        (scroll_down-IsAhead (d.consoles n) w ahead),
  )
  | inr newer ↦
      let is_up : (direction == up) ≡ true = ground arith in
      rw (newer, is_up)
        (
          move_screen n (scroll_up (d.consoles n)) d,
          refl,
          move_screen-IsScrolled n (scroll_up (d.consoles n)) d
              (scroll_up-IsConsole (d.consoles n) w) (scroll_up-IsAhead (d.consoles n) w ahead),
        )
]

-- Another console on the screen changes none of them.
pub select_console-consoles : (nr : ℕ) (d : Display) → (select_console nr d).consoles ≡ d.consoles
unfolding select_console flush
select_console-consoles nr d = elim (Bool-cases (leb 3 nr)) [
  | inl beyond ↦ rw beyond refl
  | inr one ↦ rw one (ground arith)
]
