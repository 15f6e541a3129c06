-- ===== src/Console/Scroll.antt =====
-- What a well-formed console is, that scrolling keeps it so, and that the loop of `out_char` brings
-- the cursor on the screen.
use lwos.Common.{
  ℕ, zero, suc, ◌+◌, ◌-◌, ◌*◌, ◌/◌, ◌^◌, ◌≤◌, ◌<◌, ◌≡◌, ◌≢◌, ◌⊎◌, inl, inr, refl, ◌∙◌, sym, ap,
  Bool, true, false, not, ◌&&◌, ◌||◌, ltb, leb, ◌==◌, if◌then◌else◌, arith, Bool-cases, subst,
}
use lwos.Fault.{ok, err, spin, ◌>>=◌}
use lwos.Proc.{update}
use lwos.Console.{
  Console, Display, sub_u32, newest, scr_top, scroll_up, is_off_screen, screen_size, screen_width,
  scroll_screen, move_screen, clear_line, flush, show_cursor, up,
}

-- Whole lines, with room for a screen and the cursor among them, below the end of video memory; the
-- part that is shown starts at a line.
pub record IsConsole (c : Console) : Type 0 where
  pub lines : ℕ
  pub whole : c.con_size ≡ lines * screen_width
  pub room : screen_size ≤ c.con_size
  pub in_memory : c.orig + c.con_size ≤ 16384
  pub cursor_from : c.orig ≤ c.cursor
  pub cursor_to : c.cursor < c.orig + c.con_size
  pub top : ℕ
  pub shown : c.crtc_start ≡ c.orig + top * screen_width
  pub shown_to : c.crtc_start + screen_size ≤ c.orig + c.con_size

-- The line of the cursor, from the top of the console.
abbrev pub cursor_line : Console → ℕ
cursor_line c = (c.cursor - c.orig) / screen_width

pub sub_u32_plain : (a b : ℕ) → b ≤ a → a < 2 ^ 32 → sub_u32 a b ≡ a - b
sub_u32_plain a b h k = omega arith

-- The line at the top of the screen after `scroll_up`, from the one before.
abbrev next_line : (full : Bool) → (top lines line : ℕ) → ℕ
next_line full top lines line =
    if not full && leb (top + 25) line
    then top + 1
    else if full && not (top + 24 == line)
    then (if top + 25 == lines then 0 else top + 1)
    else top

-- A bound on the rounds of the loop.
abbrev rounds : (top lines line : ℕ) → ℕ
rounds top lines line = if leb top line then line - (top + 24) else (lines - (top + 25)) + 1 + line

rounds-next_line :
    (full : Bool) (top lines line : ℕ)
    → top + 25 ≤ lines
    → line < lines
    → (full ≡ true) ⊎ (top ≤ line)
    → (leb (top + 25) line || ltb line top) ≡ true
    → (rounds (next_line full top lines line) lines line < rounds top lines line)
      × ((full ≡ true) ⊎ (next_line full top lines line ≤ line))
rounds-next_line true top lines line fits inside ahead off = (ground arith, inl refl)
rounds-next_line false top lines line fits inside (inl full) off = cc
rounds-next_line false top lines line fits inside (inr before) off =
    (ground arith, inr (ground arith))

-- `scroll_up` in lines of the console.
module _ (c : Console) (w : IsConsole c) where
  newest_lines : newest c ≡ cursor_line c * screen_width
  newest_lines =
      ap (λ n. n / screen_width * screen_width)
        (sub_u32_plain (c.cursor) (c.orig) (w.cursor_from)
          (omega (arith, w.cursor_to, w.in_memory)))

  pub scr_top_lines : scr_top c ≡ w.top * screen_width
  scr_top_lines = omega (
    arith,
    sub_u32_plain (c.crtc_start) (c.orig) (omega (arith, w.shown))
        (omega (arith, w.shown_to, w.in_memory)),
    w.shown,
  )

  pub scroll_up_lines : scroll_up c ≡ (
      if not c.is_full && leb (w.top + 25) (cursor_line c)
      then c.crtc_start + screen_width
      else if c.is_full && not (w.top + 24 == cursor_line c)
      then (if w.top + 25 == w.lines then c.orig else c.crtc_start + screen_width)
      else c.crtc_start)
  unfolding scroll_up
  scroll_up_lines = rw (newest_lines, scr_top_lines, w.whole) (ground arith)

  abbrev next_top : ℕ
  next_top = next_line (c.is_full) (w.top) (w.lines) (cursor_line c)

  scroll_up-next_top : scroll_up c ≡ c.orig + next_top * screen_width
  scroll_up-next_top = scroll_up_lines ∙ ground (arith, w.shown)

  line-lt : cursor_line c < w.lines
  line-lt = omega (arith, w.cursor_from, w.cursor_to, w.whole)

  top-le : w.top + 25 ≤ w.lines
  top-le = omega (arith, w.shown, w.shown_to, w.whole)

  next_top-le : next_top + 25 ≤ w.lines
  next_top-le = ground (arith, line-lt, top-le)

  pub scroll_up-IsConsole : IsConsole (record c { crtc_start = scroll_up c })
  scroll_up-IsConsole = record {
    lines = w.lines;
    whole = w.whole;
    room = w.room;
    in_memory = w.in_memory;
    cursor_from = w.cursor_from;
    cursor_to = w.cursor_to;
    top = next_top;
    shown = scroll_up-next_top;
    shown_to = omega (arith, scroll_up-next_top, next_top-le, w.whole);
  }

  is_off_screen_lines :
      is_off_screen c ≡ (leb (w.top + 25) (cursor_line c) || ltb (cursor_line c) (w.top))
  is_off_screen_lines = ground (arith, w.shown, w.cursor_from)

-- Scrolling up comes to the cursor: it is not above the screen, or the screen wraps around.
abbrev pub IsAhead : Console → Type 0
IsAhead c = (c.is_full ≡ true) ⊎ (c.crtc_start ≤ c.cursor)

ahead_lines :
    (c : Console) (w : IsConsole c) → IsAhead c → (c.is_full ≡ true) ⊎ (w.top ≤ cursor_line c)
ahead_lines c w (inl full) = inl full
ahead_lines c w (inr before) = inr (omega (arith, w.shown))

-- What the loop leaves of the console.
pub record IsShown (n : ℕ) (d d' : Display) : Type 0 where
  pub formed : IsConsole (d'.consoles n)
  pub on_screen : is_off_screen (d'.consoles n) ≡ false
  pub same_cursor : (d'.consoles n).cursor ≡ (d.consoles n).cursor
  pub others : (m : ℕ) → m ≢ n → d'.consoles m ≡ d.consoles m

-- The display after one round.
abbrev scrolled : ℕ → Display → Display
scrolled n d = clear_line n (move_screen n (scroll_up (d.consoles n)) d)

pub scrolled-consoles :
    (n : ℕ) (d : Display) (m : ℕ)
    → (scrolled n d).consoles m
      ≡ update (d.consoles) n (record (d.consoles n) { crtc_start = scroll_up (d.consoles n) }) m
unfolding flush
scrolled-consoles n d m = ground arith

pub scroll_screen-up :
    (n : ℕ) (d : Display) → scroll_screen n up d ≡ ok (move_screen n (scroll_up (d.consoles n)) d)
unfolding scroll_screen
scroll_screen-up n d = refl

show_cursor-IsShown :
    (fuel n : ℕ) (d : Display) (c : Console) (w : IsConsole c)
    → d.consoles n ≡ c
    → rounds (w.top) (w.lines) (cursor_line c) < fuel
    → (c.is_full ≡ true) ⊎ (w.top ≤ cursor_line c)
    → (d' : Display) × (show_cursor fuel n d ≡ ok d') × IsShown n d d'
unfolding show_cursor scroll_up-IsConsole
show_cursor-IsShown zero n d c w at enough ahead = absurd (omega arith)
show_cursor-IsShown (suc fuel) n d c w at enough ahead = elim (Bool-cases (is_off_screen c)) [
  | inl off ↦
      let (fewer, ahead') =
        rounds-next_line (c.is_full) (w.top) (w.lines) (cursor_line c) (top-le c w) (line-lt c w)
          ahead (sym (is_off_screen_lines c w) ∙ off) in
      let now : (scrolled n d).consoles n ≡ record c { crtc_start = scroll_up c } =
        scrolled-consoles n d n
        ∙ (ground arith ∙ ap (λ (c1 : Console). record c1 { crtc_start = scroll_up c1 }) at) in
      let (d', run, s) =
        show_cursor-IsShown fuel n (scrolled n d) (record c { crtc_start = scroll_up c })
          (scroll_up-IsConsole c w) now (omega (arith, fewer)) ahead' in
      let off' : is_off_screen (d.consoles n) ≡ true = ap is_off_screen at ∙ off in
      rw (off', scroll_screen-up n d, ◌>>=◌)
        (
          d',
          run,
          record {
            formed = s.formed;
            on_screen = s.on_screen;
            same_cursor =
                s.same_cursor ∙ (ap (λ c1. c1.cursor) now ∙ ap (λ c1. c1.cursor) (sym at));
            others = λ m h. s.others m h ∙ (scrolled-consoles n d m ∙ ground arith);
          },
        )
  | inr on ↦
      let on' : is_off_screen (d.consoles n) ≡ false = ap is_off_screen at ∙ on in
      rw on' (
        d,
        refl,
        record {
          formed = subst IsConsole (sym at) w;
          on_screen = on';
          same_cursor = refl;
          others = λ m h. refl;
        },
      )
]

-- The loop of `out_char` ends with the cursor on the screen.
pub show_cursor_lem :
    (n : ℕ) (d : Display)
    → IsConsole (d.consoles n)
    → IsAhead (d.consoles n)
    → (d' : Display) × (show_cursor ((d.consoles n).con_size + 1) n d ≡ ok d') × IsShown n d d'
show_cursor_lem n d w ahead =
    let c : Console = d.consoles n in
    show_cursor-IsShown (c.con_size + 1) n d c w refl
      (ground (arith, w.whole, line-lt c w, top-le c w)) (ahead_lines c w ahead)

-- Above the screen of a console that is not full, scrolling up does not move the screen, and no
-- number of rounds ends the loop.
pub show_cursor_spins :
    (fuel n : ℕ) (d : Display) (c : Console)
    → IsConsole c
    → d.consoles n ≡ c
    → c.is_full ≡ false
    → c.cursor < c.crtc_start
    → show_cursor fuel n d ≡ err spin
unfolding show_cursor
show_cursor_spins zero n d c w at not_full above = refl
show_cursor_spins (suc fuel) n d c w at not_full above =
    let off : is_off_screen (d.consoles n) ≡ true = ap is_off_screen at ∙ ground arith in
    let still : scroll_up c ≡ c.crtc_start =
      scroll_up_lines c w ∙ ground (arith, w.cursor_from, w.shown) in
    let now : (scrolled n d).consoles n ≡ c =
      scrolled-consoles n d n
      ∙ (ground arith
          ∙ (ap (λ (c1 : Console). record c1 { crtc_start = scroll_up c1 }) at
              ∙ ap (λ s. record c { crtc_start = s }) still)) in
    let rest = show_cursor_spins fuel n (scrolled n d) c w now not_full above in
    rw (off, scroll_screen-up n d, ◌>>=◌) rest
