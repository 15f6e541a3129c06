-- ===== src/Console/Tests.antt =====
-- A console of 68 lines whose screen starts at the third.
use lwos.Common.{ℕ, ◌==◌, if◌then◌else◌, ◌≡◌, ◌≢◌, refl, inr, false, arith}
use lwos.Fault.{ok}
use lwos.Console.{Console, Display, out_char}
use lwos.Console.Scroll.{IsConsole}
use lwos.Console.Start.{IsReady, init_screen, init_screen-IsReady}
use lwos.Console.Output.{IsTyped, out_char-IsTyped}

abbrev shifted : ℕ → Console
shifted k = record { crtc_start = 5621; orig = 5461; con_size = 5440; cursor = k; is_full = false }

abbrev shifted_screen : ℕ → Display
shifted_screen k = record {
  consoles = λ n. shifted k;
  current = 1;
  video = λ i. 0;
  crtc_cursor = 0;
  crtc_addr = 0;
}

shifted-IsConsole : IsConsole (shifted 7620)
shifted-IsConsole = record {
  lines = 68;
  whole = refl;
  room = omega arith;
  in_memory = omega arith;
  cursor_from = omega arith;
  cursor_to = omega arith;
  top = 2;
  shown = refl;
  shown_to = omega arith;
}

out_char-IsTyped_example :
    (d' : Display) × (out_char 1 65 (shifted_screen 7620) ≡ ok d')
    × IsTyped 1 65 (shifted_screen 7620) d'
out_char-IsTyped_example =
    out_char-IsTyped 1 65 (shifted_screen 7620) shifted-IsConsole (inr (omega arith))

first-IsConsole : IsConsole (shifted 5621)
first-IsConsole = record {
  lines = 68;
  whole = refl;
  room = omega arith;
  in_memory = omega arith;
  cursor_from = omega arith;
  cursor_to = omega arith;
  top = 2;
  shown = refl;
  shown_to = omega arith;
}

init_screen-IsReady_example :
    (d' : Display) × (init_screen 1 320 (shifted_screen 7620) ≡ ok (d', if 1 == 0 then 0 else 320))
    × IsReady 1 d'
    × (d'.crtc_cursor ≡ (d'.consoles 1).cursor)
    × ((m : ℕ) → m ≢ 1 → d'.consoles m ≡ (shifted_screen 7620).consoles m)
init_screen-IsReady_example =
    init_screen-IsReady 1 320 (shifted_screen 7620) (omega arith) (omega arith)
