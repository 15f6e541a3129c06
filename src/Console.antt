-- ===== src/Console.antt =====
-- kernel/console.c: the three screens in video memory, the output of a character and scrolling.
--
-- The fields of a `CONSOLE` are unsigned ints, in words of video memory; differences are written out
-- as they wrap. Video memory is a function from the offset of a byte in it.
pub mod Scroll
pub mod Output
pub mod Start
pub mod Manual
mod Tests
use lwos.Common.{
  ℕ, zero, suc, ◌+◌, ◌-◌, ◌*◌, ◌/◌, ◌%◌, ◌^◌, Bool, true, false, not, ◌&&◌, ◌||◌, ltb, leb, ◌==◌,
  if◌then◌else◌,
}
use lwos.Fault.{Result, ok, err, assertion, spin, check, ◌>>=◌, ◌>>◌}
use lwos.Proc.{update}

pub record Console : Type 0 where
  pub crtc_start : ℕ
  pub orig : ℕ
  pub con_size : ℕ
  pub cursor : ℕ
  pub is_full : Bool

-- `console_table`, `nr_current_console`, video memory, and the two addresses in the registers of the
-- display controller.
pub record Display : Type 0 where
  pub consoles : ℕ → Console
  pub current : ℕ
  pub video : ℕ → ℕ
  pub crtc_cursor : ℕ
  pub crtc_addr : ℕ

abbrev pub screen_width : ℕ
screen_width = 80

abbrev pub screen_size : ℕ
screen_size = 2000

abbrev pub nr_consoles : ℕ
nr_consoles = 3

abbrev pub default_char_color : ℕ
default_char_color = 7

-- `a - b` in an unsigned int.
abbrev pub sub_u32 : ℕ → ℕ → ℕ
sub_u32 a b = (a + 2 ^ 32 - b) % 2 ^ 32

abbrev pub put_console : ℕ → Console → Display → Display
put_console n c d = record d { consoles = update d.consoles n c }

-- `set_cursor` and `set_video_start_addr` write two bytes each.
pub flush : ℕ → Display → Display
flush n d =
    if n == d.current
    then record d {
      crtc_cursor = (d.consoles n).cursor % 2 ^ 16;
      crtc_addr = (d.consoles n).crtc_start % 2 ^ 16;
    }
    else d

pub select_console : ℕ → Display → Display
select_console nr d = if leb nr_consoles nr then d else flush nr (record d { current = nr })

-- The byte at an offset after `clear_screen(pos, len)`.
pub clear_screen : (pos len : ℕ) → (ℕ → ℕ) → ℕ → ℕ
clear_screen pos len video at =
    if leb (pos * 2) at && ltb at ((pos + len) * 2)
    then (if at % 2 == 0 then 32 else default_char_color)
    else video at

-- `w_copy`, a `memcpy` from lower to lower addresses.
pub w_copy : (dst src size : ℕ) → (ℕ → ℕ) → ℕ → ℕ
w_copy dst src size video at =
    if leb (dst * 2) at && ltb at (dst * 2 + size * 2)
    then video (src * 2 + (at - dst * 2))
    else video at

-- The cell under the cursor.
pub put_cell : (word ch : ℕ) → (ℕ → ℕ) → ℕ → ℕ
put_cell word ch video = update (update video (word * 2) ch) (word * 2 + 1) default_char_color

abbrev pub newest : Console → ℕ
newest c = sub_u32 c.cursor c.orig / screen_width * screen_width

abbrev pub oldest : Console → ℕ
oldest c = if c.is_full then (newest c + screen_width) % c.con_size else 0

abbrev pub scr_top : Console → ℕ
scr_top c = sub_u32 c.crtc_start c.orig

-- `crtc_start` after `SCROLL_DOWN`, which shows older lines.
pub scroll_down : Console → ℕ
scroll_down c =
    if not c.is_full && ltb 0 (scr_top c)
    then sub_u32 c.crtc_start screen_width
    else if c.is_full && not (scr_top c == oldest c)
    then (if leb (sub_u32 c.con_size screen_size) (sub_u32 c.cursor c.orig)
        then (if not (c.crtc_start == c.orig)
            then sub_u32 c.crtc_start screen_width
            else c.crtc_start)
        else if c.crtc_start == c.orig
        then c.orig + sub_u32 c.con_size screen_size
        else sub_u32 c.crtc_start screen_width)
    else c.crtc_start

-- `crtc_start` after `SCROLL_UP`.
pub scroll_up : Console → ℕ
scroll_up c =
    if not c.is_full && leb (scr_top c + screen_size) (newest c)
    then c.crtc_start + screen_width
    else if c.is_full && not (scr_top c + screen_size - screen_width == newest c)
    then (if scr_top c + screen_size == c.con_size then c.orig else c.crtc_start + screen_width)
    else c.crtc_start

abbrev pub up : ℕ
up = 0

abbrev pub down : ℕ
down = 1

abbrev pub move_screen : ℕ → ℕ → Display → Display
move_screen n start d = flush n (put_console n (record (d.consoles n) { crtc_start = start }) d)

pub scroll_screen : (n direction : ℕ) → Display → Result Display
scroll_screen n direction d =
    if direction == down
    then ok (move_screen n (scroll_down (d.consoles n)) d)
    else if direction == up
    then ok (move_screen n (scroll_up (d.consoles n)) d)
    else err assertion

-- The test of the `while` of `out_char`: the cursor is not on the part that is shown.
abbrev pub is_off_screen : Console → Bool
is_off_screen c = leb (c.crtc_start + screen_size) c.cursor || ltb c.cursor c.crtc_start

abbrev pub clear_line : ℕ → Display → Display
clear_line n d = record d { video = clear_screen (d.consoles n).cursor screen_width d.video }

pub show_cursor : ℕ → ℕ → Display → Result Display
show_cursor zero n d = err spin
show_cursor (suc fuel) n d =
    let rest = scroll_screen n up d >>= λ d'. show_cursor fuel n (clear_line n d') in
    if is_off_screen (d.consoles n) then rest else ok d

abbrev pub newline : ℕ
newline = 10

abbrev pub backspace : ℕ
backspace = 8

-- The `switch` of `out_char`.
pub place : (n ch : ℕ) → Display → Display
place n ch d =
    let c = d.consoles n in
    if ch == newline
    then (let cursor_y : ℕ = sub_u32 c.cursor c.orig / screen_width in
        put_console n (record c { cursor = c.orig + screen_width * (cursor_y + 1) }) d)
    else if ch == backspace
    then (if ltb c.orig c.cursor
        then record (put_console n (record c { cursor = c.cursor - 1 }) d) {
          video = put_cell (c.cursor - 1) 32 d.video;
        }
        else d)
    else record (put_console n (record c { cursor = c.cursor + 1 }) d) {
      video = put_cell c.cursor ch d.video;
    }

-- The console is full: its last lines move to its start.
pub wrap_around : ℕ → Display → Display
wrap_around n d =
    let c = d.consoles n in
    let cursor_x : ℕ = sub_u32 c.cursor c.orig % screen_width in
    let cursor_y : ℕ = sub_u32 c.cursor c.orig / screen_width in
    let cp_orig : ℕ = sub_u32 (c.orig + (cursor_y + 1) * screen_width) screen_size in
    let video' = w_copy c.orig cp_orig (screen_size - screen_width) d.video in
    let c' : Console = record c {
      crtc_start = c.orig;
      cursor = c.orig + (screen_size - screen_width) + cursor_x;
      is_full = true;
    } in
    if leb c.con_size (sub_u32 c.cursor c.orig)
    then clear_line n (record (put_console n c' d) { video = video' })
    else d

abbrev pub is_inside : Console → Bool
is_inside c = ltb (sub_u32 c.cursor c.orig) c.con_size

-- The loop gets one round for each word of the console.
pub out_char : (n ch : ℕ) → Display → Result Display
out_char n ch d = do
  check (is_inside (d.consoles n)) assertion
  let d1 = wrap_around n (place n ch d)
  check (is_inside (d1.consoles n)) assertion
  d2 ← show_cursor ((d1.consoles n).con_size + 1) n d1
  ok (flush n d2)
