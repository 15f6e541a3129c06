-- ===== src/Console/Start.antt =====
-- `init_screen` of kernel/console.c, and the output of a whole string, as its prompt is printed.
use lwos.Common.{
  ℕ, zero, suc, ◌+◌, ◌*◌, ◌/◌, ◌%◌, ◌^◌, ◌≤◌, ◌<◌, ◌≡◌, ◌≢◌, inr, refl, ◌∙◌, sym, ap, false, ◌==◌,
  if◌then◌else◌, arith, subst, List, [], ◌∷◌, map,
}
use lwos.Fault.{Result, ok, ◌>>=◌}
use lwos.Proc.{update}
use lwos.Console.{
  Console, Display, out_char, is_off_screen, screen_width, nr_consoles, backspace, put_console,
}
use lwos.Console.Scroll.{IsConsole}
use lwos.Console.Output.{stepped, out_char-IsTyped}

-- `for (; *p; p++) out_char(…, *p)`.
unfoldable pub out_string : ℕ → List ℕ → Display → Result Display
out_string n [] d = ok d
out_string n (ch ∷ chars) d = out_char n ch d >>= λ d'. out_string n chars d'

-- `"[TTY #?]\n"` with the number of the terminal for its `?`.
abbrev prompt : ℕ → List ℕ
prompt nr_tty =
    map (λ ch. if ch == 63 then nr_tty + 48 else ch)
      (91 ∷ 84 ∷ 84 ∷ 89 ∷ 32 ∷ 35 ∷ 63 ∷ 93 ∷ 10 ∷ [])

abbrev pub video_mem_size : ℕ
video_mem_size = 32768

-- A console with nothing on it.
pub fresh : ℕ → Console
fresh nr_tty =
    let size_per_con : ℕ = video_mem_size / 2 / nr_consoles in
    let start : ℕ = size_per_con * nr_tty in
    record {
      crtc_start = start;
      orig = start;
      con_size = size_per_con / screen_width * screen_width;
      cursor = start;
      is_full = false;
    }

-- `set_cursor` writes the two bytes of the position.
pub set_cursor : ℕ → Display → Display
set_cursor position d = record d { crtc_cursor = position % 2 ^ 16 }

-- The first console goes on where the start of the system stopped to print, at `disp_pos`, which is 0
-- afterwards.
pub init_screen : (nr_tty disp_pos : ℕ) → Display → Result (Display × ℕ)
init_screen nr_tty disp_pos d = do
  let c = fresh nr_tty
  let first : Display = put_console nr_tty (record c { cursor = disp_pos / 2 }) d
  d' ← if nr_tty == 0 then ok first else out_string nr_tty (prompt nr_tty) (put_console nr_tty c d)
  ok (set_cursor (d'.consoles nr_tty).cursor d', if nr_tty == 0 then 0 else disp_pos)

-- A well-formed console with its cursor on the screen.
pub record IsReady (n : ℕ) (d : Display) : Type 0 where
  pub formed : IsConsole (d.consoles n)
  pub on_screen : is_off_screen (d.consoles n) ≡ false

-- Only a backspace moves the cursor back.
stepped_forward :
    (c : Console) (ch : ℕ)
    → IsConsole c
    → is_off_screen c ≡ false
    → ch ≢ backspace
    → c.crtc_start ≤ stepped c ch
stepped_forward c ch w on plain = ground (arith, w.cursor_from)

pub data NoBackspace : List ℕ → Type 0 where
  end : NoBackspace []
  more : {ch : ℕ} {chars : List ℕ} → ch ≢ backspace → NoBackspace chars → NoBackspace (ch ∷ chars)

-- A string without a backspace is put out on a console whose cursor is on the screen with no
-- assertion failing and no loop that does not end; afterwards the console is well formed, its cursor
-- is on the screen again, and the other consoles are as they were.
pub out_string-IsReady :
    (n : ℕ) (chars : List ℕ) (d : Display)
    → IsReady n d
    → NoBackspace chars
    → (d' : Display) × (out_string n chars d ≡ ok d')
      × IsReady n d'
      × ((m : ℕ) → m ≢ n → d'.consoles m ≡ d.consoles m)
unfolding out_string
out_string-IsReady n [] d r end = (d, refl, r, λ m h. refl)
out_string-IsReady n (ch ∷ chars) d r (more plain rest) =
    let (d1, run, t) =
      out_char-IsTyped n ch d r.formed
        (inr (stepped_forward (d.consoles n) ch r.formed r.on_screen plain)) in
    let (d2, run', r', others) =
      out_string-IsReady n chars d1 (record { formed = t.formed; on_screen = t.on_screen }) rest in
    rw (run, ◌>>=◌) (d2, run', r', λ m h. others m h ∙ t.others m h)

fresh-IsConsole :
    (nr k at : ℕ)
    → nr < nr_consoles
    → k < 2000
    → at ≡ 5461 * nr + k
    → IsConsole (record (fresh nr) { cursor = at })
unfolding fresh
fresh-IsConsole nr k at h on e = record {
  lines = 68;
  whole = refl;
  room = omega arith;
  in_memory = omega arith;
  cursor_from = omega arith;
  cursor_to = omega arith;
  top = 0;
  shown = omega arith;
  shown_to = omega arith;
}

fresh-on_screen :
    (nr k at : ℕ)
    → nr < nr_consoles
    → k < 2000
    → at ≡ 5461 * nr + k
    → is_off_screen (record (fresh nr) { cursor = at }) ≡ false
unfolding fresh
fresh-on_screen nr k at h on e = ground arith

started :
    (nr k at : ℕ) (d : Display)
    → nr < nr_consoles
    → k < 2000
    → at ≡ 5461 * nr + k
    → IsReady nr (put_console nr (record (fresh nr) { cursor = at }) d)
started nr k at d h on e =
    let now : update (d.consoles) nr (record (fresh nr) { cursor = at }) nr
        ≡ record (fresh nr) { cursor = at } =
      ground arith in
    record {
      formed = subst IsConsole (sym now) (fresh-IsConsole nr k at h on e);
      on_screen = ap is_off_screen now ∙ fresh-on_screen nr k at h on e;
    }

prompt-NoBackspace : (nr : ℕ) → NoBackspace (prompt nr)
prompt-NoBackspace nr = more (omega arith) (
    more (omega arith) (
      more (omega arith) (
        more (omega arith) (
          more (omega arith) (
            more (omega arith)
              (more (omega arith) (more (omega arith) (more (omega arith) end))))))))

-- For each of the three consoles, and a first one whose text so far is on the screen, init_screen
-- comes to its end; it leaves the console well formed with its cursor on the screen and in the
-- display controller, the other consoles as they were, and 0 in disp_pos if the console is the first.
pub init_screen-IsReady :
    (nr disp_pos : ℕ) (d : Display)
    → nr < nr_consoles
    → disp_pos < 4000
    → (d' : Display) × (init_screen nr disp_pos d ≡ ok (d', if nr == 0 then 0 else disp_pos))
      × IsReady nr d'
      × (d'.crtc_cursor ≡ (d'.consoles nr).cursor)
      × ((m : ℕ) → m ≢ nr → d'.consoles m ≡ d.consoles m)
unfolding init_screen set_cursor fresh
init_screen-IsReady zero disp_pos d h on =
    let r = started 0 (disp_pos / 2) (disp_pos / 2) d h (omega arith) (omega arith) in
    (
      set_cursor (disp_pos / 2) (put_console 0 (record (fresh 0) { cursor = disp_pos / 2 }) d),
      refl,
      record { formed = r.formed; on_screen = r.on_screen },
      omega arith,
      λ m other. ground arith,
    )
init_screen-IsReady (suc n) disp_pos d h on =
    let (d1, run, r, others) =
      out_string-IsReady (suc n) (prompt (suc n)) (put_console (suc n) (fresh (suc n)) d)
        (started (suc n) 0 (fresh (suc n)).cursor d h (omega arith) (omega arith))
        (prompt-NoBackspace (suc n)) in
    let later : (suc n == 0) ≡ false = ground arith in
    rw (later, run, ◌>>=◌)
      (
        set_cursor (d1.consoles (suc n)).cursor d1,
        refl,
        record { formed = r.formed; on_screen = r.on_screen },
        omega (arith, r.formed.cursor_to, r.formed.in_memory),
        λ m other. others m other ∙ ground arith,
      )
