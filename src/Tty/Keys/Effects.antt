-- ===== src/Tty/Keys/Effects.antt =====
-- What the keys do to a terminal: no key stops the system, and the console stays usable.
use lwos.Common.{
  ℕ, ◌+◌, ◌-◌, ◌%◌, ◌≤◌, ◌<◌, ◌≡◌, ◌≢◌, refl, ◌∙◌, sym, ap, Bool, true, false, ◌&&◌, [], ◌∷◌, ◌++◌,
  bit_and, leb, ltb, ◌==◌, if◌then◌else◌, arith, subst, length,
}
use lwos.Common.Bits.{and_0x100}
use lwos.Fault.{Result, ok, ◌>>=◌}
use lwos.Ring.Refine.{IsRing, contents, put-contents}
use lwos.Tty
use lwos.Tty.{Tty, put_key, tty_in_bytes}
use lwos.Tty.Keys.{Terminal, in_process, process_all, tty_dev_read, has_shift, has_alt, type_key}
use lwos.Console.{select_console, scroll_screen}
use lwos.Console.Scroll.{IsConsole, IsAhead}
use lwos.Console.Manual.{scroll_screen-IsScrolled, select_console-consoles}
use lwos.Keyboard.{Keyboard, kb_in_bytes}
use lwos.Keyboard.Keys
use lwos.Keyboard.Decode.{flagged}
use lwos.Keyboard.Decode.Flags.{pressed_key, flagged_low}
use lwos.Keyboard.Decode.Typing.{popped}
use lwos.Keyboard.Decode.Stroke.{held, keyboard_read-stroke}

-- A terminal whose input buffer is valid and whose console can be written on.
pub record IsUsable (n : ℕ) (t : Terminal) : Type 0 where
  pub buffer : IsRing tty_in_bytes t.tty.inbuf
  pub formed : IsConsole (t.display.consoles n)
  pub ahead : IsAhead (t.display.consoles n)

-- What a key leaves alone: the request of the reader, the cursor and the other consoles.
pub record Keeps (n : ℕ) (t t' : Terminal) : Type 0 where
  pub usable : IsUsable n t'
  pub caller : t'.tty.tty_caller ≡ t.tty.tty_caller
  pub procnr : t'.tty.tty_procnr ≡ t.tty.tty_procnr
  pub req_buf : t'.tty.tty_req_buf ≡ t.tty.tty_req_buf
  pub left : t'.tty.tty_left_cnt ≡ t.tty.tty_left_cnt
  pub transferred : t'.tty.tty_trans_cnt ≡ t.tty.tty_trans_cnt
  pub cursor : (t'.display.consoles n).cursor ≡ (t.display.consoles n).cursor
  pub others : (m : ℕ) → m ≢ n → t'.display.consoles m ≡ t.display.consoles m

abbrev Goes : ℕ → Terminal → Result Terminal → Type 0
Goes n t run = (t' : Terminal) × (run ≡ ok t') × Keeps n t t'

module _ (n : ℕ) (t : Terminal) (u : IsUsable n t) where
  same : Goes n t (ok t)
  same = (
    t,
    refl,
    record {
      usable = u;
      caller = refl;
      procnr = refl;
      req_buf = refl;
      left = refl;
      transferred = refl;
      cursor = refl;
      others = λ m h. refl;
    },
  )

  typed : (key : ℕ) → Goes n t (ok (type_key key t))
  unfolding put_key
  typed key = (
    type_key key t,
    refl,
    record {
      usable = record {
        buffer = (put-contents tty_in_bytes (t.tty.inbuf) key (u.buffer)).0;
        formed = u.formed;
        ahead = u.ahead;
      };
      caller = refl;
      procnr = refl;
      req_buf = refl;
      left = refl;
      transferred = refl;
      cursor = refl;
      others = λ m h. refl;
    },
  )

  scrolls :
      (direction : ℕ)
      → direction ≤ 1
      → Goes n t (scroll_screen n direction t.display >>= λ d. ok (record t { display = d }))
  scrolls direction h =
      let (d, run, s) = scroll_screen-IsScrolled n direction (t.display) (u.formed) (u.ahead) h in
      rw (run, ◌>>=◌)
        (
          record t { display = d },
          refl,
          record {
            usable = record { buffer = u.buffer; formed = s.formed; ahead = s.ahead };
            caller = refl;
            procnr = refl;
            req_buf = refl;
            left = refl;
            transferred = refl;
            cursor = s.same_cursor;
            others = s.others;
          },
        )

  selects : (nr : ℕ) → Goes n t (ok (record t { display = select_console nr t.display }))
  selects nr =
      let e = select_console-consoles nr (t.display) in
      (
        record t { display = select_console nr t.display },
        refl,
        record {
          usable = record {
            buffer = u.buffer;
            formed = subst (λ cs. IsConsole (cs n)) (sym e) (u.formed);
            ahead = subst (λ cs. IsAhead (cs n)) (sym e) (u.ahead);
          };
          caller = refl;
          procnr = refl;
          req_buf = refl;
          left = refl;
          transferred = refl;
          cursor = ap (λ cs. (cs n).cursor) e;
          others = λ m h. ap (λ cs. cs m) e;
        },
      )

  either :
      (b : Bool) {run run' : Result Terminal}
      → Goes n t run
      → Goes n t run'
      → Goes n t (if b then run else run')
  either true g g' = g
  either false g g' = g'

  -- Whatever key a usable terminal is given, in_process succeeds: the input buffer stays valid, the
  -- console stays well formed and keeps its cursor, and the request of a reader and the other consoles
  -- are as they were.
  pub in_process-Keeps : (key : ℕ) → (t' : Terminal) × (in_process n key t ≡ ok t') × Keeps n t t'
  unfolding in_process
  in_process-Keeps key =
      let raw_code : ℕ = bit_and key 511 in
      either (bit_and key Keys.flag_ext == 0) (typed key) (
        either (raw_code == Keys.enter) (typed Tty.newline) (
          either (raw_code == Keys.backspace) (typed Tty.backspace) (
            either (raw_code == Keys.up) (either (has_shift key) (scrolls 1 (omega arith)) same) (
              either (raw_code == Keys.down) (either (has_shift key) (scrolls 0 (omega arith)) same)
                (either ((leb Keys.f1 raw_code && leb raw_code Keys.f12) && has_alt key)
                  (selects (raw_code - Keys.f1)) same)))))

-- A key without the flag of the others is put into the buffer as it is.
in_process-char :
    (n key : ℕ) (t : Terminal) → key % 512 < 256 → in_process n key t ≡ ok (type_key key t)
unfolding in_process
in_process-char n key t char =
    let plain : (bit_and key Keys.flag_ext == 0) ≡ true = ground (arith, and_0x100 key) in
    rw plain refl

flagged-char : (k : Keyboard) (key : ℕ) → key < 256 → flagged k key % 512 < 256
flagged-char k key char = ground (arith, flagged_low k key)

-- On the terminal that is shown, if the keyboard's buffer holds the make and the break code of a key
-- that is a character in the column chosen, tty_dev_read puts exactly that character with the flags
-- of the held keys into the terminal's input buffer, behind what is there, if there is room; it
-- empties the keyboard's buffer and leaves held keys and locks as they were.
pub tty_dev_read-stroke :
    (n : ℕ) (k : Keyboard) (t : Terminal) (code : ℕ)
    → n ≡ t.display.current
    → IsRing kb_in_bytes k.kb_in
    → contents kb_in_bytes k.kb_in ≡ code ∷ (code + 128) ∷ []
    → code < 96
    → pressed_key code (popped k) < 256
    → IsRing tty_in_bytes t.tty.inbuf
    → length (contents tty_in_bytes t.tty.inbuf) < tty_in_bytes
    → (k' : Keyboard) × (t' : Terminal) × (tty_dev_read n k t ≡ ok (k', t'))
      × (contents tty_in_bytes t'.tty.inbuf
          ≡ contents tty_in_bytes t.tty.inbuf ++ (flagged k (pressed_key code (popped k)) ∷ []))
      × (k'.kb_in.count ≡ 0)
      × (held k' ≡ held k)
unfolding tty_dev_read process_all put_key
tty_dev_read-stroke n k t code shown ring holds low char buffer room =
    let key : ℕ = flagged k (pressed_key code (popped k)) in
    let (k', run, emptied, as_before) = keyboard_read-stroke k code ring holds low char in
    let here : (n == t.display.current) ≡ true = ground arith in
    let fits : ltb (length (contents tty_in_bytes t.tty.inbuf)) tty_in_bytes ≡ true =
      ground arith in
    let (valid, added) = put-contents tty_in_bytes (t.tty.inbuf) key buffer in
    rw
      (
        here,
        run,
        ◌>>=◌,
        in_process-char n key t (flagged-char k (pressed_key code (popped k)) char),
        ◌>>=◌,
      )
      (k', type_key key t, refl, added ∙ rw fits refl, emptied, as_before)
