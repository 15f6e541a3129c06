-- ===== src/Tty/Tests.antt =====
-- Runs of a terminal.
use lwos.Common.{ℕ, ◌≡◌, ◌≢◌, refl, false, [], ◌∷◌, arith, replicate}
use lwos.Ring.{Ring, put}
use lwos.Ring.Refine.{IsRing, contents, put-contents}
use lwos.Fault.{ok}
use lwos.Console.{Console, Display}
use lwos.Console.Start.{IsReady, NoBackspace, out_string}
use lwos.Tty.{Session, bytes, tty_dev_write}
use lwos.Tty.Line.{Request, Typed, Answered}
use lwos.Tty.Output.{tty_do_write, syscall_ret, tty_do_write-bytes}
use lwos.Tty.Read.{Buffered, tty_dev_write-Typed, tty_dev_write-Answered}

-- A buffer of four values, of which the two from index 3 on are waiting.
abbrev small : Ring
small = record { buf = 7 ∷ 0 ∷ 0 ∷ 5 ∷ []; head = 1; tail = 3; count = 2 }

small-IsRing : IsRing 4 small
small-IsRing = record {
  storage = refl;
  positive = omega arith;
  tail_in = omega arith;
  fits = omega arith;
  ahead = refl;
}

put-contents_example : IsRing 4 (put 4 small 9) × (contents 4 (put 4 small 9) ≡ 5 ∷ 7 ∷ 9 ∷ [])
put-contents_example = put-contents 4 small 9 small-IsRing

-- The keys 'a' and newline wait; the line "xyz" was typed before.
abbrev keys : Ring
keys = record { buf = 97 ∷ 10 ∷ replicate 254 0; head = 2; tail = 0; count = 2 }

abbrev typing : Session
typing = record {
  tty = record {
    inbuf = keys;
    tty_caller = 3;
    tty_procnr = 6;
    tty_req_buf = 500;
    tty_left_cnt = 5;
    tty_trans_cnt = 3;
  };
  mem = λ at. at;
  effects = [];
}

abbrev request : Request
request = record { source = 3; procnr = 6; la = 500; cnt = 8 }

keys-Buffered : Buffered (97 ∷ 10 ∷ []) typing
keys-Buffered = record {
  valid = record {
    storage = refl;
    positive = omega arith;
    tail_in = omega arith;
    fits = omega arith;
    ahead = refl;
  };
  held = refl;
}

typing-Typed : Typed request (500 ∷ 501 ∷ 502 ∷ []) typing
typing-Typed = record { reader = refl; on_behalf = refl; buffer = refl; stored = refl; left = refl }

tty_dev_write-Typed_example :
    Typed request (500 ∷ 501 ∷ 502 ∷ 97 ∷ []) (tty_dev_write typing)
    × Buffered (10 ∷ []) (tty_dev_write typing)
tty_dev_write-Typed_example =
    tty_dev_write-Typed request (500 ∷ 501 ∷ 502 ∷ []) typing 97 (10 ∷ []) keys-Buffered
      typing-Typed (omega arith) refl

-- The last character of the request is typed.
abbrev full : Request
full = record { source = 3; procnr = 6; la = 500; cnt = 4 }

abbrev almost_full : Session
almost_full = record typing { tty = record (typing.tty) { tty_left_cnt = 1 } }

almost_full-Typed : Typed full (500 ∷ 501 ∷ 502 ∷ []) almost_full
almost_full-Typed = record {
  reader = refl;
  on_behalf = refl;
  buffer = refl;
  stored = refl;
  left = refl;
}

almost_full-Buffered : Buffered (97 ∷ 10 ∷ []) almost_full
almost_full-Buffered = record { valid = keys-Buffered.valid; held = refl }

tty_dev_write-Answered_example :
    Answered full (500 ∷ 501 ∷ 502 ∷ 97 ∷ []) (tty_dev_write almost_full)
    × Buffered (10 ∷ []) (tty_dev_write almost_full)
tty_dev_write-Answered_example =
    tty_dev_write-Answered full (500 ∷ 501 ∷ 502 ∷ []) almost_full 97 (10 ∷ []) almost_full-Buffered
      almost_full-Typed (omega arith) refl

abbrev console : Console
console = record { crtc_start = 0; orig = 0; con_size = 5440; cursor = 0; is_full = false }

abbrev display : Display
display = record {
  consoles = λ n. console;
  current = 0;
  video = λ i. 0;
  crtc_cursor = 0;
  crtc_addr = 0;
}

display-IsReady : IsReady 0 display
display-IsReady = record {
  formed = record {
    lines = 68;
    whole = refl;
    room = omega arith;
    in_memory = omega arith;
    cursor_from = omega arith;
    cursor_to = omega arith;
    top = 0;
    shown = refl;
    shown_to = omega arith;
  };
  on_screen = refl;
}

three_letters : NoBackspace (bytes (λ at. at) 64 3)
three_letters =
    NoBackspace.more (omega arith)
      (NoBackspace.more (omega arith) (NoBackspace.more (omega arith) NoBackspace.end))

tty_do_write-bytes_example :
    (d' : Display) × (tty_do_write 0 (λ at. at) (λ i. 0) 6 64 3 display ≡ ok (d', syscall_ret 6))
    × (out_string 0 (64 ∷ 65 ∷ 66 ∷ []) display ≡ ok d')
    × IsReady 0 d'
    × ((m : ℕ) → m ≢ 0 → d'.consoles m ≡ display.consoles m)
tty_do_write-bytes_example =
    tty_do_write-bytes 0 (λ at. at) (λ i. 0) 6 64 3 display display-IsReady three_letters
