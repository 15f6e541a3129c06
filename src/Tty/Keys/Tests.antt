-- ===== src/Tty/Keys/Tests.antt =====
-- A key on the first terminal, with nothing in its buffer and an empty console.
use lwos.Common.{◌<◌, ◌≡◌, refl, true, false, [], ◌∷◌, ◌++◌, arith, inr, replicate}
use lwos.Fault.{ok}
use lwos.Ring.Refine.{IsRing, contents}
use lwos.Tty.{Tty, tty_in_bytes}
use lwos.Tty.Keys.{Terminal, in_process, tty_dev_read}
use lwos.Tty.Keys.Effects.{IsUsable, Keeps, in_process-Keeps, tty_dev_read-stroke}
use lwos.Console.{Console}
use lwos.Keyboard.{Keyboard, kb_in_bytes}
use lwos.Keyboard.Keymap.{keymap}
use lwos.Keyboard.Decode.{flagged, choose_column}
use lwos.Keyboard.Decode.Flags.{pressed_key}
use lwos.Keyboard.Decode.Typing.{popped}
use lwos.Keyboard.Decode.Stroke.{held}

abbrev idle : Tty
idle = record {
  inbuf = record { buf = replicate 256 0; head = 0; tail = 0; count = 0 };
  tty_caller = 0;
  tty_procnr = 0;
  tty_req_buf = 0;
  tty_left_cnt = 0;
  tty_trans_cnt = 0;
}

abbrev first : Console
first = record { crtc_start = 160; orig = 0; con_size = 5440; cursor = 200; is_full = false }

abbrev terminal : Terminal
terminal = record {
  tty = idle;
  display = record {
    consoles = λ n. first;
    current = 0;
    video = λ i. 0;
    crtc_cursor = 200;
    crtc_addr = 160;
  };
}

abbrev keys : Keyboard
keys = record {
  kb_in = record { buf = 0x1e ∷ 0x9e ∷ replicate 30 0; head = 2; tail = 0; count = 2 };
  code_with_e0 = false;
  shift_l = false;
  shift_r = true;
  alt_l = false;
  alt_r = false;
  ctrl_l = false;
  ctrl_r = false;
  caps_lock = false;
  num_lock = true;
  scroll_lock = false;
  column = 0;
  leds = 2;
  key_pressed = true;
}

idle-IsRing : IsRing tty_in_bytes idle.inbuf
idle-IsRing = record {
  storage = refl;
  positive = omega arith;
  tail_in = omega arith;
  fits = omega arith;
  ahead = refl;
}

keys-IsRing : IsRing kb_in_bytes keys.kb_in
keys-IsRing = record {
  storage = refl;
  positive = omega arith;
  tail_in = omega arith;
  fits = omega arith;
  ahead = refl;
}

terminal-IsUsable : IsUsable 0 terminal
terminal-IsUsable = record {
  buffer = idle-IsRing;
  formed = record {
    lines = 68;
    whole = refl;
    room = omega arith;
    in_memory = omega arith;
    cursor_from = omega arith;
    cursor_to = omega arith;
    top = 2;
    shown = refl;
    shown_to = omega arith;
  };
  ahead = inr (omega arith);
}

-- Shift and the key up scroll to an older line.
in_process-Keeps_example :
    (t' : Terminal) × (in_process 0 0x325 terminal ≡ ok t') × Keeps 0 terminal t'
in_process-Keeps_example = in_process-Keeps 0 terminal terminal-IsUsable 0x325

letter-is_char : pressed_key 0x1e (popped keys) < 256
unfolding choose_column keymap
letter-is_char = omega arith

tty_dev_read-stroke_example :
    (k' : Keyboard) × (t' : Terminal) × (tty_dev_read 0 keys terminal ≡ ok (k', t'))
    × (contents tty_in_bytes t'.tty.inbuf
        ≡ contents tty_in_bytes terminal.tty.inbuf
          ++ (flagged keys (pressed_key 0x1e (popped keys)) ∷ []))
    × (k'.kb_in.count ≡ 0)
    × (held k' ≡ held keys)
tty_dev_read-stroke_example =
    tty_dev_read-stroke 0 keys terminal 0x1e refl keys-IsRing refl (omega arith) letter-is_char
      idle-IsRing (omega arith)
