-- ===== src/Keyboard/Decode/Tests.antt =====
-- Runs of the keyboard after it was set up, with a few scan codes in its buffer.
use lwos.Common.{ℕ, ◌<◌, ◌≡◌, refl, Bool, true, false, List, [], ◌∷◌, arith, replicate}
use lwos.Fault.{Result, ok, err}
use lwos.Ring
use lwos.Ring.{Ring}
use lwos.Ring.Refine.{IsRing, contents}
use lwos.Keyboard.{Keyboard, set_leds, get_byte_from_kbuf, are_next, kb_in_bytes}
use lwos.Keyboard.Keymap.{keymap}
use lwos.Keyboard.Decode.{
  keyboard_read, read_loop, flagged, choose_column, parse, parse_extended, parse_pausebreak,
  parse_printscreen, translate, hold, deliver,
}
use lwos.Keyboard.Decode.Flags.{pressed_key}
use lwos.Keyboard.Decode.Typing.{end, more, popped, typing, keyboard_read-typing}
use lwos.Keyboard.Decode.Stroke.{held, keyboard_read-stroke}

abbrev holding : Bool → List ℕ → ℕ → Keyboard
holding shift bytes n = record {
  kb_in = record { buf = bytes; head = n; tail = 0; count = n };
  code_with_e0 = false;
  shift_l = false;
  shift_r = shift;
  alt_l = false;
  alt_r = false;
  ctrl_l = false;
  ctrl_r = false;
  caps_lock = false;
  num_lock = true;
  scroll_lock = false;
  column = 0;
  leds = 2;
  key_pressed = true;
}

-- A is typed while the right shift key is held.
abbrev letter_a : Keyboard
letter_a = holding true (0x1e ∷ 0x9e ∷ replicate 30 0) 2

letter_a-IsRing : IsRing kb_in_bytes letter_a.kb_in
letter_a-IsRing = record {
  storage = refl;
  positive = omega arith;
  tail_in = omega arith;
  fits = omega arith;
  ahead = refl;
}

letter_a-is_char : pressed_key 0x1e (popped letter_a) < 256
unfolding choose_column keymap
letter_a-is_char = omega arith

keyboard_read-stroke_example :
    (k' : Keyboard) × (keyboard_read letter_a
      ≡ ok (flagged letter_a (pressed_key 0x1e (popped letter_a)) ∷ [], k'))
    × (k'.kb_in.count ≡ 0)
    × (held k' ≡ held letter_a)
keyboard_read-stroke_example =
    keyboard_read-stroke letter_a 0x1e letter_a-IsRing refl (omega arith) letter_a-is_char

keyboard_read-typing_example :
    (keyboard_read letter_a ≡ ok (typing (contents kb_in_bytes letter_a.kb_in) letter_a))
    × ((typing (contents kb_in_bytes letter_a.kb_in) letter_a).1.kb_in.count ≡ 0)
keyboard_read-typing_example =
    keyboard_read-typing letter_a letter_a-IsRing (more refl (more refl end))

abbrev keys_read : Result (List ℕ × Keyboard) → List ℕ
keys_read run = elim run [ err fault ↦ [] | ok (keys, k) ↦ keys ]

-- A letter behind the print-screen key is read as another print-screen.
print_screen_sticks :
    keys_read (keyboard_read (holding false (0xe0 ∷ 0x2a ∷ 0xe0 ∷ 0x37 ∷ 0x1e ∷ replicate 27 0) 5))
    ≡ 0x11d ∷ 0x11d ∷ []
unfolding keyboard_read read_loop flagged set_leds parse parse_extended parse_pausebreak
    parse_printscreen translate hold deliver get_byte_from_kbuf are_next choose_column keymap
    Ring.take_one
print_screen_sticks = refl
