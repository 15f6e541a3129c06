-- ===== src/Keyboard.antt =====
-- kernel/keyboard.c: the buffer of scan codes and the state of the keys.
pub mod Keys
pub mod Keymap
pub mod Decode
use lwos.Common.{ℕ, zero, ◌+◌, ◌*◌, Bool, true, false, List, [], ◌∷◌, bit_or, ◌==◌, if◌then◌else◌}
use lwos.Fault.{Result, ok, err, spin, ◌>>=◌}
use lwos.Ring
use lwos.Ring.{Ring}

abbrev pub kb_in_bytes : ℕ
kb_in_bytes = 32

-- The static variables of the file and `key_pressed`; `leds` is the byte that the keyboard was sent
-- last.
pub record Keyboard : Type 0 where
  pub kb_in : Ring
  pub code_with_e0 : Bool
  pub shift_l : Bool
  pub shift_r : Bool
  pub alt_l : Bool
  pub alt_r : Bool
  pub ctrl_l : Bool
  pub ctrl_r : Bool
  pub caps_lock : Bool
  pub num_lock : Bool
  pub scroll_lock : Bool
  pub column : ℕ
  pub leds : ℕ
  pub key_pressed : Bool

-- `keyboard_handler`, with the scan code that it reads from the port.
pub keyboard_handler : ℕ → Keyboard → Keyboard
keyboard_handler scan_code k = record k {
  kb_in = Ring.put kb_in_bytes k.kb_in scan_code;
  key_pressed = true;
}

abbrev pub bit : Bool → ℕ
bit b = if b then 1 else 0

-- `set_leds`; the keyboard is taken to accept both bytes.
pub set_leds : Keyboard → Keyboard
set_leds k = record k {
  leds = bit_or (bit_or (bit k.caps_lock * 4) (bit k.num_lock * 2)) (bit k.scroll_lock);
}

pub init_keyboard : Keyboard → Keyboard
init_keyboard k = set_leds (record {
  kb_in = record { buf = k.kb_in.buf; head = 0; tail = 0; count = 0 };
  code_with_e0 = false;
  shift_l = false;
  shift_r = false;
  alt_l = false;
  alt_r = false;
  ctrl_l = false;
  ctrl_r = false;
  caps_lock = false;
  num_lock = true;
  scroll_lock = false;
  column = 0;
  leds = k.leds;
  key_pressed = k.key_pressed;
})

-- No interrupt arrives during the call, so one on an empty buffer waits for ever.
pub get_byte_from_kbuf : Keyboard → Result (ℕ × Keyboard)
get_byte_from_kbuf k =
    let (scan_code, kb_in') = Ring.take_one kb_in_bytes k.kb_in in
    if k.kb_in.count == 0 then err spin else ok (scan_code, record k { kb_in = kb_in' })

-- Whether the bytes are the next ones; the first that is not is taken out too.
pub are_next : List ℕ → Keyboard → Result (Bool × Keyboard)
are_next [] k = ok (true, k)
are_next (byte ∷ bytes) k = get_byte_from_kbuf k >>= λ (b, k').
    let rest = are_next bytes k' in if b == byte then rest else ok (false, k')
