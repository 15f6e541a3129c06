-- ===== src/Keyboard/Decode.antt =====
-- `keyboard_read` of kernel/keyboard.c: scan codes to keys.
pub mod Flags
pub mod Typing
pub mod Stroke
mod Tests
use lwos.Common.{
  ℕ, zero, suc, ◌+◌, ◌-◌, Bool, true, false, not, ◌&&◌, ◌||◌, Option, none, some, List, [], ◌∷◌,
  ◌++◌, bit_and, bit_or, leb, ◌==◌, if◌then◌else◌, get_or,
}
use lwos.Fault.{Result, ok, err, spin, wild, ◌>>=◌}
use lwos.Keyboard.{Keyboard, set_leds, get_byte_from_kbuf, are_next, bit}
use lwos.Keyboard.Keymap.{keymap}
use lwos.Keyboard.Keys

-- The keyboard and the local variables of `keyboard_read`. `make` has no value at first.
pub record Reading : Type 0 where
  pub keyboard : Keyboard
  pub scan_code : ℕ
  pub make : Option Bool
  pub key : ℕ

-- Behind 0xe1: the other bytes of the pause key.
pub parse_pausebreak : Reading → Result Reading
parse_pausebreak r =
    are_next (0x1d ∷ 0x45 ∷ 0xe1 ∷ 0x9d ∷ 0xc5 ∷ []) r.keyboard >>= λ (is_pausebreak, k).
    ok (record r { keyboard = k; key = if is_pausebreak then Keys.pausebreak else r.key })

-- Behind the first two bytes of the print-screen key: 0xe0 and the last byte. The tests give their own
-- value to `scan_code`.
pub parse_printscreen : (last : ℕ) (pressed : Bool) → Reading → Result Reading
parse_printscreen last pressed r =
    get_byte_from_kbuf (record (r.keyboard) { code_with_e0 = false }) >>= λ (b, k).
    if b == 0xe0
    then (get_byte_from_kbuf (record k { code_with_e0 = true }) >>= λ (b', k').
        let r' : Reading = record r { keyboard = k'; scan_code = bit (b' == last) } in
        ok (if b' == last then record r' { key = Keys.printscreen; make = some pressed } else r'))
    else ok (record r { keyboard = k; scan_code = 0 })

-- Behind 0xe0.
pub parse_extended : Reading → Result Reading
parse_extended r = get_byte_from_kbuf (record (r.keyboard) { code_with_e0 = true }) >>= λ (b, k).
    let r' : Reading = record r { keyboard = k; scan_code = b } in
    if b == 0x2a
    then parse_printscreen 0x37 true r'
    else if b == 0xb7
    then parse_printscreen 0xaa false r'
    else ok r'

pub parse : Reading → Result Reading
parse r = get_byte_from_kbuf (record (r.keyboard) { code_with_e0 = false }) >>= λ (b, k).
    let r' : Reading = record r { keyboard = k; scan_code = b } in
    if b == 0xe1 then parse_pausebreak r' else if b == 0xe0 then parse_extended r' else ok r'

abbrev pub row_of : ℕ → ℕ × ℕ × ℕ
row_of scan_code = get_or keymap (bit_and scan_code 0x7f) (0, 0, 0)

abbrev pub cell : ℕ × ℕ × ℕ → ℕ → ℕ
cell (plain, shifted, extended) zero = plain
cell (plain, shifted, extended) (suc zero) = shifted
cell (plain, shifted, extended) (suc (suc column)) = extended

-- The second column is for shift, and for letters also for caps lock, but not for both at once.
unfoldable pub choose_column : Keyboard → ℕ → ℕ
choose_column k plain =
    let caps : Bool = k.shift_l || k.shift_r in
    let letter : Bool = leb 0x61 plain && leb plain 0x7a in
    let caps' : Bool = if k.caps_lock && letter then not caps else caps in
    if k.code_with_e0 then 2 else if caps' then 1 else 0

-- The `switch` over the keys that are held and the locks.
pub hold : (key : ℕ) (make : Bool) → Keyboard → Keyboard
hold key make k =
    if key == Keys.shift_l
    then record k { shift_l = make }
    else if key == Keys.shift_r
    then record k { shift_r = make }
    else if key == Keys.ctrl_l
    then record k { ctrl_l = make }
    else if key == Keys.ctrl_r
    then record k { ctrl_r = make }
    else if key == Keys.alt_l
    then record k { alt_l = make }
    else if key == Keys.alt_r
    then record k { alt_r = make }
    else if (key == Keys.caps_lock) && make
    then set_leds (record k { caps_lock = not k.caps_lock })
    else if (key == Keys.num_lock) && make
    then set_leds (record k { num_lock = not k.num_lock })
    else if (key == Keys.scroll_lock) && make
    then set_leds (record k { scroll_lock = not k.scroll_lock })
    else k

-- From the scan code to the key, unless it is one of the two that `parse` tells.
pub translate : Reading → Reading
translate r =
    let make : Bool = bit_and r.scan_code 0x80 == 0 in
    let row = row_of r.scan_code in
    let column : ℕ = choose_column r.keyboard (cell row 0) in
    let key : ℕ = cell row column in
    if (r.key == Keys.pausebreak) || (r.key == Keys.printscreen) then r else record r {
      keyboard = hold key make (record (r.keyboard) { column = column });
      make = some make;
      key = key;
    }

abbrev pub is_pad : ℕ → Bool
is_pad key = leb Keys.pad_slash key && leb key Keys.pad_9

-- A key of the number pad without num lock.
pub pad_move : ℕ → ℕ
pad_move key =
    if key == Keys.pad_home
    then Keys.home
    else if key == Keys.pad_end
    then Keys.end
    else if key == Keys.pad_pageup
    then Keys.pageup
    else if key == Keys.pad_pagedown
    then Keys.pagedown
    else if key == Keys.pad_ins
    then Keys.insert
    else if key == Keys.pad_up
    then Keys.up
    else if key == Keys.pad_down
    then Keys.down
    else if key == Keys.pad_left
    then Keys.left
    else if key == Keys.pad_right
    then Keys.right
    else if key == Keys.pad_dot
    then Keys.delete
    else key

-- The key that a key of the number pad stands for.
pub pad_key : (num_lock : Bool) → ℕ → ℕ
pad_key num_lock key =
    if key == Keys.pad_slash
    then 0x2f
    else if key == Keys.pad_star
    then 0x2a
    else if key == Keys.pad_minus
    then 0x2d
    else if key == Keys.pad_plus
    then 0x2b
    else if key == Keys.pad_enter
    then Keys.enter
    else if num_lock
    then (if leb Keys.pad_0 key && leb key Keys.pad_9
        then key - Keys.pad_0 + 0x30
        else if key == Keys.pad_dot
        then 0x2e
        else key)
    else pad_move key

abbrev pub flag_if : Bool → ℕ → ℕ → ℕ
flag_if held flag key = bit_or key (if held then flag else 0)

abbrev pub padded : (num_lock : Bool) → ℕ → ℕ
padded num_lock key = if is_pad key then pad_key num_lock key else key

-- The key as `in_process` gets it.
pub flagged : Keyboard → ℕ → ℕ
flagged k key = flag_if (is_pad key) 0x8000 (
    flag_if k.alt_r 0x4000 (
      flag_if k.alt_l 0x2000 (
        flag_if k.ctrl_r 0x1000 (
          flag_if k.ctrl_l 0x800
            (flag_if k.shift_r 0x400 (flag_if k.shift_l 0x200 (padded k.num_lock key)))))))

-- What one round passes to `in_process`: one key if it was pressed. `key` keeps the value that it is
-- passed with.
pub deliver : Reading → Result (List ℕ × Reading)
deliver r = elim r.make [
  | none ↦ err wild
  | some pressed ↦
      let key : ℕ = flagged r.keyboard r.key in
      if pressed then ok (key ∷ [], record r { key = key }) else ok ([], r)
]

-- The loop, on fuel: the keys in the order in which `in_process` gets them.
pub read_loop : ℕ → Reading → Result (List ℕ × Keyboard)
read_loop zero r = err spin
read_loop (suc fuel) r =
    let round = parse r >>= λ r'. deliver (translate r') >>= λ (keys, r'').
    read_loop fuel r'' >>= λ (more, k). ok (keys ++ more, k) in
    if r.keyboard.kb_in.count == 0 then ok ([], r.keyboard) else round

-- Each round takes a scan code out of the buffer.
pub keyboard_read : Keyboard → Result (List ℕ × Keyboard)
keyboard_read k =
    read_loop (k.kb_in.count + 1) (record { keyboard = k; scan_code = 0; make = none; key = 0 })
