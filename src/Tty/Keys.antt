-- ===== src/Tty/Keys.antt =====
-- kernel/tty.c: what a key does to a terminal and its console.
pub mod Effects
mod Tests
use lwos.Common.{
  ℕ, ◌+◌, ◌-◌, Bool, true, false, ◌&&◌, ◌||◌, not, List, [], ◌∷◌, bit_and, leb, ◌==◌, if◌then◌else◌,
}
use lwos.Fault.{Result, ok, ◌>>=◌}
use lwos.Tty
use lwos.Tty.{Tty, put_key}
use lwos.Console
use lwos.Console.{Display, scroll_screen, select_console}
use lwos.Keyboard.{Keyboard}
use lwos.Keyboard.Keys
use lwos.Keyboard.Decode.{keyboard_read}

-- A terminal, and the display with the console of that number.
pub record Terminal : Type 0 where
  pub tty : Tty
  pub display : Display

abbrev type_key : ℕ → Terminal → Terminal
type_key key t = record t { tty = put_key t.tty key }

abbrev pub has_shift : ℕ → Bool
has_shift key = not (bit_and key 0x200 == 0) || not (bit_and key 0x400 == 0)

abbrev pub has_alt : ℕ → Bool
has_alt key = not (bit_and key 0x2000 == 0) || not (bit_and key 0x4000 == 0)

abbrev scrolled : (n direction : ℕ) → Terminal → Result Terminal
scrolled n direction t = scroll_screen n direction t.display >>= λ d. ok (record t { display = d })

-- `in_process` on terminal `n`.
pub in_process : (n key : ℕ) → Terminal → Result Terminal
in_process n key t =
    let raw_code : ℕ = bit_and key 0x1ff in
    if bit_and key Keys.flag_ext == 0
    then ok (type_key key t)
    else if raw_code == Keys.enter
    then ok (type_key Tty.newline t)
    else if raw_code == Keys.backspace
    then ok (type_key Tty.backspace t)
    else if raw_code == Keys.up
    then (if has_shift key then scrolled n Console.down t else ok t)
    else if raw_code == Keys.down
    then (if has_shift key then scrolled n Console.up t else ok t)
    else if (leb Keys.f1 raw_code && leb raw_code Keys.f12) && has_alt key
    then ok (record t { display = select_console (raw_code - Keys.f1) t.display })
    else ok t

-- The keys of `keyboard_read`, in their order.
pub process_all : ℕ → List ℕ → Terminal → Result Terminal
process_all n [] t = ok t
process_all n (key ∷ keys) t = in_process n key t >>= λ t'. process_all n keys t'

-- `tty_dev_read`. `in_process` does not use what `keyboard_read` changes, so all keys are read first.
pub tty_dev_read : ℕ → Keyboard → Terminal → Result (Keyboard × Terminal)
tty_dev_read n k t =
    let reads = keyboard_read k >>= λ (keys, k'). process_all n keys t >>= λ t'. ok (k', t') in
    if n == t.display.current then reads else ok (k, t)
