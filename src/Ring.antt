-- ===== src/Ring.antt =====
-- The two input buffers of the system, `inbuf` of a `TTY` (kernel/tty.c) and `buf` of `KB_INPUT`
-- (kernel/keyboard.c). Both are an array with a pointer to write at, a pointer to read from and a
-- count; both pointers go back to the start at the end of the array.
pub mod Refine
use lwos.Common.{ℕ, ◌+◌, ◌-◌, Option, none, some, List, ltb, ◌==◌, if◌then◌else◌, get_or, set}

-- The pointers as indices into the array.
pub record Ring : Type 0 where
  pub buf : List ℕ
  pub head : ℕ
  pub tail : ℕ
  pub count : ℕ

-- `p++; if (p == buf + size) p = buf;`
abbrev pub advance : ℕ → ℕ → ℕ
advance size p = if p + 1 == size then 0 else p + 1

-- `if (count < size) { *head = v; … count++; }`: the body of `put_key` and of `keyboard_handler`.
pub put : ℕ → Ring → ℕ → Ring
put size r v =
    if ltb r.count size
    then record r { buf = set r.buf r.head v; head = advance size r.head; count = r.count + 1 }
    else r

-- `v = *tail; … count--;`: where `tty_dev_write` and `get_byte_from_kbuf` take a value out. They do
-- so only when `count` is above zero.
unfoldable pub take_one : ℕ → Ring → ℕ × Ring
take_one size r =
    (get_or r.buf r.tail 0, record r { tail = advance size r.tail; count = r.count - 1 })
