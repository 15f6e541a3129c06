-- ===== src/Tty.antt =====
-- kernel/tty.c: the input buffer of a terminal, the line that a reading process is given out of it,
-- and the output of a writing process.
pub mod Line
pub mod Output
pub mod Read
pub mod Keys
mod Tests
use lwos.Common.{
  ℕ, zero, suc, ◌+◌, ◌-◌, ◌*◌, ◌%◌, Bool, true, false, not, ◌&&◌, ◌||◌, Option, none, some, List,
  [], ◌∷◌, ◌++◌, min, bit_and, ltb, leb, ◌==◌, if◌then◌else◌,
}
use lwos.Proc.{update}
use lwos.Ring
use lwos.Ring.{Ring}

-- `TTY` of include/sys/tty.h. The console is told apart by the number of the terminal. Counts are
-- taken not to be negative, as the `CNT` of a request is.
pub record Tty : Type 0 where
  pub inbuf : Ring
  pub tty_caller : ℕ
  pub tty_procnr : ℕ
  pub tty_req_buf : ℕ
  pub tty_left_cnt : ℕ
  pub tty_trans_cnt : ℕ

abbrev pub tty_in_bytes : ℕ
tty_in_bytes = 256

-- What a terminal does to the outside: a character for its console, and the message `RESUME_PROC`
-- with `PROC_NR` and `CNT` for the caller.
pub data Effect : Type 0 where
  out_char : ℕ → Effect
  resume : (caller procnr cnt : ℕ) → Effect

-- A terminal, the bytes of memory, and the effects so far.
pub record Session : Type 0 where
  pub tty : Tty
  pub mem : ℕ → ℕ
  pub effects : List Effect

abbrev pub emit : Effect → Session → Session
emit e s = record s { effects = s.effects ++ (e ∷ []) }

pub put_key : Tty → ℕ → Tty
put_key t key = record t { inbuf = Ring.put tty_in_bytes t.inbuf key }

abbrev pub newline : ℕ
newline = 10

abbrev pub backspace : ℕ
backspace = 8

-- `ch >= ' ' && ch <= '~'`. Read as unsigned, a negative `char` lies above the range, so the test
-- comes out the same.
abbrev pub is_printable : ℕ → Bool
is_printable ch = leb 32 ch && leb ch 126

-- The first `if … else if` of `tty_dev_write`: the character joins the line or takes one away.
pub edit : ℕ → Session → Session
edit ch s =
    let t = s.tty in
    if is_printable ch
    then emit (out_char ch) (record s {
      tty = record t { tty_trans_cnt = t.tty_trans_cnt + 1; tty_left_cnt = t.tty_left_cnt - 1 };
      mem = update s.mem (t.tty_req_buf + t.tty_trans_cnt) ch;
    })
    else if (ch == backspace) && not (t.tty_trans_cnt == 0)
    then emit (out_char ch) (record s {
      tty = record t { tty_trans_cnt = t.tty_trans_cnt - 1; tty_left_cnt = t.tty_left_cnt + 1 };
    })
    else s

-- The last `if` of `tty_dev_write`: the line is complete, and its reader is told so.
pub finish : ℕ → Session → Session
finish ch s =
    let t = s.tty in
    if (ch == newline) || (t.tty_left_cnt == 0)
    then emit (resume t.tty_caller t.tty_procnr t.tty_trans_cnt)
        (emit (out_char newline) (record s { tty = record t { tty_left_cnt = 0 } }))
    else s

pub tty_dev_write : Session → Session
tty_dev_write s =
    if ltb 0 s.tty.inbuf.count
    then (let (key, inbuf') = Ring.take_one tty_in_bytes s.tty.inbuf in
        let ch : ℕ = key % 256 in
        let s' : Session = record s { tty = record (s.tty) { inbuf = inbuf' } } in
        if s.tty.tty_left_cnt == 0 then s' else finish ch (edit ch s'))
    else s

-- `tty_do_read`, whose buffer address `la` is the result of `va2la`. The caller is sent
-- `SUSPEND_PROC`.
pub tty_do_read : (source procnr la cnt : ℕ) → Tty → Tty
tty_do_read source procnr la cnt t = record t {
  tty_caller = source;
  tty_procnr = procnr;
  tty_req_buf = la;
  tty_left_cnt = cnt;
  tty_trans_cnt = 0;
}

-- `n` bytes of memory from an address on.
abbrev pub bytes : (ℕ → ℕ) → ℕ → ℕ → List ℕ
bytes mem p zero = []
bytes mem p (suc n) = mem p ∷ bytes mem (p + 1) n
