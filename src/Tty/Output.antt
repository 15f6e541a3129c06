-- ===== src/Tty/Output.antt =====
-- kernel/tty.c: `tty_do_write`, which puts out the bytes of a caller's buffer.
use lwos.Common.{
  ℕ, zero, suc, ◌+◌, ◌-◌, ◌<◌, ◌≡◌, ◌≢◌, refl, ◌∙◌, ap, List, [], ◌∷◌, ◌++◌, arith, min, ◌==◌,
  if◌then◌else◌, Bool-cases, inl, inr,
}
use lwos.Fault.{Result, ok, err, spin, ◌>>=◌}
use lwos.Fs.{phys_copy}
use lwos.Console.{Display, out_char}
use lwos.Console.Start.{out_string, IsReady, NoBackspace, out_string-IsReady}
use lwos.Tty.{bytes}

abbrev pub tty_out_buf_len : ℕ
tty_out_buf_len = 2

-- The inner loop, for the `n` characters of the local buffer from `j` on.
pub out_chars : (n j nr_tty : ℕ) → (ℕ → ℕ) → Display → Result Display
out_chars zero j nr_tty buf d = ok d
out_chars (suc n) j nr_tty buf d =
    out_char nr_tty (buf j) d >>= λ d'. out_chars n (j + 1) nr_tty buf d'

-- The outer loop, for the `i` bytes from `p` on. `mem` is the caller's memory, which is none of the
-- display's.
pub write_loop : ℕ → (nr_tty : ℕ) → (mem buf : ℕ → ℕ) → (p i : ℕ) → Display → Result Display
write_loop zero nr_tty mem buf p i d = err spin
write_loop (suc fuel) nr_tty mem buf p i d =
    let n : ℕ = min tty_out_buf_len i in
    let buf' = phys_copy buf 0 mem p n in
    let rest =
      out_chars n 0 nr_tty buf' d >>= λ d'. write_loop fuel nr_tty mem buf' (p + n) (i - n) d' in
    if i == 0 then ok d else rest

-- `SYSCALL_RET` to a process, with the message that it sent.
pub data Answer : Type 0 where
  syscall_ret : (source : ℕ) → Answer

-- `tty_do_write`, whose buffer address `la` is the result of `va2la`.
pub tty_do_write :
    (nr_tty : ℕ) (mem buf : ℕ → ℕ) (source la cnt : ℕ) → Display → Result (Display × Answer)
tty_do_write nr_tty mem buf source la cnt d =
    write_loop (cnt + 1) nr_tty mem buf la cnt d >>= λ d'. ok (d', syscall_ret source)

pub bytes-add :
    (mem : ℕ → ℕ) (p n m : ℕ) → bytes mem p n ++ bytes mem (p + n) m ≡ bytes mem p (n + m)
bytes-add mem p zero m =
    ap (λ q. bytes mem q m) {x = p + 0} {y = p} (omega arith)
    ∙ ap (bytes mem p) {x = m} {y = 0 + m} (omega arith)
bytes-add mem p (suc n) m =
    ap (λ rest. mem p ∷ rest)
      (ap (λ q. bytes mem (p + 1) n ++ bytes mem q m) {x = p + suc n} {y = p + 1 + n} (omega arith)
        ∙ bytes-add mem (p + 1) n m)
    ∙ ap (bytes mem p) {x = suc (n + m)} {y = suc n + m} (omega arith)

-- What follows an output, for each display that it can leave.
then_eq :
    (r : Result Display) (f g : Display → Result Display)
    → ((d : Display) → f d ≡ g d)
    → (r >>= f) ≡ (r >>= g)
then_eq (ok d) f g h = h d
then_eq (err e) f g h = refl

then_then :
    (r : Result Display) (f g : Display → Result Display)
    → ((r >>= f) >>= g) ≡ (r >>= λ d. f d >>= g)
then_then (ok d) f g = refl
then_then (err e) f g = refl

-- The characters of a buffer are a string.
out_chars-out_string :
    (n j nr_tty p : ℕ) (buf mem : ℕ → ℕ) (d : Display)
    → ((x : ℕ) → x < n → buf (j + x) ≡ mem (p + x))
    → out_chars n j nr_tty buf d ≡ out_string nr_tty (bytes mem p n) d
unfolding out_chars out_string
out_chars-out_string zero j nr_tty p buf mem d same = refl
out_chars-out_string (suc n) j nr_tty p buf mem d same =
    let first : buf j ≡ mem p =
      ap buf {x = j} {y = j + 0} (omega arith)
      ∙ (same 0 (omega arith) ∙ ap mem {x = p + 0} {y = p} (omega arith)) in
    ap (λ ch. out_char nr_tty ch d >>= λ d'. out_chars n (j + 1) nr_tty buf d') first
    ∙ then_eq (out_char nr_tty (mem p) d) (λ d'. out_chars n (j + 1) nr_tty buf d')
        (λ d'. out_string nr_tty (bytes mem (p + 1) n) d')
        (λ d'. out_chars-out_string n (j + 1) nr_tty (p + 1) buf mem d' (λ x h.
          ap buf {x = j + 1 + x} {y = j + (1 + x)} (omega arith)
          ∙ (same (1 + x) (omega arith) ∙ ap mem {x = p + (1 + x)} {y = p + 1 + x} (omega arith))))

-- Strings one after the other.
out_string-append :
    (nr_tty : ℕ) (xs ys : List ℕ) (d : Display)
    → (out_string nr_tty xs d >>= λ d'. out_string nr_tty ys d') ≡ out_string nr_tty (xs ++ ys) d
unfolding out_string
out_string-append nr_tty [] ys d = refl
out_string-append nr_tty (ch ∷ xs) ys d =
    then_then (out_char nr_tty ch d) (λ d1. out_string nr_tty xs d1) (λ d'. out_string nr_tty ys d')
    ∙ then_eq (out_char nr_tty ch d)
        (λ d1. out_string nr_tty xs d1 >>= λ d'. out_string nr_tty ys d')
        (λ d1. out_string nr_tty (xs ++ ys) d1) (λ d1. out_string-append nr_tty xs ys d1)

write_loop-out_string :
    (fuel nr_tty : ℕ) (mem buf : ℕ → ℕ) (p i : ℕ) (d : Display)
    → i < fuel
    → write_loop fuel nr_tty mem buf p i d ≡ out_string nr_tty (bytes mem p i) d
unfolding write_loop out_string
write_loop-out_string zero nr_tty mem buf p i d h = absurd (omega arith)
write_loop-out_string (suc fuel) nr_tty mem buf p i d h = elim (Bool-cases (i == 0)) [
  | inl done ↦
      let none_left : 0 ≡ i = ground arith in
      rw done (ap (λ n. out_string nr_tty (bytes mem p n) d) none_left)
  | inr more ↦
      let n : ℕ = min tty_out_buf_len i in
      let buf' = phys_copy buf 0 mem p n in
      rw (more, out_chars-out_string n 0 nr_tty p buf' mem d (λ x inside. ground arith))
        (then_eq (out_string nr_tty (bytes mem p n) d)
            (λ d'. write_loop fuel nr_tty mem buf' (p + n) (i - n) d')
            (λ d'. out_string nr_tty (bytes mem (p + n) (i - n)) d')
            (λ d'. write_loop-out_string fuel nr_tty mem buf' (p + n) (i - n) d' (ground arith))
          ∙ (out_string-append nr_tty (bytes mem p n) (bytes mem (p + n) (i - n)) d
              ∙ ap (λ text. out_string nr_tty text d)
                  (bytes-add mem p n (i - n)
                    ∙ ap (bytes mem p) {x = n + (i - n)} {y = i} (ground arith))))
]

-- A write of bytes none of which is a backspace, to a terminal whose console is well formed with its
-- cursor on the screen, comes to its end: although it goes through a buffer of two bytes, the
-- console is as after the output of the bytes of the caller's buffer, all of them in their order; it
-- is well formed with its cursor on the screen again, the other consoles are as they were, and the
-- caller is answered.
pub tty_do_write-bytes :
    (nr_tty : ℕ) (mem buf : ℕ → ℕ) (source la cnt : ℕ) (d : Display)
    → IsReady nr_tty d
    → NoBackspace (bytes mem la cnt)
    → (d' : Display) × (tty_do_write nr_tty mem buf source la cnt d ≡ ok (d', syscall_ret source))
      × (out_string nr_tty (bytes mem la cnt) d ≡ ok d')
      × IsReady nr_tty d'
      × ((m : ℕ) → m ≢ nr_tty → d'.consoles m ≡ d.consoles m)
unfolding tty_do_write
tty_do_write-bytes nr_tty mem buf source la cnt d ready plain =
    let (d', run, ready', others) = out_string-IsReady nr_tty (bytes mem la cnt) d ready plain in
    rw (write_loop-out_string (cnt + 1) nr_tty mem buf la cnt d (omega arith) ∙ run, ◌>>=◌)
      (d', refl, run, ready', others)
