-- ===== src/Keyboard/Decode/Flags.antt =====
-- The keys that come out of the table, and the flags that are added to them.
use lwos.Common.{
  ℕ, zero, suc, ◌%◌, ◌<◌, ◌≡◌, refl, ◌∙◌, ap, Bool, true, false, not, ◌&&◌, ◌||◌, bit_and, ltb,
  ◌==◌, get_or, arith, Bool-cases, inl, inr, and-true,
}
use lwos.Common.Bits.{shl, or_above_0x1ff, or_0, and_0x7f, passes_below, passes_below-lt}
use lwos.Keyboard.{Keyboard}
use lwos.Keyboard.Keymap.{keymap}
use lwos.Keyboard.Decode.{
  row_of, cell, choose_column, is_pad, pad_key, pad_move, padded, flag_if, flagged,
}
use lwos.Keyboard.Keys

-- Whether a key is one of the two that `parse` tells.
abbrev pub is_special : ℕ → Bool
is_special key = (key == Keys.pausebreak) || (key == Keys.printscreen)

-- A flag leaves the low nine bits alone.
flag_if_low : (held : Bool) (c key : ℕ) → flag_if held (shl c 9) key % 512 ≡ key % 512
flag_if_low true c key = or_above_0x1ff key c
flag_if_low false c key = ap (λ n. n % 512) (or_0 key)

pub flagged_low : (k : Keyboard) (key : ℕ) → flagged k key % 512 ≡ padded k.num_lock key % 512
unfolding flagged
flagged_low k key =
    flag_if_low (is_pad key) 64 _
    ∙ (flag_if_low k.alt_r 32 _
        ∙ (flag_if_low k.alt_l 16 _
            ∙ (flag_if_low k.ctrl_r 8 _
                ∙ (flag_if_low k.ctrl_l 4 _
                    ∙ (flag_if_low k.shift_r 2 _ ∙ flag_if_low k.shift_l 1 _)))))

-- The entries of the table, as they are and as they come out of the number pad.
abbrev is_ordinary : ℕ → Bool
is_ordinary key = ltb key 512 && not (is_special key)

abbrev row_check : ℕ × ℕ × ℕ → ℕ → Bool
row_check row column =
    is_ordinary (cell row column)
    && (is_ordinary (padded true (cell row column)) && is_ordinary (padded false (cell row column)))

keymap_table :
    passes_below
      (λ i.
        let row = get_or keymap i (0, 0, 0) in
        row_check row 0 && (row_check row 1 && row_check row 2))
      128
    ≡ true
unfolding passes_below keymap pad_key pad_move
keymap_table = refl

-- What the tables say of a scan code and a column.
row_check-holds : (scan_code column : ℕ) → column < 3 → row_check (row_of scan_code) column ≡ true
row_check-holds scan_code column h =
    let all =
      passes_below-lt
        (λ i.
          let row = get_or keymap i (0, 0, 0) in
          row_check row 0 && (row_check row 1 && row_check row 2))
        128 {v = bit_and scan_code 0x7f} keymap_table (omega (arith, and_0x7f scan_code)) in
    column_check (row_of scan_code) column h all
  where
    column_check :
        (row : ℕ × ℕ × ℕ) (c : ℕ)
        → c < 3
        → (row_check row 0 && (row_check row 1 && row_check row 2)) ≡ true
        → row_check row c ≡ true
    column_check row zero h e = (and-true _ _ e).0
    column_check row (suc zero) h e = (and-true _ _ ((and-true _ _ e).1)).0
    column_check row (suc (suc zero)) h e = (and-true _ _ ((and-true _ _ e).1)).1
    column_check row (suc (suc (suc c))) h e = absurd (omega arith)

-- With its flags an ordinary key is none of the two.
pub is_special-flagged :
    (k : Keyboard) (key : ℕ)
    → is_ordinary (padded true key) ≡ true
    → is_ordinary (padded false key) ≡ true
    → is_special (flagged k key) ≡ false
is_special-flagged k key on off = elim (Bool-cases k.num_lock) [
  | inl e ↦ ground (arith, flagged_low k key, ap (λ n. padded n key) e, on)
  | inr e ↦ ground (arith, flagged_low k key, ap (λ n. padded n key) e, off)
]

choose_column-lt : (k : Keyboard) (plain : ℕ) → choose_column k plain < 3
unfolding choose_column
choose_column-lt k plain = ground arith

-- The key of a scan code that stands alone.
abbrev pub pressed_key : ℕ → Keyboard → ℕ
pressed_key scan_code k = cell (row_of scan_code) (choose_column k (cell (row_of scan_code) 0))

pub pressed_key-ordinary :
    (scan_code : ℕ) (k k' : Keyboard)
    → (is_special (pressed_key scan_code k) ≡ false)
      × (is_special (flagged k' (pressed_key scan_code k)) ≡ false)
pressed_key-ordinary scan_code k k' =
    let column = choose_column k (cell (row_of scan_code) 0) in
    let all = row_check-holds scan_code column (choose_column-lt k _) in
    let (plain, pads) = and-true (is_ordinary (pressed_key scan_code k)) _ all in
    let (on, off) = and-true _ _ pads in
    (ground (arith, plain), is_special-flagged k' (pressed_key scan_code k) on off)
