-- ===== src/Keyboard/Decode/Stroke.antt =====
-- A key that is a character, pressed and let go.
use lwos.Common.{
  ℕ, ◌+◌, ◌<◌, ◌≡◌, refl, ◌∙◌, ap, sym, Bool, true, false, List, [], ◌∷◌, ◌++◌, ltb, arith, subst,
  get_or,
}
use lwos.Common.Bits.{and_0x7f}
use lwos.Fault.{ok}
use lwos.Ring.Refine.{IsRing, contents}
use lwos.Keyboard.{Keyboard, kb_in_bytes}
use lwos.Keyboard.Keymap.{keymap}
use lwos.Keyboard.Decode.{hold, flagged, row_of, cell, choose_column, keyboard_read}
use lwos.Keyboard.Decode.Flags.{pressed_key}
use lwos.Keyboard.Decode.Typing.{
  AllAlone, end, more, popped, after, given, typing, keyboard_read-typing,
}

hold-char : (key : ℕ) (make : Bool) (k : Keyboard) → key < 256 → hold key make k ≡ k
unfolding hold
hold-char key make k char = ground arith

row_of-break : (code : ℕ) → code < 128 → row_of (code + 128) ≡ row_of code
row_of-break code h =
    ap (λ i. get_or keymap i (0, 0, 0))
      (and_0x7f (code + 128) ∙ (omega arith ∙ sym (and_0x7f code)))

-- The keys that are held down and the locks.
abbrev pub held : Keyboard → List Bool
held k =
    k.shift_l ∷ k.shift_r ∷ k.ctrl_l ∷ k.ctrl_r ∷ k.alt_l ∷ k.alt_r ∷ k.caps_lock ∷ k.num_lock
    ∷ k.scroll_lock ∷ []

-- The keyboard after a scan code of a character.
abbrev passed : ℕ → Keyboard → Keyboard
passed b k = record (popped k) { column = choose_column (popped k) (cell (row_of b) 0) }

flagged-passed : (b key : ℕ) (k : Keyboard) → flagged (passed b k) key ≡ flagged k key
unfolding flagged
flagged-passed b key k = refl

choose_column-passed :
    (b plain : ℕ) (k : Keyboard)
    → choose_column (popped (passed b k)) plain ≡ choose_column (popped k) plain
unfolding choose_column
choose_column-passed b plain k = refl

given-down :
    (b : ℕ) (k : Keyboard)
    → ltb b 128 ≡ true
    → given b k ≡ flagged (after b k) (pressed_key b (popped k)) ∷ []
given-down b k down = rw down refl

given-up : (b : ℕ) (k : Keyboard) → ltb b 128 ≡ false → given b k ≡ []
given-up b k up = rw up refl

-- If the buffer holds the make and the break code of a key that is a character in the column chosen,
-- keyboard_read gives that character once, with the flags of the keys that are held; it empties the
-- buffer and leaves held keys and locks as they were.
pub keyboard_read-stroke :
    (k : Keyboard) (code : ℕ)
    → IsRing kb_in_bytes k.kb_in
    → contents kb_in_bytes k.kb_in ≡ code ∷ (code + 128) ∷ []
    → code < 96
    → pressed_key code (popped k) < 256
    → (k' : Keyboard) × (keyboard_read k ≡ ok (flagged k (pressed_key code (popped k)) ∷ [], k'))
      × (k'.kb_in.count ≡ 0)
      × (held k' ≡ held k)
keyboard_read-stroke k code ring holds low char =
    let key : ℕ = pressed_key code (popped k) in
    let k1 : Keyboard = passed code k in
    let k2 : Keyboard = passed (code + 128) k1 in
    let down : ltb code 128 ≡ true = ground arith in
    let up : ltb (code + 128) 128 ≡ false = ground arith in
    let first : after code k ≡ k1 = hold-char key (ltb code 128) k1 char in
    let same : pressed_key (code + 128) (popped k1) ≡ key =
      rw (row_of-break code (omega arith), choose_column-passed code (cell (row_of code) 0) k)
        refl in
    let second : after (code + 128) k1 ≡ k2 =
      ap (λ key'. hold key' (ltb (code + 128) 128) k2) same
      ∙ hold-char key (ltb (code + 128) 128) k2 char in
    let flags : given code k ≡ flagged k key ∷ [] =
      given-down code k down
      ∙ ap (λ k'. flagged k' key ∷ []) first
      ∙ ap (λ n. n ∷ []) (flagged-passed code key k) in
    let sent : typing (code ∷ (code + 128) ∷ []) k ≡ (flagged k key ∷ [], k2) =
      ap (λ k'. (given code k ++ (given (code + 128) k' ++ []), after (code + 128) k')) first
      ∙ (ap (λ keys. (keys ++ (given (code + 128) k1 ++ []), after (code + 128) k1)) flags
          ∙ (ap (λ keys. ((flagged k key ∷ []) ++ (keys ++ []), after (code + 128) k1))
                (given-up (code + 128) k1 up)
              ∙ ap (λ k'. (flagged k key ∷ [], k')) second)) in
    let alone : AllAlone (contents kb_in_bytes k.kb_in) =
      subst AllAlone (sym holds) (more (ground (arith, low)) (more (ground (arith, low)) end)) in
    let (run, emptied) = keyboard_read-typing k ring alone in
    let read : typing (contents kb_in_bytes k.kb_in) k ≡ (flagged k key ∷ [], k2) =
      ap (λ bytes. typing bytes k) holds ∙ sent in
    (k2, run ∙ ap ok read, sym (ap (λ out. out.1.kb_in.count) read) ∙ emptied, refl)
