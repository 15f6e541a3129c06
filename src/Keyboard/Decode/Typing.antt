-- ===== src/Keyboard/Decode/Typing.antt =====
-- Scan codes that stand alone: what the whole buffer is read as.
use lwos.Common.{
  ℕ, zero, suc, ◌+◌, ◌<◌, ◌≡◌, refl, ◌∙◌, ap, sym, Bool, true, false, not, ◌&&◌, some, none, List,
  [], ◌∷◌, ◌++◌, bit_and, ltb, ◌==◌, if◌then◌else◌, arith, Bool-cases, inl, inr, length, subst,
}
use lwos.Common.Bits.{passes_below, passes_below-lt}
use lwos.Fault.{ok, ◌>>=◌}
use lwos.Ring
use lwos.Ring.Refine.{IsRing, contents, take_one-contents, length-stretch}
use lwos.Keyboard.{Keyboard, kb_in_bytes, get_byte_from_kbuf, set_leds}
use lwos.Keyboard.Decode.{
  Reading, row_of, cell, choose_column, hold, flagged, parse, translate, deliver, read_loop,
  keyboard_read,
}
use lwos.Keyboard.Decode.Flags.{is_special, pressed_key, pressed_key-ordinary}

-- A scan code that no other belongs to.
abbrev pub is_alone : ℕ → Bool
is_alone b = ltb b 256 && (not (b == 0xe0) && not (b == 0xe1))

pub data AllAlone : List ℕ → Type 0 where
  end : AllAlone []
  more : {b : ℕ} {bytes : List ℕ} → is_alone b ≡ true → AllAlone bytes → AllAlone (b ∷ bytes)

-- The keyboard without the oldest byte of its buffer.
abbrev pub popped : Keyboard → Keyboard
popped k = record k { kb_in = (Ring.take_one kb_in_bytes k.kb_in).1; code_with_e0 = false }

-- The keyboard after a scan code, and the keys that it gives: one when it is of a key going down.
abbrev pub after : ℕ → Keyboard → Keyboard
after b k =
    let k1 = popped k in
    hold (pressed_key b k1) (ltb b 128)
      (record k1 { column = choose_column k1 (cell (row_of b) 0) })

abbrev pub given : ℕ → Keyboard → List ℕ
given b k = if ltb b 128 then flagged (after b k) (pressed_key b (popped k)) ∷ [] else []

-- One scan code after the other.
abbrev pub typing : List ℕ → Keyboard → List ℕ × Keyboard
typing [] k = ([], k)
typing (b ∷ bytes) k = let (keys, k') = typing bytes (after b k) in (given b k ++ keys, k')

break_table :
    passes_below (λ b. if ltb b 128 then bit_and b 0x80 == 0 else not (bit_and b 0x80 == 0)) 256
    ≡ true
unfolding passes_below
break_table = refl

break_flag : (b : ℕ) → b < 256 → (bit_and b 0x80 == 0) ≡ ltb b 128
break_flag b h =
    let checked =
      passes_below-lt (λ b. if ltb b 128 then bit_and b 0x80 == 0 else not (bit_and b 0x80 == 0))
        256 {v = b} break_table h in
    elim (Bool-cases (ltb b 128)) [
      | inl low ↦ ground (arith, low, checked)
      | inr high ↦ ground (arith, high, checked)
    ]

-- A key that is held or locked changes nothing of the buffer.
pub hold-kb_in : (key : ℕ) (make : Bool) (k : Keyboard) → (hold key make k).kb_in ≡ k.kb_in
unfolding hold set_leds
hold-kb_in key make k = ground arith

-- The reading after a round.
abbrev read_one : ℕ → Reading → Reading
read_one b r = record {
  keyboard = after b r.keyboard;
  scan_code = b;
  make = some (ltb b 128);
  key =
      if ltb b 128
      then flagged (after b r.keyboard) (pressed_key b (popped r.keyboard))
      else pressed_key b (popped r.keyboard);
}

parse-alone :
    (b : ℕ) (r : Reading)
    → 0 < r.keyboard.kb_in.count
    → (Ring.take_one kb_in_bytes r.keyboard.kb_in).0 ≡ b
    → is_alone b ≡ true
    → parse r ≡ ok (record r { keyboard = popped r.keyboard; scan_code = b })
unfolding parse get_byte_from_kbuf
parse-alone b r some_left first alone =
    let waits : (r.keyboard.kb_in.count == 0) ≡ false = ground arith in
    let not_e1 : (b == 0xe1) ≡ false = ground (arith, alone) in
    let not_e0 : (b == 0xe0) ≡ false = ground (arith, alone) in
    rw (waits, first, ◌>>=◌, not_e1, not_e0) refl

translate-alone :
    (b : ℕ) (r : Reading)
    → b < 256
    → is_special r.key ≡ false
    → translate (record r { keyboard = popped r.keyboard; scan_code = b }) ≡ record {
      keyboard = after b r.keyboard;
      scan_code = b;
      make = some (ltb b 128);
      key = pressed_key b (popped r.keyboard);
    }
unfolding translate
translate-alone b r byte plain = rw (break_flag b byte, plain) refl

deliver-alone :
    (b : ℕ) (r : Reading)
    → deliver (record {
      keyboard = after b r.keyboard;
      scan_code = b;
      make = some (ltb b 128);
      key = pressed_key b (popped r.keyboard);
    })
      ≡ ok (given b r.keyboard, read_one b r)
unfolding deliver
deliver-alone b r = elim (Bool-cases (ltb b 128)) [
  | inl low ↦ rw low refl
  | inr high ↦ rw high refl
]

either_plain :
    (b : Bool) (x y : ℕ)
    → is_special x ≡ false
    → is_special y ≡ false
    → is_special (if b then x else y) ≡ false
either_plain true x y hx hy = hx
either_plain false x y hx hy = hy

read_one-plain : (b : ℕ) (r : Reading) → is_special (read_one b r).key ≡ false
read_one-plain b r =
    let (raw, sent) = pressed_key-ordinary b (popped r.keyboard) (after b r.keyboard) in
    either_plain (ltb b 128) _ _ sent raw

-- One round of the loop.
read_loop-alone :
    (fuel b : ℕ) (r : Reading)
    → 0 < r.keyboard.kb_in.count
    → (Ring.take_one kb_in_bytes r.keyboard.kb_in).0 ≡ b
    → is_alone b ≡ true
    → is_special r.key ≡ false
    → read_loop (suc fuel) r
      ≡ (read_loop fuel (read_one b r) >>= λ (rest, k). ok (given b r.keyboard ++ rest, k))
unfolding read_loop
read_loop-alone fuel b r some_left first alone plain =
    let waits : (r.keyboard.kb_in.count == 0) ≡ false = ground arith in
    rw
      (
        waits,
        parse-alone b r some_left first alone,
        ◌>>=◌,
        translate-alone b r (ground (arith, alone)) plain,
        deliver-alone b r,
        ◌>>=◌,
      )
      refl

read_loop-typing :
    (bytes : List ℕ) (fuel : ℕ) (r : Reading)
    → IsRing kb_in_bytes r.keyboard.kb_in
    → contents kb_in_bytes r.keyboard.kb_in ≡ bytes
    → AllAlone bytes
    → is_special r.key ≡ false
    → length bytes < fuel
    → read_loop fuel r ≡ ok (typing bytes r.keyboard)
unfolding read_loop
read_loop-typing bytes zero r ring holds alone plain enough = absurd (omega arith)
read_loop-typing [] (suc fuel) r ring holds alone plain enough =
    let none_left : r.keyboard.kb_in.count ≡ 0 =
      sym (
        length-stretch kb_in_bytes (r.keyboard.kb_in.buf) (r.keyboard.kb_in.count)
          (r.keyboard.kb_in.tail))
      ∙ ap length holds in
    rw none_left refl
read_loop-typing (b ∷ bytes) (suc fuel) r ring holds (more alone rest) plain enough =
    let left : r.keyboard.kb_in.count ≡ suc (length bytes) =
      sym (
        length-stretch kb_in_bytes (r.keyboard.kb_in.buf) (r.keyboard.kb_in.count)
          (r.keyboard.kb_in.tail))
      ∙ ap length holds in
    let (ring', split) = take_one-contents kb_in_bytes (r.keyboard.kb_in) ring (omega arith) in
    let first : (Ring.take_one kb_in_bytes r.keyboard.kb_in).0 ≡ b = cc in
    let others : contents kb_in_bytes (Ring.take_one kb_in_bytes r.keyboard.kb_in).1 ≡ bytes = cc in
    let now : (after b r.keyboard).kb_in ≡ (Ring.take_one kb_in_bytes r.keyboard.kb_in).1 =
      hold-kb_in _ _ _ in
    let go =
      read_loop-typing bytes fuel (read_one b r) (subst (IsRing kb_in_bytes) (sym now) ring')
        (ap (contents kb_in_bytes) now ∙ others) rest (read_one-plain b r) (omega arith) in
    read_loop-alone fuel b r (omega arith) first alone plain ∙ rw (go, ◌>>=◌) refl

typing-empties :
    (bytes : List ℕ) (k : Keyboard)
    → IsRing kb_in_bytes k.kb_in
    → contents kb_in_bytes k.kb_in ≡ bytes
    → (typing bytes k).1.kb_in.count ≡ 0
typing-empties [] k ring holds =
    sym (length-stretch kb_in_bytes (k.kb_in.buf) (k.kb_in.count) (k.kb_in.tail)) ∙ ap length holds
typing-empties (b ∷ bytes) k ring holds =
    let left : k.kb_in.count ≡ suc (length bytes) =
      sym (length-stretch kb_in_bytes (k.kb_in.buf) (k.kb_in.count) (k.kb_in.tail))
      ∙ ap length holds in
    let (ring', split) = take_one-contents kb_in_bytes (k.kb_in) ring (omega arith) in
    let others : contents kb_in_bytes (Ring.take_one kb_in_bytes k.kb_in).1 ≡ bytes = cc in
    let now : (after b k).kb_in ≡ (Ring.take_one kb_in_bytes k.kb_in).1 = hold-kb_in _ _ _ in
    typing-empties bytes (after b k) (subst (IsRing kb_in_bytes) (sym now) ring')
      (ap (contents kb_in_bytes) now ∙ others)

-- If every scan code in a well-formed buffer stands alone, keyboard_read comes to its end, with the
-- keys and the state of typing one scan code after the other, oldest first, and with the buffer empty.
pub keyboard_read-typing :
    (k : Keyboard)
    → IsRing kb_in_bytes k.kb_in
    → AllAlone (contents kb_in_bytes k.kb_in)
    → (keyboard_read k ≡ ok (typing (contents kb_in_bytes k.kb_in) k))
      × ((typing (contents kb_in_bytes k.kb_in) k).1.kb_in.count ≡ 0)
unfolding keyboard_read
keyboard_read-typing k ring alone =
    let count = length-stretch kb_in_bytes (k.kb_in.buf) (k.kb_in.count) (k.kb_in.tail) in
    (
      read_loop-typing (contents kb_in_bytes k.kb_in) (k.kb_in.count + 1)
          (record { keyboard = k; scan_code = 0; make = none; key = 0 }) ring refl alone refl
          (omega arith),
      typing-empties (contents kb_in_bytes k.kb_in) k ring refl,
    )
