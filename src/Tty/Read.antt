-- ===== src/Tty/Read.antt =====
-- What a reading process gets: `tty_dev_write` on a key of the input buffer.
use lwos.Common.{
  ℕ, zero, suc, ◌%◌, ◌<◌, ◌≡◌, refl, ◌∙◌, sym, ap, true, false, List, ◌∷◌, arith, ltb, ◌==◌, lt→ltb,
  subst,
}
use lwos.Ring
use lwos.Ring.{Ring}
use lwos.Ring.Refine.{IsRing, contents, stretch, take_one-contents}
use lwos.Tty.{Session, edit, finish, tty_dev_write, tty_in_bytes}
use lwos.Tty.Line.{
  Request, Typed, Answered, edited, is_complete, edit-Typed, finish_early, finish-Answered,
}

-- The session once the oldest key is out of the input buffer.
abbrev taken : Session → Session
taken s = record s { tty = record (s.tty) { inbuf = (Ring.take_one tty_in_bytes s.tty.inbuf).1 } }

stretch-waiting :
    (buf : List ℕ) (i n key : ℕ) (keys : List ℕ) → stretch tty_in_bytes buf i n ≡ key ∷ keys → 0 < n
stretch-waiting buf i zero key keys e = cc
stretch-waiting buf i (suc n) key keys e = omega arith

waiting : (r : Ring) (key : ℕ) (keys : List ℕ) → contents tty_in_bytes r ≡ key ∷ keys → 0 < r.count
waiting r key keys e = stretch-waiting (r.buf) (r.tail) (r.count) key keys e

inbuf_edit : (ch : ℕ) (s : Session) → (edit ch s).tty.inbuf ≡ s.tty.inbuf
unfolding edit
inbuf_edit ch s = ground arith

inbuf_finish : (ch : ℕ) (s : Session) → (finish ch s).tty.inbuf ≡ s.tty.inbuf
unfolding finish
inbuf_finish ch s = ground arith

head_inj : {x y : ℕ} {xs ys : List ℕ} → x ∷ xs ≡ y ∷ ys → (x ≡ y) × (xs ≡ ys)
head_inj e = (cc, cc)

-- Taking the oldest key out of the input buffer leaves the others in it.
take_one-key :
    (r : Ring) (key : ℕ) (keys : List ℕ)
    → IsRing tty_in_bytes r
    → contents tty_in_bytes r ≡ key ∷ keys
    → ((Ring.take_one tty_in_bytes r).0 ≡ key)
      × IsRing tty_in_bytes ((Ring.take_one tty_in_bytes r).1)
      × (contents tty_in_bytes ((Ring.take_one tty_in_bytes r).1) ≡ keys)
take_one-key r key keys ring before =
    let (ring', split) = take_one-contents tty_in_bytes r ring (waiting r key keys before) in
    let (first, others) = head_inj (sym split ∙ before) in (first, ring', others)

tty_dev_write-key :
    (s : Session) (key : ℕ) (keys : List ℕ)
    → IsRing tty_in_bytes (s.tty.inbuf)
    → contents tty_in_bytes (s.tty.inbuf) ≡ key ∷ keys
    → 0 < s.tty.tty_left_cnt
    → tty_dev_write s ≡ finish (key % 256) (edit (key % 256) (taken s))
unfolding tty_dev_write
tty_dev_write-key s key keys ring before h =
    let r : Ring = s.tty.inbuf in
    let some_key : ltb 0 r.count ≡ true = lt→ltb 0 (r.count) (waiting r key keys before) in
    let some_left : (s.tty.tty_left_cnt == 0) ≡ false = ground arith in
    rw (some_key, some_left, (take_one-key r key keys ring before).0) refl

-- The input buffer that a session is left with.
pub record Buffered (keys : List ℕ) (s : Session) : Type 0 where
  pub valid : IsRing tty_in_bytes (s.tty.inbuf)
  pub held : contents tty_in_bytes (s.tty.inbuf) ≡ keys

tty_dev_write-Buffered :
    (s : Session) (key : ℕ) (keys : List ℕ)
    → Buffered (key ∷ keys) s
    → 0 < s.tty.tty_left_cnt
    → Buffered keys (tty_dev_write s)
tty_dev_write-Buffered s key keys b h =
    let (first, ring', others) = take_one-key (s.tty.inbuf) key keys b.valid b.held in
    let kept : (tty_dev_write s).tty.inbuf ≡ (taken s).tty.inbuf =
      ap (λ s'. s'.tty.inbuf) (tty_dev_write-key s key keys b.valid b.held h)
      ∙ (inbuf_finish (key % 256) (edit (key % 256) (taken s))
          ∙ inbuf_edit (key % 256) (taken s)) in
    record { valid = rw kept ring'; held = rw kept others }

taken-Typed : (q : Request) (line : List ℕ) (s : Session) → Typed q line s → Typed q line (taken s)
taken-Typed q line s t = record {
  reader = t.reader;
  on_behalf = t.on_behalf;
  buffer = t.buffer;
  stored = t.stored;
  left = t.left;
}

-- A key that does not complete the line: it edits the line, the reader goes on waiting, and the
-- key is gone from the input buffer.
pub tty_dev_write-Typed :
    (q : Request) (line : List ℕ) (s : Session) (key : ℕ) (keys : List ℕ)
    → Buffered (key ∷ keys) s
    → Typed q line s
    → 0 < s.tty.tty_left_cnt
    → is_complete (q.cnt) (key % 256) (edited (key % 256) line) ≡ false
    → Typed q (edited (key % 256) line) (tty_dev_write s) × Buffered keys (tty_dev_write s)
tty_dev_write-Typed q line s key keys b t h more =
    let ch : ℕ = key % 256 in
    let t' : Typed q (edited ch line) (edit ch (taken s)) =
      edit-Typed q line (taken s) ch (taken-Typed q line s t) h in
    let step = tty_dev_write-key s key keys b.valid b.held h in
    let early = finish_early q ch (edited ch line) (edit ch (taken s)) t' more in
    (
      subst (Typed q (edited ch line)) (sym (step ∙ early)) t',
      tty_dev_write-Buffered s key keys b h,
    )

-- A key that completes the line, a newline or the last character of the request: the reader is told
-- the length of the line, which lies at the address that it asked for, and the key is gone from the
-- input buffer.
pub tty_dev_write-Answered :
    (q : Request) (line : List ℕ) (s : Session) (key : ℕ) (keys : List ℕ)
    → Buffered (key ∷ keys) s
    → Typed q line s
    → 0 < s.tty.tty_left_cnt
    → is_complete (q.cnt) (key % 256) (edited (key % 256) line) ≡ true
    → Answered q (edited (key % 256) line) (tty_dev_write s) × Buffered keys (tty_dev_write s)
tty_dev_write-Answered q line s key keys b t h last =
    let ch : ℕ = key % 256 in
    let t' : Typed q (edited ch line) (edit ch (taken s)) =
      edit-Typed q line (taken s) ch (taken-Typed q line s t) h in
    let step = tty_dev_write-key s key keys b.valid b.held h in
    (
      subst (Answered q (edited ch line)) (sym step)
          (finish-Answered q ch (edited ch line) (edit ch (taken s)) t' last),
      tty_dev_write-Buffered s key keys b h,
    )
