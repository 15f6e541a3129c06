-- ===== src/Tty/Line.antt =====
-- The line that a reading process is given, and the two halves of `tty_dev_write` that edit and
-- finish it.
use lwos.Common.{
  ℕ, zero, suc, ◌+◌, ◌-◌, ◌≤◌, ◌<◌, ◌≡◌, refl, ◌∙◌, sym, ap, Bool, true, false, ◌||◌, List, [], ◌∷◌,
  ◌++◌, arith, ◌==◌, if◌then◌else◌, length, Bool-cases, inl, inr,
}
use lwos.Tty.{
  Session, Effect, out_char, resume, is_printable, newline, backspace, edit, finish, tty_do_read,
  bytes,
}
use lwos.Tty.Output.{bytes-add}
use lwos.Proc.{update}

-- A list without its last value.
abbrev pub but_last : List ℕ → List ℕ
but_last [] = []
but_last (x ∷ []) = []
but_last (x ∷ y ∷ ys) = x ∷ but_last (y ∷ ys)

-- The line as an editor sees it.
abbrev pub edited : ℕ → List ℕ → List ℕ
edited ch line =
    if is_printable ch then line ++ (ch ∷ []) else if ch == backspace then but_last line else line

-- A request to read: the parameters of `tty_do_read`.
pub record Request : Type 0 where
  pub source : ℕ
  pub procnr : ℕ
  pub la : ℕ
  pub cnt : ℕ

-- The line that has been typed so far lies in the reader's buffer, and what is still left of the
-- request is the room behind it.
pub record Typed (q : Request) (line : List ℕ) (s : Session) : Type 0 where
  pub reader : s.tty.tty_caller ≡ q.source
  pub on_behalf : s.tty.tty_procnr ≡ q.procnr
  pub buffer : s.tty.tty_req_buf ≡ q.la
  pub stored : bytes s.mem s.tty.tty_req_buf s.tty.tty_trans_cnt ≡ line
  pub left : s.tty.tty_left_cnt + s.tty.tty_trans_cnt ≡ q.cnt

bytes-update_above :
    (mem : ℕ → ℕ) (p n at v : ℕ) → p + n ≤ at → bytes (update mem at v) p n ≡ bytes mem p n
bytes-update_above mem p zero at v h = refl
bytes-update_above mem p (suc n) at v h =
    let first : update mem at v p ≡ mem p = ground arith in
    rw first (ap (λ rest. mem p ∷ rest) (bytes-update_above mem (p + 1) n at v (omega arith)))

bytes-suc : (mem : ℕ → ℕ) (p n : ℕ) → bytes mem p (n + 1) ≡ bytes mem p n ++ (mem (p + n) ∷ [])
bytes-suc mem p n = sym (bytes-add mem p n 1)

but_last-append : (xs : List ℕ) (v : ℕ) → but_last (xs ++ (v ∷ [])) ≡ xs
but_last-append [] v = refl
but_last-append (x ∷ []) v = refl
but_last-append (x ∷ y ∷ ys) v = ap (λ rest. x ∷ rest) (but_last-append (y ∷ ys) v)

bytes-but_last : (mem : ℕ → ℕ) (p n : ℕ) → bytes mem p (n - 1) ≡ but_last (bytes mem p n)
bytes-but_last mem p zero = refl
bytes-but_last mem p (suc n) =
    ap (bytes mem p) {x = suc n - 1} {y = n} (omega arith)
    ∙ (sym (but_last-append (bytes mem p n) (mem (p + n)))
        ∙ ap but_last
            (sym (bytes-suc mem p n) ∙ ap (bytes mem p) {x = n + 1} {y = suc n} (omega arith)))

but_last-stored :
    (q : Request) (line : List ℕ) (s : Session)
    → Typed q line s
    → bytes s.mem s.tty.tty_req_buf (s.tty.tty_trans_cnt - 1) ≡ but_last line
but_last-stored q line s t =
    bytes-but_last s.mem s.tty.tty_req_buf s.tty.tty_trans_cnt ∙ ap but_last t.stored

append-stored :
    (q : Request) (line : List ℕ) (s : Session) (ch : ℕ)
    → Typed q line s
    → bytes
        (update s.mem (s.tty.tty_req_buf + s.tty.tty_trans_cnt) ch)
        s.tty.tty_req_buf
        (s.tty.tty_trans_cnt + 1)
      ≡ line ++ (ch ∷ [])
append-stored q line s ch t =
    let p : ℕ = s.tty.tty_req_buf in
    let n : ℕ = s.tty.tty_trans_cnt in
    let last : update s.mem (p + n) ch (p + n) ≡ ch = ground arith in
    bytes-suc (update s.mem (p + n) ch) p n
    ∙ rw (bytes-update_above s.mem p n (p + n) ch (omega arith), t.stored, last) refl

pub edit-Typed :
    (q : Request) (line : List ℕ) (s : Session) (ch : ℕ)
    → Typed q line s
    → 0 < s.tty.tty_left_cnt
    → Typed q (edited ch line) (edit ch s)
unfolding edit
edit-Typed q line s ch t h = elim (Bool-cases (is_printable ch)) [
  | inl printable ↦ rw printable (record {
    reader = t.reader;
    on_behalf = t.on_behalf;
    buffer = t.buffer;
    stored = append-stored q line s ch t;
    left = omega (arith, t.left);
  })
  | inr odd ↦ elim (Bool-cases (ch == backspace)) [
    | inl back ↦ elim (Bool-cases (s.tty.tty_trans_cnt == 0)) [
      | inl empty ↦
          rw (odd, back, empty)
            (record {
              reader = t.reader;
              on_behalf = t.on_behalf;
              buffer = t.buffer;
              stored =
                  ap (bytes s.mem s.tty.tty_req_buf) {x = s.tty.tty_trans_cnt}
                    {y = s.tty.tty_trans_cnt - 1} (ground arith)
                  ∙ but_last-stored q line s t;
              left = t.left;
            })
      | inr some_typed ↦
          rw (odd, back, some_typed)
            (record {
              reader = t.reader;
              on_behalf = t.on_behalf;
              buffer = t.buffer;
              stored = but_last-stored q line s t;
              left = ground (arith, t.left);
            })
    ]
    | inr other ↦ rw (odd, other) t
  ]
]

pub tty_do_read-Typed :
    (q : Request) (s : Session)
    → Typed q [] (record s { tty = tty_do_read q.source q.procnr q.la q.cnt (s.tty) })
unfolding tty_do_read
tty_do_read-Typed q s = record {
  reader = refl;
  on_behalf = refl;
  buffer = refl;
  stored = refl;
  left = omega arith;
}

-- The line is complete at a newline, and when the request is full.
abbrev pub is_complete : ℕ → ℕ → List ℕ → Bool
is_complete cnt ch line = (ch == newline) || (length line == cnt)

length-bytes : (mem : ℕ → ℕ) (p n : ℕ) → length (bytes mem p n) ≡ n
length-bytes mem p zero = refl
length-bytes mem p (suc n) = ap suc (length-bytes mem (p + 1) n)

length-Typed :
    (q : Request) (line : List ℕ) (s : Session) → Typed q line s → length line ≡ s.tty.tty_trans_cnt
length-Typed q line s t =
    ap length (sym t.stored) ∙ length-bytes s.mem s.tty.tty_req_buf s.tty.tty_trans_cnt

left_iff_full :
    (q : Request) (line : List ℕ) (s : Session)
    → Typed q line s
    → (s.tty.tty_left_cnt == 0) ≡ (length line == q.cnt)
left_iff_full q line s t = ground (arith, t.left, length-Typed q line s t)

pub finish_early :
    (q : Request) (ch : ℕ) (line : List ℕ) (s : Session)
    → Typed q line s
    → is_complete (q.cnt) ch line ≡ false
    → finish ch s ≡ s
unfolding finish
finish_early q ch line s t h = rw (left_iff_full q line s t, h) refl

-- The reader has been answered: its buffer holds the line, nothing is left of its request, and the
-- last effect is the message with the line's length.
pub record Answered (q : Request) (line : List ℕ) (s : Session) : Type 0 where
  pub delivered : bytes s.mem q.la (length line) ≡ line
  pub closed : s.tty.tty_left_cnt ≡ 0
  pub earlier : List Effect
  pub told : s.effects ≡ earlier ++ (resume (q.source) (q.procnr) (length line) ∷ [])

pub finish-Answered :
    (q : Request) (ch : ℕ) (line : List ℕ) (s : Session)
    → Typed q line s
    → is_complete (q.cnt) ch line ≡ true
    → Answered q line (finish ch s)
unfolding finish
finish-Answered q ch line s t h =
    let counted = length-Typed q line s t in
    let full = left_iff_full q line s t in
    rw (full, h)
      (record {
        delivered = rw (counted, ← t.buffer) t.stored;
        closed = refl;
        earlier = s.effects ++ (out_char newline ∷ []);
        told = rw (counted, t.reader, t.on_behalf) refl;
      })
