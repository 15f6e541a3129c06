-- ===== src/Text/Format.antt =====
-- Formatted text: what is outside of directives, and a number in the middle.
use lwos.Common.{ℕ, ◌≢◌, List, [], ◌∷◌}

-- Text without a `%`.
pub data IsPlain : List ℕ → Type 0 where
  end : IsPlain []
  more : {c : ℕ} {text : List ℕ} → c ≢ 37 → IsPlain text → IsPlain (c ∷ text)
