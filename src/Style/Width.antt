-- ===== src/Style/Width.antt =====
-- build_support/cpplint.py: `GetLineWidth`.
use turtle.Common.{ℕ, ◌+◌, Bool, [], ◌∷◌, if◌then◌else◌}
use turtle.Common.Text.{Text}
use Prim.Native.Nat.{ℕ, ◌+◌}

-- Python's `unicodedata`: the normal form NFC, the wide characters (W and F) and the combining
-- ones.
pub record Unicode : Type 0 where
  pub nfc : Text → Text
  pub is_wide : ℕ → Bool
  pub is_combining : ℕ → Bool

abbrev char_width : Unicode → ℕ → ℕ
char_width u c = if u.is_wide c then 2 else if u.is_combining c then 0 else 1

unfoldable pub text_width : Unicode → Text → ℕ
text_width u [] = 0
text_width u (c ∷ s) = char_width u c + text_width u s

-- The width of a `str` of Python 3.3 or later, which has no surrogates.
unfoldable pub get_line_width : Unicode → Text → ℕ
get_line_width u line = text_width u (u.nfc line)
