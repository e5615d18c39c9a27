-- ===== src/Expression/Turns.antt =====
-- build_support/cpplint.py: one round of the loop of `FindEndOfExpressionInLine`.
use turtle.Common.{ℕ, suc, ◌+◌, ◌≡◌, ◌⊎◌, inl, inr, refl, ◌∷◌}
use turtle.Common.Text.{Text}
use turtle.Expression.{
  Brackets, Turn, go_on, close, fail, end_turn, at_position, unclosed, scan_end,
}

pub Turn-cases : (t : Turn) → ((stack : Brackets) × (t ≡ go_on stack)) ⊎ ((t ≡ close) ⊎ (t ≡ fail))
Turn-cases (go_on stack) = inl (stack, refl)
Turn-cases close = inr (inl refl)
Turn-cases fail = inr (inr refl)

pub scan_end-go_on :
    (behind : Text) (i c : ℕ) (rest : Text) (stack stack' : Brackets)
    → end_turn behind c stack ≡ go_on stack'
    → scan_end behind i (c ∷ rest) stack ≡ scan_end (c ∷ behind) (suc i) rest stack'
unfolding scan_end
scan_end-go_on behind i c rest stack stack' h = rw (h, scan_end) refl

pub scan_end-close :
    (behind : Text) (i c : ℕ) (rest : Text) (stack : Brackets)
    → end_turn behind c stack ≡ close
    → scan_end behind i (c ∷ rest) stack ≡ at_position (i + 1)
unfolding scan_end
scan_end-close behind i c rest stack h = rw (h, scan_end) refl

pub scan_end-fail :
    (behind : Text) (i c : ℕ) (rest : Text) (stack : Brackets)
    → end_turn behind c stack ≡ fail
    → scan_end behind i (c ∷ rest) stack ≡ unclosed
unfolding scan_end
scan_end-fail behind i c rest stack h = rw (h, scan_end) refl
