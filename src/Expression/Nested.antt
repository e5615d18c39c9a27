-- ===== src/Expression/Nested.antt =====
-- build_support/cpplint.py: `FindEndOfExpressionInLine` and `CloseExpression` on well-nested text.
use turtle.Common.{
  ℕ, suc, ◌+◌, ◌≡◌, refl, ap, ◌∙◌, true, false, List, [], ◌∷◌, ◌++◌, some, ◌==◌, length, arith,
  append_assoc, drop-append, get_elem?-append,
}
use turtle.Common.Text.{Text}
use turtle.Expression.Grammar.{
  is_plain, Nested, nil, plain, wrap, advance, advance-length, advance-append, push_all,
  push_all-append, pairs_open,
}
use turtle.Expression.Turns.{scan_end-go_on, scan_end-close}
use turtle.Expression.{
  Brackets, is_open, pairs, end_turn, at_position, scan_end, find_end_of_expression_in_line,
  close_expression, go_on, close, opens_expression,
}

plain_turn :
    (behind : Text) (c b : ℕ) (stack : Brackets)
    → is_plain c ≡ true
    → (b == b'<') ≡ false
    → end_turn behind c (b ∷ stack) ≡ go_on (b ∷ stack)
unfolding end_turn
plain_turn behind c b stack h k = ground arith

open_turn :
    (behind : Text) (o : ℕ) (stack : Brackets)
    → is_open o ≡ true
    → end_turn behind o stack ≡ go_on (o ∷ stack)
unfolding end_turn
open_turn behind o stack h = rw h

close_turn :
    (behind : Text) (o c b : ℕ) (stack : Brackets)
    → pairs o c ≡ true
    → (end_turn behind c (o ∷ b ∷ stack) ≡ go_on (b ∷ stack)) × (end_turn behind c (o ∷ []) ≡ close)
unfolding end_turn
close_turn behind o c b stack h = (ground arith, ground arith)

-- A well-nested text inside a bracket is passed over, and the stack is as before.
scan_end-Nested :
    {s : Text} (n : Nested is_plain s) (behind : Text) (i : ℕ) (rest : Text) (b : ℕ)
    (stack : Brackets)
    → (b == b'<') ≡ false
    → scan_end behind i (s ++ rest) (b ∷ stack)
      ≡ scan_end (push_all behind s) (advance i s) rest (b ∷ stack)
scan_end-Nested nil behind i rest b stack k = unfold scan_end in refl
scan_end-Nested (plain c {s = s} h n) behind i rest b stack k =
    scan_end-go_on behind i c (s ++ rest) _ _ (plain_turn behind c b stack h k)
    ∙ scan_end-Nested n (c ∷ behind) (suc i) rest b stack k
scan_end-Nested (wrap o c {s = s} {t = t} h n m) behind i rest b stack k =
    scan_end-go_on behind i o _ _ _ (open_turn behind o (b ∷ stack) (pairs_open o c h).0)
    ∙ rw append_assoc (
        scan_end-Nested n (o ∷ behind) (suc i) (c ∷ (t ++ rest)) o (b ∷ stack) (pairs_open o c h).1
        ∙ scan_end-go_on _ _ c (t ++ rest) _ _ (close_turn _ o c b stack h).0
        ∙ scan_end-Nested m _ _ rest b stack k
        ∙ rw (push_all-append, advance-append) refl)

scan_end_nested :
    {s : Text} (n : Nested is_plain s) (behind : Text) (i o c : ℕ) (rest : Text)
    → pairs o c ≡ true
    → scan_end behind i (o ∷ (s ++ c ∷ rest)) [] ≡ at_position (i + length s + 2)
scan_end_nested {s} n behind i o c rest h =
    scan_end-go_on behind i o _ _ _ (open_turn behind o [] (pairs_open o c h).0)
    ∙ scan_end-Nested n (o ∷ behind) (suc i) (c ∷ rest) o [] (pairs_open o c h).1
    ∙ scan_end-close _ _ c rest _ (close_turn _ o c 0 [] h).1
    ∙ ap at_position (omega (arith, advance-length (suc i) s))

-- Where a line holds a bracket, a well-nested text and the partner of the bracket, the search from
-- the bracket on ends just behind the partner.
find_end_of_expression_in_line-Nested :
    {s : Text} (n : Nested is_plain s) (pre : Text) (o c : ℕ) (rest : Text)
    → pairs o c ≡ true
    → find_end_of_expression_in_line (pre ++ o ∷ (s ++ c ∷ rest)) (length pre) []
      ≡ at_position (length pre + length s + 2)
unfolding find_end_of_expression_in_line
find_end_of_expression_in_line-Nested n pre o c rest h =
    rw drop-append (scan_end_nested n _ (length pre) o c rest h)

opens_nested : (o c : ℕ) (rest : Text) → pairs o c ≡ true → opens_expression (o ∷ rest) ≡ true
opens_nested o c rest h = ground arith

-- In a file whose line holds a bracket, a well-nested text and the partner of the bracket,
-- `CloseExpression` at the bracket returns this line and the position just behind the partner.
pub close_expression-Nested :
    {s : Text} (n : Nested is_plain s) (before after : List Text) (pre : Text) (o c : ℕ)
    (rest : Text)
    → pairs o c ≡ true
    → close_expression (before ++ (pre ++ o ∷ (s ++ c ∷ rest)) ∷ after) (length before) (length pre)
      ≡ record {
        line = pre ++ o ∷ (s ++ c ∷ rest);
        linenum = length before;
        position = some (length pre + length s + 2);
      }
unfolding close_expression
close_expression-Nested n before after pre o c rest h =
    rw
      (
        get_elem?-append before (pre ++ o ∷ (_ ++ c ∷ rest)) after,
        drop-append,
        opens_nested o c _ h,
        find_end_of_expression_in_line-Nested n pre o c rest h,
      )
      refl
