-- ===== src/Expression/Bounds.antt =====
-- build_support/cpplint.py: where `FindEndOfExpressionInLine` may end.
use turtle.Common.{
  ℕ, zero, suc, ◌+◌, ◌-◌, ◌<◌, ◌≤◌, ◌≡◌, refl, Bool, true, false, none, ◌||◌, [], ◌∷◌, arith, ◌==◌,
  length, get_or, drop, length-drop, inl, inr, sym, ap, ◌∙◌, List, some, if◌then◌else◌,
}
use turtle.Common.Text.{Text}
use turtle.Common.Slices.{line_at}
use turtle.Expression.Turns.{Turn-cases, scan_end-go_on, scan_end-close, scan_end-fail}
use turtle.Expression.{
  Brackets, is_close, end_turn, at_position, scan_end, find_end_of_expression_in_line, close, Found,
  unclosed, open_stack, scan_lines, close_expression, Place,
}

abbrev pub is_closer : ℕ → Bool
is_closer c = is_close c || c == b'>'

close_turn_closer :
    (behind : Text) (c : ℕ) (stack : Brackets)
    → end_turn behind c stack ≡ close
    → is_closer c ≡ true
unfolding end_turn
close_turn_closer behind c stack h = ground arith

-- The position is one behind a closing character of the text that was read.
record Closes (i : ℕ) (rest : Text) (p : ℕ) : Type 0 where
  offset : ℕ
  behind_it : p ≡ i + offset + 1
  inside : offset < length rest
  closer : is_closer (get_or rest offset 0) ≡ true

scan_end-Closes :
    (rest behind : Text) (i : ℕ) (stack : Brackets) (p : ℕ)
    → scan_end behind i rest stack ≡ at_position p
    → Closes i rest p
scan_end-Closes [] behind i stack p h = absurd (unfold scan_end in cc)
scan_end-Closes (c ∷ rest) behind i stack p h = elim (Turn-cases (end_turn behind c stack)) [
  | inl (stack', e) ↦
      let later =
        scan_end-Closes rest (c ∷ behind) (suc i) stack' p
          (sym (scan_end-go_on behind i c rest stack stack' e) ∙ h) in
      record {
        offset = suc later.offset;
        behind_it = omega (arith, later.behind_it);
        inside = omega (arith, later.inside);
        closer = later.closer;
      }
  | inr (inl e) ↦ record {
    offset = 0;
    behind_it = ground (arith, scan_end-close behind i c rest stack e);
    inside = omega arith;
    closer = close_turn_closer behind c stack e;
  }
  | inr (inr e) ↦ absurd (ground (arith, scan_end-fail behind i c rest stack e))
]

get_or-drop : (n k : ℕ) (s : Text) → get_or (drop n s) k 0 ≡ get_or s (n + k) 0
get_or-drop zero k s = ap (λ (j : ℕ). get_or s j 0) (omega arith)
get_or-drop (suc n) k [] = refl
get_or-drop (suc n) k (c ∷ s) =
    let e : suc n + k ≡ suc (n + k) = omega arith in rw e (get_or-drop n k s)

-- A position that the search returns lies behind the start and within the line, and the character
-- in front of it is a closing one.
pub find_end_of_expression_in_line_bounds :
    (line : Text) (startpos p : ℕ) (stack : Brackets)
    → find_end_of_expression_in_line line startpos stack ≡ at_position p
    → (startpos < p) × (p ≤ length line) × (is_closer (get_or line (p - 1) 0) ≡ true)
unfolding find_end_of_expression_in_line
find_end_of_expression_in_line_bounds line startpos p stack h =
    let c = scan_end-Closes _ _ startpos stack p h in
    let e : p - 1 ≡ startpos + c.offset = omega (arith, c.behind_it) in
    (
      omega (arith, c.behind_it),
      omega (arith, c.behind_it, c.inside, length-drop startpos line),
      rw (e, ← get_or-drop startpos c.offset line) c.closer,
    )

scan_lines_linenum :
    (total : ℕ) (line : Text) (n : ℕ) (lines : List Text) (f : Found) (p : ℕ)
    → (scan_lines total line n lines f).position ≡ some p
    → n ≤ (scan_lines total line n lines f).linenum
unfolding scan_lines
scan_lines_linenum total line n lines (at_position i) p h = omega arith
scan_lines_linenum total line n lines unclosed p h = absurd (cc)
scan_lines_linenum total line n lines (open_stack []) p h = absurd (cc)
scan_lines_linenum total line n [] (open_stack (b ∷ stack)) p h = absurd (cc)
scan_lines_linenum total line n (next ∷ lines) (open_stack (b ∷ stack)) p h = omega (
  arith,
  scan_lines_linenum total next (suc n) lines (find_end_of_expression_in_line next 0 (b ∷ stack)) p
      h,
)

either_linenum :
    (b : Bool) (x y : Place) (n p : ℕ)
    → x.position ≡ none
    → (y.position ≡ some p → n ≤ y.linenum)
    → (if b then x else y).position ≡ some p
    → n ≤ (if b then x else y).linenum
either_linenum true x y n p f g h = absurd (cc)
either_linenum false x y n p f g h = g h

-- An expression that is closed is closed in the line where it starts or in a later one.
pub close_expression_linenum :
    (elided : List Text) (n i p : ℕ)
    → (close_expression elided n i).position ≡ some p
    → n ≤ (close_expression elided n i).linenum
unfolding close_expression
close_expression_linenum elided n i p h =
    either_linenum _ _ _ n p refl
      (λ e.
        scan_lines_linenum (length elided) (line_at elided n) n (drop (suc n) elided)
          (find_end_of_expression_in_line (line_at elided n) i []) p e)
      h
