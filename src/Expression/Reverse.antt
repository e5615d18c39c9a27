-- ===== src/Expression/Reverse.antt =====
-- build_support/cpplint.py: `FindStartOfExpressionInLine` and `ReverseCloseExpression`.
pub mod Nested
use mathlib.Core.List.{reverse}
use turtle.Common.{
  ℕ, suc, ◌+◌, Bool, true, false, not, ◌&&◌, ◌||◌, List, [], ◌∷◌, ◌++◌, Option, none, some, ◌==◌,
  if◌then◌else◌, length, take, drop,
}
use turtle.Common.Text.{Text}
use turtle.Common.Slices.{line_at}
use turtle.Regex.{Regex, seq, word, space, matches}
use turtle.Expression.{
  Brackets, is_open, is_close, pairs, drop_top, top_is, pop, is_nil, after_operator, previous_is,
  Found, at_position, unclosed, open_stack, Place,
}

-- What one character does: the loop goes on, it goes on and passes over one more character, or the
-- function returns.
pub data Turn : Type 0 where
  go_on : Brackets → Turn
  pass_over : Turn
  close : Turn
  fail : Turn

abbrev close_if_nil : Brackets → Turn
close_if_nil [] = close
close_if_nil (b ∷ stack) = go_on (b ∷ stack)

abbrev fail_if_nil : Brackets → Turn
fail_if_nil [] = fail
fail_if_nil (b ∷ stack) = go_on (b ∷ stack)

abbrev match_top : (ℕ → Bool) → Brackets → Turn
match_top fits [] = fail
match_top fits (b ∷ stack) = if fits b then close_if_nil stack else fail

-- `r'\s>=\s'`
unfoldable ge_pattern : Regex
unfolding seq word space
ge_pattern = seq (space ∷ word ">=" ∷ space ∷ [])

-- `Match(r'\s>=\s', line[i - 1:])`
unfoldable in_ge : Text → ℕ → Text → Bool
in_ge [] c ahead = false
in_ge (x ∷ _) c ahead = matches ge_pattern (x ∷ c ∷ ahead)

-- The body of the loop, at a character with what is in front of it in the line, nearest first, and
-- what is behind it.
pub start_turn : Text → ℕ → Text → Brackets → Turn
unfolding drop_top
start_turn before c ahead stack =
    if is_close c
    then go_on (c ∷ stack)
    else if c == b'>'
    then (if not (is_nil before)
          && (previous_is b'-' before || in_ge before c ahead || after_operator before)
        then pass_over
        else go_on (b'>' ∷ stack))
    else if c == b'<'
    then (if previous_is b'<' before
        then pass_over
        else if top_is b'>' stack
        then close_if_nil (pop stack)
        else go_on stack)
    else if is_open c
    then match_top (λ e. pairs c e) (drop_top b'>' stack)
    else if c == b';'
    then fail_if_nil (drop_top b'>' stack)
    else go_on stack

-- The loop, with the characters from position `i` down; the flag is the extra `i -= 1`.
pub scan_start : Bool → Text → Text → Brackets → Found
scan_start passing [] ahead stack = open_stack stack
scan_start true (c ∷ before) ahead stack = scan_start false before (c ∷ ahead) stack
scan_start false (c ∷ before) ahead stack = elim (start_turn before c ahead stack) [
  | go_on stack' ↦ scan_start false before (c ∷ ahead) stack'
  | pass_over ↦ scan_start true before (c ∷ ahead) stack
  | close ↦ at_position (length before)
  | fail ↦ unclosed
]

-- The characters up to `endpos`; `suc_endpos` is one more.
pub find_start_of_expression_in_line : Text → ℕ → Brackets → Found
find_start_of_expression_in_line line suc_endpos stack =
    scan_start false (reverse (take suc_endpos line)) (drop suc_endpos line) stack

-- The loop over the lines in front, nearest first.
scan_lines_back : Text → ℕ → List Text → Found → Place
scan_lines_back line n lines (at_position p) = record {
  line = line;
  linenum = n;
  position = some p;
}
scan_lines_back line n lines unclosed = record { line = line; linenum = 0; position = none }
scan_lines_back line n lines (open_stack []) = record { line = line; linenum = 0; position = none }
scan_lines_back line n [] (open_stack (b ∷ stack)) = record {
  line = line;
  linenum = 0;
  position = none;
}
scan_lines_back line n (next ∷ lines) (open_stack (b ∷ stack)) =
    scan_lines_back next (length lines) lines
      (find_start_of_expression_in_line next (length next) (b ∷ stack))

abbrev pub closes_expression : Text → Bool
closes_expression [] = false
closes_expression (c ∷ rest) = is_close c || c == b'>'

unfoldable pub reverse_close_expression : List Text → ℕ → ℕ → Place
unfolding scan_lines_back
reverse_close_expression elided linenum p =
    let line = line_at elided linenum in
    if not (closes_expression (drop p line))
    then record { line = line; linenum = 0; position = none }
    else scan_lines_back line linenum (reverse (take linenum elided))
        (find_start_of_expression_in_line line (suc p) [])
