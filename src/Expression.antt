-- ===== src/Expression.antt =====
-- build_support/cpplint.py: the search for the bracket that closes or opens an expression. A
-- position of `none` is -1, and a stack of `none` is None.
pub mod Grammar
mod Turns
pub mod Nested
pub mod Bounds
pub mod Reverse
pub mod RoundTrip
use mathlib.Core.List.{reverse}
use turtle.Common.{
  ℕ, zero, suc, ◌+◌, ◌-◌, Bool, true, false, not, ◌&&◌, ◌||◌, List, [], ◌∷◌, ◌++◌, Option, none,
  some, ◌==◌, ltb, leb, if◌then◌else◌, length, take, drop, get_or,
}
use turtle.Common.Text.{Text, codes, starts_with}
use turtle.Common.Slices.{line_at}
use turtle.Regex.{Regex, seq, many, word, space, at_end, word_edge, found, matches}

-- A stack of brackets, its top first.
abbrev pub Brackets : Type 0
Brackets = List ℕ

abbrev pub is_open : ℕ → Bool
is_open c = c == b'(' || c == b'[' || c == b'{'

abbrev pub is_close : ℕ → Bool
is_close c = c == b')' || c == b']' || c == b'}'

abbrev pub pairs : ℕ → ℕ → Bool
pairs o c = (o == b'(' && c == b')') || (o == b'[' && c == b']') || (o == b'{' && c == b'}')

-- `while stack and stack[-1] == c: stack.pop()`
pub drop_top : ℕ → Brackets → Brackets
drop_top c [] = []
drop_top c (b ∷ stack) = if b == c then drop_top c stack else b ∷ stack

-- `stack and stack[-1] == c`
abbrev pub top_is : ℕ → Brackets → Bool
top_is c [] = false
top_is c (b ∷ stack) = b == c

abbrev pub pop : Brackets → Brackets
pop [] = []
pop (b ∷ stack) = stack

abbrev pub is_nil : Brackets → Bool
is_nil [] = true
is_nil _ = false

-- `r'\boperator\s*$'`, on the text in front of a position.
unfoldable pub operator_pattern : Regex
unfolding seq word space
operator_pattern = seq (word_edge ∷ word "operator" ∷ many space ∷ at_end ∷ [])

unfoldable pub after_operator : Text → Bool
after_operator behind = found operator_pattern (reverse behind)

-- What one character does: the loop goes on with a stack, or the function returns.
pub data Turn : Type 0 where
  go_on : Brackets → Turn
  close : Turn
  fail : Turn

abbrev close_if_nil : Brackets → Turn
close_if_nil [] = close
close_if_nil (b ∷ stack) = go_on (b ∷ stack)

abbrev fail_if_nil : Brackets → Turn
fail_if_nil [] = fail
fail_if_nil (b ∷ stack) = go_on (b ∷ stack)

abbrev match_top : (ℕ → Bool) → Brackets → Turn
match_top fits [] = fail
match_top fits (b ∷ stack) = if fits b then close_if_nil stack else fail

abbrev previous_is : ℕ → Text → Bool
previous_is c [] = false
previous_is c (x ∷ _) = x == c

-- The body of the loop of `FindEndOfExpressionInLine`, at a character with what is behind it,
-- nearest first.
unfoldable pub end_turn : Text → ℕ → Brackets → Turn
unfolding drop_top
end_turn behind c stack =
    if is_open c
    then go_on (c ∷ stack)
    else if c == b'<'
    then (if previous_is b'<' behind
        then (if top_is b'<' stack then fail_if_nil (pop stack) else go_on stack)
        else if not (is_nil behind) && after_operator behind
        then go_on stack
        else go_on (b'<' ∷ stack))
    else if is_close c
    then match_top (λ o. pairs o c) (drop_top b'<' stack)
    else if c == b'>'
    then (if not (is_nil behind) && (previous_is b'-' behind || after_operator (pop behind))
        then go_on stack
        else if top_is b'<' stack
        then close_if_nil (pop stack)
        else go_on stack)
    else if c == b';'
    then fail_if_nil (drop_top b'<' stack)
    else go_on stack

pub data Found : Type 0 where
  at_position : ℕ → Found
  unclosed : Found
  open_stack : Brackets → Found

-- The loop, from position `i` on.
unfoldable pub scan_end : Text → ℕ → Text → Brackets → Found
scan_end behind i [] stack = open_stack stack
scan_end behind i (c ∷ rest) stack = elim (end_turn behind c stack) [
  | go_on stack' ↦ scan_end (c ∷ behind) (suc i) rest stack'
  | close ↦ at_position (i + 1)
  | fail ↦ unclosed
]

unfoldable pub find_end_of_expression_in_line : Text → ℕ → Brackets → Found
find_end_of_expression_in_line line startpos stack =
    scan_end (reverse (take startpos line)) startpos (drop startpos line) stack

-- The result: the line, its number, and the position, `none` for -1.
pub record Place : Type 0 where
  pub line : Text
  pub linenum : ℕ
  pub position : Option ℕ

-- The loop over the lines behind the first; `total` is NumLines().
unfoldable pub scan_lines : ℕ → Text → ℕ → List Text → Found → Place
scan_lines total line n lines (at_position p) = record {
  line = line;
  linenum = n;
  position = some p;
}
scan_lines total line n lines unclosed = record { line = line; linenum = total; position = none }
scan_lines total line n lines (open_stack []) = record {
  line = line;
  linenum = total;
  position = none;
}
scan_lines total line n [] (open_stack (b ∷ stack)) = record {
  line = line;
  linenum = total;
  position = none;
}
scan_lines total line n (next ∷ lines) (open_stack (b ∷ stack)) =
    scan_lines total next (suc n) lines (find_end_of_expression_in_line next 0 (b ∷ stack))

abbrev pub opens_expression : Text → Bool
opens_expression [] = false
opens_expression (c ∷ rest) =
    (is_open c || c == b'<')
    && not (c == b'<' && (starts_with (codes "<") rest || starts_with (codes "=") rest))

unfoldable pub close_expression : List Text → ℕ → ℕ → Place
unfolding scan_lines
close_expression elided linenum p =
    let line = line_at elided linenum in
    if not (opens_expression (drop p line))
    then record { line = line; linenum = length elided; position = none }
    else scan_lines (length elided) line linenum (drop (suc linenum) elided)
        (find_end_of_expression_in_line line p [])
