-- ===== src/Style/Bodies.antt =====
-- build_support/cpplint.py: `CheckEmptyBlockBody`.
use turtle.Common.{
  ℕ, suc, ◌+◌, ◌-◌, ◌≤◌, ◌≡◌, Bool, not, ◌&&◌, ◌||◌, List, [], ◌∷◌, ◌++◌, Option, none, some, ◌==◌,
  ltb, if◌then◌else◌, take, drop,
}
use turtle.Common.Text.{Text, codes, eq_text, find}
use turtle.Common.Slices.{line_at}
use turtle.Regex.{
  Regex, many, group, at_start, at_end, ahead, not_ahead, Cursor, word, space, choice, seq, match,
  matches, found, captured_text,
}
use turtle.Report.{Report, report, report_if}
use turtle.Listed.{on_match, Listed, listed, Listed-append, Listed-later, Listed-found}
use turtle.Cleanse.{CleansedLines}
use turtle.Cleanse.{cleanse_comments}
use turtle.Expression.{Place, close_expression}
use turtle.Expression.Bounds.{close_expression_linenum}

-- `\s*(for|while|if)\s*\(`
unfoldable statement_pattern : Regex
unfolding seq choice word space
statement_pattern = seq (
    many space
    ∷ group 1 (choice (word "for" ∷ word "while" ∷ word "if" ∷ []))
    ∷ many space
    ∷ word "("
    ∷ [])

-- `;`
unfoldable semicolon_pattern : Regex
unfolding word
semicolon_pattern = word ";"

-- `^\s*\{`
unfoldable brace_pattern : Regex
unfolding seq word space
brace_pattern = seq (at_start ∷ many space ∷ word "{" ∷ [])

-- `^(?!\s*$)`
unfoldable text_pattern : Regex
unfolding seq space
text_pattern = seq (at_start ∷ not_ahead (seq (many space ∷ at_end ∷ [])) ∷ [])

-- `^\s*$`
unfoldable blank_body_pattern : Regex
unfolding seq space
blank_body_pattern = seq (at_start ∷ many space ∷ at_end ∷ [])

-- `^(?=\s*else)`
unfoldable else_ahead_pattern : Regex
unfolding seq word space
else_ahead_pattern = seq (at_start ∷ ahead (seq (many space ∷ word "else" ∷ [])) ∷ [])

unfoldable empty_reports : Text → Cursor → Place → List Report
empty_reports f m place = on_match place.position (λ p.
    if matches semicolon_pattern (drop p place.line)
    then if eq_text (captured_text 1 m) (codes "if")
      then report f place.linenum (codes "whitespace/empty_conditional_body") 5
          (codes "Empty conditional bodies should use {}")
        ∷ []
      else report f place.linenum (codes "whitespace/empty_loop_body") 5
          (codes "Empty loop bodies should use {} or continue")
        ∷ []
    else [])

-- The text from which the opening brace is reached over blanks only, and its line; `none` where
-- something else comes first or the file ends.
unfoldable opening_fragment : Text → ℕ → List Text → Option (Text × ℕ)
opening_fragment fragment i [] = if found brace_pattern fragment then some (fragment, i) else none
opening_fragment fragment i (line ∷ lines) =
    let later = opening_fragment line (suc i) lines in
    if found brace_pattern fragment
    then some (fragment, i)
    else if found text_pattern fragment
    then none
    else later

abbrev or_zero : Option ℕ → ℕ
or_zero none = 0
or_zero (some i) = i

abbrev singles : Text → List Text
singles [] = []
singles (c ∷ s) = (c ∷ []) ∷ singles s

-- `'\n'.join(parts)`
unfoldable join_lines : List Text → Text
join_lines [] = []
join_lines (a ∷ []) = a
join_lines (a ∷ b ∷ parts) = a ++ (10 ∷ join_lines (b ∷ parts))

-- The text between the braces. The rest of the first line is a list of characters, which are
-- joined as lines are.
unfoldable body_text : CleansedLines → Text → ℕ → ℕ → ℕ → ℕ → Text
body_text clean opening_line opening_linenum opening_pos closing_linenum closing_pos =
    if ltb opening_linenum closing_linenum
    then join_lines (
        singles (drop (opening_pos + 1) opening_line)
        ++ (take (closing_linenum - (opening_linenum + 1))
              (drop (opening_linenum + 1) clean.raw_lines)
            ++ (take (closing_pos - 1) (line_at clean.elided closing_linenum) ∷ [])))
    else take (closing_pos - 1 - (opening_pos + 1)) (drop (opening_pos + 1) opening_line)

-- Nothing but blank lines stands between the text and an `else`.
unfoldable has_else : Text → List Text → Bool
has_else fragment [] = found else_ahead_pattern fragment
has_else fragment (line ∷ lines) =
    let later = has_else line lines in
    found else_ahead_pattern fragment || (found blank_body_pattern fragment && later)

abbrev is_empty_body : CleansedLines → ℕ → ℕ → Place → ℕ → Bool
is_empty_body clean opening_linenum opening_pos place closing_pos =
    let raw = line_at clean.raw_lines opening_linenum in
    eq_text raw (cleanse_comments raw)
    && found blank_body_pattern (
        body_text clean (line_at clean.elided opening_linenum) opening_linenum opening_pos
          place.linenum closing_pos)
    && not (has_else (drop closing_pos place.line) (drop (suc place.linenum) clean.elided))

-- The braces behind the condition, which ends at `end_pos` in line `end_linenum`.
unfoldable braces_reports : Text → CleansedLines → ℕ → ℕ → Text × ℕ → List Report
braces_reports f clean end_linenum end_pos (fragment, opening_linenum) =
    let brace = or_zero (find (codes "{") fragment) in
    let opening_pos = if opening_linenum == end_linenum then brace + end_pos else brace in
    let place = close_expression clean.elided opening_linenum opening_pos in
    on_match place.position (λ closing_pos.
      report_if (is_empty_body clean opening_linenum opening_pos place closing_pos) f end_linenum
        (codes "whitespace/empty_if_body") 4 (codes "If statement had no body and no else clause"))

unfoldable if_reports : Text → CleansedLines → Cursor → Place → List Report
if_reports f clean m place = on_match place.position (λ end_pos.
    if eq_text (captured_text 1 m) (codes "if")
    then on_match
        (opening_fragment (drop end_pos place.line) place.linenum
          (drop (suc place.linenum) clean.elided))
        (λ o. braces_reports f clean place.linenum end_pos o)
    else [])

abbrev statement_end : CleansedLines → ℕ → Place
statement_end clean n =
    close_expression clean.elided n (or_zero (find (codes "(") (line_at clean.elided n)))

pub check_empty_block_body : Text → CleansedLines → ℕ → List Report
check_empty_block_body f clean n =
    on_match (match statement_pattern (line_at clean.elided n)) (λ m.
      empty_reports f m (statement_end clean n) ++ if_reports f clean m (statement_end clean n))

-- The reports stand at the line in which the condition ends, which is not before it.
module _ (f : Text) (clean : CleansedLines) (n : ℕ) where
  abbrev IsEnd : Place → Type 0
  IsEnd place = (p : ℕ) → place.position ≡ some p → n ≤ place.linenum

  empty_reports-Listed :
      (m : Cursor) (place : Place) → IsEnd place → Listed f n (empty_reports f m place)
  unfolding empty_reports
  empty_reports-Listed m place e =
      Listed-found place.position _
        (λ p h. Listed-later {n = place.linenum} _ (e p h) (search listed))

  braces_reports-Listed : (i p : ℕ) (o : Text × ℕ) → Listed f i (braces_reports f clean i p o)
  unfolding braces_reports
  braces_reports-Listed i p (fragment, k) = search listed

  if_reports-Listed :
      (m : Cursor) (place : Place) → IsEnd place → Listed f n (if_reports f clean m place)
  unfolding if_reports
  if_reports-Listed m place e =
      Listed-found place.position _
        (λ p h. Listed-later {n = place.linenum} _ (e p h) (search (listed, braces_reports-Listed)))

  pub check_empty_block_body-Listed : Listed f n (check_empty_block_body f clean n)
  unfolding check_empty_block_body
  check_empty_block_body-Listed = Listed-found _ _ (λ m h.
      let e : IsEnd (statement_end clean n) =
        λ p g. close_expression_linenum clean.elided n _ p g in
      Listed-append _ (empty_reports-Listed m _ e) (if_reports-Listed m _ e))
