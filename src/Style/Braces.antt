-- ===== src/Style/Braces.antt =====
-- build_support/cpplint.py: `CheckBraces`.
use turtle.Common.{
  ℕ, suc, ◌+◌, ◌-◌, Bool, true, false, not, ◌&&◌, ◌||◌, List, [], ◌∷◌, ◌++◌, Option, none, some,
  ◌==◌, ltb, if◌then◌else◌, length, drop,
}
use turtle.Common.Text.{Text, codes, find, is_space, contains}
use turtle.Common.Slices.{line_at}
use turtle.Regex.{
  Regex, char, many, group, word_edge, at_start, at_end, Cursor, word, one_of, none_of, space,
  optional, choice, seq, matches, find_match, found,
}
use turtle.Report.{Report, report, report_if}
use turtle.Listed.{on_match, Listed, listed}
use turtle.Cleanse.{CleansedLines}
use turtle.Checks.Lines.{get_previous_non_blank_line}
use turtle.Nesting.{get_indent_level}
use turtle.Expression.{Place, close_expression}
use turtle.Style.Width.{Unicode, get_line_width}

-- `s[p:]`, where a position that was not found is -1.
abbrev last_of : Text → Text
last_of [] = []
last_of (c ∷ []) = c ∷ []
last_of (c ∷ d ∷ s) = last_of (d ∷ s)

abbrev pub from_position : Option ℕ → Text → Text
from_position none s = last_of s
from_position (some p) s = drop p s

abbrev pub previous : CleansedLines → ℕ → Text
previous clean n = (get_previous_non_blank_line clean.elided n).0

-- `\s*{\s*$`
unfoldable open_line_pattern : Regex
unfolding seq word space
open_line_pattern = seq (many space ∷ word "{" ∷ many space ∷ at_end ∷ [])

-- `[,;:}{(]\s*$`
unfoldable before_brace_pattern : Regex
unfolding seq one_of space
before_brace_pattern = seq (one_of ",;:}{(" ∷ many space ∷ at_end ∷ [])

-- `\s*#`
unfoldable directive_pattern : Regex
unfolding seq word space
directive_pattern = seq (many space ∷ word "#" ∷ [])

unfoldable open_brace_reports : Unicode → ℕ → Text → CleansedLines → ℕ → Text → List Report
open_brace_reports u line_length f clean n line =
    let prevline = previous clean n in
    report_if
      (matches open_line_pattern line
        && not (found before_brace_pattern prevline)
        && not (matches directive_pattern prevline)
        && not (ltb line_length (get_line_width u prevline + 2) && contains (codes "[]") prevline))
      f n (codes "whitespace/braces") 4
      (codes "{ should almost always be at the end of the previous line")

-- `\s*else\b\s*(?:if\b|\{|$)`
unfoldable else_line_pattern : Regex
unfolding seq choice word space
else_line_pattern = seq (
    many space
    ∷ word "else"
    ∷ word_edge
    ∷ many space
    ∷ choice (seq (word "if" ∷ word_edge ∷ []) ∷ word "{" ∷ at_end ∷ [])
    ∷ [])

-- `\s*}\s*$`
unfoldable closing_line_pattern : Regex
unfolding seq word space
closing_line_pattern = seq (many space ∷ word "}" ∷ many space ∷ at_end ∷ [])

unfoldable else_line_reports : Text → CleansedLines → ℕ → Text → List Report
else_line_reports f clean n line =
    report_if (matches else_line_pattern line && matches closing_line_pattern (previous clean n)) f
      n (codes "whitespace/newline") 4
      (codes "An else should appear on the same line as the preceding }")

-- `else if\s*\(`
unfoldable else_if_pattern : Regex
unfolding seq word space
else_if_pattern = seq (word "else if" ∷ many space ∷ word "(" ∷ [])

-- `}\s*else if\s*\(`
unfoldable brace_else_if_pattern : Regex
unfolding seq word space
brace_else_if_pattern = seq (word "}" ∷ many space ∷ word "else if" ∷ many space ∷ word "(" ∷ [])

-- `}\s*else[^{]*$`
unfoldable brace_else_pattern : Regex
unfolding seq word none_of space
brace_else_pattern = seq (word "}" ∷ many space ∷ word "else" ∷ many (none_of "{") ∷ at_end ∷ [])

-- `[^}]*else\s*{`
unfoldable else_brace_pattern : Regex
unfolding seq word none_of space
else_brace_pattern = seq (many (none_of "}") ∷ word "else" ∷ many space ∷ word "{" ∷ [])

abbrev differ : Bool → Bool → Bool
differ true b = not b
differ false b = b

abbrev or_zero : Option ℕ → ℕ
or_zero none = 0
or_zero (some i) = i

-- `line.find('(', line.find('else if'))`, where `else if` is there.
unfoldable else_if_paren : Text → Option ℕ
else_if_paren line =
    let start = or_zero (find (codes "else if") line) in
    elim (find (codes "(") (drop start line)) [ none ↦ none | some i ↦ some (start + i) ]

abbrev one_side : Text → ℕ → List Report
one_side f n =
    report f n (codes "readability/braces") 5
      (codes "If an else has a brace on one side, it should have it on both")
    ∷ []

unfoldable else_sides_reports : Text → CleansedLines → ℕ → Text → List Report
else_sides_reports f clean n line =
    if found else_if_pattern line
    then on_match (else_if_paren line) (λ p.
      let place = close_expression clean.elided n p in
      if differ (found brace_else_if_pattern line)
        (contains (codes "{") (from_position place.position place.line))
      then one_side f n
      else [])
    else if found brace_else_pattern line || matches else_brace_pattern line
    then one_side f n
    else []

-- `\belse [^\s{]`
unfoldable else_clause_pattern : Regex
unfolding seq word is_space
else_clause_pattern =
    seq (word_edge ∷ word "else " ∷ char (λ c. not (is_space c || c == b'{')) ∷ [])

-- `\belse if\b`
unfoldable else_if_word_pattern : Regex
unfolding seq word
else_if_word_pattern = seq (word_edge ∷ word "else if" ∷ word_edge ∷ [])

-- `\s*do [^\s{]`
unfoldable do_clause_pattern : Regex
unfolding seq word space is_space
do_clause_pattern = seq (many space ∷ word "do " ∷ char (λ c. not (is_space c || c == b'{')) ∷ [])

unfoldable one_line_reports : Text → ℕ → Text → List Report
one_line_reports f n line =
    report_if (found else_clause_pattern line && not (found else_if_word_pattern line)) f n
      (codes "whitespace/newline") 4
      (codes "Else clause should never be on same line as else (use 2 lines)")
    ++ report_if (matches do_clause_pattern line) f n (codes "whitespace/newline") 4
        (codes "do/while clauses should not be on a single line")

-- `\b(if\s*\(|else\b)`
unfoldable if_else_pattern : Regex
unfolding seq choice word space
if_else_pattern = seq (
    word_edge
    ∷ group 1 (
        choice
          (seq (word "if" ∷ many space ∷ word "(" ∷ []) ∷ seq (word "else" ∷ word_edge ∷ []) ∷ []))
    ∷ [])

-- `\bif\s*\(`
unfoldable if_pattern : Regex
unfolding seq word space
if_pattern = seq (word_edge ∷ word "if" ∷ many space ∷ word "(" ∷ [])

-- `\s*{`
unfoldable brace_pattern : Regex
unfolding seq word space
brace_pattern = seq (many space ∷ word "{" ∷ [])

-- `\s*$`
unfoldable blank_pattern : Regex
unfolding seq space
blank_pattern = seq (many space ∷ at_end ∷ [])

-- `;[\s}]*(\\?)$`
unfoldable only_statement_pattern : Regex
unfolding seq word is_space
only_statement_pattern = seq (
    word ";"
    ∷ many (char (λ c. is_space c || c == b'}'))
    ∷ group 1 (optional (word "\\"))
    ∷ at_end
    ∷ [])

-- `^[^{};]*\[[^\[\]]*\][^{}]*\{[^{}]*\}\s*\)*[;,]\s*$`
unfoldable lambda_pattern : Regex
unfolding seq word one_of none_of space
lambda_pattern = seq (
    at_start
    ∷ many (none_of "{};")
    ∷ word "["
    ∷ many (none_of "[]")
    ∷ word "]"
    ∷ many (none_of "{}")
    ∷ word "{"
    ∷ many (none_of "{}")
    ∷ word "}"
    ∷ many space
    ∷ many (word ")")
    ∷ one_of ";,"
    ∷ many space
    ∷ at_end
    ∷ [])

-- `\s*else\b`
unfoldable else_word_pattern : Regex
unfolding seq word space
else_word_pattern = seq (many space ∷ word "else" ∷ word_edge ∷ [])

-- The end of the condition, or of `else`.
unfoldable condition_end : CleansedLines → ℕ → Text → Cursor → Place
condition_end clean n line m = elim (find_match if_pattern line) [
  | some i ↦ close_expression clean.elided n (length line - length i.rest - 1)
  | none ↦ record { line = line; linenum = n; position = some (length line - length m.rest) }
]

-- The first line with a semicolon, of those from `i` on, from the position on in the first of them.
unfoldable semicolon_line : Option ℕ → ℕ → List Text → Option (Text × ℕ)
semicolon_line p i [] = none
semicolon_line p i (line ∷ lines) =
    let later = semicolon_line (some 0) (suc i) lines in
    if contains (codes ";") (from_position p line) then some (line, i) else later

abbrev multiple_statements : Text → ℕ → List Report
multiple_statements f n =
    report f n (codes "readability/braces") 4
      (codes "If/else bodies with multiple statements require braces")
    ∷ []

-- The line behind that with the semicolon.
unfoldable next_line_reports : Text → CleansedLines → ℕ → Text → ℕ → List Report
next_line_reports f clean n line i =
    let next_line = line_at clean.elided (i + 1) in
    let next_indent = get_indent_level next_line in
    let if_indent = get_indent_level line in
    if found if_pattern line
      && matches else_word_pattern next_line
      && not (next_indent == if_indent)
    then report f n (codes "readability/braces") 4 (
        codes
          "Else clause should be indented at the same level as if. Ambiguous nested if/else chains require braces.")
      ∷ []
    else if ltb if_indent next_indent
    then multiple_statements f n
    else []

unfoldable statement_reports : Text → CleansedLines → ℕ → Text → Text × ℕ → List Report
statement_reports f clean n line (endline, i) =
    let behind = from_position (find (codes ";") endline) endline in
    if not (matches only_statement_pattern behind)
    then if matches lambda_pattern endline then [] else multiple_statements f n
    else if ltb i (length clean.elided - 1)
    then next_line_reports f clean n line i
    else []

abbrev braced : CleansedLines → Place → Bool
braced clean place =
    let behind = from_position place.position place.line in
    matches brace_pattern behind
    || (matches blank_pattern behind
        && ltb place.linenum (length clean.elided - 1)
        && matches brace_pattern (line_at clean.elided (place.linenum + 1)))

unfoldable body_reports : Text → CleansedLines → ℕ → Text → Place → List Report
body_reports f clean n line place =
    if braced clean place
    then []
    else on_match (semicolon_line place.position place.linenum (drop place.linenum clean.elided))
        (λ e. statement_reports f clean n line e)

unfoldable if_else_reports : Text → CleansedLines → ℕ → Text → List Report
if_else_reports f clean n line =
    if matches directive_pattern line
    then []
    else on_match (find_match if_else_pattern line)
        (λ m. body_reports f clean n line (condition_end clean n line m))

pub check_braces : Unicode → ℕ → Text → CleansedLines → ℕ → List Report
check_braces u line_length f clean n =
    let line = line_at clean.elided n in
    open_brace_reports u line_length f clean n line
    ++ (else_line_reports f clean n line
        ++ (else_sides_reports f clean n line
            ++ (one_line_reports f n line ++ if_else_reports f clean n line)))

open_brace_reports-Listed :
    (u : Unicode) (line_length : ℕ) (f : Text) (clean : CleansedLines) (n : ℕ) (line : Text)
    → Listed f n (open_brace_reports u line_length f clean n line)
unfolding open_brace_reports
open_brace_reports-Listed u line_length f clean n line = search (listed)

else_line_reports-Listed :
    (f : Text) (clean : CleansedLines) (n : ℕ) (line : Text)
    → Listed f n (else_line_reports f clean n line)
unfolding else_line_reports
else_line_reports-Listed f clean n line = search (listed)

else_sides_reports-Listed :
    (f : Text) (clean : CleansedLines) (n : ℕ) (line : Text)
    → Listed f n (else_sides_reports f clean n line)
unfolding else_sides_reports
else_sides_reports-Listed f clean n line = search (listed)

one_line_reports-Listed : (f : Text) (n : ℕ) (line : Text) → Listed f n (one_line_reports f n line)
unfolding one_line_reports
one_line_reports-Listed f n line = search (listed)

next_line_reports-Listed :
    (f : Text) (clean : CleansedLines) (n : ℕ) (line : Text) (i : ℕ)
    → Listed f n (next_line_reports f clean n line i)
unfolding next_line_reports
next_line_reports-Listed f clean n line i = search (listed)

statement_reports-Listed :
    (f : Text) (clean : CleansedLines) (n : ℕ) (line : Text) (e : Text × ℕ)
    → Listed f n (statement_reports f clean n line e)
unfolding statement_reports
statement_reports-Listed f clean n line (endline, i) = search (listed, next_line_reports-Listed)

body_reports-Listed :
    (f : Text) (clean : CleansedLines) (n : ℕ) (line : Text) (place : Place)
    → Listed f n (body_reports f clean n line place)
unfolding body_reports
body_reports-Listed f clean n line place = search (listed, statement_reports-Listed)

if_else_reports-Listed :
    (f : Text) (clean : CleansedLines) (n : ℕ) (line : Text)
    → Listed f n (if_else_reports f clean n line)
unfolding if_else_reports
if_else_reports-Listed f clean n line = search (listed, body_reports-Listed)

pub check_braces-Listed :
    (u : Unicode) (line_length : ℕ) (f : Text) (clean : CleansedLines) (n : ℕ)
    → Listed f n (check_braces u line_length f clean n)
unfolding check_braces
check_braces-Listed u line_length f clean n =
    search
      (
        listed, open_brace_reports-Listed, else_line_reports-Listed, else_sides_reports-Listed,
        one_line_reports-Listed, if_else_reports-Listed,
      )
      depth 10
