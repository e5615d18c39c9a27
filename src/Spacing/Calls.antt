-- ===== src/Spacing/Calls.antt =====
-- build_support/cpplint.py: `CheckSpacingForFunctionCall`, `CheckParenthesisSpacing` and
-- `CheckCommaSpacing`.
use turtle.Common.{
  ℕ, ◌+◌, not, ◌&&◌, ◌||◌, List, [], ◌∷◌, ◌++◌, none, some, ◌==◌, leb, if◌then◌else◌, length,
}
use turtle.Common.Text.{Text, codes, eq_text, is_space}
use turtle.Common.Slices.{line_at}
use turtle.Regex.{
  Regex, char, many, group, word_edge, at_start, at_end, not_ahead, Cursor, word, one_of, none_of,
  dot, space, word_char, optional, some_of, choice, seq, find_match, found, captured_text,
  replace_all,
}
use turtle.Report.{Report, report, report_if}
use turtle.Listed.{on_match, Listed, listed}
use turtle.Cleanse.{CleansedLines}

-- `\bif\s*\((.*)\)\s*{`
unfoldable if_call_pattern : Regex
unfolding seq word dot space
if_call_pattern = seq (
    word_edge
    ∷ word "if"
    ∷ many space
    ∷ word "("
    ∷ group 1 (many dot)
    ∷ word ")"
    ∷ many space
    ∷ word "{"
    ∷ [])

-- `\bfor\s*\((.*)\)\s*{`
unfoldable for_call_pattern : Regex
unfolding seq word dot space
for_call_pattern = seq (
    word_edge
    ∷ word "for"
    ∷ many space
    ∷ word "("
    ∷ group 1 (many dot)
    ∷ word ")"
    ∷ many space
    ∷ word "{"
    ∷ [])

-- `\bwhile\s*\((.*)\)\s*[{;]`
unfoldable while_call_pattern : Regex
unfolding seq word one_of dot space
while_call_pattern = seq (
    word_edge
    ∷ word "while"
    ∷ many space
    ∷ word "("
    ∷ group 1 (many dot)
    ∷ word ")"
    ∷ many space
    ∷ one_of "{;"
    ∷ [])

-- `\bswitch\s*\((.*)\)\s*{`
unfoldable switch_call_pattern : Regex
unfolding seq word dot space
switch_call_pattern = seq (
    word_edge
    ∷ word "switch"
    ∷ many space
    ∷ word "("
    ∷ group 1 (many dot)
    ∷ word ")"
    ∷ many space
    ∷ word "{"
    ∷ [])

-- What stands in the parentheses of the first control structure that is found, or the line.
unfoldable call_text : List Regex → Text → Text
call_text [] line = line
call_text (p ∷ ps) line = elim (find_match p line) [
  | some m ↦ captured_text 1 m
  | none ↦ call_text ps line
]

-- `\b(if|for|while|switch|return|new|delete|catch|sizeof)\b`
unfoldable control_word_pattern : Regex
unfolding seq choice word
control_word_pattern = seq (
    word_edge
    ∷ group 1 (
        choice (
          word "if"
          ∷ word "for"
          ∷ word "while"
          ∷ word "switch"
          ∷ word "return"
          ∷ word "new"
          ∷ word "delete"
          ∷ word "catch"
          ∷ word "sizeof"
          ∷ []))
    ∷ word_edge
    ∷ [])

-- ` \([^)]+\)\([^)]*(\)|,$)`
unfoldable function_pointer_pattern : Regex
unfolding seq choice some_of word none_of
function_pointer_pattern = seq (
    word " ("
    ∷ some_of (none_of ")")
    ∷ word ")("
    ∷ many (none_of ")")
    ∷ group 1 (choice (word ")" ∷ seq (word "," ∷ at_end ∷ []) ∷ []))
    ∷ [])

-- ` \([^)]+\)\[[^\]]+\]`
unfoldable array_pointer_pattern : Regex
unfolding seq some_of word none_of
array_pointer_pattern =
    seq (word " (" ∷ some_of (none_of ")") ∷ word ")[" ∷ some_of (none_of "]") ∷ word "]" ∷ [])

-- `\w\s*\(\s(?!\s*\\$)`
unfoldable space_after_call_pattern : Regex
unfolding seq word space word_char
space_after_call_pattern = seq (
    word_char
    ∷ many space
    ∷ word "("
    ∷ space
    ∷ not_ahead (seq (many space ∷ word "\\" ∷ at_end ∷ []))
    ∷ [])

-- `\(\s+(?!(\s*\\)|\()`
unfoldable space_after_pattern : Regex
unfolding seq choice some_of word space
space_after_pattern = seq (
    word "("
    ∷ some_of space
    ∷ not_ahead (choice (group 1 (seq (many space ∷ word "\\" ∷ [])) ∷ word "(" ∷ []))
    ∷ [])

-- `\w\s+\(`
unfoldable space_before_pattern : Regex
unfolding seq some_of word space word_char
space_before_pattern = seq (word_char ∷ some_of space ∷ word "(" ∷ [])

-- `_{0,2}asm_{0,2}\s+_{0,2}volatile_{0,2}\s+\(`
unfoldable asm_volatile_pattern : Regex
unfolding seq some_of word space
asm_volatile_pattern = seq (
    seq (optional (seq ((word "_") ∷ optional ((word "_")) ∷ [])) ∷ [])
    ∷ word "asm"
    ∷ seq (optional (seq ((word "_") ∷ optional ((word "_")) ∷ [])) ∷ [])
    ∷ some_of space
    ∷ seq (optional (seq ((word "_") ∷ optional ((word "_")) ∷ [])) ∷ [])
    ∷ word "volatile"
    ∷ seq (optional (seq ((word "_") ∷ optional ((word "_")) ∷ [])) ∷ [])
    ∷ some_of space
    ∷ word "("
    ∷ [])

-- `#\s*define|typedef|using\s+\w+\s*=`
unfoldable definition_pattern : Regex
unfolding seq choice some_of word space word_char
definition_pattern = choice (
    seq (word "#" ∷ many space ∷ word "define" ∷ [])
    ∷ word "typedef"
    ∷ seq (word "using" ∷ some_of space ∷ some_of word_char ∷ many space ∷ word "=" ∷ [])
    ∷ [])

-- `\w\s+\((\w+::)*\*\w+\)\(`
unfoldable member_pointer_pattern : Regex
unfolding seq some_of word space word_char
member_pointer_pattern = seq (
    word_char
    ∷ some_of space
    ∷ word "("
    ∷ many (group 1 (seq (some_of word_char ∷ word "::" ∷ [])))
    ∷ word "*"
    ∷ some_of word_char
    ∷ word ")("
    ∷ [])

-- `\bcase\s+\(`
unfoldable case_pattern : Regex
unfolding seq some_of word space
case_pattern = seq (word_edge ∷ word "case" ∷ some_of space ∷ word "(" ∷ [])

-- `\boperator_*\b`
unfoldable operator_name_pattern : Regex
unfolding seq word
operator_name_pattern = seq (word_edge ∷ word "operator" ∷ many (word "_") ∷ word_edge ∷ [])

-- `[^)]\s+\)\s*[^{\s]`
unfoldable space_closing_pattern : Regex
unfolding seq some_of word none_of space is_space
space_closing_pattern = seq (
    none_of ")"
    ∷ some_of space
    ∷ word ")"
    ∷ many space
    ∷ char (λ c. not (c == b'{' || is_space c))
    ∷ [])

-- `^\s+\)`
unfoldable only_closing_pattern : Regex
unfolding seq some_of word space
only_closing_pattern = seq (at_start ∷ some_of space ∷ word ")" ∷ [])

abbrev parens_report : Text → ℕ → ℕ → Text → List Report
parens_report f n confidence message =
    report f n (codes "whitespace/parens") confidence message ∷ []

unfoldable space_after : Text → ℕ → Text → List Report
space_after f n fncall =
    if found space_after_call_pattern fncall
    then parens_report f n 4 (codes "Extra space after ( in function call")
    else if found space_after_pattern fncall
    then parens_report f n 2 (codes "Extra space after (")
    else []

unfoldable space_before : Text → ℕ → Text → Text → List Report
space_before f n line fncall =
    if found space_before_pattern fncall
      && not (found asm_volatile_pattern fncall)
      && not (found definition_pattern fncall)
      && not (found member_pointer_pattern fncall)
      && not (found case_pattern fncall)
    then if found operator_name_pattern line
      then parens_report f n 0 (codes "Extra space before ( in function call")
      else parens_report f n 4 (codes "Extra space before ( in function call")
    else []

unfoldable space_closing : Text → ℕ → Text → List Report
space_closing f n fncall =
    if found space_closing_pattern fncall
    then parens_report f n 2 (
        if found only_closing_pattern fncall
        then codes "Closing ) should be moved to the previous line"
        else codes "Extra space before )")
    else []

pub check_spacing_for_function_call : Text → CleansedLines → ℕ → List Report
check_spacing_for_function_call f clean n =
    let line = line_at clean.elided n in
    let fncall =
      call_text (if_call_pattern ∷ for_call_pattern ∷ while_call_pattern ∷ switch_call_pattern ∷ [])
        line in
    if not (found control_word_pattern fncall)
      && not (found function_pointer_pattern fncall)
      && not (found array_pointer_pattern fncall)
    then space_after f n fncall ++ (space_before f n line fncall ++ space_closing f n fncall)
    else []

-- ` (if\(|for\(|while\(|switch\()`
unfoldable keyword_paren_pattern : Regex
unfolding seq choice word
keyword_paren_pattern = seq (
    word " "
    ∷ group 1 (choice (word "if(" ∷ word "for(" ∷ word "while(" ∷ word "switch(" ∷ []))
    ∷ [])

-- `\b(if|for|while|switch)\s*\(([ ]*)(.).*[^ ]+([ ]*)\)\s*{\s*$`
unfoldable condition_pattern : Regex
unfolding seq choice some_of word none_of dot space
condition_pattern = seq (
    word_edge
    ∷ group 1 (choice (word "if" ∷ word "for" ∷ word "while" ∷ word "switch" ∷ []))
    ∷ many space
    ∷ word "("
    ∷ group 2 (many (word " "))
    ∷ group 3 dot
    ∷ many dot
    ∷ some_of (none_of " ")
    ∷ group 4 (many (word " "))
    ∷ word ")"
    ∷ many space
    ∷ word "{"
    ∷ many space
    ∷ at_end
    ∷ [])

-- `\bfor\s*\(.*; \)`
unfoldable empty_step_pattern : Regex
unfolding seq word dot space
empty_step_pattern =
    seq (word_edge ∷ word "for" ∷ many space ∷ word "(" ∷ many dot ∷ word "; )" ∷ [])

-- The spaces inside the parentheses of a condition.
unfoldable condition_reports : Text → ℕ → Text → Cursor → List Report
condition_reports f n line m =
    let opening = length (captured_text 2 m) in
    let closing = length (captured_text 4 m) in
    report_if
      (not (opening == closing)
        && not (
            (eq_text (captured_text 3 m) (codes ";") && opening == 1 + closing)
            || (opening == 0 && found empty_step_pattern line)))
      f n (codes "whitespace/parens") 5
      (codes "Mismatching spaces inside () in " ++ captured_text 1 m)
    ++ report_if (not (leb opening 1)) f n (codes "whitespace/parens") 5
        (codes "Should have zero or one spaces inside ( and ) in " ++ captured_text 1 m)

pub check_parenthesis_spacing : Text → CleansedLines → ℕ → List Report
check_parenthesis_spacing f clean n =
    let line = line_at clean.elided n in
    on_match (find_match keyword_paren_pattern line)
      (λ m. parens_report f n 5 (codes "Missing space before ( in " ++ captured_text 1 m))
    ++ on_match (find_match condition_pattern line) (λ m. condition_reports f n line m)

-- `,[^,\s]`
unfoldable comma_pattern : Regex
unfolding seq word is_space
comma_pattern = seq (word "," ∷ char (λ c. not (c == b',' || is_space c)) ∷ [])

-- `\boperator\s*,\s*\(`
unfoldable operator_comma_pattern : Regex
unfolding seq word space
operator_comma_pattern =
    seq (word_edge ∷ word "operator" ∷ many space ∷ word "," ∷ many space ∷ word "(" ∷ [])

-- `;[^\s};\\)/]`
unfoldable semicolon_pattern : Regex
unfolding seq word is_space
semicolon_pattern = seq (
    word ";"
    ∷ char (λ c. not (is_space c || c == b'}' || c == b';' || c == b'\\' || c == b')' || c == b'/'))
    ∷ [])

pub check_comma_spacing : Text → CleansedLines → ℕ → List Report
check_comma_spacing f clean n =
    let line = line_at clean.elided n in
    report_if
      (found comma_pattern (replace_all operator_comma_pattern (codes "F(") line)
        && found comma_pattern (line_at clean.lines_without_raw_strings n))
      f n (codes "whitespace/comma") 3 (codes "Missing space after ,")
    ++ report_if (found semicolon_pattern line) f n (codes "whitespace/semicolon") 3
        (codes "Missing space after ;")

space_after-Listed : (f : Text) (n : ℕ) (fncall : Text) → Listed f n (space_after f n fncall)
unfolding space_after
space_after-Listed f n fncall = search (listed)

space_before-Listed :
    (f : Text) (n : ℕ) (line : Text) (fncall : Text) → Listed f n (space_before f n line fncall)
unfolding space_before
space_before-Listed f n line fncall = search (listed)

space_closing-Listed : (f : Text) (n : ℕ) (fncall : Text) → Listed f n (space_closing f n fncall)
unfolding space_closing
space_closing-Listed f n fncall = search (listed)

pub check_spacing_for_function_call-Listed :
    (f : Text) (clean : CleansedLines) (n : ℕ)
    → Listed f n (check_spacing_for_function_call f clean n)
unfolding check_spacing_for_function_call
check_spacing_for_function_call-Listed f clean n =
    search (listed, space_after-Listed, space_before-Listed, space_closing-Listed)

condition_reports-Listed :
    (f : Text) (n : ℕ) (line : Text) (m : Cursor) → Listed f n (condition_reports f n line m)
unfolding condition_reports
condition_reports-Listed f n line m = search (listed) depth 9

pub check_parenthesis_spacing-Listed :
    (f : Text) (clean : CleansedLines) (n : ℕ) → Listed f n (check_parenthesis_spacing f clean n)
unfolding check_parenthesis_spacing
check_parenthesis_spacing-Listed f clean n = search (listed, condition_reports-Listed)

pub check_comma_spacing-Listed :
    (f : Text) (clean : CleansedLines) (n : ℕ) → Listed f n (check_comma_spacing f clean n)
unfolding check_comma_spacing
check_comma_spacing-Listed f clean n = search (listed)
