-- ===== src/Language/Functions.antt =====
-- build_support/cpplint.py: `CheckRedundantVirtual`, `CheckRedundantOverrideOrFinal`,
-- `IsDerivedFunction`, `IsOutOfLineMethodDefinition` and `IsInitializerList`.
use turtle.Common.{
  ℕ, zero, suc, ◌+◌, ◌-◌, Bool, true, false, not, ◌&&◌, ◌||◌, List, [], ◌∷◌, ◌++◌, Option, none,
  some, ltb, leb, if◌then◌else◌, length, take, drop,
}
use turtle.Common.Text.{Text, codes, is_word, contains, behind_last}
use turtle.Common.Slices.{line_at}
use turtle.Regex.{
  Regex, char, many, group, word_edge, at_start, at_end, Cursor, word, one_of, none_of, dot, space,
  word_char, some_of, choice, seq, match, matches, find_match, found, captured_text,
}
use turtle.Report.{Report, report, report_if}
use turtle.Listed.{on_match, Listed, listed, none_left}
use turtle.Cleanse.{CleansedLines}
use turtle.Expression.{Place, close_expression}

-- `^(.*)(\bvirtual\b)(.*)$`
unfoldable virtual_pattern : Regex
unfolding seq word dot
virtual_pattern = seq (
    at_start
    ∷ group 1 (many dot)
    ∷ group 2 (seq (word_edge ∷ word "virtual" ∷ word_edge ∷ []))
    ∷ group 3 (many dot)
    ∷ at_end
    ∷ [])

-- `\b(public|protected|private)\s+$`
unfoldable access_before_pattern : Regex
unfolding seq choice some_of word space
access_before_pattern = seq (
    word_edge
    ∷ group 1 (seq (word "p" ∷ choice (word "ublic" ∷ word "rotected" ∷ word "rivate" ∷ []) ∷ []))
    ∷ some_of space
    ∷ at_end
    ∷ [])

-- `^\s+(public|protected|private)\b`
unfoldable access_behind_pattern : Regex
unfolding seq choice some_of word space
access_behind_pattern = seq (
    at_start
    ∷ some_of space
    ∷ group 1 (seq (word "p" ∷ choice (word "ublic" ∷ word "rotected" ∷ word "rivate" ∷ []) ∷ []))
    ∷ word_edge
    ∷ [])

-- `^.*[^:]:[^:].*$`
unfoldable colon_pattern : Regex
unfolding seq word none_of dot
colon_pattern =
    seq (at_start ∷ many dot ∷ none_of ":" ∷ word ":" ∷ none_of ":" ∷ many dot ∷ at_end ∷ [])

-- `^([^(]*)\(`
unfoldable parameter_list_pattern : Regex
unfolding seq word none_of
parameter_list_pattern = seq (at_start ∷ group 1 (many (none_of "(")) ∷ word "(" ∷ [])

-- `\b(override|final)\b`
unfoldable specifier_pattern : Regex
unfolding seq choice word
specifier_pattern =
    seq (word_edge ∷ group 1 (choice (word "override" ∷ word "final" ∷ [])) ∷ word_edge ∷ [])

-- `[^\w]\s*$`
unfoldable line_end_pattern : Regex
unfolding seq space is_word
line_end_pattern = seq (char (λ c. not (is_word c)) ∷ many space ∷ at_end ∷ [])

-- The end of the parameter list that starts in one of the lines from `i` on, behind `start_col` in
-- the first of them.
unfoldable parameter_list_end : List Text → ℕ → ℕ → List Text → Option Place
parameter_list_end elided i start_col [] = none
parameter_list_end elided i start_col (line ∷ lines) =
    let later = parameter_list_end elided (suc i) 0 lines in
    elim (match parameter_list_pattern (drop start_col line)) [
      | some m ↦ some (close_expression elided i (start_col + length (captured_text 1 m)))
      | none ↦ later
    ]

-- The lines behind the parameter list, to one that ends in no letter.
unfoldable redundant_reports : Text → ℕ → ℕ → List Text → List Report
redundant_reports f n end_col [] = []
redundant_reports f n end_col (line ∷ lines) =
    let later = redundant_reports f n 0 lines in
    on_match (find_match specifier_pattern (drop end_col line)) (λ m.
      report f n (codes "readability/inheritance") 4 (
        codes "\"virtual\" is redundant since function is already declared as \""
        ++ (captured_text 1 m ++ codes "\""))
      ∷ [])
    ++ (if found line_end_pattern (drop end_col line) then [] else later)

-- The lines `i` to `i + 2`.
abbrev three_lines : CleansedLines → ℕ → List Text
three_lines clean i = take 3 (drop i clean.elided)

unfoldable virtual_reports : Text → CleansedLines → ℕ → Text → Cursor → List Report
virtual_reports f clean n line m =
    if found access_before_pattern (captured_text 1 m)
      || matches access_behind_pattern (captured_text 3 m)
      || matches colon_pattern line
    then []
    else on_match
        (parameter_list_end clean.elided n (length (captured_text 2 m)) (three_lines clean n))
        (λ place.
          on_match place.position
            (λ end_col. redundant_reports f n end_col (three_lines clean place.linenum)))

pub check_redundant_virtual : Text → CleansedLines → ℕ → List Report
check_redundant_virtual f clean n =
    let line = line_at clean.elided n in
    on_match (match virtual_pattern line) (λ m. virtual_reports f clean n line m)

-- `\boverride\b`
unfoldable pub override_pattern : Regex
unfolding seq word
override_pattern = seq (word_edge ∷ word "override" ∷ word_edge ∷ [])

-- `\bfinal\b`
unfoldable final_pattern : Regex
unfolding seq word
final_pattern = seq (word_edge ∷ word "final" ∷ word_edge ∷ [])

unfoldable declarator_end : CleansedLines → ℕ → Option Text
declarator_end clean n =
    let line = line_at clean.elided n in
    elim (behind_last b')' line) [
      | some fragment ↦ some fragment
      | none ↦
          if ltb 1 n && contains (codes ")") (line_at clean.elided (n - 1)) then some line else none
    ]

pub check_redundant_override_or_final : Text → CleansedLines → ℕ → List Report
check_redundant_override_or_final f clean n = on_match (declarator_end clean n) (λ fragment.
    report_if (found override_pattern fragment && found final_pattern fragment) f n
      (codes "readability/inheritance") 4
      (codes "\"override\" is redundant since function is already declared as \"final\""))

-- `^([^()]*\w+)\(`
unfoldable pub function_head_pattern : Regex
unfolding seq some_of word none_of word_char
function_head_pattern =
    seq (at_start ∷ group 1 (seq (many (none_of "()") ∷ some_of word_char ∷ [])) ∷ word "(" ∷ [])

-- `^[^()]*\w+::\w+\(`
unfoldable pub method_head_pattern : Regex
unfolding seq some_of word none_of word_char
method_head_pattern = seq (
    at_start
    ∷ many (none_of "()")
    ∷ some_of word_char
    ∷ word "::"
    ∷ some_of word_char
    ∷ word "("
    ∷ [])

abbrev overrides : Place → Bool
overrides place = elim place.position [
  | none ↦ false
  | some p ↦ found override_pattern (drop p place.line)
]

-- The nearest of the ten lines up to `n` that begins a function is looked at.
unfoldable pub derived_above : List Text → ℕ → ℕ → Bool
derived_above elided n zero = false
derived_above elided n (suc rounds) =
    let earlier = derived_above elided (n - 1) rounds in
    elim (match function_head_pattern (line_at elided n)) [
      | some m ↦ overrides (close_expression elided n (length (captured_text 1 m)))
      | none ↦ earlier
    ]

-- The lines from `n` down to `n - 9` or 0 are as many.
abbrev ten_lines : ℕ → ℕ
ten_lines n = if ltb n 10 then n + 1 else 10

unfoldable pub is_derived_function : CleansedLines → ℕ → Bool
is_derived_function clean n = derived_above clean.elided n (ten_lines n)

unfoldable pub method_above : List Text → ℕ → ℕ → Bool
method_above elided n zero = false
method_above elided n (suc rounds) =
    let earlier = method_above elided (n - 1) rounds in
    if matches function_head_pattern (line_at elided n)
    then matches method_head_pattern (line_at elided n)
    else earlier

unfoldable pub is_out_of_line_method_definition : CleansedLines → ℕ → Bool
is_out_of_line_method_definition clean n = method_above clean.elided n (ten_lines n)

-- `^(.*)\{\s*$`
unfoldable pub body_pattern : Regex
unfolding seq word dot space
body_pattern = seq (at_start ∷ group 1 (many dot) ∷ word "{" ∷ many space ∷ at_end ∷ [])

-- `\s:\s*\w+[({]`
unfoldable pub initializer_pattern : Regex
unfolding seq some_of word one_of space word_char
initializer_pattern = seq (space ∷ word ":" ∷ many space ∷ some_of word_char ∷ one_of "({" ∷ [])

-- `\}\s*,\s*$`
unfoldable pub brace_comma_pattern : Regex
unfolding seq word space
brace_comma_pattern = seq (word "}" ∷ many space ∷ word "," ∷ many space ∷ at_end ∷ [])

-- `[{};]\s*$`
unfoldable pub block_end_pattern : Regex
unfolding seq one_of space
block_end_pattern = seq (one_of "{};" ∷ many space ∷ at_end ∷ [])

abbrev without_body : Text → Text
without_body line = elim (match body_pattern line) [ some m ↦ captured_text 1 m | none ↦ line ]

-- The lines from `line`, which is line `n`, down to line 2.
unfoldable pub initializer_above : List Text → Text → ℕ → Bool
initializer_above elided line zero = false
initializer_above elided line (suc n) =
    let earlier = initializer_above elided (line_at elided n) n in
    if leb (suc n) 1
    then false
    else if found initializer_pattern line
    then true
    else if found brace_comma_pattern line
    then true
    else if found block_end_pattern line
    then false
    else earlier

unfoldable pub is_initializer_list : CleansedLines → ℕ → Bool
is_initializer_list clean n =
    initializer_above clean.elided (without_body (line_at clean.elided n)) n

redundant_reports-Listed :
    (f : Text) (n end_col : ℕ) (lines : List Text)
    → Listed f n (redundant_reports f n end_col lines)
unfolding redundant_reports
redundant_reports-Listed f n end_col [] = none_left
redundant_reports-Listed f n end_col (line ∷ lines) =
    search (listed, redundant_reports-Listed f n 0 lines)

virtual_reports-Listed :
    (f : Text) (clean : CleansedLines) (n : ℕ) (line : Text) (m : Cursor)
    → Listed f n (virtual_reports f clean n line m)
unfolding virtual_reports
virtual_reports-Listed f clean n line m = search (listed, redundant_reports-Listed)

pub check_redundant_virtual-Listed :
    (f : Text) (clean : CleansedLines) (n : ℕ) → Listed f n (check_redundant_virtual f clean n)
unfolding check_redundant_virtual
check_redundant_virtual-Listed f clean n = search (listed, virtual_reports-Listed)

pub check_redundant_override_or_final-Listed :
    (f : Text) (clean : CleansedLines) (n : ℕ)
    → Listed f n (check_redundant_override_or_final f clean n)
unfolding check_redundant_override_or_final
check_redundant_override_or_final-Listed f clean n = search (listed)
