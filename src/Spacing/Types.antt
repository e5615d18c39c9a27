-- ===== src/Spacing/Types.antt =====
-- build_support/cpplint.py: `_IsType`, `CheckBracesSpacing` and `IsDecltype`.
use turtle.Common.{
  ℕ, zero, suc, ◌+◌, ◌-◌, Bool, false, not, ◌&&◌, ◌||◌, List, [], ◌∷◌, ◌++◌, Option, none, some,
  ◌==◌, leb, if◌then◌else◌, length, take, drop,
}
use turtle.Common.Text.{Text, codes, is_space, contains}
use turtle.Common.Slices.{line_at}
use turtle.Regex.{
  Regex, empty, char, many, group, word_edge, at_start, at_end, Cursor, lit, word, one_of, none_of,
  dot, space, non_space, optional, some_of, choice, seq, match, matches, found, captured_text,
}
use turtle.Report.{Report, report, report_if}
use turtle.Listed.{on_match, Listed, listed}
use turtle.Cleanse.{CleansedLines}
use turtle.Nesting.{Stack, NestingState, is_namespace}
use turtle.Expression.{Place, close_expression}
use turtle.Expression.Reverse.{reverse_close_expression}

-- `_TYPES`
-- `^(?:(char(16_t|32_t)?)|wchar_t|bool|short|int|long|signed|unsigned|float|double|(ptrdiff_t|size_t|max_align_t|nullptr_t)|(u?int(_fast|_least)?(8|16|32|64)_t)|(u?int(max|ptr)_t)|)$`
unfoldable types_pattern : Regex
unfolding seq choice word
types_pattern = seq (
    at_start
    ∷ choice (
        group 1
          (seq (word "char" ∷ optional (group 2 (choice (word "16_t" ∷ word "32_t" ∷ []))) ∷ []))
        ∷ word "wchar_t"
        ∷ word "bool"
        ∷ word "short"
        ∷ word "int"
        ∷ word "long"
        ∷ word "signed"
        ∷ word "unsigned"
        ∷ word "float"
        ∷ word "double"
        ∷ group 3
            (choice (word "ptrdiff_t" ∷ word "size_t" ∷ word "max_align_t" ∷ word "nullptr_t" ∷ []))
        ∷ group 4 (
            seq (
              optional (word "u")
              ∷ word "int"
              ∷ optional (group 5 (seq (word "_" ∷ choice (word "fast" ∷ word "least" ∷ []) ∷ [])))
              ∷ group 6 (choice (word "8" ∷ word "16" ∷ word "32" ∷ word "64" ∷ []))
              ∷ word "_t"
              ∷ []))
        ∷ group 7 (
            seq (
              optional (word "u")
              ∷ word "int"
              ∷ group 8 (choice (word "max" ∷ word "ptr" ∷ []))
              ∷ word "_t"
              ∷ []))
        ∷ empty
        ∷ [])
    ∷ at_end
    ∷ [])

-- `^.*(\b\S+)$`
unfoldable last_word_pattern : Regex
unfolding seq some_of dot non_space
last_word_pattern =
    seq (at_start ∷ many dot ∷ group 1 (seq (word_edge ∷ some_of non_space ∷ [])) ∷ at_end ∷ [])

-- `r'\b(?:typename|class|struct)\s+' + re.escape(token) + r'\b'`
unfoldable typename_pattern : Text → Regex
unfolding seq choice some_of word space
typename_pattern token = seq (
    word_edge
    ∷ choice (word "typename" ∷ word "class" ∷ word "struct" ∷ [])
    ∷ some_of space
    ∷ lit token
    ∷ word_edge
    ∷ [])

-- The nearest of the lines `start` to `start + rounds - 1`, from the last on, with `template`.
unfoldable template_line : List Text → ℕ → ℕ → Option ℕ
template_line elided start zero = none
template_line elided start (suc rounds) =
    let earlier = template_line elided start rounds in
    if contains (codes "template") (line_at elided (start + rounds))
    then some (start + rounds)
    else earlier

-- Is the type declared in one of `rounds` lines from `i` on.
unfoldable declares_type : List Text → Text → ℕ → ℕ → Bool
declares_type elided token i zero = false
declares_type elided token i (suc rounds) =
    found (typename_pattern token) (line_at elided i) || declares_type elided token (suc i) rounds

abbrev next_block_start : Stack → ℕ
next_block_start [] = 0
next_block_start (b ∷ _) = b.starting_linenum

unfoldable block_declares : List Text → Text → ℕ → ℕ → Bool
block_declares elided token start last = elim (template_line elided start (suc last - start)) [
  | none ↦ false
  | some first ↦ declares_type elided token first (suc last - first)
]

-- The walk up the nesting stack.
unfoldable stack_declares : List Text → Text → Stack → Bool
stack_declares elided token [] = false
stack_declares elided token (b ∷ stack) =
    if is_namespace b.kind
    then false
    else block_declares elided token (next_block_start stack) b.starting_linenum
      || stack_declares elided token stack

abbrev last_token : Text → Text
last_token expr = elim (match last_word_pattern expr) [ some m ↦ captured_text 1 m | none ↦ expr ]

unfoldable is_type : CleansedLines → NestingState → Text → Bool
is_type clean s expr =
    matches types_pattern (last_token expr) || stack_declares clean.elided (last_token expr) s.stack

-- `^(.*[^ ({>]){`
unfoldable brace_pattern : Regex
unfolding seq word none_of dot
brace_pattern = seq (at_start ∷ group 1 (seq (many dot ∷ none_of " ({>" ∷ [])) ∷ word "{" ∷ [])

-- `^[\s}]*[{.;,)<>\]:]`
unfoldable brace_exception_pattern : Regex
unfolding seq one_of is_space
brace_exception_pattern =
    seq (at_start ∷ many (char (λ c. is_space c || c == b'}')) ∷ one_of "{.;,)<>]:" ∷ [])

-- `}else`
unfoldable brace_else_pattern : Regex
unfolding word
brace_else_pattern = word "}else"

-- `:\s*;\s*$`
unfoldable colon_semicolon_pattern : Regex
unfolding seq word space
colon_semicolon_pattern = seq (word ":" ∷ many space ∷ word ";" ∷ many space ∷ at_end ∷ [])

-- `^\s*;\s*$`
unfoldable only_semicolon_pattern : Regex
unfolding seq word space
only_semicolon_pattern = seq (at_start ∷ many space ∷ word ";" ∷ many space ∷ at_end ∷ [])

-- `\s+;\s*$`
unfoldable space_semicolon_pattern : Regex
unfolding seq some_of word space
space_semicolon_pattern = seq (some_of space ∷ word ";" ∷ many space ∷ at_end ∷ [])

-- `\bfor\b`
unfoldable for_pattern : Regex
unfolding seq word
for_pattern = seq (word_edge ∷ word "for" ∷ word_edge ∷ [])

-- The text of `rounds` lines from `i` on.
unfoldable join_lines : List Text → ℕ → ℕ → Text
join_lines elided i zero = []
join_lines elided i (suc rounds) = line_at elided i ++ join_lines elided (suc i) rounds

abbrev behind_place : Place → Text
behind_place place = elim place.position [ none ↦ [] | some p ↦ drop p place.line ]

abbrev smaller : ℕ → ℕ → ℕ
smaller a b = if leb a b then a else b

-- The rest of the line behind the closing brace, and two lines more.
unfoldable trailing_text : CleansedLines → Place → Text
trailing_text clean place =
    behind_place place
    ++ join_lines clean.elided (place.linenum + 1)
        (smaller (place.linenum + 3) (clean.num_lines - 1) - (place.linenum + 1))

unfoldable missing_space : Text → CleansedLines → ℕ → NestingState → Cursor → List Report
missing_space f clean n s m =
    let leading_text = captured_text 1 m in
    let place = close_expression clean.elided n (length leading_text) in
    report_if
      (not (matches brace_exception_pattern (trailing_text clean place))
        && not (is_type clean s leading_text))
      f n (codes "whitespace/braces") 5 (codes "Missing space before {")

unfoldable semicolon_reports : Text → ℕ → Text → List Report
semicolon_reports f n line =
    if found colon_semicolon_pattern line
    then report f n (codes "whitespace/semicolon") 5
        (codes "Semicolon defining empty statement. Use {} instead.")
      ∷ []
    else if found only_semicolon_pattern line
    then report f n (codes "whitespace/semicolon") 5 (
        codes "Line contains only semicolon. If this should be an empty statement, use {} instead.")
      ∷ []
    else report_if (found space_semicolon_pattern line && not (found for_pattern line)) f n
        (codes "whitespace/semicolon") 5
        (codes
          "Extra space before last semicolon. If this should be an empty statement, use {} instead.")

pub check_braces_spacing : Text → CleansedLines → ℕ → NestingState → List Report
check_braces_spacing f clean n s =
    let line = line_at clean.elided n in
    on_match (match brace_pattern line) (λ m. missing_space f clean n s m)
    ++ (report_if (found brace_else_pattern line) f n (codes "whitespace/braces") 5
          (codes "Missing space before else")
        ++ semicolon_reports f n line)

-- `\bdecltype\s*$`
unfoldable decltype_pattern : Regex
unfolding seq word space
decltype_pattern = seq (word_edge ∷ word "decltype" ∷ many space ∷ at_end ∷ [])

unfoldable is_decltype : CleansedLines → ℕ → ℕ → Bool
is_decltype clean n column =
    let place = reverse_close_expression clean.elided n column in
    elim place.position [ none ↦ false | some p ↦ found decltype_pattern (take p place.line) ]

missing_space-Listed :
    (f : Text) (clean : CleansedLines) (n : ℕ) (s : NestingState) (m : Cursor)
    → Listed f n (missing_space f clean n s m)
unfolding missing_space
missing_space-Listed f clean n s m = search (listed)

semicolon_reports-Listed :
    (f : Text) (n : ℕ) (line : Text) → Listed f n (semicolon_reports f n line)
unfolding semicolon_reports
semicolon_reports-Listed f n line = search (listed)

pub check_braces_spacing-Listed :
    (f : Text) (clean : CleansedLines) (n : ℕ) (s : NestingState)
    → Listed f n (check_braces_spacing f clean n s)
unfolding check_braces_spacing
check_braces_spacing-Listed f clean n s =
    search (listed, missing_space-Listed, semicolon_reports-Listed)
