-- ===== src/Style/Lines.antt =====
-- build_support/cpplint.py: `CheckStyle`.
use turtle.Common.{
  ℕ, zero, suc, ◌≡◌, Bool, false, not, ◌&&◌, ◌||◌, List, [], ◌∷◌, ◌++◌, map, Option, none, some,
  ◌==◌, ltb, if◌then◌else◌, last?, some_injective,
}
use turtle.Common.Text.{Text, codes, eq_text, starts_with, count, is_space, is_digit, contains}
use turtle.Common.Slices.{line_at}
use turtle.Regex.{
  Regex, char, many, group, at_start, at_end, word, one_of, none_of, dot, space, non_space,
  word_char, optional, some_of, choice, seq, matches, found,
}
use turtle.Report.{Action, raise, Report, report_if, decimal}
use turtle.Listed.{on_match, Listed, listed, Raised, Raised-append, Raised-map}
use turtle.Cleanse.{CleansedLines}
use mathlib.Core.Path.{subst}
use turtle.Checks.Lines.{check_section_spacing, check_section_spacing-Listed}
use turtle.Nesting.{NestingState, innermost_class}
use turtle.Paths.{FileSystem, Settings}
use turtle.Paths.Extensions.{is_header_extension}
use turtle.Paths.Guard.{get_header_guard_cpp_variable}
use turtle.Style.Width.{Unicode, get_line_width}
use turtle.Style.Braces.{previous, check_braces, check_braces-Listed}
use turtle.Style.Semicolons.{check_trailing_semicolon, check_trailing_semicolon-Raised}
use turtle.Style.Bodies.{check_empty_block_body, check_empty_block_body-Listed}
use turtle.Style.Macros.{check_check, check_alt_tokens, check_check-Listed, check_alt_tokens-Listed}
use turtle.Spacing.Lines.{check_spacing, check_spacing-Listed}
use turtle.Spacing.Calls.{
  check_spacing_for_function_call, check_parenthesis_spacing, check_comma_spacing,
  check_spacing_for_function_call-Listed, check_parenthesis_spacing-Listed,
  check_comma_spacing-Listed,
}
use turtle.Spacing.Operators.{check_operator_spacing, check_operator_spacing-Listed}
use turtle.Spacing.Types.{check_braces_spacing, check_braces_spacing-Listed}

-- `\s*\w+\s*:\s*\\?$`
unfoldable scope_or_label_pattern : Regex
unfolding seq some_of word space word_char
scope_or_label_pattern = seq (
    many space
    ∷ some_of word_char
    ∷ many space
    ∷ word ":"
    ∷ many space
    ∷ optional (word "\\")
    ∷ at_end
    ∷ [])

-- `[",=><] *$`
unfoldable string_end_pattern : Regex
unfolding seq word one_of
string_end_pattern = seq (one_of "\",=><" ∷ many (word " ") ∷ at_end ∷ [])

-- `^\s*""`
unfoldable raw_string_pattern : Regex
unfolding seq word space
raw_string_pattern = seq (at_start ∷ many space ∷ word "\"\"" ∷ [])

-- `^\s*//.*http(s?)://\S*$`
unfoldable url_pattern : Regex
unfolding seq word dot space non_space
url_pattern = seq (
    at_start
    ∷ many space
    ∷ word "//"
    ∷ many dot
    ∷ word "http"
    ∷ group 1 (optional (word "s"))
    ∷ word "://"
    ∷ many non_space
    ∷ at_end
    ∷ [])

-- `^\s*//\s*[^\s]*$`
unfoldable long_word_pattern : Regex
unfolding seq word space is_space
long_word_pattern = seq (
    at_start
    ∷ many space
    ∷ word "//"
    ∷ many space
    ∷ many (char (λ c. not (is_space c)))
    ∷ at_end
    ∷ [])

-- `^// \$Id:.*#[0-9]+ \$$`
unfoldable id_pattern : Regex
unfolding seq some_of word dot is_digit
id_pattern = seq (
    at_start
    ∷ word "// $Id:"
    ∷ many dot
    ∷ word "#"
    ∷ some_of (char (λ c. is_digit c))
    ∷ word " $"
    ∷ at_end
    ∷ [])

-- `^\s*/// [@\\](copydoc|copydetails|copybrief) .*$`
unfoldable copydoc_pattern : Regex
unfolding seq choice word one_of dot space
copydoc_pattern = seq (
    at_start
    ∷ many space
    ∷ word "/// "
    ∷ one_of "@\\"
    ∷ group 1 (seq (word "copy" ∷ choice (word "doc" ∷ word "details" ∷ word "brief" ∷ []) ∷ []))
    ∷ word " "
    ∷ many dot
    ∷ at_end
    ∷ [])

-- `^[^{};]*\[[^\[\]]*\][^{}]*\{[^{}\n\r]*\}`
unfoldable lambda_pattern : Regex
unfolding seq word none_of
lambda_pattern = seq (
    at_start
    ∷ many (none_of "{};")
    ∷ word "["
    ∷ many (none_of "[]")
    ∷ word "]"
    ∷ many (none_of "{}")
    ∷ word "{"
    ∷ many (char (λ c. not (c == b'{' || c == b'}' || c == 10 || c == 13)))
    ∷ word "}"
    ∷ [])

unfoldable initial_spaces : Text → ℕ
initial_spaces [] = 0
initial_spaces (c ∷ s) = if c == b' ' then suc (initial_spaces s) else 0

-- `raw_lines[linenum - 1] if linenum > 0 else ''`
abbrev prev_line : CleansedLines → ℕ → Text
prev_line clean zero = []
prev_line clean (suc n) = line_at clean.lines_without_raw_strings n

unfoldable indent_reports : Text → CleansedLines → ℕ → Text → List Report
indent_reports f clean n line =
    let spaces = initial_spaces line in
    report_if
      (not (found string_end_pattern (prev_line clean n))
        && (spaces == 1 || spaces == 3)
        && not (matches scope_or_label_pattern (line_at clean.elided n))
        && not (not (eq_text (line_at clean.raw_lines n) line) && matches raw_string_pattern line))
      f n (codes "whitespace/indent") 3
      (codes "Weird number of spaces at line-start.  Are you using a 2-space indent?")

abbrev ends_in_space : Text → Bool
ends_in_space line = elim (last? line) [ none ↦ false | some c ↦ is_space c ]

unfoldable blank_reports : Text → CleansedLines → ℕ → Text → List Report
blank_reports f clean n line =
    report_if (contains (codes "\t") line) f n (codes "whitespace/tab") 1
      (codes "Tab found; better to use spaces")
    ++ (indent_reports f clean n line
        ++ report_if (ends_in_space line) f n (codes "whitespace/end_of_line") 4
            (codes "Line ends in whitespace.  Consider deleting these extra spaces."))

unfoldable pub is_header_guard : Text → Text → Bool
is_header_guard cppvar line =
    starts_with (codes "#ifndef " ++ cppvar) line
    || starts_with (codes "#define " ++ cppvar) line
    || starts_with (codes "#endif  // " ++ cppvar) line

-- Is the line the header guard's. In other files than headers there is none.
unfoldable pub guards_header : FileSystem → Settings → Text → Text → Text → Option Bool
guards_header fs s f extension line =
    if is_header_extension s extension
    then elim (get_header_guard_cpp_variable fs s f) [
      | none ↦ none
      | some cppvar ↦ some (is_header_guard cppvar line)
    ]
    else some false

unfoldable length_reports : Unicode → ℕ → Text → ℕ → Text → Bool → List Report
length_reports u line_length f n line is_guard =
    report_if
      (not (starts_with (codes "#include") line)
        && not is_guard
        && not (matches url_pattern line)
        && not (matches long_word_pattern line)
        && not (matches id_pattern line)
        && not (matches copydoc_pattern line)
        && ltb line_length (get_line_width u line))
      f n (codes "whitespace/line_length") 2
      (codes "Lines should be <= " ++ (decimal line_length ++ codes " characters long"))

unfoldable command_reports : Text → CleansedLines → ℕ → Text → List Report
command_reports f clean n line =
    let cleansed_line = line_at clean.elided n in
    report_if
      (ltb 1 (count (codes ";") cleansed_line)
        && not (matches lambda_pattern line)
        && not (contains (codes "for") cleansed_line)
        && (not (contains (codes "for") (previous clean n))
            || contains (codes ";") (previous clean n))
        && not (
            (contains (codes "case ") cleansed_line || contains (codes "default:") cleansed_line)
            && contains (codes "break;") cleansed_line))
      f n (codes "whitespace/newline") 0 (codes "More than one command on the same line")

unfoldable section_reports : Text → CleansedLines → ℕ → NestingState → List Report
section_reports f clean n s =
    on_match (innermost_class s.stack)
      (λ c. check_section_spacing f clean (c.0) (c.1).starting_linenum n)

-- What comes before the checks of other functions, and what they report behind the semicolon.
unfoldable own_reports : Unicode → ℕ → Text → CleansedLines → ℕ → Text → Bool → List Report
own_reports u line_length f clean n line is_guard =
    blank_reports f clean n line
    ++ (length_reports u line_length f n line is_guard
        ++ (command_reports f clean n line ++ check_braces u line_length f clean n))

unfoldable later_reports : Text → CleansedLines → ℕ → NestingState → List Report
later_reports f clean n s =
    check_spacing f clean n s
    ++ (check_operator_spacing f clean n
        ++ (check_parenthesis_spacing f clean n
            ++ (check_comma_spacing f clean n
                ++ (check_braces_spacing f clean n s
                    ++ (check_spacing_for_function_call f clean n
                        ++ (check_check f clean n ++ check_alt_tokens f clean n))))))

pub style_actions : Unicode → ℕ → Text → CleansedLines → ℕ → NestingState → Bool → List Action
style_actions u line_length f clean n s is_guard =
    let line = line_at clean.lines_without_raw_strings n in
    map raise (own_reports u line_length f clean n line is_guard)
    ++ (check_trailing_semicolon f clean n
        ++ (map raise (check_empty_block_body f clean n)
            ++ (map raise (later_reports f clean n s) ++ map raise (section_reports f clean n s))))

-- `none` where the loop of `RepositoryName` does not end.
unfoldable pub check_style :
    FileSystem
    → Settings
    → Unicode
    → Text
    → CleansedLines
    → ℕ
    → Text
    → NestingState
    → Option (List Action)
check_style fs settings u f clean n extension s =
    elim (guards_header fs settings f extension (line_at clean.lines_without_raw_strings n)) [
      | none ↦ none
      | some is_guard ↦ some (style_actions u settings.line_length f clean n s is_guard)
    ]

indent_reports-Listed :
    (f : Text) (clean : CleansedLines) (n : ℕ) (line : Text)
    → Listed f n (indent_reports f clean n line)
unfolding indent_reports
indent_reports-Listed f clean n line = search (listed)

blank_reports-Listed :
    (f : Text) (clean : CleansedLines) (n : ℕ) (line : Text)
    → Listed f n (blank_reports f clean n line)
unfolding blank_reports
blank_reports-Listed f clean n line = search (listed, indent_reports-Listed)

length_reports-Listed :
    (u : Unicode) (line_length : ℕ) (f : Text) (n : ℕ) (line : Text) (is_guard : Bool)
    → Listed f n (length_reports u line_length f n line is_guard)
unfolding length_reports
length_reports-Listed u line_length f n line is_guard = search (listed)

command_reports-Listed :
    (f : Text) (clean : CleansedLines) (n : ℕ) (line : Text)
    → Listed f n (command_reports f clean n line)
unfolding command_reports
command_reports-Listed f clean n line = search (listed)

own_reports-Listed :
    (u : Unicode) (line_length : ℕ) (f : Text) (clean : CleansedLines) (n : ℕ) (line : Text)
    (is_guard : Bool)
    → Listed f n (own_reports u line_length f clean n line is_guard)
unfolding own_reports
own_reports-Listed u line_length f clean n line is_guard =
    search
      (
        listed, blank_reports-Listed, length_reports-Listed, command_reports-Listed,
        check_braces-Listed,
      )
      depth 9

later_reports-Listed :
    (f : Text) (clean : CleansedLines) (n : ℕ) (s : NestingState)
    → Listed f n (later_reports f clean n s)
unfolding later_reports
later_reports-Listed f clean n s =
    search
      (
        listed, check_spacing-Listed, check_operator_spacing-Listed,
        check_parenthesis_spacing-Listed, check_comma_spacing-Listed, check_braces_spacing-Listed,
        check_spacing_for_function_call-Listed, check_check-Listed, check_alt_tokens-Listed,
      )
      depth 13

section_reports-Listed :
    (f : Text) (clean : CleansedLines) (n : ℕ) (s : NestingState)
    → Listed f n (section_reports f clean n s)
unfolding section_reports
section_reports-Listed f clean n s = search (listed, check_section_spacing-Listed)

style_actions-Raised :
    (u : Unicode) (line_length : ℕ) (f : Text) (clean : CleansedLines) (n : ℕ) (s : NestingState)
    (is_guard : Bool)
    → Raised f n (style_actions u line_length f clean n s is_guard)
unfolding style_actions
style_actions-Raised u line_length f clean n s is_guard =
    Raised-append _ (Raised-map _ (own_reports-Listed u line_length f clean n _ is_guard)) (
      Raised-append _ (check_trailing_semicolon-Raised f clean n) (
        Raised-append _ (Raised-map _ (check_empty_block_body-Listed f clean n)) (
          Raised-append _ (Raised-map _ (later_reports-Listed f clean n s))
            (Raised-map _ (section_reports-Listed f clean n s)))))

-- Where `CheckStyle` returns, each report that the checks hand to `error` is about the file, at the
-- line that is checked or a later one, under a category of `_ERROR_CATEGORIES`, and with a confidence
-- of at most five. The calls of `ParseNolintSuppressions` that it makes are for the line before the
-- one that is checked or for a later one; what such a call reports is about the file, at the line of
-- the call or a later one, and has such a category and confidence.
pub check_style-Raised :
    (fs : FileSystem) (settings : Settings) (u : Unicode) (f : Text) (clean : CleansedLines) (n : ℕ)
    (extension : Text) (s : NestingState) (actions : List Action)
    → check_style fs settings u f clean n extension s ≡ some actions
    → Raised f n actions
unfolding check_style
check_style-Raised fs settings u f clean n extension s actions h =
    elim (guards_header fs settings f extension (line_at clean.lines_without_raw_strings n))
        as (λ g.
          elim g [
            | none ↦ none
            | some is_guard ↦ some (style_actions u settings.line_length f clean n s is_guard)
          ]
            ≡ some actions
          → Raised f n actions) [
            | none ↦ λ e. absurd (cc)
            | some is_guard ↦ λ e.
                subst (Raised f n) (some_injective e)
                  (style_actions-Raised u settings.line_length f clean n s is_guard)
          ]
      h
