-- ===== src/Spacing/Lines.antt =====
-- build_support/cpplint.py: `CheckSpacing`.
use turtle.Common.{
  ℕ, zero, suc, ◌+◌, ◌-◌, Bool, false, not, ◌&&◌, ◌||◌, List, [], ◌∷◌, ◌++◌, none, some, ltb,
  if◌then◌else◌, length, take,
}
use turtle.Common.Text.{Text, codes, eq_text, drop_spaces, contains, behind_last}
use turtle.Common.Slices.{line_at, line_before}
use turtle.Regex.{
  Regex, many, group, at_end, word, none_of, dot, space, word_char, optional, some_of, choice, seq,
  match, matches, found, captured_text,
}
use turtle.Report.{Report, report, report_if}
use turtle.Listed.{on_match, Listed, listed}
use turtle.Cleanse.{CleansedLines}
use turtle.Nesting.{NestingState, in_namespace_body, in_extern_c}
use turtle.Checks.Lines.{is_blank_line, section_pattern}
use turtle.Spacing.Comments.{check_comment, check_comment-Listed}

-- ` {6}\w`
unfoldable six_spaces_pattern : Regex
unfolding seq word word_char
six_spaces_pattern = seq (
    seq ((word " ") ∷ (word " ") ∷ (word " ") ∷ (word " ") ∷ (word " ") ∷ (word " ") ∷ [])
    ∷ word_char
    ∷ [])

-- ` {4}\w[^\(]*\)\s*(const\s*)?(\{\s*$|:)`
unfoldable header_end_pattern : Regex
unfolding seq choice word none_of space word_char
header_end_pattern = seq (
    seq ((word " ") ∷ (word " ") ∷ (word " ") ∷ (word " ") ∷ [])
    ∷ word_char
    ∷ many (none_of "(")
    ∷ word ")"
    ∷ many space
    ∷ optional (group 1 (seq (word "const" ∷ many space ∷ [])))
    ∷ group 2 (choice (seq (word "{" ∷ many space ∷ at_end ∷ []) ∷ word ":" ∷ []))
    ∷ [])

-- ` {4}:`
unfoldable initializer_pattern : Regex
unfolding seq word
initializer_pattern =
    seq (seq ((word " ") ∷ (word " ") ∷ (word " ") ∷ (word " ") ∷ []) ∷ word ":" ∷ [])

-- `\s*}`
unfoldable closing_line_pattern : Regex
unfolding seq word space
closing_line_pattern = seq (many space ∷ word "}" ∷ [])

-- `\w\s+\[`
unfoldable space_bracket_pattern : Regex
unfolding seq some_of word space word_char
space_bracket_pattern = seq (word_char ∷ some_of space ∷ word "[" ∷ [])

-- `(?:auto&?|delete|return)\s+\[`
unfoldable bracket_exception_pattern : Regex
unfolding seq choice some_of word space
bracket_exception_pattern = seq (
    choice (seq (word "auto" ∷ optional (word "&") ∷ []) ∷ word "delete" ∷ word "return" ∷ [])
    ∷ some_of space
    ∷ word "["
    ∷ [])

-- `for *\(.*[^:]:[^: ]`
unfoldable colon_before_pattern : Regex
unfolding seq word none_of dot
colon_before_pattern = seq (
    word "for" ∷ many (word " ") ∷ word "(" ∷ many dot ∷ none_of ":" ∷ word ":" ∷ none_of ": " ∷ [])

-- `for *\(.*[^: ]:[^:]`
unfoldable colon_after_pattern : Regex
unfolding seq word none_of dot
colon_after_pattern = seq (
    word "for" ∷ many (word " ") ∷ word "(" ∷ many dot ∷ none_of ": " ∷ word ":" ∷ none_of ":" ∷ [])

-- The nearest of the first `k` lines that is not indented by six spaces begins an initializer list.
unfoldable initializer_above : List Text → ℕ → Bool
initializer_above elided zero = false
initializer_above elided (suc k) =
    let earlier = initializer_above elided k in
    if matches six_spaces_pattern (line_at elided k)
    then earlier
    else eq_text (take 5 (line_at elided k)) (codes "    :")

-- The exception to the rule on a blank line at the start of a block.
unfoldable block_start_exception : List Text → ℕ → Text → Bool
block_start_exception elided n prev_line =
    if matches six_spaces_pattern prev_line
    then initializer_above elided (n - 1)
    else matches header_end_pattern prev_line || matches initializer_pattern prev_line

-- `prevbrace != -1 and prev_line[prevbrace:].find('}') == -1`
abbrev opens_block : Text → Bool
opens_block prev_line = elim (behind_last b'{' prev_line) [
  | none ↦ false
  | some t ↦ not (contains (codes "}") t)
]

unfoldable blank_end : Text → CleansedLines → ℕ → List Report
blank_end f clean n =
    let next_line = line_at clean.lines_without_raw_strings (n + 1) in
    report_if
      (ltb (n + 1) clean.num_lines
        && matches closing_line_pattern next_line
        && not (contains (codes "} else ") next_line))
      f n (codes "whitespace/blank_line") 3
      (codes "Redundant blank line at the end of a code block should be deleted.")

unfoldable blank_section : Text → ℕ → Text → List Report
blank_section f n prev_line = on_match (match section_pattern prev_line) (λ m.
    report f n (codes "whitespace/blank_line") 3
      (codes "Do not leave a blank line after \"" ++ (captured_text 1 m ++ codes ":\""))
    ∷ [])

-- A blank line, outside the bodies of namespaces and `extern "C"` blocks.
unfoldable blank_reports : Text → CleansedLines → ℕ → List Report
blank_reports f clean n =
    let prev_line = line_before clean.elided n in
    report_if (opens_block prev_line && not (block_start_exception clean.elided n prev_line)) f n
      (codes "whitespace/blank_line") 2
      (codes "Redundant blank line at the start of a code block should be deleted.")
    ++ (blank_end f clean n ++ blank_section f n prev_line)

-- The first column of the next line that is no white space.
abbrev next_start : CleansedLines → ℕ → ℕ
next_start clean n =
    let next_line = line_at clean.lines_without_raw_strings (n + 1) in
    if ltb (n + 1) clean.num_lines then length next_line - length (drop_spaces next_line) else 0

pub check_spacing : Text → CleansedLines → ℕ → NestingState → List Report
check_spacing f clean n s =
    let raw_line = line_at clean.lines_without_raw_strings n in
    let line = line_at clean.elided n in
    (if is_blank_line raw_line && not (in_namespace_body s) && not (in_extern_c s)
      then blank_reports f clean n
      else [])
    ++ (check_comment raw_line f n (next_start clean n)
        ++ (report_if
              (found space_bracket_pattern line && not (found bracket_exception_pattern line)) f n
              (codes "whitespace/braces") 5 (codes "Extra space before [")
            ++ report_if (found colon_before_pattern line || found colon_after_pattern line) f n
                (codes "whitespace/forcolon") 2
                (codes "Missing space around colon in range-based for loop")))

blank_end-Listed : (f : Text) (clean : CleansedLines) (n : ℕ) → Listed f n (blank_end f clean n)
unfolding blank_end
blank_end-Listed f clean n = search (listed)

blank_section-Listed :
    (f : Text) (n : ℕ) (prev_line : Text) → Listed f n (blank_section f n prev_line)
unfolding blank_section
blank_section-Listed f n prev_line = search (listed)

blank_reports-Listed :
    (f : Text) (clean : CleansedLines) (n : ℕ) → Listed f n (blank_reports f clean n)
unfolding blank_reports
blank_reports-Listed f clean n = search (listed, blank_end-Listed, blank_section-Listed)

pub check_spacing-Listed :
    (f : Text) (clean : CleansedLines) (n : ℕ) (s : NestingState)
    → Listed f n (check_spacing f clean n s)
unfolding check_spacing
check_spacing-Listed f clean n s =
    search (listed, blank_reports-Listed, check_comment-Listed) depth 9
