-- ===== src/Language/Statics.antt =====
-- build_support/cpplint.py: `CheckGlobalStatic`.
use turtle.Common.{
  ℕ, ◌+◌, Bool, false, not, ◌&&◌, ◌||◌, List, [], ◌∷◌, ◌++◌, ◌==◌, ltb, if◌then◌else◌,
}
use turtle.Common.Text.{Text, codes, eq_text, between, is_digit, is_upper, is_word, strip}
use turtle.Common.Slices.{line_at}
use turtle.Regex.{
  Regex, empty, char, many, group, word_edge, at_end, Cursor, word, one_of, none_of, dot, space,
  word_char, optional, some_of, choice, seq, match, matches, found, captured_text, all_matches,
}
use turtle.Report.{Report, report, report_if}
use turtle.Listed.{on_match, Listed, listed}
use turtle.Cleanse.{CleansedLines}

-- `[;({]`
unfoldable statement_pattern : Regex
unfolding one_of
statement_pattern = one_of ";({"

-- `((?:|static +)(?:|const +))(?::*std::)?string( +const)? +([a-zA-Z0-9_:]+)\b(.*)`
unfoldable string_pattern : Regex
unfolding seq choice some_of word dot is_digit is_upper
string_pattern = seq (
    group 1 (
      seq (
        choice (empty ∷ seq (word "static" ∷ some_of (word " ") ∷ []) ∷ [])
        ∷ choice (empty ∷ seq (word "const" ∷ some_of (word " ") ∷ []) ∷ [])
        ∷ []))
    ∷ optional (seq (many (word ":") ∷ word "std::" ∷ []))
    ∷ word "string"
    ∷ optional (group 2 (seq (some_of (word " ") ∷ word "const" ∷ [])))
    ∷ some_of (word " ")
    ∷ group 3 (
        some_of
          (char (λ c. between b'a' b'z' c || is_upper c || is_digit c || c == b'_' || c == b':')))
    ∷ word_edge
    ∷ group 4 (many dot)
    ∷ [])

-- `\bstring\b(\s+const)?\s*[\*\&]\s*(const\s+)?\w`
unfoldable pointer_pattern : Regex
unfolding seq some_of word one_of space word_char
pointer_pattern = seq (
    word_edge
    ∷ word "string"
    ∷ word_edge
    ∷ optional (group 1 (seq (some_of space ∷ word "const" ∷ [])))
    ∷ many space
    ∷ one_of "*&"
    ∷ many space
    ∷ optional (group 2 (seq (word "const" ∷ some_of space ∷ [])))
    ∷ word_char
    ∷ [])

-- `\boperator\W`
unfoldable operator_pattern : Regex
unfolding seq word is_word
operator_pattern = seq (word_edge ∷ word "operator" ∷ char (λ c. not (is_word c)) ∷ [])

-- `\s*(<.*>)?(::[a-zA-Z0-9_]+)*\s*\(([^"]|$)`
unfoldable function_pattern : Regex
unfolding seq choice some_of word none_of dot space is_digit is_upper
function_pattern = seq (
    many space
    ∷ optional (group 1 (seq (word "<" ∷ many dot ∷ word ">" ∷ [])))
    ∷ many (
        group 2 (
          seq (
            word "::"
            ∷ some_of (char (λ c. between b'a' b'z' c || is_upper c || is_digit c || c == b'_'))
            ∷ [])))
    ∷ many space
    ∷ word "("
    ∷ group 3 (choice (none_of "\"" ∷ at_end ∷ []))
    ∷ [])

-- `\bconst\b`
unfoldable const_pattern : Regex
unfolding seq word
const_pattern = seq (word_edge ∷ word "const" ∷ word_edge ∷ [])

-- `\b(\w*_)\((\w*_)\)`
unfoldable member_pattern : Regex
unfolding seq word word_char
member_pattern = seq (
    word_edge
    ∷ group 1 (seq (many word_char ∷ word "_" ∷ []))
    ∷ word "("
    ∷ group 2 (seq (many word_char ∷ word "_" ∷ []))
    ∷ word ")"
    ∷ [])

-- `\b(\w*_)\(CHECK_NOTNULL\((\w*_)\)\)`
unfoldable checked_member_pattern : Regex
unfolding seq word word_char
checked_member_pattern = seq (
    word_edge
    ∷ group 1 (seq (many word_char ∷ word "_" ∷ []))
    ∷ word "(CHECK_NOTNULL("
    ∷ group 2 (seq (many word_char ∷ word "_" ∷ []))
    ∷ word "))"
    ∷ [])

-- The line, with the next one where it may be a declaration over two lines.
unfoldable static_line : CleansedLines → ℕ → Text
static_line clean n =
    let line = line_at clean.elided n in
    if ltb (n + 1) clean.num_lines && not (found statement_pattern line)
    then line ++ strip (line_at clean.elided (n + 1))
    else line

unfoldable string_reports : Text → ℕ → Text → Cursor → List Report
string_reports f n line m =
    if not (found pointer_pattern line)
      && not (found operator_pattern line)
      && not (matches function_pattern (captured_text 4 m))
    then if found const_pattern line
      then report f n (codes "runtime/string") 4 (
          codes "For a static/global string constant, use a C style string instead: \""
          ++ (captured_text 1 m
              ++ (codes "char"
                  ++ (captured_text 2 m ++ (codes " " ++ (captured_text 3 m ++ codes "[]\"."))))))
        ∷ []
      else report f n (codes "runtime/string") 4
          (codes "Static/global string variables are not permitted.")
        ∷ []
    else []

-- The script's patterns have `\1` where the second group is: the two texts are the same. A match of
-- the pattern without that can only begin where the first name does, and two of them do not overlap.
unfoldable repeats : List Cursor → Bool
repeats [] = false
repeats (m ∷ ms) = eq_text (captured_text 1 m) (captured_text 2 m) || repeats ms

pub check_global_static : Text → CleansedLines → ℕ → List Report
check_global_static f clean n =
    let line = static_line clean n in
    on_match (match string_pattern line) (λ m. string_reports f n line m)
    ++ report_if
        (repeats (all_matches member_pattern line)
          || repeats (all_matches checked_member_pattern line))
        f n (codes "runtime/init") 4
        (codes "You seem to be initializing a member variable with itself.")

string_reports-Listed :
    (f : Text) (n : ℕ) (line : Text) (m : Cursor) → Listed f n (string_reports f n line m)
unfolding string_reports
string_reports-Listed f n line m = search (listed) depth 12

pub check_global_static-Listed :
    (f : Text) (clean : CleansedLines) (n : ℕ) → Listed f n (check_global_static f clean n)
unfolding check_global_static
check_global_static-Listed f clean n = search (listed, string_reports-Listed)
