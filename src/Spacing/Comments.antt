-- ===== src/Spacing/Comments.antt =====
-- build_support/cpplint.py: `CheckComment`.
use turtle.Common.{
  ℕ, ◌-◌, ◌%◌, Bool, true, false, not, ◌&&◌, ◌||◌, List, [], ◌∷◌, ◌++◌, Option, none, some, ◌==◌,
  ltb, leb, if◌then◌else◌, length, take, drop, get_or,
}
use turtle.Common.Text.{Text, codes, eq_text, find, count, is_whitespace}
use turtle.Regex.{
  Regex, many, lazy_many, group, at_start, at_end, Cursor, word, one_of, none_of, dot, space,
  word_char, optional, some_of, choice, seq, match, matches, captured, captured_text, remove_all,
}
use turtle.Report.{Report, report_if}
use turtle.Listed.{on_match, Listed, listed}

-- `\\.`
unfoldable escape_pattern : Regex
unfolding seq word dot
escape_pattern = seq (word "\\" ∷ dot ∷ [])

-- `^.*{ *//`
unfoldable scope_comment_pattern : Regex
unfolding seq word dot
scope_comment_pattern = seq (at_start ∷ many dot ∷ word "{" ∷ many (word " ") ∷ word "//" ∷ [])

-- `_RE_PATTERN_TODO`
-- `^//(\s*)TODO(\(.+?\))?:?(\s|$)?`
unfoldable todo_pattern : Regex
unfolding seq choice word dot space
todo_pattern = seq (
    at_start
    ∷ word "//"
    ∷ group 1 (many space)
    ∷ word "TODO"
    ∷ optional (group 2 (seq (word "(" ∷ seq (dot ∷ lazy_many dot ∷ []) ∷ word ")" ∷ [])))
    ∷ optional (word ":")
    ∷ optional (group 3 (choice (space ∷ at_end ∷ [])))
    ∷ [])

-- `//[^ ]*\w`
unfoldable word_comment_pattern : Regex
unfolding seq word none_of word_char
word_comment_pattern = seq (word "//" ∷ many (none_of " ") ∷ word_char ∷ [])

-- `(///|//\!)(\s+|$)`
unfoldable doxygen_pattern : Regex
unfolding seq choice some_of word one_of space
doxygen_pattern = seq (
    group 1 (seq (word "//" ∷ one_of "/!" ∷ []))
    ∷ group 2 (choice (some_of space ∷ at_end ∷ []))
    ∷ [])

-- `line[col - k] not in string.whitespace`, where `k <= col`.
abbrev is_code : Text → ℕ → ℕ → Bool
is_code line col k = leb k col && not (is_whitespace (get_or line (col - k) 32))

-- One space for a new scope, two otherwise.
unfoldable comment_gap : Text → ℕ → Text → ℕ → ℕ → List Report
comment_gap f n line col next_line_start =
    report_if
      (not (matches scope_comment_pattern line && next_line_start == col)
        && (is_code line col 1 || is_code line col 2))
      f n (codes "whitespace/comments") 2
      (codes "At least two spaces is best between code and comments")

-- The third group is absent, one character, or empty at the end of the line.
abbrev is_middle : Option Text → Bool
is_middle none = false
is_middle (some t) = eq_text t (codes " ") || eq_text t []

abbrev is_absent : Option Text → Bool
is_absent none = true
is_absent (some t) = eq_text t []

unfoldable todo_reports : Text → ℕ → Cursor → List Report
todo_reports f n m =
    report_if (ltb 1 (length (captured_text 1 m))) f n (codes "whitespace/todo") 2
      (codes "Too many spaces before TODO")
    ++ (report_if (is_absent (captured 2 m)) f n (codes "readability/todo") 2
          (codes "Missing username in TODO; it should look like \"// TODO(my_username): Stuff.\"")
        ++ report_if (not (is_middle (captured 3 m))) f n (codes "whitespace/todo") 2
            (codes "TODO(my_username) should be followed by a space"))

unfoldable check_todo : Text → ℕ → Text → List Report
check_todo f n comment = on_match (match todo_pattern comment) (λ m. todo_reports f n m)

unfoldable comment_reports : Text → ℕ → Text → ℕ → ℕ → List Report
comment_reports f n line col next_line_start =
    let comment = drop col line in
    comment_gap f n line col next_line_start
    ++ (check_todo f n comment
        ++ report_if (matches word_comment_pattern comment && not (matches doxygen_pattern comment))
            f n (codes "whitespace/comments") 4
            (codes "Should have a space between // and comment"))

-- A `//` with an odd number of quotes in front may stand in a string, and is left alone.
pub check_comment : Text → Text → ℕ → ℕ → List Report
check_comment line f n next_line_start = on_match (find (codes "//") line) (λ col.
    if count (codes "\"") (remove_all escape_pattern (take col line)) % 2 == 0
    then comment_reports f n line col next_line_start
    else [])

comment_gap-Listed :
    (f : Text) (n : ℕ) (line : Text) (col : ℕ) (next_line_start : ℕ)
    → Listed f n (comment_gap f n line col next_line_start)
unfolding comment_gap
comment_gap-Listed f n line col next_line_start = search (listed)

todo_reports-Listed : (f : Text) (n : ℕ) (m : Cursor) → Listed f n (todo_reports f n m)
unfolding todo_reports
todo_reports-Listed f n m = search (listed)

check_todo-Listed : (f : Text) (n : ℕ) (comment : Text) → Listed f n (check_todo f n comment)
unfolding check_todo
check_todo-Listed f n comment = search (listed, todo_reports-Listed)

comment_reports-Listed :
    (f : Text) (n : ℕ) (line : Text) (col : ℕ) (next_line_start : ℕ)
    → Listed f n (comment_reports f n line col next_line_start)
unfolding comment_reports
comment_reports-Listed f n line col next_line_start =
    search (listed, comment_gap-Listed, check_todo-Listed)

pub check_comment-Listed :
    (line : Text) (f : Text) (n : ℕ) (next_line_start : ℕ)
    → Listed f n (check_comment line f n next_line_start)
unfolding check_comment
check_comment-Listed line f n next_line_start = search (listed, comment_reports-Listed)
