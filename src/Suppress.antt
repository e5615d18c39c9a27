-- ===== src/Suppress.antt =====
-- build_support/cpplint.py: the table of NOLINT suppressions and the errors that it suppresses.
pub mod Laws
pub mod Abstract
use turtle.Common.{
  ℕ, ◌+◌, Bool, true, false, not, ◌&&◌, ◌||◌, List, [], ◌∷◌, ◌++◌, Option, none, some, ◌==◌,
  if◌then◌else◌, any, ℤ, pos, negsuc,
}
use turtle.Common.Text.{Text, codes, eq_text, mem_text, starts_with, ends_with}
use turtle.Common.Slices.{inner}
use turtle.Regex.{
  Regex, Cursor, lit, word, seq, choice, many, optional, group, word_edge, some_of, none_of, space,
  dot, at_end, find_match, found, captured,
}
use turtle.Report.{Report, report}

unfoldable pub error_categories : List Text
unfolding codes
error_categories =
    codes "build/class"
    ∷ codes "build/c++11"
    ∷ codes "build/c++14"
    ∷ codes "build/c++tr1"
    ∷ codes "build/deprecated"
    ∷ codes "build/endif_comment"
    ∷ codes "build/explicit_make_pair"
    ∷ codes "build/forward_decl"
    ∷ codes "build/header_guard"
    ∷ codes "build/include"
    ∷ codes "build/include_subdir"
    ∷ codes "build/include_alpha"
    ∷ codes "build/include_order"
    ∷ codes "build/include_what_you_use"
    ∷ codes "build/namespaces_literals"
    ∷ codes "build/namespaces"
    ∷ codes "build/printf_format"
    ∷ codes "build/storage_class"
    ∷ codes "legal/copyright"
    ∷ codes "readability/alt_tokens"
    ∷ codes "readability/braces"
    ∷ codes "readability/casting"
    ∷ codes "readability/check"
    ∷ codes "readability/constructors"
    ∷ codes "readability/fn_size"
    ∷ codes "readability/inheritance"
    ∷ codes "readability/multiline_comment"
    ∷ codes "readability/multiline_string"
    ∷ codes "readability/namespace"
    ∷ codes "readability/nolint"
    ∷ codes "readability/nul"
    ∷ codes "readability/strings"
    ∷ codes "readability/todo"
    ∷ codes "readability/utf8"
    ∷ codes "runtime/arrays"
    ∷ codes "runtime/casting"
    ∷ codes "runtime/explicit"
    ∷ codes "runtime/int"
    ∷ codes "runtime/init"
    ∷ codes "runtime/invalid_increment"
    ∷ codes "runtime/member_string_references"
    ∷ codes "runtime/memset"
    ∷ codes "runtime/indentation_namespace"
    ∷ codes "runtime/operator"
    ∷ codes "runtime/printf"
    ∷ codes "runtime/printf_format"
    ∷ codes "runtime/references"
    ∷ codes "runtime/string"
    ∷ codes "runtime/threadsafe_fn"
    ∷ codes "runtime/vlog"
    ∷ codes "whitespace/blank_line"
    ∷ codes "whitespace/braces"
    ∷ codes "whitespace/comma"
    ∷ codes "whitespace/comments"
    ∷ codes "whitespace/empty_conditional_body"
    ∷ codes "whitespace/empty_if_body"
    ∷ codes "whitespace/empty_loop_body"
    ∷ codes "whitespace/end_of_line"
    ∷ codes "whitespace/ending_newline"
    ∷ codes "whitespace/forcolon"
    ∷ codes "whitespace/indent"
    ∷ codes "whitespace/line_length"
    ∷ codes "whitespace/newline"
    ∷ codes "whitespace/operators"
    ∷ codes "whitespace/parens"
    ∷ codes "whitespace/semicolon"
    ∷ codes "whitespace/tab"
    ∷ codes "whitespace/todo"
    ∷ []

unfoldable pub legacy_error_categories : List Text
unfolding codes
legacy_error_categories = codes "readability/streams" ∷ codes "readability/function" ∷ []

unfoldable pub default_c_suppressed_categories : List Text
unfolding codes
default_c_suppressed_categories = codes "readability/casting" ∷ []

unfoldable pub default_kernel_suppressed_categories : List Text
unfolding codes
default_kernel_suppressed_categories = codes "whitespace/tab" ∷ []

-- `none` is the key None, which stands for every category.
abbrev pub Key : Type 0
Key = Option Text

pub eq_key : Key → Key → Bool
unfolding eq_text
eq_key none none = true
eq_key (some c) (some d) = eq_text c d
eq_key _ _ = false

-- `_error_suppressions`, a dictionary of sets of line numbers, and the categories for which
-- `_global_error_suppressions` holds True.
pub record Suppressions : Type 0 where
  pub lines : List (Key × List ℕ)
  pub everywhere : List Text

-- `_error_suppressions.setdefault(key, set()).add(line)`
unfoldable pub add_line : Key → ℕ → List (Key × List ℕ) → List (Key × List ℕ)
unfolding eq_key
add_line k n [] = (k, n ∷ []) ∷ []
add_line k n ((j, ns) ∷ m) = if eq_key j k then (j, n ∷ ns) ∷ m else (j, ns) ∷ add_line k n m

-- `line in _error_suppressions.get(key, set())`
unfoldable pub has_line : Key → ℕ → List (Key × List ℕ) → Bool
unfolding eq_key
has_line k n [] = false
has_line k n ((j, ns) ∷ m) = if eq_key j k then any (λ i. i == n) ns else has_line k n m

unfoldable pub nolint_pattern : Regex
unfolding word seq some_of none_of codes
nolint_pattern = seq (
    word_edge
    ∷ word "NOLINT"
    ∷ optional (group 1 (word "NEXTLINE"))
    ∷ word_edge
    ∷ optional (group 2 (seq (word "(" ∷ some_of (none_of ")") ∷ word ")" ∷ [])))
    ∷ [])

-- The line that a NOLINT comment speaks of.
pub suppressed_line : Option Text → ℕ → ℕ
suppressed_line none n = n
suppressed_line (some _) n = n + 1

abbrev suppress : Key → ℕ → Suppressions → Suppressions
suppress k n s = record s { lines = add_line k n s.lines }

-- What is done with the category of a NOLINT comment, the second group of the match.
unfoldable pub nolint_category :
    Text → ℕ → ℕ → Option Text → Suppressions → Suppressions × List Report
nolint_category f n line none s = (suppress none line s, [])
nolint_category f n line (some c) s =
    if eq_text c (codes "(*)")
    then (suppress none line s, [])
    else if starts_with (codes "(") c && ends_with (codes ")") c
    then (if mem_text (inner c) error_categories
        then (suppress (some (inner c)) line s, [])
        else if not (mem_text (inner c) legacy_error_categories)
        then (
          s,
          report f n (codes "readability/nolint") 5
                (codes "Unknown NOLINT error category: " ++ inner c)
              ∷ [],
        )
        else (s, []))
    else (s, [])

unfoldable pub nolint_match : Text → ℕ → Option Cursor → Suppressions → Suppressions × List Report
unfolding suppressed_line
nolint_match f n none s = (s, [])
nolint_match f n (some m) s =
    nolint_category f n (suppressed_line (captured 1 m) n) (captured 2 m) s

unfoldable pub parse_nolint_suppressions :
    Text → Text → ℕ → Suppressions → Suppressions × List Report
parse_nolint_suppressions f raw_line n s = nolint_match f n (find_match nolint_pattern raw_line) s

unfoldable pub c_file_pattern : Regex
unfolding word seq choice dot space codes
c_file_pattern = seq (
    word_edge
    ∷ choice (
        word "LINT_C_FILE"
        ∷ seq (
            word "vi"
            ∷ optional (word "m")
            ∷ word ":"
            ∷ many space
            ∷ many dot
            ∷ choice (many space ∷ word ":" ∷ [])
            ∷ word "filetype=c"
            ∷ choice (many space ∷ word ":" ∷ at_end ∷ [])
            ∷ [])
        ∷ [])
    ∷ [])

unfoldable pub kernel_file_pattern : Regex
unfolding word seq codes
kernel_file_pattern = seq (word_edge ∷ word "LINT_KERNEL_FILE" ∷ [])

pub add_categories : Bool → List Text → Suppressions → Suppressions
add_categories b cs s = if b then record s { everywhere = cs ++ s.everywhere } else s

pub process_global_suppressions : List Text → Suppressions → Suppressions
process_global_suppressions [] s = s
process_global_suppressions (line ∷ lines) s = process_global_suppressions lines (
    add_categories (found kernel_file_pattern line) default_kernel_suppressed_categories
      (add_categories (found c_file_pattern line) default_c_suppressed_categories s))

pub reset_nolint_suppressions : Suppressions → Suppressions
reset_nolint_suppressions s = record { lines = []; everywhere = [] }

-- A line number that is negative is in none of the sets.
abbrev int_has_line : Key → ℤ → List (Key × List ℕ) → Bool
int_has_line k (pos n) m = has_line k n m
int_has_line k (negsuc n) m = false

unfoldable pub is_error_suppressed : Text → ℤ → Suppressions → Bool
is_error_suppressed c n s =
    mem_text c s.everywhere || int_has_line (some c) n s.lines || int_has_line none n s.lines
