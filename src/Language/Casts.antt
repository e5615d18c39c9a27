-- ===== src/Language/Casts.antt =====
-- build_support/cpplint.py: `ExpectingFunctionArgs`, `CheckCStyleCast` and `CheckCasts`.
use turtle.Common.{
  ℕ, zero, suc, ◌+◌, ◌-◌, Bool, true, false, not, ◌&&◌, ◌||◌, List, [], ◌∷◌, ◌++◌, Option, none,
  some, ◌==◌, ltb, leb, if◌then◌else◌, length, take, drop, get_elem?,
}
use turtle.Common.Text.{Text, codes, starts_with, ends_with, is_digit, is_upper, is_word}
use turtle.Common.Slices.{line_at}
use turtle.Regex.{
  Regex, char, both, many, group, word_edge, at_start, at_end, Cursor, lit, word, one_of, none_of,
  dot, space, non_space, word_char, digit, optional, some_of, choice, seq, match, matches,
  find_match, found, captured, captured_text, locate,
}
use turtle.Report.{Report, report, report_if}
use turtle.Listed.{on_match, Listed, listed, on_some, behind, Returned}
use turtle.Cleanse.{CleansedLines}
use turtle.Expression.{Place, close_expression}

-- `^\s*MOCK_(CONST_)?METHOD\d+(_T)?\(`
unfoldable mock_pattern : Regex
unfolding seq some_of word space digit
mock_pattern = seq (
    at_start
    ∷ many space
    ∷ word "MOCK_"
    ∷ optional (group 1 (word "CONST_"))
    ∷ word "METHOD"
    ∷ some_of digit
    ∷ optional (group 2 (word "_T"))
    ∷ word "("
    ∷ [])

-- `^\s*MOCK_(?:CONST_)?METHOD\d+(?:_T)?\((?:\S+,)?\s*$`
unfoldable mock_name_pattern : Regex
unfolding seq some_of word space non_space digit
mock_name_pattern = seq (
    at_start
    ∷ many space
    ∷ word "MOCK_"
    ∷ optional (word "CONST_")
    ∷ word "METHOD"
    ∷ some_of digit
    ∷ optional (word "_T")
    ∷ word "("
    ∷ optional (seq (some_of non_space ∷ word "," ∷ []))
    ∷ many space
    ∷ at_end
    ∷ [])

-- `^\s*MOCK_(?:CONST_)?METHOD\d+(?:_T)?\(\s*$`
unfoldable mock_open_pattern : Regex
unfolding seq some_of word space digit
mock_open_pattern = seq (
    at_start
    ∷ many space
    ∷ word "MOCK_"
    ∷ optional (word "CONST_")
    ∷ word "METHOD"
    ∷ some_of digit
    ∷ optional (word "_T")
    ∷ word "("
    ∷ many space
    ∷ at_end
    ∷ [])

-- `\bstd::m?function\s*\<\s*$`
unfoldable std_function_pattern : Regex
unfolding seq word space
std_function_pattern = seq (
    word_edge
    ∷ word "std::"
    ∷ optional (word "m")
    ∷ word "function"
    ∷ many space
    ∷ word "<"
    ∷ many space
    ∷ at_end
    ∷ [])

unfoldable expecting_function_args : CleansedLines → ℕ → Bool
expecting_function_args clean n =
    matches mock_pattern (line_at clean.elided n)
    || (leb 2 n
        && (matches mock_name_pattern (line_at clean.elided (n - 1))
            || matches mock_open_pattern (line_at clean.elided (n - 2))
            || found std_function_pattern (line_at clean.elided (n - 1))))

-- `.*\b(?:sizeof|alignof|alignas|[_A-Z][_A-Z0-9]*)\s*$`
unfoldable macro_word_pattern : Regex
unfolding seq choice word dot space is_digit is_upper
macro_word_pattern = seq (
    many dot
    ∷ word_edge
    ∷ choice (
        word "sizeof"
        ∷ word "alignof"
        ∷ word "alignas"
        ∷ seq (
            char (λ c. c == b'_' || is_upper c)
            ∷ many (char (λ c. c == b'_' || is_upper c || is_digit c))
            ∷ [])
        ∷ [])
    ∷ many space
    ∷ at_end
    ∷ [])

-- `.*\b[_A-Z][_A-Z0-9]*\s*\((?:\([^()]*\)|[^()])*$`
unfoldable macro_call_pattern : Regex
unfolding seq choice word none_of dot space is_digit is_upper
macro_call_pattern = seq (
    many dot
    ∷ word_edge
    ∷ char (λ c. c == b'_' || is_upper c)
    ∷ many (char (λ c. c == b'_' || is_upper c || is_digit c))
    ∷ many space
    ∷ word "("
    ∷ many (choice (seq (word "(" ∷ many (none_of "()") ∷ word ")" ∷ []) ∷ none_of "()" ∷ []))
    ∷ at_end
    ∷ [])

-- `^\s*(?:;|const\b|throw\b|final\b|override\b|[=>{),]|->)`
unfoldable declaration_pattern : Regex
unfolding seq choice word one_of space
declaration_pattern = seq (
    at_start
    ∷ many space
    ∷ choice (
        word ";"
        ∷ seq (word "const" ∷ word_edge ∷ [])
        ∷ seq (word "throw" ∷ word_edge ∷ [])
        ∷ seq (word "final" ∷ word_edge ∷ [])
        ∷ seq (word "override" ∷ word_edge ∷ [])
        ∷ one_of "=>{),"
        ∷ word "->"
        ∷ [])
    ∷ [])

-- The context with `rounds` lines before line `n` in front.
unfoldable with_lines_above : List Text → ℕ → ℕ → Text → Text
with_lines_above elided n zero context = context
with_lines_above elided n (suc rounds) context =
    with_lines_above elided (n - 1) rounds (line_at elided (n - 1) ++ context)

-- The lines `n - 1` to `n - 4`, but not line 0, are as many.
abbrev lines_above : ℕ → ℕ
lines_above n = if ltb n 5 then n - 1 else 4

-- The parenthesis is no cast: what stands before it and behind it.
unfoldable is_no_cast : CleansedLines → ℕ → Text → Text → Bool
is_no_cast clean n context remainder =
    let wide = with_lines_above clean.elided n (lines_above n) context in
    matches macro_word_pattern context
    || matches macro_call_pattern wide
    || ends_with (codes " operator++") wide
    || ends_with (codes " operator--") wide
    || matches declaration_pattern remainder

-- The first group of each of the patterns stands behind the first character of the match. The
-- result says whether there is a report.
unfoldable check_c_style_cast : Text → CleansedLines → ℕ → Text → Regex → List Report
check_c_style_cast f clean n cast_type pattern =
    on_match (locate pattern (line_at clean.elided n)) (λ m.
      report_if (not (is_no_cast clean n (take (m.0) (line_at clean.elided n)) (m.1).rest)) f n
        (codes "readability/casting") 4
        (codes "Using C-style cast.  Use "
          ++ (cast_type ++ (codes "<" ++ (captured_text 1 (m.1) ++ codes ">(...) instead")))))

-- `(\bnew\s+(?:const\s+)?|\S<\s*(?:const\s+)?)?\b(int|float|double|bool|char|int32|uint32|int64|uint64)(\([^)].*)`
unfoldable type_call_pattern : Regex
unfolding seq choice some_of word none_of dot space non_space
type_call_pattern = seq (
    optional (
      group 1 (
        choice (
          seq (
            word_edge
            ∷ word "new"
            ∷ some_of space
            ∷ optional (seq (word "const" ∷ some_of space ∷ []))
            ∷ [])
          ∷ seq (
              non_space
              ∷ word "<"
              ∷ many space
              ∷ optional (seq (word "const" ∷ some_of space ∷ []))
              ∷ [])
          ∷ [])))
    ∷ word_edge
    ∷ group 2 (
        choice (
          word "int"
          ∷ word "float"
          ∷ word "double"
          ∷ word "bool"
          ∷ word "char"
          ∷ word "int32"
          ∷ word "uint32"
          ∷ word "int64"
          ∷ word "uint64"
          ∷ []))
    ∷ group 3 (seq (word "(" ∷ none_of ")" ∷ many dot ∷ []))
    ∷ [])

-- `\([^()]+\)\s*\[`
unfoldable subscript_pattern : Regex
unfolding seq some_of word none_of space
subscript_pattern = seq (word "(" ∷ some_of (none_of "()") ∷ word ")" ∷ many space ∷ word "[" ∷ [])

-- `\((?:[^() ]+::\s*\*\s*)?[^() ]+\)\s*\(`
unfoldable function_pointer_pattern : Regex
unfolding seq some_of word none_of space
function_pointer_pattern = seq (
    word "("
    ∷ optional (seq (some_of (none_of "() ") ∷ word "::" ∷ many space ∷ word "*" ∷ many space ∷ []))
    ∷ some_of (none_of "() ")
    ∷ word ")"
    ∷ many space
    ∷ word "("
    ∷ [])

-- `\s*using\s+\S+\s*=\s*`
unfoldable using_front : Regex
unfolding seq some_of word space non_space
using_front = seq (
    many space
    ∷ word "using"
    ∷ some_of space
    ∷ some_of non_space
    ∷ many space
    ∷ word "="
    ∷ many space
    ∷ [])

-- `new\(\S+\)\s*`
unfoldable new_front : Regex
unfolding seq some_of word space non_space
new_front = seq (word "new(" ∷ some_of non_space ∷ word ")" ∷ many space ∷ [])

abbrev is_absent : Option Text → Bool
is_absent none = true
is_absent (some _) = false

unfoldable is_deprecated_cast : Text → Cursor → Bool
is_deprecated_cast line m =
    let matched_type = captured_text 2 m in
    let matched_funcptr = captured_text 3 m in
    is_absent (captured 1 m)
    && not (
        matches function_pointer_pattern matched_funcptr
        || starts_with (codes "(*)") matched_funcptr)
    && not (matches (both using_front (lit matched_type)) line)
    && not (found (both new_front (lit matched_type)) line)

unfoldable type_call_reports : Text → ℕ → Text → Cursor → List Report
type_call_reports f n line m =
    report_if (is_deprecated_cast line m) f n (codes "readability/casting") 4 (
      codes "Using deprecated casting style.  Use static_cast<"
      ++ (captured_text 2 m ++ codes ">(...) instead"))

-- `\((int|float|double|bool|char|u?int(16|32|64))\)`
unfoldable static_cast_pattern : Regex
unfolding seq choice word
static_cast_pattern = seq (
    word "("
    ∷ group 1 (
        choice (
          word "int"
          ∷ word "float"
          ∷ word "double"
          ∷ word "bool"
          ∷ word "char"
          ∷ seq (
              optional (word "u")
              ∷ word "int"
              ∷ group 2 (choice (word "16" ∷ word "32" ∷ word "64" ∷ []))
              ∷ [])
          ∷ []))
    ∷ word ")"
    ∷ [])

-- `\((char\s?\*+\s?)\)\s*"`
unfoldable const_cast_pattern : Regex
unfolding seq some_of word space
const_cast_pattern = seq (
    word "("
    ∷ group 1 (seq (word "char" ∷ optional space ∷ some_of (word "*") ∷ optional space ∷ []))
    ∷ word ")"
    ∷ many space
    ∷ word "\""
    ∷ [])

-- `\((\w+\s?\*+\s?)\)`
unfoldable reinterpret_cast_pattern : Regex
unfolding seq some_of word space word_char
reinterpret_cast_pattern = seq (
    word "("
    ∷ group 1 (seq (some_of word_char ∷ optional space ∷ some_of (word "*") ∷ optional space ∷ []))
    ∷ word ")"
    ∷ [])

unfoldable first_reports : List Report → List Report → List Report
first_reports [] others = others
first_reports (r ∷ rs) others = r ∷ rs

unfoldable c_style_reports : Text → CleansedLines → ℕ → List Report
c_style_reports f clean n =
    (if expecting_function_args clean n
      then []
      else check_c_style_cast f clean n (codes "static_cast") static_cast_pattern)
    ++ first_reports (check_c_style_cast f clean n (codes "const_cast") const_cast_pattern)
        (check_c_style_cast f clean n (codes "reinterpret_cast") reinterpret_cast_pattern)

-- `(?:[^\w]&\(([^)*][^)]*)\)[\w(])|(?:[^\w]&(static|dynamic|down|reinterpret)_cast\b)`
unfoldable address_pattern : Regex
unfolding seq choice word none_of is_word
address_pattern = seq (
    char (λ c. not (is_word c))
    ∷ word "&"
    ∷ choice (
        seq (
          word "("
          ∷ group 1 (seq (none_of ")*" ∷ many (none_of ")") ∷ []))
          ∷ word ")"
          ∷ char (λ c. is_word c || c == b'(')
          ∷ [])
        ∷ seq (
            group 2
              (choice (word "static" ∷ word "dynamic" ∷ word "down" ∷ word "reinterpret" ∷ []))
            ∷ word "_cast"
            ∷ word_edge
            ∷ [])
        ∷ [])
    ∷ [])

-- `^(.*&(?:static|dynamic|down|reinterpret)_cast\b)<`
unfoldable cast_head_pattern : Regex
unfolding seq choice word dot
cast_head_pattern = seq (
    at_start
    ∷ group 1 (
        seq (
          many dot
          ∷ word "&"
          ∷ choice (word "static" ∷ word "dynamic" ∷ word "down" ∷ word "reinterpret" ∷ [])
          ∷ word "_cast"
          ∷ word_edge
          ∷ []))
    ∷ word "<"
    ∷ [])

-- `\s*(?:->|\[)`
unfoldable dereference_pattern : Regex
unfolding seq choice word space
dereference_pattern = seq (many space ∷ choice (word "->" ∷ word "[" ∷ []) ∷ [])

-- The text behind the argument of the cast, with the next line.
unfoldable dereferences : CleansedLines → Place → Bool
dereferences clean place = elim place.position [
  | none ↦ false
  | some x ↦ matches dereference_pattern (
      drop x place.line
      ++ (if ltb place.linenum (clean.num_lines - 1)
          then line_at clean.elided (place.linenum + 1)
          else []))
]

-- `none` where the template argument list ends the line, so that the character behind it, which
-- the script reads, is not there.
unfoldable parenthesis_error : CleansedLines → Place → Option Bool
parenthesis_error clean place = elim place.position [
  | none ↦ some false
  | some x ↦ elim (get_elem? place.line x) [
    | none ↦ none
    | some c ↦
        some (c == b'(' && dereferences clean (close_expression clean.elided place.linenum x))
  ]
]

unfoldable address_error : CleansedLines → ℕ → Text → Option Bool
address_error clean n line = elim (match cast_head_pattern line) [
  | none ↦ some false
  | some m ↦ parenthesis_error clean (close_expression clean.elided n (length (captured_text 1 m)))
]

unfoldable address_report : Text → ℕ → Bool → List Report
address_report f n is_parenthesis =
    if is_parenthesis
    then report f n (codes "readability/casting") 4 (
        codes
          "Are you taking an address of something dereferenced from a cast?  Wrapping the dereferenced expression in parentheses will make the binding more obvious")
      ∷ []
    else report f n (codes "runtime/casting") 4 (
        codes
          "Are you taking an address of a cast?  This is dangerous: could be a temp var.  Take the address before doing the cast, rather than after")
      ∷ []

unfoldable address_reports : Text → CleansedLines → ℕ → Text → Option (List Report)
address_reports f clean n line =
    if found address_pattern line
    then on_some (address_error clean n line)
        (λ is_parenthesis. some (address_report f n is_parenthesis))
    else some []

-- A type that is called, where no types of functions are expected.
unfoldable type_call : CleansedLines → ℕ → Option Cursor
type_call clean n =
    if expecting_function_args clean n
    then none
    else find_match type_call_pattern (line_at clean.elided n)

-- What a called type leads to. Behind a subscript the function returns.
unfoldable casts_from : Text → CleansedLines → ℕ → Option Cursor → Option (List Report)
casts_from f clean n none =
    behind (c_style_reports f clean n) (address_reports f clean n (line_at clean.elided n))
casts_from f clean n (some m) =
    let line = line_at clean.elided n in
    if matches subscript_pattern (captured_text 3 m)
    then some []
    else behind (type_call_reports f n line m ++ c_style_reports f clean n)
        (address_reports f clean n line)

-- `none` where the script stops with an IndexError.
pub check_casts : Text → CleansedLines → ℕ → Option (List Report)
check_casts f clean n = casts_from f clean n (type_call clean n)

check_c_style_cast-Listed :
    (f : Text) (clean : CleansedLines) (n : ℕ) (cast_type : Text) (pattern : Regex)
    → Listed f n (check_c_style_cast f clean n cast_type pattern)
unfolding check_c_style_cast
check_c_style_cast-Listed f clean n cast_type pattern = search (listed) depth 10

type_call_reports-Listed :
    (f : Text) (n : ℕ) (line : Text) (m : Cursor) → Listed f n (type_call_reports f n line m)
unfolding type_call_reports
type_call_reports-Listed f n line m = search (listed)

address_report-Listed :
    (f : Text) (n : ℕ) (is_parenthesis : Bool) → Listed f n (address_report f n is_parenthesis)
unfolding address_report
address_report-Listed f n is_parenthesis = search (listed)

first_reports-Listed :
    {f : Text} {n : ℕ} (rs others : List Report)
    → Listed f n rs
    → Listed f n others
    → Listed f n (first_reports rs others)
unfolding first_reports
first_reports-Listed [] others h k = k
first_reports-Listed (r ∷ rs) others h k = h

c_style_reports-Listed :
    (f : Text) (clean : CleansedLines) (n : ℕ) → Listed f n (c_style_reports f clean n)
unfolding c_style_reports
c_style_reports-Listed f clean n = search (listed, check_c_style_cast-Listed, first_reports-Listed)

address_reports-Listed :
    (f : Text) (clean : CleansedLines) (n : ℕ) (line : Text)
    → Returned f n (address_reports f clean n line)
unfolding address_reports
address_reports-Listed f clean n line = search (listed, address_report-Listed)

casts_from-Listed :
    (f : Text) (clean : CleansedLines) (n : ℕ) (m : Option Cursor)
    → Returned f n (casts_from f clean n m)
unfolding casts_from
casts_from-Listed f clean n none = search (listed, c_style_reports-Listed, address_reports-Listed)
casts_from-Listed f clean n (some m) =
    search (listed, type_call_reports-Listed, c_style_reports-Listed, address_reports-Listed)

pub check_casts-Listed :
    (f : Text) (clean : CleansedLines) (n : ℕ) → Returned f n (check_casts f clean n)
unfolding check_casts
check_casts-Listed f clean n = search (listed, casts_from-Listed)
