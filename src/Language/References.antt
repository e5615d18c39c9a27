-- ===== src/Language/References.antt =====
-- build_support/cpplint.py: `CheckForNonConstReference`.
use turtle.Common.{
  ℕ, zero, suc, ◌+◌, ◌-◌, Bool, true, false, not, ◌&&◌, ◌||◌, List, [], ◌∷◌, ◌++◌, Option, none,
  some, ◌==◌, ltb, leb, if◌then◌else◌, length,
}
use turtle.Common.Text.{
  Text, codes, between, is_upper, is_word, drop_spaces, strip, contains, behind_last,
}
use turtle.Common.Slices.{line_at}
use turtle.Regex.{
  Regex, char, many, group, word_edge, at_start, at_end, Cursor, word, one_of, none_of, dot, space,
  non_space, word_char, optional, some_of, choice, seq, matches, find_match, found, captured_text,
  replace_all, all_matches,
}
use turtle.Report.{Report, report_if}
use turtle.Listed.{Listed, listed, none_left}
use turtle.Cleanse.{CleansedLines}
use turtle.Nesting.{Kind, class_info, namespace_info}
use turtle.Expression.Reverse.{reverse_close_expression}
use turtle.Language.Functions.{
  is_derived_function, is_out_of_line_method_definition, is_initializer_list,
}

-- `\s*::(?:[\w<>]|::)+\s*&\s*\S`
unfoldable scope_line_pattern : Regex
unfolding seq choice some_of word space non_space is_word
scope_line_pattern = seq (
    many space
    ∷ word "::"
    ∷ some_of (choice (char (λ c. is_word c || c == b'<' || c == b'>') ∷ word "::" ∷ []))
    ∷ many space
    ∷ word "&"
    ∷ many space
    ∷ non_space
    ∷ [])

-- `\b((?:const\s*)?(?:[\w<>]|::)+[\w<>])\s*$`
unfoldable type_end_pattern : Regex
unfolding seq choice some_of word space is_word
type_end_pattern = seq (
    word_edge
    ∷ group 1 (
        seq (
          optional (seq (word "const" ∷ many space ∷ []))
          ∷ some_of (choice (char (λ c. is_word c || c == b'<' || c == b'>') ∷ word "::" ∷ []))
          ∷ char (λ c. is_word c || c == b'<' || c == b'>')
          ∷ []))
    ∷ many space
    ∷ at_end
    ∷ [])

-- `\s*[a-zA-Z_]([\w<>]|::)+\s*&\s*\S`
unfoldable type_line_pattern : Regex
unfolding seq choice some_of word space non_space is_word is_upper
type_line_pattern = seq (
    many space
    ∷ char (λ c. between b'a' b'z' c || is_upper c || c == b'_')
    ∷ some_of (group 1 (choice (char (λ c. is_word c || c == b'<' || c == b'>') ∷ word "::" ∷ [])))
    ∷ many space
    ∷ word "&"
    ∷ many space
    ∷ non_space
    ∷ [])

-- `\b((?:const\s*)?(?:[\w<>]|::)+::)\s*$`
unfoldable scope_end_pattern : Regex
unfolding seq choice some_of word space is_word
scope_end_pattern = seq (
    word_edge
    ∷ group 1 (
        seq (
          optional (seq (word "const" ∷ many space ∷ []))
          ∷ some_of (choice (char (λ c. is_word c || c == b'<' || c == b'>') ∷ word "::" ∷ []))
          ∷ word "::"
          ∷ []))
    ∷ many space
    ∷ at_end
    ∷ [])

-- The front of a type that is broken over two lines.
unfoldable type_front : Text → Text → Option Cursor
type_front line previous_line =
    if matches scope_line_pattern line
    then find_match type_end_pattern previous_line
    else if matches type_line_pattern line
    then find_match scope_end_pattern previous_line
    else none

unfoldable join_stripped : List Text → ℕ → ℕ → Text
join_stripped elided i zero = []
join_stripped elided i (suc rounds) =
    strip (line_at elided i) ++ join_stripped elided (suc i) rounds

-- The lines from the one where the template argument list of the line starts.
unfoldable template_lines : CleansedLines → ℕ → Text → Text
template_lines clean n line = elim (behind_last b'>' line) [
  | none ↦ line
  | some t ↦
      let place = reverse_close_expression clean.elided n (length line - length t) in
      elim place.position [
        | none ↦ line
        | some p ↦
            if ltb place.linenum n
            then join_stripped clean.elided place.linenum (n + 1 - place.linenum)
            else line
      ]
]

unfoldable whole_line : CleansedLines → ℕ → Text
whole_line clean n =
    let line = line_at clean.elided n in
    if leb n 1 then line else elim (type_front line (line_at clean.elided (n - 1))) [
      | some m ↦ captured_text 1 m ++ drop_spaces line
      | none ↦ template_lines clean n line
    ]

-- Is the block that was on top of the stack neither a class nor a namespace.
unfoldable is_body : Option Kind → Bool
is_body none = false
is_body (some (class_info c)) = false
is_body (some (namespace_info name)) = false
is_body (some _) = true

-- `[),]\s*$`
unfoldable list_line_pattern : Regex
unfolding seq one_of space
list_line_pattern = seq (one_of ")," ∷ many space ∷ at_end ∷ [])

-- `^\s*:\s+\S`
unfoldable initializer_line_pattern : Regex
unfolding seq some_of word space non_space
initializer_line_pattern = seq (at_start ∷ many space ∷ word ":" ∷ some_of space ∷ non_space ∷ [])

-- `\\\s*$`
unfoldable backslash_pattern : Regex
unfolding seq word space
backslash_pattern = seq (word "\\" ∷ many space ∷ at_end ∷ [])

-- One of the `rounds` lines in front of line `n` begins an initializer list, with nothing but lines
-- of a list between.
unfoldable list_above : List Text → ℕ → ℕ → Bool
list_above elided n zero = false
list_above elided n (suc rounds) =
    let earlier = list_above elided (n - 1) rounds in
    found list_line_pattern (line_at elided (n - 1))
    && (matches initializer_line_pattern (line_at elided (n - 1)) || earlier)

-- The lines `n - 1` to `n - 9`, but not line 0, are as many.
abbrev lines_above : ℕ → ℕ
lines_above n = if ltb n 10 then n - 1 else 9

-- `(?:[sS]wap(?:<\w:+>)?|operator\s*[<>][<>]|static_assert|COMPILE_ASSERT)\s*\(`
unfoldable allowed_pattern : Regex
unfolding seq choice some_of word one_of space word_char
allowed_pattern = seq (
    choice (
      seq (
        one_of "sS"
        ∷ word "wap"
        ∷ optional (seq (word "<" ∷ word_char ∷ some_of (word ":") ∷ word ">" ∷ []))
        ∷ [])
      ∷ seq (word "operator" ∷ many space ∷ one_of "<>" ∷ one_of "<>" ∷ [])
      ∷ word "static_assert"
      ∷ word "COMPILE_ASSERT"
      ∷ [])
    ∷ many space
    ∷ word "("
    ∷ [])

-- `\S+\([^)]*$`
unfoldable open_call_pattern : Regex
unfolding seq some_of word none_of non_space
open_call_pattern = seq (some_of non_space ∷ word "(" ∷ many (none_of ")") ∷ at_end ∷ [])

unfoldable is_allowed : CleansedLines → ℕ → Text → Bool
is_allowed clean n line =
    found allowed_pattern line
    || (not (found open_call_pattern line)
        && ((ltb 0 n && found allowed_pattern (line_at clean.elided (n - 1)))
            || (ltb 1 n && found allowed_pattern (line_at clean.elided (n - 2)))))

-- `{[^}]*}`
unfoldable body_pattern : Regex
unfolding seq word none_of
body_pattern = seq (word "{" ∷ many (none_of "}") ∷ word "}" ∷ [])

-- `((?:const\s+)?(?:typename\s+|class\s+|struct\s+|union\s+|enum\s+)?(?:\w|\s*<(?:<(?:<[^<>]*>|[^<>])*>|[^<>])*>|::)+(?:\s*(?:\bconst\b|[*]))*\s*&\s*[_a-zA-Z]\w*)\s*(?:=[^,()]+)?[,)]`
unfoldable ref_param_pattern : Regex
unfolding seq choice some_of word one_of none_of space word_char is_upper
ref_param_pattern = seq (
    group 1 (
      seq (
        optional (seq (word "const" ∷ some_of space ∷ []))
        ∷ optional (
            choice (
              seq (word "typename" ∷ some_of space ∷ [])
              ∷ seq (word "class" ∷ some_of space ∷ [])
              ∷ seq (word "struct" ∷ some_of space ∷ [])
              ∷ seq (word "union" ∷ some_of space ∷ [])
              ∷ seq (word "enum" ∷ some_of space ∷ [])
              ∷ []))
        ∷ some_of (
            choice (
              word_char
              ∷ seq (
                  many space
                  ∷ word "<"
                  ∷ many (
                      choice (
                        seq (
                          word "<"
                          ∷ many (
                              choice (
                                seq (word "<" ∷ many (none_of "<>") ∷ word ">" ∷ [])
                                ∷ none_of "<>"
                                ∷ []))
                          ∷ word ">"
                          ∷ [])
                        ∷ none_of "<>"
                        ∷ []))
                  ∷ word ">"
                  ∷ [])
              ∷ word "::"
              ∷ []))
        ∷ many (
            seq (
              many space
              ∷ choice (seq (word_edge ∷ word "const" ∷ word_edge ∷ []) ∷ word "*" ∷ [])
              ∷ []))
        ∷ many space
        ∷ word "&"
        ∷ many space
        ∷ char (λ c. c == b'_' || between b'a' b'z' c || is_upper c)
        ∷ many word_char
        ∷ []))
    ∷ many space
    ∷ optional (seq (word "=" ∷ some_of (none_of ",()") ∷ []))
    ∷ one_of ",)"
    ∷ [])

-- `(?:.*\s*\bconst\s*&\s*[_a-zA-Z]\w*|const\s+(?:const\s+)?(?:typename\s+|class\s+|struct\s+|union\s+|enum\s+)?(?:\w|\s*<(?:<(?:<[^<>]*>|[^<>])*>|[^<>])*>|::)+\s*&\s*[_a-zA-Z]\w*)`
unfoldable const_ref_param_pattern : Regex
unfolding seq choice some_of word none_of dot space word_char is_upper
const_ref_param_pattern = choice (
    seq (
      many dot
      ∷ many space
      ∷ word_edge
      ∷ word "const"
      ∷ many space
      ∷ word "&"
      ∷ many space
      ∷ char (λ c. c == b'_' || between b'a' b'z' c || is_upper c)
      ∷ many word_char
      ∷ [])
    ∷ seq (
        word "const"
        ∷ some_of space
        ∷ optional (seq (word "const" ∷ some_of space ∷ []))
        ∷ optional (
            choice (
              seq (word "typename" ∷ some_of space ∷ [])
              ∷ seq (word "class" ∷ some_of space ∷ [])
              ∷ seq (word "struct" ∷ some_of space ∷ [])
              ∷ seq (word "union" ∷ some_of space ∷ [])
              ∷ seq (word "enum" ∷ some_of space ∷ [])
              ∷ []))
        ∷ some_of (
            choice (
              word_char
              ∷ seq (
                  many space
                  ∷ word "<"
                  ∷ many (
                      choice (
                        seq (
                          word "<"
                          ∷ many (
                              choice (
                                seq (word "<" ∷ many (none_of "<>") ∷ word ">" ∷ [])
                                ∷ none_of "<>"
                                ∷ []))
                          ∷ word ">"
                          ∷ [])
                        ∷ none_of "<>"
                        ∷ []))
                  ∷ word ">"
                  ∷ [])
              ∷ word "::"
              ∷ []))
        ∷ many space
        ∷ word "&"
        ∷ many space
        ∷ char (λ c. c == b'_' || between b'a' b'z' c || is_upper c)
        ∷ many word_char
        ∷ [])
    ∷ [])

-- `(?:.*stream\s*&\s*[_a-zA-Z]\w*)`
unfoldable ref_stream_param_pattern : Regex
unfolding seq word dot space word_char is_upper
ref_stream_param_pattern = seq (
    many dot
    ∷ word "stream"
    ∷ many space
    ∷ word "&"
    ∷ many space
    ∷ char (λ c. c == b'_' || between b'a' b'z' c || is_upper c)
    ∷ many word_char
    ∷ [])

-- ` *<`
unfoldable angle_pattern : Regex
unfolding seq word
angle_pattern = seq (many (word " ") ∷ word "<" ∷ [])

unfoldable parameter_reports : Text → ℕ → List Cursor → List Report
parameter_reports f n [] = []
parameter_reports f n (m ∷ ms) =
    let parameter = captured_text 1 m in
    report_if
      (not (matches const_ref_param_pattern parameter)
        && not (matches ref_stream_param_pattern parameter))
      f n (codes "runtime/references") 2
      (codes "Is this a non-const reference? If so, make const or use a pointer: "
        ++ replace_all angle_pattern (codes "<") parameter)
    ++ parameter_reports f n ms

unfoldable reference_reports : Text → CleansedLines → ℕ → Option Kind → Text → List Report
reference_reports f clean n previous_top line =
    if is_body previous_top
      || (ltb 0 n && list_above clean.elided n (lines_above n))
      || found backslash_pattern line
      || is_initializer_list clean n
      || is_allowed clean n line
    then []
    else parameter_reports f n
        (all_matches ref_param_pattern (replace_all body_pattern (codes " ") line))

-- `previous_top` is the kind of `previous_stack_top`, the block on top of the stack before the line.
pub check_for_non_const_reference : Text → CleansedLines → ℕ → Option Kind → List Report
check_for_non_const_reference f clean n previous_top =
    if not (contains (codes "&") (line_at clean.elided n))
      || is_derived_function clean n
      || is_out_of_line_method_definition clean n
    then []
    else reference_reports f clean n previous_top (whole_line clean n)

parameter_reports-Listed :
    (f : Text) (n : ℕ) (ms : List Cursor) → Listed f n (parameter_reports f n ms)
unfolding parameter_reports
parameter_reports-Listed f n [] = none_left
parameter_reports-Listed f n (m ∷ ms) = search (listed, parameter_reports-Listed f n ms)

reference_reports-Listed :
    (f : Text) (clean : CleansedLines) (n : ℕ) (previous_top : Option Kind) (line : Text)
    → Listed f n (reference_reports f clean n previous_top line)
unfolding reference_reports
reference_reports-Listed f clean n previous_top line = search (listed, parameter_reports-Listed)

pub check_for_non_const_reference-Listed :
    (f : Text) (clean : CleansedLines) (n : ℕ) (previous_top : Option Kind)
    → Listed f n (check_for_non_const_reference f clean n previous_top)
unfolding check_for_non_const_reference
check_for_non_const_reference-Listed f clean n previous_top =
    search (listed, reference_reports-Listed)
