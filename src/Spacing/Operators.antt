-- ===== src/Spacing/Operators.antt =====
-- build_support/cpplint.py: `CheckOperatorSpacing`.
use turtle.Common.{
  ℕ, zero, suc, Bool, true, false, not, ◌&&◌, ◌||◌, List, [], ◌∷◌, ◌++◌, Option, none, some, ◌==◌,
  if◌then◌else◌, length,
}
use turtle.Common.Text.{Text, codes, eq_text, between, is_space, is_upper, is_word, is_digits}
use turtle.Common.Slices.{or_nil, line_at}
use turtle.Regex.{
  Regex, char, many, group, word_edge, at_start, at_end, word, dot, space, non_space, optional,
  some_of, choice, seq, match, matches, find_match, found, captured_text,
}
use turtle.Report.{Report, report, report_if}
use turtle.Listed.{on_match, on_match_or, Listed, listed}
use turtle.Cleanse.{CleansedLines}
use turtle.Expression.{close_expression}
use turtle.Expression.Reverse.{reverse_close_expression}

-- `^(.*\boperator\b)(\S+)(\s*\(.*)$`
unfoldable pub operator_call_pattern : Regex
unfolding seq some_of word dot space non_space
operator_call_pattern = seq (
    at_start
    ∷ group 1 (seq (many dot ∷ word_edge ∷ word "operator" ∷ word_edge ∷ []))
    ∷ group 2 (some_of non_space)
    ∷ group 3 (seq (many space ∷ word "(" ∷ many dot ∷ []))
    ∷ at_end
    ∷ [])

unfoldable pub underscores : ℕ → Text
underscores zero = []
underscores (suc k) = b'_' ∷ underscores k

-- The loop that blots out the names of operators. `none` is for fuel that has run out.
unfoldable pub blot_rounds : ℕ → Text → Option Text
blot_rounds zero line = none
blot_rounds (suc fuel) line = elim (match operator_call_pattern line) [
  | none ↦ some line
  | some m ↦
      blot_rounds fuel
        (captured_text 1 m ++ (underscores (length (captured_text 2 m)) ++ captured_text 3 m))
]

unfoldable pub blot_operators : Text → Text
blot_operators line = or_nil (blot_rounds (suc (length line)) line)

-- `[\w.]=`
unfoldable word_equals_pattern : Regex
unfolding seq word is_word
word_equals_pattern = seq (char (λ c. is_word c || c == b'.') ∷ word "=" ∷ [])

-- `=[\w.]`
unfoldable equals_word_pattern : Regex
unfolding seq word is_word
equals_word_pattern = seq (word "=" ∷ char (λ c. is_word c || c == b'.') ∷ [])

-- `\b(if|while|for) `
unfoldable condition_word_pattern : Regex
unfolding seq choice word
condition_word_pattern =
    seq (word_edge ∷ group 1 (choice (word "if" ∷ word "while" ∷ word "for" ∷ [])) ∷ word " " ∷ [])

-- `(>=|<=|==|!=|&=|\^=|\|=|\+=|\*=|\/=|\%=)`
unfoldable compound_pattern : Regex
unfolding choice word
compound_pattern = group 1 (
    choice (
      word ">="
      ∷ word "<="
      ∷ word "=="
      ∷ word "!="
      ∷ word "&="
      ∷ word "^="
      ∷ word "|="
      ∷ word "+="
      ∷ word "*="
      ∷ word "/="
      ∷ word "%="
      ∷ []))

-- `operator=`
unfoldable operator_equals_pattern : Regex
unfolding word
operator_equals_pattern = word "operator="

-- `[^<>=!\s](==|!=|<=|>=|\|\|)[^<>=!\s,;\)]`
unfoldable comparison_pattern : Regex
unfolding seq choice word is_space
comparison_pattern = seq (
    char (λ c. not (c == b'<' || c == b'>' || c == b'=' || c == b'!' || is_space c))
    ∷ group 1 (choice (word "==" ∷ word "!=" ∷ word "<=" ∷ word ">=" ∷ word "||" ∷ []))
    ∷ char (λ c. not (
        c == b'<'
        || c == b'>'
        || c == b'='
        || c == b'!'
        || is_space c
        || c == b','
        || c == b';'
        || c == b')'))
    ∷ [])

-- `#.*include`
unfoldable include_word_pattern : Regex
unfolding seq word dot
include_word_pattern = seq (word "#" ∷ many dot ∷ word "include" ∷ [])

-- `^(.*[^\s<])<[^\s=<,]`
unfoldable less_pattern : Regex
unfolding seq word dot is_space
less_pattern = seq (
    at_start
    ∷ group 1 (seq (many dot ∷ char (λ c. not (is_space c || c == b'<')) ∷ []))
    ∷ word "<"
    ∷ char (λ c. not (is_space c || c == b'=' || c == b'<' || c == b','))
    ∷ [])

-- `^(.*[^-\s>])>[^\s=>,]`
unfoldable greater_pattern : Regex
unfolding seq word dot is_space
greater_pattern = seq (
    at_start
    ∷ group 1 (seq (many dot ∷ char (λ c. not (c == b'-' || is_space c || c == b'>')) ∷ []))
    ∷ word ">"
    ∷ char (λ c. not (is_space c || c == b'=' || c == b'>' || c == b','))
    ∷ [])

-- `(operator|[^\s(<])(?:L|UL|LL|ULL|l|ul|ll|ull)?<<([^\s,=<])`
unfoldable shift_left_pattern : Regex
unfolding seq choice word is_space
shift_left_pattern = seq (
    group 1 (choice (word "operator" ∷ char (λ c. not (is_space c || c == b'(' || c == b'<')) ∷ []))
    ∷ optional (
        choice (
          word "L"
          ∷ word "UL"
          ∷ word "LL"
          ∷ word "ULL"
          ∷ word "l"
          ∷ word "ul"
          ∷ word "ll"
          ∷ word "ull"
          ∷ []))
    ∷ word "<<"
    ∷ group 2 (char (λ c. not (is_space c || c == b',' || c == b'=' || c == b'<')))
    ∷ [])

-- `>>[a-zA-Z_]`
unfoldable shift_right_pattern : Regex
unfolding seq word is_upper
shift_right_pattern =
    seq (word ">>" ∷ char (λ c. between b'a' b'z' c || is_upper c || c == b'_') ∷ [])

-- `(!\s|~\s|[\s]--[\s;]|[\s]\+\+[\s;])`
unfoldable unary_pattern : Regex
unfolding seq choice word space is_space
unary_pattern = group 1 (
    choice (
      seq (word "!" ∷ space ∷ [])
      ∷ seq (word "~" ∷ space ∷ [])
      ∷ seq (space ∷ word "--" ∷ char (λ c. is_space c || c == b';') ∷ [])
      ∷ seq (space ∷ word "++" ∷ char (λ c. is_space c || c == b';') ∷ [])
      ∷ []))

abbrev operator_report : Text → ℕ → ℕ → Text → List Report
operator_report f n confidence message =
    report f n (codes "whitespace/operators") confidence message ∷ []

unfoldable equals_reports : Text → ℕ → Text → List Report
equals_reports f n line =
    if (found word_equals_pattern line || found equals_word_pattern line)
      && not (found condition_word_pattern line)
      && not (found compound_pattern line)
      && not (found operator_equals_pattern line)
    then operator_report f n 4 (codes "Missing spaces around =")
    else []

abbrev is_position : Option ℕ → Bool
is_position none = false
is_position (some p) = true

-- A `<` or a `>` without spaces that is no bracket. The positions are those in the line with the
-- operators' names blotted out, which are those in the file's line.
unfoldable angle_reports : Text → CleansedLines → ℕ → Text → List Report
angle_reports f clean n line =
    on_match (match less_pattern line) (λ m.
      if is_position (close_expression clean.elided n (length (captured_text 1 m))).position
      then []
      else operator_report f n 3 (codes "Missing spaces around <"))
    ++ on_match (match greater_pattern line) (λ m.
      if is_position (reverse_close_expression clean.elided n (length (captured_text 1 m))).position
      then []
      else operator_report f n 3 (codes "Missing spaces around >"))

unfoldable comparison_reports : Text → CleansedLines → ℕ → Text → List Report
comparison_reports f clean n line =
    on_match_or (find_match comparison_pattern line)
      (λ m. operator_report f n 3 (codes "Missing spaces around " ++ captured_text 1 m))
      (if not (matches include_word_pattern line) then angle_reports f clean n line else [])

unfoldable shift_reports : Text → ℕ → Text → List Report
shift_reports f n line = on_match (find_match shift_left_pattern line) (λ m.
    if not (is_digits (captured_text 1 m) && is_digits (captured_text 2 m))
      && not (
          eq_text (captured_text 1 m) (codes "operator") && eq_text (captured_text 2 m) (codes ";"))
    then operator_report f n 3 (codes "Missing spaces around <<")
    else [])

unfoldable unary_reports : Text → ℕ → Text → List Report
unary_reports f n line =
    on_match (find_match unary_pattern line)
      (λ m. operator_report f n 4 (codes "Extra space for operator " ++ captured_text 1 m))

pub check_operator_spacing : Text → CleansedLines → ℕ → List Report
check_operator_spacing f clean n =
    let line = blot_operators (line_at clean.elided n) in
    equals_reports f n line
    ++ (comparison_reports f clean n line
        ++ (shift_reports f n line
            ++ (report_if (found shift_right_pattern line) f n (codes "whitespace/operators") 3
                  (codes "Missing spaces around >>")
                ++ unary_reports f n line)))

equals_reports-Listed : (f : Text) (n : ℕ) (line : Text) → Listed f n (equals_reports f n line)
unfolding equals_reports
equals_reports-Listed f n line = search (listed)

angle_reports-Listed :
    (f : Text) (clean : CleansedLines) (n : ℕ) (line : Text)
    → Listed f n (angle_reports f clean n line)
unfolding angle_reports
angle_reports-Listed f clean n line = search (listed)

comparison_reports-Listed :
    (f : Text) (clean : CleansedLines) (n : ℕ) (line : Text)
    → Listed f n (comparison_reports f clean n line)
unfolding comparison_reports
comparison_reports-Listed f clean n line = search (listed, angle_reports-Listed)

shift_reports-Listed : (f : Text) (n : ℕ) (line : Text) → Listed f n (shift_reports f n line)
unfolding shift_reports
shift_reports-Listed f n line = search (listed)

unary_reports-Listed : (f : Text) (n : ℕ) (line : Text) → Listed f n (unary_reports f n line)
unfolding unary_reports
unary_reports-Listed f n line = search (listed)

pub check_operator_spacing-Listed :
    (f : Text) (clean : CleansedLines) (n : ℕ) → Listed f n (check_operator_spacing f clean n)
unfolding check_operator_spacing
check_operator_spacing-Listed f clean n =
    search
      (
        listed, equals_reports-Listed, comparison_reports-Listed, shift_reports-Listed,
        unary_reports-Listed,
      )
      depth 10
