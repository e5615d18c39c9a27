-- ===== src/Style/Macros.antt =====
-- build_support/cpplint.py: `FindCheckMacro`, `CheckCheck` and `CheckAltTokens`.
use turtle.Common.{
  ℕ, zero, suc, ◌+◌, ◌-◌, Bool, true, false, not, ◌&&◌, ◌||◌, List, [], ◌∷◌, ◌++◌, Option, none,
  some, ◌==◌, if◌then◌else◌, length, take, drop,
}
use turtle.Common.Text.{Text, codes, eq_text, mem_text, between, is_digit, strip, contains}
use turtle.Common.Slices.{line_at}
use turtle.Regex.{
  Regex, char, many, group, word_edge, at_start, at_end, ahead, Cursor, lit, word, one_of, none_of,
  dot, space, non_space, digit, optional, some_of, choice, seq, match, matches, captured_text,
  all_matches,
}
use turtle.Report.{Report, report, report_if}
use turtle.Listed.{on_match, Listed, listed, none_left, Listed-more}
use turtle.Cleanse.{CleansedLines}
use turtle.Expression.{at_position, find_end_of_expression_in_line, Place, close_expression}

-- `_CHECK_MACROS`
unfoldable check_macros : List Text
check_macros =
    codes "DCHECK"
    ∷ codes "CHECK"
    ∷ codes "EXPECT_TRUE"
    ∷ codes "ASSERT_TRUE"
    ∷ codes "EXPECT_FALSE"
    ∷ codes "ASSERT_FALSE"
    ∷ []

-- `r'^(.*\b' + macro + r'\s*)\('`
unfoldable macro_pattern : Text → Regex
unfolding seq dot lit space word
macro_pattern macro =
    seq (
      at_start ∷ group 1 (seq (many dot ∷ word_edge ∷ lit macro ∷ many space ∷ [])) ∷ word "(" ∷ [])

unfoldable find_macro : List Text → Text → Option (Text × ℕ)
find_macro [] line = none
find_macro (macro ∷ macros) line =
    let later = find_macro macros line in
    if contains macro line
    then elim (match (macro_pattern macro) line) [
      | some m ↦ some (macro, length (captured_text 1 m))
      | none ↦ later
    ]
    else later

unfoldable find_check_macro : Text → Option (Text × ℕ)
find_check_macro line = find_macro check_macros line

-- `_CHECK_REPLACEMENT`: `EQ` and the like for an operator, and for its negation.
unfoldable operator_name : Text → Text
operator_name op =
    if eq_text op (codes "==")
    then codes "EQ"
    else if eq_text op (codes "!=")
    then codes "NE"
    else if eq_text op (codes ">=")
    then codes "GE"
    else if eq_text op (codes ">")
    then codes "GT"
    else if eq_text op (codes "<=")
    then codes "LE"
    else codes "LT"

unfoldable negated_name : Text → Text
negated_name op =
    if eq_text op (codes "==")
    then codes "NE"
    else if eq_text op (codes "!=")
    then codes "EQ"
    else if eq_text op (codes ">=")
    then codes "LT"
    else if eq_text op (codes ">")
    then codes "LE"
    else if eq_text op (codes "<=")
    then codes "GT"
    else codes "GE"

unfoldable check_replacement : Text → Text → Text
check_replacement macro op =
    if eq_text macro (codes "EXPECT_FALSE")
    then codes "EXPECT_" ++ negated_name op
    else if eq_text macro (codes "ASSERT_FALSE")
    then codes "ASSERT_" ++ negated_name op
    else if eq_text macro (codes "EXPECT_TRUE")
    then codes "EXPECT_" ++ operator_name op
    else if eq_text macro (codes "ASSERT_TRUE")
    then codes "ASSERT_" ++ operator_name op
    else macro ++ (b'_' ∷ operator_name op)

-- The pattern of a token that is an operator, that of other text, and that of one character.
-- `^\s*(<<|<<=|>>|>>=|->\*|->|&&|\|\||==|!=|>=|>|<=|<|\()(.*)$`
unfoldable operator_pattern : Regex
unfolding seq choice word dot space
operator_pattern = seq (
    at_start
    ∷ many space
    ∷ group 1 (
        choice (
          word "<<"
          ∷ word "<<="
          ∷ word ">>"
          ∷ word ">>="
          ∷ word "->*"
          ∷ word "->"
          ∷ word "&&"
          ∷ word "||"
          ∷ word "=="
          ∷ word "!="
          ∷ word ">="
          ∷ word ">"
          ∷ word "<="
          ∷ word "<"
          ∷ word "("
          ∷ []))
    ∷ group 2 (many dot)
    ∷ at_end
    ∷ [])

-- `^([^-=!<>()&|]+)(.*)$`
unfoldable operand_pattern : Regex
unfolding seq some_of none_of dot
operand_pattern =
    seq (at_start ∷ group 1 (some_of (none_of "-=!<>()&|")) ∷ group 2 (many dot) ∷ at_end ∷ [])

-- `^(\s*\S)(.*)$`
unfoldable character_pattern : Regex
unfolding seq dot space non_space
character_pattern =
    seq (at_start ∷ group 1 (seq (many space ∷ non_space ∷ [])) ∷ group 2 (many dot) ∷ at_end ∷ [])

pub record Sides : Type 0 where
  pub lhs : Text
  pub operator : Text
  pub rhs : Text

-- What a round of the loop does: it ends with both sides, it returns from the function, or it goes
-- on with more of the left side and with the rest.
data Round : Type 0 where
  split_at : Text → Text → Round
  give_up : Round
  go_on : Text → Text → Round

abbrev paren_round : Text → Round
paren_round rest = elim (find_end_of_expression_in_line rest 0 (b'(' ∷ [])) [
  | at_position p ↦ go_on (b'(' ∷ take p rest) (drop p rest)
  | _ ↦ give_up
]

unfoldable operator_round : Text → Text → Round
operator_round token rest =
    if eq_text token (codes "(")
    then paren_round rest
    else if eq_text token (codes "&&") || eq_text token (codes "||")
    then give_up
    else if mem_text token
        (codes "<<" ∷ codes "<<=" ∷ codes ">>" ∷ codes ">>=" ∷ codes "->*" ∷ codes "->" ∷ [])
    then go_on token rest
    else split_at token rest

-- Without a match the loop ends and there is no operator, so that the function returns.
unfoldable operand_round : Text → Round
operand_round expression = elim (match operand_pattern expression) [
  | some m ↦ go_on (captured_text 1 m) (captured_text 2 m)
  | none ↦ elim (match character_pattern expression) [
    | some m ↦ go_on (captured_text 1 m) (captured_text 2 m)
    | none ↦ give_up
  ]
]

unfoldable expression_round : Text → Round
expression_round expression = elim (match operator_pattern expression) [
  | some m ↦ operator_round (captured_text 1 m) (captured_text 2 m)
  | none ↦ operand_round expression
]

-- The loop, which also ends where nothing is left. Each round takes a character at least, so the
-- length of the expression is fuel enough.
unfoldable split_expression : ℕ → Text → Text → Option Sides
split_expression fuel lhs [] = none
split_expression zero lhs (c ∷ s) = none
split_expression (suc fuel) lhs (c ∷ s) = elim (expression_round (c ∷ s)) [
  | split_at op rhs ↦ some (record { lhs = lhs; operator = op; rhs = rhs })
  | give_up ↦ none
  | go_on more rest ↦ split_expression fuel (lhs ++ more) rest
]

-- `^([-+]?(\d+|0[xX][0-9a-fA-F]+)[lLuU]{0,3}|".*"|\'.*\')$`
unfoldable constant_pattern : Regex
unfolding seq choice some_of word one_of dot digit is_digit
constant_pattern = seq (
    at_start
    ∷ group 1 (
        choice (
          seq (
            optional (one_of "-+")
            ∷ group 2 (
                choice (
                  some_of digit
                  ∷ seq (
                      word "0"
                      ∷ one_of "xX"
                      ∷ some_of
                          (char (λ c. is_digit c || between b'a' b'f' c || between b'A' b'F' c))
                      ∷ [])
                  ∷ []))
            ∷ seq (
                optional (
                  seq (
                    (one_of "lLuU")
                    ∷ optional (seq ((one_of "lLuU") ∷ optional ((one_of "lLuU")) ∷ []))
                    ∷ []))
                ∷ [])
            ∷ [])
          ∷ seq (word "\"" ∷ many dot ∷ word "\"" ∷ [])
          ∷ seq (word "'" ∷ many dot ∷ word "'" ∷ [])
          ∷ []))
    ∷ at_end
    ∷ [])

abbrev is_nil : Text → Bool
is_nil [] = true
is_nil _ = false

unfoldable is_replaceable : Sides → Bool
is_replaceable s =
    not (is_nil s.lhs)
    && not (is_nil s.rhs)
    && not (contains (codes "&&") s.rhs || contains (codes "||") s.rhs)
    && (matches constant_pattern (strip s.lhs) || matches constant_pattern (strip s.rhs))

unfoldable join_from : List Text → ℕ → ℕ → Text
join_from elided i zero = []
join_from elided i (suc rounds) = line_at elided i ++ join_from elided (suc i) rounds

-- The text in the parentheses of the macro.
unfoldable check_text : List Text → ℕ → ℕ → Place → ℕ → Text
check_text elided n start_pos place end_pos =
    if n == place.linenum
    then take (end_pos - 1 - (start_pos + 1)) (drop (start_pos + 1) (line_at elided n))
    else drop (start_pos + 1) (line_at elided n)
      ++ (join_from elided (n + 1) (place.linenum - (n + 1)) ++ take (end_pos - 1) place.line)

-- `\s*;`
unfoldable semicolon_pattern : Regex
unfolding seq word space
semicolon_pattern = seq (many space ∷ word ";" ∷ [])

unfoldable sides_reports : Text → ℕ → Text → Sides → List Report
sides_reports f n macro s = report_if (is_replaceable s) f n (codes "readability/check") 2 (
    codes "Consider using "
    ++ (check_replacement macro s.operator
        ++ (codes " instead of " ++ (macro ++ (codes "(a " ++ (s.operator ++ codes " b)"))))))

unfoldable macro_reports : Text → CleansedLines → ℕ → Text × ℕ → List Report
macro_reports f clean n (macro, start_pos) =
    let place = close_expression clean.elided n start_pos in
    on_match place.position (λ end_pos.
      let expression = check_text clean.elided n start_pos place end_pos in
      if matches semicolon_pattern (drop end_pos place.line)
      then on_match (split_expression (length expression) [] expression)
          (λ s. sides_reports f n macro s)
      else [])

pub check_check : Text → CleansedLines → ℕ → List Report
check_check f clean n =
    on_match (find_check_macro (line_at clean.elided n)) (λ m. macro_reports f clean n m)

-- `_ALT_TOKEN_REPLACEMENT`
unfoldable alt_token_replacement : Text → Text
alt_token_replacement token =
    if eq_text token (codes "and")
    then codes "&&"
    else if eq_text token (codes "bitor")
    then codes "|"
    else if eq_text token (codes "or")
    then codes "||"
    else if eq_text token (codes "xor")
    then codes "^"
    else if eq_text token (codes "compl")
    then codes "~"
    else if eq_text token (codes "bitand")
    then codes "&"
    else if eq_text token (codes "and_eq")
    then codes "&="
    else if eq_text token (codes "or_eq")
    then codes "|="
    else if eq_text token (codes "xor_eq")
    then codes "^="
    else if eq_text token (codes "not")
    then codes "!"
    else codes "!="

-- `[ =()](and|bitor|or|xor|compl|bitand|and_eq|or_eq|xor_eq|not|not_eq)(?=[ (]|$)`
unfoldable alt_token_pattern : Regex
unfolding seq choice word one_of
alt_token_pattern = seq (
    one_of " =()"
    ∷ group 1 (
        choice (
          word "and"
          ∷ word "bitor"
          ∷ word "or"
          ∷ word "xor"
          ∷ word "compl"
          ∷ word "bitand"
          ∷ word "and_eq"
          ∷ word "or_eq"
          ∷ word "xor_eq"
          ∷ word "not"
          ∷ word "not_eq"
          ∷ []))
    ∷ ahead (choice (one_of " (" ∷ at_end ∷ []))
    ∷ [])

-- `^\s*#`
unfoldable directive_pattern : Regex
unfolding seq word space
directive_pattern = seq (at_start ∷ many space ∷ word "#" ∷ [])

unfoldable alt_token_reports : Text → ℕ → List Cursor → List Report
alt_token_reports f n [] = []
alt_token_reports f n (m ∷ ms) =
    report f n (codes "readability/alt_tokens") 2 (
      codes "Use operator "
      ++ (alt_token_replacement (captured_text 1 m) ++ (codes " instead of " ++ captured_text 1 m)))
    ∷ alt_token_reports f n ms

pub check_alt_tokens : Text → CleansedLines → ℕ → List Report
check_alt_tokens f clean n =
    let line = line_at clean.elided n in
    if matches directive_pattern line || contains (codes "/*") line || contains (codes "*/") line
    then []
    else alt_token_reports f n (all_matches alt_token_pattern line)

sides_reports-Listed :
    (f : Text) (n : ℕ) (macro : Text) (s : Sides) → Listed f n (sides_reports f n macro s)
unfolding sides_reports
sides_reports-Listed f n macro s = search (listed) depth 12

macro_reports-Listed :
    (f : Text) (clean : CleansedLines) (n : ℕ) (m : Text × ℕ)
    → Listed f n (macro_reports f clean n m)
unfolding macro_reports
macro_reports-Listed f clean n (macro, start_pos) = search (listed, sides_reports-Listed)

alt_token_reports-Listed :
    (f : Text) (n : ℕ) (ms : List Cursor) → Listed f n (alt_token_reports f n ms)
unfolding alt_token_reports
alt_token_reports-Listed f n [] = none_left
alt_token_reports-Listed f n (m ∷ ms) =
    search (listed, Listed-more, alt_token_reports-Listed f n ms)

pub check_check-Listed :
    (f : Text) (clean : CleansedLines) (n : ℕ) → Listed f n (check_check f clean n)
unfolding check_check
check_check-Listed f clean n = search (listed, macro_reports-Listed)

pub check_alt_tokens-Listed :
    (f : Text) (clean : CleansedLines) (n : ℕ) → Listed f n (check_alt_tokens f clean n)
unfolding check_alt_tokens
check_alt_tokens-Listed f clean n = search (listed, alt_token_reports-Listed)
