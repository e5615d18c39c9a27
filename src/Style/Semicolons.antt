-- ===== src/Style/Semicolons.antt =====
-- build_support/cpplint.py: `CheckTrailingSemicolon`.
use turtle.Common.{
  ℕ, ◌-◌, ◌≤◌, ◌≡◌, Bool, false, not, ◌&&◌, ◌||◌, List, [], ◌∷◌, Option, none, some, ◌==◌, ltb,
  if◌then◌else◌, arith, length, take, drop,
}
use turtle.Common.Text.{Text, codes, mem_text, is_digit, is_upper, behind_last}
use turtle.Common.Slices.{line_at, line_before}
use turtle.Regex.{
  Regex, char, many, group, word_edge, at_start, at_end, Cursor, word, one_of, dot, space, some_of,
  choice, seq, match, matches, find_match, found, captured_text,
}
use turtle.Report.{Action, raise, parse_nolint, report}
use turtle.Listed.{
  on_match, listed, Listed-later, Raised-if, Raised-found, Raised, Raised-map, Raised-parse,
  no_action,
}
use turtle.Cleanse.{CleansedLines}
use turtle.Expression.{Place, close_expression}
use turtle.Expression.Bounds.{close_expression_linenum}
use turtle.Expression.Reverse.{reverse_close_expression}
use turtle.Style.Braces.{previous}

-- `^(.*\)\s*)\{`
unfoldable paren_brace_pattern : Regex
unfolding seq word dot space
paren_brace_pattern =
    seq (at_start ∷ group 1 (seq (many dot ∷ word ")" ∷ many space ∷ [])) ∷ word "{" ∷ [])

-- `\b([A-Z_][A-Z0-9_]*)\s*$`
unfoldable macro_pattern : Regex
unfolding seq space is_digit is_upper
macro_pattern = seq (
    word_edge
    ∷ group 1 (
        seq (
          char (λ c. is_upper c || c == b'_')
          ∷ many (char (λ c. is_upper c || is_digit c || c == b'_'))
          ∷ []))
    ∷ many space
    ∷ at_end
    ∷ [])

-- `^(.*\])\s*$`
unfoldable subscript_pattern : Regex
unfolding seq word dot space
subscript_pattern =
    seq (at_start ∷ group 1 (seq (many dot ∷ word "]" ∷ [])) ∷ many space ∷ at_end ∷ [])

-- `\boperator\s*\[\s*\]`
unfoldable operator_subscript_pattern : Regex
unfolding seq word space
operator_subscript_pattern =
    seq (word_edge ∷ word "operator" ∷ many space ∷ word "[" ∷ many space ∷ word "]" ∷ [])

-- `\b(?:struct|union)\s+alignas\s*$`
unfoldable alignas_pattern : Regex
unfolding seq choice some_of word space
alignas_pattern = seq (
    word_edge
    ∷ choice (word "struct" ∷ word "union" ∷ [])
    ∷ some_of space
    ∷ word "alignas"
    ∷ many space
    ∷ at_end
    ∷ [])

-- `\bdecltype$`
unfoldable decltype_pattern : Regex
unfolding seq word
decltype_pattern = seq (word_edge ∷ word "decltype" ∷ at_end ∷ [])

-- `\s+=\s*$`
unfoldable assignment_pattern : Regex
unfolding seq some_of word space
assignment_pattern = seq (some_of space ∷ word "=" ∷ many space ∷ at_end ∷ [])

-- `\]\s*$`
unfoldable lambda_line_pattern : Regex
unfolding seq word space
lambda_line_pattern = seq (word "]" ∷ many space ∷ at_end ∷ [])

-- `^(.*(?:else|\)\s*const)\s*)\{`
unfoldable else_brace_pattern : Regex
unfolding seq choice word dot space
else_brace_pattern = seq (
    at_start
    ∷ group 1 (
        seq (
          many dot
          ∷ choice (word "else" ∷ seq (word ")" ∷ many space ∷ word "const" ∷ []) ∷ [])
          ∷ many space
          ∷ []))
    ∷ word "{"
    ∷ [])

-- `[;{}]\s*$`
unfoldable statement_end_pattern : Regex
unfolding seq one_of space
statement_end_pattern = seq (one_of ";{}" ∷ many space ∷ at_end ∷ [])

-- `^(\s*)\{`
unfoldable open_brace_pattern : Regex
unfolding seq word space
open_brace_pattern = seq (at_start ∷ group 1 (many space) ∷ word "{" ∷ [])

-- `^\s*;`
unfoldable semicolon_pattern : Regex
unfolding seq word space
semicolon_pattern = seq (at_start ∷ many space ∷ word ";" ∷ [])

abbrev allowed_macros : List Text
allowed_macros =
    codes "TEST"
    ∷ codes "TEST_F"
    ∷ codes "MATCHER"
    ∷ codes "MATCHER_P"
    ∷ codes "TYPED_TEST"
    ∷ codes "EXCLUSIVE_LOCKS_REQUIRED"
    ∷ codes "SHARED_LOCKS_REQUIRED"
    ∷ codes "LOCKS_EXCLUDED"
    ∷ codes "INTERFACE_DEF"
    ∷ []

abbrev is_macro_call : Option Cursor → Bool
is_macro_call none = false
is_macro_call (some m) = not (mem_text (captured_text 1 m) allowed_macros)

abbrev is_lambda : Option Cursor → Bool
is_lambda none = false
is_lambda (some m) = not (found operator_subscript_pattern (captured_text 1 m))

-- What stands in front of the opening parenthesis says that the brace is no block.
unfoldable is_no_block : Text → Bool
is_no_block line_prefix =
    is_macro_call (find_match macro_pattern line_prefix)
    || is_lambda (match subscript_pattern line_prefix)
    || found alignas_pattern line_prefix
    || found decltype_pattern line_prefix
    || found assignment_pattern line_prefix

-- `line.rfind(')')`, where there is one.
abbrev last_paren : Text → ℕ
last_paren line = elim (behind_last b')' line) [ none ↦ 0 | some t ↦ length line - length t ]

abbrev prefix_excludes : Place → Bool
prefix_excludes opening = elim opening.position [
  | none ↦ false
  | some p ↦ is_no_block (take p opening.line)
]

-- The column of the brace behind a parenthesis, if the brace may open a block.
unfoldable paren_brace : CleansedLines → ℕ → Cursor → Option ℕ
paren_brace clean n m =
    let front = captured_text 1 m in
    let opening = reverse_close_expression clean.elided n (last_paren front) in
    if prefix_excludes opening
      || (ltb 1 opening.linenum
          && found lambda_line_pattern (line_at clean.elided (opening.linenum - 1)))
    then none
    else some (length front)

unfoldable other_brace : CleansedLines → ℕ → Text → Option ℕ
other_brace clean n line = elim (match else_brace_pattern line) [
  | some m ↦ some (length (captured_text 1 m))
  | none ↦
      if found statement_end_pattern (previous clean n)
      then elim (match open_brace_pattern line) [
        | some m ↦ some (length (captured_text 1 m))
        | none ↦ none
      ]
      else none
]

-- The column of the brace that is checked.
unfoldable block_brace : CleansedLines → ℕ → Option ℕ
block_brace clean n =
    let line = line_at clean.elided n in
    elim (match paren_brace_pattern line) [
      | some m ↦ paren_brace clean n m
      | none ↦ other_brace clean n line
    ]

-- The comments of the line with the closing brace and of the line in front are read first, as this
-- line may lie ahead of the one that is processed.
unfoldable semicolon_actions : Text → CleansedLines → Place → List Action
semicolon_actions f clean place = on_match place.position (λ p.
    if matches semicolon_pattern (drop p place.line)
    then parse_nolint (line_before clean.raw_lines place.linenum) (place.linenum - 1)
      ∷ parse_nolint (line_at clean.raw_lines place.linenum) place.linenum
      ∷ raise (
          report f place.linenum (codes "readability/braces") 4
            (codes "You don't need a ; after a }"))
      ∷ []
    else [])

pub check_trailing_semicolon : Text → CleansedLines → ℕ → List Action
check_trailing_semicolon f clean n =
    on_match (block_brace clean n)
      (λ p. semicolon_actions f clean (close_expression clean.elided n p))

semicolon_actions-Raised :
    (f : Text) (clean : CleansedLines) (n : ℕ) (place : Place)
    → ((p : ℕ) → place.position ≡ some p → n ≤ place.linenum)
    → Raised f n (semicolon_actions f clean place)
unfolding semicolon_actions
semicolon_actions-Raised f clean n place e = Raised-found place.position _ (λ p h.
    Raised-if _ _ _
      (Raised-parse _ _ (omega (arith, e p h)) (
        Raised-parse _ _ (omega (arith, e p h))
          (Raised-map _ (Listed-later {n = place.linenum} (_ ∷ []) (e p h) (search listed)))))
      no_action)

pub check_trailing_semicolon-Raised :
    (f : Text) (clean : CleansedLines) (n : ℕ) → Raised f n (check_trailing_semicolon f clean n)
unfolding check_trailing_semicolon
check_trailing_semicolon-Raised f clean n = Raised-found _ _ (λ i h.
    semicolon_actions-Raised f clean n _ (λ p g. close_expression_linenum clean.elided n i p g))
