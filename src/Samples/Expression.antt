-- ===== src/Samples/Expression.antt =====
-- The bracket searches of build_support/cpplint.py at concrete inputs.
use turtle.Common.{◌≡◌, ◌<◌, ◌≤◌, refl, true, [], ◌∷◌, ◌++◌, some, ◌-◌, length, get_or}
use turtle.Common.Text.{Text, codes}
use turtle.Regex.{found, find_match}
use turtle.Expression.Grammar.{is_inert, Nested, nil, plain, wrap, inert-plain}
use turtle.Expression.Nested.{close_expression-Nested}
use turtle.Expression.Bounds.{is_closer, find_end_of_expression_in_line_bounds}
use turtle.Expression.Reverse.{reverse_close_expression}
use turtle.Expression.RoundTrip.{close-reverse_close}
use turtle.Expression.{
  close_expression, find_end_of_expression_in_line, at_position, scan_end, end_turn, after_operator,
  operator_pattern,
}

-- `a[0]{}`
abbrev inside : Text
inside = b'a' ∷ b'[' ∷ b'0' ∷ b']' ∷ b'{' ∷ b'}' ∷ []

abbrev inside-Nested : Nested is_inert inside
inside-Nested =
    plain b'a' refl (wrap b'[' b']' refl (plain b'0' refl nil) (wrap b'{' b'}' refl nil nil))

-- `f(a[0]{});`
abbrev call : Text
call = b'f' ∷ b'(' ∷ (inside ++ b')' ∷ b';' ∷ [])

abbrev brace : Text
brace = b'}' ∷ []

close-reverse_close_example :
    (close_expression (brace ∷ call ∷ brace ∷ []) 1 1
      ≡ record { line = call; linenum = 1; position = some 9 })
    × (reverse_close_expression (brace ∷ call ∷ brace ∷ []) 1 8
        ≡ record { line = call; linenum = 1; position = some 1 })
close-reverse_close_example =
    close-reverse_close inside-Nested (brace ∷ []) (brace ∷ []) (b'f' ∷ []) b'(' b')' (b';' ∷ [])
      refl

close_expression-Nested_example :
    close_expression (brace ∷ call ∷ brace ∷ []) 1 1
    ≡ record { line = call; linenum = 1; position = some 9 }
close_expression-Nested_example =
    close_expression-Nested (inert-plain inside-Nested) (brace ∷ []) (brace ∷ []) (b'f' ∷ []) b'('
      b')' (b';' ∷ []) refl

call_closes : find_end_of_expression_in_line call 1 [] ≡ at_position 9
unfolding find_end_of_expression_in_line scan_end end_turn
call_closes = refl

find_end_of_expression_in_line_bounds_example :
    (1 < 9) × (9 ≤ length call) × (is_closer (get_or call (9 - 1) 0) ≡ true)
find_end_of_expression_in_line_bounds_example =
    find_end_of_expression_in_line_bounds call 1 9 [] call_closes

-- A template argument list, a shift and an arrow.
template_runs :
    find_end_of_expression_in_line (codes "vector<pair<int, int>> x") 6 [] ≡ at_position 22
unfolding find_end_of_expression_in_line scan_end end_turn after_operator operator_pattern found
    find_match codes
template_runs = refl
