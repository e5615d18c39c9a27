-- ===== src/Functions/Reports.antt =====
-- build_support/cpplint.py: what `CheckForFunctionLengths` hands to `error`.
use turtle.Common.{ℕ, ◌*◌, ◌^◌, true, not, ◌≡◌, List, [], ltb, leb, drop, arith}
use turtle.Common.Text.{Text, codes}
use turtle.Common.Slices.{line_at}
use turtle.Regex.{matches}
use turtle.Listed.{
  Listed, listed, none_left, Listed-report, Listed-if, Listed-if_second,
  readability_fn_size-IsCategory,
}
use turtle.Functions.{
  FunctionState, base_trigger, error_level, size_message, check, Body, declaration, opened, missing,
  start_function, starting_func, find_body, end_pattern, blank_pattern, count,
  check_for_function_lengths,
}

error_level-leb : (lines base : ℕ) → leb (error_level lines base) 5 ≡ true
unfolding error_level
error_level-leb lines base = ground arith

check-Listed :
    (verbose : ℕ) (f : Text) (n : ℕ) (s : FunctionState) → Listed f n (check verbose f n s)
unfolding check
check-Listed verbose f n s =
    let base = base_trigger s.current_function in
    let trigger = base * 2 ^ verbose in
    Listed-if (not s.in_a_function) _ _ none_left (
      Listed-if (ltb trigger s.lines_in_function) _ _
        (Listed-report (codes "readability/fn_size") (error_level s.lines_in_function base)
          (size_message s.current_function s.lines_in_function trigger)
          readability_fn_size-IsCategory (error_level-leb s.lines_in_function base))
        none_left)

start_function-Listed :
    (f : Text) (n : ℕ) (line : Text) (b : Body) (s : FunctionState)
    → Listed f n ((start_function f n line b s).1)
unfolding start_function
start_function-Listed f n line declaration s = none_left
start_function-Listed f n line (opened joined) s = none_left
start_function-Listed f n line missing s = search (listed)

pub check_for_function_lengths-Listed :
    (verbose : ℕ) (f : Text) (lines : List Text) (n : ℕ) (s : FunctionState)
    → Listed f n ((check_for_function_lengths verbose f lines n s).1)
unfolding check_for_function_lengths
check_for_function_lengths-Listed verbose f lines n s =
    let line = line_at lines n in
    Listed-if_second (starting_func line) _ _
      (start_function-Listed f n line (find_body [] (drop n lines)) s)
      (Listed-if_second (matches end_pattern line) _ _ (check-Listed verbose f n s) (
        Listed-if_second (not (matches blank_pattern line)) (count s, []) (s, []) none_left
          none_left))
