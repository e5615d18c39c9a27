-- ===== src/Functions/Run.antt =====
-- build_support/cpplint.py: `CheckForFunctionLengths` on the lines of one function's body.
use turtle.Common.{
  ℕ, zero, suc, ◌+◌, ◌*◌, ◌^◌, ◌<◌, ◌≡◌, ◌≢◌, refl, ◌↔◌, Bool, true, false, not, List, [], ◌++◌,
  if◌then◌else◌, append-nil,
}
use turtle.Common.Text.{Text}
use turtle.Common.Slices.{line_at}
use turtle.Regex.{matches}
use turtle.Report.{Report}
use turtle.Functions.{
  FunctionState, begin, count, end, base_trigger, check, starting_func, end_pattern, blank_pattern,
  check_for_function_lengths,
}
use turtle.Functions.Size.{check_reports}

-- The function on `rounds` lines from line `n` on, as the loop of `ProcessFileData` calls it.
pub run_lines : ℕ → Text → List Text → ℕ → ℕ → FunctionState → FunctionState × List Report
run_lines verbose f lines zero n s = (s, [])
run_lines verbose f lines (suc rounds) n s =
    let (s', reports) = check_for_function_lengths verbose f lines n s in
    let (s'', later) = run_lines verbose f lines rounds (suc n) s' in (s'', reports ++ later)

-- A line that neither starts nor ends a function.
unfoldable pub IsBody : Text → Type 0
IsBody line = (starting_func line ≡ false) × (matches end_pattern line ≡ false)

-- The line of the closing brace.
unfoldable pub IsEnd : Text → Type 0
IsEnd line = (starting_func line ≡ false) × (matches end_pattern line ≡ true)

-- `m`, and how many of `rounds` lines from line `n` on are not blank.
pub non_blank : List Text → ℕ → ℕ → ℕ → ℕ
non_blank lines zero n m = m
non_blank lines (suc rounds) n m =
    non_blank lines rounds (suc n) (if matches blank_pattern (line_at lines n) then m else m + 1)

-- `rounds` lines of a body from line `n` on, and the closing brace behind them.
unfoldable pub IsFunction : List Text → ℕ → ℕ → Type 0
IsFunction lines zero n = IsEnd (line_at lines n)
IsFunction lines (suc rounds) n = IsBody (line_at lines n) × IsFunction lines rounds (suc n)

abbrev counting : Text → ℕ → FunctionState
counting name m = record { in_a_function = true; lines_in_function = m; current_function = name }

count_if :
    (b : Bool) (name : Text) (m : ℕ)
    → ◌≡◌ {A = FunctionState × List Report}
        (if not b then (count (counting name m), []) else (counting name m, []))
        (counting name (if b then m else m + 1), [])
unfolding count
count_if true name m = refl
count_if false name m = refl

body_step :
    (verbose : ℕ) (f : Text) (lines : List Text) (n : ℕ) (name : Text) (m : ℕ)
    → IsBody (line_at lines n)
    → check_for_function_lengths verbose f lines n (counting name m)
      ≡ (counting name (if matches blank_pattern (line_at lines n) then m else m + 1), [])
unfolding check_for_function_lengths IsBody count
body_step verbose f lines n name m (h, e) =
    rw (h, e) (count_if (matches blank_pattern (line_at lines n)) name m)

end_step :
    (verbose : ℕ) (f : Text) (lines : List Text) (n : ℕ) (s : FunctionState)
    → IsEnd (line_at lines n)
    → check_for_function_lengths verbose f lines n s ≡ (end s, check verbose f n s)
unfolding check_for_function_lengths IsEnd
end_step verbose f lines n s (h, e) = rw (h, e) refl

abbrev last_line : ℕ → ℕ → ℕ
last_line zero n = n
last_line (suc rounds) n = last_line rounds (suc n)

-- The state and the reports behind the closing brace.
abbrev behind_brace : ℕ → Text → ℕ → FunctionState → FunctionState × List Report
behind_brace verbose f n s = (end s, check verbose f n s)

run_function :
    (verbose : ℕ) (f : Text) (lines : List Text) (rounds n : ℕ) (name : Text) (m : ℕ)
    → IsFunction lines rounds n
    → run_lines verbose f lines (suc rounds) n (counting name m)
      ≡ behind_brace verbose f (last_line rounds n) (counting name (non_blank lines rounds n m))
unfolding run_lines IsFunction non_blank
run_function verbose f lines zero n name m h =
    rw (end_step verbose f lines n (counting name m) h, append-nil) refl
run_function verbose f lines (suc rounds) n name m (h, hs) =
    rw (body_step verbose f lines n name m h)
      (run_function verbose f lines rounds (suc n) name _ hs)

-- Where `Begin` has been called, and lines of a body follow and then the line of the closing brace,
-- `CheckForFunctionLengths` makes a report on these lines exactly where the lines of the body that
-- are not blank are more than the base trigger of the function's name, doubled as many times as the
-- verbosity says, and afterwards no function is being counted.
pub run_lines_iff :
    (verbose : ℕ) (f : Text) (lines : List Text) (rounds n : ℕ) (name : Text) (s : FunctionState)
    → IsFunction lines rounds n
    → let (after, reports) = run_lines verbose f lines (suc rounds) n (begin name s) in
      (after.in_a_function ≡ false)
      × ((reports ≢ []) ↔ (base_trigger name * 2 ^ verbose < non_blank lines rounds n 0))
unfolding begin end
run_lines_iff verbose f lines rounds n name s h =
    let reports =
      check_reports verbose f (last_line rounds n) (counting name (non_blank lines rounds n 0)) in
    rw (run_function verbose f lines rounds n name 0 h)
      (refl, (λ r. (reports.0 r).1, λ l. reports.1 (refl, l)))
