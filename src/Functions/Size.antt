-- ===== src/Functions/Size.antt =====
-- build_support/cpplint.py: what `Check` of `_FunctionState` reports on the lines counted.
use turtle.Common.{ℕ, zero, suc, ◌*◌, ◌^◌, ◌≤◌, ◌<◌, ◌≡◌, ◌≢◌, ◌↔◌, true, [], arith, All, pos}
use turtle.Common.Text.{Text}
use turtle.Report.{Report}
use turtle.Functions.{FunctionState, base_trigger, error_level, check}

error_level-le : (lines base : ℕ) → error_level lines base ≤ 5
unfolding error_level
error_level-le lines base = ground arith

base_trigger_pos : (name : Text) → 0 < base_trigger name
unfolding base_trigger
base_trigger_pos name = ground arith

pub check_reports :
    (verbose : ℕ) (f : Text) (n : ℕ) (s : FunctionState)
    → (check verbose f n s ≢ []) ↔ (
        (s.in_a_function ≡ true)
        × (base_trigger s.current_function * 2 ^ verbose < s.lines_in_function))
unfolding check
check_reports verbose f n s = ground arith

level_reached :
    (verbose lines base : ℕ)
    → 0 < base
    → verbose ≤ 5
    → base * 2 ^ verbose < lines
    → verbose ≤ error_level lines base
unfolding error_level
level_reached zero lines base b v h = omega arith
level_reached (suc zero) lines base b v h = ground arith
level_reached (suc (suc zero)) lines base b v h = ground arith
level_reached (suc (suc (suc zero))) lines base b v h = ground arith
level_reached (suc (suc (suc (suc zero)))) lines base b v h = ground arith
level_reached (suc (suc (suc (suc (suc zero))))) lines base b v h = ground arith
level_reached (suc (suc (suc (suc (suc (suc n)))))) lines base b v h = absurd (omega arith)

-- Where the verbosity is 5 or less, whatever is reported names the file and the line that were
-- given, and its confidence reaches the verbosity and is 5 at most, so that the trigger and the
-- test of `_ShouldPrintError` agree.
pub check_loud :
    (verbose : ℕ) (f : Text) (n : ℕ) (s : FunctionState)
    → verbose ≤ 5
    → All
        (λ (r : Report).
          (r.filename ≡ f) × (r.linenum ≡ pos n) × (verbose ≤ r.confidence) × (r.confidence ≤ 5))
        (check verbose f n s)
unfolding check
check_loud verbose f n s v = ground (
  arith,
  level_reached verbose s.lines_in_function (base_trigger s.current_function)
      (base_trigger_pos s.current_function) v,
  error_level-le s.lines_in_function (base_trigger s.current_function),
)
