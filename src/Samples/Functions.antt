-- ===== src/Samples/Functions.antt =====
-- The function lengths of build_support/cpplint.py at concrete inputs.
use turtle.Common.{
  ◌≡◌, refl, false, List, ◌∷◌, ◌≢◌, ◌≤◌, ◌<◌, ◌↔◌, ◌*◌, ◌^◌, true, [], arith, All, pos,
}
use turtle.Common.Text.{Text, codes}
use turtle.Regex.{match, matches}
use turtle.Report.{Report}
use turtle.Functions.{
  FunctionState, base_trigger, check, begin, initial, starting_func, end_pattern,
  declaration_pattern,
}
use turtle.Functions.Size.{check_loud}
use turtle.Functions.Run.{run_lines, IsBody, IsEnd, non_blank, IsFunction, run_lines_iff}

abbrev long_function : FunctionState
long_function = record {
  in_a_function = true;
  lines_in_function = 1300;
  current_function = codes "Run()";
}

abbrev body_lines : List Text
body_lines = codes "  int a;" ∷ [] ∷ codes "}" ∷ []

body_lines-IsFunction : IsFunction body_lines 2 0
unfolding IsFunction IsBody IsEnd starting_func end_pattern codes match declaration_pattern matches
body_lines-IsFunction = ((refl, refl), ((refl, refl), (refl, refl)))

run_lines_iff_example :
    let (after, reports) =
      run_lines 1 (codes "a.cc") body_lines 3 0 (begin (codes "Run()") initial) in
    (after.in_a_function ≡ false)
    × ((reports ≢ []) ↔ (base_trigger (codes "Run()") * 2 ^ 1 < non_blank body_lines 2 0 0))
run_lines_iff_example =
    run_lines_iff 1 (codes "a.cc") body_lines 2 0 (codes "Run()") initial body_lines-IsFunction

check_loud_example :
    All
      (λ (r : Report).
        (r.filename ≡ codes "a.cc")
        × (r.linenum ≡ pos 40)
        × (1 ≤ r.confidence)
        × (r.confidence ≤ 5))
      (check 1 (codes "a.cc") 40 long_function)
check_loud_example = check_loud 1 (codes "a.cc") 40 long_function (omega arith)
