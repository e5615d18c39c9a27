-- ===== src/Emit.antt =====
-- build_support/cpplint.py: `_ShouldPrintError` and `Error`.
pub mod Decision
pub mod Counts
use turtle.Common.{
  ℕ, ◌+◌, Bool, true, false, not, ◌&&◌, ◌||◌, List, [], ◌∷◌, ◌++◌, Option, none, some,
  if◌then◌else◌, ltb, ℤ,
}
use turtle.Common.Text.{Text, codes, starts_with, strip_prefix}
use turtle.Report.{Report, decimal, decimal_int}
use turtle.State.{
  LintState, emacs, eclipse, vs7, junit, Format, print_error, add_junit_failure,
  increment_error_count,
}
use turtle.Suppress.{Suppressions, is_error_suppressed}

-- `category.startswith(one_filter[1:])`
unfoldable pub covers : Text → Text → Bool
covers [] c = true
covers (_ ∷ p) c = starts_with p c

-- The loop over the filters; `none` is its failed assertion.
unfoldable pub is_filtered : List Text → Text → Bool → Option Bool
unfolding covers codes
is_filtered [] c filtered = some filtered
is_filtered (f ∷ fs) c filtered =
    if starts_with (codes "-") f
    then is_filtered fs c (if covers f c then true else filtered)
    else if starts_with (codes "+") f
    then is_filtered fs c (if covers f c then false else filtered)
    else none

abbrev negated : Option Bool → Option Bool
negated none = none
negated (some b) = some (not b)

unfoldable pub should_print_error : LintState → Suppressions → Text → ℕ → ℤ → Option Bool
should_print_error s t category confidence linenum =
    if is_error_suppressed category linenum t
    then some false
    else if ltb confidence s.verbose_level
    then some false
    else negated (is_filtered s.filters category false)

-- The text that each format prints, and where.
unfoldable pub print_report : Format → Report → LintState → LintState
unfolding print_error add_junit_failure
print_report vs7 r s =
    print_error
      (r.filename
        ++ (codes "("
            ++ (decimal_int r.linenum
                ++ (codes "): error cpplint: ["
                    ++ (r.category
                        ++ (codes "] "
                            ++ (r.message
                                ++ (codes " [" ++ (decimal r.confidence ++ codes "]\n")))))))))
      s
print_report eclipse r s = record s {
  stderr =
      s.stderr
      ++ (r.filename
          ++ (codes ":"
              ++ (decimal_int r.linenum
                  ++ (codes ": warning: "
                      ++ (r.message
                          ++ (codes "  ["
                              ++ (r.category
                                  ++ (codes "] [" ++ (decimal r.confidence ++ codes "]\n")))))))))
        ∷ [];
}
print_report junit r s =
    add_junit_failure
      (record {
        filename = r.filename;
        linenum = r.linenum;
        message = r.message;
        category = r.category;
        confidence = r.confidence;
      })
      s
print_report emacs r s = record s {
  stderr =
      s.stderr
      ++ (r.filename
          ++ (codes ":"
              ++ (decimal_int r.linenum
                  ++ (codes ":  "
                      ++ (r.message
                          ++ (codes "  ["
                              ++ (r.category
                                  ++ (codes "] [" ++ (decimal r.confidence ++ codes "]\n")))))))))
        ∷ [];
}

abbrev pub emit_if : Option Bool → Report → LintState → Option LintState
emit_if none r s = none
emit_if (some false) r s = some s
emit_if (some true) r s = some (print_report s.output_format r (increment_error_count r.category s))

-- `none` is the assertion of `_ShouldPrintError`.
unfoldable pub error : Suppressions → Report → LintState → Option LintState
error t r s = emit_if (should_print_error s t r.category r.confidence r.linenum) r s

-- The reports of a check, in order.
unfoldable pub errors : Suppressions → List Report → LintState → Option LintState
errors t [] s = some s
errors t (r ∷ rs) s = elim (error t r s) [ none ↦ none | some s' ↦ errors t rs s' ]
