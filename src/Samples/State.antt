-- ===== src/Samples/State.antt =====
-- Options, suppressions and errors of build_support/cpplint.py at concrete inputs.
use turtle.State.Items.{Printed, print_error_counts_lem}
use turtle.Common.{
  ◌≡◌, ◌≢◌, refl, ◌+◌, ◌&&◌, true, false, not, List, [], ◌∷◌, none, some, pos, arith, leb,
}
use turtle.Common.Text.{Text, codes, starts_with, ends_with, mem_text}
use turtle.Common.Slices.{inner}
use turtle.Regex.{find_match, captured}
use turtle.Report.{Report, report, decimal, decimal_int}
use turtle.State.{
  LintState, initial, has_sign, default_filters, detailed, increment_error_count, bump,
}
use turtle.State.Filters.{Signed}
use turtle.Suppress.{
  Suppressions, parse_nolint_suppressions, nolint_match, nolint_category, nolint_pattern,
  error_categories, is_error_suppressed, has_line, add_line,
}
use turtle.Suppress.Abstract.{
  Operation, parse_line, process_file, reset, view, operate_all, abstract_operate_all,
  view-operate_all,
}
use turtle.Suppress.Laws.{Extends, nolint_line, parse_nolint-Extends}
use turtle.Emit.{covers, should_print_error, errors, error, print_report, is_filtered}
use turtle.Emit.Decision.{
  should_print_error_total, should_print_error_last, should_print_error_uncovered,
}
use turtle.Emit.Counts.{errors_counted, printed, printed_under, tally}

abbrev no_suppressions : Suppressions
no_suppressions = record { lines = []; everywhere = [] }

abbrev strict : LintState
strict = record initial { verbose_level = 3; counting = detailed }

abbrev braces : Text
braces = codes "whitespace/braces"

-- The filters of a run, in which the last one takes back part of the first.
abbrev filtered : LintState
filtered = record strict {
  filters = codes "-whitespace" ∷ codes "+whitespace/braces" ∷ codes "-build" ∷ [];
}

filtered-Signed : Signed filtered.filters
unfolding has_sign codes
filtered-Signed = (refl, (refl, (refl, tt)))

should_print_error_total_example :
    should_print_error filtered no_suppressions braces 4 (pos 7) ≢ none
should_print_error_total_example =
    should_print_error_total filtered no_suppressions braces 4 (pos 7) filtered-Signed

braces_covered : covers (codes "+whitespace/braces") braces ≡ true
unfolding covers codes starts_with
braces_covered = refl

build_not_covering : covers (codes "-build") braces ≡ false
unfolding covers codes starts_with
build_not_covering = refl

not_suppressed : is_error_suppressed braces (pos 7) no_suppressions ≡ false
unfolding is_error_suppressed mem_text has_line
not_suppressed = refl

should_print_error_last_example :
    should_print_error filtered no_suppressions braces 4 (pos 7)
    ≡ some (not (starts_with (codes "-") (codes "+whitespace/braces")))
should_print_error_last_example =
    should_print_error_last filtered no_suppressions braces 4 (pos 7) (codes "-whitespace" ∷ [])
      (codes "+whitespace/braces") (codes "-build" ∷ []) refl filtered-Signed braces_covered
      (build_not_covering, tt) not_suppressed (omega arith)

abbrev only_build : LintState
only_build = record strict { filters = codes "-build" ∷ [] }

only_build-Signed : Signed only_build.filters
unfolding has_sign codes
only_build-Signed = (refl, tt)

should_print_error_uncovered_example :
    should_print_error only_build no_suppressions braces 4 (pos 7)
    ≡ some (not (is_error_suppressed braces (pos 7) no_suppressions) && leb 3 4)
should_print_error_uncovered_example =
    should_print_error_uncovered only_build no_suppressions braces 4 (pos 7) only_build-Signed
      (build_not_covering, tt)

abbrev nolint_text : Text
nolint_text = codes "f();  // NOLINTNEXTLINE(whitespace/braces)"

parse_nolint-Extends_example :
    Extends
      (nolint_line (find_match nolint_pattern nolint_text) 7)
      no_suppressions
      (parse_nolint_suppressions (codes "a.cc") nolint_text 7 no_suppressions).0
parse_nolint-Extends_example = parse_nolint-Extends (codes "a.cc") nolint_text 7 no_suppressions

-- The comment on line 7 suppresses the category on line 8.
nolint_runs :
    parse_nolint_suppressions (codes "a.cc") nolint_text 7 no_suppressions
    ≡ (record { lines = (some braces, 8 ∷ []) ∷ []; everywhere = [] }, [])
unfolding parse_nolint_suppressions nolint_match nolint_category nolint_pattern find_match codes
    starts_with ends_with mem_text error_categories inner captured add_line
nolint_runs = refl

abbrev file_lines : List Text
file_lines = codes "// vim: sw=4 filetype=c" ∷ codes "int x;" ∷ []

abbrev two_reports : List Report
two_reports =
    report (codes "a.cc") 7 braces 4 (codes "m")
    ∷ report (codes "a.cc") 9 (codes "build/class") 1 (codes "n")
    ∷ []

abbrev after_reports : LintState
after_reports = record strict {
  error_count = 1;
  errors_by_category = (braces, 1) ∷ [];
  stderr = codes "a.cc:7:  m  [whitespace/braces] [4]\n" ∷ [];
}

-- Of the two reports one reaches the verbosity.
errors_run : errors no_suppressions two_reports strict ≡ some after_reports
unfolding errors error should_print_error is_error_suppressed has_line mem_text is_filtered initial
    default_filters print_report increment_error_count codes starts_with decimal decimal_int covers
    bump
errors_run = refl

errors_counted_example :
    (after_reports.error_count ≡ strict.error_count + printed strict no_suppressions two_reports)
    × (tally braces after_reports.errors_by_category
        ≡ tally braces strict.errors_by_category
          + printed_under braces strict no_suppressions two_reports)
errors_counted_example =
    errors_counted no_suppressions two_reports braces strict after_reports errors_run

abbrev counted_twice : LintState
counted_twice = record initial {
  error_count = 3;
  errors_by_category = (codes "whitespace", 2) ∷ (codes "build", 1) ∷ [];
}

print_error_counts_lem_example : Printed counted_twice
unfolding initial
print_error_counts_lem_example = print_error_counts_lem counted_twice refl

abbrev nolint_operations : List Operation
nolint_operations =
    parse_line (codes "int x;  // NOLINT(whitespace/braces)") 7
    ∷ reset
    ∷ process_file (codes "// LINT_KERNEL_FILE" ∷ [])
    ∷ parse_line (codes "// NOLINTNEXTLINE") 8
    ∷ []

view-operate_all_example :
    view (operate_all (codes "a.cc") nolint_operations no_suppressions) braces (pos 9)
    ≡ abstract_operate_all nolint_operations (view no_suppressions) braces (pos 9)
view-operate_all_example =
    view-operate_all (codes "a.cc") nolint_operations no_suppressions braces (pos 9)
