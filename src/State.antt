-- ===== src/State.antt =====
-- build_support/cpplint.py, class `_CppLintState`: the options and counters of a run. The two
-- fields `stdout` and `stderr` stand for what has been written to these streams.
pub mod Filters
pub mod Items
use turtle.Common.{
  ℕ, zero, suc, ◌+◌, Bool, true, false, not, ◌&&◌, ◌||◌, List, [], ◌∷◌, ◌++◌, Option, none, some, ℤ,
  if◌then◌else◌, ltb,
}
use turtle.Common.Text.{Text, codes, eq_text, gt_text, starts_with, strip, split}
use turtle.Report.{decimal}

pub data Counting : Type 0 where
  total toplevel detailed : Counting

pub data Format : Type 0 where
  emacs eclipse vs7 junit : Format

-- A tuple of `_junit_failures`.
pub record Failure : Type 0 where
  pub filename : Text
  pub linenum : ℤ
  pub message : Text
  pub category : Text
  pub confidence : ℕ

pub record LintState : Type 0 where
  pub verbose_level : ℕ
  pub error_count : ℕ
  pub filters : List Text
  pub filters_backup : List Text
  pub counting : Counting
  pub errors_by_category : List (Text × ℕ)
  pub quiet : Bool
  pub output_format : Format
  pub junit_errors : List Text
  pub junit_failures : List Failure
  pub stdout : List Text
  pub stderr : List Text

unfoldable pub default_filters : List Text
unfolding codes
default_filters = codes "-build/include_alpha" ∷ []

unfoldable pub initial : LintState
initial = record {
  verbose_level = 1;
  error_count = 0;
  filters = default_filters;
  filters_backup = default_filters;
  counting = total;
  errors_by_category = [];
  quiet = false;
  output_format = emacs;
  junit_errors = [];
  junit_failures = [];
  stdout = [];
  stderr = [];
}

unfoldable set_output_format : Format → LintState → LintState
set_output_format f s = record s { output_format = f }

-- The setters that return what was there before.
unfoldable set_quiet : Bool → LintState → LintState × Bool
set_quiet b s = (record s { quiet = b }, s.quiet)

unfoldable set_verbose_level : ℕ → LintState → LintState × ℕ
set_verbose_level n s = (record s { verbose_level = n }, s.verbose_level)

unfoldable set_counting_style : Counting → LintState → LintState
set_counting_style c s = record s { counting = c }

unfoldable pub has_sign : Text → Bool
unfolding starts_with
has_sign f = starts_with (b'+' ∷ []) f || starts_with (b'-' ∷ []) f

abbrev is_empty : Text → Bool
is_empty [] = true
is_empty _ = false

-- The pieces of the option that are not blank, stripped.
pub clean_filters : List Text → List Text
clean_filters [] = []
clean_filters (f ∷ fs) = if is_empty (strip f) then clean_filters fs else strip f ∷ clean_filters fs

-- The filter that the ValueError names, if there is one.
pub unsigned : List Text → Option Text
unfolding has_sign
unsigned [] = none
unsigned (f ∷ fs) = if not (has_sign f) then some f else unsigned fs

-- The second part is the ValueError; the filters have been added all the same.
add_filters : Text → LintState → LintState × Option Text
unfolding clean_filters unsigned
add_filters opt s =
    let s' : LintState = record s { filters = s.filters ++ clean_filters (split b',' opt) } in
    (s', unsigned s'.filters)

pub set_filters : Text → LintState → LintState × Option Text
unfolding add_filters
set_filters opt s = add_filters opt (record s { filters = default_filters })

unfoldable backup_filters : LintState → LintState
backup_filters s = record s { filters_backup = s.filters }

unfoldable restore_filters : LintState → LintState
restore_filters s = record s { filters = s.filters_backup }

unfoldable reset_error_counts : LintState → LintState
reset_error_counts s = record s { error_count = 0; errors_by_category = [] }

-- `errors_by_category[category] += 1`, from 0 where the key is new.
unfoldable pub bump : Text → List (Text × ℕ) → List (Text × ℕ)
unfolding eq_text
bump c [] = (c, 1) ∷ []
bump c ((d, n) ∷ m) = if eq_text d c then (d, n + 1) ∷ m else (d, n) ∷ bump c m

abbrev head_or_nil : List Text → Text
head_or_nil [] = []
head_or_nil (t ∷ _) = t

-- The key under which an error is counted, if any.
pub count_key : Counting → Text → Option Text
count_key total c = none
count_key toplevel c = some (head_or_nil (split b'/' c))
count_key detailed c = some c

abbrev pub bump_key : Option Text → List (Text × ℕ) → List (Text × ℕ)
bump_key none m = m
bump_key (some c) m = bump c m

unfoldable pub increment_error_count : Text → LintState → LintState
unfolding count_key
increment_error_count c s = record s {
  error_count = s.error_count + 1;
  errors_by_category = bump_key (count_key s.counting c) s.errors_by_category;
}

abbrev pub is_junit : Format → Bool
is_junit junit = true
is_junit _ = false

-- The module's `_quiet` is never assigned, so the option `--quiet` does not reach this test.
print_info : Text → LintState → LintState
print_info m s =
    if not (is_junit s.output_format) then record s { stdout = s.stdout ++ m ∷ [] } else s

unfoldable pub print_error : Text → LintState → LintState
print_error m s =
    if is_junit s.output_format
    then record s { junit_errors = s.junit_errors ++ m ∷ [] }
    else record s { stderr = s.stderr ++ m ∷ [] }

unfoldable pub add_junit_failure : Failure → LintState → LintState
add_junit_failure f s = record s { junit_failures = s.junit_failures ++ f ∷ [] }

-- `sorted` of the items: by category, which no two items share.
insert_sorted : Text × ℕ → List (Text × ℕ) → List (Text × ℕ)
insert_sorted e [] = e ∷ []
insert_sorted e (d ∷ m) = if gt_text e.0 d.0 then d ∷ insert_sorted e m else e ∷ d ∷ m

sort_items : List (Text × ℕ) → List (Text × ℕ)
unfolding insert_sorted gt_text
sort_items [] = []
sort_items (e ∷ m) = insert_sorted e (sort_items m)

print_items : List (Text × ℕ) → LintState → LintState
unfolding print_info codes decimal
print_items [] s = s
print_items ((c, n) ∷ m) s = print_items m (
    print_info (codes "Category '" ++ (c ++ (codes "' errors found: " ++ (decimal n ++ (10 ∷ [])))))
      s)

unfoldable print_error_counts : LintState → LintState
unfolding print_items sort_items print_info codes decimal
print_error_counts s =
    let s' = print_items (sort_items s.errors_by_category) s in
    if ltb 0 s'.error_count
    then print_info (codes "Total errors found: " ++ (decimal s'.error_count ++ (10 ∷ []))) s'
    else s'
