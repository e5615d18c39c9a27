-- ===== src/Emit/Decision.antt =====
-- build_support/cpplint.py: which errors `_ShouldPrintError` lets through.
use turtle.Common.{
  ℕ, ◌≤◌, ◌&&◌, leb, ◌≡◌, ◌≢◌, refl, Bool, true, false, not, List, [], ◌∷◌, ◌++◌, none, some, arith,
  All, ℤ,
}
use mathlib.Core.Path.{subst}
use turtle.Common.Text.{Text, starts_with, codes}
use turtle.State.{LintState, has_sign}
use turtle.State.Filters.{Signed}
use turtle.Suppress.{Suppressions, is_error_suppressed}
use turtle.Emit.{covers, is_filtered, should_print_error}

is_filtered-append :
    (xs ys : List Text) (c : Text) (b : Bool)
    → is_filtered (xs ++ ys) c b
      ≡ elim (is_filtered xs c b) [ none ↦ none | some b' ↦ is_filtered ys c b' ]
unfolding is_filtered
is_filtered-append [] ys c b = refl
is_filtered-append (x ∷ xs) ys c b = ground (
  arith,
  is_filtered-append xs ys c true,
  is_filtered-append xs ys c false,
  is_filtered-append xs ys c b,
)

-- With signs on all filters the assertion of the loop does not fail.
is_filtered-Signed : (fs : List Text) (c : Text) (b : Bool) → Signed fs → is_filtered fs c b ≢ none
unfolding is_filtered has_sign
is_filtered-Signed [] c b h = λ e. cc
is_filtered-Signed (f ∷ fs) c b h =
    ground (
      arith,
      is_filtered-Signed fs c true,
      is_filtered-Signed fs c false,
      is_filtered-Signed fs c b,
    )

-- Filters that do not cover the category change nothing.
is_filtered_none :
    (fs : List Text) (c : Text) (b : Bool)
    → Signed fs
    → All (λ f. covers f c ≡ false) fs
    → is_filtered fs c b ≡ some b
unfolding is_filtered has_sign
is_filtered_none [] c b s h = refl
is_filtered_none (f ∷ fs) c b s h = ground (arith, is_filtered_none fs c b)

-- The last filter that covers the category decides, by its sign.
is_filtered_last :
    (xs : List Text) (f : Text) (ys : List Text) (c : Text) (b : Bool)
    → Signed (xs ++ f ∷ ys)
    → covers f c ≡ true
    → All (λ g. covers g c ≡ false) ys
    → is_filtered (xs ++ f ∷ ys) c b ≡ some (starts_with (codes "-") f)
unfolding is_filtered has_sign
is_filtered_last [] f ys c b s h rest =
    ground (arith, is_filtered_none ys c true s.1 rest, is_filtered_none ys c false s.1 rest)
is_filtered_last (x ∷ xs) f ys c b s h rest = ground (
  arith,
  is_filtered_last xs f ys c true s.1 h rest,
  is_filtered_last xs f ys c false s.1 h rest,
  is_filtered_last xs f ys c b s.1 h rest,
)

-- Where every filter has a sign, `_ShouldPrintError` does not fail its assertion, whatever error
-- it is asked about.
pub should_print_error_total :
    (s : LintState) (t : Suppressions) (c : Text) (confidence : ℕ) (n : ℤ)
    → Signed s.filters
    → should_print_error s t c confidence n ≢ none
unfolding should_print_error
should_print_error_total s t c confidence n signed =
    ground (arith, is_filtered-Signed s.filters c false signed)

-- Where every filter has a sign, the last filter that covers the category of an error decides: an
-- error that is not suppressed and whose confidence reaches the verbosity is printed unless that
-- filter begins with -.
pub should_print_error_last :
    (s : LintState) (t : Suppressions) (c : Text) (confidence : ℕ) (n : ℤ)
    → (xs : List Text) (f : Text) (ys : List Text) → s.filters ≡ xs ++ f ∷ ys
    → Signed s.filters
    → covers f c ≡ true
    → All (λ g. covers g c ≡ false) ys
    → is_error_suppressed c n t ≡ false
    → s.verbose_level ≤ confidence
    → should_print_error s t c confidence n ≡ some (not (starts_with (codes "-") f))
unfolding should_print_error
should_print_error_last s t c confidence n xs f ys e signed h rest out loud =
    let d = is_filtered_last xs f ys c false (subst Signed e signed) h rest in
    rw (out, e, d) (ground arith)

-- Where every filter has a sign, an error that no filter covers is printed just when it is not
-- suppressed and reaches the verbosity.
pub should_print_error_uncovered :
    (s : LintState) (t : Suppressions) (c : Text) (confidence : ℕ) (n : ℤ)
    → Signed s.filters
    → All (λ f. covers f c ≡ false) s.filters
    → should_print_error s t c confidence n
      ≡ some (not (is_error_suppressed c n t) && leb s.verbose_level confidence)
unfolding should_print_error
should_print_error_uncovered s t c confidence n signed none_covers =
    ground (arith, is_filtered_none s.filters c false signed none_covers)
