-- ===== src/Emit/Counts.antt =====
-- build_support/cpplint.py: what `Error` adds to the counters.
use turtle.Common.{
  ℕ, ◌+◌, ◌≡◌, refl, ◌∙◌, ap, Bool, true, false, List, [], ◌∷◌, Option, none, some, arith,
  if◌then◌else◌, inl, inr, Option-cases, some_injective,
}
use mathlib.Core.Path.{subst}
use turtle.Common.Text.{Text, eq_text, eq_text_iff}
use turtle.Report.{Report}
use turtle.State.{
  LintState, Format, emacs, eclipse, vs7, junit, bump, bump_key, count_key, increment_error_count,
}
use turtle.Suppress.{Suppressions}
use turtle.Emit.{should_print_error, print_report, emit_if, error, errors}

-- The number under a key of `errors_by_category`, 0 where it is missing.
abbrev pub tally : Text → List (Text × ℕ) → ℕ
tally k [] = 0
tally k ((c, n) ∷ m) = if eq_text c k then n else tally k m

abbrev keyed : Text → Option Text → ℕ
keyed k none = 0
keyed k (some c) = if eq_text c k then 1 else 0

tally-bump :
    (k c : Text) (m : List (Text × ℕ))
    → tally k (bump c m) ≡ tally k m + (if eq_text c k then 1 else 0)
unfolding bump
tally-bump k c [] = ground arith
tally-bump k c ((d, n) ∷ m) =
    ground (arith, eq_text_iff d c, eq_text_iff d k, eq_text_iff c k, tally-bump k c m)

abbrev once : Option Bool → ℕ → ℕ
once (some true) n = n
once _ n = 0

-- How many of the reports are let through, and how many of them count under a key.
pub printed : LintState → Suppressions → List Report → ℕ
printed s t [] = 0
printed s t (r ∷ rs) =
    once (should_print_error s t r.category r.confidence r.linenum) 1 + printed s t rs

pub printed_under : Text → LintState → Suppressions → List Report → ℕ
printed_under k s t [] = 0
printed_under k s t (r ∷ rs) =
    once (should_print_error s t r.category r.confidence r.linenum)
      (keyed k (count_key s.counting r.category))
    + printed_under k s t rs

-- What an error leaves as it is: all that decides about the next.
record Settled (s s' : LintState) : Type 0 where
  verbose_level : s'.verbose_level ≡ s.verbose_level
  filters : s'.filters ≡ s.filters
  counting : s'.counting ≡ s.counting

print_report_counts :
    (f : Format) (r : Report) (s : LintState)
    → ((print_report f r s).error_count ≡ s.error_count)
      × ((print_report f r s).errors_by_category ≡ s.errors_by_category)
      × Settled s (print_report f r s)
unfolding print_report
print_report_counts vs7 r s = ground arith
print_report_counts eclipse r s = ground arith
print_report_counts junit r s = ground arith
print_report_counts emacs r s = ground arith

record Counted (b : Option Bool) (k : Text) (r : Report) (s s' : LintState) : Type 0 where
  total_counted : s'.error_count ≡ s.error_count + once b 1
  key_counted :
      tally k s'.errors_by_category
      ≡ tally k s.errors_by_category + once b (keyed k (count_key s.counting r.category))
  settled : Settled s s'

tally-bump_key :
    (k : Text) (o : Option Text) (m : List (Text × ℕ))
    → tally k (bump_key o m) ≡ tally k m + keyed k o
tally-bump_key k none m = omega arith
tally-bump_key k (some c) m = tally-bump k c m

printed-Counted :
    (k : Text) (r : Report) (s : LintState)
    → Counted
        (some true)
        k
        r
        s
        (print_report s.output_format r (increment_error_count r.category s))
unfolding increment_error_count
printed-Counted k r s =
    let s1 = increment_error_count r.category s in
    let c = print_report_counts s.output_format r s1 in
    let d = tally-bump_key k (count_key s.counting r.category) s.errors_by_category in
    record {
      total_counted = c.0;
      key_counted = ap (tally k) c.1 ∙ d;
      settled = record {
        verbose_level = c.2.verbose_level;
        filters = c.2.filters;
        counting = c.2.counting;
      };
    }

emit_if-Counted :
    (b : Option Bool) (k : Text) (r : Report) (s s' : LintState)
    → emit_if b r s ≡ some s'
    → Counted b k r s s'
emit_if-Counted none k r s s' h = cc
emit_if-Counted (some false) k r s s' h =
    subst (Counted (some false) k r s) (some_injective h) (record {
      total_counted = omega arith;
      key_counted = omega arith;
      settled = record { verbose_level = refl; filters = refl; counting = refl };
    })
emit_if-Counted (some true) k r s s' h =
    subst (Counted (some true) k r s) (some_injective h) (printed-Counted k r s)

-- The decision about a report reads only what an error leaves as it is.
decision-Settled :
    (s s' : LintState) (t : Suppressions) (r : Report)
    → Settled s s'
    → should_print_error s' t r.category r.confidence r.linenum
      ≡ should_print_error s t r.category r.confidence r.linenum
unfolding should_print_error
decision-Settled s s' t r e = rw (e.verbose_level, e.filters) refl

printed-Settled :
    (k : Text) (s s' : LintState) (t : Suppressions) (rs : List Report)
    → Settled s s'
    → (printed s' t rs ≡ printed s t rs) × (printed_under k s' t rs ≡ printed_under k s t rs)
unfolding printed printed_under
printed-Settled k s s' t [] e = (refl, refl)
printed-Settled k s s' t (r ∷ rs) e =
    let (p, q) = printed-Settled k s s' t rs e in
    (rw (decision-Settled s s' t r e, p) refl, rw (decision-Settled s s' t r e, e.counting, q) refl)

-- After the reports of a check have gone through `Error`, the total has grown by the number of
-- those let through, and the count of each category key by the number of those that fall under it.
pub errors_counted :
    (t : Suppressions) (rs : List Report) (k : Text) (s s' : LintState)
    → errors t rs s ≡ some s'
    → (s'.error_count ≡ s.error_count + printed s t rs)
      × (tally k s'.errors_by_category ≡ tally k s.errors_by_category + printed_under k s t rs)
unfolding errors error printed printed_under
errors_counted t [] k s s' h =
    subst
      (λ s'.
        (s'.error_count ≡ s.error_count + 0)
        × (tally k s'.errors_by_category ≡ tally k s.errors_by_category + 0))
      (some_injective h) (omega arith, omega arith)
errors_counted t (r ∷ rs) k s s' h = elim (Option-cases (error t r s)) [
  | inl e ↦ absurd (ground arith)
  | inr (s1, e) ↦
      let c =
        emit_if-Counted (should_print_error s t r.category r.confidence r.linenum) k r s s1 e in
      let later = errors_counted t rs k s1 s' (rw (e, errors) at h) in
      let same = printed-Settled k s s1 t rs c.settled in
      (
        omega (arith, c.total_counted, later.0, same.0),
        omega (arith, c.key_counted, later.1, same.1),
      )
]
