-- ===== src/Driver/Effects.antt =====
-- build_support/cpplint.py: what `ProcessFileData` hands to `error`.
use turtle.Common.{
  ℕ, ◌≤◌, ◌≡◌, refl, leb→le, Bool, true, false, not, List, [], ◌∷◌, ◌++◌, map, Option, none, some,
  if◌then◌else◌, length,
}
use turtle.Common.Int.{sub_ℕ}
use turtle.Common.Text.{Text, codes, mem_text}
use turtle.Report.{Report, Action, raise, parse_nolint}
use turtle.Suppress.{error_categories, Suppressions, parse_nolint_suppressions}
use turtle.Cleanse.{CleansedLines, cleansed_lines}
use turtle.Cleanse.Comments.{remove_multi_line_comments}
use turtle.Listed.{
  IsReportAt, IsCategory, Listed, none_left, one_more, Raised, no_action, raises, parses, Yields,
  stops, yields, Yields-on_some, Yields-if, whitespace_ending_newline-IsCategory,
}
use turtle.Paths.Modules.{MissingHeader}
use turtle.Checks.Files.{
  check_for_bad_characters-Listed, check_for_newline_at_eof, ends_with_newline,
}
use turtle.Driver.{
  Environment, Effect, reset_suppressions, process_globals, act, missing_header, reports_of,
  guard_actions, initial_line_state, check_lines, with_markers, process_file_data,
}
use turtle.Driver.Files.{
  check_for_copyright-Listed, remove_multi_line_comments-Listed, check_completed_blocks-Listed,
  check_for_include_what_you_use-Listed, check_for_header_guard-Raised,
}
use turtle.Driver.Lines.{ListedChecks, process_lines-Raised}

-- A report of the file, in a known category and with a confidence of at most 5.
pub record IsKnown (f : Text) (r : Report) : Type 0 where
  pub same_file : r.filename ≡ f
  pub known : mem_text r.category error_categories ≡ true
  pub graded : r.confidence ≤ 5

-- Every report among the effects is such a one, and so is what a call of `ParseNolintSuppressions`
-- reports, whatever the tables are at that time.
pub data Known (f : Text) : List Effect → Type 0 where
  no_effect : Known f []
  resets : {es : List Effect} → Known f es → Known f (reset_suppressions ∷ es)
  processes :
      {lines : List Text} {es : List Effect} → Known f es → Known f (process_globals lines ∷ es)
  raises_known :
      {r : Report} {es : List Effect} → IsKnown f r → Known f es → Known f (act (raise r) ∷ es)
  parses_known :
      {line : Text} {k : ℕ} {es : List Effect}
      → ((s : Suppressions) → Listed f k ((parse_nolint_suppressions f line k s).1))
      → Known f es
      → Known f (act (parse_nolint line k) ∷ es)
  misses : {m : MissingHeader} {es : List Effect} → Known f es → Known f (missing_header m ∷ es)

module _ {f : Text} where
  Known-append :
      (es : List Effect) {ds : List Effect} → Known f es → Known f ds → Known f (es ++ ds)
  Known-append es no_effect h = h
  Known-append (e ∷ es) (resets k) h = resets (Known-append es k h)
  Known-append (e ∷ es) (processes k) h = processes (Known-append es k h)
  Known-append (e ∷ es) (raises_known i k) h = raises_known i (Known-append es k h)
  Known-append (e ∷ es) (parses_known p k) h = parses_known p (Known-append es k h)
  Known-append (e ∷ es) (misses k) h = misses (Known-append es k h)

  IsReportAt-IsKnown : {n : ℕ} {r : Report} → IsReportAt f n r → IsKnown f r
  IsReportAt-IsKnown i = record { same_file = i.same_file; known = i.known; graded = i.graded }

  Known-acts : {n : ℕ} (actions : List Action) → Raised f n actions → Known f (map act actions)
  Known-acts actions no_action = no_effect
  Known-acts (a ∷ actions) (raises i h) = raises_known (IsReportAt-IsKnown i) (Known-acts actions h)
  Known-acts (a ∷ actions) (parses l p h) = parses_known p (Known-acts actions h)

  Known-reports : {n : ℕ} (rs : List Report) → Listed f n rs → Known f (reports_of rs)
  Known-reports rs none_left = no_effect
  Known-reports (r ∷ rs) (one_more i h) = raises_known (IsReportAt-IsKnown i) (Known-reports rs h)

  Known-missing : (ms : List MissingHeader) → Known f (map missing_header ms)
  Known-missing [] = no_effect
  Known-missing (m ∷ ms) = misses (Known-missing ms)

  Known-if :
      (b : Bool) (rs qs : List Report)
      → Known f (reports_of rs)
      → Known f (reports_of qs)
      → Known f (reports_of (if b then rs else qs))
  Known-if true rs qs h k = h
  Known-if false rs qs h k = k

newline-Known :
    (f : Text) (lines : List Text) → Known f (reports_of (check_for_newline_at_eof f lines))
unfolding check_for_newline_at_eof IsCategory
newline-Known f lines =
    let at_end : Report = record {
      filename = f;
      linenum = sub_ℕ (length lines) 2;
      category = codes "whitespace/ending_newline";
      confidence = 5;
      message = codes "Could not find a newline character at the end of the file.";
    } in
    Known-if (not (ends_with_newline lines)) (at_end ∷ []) []
      (raises_known {r = at_end}
        (record {
          same_file = refl;
          known = whitespace_ending_newline-IsCategory;
          graded = leb→le 5 5 refl;
        })
        no_effect)
      no_effect

guard_actions-Raised :
    (env : Environment) (f extension : Text) (clean : CleansedLines)
    → Yields (Raised f 0) (guard_actions env f extension clean)
unfolding guard_actions
guard_actions-Raised env f extension clean =
    Yields-if _ (check_for_header_guard-Raised env.files env.settings f clean) (yields no_action)

Yields-any {ℓ κ} :
    {A : Type ℓ} {B : Type κ} {Q : B → Type 0} (o : Option A) (k : A → Option B)
    → ((x : A) → Yields Q (k x))
    → Yields Q (turtle.Listed.on_some o k)
unfolding turtle.Listed.on_some
Yields-any none k h = stops
Yields-any (some x) k h = h x

check_lines-Known :
    (env : Environment) (f extension : Text) (clean : CleansedLines)
    → ListedChecks env
    → Yields (Known f) (check_lines env f extension clean)
unfolding check_lines
check_lines-Known env f extension clean h =
    Yields-on_some _ (guard_actions-Raised env f extension clean) (λ guard g.
      Yields-on_some _
        (process_lines-Raised env f extension clean clean.num_lines 0 initial_line_state h)
        (λ processed p.
          Yields-on_some _
            (check_for_include_what_you_use-Listed env.files env.settings env.read f clean _)
            (λ used u. Yields-any _ _ (λ missing. yields (
              Known-append _ (Known-acts guard g) (
                Known-append _ (Known-acts (processed.1) p) (
                  Known-append _ (Known-reports _ (check_completed_blocks-Listed f _))
                    (Known-append _ (Known-reports used u) (Known-missing missing)))))))))

-- Whatever the lines of a file are, where `ProcessFileData` returns, each report that it hands to
-- `error` names that file, has a category of `_ERROR_CATEGORIES`, so that a NOLINT comment can name
-- it, and has a confidence of at most 5; and so does each report of the calls of
-- `ParseNolintSuppressions` that it makes. The extra checks of the run are taken to report so, and the
-- report of a missing header, which `CheckHeaderFileIncluded` makes, is left out.
pub process_file_data-Known :
    (env : Environment) (f extension : Text) (lines : List Text)
    → ListedChecks env
    → Yields (Known f) (process_file_data env f extension lines)
unfolding process_file_data
process_file_data-Known env f extension lines h =
    let marked = with_markers lines in
    let removed = remove_multi_line_comments f marked in
    Yields-on_some _ (check_lines-Known env f extension (cleansed_lines (removed.0)) h)
      (λ effects k. yields (
        resets (
          Known-append _ (Known-reports _ (check_for_copyright-Listed f marked)) (
            processes (
              Known-append _ (Known-reports _ (remove_multi_line_comments-Listed f marked)) (
                Known-append effects k (
                  Known-append _ (Known-reports _ (check_for_bad_characters-Listed f (removed.0)))
                    (newline-Known f (removed.0)))))))))
