-- ===== src/Driver/Lines.antt =====
-- build_support/cpplint.py: what `ProcessLine` hands to `error`.
use turtle.Common.{ℕ, zero, suc, ◌≡◌, refl, List, [], ◌∷◌, Option, none, some, All, arith}
use turtle.Common.Text.{Text}
use turtle.Report.{Report, Action, raise, parse_nolint}
use turtle.Cleanse.{CleansedLines}
use turtle.Listed.{
  IsReportAt, Listed, listed, none_left, Listed-append, Raised, no_action, raises, parses,
  Raised-parse, Raised-append, Raised-map, Yields, stops, yields, Yields-on_some, Yields-if,
  Yields-Returned,
}
use turtle.Nesting.{Kind, NestingState, in_asm_block}
use turtle.Nesting.Update.{update}
use turtle.Nesting.Update.Reports.{update-Listed}
use turtle.Functions.Reports.{check_for_function_lengths-Listed}
use turtle.Checks.Files.{check_for_multiline_comments_and_strings}
use turtle.Checks.Lines.{check_item_indentation_in_namespace}
use turtle.Style.Lines.{check_style, check_style-Raised}
use turtle.Language.Lines.{check_language-Listed}
use turtle.Language.References.{check_for_non_const_reference-Listed}
use turtle.Language.Constructs.{check_for_non_standard_constructs-Listed}
use turtle.Language.Calls.{
  check_vlog_arguments-Listed, check_posix_threading-Listed, check_invalid_increment-Listed,
  check_make_pair_uses_deduction-Listed, flag_cxx11_features-Listed,
}
use turtle.Language.Functions.{
  check_redundant_virtual-Listed, check_redundant_override_or_final-Listed,
}
use turtle.Driver.{
  Environment, LineState, check_for_namespace_indentation, extra_reports, last_reports,
  line_actions, check_line, first_actions, process_line, process_lines,
}

-- A check among the extra ones that reports as the others do.
unfoldable pub IsLineCheck : (Text → CleansedLines → ℕ → List Report) → Type 0
IsLineCheck check_fn = (f : Text) (clean : CleansedLines) (n : ℕ) → Listed f n (check_fn f clean n)

unfoldable pub ListedChecks : Environment → Type 0
ListedChecks env = All IsLineCheck env.extra_checks

IsReportAt-start : {f : Text} {n : ℕ} {r : Report} → IsReportAt f n r → IsReportAt f 0 r
IsReportAt-start i = record {
  same_file = i.same_file;
  line = i.line;
  at_line = i.at_line;
  not_before = omega arith;
  known = i.known;
  graded = i.graded;
}

pub Raised-start :
    {f : Text} {n : ℕ} (actions : List Action) → Raised f n actions → Raised f 0 actions
Raised-start actions no_action = no_action
Raised-start (raise r ∷ actions) (raises i h) = raises (IsReportAt-start i) (Raised-start actions h)
Raised-start (parse_nolint line k ∷ actions) (parses l p h) =
    parses (omega arith) p (Raised-start actions h)

multiline-Listed :
    (f : Text) (clean : CleansedLines) (n : ℕ)
    → Listed f n (check_for_multiline_comments_and_strings f clean n)
unfolding check_for_multiline_comments_and_strings
multiline-Listed f clean n = search (listed)

indentation-Listed :
    (f : Text) (clean : CleansedLines) (n : ℕ) (before s : NestingState)
    → Listed f n (check_for_namespace_indentation f clean n before s)
unfolding check_for_namespace_indentation check_item_indentation_in_namespace
indentation-Listed f clean n before s = search (listed)

extra_reports-Listed :
    (fns : List (Text → CleansedLines → ℕ → List Report)) (f : Text) (clean : CleansedLines) (n : ℕ)
    → All IsLineCheck fns
    → Listed f n (extra_reports fns f clean n)
unfolding extra_reports IsLineCheck
extra_reports-Listed [] f clean n h = none_left
extra_reports-Listed (check_fn ∷ fns) f clean n h =
    Listed-append _ (h.0 f clean n) (extra_reports-Listed fns f clean n (h.1))

last_reports-Listed :
    (env : Environment) (f : Text) (clean : CleansedLines) (n : ℕ)
    → ListedChecks env
    → Listed f n (last_reports env f clean n)
unfolding last_reports ListedChecks
last_reports-Listed env f clean n h = Listed-append _ (check_vlog_arguments-Listed f clean n) (
    Listed-append _ (check_posix_threading-Listed f clean n) (
      Listed-append _ (check_invalid_increment-Listed f clean n) (
        Listed-append _ (check_make_pair_uses_deduction-Listed f clean n) (
          Listed-append _ (check_redundant_virtual-Listed f clean n) (
            Listed-append _ (check_redundant_override_or_final-Listed f clean n)
              (extra_reports-Listed env.extra_checks f clean n h))))))

line_actions-Raised :
    (env : Environment) (f : Text) (clean : CleansedLines) (n : ℕ) (top : Option Kind)
    (function_reports : List Report) (style : List Action) (language constructs : List Report)
    → ListedChecks env
    → Listed f n function_reports
    → Raised f n style
    → Listed f n language
    → Listed f n constructs
    → Raised f n (line_actions env f clean n top function_reports style language constructs)
unfolding line_actions
line_actions-Raised env f clean n top function_reports style language constructs e h s l c =
    Raised-append _ (Raised-map function_reports h) (
      Raised-append _ (Raised-map _ (multiline-Listed f clean n)) (
        Raised-append style s (
          Raised-append _ (Raised-map language l) (
            Raised-append _ (Raised-map _ (check_for_non_const_reference-Listed f clean n top)) (
              Raised-append _ (Raised-map constructs c)
                (Raised-map _ (last_reports-Listed env f clean n e)))))))

style-Yields :
    (o : Option (List Action)) {f : Text} {n : ℕ}
    → ((actions : List Action) → o ≡ some actions → Raised f n actions)
    → Yields (Raised f n) o
style-Yields none h = stops
style-Yields (some actions) h = yields (h actions refl)

check_line-Raised :
    (env : Environment) (f extension : Text) (clean : CleansedLines) (n : ℕ) (top : Option Kind)
    (s : LineState)
    → ListedChecks env
    → Yields (λ r. Raised f n (r.1)) (check_line env f extension clean n top s)
unfolding check_line
check_line-Raised env f extension clean n top s e =
    Yields-on_some _
      (style-Yields (check_style env.files env.settings env.unicode f clean n extension s.nesting)
        (check_style-Raised env.files env.settings env.unicode f clean n extension s.nesting))
      (λ style h.
        Yields-on_some _
          (check_language-Listed env.files env.settings f clean n extension s.includes)
          (λ language l.
            Yields-on_some _
              (Yields-Returned (check_for_non_standard_constructs-Listed f clean n s.nesting))
              (λ constructs c. yields (
                line_actions-Raised env f clean n top _ style (language.1) constructs e
                  (check_for_function_lengths-Listed env.verbose_level f clean.lines n s.function) h
                  l c))))

first_actions-Raised :
    (f : Text) (clean : CleansedLines) (n : ℕ) (before : NestingState)
    → Raised f 0 (first_actions f clean n before)
unfolding first_actions
first_actions-Raised f clean n before = Raised-parse _ _ (omega arith) (
    Raised-append _ (Raised-map _ (update-Listed f clean n before))
      (Raised-start _ (Raised-map _ (indentation-Listed f clean n before _))))

pub process_line-Raised :
    (env : Environment) (f extension : Text) (clean : CleansedLines) (n : ℕ) (s : LineState)
    → ListedChecks env
    → Yields (λ r. Raised f 0 (r.1)) (process_line env f extension clean n s)
unfolding process_line
process_line-Raised env f extension clean n s e =
    let first = first_actions-Raised f clean n s.nesting in
    Yields-if (in_asm_block ((update f clean n s.nesting).0)) (yields first) (
      Yields-on_some _ (check_line-Raised env f extension clean n _ _ e)
        (λ checked h. yields (Raised-append _ first (Raised-start (checked.1) h))))

pub process_lines-Raised :
    (env : Environment) (f extension : Text) (clean : CleansedLines) (rounds n : ℕ) (s : LineState)
    → ListedChecks env
    → Yields (λ r. Raised f 0 (r.1)) (process_lines env f extension clean rounds n s)
unfolding process_lines
process_lines-Raised env f extension clean zero n s e = yields no_action
process_lines-Raised env f extension clean (suc rounds) n s e =
    Yields-on_some _ (process_line-Raised env f extension clean n s e) (λ line l.
      Yields-on_some _ (process_lines-Raised env f extension clean rounds (suc n) (line.0) e)
        (λ rest r. yields (
          Raised-append (line.1) l (
            Raised-append _ (Raised-start _ (Raised-map _ (flag_cxx11_features-Listed f clean n)))
              r))))
