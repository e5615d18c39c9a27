-- ===== src/Driver.antt =====
-- build_support/cpplint.py: `CheckForNamespaceIndentation`, `ProcessLine` and `ProcessFileData`.
pub mod Effects
pub mod Files
pub mod Lines
pub mod Newline
use turtle.Common.{
  ℕ, zero, suc, Bool, true, false, not, ◌&&◌, List, [], ◌∷◌, ◌++◌, map, Option, none, some, ◌==◌,
  ltb, if◌then◌else◌, length,
}
use mathlib.Core.List.{reverse}
use turtle.Common.Text.{Text, codes, split}
use turtle.Common.Slices.{line_at}
use turtle.Regex.{matches}
use turtle.Report.{Action, raise, parse_nolint, Report}
use turtle.Listed.{on_some}
use turtle.Cleanse.{CleansedLines}
use turtle.Report.{Action, raise, parse_nolint}
use turtle.Cleanse.{cleansed_lines}
use turtle.Cleanse.Comments.{remove_multi_line_comments}
use turtle.Nesting.{
  Kind, Stack, NestingState, PreprocessorInfo, is_namespace, check_namespace_indentation,
  in_asm_block, check_completed_blocks,
}
use turtle.Nesting.Preprocessor.{if_pattern, else_pattern, endif_pattern}
use turtle.Nesting.Update.{update}
use turtle.Functions.{FunctionState, check_for_function_lengths}
use turtle.Includes.{IncludeState}
use turtle.Includes.Used.{check_for_include_what_you_use}
use turtle.Paths.{FileSystem, Settings}
use turtle.Paths.Extensions.{is_header_extension, is_source_extension}
use turtle.Paths.Guard.{check_for_header_guard}
use turtle.Paths.Modules.{MissingHeader, check_header_file_included}
use turtle.Checks.Files.{
  check_for_bad_characters, check_for_newline_at_eof, check_for_copyright,
  check_for_multiline_comments_and_strings,
}
use turtle.Checks.Lines.{should_check_namespace_indentation, check_item_indentation_in_namespace}
use turtle.Style.Width.{Unicode}
use turtle.Style.Lines.{check_style}
use turtle.Language.Lines.{check_language}
use turtle.Language.References.{check_for_non_const_reference}
use turtle.Language.Constructs.{check_for_non_standard_constructs}
use turtle.Language.Calls.{
  check_vlog_arguments, check_posix_threading, check_invalid_increment,
  check_make_pair_uses_deduction, flag_cxx11_features,
}
use turtle.Language.Functions.{check_redundant_virtual, check_redundant_override_or_final}

-- What the functions read of the run: the options, the files, and `extra_check_functions`.
pub record Environment : Type 0 where
  pub files : FileSystem
  pub settings : Settings
  pub unicode : Unicode
  pub verbose_level : ℕ
  pub read : Text → Option (List Text)
  pub extra_checks : List (Text → CleansedLines → ℕ → List Report)

-- Does a line put a saved stack in the place of the stack.
unfoldable pub restores_before_if : List PreprocessorInfo → Bool
restores_before_if [] = false
restores_before_if (p ∷ pp) = true

unfoldable pub restores_before_else : List PreprocessorInfo → Bool
restores_before_else [] = false
restores_before_else (p ∷ pp) = p.seen_else

unfoldable pub restores : Text → NestingState → Bool
restores line s =
    if matches if_pattern line
    then false
    else if matches else_pattern line
    then restores_before_if s.pp_stack
    else matches endif_pattern line && restores_before_else s.pp_stack

-- `previous_stack_top == stack[-2]` compares objects. `before` is the stack at the start of `Update`,
-- whose top is `previous_stack_top`. The second block of the new stack is that object if no copy of a
-- stack came in, the block is not from this line, and the stack is higher by one.
unfoldable pub is_namespace_item : ℕ → Bool → Stack → Stack → Bool
is_namespace_item n restored before [] = false
is_namespace_item n restored before (b ∷ []) = false
is_namespace_item n restored before (b ∷ c ∷ stack) =
    check_namespace_indentation b.kind
    && (is_namespace c.kind
        && (not restored && (ltb c.starting_linenum n && length before == suc (length stack))))

unfoldable pub check_for_namespace_indentation :
    Text → CleansedLines → ℕ → NestingState → NestingState → List Report
check_for_namespace_indentation f clean n before s =
    let restored = restores (line_at clean.elided n) before in
    if should_check_namespace_indentation s.stack
      (is_namespace_item n restored before.stack s.stack) clean.elided n
    then check_item_indentation_in_namespace f clean.elided n
    else []

-- The objects that the checks of the lines share.
pub record LineState : Type 0 where
  pub includes : IncludeState
  pub function : FunctionState
  pub nesting : NestingState

unfoldable pub previous_top : Stack → Option Kind
previous_top [] = none
previous_top (b ∷ stack) = some b.kind

unfoldable pub extra_reports :
    List (Text → CleansedLines → ℕ → List Report) → Text → CleansedLines → ℕ → List Report
extra_reports [] f clean n = []
extra_reports (check_fn ∷ fns) f clean n = check_fn f clean n ++ extra_reports fns f clean n

-- The checks behind `CheckForNonStandardConstructs`.
unfoldable pub last_reports : Environment → Text → CleansedLines → ℕ → List Report
last_reports env f clean n =
    check_vlog_arguments f clean n
    ++ (check_posix_threading f clean n
        ++ (check_invalid_increment f clean n
            ++ (check_make_pair_uses_deduction f clean n
                ++ (check_redundant_virtual f clean n
                    ++ (check_redundant_override_or_final f clean n
                        ++ extra_reports env.extra_checks f clean n)))))

unfoldable pub line_actions :
    Environment
    → Text
    → CleansedLines
    → ℕ
    → Option Kind
    → List Report
    → List Action
    → List Report
    → List Report
    → List Action
line_actions env f clean n top function_reports style language constructs =
    map raise function_reports
    ++ (map raise (check_for_multiline_comments_and_strings f clean n)
        ++ (style
            ++ (map raise language
                ++ (map raise (check_for_non_const_reference f clean n top)
                    ++ (map raise constructs ++ map raise (last_reports env f clean n))))))

-- The checks of a line outside of inline assembly; `top` is the top of the stack before the line.
unfoldable pub check_line :
    Environment
    → Text
    → Text
    → CleansedLines
    → ℕ
    → Option Kind
    → LineState
    → Option (LineState × List Action)
check_line env f extension clean n top s =
    let (function, function_reports) =
      check_for_function_lengths env.verbose_level f clean.lines n s.function in
    on_some (check_style env.files env.settings env.unicode f clean n extension s.nesting) (λ style.
      on_some (check_language env.files env.settings f clean n extension s.includes) (λ language.
        on_some (check_for_non_standard_constructs f clean n s.nesting) (λ constructs. some (
          record s { includes = language.0; function = function },
          line_actions env f clean n top function_reports style (language.1) constructs,
        ))))

unfoldable pub first_actions : Text → CleansedLines → ℕ → NestingState → List Action
first_actions f clean n before =
    let (s, reports) = update f clean n before in
    parse_nolint (line_at clean.raw_lines n) n
    ∷ (map raise reports ++ map raise (check_for_namespace_indentation f clean n before s))

-- `none` where a check stops with an exception, or does not end.
unfoldable pub process_line :
    Environment → Text → Text → CleansedLines → ℕ → LineState → Option (LineState × List Action)
process_line env f extension clean n s =
    let nesting = (update f clean n s.nesting).0 in
    let actions = first_actions f clean n s.nesting in
    let s' = record s { nesting = nesting } in
    if in_asm_block nesting
    then some (s', actions)
    else on_some (check_line env f extension clean n (previous_top s.nesting.stack) s')
        (λ checked. some (checked.0, actions ++ checked.1))

-- The loop over the lines, `rounds` of them from `n` on.
unfoldable pub process_lines :
    Environment → Text → Text → CleansedLines → ℕ → ℕ → LineState → Option (LineState × List Action)
process_lines env f extension clean zero n s = some (s, [])
process_lines env f extension clean (suc rounds) n s =
    on_some (process_line env f extension clean n s) (λ line.
      on_some (process_lines env f extension clean rounds (suc n) (line.0))
        (λ rest. some (rest.0, line.1 ++ (map raise (flag_cxx11_features f clean n) ++ rest.1))))

-- What `ProcessFileData` does, in order.
pub data Effect : Type 0 where
  reset_suppressions : Effect
  process_globals : List Text → Effect
  act : Action → Effect
  missing_header : MissingHeader → Effect

abbrev reports_of : List Report → List Effect
reports_of rs = map act (map raise rs)

unfoldable pub guard_actions : Environment → Text → Text → CleansedLines → Option (List Action)
guard_actions env f extension clean =
    if is_header_extension env.settings extension
    then check_for_header_guard env.files env.settings f clean
    else some []

unfoldable pub missing_headers :
    Environment → Text → Text → IncludeState → Option (List MissingHeader)
missing_headers env f extension state =
    if is_source_extension env.settings extension
    then check_header_file_included env.files env.settings f state
    else some []

unfoldable pub initial_line_state : LineState
initial_line_state = record {
  includes = turtle.Includes.initial;
  function = turtle.Functions.initial;
  nesting = turtle.Nesting.initial;
}

-- The checks over the cleansed lines.
unfoldable pub check_lines : Environment → Text → Text → CleansedLines → Option (List Effect)
check_lines env f extension clean = on_some (guard_actions env f extension clean) (λ guard.
    on_some (process_lines env f extension clean clean.num_lines 0 initial_line_state) (λ processed.
      on_some
        (check_for_include_what_you_use env.files env.settings env.read f clean
          (processed.0.includes))
        (λ used. on_some (missing_headers env f extension (processed.0.includes)) (λ missing. some (
          map act guard
          ++ (map act (processed.1)
              ++ (reports_of (check_completed_blocks f (processed.0.nesting.stack))
                  ++ (reports_of used ++ map missing_header missing))))))))

-- `line.rstrip('\r')`
unfoldable pub drop_carriages : Text → Text
drop_carriages [] = []
drop_carriages (c ∷ s) = if c == b'\r' then drop_carriages s else c ∷ s

-- Of all lines but the last.
unfoldable pub without_carriages : List Text → List Text
without_carriages [] = []
without_carriages (line ∷ []) = line ∷ []
without_carriages (line ∷ next ∷ lines) =
    reverse (drop_carriages (reverse line)) ∷ without_carriages (next ∷ lines)

-- The lines of a text, as `ProcessFile` hands them on.
unfoldable pub file_lines : Text → List Text
file_lines content = without_carriages (split b'\n' content)

unfoldable pub with_markers : List Text → List Text
with_markers lines =
    codes "// marker so line numbers and indices both start at 1"
    ∷ (lines ++ (codes "// marker so line numbers end in a known way" ∷ []))

-- `none` where a check stops with an exception, or does not end.
unfoldable pub process_file_data : Environment → Text → Text → List Text → Option (List Effect)
process_file_data env f extension lines =
    let marked = with_markers lines in
    let (uncommented, reports) = remove_multi_line_comments f marked in
    on_some (check_lines env f extension (cleansed_lines uncommented)) (λ effects. some (
      reset_suppressions
      ∷ (reports_of (check_for_copyright f marked)
          ++ (process_globals marked
              ∷ (reports_of reports
                  ++ (effects
                      ++ (reports_of (check_for_bad_characters f uncommented)
                          ++ reports_of (check_for_newline_at_eof f uncommented))))))))
