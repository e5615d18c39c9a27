-- ===== src/Nesting/Preprocessor.antt =====
-- build_support/cpplint.py: `NestingState.UpdatePreprocessor`.
use turtle.Common.{◌≡◌, true, false, List, [], ◌∷◌, arith, if◌then◌else◌}
use turtle.Common.Text.{Text}
use turtle.Regex.{Regex, seq, choice, many, word, space, word_edge, at_start, matches}
use turtle.Nesting.{Stack, PreprocessorInfo, NestingState}

-- `^\s*#\s*` and a directive.
directive_pattern : List Regex → Regex
unfolding seq choice word space
directive_pattern names =
    seq (at_start ∷ many space ∷ word "#" ∷ many space ∷ choice names ∷ word_edge ∷ [])

unfoldable pub if_pattern : Regex
unfolding directive_pattern word
if_pattern = directive_pattern (word "if" ∷ word "ifdef" ∷ word "ifndef" ∷ [])

unfoldable pub else_pattern : Regex
unfolding directive_pattern word
else_pattern = directive_pattern (word "else" ∷ word "elif" ∷ [])

unfoldable pub endif_pattern : Regex
unfolding directive_pattern word
endif_pattern = directive_pattern (word "endif" ∷ [])

-- At `#if`: the stack is saved.
enter_if : NestingState → NestingState
enter_if s = record s {
  pp_stack =
      record { stack_before_if = s.stack; stack_before_else = []; seen_else = false } ∷ s.pp_stack;
}

-- At `#else` or `#elif`: the first keeps the stack for the end, and each goes back to the start.
enter_else : List PreprocessorInfo → NestingState → NestingState
enter_else [] s = s
enter_else (p ∷ pp) s = record {
  stack = p.stack_before_if;
  pp_stack =
      (if p.seen_else then p else record p { seen_else = true; stack_before_else = s.stack }) ∷ pp;
}

-- At `#endif`.
leave_if : List PreprocessorInfo → NestingState → NestingState
leave_if [] s = s
leave_if (p ∷ pp) s = record {
  stack = if p.seen_else then p.stack_before_else else s.stack;
  pp_stack = pp;
}

unfoldable pub update_preprocessor : Text → NestingState → NestingState
unfolding enter_if enter_else leave_if
update_preprocessor line s =
    if matches if_pattern line
    then enter_if s
    else if matches else_pattern line
    then enter_else s.pp_stack s
    else if matches endif_pattern line
    then leave_if s.pp_stack s
    else s

-- The lines of a conditional, by the pattern that each matches first.
pub record IsIf (line : Text) : Type 0 where
  pub is_if : matches if_pattern line ≡ true

pub record IsElse (line : Text) : Type 0 where
  pub not_if : matches if_pattern line ≡ false
  pub is_else : matches else_pattern line ≡ true

pub record IsEndif (line : Text) : Type 0 where
  pub not_if : matches if_pattern line ≡ false
  pub not_else : matches else_pattern line ≡ false
  pub is_endif : matches endif_pattern line ≡ true

abbrev with_stack : Stack → NestingState → NestingState
with_stack t s = record s { stack = t }

-- Over `#if`, two `#else` or `#elif` and `#endif`, whatever each branch does to the stack: every
-- branch starts from the stack before the `#if`, the stack that the first branch leaves is kept
-- after the `#endif`, and the conditionals around are as before.
pub conditional_keeps_first :
    {line_if line_else line_elif line_endif : Text}
    → IsIf line_if
    → IsElse line_else
    → IsElse line_elif
    → IsEndif line_endif
    → (s : NestingState) (first second third : Stack)
    → let in_first = update_preprocessor line_if s in
      let in_second = update_preprocessor line_else (with_stack first in_first) in
      let in_third = update_preprocessor line_elif (with_stack second in_second) in
      let after = update_preprocessor line_endif (with_stack third in_third) in
      (in_first.stack ≡ s.stack)
      × (in_second.stack ≡ s.stack)
      × (in_third.stack ≡ s.stack)
      × (after ≡ record { stack = first; pp_stack = s.pp_stack })
unfolding update_preprocessor
conditional_keeps_first i e e' n s first second third = ground arith

-- Over `#if` and `#endif` with nothing between but a branch, the branch's stack is kept, and the
-- conditionals around are as before.
pub conditional_without_else :
    {line_if line_endif : Text}
    → IsIf line_if
    → IsEndif line_endif
    → (s : NestingState) (first : Stack)
    → update_preprocessor line_endif (with_stack first (update_preprocessor line_if s))
      ≡ record { stack = first; pp_stack = s.pp_stack }
unfolding update_preprocessor
conditional_without_else i n s first = ground arith
