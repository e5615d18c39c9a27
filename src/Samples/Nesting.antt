-- ===== src/Samples/Nesting.antt =====
-- The nesting state of build_support/cpplint.py at concrete inputs.
use turtle.Nesting.Update.{update, namespace_head, class_pattern}
use turtle.Common.Text.{count}
use turtle.Nesting.Update.Ordinary.{IsOrdinary, IsQuiet, update_ordinary}
use turtle.Nesting.Update.{consume_namespaces, namespace_pattern}
use turtle.Common.{none}
use turtle.Nesting.Update.Namespaces.{Opens, consume_namespaces_lem}
use turtle.Common.{◌≡◌, refl, Bool, true, List, [], ◌∷◌, some}
use turtle.Nesting.Template.{
  in_template_argument_list, in_template_rounds, template_round, at_token, after_token, verdict,
  next_token, file_size,
}
use turtle.Nesting.Template.Rounds.{in_template_argument_list_total}
use turtle.Common.Text.{Text, codes}
use turtle.Cleanse.{CleansedLines}
use turtle.Regex.{matches, match}
use turtle.Nesting.{Stack, NestingState, new_block, new_namespace, block, seen_open_brace}
use turtle.Nesting.Preprocessor.{
  IsIf, IsElse, IsEndif, if_pattern, else_pattern, endif_pattern, update_preprocessor,
  conditional_keeps_first, conditional_without_else,
}
use turtle.Nesting.Update.{consume_braces}
use turtle.Nesting.{check_completed_blocks}
use turtle.Nesting.Completed.{is_on, check_completed_blocks-is_on}
use turtle.Common.{any, ◌++◌}
use turtle.Nesting.Update.Braces.{Balanced, nil, other, braces, consume_braces_balanced}

abbrev if_line : Text
if_line = codes "#ifdef FAST"

abbrev else_line : Text
else_line = codes "#else"

abbrev elif_line : Text
elif_line = codes "  # elif SLOW"

abbrev endif_line : Text
endif_line = codes "#endif  // FAST"

if_line-IsIf : IsIf if_line
unfolding if_pattern matches match codes
if_line-IsIf = record { is_if = refl }

else_line-IsElse : IsElse else_line
unfolding if_pattern else_pattern matches match codes
else_line-IsElse = record { not_if = refl; is_else = refl }

elif_line-IsElse : IsElse elif_line
unfolding if_pattern else_pattern matches match codes
elif_line-IsElse = record { not_if = refl; is_else = refl }

endif_line-IsEndif : IsEndif endif_line
unfolding if_pattern else_pattern endif_pattern matches match codes
endif_line-IsEndif = record { not_if = refl; not_else = refl; is_endif = refl }

abbrev outside : NestingState
outside = record { stack = new_block block 3 true ∷ []; pp_stack = [] }

-- The branches each open a function.
abbrev opened : Stack
opened = new_block block 5 true ∷ new_block block 3 true ∷ []

abbrev opened_again : Stack
opened_again = new_block block 7 true ∷ new_block block 3 true ∷ []

conditional_keeps_first_example :
    let in_first = update_preprocessor if_line outside in
    let in_second = update_preprocessor else_line (record in_first { stack = opened }) in
    let in_third = update_preprocessor elif_line (record in_second { stack = opened_again }) in
    let after = update_preprocessor endif_line (record in_third { stack = [] }) in
    (in_first.stack ≡ outside.stack)
    × (in_second.stack ≡ outside.stack)
    × (in_third.stack ≡ outside.stack)
    × (after ≡ record { stack = opened; pp_stack = [] })
conditional_keeps_first_example =
    conditional_keeps_first if_line-IsIf else_line-IsElse elif_line-IsElse endif_line-IsEndif
      outside opened opened_again []

conditional_without_else_example :
    update_preprocessor endif_line (record (update_preprocessor if_line outside) { stack = opened })
    ≡ record { stack = opened; pp_stack = [] }
conditional_without_else_example =
    conditional_without_else if_line-IsIf endif_line-IsEndif outside opened

abbrev no_lines : CleansedLines
no_lines = record {
  elided = [];
  lines = [];
  raw_lines = [];
  num_lines = 0;
  lines_without_raw_strings = [];
}

-- `f{;}{{}}`
abbrev nested_braces : Text
nested_braces = b'f' ∷ b'{' ∷ b';' ∷ b'}' ∷ b'{' ∷ b'{' ∷ b'}' ∷ b'}' ∷ []

abbrev nested_braces-Balanced : Balanced nested_braces
nested_braces-Balanced =
    other b'f' refl (braces (other b';' refl nil) (braces (braces nil nil) nil))

abbrev in_namespace : Stack
in_namespace = record (new_namespace (codes "a") 0) { seen_open_brace = true } ∷ []

in_namespace_seen : seen_open_brace in_namespace ≡ true
unfolding seen_open_brace
in_namespace_seen = refl

consume_braces_balanced_example :
    consume_braces (codes "a.cc") no_lines 4 nested_braces nested_braces in_namespace
    ≡ (in_namespace, [])
consume_braces_balanced_example =
    consume_braces_balanced (codes "a.cc") no_lines 4 nested_braces-Balanced nested_braces
      in_namespace in_namespace_seen

-- `template <class A,` over `class B = C<D> > x;`
abbrev template_lines : List Text
template_lines = codes "template <class A," ∷ codes "    class B = C<D> > x;" ∷ []

in_template_argument_list_total_example :
    (b : Bool) × (in_template_argument_list template_lines 0 17 ≡ some b)
in_template_argument_list_total_example = in_template_argument_list_total template_lines 0 17

template_runs : in_template_argument_list template_lines 0 17 ≡ some true
unfolding in_template_argument_list in_template_rounds template_round at_token after_token verdict
    next_token file_size codes
template_runs = refl

consume_namespaces_lem_example :
    let result = consume_namespaces 7 (codes "namespace a { namespace b {}") [] in
    (match namespace_pattern result.0 ≡ none) × Opens 7 [] result.1
consume_namespaces_lem_example = consume_namespaces_lem 7 (codes "namespace a { namespace b {}") []

-- `f(){;}`
abbrev call_line : Text
call_line = b'f' ∷ b'(' ∷ b')' ∷ b'{' ∷ b';' ∷ b'}' ∷ []

call_line-IsOrdinary : IsOrdinary call_line
unfolding if_pattern else_pattern endif_pattern namespace_pattern namespace_head class_pattern
    matches match count
call_line-IsOrdinary = record {
  not_if = refl;
  not_else = refl;
  not_endif = refl;
  no_namespace = refl;
  no_class = refl;
  parentheses = refl;
  braces = other b'f' refl (other b'(' refl (other b')' refl (braces (other b';' refl nil) nil)));
}

abbrev call_lines : CleansedLines
call_lines = record {
  elided = call_line ∷ [];
  lines = call_line ∷ [];
  raw_lines = call_line ∷ [];
  num_lines = 1;
  lines_without_raw_strings = call_line ∷ [];
}

in_namespace-IsQuiet : IsQuiet in_namespace
unfolding IsQuiet new_namespace
in_namespace-IsQuiet = (refl, refl, refl)

update_ordinary_example :
    update (codes "a.cc") call_lines 0 (record { stack = in_namespace; pp_stack = [] })
    ≡ (record { stack = in_namespace; pp_stack = [] }, [])
update_ordinary_example =
    update_ordinary (codes "a.cc") call_lines 0 (record { stack = in_namespace; pp_stack = [] })
      call_line-IsOrdinary in_namespace-IsQuiet

abbrev open_namespace : Stack
open_namespace = new_block block 9 true ∷ []

check_completed_blocks-is_on_example :
    any (is_on (codes "a.cc") (new_namespace (codes "turtle") 3) (codes "build/namespaces")) (
      check_completed_blocks
        (codes "a.cc")
        (open_namespace ++ (new_namespace (codes "turtle") 3 ∷ [])))
    ≡ true
check_completed_blocks-is_on_example =
    check_completed_blocks-is_on (codes "a.cc") open_namespace [] (new_namespace (codes "turtle") 3)
      (codes "build/namespaces") (unfold new_namespace in refl)
