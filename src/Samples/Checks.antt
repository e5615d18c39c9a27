-- ===== src/Samples/Checks.antt =====
-- The checks of files and lines of build_support/cpplint.py at concrete inputs.
use turtle.Common.{◌≡◌, ◌↔◌, refl, List, [], ◌∷◌, some, All}
use turtle.Common.Text.{Text, codes, is_space}
use turtle.Regex.{Regex, seq, word, find_match}
use turtle.Expression.Grammar.{Nested, nil, plain, wrap}
use turtle.Checks.Files.{IsClean, check_for_bad_characters, check_for_bad_characters_iff}
use turtle.Checks.Lines.{
  IsPrevious, get_previous_non_blank_line, get_previous_non_blank_line-IsPrevious, is_blank_line,
}
use turtle.Checks.Inside.{is_other, inside, get_text_inside, get_text_inside-Nested}

abbrev file_lines : List Text
file_lines = codes "// dummy" ∷ codes "int a;" ∷ [] ∷ codes "// end" ∷ []

check_for_bad_characters_iff_example :
    (check_for_bad_characters (codes "a.cc") file_lines ≡ []) ↔ All IsClean file_lines
check_for_bad_characters_iff_example = check_for_bad_characters_iff (codes "a.cc") file_lines

get_previous_non_blank_line-IsPrevious_example :
    IsPrevious file_lines 3 (get_previous_non_blank_line file_lines 3)
get_previous_non_blank_line-IsPrevious_example = get_previous_non_blank_line-IsPrevious file_lines 3

previous_run : get_previous_non_blank_line file_lines 3 ≡ (codes "int a;", some 1)
unfolding get_previous_non_blank_line is_blank_line is_space codes
previous_run = refl

abbrev printf_pattern : Regex
unfolding seq word
printf_pattern = seq (word "printf(" ∷ [])

-- `a,b[c]`
abbrev arguments-Nested : Nested is_other (b'a' ∷ b',' ∷ b'b' ∷ b'[' ∷ b'c' ∷ b']' ∷ [])
arguments-Nested =
    plain b'a' refl
      (plain b',' refl (plain b'b' refl (wrap b'[' b']' refl (plain b'c' refl nil) nil)))

-- `printf(a,b[c]);`
abbrev printf_line : Text
printf_line =
    b'p' ∷ b'r' ∷ b'i' ∷ b'n' ∷ b't' ∷ b'f' ∷ b'(' ∷ b'a' ∷ b',' ∷ b'b' ∷ b'[' ∷ b'c' ∷ b']' ∷ b')'
    ∷ b';' ∷ []

printf_found :
    find_match printf_pattern printf_line
    ≡ some (record {
      behind = b'(' ∷ b'f' ∷ b't' ∷ b'n' ∷ b'i' ∷ b'r' ∷ b'p' ∷ [];
      rest = b'a' ∷ b',' ∷ b'b' ∷ b'[' ∷ b'c' ∷ b']' ∷ b')' ∷ b';' ∷ [];
      groups = [];
    })
unfolding printf_pattern find_match seq word codes
printf_found = refl

get_text_inside-Nested_example :
    get_text_inside printf_line printf_pattern
    ≡ inside (b'a' ∷ b',' ∷ b'b' ∷ b'[' ∷ b'c' ∷ b']' ∷ [])
get_text_inside-Nested_example =
    get_text_inside-Nested printf_line printf_pattern _ b'(' b')'
      (b'f' ∷ b't' ∷ b'n' ∷ b'i' ∷ b'r' ∷ b'p' ∷ []) (b';' ∷ []) arguments-Nested refl printf_found
      refl refl
