-- ===== src/Checks/Lines.antt =====
-- build_support/cpplint.py: blank lines, the line before, sections, and items in a namespace.
use turtle.Common.{
  ℕ, zero, suc, ◌+◌, ◌-◌, ◌<◌, ◌≡◌, refl, Bool, true, false, not, ◌&&◌, ◌||◌, List, [], ◌∷◌, ◌++◌,
  Option, none, some, ltb, leb, if◌then◌else◌, all, arith, inl, inr, Bool-cases, ltb→lt,
}
use turtle.Common.Text.{Text, codes, is_space}
use turtle.Common.Slices.{line_at}
use turtle.Cleanse.{CleansedLines}
use turtle.Listed.{on_match, Listed, listed}
use turtle.Nesting.{Stack, ClassInfo, check_namespace_indentation, is_namespace}
use turtle.Regex.{
  Regex, seq, choice, many, some_of, group, word, dot, space, word_char, word_edge, at_start,
  at_end, match, matches, found, captured_text,
}
use turtle.Report.{Report, report}

-- `not line or line.isspace()`
unfoldable pub is_blank_line : Text → Bool
is_blank_line line = all is_space line

-- `GetPreviousNonBlankLine`: the search from the line before `n` down, `none` for -1.
unfoldable pub get_previous_non_blank_line : List Text → ℕ → Text × Option ℕ
get_previous_non_blank_line elided zero = ([], none)
get_previous_non_blank_line elided (suc n) =
    let earlier = get_previous_non_blank_line elided n in
    if not (is_blank_line (line_at elided n)) then (line_at elided n, some n) else earlier

-- `r'\\$'`, and `r'^#define'`.
unfoldable pub backslash_pattern : Regex
unfolding seq word
backslash_pattern = seq (word "\\" ∷ at_end ∷ [])

unfoldable pub define_pattern : Regex
unfolding seq word
define_pattern = seq (at_start ∷ word "#define" ∷ [])

-- `linenum > 0 and Search(r'\\$', clean_lines[linenum - 1])`
abbrev continues : List Text → ℕ → Bool
continues elided zero = false
continues elided (suc n) = found backslash_pattern (line_at elided n)

unfoldable pub is_macro_definition : List Text → ℕ → Bool
is_macro_definition elided n = found define_pattern (line_at elided n) || continues elided n

-- `r'^\s*(\btemplate\b)*.*class\s+\w+;\s*$'`
unfoldable pub forward_class_pattern : Regex
unfolding seq some_of word space dot word_char
forward_class_pattern = seq (
    at_start
    ∷ many space
    ∷ many (group 1 (seq (word_edge ∷ word "template" ∷ word_edge ∷ [])))
    ∷ many dot
    ∷ word "class"
    ∷ some_of space
    ∷ some_of word_char
    ∷ word ";"
    ∷ many space
    ∷ at_end
    ∷ [])

unfoldable pub is_forward_class_declaration : List Text → ℕ → Bool
is_forward_class_declaration elided n = matches forward_class_pattern (line_at elided n)

unfoldable pub is_block_in_namespace : Stack → Bool → Bool
is_block_in_namespace [] forward = false
is_block_in_namespace (b ∷ []) forward = if forward then is_namespace b.kind else false
is_block_in_namespace (b ∷ c ∷ stack) forward =
    if forward
    then is_namespace b.kind
    else check_namespace_indentation b.kind && is_namespace c.kind

unfoldable pub should_check_namespace_indentation : Stack → Bool → List Text → ℕ → Bool
should_check_namespace_indentation stack is_item elided n =
    let forward = is_forward_class_declaration elided n in
    if not (is_item || forward)
    then false
    else if is_macro_definition elided n
    then false
    else is_block_in_namespace stack forward

abbrev starts_with_space : Text → Bool
starts_with_space [] = false
starts_with_space (c ∷ _) = is_space c

unfoldable pub check_item_indentation_in_namespace : Text → List Text → ℕ → List Report
check_item_indentation_in_namespace f elided n =
    if starts_with_space (line_at elided n)
    then report f n (codes "runtime/indentation_namespace") 4
        (codes "Do not indent within a namespace")
      ∷ []
    else []

-- `r'\s*(public|protected|private):'`, `r'\b(class|struct)\b'` and `r'\{\s*$'`.
unfoldable pub section_pattern : Regex
unfolding seq choice word space
section_pattern = seq (
    many space
    ∷ group 1 (choice (word "public" ∷ word "protected" ∷ word "private" ∷ []))
    ∷ word ":"
    ∷ [])

unfoldable class_word_pattern : Regex
unfolding seq choice word
class_word_pattern =
    seq (word_edge ∷ group 1 (choice (word "class" ∷ word "struct" ∷ [])) ∷ word_edge ∷ [])

unfoldable open_line_pattern : Regex
unfolding seq word space
open_line_pattern = seq (word "{" ∷ many space ∷ at_end ∷ [])

-- The first of `rounds` lines from `i` on that ends in an opening brace, or `start`.
unfoldable end_class_head : List Text → ℕ → ℕ → ℕ → ℕ
end_class_head lines start i zero = start
end_class_head lines start i (suc rounds) =
    let later = end_class_head lines start (suc i) rounds in
    if found open_line_pattern (line_at lines i) then i else later

abbrev section_report : Text → CleansedLines → ℕ → ℕ → Text → List Report
section_report f clean start n section =
    let prev_line = line_at clean.lines (n - 1) in
    if not (is_blank_line prev_line)
      && not (found class_word_pattern prev_line)
      && not (found backslash_pattern prev_line)
    then (if ltb (end_class_head clean.lines start start (n - start)) (n - 1)
        then report f n (codes "whitespace/blank_line") 3
            (codes "\"" ++ (section ++ codes ":\" should be preceded by a blank line"))
          ∷ []
        else [])
    else []

-- `start` is the class's `starting_linenum`. Behind the two guards `n` is past `start`.
pub check_section_spacing : Text → CleansedLines → ClassInfo → ℕ → ℕ → List Report
check_section_spacing f clean c start n =
    if leb c.last_line (start + 24) || leb n start
    then []
    else on_match (match section_pattern (line_at clean.lines n))
        (λ m. section_report f clean start n (captured_text 1 m))

pub check_section_spacing-Listed :
    (f : Text) (clean : CleansedLines) (c : ClassInfo) (start n : ℕ)
    → Listed f n (check_section_spacing f clean c start n)
unfolding check_section_spacing
check_section_spacing-Listed f clean c start n = search listed

-- What the search for the previous line may answer.
pub IsPrevious : List Text → ℕ → Text × Option ℕ → Type 0
IsPrevious elided n (line, none) =
    (line ≡ []) × ((i : ℕ) → i < n → is_blank_line (line_at elided i) ≡ true)
IsPrevious elided n (line, some j) =
    (line ≡ line_at elided j)
    × (j < n)
    × (is_blank_line line ≡ false)
    × ((i : ℕ) → j < i → i < n → is_blank_line (line_at elided i) ≡ true)

-- One more blank line.
below_suc :
    (elided : List Text) (n i : ℕ)
    → is_blank_line (line_at elided n) ≡ true
    → i < suc n
    → (i < n → is_blank_line (line_at elided i) ≡ true)
    → is_blank_line (line_at elided i) ≡ true
below_suc elided n i e h f = elim (Bool-cases (ltb i n)) [
  | inl l ↦ f (ltb→lt i n l)
  | inr l ↦ let same : i ≡ n = ground arith in rw same e
]

step_back :
    (elided : List Text) (n : ℕ) (r : Text × Option ℕ)
    → is_blank_line (line_at elided n) ≡ true
    → IsPrevious elided n r
    → IsPrevious elided (suc n) r
unfolding IsPrevious
step_back elided n (line, none) e (p, q) = (p, λ i h. below_suc elided n i e h (q i))
step_back elided n (line, some j) e (p, q, r, s) =
    (p, omega (arith, q), r, λ i g h. below_suc elided n i e h (s i g))

-- The line that `GetPreviousNonBlankLine` gives is in front, not blank, and all between are blank;
-- where it gives none, every line in front is blank.
pub get_previous_non_blank_line-IsPrevious :
    (elided : List Text) (n : ℕ) → IsPrevious elided n (get_previous_non_blank_line elided n)
unfolding get_previous_non_blank_line IsPrevious
get_previous_non_blank_line-IsPrevious elided zero = (refl, λ i h. absurd (omega (arith, h)))
get_previous_non_blank_line-IsPrevious elided (suc n) =
    elim (Bool-cases (is_blank_line (line_at elided n))) [
      | inl e ↦
          rw (e, get_previous_non_blank_line)
            (step_back elided n (get_previous_non_blank_line elided n) e
              (get_previous_non_blank_line-IsPrevious elided n))
      | inr e ↦
          rw (e, get_previous_non_blank_line)
            (refl, omega arith, e, λ i h g. absurd (omega (arith, h, g)))
    ]
