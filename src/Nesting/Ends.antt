-- ===== src/Nesting/Ends.antt =====
-- build_support/cpplint.py: `CheckEnd` of the block classes.
use turtle.Common.{
  ℕ, zero, suc, ◌+◌, ◌-◌, Bool, false, not, ◌&&◌, ◌||◌, List, [], ◌∷◌, ◌++◌, none, some, ◌==◌, ltb,
  if◌then◌else◌,
}
use turtle.Common.Text.{Text, codes}
use turtle.Common.Slices.{line_at}
use turtle.Cleanse.{CleansedLines}
use turtle.Regex.{
  Regex, lit, seq, choice, many, some_of, group, word, one_of, dot, space, word_edge, at_start,
  at_end, matches, find_match, captured_text,
}
use turtle.Report.{Report, report}
use turtle.Nesting.{block, extern_c, class_info, namespace_info, ClassInfo, BlockInfo, blanks}

-- `CheckEnd` of a class: a DISALLOW macro among the lines, nearest first, down to the start.
disallow_pattern : Text → Regex
unfolding seq choice word lit codes
disallow_pattern name = seq (
    word_edge
    ∷ group 1
        (choice (word "DISALLOW_COPY_AND_ASSIGN" ∷ word "DISALLOW_IMPLICIT_CONSTRUCTORS" ∷ []))
    ∷ word "("
    ∷ lit name
    ∷ word ")"
    ∷ [])

unfoldable pub blank_pattern : Regex
unfolding seq space
blank_pattern = seq (at_start ∷ many space ∷ at_end ∷ [])

abbrev pub parent_of : ClassInfo → Text
parent_of c = if c.is_struct then codes "struct " ++ c.name else codes "class " ++ c.name

-- `rounds` lines are left, and the next one is `start + rounds`.
unfoldable pub check_disallow : Text → List Text → Text → ℕ → ℕ → Bool → List Report
unfolding disallow_pattern
check_disallow f elided name start zero seen_last = []
check_disallow f elided name start (suc rounds) seen_last =
    let line = line_at elided (start + suc rounds) in
    let later =
      check_disallow f elided name start rounds (seen_last || not (matches blank_pattern line)) in
    elim (find_match (disallow_pattern name) line) [
      | none ↦ later
      | some m ↦
          if seen_last
          then report f (start + suc rounds) (codes "readability/constructors") 3
              (captured_text 1 m ++ codes " should be the last thing in the class")
            ∷ []
          else []
    ]

abbrev starts_brace : Text → Bool
starts_brace [] = false
starts_brace (c ∷ _) = c == b'}'

unfoldable pub check_class_end : Text → CleansedLines → ℕ → ℕ → ClassInfo → List Report
unfolding blanks
check_class_end f clean n start c =
    let line = line_at clean.elided n in
    check_disallow f clean.elided c.name start (n - 1 - start) false
    ++ (if starts_brace (blanks line).1 && not ((blanks line).0 == c.class_indent)
        then report f n (codes "whitespace/indent") 3
            (codes "Closing brace should be aligned with beginning of " ++ parent_of c)
          ∷ []
        else [])

-- The patterns of `_NamespaceInfo.CheckEnd`, each from `r'^\s*};*\s*(//|/\*).*\bnamespace'` on.
namespace_comment : List Regex → Regex
unfolding seq choice word space dot
namespace_comment tail = seq (
    at_start
    ∷ many space
    ∷ word "}"
    ∷ many (word ";")
    ∷ many space
    ∷ choice (word "//" ∷ word "/*" ∷ [])
    ∷ many dot
    ∷ word_edge
    ∷ word "namespace"
    ∷ tail)

-- `[\*/\.\\\s]*$`
comment_tail : List Regex
unfolding space one_of codes
comment_tail = many (choice (space ∷ one_of "*/.\\" ∷ [])) ∷ at_end ∷ []

unfoldable pub any_namespace_comment : Regex
unfolding namespace_comment
any_namespace_comment = namespace_comment (word_edge ∷ [])

unfoldable pub named_namespace_comment : Text → Regex
unfolding namespace_comment comment_tail some_of space
named_namespace_comment name = namespace_comment (some_of space ∷ lit name ∷ comment_tail)

unfoldable pub anonymous_namespace_comment : Regex
unfolding namespace_comment comment_tail
anonymous_namespace_comment = namespace_comment comment_tail

unfoldable pub anonymous_words : Regex
unfolding seq choice word space dot
anonymous_words = seq (
    at_start
    ∷ many space
    ∷ word "}"
    ∷ many dot
    ∷ word_edge
    ∷ choice (word "namespace anonymous" ∷ word "anonymous namespace" ∷ [])
    ∷ word_edge
    ∷ [])

abbrev namespace_report : Text → ℕ → Text → List Report
namespace_report f n message = report f n (codes "readability/namespace") 5 message ∷ []

abbrev check_namespace_comment : Text → ℕ → Text → Text → List Report
check_namespace_comment f n line [] =
    if not (matches anonymous_namespace_comment line)
    then (if matches anonymous_words line
        then namespace_report f n (
            codes
              "Anonymous namespace should be terminated with \"// namespace\" or \"// anonymous namespace\"")
        else namespace_report f n
            (codes "Anonymous namespace should be terminated with \"// namespace\""))
    else []
check_namespace_comment f n line (c ∷ name) =
    if not (matches (named_namespace_comment (c ∷ name)) line)
    then namespace_report f n
        (codes "Namespace should be terminated with \"// namespace " ++ (c ∷ name ++ codes "\""))
    else []

unfoldable pub check_namespace_end : Text → CleansedLines → ℕ → ℕ → Text → List Report
check_namespace_end f clean n start name =
    let line = line_at clean.raw_lines n in
    if ltb (n - start) 10 && not (matches any_namespace_comment line)
    then []
    else check_namespace_comment f n line name

-- `CheckEnd` of each class.
unfoldable pub check_end : Text → CleansedLines → ℕ → BlockInfo → List Report
check_end f clean n b = elim b.kind [
  | block ↦ []
  | extern_c ↦ []
  | class_info c ↦ check_class_end f clean n b.starting_linenum c
  | namespace_info name ↦ check_namespace_end f clean n b.starting_linenum name
]
