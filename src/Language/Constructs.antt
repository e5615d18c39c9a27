-- ===== src/Language/Constructs.antt =====
-- build_support/cpplint.py: `CheckForNonStandardConstructs`.
use turtle.Common.{
  ℕ, suc, ◌+◌, ◌-◌, Bool, true, false, not, ◌&&◌, ◌||◌, List, [], ◌∷◌, ◌++◌, Option, none, some,
  ◌==◌, ltb, leb, if◌then◌else◌, length, last?,
}
use turtle.Common.Text.{Text, codes, eq_text, count, replace, is_space, strip, split, contains}
use turtle.Common.Slices.{or_nil, line_at}
use turtle.Regex.{
  Regex, char, both, many, group, word_edge, at_start, lit, word, one_of, none_of, dot, space,
  word_char, digit, optional, some_of, choice, seq, match, matches, found, captured, captured_text,
}
use turtle.Report.{Report, report, report_if}
use turtle.Listed.{Listed, listed, on_some, unless_found, behind, Returned}
use turtle.Cleanse.{CleansedLines}
use turtle.Nesting.{NestingState, innermost_class}

-- `printf\s*\(.*".*%[-+ ]?\d*q`
unfoldable quad_pattern : Regex
unfolding seq word one_of dot space digit
quad_pattern = seq (
    word "printf"
    ∷ many space
    ∷ word "("
    ∷ many dot
    ∷ word "\""
    ∷ many dot
    ∷ word "%"
    ∷ optional (one_of "-+ ")
    ∷ many digit
    ∷ word "q"
    ∷ [])

-- `printf\s*\(.*".*%\d+\$`
unfoldable dollar_pattern : Regex
unfolding seq some_of word dot space digit
dollar_pattern = seq (
    word "printf"
    ∷ many space
    ∷ word "("
    ∷ many dot
    ∷ word "\""
    ∷ many dot
    ∷ word "%"
    ∷ some_of digit
    ∷ word "$"
    ∷ [])

-- `("|\').*\\(%|\[|\(|{)`
unfoldable escape_pattern : Regex
unfolding seq word one_of dot
escape_pattern = seq (group 1 (one_of "\"'") ∷ many dot ∷ word "\\" ∷ group 2 (one_of "%[({") ∷ [])

-- `\b(const|volatile|void|char|short|int|long|float|double|signed|unsigned|schar|u?int8|u?int16|u?int32|u?int64)\s+(register|static|extern|typedef)\b`
unfoldable storage_pattern : Regex
unfolding seq choice some_of word space
storage_pattern = seq (
    word_edge
    ∷ group 1 (
        choice (
          word "const"
          ∷ word "volatile"
          ∷ word "void"
          ∷ word "char"
          ∷ word "short"
          ∷ word "int"
          ∷ word "long"
          ∷ word "float"
          ∷ word "double"
          ∷ word "signed"
          ∷ word "unsigned"
          ∷ word "schar"
          ∷ seq (optional (word "u") ∷ word "int8" ∷ [])
          ∷ seq (optional (word "u") ∷ word "int16" ∷ [])
          ∷ seq (optional (word "u") ∷ word "int32" ∷ [])
          ∷ seq (optional (word "u") ∷ word "int64" ∷ [])
          ∷ []))
    ∷ some_of space
    ∷ group 2 (choice (word "register" ∷ word "static" ∷ word "extern" ∷ word "typedef" ∷ []))
    ∷ word_edge
    ∷ [])

-- `\s*#\s*endif\s*[^/\s]+`
unfoldable endif_pattern : Regex
unfolding seq some_of word space is_space
endif_pattern = seq (
    many space
    ∷ word "#"
    ∷ many space
    ∷ word "endif"
    ∷ many space
    ∷ some_of (char (λ c. not (c == b'/' || is_space c)))
    ∷ [])

-- `\s*class\s+(\w+\s*::\s*)+\w+\s*;`
unfoldable forward_pattern : Regex
unfolding seq some_of word space word_char
forward_pattern = seq (
    many space
    ∷ word "class"
    ∷ some_of space
    ∷ some_of (group 1 (seq (some_of word_char ∷ many space ∷ word "::" ∷ many space ∷ [])))
    ∷ some_of word_char
    ∷ many space
    ∷ word ";"
    ∷ [])

-- `(\w+|[+-]?\d+(\.\d*)?)\s*(<|>)\?=?\s*(\w+|[+-]?\d+)(\.\d*)?`
unfoldable max_min_pattern : Regex
unfolding seq choice some_of word one_of space word_char digit
max_min_pattern = seq (
    group 1 (
      choice (
        some_of word_char
        ∷ seq (
            optional (one_of "+-")
            ∷ some_of digit
            ∷ optional (group 2 (seq (word "." ∷ many digit ∷ [])))
            ∷ [])
        ∷ []))
    ∷ many space
    ∷ group 3 (one_of "<>")
    ∷ word "?"
    ∷ optional (word "=")
    ∷ many space
    ∷ group 4 (choice (some_of word_char ∷ seq (optional (one_of "+-") ∷ some_of digit ∷ []) ∷ []))
    ∷ optional (group 5 (seq (word "." ∷ many digit ∷ [])))
    ∷ [])

-- `^\s*const\s*string\s*&\s*\w+\s*;`
unfoldable string_member_pattern : Regex
unfolding seq some_of word space word_char
string_member_pattern = seq (
    at_start
    ∷ many space
    ∷ word "const"
    ∷ many space
    ∷ word "string"
    ∷ many space
    ∷ word "&"
    ∷ many space
    ∷ some_of word_char
    ∷ many space
    ∷ word ";"
    ∷ [])

unfoldable format_reports : Text → ℕ → Text → List Report
format_reports f n line =
    report_if (found quad_pattern line) f n (codes "runtime/printf_format") 3
      (codes "%q in format strings is deprecated.  Use %ll instead.")
    ++ (report_if (found dollar_pattern line) f n (codes "runtime/printf_format") 2
          (codes "%N$ formats are unconventional.  Try rewriting to avoid them.")
        ++ report_if (found escape_pattern (replace (codes "\\\\") [] line)) f n
            (codes "build/printf_format") 3
            (codes "%, [, (, and { are undefined character escapes.  Unescape them."))

unfoldable declaration_reports : Text → ℕ → Text → List Report
declaration_reports f n line =
    report_if (found storage_pattern line) f n (codes "build/storage_class") 5 (
      codes
        "Storage-class specifier (static, extern, typedef, etc) should be at the beginning of the declaration.")
    ++ (report_if (matches endif_pattern line) f n (codes "build/endif_comment") 5
          (codes "Uncommented text after #endif is non-standard.  Use a comment.")
        ++ (report_if (matches forward_pattern line) f n (codes "build/forward_decl") 5
              (codes "Inner-style forward declarations are invalid.  Remove this line.")
            ++ (report_if (found max_min_pattern line) f n (codes "build/deprecated") 3
                  (codes ">? and <? (max and min) operators are non-standard and deprecated.")
                ++ report_if (found string_member_pattern line) f n
                    (codes "runtime/member_string_references") 2
                    (codes
                      "const string& members are dangerous. It is much better to use alternatives, such as pointers or simple constants."))))

-- `name.split('::')[-1]`; a name has no code point 0.
unfoldable base_classname : Text → Text
base_classname name = or_nil (last? (split 0 (replace (codes "::") (0 ∷ []) name)))

-- `\s+(?:(?:inline|constexpr)\s+)*(explicit\s+)?(?:(?:inline|constexpr)\s+)*`
unfoldable constructor_front : Regex
unfolding seq choice some_of word space
constructor_front = seq (
    some_of space
    ∷ many (seq (choice (word "inline" ∷ word "constexpr" ∷ []) ∷ some_of space ∷ []))
    ∷ optional (group 1 (seq (word "explicit" ∷ some_of space ∷ [])))
    ∷ many (seq (choice (word "inline" ∷ word "constexpr" ∷ []) ∷ some_of space ∷ []))
    ∷ [])

-- The front, the class's name, and `r'\s*\(((?:[^()]|\([^()]*\))*)\)'`.
unfoldable constructor_pattern : Text → Regex
unfolding seq lit space word none_of choice
constructor_pattern base = seq (
    constructor_front
    ∷ lit base
    ∷ many space
    ∷ word "("
    ∷ group 2
        (many (choice (none_of "()" ∷ seq (word "(" ∷ many (none_of "()") ∷ word ")" ∷ []) ∷ [])))
    ∷ word ")"
    ∷ [])

-- `(const\s+)?`
unfoldable copy_front : Regex
unfolding seq some_of word space
copy_front = optional (group 1 (seq (word "const" ∷ some_of space ∷ [])))

-- `(\s*<[^>]*>)?(\s+const)?\s*(?:<\w+>\s*)?&`
unfoldable copy_back : Regex
unfolding seq some_of word none_of space word_char
copy_back = seq (
    optional (group 1 (seq (many space ∷ word "<" ∷ many (none_of ">") ∷ word ">" ∷ [])))
    ∷ optional (group 2 (seq (some_of space ∷ word "const" ∷ [])))
    ∷ many space
    ∷ optional (seq (word "<" ∷ some_of word_char ∷ word ">" ∷ many space ∷ []))
    ∷ word "&"
    ∷ [])

-- `\bstd\s*::\s*initializer_list\b`
unfoldable initializer_list_pattern : Regex
unfolding seq word space
initializer_list_pattern = seq (
    word_edge
    ∷ word "std"
    ∷ many space
    ∷ word "::"
    ∷ many space
    ∷ word "initializer_list"
    ∷ word_edge
    ∷ [])

abbrev is_unbalanced : Text → Bool
is_unbalanced arg =
    ltb (count (codes ">") arg) (count (codes "<") arg)
    || ltb (count (codes ")") arg) (count (codes "(") arg)

abbrev push : Text → Option (List Text) → Option (List Text)
push arg none = none
push arg (some args) = some (arg ∷ args)

-- The arguments are joined until their brackets are balanced; `none` is the IndexError where there
-- are no more to join.
unfoldable join_args : Text → List Text → Option (List Text)
join_args arg [] = if is_unbalanced arg then none else some (arg ∷ [])
join_args arg (next ∷ args) =
    let joined = join_args (arg ++ (b',' ∷ next)) args in
    let later = join_args next args in if is_unbalanced arg then joined else push arg later

abbrev is_nil : Text → Bool
is_nil [] = true
is_nil _ = false

-- `group(2).split(',')`, joined; no arguments for an empty text.
unfoldable constructor_args : Text → Option (List Text)
constructor_args text =
    if is_nil text
    then some []
    else elim (split b',' text) [ [] ↦ some [] | arg ∷ args ↦ join_args arg args ]

unfoldable count_with : Text → List Text → ℕ
count_with p [] = 0
count_with p (arg ∷ args) = if contains p arg then suc (count_with p args) else count_with p args

abbrev first_arg : List Text → Text
first_arg [] = []
first_arg (arg ∷ _) = arg

unfoldable is_noarg : List Text → Bool
is_noarg args =
    length args == 0 || (length args == 1 && eq_text (strip (first_arg args)) (codes "void"))

unfoldable is_onearg : List Text → Bool
is_onearg args =
    (length args == 1 && not (is_noarg args))
    || (leb 1 (length args)
        && not (is_noarg args)
        && leb (length args - 1) (count_with (codes "=") args))
    || (leb (length args) 2 && leb 1 (count_with (codes "&&...") args))

-- The constructors that need no `explicit`: of an initializer list, and a copy or a move.
unfoldable is_exempt : Text → List Text → Bool
is_exempt base args =
    found initializer_list_pattern (first_arg args)
    || matches (both copy_front (both (lit base) copy_back)) (strip (first_arg args))

abbrev explicit_report : Text → ℕ → Text → List Report
explicit_report f n message = report f n (codes "runtime/explicit") 5 message ∷ []

unfoldable explicit_reports : Text → ℕ → Text → Bool → List Text → List Report
explicit_reports f n base is_marked args =
    if not is_marked && is_onearg args && not (is_exempt base args)
    then if leb 1 (count_with (codes "=") args + count_with (codes "&&...") args)
      then explicit_report f n
          (codes "Constructors callable with one argument should be marked explicit.")
      else explicit_report f n (codes "Single-parameter constructors should be marked explicit.")
    else if is_marked && not (is_onearg args) && is_noarg args
    then explicit_report f n (codes "Zero-parameter constructors should not be marked explicit.")
    else []

abbrev is_present : Option Text → Bool
is_present none = false
is_present (some t) = not (is_nil t)

unfoldable constructor_reports : Text → ℕ → Text → Text → Option (List Report)
constructor_reports f n line base = unless_found (match (constructor_pattern base) line) (λ m.
    on_some (constructor_args (captured_text 2 m))
      (λ args. some (explicit_reports f n base (is_present (captured 1 m)) args)))

unfoldable class_reports : Text → ℕ → Text → NestingState → Option (List Report)
class_reports f n line s = unless_found (innermost_class s.stack) (λ c.
    if (c.1).seen_open_brace
    then constructor_reports f n line (base_classname (c.0).name)
    else some [])

-- `none` where the script stops with an IndexError.
pub check_for_non_standard_constructs :
    Text → CleansedLines → ℕ → NestingState → Option (List Report)
check_for_non_standard_constructs f clean n s =
    behind
      (format_reports f n (line_at clean.lines n)
        ++ declaration_reports f n (line_at clean.elided n))
      (class_reports f n (line_at clean.elided n) s)

format_reports-Listed : (f : Text) (n : ℕ) (line : Text) → Listed f n (format_reports f n line)
unfolding format_reports
format_reports-Listed f n line = search (listed)

declaration_reports-Listed :
    (f : Text) (n : ℕ) (line : Text) → Listed f n (declaration_reports f n line)
unfolding declaration_reports
declaration_reports-Listed f n line = search (listed) depth 10

explicit_reports-Listed :
    (f : Text) (n : ℕ) (base : Text) (is_marked : Bool) (args : List Text)
    → Listed f n (explicit_reports f n base is_marked args)
unfolding explicit_reports
explicit_reports-Listed f n base is_marked args = search (listed)

constructor_reports-Listed :
    (f : Text) (n : ℕ) (line : Text) (base : Text)
    → Returned f n (constructor_reports f n line base)
unfolding constructor_reports
constructor_reports-Listed f n line base = search (listed, explicit_reports-Listed)

class_reports-Listed :
    (f : Text) (n : ℕ) (line : Text) (s : NestingState) → Returned f n (class_reports f n line s)
unfolding class_reports
class_reports-Listed f n line s = search (listed, constructor_reports-Listed)

pub check_for_non_standard_constructs-Listed :
    (f : Text) (clean : CleansedLines) (n : ℕ) (s : NestingState)
    → Returned f n (check_for_non_standard_constructs f clean n s)
unfolding check_for_non_standard_constructs
check_for_non_standard_constructs-Listed f clean n s =
    search (listed, format_reports-Listed, declaration_reports-Listed, class_reports-Listed)
