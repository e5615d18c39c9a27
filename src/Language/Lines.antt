-- ===== src/Language/Lines.antt =====
-- build_support/cpplint.py: `CheckLanguage`.
use turtle.Common.{
  ℕ, Bool, true, false, not, ◌&&◌, ◌||◌, List, [], ◌∷◌, ◌++◌, Option, none, some, ◌==◌,
  if◌then◌else◌,
}
use turtle.Common.Text.{
  Text, codes, eq_text, starts_with, ends_with, between, is_digit, is_upper, is_word, contains,
}
use turtle.Common.Slices.{line_at}
use turtle.Regex.{
  Regex, char, many, group, word_edge, at_start, at_end, not_ahead, Cursor, word, one_of, none_of,
  dot, space, word_char, digit, optional, some_of, choice, seq, match, matches, find_match, found,
  captured_text, split_all,
}
use turtle.Report.{Report, report, report_if}
use turtle.Listed.{
  Yields, yields, Yields-on_some, Yields-if, Yields-Returned, Listed-append, none_left, on_match,
  Listed, listed, on_some, Returned,
}
use turtle.Cleanse.{CleansedLines}
use turtle.Checks.Inside.{Inside, nothing, inside, failed, get_text_inside}
use turtle.Includes.{IncludeState, reset_section}
use turtle.Includes.Lines.{include_line_pattern, check_include_line, check_include_line-Listed}
use turtle.Paths.{FileSystem, Settings}
use turtle.Paths.Extensions.{is_header_extension}
use turtle.Language.Casts.{check_casts, check_casts-Listed}
use turtle.Language.Statics.{check_global_static, check_global_static-Listed}
use turtle.Language.Calls.{check_printf, check_printf-Listed}
use mathlib.Core.List.{reverse}

-- `^\s*#\s*(if|ifdef|ifndef|elif|else|endif)\b`
unfoldable conditional_pattern : Regex
unfolding seq choice word space
conditional_pattern = seq (
    at_start
    ∷ many space
    ∷ word "#"
    ∷ many space
    ∷ group 1 (
        choice (
          word "if" ∷ word "ifdef" ∷ word "ifndef" ∷ word "elif" ∷ word "else" ∷ word "endif" ∷ []))
    ∷ word_edge
    ∷ [])

-- `\bshort port\b`
unfoldable short_port_pattern : Regex
unfolding seq word
short_port_pattern = seq (word_edge ∷ word "short port" ∷ word_edge ∷ [])

-- `\bunsigned short port\b`
unfoldable unsigned_port_pattern : Regex
unfolding seq word
unsigned_port_pattern = seq (word_edge ∷ word "unsigned short port" ∷ word_edge ∷ [])

-- `\b(short|long(?! +double)|long long)\b`
unfoldable integer_pattern : Regex
unfolding seq choice some_of word
integer_pattern = seq (
    word_edge
    ∷ group 1 (
        choice (
          word "short"
          ∷ seq (word "long" ∷ not_ahead (seq (some_of (word " ") ∷ word "double" ∷ [])) ∷ [])
          ∷ word "long long"
          ∷ []))
    ∷ word_edge
    ∷ [])

-- `\boperator\s*&\s*\(\s*\)`
unfoldable address_operator_pattern : Regex
unfolding seq word space
address_operator_pattern = seq (
    word_edge
    ∷ word "operator"
    ∷ many space
    ∷ word "&"
    ∷ many space
    ∷ word "("
    ∷ many space
    ∷ word ")"
    ∷ [])

-- `\}\s*if\s*\(`
unfoldable brace_if_pattern : Regex
unfolding seq word space
brace_if_pattern = seq (word "}" ∷ many space ∷ word "if" ∷ many space ∷ word "(" ∷ [])

unfoldable integer_reports : Text → ℕ → Text → List Report
integer_reports f n line =
    if found short_port_pattern line
    then report_if (not (found unsigned_port_pattern line)) f n (codes "runtime/int") 4
        (codes "Use \"unsigned short\" for ports, not \"short\"")
    else on_match (find_match integer_pattern line) (λ m.
      report f n (codes "runtime/int") 4
        (codes "Use int16/int64/etc, rather than the C type " ++ captured_text 1 m)
      ∷ [])

unfoldable operator_reports : Text → ℕ → Text → List Report
operator_reports f n line =
    report_if (found address_operator_pattern line) f n (codes "runtime/operator") 4
      (codes "Unary operator& is dangerous.  Do not use it.")
    ++ report_if (found brace_if_pattern line) f n (codes "readability/braces") 4
        (codes "Did you mean \"else if\"? If not, start a new line for \"if\".")

-- `(?i)\b(string)?printf\s*\(`
unfoldable printf_pattern : Regex
unfolding seq word one_of space
printf_pattern = seq (
    word_edge
    ∷ optional (
        group 1 (
          seq (
            one_of "sS"
            ∷ one_of "tT"
            ∷ one_of "rR"
            ∷ one_of "iI"
            ∷ one_of "nN"
            ∷ one_of "gG"
            ∷ [])))
    ∷ one_of "pP"
    ∷ one_of "rR"
    ∷ one_of "iI"
    ∷ one_of "nN"
    ∷ one_of "tT"
    ∷ one_of "fF"
    ∷ many space
    ∷ word "("
    ∷ [])

-- `(?i)\b((?:string)?printf)\s*\(`
unfoldable printf_name_pattern : Regex
unfolding seq word one_of space
printf_name_pattern = seq (
    word_edge
    ∷ group 1 (
        seq (
          optional (
            seq (
              one_of "sS"
              ∷ one_of "tT"
              ∷ one_of "rR"
              ∷ one_of "iI"
              ∷ one_of "nN"
              ∷ one_of "gG"
              ∷ []))
          ∷ one_of "pP"
          ∷ one_of "rR"
          ∷ one_of "iI"
          ∷ one_of "nN"
          ∷ one_of "tT"
          ∷ one_of "fF"
          ∷ []))
    ∷ many space
    ∷ word "("
    ∷ [])

-- `([\w.\->()]+)$`
unfoldable variable_pattern : Regex
unfolding seq some_of is_word
variable_pattern = seq (
    group 1 (
      some_of
        (char (λ c. is_word c || c == b'.' || c == b'-' || c == b'>' || c == b'(' || c == b')')))
    ∷ at_end
    ∷ [])

abbrev name_of : Option Cursor → Text
name_of none = []
name_of (some m) = captured_text 1 m

unfoldable format_reports : Text → ℕ → Text → Text → List Report
format_reports f n line printf_args = on_match (match variable_pattern printf_args) (λ m.
    report_if (not (eq_text (captured_text 1 m) (codes "__VA_ARGS__"))) f n (codes "runtime/printf")
      4
      (codes "Potential format string bug. Do "
        ++ (name_of (find_match printf_name_pattern line)
            ++ (codes "(\"%s\", " ++ (captured_text 1 m ++ codes ") instead.")))))

-- `none` is the failed assertion of `_GetTextInside`.
unfoldable inside_text : Inside → Option Text
inside_text nothing = some []
inside_text (inside t) = some t
inside_text failed = none

unfoldable printf_reports : Text → ℕ → Text → Option (List Report)
printf_reports f n line =
    on_some (inside_text (get_text_inside line printf_pattern))
      (λ t. some (format_reports f n line t))

-- `memset\s*\(([^,]*),\s*([^,]*),\s*0\s*\)`
unfoldable memset_pattern : Regex
unfolding seq word none_of space
memset_pattern = seq (
    word "memset"
    ∷ many space
    ∷ word "("
    ∷ group 1 (many (none_of ","))
    ∷ word ","
    ∷ many space
    ∷ group 2 (many (none_of ","))
    ∷ word ","
    ∷ many space
    ∷ word "0"
    ∷ many space
    ∷ word ")"
    ∷ [])

-- `^''|-?[0-9]+|0x[0-9A-Fa-f]$`
unfoldable byte_pattern : Regex
unfolding seq choice some_of word is_digit
byte_pattern = choice (
    seq (at_start ∷ word "''" ∷ [])
    ∷ seq (optional (word "-") ∷ some_of (char (λ c. is_digit c)) ∷ [])
    ∷ seq (
        word "0x"
        ∷ char (λ c. is_digit c || between b'A' b'F' c || between b'a' b'f' c)
        ∷ at_end
        ∷ [])
    ∷ [])

-- `\busing namespace\b`
unfoldable using_namespace_pattern : Regex
unfolding seq word
using_namespace_pattern = seq (word_edge ∷ word "using namespace" ∷ word_edge ∷ [])

-- `\bliterals\b`
unfoldable literals_pattern : Regex
unfolding seq word
literals_pattern = seq (word_edge ∷ word "literals" ∷ word_edge ∷ [])

unfoldable memset_reports : Text → ℕ → Text → List Report
memset_reports f n line = on_match (find_match memset_pattern line) (λ m.
    report_if (not (matches byte_pattern (captured_text 2 m))) f n (codes "runtime/memset") 4 (
      codes "Did you mean \"memset("
      ++ (captured_text 1 m ++ (codes ", 0, " ++ (captured_text 2 m ++ codes ")\"?")))))

unfoldable using_reports : Text → ℕ → Text → List Report
using_reports f n line =
    if found using_namespace_pattern line
    then if found literals_pattern line
      then report f n (codes "build/namespaces_literals") 5
          (codes "Do not use namespace using-directives.  Use using-declarations instead.")
        ∷ []
      else report f n (codes "build/namespaces") 5
          (codes "Do not use namespace using-directives.  Use using-declarations instead.")
        ∷ []
    else []

-- `\s*(.+::)?(\w+) [a-z]\w*\[(.+)];`
unfoldable array_pattern : Regex
unfolding seq some_of word dot space word_char
array_pattern = seq (
    many space
    ∷ optional (group 1 (seq (some_of dot ∷ word "::" ∷ [])))
    ∷ group 2 (some_of word_char)
    ∷ word " "
    ∷ char (λ c. between b'a' b'z' c)
    ∷ many word_char
    ∷ word "["
    ∷ group 3 (some_of dot)
    ∷ word "];"
    ∷ [])

-- `\s|\+|\-|\*|\/|<<|>>]`
unfoldable separator_pattern : Regex
unfolding choice word space
separator_pattern =
    choice (space ∷ word "+" ∷ word "-" ∷ word "*" ∷ word "/" ∷ word "<<" ∷ word ">>]" ∷ [])

-- `sizeof\(.+\)`
unfoldable sizeof_pattern : Regex
unfolding seq some_of word dot
sizeof_pattern = seq (word "sizeof(" ∷ some_of dot ∷ word ")" ∷ [])

-- `arraysize\(\w+\)`
unfoldable arraysize_pattern : Regex
unfolding seq some_of word word_char
arraysize_pattern = seq (word "arraysize(" ∷ some_of word_char ∷ word ")" ∷ [])

-- `\d+`
unfoldable number_pattern : Regex
unfolding some_of digit
number_pattern = some_of digit

-- `0[xX][0-9a-fA-F]+`
unfoldable hexadecimal_pattern : Regex
unfolding seq some_of word one_of is_digit
hexadecimal_pattern = seq (
    word "0"
    ∷ one_of "xX"
    ∷ some_of (char (λ c. is_digit c || between b'a' b'f' c || between b'A' b'F' c))
    ∷ [])

-- `k[A-Z0-9]\w*`
unfoldable constant_pattern : Regex
unfolding seq word word_char is_digit is_upper
constant_pattern = seq (word "k" ∷ char (λ c. is_upper c || is_digit c) ∷ many word_char ∷ [])

-- `(.+::)?k[A-Z0-9]\w*`
unfoldable scoped_constant_pattern : Regex
unfolding seq some_of word dot word_char is_digit is_upper
scoped_constant_pattern = seq (
    optional (group 1 (seq (some_of dot ∷ word "::" ∷ [])))
    ∷ word "k"
    ∷ char (λ c. is_upper c || is_digit c)
    ∷ many word_char
    ∷ [])

-- `(.+::)?[A-Z][A-Z0-9_]*`
unfoldable macro_pattern : Regex
unfolding seq some_of word dot is_digit is_upper
macro_pattern = seq (
    optional (group 1 (seq (some_of dot ∷ word "::" ∷ [])))
    ∷ char (λ c. is_upper c)
    ∷ many (char (λ c. is_upper c || is_digit c || c == b'_'))
    ∷ [])

-- `tok.lstrip('(')` and `tok.rstrip(')')`
unfoldable drop_chars : ℕ → Text → Text
drop_chars d [] = []
drop_chars d (c ∷ s) = let rest = drop_chars d s in if c == d then rest else c ∷ s

abbrev without_parens : Text → Text
without_parens tok = reverse (drop_chars b')' (reverse (drop_chars b'(' tok)))

abbrev is_nil : Text → Bool
is_nil [] = true
is_nil _ = false

unfoldable is_constant : Text → Text → Bool
is_constant tok bare =
    found sizeof_pattern tok
    || found arraysize_pattern tok
    || is_nil bare
    || matches number_pattern bare
    || matches hexadecimal_pattern bare
    || matches constant_pattern bare
    || matches scoped_constant_pattern bare
    || matches macro_pattern bare

-- The loop over the tokens, with `skip_next`.
unfoldable are_constant : Bool → List Text → Bool
are_constant skip_next [] = true
are_constant true (tok ∷ tokens) = are_constant false tokens
are_constant false (tok ∷ tokens) =
    let plain = are_constant false tokens in
    let skipping = are_constant true tokens in
    if is_constant tok (without_parens tok)
    then plain
    else starts_with (codes "sizeof") (without_parens tok) && skipping

unfoldable array_reports : Text → ℕ → Text → List Report
array_reports f n line = on_match (match array_pattern line) (λ m.
    report_if
      (not (eq_text (captured_text 2 m) (codes "return"))
        && not (eq_text (captured_text 2 m) (codes "delete"))
        && not (contains (codes "]") (captured_text 3 m))
        && not (are_constant false (split_all separator_pattern (captured_text 3 m))))
      f n (codes "runtime/arrays") 1
      (codes
        "Do not use variable-length arrays.  Use an appropriately named ('k' followed by CamelCase) compile-time constant for the size."))

-- `\bnamespace\s*{`
unfoldable unnamed_namespace_pattern : Regex
unfolding seq word space
unnamed_namespace_pattern = seq (word_edge ∷ word "namespace" ∷ many space ∷ word "{" ∷ [])

abbrev ends_in_backslash : Text → Bool
ends_in_backslash line = ends_with (codes "\\") line

unfoldable namespace_reports : Settings → Text → ℕ → Text → Text → List Report
namespace_reports s f n extension line =
    report_if
      (is_header_extension s extension
        && found unnamed_namespace_pattern line
        && not (ends_in_backslash line))
      f n (codes "build/namespaces") 4
      (codes
        "Do not use unnamed namespaces in header files.  See https://google-styleguide.googlecode.com/svn/trunk/cppguide.xml#Namespaces for more information.")

unfoldable early_reports : Text → CleansedLines → ℕ → Text → List Report
early_reports f clean n line =
    check_global_static f clean n
    ++ (check_printf f clean n ++ (integer_reports f n line ++ operator_reports f n line))

unfoldable late_reports : Settings → Text → ℕ → Text → Text → List Report
late_reports s f n extension line =
    memset_reports f n line
    ++ (using_reports f n line
        ++ (array_reports f n line ++ namespace_reports s f n extension line))

-- The checks of a line that is no #include.
unfoldable language_reports :
    Settings → Text → CleansedLines → ℕ → Text → Text → Option (List Report)
language_reports s f clean n extension line = on_some (check_casts f clean n) (λ casts.
    on_some (printf_reports f n line) (λ printfs.
      some (
        casts ++ (early_reports f clean n line ++ (printfs ++ late_reports s f n extension line)))))

abbrev section_of : Text → IncludeState → IncludeState
section_of line state = elim (match conditional_pattern line) [
  | some m ↦ reset_section (captured_text 1 m) state
  | none ↦ state
]

-- `none` where the script stops with an exception, or where the loop of `RepositoryName` does not
-- end.
pub check_language :
    FileSystem
    → Settings
    → Text
    → CleansedLines
    → ℕ
    → Text
    → IncludeState
    → Option (IncludeState × List Report)
check_language fs s f clean n extension state =
    let line = line_at clean.elided n in
    if is_nil line
    then some (state, [])
    else if found include_line_pattern line
    then check_include_line fs s f clean n state
    else on_some (language_reports s f clean n extension line)
        (λ rs. some (section_of line state, rs))

integer_reports-Listed : (f : Text) (n : ℕ) (line : Text) → Listed f n (integer_reports f n line)
unfolding integer_reports
integer_reports-Listed f n line = search (listed)

operator_reports-Listed : (f : Text) (n : ℕ) (line : Text) → Listed f n (operator_reports f n line)
unfolding operator_reports
operator_reports-Listed f n line = search (listed)

format_reports-Listed :
    (f : Text) (n : ℕ) (line : Text) (printf_args : Text)
    → Listed f n (format_reports f n line printf_args)
unfolding format_reports
format_reports-Listed f n line printf_args = search (listed) depth 10

memset_reports-Listed : (f : Text) (n : ℕ) (line : Text) → Listed f n (memset_reports f n line)
unfolding memset_reports
memset_reports-Listed f n line = search (listed) depth 10

using_reports-Listed : (f : Text) (n : ℕ) (line : Text) → Listed f n (using_reports f n line)
unfolding using_reports
using_reports-Listed f n line = search (listed)

array_reports-Listed : (f : Text) (n : ℕ) (line : Text) → Listed f n (array_reports f n line)
unfolding array_reports
array_reports-Listed f n line = search (listed)

namespace_reports-Listed :
    (s : Settings) (f : Text) (n : ℕ) (extension : Text) (line : Text)
    → Listed f n (namespace_reports s f n extension line)
unfolding namespace_reports
namespace_reports-Listed s f n extension line = search (listed)

early_reports-Listed :
    (f : Text) (clean : CleansedLines) (n : ℕ) (line : Text)
    → Listed f n (early_reports f clean n line)
unfolding early_reports
early_reports-Listed f clean n line =
    search
      (
        listed, check_global_static-Listed, check_printf-Listed, integer_reports-Listed,
        operator_reports-Listed,
      )
      depth 9

late_reports-Listed :
    (s : Settings) (f : Text) (n : ℕ) (extension : Text) (line : Text)
    → Listed f n (late_reports s f n extension line)
unfolding late_reports
late_reports-Listed s f n extension line =
    search
      (
        listed, memset_reports-Listed, using_reports-Listed, array_reports-Listed,
        namespace_reports-Listed,
      )
      depth 9

printf_reports-Listed : (f : Text) (n : ℕ) (line : Text) → Returned f n (printf_reports f n line)
unfolding printf_reports
printf_reports-Listed f n line = search (listed, format_reports-Listed)

language_reports-Listed :
    (s : Settings) (f : Text) (clean : CleansedLines) (n : ℕ) (extension line : Text)
    → Yields (Listed f n) (language_reports s f clean n extension line)
unfolding language_reports
language_reports-Listed s f clean n extension line =
    Yields-on_some _ (Yields-Returned (check_casts-Listed f clean n)) (λ casts c.
      Yields-on_some _ (Yields-Returned (printf_reports-Listed f n line)) (λ printfs p. yields (
        Listed-append casts c (
          Listed-append _ (early_reports-Listed f clean n line)
            (Listed-append printfs p (late_reports-Listed s f n extension line))))))

pub check_language-Listed :
    (fs : FileSystem) (s : Settings) (f : Text) (clean : CleansedLines) (n : ℕ) (extension : Text)
    (state : IncludeState)
    → Yields (λ r. Listed f n (r.1)) (check_language fs s f clean n extension state)
unfolding check_language
check_language-Listed fs s f clean n extension state =
    let line = line_at clean.elided n in
    Yields-if (is_nil line) (yields none_left) (
      Yields-if (found include_line_pattern line) (check_include_line-Listed fs s f clean n state)
        (Yields-on_some _ (language_reports-Listed s f clean n extension line) (λ rs h. yields h)))
