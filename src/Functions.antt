-- ===== src/Functions.antt =====
-- build_support/cpplint.py: class `_FunctionState` and `CheckForFunctionLengths`.
pub mod Size
pub mod Reports
pub mod Run
use mathlib.Core.List.{reverse}
use turtle.Common.{
  ℕ, zero, suc, ◌+◌, ◌-◌, ◌*◌, ◌^◌, Bool, true, false, not, ◌&&◌, ◌||◌, List, [], ◌∷◌, ◌++◌, Option,
  none, some, ◌==◌, ltb, leb, if◌then◌else◌, last?, length, drop,
}
use turtle.Common.Text.{Text, codes, eq_text, drop_spaces, words, is_upper}
use turtle.Common.Slices.{line_at, or_nil}
use turtle.Regex.{
  Regex, seq, choice, many, some_of, group, word, space, word_char, dot, char, at_start, at_end,
  match, matches, find_match, found, captured, captured_text, Cursor,
}
use turtle.Report.{Report, report, decimal}

pub record FunctionState : Type 0 where
  pub in_a_function : Bool
  pub lines_in_function : ℕ
  pub current_function : Text

abbrev normal_trigger : ℕ
normal_trigger = 250

abbrev test_trigger : ℕ
test_trigger = 400

unfoldable pub initial : FunctionState
initial = record { in_a_function = false; lines_in_function = 0; current_function = [] }

unfoldable pub begin : Text → FunctionState → FunctionState
begin name s = record { in_a_function = true; lines_in_function = 0; current_function = name }

unfoldable pub count : FunctionState → FunctionState
count s = if s.in_a_function then record s { lines_in_function = s.lines_in_function + 1 } else s

unfoldable pub end : FunctionState → FunctionState
end s = record s { in_a_function = false }

-- `r'T(EST|est)'`
unfoldable test_pattern : Regex
unfolding seq choice word
test_pattern = seq (word "T" ∷ choice (word "EST" ∷ word "est" ∷ []) ∷ [])

pub base_trigger : Text → ℕ
base_trigger name = if matches test_pattern name then test_trigger else normal_trigger

-- `int(math.log(lines / base, 2))`, held to 5, for `base <= lines`: the largest such power.
pub error_level : ℕ → ℕ → ℕ
error_level lines base =
    if leb (base * 32) lines
    then 5
    else if leb (base * 16) lines
    then 4
    else if leb (base * 8) lines
    then 3
    else if leb (base * 4) lines
    then 2
    else if leb (base * 2) lines
    then 1
    else 0

size_message : Text → ℕ → ℕ → Text
unfolding codes decimal
size_message name lines trigger =
    codes "Small and focused functions are preferred: "
    ++ (name
        ++ (codes " has "
            ++ (decimal lines
                ++ (codes " non-comment lines (error triggered by exceeding "
                    ++ (decimal trigger ++ codes " lines).")))))

-- `Check`, with the level `_VerboseLevel()` of the run.
pub check : ℕ → Text → ℕ → FunctionState → List Report
unfolding size_message
check verbose filename linenum s =
    let base = base_trigger s.current_function in
    let trigger = base * 2 ^ verbose in
    if not s.in_a_function
    then []
    else if ltb trigger s.lines_in_function
    then (report filename linenum (codes "readability/fn_size")
          (error_level s.lines_in_function base)
          (size_message s.current_function s.lines_in_function trigger)
        ∷ [])
    else []

-- `r'(\w(\w|::|\*|\&|\s)*)\('`
unfoldable pub declaration_pattern : Regex
unfolding seq choice word word_char space
declaration_pattern = seq (
    group 1 (
      seq
        (word_char ∷ many (choice (word_char ∷ word "::" ∷ word "*" ∷ word "&" ∷ space ∷ [])) ∷ []))
    ∷ word "("
    ∷ [])

-- `r'[A-Z_]+$'`
unfoldable pub macro_pattern : Regex
unfolding seq some_of
macro_pattern = seq (some_of (char (λ c. is_upper c || c == b'_')) ∷ at_end ∷ [])

-- Is the line's declaration one of a function, by the last word in front of the parenthesis?
is_function_name : Text → Bool
unfolding codes
is_function_name name =
    eq_text name (codes "TEST") || eq_text name (codes "TEST_F") || not (matches macro_pattern name)

abbrev starts_match : Option Cursor → Bool
starts_match none = false
starts_match (some m) = is_function_name (or_nil (last? (words (captured_text 1 m))))

unfoldable pub starting_func : Text → Bool
unfolding is_function_name
starting_func line = starts_match (match declaration_pattern line)

-- `r'((\w|:)*)\('` and `r'(\(.*\))'`
unfoldable pub name_pattern : Regex
unfolding seq choice word word_char
name_pattern = seq (group 1 (many (choice (word_char ∷ word ":" ∷ []))) ∷ word "(" ∷ [])

unfoldable pub parameter_pattern : Regex
unfolding seq word dot
parameter_pattern = group 1 (seq (word "(" ∷ many dot ∷ word ")" ∷ []))

abbrev captured_or_nil : Option Cursor → Text
captured_or_nil none = []
captured_or_nil (some m) = captured_text 1 m

-- The name under which the function is counted.
unfoldable pub function_name : Text → Text → Text
unfolding word codes
function_name line joined_line =
    let function = captured_or_nil (find_match name_pattern line) in
    if matches (word "TEST") function
    then function ++ captured_or_nil (find_match parameter_pattern joined_line)
    else function ++ codes "()"

-- What the search for the start of the body ends in.
pub data Body : Type 0 where
  declaration : Body
  opened : Text → Body
  missing : Body

pub has_char : ℕ → Text → Bool
has_char c [] = false
has_char c (x ∷ s) = x == c || has_char c s

-- The loop over the lines from the declaration on, with `joined_line`.
unfoldable pub find_body : Text → List Text → Body
unfolding has_char
find_body joined [] = missing
find_body joined (line ∷ lines) =
    let joined' = joined ++ b' ' ∷ drop_spaces line in
    let later = find_body joined' lines in
    if has_char b';' line || has_char b'}' line
    then declaration
    else if has_char b'{' line
    then opened joined'
    else later

-- `r'^\}\s*$'` and `r'^\s*$'`
unfoldable pub end_pattern : Regex
unfolding seq word space
end_pattern = seq (at_start ∷ word "}" ∷ many space ∷ at_end ∷ [])

unfoldable pub blank_pattern : Regex
unfolding seq space
blank_pattern = seq (at_start ∷ many space ∷ at_end ∷ [])

unfoldable pub start_function : Text → ℕ → Text → Body → FunctionState → FunctionState × List Report
start_function f n line declaration s = (s, [])
start_function f n line (opened joined) s = (begin (function_name line joined) s, [])
start_function f n line missing s = (
  s,
  report f n (codes "readability/fn_size") 5 (codes "Lint failed to find start of function body.")
      ∷ [],
)

unfoldable pub check_for_function_lengths :
    ℕ → Text → List Text → ℕ → FunctionState → FunctionState × List Report
check_for_function_lengths verbose f lines n s =
    let line = line_at lines n in
    if starting_func line
    then start_function f n line (find_body [] (drop n lines)) s
    else if matches end_pattern line
    then (end s, check verbose f n s)
    else if not (matches blank_pattern line)
    then (count s, [])
    else (s, [])
