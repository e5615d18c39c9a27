-- ===== src/Cleanse.antt =====
-- build_support/cpplint.py: raw strings, comments and string literals are taken out of the lines.
-- A line holds no newline.
pub mod Comments
pub mod Pass
pub mod Raw
pub mod Strings
use turtle.Common.{
  ℕ, zero, suc, ◌+◌, ◌-◌, ◌%◌, ◌<◌, Bool, true, false, not, ◌&&◌, ◌||◌, List, [], ◌∷◌, ◌++◌, map,
  Option, none, some, ◌==◌, ltb, if◌then◌else◌, length, take, drop, any,
}
use turtle.Common.Text.{
  Text, codes, eq_text, starts_with, ends_with, find, count, replace, is_space, is_word, is_digit,
  strip, rstrip,
}
use turtle.Common.Slices.{line_at}
use turtle.Regex.{
  Regex, Cursor, seq, choice, many, lazy_many, some_of, optional, group, word, one_of, none_of, dot,
  space, non_space, digit, char, word_edge, at_start, at_end, ahead, not_ahead, match, matches,
  found, captured_text, remove_all,
}
use turtle.Report.{Report, report}

abbrev pub quote_text : Text
quote_text = b'"' ∷ []

-- An even number of quotes is a whole number of strings; `&` and 1 of a difference is the parity
-- of the sum.
unfoldable pub is_cpp_string : Text → Bool
is_cpp_string line =
    let line' = replace (codes "\\\\") (codes "XX") line in
    (count quote_text line' + count (b'\\' ∷ quote_text) line' + count (codes "'\"'") line') % 2
    == 1

-- The raw string pattern, and the test that what is in front of one ends in a comment.
unfoldable pub is_delimiter : ℕ → Bool
unfolding is_space
is_delimiter c = not (is_space c || c == b'\\' || c == b'(' || c == b')')

unfoldable pub raw_prefix : List Regex
unfolding choice word
raw_prefix =
    word_edge
    ∷ choice (word "R" ∷ word "u8R" ∷ word "uR" ∷ word "UR" ∷ word "LR" ∷ [])
    ∷ word "\""
    ∷ []

unfoldable pub raw_string_pattern : Regex
unfolding seq word dot
raw_string_pattern = seq (
    at_start
    ∷ group 1 (lazy_many dot)
    ∷ (raw_prefix
        ++ group 2 (many (char is_delimiter)) ∷ word "(" ∷ group 3 (many dot) ∷ at_end ∷ []))

unfoldable pub comment_pattern : Regex
unfolding seq choice word dot none_of codes
comment_pattern = seq (
    at_start
    ∷ many (
        choice (
          none_of "'\""
          ∷ seq (
              word "'"
              ∷ many (choice (seq (word "\\" ∷ dot ∷ []) ∷ none_of "'" ∷ []))
              ∷ word "'"
              ∷ [])
          ∷ seq (
              word "\""
              ∷ many (choice (seq (word "\\" ∷ dot ∷ []) ∷ none_of "\"" ∷ []))
              ∷ word "\""
              ∷ [])
          ∷ []))
    ∷ word "//"
    ∷ [])

-- The start of a raw string: what is in front, the delimiter that ends it, and what is behind.
pub record RawStart : Type 0 where
  pub front : Text
  pub delimiter : Text
  pub behind : Text

abbrev pub raw_match : Option Cursor → Option RawStart
raw_match none = none
raw_match (some m) =
    if not (matches comment_pattern (captured_text 1 m))
    then some (record {
      front = captured_text 1 m;
      delimiter = b')' ∷ (captured_text 2 m ++ quote_text);
      behind = captured_text 3 m;
    })
    else none

unfoldable pub raw_start : Text → Option RawStart
raw_start line = raw_match (match raw_string_pattern line)

-- The inner loop, on a line outside a raw string: the line, and the delimiter still looked for.
unfoldable pub raw_rounds : ℕ → Text → Text × Option Text
raw_rounds zero line = (line, none)
raw_rounds (suc fuel) line = elim (raw_start line) [
  | none ↦ (line, none)
  | some r ↦ elim (find r.delimiter r.behind) [
    | none ↦ (r.front ++ codes "\"\"", some r.delimiter)
    | some end ↦
        raw_rounds fuel (r.front ++ (codes "\"\"" ++ drop (end + length r.delimiter) r.behind))
  ]
]

-- A round cuts out more than it puts in, so the length of the line bounds the rounds.
unfoldable pub raw_outside : Text → Text × Option Text
raw_outside line = raw_rounds (length line) line

unfoldable pub leading_spaces : Text → Text
leading_spaces [] = []
leading_spaces (c ∷ s) = if is_space c then c ∷ leading_spaces s else []

abbrev raw_end : Text → Text → Option ℕ → Text × Option Text
raw_end delimiter line none = (quote_text ++ quote_text, some delimiter)
raw_end delimiter line (some end) =
    raw_outside
      (leading_spaces line ++ (quote_text ++ (quote_text ++ drop (end + length delimiter) line)))

-- One line, with the delimiter that is looked for, if any.
unfoldable pub raw_line : Option Text → Text → Text × Option Text
raw_line none line = raw_outside line
raw_line (some delimiter) line = raw_end delimiter line (find delimiter line)

pub raw_lines : Option Text → List Text → List Text
raw_lines delimiter [] = []
raw_lines delimiter (line ∷ lines) =
    let (line', delimiter') = raw_line delimiter line in line' ∷ raw_lines delimiter' lines

pub cleanse_raw_strings : List Text → List Text
unfolding raw_lines
cleanse_raw_strings = raw_lines none

-- `r'/\*(?:[^*]|\*(?!/))*\*/'`
c_comment : Regex
unfolding seq choice word none_of codes
c_comment = seq (
    word "/*"
    ∷ many (choice (none_of "*" ∷ seq (word "*" ∷ not_ahead (word "/") ∷ []) ∷ []))
    ∷ word "*/"
    ∷ [])

unfoldable pub cleanse_comments_pattern : Regex
unfolding c_comment seq choice space some_of
cleanse_comments_pattern = choice (
    seq (many space ∷ c_comment ∷ many space ∷ at_end ∷ [])
    ∷ seq (c_comment ∷ some_of space ∷ [])
    ∷ seq (some_of space ∷ c_comment ∷ ahead (char (λ c. not (is_word c))) ∷ [])
    ∷ c_comment
    ∷ [])

abbrev cut_comment : Text → Option ℕ → Text
cut_comment line none = line
cut_comment line (some p) = if not (is_cpp_string (take p line)) then rstrip (take p line) else line

unfoldable pub cleanse_comments : Text → Text
cleanse_comments line =
    remove_all cleanse_comments_pattern (cut_comment line (find (codes "//") line))

-- `r'^\s*#\s*include\s*([<"])([^>"]*)[>"].*$'`
unfoldable pub include_pattern : Regex
unfolding seq word space one_of none_of dot codes
include_pattern = seq (
    at_start
    ∷ many space
    ∷ word "#"
    ∷ many space
    ∷ word "include"
    ∷ many space
    ∷ group 1 (one_of "<\"")
    ∷ group 2 (many (none_of ">\""))
    ∷ one_of ">\""
    ∷ many dot
    ∷ at_end
    ∷ [])

unfoldable pub escapes_pattern : Regex
unfolding seq choice word one_of digit some_of codes
escapes_pattern = seq (
    word "\\"
    ∷ choice (
        one_of "abfnrtv?\"\\'"
        ∷ some_of digit
        ∷ seq (word "x" ∷ some_of (one_of "0123456789abcdefABCDEF") ∷ [])
        ∷ [])
    ∷ [])

-- `r'\b(?:0[bBxX]?|[1-9])[0-9a-fA-F]*$'`
unfoldable pub digits_pattern : Regex
unfolding seq choice word one_of codes
digits_pattern = seq (
    word_edge
    ∷ choice (seq (word "0" ∷ optional (one_of "bBxX") ∷ []) ∷ one_of "123456789" ∷ [])
    ∷ many (one_of "0123456789abcdefABCDEF")
    ∷ at_end
    ∷ [])

-- `Match(r'^([^\'"]*)([\'"])(.*)$', elided)`: the head, whether the quote is a double one, the tail.
pub record Quoted : Type 0 where
  pub head : Text
  pub double : Bool
  pub tail : Text

abbrev pub push_head : ℕ → Option Quoted → Option Quoted
push_head c none = none
push_head c (some q) = some (record q { head = c ∷ q.head })

pub first_quote : Text → Option Quoted
first_quote [] = none
first_quote (c ∷ s) =
    if c == b'"'
    then some (record { head = []; double = true; tail = s })
    else if c == b'\''
    then some (record { head = []; double = false; tail = s })
    else push_head c (first_quote s)

-- `tail.find(quote)`, by the text behind the quote.
pub behind_char : ℕ → Text → Option Text
behind_char q [] = none
behind_char q (c ∷ s) = if c == q then some s else behind_char q s

-- `Match(r'^((?:\'?[0-9a-zA-Z_])*)(.*)$', s)`: the first group without its quotes, and the second.
unfoldable literal_run : Text → Text × Text
unfolding is_word
literal_run [] = ([], [])
literal_run (c ∷ []) = if is_word c then (c ∷ [], []) else ([], c ∷ [])
literal_run (c ∷ d ∷ s) =
    let (run, rest) = literal_run (d ∷ s) in
    let (run', rest') = literal_run s in
    if is_word c
    then (c ∷ run, rest)
    else if c == b'\'' && is_word d
    then (d ∷ run', rest')
    else ([], c ∷ d ∷ s)

-- The loop over the quotes, on the text left and the text collapsed. Every round leaves a shorter
-- text, so the length bounds the rounds.
pub collapse_rounds : ℕ → Text → Text → Text
collapse_rounds zero elided collapsed = collapsed ++ elided
collapse_rounds (suc fuel) elided collapsed = elim (first_quote elided) [
  | none ↦ collapsed ++ elided
  | some q ↦ elim q.double [
    | true ↦ elim (behind_char b'"' q.tail) [
      | none ↦ collapsed ++ elided
      | some rest ↦ collapse_rounds fuel rest (collapsed ++ (q.head ++ codes "\"\""))
    ]
    | false ↦ elim (found digits_pattern q.head) [
      | true ↦
          collapse_rounds fuel (literal_run (b'\'' ∷ q.tail)).1
            (collapsed ++ (q.head ++ (literal_run (b'\'' ∷ q.tail)).0))
      | false ↦ elim (behind_char b'\'' q.tail) [
        | none ↦ collapsed ++ elided
        | some rest ↦ collapse_rounds fuel rest (collapsed ++ (q.head ++ codes "''"))
      ]
    ]
  ]
]

pub collapse_strings : Text → Text
collapse_strings elided =
    if matches include_pattern elided
    then elided
    else let clean = remove_all escapes_pattern elided in
      collapse_rounds (suc (length clean)) clean []

pub record CleansedLines : Type 0 where
  pub elided : List Text
  pub lines : List Text
  pub raw_lines : List Text
  pub num_lines : ℕ
  pub lines_without_raw_strings : List Text

pub cleansed_lines : List Text → CleansedLines
cleansed_lines lines =
    let plain = cleanse_raw_strings lines in
    record {
      elided = map (λ l. cleanse_comments (collapse_strings l)) plain;
      lines = map cleanse_comments plain;
      raw_lines = lines;
      num_lines = length lines;
      lines_without_raw_strings = plain;
    }
