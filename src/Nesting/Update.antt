-- ===== src/Nesting/Update.antt =====
-- build_support/cpplint.py: `NestingState.Update`.
pub mod Braces
pub mod Namespaces
pub mod Ordinary
pub mod Reports
use turtle.Common.{
  ℕ, zero, suc, ◌+◌, ◌-◌, Bool, true, false, not, ◌&&◌, ◌||◌, List, [], ◌∷◌, ◌++◌, Option, none,
  some, ℤ, pos, negsuc, ◌==◌, if◌then◌else◌, length, any,
}
use turtle.Common.Int.{sub_ℕ}
use turtle.Common.Text.{Text, codes, count, eq_text, is_word, is_space, is_upper}
use turtle.Common.Slices.{line_at, or_nil}
use turtle.Cleanse.{CleansedLines}
use turtle.Nesting.{
  Asm, no_asm, inside_asm, end_asm, block_asm, Kind, block, extern_c, class_info, namespace_info,
  ClassInfo, BlockInfo, Stack, NestingState, new_block, new_class, new_namespace, check_begin,
  seen_open_brace, is_class,
}
use turtle.Nesting.Ends.{check_end, parent_of, blank_pattern}
use turtle.Nesting.Preprocessor.{update_preprocessor}
use turtle.Nesting.Template.{in_template_argument_list}
use turtle.Regex.{
  Regex, Cursor, seq, choice, many, some_of, optional, group, word, none_of, char, dot, space,
  word_char, word_edge, at_start, at_end, match, matches, captured, captured_text,
}
use turtle.Report.{Report, report}

-- x + a - b
abbrev pub shift : ℤ → ℕ → ℕ → ℤ
shift (pos n) a b = sub_ℕ (n + a) b
shift (negsuc n) a b = sub_ℕ a (b + suc n)

abbrev is_int : ℕ → ℤ → Bool
is_int k (pos n) = n == k
is_int k (negsuc n) = false

-- `_MATCH_ASM`
unfoldable asm_pattern : Regex
unfolding seq choice some_of word space
asm_pattern = seq (
    at_start
    ∷ many space
    ∷ choice (word "asm" ∷ word "_asm" ∷ word "__asm" ∷ word "__asm__" ∷ [])
    ∷ optional
        (seq (some_of space ∷ group 1 (choice (word "volatile" ∷ word "__volatile__" ∷ [])) ∷ []))
    ∷ many space
    ∷ choice (word "{" ∷ word "(" ∷ [])
    ∷ [])

enter_asm : Text → Bool → ℤ → Asm
enter_asm line changed depth =
    if changed && is_int 1 depth && matches asm_pattern line then inside_asm else no_asm

pub next_asm : Text → Bool → ℤ → Asm → Asm
unfolding enter_asm
next_asm line changed depth no_asm = enter_asm line changed depth
next_asm line changed depth end_asm = enter_asm line changed depth
next_asm line changed depth inside_asm = if is_int 0 depth then end_asm else inside_asm
next_asm line changed depth block_asm = block_asm

-- The parentheses of the line, counted at the innermost block.
pub count_parentheses : Text → Stack → Stack
unfolding next_asm
count_parentheses line [] = []
count_parentheses line (b ∷ stack) =
    let opens = count (b'(' ∷ []) line in
    let closes = count (b')' ∷ []) line in
    let depth = shift b.open_parentheses opens closes in
    record b {
      open_parentheses = depth;
      inline_asm = next_asm line (not (opens == closes)) depth b.inline_asm;
    }
    ∷ stack

-- `r'^\s*namespace\b\s*([:\w]+)?(.*)$'`
unfoldable pub namespace_head : List Regex
unfolding some_of word space is_word
namespace_head =
    at_start
    ∷ many space
    ∷ word "namespace"
    ∷ word_edge
    ∷ many space
    ∷ optional (group 1 (some_of (char (λ c. c == b':' || is_word c))))
    ∷ []

unfoldable pub namespace_pattern : Regex
unfolding seq dot
namespace_pattern = seq (namespace_head ++ group 2 (many dot) ∷ at_end ∷ [])

-- `line[line.find('{') + 1:]`, where there is one.
pub behind_brace : Text → Option Text
behind_brace [] = none
behind_brace (c ∷ s) = if c == b'{' then some s else behind_brace s

abbrev pub open_namespace : Text → ℕ → Text → Stack → Text × Stack
open_namespace name n rest stack = elim (behind_brace rest) [
  | none ↦ (rest, new_namespace name n ∷ stack)
  | some rest' ↦ (rest', record (new_namespace name n) { seen_open_brace = true } ∷ stack)
]

-- The loop over the namespaces at the beginning of the line. Each takes its keyword off the line,
-- so the length of the line bounds the rounds.
pub namespace_rounds : ℕ → ℕ → Text → Stack → Text × Stack
namespace_rounds zero n line stack = (line, stack)
namespace_rounds (suc fuel) n line stack = elim (match namespace_pattern line) [
  | none ↦ (line, stack)
  | some m ↦
      let (line', stack') = open_namespace (or_nil (captured 1 m)) n (captured_text 2 m) stack in
      namespace_rounds fuel n line' stack'
]

pub consume_namespaces : ℕ → Text → Stack → Text × Stack
consume_namespaces n line stack = namespace_rounds (suc (length line)) n line stack

-- `(\s*(?:template\s*<[\w\s<>,:=]*>\s*)?(class|struct)\s+(?:[A-Z_]+\s+)*(\w+(?:::\w+)*))(.*)$`
unfoldable pub class_pattern : Regex
unfolding seq choice some_of word space dot word_char is_word is_space is_upper
class_pattern = seq (
    at_start
    ∷ group 1 (
        seq (
          many space
          ∷ optional (
              seq (
                word "template"
                ∷ many space
                ∷ word "<"
                ∷ many (
                    char (λ c.
                      is_word c
                      || is_space c
                      || c == b'<'
                      || c == b'>'
                      || c == b','
                      || c == b':'
                      || c == b'='))
                ∷ word ">"
                ∷ many space
                ∷ []))
          ∷ group 2 (choice (word "class" ∷ word "struct" ∷ []))
          ∷ some_of space
          ∷ many (seq (some_of (char (λ c. is_upper c || c == b'_')) ∷ some_of space ∷ []))
          ∷ group 3 (seq (some_of word_char ∷ many (seq (word "::" ∷ some_of word_char ∷ [])) ∷ []))
          ∷ []))
    ∷ group 4 (many dot)
    ∷ at_end
    ∷ [])

abbrev no_open_parentheses : Stack → Bool
no_open_parentheses [] = true
no_open_parentheses (b ∷ _) = is_int 0 b.open_parentheses

-- A class declaration at the beginning of what is left of the line. The position is that in what
-- is left, though it is looked up in the whole line, as in the source.
pub consume_class : CleansedLines → ℕ → Text → Stack → Text × Stack
consume_class clean n line stack = elim (match class_pattern line) [
  | none ↦ (line, stack)
  | some m ↦
      elim (no_open_parentheses stack
        && not (elim (in_template_argument_list clean.elided n (length (captured_text 1 m))) [
          | none ↦ false
          | some b ↦ b
        ])) [
          | false ↦ (line, stack)
          | true ↦ (
            captured_text 4 m,
            new_class (captured_text 3 m) (eq_text (captured_text 2 m) (codes "struct")) clean n
                ∷ stack,
          )
        ]
]

-- `CheckBegin` of the innermost block, while its brace has not been seen.
pub begin_innermost : CleansedLines → ℕ → Stack → Stack
begin_innermost clean n [] = []
begin_innermost clean n (b ∷ stack) =
    (if not b.seen_open_brace then check_begin clean n b else b) ∷ stack

-- `r'^(.*)\b(public|private|protected|signals)(\s+(?:slots\s*)?)?:(?:[^:]|$)'`
unfoldable access_pattern : Regex
unfolding seq choice some_of word space dot none_of codes
access_pattern = seq (
    at_start
    ∷ group 1 (many dot)
    ∷ word_edge
    ∷ group 2 (choice (word "public" ∷ word "private" ∷ word "protected" ∷ word "signals" ∷ []))
    ∷ optional
        (group 3 (seq (some_of space ∷ optional (seq (word "slots" ∷ many space ∷ [])) ∷ [])))
    ∷ word ":"
    ∷ choice (none_of ":" ∷ at_end ∷ [])
    ∷ [])

unfoldable access_reports : Text → ℕ → ClassInfo → Cursor → List Report
access_reports f n c m =
    let indent = captured_text 1 m in
    if not (length indent == c.class_indent + 1) && matches blank_pattern indent
    then report f n (codes "whitespace/indent") 3 (
        captured_text 2 m
        ++ (or_nil (captured 3 m)
            ++ (codes ": should be indented +1 space inside " ++ parent_of c)))
      ∷ []
    else []

-- The access of a class on top of the stack, by the kind of the block there.
pub update_kind : Text → ℕ → Text → BlockInfo → Stack → Kind → Stack × List Report
update_kind f n line b stack (class_info c) = elim (match access_pattern line) [
  | none ↦ (b ∷ stack, [])
  | some m ↦ (
    record b { kind = class_info (record c { access = captured_text 2 m }) } ∷ stack,
    access_reports f n c m,
  )
]
update_kind f n line b stack block = (b ∷ stack, [])
update_kind f n line b stack extern_c = (b ∷ stack, [])
update_kind f n line b stack (namespace_info name) = (b ∷ stack, [])

pub update_access : Text → ℕ → Text → Stack → Stack × List Report
update_access f n line [] = ([], [])
update_access f n line (b ∷ stack) = update_kind f n line b stack b.kind

-- `r'^[^{;)}]*([{;)}])(.*)$'` is the next of the four characters. `r'^extern\s*"[^"]*"\s*\{'` and
-- `_MATCH_ASM` are tried on the text from the last of the four on.
pub extern_pattern : Regex
unfolding seq word space none_of codes
extern_pattern = seq (
    at_start
    ∷ word "extern"
    ∷ many space
    ∷ word "\""
    ∷ many (none_of "\"")
    ∷ word "\""
    ∷ many space
    ∷ word "{"
    ∷ [])

pub open_brace : ℕ → Text → Stack → Stack
open_brace n line [] =
    if matches extern_pattern line
    then new_block extern_c n true ∷ []
    else record (new_block block n true) {
      inline_asm = if matches asm_pattern line then block_asm else no_asm;
    }
      ∷ []
open_brace n line (b ∷ stack) =
    if not b.seen_open_brace
    then record b { seen_open_brace = true } ∷ stack
    else if matches extern_pattern line
    then new_block extern_c n true ∷ b ∷ stack
    else record (new_block block n true) {
      inline_asm = if matches asm_pattern line then block_asm else no_asm;
    }
      ∷ b
      ∷ stack

pub end_head : Stack → Stack
end_head [] = []
end_head (b ∷ stack) = if not b.seen_open_brace then stack else b ∷ stack

pub close_brace : Text → CleansedLines → ℕ → Stack → Stack × List Report
close_brace f clean n [] = ([], [])
close_brace f clean n (b ∷ stack) = (stack, check_end f clean n b)

-- What the loop stops at.
pub data Mark : Type 0 where
  open_mark end_mark close_mark no_mark : Mark

pub mark_of : ℕ → Mark
mark_of c =
    if c == b'{'
    then open_mark
    else if c == b';' || c == b')'
    then end_mark
    else if c == b'}'
    then close_mark
    else no_mark

-- The loop over the braces, at a character; `line` begins where the loop's line does.
pub consume_braces : Text → CleansedLines → ℕ → Text → Text → Stack → Stack × List Report
consume_braces f clean n line [] stack = (stack, [])
consume_braces f clean n line (c ∷ rest) stack = elim (mark_of c) [
  | open_mark ↦ consume_braces f clean n rest rest (open_brace n line stack)
  | end_mark ↦ consume_braces f clean n rest rest (end_head stack)
  | close_mark ↦
      let (stack', reports) = consume_braces f clean n rest rest (close_brace f clean n stack).0 in
      (stack', (close_brace f clean n stack).1 ++ reports)
  | no_mark ↦ consume_braces f clean n line rest stack
]

pub update : Text → CleansedLines → ℕ → NestingState → NestingState × List Report
update f clean n s =
    let line = line_at clean.elided n in
    let s1 = update_preprocessor line s in
    let (line2, stack2) = consume_namespaces n line (count_parentheses line s1.stack) in
    let (line3, stack3) = consume_class clean n line2 stack2 in
    let (stack4, reports4) = update_access f n line3 (begin_innermost clean n stack3) in
    let (stack5, reports5) = consume_braces f clean n line3 line3 stack4 in
    (record s1 { stack = stack5 }, reports4 ++ reports5)
