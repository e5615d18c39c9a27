-- ===== src/Nesting.antt =====
-- build_support/cpplint.py: the blocks of `NestingState` and the checks at their ends.
pub mod Ends
pub mod Preprocessor
pub mod Template
pub mod Update
pub mod Completed
use turtle.Common.{
  ℕ, zero, suc, ◌+◌, ◌-◌, Bool, true, false, not, ◌&&◌, ◌||◌, List, [], ◌∷◌, ◌++◌, Option, none,
  some, ℤ, pos, negsuc, ◌==◌, ltb, if◌then◌else◌, length, drop,
}
use turtle.Common.Int.{sub_ℕ}
use turtle.Common.Text.{Text, codes, count, is_space}
use turtle.Common.Slices.{line_at}
use turtle.Cleanse.{CleansedLines}
use turtle.Regex.{
  Regex, Cursor, lit, seq, choice, many, some_of, group, word, one_of, none_of, dot, space,
  word_edge, at_start, at_end, match, matches, find_match, found, captured_text,
}
use turtle.Report.{Report, report}

-- `_NO_ASM` and the other states of inline assembly.
pub data Asm : Type 0 where
  no_asm inside_asm end_asm block_asm : Asm

pub record ClassInfo : Type 0 where
  pub name : Text
  pub is_derived : Bool
  pub access : Text
  pub is_struct : Bool
  pub class_indent : ℕ
  pub last_line : ℕ

-- The class of a block: `_BlockInfo` itself, or one derived from it.
pub data Kind : Type 0 where
  block : Kind
  extern_c : Kind
  class_info : ClassInfo → Kind
  namespace_info : Text → Kind

pub record BlockInfo : Type 0 where
  pub starting_linenum : ℕ
  pub seen_open_brace : Bool
  pub open_parentheses : ℤ
  pub inline_asm : Asm
  pub kind : Kind

-- The field `check_namespace_indentation`, which its class decides.
unfoldable pub check_namespace_indentation : Kind → Bool
check_namespace_indentation block = false
check_namespace_indentation extern_c = false
check_namespace_indentation (class_info c) = true
check_namespace_indentation (namespace_info n) = true

abbrev pub new_block : Kind → ℕ → Bool → BlockInfo
new_block k n seen = record {
  starting_linenum = n;
  seen_open_brace = seen;
  open_parentheses = pos 0;
  inline_asm = no_asm;
  kind = k;
}

-- `Match(r'^( *)\S', line)`, by the blanks in front and what follows them.
unfoldable pub blanks : Text → ℕ × Text
blanks [] = (0, [])
blanks (c ∷ s) = let (n, rest) = blanks s in if c == b' ' then (suc n, rest) else (0, c ∷ s)

abbrev starts_non_space : Text → Bool
starts_non_space [] = false
starts_non_space (c ∷ _) = not (is_space c)

unfoldable pub get_indent_level : Text → ℕ
unfolding blanks
get_indent_level line = if starts_non_space (blanks line).1 then (blanks line).0 else 0

-- The search for the last line of a class: `opens` and `closes` are the braces so far.
unfoldable pub class_end : List Text → ℕ → ℕ → ℕ → ℕ
class_end [] i opens closes = 0
class_end (line ∷ lines) i opens closes =
    let opens' = opens + count (b'{' ∷ []) line in
    let closes' = closes + count (b'}' ∷ []) line in
    let later = class_end lines (suc i) opens' closes' in if opens' == closes' then i else later

unfoldable pub new_class : Text → Bool → CleansedLines → ℕ → BlockInfo
new_class name is_struct clean n =
    new_block
      (class_info (record {
        name = name;
        is_derived = false;
        access = if is_struct then codes "public" else codes "private";
        is_struct = is_struct;
        class_indent = get_indent_level (line_at clean.raw_lines n);
        last_line = class_end (drop n clean.elided) n 0 0;
      }))
      n false

unfoldable pub new_namespace : Text → ℕ → BlockInfo
new_namespace name n = new_block (namespace_info name) n false

-- `'(^|[^:]):($|[^:])'`
unfoldable pub bare_colon : Regex
unfolding seq choice word none_of codes
bare_colon =
    seq (choice (at_start ∷ none_of ":" ∷ []) ∷ word ":" ∷ choice (at_end ∷ none_of ":" ∷ []) ∷ [])

-- `CheckBegin` of each class.
unfoldable pub check_begin : CleansedLines → ℕ → BlockInfo → BlockInfo
check_begin clean n b = elim b.kind [
  | class_info c ↦ record b {
    kind =
        class_info
          (record c { is_derived = found bare_colon (line_at clean.elided n) || c.is_derived });
  }
  | _ ↦ b
]

-- The stack of blocks, the innermost first.
abbrev pub Stack : Type 0
Stack = List BlockInfo

pub record PreprocessorInfo : Type 0 where
  pub stack_before_if : Stack
  pub stack_before_else : Stack
  pub seen_else : Bool

pub record NestingState : Type 0 where
  pub stack : Stack
  pub pp_stack : List PreprocessorInfo

unfoldable pub initial : NestingState
initial = record { stack = []; pp_stack = [] }

unfoldable pub seen_open_brace : Stack → Bool
seen_open_brace [] = true
seen_open_brace (b ∷ _) = b.seen_open_brace

abbrev pub is_namespace : Kind → Bool
is_namespace (namespace_info _) = true
is_namespace _ = false

abbrev pub is_extern_c : Kind → Bool
is_extern_c extern_c = true
is_extern_c _ = false

abbrev pub is_class : Kind → Bool
is_class (class_info _) = true
is_class _ = false

abbrev is_no_asm : Asm → Bool
is_no_asm no_asm = true
is_no_asm _ = false

unfoldable pub in_namespace_body : NestingState → Bool
in_namespace_body s = elim s.stack [ [] ↦ false | b ∷ _ ↦ is_namespace b.kind ]

unfoldable pub in_extern_c : NestingState → Bool
in_extern_c s = elim s.stack [ [] ↦ false | b ∷ _ ↦ is_extern_c b.kind ]

unfoldable in_class_declaration : NestingState → Bool
in_class_declaration s = elim s.stack [ [] ↦ false | b ∷ _ ↦ is_class b.kind ]

unfoldable pub in_asm_block : NestingState → Bool
in_asm_block s = elim s.stack [ [] ↦ false | b ∷ _ ↦ not (is_no_asm b.inline_asm) ]

-- The nearest class, with what it has as a block.
unfoldable pub innermost_class : Stack → Option (ClassInfo × BlockInfo)
innermost_class [] = none
innermost_class (b ∷ stack) = elim b.kind [ class_info c ↦ some (c, b) | _ ↦ innermost_class stack ]

-- The reports of `CheckCompletedBlocks` on one block.
unfoldable pub incomplete : Text → BlockInfo → List Report
incomplete f b = elim b.kind [
  | class_info c ↦
      report f b.starting_linenum (codes "build/class") 5
        (codes "Failed to find complete declaration of class " ++ c.name)
      ∷ []
  | namespace_info name ↦
      report f b.starting_linenum (codes "build/namespaces") 5
        (codes "Failed to find complete declaration of namespace " ++ name)
      ∷ []
  | _ ↦ []
]

-- From the outermost block inward.
unfoldable pub check_completed_blocks : Text → Stack → List Report
check_completed_blocks f [] = []
check_completed_blocks f (b ∷ stack) = check_completed_blocks f stack ++ incomplete f b
