-- ===== src/Nesting/Update/Ordinary.antt =====
-- build_support/cpplint.py: `NestingState.Update` on a line of ordinary code.
use turtle.Common.{
  ℕ, ◌≡◌, refl, ◌∙◌, ap, Bool, true, false, not, [], ◌∷◌, ◌==◌, none, ℤ, pos, negsuc, arith,
}
use turtle.Common.Text.{Text, count}
use turtle.Common.Slices.{line_at}
use turtle.Cleanse.{CleansedLines}
use turtle.Regex.{match, matches}
use turtle.Nesting.{
  Asm, no_asm, Kind, block, extern_c, class_info, namespace_info, is_class, BlockInfo, Stack,
  NestingState, seen_open_brace,
}
use turtle.Nesting.Preprocessor.{if_pattern, else_pattern, endif_pattern, update_preprocessor}
use turtle.Nesting.Update.{
  shift, next_asm, count_parentheses, namespace_pattern, namespace_rounds, consume_namespaces,
  class_pattern, consume_class, begin_innermost, update_kind, update_access, update,
}
use turtle.Nesting.Update.Braces.{Balanced, consume_braces_balanced}

-- A line with no directive, no namespace and no class at its beginning, and every bracket closed.
pub record IsOrdinary (line : Text) : Type 0 where
  pub not_if : matches if_pattern line ≡ false
  pub not_else : matches else_pattern line ≡ false
  pub not_endif : matches endif_pattern line ≡ false
  pub no_namespace : match namespace_pattern line ≡ none
  pub no_class : match class_pattern line ≡ none
  pub parentheses : count (b'(' ∷ []) line ≡ count (b')' ∷ []) line
  pub braces : Balanced line

-- A stack whose innermost block is no class, has its brace, and is outside inline assembly.
unfoldable pub IsQuiet : Stack → Type 0
IsQuiet [] = Unit
IsQuiet (b ∷ _) = (b.seen_open_brace ≡ true) × (is_class b.kind ≡ false) × (b.inline_asm ≡ no_asm)

shift_same : (x : ℤ) (a b : ℕ) → a ≡ b → shift x a b ≡ x
shift_same (pos n) a b h = ground arith
shift_same (negsuc n) a b h = ground arith

next_asm_same :
    (line : Text) (b : Bool) (depth : ℤ) (a : Asm)
    → b ≡ false
    → a ≡ no_asm
    → next_asm line b depth a ≡ a
unfolding next_asm
next_asm_same line b depth a h g = rw (g, h, next_asm) refl

count_parentheses_same :
    (line : Text) (stack : Stack)
    → IsQuiet stack
    → count (b'(' ∷ []) line ≡ count (b')' ∷ []) line
    → count_parentheses line stack ≡ stack
unfolding count_parentheses IsQuiet
count_parentheses_same line [] q g = refl
count_parentheses_same line (b ∷ stack) (_, _, q) g =
    let opens = count (b'(' ∷ []) line in
    let closes = count (b')' ∷ []) line in
    let depth = shift b.open_parentheses opens closes in
    let same : (opens == closes) ≡ true = ground (arith, g) in
    let unchanged : not (opens == closes) ≡ false = rw same refl in
    ap
      (λ (x : ℤ).
        record b {
          open_parentheses = x;
          inline_asm = next_asm line (not (opens == closes)) depth b.inline_asm;
        }
        ∷ stack)
      (shift_same b.open_parentheses opens closes g)
    ∙ ap (λ (y : Asm). record b { inline_asm = y } ∷ stack)
        (next_asm_same line (not (opens == closes)) depth b.inline_asm unchanged q)

quiet_seen : (stack : Stack) → IsQuiet stack → seen_open_brace stack ≡ true
unfolding seen_open_brace IsQuiet
quiet_seen [] q = refl
quiet_seen (b ∷ stack) (q, _, _) = q

begin_innermost_same :
    (clean : CleansedLines) (n : ℕ) (stack : Stack)
    → IsQuiet stack
    → begin_innermost clean n stack ≡ stack
unfolding begin_innermost IsQuiet
begin_innermost_same clean n [] q = refl
begin_innermost_same clean n (b ∷ stack) (q, _, _) = rw (q, begin_innermost) refl

consume_namespaces_same :
    (n : ℕ) (line : Text) (stack : Stack)
    → match namespace_pattern line ≡ none
    → consume_namespaces n line stack ≡ (line, stack)
unfolding consume_namespaces namespace_rounds
consume_namespaces_same n line stack h = rw (h, consume_namespaces, namespace_rounds) refl

consume_class_same :
    (clean : CleansedLines) (n : ℕ) (line : Text) (stack : Stack)
    → match class_pattern line ≡ none
    → consume_class clean n line stack ≡ (line, stack)
unfolding consume_class
consume_class_same clean n line stack h = rw (h, consume_class) refl

update_kind_same :
    (f : Text) (n : ℕ) (line : Text) (b : BlockInfo) (stack : Stack) (k : Kind)
    → is_class k ≡ false
    → update_kind f n line b stack k ≡ (b ∷ stack, [])
unfolding update_kind
update_kind_same f n line b stack block h = refl
update_kind_same f n line b stack extern_c h = refl
update_kind_same f n line b stack (class_info c) h = absurd (ground (arith, h))
update_kind_same f n line b stack (namespace_info name) h = refl

update_access_same :
    (f : Text) (n : ℕ) (line : Text) (stack : Stack)
    → IsQuiet stack
    → update_access f n line stack ≡ (stack, [])
unfolding update_access IsQuiet
update_access_same f n line [] q = refl
update_access_same f n line (b ∷ stack) (_, q, _) = update_kind_same f n line b stack b.kind q

update_preprocessor_same :
    (line : Text) (s : NestingState)
    → matches if_pattern line ≡ false
    → matches else_pattern line ≡ false
    → matches endif_pattern line ≡ false
    → update_preprocessor line s ≡ s
unfolding update_preprocessor
update_preprocessor_same line s h g f = rw (h, g, f, update_preprocessor) refl

-- A line of ordinary code, in which every brace and every parenthesis is closed, leaves the nesting
-- state as it was and reports nothing, where the innermost block is no class, has its brace, and is
-- outside inline assembly.
pub update_ordinary :
    (f : Text) (clean : CleansedLines) (n : ℕ) (s : NestingState)
    → IsOrdinary (line_at clean.elided n)
    → IsQuiet s.stack
    → update f clean n s ≡ (s, [])
unfolding update
update_ordinary f clean n s o q =
    let line = line_at clean.elided n in
    rw
      (
        update_preprocessor_same line s o.not_if o.not_else o.not_endif,
        count_parentheses_same line s.stack q o.parentheses,
        consume_namespaces_same n line s.stack o.no_namespace,
        consume_class_same clean n line s.stack o.no_class,
        begin_innermost_same clean n s.stack q,
        update_access_same f n line s.stack q,
        consume_braces_balanced f clean n o.braces line s.stack (quiet_seen s.stack q),
        update,
      )
      refl
