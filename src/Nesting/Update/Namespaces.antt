-- ===== src/Nesting/Update/Namespaces.antt =====
-- build_support/cpplint.py: the loop over the namespaces in `NestingState.Update`.
use turtle.Common.{
  ℕ, zero, suc, ◌<◌, ◌≤◌, ◌≡◌, refl, ◌∙◌, sym, ap, true, [], ◌∷◌, ◌++◌, none, some, length, arith,
  ◌==◌, All, some_injective, append_assoc, inl, inr, Option-cases, Bool-cases,
}
use turtle.Common.Text.{Text, codes}
use turtle.Common.Slices.{or_nil}
use turtle.Nesting.{Stack, BlockInfo, is_namespace, new_namespace}
use turtle.Nesting.Update.{
  namespace_head, namespace_pattern, behind_brace, open_namespace, namespace_rounds,
  consume_namespaces,
}
use turtle.Regex.{
  Cursor, cursor, match, captured, captured_text, seq, lit, many, space, word, group, some_of, dot,
  at_end,
}
use turtle.Regex.Progress.{width, groupless}
use turtle.Regex.Groups.{seq_front, seq_group, seq_end}

dot_free : groupless (many dot) ≡ true
unfolding groupless dot
dot_free = refl

end_free : groupless (seq (at_end ∷ [])) ≡ true
unfolding groupless seq
end_free = refl

head_width : 9 ≤ width (seq namespace_head)
unfolding namespace_head width seq word lit codes some_of space
head_width = omega arith

-- What is left behind a namespace's name is shorter than the line.
namespace_shorter :
    (line : Text) (m : Cursor)
    → match namespace_pattern line ≡ some m
    → length (captured_text 2 m) < length line
unfolding match namespace_pattern captured captured_text
namespace_shorter line m h =
    let tail = group 2 (many dot) ∷ at_end ∷ [] in
    let r = seq_front namespace_head tail (cursor [] line) some m h in
    let g = seq_group 2 (many dot) (at_end ∷ []) r.at some m dot_free r.goes_on in
    let e = seq_end (at_end ∷ []) g.at m end_free g.goes_on in
    rw (e, g.groups) (omega (arith, r.consumed, g.fits, head_width))

behind_brace_shorter : (s rest : Text) → behind_brace s ≡ some rest → length rest ≤ length s
unfolding behind_brace
behind_brace_shorter [] rest h = absurd (ground (arith, h))
behind_brace_shorter (c ∷ s) rest h = elim (Bool-cases (c == b'{')) [
  | inl e ↦ let l = ap length (some_injective (rw e at h)) in omega (arith, l)
  | inr e ↦ omega (arith, behind_brace_shorter s rest (rw e at h))
]

-- The blocks on top of a stack are namespaces that begin at a line.
pub record Opens (n : ℕ) (stack opened : Stack) : Type 0 where
  pub added : Stack
  pub on_top : opened ≡ added ++ stack
  pub are_namespaces :
      All (λ (b : BlockInfo). (is_namespace b.kind ≡ true) × (b.starting_linenum ≡ n)) added

-- One namespace.
record Opened (n : ℕ) (rest : Text) (stack : Stack) (result : Text × Stack) : Type 0 where
  shorter : length result.0 ≤ length rest
  block : BlockInfo
  pushed : result.1 ≡ block ∷ stack
  is_one : (is_namespace block.kind ≡ true) × (block.starting_linenum ≡ n)

open_namespace-Opened :
    (name : Text) (n : ℕ) (rest : Text) (stack : Stack)
    → Opened n rest stack (open_namespace name n rest stack)
unfolding new_namespace
open_namespace-Opened name n rest stack = elim (Option-cases (behind_brace rest)) [
  | inl e ↦
      rw (e, open_namespace)
        (record { shorter = omega arith; block = _; pushed = refl; is_one = (refl, refl) })
  | inr (rest', e) ↦
      rw (e, open_namespace)
        (record {
          shorter = behind_brace_shorter rest rest' e;
          block = _;
          pushed = refl;
          is_one = (refl, refl);
        })
]

-- The end of the rounds.
record Ended (n : ℕ) (stack : Stack) (result : Text × Stack) : Type 0 where
  no_match : match namespace_pattern result.0 ≡ none
  opens : Opens n stack result.1

snoc-All :
    (P : BlockInfo → Type 0) (xs : Stack) (b : BlockInfo) → All P xs → P b → All P (xs ++ b ∷ [])
snoc-All P [] b h g = (g, tt)
snoc-All P (x ∷ xs) b (h, hs) g = (h, snoc-All P xs b hs g)

trans-Opens :
    (n : ℕ) (stack middle opened : Stack) (b : BlockInfo)
    → middle ≡ b ∷ stack
    → (is_namespace b.kind ≡ true) × (b.starting_linenum ≡ n)
    → Opens n middle opened
    → Opens n stack opened
trans-Opens n stack middle opened b h g o = record {
  added = o.added ++ b ∷ [];
  on_top = o.on_top ∙ ap (λ t. o.added ++ t) h ∙ sym (append_assoc o.added (b ∷ []) stack);
  are_namespaces = snoc-All _ o.added b o.are_namespaces g;
}

namespace_rounds-Ended :
    (fuel n : ℕ) (line : Text) (stack : Stack)
    → length line < fuel
    → Ended n stack (namespace_rounds fuel n line stack)
unfolding namespace_rounds
namespace_rounds-Ended zero n line stack h = absurd (omega (arith, h))
namespace_rounds-Ended (suc fuel) n line stack h =
    elim (Option-cases (match namespace_pattern line)) [
      | inl e ↦
          rw (e, namespace_rounds)
            (record {
              no_match = e;
              opens = record { added = []; on_top = refl; are_namespaces = tt };
            })
      | inr (m, e) ↦
          let rest = captured_text 2 m in
          let name = or_nil (captured 1 m) in
          let o = open_namespace-Opened name n rest stack in
          let next = open_namespace name n rest stack in
          let later =
            namespace_rounds-Ended fuel n next.0 next.1
              (omega (arith, h, o.shorter, namespace_shorter line m e)) in
          rw (e, namespace_rounds)
            (record {
              no_match = later.no_match;
              opens =
                  trans-Opens n stack next.1 (namespace_rounds fuel n next.0 next.1).1 o.block
                    o.pushed o.is_one later.opens;
            })
    ]

-- The loop over the namespaces ends by its own test: what it leaves of the line begins with no
-- namespace, and the stack has only namespaces that begin at this line on top of the old one.
pub consume_namespaces_lem :
    (n : ℕ) (line : Text) (stack : Stack)
    → (match namespace_pattern (consume_namespaces n line stack).0 ≡ none)
      × Opens n stack (consume_namespaces n line stack).1
unfolding consume_namespaces
consume_namespaces_lem n line stack =
    let e = namespace_rounds-Ended (suc (length line)) n line stack (omega arith) in
    (e.no_match, e.opens)
