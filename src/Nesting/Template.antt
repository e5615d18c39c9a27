-- ===== src/Nesting/Template.antt =====
-- build_support/cpplint.py: `NestingState.InTemplateArgumentList`.
pub mod Rounds
use turtle.Common.{
  ℕ, zero, suc, ◌+◌, ◌-◌, Bool, true, false, List, [], ◌∷◌, Option, none, some, ◌==◌, ltb, leb,
  if◌then◌else◌, length, drop, any,
}
use turtle.Common.Text.{Text}
use turtle.Common.Slices.{line_at}
use turtle.Expression.{close_expression}

abbrev one_char : ℕ → Text → Bool
one_char c s = any (λ x. x == c) s

-- `r'^[^{};=\[\]\.<>]*(.)'`: the token, and how many characters the match takes. Where the run of
-- other characters goes to the end of the line, its last one is the token.
pub record Token : Type 0 where
  pub char : ℕ
  pub width : ℕ

abbrev pub is_stop : ℕ → Bool
is_stop c = one_char c (b'{' ∷ b'}' ∷ b';' ∷ b'=' ∷ b'[' ∷ b']' ∷ b'.' ∷ b'<' ∷ b'>' ∷ [])

abbrev pub widen : Token → Token
widen t = record t { width = suc t.width }

unfoldable pub next_token : Text → Option Token
next_token [] = none
next_token (c ∷ []) = some (record { char = c; width = 1 })
next_token (c ∷ d ∷ s) =
    if is_stop c
    then some (record { char = c; width = 1 })
    else elim (next_token (d ∷ s)) [ none ↦ none | some t ↦ some (widen t) ]

-- What a token decides: an answer, the search for the partner of a `<`, or the next character.
pub data Verdict : Type 0 where
  answer : Bool → Verdict
  angle : Verdict
  skip : Verdict

unfoldable pub verdict : ℕ → Verdict
verdict c =
    if one_char c (b'{' ∷ b'}' ∷ b';' ∷ [])
    then answer false
    else if one_char c (b'>' ∷ b'=' ∷ b'[' ∷ b']' ∷ b'.' ∷ [])
    then answer true
    else if c == b'<'
    then angle
    else skip

-- How a round of the loop ends: with an answer, or at a line and a position.
pub data Step : Type 0 where
  finish : Bool → Step
  go_to : ℕ → ℕ → Step

-- Behind the search for a partner.
pub after_close : ℕ → Option ℕ → Step
after_close n none = finish false
after_close n (some p) = go_to n p

-- Behind a token, at the position `p` behind it.
unfoldable pub after_token : List Text → ℕ → ℕ → Verdict → Step
after_token elided n p (answer b) = finish b
after_token elided n p skip =
    if leb (length (line_at elided n)) (p + 1) then go_to (suc n) 0 else go_to n (p + 1)
after_token elided n p angle =
    let place = close_expression elided n (p - 1) in after_close place.linenum place.position

unfoldable pub at_token : List Text → ℕ → ℕ → Option Token → Step
at_token elided n p none = go_to (suc n) 0
at_token elided n p (some t) = after_token elided n (p + t.width) (verdict t.char)

-- A round.
unfoldable pub template_round : List Text → ℕ → ℕ → Step
template_round elided n p =
    if ltb n (length elided)
    then at_token elided n p (next_token (drop p (line_at elided n)))
    else finish false

-- The loop. `none` is for fuel that has run out.
unfoldable pub in_template_rounds : ℕ → List Text → Step → Option Bool
in_template_rounds fuel elided (finish b) = some b
in_template_rounds zero elided (go_to n p) = none
in_template_rounds (suc fuel) elided (go_to n p) =
    in_template_rounds fuel elided (template_round elided n p)

-- The characters and line ends of the file.
unfoldable pub file_size : List Text → ℕ
file_size [] = 0
file_size (line ∷ lines) = suc (length line) + file_size lines

unfoldable pub in_template_argument_list : List Text → ℕ → ℕ → Option Bool
in_template_argument_list elided n p =
    in_template_rounds (suc (file_size elided)) elided (go_to n p)
