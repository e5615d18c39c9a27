-- ===== src/Nesting/Template/Rounds.antt =====
-- build_support/cpplint.py: the loop of `NestingState.InTemplateArgumentList` comes to an end.
use turtle.Common.{
  ℕ, zero, suc, ◌+◌, ◌-◌, ◌<◌, ◌≤◌, ◌≡◌, refl, Bool, true, false, List, [], ◌∷◌, Option, none, some,
  ltb, leb, length, drop, if◌then◌else◌, not, if◌then◌else◌, not, length-drop, arith, ◌⊎◌, inl, inr,
  Bool-cases, ltb→lt,
}
use turtle.Common.Text.{Text}
use turtle.Common.Slices.{line_at}
use turtle.Expression.{
  Place, Found, at_position, unclosed, open_stack, scan_lines, close_expression,
  find_end_of_expression_in_line, opens_expression,
}
use turtle.Expression.Bounds.{find_end_of_expression_in_line_bounds}
use turtle.Nesting.Template.{
  Token, widen, is_stop, verdict, Verdict, answer, skip, angle, Step, finish, go_to, after_close,
  after_token, at_token, template_round, next_token, in_template_rounds, in_template_argument_list,
  file_size,
}

-- The characters and line ends from a position on.
unfoldable left : List Text → ℕ → ℕ → ℕ
left [] n p = 0
left (l ∷ ls) zero p = suc (length l - p) + file_size ls
left (l ∷ ls) (suc n) p = left ls n p

left_le : (e : List Text) (n p : ℕ) → left e n p ≤ file_size e
unfolding left file_size
left_le [] n p = omega arith
left_le (l ∷ ls) zero p = omega arith
left_le (l ∷ ls) (suc n) p = omega (arith, left_le ls n p)

left_here : (e : List Text) (n p q : ℕ) → p < length (line_at e n) → p < q → left e n q < left e n p
unfolding left
left_here [] n p q h g = omega arith
left_here (l ∷ ls) zero p q h g = omega arith
left_here (l ∷ ls) (suc n) p q h g = left_here ls n p q h g

left_later : (e : List Text) (n m p q : ℕ) → n < length e → n < m → left e m q < left e n p
unfolding left
left_later [] n m p q h g = omega arith
left_later (l ∷ ls) zero zero p q h g = omega arith
left_later (l ∷ ls) (suc n) zero p q h g = omega arith
left_later (l ∷ ls) zero (suc m) p q h g = omega (arith, left_le ls m q)
left_later (l ∷ ls) (suc n) (suc m) p q h g = left_later ls n m p q (omega arith) (omega arith)

-- Where a bracket search that succeeds ends.
scan_lines_forward :
    (total n q : ℕ) (line : Text) (lines : List Text) (r : Found)
    → (scan_lines total line n lines r).position ≡ some q
    → (n < (scan_lines total line n lines r).linenum)
      ⊎ (((scan_lines total line n lines r).linenum ≡ n) × (r ≡ at_position q))
unfolding scan_lines
scan_lines_forward total n q line lines (at_position p) h = inr (refl, ground arith)
scan_lines_forward total n q line lines unclosed h = ground arith
scan_lines_forward total n q line lines (open_stack []) h = ground arith
scan_lines_forward total n q line [] (open_stack (b ∷ stack)) h = ground arith
scan_lines_forward total n q line (next ∷ lines) (open_stack (b ∷ stack)) h =
    elim (scan_lines_forward total (suc n) q next lines _ h) [
      | inl g ↦ inl (omega (arith, g))
      | inr (g, _) ↦ inl (omega (arith, g))
    ]

-- A place that is behind a position, where it has a position.
Behind : ℕ → ℕ → Place → Type 0
Behind n p place =
    (q : ℕ) → place.position ≡ some q → (n < place.linenum) ⊎ ((place.linenum ≡ n) × (p < q))

close_expression_forward : (e : List Text) (n p : ℕ) → Behind n p (close_expression e n p)
unfolding Behind close_expression
close_expression_forward e n p =
    elim (opens_expression (drop p (line_at e n)))
      as (λ b. Behind n p (
        if not b
        then record { line = line_at e n; linenum = length e; position = none }
        else scan_lines (length e) (line_at e n) n (drop (suc n) e)
            (find_end_of_expression_in_line (line_at e n) p []))) [
              | false ↦ λ q h. absurd (ground arith)
              | true ↦ λ q h.
                  elim (scan_lines_forward (length e) n q (line_at e n) (drop (suc n) e)
                    (find_end_of_expression_in_line (line_at e n) p []) h) [
                      | inl g ↦ inl g
                      | inr (g, f) ↦
                          inr (g, (find_end_of_expression_in_line_bounds (line_at e n) p q [] f).0)
                    ]
            ]

-- A token takes characters of the text.
TokenFits : Text → Option Token → Type 0
TokenFits s none = Unit
TokenFits s (some t) = (1 ≤ t.width) × (t.width ≤ length s)

widened :
    (c : ℕ) (s : Text) (o : Option Token)
    → TokenFits s o
    → TokenFits (c ∷ s) (elim o [ none ↦ none | some t ↦ some (widen t) ])
unfolding TokenFits
widened c s none h = tt
widened c s (some t) h = (omega arith, omega (arith, h.1))

next_token-TokenFits : (s : Text) → TokenFits s (next_token s)
unfolding TokenFits next_token
next_token-TokenFits [] = tt
next_token-TokenFits (c ∷ []) = (omega arith, omega arith)
next_token-TokenFits (c ∷ d ∷ s) =
    let later = next_token-TokenFits (d ∷ s) in
    elim (is_stop c)
      as (λ b. TokenFits (c ∷ d ∷ s) (
        if b
        then some (record { char = c; width = 1 })
        else elim (next_token (d ∷ s)) [ none ↦ none | some t ↦ some (widen t) ])) [
          | true ↦ (omega arith, omega arith)
          | false ↦ widened c (d ∷ s) (next_token (d ∷ s)) later
        ]

-- A round that goes on has less left.
Falls : List Text → ℕ → ℕ → Step → Type 0
Falls e n p (finish b) = Unit
Falls e n p (go_to m q) = left e m q < left e n p

after_close-Falls :
    (e : List Text) (n p p' m : ℕ) (o : Option ℕ)
    → n < length e
    → p < length (line_at e n)
    → p ≤ p'
    → ((q : ℕ) → o ≡ some q → (n < m) ⊎ ((m ≡ n) × (p' < q)))
    → Falls e n p (after_close m o)
unfolding Falls after_close
after_close-Falls e n p p' m none h g f b = tt
after_close-Falls e n p p' m (some q) h g f b = elim (b q refl) [
  | inl l ↦ left_later e n m p q h l
  | inr (i, l) ↦ rw i (left_here e n p q g (omega (arith, f, l)))
]

after_token-Falls :
    (e : List Text) (n p width : ℕ) (v : Verdict)
    → n < length e
    → 1 ≤ width
    → width ≤ length (drop p (line_at e n))
    → Falls e n p (after_token e n (p + width) v)
unfolding Falls after_token
after_token-Falls e n p width (answer b) h g f = tt
after_token-Falls e n p width skip h g f =
    let inside : p < length (line_at e n) = omega (arith, length-drop p (line_at e n), f, g) in
    elim (leb (length (line_at e n)) (p + width + 1))
      as (λ b. Falls e n p (if b then go_to (suc n) 0 else go_to n (p + width + 1))) [
        | true ↦ left_later e n (suc n) p 0 h (omega arith)
        | false ↦ left_here e n p (p + width + 1) inside (omega arith)
      ]
after_token-Falls e n p width angle h g f =
    let inside : p < length (line_at e n) = omega (arith, length-drop p (line_at e n), f, g) in
    let place = close_expression e n (p + width - 1) in
    after_close-Falls e n p (p + width - 1) place.linenum place.position h inside (omega (arith, g))
      (unfold Behind in close_expression_forward e n (p + width - 1))

at_token-Falls :
    (e : List Text) (n p : ℕ) (o : Option Token)
    → n < length e
    → TokenFits (drop p (line_at e n)) o
    → Falls e n p (at_token e n p o)
unfolding TokenFits Falls at_token
at_token-Falls e n p none h f = left_later e n (suc n) p 0 h (omega arith)
at_token-Falls e n p (some t) h f = after_token-Falls e n p t.width (verdict t.char) h f.0 f.1

template_round-Falls : (e : List Text) (n p : ℕ) → Falls e n p (template_round e n p)
unfolding Falls template_round
template_round-Falls e n p = elim (Bool-cases (ltb n (length e))) [
  | inr o ↦ rw (o, template_round) tt
  | inl o ↦
      rw (o, template_round)
        (at_token-Falls e n p (next_token (drop p (line_at e n))) (ltb→lt n (length e) o)
          (next_token-TokenFits (drop p (line_at e n))))
]

Fits : List Text → ℕ → Step → Type 0
Fits e fuel (finish b) = Unit
Fits e fuel (go_to n p) = left e n p < fuel

round-Fits :
    (e : List Text) (fuel n p : ℕ) (s : Step) → left e n p ≤ fuel → Falls e n p s → Fits e fuel s
unfolding Falls Fits
round-Fits e fuel n p (finish b) h f = tt
round-Fits e fuel n p (go_to m q) h f = omega (arith, h, f)

rounds_some :
    (fuel : ℕ) (e : List Text) (s : Step)
    → Fits e fuel s
    → (b : Bool) × (in_template_rounds fuel e s ≡ some b)
unfolding in_template_rounds Fits
rounds_some fuel e (finish b) h = (b, refl)
rounds_some zero e (go_to n p) h = absurd (omega arith)
rounds_some (suc fuel) e (go_to n p) h =
    rounds_some fuel e (template_round e n p)
      (round-Fits e fuel n p (template_round e n p) (omega arith) (template_round-Falls e n p))

-- The loop comes to an end: from every line and position, the fuel of the lines' sizes is enough
-- for an answer.
pub in_template_argument_list_total :
    (e : List Text) (n p : ℕ) → (b : Bool) × (in_template_argument_list e n p ≡ some b)
unfolding in_template_argument_list Fits
in_template_argument_list_total e n p =
    rounds_some (suc (file_size e)) e (go_to n p) (omega (arith, left_le e n p))
