-- ===== src/Cleanse/Strings.antt =====
-- build_support/cpplint.py: what `CleansedLines._CollapseStrings` makes of the literals.
use turtle.Common.{
  ℕ, zero, suc, ◌<◌, ◌≡◌, refl, ◌∙◌, ap, true, false, ◌||◌, [], ◌∷◌, ◌++◌, none, some, ◌==◌, length,
  length-append, All, arith, append_assoc,
}
use turtle.Common.Text.{Text, codes}
use turtle.Cleanse.{
  first_quote, push_head, behind_char, collapse_rounds, collapse_strings, digits_pattern,
  escapes_pattern, include_pattern,
}
use turtle.Regex.{matches, found, remove_all}

-- Text without quotes, and text without a character.
unfoldable pub NoQuotes : Text → Type 0
NoQuotes s = All (λ c. (c == b'"' || c == b'\'') ≡ false) s

unfoldable pub Without : ℕ → Text → Type 0
Without q s = All (λ c. (c == q) ≡ false) s

-- A text and the same with its literals emptied. A literal is a string, or a character behind a
-- text that is no number; one that is not closed stays.
pub data Literals : Text → Text → Type 0 where
  plain : {s : Text} → NoQuotes s → Literals s s
  string :
      (head body : Text) {rest out : Text}
      → NoQuotes head
      → Without b'"' body
      → Literals rest out
      → Literals (head ++ b'"' ∷ (body ++ b'"' ∷ rest)) (head ++ b'"' ∷ b'"' ∷ out)
  character :
      (head body : Text) {rest out : Text}
      → NoQuotes head
      → found digits_pattern head ≡ false
      → Without b'\'' body
      → Literals rest out
      → Literals (head ++ b'\'' ∷ (body ++ b'\'' ∷ rest)) (head ++ b'\'' ∷ b'\'' ∷ out)
  unclosed_string :
      (head body : Text)
      → NoQuotes head
      → Without b'"' body
      → Literals (head ++ b'"' ∷ body) (head ++ b'"' ∷ body)

first_quote_plain : (s : Text) → NoQuotes s → first_quote s ≡ none
unfolding first_quote NoQuotes
first_quote_plain [] h = refl
first_quote_plain (c ∷ s) (h, hs) = ground (arith, h, first_quote_plain s hs)

first_quote_double :
    (head t : Text)
    → NoQuotes head
    → first_quote (head ++ b'"' ∷ t) ≡ some (record { head = head; double = true; tail = t })
unfolding first_quote NoQuotes
first_quote_double [] t h = refl
first_quote_double (c ∷ s) t (h, hs) =
    ground (arith, h) ∙ ap (push_head c) (first_quote_double s t hs)

first_quote_single :
    (head t : Text)
    → NoQuotes head
    → first_quote (head ++ b'\'' ∷ t) ≡ some (record { head = head; double = false; tail = t })
unfolding first_quote NoQuotes
first_quote_single [] t h = refl
first_quote_single (c ∷ s) t (h, hs) =
    ground (arith, h) ∙ ap (push_head c) (first_quote_single s t hs)

behind_char_closed :
    (q : ℕ) (body rest : Text)
    → (q == q) ≡ true
    → Without q body
    → behind_char q (body ++ q ∷ rest) ≡ some rest
unfolding behind_char Without
behind_char_closed q [] rest i h = rw i refl
behind_char_closed q (c ∷ s) rest i (h, hs) = rw h (behind_char_closed q s rest i hs)

behind_char_open : (q : ℕ) (body : Text) → Without q body → behind_char q body ≡ none
unfolding behind_char Without
behind_char_open q [] h = refl
behind_char_open q (c ∷ s) (h, hs) = rw h (behind_char_open q s hs)

join :
    (done head out : Text) (q : ℕ)
    → (done ++ (head ++ q ∷ q ∷ [])) ++ out ≡ done ++ (head ++ q ∷ q ∷ out)
join done head out q =
    append_assoc done (head ++ q ∷ q ∷ []) out
    ∙ ap (λ t. done ++ t) (append_assoc head (q ∷ q ∷ []) out)

two_quotes_lem :
    (done head out : Text)
    → ((done ++ (head ++ codes "\"\"")) ++ out ≡ done ++ (head ++ b'"' ∷ b'"' ∷ out))
      × ((done ++ (head ++ codes "''")) ++ out ≡ done ++ (head ++ b'\'' ∷ b'\'' ∷ out))
unfolding codes
two_quotes_lem done head out = (join done head out b'"', join done head out b'\'')

-- The rounds, where enough are left.
collapse_rounds-Literals :
    {s out : Text} (d : Literals s out) (fuel : ℕ) (done : Text)
    → length s < fuel
    → collapse_rounds fuel s done ≡ done ++ out
unfolding collapse_rounds
collapse_rounds-Literals (plain {s = s} n) zero done h = absurd (omega (arith, h))
collapse_rounds-Literals (plain {s = s} n) (suc fuel) done h =
    rw (first_quote_plain s n, collapse_rounds) refl
collapse_rounds-Literals (string head body n w d) zero done h = absurd (omega (arith, h))
collapse_rounds-Literals (string head body {rest = rest} {out = out} n w d) (suc fuel) done h =
    rw
      (
        first_quote_double head (body ++ b'"' ∷ rest) n,
        behind_char_closed b'"' body rest refl w,
        collapse_rounds,
      )
      (collapse_rounds-Literals d fuel (done ++ (head ++ codes "\"\"")) (
          omega (
            arith,
            h,
            length-append head (b'"' ∷ (body ++ b'"' ∷ rest)),
            length-append body (b'"' ∷ rest),
          ))
        ∙ (two_quotes_lem done head out).0)
collapse_rounds-Literals (character head body n f w d) zero done h = absurd (omega (arith, h))
collapse_rounds-Literals (character head body {rest = rest} {out = out} n f w d) (suc fuel) done h =
    rw
      (
        first_quote_single head (body ++ b'\'' ∷ rest) n,
        f,
        behind_char_closed b'\'' body rest refl w,
        collapse_rounds,
      )
      (collapse_rounds-Literals d fuel (done ++ (head ++ codes "''")) (
          omega (
            arith,
            h,
            length-append head (b'\'' ∷ (body ++ b'\'' ∷ rest)),
            length-append body (b'\'' ∷ rest),
          ))
        ∙ (two_quotes_lem done head out).1)
collapse_rounds-Literals (unclosed_string head body n w) zero done h = absurd (omega (arith, h))
collapse_rounds-Literals (unclosed_string head body n w) (suc fuel) done h =
    rw (first_quote_double head body n, behind_char_open b'"' body w, collapse_rounds) refl

-- A line that is no `#include`, and that is, once the escapes are taken out, made of text without
-- quotes, closed strings and closed character literals, none of them behind a number, and perhaps a
-- string at the end that is not closed, gets each closed literal emptied, and the rest of it is kept.
-- A line with a digit separator or with a single quote that is not closed is not of that form.
pub collapse_strings-Literals :
    (line out : Text)
    → matches include_pattern line ≡ false
    → Literals (remove_all escapes_pattern line) out
    → collapse_strings line ≡ out
unfolding collapse_strings
collapse_strings-Literals line out h d =
    rw (h, collapse_strings)
      (collapse_rounds-Literals d (suc (length (remove_all escapes_pattern line))) [] (omega arith))
