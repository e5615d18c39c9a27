-- ===== src/Checks/Inside.antt =====
-- build_support/cpplint.py: `_GetTextInside`.
use turtle.Common.{
  ℕ, ◌≡◌, refl, ◌∙◌, ap, Bool, true, not, ◌||◌, List, [], ◌∷◌, ◌++◌, Option, none, some, ◌==◌,
  if◌then◌else◌, arith, append_assoc, append-nil,
}
use turtle.Common.Text.{Text}
use turtle.Regex.{Regex, Cursor, find_match}
use turtle.Expression.{is_open, is_close, pairs}
use turtle.Expression.Grammar.{Nested, nil, plain, wrap}

-- `matching_punctuation[c]`
pub partner : ℕ → ℕ
partner c = if c == b'(' then b')' else if c == b'{' then b'}' else b']'

-- None, a text, or a failed assertion.
pub data Inside : Type 0 where
  nothing : Inside
  inside : Text → Inside
  failed : Inside

abbrev prepend : ℕ → Option Text → Option Text
prepend c none = none
prepend c (some s) = some (c ∷ s)

-- The loop, with the stack of closing punctuation above the first: the text up to the close of the
-- first.
scan_inside : ℕ → List ℕ → Text → Option Text
unfolding partner
scan_inside last stack [] = none
scan_inside last [] (c ∷ rest) =
    let opened = prepend c (scan_inside last (partner c ∷ []) rest) in
    let other = prepend c (scan_inside last [] rest) in
    if c == last then some [] else if is_close c then none else if is_open c then opened else other
scan_inside last (b ∷ stack) (c ∷ rest) =
    let closed = prepend c (scan_inside last stack rest) in
    let opened = prepend c (scan_inside last (partner c ∷ b ∷ stack) rest) in
    let other = prepend c (scan_inside last (b ∷ stack) rest) in
    if c == b then closed else if is_close c then none else if is_open c then opened else other

abbrev from_option : Option Text → Inside
from_option none = nothing
from_option (some s) = inside s

-- The match ends with an opening character, which is next behind it.
at_match : Text → Text → Inside
at_match [] rest = failed
at_match (o ∷ _) rest = if is_open o then from_option (scan_inside (partner o) [] rest) else failed

-- The one caller's pattern has no `^` or `$`, which `re.M` changes.
pub get_text_inside : Text → Regex → Inside
get_text_inside text pattern = elim (find_match pattern text) [
  | none ↦ nothing
  | some m ↦ at_match m.behind m.rest
]

-- A character that opens and closes nothing.
abbrev pub is_other : ℕ → Bool
is_other c = not (is_open c || is_close c)

abbrev top : ℕ → List ℕ → ℕ
top last [] = last
top last (b ∷ stack) = b

abbrev prepend_all : Text → Option Text → Option Text
prepend_all [] o = o
prepend_all (c ∷ s) o = prepend c (prepend_all s o)

prepend_all-append :
    (s t : Text) (o : Option Text) → prepend_all (s ++ t) o ≡ prepend_all s (prepend_all t o)
prepend_all-append [] t o = refl
prepend_all-append (c ∷ s) t o = ap (prepend c) (prepend_all-append s t o)

prepend_all-some : (s t : Text) → prepend_all s (some t) ≡ some (s ++ t)
prepend_all-some [] t = refl
prepend_all-some (c ∷ s) t = rw (prepend_all-some s t) refl

other_turn :
    (last : ℕ) (stack : List ℕ) (c : ℕ) (rest : Text)
    → is_close (top last stack) ≡ true
    → is_other c ≡ true
    → scan_inside last stack (c ∷ rest) ≡ prepend c (scan_inside last stack rest)
unfolding scan_inside
other_turn last [] c rest h g = ground arith
other_turn last (b ∷ stack) c rest h g = ground arith

open_turn :
    (last : ℕ) (stack : List ℕ) (c : ℕ) (rest : Text)
    → is_close (top last stack) ≡ true
    → is_open c ≡ true
    → scan_inside last stack (c ∷ rest) ≡ prepend c (scan_inside last (partner c ∷ stack) rest)
unfolding scan_inside
open_turn last [] c rest h g = ground arith
open_turn last (b ∷ stack) c rest h g = ground arith

close_turn :
    (last c : ℕ) (stack : List ℕ) (rest : Text)
    → scan_inside last (c ∷ stack) (c ∷ rest) ≡ prepend c (scan_inside last stack rest)
unfolding scan_inside
close_turn last c stack rest = ground arith

last_turn : (last : ℕ) (rest : Text) → scan_inside last [] (last ∷ rest) ≡ some []
unfolding scan_inside
last_turn last rest = ground arith

pairs_lem :
    (o c : ℕ) → pairs o c ≡ true → (is_open o ≡ true) × (partner o ≡ c) × (is_close c ≡ true)
unfolding partner
pairs_lem o c h = (ground arith, ground arith, ground arith)

scan_inside-Nested :
    (last : ℕ) {s : Text} (d : Nested is_other s) (stack : List ℕ) (rest : Text)
    → is_close (top last stack) ≡ true
    → scan_inside last stack (s ++ rest) ≡ prepend_all s (scan_inside last stack rest)
scan_inside-Nested last nil stack rest h = refl
scan_inside-Nested last (plain c {s = s} e d) stack rest h =
    other_turn last stack c (s ++ rest) h e
    ∙ ap (prepend c) (scan_inside-Nested last d stack rest h)
scan_inside-Nested last (wrap o c {s = s} {t = t} e d f) stack rest h =
    let (g, i, j) = pairs_lem o c e in
    let behind = c ∷ (t ++ rest) in
    let within : scan_inside last (c ∷ stack) (s ++ behind)
        ≡ prepend_all s (prepend c (prepend_all t (scan_inside last stack rest))) =
      scan_inside-Nested last d (c ∷ stack) behind j
      ∙ ap (prepend_all s) (
          close_turn last c stack (t ++ rest)
          ∙ ap (prepend c) (scan_inside-Nested last f stack rest h)) in
    rw (append_assoc s (c ∷ t) rest, prepend_all-append s (c ∷ t) (scan_inside last stack rest))
      (open_turn last stack o (s ++ behind) h g ∙ rw i (ap (prepend o) within))

-- Where the pattern is found just in front of well-nested text and the partner of its last
-- character, the text inside is that text.
pub get_text_inside-Nested :
    (text : Text) (pattern : Regex) (m : Cursor) (o c : ℕ) (behind : Text) {s : Text} (rest : Text)
    → Nested is_other s
    → pairs o c ≡ true
    → find_match pattern text ≡ some m
    → m.behind ≡ o ∷ behind
    → m.rest ≡ s ++ c ∷ rest
    → get_text_inside text pattern ≡ inside s
unfolding get_text_inside at_match
get_text_inside-Nested text pattern m o c behind {s = s} rest d e f g h =
    let (p, q, r) = pairs_lem o c e in
    let scanned : scan_inside c [] (s ++ c ∷ rest) ≡ some s =
      scan_inside-Nested c d [] (c ∷ rest) r
      ∙ ap (prepend_all s) (last_turn c rest)
      ∙ prepend_all-some s []
      ∙ ap some (append-nil s) in
    rw (f, g, h, p, q, scanned, get_text_inside, at_match) refl
