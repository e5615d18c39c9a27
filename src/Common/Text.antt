-- ===== src/Common/Text.antt =====
-- Python's `str` as a list of code points, and the methods that the script calls. Case and white
-- space are those of ASCII, which is what the script is run on.
use Prim.Native.Nat.{ℕ, zero, suc, ◌+◌, ◌-◌}
use Prim.Native.Char.{code}
use Prim.Native.String.{String}
use mathlib.Core.Path.{◌≡◌}
use mathlib.Core.Bool.{Bool, true, false, ◌&&◌, ◌||◌}
use mathlib.Core.Logic.{◌↔◌}
use mathlib.Core.List.{List, [], ◌∷◌, ◌++◌, reverse, map}
use mathlib.Core.Option.{Option, none, some}
use native.Mathlib.Omega.{arith}
use turtle.Common.Tests.{leb, ltb, ◌==◌, if◌then◌else◌}
use turtle.Common.Lists.{length}

abbrev pub Text : Type 0
Text = List ℕ

-- The code points of a literal.
unfoldable pub codes : String → Text
codes String.[] = []
codes (String.◌∷◌ c s) = code c ∷ codes s

-- `s == t`
unfoldable pub eq_text : Text → Text → Bool
eq_text [] [] = true
eq_text (x ∷ xs) (y ∷ ys) = x == y && eq_text xs ys
eq_text _ _ = false

pub eq_text_iff : (s t : Text) → (eq_text s t ≡ true) ↔ (s ≡ t)
unfolding eq_text
eq_text_iff (x ∷ xs) (y ∷ ys) = ground (arith, eq_text_iff xs ys)
eq_text_iff _ _ = ground arith

-- `s in texts`
unfoldable pub mem_text : Text → List Text → Bool
unfolding eq_text
mem_text s [] = false
mem_text s (t ∷ ts) = eq_text s t || mem_text s ts

-- `s > t`, by code points.
unfoldable pub gt_text : Text → Text → Bool
gt_text [] t = false
gt_text (x ∷ xs) [] = true
gt_text (x ∷ xs) (y ∷ ys) = if x == y then gt_text xs ys else ltb y x

-- `s.startswith(p)`, by the rest behind the prefix.
pub strip_prefix : Text → Text → Option Text
strip_prefix [] s = some s
strip_prefix (x ∷ p) [] = none
strip_prefix (x ∷ p) (y ∷ s) = if x == y then strip_prefix p s else none

unfoldable pub starts_with : Text → Text → Bool
unfolding strip_prefix
starts_with p s = elim (strip_prefix p s) [ none ↦ false | some _ ↦ true ]

-- `s.endswith(p)`
unfoldable pub ends_with : Text → Text → Bool
unfolding starts_with
ends_with p s = starts_with (reverse p) (reverse s)

-- `s.find(p)`, `none` for -1.
unfoldable pub find : Text → Text → Option ℕ
unfolding starts_with
find p [] = if starts_with p [] then some 0 else none
find p (c ∷ s) =
    let later = find p s in
    if starts_with p (c ∷ s) then some 0 else elim later [ none ↦ none | some i ↦ some (suc i) ]

-- `s.count(p)` and `s.replace(p, r)` for a nonempty `p`: after an occurrence, as many characters
-- are passed over as `p` has left.
count_from : ℕ → Text → Text → ℕ
count_from skip p [] = 0
count_from (suc skip) p (c ∷ s) = count_from skip p s
count_from zero p (c ∷ s) =
    let hit = suc (count_from (length p - 1) p s) in
    let miss = count_from zero p s in if starts_with p (c ∷ s) then hit else miss

unfoldable pub count : Text → Text → ℕ
unfolding count_from starts_with
count = count_from 0

unfoldable pub replace_from : ℕ → Text → Text → Text → Text
replace_from skip p r [] = []
replace_from (suc skip) p r (c ∷ s) = replace_from skip p r s
replace_from zero p r (c ∷ s) =
    let hit = r ++ replace_from (length p - 1) p r s in
    let miss = c ∷ replace_from zero p r s in if starts_with p (c ∷ s) then hit else miss

unfoldable pub replace : Text → Text → Text → Text
unfolding replace_from starts_with
replace = replace_from 0

abbrev pub between : ℕ → ℕ → ℕ → Bool
between lo hi c = leb lo c && leb c hi

-- `c.isspace()`, which is also `\s`: tab to carriage return, the four separators, and blank.
unfoldable pub is_space : ℕ → Bool
is_space c = between 9 13 c || between 28 32 c

unfoldable pub is_digit : ℕ → Bool
is_digit c = between b'0' b'9' c

unfoldable pub is_upper : ℕ → Bool
is_upper c = between b'A' b'Z' c

is_alpha : ℕ → Bool
unfolding is_upper
is_alpha c = between b'a' b'z' c || is_upper c

-- `\w`
unfoldable pub is_word : ℕ → Bool
unfolding is_alpha is_digit
is_word c = is_alpha c || is_digit c || c == b'_'

-- `c.lower()`
unfoldable pub to_lower : ℕ → ℕ
unfolding is_upper
to_lower c = if is_upper c then c + 32 else c

unfoldable pub lower : Text → Text
lower = map to_lower

-- `s.lstrip()`, `s.rstrip()`, `s.strip()`
unfoldable pub drop_spaces : Text → Text
unfolding is_space
drop_spaces [] = []
drop_spaces (c ∷ s) = if is_space c then drop_spaces s else c ∷ s

unfoldable pub rstrip : Text → Text
unfolding drop_spaces
rstrip s = reverse (drop_spaces (reverse s))

unfoldable pub strip : Text → Text
unfolding rstrip
strip s = rstrip (drop_spaces s)

-- `s.split(d)` at a single character `d`: the pieces between, at least one.
unfoldable pub split_onto : ℕ → Text → Text → List Text
split_onto d piece [] = reverse piece ∷ []
split_onto d piece (c ∷ s) =
    let cut = reverse piece ∷ split_onto d [] s in
    let kept = split_onto d (c ∷ piece) s in if c == d then cut else kept

unfoldable pub split : ℕ → Text → List Text
unfolding split_onto
split d s = split_onto d [] s

-- `s.split()`: the maximal runs of other characters than white space.
words_onto : Text → Text → List Text
words_onto [] [] = []
words_onto (x ∷ word) [] = reverse (x ∷ word) ∷ []
words_onto [] (c ∷ s) = if is_space c then words_onto [] s else words_onto (c ∷ []) s
words_onto (x ∷ word) (c ∷ s) =
    let cut = reverse (x ∷ word) ∷ words_onto [] s in
    let kept = words_onto (c ∷ x ∷ word) s in if is_space c then cut else kept

unfoldable pub words : Text → List Text
unfolding words_onto is_space
words = words_onto []

-- `p in s`
unfoldable pub contains : Text → Text → Bool
unfolding find
contains p s = elim (find p s) [ none ↦ false | some _ ↦ true ]

-- The text from the last `d` on, and the text up to it, without it: `s[s.rfind(d):]` and
-- `s[:s.rfind(d)]`.
unfoldable pub behind_last : ℕ → Text → Option Text
behind_last d [] = none
behind_last d (c ∷ s) = elim (behind_last d s) [
  | some t ↦ some t
  | none ↦ if c == d then some (c ∷ s) else none
]

-- `c in string.whitespace`, and `c.isdigit()`
unfoldable pub is_whitespace : ℕ → Bool
is_whitespace c = between 9 13 c || c == 32

unfoldable pub is_alnum : ℕ → Bool
unfolding is_alpha is_digit
is_alnum c = is_alpha c || is_digit c

-- `s.isdigit()`
unfoldable pub is_digits : Text → Bool
unfolding is_digit
is_digits [] = false
is_digits (c ∷ []) = is_digit c
is_digits (c ∷ d ∷ s) = is_digit c && is_digits (d ∷ s)

-- `s.upper()`
unfoldable pub upper : Text → Text
upper = map (λ c. if between b'a' b'z' c then c - 32 else c)
