-- ===== src/Regex.antt =====
-- The part of Python's `re` that the script's patterns use: a backtracking matcher that tries the
-- alternatives in order, prefers more rounds of a greedy repetition, and records groups.
pub mod Progress
pub mod Groups
use Prim.Native.String.{String}
use mathlib.Core.List.{reverse}
use turtle.Common.{
  ℕ, zero, suc, ◌-◌, Bool, true, false, not, Option, none, some, List, [], ◌∷◌, ◌++◌, ◌==◌, ltb,
  if◌then◌else◌, length, take, any,
}
use turtle.Common.Text.{Text, codes, is_space, is_word, is_digit}

pub data Regex : Type 0 where
  empty : Regex
  char : (ℕ → Bool) → Regex
  both alt : Regex → Regex → Regex
  many lazy_many : Regex → Regex
  group : ℕ → Regex → Regex
  word_edge at_start at_end : Regex
  ahead not_ahead : Regex → Regex

-- A position in a text: what is behind, nearest first, what is in front, and the groups.
pub record Cursor : Type 0 where
  pub behind : Text
  pub rest : Text
  pub groups : List (ℕ × Text)

abbrev pub Next : Type 0
Next = Cursor → Option Cursor

abbrev pub step : (ℕ → Bool) → Text → Cursor → Next → Option Cursor
step p [] c k = none
step p (x ∷ rest) c k = if p x then k (record c { behind = x ∷ c.behind; rest = rest }) else none

abbrev starts_word : Text → Bool
starts_word [] = false
starts_word (x ∷ _) = is_word x

abbrev is_end : Text → Bool
is_end [] = true
is_end (x ∷ []) = x == 10
is_end _ = false

abbrev is_nil : Text → Bool
is_nil [] = true
is_nil _ = false

abbrev differ : Bool → Bool → Bool
differ true b = not b
differ false b = b

-- A repetition. Each round must consume a character, as in Python, so the length of the text in
-- front bounds the rounds.
pub repeat : (Cursor → Next → Option Cursor) → Bool → ℕ → Cursor → Next → Option Cursor
repeat body greedy zero c k = k c
repeat body greedy (suc fuel) c k =
    let again : Next = λ d. elim (ltb (length d.rest) (length c.rest)) [
      | true ↦ repeat body greedy fuel d k
      | false ↦ none
    ] in
    elim greedy [
      | true ↦ elim (body c again) [ some d ↦ some d | none ↦ k c ]
      | false ↦ elim (k c) [ some d ↦ some d | none ↦ body c again ]
    ]

pub run : Regex → Cursor → Next → Option Cursor
unfolding repeat is_word
run empty c k = k c
run (char p) c k = step p c.rest c k
run (both a b) c k = run a c (λ d. run b d k)
run (alt a b) c k = elim (run a c k) [ some d ↦ some d | none ↦ run b c k ]
run (many a) c k = repeat (λ d j. run a d j) true (length c.rest) c k
run (lazy_many a) c k = repeat (λ d j. run a d j) false (length c.rest) c k
run (group n a) c k =
    run a c
      λ d. k (record d { groups = (n, take (length c.rest - length d.rest) c.rest) ∷ d.groups })
run word_edge c k = if differ (starts_word c.behind) (starts_word c.rest) then k c else none
run at_start c k = if is_nil c.behind then k c else none
run at_end c k = if is_end c.rest then k c else none
run (ahead a) c k = elim (run a c some) [ some d ↦ k c | none ↦ none ]
run (not_ahead a) c k = elim (run a c some) [ some d ↦ none | none ↦ k c ]

-- The notation of the patterns: a literal text, `.`, and the usual classes.
unfoldable pub lit : Text → Regex
lit [] = empty
lit (x ∷ s) = both (char (λ c. c == x)) (lit s)

unfoldable pub word : String → Regex
unfolding lit codes
word s = lit (codes s)

-- `[...]` and `[^...]` over the listed characters.
unfoldable pub one_of : String → Regex
unfolding codes
one_of s = char (λ c. any (λ x. c == x) (codes s))

unfoldable pub none_of : String → Regex
unfolding codes
none_of s = char (λ c. not (any (λ x. c == x) (codes s)))

unfoldable pub dot : Regex
dot = char (λ c. not (c == 10))

unfoldable pub space : Regex
unfolding is_space
space = char is_space

unfoldable pub non_space : Regex
unfolding is_space
non_space = char (λ c. not (is_space c))

unfoldable pub word_char : Regex
unfolding is_word
word_char = char is_word

unfoldable pub digit : Regex
unfolding is_digit
digit = char is_digit

abbrev pub optional : Regex → Regex
optional a = alt a empty

unfoldable pub some_of : Regex → Regex
some_of a = both a (many a)

-- The alternatives, and the concatenation, of a list.
unfoldable pub choice : List Regex → Regex
choice [] = not_ahead empty
choice (a ∷ []) = a
choice (a ∷ b ∷ as') = alt a (choice (b ∷ as'))

unfoldable pub seq : List Regex → Regex
seq [] = empty
seq (a ∷ as') = both a (seq as')

-- `Match(pattern, s)`: a match at the start of `s`. Groups that took no part are absent.
abbrev pub cursor : Text → Text → Cursor
cursor behind s = record { behind = behind; rest = s; groups = [] }

unfoldable pub match : Regex → Text → Option Cursor
unfolding run
match r s = run r (cursor [] s) some

is_some {ℓ} : {A : Type ℓ} → Option A → Bool
is_some none = false
is_some (some _) = true

unfoldable pub matches : Regex → Text → Bool
unfolding match is_some
matches r s = is_some (match r s)

-- `Search(pattern, s)`: the leftmost match.
search_from : Regex → Text → Text → Option Cursor
search_from r behind [] = run r (cursor behind []) some
search_from r behind (x ∷ s) = elim (run r (cursor behind (x ∷ s)) some) [
  | some d ↦ some d
  | none ↦ search_from r (x ∷ behind) s
]

unfoldable pub find_match : Regex → Text → Option Cursor
unfolding run search_from
find_match r s = search_from r [] s

unfoldable pub found : Regex → Text → Bool
unfolding find_match is_some
found r s = is_some (find_match r s)

-- `match.group(n)`
abbrev lookup_group : ℕ → List (ℕ × Text) → Option Text
lookup_group n [] = none
lookup_group n ((m, t) ∷ gs) = if m == n then some t else lookup_group n gs

unfoldable pub captured : ℕ → Cursor → Option Text
captured n c = lookup_group n c.groups

-- The same where the group always takes part.
unfoldable pub captured_text : ℕ → Cursor → Text
unfolding captured
captured_text n c = elim (captured n c) [ none ↦ [] | some t ↦ t ]

-- `pattern.sub('', s)`, for a pattern that matches no empty text: the matches are cut out, from
-- the left. `skip` characters belong to a match.
remove_from : Regex → ℕ → Text → Text → Text
remove_from r skip behind [] = []
remove_from r (suc skip) behind (x ∷ s) = remove_from r skip (x ∷ behind) s
remove_from r zero behind (x ∷ s) = elim (run r (cursor behind (x ∷ s)) some) [
  | some d ↦ remove_from r (length s - length d.rest) (x ∷ behind) s
  | none ↦ x ∷ remove_from r zero (x ∷ behind) s
]

unfoldable pub remove_all : Regex → Text → Text
unfolding run remove_from
remove_all r s = remove_from r 0 [] s

-- `pattern.sub(t, s)`, for a pattern that matches no empty text and a plain `t`.
replace_matches : Regex → Text → ℕ → Text → Text → Text
replace_matches r t skip behind [] = []
replace_matches r t (suc skip) behind (x ∷ s) = replace_matches r t skip (x ∷ behind) s
replace_matches r t zero behind (x ∷ s) = elim (run r (cursor behind (x ∷ s)) some) [
  | some d ↦ t ++ replace_matches r t (length s - length d.rest) (x ∷ behind) s
  | none ↦ x ∷ replace_matches r t zero (x ∷ behind) s
]

unfoldable pub replace_all : Regex → Text → Text → Text
unfolding run replace_matches
replace_all r t s = replace_matches r t 0 [] s

-- `pattern.finditer(s)`, for a pattern that matches no empty text.
matches_from : Regex → ℕ → Text → Text → List Cursor
matches_from r skip behind [] = []
matches_from r (suc skip) behind (x ∷ s) = matches_from r skip (x ∷ behind) s
matches_from r zero behind (x ∷ s) = elim (run r (cursor behind (x ∷ s)) some) [
  | some d ↦ d ∷ matches_from r (length s - length d.rest) (x ∷ behind) s
  | none ↦ matches_from r zero (x ∷ behind) s
]

unfoldable pub all_matches : Regex → Text → List Cursor
unfolding run matches_from
all_matches r s = matches_from r 0 [] s

-- `Search(pattern, s)` with `match.start()`.
locate_from : Regex → ℕ → Text → Text → Option (ℕ × Cursor)
locate_from r i behind [] = elim (run r (cursor behind []) some) [
  | some d ↦ some (i, d)
  | none ↦ none
]
locate_from r i behind (x ∷ s) = elim (run r (cursor behind (x ∷ s)) some) [
  | some d ↦ some (i, d)
  | none ↦ locate_from r (suc i) (x ∷ behind) s
]

unfoldable pub locate : Regex → Text → Option (ℕ × Cursor)
unfolding run locate_from
locate r s = locate_from r 0 [] s

-- `re.split(pattern, s)`, for a pattern without groups that matches no empty text. The piece so far
-- is kept last character first.
split_matches : Regex → ℕ → Text → Text → Text → List Text
split_matches r skip piece behind [] = reverse piece ∷ []
split_matches r (suc skip) piece behind (x ∷ s) = split_matches r skip piece (x ∷ behind) s
split_matches r zero piece behind (x ∷ s) = elim (run r (cursor behind (x ∷ s)) some) [
  | some d ↦ reverse piece ∷ split_matches r (length s - length d.rest) [] (x ∷ behind) s
  | none ↦ split_matches r zero (x ∷ piece) (x ∷ behind) s
]

unfoldable pub split_all : Regex → Text → List Text
unfolding run split_matches
split_all r s = split_matches r 0 [] [] s
