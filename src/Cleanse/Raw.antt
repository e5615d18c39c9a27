-- ===== src/Cleanse/Raw.antt =====
-- build_support/cpplint.py: the loops of `CleanseRawStrings` and the lists of `CleansedLines`.
use turtle.Common.{
  ℕ, zero, suc, ◌+◌, ◌≤◌, ◌≡◌, refl, ◌∙◌, ap, true, List, [], ◌∷◌, ◌++◌, Option, none, some, length,
  drop, length-append, length-drop, length-map, arith, some_injective, inl, inr, Option-cases,
  Bool-cases, take, map,
}
use turtle.Common.Text.{Text, codes, find}
use turtle.Cleanse.{
  cleanse_comments, collapse_strings, is_delimiter, raw_prefix, raw_string_pattern, comment_pattern,
  RawStart, raw_match, raw_start, raw_rounds, raw_outside, raw_line, raw_lines, cleanse_raw_strings,
  cleansed_lines, quote_text,
}
use turtle.Regex.{
  Cursor, cursor, match, matches, captured, captured_text, seq, choice, lit, at_start, lazy_many,
  many, word, group, char, dot, at_end,
}
use turtle.Regex.Progress.{width, groupless}
use turtle.Regex.Groups.{seq_front, seq_group, seq_end}

dot_free : (groupless (many dot) ≡ true) × (groupless (lazy_many dot) ≡ true)
unfolding groupless dot
dot_free = (refl, refl)

delimiter_free : groupless (many (char is_delimiter)) ≡ true
unfolding groupless
delimiter_free = refl

prefix_lem : (2 ≤ width (seq raw_prefix)) × (groupless (seq raw_prefix) ≡ true)
unfolding raw_prefix width groupless seq choice word lit codes
prefix_lem = (omega arith, refl)

bracket_lem : (1 ≤ width (seq (word "(" ∷ []))) × (groupless (seq (word "(" ∷ [])) ≡ true)
unfolding width groupless seq word lit codes
bracket_lem = (omega arith, refl)

end_free : groupless (seq (at_end ∷ [])) ≡ true
unfolding groupless seq
end_free = refl

-- The three groups of a raw string's start, and the three characters between them, fit in the line.
raw_groups_fit :
    (line : Text) (m : Cursor)
    → match raw_string_pattern line ≡ some m
    → length (captured_text 1 m) + length (captured_text 2 m) + length (captured_text 3 m) + 3
      ≤ length line
unfolding match raw_string_pattern captured captured_text
raw_groups_fit line m h =
    let tail3 = group 3 (many dot) ∷ at_end ∷ [] in
    let tail2 = group 2 (many (char is_delimiter)) ∷ word "(" ∷ tail3 in
    let tail1 = group 1 (lazy_many dot) ∷ (raw_prefix ++ tail2) in
    let r0 = seq_front (at_start ∷ []) tail1 (cursor [] line) some m h in
    let g1 = seq_group 1 (lazy_many dot) (raw_prefix ++ tail2) r0.at some m dot_free.1 r0.goes_on in
    let r1 = seq_front raw_prefix tail2 g1.at some m g1.goes_on in
    let g2 =
      seq_group 2 (many (char is_delimiter)) (word "(" ∷ tail3) r1.at some m delimiter_free
        r1.goes_on in
    let r2 = seq_front (word "(" ∷ []) tail3 g2.at some m g2.goes_on in
    let g3 = seq_group 3 (many dot) (at_end ∷ []) r2.at some m dot_free.0 r2.goes_on in
    let e = seq_end (at_end ∷ []) g3.at m end_free g3.goes_on in
    rw
      (
        e,
        g3.groups,
        r2.same_groups bracket_lem.1,
        g2.groups,
        r1.same_groups prefix_lem.1,
        g1.groups,
      )
      (omega (
        arith, r0.consumed, g1.fits, r1.consumed, g2.fits, r2.consumed, g3.fits, prefix_lem.0,
        bracket_lem.0,
      ))

-- A raw string's start is longer than what is in front, its delimiter and what is behind.
record StartFits (line : Text) (r : RawStart) : Type 0 where
  fits : length r.front + length r.delimiter + length r.behind + 1 ≤ length line
  delimiter_long : 2 ≤ length r.delimiter

raw_match-StartFits :
    (line : Text) (m : Cursor) (r : RawStart)
    → match raw_string_pattern line ≡ some m
    → raw_match (some m) ≡ some r
    → StartFits line r
raw_match-StartFits line m r h g = elim (Bool-cases (matches comment_pattern (captured_text 1 m))) [
  | inl e ↦ absurd (ground (arith, e, g))
  | inr e ↦
      let is_r = some_injective (rw e at g) in
      rw (← is_r) (record {
        fits = omega (arith, raw_groups_fit line m h, length-append (captured_text 2 m) quote_text);
        delimiter_long = omega (arith, length-append (captured_text 2 m) quote_text);
      })
]

raw_start-StartFits : (line : Text) (r : RawStart) → raw_start line ≡ some r → StartFits line r
unfolding raw_start
raw_start-StartFits line r h = elim (Option-cases (match raw_string_pattern line)) [
  | inl e ↦ absurd (ground (arith, rw e at h))
  | inr (m, e) ↦ raw_match-StartFits line m r e (rw e at h)
]

quotes_lem : length (codes "\"\"") ≡ 2
unfolding codes
quotes_lem = refl

raw_rounds_end :
    (fuel : ℕ) (line : Text)
    → length line ≤ fuel
    → (raw_rounds fuel line).1 ≡ none
    → raw_start (raw_rounds fuel line).0 ≡ none
unfolding raw_rounds
raw_rounds_end zero line h = λ g. elim (Option-cases (raw_start line)) [
  | inl e ↦ e
  | inr (r, e) ↦ absurd (let s = raw_start-StartFits line r e in omega (arith, h, s.fits))
]
raw_rounds_end (suc fuel) line h = elim (Option-cases (raw_start line)) [
  | inl e ↦ rw (e, raw_rounds) (λ g. e)
  | inr (r, e) ↦ elim (Option-cases (find r.delimiter r.behind)) [
    | inl f ↦ rw (e, f, raw_rounds) (λ g. absurd (ground (arith, g)))
    | inr (end, f) ↦
        let s = raw_start-StartFits line r e in
        let next = r.front ++ (codes "\"\"" ++ drop (end + length r.delimiter) r.behind) in
        let quotes : length (codes "\"\"") ≡ 2 = quotes_lem in
        let shorter : length next ≤ fuel = omega (
          arith,
          h,
          s.fits,
          s.delimiter_long,
          quotes,
          length-append r.front (codes "\"\"" ++ drop (end + length r.delimiter) r.behind),
          length-append (codes "\"\"") (drop (end + length r.delimiter) r.behind),
          length-drop (end + length r.delimiter) r.behind,
        ) in
        rw (e, f, raw_rounds) (raw_rounds_end fuel next shorter)
  ]
]

-- The inner loop of `CleanseRawStrings` ends by its own test: a line that it leaves outside a raw
-- string has no start of one.
pub raw_outside_ends :
    (line : Text) → (raw_outside line).1 ≡ none → raw_start (raw_outside line).0 ≡ none
unfolding raw_outside
raw_outside_ends line h = raw_rounds_end (length line) line (omega arith) h

length-raw_lines :
    (delimiter : Option Text) (lines : List Text)
    → length (raw_lines delimiter lines) ≡ length lines
unfolding raw_lines
length-raw_lines delimiter [] = refl
length-raw_lines delimiter (line ∷ lines) =
    ap suc (length-raw_lines (raw_line delimiter line).1 lines)

raw_lines-take :
    (k : ℕ) (delimiter : Option Text) (lines : List Text)
    → raw_lines delimiter (take k lines) ≡ take k (raw_lines delimiter lines)
unfolding raw_lines
raw_lines-take zero delimiter lines = refl
raw_lines-take (suc k) delimiter [] = refl
raw_lines-take (suc k) delimiter (line ∷ lines) =
    ap (◌∷◌ ((raw_line delimiter line).0)) (raw_lines-take k ((raw_line delimiter line).1) lines)

map-take :
    (k : ℕ) (g : Text → Text) (lines : List Text) → map g (take k lines) ≡ take k (map g lines)
map-take zero g lines = refl
map-take (suc k) g [] = refl
map-take (suc k) g (line ∷ lines) = ap (◌∷◌ (g line)) (map-take k g lines)

-- Each of the four lists of `CleansedLines` has as many lines as the file, `num_lines` of them, and
-- its first k lines are what the first k lines of the file give on their own. So line n is
-- there in each of them, and depends on the lines of the file up to line n only.
pub cleansed_lines_lem :
    (k : ℕ) (lines : List Text)
    → let clean = cleansed_lines lines in
      let first = cleansed_lines (take k lines) in
      ((length clean.elided ≡ clean.num_lines) × (first.elided ≡ take k clean.elided))
      × ((length clean.lines ≡ clean.num_lines) × (first.lines ≡ take k clean.lines))
      × ((length clean.raw_lines ≡ clean.num_lines) × (first.raw_lines ≡ take k clean.raw_lines))
      × ((length clean.lines_without_raw_strings ≡ clean.num_lines)
          × (first.lines_without_raw_strings ≡ take k clean.lines_without_raw_strings))
      × (clean.num_lines ≡ length lines)
unfolding cleansed_lines cleanse_raw_strings
cleansed_lines_lem k lines =
    let plain = length-raw_lines none lines in
    let firsts = raw_lines-take k none lines in
    let elide : Text → Text = λ l. cleanse_comments (collapse_strings l) in
    (
      (
        length-map (raw_lines none lines) _ ∙ plain,
        ap (map elide) firsts ∙ map-take k elide (raw_lines none lines),
      ),
      (
        length-map (raw_lines none lines) _ ∙ plain,
        ap (map cleanse_comments) firsts ∙ map-take k cleanse_comments (raw_lines none lines),
      ),
      (refl, refl),
      (plain, firsts),
      refl,
    )
