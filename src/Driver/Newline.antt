-- ===== src/Driver/Newline.antt =====
-- build_support/cpplint.py: `CheckForNewlineAtEOF` on the lines of a text, between the markers.
use mathlib.Core.List.{reverse, reverse_aux}
use turtle.Common.{
  ℕ, ◌≡◌, refl, sym, ◌∙◌, ◌↔◌, ◌⊎◌, inl, Bool, true, false, List, [], ◌∷◌, ◌++◌, some, ◌==◌,
  if◌then◌else◌, last?, arith,
}
use turtle.Common.Text.{Text, split, split_onto}
use turtle.Checks.Files.{
  is_empty, ends_with_newline, check_for_newline_at_eof, check_for_newline_lem,
}
use turtle.Driver.{without_carriages, file_lines, with_markers}

-- Is the last line there and empty.
abbrev last_empty : List Text → Bool
last_empty [] = false
last_empty (line ∷ []) = is_empty line
last_empty (line ∷ next ∷ lines) = last_empty (next ∷ lines)

-- Is the last character there and `d`.
abbrev is_last : ℕ → Text → Bool
is_last d [] = false
is_last d (c ∷ []) = c == d
is_last d (c ∷ x ∷ s) = is_last d (x ∷ s)

is_last_iff : (d : ℕ) (s : Text) → (is_last d s ≡ true) ↔ (last? s ≡ some d)
is_last_iff d [] = ground arith
is_last_iff d (c ∷ []) = ground arith
is_last_iff d (c ∷ x ∷ s) = is_last_iff d (x ∷ s)

ends_with_newline_between :
    (first : Text) (lines : List Text) (last : Text)
    → ends_with_newline (first ∷ (lines ++ last ∷ [])) ≡ last_empty lines
unfolding ends_with_newline
ends_with_newline_between first [] last = refl
ends_with_newline_between first (a ∷ []) last = refl
ends_with_newline_between first (a ∷ b ∷ []) last = refl
ends_with_newline_between first (a ∷ b ∷ c ∷ lines) last =
    ends_with_newline_between a (b ∷ c ∷ lines) last

last_empty-without_carriages :
    (lines : List Text) → last_empty (without_carriages lines) ≡ last_empty lines
unfolding without_carriages
last_empty-without_carriages [] = refl
last_empty-without_carriages (a ∷ []) = refl
last_empty-without_carriages (a ∷ b ∷ []) = refl
last_empty-without_carriages (a ∷ b ∷ c ∷ lines) = last_empty-without_carriages (b ∷ c ∷ lines)

is_empty-reverse_aux : (s : Text) (c : ℕ) (t : Text) → is_empty (reverse_aux s (c ∷ t)) ≡ false
is_empty-reverse_aux [] c t = refl
is_empty-reverse_aux (x ∷ s) c t = is_empty-reverse_aux s x (c ∷ t)

-- A text gives at least one piece, so one more in front is not the last.
last_empty_behind :
    (line : Text) (d : ℕ) (piece s : Text)
    → last_empty (line ∷ split_onto d piece s) ≡ last_empty (split_onto d piece s)
unfolding split_onto
last_empty_behind line d piece [] = refl
last_empty_behind line d piece (c ∷ s) =
    elim (c == d)
      as (λ b.
        last_empty
          (line ∷ (if b then reverse piece ∷ split_onto d [] s else split_onto d (c ∷ piece) s))
        ≡ last_empty
            (if b then reverse piece ∷ split_onto d [] s else split_onto d (c ∷ piece) s)) [
              | true ↦ refl
              | false ↦ last_empty_behind line d (c ∷ piece) s
            ]

last_empty-split_onto :
    (d : ℕ) (piece : Text) (c : ℕ) (s : Text)
    → last_empty (split_onto d piece (c ∷ s)) ≡ is_last d (c ∷ s)
unfolding split_onto
last_empty-split_onto d piece c [] =
    elim (c == d)
      as (λ b.
        last_empty (if b then reverse piece ∷ split_onto d [] [] else split_onto d (c ∷ piece) [])
        ≡ b) [ true ↦ refl | false ↦ is_empty-reverse_aux piece c [] ]
last_empty-split_onto d piece c (x ∷ s) =
    elim (c == d)
      as (λ b.
        last_empty
          (if b then reverse piece ∷ split_onto d [] (x ∷ s) else split_onto d (c ∷ piece) (x ∷ s))
        ≡ is_last d (x ∷ s)) [
          | true ↦ last_empty_behind (reverse piece) d [] (x ∷ s) ∙ last_empty-split_onto d [] x s
          | false ↦ last_empty-split_onto d (c ∷ piece) x s
        ]

last_empty-file_lines :
    (content : Text)
    → (last_empty (file_lines content) ≡ true) ↔ ((content ≡ []) ⊎ (last? content ≡ some b'\n'))
unfolding file_lines split
last_empty-file_lines [] = (λ _. inl refl, λ _. rw (last_empty-without_carriages) refl)
last_empty-file_lines (c ∷ s) = ground (
  arith,
  last_empty-without_carriages (split_onto b'\n' [] (c ∷ s)),
  last_empty-split_onto b'\n' [] c s,
  is_last_iff b'\n' (c ∷ s),
)

-- On the lines that `ProcessFile` reads from a text, with the two markers that `ProcessFileData`
-- puts around them, `CheckForNewlineAtEOF` reports nothing exactly where the text is empty or its
-- last character is a newline.
pub check_for_newline_at_eof_iff :
    (f : Text) (content : Text)
    → (check_for_newline_at_eof f (with_markers (file_lines content)) ≡ [])
      ↔ ((content ≡ []) ⊎ (last? content ≡ some b'\n'))
unfolding with_markers
check_for_newline_at_eof_iff f content =
    let lines = file_lines content in
    let between = ends_with_newline_between _ lines _ in
    let e = last_empty-file_lines content in
    let report = check_for_newline_lem f (with_markers lines) in
    (λ h. e.0 (sym between ∙ report.0 h), λ h. report.1 (between ∙ e.1 h))
