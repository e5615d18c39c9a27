-- ===== src/Checks/Files.antt =====
-- build_support/cpplint.py: checks of the lines of a whole file.
use turtle.Common.{
  ℕ, suc, ◌+◌, ◌%◌, ◌≡◌, refl, ◌↔◌, Bool, true, false, not, List, [], ◌∷◌, ◌++◌, none, some, ◌==◌,
  ltb, if◌then◌else◌, length, take, drop, any, All, arith,
}
use turtle.Common.Int.{sub_ℕ}
use turtle.Common.Text.{Text, codes, count, replace, find, lower}
use turtle.Common.Slices.{line_at}
use turtle.Cleanse.{CleansedLines}
use turtle.Report.{Report, report}
use turtle.Listed.{Listed, listed, none_left, Listed-append, Listed-later}

-- `CheckForBadCharacters`, from line `n` on.
abbrev pub has_char : ℕ → Text → Bool
has_char c line = any (λ x. x == c) line

bad_characters : Text → ℕ → Text → List Report
bad_characters f n line =
    (if has_char 65533 line
      then report f n (codes "readability/utf8") 5
          (codes "Line contains invalid UTF-8 (or Unicode replacement character).")
        ∷ []
      else [])
    ++ (if has_char 0 line
        then report f n (codes "readability/nul") 5 (codes "Line contains NUL byte.") ∷ []
        else [])

bad_characters_from : Text → ℕ → List Text → List Report
bad_characters_from f n [] = []
bad_characters_from f n (line ∷ lines) =
    bad_characters f n line ++ bad_characters_from f (suc n) lines

pub check_for_bad_characters : Text → List Text → List Report
check_for_bad_characters f lines = bad_characters_from f 0 lines

abbrev pub is_empty : Text → Bool
is_empty [] = true
is_empty (_ ∷ _) = false

-- Is the last but one line there and empty, of at least three.
unfoldable pub ends_with_newline : List Text → Bool
ends_with_newline [] = false
ends_with_newline (_ ∷ []) = false
ends_with_newline (_ ∷ _ ∷ []) = false
ends_with_newline (_ ∷ b ∷ _ ∷ []) = is_empty b
ends_with_newline (_ ∷ b ∷ c ∷ d ∷ lines) = ends_with_newline (b ∷ c ∷ d ∷ lines)

unfoldable pub check_for_newline_at_eof : Text → List Text → List Report
check_for_newline_at_eof f lines =
    if not (ends_with_newline lines)
    then record {
      filename = f;
      linenum = sub_ℕ (length lines) 2;
      category = codes "whitespace/ending_newline";
      confidence = 5;
      message = codes "Could not find a newline character at the end of the file.";
    }
      ∷ []
    else []

unfoldable pub has_copyright : Text → Bool
has_copyright line = elim (find (codes "copyright") (lower line)) [ none ↦ false | some _ ↦ true ]

-- Lines 1 to 10, behind the dummy line at the front.
unfoldable pub check_for_copyright : Text → List Text → List Report
check_for_copyright f lines =
    if any has_copyright (take 10 (drop 1 lines))
    then []
    else report f 0 (codes "legal/copyright") 5 (
        codes
          "No copyright message found.  You should have a line: \"Copyright [year] <Copyright Owner>\"")
      ∷ []

-- The parity of a difference is that of the sum.
unfoldable pub check_for_multiline_comments_and_strings : Text → CleansedLines → ℕ → List Report
check_for_multiline_comments_and_strings f clean n =
    let line = replace (codes "\\\\") [] (line_at clean.elided n) in
    (if ltb (count (codes "*/") line) (count (codes "/*") line)
      then report f n (codes "readability/multiline_comment") 5 (
          codes "Complex multi-line /*...*/-style comment found. Lint may give bogus warnings.  "
          ++ codes
              "Consider replacing these with //-style comments, with #if 0...#endif, or with more clearly structured multi-line comments.")
        ∷ []
      else [])
    ++ (if (count (codes "\"") line + count (codes "\\\"") line) % 2 == 1
        then report f n (codes "readability/multiline_string") 5 (
            codes "Multi-line string (\"...\") found.  This lint script doesn't "
            ++ codes
                "do well with such strings, and may give bogus warnings.  Use C++11 raw strings or concatenation instead.")
          ∷ []
        else [])

-- A line without either character.
pub IsClean : Text → Type 0
IsClean line = (has_char 65533 line ≡ false) × (has_char 0 line ≡ false)

bad_characters_iff :
    (f : Text) (n : ℕ) (line : Text) → (bad_characters f n line ≡ []) ↔ IsClean line
unfolding bad_characters IsClean
bad_characters_iff f n line = ground arith

append-nil_both : (a b : List Report) → a ++ b ≡ [] → (a ≡ []) × (b ≡ [])
append-nil_both [] b h = (refl, h)
append-nil_both (x ∷ a) b h = absurd (ground (arith, h))

bad_characters_from_iff :
    (f : Text) (n : ℕ) (lines : List Text)
    → (bad_characters_from f n lines ≡ []) ↔ All IsClean lines
unfolding bad_characters_from
bad_characters_from_iff f n [] = (λ _. tt, λ _. refl)
bad_characters_from_iff f n (line ∷ lines) =
    let here = bad_characters_iff f n line in
    let later = bad_characters_from_iff f (suc n) lines in
    (
      λ h.
          let (a, b) =
            append-nil_both (bad_characters f n line) (bad_characters_from f (suc n) lines) h in
          (here.0 a, later.0 b),
      λ (h, hs). rw (here.1 h, later.1 hs) refl,
    )

-- The check of the characters reports nothing exactly where no line has the Unicode replacement
-- character or a NUL.
pub check_for_bad_characters_iff :
    (f : Text) (lines : List Text) → (check_for_bad_characters f lines ≡ []) ↔ All IsClean lines
unfolding check_for_bad_characters
check_for_bad_characters_iff f lines = bad_characters_from_iff f 0 lines

pub check_for_newline_lem :
    (f : Text) (lines : List Text)
    → (check_for_newline_at_eof f lines ≡ []) ↔ (ends_with_newline lines ≡ true)
unfolding check_for_newline_at_eof
check_for_newline_lem f lines = ground arith

bad_characters-Listed : (f : Text) (n : ℕ) (line : Text) → Listed f n (bad_characters f n line)
unfolding bad_characters
bad_characters-Listed f n line = search (listed)

bad_characters_from-Listed :
    (f : Text) (n : ℕ) (lines : List Text) → Listed f 0 (bad_characters_from f n lines)
unfolding bad_characters_from
bad_characters_from-Listed f n [] = none_left
bad_characters_from-Listed f n (line ∷ lines) =
    Listed-append _ (Listed-later _ (omega arith) (bad_characters-Listed f n line))
      (bad_characters_from-Listed f (suc n) lines)

pub check_for_bad_characters-Listed :
    (f : Text) (lines : List Text) → Listed f 0 (check_for_bad_characters f lines)
unfolding check_for_bad_characters
check_for_bad_characters-Listed f lines = bad_characters_from-Listed f 0 lines
