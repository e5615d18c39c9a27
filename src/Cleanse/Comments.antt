-- ===== src/Cleanse/Comments.antt =====
-- build_support/cpplint.py: `RemoveMultiLineComments` and the functions that it calls.
use turtle.Common.{
  ℕ, zero, suc, ◌+◌, Bool, true, false, ◌&&◌, List, [], ◌∷◌, none, some, ltb, if◌then◌else◌, length,
  drop,
}
use turtle.Common.Text.{Text, codes, starts_with, ends_with, find, strip}
use turtle.Report.{Report, report}

-- A line that opens a comment and does not close it: `find('*/', 2)` looks from the third
-- character on.
unfoldable pub opens_comment : Text → Bool
opens_comment line =
    starts_with (codes "/*") (strip line)
    && elim (find (codes "*/") (drop 2 (strip line))) [ none ↦ true | some _ ↦ false ]

unfoldable pub closes_comment : Text → Bool
closes_comment line = ends_with (codes "*/") (strip line)

-- The first line from `lineix` on that passes the test, or `len(lines)`; the lines from there on
-- are given.
unfoldable pub first_from : (Text → Bool) → List Text → ℕ → ℕ
first_from p [] ix = ix
first_from p (line ∷ lines) ix = if p line then ix else first_from p lines (suc ix)

unfoldable pub find_next_multi_line_comment_start : List Text → ℕ → ℕ
unfolding first_from
find_next_multi_line_comment_start lines ix = first_from opens_comment (drop ix lines) ix

unfoldable pub find_next_multi_line_comment_end : List Text → ℕ → ℕ
unfolding first_from
find_next_multi_line_comment_end lines ix = first_from closes_comment (drop ix lines) ix

-- `lines[i] = '/**/'` for `begin <= i < end`.
unfoldable pub remove_multi_line_comments_from_range : List Text → ℕ → ℕ → List Text
remove_multi_line_comments_from_range [] begin end = []
remove_multi_line_comments_from_range (line ∷ lines) zero zero = line ∷ lines
remove_multi_line_comments_from_range (line ∷ lines) zero (suc end) =
    codes "/**/" ∷ remove_multi_line_comments_from_range lines zero end
remove_multi_line_comments_from_range (line ∷ lines) (suc begin) zero = line ∷ lines
remove_multi_line_comments_from_range (line ∷ lines) (suc begin) (suc end) =
    line ∷ remove_multi_line_comments_from_range lines begin end

-- The loop. Each round goes on behind the end of a comment, so the number of lines bounds them.
unfoldable pub remove_rounds : ℕ → Text → List Text → ℕ → List Text × List Report
remove_rounds zero f lines ix = (lines, [])
remove_rounds (suc fuel) f lines ix =
    let begin = find_next_multi_line_comment_start lines ix in
    let end = find_next_multi_line_comment_end lines begin in
    elim (ltb begin (length lines)) [
      | false ↦ (lines, [])
      | true ↦ elim (ltb end (length lines)) [
        | false ↦ (
          lines,
          report f (begin + 1) (codes "readability/multiline_comment") 5
                (codes "Could not find end of multi-line comment")
              ∷ [],
        )
        | true ↦
            remove_rounds fuel f (remove_multi_line_comments_from_range lines begin (end + 1))
              (end + 1)
      ]
    ]

unfoldable pub remove_multi_line_comments : Text → List Text → List Text × List Report
remove_multi_line_comments f lines = remove_rounds (suc (length lines)) f lines 0
