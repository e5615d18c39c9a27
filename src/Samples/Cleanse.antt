-- ===== src/Samples/Cleanse.antt =====
-- The cleansing of lines of build_support/cpplint.py at concrete inputs.
use mathlib.Core.Path.{subst}
use turtle.Common.{take, sym}
use turtle.Regex.{remove_all, found, find_match}
use turtle.Cleanse.{include_pattern, escapes_pattern, digits_pattern, collapse_strings}
use turtle.Cleanse.Strings.{
  NoQuotes, Without, Literals, string, character, plain, collapse_strings-Literals,
}
use turtle.Common.{none, length}
use turtle.Regex.{matches, match, captured_text}
use turtle.Cleanse.{
  raw_outside, raw_rounds, raw_start, raw_string_pattern, raw_prefix, comment_pattern, is_delimiter,
  cleansed_lines,
}
use turtle.Cleanse.Raw.{raw_outside_ends, cleansed_lines_lem}
use turtle.Common.{◌≡◌, ◌≢◌, refl, true, false, List, [], ◌∷◌}
use turtle.Common.Text.{Text, codes, starts_with, ends_with, find, strip, drop_spaces, rstrip}
use turtle.Cleanse.Comments.{remove_multi_line_comments, opens_comment, closes_comment}
use turtle.Cleanse.Pass.{one_pass, ends_inside}
use turtle.Cleanse.Pass.Result.{
  remove_multi_line_comments-one_pass, remove_multi_line_comments_unclosed,
}

abbrev commented_lines : List Text
commented_lines =
    codes "int a;"
    ∷ codes "  /* one"
    ∷ codes "int b;"
    ∷ codes "two */"
    ∷ codes "/* c */ int d;"
    ∷ []

commented_lines_closed : ends_inside false commented_lines ≡ false
unfolding ends_inside opens_comment closes_comment starts_with ends_with find strip rstrip
    drop_spaces codes
commented_lines_closed = refl

remove_multi_line_comments-one_pass_example :
    remove_multi_line_comments (codes "a.cc") commented_lines ≡ (one_pass false commented_lines, [])
remove_multi_line_comments-one_pass_example =
    remove_multi_line_comments-one_pass (codes "a.cc") commented_lines commented_lines_closed

commented_lines_pass :
    one_pass false commented_lines
    ≡ codes "int a;" ∷ codes "/**/" ∷ codes "/**/" ∷ codes "/**/" ∷ codes "/* c */ int d;" ∷ []
unfolding one_pass opens_comment closes_comment starts_with ends_with find strip rstrip drop_spaces
    codes
commented_lines_pass = refl

abbrev open_lines : List Text
open_lines = codes "int a;" ∷ codes "/* one" ∷ codes "int b;" ∷ []

open_lines_open : ends_inside false open_lines ≡ true
unfolding ends_inside opens_comment closes_comment starts_with ends_with find strip rstrip
    drop_spaces codes
open_lines_open = refl

remove_multi_line_comments_unclosed_example :
    (remove_multi_line_comments (codes "a.cc") open_lines).1 ≢ []
remove_multi_line_comments_unclosed_example =
    remove_multi_line_comments_unclosed (codes "a.cc") open_lines open_lines_open

-- `x = R"(a)" + "b";`
abbrev raw_string_line : Text
raw_string_line = codes "x = R\"(a)\" + \"b\";"

raw_string_line_run : (raw_outside raw_string_line).1 ≡ none
unfolding raw_outside raw_rounds raw_start raw_string_pattern raw_prefix comment_pattern
    is_delimiter matches match captured_text find starts_with codes
raw_string_line_run = refl

raw_outside_ends_example : raw_start (raw_outside raw_string_line).0 ≡ none
raw_outside_ends_example = raw_outside_ends raw_string_line raw_string_line_run

cleansed_lines_lem_example :
    let clean = cleansed_lines (raw_string_line ∷ commented_lines) in
    let first = cleansed_lines (take 3 (raw_string_line ∷ commented_lines)) in
    ((length clean.elided ≡ clean.num_lines) × (first.elided ≡ take 3 clean.elided))
    × ((length clean.lines ≡ clean.num_lines) × (first.lines ≡ take 3 clean.lines))
    × ((length clean.raw_lines ≡ clean.num_lines) × (first.raw_lines ≡ take 3 clean.raw_lines))
    × ((length clean.lines_without_raw_strings ≡ clean.num_lines)
        × (first.lines_without_raw_strings ≡ take 3 clean.lines_without_raw_strings))
    × (clean.num_lines ≡ 6)
cleansed_lines_lem_example = cleansed_lines_lem 3 (raw_string_line ∷ commented_lines)

-- `f("a b", 'c');`
abbrev literal_line : Text
literal_line =
    b'f' ∷ b'(' ∷ b'"' ∷ b'a' ∷ b' ' ∷ b'b' ∷ b'"' ∷ b',' ∷ b'\'' ∷ b'c' ∷ b'\'' ∷ b')' ∷ []

abbrev emptied_line : Text
emptied_line = b'f' ∷ b'(' ∷ b'"' ∷ b'"' ∷ b',' ∷ b'\'' ∷ b'\'' ∷ b')' ∷ []

literal_line_lem :
    (matches include_pattern literal_line ≡ false)
    × (remove_all escapes_pattern literal_line ≡ literal_line)
    × (found digits_pattern (b',' ∷ []) ≡ false)
unfolding include_pattern escapes_pattern digits_pattern matches match remove_all found find_match
    codes
literal_line_lem = (refl, refl, refl)

abbrev literal_line-Literals : Literals literal_line emptied_line
unfolding NoQuotes Without
literal_line-Literals =
    string (b'f' ∷ b'(' ∷ []) (b'a' ∷ b' ' ∷ b'b' ∷ []) (refl, (refl, tt))
      (refl, (refl, (refl, tt)))
      (character (b',' ∷ []) (b'c' ∷ []) (refl, tt) literal_line_lem.2 (refl, tt)
        (plain {s = b')' ∷ []} (refl, tt)))

collapse_strings-Literals_example : collapse_strings literal_line ≡ emptied_line
collapse_strings-Literals_example =
    collapse_strings-Literals literal_line emptied_line literal_line_lem.0
      (subst (λ t. Literals t emptied_line) (sym literal_line_lem.1) literal_line-Literals)
