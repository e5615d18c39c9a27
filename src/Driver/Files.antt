-- ===== src/Driver/Files.antt =====
-- build_support/cpplint.py: what the checks of a whole file hand to `error`.
use turtle.Common.{
  ℕ, zero, suc, ◌+◌, ◌≡◌, refl, Bool, true, false, not, List, [], ◌∷◌, ◌++◌, Option, none, some,
  ltb, leb, if◌then◌else◌, length, arith,
}
use turtle.Common.Text.{Text, codes, eq_text}
use turtle.Regex.{Cursor, match}
use turtle.Report.{Report, report, Action, raise}
use turtle.Cleanse.{CleansedLines}
use turtle.Cleanse.Comments.{
  find_next_multi_line_comment_start, find_next_multi_line_comment_end, remove_rounds,
  remove_multi_line_comments,
}
use turtle.Listed.{
  Listed, listed, none_left, Listed-append, Listed-if, Listed-report, Listed-report_if,
  Listed-later, Raised, no_action, Raised-parse, Raised-append, Raised-map, Raised-if, Yields,
  stops, yields, Yields-if, Yields-elim, build_header_guard-IsCategory,
  build_include_what_you_use-IsCategory,
}
use turtle.Nesting.{
  class_info, namespace_info, BlockInfo, Stack, incomplete, check_completed_blocks,
}
use turtle.Includes.{IncludeState}
use turtle.Includes.Used.{
  Required, has_key, strip_brackets, missing_reports, loaded_reports,
  check_for_include_what_you_use,
}
use turtle.Paths.{FileSystem, Settings}
use turtle.Paths.Guard.{
  GuardLines, wrong_style, endif_slashes, endif_stars, get_header_guard_cpp_variable, endif_found,
  endif_stars_reports, endif_reports, header_guard_reports, check_for_header_guard,
}
use turtle.Checks.Files.{check_for_copyright}
use turtle.Driver.Lines.{Raised-start}

from_start : {f : Text} {n : ℕ} (rs : List Report) → Listed f n rs → Listed f 0 rs
from_start rs h = Listed-later rs (omega arith) h

pub check_for_copyright-Listed :
    (f : Text) (lines : List Text) → Listed f 0 (check_for_copyright f lines)
unfolding check_for_copyright
check_for_copyright-Listed f lines = search (listed)

-- The reports of two tests, one in the other.
Listed-tests {ℓ} :
    {S : Type ℓ} {f : Text} (b c : Bool) (p q r : S × List Report)
    → Listed f 0 (p.1)
    → Listed f 0 (q.1)
    → Listed f 0 (r.1)
    → Listed f 0 (
        (elim b as (λ _. S × List Report) [
          | false ↦ p
          | true ↦ elim c as (λ _. S × List Report) [ false ↦ q | true ↦ r ]
        ]).1)
Listed-tests false c p q r h i j = h
Listed-tests true false p q r h i j = i
Listed-tests true true p q r h i j = j

unclosed-Listed :
    (f : Text) (n : ℕ) (message : Text)
    → Listed f n (report f n (codes "readability/multiline_comment") 5 message ∷ [])
unclosed-Listed f n message = search (listed)

remove_rounds-Listed :
    (fuel : ℕ) (f : Text) (lines : List Text) (ix : ℕ)
    → Listed f 0 ((remove_rounds fuel f lines ix).1)
unfolding remove_rounds
remove_rounds-Listed zero f lines ix = none_left
remove_rounds-Listed (suc fuel) f lines ix =
    let begin = find_next_multi_line_comment_start lines ix in
    let end = find_next_multi_line_comment_end lines begin in
    Listed-tests (ltb begin (length lines)) (ltb end (length lines)) _ _ _ none_left
      (from_start _ (unclosed-Listed f (begin + 1) _)) (remove_rounds-Listed fuel f _ (end + 1))

pub remove_multi_line_comments-Listed :
    (f : Text) (lines : List Text) → Listed f 0 ((remove_multi_line_comments f lines).1)
unfolding remove_multi_line_comments
remove_multi_line_comments-Listed f lines = remove_rounds-Listed (suc (length lines)) f lines 0

incomplete-Listed : (f : Text) (b : BlockInfo) → Listed f 0 (incomplete f b)
unfolding incomplete
incomplete-Listed f b =
    elim (b.kind)
      as (λ k. Listed f 0 (elim k [
        | class_info c ↦
            report f b.starting_linenum (codes "build/class") 5
              (codes "Failed to find complete declaration of class " ++ c.name)
            ∷ []
        | namespace_info name ↦
            report f b.starting_linenum (codes "build/namespaces") 5
              (codes "Failed to find complete declaration of namespace " ++ name)
            ∷ []
        | _ ↦ []
      ])) [
        | class_info c ↦ from_start {n = b.starting_linenum} _ (search (listed))
        | namespace_info name ↦ from_start {n = b.starting_linenum} _ (search (listed))
        | _ ↦ none_left
      ]

pub check_completed_blocks-Listed :
    (f : Text) (stack : Stack) → Listed f 0 (check_completed_blocks f stack)
unfolding check_completed_blocks
check_completed_blocks-Listed f [] = none_left
check_completed_blocks-Listed f (b ∷ stack) =
    Listed-append _ (check_completed_blocks-Listed f stack) (incomplete-Listed f b)

missing_reports-Listed :
    (f : Text) (include_dict : List (Text × ℕ)) (rs : Required)
    → Listed f 0 (missing_reports f include_dict rs)
unfolding missing_reports
missing_reports-Listed f include_dict [] = none_left
missing_reports-Listed f include_dict ((header, (n, template)) ∷ rs) =
    Listed-append _
      (from_start {n = n} _ (
        Listed-report_if (not (has_key (strip_brackets header) include_dict))
          (codes "build/include_what_you_use") 4
          (codes "Add #include " ++ (header ++ (codes " for " ++ template)))
          build_include_what_you_use-IsCategory refl))
      (missing_reports-Listed f include_dict rs)

pub check_for_include_what_you_use-Listed :
    (fs : FileSystem) (s : Settings) (read : Text → Option (List Text)) (f : Text)
    (clean : CleansedLines) (state : IncludeState)
    → Yields (Listed f 0) (check_for_include_what_you_use fs s read f clean state)
unfolding check_for_include_what_you_use loaded_reports
check_for_include_what_you_use-Listed fs s read f clean state =
    Yields-elim _ _ _ stops
      (λ loaded. yields (Listed-if _ _ _ none_left (missing_reports-Listed f (loaded.0) _)))

guard-Raised :
    {f : Text} (n confidence : ℕ) (message : Text) (actions : List Action)
    → leb confidence 5 ≡ true
    → Raised f 0 actions
    → Raised f 0 (raise (report f n (codes "build/header_guard") confidence message) ∷ actions)
guard-Raised n confidence message actions e h =
    Raised-append _
      (Raised-start _ (
        Raised-map _ (
          Listed-report (codes "build/header_guard") confidence message
            build_header_guard-IsCategory e)))
      h

confidence-leb : (b : Bool) → leb (if b then 0 else 5) 5 ≡ true
confidence-leb true = refl
confidence-leb false = refl

wrong_style-Raised :
    (f : Text) (raw_lines : List Text) (cppvar : Text) (g : GuardLines)
    → Raised f 0 (wrong_style f raw_lines cppvar g)
unfolding wrong_style
wrong_style-Raised f raw_lines cppvar g =
    Raised-if (eq_text g.ifndef cppvar) _ _ no_action
      (Raised-parse _ _ (omega arith) (guard-Raised _ _ _ [] (confidence-leb _) no_action))

endif_found-Raised :
    (f : Text) (g : GuardLines) (message : Text) (m : Cursor)
    → Raised f 0 (endif_found f g message m)
unfolding endif_found
endif_found-Raised f g message m = Raised-if _ _ _ (guard-Raised _ 0 _ [] refl no_action) no_action

missing-Raised :
    (f : Text) (n : ℕ) (message : Text)
    → Raised f 0 (raise (report f n (codes "build/header_guard") 5 message) ∷ [])
missing-Raised f n message = guard-Raised n 5 message [] refl no_action

Raised-elim {ℓ} :
    {A : Type ℓ} {f : Text} {n : ℕ} (o : Option A) (other : List Action) (k : A → List Action)
    → Raised f n other
    → ((m : A) → Raised f n (k m))
    → Raised f n (elim o [ none ↦ other | some m ↦ k m ])
Raised-elim none other k h e = h
Raised-elim (some m) other k h e = e m

endif_stars_reports-Raised :
    (f : Text) (raw_lines : List Text) (cppvar : Text) (g : GuardLines)
    → Raised f 0 (endif_stars_reports f raw_lines cppvar g)
unfolding endif_stars_reports
endif_stars_reports-Raised f raw_lines cppvar g =
    Raised-if _ _ _
      (Raised-elim (match (endif_stars cppvar) g.endif) _ _ (missing-Raised f g.endif_linenum _)
        (endif_found-Raised f g _))
      (missing-Raised f g.endif_linenum _)

endif_reports-Raised :
    (f : Text) (raw_lines : List Text) (cppvar : Text) (g : GuardLines)
    → Raised f 0 (endif_reports f raw_lines cppvar g)
unfolding endif_reports
endif_reports-Raised f raw_lines cppvar g =
    Raised-elim (match (endif_slashes cppvar) g.endif) _ _
      (endif_stars_reports-Raised f raw_lines cppvar g) (endif_found-Raised f g _)

header_guard_reports-Raised :
    (f : Text) (raw_lines : List Text) (cppvar : Text)
    → Raised f 0 (header_guard_reports f raw_lines cppvar)
unfolding header_guard_reports
header_guard_reports-Raised f raw_lines cppvar = Raised-if _ _ _ (missing-Raised f 0 _) (
    Raised-append _ (wrong_style-Raised f raw_lines cppvar _)
      (Raised-parse _ _ (omega arith) (endif_reports-Raised f raw_lines cppvar _)))

pub check_for_header_guard-Raised :
    (fs : FileSystem) (s : Settings) (f : Text) (clean : CleansedLines)
    → Yields (Raised f 0) (check_for_header_guard fs s f clean)
unfolding check_for_header_guard
check_for_header_guard-Raised fs s f clean = Yields-if _ (yields no_action) (
    Yields-elim (get_header_guard_cpp_variable fs s f) _ _ stops
      (λ cppvar. yields (header_guard_reports-Raised f clean.lines_without_raw_strings cppvar)))
