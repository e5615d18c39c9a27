-- ===== src/Nesting/Update/Reports.antt =====
-- build_support/cpplint.py: what the methods of `NestingState` hand to `error`.
use turtle.Common.{
  ℕ, zero, suc, ◌+◌, ◌-◌, Bool, false, not, ◌||◌, List, [], ◌∷◌, ◌++◌, Option, none, some,
  if◌then◌else◌, arith,
}
use turtle.Common.Text.{Text, codes}
use turtle.Common.Slices.{line_at}
use turtle.Regex.{Cursor, matches, match, captured_text}
use turtle.Report.{Report, report}
use turtle.Cleanse.{CleansedLines}
use turtle.Listed.{Listed, listed, none_left, Listed-later, Listed-append}
use turtle.Nesting.{
  block, extern_c, class_info, namespace_info, ClassInfo, Kind, BlockInfo, Stack, NestingState,
}
use turtle.Nesting.Ends.{
  blank_pattern, check_disallow, check_class_end, check_namespace_end, check_end,
}
use turtle.Nesting.Update.{
  access_pattern, access_reports, update_kind, update_access, open_mark, end_mark, close_mark,
  no_mark, mark_of, open_brace, end_head, close_brace, consume_braces, update,
}

from_start : {f : Text} {n : ℕ} (rs : List Report) → Listed f n rs → Listed f 0 rs
from_start rs h = Listed-later rs (omega arith) h

-- The reports behind a search.
Listed-elim {ℓ} :
    {A : Type ℓ} {f : Text} {n : ℕ} (o : Option A) (other : List Report) (k : A → List Report)
    → Listed f n other
    → ((m : A) → Listed f n (k m))
    → Listed f n (elim o [ none ↦ other | some m ↦ k m ])
Listed-elim none other k h e = h
Listed-elim (some m) other k h e = e m

abbrev disallow_reports : Text → ℕ → Bool → Cursor → List Report
disallow_reports f n seen_last m =
    if seen_last
    then report f n (codes "readability/constructors") 3
        (captured_text 1 m ++ codes " should be the last thing in the class")
      ∷ []
    else []

disallow_reports-Listed :
    (f : Text) (n : ℕ) (seen_last : Bool) (m : Cursor)
    → Listed f n (disallow_reports f n seen_last m)
disallow_reports-Listed f n seen_last m = search (listed)

check_disallow-Listed :
    (f : Text) (elided : List Text) (name : Text) (start rounds : ℕ) (seen_last : Bool)
    → Listed f 0 (check_disallow f elided name start rounds seen_last)
unfolding check_disallow
check_disallow-Listed f elided name start zero seen_last = none_left
check_disallow-Listed f elided name start (suc rounds) seen_last =
    let later =
      check_disallow-Listed f elided name start rounds
        (seen_last || not (matches blank_pattern (line_at elided (start + suc rounds)))) in
    Listed-elim _ _ (disallow_reports f (start + suc rounds) seen_last) later
      (λ m. from_start _ (disallow_reports-Listed f (start + suc rounds) seen_last m))

check_class_end-Listed :
    (f : Text) (clean : CleansedLines) (n start : ℕ) (c : ClassInfo)
    → Listed f 0 (check_class_end f clean n start c)
unfolding check_class_end
check_class_end-Listed f clean n start c =
    Listed-append (check_disallow f clean.elided c.name start (n - 1 - start) false)
      (check_disallow-Listed f clean.elided c.name start (n - 1 - start) false)
      (from_start {n = n} _ (search (listed)))

check_namespace_end-Listed :
    (f : Text) (clean : CleansedLines) (n start : ℕ) (name : Text)
    → Listed f n (check_namespace_end f clean n start name)
unfolding check_namespace_end
check_namespace_end-Listed f clean n start [] = search (listed)
check_namespace_end-Listed f clean n start (c ∷ name) = search (listed)

access_reports-Listed :
    (f : Text) (n : ℕ) (c : ClassInfo) (m : Cursor) → Listed f n (access_reports f n c m)
unfolding access_reports
access_reports-Listed f n c m = search (listed)

check_end-Listed :
    (f : Text) (clean : CleansedLines) (n : ℕ) (b : BlockInfo) → Listed f 0 (check_end f clean n b)
unfolding check_end
check_end-Listed f clean n b =
    elim (b.kind)
      as (λ k. Listed f 0 (elim k [
        | block ↦ []
        | extern_c ↦ []
        | class_info c ↦ check_class_end f clean n b.starting_linenum c
        | namespace_info name ↦ check_namespace_end f clean n b.starting_linenum name
      ])) [
        | block ↦ none_left
        | extern_c ↦ none_left
        | class_info c ↦ check_class_end-Listed f clean n b.starting_linenum c
        | namespace_info name ↦
            from_start _ (check_namespace_end-Listed f clean n b.starting_linenum name)
      ]

-- The same of the reports in a result.
Listed-elim_second {ℓ κ} :
    {A : Type ℓ} {S : Type κ} {f : Text} {n : ℕ} (o : Option A) (other : S × List Report)
    (k : A → S × List Report)
    → Listed f n (other.1)
    → ((m : A) → Listed f n ((k m).1))
    → Listed f n ((elim o as (λ _. S × List Report) [ none ↦ other | some m ↦ k m ]).1)
Listed-elim_second none other k h e = h
Listed-elim_second (some m) other k h e = e m

update_kind-Listed :
    (f : Text) (n : ℕ) (line : Text) (b : BlockInfo) (stack : Stack) (k : Kind)
    → Listed f n ((update_kind f n line b stack k).1)
unfolding update_kind
update_kind-Listed f n line b stack block = none_left
update_kind-Listed f n line b stack extern_c = none_left
update_kind-Listed f n line b stack (namespace_info name) = none_left
update_kind-Listed f n line b stack (class_info c) =
    Listed-elim_second (match access_pattern line) _ _ none_left (access_reports-Listed f n c)

update_access-Listed :
    (f : Text) (n : ℕ) (line : Text) (stack : Stack) → Listed f n ((update_access f n line stack).1)
unfolding update_access
update_access-Listed f n line [] = none_left
update_access-Listed f n line (b ∷ stack) = update_kind-Listed f n line b stack b.kind

close_brace-Listed :
    (f : Text) (clean : CleansedLines) (n : ℕ) (stack : Stack)
    → Listed f 0 ((close_brace f clean n stack).1)
unfolding close_brace
close_brace-Listed f clean n [] = none_left
close_brace-Listed f clean n (b ∷ stack) = check_end-Listed f clean n b

consume_braces-Listed :
    (f : Text) (clean : CleansedLines) (n : ℕ) (line rest : Text) (stack : Stack)
    → Listed f 0 ((consume_braces f clean n line rest stack).1)
unfolding consume_braces
consume_braces-Listed f clean n line [] stack = none_left
consume_braces-Listed f clean n line (c ∷ rest) stack =
    elim (mark_of c)
      as (λ k. Listed f 0 (
        (elim k as (λ _. Stack × List Report) [
          | open_mark ↦ consume_braces f clean n rest rest (open_brace n line stack)
          | end_mark ↦ consume_braces f clean n rest rest (end_head stack)
          | close_mark ↦
              let (stack', reports) =
                consume_braces f clean n rest rest (close_brace f clean n stack).0 in
              (stack', (close_brace f clean n stack).1 ++ reports)
          | no_mark ↦ consume_braces f clean n line rest stack
        ]).1)) [
          | open_mark ↦ consume_braces-Listed f clean n rest rest (open_brace n line stack)
          | end_mark ↦ consume_braces-Listed f clean n rest rest (end_head stack)
          | close_mark ↦
              Listed-append ((close_brace f clean n stack).1) (close_brace-Listed f clean n stack)
                (consume_braces-Listed f clean n rest rest (close_brace f clean n stack).0)
          | no_mark ↦ consume_braces-Listed f clean n line rest stack
        ]

pub update-Listed :
    (f : Text) (clean : CleansedLines) (n : ℕ) (s : NestingState)
    → Listed f 0 ((update f clean n s).1)
unfolding update
update-Listed f clean n s =
    Listed-append _ (from_start _ (update_access-Listed f n _ _))
      (consume_braces-Listed f clean n _ _ _)
