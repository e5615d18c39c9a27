-- ===== src/Listed.antt =====
-- build_support/cpplint.py: what the checks of a line owe to `error`: the file, the line, a
-- category of `_ERROR_CATEGORIES` and a confidence of at most five.
use turtle.Common.{
  ℕ, ◌≤◌, ◌≡◌, refl, Bool, true, false, Option, none, some, List, [], ◌∷◌, ◌++◌, pos, leb, leb→le,
  map, arith, if◌then◌else◌, suc,
}
use turtle.Common.Text.{Text, codes, eq_text, mem_text}
use turtle.Report.{Report, report, report_if, Action, raise, parse_nolint}
use turtle.Regex.{Cursor, find_match, captured}
use turtle.Suppress.{
  error_categories, Suppressions, nolint_pattern, nolint_category, nolint_match,
  parse_nolint_suppressions,
}

-- What a match leads to.
unfoldable pub on_match {ℓ κ} : {A : Type ℓ} {B : Type κ} → Option A → (A → List B) → List B
on_match none k = []
on_match (some m) k = k m

unfoldable pub on_match_or {ℓ κ} :
    {A : Type ℓ} {B : Type κ} → Option A → (A → List B) → List B → List B
on_match_or none k other = other
on_match_or (some m) k other = k m

pub record IsReportAt (f : Text) (n : ℕ) (r : Report) : Type 0 where
  pub same_file : r.filename ≡ f
  pub line : ℕ
  pub at_line : r.linenum ≡ pos line
  pub not_before : n ≤ line
  pub known : mem_text r.category error_categories ≡ true
  pub graded : r.confidence ≤ 5

-- Every report of a list is such a one.
pub data Listed (f : Text) (n : ℕ) : List Report → Type 0 where
  none_left : Listed f n []
  one_more :
      {r : Report} {rs : List Report} → IsReportAt f n r → Listed f n rs → Listed f n (r ∷ rs)

unfoldable pub IsCategory : Text → Type 0
IsCategory c = mem_text c error_categories ≡ true

module _ {f : Text} {n : ℕ} where
  pub Listed-append :
      (xs : List Report) {ys : List Report} → Listed f n xs → Listed f n ys → Listed f n (xs ++ ys)
  Listed-append xs none_left h = h
  Listed-append (x ∷ xs) (one_more r rs) h = one_more r (Listed-append xs rs h)

  pub Listed-if :
      (b : Bool) (xs ys : List Report)
      → Listed f n xs
      → Listed f n ys
      → Listed f n (if b then xs else ys)
  Listed-if true xs ys h k = h
  Listed-if false xs ys h k = k

  pub Listed-report :
      (c : Text) (k : ℕ) (m : Text)
      → IsCategory c
      → leb k 5 ≡ true
      → Listed f n (report f n c k m ∷ [])
  unfolding IsCategory
  Listed-report c k m h e =
      one_more
        (record {
          same_file = refl;
          line = n;
          at_line = refl;
          not_before = omega arith;
          known = h;
          graded = leb→le k 5 e;
        })
        none_left

  pub Listed-more :
      (rs : List Report) (c : Text) (k : ℕ) (m : Text)
      → IsCategory c
      → leb k 5 ≡ true
      → Listed f n rs
      → Listed f n (report f n c k m ∷ rs)
  Listed-more rs c k m h e l = Listed-append (report f n c k m ∷ []) (Listed-report c k m h e) l

  pub Listed-later : {k : ℕ} (rs : List Report) → k ≤ n → Listed f n rs → Listed f k rs
  Listed-later rs h none_left = none_left
  Listed-later (r ∷ rs) h (one_more i l) =
      one_more
        (record {
          same_file = i.same_file;
          line = i.line;
          at_line = i.at_line;
          not_before = omega (arith, h, i.not_before);
          known = i.known;
          graded = i.graded;
        })
        (Listed-later rs h l)

  -- The reports of one of two results.
  pub Listed-if_second {ℓ} :
      {S : Type ℓ} (b : Bool) (p q : S × List Report)
      → Listed f n (p.1)
      → Listed f n (q.1)
      → Listed f n ((if b then p else q).1)
  Listed-if_second true p q h k = h
  Listed-if_second false p q h k = k

  pub Listed-report_if :
      (b : Bool) (c : Text) (k : ℕ) (m : Text)
      → IsCategory c
      → leb k 5 ≡ true
      → Listed f n (report_if b f n c k m)
  Listed-report_if true c k m h e = Listed-report c k m h e
  Listed-report_if false c k m h e = none_left

  pub Listed-on_match {ℓ} :
      {A : Type ℓ} (o : Option A) (k : A → List Report)
      → ((m : A) → Listed f n (k m))
      → Listed f n (on_match o k)
  unfolding on_match
  Listed-on_match none k h = none_left
  Listed-on_match (some m) k h = h m

-- The same of the reports among actions, and a call of `ParseNolintSuppressions` is on the line before
-- at the earliest; what it reports is such a report on the line of the call, whatever the tables.
pub data Raised (f : Text) (n : ℕ) : List Action → Type 0 where
  no_action : Raised f n []
  raises :
      {r : Report} {actions : List Action}
      → IsReportAt f n r
      → Raised f n actions
      → Raised f n (raise r ∷ actions)
  parses :
      {line : Text} {k : ℕ} {actions : List Action}
      → n ≤ suc k
      → ((s : Suppressions) → Listed f k ((parse_nolint_suppressions f line k s).1))
      → Raised f n actions
      → Raised f n (parse_nolint line k ∷ actions)

module _ {f : Text} {n : ℕ} where
  pub Raised-append :
      (xs : List Action) {ys : List Action} → Raised f n xs → Raised f n ys → Raised f n (xs ++ ys)
  Raised-append xs no_action h = h
  Raised-append (x ∷ xs) (raises r rs) h = raises r (Raised-append xs rs h)
  Raised-append (x ∷ xs) (parses l p rs) h = parses l p (Raised-append xs rs h)

  pub Raised-if :
      (b : Bool) (xs ys : List Action)
      → Raised f n xs
      → Raised f n ys
      → Raised f n (if b then xs else ys)
  Raised-if true xs ys h k = h
  Raised-if false xs ys h k = k

  pub Raised-map : (rs : List Report) → Listed f n rs → Raised f n (map raise rs)
  Raised-map rs none_left = no_action
  Raised-map (r ∷ rs) (one_more i l) = raises i (Raised-map rs l)

module _ {f : Text} {n : ℕ} where
  -- The same where the reports rest on what was found.
  pub Listed-found {ℓ} :
      {A : Type ℓ} (o : Option A) (k : A → List Report)
      → ((m : A) → o ≡ some m → Listed f n (k m))
      → Listed f n (on_match o k)
  unfolding on_match
  Listed-found none k h = none_left
  Listed-found (some m) k h = h m refl

  pub Raised-found {ℓ} :
      {A : Type ℓ} (o : Option A) (k : A → List Action)
      → ((m : A) → o ≡ some m → Raised f n (k m))
      → Raised f n (on_match o k)
  unfolding on_match
  Raised-found none k h = no_action
  Raised-found (some m) k h = h m refl

  pub Listed-on_match_or {ℓ} :
      {A : Type ℓ} (o : Option A) (k : A → List Report) (other : List Report)
      → ((m : A) → Listed f n (k m))
      → Listed f n other
      → Listed f n (on_match_or o k other)
  unfolding on_match_or
  Listed-on_match_or none k other h e = e
  Listed-on_match_or (some m) k other h e = h m

pub build_class-IsCategory : IsCategory (codes "build/class")
unfolding IsCategory codes eq_text mem_text error_categories
build_class-IsCategory = refl

pub build_cxx11-IsCategory : IsCategory (codes "build/c++11")
unfolding IsCategory codes eq_text mem_text error_categories
build_cxx11-IsCategory = refl

pub build_cxx14-IsCategory : IsCategory (codes "build/c++14")
unfolding IsCategory codes eq_text mem_text error_categories
build_cxx14-IsCategory = refl

pub build_cxxtr1-IsCategory : IsCategory (codes "build/c++tr1")
unfolding IsCategory codes eq_text mem_text error_categories
build_cxxtr1-IsCategory = refl

pub build_deprecated-IsCategory : IsCategory (codes "build/deprecated")
unfolding IsCategory codes eq_text mem_text error_categories
build_deprecated-IsCategory = refl

pub build_endif_comment-IsCategory : IsCategory (codes "build/endif_comment")
unfolding IsCategory codes eq_text mem_text error_categories
build_endif_comment-IsCategory = refl

pub build_explicit_make_pair-IsCategory : IsCategory (codes "build/explicit_make_pair")
unfolding IsCategory codes eq_text mem_text error_categories
build_explicit_make_pair-IsCategory = refl

pub build_forward_decl-IsCategory : IsCategory (codes "build/forward_decl")
unfolding IsCategory codes eq_text mem_text error_categories
build_forward_decl-IsCategory = refl

pub build_include-IsCategory : IsCategory (codes "build/include")
unfolding IsCategory codes eq_text mem_text error_categories
build_include-IsCategory = refl

pub build_namespaces-IsCategory : IsCategory (codes "build/namespaces")
unfolding IsCategory codes eq_text mem_text error_categories
build_namespaces-IsCategory = refl

pub build_printf_format-IsCategory : IsCategory (codes "build/printf_format")
unfolding IsCategory codes eq_text mem_text error_categories
build_printf_format-IsCategory = refl

pub build_storage_class-IsCategory : IsCategory (codes "build/storage_class")
unfolding IsCategory codes eq_text mem_text error_categories
build_storage_class-IsCategory = refl

pub readability_alt_tokens-IsCategory : IsCategory (codes "readability/alt_tokens")
unfolding IsCategory codes eq_text mem_text error_categories
readability_alt_tokens-IsCategory = refl

pub readability_braces-IsCategory : IsCategory (codes "readability/braces")
unfolding IsCategory codes eq_text mem_text error_categories
readability_braces-IsCategory = refl

pub readability_casting-IsCategory : IsCategory (codes "readability/casting")
unfolding IsCategory codes eq_text mem_text error_categories
readability_casting-IsCategory = refl

pub readability_check-IsCategory : IsCategory (codes "readability/check")
unfolding IsCategory codes eq_text mem_text error_categories
readability_check-IsCategory = refl

pub readability_constructors-IsCategory : IsCategory (codes "readability/constructors")
unfolding IsCategory codes eq_text mem_text error_categories
readability_constructors-IsCategory = refl

pub readability_inheritance-IsCategory : IsCategory (codes "readability/inheritance")
unfolding IsCategory codes eq_text mem_text error_categories
readability_inheritance-IsCategory = refl

pub readability_todo-IsCategory : IsCategory (codes "readability/todo")
unfolding IsCategory codes eq_text mem_text error_categories
readability_todo-IsCategory = refl

pub runtime_invalid_increment-IsCategory : IsCategory (codes "runtime/invalid_increment")
unfolding IsCategory codes eq_text mem_text error_categories
runtime_invalid_increment-IsCategory = refl

pub runtime_printf-IsCategory : IsCategory (codes "runtime/printf")
unfolding IsCategory codes eq_text mem_text error_categories
runtime_printf-IsCategory = refl

pub runtime_threadsafe_fn-IsCategory : IsCategory (codes "runtime/threadsafe_fn")
unfolding IsCategory codes eq_text mem_text error_categories
runtime_threadsafe_fn-IsCategory = refl

pub runtime_vlog-IsCategory : IsCategory (codes "runtime/vlog")
unfolding IsCategory codes eq_text mem_text error_categories
runtime_vlog-IsCategory = refl

pub whitespace_blank_line-IsCategory : IsCategory (codes "whitespace/blank_line")
unfolding IsCategory codes eq_text mem_text error_categories
whitespace_blank_line-IsCategory = refl

pub whitespace_braces-IsCategory : IsCategory (codes "whitespace/braces")
unfolding IsCategory codes eq_text mem_text error_categories
whitespace_braces-IsCategory = refl

pub whitespace_comma-IsCategory : IsCategory (codes "whitespace/comma")
unfolding IsCategory codes eq_text mem_text error_categories
whitespace_comma-IsCategory = refl

pub whitespace_comments-IsCategory : IsCategory (codes "whitespace/comments")
unfolding IsCategory codes eq_text mem_text error_categories
whitespace_comments-IsCategory = refl

pub whitespace_empty_conditional_body-IsCategory :
    IsCategory (codes "whitespace/empty_conditional_body")
unfolding IsCategory codes eq_text mem_text error_categories
whitespace_empty_conditional_body-IsCategory = refl

pub whitespace_empty_if_body-IsCategory : IsCategory (codes "whitespace/empty_if_body")
unfolding IsCategory codes eq_text mem_text error_categories
whitespace_empty_if_body-IsCategory = refl

pub whitespace_empty_loop_body-IsCategory : IsCategory (codes "whitespace/empty_loop_body")
unfolding IsCategory codes eq_text mem_text error_categories
whitespace_empty_loop_body-IsCategory = refl

pub whitespace_end_of_line-IsCategory : IsCategory (codes "whitespace/end_of_line")
unfolding IsCategory codes eq_text mem_text error_categories
whitespace_end_of_line-IsCategory = refl

pub whitespace_forcolon-IsCategory : IsCategory (codes "whitespace/forcolon")
unfolding IsCategory codes eq_text mem_text error_categories
whitespace_forcolon-IsCategory = refl

pub whitespace_indent-IsCategory : IsCategory (codes "whitespace/indent")
unfolding IsCategory codes eq_text mem_text error_categories
whitespace_indent-IsCategory = refl

pub whitespace_line_length-IsCategory : IsCategory (codes "whitespace/line_length")
unfolding IsCategory codes eq_text mem_text error_categories
whitespace_line_length-IsCategory = refl

pub whitespace_newline-IsCategory : IsCategory (codes "whitespace/newline")
unfolding IsCategory codes eq_text mem_text error_categories
whitespace_newline-IsCategory = refl

pub whitespace_operators-IsCategory : IsCategory (codes "whitespace/operators")
unfolding IsCategory codes eq_text mem_text error_categories
whitespace_operators-IsCategory = refl

pub whitespace_parens-IsCategory : IsCategory (codes "whitespace/parens")
unfolding IsCategory codes eq_text mem_text error_categories
whitespace_parens-IsCategory = refl

pub whitespace_semicolon-IsCategory : IsCategory (codes "whitespace/semicolon")
unfolding IsCategory codes eq_text mem_text error_categories
whitespace_semicolon-IsCategory = refl

pub whitespace_tab-IsCategory : IsCategory (codes "whitespace/tab")
unfolding IsCategory codes eq_text mem_text error_categories
whitespace_tab-IsCategory = refl

pub whitespace_todo-IsCategory : IsCategory (codes "whitespace/todo")
unfolding IsCategory codes eq_text mem_text error_categories
whitespace_todo-IsCategory = refl

pub runtime_casting-IsCategory : IsCategory (codes "runtime/casting")
unfolding IsCategory codes eq_text mem_text error_categories
runtime_casting-IsCategory = refl

pub runtime_printf_format-IsCategory : IsCategory (codes "runtime/printf_format")
unfolding IsCategory codes eq_text mem_text error_categories
runtime_printf_format-IsCategory = refl

pub runtime_member_string_references-IsCategory :
    IsCategory (codes "runtime/member_string_references")
unfolding IsCategory codes eq_text mem_text error_categories
runtime_member_string_references-IsCategory = refl

pub runtime_explicit-IsCategory : IsCategory (codes "runtime/explicit")
unfolding IsCategory codes eq_text mem_text error_categories
runtime_explicit-IsCategory = refl

pub runtime_int-IsCategory : IsCategory (codes "runtime/int")
unfolding IsCategory codes eq_text mem_text error_categories
runtime_int-IsCategory = refl

pub runtime_operator-IsCategory : IsCategory (codes "runtime/operator")
unfolding IsCategory codes eq_text mem_text error_categories
runtime_operator-IsCategory = refl

pub runtime_memset-IsCategory : IsCategory (codes "runtime/memset")
unfolding IsCategory codes eq_text mem_text error_categories
runtime_memset-IsCategory = refl

pub build_namespaces_literals-IsCategory : IsCategory (codes "build/namespaces_literals")
unfolding IsCategory codes eq_text mem_text error_categories
build_namespaces_literals-IsCategory = refl

pub runtime_arrays-IsCategory : IsCategory (codes "runtime/arrays")
unfolding IsCategory codes eq_text mem_text error_categories
runtime_arrays-IsCategory = refl

pub runtime_string-IsCategory : IsCategory (codes "runtime/string")
unfolding IsCategory codes eq_text mem_text error_categories
runtime_string-IsCategory = refl

pub runtime_init-IsCategory : IsCategory (codes "runtime/init")
unfolding IsCategory codes eq_text mem_text error_categories
runtime_init-IsCategory = refl

pub runtime_references-IsCategory : IsCategory (codes "runtime/references")
unfolding IsCategory codes eq_text mem_text error_categories
runtime_references-IsCategory = refl

pub build_include_subdir-IsCategory : IsCategory (codes "build/include_subdir")
unfolding IsCategory codes eq_text mem_text error_categories
build_include_subdir-IsCategory = refl

pub build_include_order-IsCategory : IsCategory (codes "build/include_order")
unfolding IsCategory codes eq_text mem_text error_categories
build_include_order-IsCategory = refl

pub build_include_alpha-IsCategory : IsCategory (codes "build/include_alpha")
unfolding IsCategory codes eq_text mem_text error_categories
build_include_alpha-IsCategory = refl

pub readability_fn_size-IsCategory : IsCategory (codes "readability/fn_size")
unfolding IsCategory codes eq_text mem_text error_categories
readability_fn_size-IsCategory = refl

pub readability_multiline_comment-IsCategory : IsCategory (codes "readability/multiline_comment")
unfolding IsCategory codes eq_text mem_text error_categories
readability_multiline_comment-IsCategory = refl

pub readability_multiline_string-IsCategory : IsCategory (codes "readability/multiline_string")
unfolding IsCategory codes eq_text mem_text error_categories
readability_multiline_string-IsCategory = refl

pub runtime_indentation_namespace-IsCategory : IsCategory (codes "runtime/indentation_namespace")
unfolding IsCategory codes eq_text mem_text error_categories
runtime_indentation_namespace-IsCategory = refl

pub readability_namespace-IsCategory : IsCategory (codes "readability/namespace")
unfolding IsCategory codes eq_text mem_text error_categories
readability_namespace-IsCategory = refl

pub build_header_guard-IsCategory : IsCategory (codes "build/header_guard")
unfolding IsCategory codes eq_text mem_text error_categories
build_header_guard-IsCategory = refl

pub build_include_what_you_use-IsCategory : IsCategory (codes "build/include_what_you_use")
unfolding IsCategory codes eq_text mem_text error_categories
build_include_what_you_use-IsCategory = refl

pub legal_copyright-IsCategory : IsCategory (codes "legal/copyright")
unfolding IsCategory codes eq_text mem_text error_categories
legal_copyright-IsCategory = refl

pub readability_utf8-IsCategory : IsCategory (codes "readability/utf8")
unfolding IsCategory codes eq_text mem_text error_categories
readability_utf8-IsCategory = refl

pub readability_nul-IsCategory : IsCategory (codes "readability/nul")
unfolding IsCategory codes eq_text mem_text error_categories
readability_nul-IsCategory = refl

pub whitespace_ending_newline-IsCategory : IsCategory (codes "whitespace/ending_newline")
unfolding IsCategory codes eq_text mem_text error_categories
whitespace_ending_newline-IsCategory = refl

-- A chain of steps that may stop: with an exception, or as a loop does not end.
unfoldable pub on_some {ℓ κ} : {A : Type ℓ} {B : Type κ} → Option A → (A → Option B) → Option B
on_some none k = none
on_some (some x) k = k x

-- The same where nothing is reported unless something is found.
unfoldable pub unless_found {ℓ κ} :
    {A : Type ℓ} {B : Type κ} → Option A → (A → Option (List B)) → Option (List B)
unless_found none k = some []
unless_found (some x) k = k x

-- Reports in front of those of a check that may stop.
unfoldable pub behind : List Report → Option (List Report) → Option (List Report)
behind rs none = none
behind rs (some more) = some (rs ++ more)

-- The reports of a check that may stop, where it returns.
pub data Returned (f : Text) (n : ℕ) : Option (List Report) → Type 0 where
  stopped : Returned f n none
  returned : {rs : List Report} → Listed f n rs → Returned f n (some rs)

module _ {f : Text} {n : ℕ} where
  pub Returned-behind :
      (rs : List Report) (o : Option (List Report))
      → Listed f n rs
      → Returned f n o
      → Returned f n (behind rs o)
  unfolding behind
  Returned-behind rs none h k = stopped
  Returned-behind rs (some more) h (returned l) = returned (Listed-append rs h l)

  pub Returned-if :
      (b : Bool) (o p : Option (List Report))
      → Returned f n o
      → Returned f n p
      → Returned f n (if b then o else p)
  Returned-if true o p h k = h
  Returned-if false o p h k = k

  pub Returned-unless_found {ℓ} :
      {A : Type ℓ} (o : Option A) (k : A → Option (List Report))
      → ((x : A) → Returned f n (k x))
      → Returned f n (unless_found o k)
  unfolding unless_found
  Returned-unless_found none k h = returned none_left
  Returned-unless_found (some x) k h = h x

  pub Returned-on_some {ℓ} :
      {A : Type ℓ} (o : Option A) (k : A → Option (List Report))
      → ((x : A) → Returned f n (k x))
      → Returned f n (on_some o k)
  unfolding on_some
  Returned-on_some none k h = stopped
  Returned-on_some (some x) k h = h x

-- What a step that may stop has to say of its result, where there is one.
pub data Yields {ℓ} {A : Type ℓ} (P : A → Type 0) : Option A → Type ℓ where
  stops : Yields P none
  yields : {x : A} → P x → Yields P (some x)

pub Yields-on_some {ℓ κ} :
    {A : Type ℓ} {B : Type κ} {P : A → Type 0} {Q : B → Type 0} {o : Option A} (k : A → Option B)
    → Yields P o
    → ((x : A) → P x → Yields Q (k x))
    → Yields Q (on_some o k)
unfolding on_some
Yields-on_some k stops h = stops
Yields-on_some k (yields p) h = h _ p

pub Yields-if {ℓ} :
    {A : Type ℓ} {P : A → Type 0} (b : Bool) {o p : Option A}
    → Yields P o
    → Yields P p
    → Yields P (if b then o else p)
Yields-if true h k = h
Yields-if false h k = k

pub Yields-elim {ℓ κ} :
    {A : Type ℓ} {B : Type κ} {P : B → Type 0} (o : Option A) (other : Option B) (k : A → Option B)
    → Yields P other
    → ((x : A) → Yields P (k x))
    → Yields P (elim o [ none ↦ other | some x ↦ k x ])
Yields-elim none other k h e = h
Yields-elim (some x) other k h e = e x

pub Yields-Returned :
    {f : Text} {n : ℕ} {o : Option (List Report)} → Returned f n o → Yields (Listed f n) o
Yields-Returned stopped = stops
Yields-Returned (returned l) = yields l

-- The rules by which a check's reports are listed.
pub ruleset listed = (
  none_left, Listed-append, Listed-if, Listed-report, Listed-report_if, Listed-on_match,
  Listed-on_match_or, stopped, returned, Returned-behind, Returned-if, Returned-on_some,
  Returned-unless_found, refl, build_class-IsCategory, build_cxx11-IsCategory,
  build_cxx14-IsCategory, build_cxxtr1-IsCategory, build_deprecated-IsCategory,
  build_endif_comment-IsCategory, build_explicit_make_pair-IsCategory,
  build_forward_decl-IsCategory, build_include-IsCategory, build_namespaces-IsCategory,
  build_printf_format-IsCategory, build_storage_class-IsCategory, readability_alt_tokens-IsCategory,
  readability_braces-IsCategory, readability_casting-IsCategory, readability_check-IsCategory,
  readability_constructors-IsCategory, readability_inheritance-IsCategory,
  readability_todo-IsCategory, runtime_invalid_increment-IsCategory, runtime_printf-IsCategory,
  runtime_threadsafe_fn-IsCategory, runtime_vlog-IsCategory, whitespace_blank_line-IsCategory,
  whitespace_braces-IsCategory, whitespace_comma-IsCategory, whitespace_comments-IsCategory,
  whitespace_empty_conditional_body-IsCategory, whitespace_empty_if_body-IsCategory,
  whitespace_empty_loop_body-IsCategory, whitespace_end_of_line-IsCategory,
  whitespace_forcolon-IsCategory, whitespace_indent-IsCategory, whitespace_line_length-IsCategory,
  whitespace_newline-IsCategory, whitespace_operators-IsCategory, whitespace_parens-IsCategory,
  whitespace_semicolon-IsCategory, whitespace_tab-IsCategory, whitespace_todo-IsCategory,
  runtime_casting-IsCategory, runtime_printf_format-IsCategory,
  runtime_member_string_references-IsCategory, runtime_explicit-IsCategory, runtime_int-IsCategory,
  runtime_operator-IsCategory, runtime_memset-IsCategory, build_namespaces_literals-IsCategory,
  runtime_arrays-IsCategory, runtime_string-IsCategory, runtime_init-IsCategory,
  runtime_references-IsCategory, build_include_subdir-IsCategory, build_include_order-IsCategory,
  build_include_alpha-IsCategory, readability_fn_size-IsCategory,
  readability_multiline_comment-IsCategory, readability_multiline_string-IsCategory,
  runtime_indentation_namespace-IsCategory, readability_namespace-IsCategory,
  build_header_guard-IsCategory, build_include_what_you_use-IsCategory, legal_copyright-IsCategory,
  readability_utf8-IsCategory, readability_nul-IsCategory, whitespace_ending_newline-IsCategory,
)

pub readability_nolint-IsCategory : IsCategory (codes "readability/nolint")
unfolding IsCategory codes eq_text mem_text error_categories
readability_nolint-IsCategory = refl

nolint_category-Listed :
    (f : Text) (n line : ℕ) (c : Option Text) (s : Suppressions)
    → Listed f n ((nolint_category f n line c s).1)
unfolding nolint_category
nolint_category-Listed f n line none s = none_left
nolint_category-Listed f n line (some c) s =
    search (listed, Listed-if_second, readability_nolint-IsCategory) depth 9

pub parse_nolint-Listed :
    (f line : Text) (n : ℕ) (s : Suppressions)
    → Listed f n ((parse_nolint_suppressions f line n s).1)
unfolding parse_nolint_suppressions nolint_match
parse_nolint-Listed f line n s =
    elim (find_match nolint_pattern line)
      as (λ (o : Option Cursor). Listed f n ((nolint_match f n o s).1)) [
        | none ↦ none_left
        | some m ↦ nolint_category-Listed f n _ (captured 2 m) s
      ]

pub Raised-parse :
    {f : Text} {n : ℕ} (line : Text) (k : ℕ) {actions : List Action}
    → n ≤ suc k
    → Raised f n actions
    → Raised f n (parse_nolint line k ∷ actions)
Raised-parse line k l h = parses l (parse_nolint-Listed _ line k) h
