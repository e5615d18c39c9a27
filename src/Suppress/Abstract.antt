-- ===== src/Suppress/Abstract.antt =====
-- build_support/cpplint.py: the NOLINT table and the global suppressions as a set of pairs of a
-- category and a line, which is all that `IsErrorSuppressedByNolint` tells of them.
use turtle.Common.{
  ℕ, ◌≡◌, refl, ◌∙◌, Bool, true, false, ◌&&◌, ◌||◌, List, [], ◌∷◌, Option, none, some, ℤ, pos,
  negsuc, ◌==◌, if◌then◌else◌, arith, any,
}
use turtle.Common.Text.{Text, codes, eq_text, mem_text, starts_with, ends_with}
use turtle.Common.Slices.{inner}
use turtle.Regex.{Cursor, captured, find_match, found}
use turtle.Suppress.{
  Suppressions, Key, eq_key, add_line, error_categories, nolint_pattern, nolint_category,
  nolint_match, parse_nolint_suppressions, process_global_suppressions, reset_nolint_suppressions,
  is_error_suppressed, c_file_pattern, kernel_file_pattern, default_c_suppressed_categories,
  default_kernel_suppressed_categories,
}
use turtle.Suppress.Laws.{
  nolint_line, suppressed-add_line, suppressed-process_global, suppressed-reset,
}

-- What is suppressed.
abbrev pub View : Type 0
View = Text → ℤ → Bool

-- What a NOLINT comment speaks of.
pub data Effect : Type 0 where
  nothing everything : Effect
  only : Text → Effect

abbrev pub covers : Effect → Text → Bool
covers nothing c = false
covers everything c = true
covers (only d) c = eq_text d c

abbrev pub category_effect : Option Text → Effect
category_effect none = everything
category_effect (some c) =
    if eq_text c (codes "(*)")
    then everything
    else if starts_with (codes "(") c
        && ends_with (codes ")") c
        && mem_text (inner c) error_categories
    then only (inner c)
    else nothing

abbrev pub comment_effect : Option Cursor → Effect
comment_effect none = nothing
comment_effect (some m) = category_effect (captured 2 m)

abbrev pub is_line : ℕ → ℤ → Bool
is_line n (pos m) = n == m
is_line n (negsuc m) = false

pub data Operation : Type 0 where
  parse_line : Text → ℕ → Operation
  process_file : List Text → Operation
  reset : Operation

-- The operation on the tables, and the one on the set.
abbrev pub operate : Text → Operation → Suppressions → Suppressions
operate f (parse_line raw n) s = (parse_nolint_suppressions f raw n s).0
operate f (process_file lines) s = process_global_suppressions lines s
operate f reset s = reset_nolint_suppressions s

abbrev pub in_c_file : List Text → Text → Bool
in_c_file lines c = any (found c_file_pattern) lines && mem_text c default_c_suppressed_categories

abbrev pub in_kernel_file : List Text → Text → Bool
in_kernel_file lines c =
    any (found kernel_file_pattern) lines && mem_text c default_kernel_suppressed_categories

abbrev pub abstract_operate : Operation → View → View
abstract_operate (parse_line raw n) v = λ c k.
    (covers (comment_effect (find_match nolint_pattern raw)) c
      && is_line (nolint_line (find_match nolint_pattern raw) n) k)
    || v c k
abstract_operate (process_file lines) v =
    λ c k. in_c_file lines c || in_kernel_file lines c || v c k
abstract_operate reset v = λ c k. false

pub operate_all : Text → List Operation → Suppressions → Suppressions
operate_all f [] s = s
operate_all f (o ∷ os) s = operate_all f os (operate f o s)

pub abstract_operate_all : List Operation → View → View
abstract_operate_all [] v = v
abstract_operate_all (o ∷ os) v = abstract_operate_all os (abstract_operate o v)

abbrev pub view : Suppressions → View
view s = λ c k. is_error_suppressed c k s

add_line_view :
    (c : Text) (k : ℤ) (j : Key) (n : ℕ) (s : Suppressions)
    → is_error_suppressed c k (record s { lines = add_line j n s.lines })
      ≡ (((eq_key j (some c) || eq_key j none) && is_line n k) || is_error_suppressed c k s)
add_line_view c (pos m) j n s = suppressed-add_line c j m n s
add_line_view c (negsuc m) j n s = unfold is_error_suppressed in ground arith

add_everything_view :
    (c : Text) (k : ℤ) (n : ℕ) (s : Suppressions)
    → is_error_suppressed c k (record s { lines = add_line none n s.lines })
      ≡ (is_line n k || is_error_suppressed c k s)
add_everything_view c k n s = unfold eq_key in add_line_view c k none n s

add_only_view :
    (c d : Text) (k : ℤ) (n : ℕ) (s : Suppressions)
    → is_error_suppressed c k (record s { lines = add_line (some d) n s.lines })
      ≡ ((eq_text d c && is_line n k) || is_error_suppressed c k s)
add_only_view c d k n s = unfold eq_key in ground (arith, add_line_view c k (some d) n s)

nolint_category_view :
    (f : Text) (n line : ℕ) (g : Option Text) (s : Suppressions) (c : Text) (k : ℤ)
    → is_error_suppressed c k (nolint_category f n line g s).0
      ≡ ((covers (category_effect g) c && is_line line k) || is_error_suppressed c k s)
unfolding nolint_category
nolint_category_view f n line none s c k = add_everything_view c k line s
nolint_category_view f n line (some g) s c k =
    ground (arith, add_everything_view c k line s, add_only_view c (inner g) k line s)

nolint_match_view :
    (f : Text) (n : ℕ) (m : Option Cursor) (s : Suppressions) (c : Text) (k : ℤ)
    → is_error_suppressed c k (nolint_match f n m s).0
      ≡ ((covers (comment_effect m) c && is_line (nolint_line m n) k) || is_error_suppressed c k s)
unfolding nolint_match nolint_line
nolint_match_view f n none s c k = refl
nolint_match_view f n (some m) s c k = nolint_category_view f n _ (captured 2 m) s c k

view-operate :
    (f : Text) (o : Operation) (s : Suppressions) (c : Text) (k : ℤ)
    → view (operate f o s) c k ≡ abstract_operate o (view s) c k
view-operate f (parse_line raw n) s c k =
    unfold parse_nolint_suppressions in nolint_match_view f n _ s c k
view-operate f (process_file lines) s c k = suppressed-process_global c k lines s
view-operate f reset s c k = suppressed-reset c k s

operate_all_agrees :
    (os : List Operation) (v w : View)
    → ((c : Text) (k : ℤ) → v c k ≡ w c k)
    → (c : Text) (k : ℤ) → abstract_operate_all os v c k ≡ abstract_operate_all os w c k
unfolding abstract_operate_all
operate_all_agrees [] v w h c k = h c k
operate_all_agrees (parse_line raw n ∷ os) v w h c k =
    operate_all_agrees os _ _ (λ d j. rw (h d j) refl) c k
operate_all_agrees (process_file lines ∷ os) v w h c k =
    operate_all_agrees os _ _ (λ d j. rw (h d j) refl) c k
operate_all_agrees (reset ∷ os) v w h c k = refl

-- However the lines are parsed, the files' directives processed and the tables reset, what is
-- suppressed is what the same operations make of the set of suppressed pairs.
pub view-operate_all :
    (f : Text) (os : List Operation) (s : Suppressions) (c : Text) (k : ℤ)
    → view (operate_all f os s) c k ≡ abstract_operate_all os (view s) c k
unfolding operate_all abstract_operate_all
view-operate_all f [] s c k = refl
view-operate_all f (o ∷ os) s c k =
    view-operate_all f os (operate f o s) c k ∙ operate_all_agrees os _ _ (view-operate f o s) c k
