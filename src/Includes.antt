-- ===== src/Includes.antt =====
-- build_support/cpplint.py, class `_IncludeState`: the includes that were seen and the section of
-- the include list that has been reached.
pub mod Order
pub mod Headers
pub mod Canonical
pub mod Standard
pub mod Lines
pub mod Templates
pub mod Used
use turtle.Common.{
  ℕ, ◌+◌, ◌-◌, Bool, true, false, not, ◌&&◌, ◌||◌, List, [], ◌∷◌, ◌++◌, Option, none, some, ◌==◌,
  leb, if◌then◌else◌, ℤ, pos, negsuc, last?,
}
use turtle.Common.Text.{Text, codes, eq_text, mem_text, gt_text, replace, lower}
use turtle.Common.Slices.{line_before}
use turtle.Regex.{Regex, seq, many, word, space, word_edge, matches}

pub data HeaderType : Type 0 where
  c_sys_header cpp_sys_header likely_my_header possible_my_header other_header : HeaderType

abbrev initial_section : ℕ
initial_section = 0

abbrev pub my_h_section : ℕ
my_h_section = 1

abbrev pub c_section : ℕ
c_section = 2

abbrev pub cpp_section : ℕ
cpp_section = 3

abbrev pub other_h_section : ℕ
other_h_section = 4

pub record IncludeState : Type 0 where
  pub include_list : List (List (Text × ℕ))
  pub section : ℕ
  pub last_header : Text

pub type_name : HeaderType → Text
unfolding codes
type_name c_sys_header = codes "C system header"
type_name cpp_sys_header = codes "C++ system header"
type_name likely_my_header = codes "header this file implements"
type_name possible_my_header = codes "header this file may implement"
type_name other_header = codes "other header"

pub section_name : ℕ → Text
unfolding codes
section_name n =
    if n == initial_section
    then codes "... nothing. (This can't be an error.)"
    else if n == my_h_section
    then codes "a header this file implements"
    else if n == c_section
    then codes "C system header"
    else if n == cpp_section
    then codes "C++ system header"
    else codes "other header"

-- `include_list[-1] = value`; the list is never empty.
pub set_last {ℓ} : {A : Type ℓ} → List A → A → List A
set_last [] v = []
set_last (x ∷ []) v = v ∷ []
set_last (x ∷ y ∷ xs) v = x ∷ set_last (y ∷ xs) v

abbrev reset_list : Text → List (List (Text × ℕ)) → List (List (Text × ℕ))
reset_list directive l =
    if mem_text directive (codes "if" ∷ codes "ifdef" ∷ codes "ifndef" ∷ [])
    then l ++ [] ∷ []
    else if mem_text directive (codes "else" ∷ codes "elif" ∷ [])
    then set_last l []
    else l

pub reset_section : Text → IncludeState → IncludeState
reset_section directive s = record {
  include_list = reset_list directive s.include_list;
  section = initial_section;
  last_header = [];
}

-- The constructor, after its call of `ResetSection('')`.
unfoldable pub initial : IncludeState
initial = record { include_list = [] ∷ []; section = initial_section; last_header = [] }

-- The inner and the outer loop of `FindHeader`.
find_in : Text → List (Text × ℕ) → Option ℕ
find_in h [] = none
find_in h ((g, n) ∷ l) = if eq_text g h then some n else find_in h l

find_in_all : Text → List (List (Text × ℕ)) → Option ℕ
find_in_all h [] = none
find_in_all h (l ∷ ls) = elim (find_in h l) [ some n ↦ some n | none ↦ find_in_all h ls ]

pub find_header : Text → IncludeState → ℤ
unfolding find_in find_in_all
find_header h s = elim (find_in_all h s.include_list) [ some n ↦ pos n | none ↦ negsuc 0 ]

-- `include_state.include_list[-1].append((include, linenum))`, of `CheckIncludeLine`.
abbrev last_or_nil : Option (List (Text × ℕ)) → List (Text × ℕ)
last_or_nil none = []
last_or_nil (some l) = l

pub append_include : Text → ℕ → IncludeState → IncludeState
append_include h n s = record s {
  include_list = set_last s.include_list (last_or_nil (last? s.include_list) ++ (h, n) ∷ []);
}

pub set_last_header : Text → IncludeState → IncludeState
set_last_header h s = record s { last_header = h }

unfoldable pub canonicalize : Text → Text
unfolding replace lower codes
canonicalize h = lower (replace (codes "-") (codes "_") (replace (codes "-inl.h") (codes ".h") h))

unfoldable pub include_pattern : Regex
unfolding seq word space
include_pattern = seq (many space ∷ word "#" ∷ many space ∷ word "include" ∷ word_edge ∷ [])

unfoldable pub is_in_alphabetical_order : List Text → ℕ → Text → IncludeState → Bool
is_in_alphabetical_order elided linenum header_path s =
    not (gt_text s.last_header header_path && matches include_pattern (line_before elided linenum))

-- The new section, or `none` where the header is out of order.
pub next_section : HeaderType → ℕ → Option ℕ
next_section c_sys_header n = if leb n c_section then some c_section else none
next_section cpp_sys_header n = if leb n cpp_section then some cpp_section else none
next_section likely_my_header n =
    some (if leb n my_h_section then my_h_section else other_h_section)
next_section possible_my_header n =
    some (if leb n my_h_section then my_h_section else other_h_section)
next_section other_header n = some other_h_section

abbrev enter : Text → Option ℕ → IncludeState → IncludeState × Text
enter message none s = (record s { last_header = [] }, message)
enter message (some n) s =
    (record s { section = n; last_header = if not (s.section == n) then [] else s.last_header }, [])

unfoldable pub check_next_include_order : HeaderType → IncludeState → IncludeState × Text
unfolding next_section codes
check_next_include_order t s =
    enter (codes "Found " ++ (type_name t ++ (codes " after " ++ section_name s.section)))
      (next_section t s.section) s
