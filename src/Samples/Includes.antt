-- ===== src/Samples/Includes.antt =====
-- The include order of build_support/cpplint.py at concrete inputs.
use turtle.Common.{
  ◌≡◌, ◌≢◌, ◌≤◌, ◌↔◌, ◌⊎◌, refl, true, false, List, [], ◌∷◌, arith, All, ◌==◌, pos, negsuc,
  if◌then◌else◌,
}
use turtle.Common.Text.{codes, is_upper, to_lower, eq_text}
use turtle.Includes.{
  HeaderType, c_sys_header, cpp_sys_header, likely_my_header, other_header, IncludeState, initial,
  check_next_include_order, canonicalize, find_header, append_include, other_h_section,
}
use turtle.Includes.Order.{
  IsLate, check_next_include_order_lem, all_in_order, Blocks, all_in_order_iff,
}
use turtle.Includes.Headers.{
  Operation, reset, check, append, operate_all, IsValid, operate_all-IsValid,
  find_header-append_include,
}
use turtle.Includes.Canonical.{canonicalize_lem}

abbrev headers : List HeaderType
headers = likely_my_header ∷ c_sys_header ∷ cpp_sys_header ∷ cpp_sys_header ∷ other_header ∷ []

all_in_order_iff_example : (all_in_order headers initial ≡ true) ↔ Blocks headers
all_in_order_iff_example = all_in_order_iff headers

headers_accepted : all_in_order headers initial ≡ true
unfolding all_in_order check_next_include_order initial
headers_accepted = refl

abbrev in_cpp : IncludeState
in_cpp = record { include_list = [] ∷ []; section = 3; last_header = codes "vector" }

check_next_include_order_lem_example :
    ((IsLate c_sys_header 3
        × ((check_next_include_order c_sys_header in_cpp).1 ≢ [])
        × ((check_next_include_order c_sys_header in_cpp).0.section ≡ 3))
      ⊎ ((¬ IsLate c_sys_header 3)
          × ((check_next_include_order c_sys_header in_cpp).1 ≡ [])
          × (3 ≤ (check_next_include_order c_sys_header in_cpp).0.section)))
    × ((check_next_include_order c_sys_header in_cpp).0.section ≤ other_h_section)
    × ((check_next_include_order c_sys_header in_cpp).0.include_list ≡ [] ∷ [])
check_next_include_order_lem_example =
    check_next_include_order_lem c_sys_header in_cpp (omega arith)

abbrev listed : IncludeState
listed = record {
  include_list = ((codes "a.h", 3) ∷ []) ∷ ((codes "b.h", 9) ∷ []) ∷ [];
  section = 4;
  last_header = [];
}

find_header-append_include_example :
    find_header (codes "c.h") (append_include (codes "c.h") 12 listed)
    ≡ elim (find_header (codes "c.h") listed) [
      | pos m ↦ pos m
      | negsuc m ↦ if eq_text (codes "c.h") (codes "c.h") then pos 12 else negsuc m
    ]
find_header-append_include_example =
    find_header-append_include (codes "c.h") (codes "c.h") 12 listed (λ e. cc)

abbrev operations : List Operation
operations =
    check c_sys_header
    ∷ append (codes "stdio.h") 1
    ∷ reset (codes "ifdef")
    ∷ reset (codes "else")
    ∷ []

operate_all-IsValid_example : IsValid (operate_all operations initial)
operate_all-IsValid_example = operate_all-IsValid operations

canonicalize_lem_example :
    All (λ c. (c == b'-') ≡ false) (canonicalize (codes "base/My-List-inl.h"))
    × All (λ c. is_upper c ≡ false) (canonicalize (codes "base/My-List-inl.h"))
    × (canonicalize (canonicalize (codes "base/My-List-inl.h"))
        ≡ canonicalize (codes "base/My-List-inl.h"))
canonicalize_lem_example = canonicalize_lem (codes "base/My-List-inl.h")

canonicalize_runs : canonicalize (codes "base/My-List-inl.h") ≡ codes "base/my_list.h"
unfolding canonicalize codes to_lower
canonicalize_runs = refl
