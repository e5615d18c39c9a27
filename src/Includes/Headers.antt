-- ===== src/Includes/Headers.antt =====
-- build_support/cpplint.py: `FindHeader` and the list of includes that it searches.
use turtle.Common.{
  ℕ, ◌≤◌, ◌≡◌, ◌≢◌, refl, List, [], ◌∷◌, ◌++◌, none, some, arith, last?, pos, negsuc, if◌then◌else◌,
}
use turtle.Common.Text.{Text, eq_text}
use turtle.Includes.{
  IncludeState, set_last, find_in, find_in_all, find_header, last_or_nil, append_include,
  reset_section, initial, HeaderType, check_next_include_order, set_last_header, other_h_section,
}
use turtle.Includes.Order.{check_next_include_order_lem}

find_in-append :
    (h : Text) (l : List (Text × ℕ)) (g : Text) (n : ℕ)
    → find_in h (l ++ (g, n) ∷ [])
      ≡ elim (find_in h l) [ some m ↦ some m | none ↦ if eq_text g h then some n else none ]
unfolding find_in
find_in-append h [] g n = refl
find_in-append h ((f, m) ∷ l) g n = ground (arith, find_in-append h l g n)

find_in_all-append :
    (h : Text) (ls : List (List (Text × ℕ))) (g : Text) (n : ℕ)
    → ls ≢ []
    → find_in_all h (set_last ls (last_or_nil (last? ls) ++ (g, n) ∷ []))
      ≡ elim (find_in_all h ls) [ some m ↦ some m | none ↦ if eq_text g h then some n else none ]
unfolding find_in_all set_last
find_in_all-append h [] g n ne = absurd (ne refl)
find_in_all-append h (l ∷ []) g n ne = ground (arith, find_in-append h l g n)
find_in_all-append h (l ∷ k ∷ ls) g n ne = ground (arith, find_in_all-append h (k ∷ ls) g n)

-- After an include is recorded, a search finds what it found before, and the new line for the new
-- header if it was not there.
pub find_header-append_include :
    (h g : Text) (n : ℕ) (s : IncludeState)
    → s.include_list ≢ []
    → find_header h (append_include g n s) ≡ elim (find_header h s) [
      | pos m ↦ pos m
      | negsuc m ↦ if eq_text g h then pos n else negsuc m
    ]
unfolding find_header append_include
find_header-append_include h g n s ne = ground (arith, find_in_all-append h s.include_list g n ne)

-- The calls that a run makes on the state of a file.
pub data Operation : Type 0 where
  reset : Text → Operation
  check : HeaderType → Operation
  set_header : Text → Operation
  append : Text → ℕ → Operation

operate : Operation → IncludeState → IncludeState
operate (reset d) s = reset_section d s
operate (check t) s = (check_next_include_order t s).0
operate (set_header h) s = set_last_header h s
operate (append h n) s = append_include h n s

pub operate_all : List Operation → IncludeState → IncludeState
operate_all [] s = s
operate_all (o ∷ os) s = operate_all os (operate o s)

pub record IsValid (s : IncludeState) : Type 0 where
  pub listed : s.include_list ≢ []
  pub in_section : s.section ≤ other_h_section

set_last-ne-nil : {A : Type 0} (l : List A) (v : A) → l ≢ [] → set_last l v ≢ []
unfolding set_last
set_last-ne-nil [] v h = h
set_last-ne-nil (x ∷ []) v h = λ e. cc
set_last-ne-nil (x ∷ y ∷ l) v h = λ e. cc

reset_section-IsValid : (d : Text) (s : IncludeState) → IsValid s → IsValid (reset_section d s)
unfolding reset_section
reset_section-IsValid d s v =
    ground (arith, append-ne-nil s.include_list, set_last-ne-nil s.include_list [] v.listed)
  where
    append-ne-nil : (l : List (List (Text × ℕ))) → l ++ [] ∷ [] ≢ []
    append-ne-nil [] = λ e. cc
    append-ne-nil (x ∷ l) = λ e. cc

operate-IsValid : (o : Operation) (s : IncludeState) → IsValid s → IsValid (operate o s)
unfolding operate append_include set_last_header
operate-IsValid (reset d) s v = reset_section-IsValid d s v
operate-IsValid (check t) s v =
    let c = check_next_include_order_lem t s v.in_section in
    record { listed = rw c.2 v.listed; in_section = c.1 }
operate-IsValid (set_header h) s v = record { listed = v.listed; in_section = v.in_section }
operate-IsValid (append h n) s v = record {
  listed = set_last-ne-nil s.include_list _ v.listed;
  in_section = v.in_section;
}

initial-IsValid : IsValid initial
unfolding initial
initial-IsValid = record { listed = λ e. cc; in_section = omega arith }

operate_all_keeps :
    (os : List Operation) (s : IncludeState) → IsValid s → IsValid (operate_all os s)
unfolding operate_all
operate_all_keeps [] s v = v
operate_all_keeps (o ∷ os) s v = operate_all_keeps os (operate o s) (operate-IsValid o s v)

-- Whatever is called on the state of a file, `include_list[-1]` stays there to be read and
-- written, and the section is one of the five.
pub operate_all-IsValid : (os : List Operation) → IsValid (operate_all os initial)
operate_all-IsValid os = operate_all_keeps os initial initial-IsValid
