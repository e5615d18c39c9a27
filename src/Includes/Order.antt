-- ===== src/Includes/Order.antt =====
-- build_support/cpplint.py: `CheckNextIncludeOrder` over a whole list of includes.
use turtle.Common.{
  ℕ, ◌≤◌, ◌<◌, ◌≡◌, ◌≢◌, ◌⊎◌, ◌↔◌, inl, inr, refl, ap, Bool, true, false, List, [], ◌∷◌, ◌++◌, none,
  some, arith, leb, all, Bool-cases, ◌&&◌,
}
use turtle.Common.Text.{Text}
use turtle.Includes.{
  HeaderType, c_sys_header, cpp_sys_header, likely_my_header, possible_my_header, other_header,
  c_section, cpp_section, my_h_section, other_h_section, IncludeState, next_section,
  check_next_include_order, initial,
}

abbrev is_nil : Text → Bool
is_nil [] = true
is_nil _ = false

-- A header type that must not come after the section.
abbrev pub IsLate : HeaderType → ℕ → Type 0
IsLate c_sys_header n = c_section < n
IsLate cpp_sys_header n = cpp_section < n
IsLate _ n = ⊥

-- Either the header comes too late: an error message is returned and the section stays; or it does
-- not: the message is empty and the section does not go back. In both cases the section stays one
-- of the five, and the list of includes is left alone.
pub check_next_include_order_lem :
    (t : HeaderType) (s : IncludeState)
    → s.section ≤ other_h_section
    → ((IsLate t s.section
          × ((check_next_include_order t s).1 ≢ [])
          × ((check_next_include_order t s).0.section ≡ s.section))
        ⊎ ((¬ IsLate t s.section)
            × ((check_next_include_order t s).1 ≡ [])
            × (s.section ≤ (check_next_include_order t s).0.section)))
      × ((check_next_include_order t s).0.section ≤ other_h_section)
      × ((check_next_include_order t s).0.include_list ≡ s.include_list)
unfolding check_next_include_order
check_next_include_order_lem c_sys_header s h = elim (Bool-cases (leb s.section c_section)) [
  | inl e ↦ rw e (inr (λ l. ground arith, refl, ground arith), omega arith, refl)
  | inr e ↦ rw e (inl (ground arith, λ x. cc, refl), h, refl)
]
check_next_include_order_lem cpp_sys_header s h = elim (Bool-cases (leb s.section cpp_section)) [
  | inl e ↦ rw e (inr (λ l. ground arith, refl, ground arith), omega arith, refl)
  | inr e ↦ rw e (inl (ground arith, λ x. cc, refl), h, refl)
]
check_next_include_order_lem likely_my_header s h =
    (inr (λ l. l, refl, ground arith), ground arith, refl)
check_next_include_order_lem possible_my_header s h =
    (inr (λ l. l, refl, ground arith), ground arith, refl)
check_next_include_order_lem other_header s h = (inr (λ l. l, refl, h), omega arith, refl)

-- The headers of a file in turn. Are they all accepted?
unfoldable pub all_in_order : List HeaderType → IncludeState → Bool
all_in_order [] s = true
all_in_order (t ∷ ts) s =
    is_nil (check_next_include_order t s).1 && all_in_order ts (check_next_include_order t s).0

-- The same on sections alone.
accepted : List HeaderType → ℕ → Bool
accepted [] n = true
accepted (t ∷ ts) n = elim (next_section t n) [ none ↦ false | some m ↦ accepted ts m ]

all_in_order-accepted :
    (ts : List HeaderType) (s : IncludeState) → all_in_order ts s ≡ accepted ts s.section
unfolding all_in_order accepted check_next_include_order
all_in_order-accepted [] s = refl
all_in_order-accepted (t ∷ ts) s =
    ground (arith, all_in_order-accepted ts (check_next_include_order t s).0)

abbrev is_my : HeaderType → Bool
is_my likely_my_header = true
is_my possible_my_header = true
is_my _ = false

abbrev is_c : HeaderType → Bool
is_c c_sys_header = true
is_c _ = false

abbrev is_cpp : HeaderType → Bool
is_cpp cpp_sys_header = true
is_cpp _ = false

abbrev is_own : HeaderType → Bool
is_own other_header = true
is_own t = is_my t

-- The order that the style asks for: a file's own headers, C system headers, C++ system headers,
-- then headers of the project.
pub record Blocks (ts : List HeaderType) : Type 0 where
  pub mine : List HeaderType
  pub cs : List HeaderType
  pub cpps : List HeaderType
  pub rest : List HeaderType
  pub splits : ts ≡ mine ++ (cs ++ (cpps ++ rest))
  pub all_mine : all is_my mine ≡ true
  pub all_cs : all is_c cs ≡ true
  pub all_cpps : all is_cpp cpps ≡ true
  pub all_rest : all is_own rest ≡ true

own-accepted : (ts : List HeaderType) (n : ℕ) → all is_own ts ≡ true → accepted ts n ≡ true
unfolding accepted next_section
own-accepted [] n h = refl
own-accepted (t ∷ ts) n h =
    ground (arith, own-accepted ts my_h_section, own-accepted ts other_h_section)

cpps-accepted :
    (cpps rest : List HeaderType) (n : ℕ)
    → n ≤ cpp_section
    → all is_cpp cpps ≡ true
    → all is_own rest ≡ true
    → accepted (cpps ++ rest) n ≡ true
unfolding accepted next_section
cpps-accepted [] rest n l h k = own-accepted rest n k
cpps-accepted (t ∷ cpps) rest n l h k = ground (arith, cpps-accepted cpps rest cpp_section)

cs-accepted :
    (cs cpps rest : List HeaderType) (n : ℕ)
    → n ≤ c_section
    → all is_c cs ≡ true
    → all is_cpp cpps ≡ true
    → all is_own rest ≡ true
    → accepted (cs ++ (cpps ++ rest)) n ≡ true
unfolding accepted next_section
cs-accepted [] cpps rest n l h k r = cpps-accepted cpps rest n (omega arith) k r
cs-accepted (t ∷ cs) cpps rest n l h k r = ground (arith, cs-accepted cs cpps rest c_section)

mine-accepted :
    (mine cs cpps rest : List HeaderType) (n : ℕ)
    → n ≤ my_h_section
    → all is_my mine ≡ true
    → all is_c cs ≡ true
    → all is_cpp cpps ≡ true
    → all is_own rest ≡ true
    → accepted (mine ++ (cs ++ (cpps ++ rest))) n ≡ true
unfolding accepted next_section
mine-accepted [] cs cpps rest n l h k r = cs-accepted cs cpps rest n (omega arith) k r
mine-accepted (t ∷ mine) cs cpps rest n l h k r =
    ground (arith, mine-accepted mine cs cpps rest my_h_section)

-- What is accepted from the later sections.
record Blocks3 (ts : List HeaderType) : Type 0 where
  cpps : List HeaderType
  rest : List HeaderType
  splits : ts ≡ cpps ++ rest
  all_cpps : all is_cpp cpps ≡ true
  all_rest : all is_own rest ≡ true

record Blocks2 (ts : List HeaderType) : Type 0 where
  cs : List HeaderType
  cpps : List HeaderType
  rest : List HeaderType
  splits : ts ≡ cs ++ (cpps ++ rest)
  all_cs : all is_c cs ≡ true
  all_cpps : all is_cpp cpps ≡ true
  all_rest : all is_own rest ≡ true

accepted-own : (ts : List HeaderType) → accepted ts other_h_section ≡ true → all is_own ts ≡ true
unfolding accepted next_section
accepted-own [] h = refl
accepted-own (t ∷ ts) h = ground (arith, accepted-own ts)

only_rest3 : (ts : List HeaderType) → all is_own ts ≡ true → Blocks3 ts
only_rest3 ts h = record { cpps = []; rest = ts; splits = refl; all_cpps = refl; all_rest = h }

accepted-Blocks3 : (ts : List HeaderType) → accepted ts cpp_section ≡ true → Blocks3 ts
unfolding accepted next_section
accepted-Blocks3 [] h = only_rest3 [] refl
accepted-Blocks3 (c_sys_header ∷ ts) h = cc
accepted-Blocks3 (cpp_sys_header ∷ ts) h =
    let b = accepted-Blocks3 ts h in
    record {
      cpps = cpp_sys_header ∷ b.cpps;
      rest = b.rest;
      splits = ap (◌∷◌ cpp_sys_header) b.splits;
      all_cpps = b.all_cpps;
      all_rest = b.all_rest;
    }
accepted-Blocks3 (likely_my_header ∷ ts) h = only_rest3 _ (accepted-own ts h)
accepted-Blocks3 (possible_my_header ∷ ts) h = only_rest3 _ (accepted-own ts h)
accepted-Blocks3 (other_header ∷ ts) h = only_rest3 _ (accepted-own ts h)

no_cs : (ts : List HeaderType) → Blocks3 ts → Blocks2 ts
no_cs ts b = record {
  cs = [];
  cpps = b.cpps;
  rest = b.rest;
  splits = b.splits;
  all_cs = refl;
  all_cpps = b.all_cpps;
  all_rest = b.all_rest;
}

accepted-Blocks2 : (ts : List HeaderType) → accepted ts c_section ≡ true → Blocks2 ts
unfolding accepted next_section
accepted-Blocks2 [] h = no_cs [] (only_rest3 [] refl)
accepted-Blocks2 (c_sys_header ∷ ts) h =
    let b = accepted-Blocks2 ts h in
    record {
      cs = c_sys_header ∷ b.cs;
      cpps = b.cpps;
      rest = b.rest;
      splits = ap (◌∷◌ c_sys_header) b.splits;
      all_cs = b.all_cs;
      all_cpps = b.all_cpps;
      all_rest = b.all_rest;
    }
accepted-Blocks2 (t ∷ ts) h = no_cs _ (accepted-Blocks3 (t ∷ ts) h)

no_mine : (ts : List HeaderType) → Blocks2 ts → Blocks ts
no_mine ts b = record {
  mine = [];
  cs = b.cs;
  cpps = b.cpps;
  rest = b.rest;
  splits = b.splits;
  all_mine = refl;
  all_cs = b.all_cs;
  all_cpps = b.all_cpps;
  all_rest = b.all_rest;
}

cons_mine : (t : HeaderType) (ts : List HeaderType) → is_my t ≡ true → Blocks ts → Blocks (t ∷ ts)
cons_mine t ts h b = record {
  mine = t ∷ b.mine;
  cs = b.cs;
  cpps = b.cpps;
  rest = b.rest;
  splits = ap (◌∷◌ t) b.splits;
  all_mine = rw h b.all_mine;
  all_cs = b.all_cs;
  all_cpps = b.all_cpps;
  all_rest = b.all_rest;
}

accepted-Blocks1 : (ts : List HeaderType) → accepted ts my_h_section ≡ true → Blocks ts
unfolding accepted next_section
accepted-Blocks1 [] h = no_mine [] (accepted-Blocks2 [] refl)
accepted-Blocks1 (likely_my_header ∷ ts) h =
    cons_mine likely_my_header ts refl (accepted-Blocks1 ts h)
accepted-Blocks1 (possible_my_header ∷ ts) h =
    cons_mine possible_my_header ts refl (accepted-Blocks1 ts h)
accepted-Blocks1 (t ∷ ts) h = no_mine _ (accepted-Blocks2 (t ∷ ts) h)

-- From the start of the file, and from its own headers, the same is accepted.
accepted_start : (ts : List HeaderType) → accepted ts 0 ≡ accepted ts my_h_section
unfolding accepted next_section
accepted_start [] = refl
accepted_start (c_sys_header ∷ ts) = refl
accepted_start (t ∷ ts) = refl

-- Over calls of `CheckNextIncludeOrder` from the initial state with no `ResetSection` between them, as
-- for includes with no preprocessor conditional between, no header is reported out of order exactly
-- when the headers stand in four blocks: the file's own ones, the C system headers, the C++ system
-- headers, and then any that are no system headers, among which the file's own may stand again.
pub all_in_order_iff : (ts : List HeaderType) → (all_in_order ts initial ≡ true) ↔ Blocks ts
unfolding initial
all_in_order_iff ts =
    rw (all_in_order-accepted, accepted_start)
      (
        accepted-Blocks1 ts,
        λ b. rw b.splits (
            mine-accepted b.mine b.cs b.cpps b.rest my_h_section (omega arith) b.all_mine b.all_cs
              b.all_cpps b.all_rest),
      )
