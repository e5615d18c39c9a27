-- ===== src/State/Filters.antt =====
-- build_support/cpplint.py: `SetFilters` and `AddFilters` against the rule that every filter has
-- a sign.
use turtle.Common.{◌≡◌, true, List, [], ◌∷◌, ◌++◌, All}
use turtle.Common.Text.{Text}
use turtle.State.{has_sign}

-- Every filter of the list starts with + or -.
abbrev pub Signed : List Text → Type 0
Signed = All (λ f. has_sign f ≡ true)

Signed-append : (fs gs : List Text) → Signed (fs ++ gs) → Signed fs
Signed-append [] gs h = tt
Signed-append (f ∷ fs) gs h = (h.0, Signed-append fs gs h.1)
