-- ===== src/Includes/Canonical.antt =====
-- build_support/cpplint.py: `CanonicalizeAlphabeticalOrder`.
use turtle.Common.{ℕ, map, ◌≡◌, refl, Bool, false, [], ◌∷◌, arith, ◌==◌, All}
use turtle.Common.Text.{Text, codes, replace, replace_from, to_lower, is_upper, starts_with}
use turtle.Includes.{canonicalize}

abbrev is_dash : ℕ → Bool
is_dash c = c == b'-'

abbrev NoDash : Text → Type 0
NoDash = All (λ c. is_dash c ≡ false)

-- A pattern that begins with a dash does not occur in such a text.
replace_dash : (p r s : Text) → NoDash s → replace_from 0 (b'-' ∷ p) r s ≡ s
unfolding replace_from starts_with
replace_dash p r [] h = refl
replace_dash p r (c ∷ s) h = ground (arith, replace_dash p r s h.1)

replace-NoDash : (s : Text) → NoDash (replace_from 0 (b'-' ∷ []) (b'_' ∷ []) s)
unfolding replace_from starts_with
replace-NoDash [] = tt
replace-NoDash (c ∷ s) = ground (arith, replace-NoDash s)

lower-NoDash : (s : Text) → NoDash s → NoDash (map to_lower s)
unfolding to_lower
lower-NoDash [] h = tt
lower-NoDash (c ∷ s) h = ground (arith, lower-NoDash s h.1)

lower_idem : (s : Text) → map to_lower (map to_lower s) ≡ map to_lower s
unfolding to_lower
lower_idem [] = refl
lower_idem (c ∷ s) = ground (arith, lower_idem s)

lower-no_upper : (s : Text) → All (λ c. is_upper c ≡ false) (map to_lower s)
unfolding to_lower
lower-no_upper [] = tt
lower-no_upper (c ∷ s) = ground (arith, lower-no_upper s)

-- The canonical form of a path has neither a dash nor an upper case letter, and is its own
-- canonical form.
pub canonicalize_lem :
    (h : Text)
    → All (λ c. (c == b'-') ≡ false) (canonicalize h)
      × All (λ c. is_upper c ≡ false) (canonicalize h)
      × (canonicalize (canonicalize h) ≡ canonicalize h)
unfolding canonicalize
canonicalize_lem h =
    let once = replace (codes "-inl.h") (codes ".h") h in
    let clean = lower-NoDash _ (replace-NoDash once) in
    (
      clean,
      lower-no_upper _,
      rw (replace_dash _ _ _ clean, replace_dash _ _ _ clean) (lower_idem _),
    )
