-- ===== src/Expression/Grammar.antt =====
-- Well-nested text, the reference for the bracket searches of build_support/cpplint.py.
use turtle.Common.{
  ℕ, suc, ◌+◌, ◌≡◌, refl, Bool, true, false, not, ◌&&◌, ◌||◌, [], ◌∷◌, ◌++◌, ◌==◌, length, arith,
}
use turtle.Common.Text.{Text}
use turtle.Expression.{is_open, is_close, pairs}

-- A character that opens and closes nothing, reading forward; and in either direction.
abbrev pub is_plain : ℕ → Bool
is_plain c = not (is_open c || is_close c || c == b'<')

abbrev pub is_inert : ℕ → Bool
is_inert c = is_plain c && not (c == b'>')

-- Text in which every bracket is closed by its own partner, in order, and all else passes a test.
pub data Nested (test : ℕ → Bool) : Text → Type 0 where
  nil : Nested test []
  plain : (c : ℕ) {s : Text} → test c ≡ true → Nested test s → Nested test (c ∷ s)
  wrap :
      (o c : ℕ) {s t : Text}
      → pairs o c ≡ true
      → Nested test s
      → Nested test t
      → Nested test (o ∷ (s ++ c ∷ t))

pub inert-plain : {s : Text} → Nested is_inert s → Nested is_plain s
inert-plain nil = nil
inert-plain (plain c h n) = plain c (ground arith) (inert-plain n)
inert-plain (wrap o c h n m) = wrap o c h (inert-plain n) (inert-plain m)

pub pairs_open : (o c : ℕ) → pairs o c ≡ true → (is_open o ≡ true) × ((o == b'<') ≡ false)
pairs_open o c h = ground arith

-- Where the reading of a text ends, and what is behind then, nearest first.
abbrev pub advance : ℕ → Text → ℕ
advance i [] = i
advance i (c ∷ s) = advance (suc i) s

abbrev pub push_all : Text → Text → Text
push_all behind [] = behind
push_all behind (c ∷ s) = push_all (c ∷ behind) s

pub advance-length : (i : ℕ) (s : Text) → advance i s ≡ i + length s
advance-length i [] = omega arith
advance-length i (c ∷ s) = omega (arith, advance-length (suc i) s)

pub advance-append : (i : ℕ) (s t : Text) → advance i (s ++ t) ≡ advance (advance i s) t
advance-append i [] t = refl
advance-append i (c ∷ s) t = advance-append (suc i) s t

pub push_all-append :
    (behind s t : Text) → push_all behind (s ++ t) ≡ push_all (push_all behind s) t
push_all-append behind [] t = refl
push_all-append behind (c ∷ s) t = push_all-append (c ∷ behind) s t
