-- ===== src/Regex/Progress.antt =====
-- Python's `re`, as build_support/cpplint.py uses it: what a match consumes.
use turtle.Common.{
  ℕ, zero, suc, ◌+◌, ◌-◌, ◌≤◌, ◌≡◌, refl, ◌∙◌, ap, Bool, true, false, ◌&&◌, [], ◌∷◌, Option, none,
  some, ltb, if◌then◌else◌, length, take, arith, ◌⊎◌, inl, inr, Bool-cases,
}
use turtle.Common.Text.{Text}
use turtle.Regex.{
  Regex, empty, char, both, alt, many, lazy_many, group, word_edge, at_start, at_end, ahead,
  not_ahead, Cursor, Next, step, repeat, run,
}

-- The fewest characters of a match.
unfoldable pub width : Regex → ℕ
width (char p) = 1
width (both a b) = width a + width b
width (alt a b) = let w = width a in let v = width b in if ltb w v then w else v
width (group n a) = width a
width _ = 0

-- No groups.
unfoldable pub groupless : Regex → Bool
groupless (both a b) = groupless a && groupless b
groupless (alt a b) = groupless a && groupless b
groupless (many a) = groupless a
groupless (lazy_many a) = groupless a
groupless (group n a) = false
groupless _ = true

-- The cursor at which a matcher that succeeds hands over.
pub record Reach (w : ℕ) (fixed : Bool) (c : Cursor) (k : Next) (d : Cursor) : Type 0 where
  pub at : Cursor
  pub goes_on : k at ≡ some d
  pub consumed : length at.rest + w ≤ length c.rest
  pub same_groups : fixed ≡ true → at.groups ≡ c.groups

-- The matcher stays where it is.
stay : (c : Cursor) (k : Next) (d : Cursor) (fixed : Bool) → k c ≡ some d → Reach 0 fixed c k d
stay c k d fixed h = record { at = c; goes_on = h; consumed = omega arith; same_groups = λ _. refl }

abbrev Matcher : Type 0
Matcher = Cursor → Next → Option Cursor

or_else :
    (o p : Option Cursor) (d : Cursor)
    → elim o [ some e ↦ some e | none ↦ p ] ≡ some d
    → (o ≡ some d) ⊎ (p ≡ some d)
or_else none p d h = inr h
or_else (some e) p d h = inl h

-- One reach after another.
pub chain :
    {w v : ℕ} {fixed : Bool} (c : Cursor) (j k : Next) (d : Cursor)
    → Reach w fixed c j d
    → ((e : Cursor) → j e ≡ some d → Reach v fixed e k d)
    → Reach (w + v) fixed c k d
chain c j k d r f =
    let s = f r.at r.goes_on in
    record {
      at = s.at;
      goes_on = s.goes_on;
      consumed = omega (arith, r.consumed, s.consumed);
      same_groups = λ i. s.same_groups i ∙ r.same_groups i;
    }

when :
    (b : Bool) (o : Option Cursor) (d : Cursor)
    → elim b [ true ↦ o | false ↦ none ] ≡ some d
    → o ≡ some d
when true o d h = h
when false o d h = absurd (ground arith)

module _ (body : Matcher) (fixed : Bool) (greedy : Bool)
    (reach : (c : Cursor) (k : Next) (d : Cursor) → body c k ≡ some d → Reach 0 fixed c k d) where
  repeat-Reach :
      (fuel : ℕ) (c : Cursor) (k : Next) (d : Cursor)
      → repeat body greedy fuel c k ≡ some d
      → Reach 0 fixed c k d
  unfolding repeat
  repeat-Reach zero c k d h = stay c k d fixed h
  repeat-Reach (suc fuel) c k d h =
      let again : Next = λ e. elim (ltb (length e.rest) (length c.rest)) [
        | true ↦ repeat body greedy fuel e k
        | false ↦ none
      ] in
      let later : (e : Cursor) → again e ≡ some d → Reach 0 fixed e k d = λ e g.
        repeat-Reach fuel e k d
          (when (ltb (length e.rest) (length c.rest)) (repeat body greedy fuel e k) d g) in
      let rounds : body c again ≡ some d → Reach 0 fixed c k d =
        λ g. chain {w = 0} {v = 0} {fixed = fixed} c again k d (reach c again d g) later in
      elim greedy
          as (λ b.
            elim b [
              | true ↦ elim (body c again) [ some e ↦ some e | none ↦ k c ]
              | false ↦ elim (k c) [ some e ↦ some e | none ↦ body c again ]
            ]
              ≡ some d
            → Reach 0 fixed c k d) [
              | true ↦ λ g. elim (or_else (body c again) (k c) d g) [
                | inl i ↦ rounds i
                | inr i ↦ stay c k d fixed i
              ]
              | false ↦ λ g. elim (or_else (k c) (body c again) d g) [
                | inl i ↦ stay c k d fixed i
                | inr i ↦ rounds i
              ]
            ]
        h

pub both_true : (a b : Bool) → (a && b) ≡ true → (a ≡ true) × (b ≡ true)
both_true a b h = ground arith

pub weaken :
    {w v : ℕ} {f g : Bool} (c : Cursor) (k : Next) (d : Cursor)
    → v ≤ w
    → (g ≡ true → f ≡ true)
    → Reach w f c k d
    → Reach v g c k d
weaken c k d h i r = record {
  at = r.at;
  goes_on = r.goes_on;
  consumed = omega (arith, r.consumed, h);
  same_groups = λ j. r.same_groups (i j);
}

look :
    (b : Option Cursor) (c : Cursor) (k : Next) (d : Cursor) (f : Bool)
    → elim b [ some _ ↦ k c | none ↦ none ] ≡ some d
    → Reach 0 f c k d
look none c k d f h = absurd (ground arith)
look (some e) c k d f h = stay c k d f h

look_not :
    (b : Option Cursor) (c : Cursor) (k : Next) (d : Cursor) (f : Bool)
    → elim b [ some _ ↦ none | none ↦ k c ] ≡ some d
    → Reach 0 f c k d
look_not (some e) c k d f h = absurd (ground arith)
look_not none c k d f h = stay c k d f h

test_stay :
    (b : Bool) (c : Cursor) (k : Next) (d : Cursor) (f : Bool)
    → (if b then k c else none) ≡ some d
    → Reach 0 f c k d
test_stay false c k d f h = absurd (ground arith)
test_stay true c k d f h = stay c k d f h

step-Reach :
    (p : ℕ → Bool) (s : Text) (c : Cursor) (k : Next) (d : Cursor)
    → s ≡ c.rest
    → step p s c k ≡ some d
    → Reach 1 true c k d
step-Reach p [] c k d e h = absurd (ground (arith, h))
step-Reach p (x ∷ s) c k d e h = elim (Bool-cases (p x)) [
  | inl t ↦ record {
    at = record c { behind = x ∷ c.behind; rest = s };
    goes_on = rw t at h;
    consumed = let l = ap length e in omega (arith, l);
    same_groups = λ _. refl;
  }
  | inr t ↦ absurd (ground (arith, t, h))
]

-- A match consumes at least the width of its pattern, and keeps the groups where the pattern has
-- none.
pub run-Reach :
    (r : Regex) (c : Cursor) (k : Next) (d : Cursor)
    → run r c k ≡ some d
    → Reach (width r) (groupless r) c k d
unfolding run width groupless
run-Reach empty c k d h = stay c k d true h
run-Reach (char p) c k d h = step-Reach p c.rest c k d refl h
run-Reach (both a b) c k d h =
    chain {w = width a} {v = width b} {fixed = groupless a && groupless b} c (λ e. run b e k) k d
      (weaken {w = width a} {v = width a} {f = groupless a} {g = groupless a && groupless b} c
        (λ e. run b e k) d (omega arith) (λ i. (both_true _ _ i).0)
        (run-Reach a c (λ e. run b e k) d h))
      (λ e g.
        weaken {w = width b} {v = width b} {f = groupless b} {g = groupless a && groupless b} e k d
          (omega arith) (λ i. (both_true _ _ i).1) (run-Reach b e k d g))
run-Reach (alt a b) c k d h = elim (or_else (run a c k) (run b c k) d h) [
  | inl i ↦
      weaken {w = width a} c k d (ground arith) (λ j. (both_true _ _ j).0) (run-Reach a c k d i)
  | inr i ↦
      weaken {w = width b} c k d (ground arith) (λ j. (both_true _ _ j).1) (run-Reach b c k d i)
]
run-Reach (many a) c k d h =
    repeat-Reach (λ e j. run a e j) (groupless a) true
      (λ e j f g. weaken {w = width a} e j f (omega arith) (λ i. i) (run-Reach a e j f g))
      (length c.rest) c k d h
run-Reach (lazy_many a) c k d h =
    repeat-Reach (λ e j. run a e j) (groupless a) false
      (λ e j f g. weaken {w = width a} e j f (omega arith) (λ i. i) (run-Reach a e j f g))
      (length c.rest) c k d h
run-Reach (group n a) c k d h =
    let named : Cursor → Cursor =
      λ e. record e { groups = (n, take (length c.rest - length e.rest) c.rest) ∷ e.groups } in
    let r = run-Reach a c (λ e. k (named e)) d h in
    record {
      at = named r.at;
      goes_on = r.goes_on;
      consumed = r.consumed;
      same_groups = λ i. absurd (ground (arith, i));
    }
run-Reach word_edge c k d h = test_stay _ c k d true h
run-Reach at_start c k d h = test_stay _ c k d true h
run-Reach at_end c k d h = test_stay _ c k d true h
run-Reach (ahead a) c k d h = look (run a c some) c k d true h
run-Reach (not_ahead a) c k d h = look_not (run a c some) c k d true h
