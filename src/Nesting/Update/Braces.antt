-- ===== src/Nesting/Update/Braces.antt =====
-- build_support/cpplint.py: the loop over the braces in `NestingState.Update`.
use turtle.Common.{
  ℕ, ◌≡◌, refl, ◌∙◌, ap, sym, true, false, ◌||◌, [], ◌∷◌, ◌++◌, ◌==◌, arith, append_assoc,
  append-nil, ◌⊎◌, inl, inr, Bool-cases,
}
use turtle.Common.Text.{Text}
use turtle.Cleanse.{CleansedLines}
use turtle.Nesting.{BlockInfo, Stack, seen_open_brace}
use turtle.Nesting.Ends.{check_end}
use turtle.Nesting.Update.{
  end_mark, no_mark, mark_of, open_brace, end_head, close_brace, consume_braces, extern_pattern,
}
use turtle.Regex.{matches}

-- Text in which every brace is closed.
pub data Balanced : Text → Type 0 where
  nil : Balanced []
  other : (c : ℕ) {s : Text} → (c == b'{' || c == b'}') ≡ false → Balanced s → Balanced (c ∷ s)
  braces : {s t : Text} → Balanced s → Balanced t → Balanced (b'{' ∷ (s ++ b'}' ∷ t))

-- An opening brace where the innermost block's one has been seen pushes a block whose end is not
-- checked.
record Pushed (f : Text) (clean : CleansedLines) (n : ℕ) (stack pushed : Stack) : Type 0 where
  top : BlockInfo
  is_push : pushed ≡ top ∷ stack
  top_seen : top.seen_open_brace ≡ true
  no_report : check_end f clean n top ≡ []

open_brace-Pushed :
    (f : Text) (clean : CleansedLines) (n : ℕ) (line : Text) (stack : Stack)
    → seen_open_brace stack ≡ true
    → Pushed f clean n stack (open_brace n line stack)
unfolding open_brace seen_open_brace check_end
open_brace-Pushed f clean n line [] h = elim (Bool-cases (matches extern_pattern line)) [
  | inl e ↦ rw e (record { top = _; is_push = refl; top_seen = refl; no_report = refl })
  | inr e ↦ rw e (record { top = _; is_push = refl; top_seen = refl; no_report = refl })
]
open_brace-Pushed f clean n line (b ∷ stack) h =
    rw h (elim (Bool-cases (matches extern_pattern line)) [
      | inl e ↦ rw e (record { top = _; is_push = refl; top_seen = refl; no_report = refl })
      | inr e ↦ rw e (record { top = _; is_push = refl; top_seen = refl; no_report = refl })
    ])

mark_of-other :
    (c : ℕ) → (c == b'{' || c == b'}') ≡ false → (mark_of c ≡ end_mark) ⊎ (mark_of c ≡ no_mark)
unfolding mark_of
mark_of-other c h = elim (Bool-cases (c == b';' || c == b')')) [
  | inl e ↦ inl (ground arith)
  | inr e ↦ inr (ground arith)
]

end_head_seen : (stack : Stack) → seen_open_brace stack ≡ true → end_head stack ≡ stack
unfolding end_head seen_open_brace
end_head_seen [] h = refl
end_head_seen (b ∷ stack) h = rw h refl

seen_top :
    (b : BlockInfo) (stack : Stack) → b.seen_open_brace ≡ true → seen_open_brace (b ∷ stack) ≡ true
unfolding seen_open_brace
seen_top b stack h = h

module _ (f : Text) (clean : CleansedLines) (n : ℕ) where
  -- One character that is no brace.
  other_turn :
      (c : ℕ) (line rest : Text) (stack : Stack)
      → (c == b'{' || c == b'}') ≡ false
      → seen_open_brace stack ≡ true
      → (line' : Text) × (consume_braces f clean n line (c ∷ rest) stack
          ≡ consume_braces f clean n line' rest stack)
  unfolding consume_braces
  other_turn c line rest stack e h = elim (mark_of-other c e) [
    | inl m ↦ (
      rest,
      rw (m, consume_braces)
          (ap (λ t. consume_braces f clean n rest rest t) (end_head_seen stack h)),
    )
    | inr m ↦ (line, rw (m, consume_braces) refl)
  ]

  open_turn :
      (line rest : Text) (stack : Stack)
      → consume_braces f clean n line (b'{' ∷ rest) stack
        ≡ consume_braces f clean n rest rest (open_brace n line stack)
  unfolding consume_braces mark_of
  open_turn line rest stack = refl

  close_turn :
      (line rest : Text) (b : BlockInfo) (stack : Stack)
      → check_end f clean n b ≡ []
      → consume_braces f clean n line (b'}' ∷ rest) (b ∷ stack)
        ≡ consume_braces f clean n rest rest stack
  unfolding consume_braces mark_of close_brace
  close_turn line rest b stack h = rw h refl

  pub consume_braces-Balanced :
      {s : Text} (d : Balanced s) (line rest : Text) (stack : Stack)
      → seen_open_brace stack ≡ true
      → (line' : Text) × (consume_braces f clean n line (s ++ rest) stack
          ≡ consume_braces f clean n line' rest stack)
  consume_braces-Balanced nil line rest stack h = (line, refl)
  consume_braces-Balanced (other c {s = s} e d) line rest stack h =
      let (line', p) = other_turn c line (s ++ rest) stack e h in
      let (line'', q) = consume_braces-Balanced d line' rest stack h in (line'', p ∙ q)
  consume_braces-Balanced (braces {s = s} {t = t} d e) line rest stack h =
      let inner = s ++ b'}' ∷ (t ++ rest) in
      let p = open_brace-Pushed f clean n line stack h in
      let (line', q) =
        consume_braces-Balanced d inner (b'}' ∷ (t ++ rest)) (p.top ∷ stack)
          (seen_top p.top stack p.top_seen) in
      let (line'', r) = consume_braces-Balanced e (t ++ rest) rest stack h in
      (
        line'',
        rw append_assoc (
            open_turn line inner stack
            ∙ rw p.is_push q
            ∙ close_turn line' (t ++ rest) p.top stack p.no_report
            ∙ r),
      )

-- Over text in which every brace is closed, whatever else stands in it, the loop over the braces
-- leaves the stack as it was and reports nothing, where the innermost block's brace has been seen.
pub consume_braces_balanced :
    (f : Text) (clean : CleansedLines) (n : ℕ) {s : Text} (d : Balanced s) (line : Text)
    (stack : Stack)
    → seen_open_brace stack ≡ true
    → consume_braces f clean n line s stack ≡ (stack, [])
unfolding consume_braces
consume_braces_balanced f clean n {s = s} d line stack h =
    let (line', p) = consume_braces-Balanced f clean n d line [] stack h in
    ap (λ t. consume_braces f clean n line t stack) (sym (append-nil s)) ∙ p
