-- ===== src/Cleanse/Pass/Result.antt =====
-- build_support/cpplint.py: what `RemoveMultiLineComments` makes of the lines.
use turtle.Common.{
  ℕ, zero, suc, ◌+◌, ◌<◌, ◌≤◌, ◌≡◌, ◌≢◌, refl, ◌∙◌, sym, ap, true, false, List, [], ◌++◌, map,
  length, length-append, length-map, All, arith, inl, inr, append_assoc, append-nil,
}
use turtle.Common.Text.{Text}
use turtle.Cleanse.Pass.{
  one_pass, ends_inside, blank, Fails, range_blank, one_pass_outside, start_none,
}
use turtle.Cleanse.Pass.Rounds.{Comment, rest_cases, round_stops, round_fails, round_blanks}
use turtle.Cleanse.Comments.{
  opens_comment, find_next_multi_line_comment_start, remove_multi_line_comments_from_range,
  remove_rounds, remove_multi_line_comments,
}

one_pass_clean :
    (rest : List Text)
    → All (Fails opens_comment) rest
    → (one_pass false rest ≡ rest) × (ends_inside false rest ≡ false)
unfolding one_pass ends_inside
one_pass_clean rest h =
    let (p, q) = one_pass_outside rest [] h in
    (
      ap (one_pass false) (sym (append-nil rest)) ∙ p ∙ append-nil rest,
      ap (ends_inside false) (sym (append-nil rest)) ∙ q,
    )

behind_shorter :
    (rest : List Text) (c : Comment rest) (fuel : ℕ)
    → length rest < suc fuel
    → length c.behind < fuel
behind_shorter rest c fuel h =
    let whole : length rest ≡ length (c.front ++ (c.comment ++ c.behind)) = ap length c.is_rest in
    omega (
      arith,
      h,
      whole,
      c.nonempty,
      length-append c.front (c.comment ++ c.behind),
      length-append c.comment c.behind,
    )

start_clean :
    (pre rest : List Text)
    → All (Fails opens_comment) rest
    → length (pre ++ rest) ≤ find_next_multi_line_comment_start (pre ++ rest) (length pre)
start_clean pre rest h = omega (arith, start_none pre rest h, length-append pre rest)

blanked :
    (pre rest : List Text) (c : Comment rest)
    → remove_multi_line_comments_from_range
        (pre ++ rest)
        (length pre + length c.front)
        (length pre + length c.front + length c.comment)
      ≡ ((pre ++ c.front) ++ map blank c.comment) ++ c.behind
blanked pre rest c =
    let split : pre ++ rest ≡ (pre ++ c.front) ++ (c.comment ++ c.behind) =
      ap (λ r. pre ++ r) c.is_rest ∙ sym (append_assoc pre c.front (c.comment ++ c.behind)) in
    rw (split, ← length-append pre c.front)
      (range_blank (pre ++ c.front) c.comment c.behind (length (pre ++ c.front) + length c.comment)
          refl
        ∙ sym (append_assoc (pre ++ c.front) (map blank c.comment) c.behind))

module _ (f : Text) where
  -- A round over a comment, by what is left behind it.
  round_comment :
      (fuel : ℕ) (pre rest : List Text) (c : Comment rest)
      → remove_rounds (suc fuel) f (pre ++ rest) (length pre)
        ≡ remove_rounds fuel f
            (((pre ++ c.front) ++ map blank c.comment) ++ c.behind)
            (length ((pre ++ c.front) ++ map blank c.comment))
  round_comment fuel pre rest c =
      let whole : length rest ≡ length (c.front ++ (c.comment ++ c.behind)) = ap length c.is_rest in
      let end = length pre + length c.front + length c.comment in
      let found = c.starts pre in
      let inside : end ≤ length (pre ++ rest) = omega (
        arith,
        whole,
        length-append pre rest,
        length-append c.front (c.comment ++ c.behind),
        length-append c.comment c.behind,
      ) in
      round_blanks fuel f (pre ++ rest) (length pre) end (omega (arith, found, inside, c.nonempty))
        (rw found (c.ends pre)) inside
      ∙ ap
          (λ k.
            remove_rounds fuel f (remove_multi_line_comments_from_range (pre ++ rest) k end) end)
          found
      ∙ ap (λ r. remove_rounds fuel f r end) (blanked pre rest c)
      ∙ ap (λ n. remove_rounds fuel f (((pre ++ c.front) ++ map blank c.comment) ++ c.behind) n)
          (omega (
            arith,
            length-append (pre ++ c.front) (map blank c.comment),
            length-append pre c.front,
            length-map c.comment blank,
          ))

  rounds_closed :
      (fuel : ℕ) (pre rest : List Text)
      → length rest < fuel
      → ends_inside false rest ≡ false
      → remove_rounds fuel f (pre ++ rest) (length pre) ≡ (pre ++ one_pass false rest, [])
  rounds_closed zero pre rest h g = absurd (omega (arith, h))
  rounds_closed (suc fuel) pre rest h g = elim (rest_cases rest) [
    | inl a ↦
        round_stops fuel f (pre ++ rest) (length pre) (start_clean pre rest a)
        ∙ ap (λ r. (pre ++ r, [])) (sym (one_pass_clean rest a).0)
    | inr (inl o) ↦ absurd (ground (arith, g, o.state))
    | inr (inr c) ↦
        let later =
          rounds_closed fuel ((pre ++ c.front) ++ map blank c.comment) c.behind
            (behind_shorter rest c fuel h) (sym c.state ∙ g) in
        round_comment fuel pre rest c
        ∙ later
        ∙ ap (λ r. (r, []))
            (append_assoc (pre ++ c.front) (map blank c.comment) (one_pass false c.behind)
              ∙ append_assoc pre c.front (map blank c.comment ++ one_pass false c.behind)
              ∙ ap (λ r. pre ++ r) (sym c.passed))
  ]

  rounds_open :
      (fuel : ℕ) (pre rest : List Text)
      → length rest < fuel
      → ends_inside false rest ≡ true
      → (remove_rounds fuel f (pre ++ rest) (length pre)).1 ≢ []
  rounds_open zero pre rest h g = absurd (omega (arith, h))
  rounds_open (suc fuel) pre rest h g = elim (rest_cases rest) [
    | inl a ↦ absurd (ground (arith, g, (one_pass_clean rest a).1))
    | inr (inl o) ↦
        round_fails fuel f (pre ++ rest) (length pre)
          (omega (arith, o.starts pre, o.shorter, length-append pre rest))
          (rw (o.starts pre) (omega (arith, o.ends pre, length-append pre rest)))
    | inr (inr c) ↦ rw (round_comment fuel pre rest c) (
        rounds_open fuel ((pre ++ c.front) ++ map blank c.comment) c.behind
          (behind_shorter rest c fuel h) (sym c.state ∙ g))
  ]

-- Where no comment is open behind the last line, the lines come out as those of the pass, which
-- blanks every line with a part of a multi-line comment and keeps the others, and nothing is
-- reported.
pub remove_multi_line_comments-one_pass :
    (f : Text) (lines : List Text)
    → ends_inside false lines ≡ false
    → remove_multi_line_comments f lines ≡ (one_pass false lines, [])
unfolding remove_multi_line_comments
remove_multi_line_comments-one_pass f lines h =
    rounds_closed f (suc (length lines)) [] lines (omega arith) h

-- Where a comment is open behind the last line, something is reported.
pub remove_multi_line_comments_unclosed :
    (f : Text) (lines : List Text)
    → ends_inside false lines ≡ true
    → (remove_multi_line_comments f lines).1 ≢ []
unfolding remove_multi_line_comments
remove_multi_line_comments_unclosed f lines h =
    rounds_open f (suc (length lines)) [] lines (omega arith) h
