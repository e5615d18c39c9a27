-- ===== src/Cleanse/Pass/Rounds.antt =====
-- build_support/cpplint.py: the rounds of `RemoveMultiLineComments` are the pass over the lines.
use turtle.Common.{
  ℕ, suc, ◌+◌, ◌<◌, ◌≤◌, ◌≡◌, ◌≢◌, refl, ◌∙◌, sym, ap, true, false, List, [], ◌∷◌, ◌++◌, map, ltb,
  length, length-append, All, arith, ◌⊎◌, inl, inr, append_assoc,
}
use turtle.Common.Text.{Text, codes}
use turtle.Cleanse.Pass.{
  one_pass, ends_inside, blank, Fails, hit_or_none, one_pass_outside, one_pass_inside, unclosed,
  one_pass_opens, start_hit, end_none, end_hit,
}
use turtle.Cleanse.Comments.{
  opens_comment, closes_comment, find_next_multi_line_comment_start,
  find_next_multi_line_comment_end, remove_multi_line_comments_from_range, remove_rounds,
}

-- The lines from a comment on: what is in front, the comment, and what is behind.
pub record Comment (rest : List Text) : Type 0 where
  pub front : List Text
  pub comment : List Text
  pub behind : List Text
  pub is_rest : rest ≡ front ++ (comment ++ behind)
  pub starts :
      (pre : List Text)
      → find_next_multi_line_comment_start (pre ++ rest) (length pre) ≡ length pre + length front
  pub ends :
      (pre : List Text)
      → find_next_multi_line_comment_end (pre ++ rest) (length pre + length front) + 1
        ≡ length pre + length front + length comment
  pub passed : one_pass false rest ≡ front ++ (map blank comment ++ one_pass false behind)
  pub state : ends_inside false rest ≡ ends_inside false behind
  pub nonempty : 0 < length comment

-- The lines from a comment on that is not closed.
pub record Open (rest : List Text) : Type 0 where
  pub front : List Text
  pub shorter : length front < length rest
  pub starts :
      (pre : List Text)
      → find_next_multi_line_comment_start (pre ++ rest) (length pre) ≡ length pre + length front
  pub ends :
      (pre : List Text)
      → find_next_multi_line_comment_end (pre ++ rest) (length pre + length front)
        ≡ length pre + length rest
  pub state : ends_inside false rest ≡ true

map-append : (c : List Text) (d : Text) → map blank (c ++ d ∷ []) ≡ map blank c ++ codes "/**/" ∷ []
unfolding blank
map-append [] d = refl
map-append (x ∷ c) d = ap (◌∷◌ (codes "/**/")) (map-append c d)

end_behind :
    (pre a rest : List Text)
    → find_next_multi_line_comment_end (pre ++ (a ++ rest)) (length pre + length a)
      ≡ find_next_multi_line_comment_end ((pre ++ a) ++ rest) (length (pre ++ a))
end_behind pre a rest = rw (append_assoc pre a rest, length-append pre a) refl

ends_here :
    (pre a w c : List Text) (d : Text) (e : List Text)
    → w ≡ c ++ d ∷ e
    → All (Fails closes_comment) c
    → closes_comment d ≡ true
    → find_next_multi_line_comment_end (pre ++ (a ++ w)) (length pre + length a) + 1
      ≡ length pre + length a + length (c ++ d ∷ [])
ends_here pre a w c d e hs hc hd =
    let found = end_hit (pre ++ a) c d e hc hd in
    rw hs (
      omega (
        arith,
        end_behind pre a (c ++ d ∷ e),
        found,
        length-append pre a,
        length-append c (d ∷ []),
      ))

closed_here :
    (a : List Text) (line : Text) (b c : List Text) (d : Text) (e : List Text)
    → All (Fails opens_comment) a
    → opens_comment line ≡ true
    → line ∷ b ≡ c ++ d ∷ e
    → All (Fails closes_comment) c
    → closes_comment d ≡ true
    → Comment (a ++ line ∷ b)
closed_here a line b c d e ha hl hs hc hd = record {
  front = a;
  comment = c ++ d ∷ [];
  behind = e;
  is_rest = ap (λ r. a ++ r) (hs ∙ sym (append_assoc c (d ∷ []) e));
  starts = λ pre. start_hit pre a line b ha hl;
  ends = λ pre. ends_here pre a (line ∷ b) c d e hs hc hd;
  passed =
      (one_pass_outside a (line ∷ b) ha).0
      ∙ ap (λ r. a ++ r)
          ((one_pass_opens line b hl).0
            ∙ ap (one_pass true) hs
            ∙ (one_pass_inside c d e hc hd).0
            ∙ sym (append_assoc (map blank c) (codes "/**/" ∷ []) (one_pass false e))
            ∙ ap (λ r. r ++ one_pass false e) (sym (map-append c d)));
  state =
      (one_pass_outside a (line ∷ b) ha).1
      ∙ (one_pass_opens line b hl).1
      ∙ ap (ends_inside true) hs
      ∙ (one_pass_inside c d e hc hd).1;
  nonempty = omega (arith, length-append c (d ∷ []));
}

unclosed_here :
    (a : List Text) (line : Text) (b : List Text)
    → All (Fails opens_comment) a
    → opens_comment line ≡ true
    → All (Fails closes_comment) (line ∷ b)
    → Open (a ++ line ∷ b)
unclosed_here a line b ha hl hc = record {
  front = a;
  shorter = omega (arith, length-append a (line ∷ b));
  starts = λ pre. start_hit pre a line b ha hl;
  ends = λ pre. omega (
    arith,
    end_behind pre a (line ∷ b),
    end_none (pre ++ a) (line ∷ b) hc,
    length-append pre a,
    length-append a (line ∷ b),
  );
  state =
      (one_pass_outside a (line ∷ b) ha).1 ∙ (one_pass_opens line b hl).1 ∙ unclosed (line ∷ b) hc;
}

pub rest_cases : (rest : List Text) → All (Fails opens_comment) rest ⊎ (Open rest ⊎ Comment rest)
rest_cases rest = elim (hit_or_none opens_comment rest) [
  | inl h ↦ inl h
  | inr s ↦ elim (hit_or_none closes_comment (s.hit ∷ s.behind)) [
    | inl h ↦ inr (inl (rw s.is_split (unclosed_here s.front s.hit s.behind s.fail s.pass h)))
    | inr t ↦ inr (
        inr (
          rw s.is_split (
            closed_here s.front s.hit s.behind t.front t.hit t.behind s.fail s.pass t.is_split
              t.fail t.pass)))
  ]
]

-- The three ways of a round.
module _ (fuel : ℕ) (f : Text) (lines : List Text) (ix : ℕ) where
  pub round_stops :
      length lines ≤ find_next_multi_line_comment_start lines ix
      → remove_rounds (suc fuel) f lines ix ≡ (lines, [])
  unfolding remove_rounds
  round_stops h =
      let t : ltb (find_next_multi_line_comment_start lines ix) (length lines) ≡ false =
        ground arith in
      rw (t, remove_rounds) refl

  pub round_fails :
      find_next_multi_line_comment_start lines ix < length lines
      → length lines
        ≤ find_next_multi_line_comment_end lines (find_next_multi_line_comment_start lines ix)
      → (remove_rounds (suc fuel) f lines ix).1 ≢ []
  unfolding remove_rounds
  round_fails g h =
      let t : ltb (find_next_multi_line_comment_start lines ix) (length lines) ≡ true =
        ground arith in
      let u : ltb
            (find_next_multi_line_comment_end lines (find_next_multi_line_comment_start lines ix))
            (length lines)
          ≡ false =
        ground arith in
      rw (t, u, remove_rounds) (λ e. ground arith)

  pub round_blanks :
      (end : ℕ)
      → find_next_multi_line_comment_start lines ix < length lines
      → find_next_multi_line_comment_end lines (find_next_multi_line_comment_start lines ix) + 1
        ≡ end
      → end ≤ length lines
      → remove_rounds (suc fuel) f lines ix
        ≡ remove_rounds fuel f
            (remove_multi_line_comments_from_range lines
              (find_next_multi_line_comment_start lines ix)
              end)
            end
  unfolding remove_rounds
  round_blanks end g h i =
      let t : ltb (find_next_multi_line_comment_start lines ix) (length lines) ≡ true =
        ground arith in
      let u : ltb
            (find_next_multi_line_comment_end lines (find_next_multi_line_comment_start lines ix))
            (length lines)
          ≡ true =
        ground arith in
      rw (t, u, h, remove_rounds) refl
