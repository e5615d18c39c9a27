-- ===== src/Expression/RoundTrip.antt =====
-- build_support/cpplint.py: `CloseExpression` and `ReverseCloseExpression` undo one another.
use turtle.Common.{
  ℕ, suc, ◌+◌, ◌≡◌, refl, true, List, ◌∷◌, ◌++◌, some, length, drop, arith, get_elem?-append,
  drop-append, length-append,
}
use turtle.Common.Text.{Text}
use turtle.Expression.Grammar.{is_inert, Nested, inert-plain}
use turtle.Expression.Nested.{close_expression-Nested}
use turtle.Expression.Reverse.Nested.{find_start_of_expression_in_line-Nested, regroup_before}
use turtle.Expression.Reverse.{reverse_close_expression, closes_expression}
use turtle.Expression.{pairs, close_expression}

closes_nested : (o c : ℕ) (rest : Text) → pairs o c ≡ true → closes_expression (c ∷ rest) ≡ true
closes_nested o c rest h = ground arith

length_before : (pre : Text) (o : ℕ) (s : Text) → length (pre ++ o ∷ s) ≡ length pre + length s + 1
length_before pre o s = omega (arith, length-append pre (o ∷ s))

drop_to_partner :
    (pre : Text) (o : ℕ) (s : Text) (c : ℕ) (rest : Text)
    → drop (length pre + length s + 1) (pre ++ o ∷ (s ++ c ∷ rest)) ≡ c ∷ rest
drop_to_partner pre o s c rest =
    rw (← length_before pre o s, regroup_before pre o s c rest)
      (drop-append (pre ++ o ∷ s) (c ∷ rest))

-- In a file whose line holds a bracket, a well-nested text without angle brackets and the partner
-- of the bracket, `CloseExpression` leads from the bracket to behind the partner, and
-- `ReverseCloseExpression` leads from the partner back to the bracket.
pub close-reverse_close :
    {s : Text} (n : Nested is_inert s) (before after : List Text) (pre : Text) (o c : ℕ)
    (rest : Text)
    → pairs o c ≡ true
    → (close_expression
          (before ++ (pre ++ o ∷ (s ++ c ∷ rest)) ∷ after)
          (length before)
          (length pre)
        ≡ record {
          line = pre ++ o ∷ (s ++ c ∷ rest);
          linenum = length before;
          position = some (suc (length pre + length s + 1));
        })
      × (reverse_close_expression
            (before ++ (pre ++ o ∷ (s ++ c ∷ rest)) ∷ after)
            (length before)
            (length pre + length s + 1)
          ≡ record {
            line = pre ++ o ∷ (s ++ c ∷ rest);
            linenum = length before;
            position = some (length pre);
          })
unfolding reverse_close_expression
close-reverse_close {s} n before after pre o c rest h =
    let e : suc (length pre + length s + 1) ≡ length pre + length s + 2 = omega arith in
    (
      rw e (close_expression-Nested (inert-plain n) before after pre o c rest h),
      rw
          (
            get_elem?-append before (pre ++ o ∷ (s ++ c ∷ rest)) after,
            drop_to_partner pre o s c rest,
            closes_nested o c rest h,
            find_start_of_expression_in_line-Nested n pre o c rest h,
          )
          refl,
    )
