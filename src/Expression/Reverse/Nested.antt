-- ===== src/Expression/Reverse/Nested.antt =====
-- build_support/cpplint.py: the search backward on well-nested text, and both searches together.
use mathlib.Core.List.{reverse_aux}
use turtle.Common.{
  ℕ, suc, ◌+◌, ◌≡◌, refl, ap, sym, ◌∙◌, true, false, [], ◌∷◌, ◌++◌, ◌==◌, length, arith,
  append_assoc, drop-append, take-append, length-append,
}
use turtle.Common.Text.{Text}
use turtle.Expression.Grammar.{is_inert, Nested, nil, plain, wrap, push_all, push_all-append}
use turtle.Expression.{Brackets, is_close, pairs, at_position}
use turtle.Expression.Reverse.{
  go_on, close, start_turn, scan_start, find_start_of_expression_in_line,
}

inert_turn :
    (before : Text) (c : ℕ) (ahead : Text) (b : ℕ) (stack : Brackets)
    → is_inert c ≡ true
    → (b == b'>') ≡ false
    → start_turn before c ahead (b ∷ stack) ≡ go_on (b ∷ stack)
unfolding start_turn
inert_turn before c ahead b stack h k = ground arith

pairs_close : (o c : ℕ) → pairs o c ≡ true → (is_close c ≡ true) × ((c == b'>') ≡ false)
pairs_close o c h = ground arith

close_turn :
    (before : Text) (c : ℕ) (ahead : Text) (stack : Brackets)
    → is_close c ≡ true
    → start_turn before c ahead stack ≡ go_on (c ∷ stack)
unfolding start_turn
close_turn before c ahead stack h = rw h

open_turn :
    (before : Text) (o c : ℕ) (ahead : Text) (b : ℕ) (stack : Brackets)
    → pairs o c ≡ true
    → (start_turn before o ahead (c ∷ b ∷ stack) ≡ go_on (b ∷ stack))
      × (start_turn before o ahead (c ∷ []) ≡ close)
unfolding start_turn
open_turn before o c ahead b stack h = (ground arith, ground arith)

scan_start-go_on :
    (before : Text) (c : ℕ) (ahead : Text) (stack stack' : Brackets)
    → start_turn before c ahead stack ≡ go_on stack'
    → scan_start false (c ∷ before) ahead stack ≡ scan_start false before (c ∷ ahead) stack'
unfolding scan_start
scan_start-go_on before c ahead stack stack' h = rw (h, scan_start) refl

scan_start-close :
    (before : Text) (c : ℕ) (ahead : Text) (stack : Brackets)
    → start_turn before c ahead stack ≡ close
    → scan_start false (c ∷ before) ahead stack ≡ at_position (length before)
unfolding scan_start
scan_start-close before c ahead stack h = rw (h, scan_start) refl

scan_start-Nested :
    {s : Text} (n : Nested is_inert s) (before ahead : Text) (b : ℕ) (stack : Brackets)
    → (b == b'>') ≡ false
    → scan_start false (push_all before s) ahead (b ∷ stack)
      ≡ scan_start false before (s ++ ahead) (b ∷ stack)
scan_start-Nested nil before ahead b stack k = refl
scan_start-Nested (plain c {s = s} h n) before ahead b stack k =
    scan_start-Nested n (c ∷ before) ahead b stack k
    ∙ scan_start-go_on before c (s ++ ahead) _ _ (inert_turn before c (s ++ ahead) b stack h k)
scan_start-Nested (wrap o c {s = s} {t = t} h n m) before ahead b stack k =
    rw (push_all-append, append_assoc)
      (scan_start-Nested m _ ahead b stack k
        ∙ scan_start-go_on _ c (t ++ ahead) _ _ (close_turn _ c _ _ (pairs_close o c h).0)
        ∙ scan_start-Nested n (o ∷ before) (c ∷ (t ++ ahead)) c (b ∷ stack) (pairs_close o c h).1
        ∙ scan_start-go_on before o _ _ _ (open_turn before o c _ b stack h).0)

reverse_aux-push_all : (s before : Text) → reverse_aux s before ≡ push_all before s
reverse_aux-push_all [] before = refl
reverse_aux-push_all (c ∷ s) before = reverse_aux-push_all s (c ∷ before)

length-push_all : (s before : Text) → length (push_all before s) ≡ length before + length s
length-push_all [] before = omega arith
length-push_all (c ∷ s) before = omega (arith, length-push_all s (c ∷ before))

scan_start_nested :
    {s : Text} (n : Nested is_inert s) (pre : Text) (o c : ℕ) (ahead : Text)
    → pairs o c ≡ true
    → scan_start false (c ∷ push_all (o ∷ pre) s) ahead [] ≡ at_position (length pre)
scan_start_nested {s} n pre o c ahead h =
    scan_start-go_on _ c ahead _ _ (close_turn _ c ahead [] (pairs_close o c h).0)
    ∙ scan_start-Nested n (o ∷ pre) (c ∷ ahead) c [] (pairs_close o c h).1
    ∙ scan_start-close pre o _ _ (open_turn pre o c _ 0 [] h).1

-- The line up to the closing bracket, and where that stands.
regroup :
    (pre : Text) (o : ℕ) (s : Text) (c : ℕ) (rest : Text)
    → pre ++ o ∷ (s ++ c ∷ rest) ≡ (pre ++ o ∷ (s ++ c ∷ [])) ++ rest
regroup pre o s c rest =
    rw append_assoc (ap (λ t. pre ++ o ∷ t) (sym (append_assoc s (c ∷ []) rest)))

pub regroup_before :
    (pre : Text) (o : ℕ) (s : Text) (c : ℕ) (rest : Text)
    → pre ++ o ∷ (s ++ c ∷ rest) ≡ (pre ++ o ∷ s) ++ c ∷ rest
regroup_before pre o s c rest = sym (append_assoc pre (o ∷ s) (c ∷ rest))

length_upto :
    (pre : Text) (o : ℕ) (s : Text) (c : ℕ)
    → length (pre ++ o ∷ (s ++ c ∷ [])) ≡ suc (length pre + length s + 1)
length_upto pre o s c =
    omega (arith, length-append pre (o ∷ (s ++ c ∷ [])), length-append s (c ∷ []))

module _ {s : Text} (n : Nested is_inert s) (pre : Text) (o c : ℕ) (rest : Text)
    (h : pairs o c ≡ true) where
  -- Where a line holds a bracket, a well-nested text without angle brackets and the partner of the
  -- bracket, the search backward from the partner ends at the bracket.
  pub find_start_of_expression_in_line-Nested :
      find_start_of_expression_in_line
        (pre ++ o ∷ (s ++ c ∷ rest))
        (suc (length pre + length s + 1))
        []
      ≡ at_position (length pre)
  unfolding find_start_of_expression_in_line
  find_start_of_expression_in_line-Nested =
      rw
        (
          ← length_upto pre o s c,
          regroup pre o s c rest,
          take-append,
          drop-append,
          reverse_aux-push_all,
          push_all-append,
          push_all-append,
        )
        (scan_start_nested n (push_all [] pre) o c rest h
          ∙ ap at_position (omega (arith, length-push_all pre [])))
