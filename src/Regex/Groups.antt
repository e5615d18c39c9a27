-- ===== src/Regex/Groups.antt =====
-- Python's `re`, as build_support/cpplint.py uses it: what the groups of a sequence hold.
use turtle.Common.{
  ℕ, ◌+◌, ◌-◌, ◌≤◌, ◌≡◌, refl, ◌∙◌, sym, ap, true, ◌&&◌, List, [], ◌∷◌, ◌++◌, some, length, take,
  length-take, arith, some_injective,
}
use turtle.Common.Text.{Text}
use turtle.Regex.{Regex, group, seq, Cursor, Next, run}
use turtle.Regex.Progress.{width, groupless, Reach, chain, weaken, both_true, run-Reach}

-- Past the first part of a sequence.
pub seq_front :
    (as' bs : List Regex) (c : Cursor) (k : Next) (d : Cursor)
    → run (seq (as' ++ bs)) c k ≡ some d
    → Reach (width (seq as')) (groupless (seq as')) c (λ e. run (seq bs) e k) d
unfolding seq run width groupless
seq_front [] bs c k d h = record {
  at = c;
  goes_on = h;
  consumed = omega arith;
  same_groups = λ _. refl;
}
seq_front (a ∷ as') bs c k d h =
    let rest : Next = λ e. run (seq (as' ++ bs)) e k in
    chain {w = width a} {v = width (seq as')} {fixed = groupless a && groupless (seq as')} c rest
      (λ e. run (seq bs) e k) d
      (weaken {w = width a} {v = width a} {f = groupless a} {g = groupless a && groupless (seq as')}
        c rest d (omega arith) (λ i. (both_true (groupless a) (groupless (seq as')) i).0)
        (run-Reach a c rest d h))
      (λ e g.
        weaken {w = width (seq as')} {v = width (seq as')} {f = groupless (seq as')}
          {g = groupless a && groupless (seq as')} e (λ e. run (seq bs) e k) d (omega arith)
          (λ i. (both_true (groupless a) (groupless (seq as')) i).1) (seq_front as' bs e k d g))

-- Past a group of a sequence, whose text and what is left fit in what there was.
pub record Captured (n : ℕ) (bs : List Regex) (c : Cursor) (k : Next) (d : Cursor) : Type 0 where
  pub text : Text
  pub at : Cursor
  pub goes_on : run (seq bs) at k ≡ some d
  pub groups : at.groups ≡ (n, text) ∷ c.groups
  pub fits : length text + length at.rest ≤ length c.rest

pub seq_group :
    (n : ℕ) (a : Regex) (bs : List Regex) (c : Cursor) (k : Next) (d : Cursor)
    → groupless a ≡ true
    → run (seq (group n a ∷ bs)) c k ≡ some d
    → Captured n bs c k d
unfolding seq run
seq_group n a bs c k d free h =
    let text : Cursor → Text = λ e. take (length c.rest - length e.rest) c.rest in
    let named : Cursor → Cursor = λ e. record e { groups = (n, text e) ∷ e.groups } in
    let r = run-Reach a c (λ e. run (seq bs) (named e) k) d h in
    record {
      text = text r.at;
      at = named r.at;
      goes_on = r.goes_on;
      groups = ap (◌∷◌ (n, text r.at)) (r.same_groups free);
      fits = omega (arith, r.consumed, length-take (length c.rest - length r.at.rest) c.rest);
    }

-- At the end of a sequence.
pub seq_end :
    (bs : List Regex) (c d : Cursor)
    → groupless (seq bs) ≡ true
    → run (seq bs) c some ≡ some d
    → d.groups ≡ c.groups
seq_end bs c d free h =
    let r = run-Reach (seq bs) c some d h in
    ap (λ (e : Cursor). e.groups) (sym (some_injective r.goes_on)) ∙ r.same_groups free
