-- ===== src/Cleanse/Pass.antt =====
-- build_support/cpplint.py: `RemoveMultiLineComments` against a pass over the lines.
pub mod Rounds
pub mod Result
use turtle.Common.{
  ℕ, zero, suc, ◌+◌, ◌<◌, ◌≡◌, ◌≢◌, refl, ◌∙◌, sym, ap, Bool, true, false, not, List, [], ◌∷◌, ◌++◌,
  map, ltb, if◌then◌else◌, length, drop, drop-append, length-append, length-map, All, arith, ◌⊎◌,
  inl, inr, Bool-cases, append_assoc, append-nil,
}
use turtle.Common.Text.{Text, codes}
use turtle.Cleanse.Comments.{
  opens_comment, closes_comment, first_from, find_next_multi_line_comment_start,
  find_next_multi_line_comment_end, remove_multi_line_comments_from_range, remove_rounds,
  remove_multi_line_comments,
}

-- The pass: is a comment open, line by line. A line with a part of a multi-line comment is
-- blanked, the first and the last one included.
unfoldable pub one_pass : Bool → List Text → List Text
one_pass inside [] = []
one_pass true (line ∷ lines) = codes "/**/" ∷ one_pass (not (closes_comment line)) lines
one_pass false (line ∷ lines) =
    let blanked = codes "/**/" ∷ one_pass (not (closes_comment line)) lines in
    let kept = line ∷ one_pass false lines in if opens_comment line then blanked else kept

-- Is a comment open behind the lines.
unfoldable pub ends_inside : Bool → List Text → Bool
ends_inside inside [] = inside
ends_inside true (line ∷ lines) = ends_inside (not (closes_comment line)) lines
ends_inside false (line ∷ lines) =
    let opened = ends_inside (not (closes_comment line)) lines in
    let outside = ends_inside false lines in if opens_comment line then opened else outside

pub blank : Text → Text
blank _ = codes "/**/"

pub Fails : (Text → Bool) → Text → Type 0
Fails p line = p line ≡ false

-- Lines none of which passes a test, or the first one that does.
pub record Split (p : Text → Bool) (lines : List Text) : Type 0 where
  pub front : List Text
  pub hit : Text
  pub behind : List Text
  pub is_split : lines ≡ front ++ hit ∷ behind
  pub fail : All (Fails p) front
  pub pass : p hit ≡ true

pub hit_or_none : (p : Text → Bool) (lines : List Text) → All (Fails p) lines ⊎ Split p lines
unfolding Fails
hit_or_none p [] = inl tt
hit_or_none p (line ∷ lines) = elim (Bool-cases (p line)) [
  | inl h ↦
      inr (record { front = []; hit = line; behind = lines; is_split = refl; fail = tt; pass = h })
  | inr h ↦ elim (hit_or_none p lines) [
    | inl a ↦ inl (h, a)
    | inr s ↦ inr (record {
      front = line ∷ s.front;
      hit = s.hit;
      behind = s.behind;
      is_split = ap (◌∷◌ line) s.is_split;
      fail = (h, s.fail);
      pass = s.pass;
    })
  ]
]

first_from_none :
    (p : Text → Bool) (a : List Text) (ix : ℕ) → All (Fails p) a → first_from p a ix ≡ ix + length a
unfolding first_from Fails
first_from_none p [] ix h = omega arith
first_from_none p (line ∷ a) ix (h, hs) = rw h (first_from_none p a (suc ix) hs ∙ omega arith)

first_from_hit :
    (p : Text → Bool) (a : List Text) (line : Text) (b : List Text) (ix : ℕ)
    → All (Fails p) a
    → p line ≡ true
    → first_from p (a ++ line ∷ b) ix ≡ ix + length a
unfolding first_from Fails
first_from_hit p [] line b ix h g = rw g (omega arith)
first_from_hit p (x ∷ a) line b ix (h, hs) g =
    rw h (first_from_hit p a line b (suc ix) hs g ∙ omega arith)

range_blank_here :
    (c e : List Text)
    → remove_multi_line_comments_from_range (c ++ e) 0 (length c) ≡ map blank c ++ e
unfolding remove_multi_line_comments_from_range blank
range_blank_here [] [] = refl
range_blank_here [] (x ∷ e) = refl
range_blank_here (x ∷ c) e = ap (◌∷◌ (codes "/**/")) (range_blank_here c e)

pub range_blank :
    (pre c e : List Text) (n : ℕ)
    → n ≡ length pre + length c
    → remove_multi_line_comments_from_range (pre ++ (c ++ e)) (length pre) n
      ≡ pre ++ (map blank c ++ e)
unfolding remove_multi_line_comments_from_range
range_blank [] c e n h = let i : n ≡ length c = omega (arith, h) in rw i (range_blank_here c e)
range_blank (x ∷ pre) c e zero h = absurd (omega (arith, h))
range_blank (x ∷ pre) c e (suc n) h = ap (◌∷◌ x) (range_blank pre c e n (omega (arith, h)))

pub one_pass_outside :
    (a r : List Text)
    → All (Fails opens_comment) a
    → (one_pass false (a ++ r) ≡ a ++ one_pass false r)
      × (ends_inside false (a ++ r) ≡ ends_inside false r)
unfolding one_pass ends_inside Fails
one_pass_outside [] r h = (refl, refl)
one_pass_outside (x ∷ a) r (h, hs) =
    let (p, q) = one_pass_outside a r hs in (rw h (ap (◌∷◌ x) p), rw h q)

pub one_pass_inside :
    (c : List Text) (d : Text) (e : List Text)
    → All (Fails closes_comment) c
    → closes_comment d ≡ true
    → (one_pass true (c ++ d ∷ e) ≡ map blank c ++ codes "/**/" ∷ one_pass false e)
      × (ends_inside true (c ++ d ∷ e) ≡ ends_inside false e)
unfolding one_pass ends_inside blank Fails
one_pass_inside [] d e h g = (rw (g, one_pass) refl, rw (g, ends_inside) refl)
one_pass_inside (x ∷ c) d e (h, hs) g =
    let (p, q) = one_pass_inside c d e hs g in
    (rw (h, one_pass) (ap (◌∷◌ (codes "/**/")) p), rw (h, ends_inside) q)

pub unclosed : (c : List Text) → All (Fails closes_comment) c → ends_inside true c ≡ true
unfolding ends_inside Fails
unclosed [] h = refl
unclosed (x ∷ c) (h, hs) = rw h (unclosed c hs)

pub one_pass_opens :
    (line : Text) (b : List Text)
    → opens_comment line ≡ true
    → (one_pass false (line ∷ b) ≡ one_pass true (line ∷ b))
      × (ends_inside false (line ∷ b) ≡ ends_inside true (line ∷ b))
unfolding one_pass ends_inside
one_pass_opens line b h = (rw h refl, rw h refl)

-- What the two searches find from the end of `pre` on.
pub start_none :
    (pre rest : List Text)
    → All (Fails opens_comment) rest
    → find_next_multi_line_comment_start (pre ++ rest) (length pre) ≡ length pre + length rest
unfolding find_next_multi_line_comment_start
start_none pre rest h =
    rw (drop-append pre rest) (first_from_none opens_comment rest (length pre) h)

pub start_hit :
    (pre a : List Text) (line : Text) (b : List Text)
    → All (Fails opens_comment) a
    → opens_comment line ≡ true
    → find_next_multi_line_comment_start (pre ++ (a ++ line ∷ b)) (length pre)
      ≡ length pre + length a
unfolding find_next_multi_line_comment_start
start_hit pre a line b h g =
    rw (drop-append pre (a ++ line ∷ b)) (first_from_hit opens_comment a line b (length pre) h g)

pub end_none :
    (pre rest : List Text)
    → All (Fails closes_comment) rest
    → find_next_multi_line_comment_end (pre ++ rest) (length pre) ≡ length pre + length rest
unfolding find_next_multi_line_comment_end
end_none pre rest h = rw (drop-append pre rest) (first_from_none closes_comment rest (length pre) h)

pub end_hit :
    (pre a : List Text) (line : Text) (b : List Text)
    → All (Fails closes_comment) a
    → closes_comment line ≡ true
    → find_next_multi_line_comment_end (pre ++ (a ++ line ∷ b)) (length pre) ≡ length pre + length a
unfolding find_next_multi_line_comment_end
end_hit pre a line b h g =
    rw (drop-append pre (a ++ line ∷ b)) (first_from_hit closes_comment a line b (length pre) h g)
