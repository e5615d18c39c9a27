-- ===== src/Nesting/Completed.antt =====
-- build_support/cpplint.py: what `CheckCompletedBlocks` makes of the blocks that the file leaves
-- open.
use turtle.Common.{
  ℕ, ◌≡◌, refl, ◌∙◌, sym, ap, Bool, true, false, ◌||◌, ◌&&◌, List, [], ◌∷◌, ◌++◌, arith,
  append_assoc, pos, any, append-nil, Option, none, some, ℤ, negsuc, ◌==◌, some_injective,
}
use turtle.Common.Text.{Text, codes, eq_text, eq_text_iff}
use turtle.Report.{Report, report}
use turtle.Nesting.{
  BlockInfo, Stack, Kind, block, extern_c, class_info, namespace_info, incomplete,
  check_completed_blocks,
}

-- The outer blocks are reported first.
pub check_completed_blocks-append :
    (f : Text) (inner outer : Stack)
    → check_completed_blocks f (inner ++ outer)
      ≡ check_completed_blocks f outer ++ check_completed_blocks f inner
unfolding check_completed_blocks
check_completed_blocks-append f [] outer = sym (append-nil _)
check_completed_blocks-append f (b ∷ inner) outer =
    ap (λ (rs : List Report). rs ++ incomplete f b) (check_completed_blocks-append f inner outer)
    ∙ append_assoc (check_completed_blocks f outer) (check_completed_blocks f inner)
        (incomplete f b)

any-append : (p : Report → Bool) (xs ys : List Report) → any p (xs ++ ys) ≡ (any p xs || any p ys)
any-append p [] ys = refl
any-append p (x ∷ xs) ys = ground (arith, any-append p xs ys)

-- The category under which a block is reported.
abbrev pub unfinished : Kind → Option Text
unfinished block = none
unfinished extern_c = none
unfinished (class_info c) = some (codes "build/class")
unfinished (namespace_info name) = some (codes "build/namespaces")

abbrev pub is_at : ℕ → ℤ → Bool
is_at n (pos m) = n == m
is_at n (negsuc m) = false

-- A report on the block: at the line where it starts, under its category, with full confidence.
abbrev pub is_on : Text → BlockInfo → Text → Report → Bool
is_on f b category r =
    eq_text r.filename f
    && is_at b.starting_linenum r.linenum
    && eq_text r.category category
    && r.confidence == 5

eq_text_refl : (s : Text) → eq_text s s ≡ true
eq_text_refl s = (eq_text_iff s s).1 refl

reported :
    (f : Text) (n : ℕ) (c m : Text) (b : BlockInfo)
    → b.starting_linenum ≡ n
    → is_on f b c (report f n c 5 m) ≡ true
reported f n c m b h = ground (arith, eq_text_refl f, eq_text_refl c)

incomplete-is_on :
    (f : Text) (b : BlockInfo) (category : Text)
    → unfinished b.kind ≡ some category
    → any (is_on f b category) (incomplete f b) ≡ true
unfolding incomplete
incomplete-is_on f b category h =
    elim b.kind
        as (λ k.
          unfinished k ≡ some category
          → any (is_on f b category) (incomplete f (record b { kind = k })) ≡ true) [
            | block ↦ λ e. absurd (cc)
            | extern_c ↦ λ e. absurd (cc)
            | class_info c ↦ λ e.
                rw (← some_injective e)
                  (ground (arith, reported f b.starting_linenum (codes "build/class") _ b refl))
            | namespace_info name ↦ λ e.
                rw (← some_injective e) (
                  ground (arith, reported f b.starting_linenum (codes "build/namespaces") _ b refl))
          ]
      h

front_is_on :
    (f : Text) (outer : Stack) (b : BlockInfo) (category : Text)
    → unfinished b.kind ≡ some category
    → any (is_on f b category) (check_completed_blocks f (b ∷ outer)) ≡ true
unfolding check_completed_blocks
front_is_on f outer b category h = ground (
  arith,
  any-append (is_on f b category) (check_completed_blocks f outer) (incomplete f b),
  incomplete-is_on f b category h,
)

-- A class or a namespace that is on the stack when the file ends is reported, whatever is around it.
pub check_completed_blocks-is_on :
    (f : Text) (inner outer : Stack) (b : BlockInfo) (category : Text)
    → unfinished b.kind ≡ some category
    → any (is_on f b category) (check_completed_blocks f (inner ++ (b ∷ outer))) ≡ true
check_completed_blocks-is_on f inner outer b category h =
    let p = is_on f b category in
    rw (check_completed_blocks-append f inner (b ∷ outer)) (
      ground (
        arith,
        any-append p (check_completed_blocks f (b ∷ outer)) (check_completed_blocks f inner),
        front_is_on f outer b category h,
      ))
