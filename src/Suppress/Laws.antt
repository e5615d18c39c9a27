-- ===== src/Suppress/Laws.antt =====
-- build_support/cpplint.py: what the NOLINT table suppresses after each of its operations.
use turtle.Common.{
  ℕ, ◌≡◌, refl, ◌∙◌, Bool, true, false, ◌&&◌, ◌||◌, List, [], ◌∷◌, Option, none, some, arith, ◌==◌,
  any, ◌↔◌, ◌≢◌, ◌++◌, pos, negsuc, ℤ,
}
use turtle.Common.Text.{Text, eq_text_iff, mem_text}
use turtle.Common.Slices.{inner}
use turtle.Regex.{Cursor, captured, found, find_match}
use turtle.Suppress.{
  nolint_match, parse_nolint_suppressions, nolint_pattern, suppressed_line, c_file_pattern,
  kernel_file_pattern, default_c_suppressed_categories, default_kernel_suppressed_categories, Key,
  eq_key, Suppressions, add_line, has_line, nolint_category, process_global_suppressions,
  add_categories, reset_nolint_suppressions, is_error_suppressed,
}

eq_key_iff : (j k : Key) → (eq_key j k ≡ true) ↔ (j ≡ k)
unfolding eq_key
eq_key_iff none none = ground arith
eq_key_iff (some c) (some d) = ground (arith, eq_text_iff c d)
eq_key_iff none (some d) = ground arith
eq_key_iff (some c) none = ground arith

-- A line that is added is found under its key, and nothing else changes.
has_line-add_line :
    (j k : Key) (m n : ℕ) (t : List (Key × List ℕ))
    → has_line j m (add_line k n t) ≡ ((eq_key k j && n == m) || has_line j m t)
unfolding has_line add_line
has_line-add_line j k m n [] = ground arith
has_line-add_line j k m n ((i, ns) ∷ t) =
    ground (arith, eq_key_iff i j, eq_key_iff i k, eq_key_iff k j, has_line-add_line j k m n t)

pub suppressed-add_line :
    (c : Text) (k : Key) (m n : ℕ) (s : Suppressions)
    → is_error_suppressed c (pos m) (record s { lines = add_line k n s.lines })
      ≡ (((eq_key k (some c) || eq_key k none) && n == m) || is_error_suppressed c (pos m) s)
unfolding is_error_suppressed
suppressed-add_line c k m n s =
    ground (arith, has_line-add_line (some c) k m n s.lines, has_line-add_line none k m n s.lines)

-- What one table adds to another: more is suppressed, on one line only.
pub record Extends (line : ℕ) (s t : Suppressions) : Type 0 where
  pub keeps :
      (c : Text) (m : ℕ)
      → is_error_suppressed c (pos m) s ≡ true
      → is_error_suppressed c (pos m) t ≡ true
  pub elsewhere :
      (c : Text) (m : ℕ)
      → m ≢ line
      → is_error_suppressed c (pos m) t ≡ is_error_suppressed c (pos m) s

Extends-refl : (line : ℕ) (s : Suppressions) → Extends line s s
Extends-refl line s = record { keeps = λ c m h. h; elsewhere = λ c m h. refl }

Extends-add_line :
    (k : Key) (n : ℕ) (s : Suppressions) → Extends n s (record s { lines = add_line k n s.lines })
Extends-add_line k n s = record {
  keeps = λ c m h. ground (arith, suppressed-add_line c k m n s);
  elsewhere = λ c m h. ground (arith, suppressed-add_line c k m n s);
}

nolint_category-Extends :
    (f : Text) (n line : ℕ) (c : Option Text) (s : Suppressions)
    → Extends line s (nolint_category f n line c s).0
unfolding nolint_category
nolint_category-Extends f n line none s = Extends-add_line none line s
nolint_category-Extends f n line (some c) s = ground (
  arith,
  Extends-refl line s,
  Extends-add_line none line s,
  Extends-add_line (some (inner c)) line s,
)

-- The line that a raw line `n` may suppress: itself, or the next if it says NOLINTNEXTLINE.
unfoldable pub nolint_line : Option Cursor → ℕ → ℕ
nolint_line none n = n
nolint_line (some m) n = suppressed_line (captured 1 m) n

nolint_match-Extends :
    (f : Text) (n : ℕ) (m : Option Cursor) (s : Suppressions)
    → Extends (nolint_line m n) s (nolint_match f n m s).0
unfolding nolint_match nolint_line
nolint_match-Extends f n none s = Extends-refl n s
nolint_match-Extends f n (some m) s = nolint_category-Extends f n _ (captured 2 m) s

-- After a raw line is parsed, whatever was suppressed still is, and on any line but the one that
-- the line's NOLINT comment speaks of nothing has changed.
pub parse_nolint-Extends :
    (f raw : Text) (n : ℕ) (s : Suppressions)
    → Extends
        (nolint_line (find_match nolint_pattern raw) n)
        s
        (parse_nolint_suppressions f raw n s).0
unfolding parse_nolint_suppressions
parse_nolint-Extends f raw n s = nolint_match-Extends f n _ s

mem_text-append :
    (c : Text) (xs ys : List Text) → mem_text c (xs ++ ys) ≡ (mem_text c xs || mem_text c ys)
unfolding mem_text
mem_text-append c [] ys = refl
mem_text-append c (x ∷ xs) ys = ground (arith, mem_text-append c xs ys)

suppressed-add_categories :
    (c : Text) (n : ℤ) (b : Bool) (cs : List Text) (s : Suppressions)
    → is_error_suppressed c n (add_categories b cs s)
      ≡ ((b && mem_text c cs) || is_error_suppressed c n s)
unfolding is_error_suppressed add_categories
suppressed-add_categories c n b cs s = ground (arith, mem_text-append c cs s.everywhere)

regroup :
    (k c ks cs x y before : Bool)
    → ((cs && x) || (ks && y) || ((k && y) || ((c && x) || before)))
      ≡ (((c || cs) && x) || ((k || ks) && y) || before)
regroup k c ks cs x y before = ground arith

-- After the directives of a file are read, an error is suppressed if it was so before, or if some
-- line marks a C file and its category is of those suppressed there, or a kernel file likewise.
pub suppressed-process_global :
    (c : Text) (n : ℤ) (lines : List Text) (s : Suppressions)
    → is_error_suppressed c n (process_global_suppressions lines s) ≡ (
        (any (found c_file_pattern) lines && mem_text c default_c_suppressed_categories)
        || (any (found kernel_file_pattern) lines
            && mem_text c default_kernel_suppressed_categories)
        || is_error_suppressed c n s)
unfolding process_global_suppressions
suppressed-process_global c n [] s = refl
suppressed-process_global c n (line ∷ lines) s =
    suppressed-process_global c n lines _
    ∙ rw (suppressed-add_categories, suppressed-add_categories)
        (regroup (found kernel_file_pattern line) (found c_file_pattern line)
          (any (found kernel_file_pattern) lines) (any (found c_file_pattern) lines) _ _ _)

-- A reset clears the table for every category and line.
pub suppressed-reset :
    (c : Text) (n : ℤ) (s : Suppressions)
    → is_error_suppressed c n (reset_nolint_suppressions s) ≡ false
unfolding is_error_suppressed reset_nolint_suppressions has_line mem_text
suppressed-reset c (pos n) s = refl
suppressed-reset c (negsuc n) s = refl
