-- ===== src/State/Items.antt =====
-- build_support/cpplint.py: what `PrintErrorCounts` prints.
use mathlib.Core.List.{Perm}
use mathlib.Core.List.Perm as Perm
use turtle.Common.{
  ℕ, ◌≡◌, refl, ◌∙◌, sym, ap, Bool, true, false, List, [], ◌∷◌, ◌++◌, map, ltb, if◌then◌else◌,
  arith, inl, inr, Bool-cases, append_assoc, append-nil,
}
use turtle.Common.Text.{Text, codes, gt_text}
use turtle.Report.{decimal}
use turtle.State.{
  LintState, is_junit, print_info, insert_sorted, sort_items, print_items, print_error_counts,
}

abbrev Item : Type 0
Item = Text × ℕ

-- Items by category, no category after a later one.
pub Ordered : List Item → Type 0
Ordered [] = Unit
Ordered (e ∷ []) = Unit
Ordered (e ∷ d ∷ m) = (gt_text e.0 d.0 ≡ false) × Ordered (d ∷ m)

gt_text-asym : (s t : Text) → gt_text s t ≡ true → gt_text t s ≡ false
unfolding gt_text
gt_text-asym [] t h = absurd (ground (arith, h))
gt_text-asym (x ∷ s) [] h = refl
gt_text-asym (x ∷ s) (y ∷ t) h = ground (arith, h, gt_text-asym s t)

insert_sorted-Perm : (e : Item) (m : List Item) → Perm (insert_sorted e m) (e ∷ m)
unfolding insert_sorted
insert_sorted-Perm e [] = Perm.refl (e ∷ [])
insert_sorted-Perm e (d ∷ m) = elim (Bool-cases (gt_text e.0 d.0)) [
  | inl h ↦
      rw (h, insert_sorted) (Perm.trans (Perm.cons d (insert_sorted-Perm e m)) (Perm.swap e d m))
  | inr h ↦ rw (h, insert_sorted) (Perm.refl (e ∷ d ∷ m))
]

head_before :
    (d c e : Item) (l m : List Item) (b : Bool)
    → gt_text d.0 c.0 ≡ false
    → gt_text d.0 e.0 ≡ false
    → Ordered (if b then c ∷ l else e ∷ c ∷ m)
    → Ordered (d ∷ (if b then c ∷ l else e ∷ c ∷ m))
unfolding Ordered
head_before d c e l m true h g o = (h, o)
head_before d c e l m false h g o = (g, o)

insert_sorted-Ordered : (e : Item) (m : List Item) → Ordered m → Ordered (insert_sorted e m)
unfolding insert_sorted Ordered
insert_sorted-Ordered e [] h = tt
insert_sorted-Ordered e (d ∷ []) h = elim (Bool-cases (gt_text e.0 d.0)) [
  | inl g ↦ rw (g, insert_sorted) (gt_text-asym e.0 d.0 g, tt)
  | inr g ↦ rw (g, insert_sorted) (g, tt)
]
insert_sorted-Ordered e (d ∷ c ∷ m) (h, hs) = elim (Bool-cases (gt_text e.0 d.0)) [
  | inl g ↦
      rw (g, insert_sorted)
        (head_before d c e (insert_sorted e m) m (gt_text e.0 c.0) h (gt_text-asym e.0 d.0 g)
          (insert_sorted-Ordered e (c ∷ m) hs))
  | inr g ↦ rw (g, insert_sorted) (g, (h, hs))
]

sort_items-Ordered : (m : List Item) → Ordered (sort_items m)
unfolding sort_items Ordered
sort_items-Ordered [] = tt
sort_items-Ordered (e ∷ m) = insert_sorted-Ordered e (sort_items m) (sort_items-Ordered m)

sort_items-Perm : (m : List Item) → Perm (sort_items m) m
unfolding sort_items
sort_items-Perm [] = Perm.refl []
sort_items-Perm (e ∷ m) =
    Perm.trans (insert_sorted-Perm e (sort_items m)) (Perm.cons e (sort_items-Perm m))

-- The messages.
pub item_line : Item → Text
item_line e =
    codes "Category '" ++ (e.0 ++ (codes "' errors found: " ++ (decimal e.1 ++ (10 ∷ []))))

pub total_line : ℕ → List Text
total_line n =
    if ltb 0 n then (codes "Total errors found: " ++ (decimal n ++ (10 ∷ []))) ∷ [] else []

print_info_lem :
    (t : Text) (s : LintState)
    → is_junit s.output_format ≡ false
    → print_info t s ≡ record s { stdout = s.stdout ++ t ∷ [] }
unfolding print_info
print_info_lem t s h = rw (h, print_info) refl

print_items_lem :
    (m : List Item) (s : LintState)
    → is_junit s.output_format ≡ false
    → print_items m s ≡ record s { stdout = s.stdout ++ map item_line m }
unfolding print_items item_line
print_items_lem [] s h = ap (λ t. record s { stdout = t }) (sym (append-nil s.stdout))
print_items_lem (e ∷ m) s h =
    ap (print_items m) (print_info_lem (item_line e) s h)
    ∙ print_items_lem m (record s { stdout = s.stdout ++ item_line e ∷ [] }) h
    ∙ ap (λ t. record s { stdout = t }) (append_assoc s.stdout (item_line e ∷ []) (map item_line m))

total_line_lem :
    (s : LintState)
    → is_junit s.output_format ≡ false
    → (if ltb 0 s.error_count
        then print_info (codes "Total errors found: " ++ (decimal s.error_count ++ (10 ∷ []))) s
        else s)
      ≡ record s { stdout = s.stdout ++ total_line s.error_count }
unfolding total_line
total_line_lem s h = elim (Bool-cases (ltb 0 s.error_count)) [
  | inl g ↦
      rw g
        (print_info_lem (codes "Total errors found: " ++ (decimal s.error_count ++ (10 ∷ []))) s h)
  | inr g ↦ rw g (ap (λ t. record s { stdout = t }) (sym (append-nil s.stdout)))
]

-- The items that are printed.
pub record Printed (s : LintState) : Type 0 where
  pub items : List Item
  pub in_order : Ordered items
  pub is_perm : Perm items s.errors_by_category
  pub stdout_lines :
      (print_error_counts s).stdout ≡ s.stdout ++ (map item_line items ++ total_line s.error_count)

-- Unless the output is for JUnit, `PrintErrorCounts` prints a line for each item of the counts, a
-- permutation of them in the order of their categories' names, and then the total, if it is not 0.
pub print_error_counts_lem : (s : LintState) → is_junit s.output_format ≡ false → Printed s
unfolding print_error_counts
print_error_counts_lem s h =
    let items = sort_items s.errors_by_category in
    let s' : LintState = record s { stdout = s.stdout ++ map item_line items } in
    record {
      items = items;
      in_order = sort_items-Ordered s.errors_by_category;
      is_perm = sort_items-Perm s.errors_by_category;
      stdout_lines =
          rw (print_error_counts, print_items_lem items s h)
            (ap (λ (t : LintState). t.stdout) (total_line_lem s' h)
              ∙ append_assoc s.stdout (map item_line items) (total_line s.error_count));
    }
