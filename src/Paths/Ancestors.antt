-- ===== src/Paths/Ancestors.antt =====
-- build_support/cpplint.py: the directories above a file, and where `FileInfo.RepositoryName` does not
-- return.
use mathlib.Core.List.{reverse, reverse_aux, reverse-reverse}
use turtle.Common.{
  ℕ, zero, suc, ◌+◌, ◌≤◌, ◌<◌, ◌≡◌, ◌≢◌, refl, ◌∙◌, ap, Bool, true, false, List, [], ◌∷◌, arith,
  ◌⊎◌, inl, inr, ◌↔◌, All, Option, none, some, length, take, all, if◌then◌else◌,
}
use turtle.Common.Text.{Text, codes, eq_text, eq_text_iff, behind_last}
use turtle.Paths.{FileSystem, Settings}
use turtle.Paths.Info.{
  full_name, find_svn_root, above_all, checkout_name, repository_dir, repository_name,
}
use turtle.Paths.Os.{
  join_path, is_slash, drop_slashes, behind_rfind, path_split, dirname, ancestors_from, ancestors,
}

-- A text is kept, or it gets shorter.
abbrev Shrinks : Text → Text → Type 0
Shrinks s t = (t ≡ s) ⊎ (length t < length s)

shorter : (s t : Text) → Shrinks s t → length t ≤ length s
shorter s t (inl e) = rw e (omega arith)
shorter s t (inr h) = omega (arith, h)

take-Shrinks : (n : ℕ) (s : Text) → Shrinks s (take n s)
take-Shrinks zero [] = inl refl
take-Shrinks zero (c ∷ s) = inr (omega arith)
take-Shrinks (suc n) [] = inl refl
take-Shrinks (suc n) (c ∷ s) = elim (take-Shrinks n s) [
  | inl e ↦ inl (ap (◌∷◌ c) e)
  | inr h ↦ inr (omega (arith, h))
]

drop_slashes-Shrinks : (s : Text) → Shrinks s (drop_slashes s)
unfolding drop_slashes
drop_slashes-Shrinks [] = inl refl
drop_slashes-Shrinks (c ∷ s) =
    let h = shorter s _ (drop_slashes-Shrinks s) in
    elim (is_slash c) as (λ b. Shrinks (c ∷ s) (elim b [ true ↦ drop_slashes s | false ↦ c ∷ s ])) [
      | true ↦ inr (omega (arith, h))
      | false ↦ inl refl
    ]

length-reverse_aux : (s t : Text) → length (reverse_aux s t) ≡ length s + length t
length-reverse_aux [] t = omega arith
length-reverse_aux (c ∷ s) t = omega (arith, length-reverse_aux s (c ∷ t))

length-reverse : (s : Text) → length (reverse s) ≡ length s
length-reverse s = omega (arith, length-reverse_aux s [])

rstrip-Shrinks : (s : Text) → Shrinks s (reverse (drop_slashes (reverse s)))
rstrip-Shrinks s = elim (drop_slashes-Shrinks (reverse s)) [
  | inl e ↦ inl (ap reverse e ∙ reverse-reverse s)
  | inr h ↦ inr (omega (arith, h, length-reverse s, length-reverse (drop_slashes (reverse s))))
]

Shrinks-trans : (s t u : Text) → Shrinks s t → Shrinks t u → Shrinks s u
Shrinks-trans s t u (inl e) (inl f) = inl (f ∙ e)
Shrinks-trans s t u (inl e) (inr h) = inr (omega (arith, h, ap length e))
Shrinks-trans s t u (inr h) k = inr (omega (arith, h, shorter t u k))

if-Shrinks : (b : Bool) (s t u : Text) → Shrinks s t → Shrinks s u → Shrinks s (if b then t else u)
if-Shrinks true s t u h k = h
if-Shrinks false s t u h k = k

dirname-Shrinks : (p : Text) → Shrinks p (dirname p)
unfolding dirname path_split
dirname-Shrinks p =
    let i = behind_rfind b'/' p in
    if-Shrinks (all is_slash (take i p)) p _ _ (take-Shrinks i p)
      (Shrinks-trans p _ _ (take-Shrinks i p) (rstrip-Shrinks (take i p)))

-- Each directory has the next as its parent, and the last is its own.
pub data Climb : Text → List Text → Type 0 where
  top : {p : Text} → dirname p ≡ p → Climb p (p ∷ [])
  up : {p : Text} {ds : List Text} → dirname p ≢ p → Climb (dirname p) ds → Climb p (p ∷ ds)

no_text : (p : Text) → length p ≤ 0 → p ≡ []
no_text [] h = refl
no_text (c ∷ p) h = absurd (omega (arith, h))

-- A parent that differs fits in one less of fuel.
parent_fits :
    (fuel : ℕ) (p : Text)
    → length p ≤ suc fuel
    → eq_text (dirname p) p ≡ false
    → length (dirname p) ≤ fuel
parent_fits fuel p h e = elim (dirname-Shrinks p) [
  | inl k ↦ absurd (cc (e, (eq_text_iff (dirname p) p).1 k))
  | inr k ↦ omega (arith, h, k)
]

ancestors_from-Climb : (fuel : ℕ) (p : Text) → length p ≤ fuel → Climb p (ancestors_from fuel p)
unfolding ancestors_from
ancestors_from-Climb zero p h =
    top (rw (no_text p h) (unfold dirname path_split behind_rfind behind_last in refl))
ancestors_from-Climb (suc fuel) p h =
    elim (eq_text (dirname p) p)
        as (λ b.
          eq_text (dirname p) p ≡ b
          → Climb p (p ∷ elim b [ true ↦ [] | false ↦ ancestors_from fuel (dirname p) ])) [
            | true ↦ λ e. top ((eq_text_iff (dirname p) p).0 e)
            | false ↦ λ e.
                up (λ k. absurd (cc ((eq_text_iff (dirname p) p).1 k)))
                  (ancestors_from-Climb fuel (dirname p) (parent_fits fuel p h e))
          ]
      refl

ancestors-Climb : (p : Text) → Climb p (ancestors p)
unfolding ancestors
ancestors-Climb p = ancestors_from-Climb (length p) p (omega arith)

-- Is there a `.svn` in a directory.
abbrev pub HasSvn : FileSystem → Text → Type 0
HasSvn fs d = fs.exists (join_path d (codes ".svn")) ≡ true

find_svn_root-none :
    (fs : FileSystem) (root : Text) (ds : List Text)
    → (find_svn_root fs root ds ≡ none) ↔ All (HasSvn fs) ds
unfolding find_svn_root
find_svn_root-none fs root [] = (λ _. tt, λ _. refl)
find_svn_root-none fs root (d ∷ ds) = ground (arith, find_svn_root-none fs d ds)

ancestors_from_first :
    (fuel : ℕ) (p : Text) → ancestors_from fuel p ≡ p ∷ above_all (ancestors_from fuel p)
unfolding ancestors_from
ancestors_from_first zero p = refl
ancestors_from_first (suc fuel) p = refl

-- The three ways in which `checkout_name` goes.
checkout_cases :
    (b c : Bool) (o : Option Text) (k : Text → Text) (x y : Text)
    → ((if b
          then (elim o as (λ _. Option Text) [ none ↦ none | some r ↦ some (k r) ])
          else (if c then some x else some y))
        ≡ none)
      ↔ ((b ≡ true) × (o ≡ none))
checkout_cases true c none k x y = (λ _. (refl, refl), λ _. refl)
checkout_cases true c (some r) k x y = (λ h. absurd (cc h), λ h. absurd (cc (h.1)))
checkout_cases false true o k x y = (λ h. absurd (cc h), λ h. absurd (cc (h.0)))
checkout_cases false false o k x y = (λ h. absurd (cc h), λ h. absurd (cc (h.0)))

repository_cases :
    (b : Bool) (o : Option Text) (k : Text → Text) (p : Option Text) (x : Text)
    → ((if b then (elim o as (λ _. Option Text) [ some r ↦ some (k r) | none ↦ p ]) else some x)
        ≡ none)
      ↔ ((b ≡ true) × (o ≡ none) × (p ≡ none))
repository_cases true none k p x = (λ h. (refl, refl, h), λ h. h.2)
repository_cases true (some r) k p x = (λ h. absurd (cc h), λ h. absurd (cc (h.1)))
repository_cases false o k p x = (λ h. absurd (cc h), λ h. absurd (cc (h.0)))

checkout_name-none :
    (fs : FileSystem) (fullname d : Text)
    → (checkout_name fs fullname d ≡ none) ↔ All (HasSvn fs) (ancestors d)
unfolding checkout_name ancestors
checkout_name-none fs fullname d =
    let c =
      checkout_cases (fs.exists (join_path d (codes ".svn"))) _
        (find_svn_root fs d (above_all (ancestors d))) _ _ _ in
    let s = find_svn_root-none fs d (above_all (ancestors d)) in
    rw (ancestors_from_first (length d) d)
      (λ h. (let e = c.0 h in (e.0, s.0 (e.1))), λ h. c.1 (h.0, s.1 (h.1)))

-- `RepositoryName` does not return exactly where the file exists, no given repository contains it,
-- and the directory of the file and every directory above it, up to and with the root, holds a
-- `.svn`: the loop for the top of an svn checkout goes round at the root then. The directories are
-- the file's, its parents one by one, and last one that is its own parent.
pub repository_name-none :
    (fs : FileSystem) (s : Settings) (f : Text)
    → let d = dirname (full_name fs f) in
      ((repository_name fs s f ≡ none) ↔ (
        (fs.exists (full_name fs f) ≡ true)
        × (repository_dir fs s d ≡ none)
        × All (HasSvn fs) (ancestors d)))
      × Climb d (ancestors d)
unfolding repository_name
repository_name-none fs s f =
    let fullname = full_name fs f in
    let d = dirname fullname in
    let c =
      repository_cases (fs.exists fullname) (repository_dir fs s d) _ (checkout_name fs fullname d)
        _ in
    let n = checkout_name-none fs fullname d in
    (
      (λ h. (let e = c.0 h in (e.0, e.1, n.0 (e.2))), λ h. c.1 (h.0, h.1, n.1 (h.2))),
      ancestors-Climb d,
    )
