-- ===== src/Paths/Os.antt =====
-- Python's `os.path` on a POSIX system, as build_support/cpplint.py calls it.
use turtle.Common.{
  ℕ, zero, suc, ◌-◌, Bool, true, false, not, ◌&&◌, ◌||◌, List, [], ◌∷◌, ◌++◌, none, some, ◌==◌, ltb,
  if◌then◌else◌, length, take, drop, any, all,
}
use turtle.Common.Text.{Text, codes, eq_text, starts_with, ends_with, split, behind_last}
use mathlib.Core.List.{reverse, tail}
use turtle.Paths.{FileSystem}

abbrev pub is_slash : ℕ → Bool
is_slash c = c == b'/'

abbrev pub is_nil : Text → Bool
is_nil [] = true
is_nil _ = false

-- `s.rfind(d) + 1`
unfoldable pub behind_rfind : ℕ → Text → ℕ
behind_rfind d s = elim (behind_last d s) [ none ↦ 0 | some t ↦ suc (length s - length t) ]

unfoldable pub drop_slashes : Text → Text
drop_slashes [] = []
drop_slashes (c ∷ s) = elim (is_slash c) [ true ↦ drop_slashes s | false ↦ c ∷ s ]

abbrev pub rstrip_slashes : Text → Text
rstrip_slashes s = reverse (drop_slashes (reverse s))

-- `os.path.split`, `os.path.dirname`
unfoldable pub path_split : Text → Text × Text
path_split p =
    let i = behind_rfind b'/' p in
    (if all is_slash (take i p) then take i p else rstrip_slashes (take i p), drop i p)

unfoldable pub dirname : Text → Text
dirname p = (path_split p).0

-- `os.path.splitext`: at the last period behind the last slash, if a character that is no period
-- stands between.
unfoldable pub splitext : Text → Text × Text
splitext p =
    let sep = behind_rfind b'/' p in
    let dot = behind_rfind b'.' p in
    if ltb sep dot && any (λ c. not (c == b'.')) (take (dot - 1 - sep) (drop sep p))
    then (take (dot - 1) p, drop (dot - 1) p)
    else (p, [])

-- `os.path.join(a, b)` and `os.path.join(*parts)`
unfoldable pub join_path : Text → Text → Text
join_path a b =
    if starts_with (codes "/") b
    then b
    else if is_nil a || ends_with (codes "/") a
    then a ++ b
    else a ++ (b'/' ∷ b)

unfoldable pub join_from : Text → List Text → Text
join_from a [] = a
join_from a (b ∷ bs) = join_from (join_path a b) bs

unfoldable pub join_parts : List Text → Text
join_parts [] = []
join_parts (a ∷ parts) = join_from a parts

-- `d.join(parts)`
unfoldable pub join_with : Text → List Text → Text
join_with d [] = []
join_with d (a ∷ []) = a
join_with d (a ∷ b ∷ parts) = a ++ (d ++ join_with d (b ∷ parts))

-- `os.path.normpath`: the components so far are kept last first.
abbrev head_is_up : List Text → Bool
head_is_up [] = false
head_is_up (c ∷ _) = eq_text c (codes "..")

abbrev no_parts : List Text → Bool
no_parts [] = true
no_parts _ = false

unfoldable pub norm_part : Bool → List Text → Text → List Text
norm_part rooted out c =
    if is_nil c || eq_text c (codes ".")
    then out
    else if not (eq_text c (codes "..")) || (not rooted && no_parts out) || head_is_up out
    then c ∷ out
    else tail out

unfoldable pub norm_parts : Bool → List Text → List Text → List Text
norm_parts rooted out [] = reverse out
norm_parts rooted out (c ∷ cs) = norm_parts rooted (norm_part rooted out c) cs

abbrev leading_slashes : Text → Text
leading_slashes p =
    if starts_with (codes "//") p && not (starts_with (codes "///") p)
    then codes "//"
    else if starts_with (codes "/") p
    then codes "/"
    else []

abbrev dot_for_nil : Text → Text
dot_for_nil [] = codes "."
dot_for_nil (c ∷ s) = c ∷ s

unfoldable pub normpath : Text → Text
normpath p = dot_for_nil (
    leading_slashes p
    ++ join_with (codes "/") (norm_parts (starts_with (codes "/") p) [] (split b'/' p)))

unfoldable pub abspath : FileSystem → Text → Text
abspath fs p = normpath (join_path fs.cwd p)

-- The common front of two lists of components, and of two texts.
unfoldable pub common_parts : List Text → List Text → ℕ
common_parts (x ∷ xs) (y ∷ ys) = if eq_text x y then suc (common_parts xs ys) else 0
common_parts _ _ = 0

unfoldable pub common_length : Text → Text → ℕ
common_length (x ∷ xs) (y ∷ ys) = if x == y then suc (common_length xs ys) else 0
common_length _ _ = 0

unfoldable pub filter_nil : List Text → List Text
filter_nil [] = []
filter_nil ([] ∷ ps) = filter_nil ps
filter_nil ((c ∷ s) ∷ ps) = (c ∷ s) ∷ filter_nil ps

abbrev parts_of : Text → List Text
parts_of p = filter_nil (split b'/' p)

-- `os.path.relpath(path, start)`
unfoldable pub ups : ℕ → List Text
ups zero = []
ups (suc k) = codes ".." ∷ ups k

unfoldable pub relpath : FileSystem → Text → Text → Text
relpath fs path start =
    let from = parts_of (abspath fs start) in
    let to = parts_of (abspath fs path) in
    let i = common_parts from to in
    dot_for_nil (join_with (codes "/") (ups (length from - i) ++ drop i to))

-- A directory and those above it, to one that is its own parent. The fuel is the length of the
-- name, as a parent that differs has a shorter name.
unfoldable pub ancestors_from : ℕ → Text → List Text
ancestors_from zero p = p ∷ []
ancestors_from (suc fuel) p =
    p ∷ elim (eq_text (dirname p) p) [ true ↦ [] | false ↦ ancestors_from fuel (dirname p) ]

unfoldable pub ancestors : Text → List Text
ancestors p = ancestors_from (length p) p
