-- ===== src/Paths/Extensions.antt =====
-- build_support/cpplint.py: the extensions of headers and of sources.
use turtle.Common.{Bool, true, false, List, [], ◌∷◌, ◌++◌, map, if◌then◌else◌}
use turtle.Common.Text.{Text, codes, eq_text, mem_text, strip, split, contains}
use turtle.Paths.{Settings}

unfoldable pub without : Text → List Text → List Text
without x [] = []
without x (y ∷ ys) = if eq_text x y then without x ys else y ∷ without x ys

-- `xs or ys`
abbrev pub or_else_set : List Text → List Text → List Text
or_else_set [] ys = ys
or_else_set (x ∷ xs) ys = x ∷ xs

abbrev no_elements : List Text → Bool
no_elements [] = true
no_elements _ = false

-- The elements of a list once each, in the order of their first occurrences.
unfoldable pub as_set : List Text → List Text
as_set [] = []
as_set (x ∷ xs) = x ∷ without x (as_set xs)

unfoldable pub split_option : Text → List Text
split_option val = map strip (split b',' val)

unfoldable pub process_hpp_headers_option : Text → Settings → Settings
process_hpp_headers_option val s = record s { hpp_headers = as_set (split_option val) }

unfoldable pub process_extensions_option : Text → Settings → Settings
process_extensions_option val s = record s { valid_extensions = as_set (split_option val) }

unfoldable pub with_h : List Text → List Text
with_h [] = []
with_h (x ∷ xs) = if contains (codes "h") x then x ∷ with_h xs else with_h xs

unfoldable pub get_header_extensions : Settings → List Text
get_header_extensions s = or_else_set s.hpp_headers (
    if no_elements s.valid_extensions
    then codes "h" ∷ codes "hh" ∷ codes "hpp" ∷ codes "hxx" ∷ codes "h++" ∷ codes "cuh" ∷ []
    else with_h s.valid_extensions)

unfoldable pub is_header_extension : Settings → Text → Bool
is_header_extension s ext = mem_text ext (get_header_extensions s)

-- The elements of the first list that are not in the second.
unfoldable pub difference : List Text → List Text → List Text
difference [] ys = []
difference (x ∷ xs) ys = if mem_text x ys then difference xs ys else x ∷ difference xs ys

unfoldable pub get_all_extensions : Settings → List Text
get_all_extensions s =
    let headers = get_header_extensions s in
    headers
    ++ difference
        (or_else_set s.valid_extensions
          (codes "c" ∷ codes "cc" ∷ codes "cpp" ∷ codes "cxx" ∷ codes "c++" ∷ codes "cu" ∷ []))
        headers

unfoldable pub get_non_header_extensions : Settings → List Text
get_non_header_extensions s = difference (get_all_extensions s) (get_header_extensions s)

unfoldable pub is_source_extension : Settings → Text → Bool
is_source_extension s ext = mem_text ext (get_non_header_extensions s)
