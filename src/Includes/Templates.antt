-- ===== src/Includes/Templates.antt =====
-- build_support/cpplint.py: the tables of the names that need a header.
use turtle.Common.{List, [], ◌∷◌, ◌++◌}
use turtle.Common.Text.{Text, codes}
use turtle.Regex.{
  Regex, many, lazy_many, group, word_edge, at_start, lit, word, none_of, dot, space, optional,
  choice, seq,
}

-- `_HEADERS_CONTAINING_TEMPLATES`
unfoldable pub headers_containing_templates : List (Text × List Text)
headers_containing_templates =
    (codes "<deque>", codes "deque" ∷ [])
    ∷ (
      codes "<functional>",
      codes "unary_function"
          ∷ codes "binary_function"
          ∷ codes "plus"
          ∷ codes "minus"
          ∷ codes "multiplies"
          ∷ codes "divides"
          ∷ codes "modulus"
          ∷ codes "negate"
          ∷ codes "equal_to"
          ∷ codes "not_equal_to"
          ∷ codes "greater"
          ∷ codes "less"
          ∷ codes "greater_equal"
          ∷ codes "less_equal"
          ∷ codes "logical_and"
          ∷ codes "logical_or"
          ∷ codes "logical_not"
          ∷ codes "unary_negate"
          ∷ codes "not1"
          ∷ codes "binary_negate"
          ∷ codes "not2"
          ∷ codes "bind1st"
          ∷ codes "bind2nd"
          ∷ codes "pointer_to_unary_function"
          ∷ codes "pointer_to_binary_function"
          ∷ codes "ptr_fun"
          ∷ codes "mem_fun_t"
          ∷ codes "mem_fun"
          ∷ codes "mem_fun1_t"
          ∷ codes "mem_fun1_ref_t"
          ∷ codes "mem_fun_ref_t"
          ∷ codes "const_mem_fun_t"
          ∷ codes "const_mem_fun1_t"
          ∷ codes "const_mem_fun_ref_t"
          ∷ codes "const_mem_fun1_ref_t"
          ∷ codes "mem_fun_ref"
          ∷ [],
    )
    ∷ (codes "<limits>", codes "numeric_limits" ∷ [])
    ∷ (codes "<list>", codes "list" ∷ [])
    ∷ (codes "<map>", codes "multimap" ∷ [])
    ∷ (
      codes "<memory>",
      codes "allocator"
          ∷ codes "make_shared"
          ∷ codes "make_unique"
          ∷ codes "shared_ptr"
          ∷ codes "unique_ptr"
          ∷ codes "weak_ptr"
          ∷ [],
    )
    ∷ (codes "<queue>", codes "queue" ∷ codes "priority_queue" ∷ [])
    ∷ (codes "<set>", codes "multiset" ∷ [])
    ∷ (codes "<stack>", codes "stack" ∷ [])
    ∷ (codes "<string>", codes "char_traits" ∷ codes "basic_string" ∷ [])
    ∷ (codes "<tuple>", codes "tuple" ∷ [])
    ∷ (codes "<unordered_map>", codes "unordered_map" ∷ codes "unordered_multimap" ∷ [])
    ∷ (codes "<unordered_set>", codes "unordered_set" ∷ codes "unordered_multiset" ∷ [])
    ∷ (codes "<utility>", codes "pair" ∷ [])
    ∷ (codes "<vector>", codes "vector" ∷ [])
    ∷ (codes "<hash_map>", codes "hash_map" ∷ codes "hash_multimap" ∷ [])
    ∷ (codes "<hash_set>", codes "hash_set" ∷ codes "hash_multiset" ∷ [])
    ∷ (codes "<slist>", codes "slist" ∷ [])
    ∷ []

-- `_HEADERS_MAYBE_TEMPLATES`
unfoldable pub headers_maybe_templates : List (Text × List Text)
headers_maybe_templates =
    (
      codes "<algorithm>",
      codes "copy"
          ∷ codes "max"
          ∷ codes "min"
          ∷ codes "min_element"
          ∷ codes "sort"
          ∷ codes "transform"
          ∷ [],
    )
    ∷ (codes "<utility>", codes "forward" ∷ codes "make_pair" ∷ codes "move" ∷ codes "swap" ∷ [])
    ∷ []

-- A pattern, what it stands for, and the header that is needed.
pub record Entry : Type 0 where
  pub pattern : Regex
  pub template : Text
  pub header : Text

-- `[^>.]\b` + the name + `(<.*?>)?\([^\)]`
unfoldable pub maybe_pattern : Text → Regex
maybe_pattern name = seq (
    none_of ">."
    ∷ word_edge
    ∷ lit name
    ∷ optional (group 1 (seq (word "<" ∷ lazy_many dot ∷ word ">" ∷ [])))
    ∷ word "("
    ∷ none_of ")"
    ∷ [])

-- `[^>.]\bset\s*\<`
unfoldable pub set_pattern : Regex
unfolding seq word none_of space
set_pattern = seq (none_of ">." ∷ word_edge ∷ word "set" ∷ many space ∷ word "<" ∷ [])

-- `(std\b::\bmap\s*\<)|(^(std\b::\b)map\b\(\s*\<)`
unfoldable pub map_pattern : Regex
unfolding seq choice word space
map_pattern = choice (
    group 1 (
      seq
        (word "std" ∷ word_edge ∷ word "::" ∷ word_edge ∷ word "map" ∷ many space ∷ word "<" ∷ []))
    ∷ group 2 (
        seq (
          at_start
          ∷ group 3 (seq (word "std" ∷ word_edge ∷ word "::" ∷ word_edge ∷ []))
          ∷ word "map"
          ∷ word_edge
          ∷ word "("
          ∷ many space
          ∷ word "<"
          ∷ []))
    ∷ [])

-- `(\<|\b)` + the name + `\s*\<`
unfoldable pub template_pattern : Text → Regex
template_pattern name =
    seq (group 1 (choice (word "<" ∷ word_edge ∷ [])) ∷ lit name ∷ many space ∷ word "<" ∷ [])

unfoldable pub maybe_entries : Text → List Text → List Entry
maybe_entries header [] = []
maybe_entries header (name ∷ names) =
    record { pattern = maybe_pattern name; template = name; header = header }
    ∷ maybe_entries header names

unfoldable pub all_maybe_entries : List (Text × List Text) → List Entry
all_maybe_entries [] = []
all_maybe_entries ((header, names) ∷ rows) = maybe_entries header names ++ all_maybe_entries rows

-- `_re_pattern_headers_maybe_templates`
unfoldable pub pattern_headers_maybe_templates : List Entry
pattern_headers_maybe_templates =
    all_maybe_entries headers_maybe_templates
    ++ (record { pattern = set_pattern; template = codes "set<>"; header = codes "<set>" }
        ∷ record { pattern = map_pattern; template = codes "map<>"; header = codes "<map>" }
        ∷ [])

unfoldable pub template_entries : Text → List Text → List Entry
template_entries header [] = []
template_entries header (name ∷ names) =
    record { pattern = template_pattern name; template = name ++ codes "<>"; header = header }
    ∷ template_entries header names

unfoldable pub all_template_entries : List (Text × List Text) → List Entry
all_template_entries [] = []
all_template_entries ((header, names) ∷ rows) =
    template_entries header names ++ all_template_entries rows

-- `_re_pattern_templates`
unfoldable pub pattern_templates : List Entry
pattern_templates = all_template_entries headers_containing_templates
