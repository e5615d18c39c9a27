-- ===== src/Includes/Lines.antt =====
-- build_support/cpplint.py: `_ClassifyInclude` and `CheckIncludeLine`.
use turtle.Common.{
  ℕ, ◌-◌, Bool, true, false, not, ◌&&◌, ◌||◌, List, [], ◌∷◌, ◌++◌, Option, none, some, ℤ, pos,
  negsuc, if◌then◌else◌, length, take,
}
use turtle.Common.Text.{Text, codes, eq_text, mem_text, ends_with, replace, is_upper, contains}
use turtle.Common.Slices.{line_at}
use turtle.Regex.{
  Regex, char, many, group, at_start, at_end, word, one_of, none_of, dot, space, some_of, choice,
  seq, match, matches, find_match, captured_text,
}
use turtle.Report.{Report, report, report_if, decimal}
use turtle.Listed.{
  on_match, Listed, listed, none_left, Listed-append, Listed-if_second, Yields, stops, yields,
  Yields-elim, Yields-if,
}
use turtle.Cleanse.{CleansedLines}
use turtle.Includes.{
  HeaderType, c_sys_header, cpp_sys_header, likely_my_header, possible_my_header, other_header,
  IncludeState, find_header, append_include, check_next_include_order, canonicalize,
  is_in_alphabetical_order, set_last_header,
}
use turtle.Includes.Standard.{cpp_headers}
use turtle.Paths.{FileSystem, Settings}
use turtle.Paths.Os.{path_split, dirname, splitext, normpath, is_nil}
use turtle.Paths.Extensions.{get_header_extensions, get_non_header_extensions}
use turtle.Paths.Info.{SplitName, split_name, repository_name}
use turtle.Paths.Modules.{drop_common_suffixes}

-- `^[^-_.]+`
unfoldable pub first_component_pattern : Regex
unfolding seq some_of none_of
first_component_pattern = seq (at_start ∷ some_of (none_of "-_.") ∷ [])

-- `_RE_FIRST_COMPONENT.match(base)`, with the text that it matches.
unfoldable pub first_component : Text → Option Text
first_component base = elim (match first_component_pattern base) [
  | none ↦ none
  | some m ↦ some (take (length base - length m.rest) base)
]

abbrev same_component : Option Text → Option Text → Bool
same_component (some a) (some b) = eq_text a b
same_component _ _ = false

-- `name` is the repository's name for the file.
unfoldable pub classify_own : Settings → Text → Text → HeaderType
classify_own s name include =
    let target = path_split (drop_common_suffixes s name) in
    let included = path_split (drop_common_suffixes s include) in
    let target_dir_pub =
      replace (codes "\\") (codes "/") (normpath ((target.0) ++ codes "/../public")) in
    if eq_text (target.1) (included.1)
      && (eq_text (included.0) (target.0) || eq_text (included.0) target_dir_pub)
    then likely_my_header
    else if same_component (first_component (target.1)) (first_component (included.1))
    then possible_my_header
    else other_header

unfoldable pub classify_include : Settings → Text → Text → Bool → HeaderType
classify_include s name include is_system =
    if is_system
      && not (mem_text ((splitext include).1) (codes ".hpp" ∷ codes ".hxx" ∷ codes ".h++" ∷ []))
    then if mem_text include cpp_headers then cpp_sys_header else c_sys_header
    else classify_own s name include

-- `#include\s*"([^/]+\.h)"`
unfoldable pub subdir_pattern : Regex
unfolding seq some_of word none_of space
subdir_pattern = seq (
    word "#include"
    ∷ many space
    ∷ word "\""
    ∷ group 1 (seq (some_of (none_of "/") ∷ word ".h" ∷ []))
    ∷ word "\""
    ∷ [])

-- `^(?:[^/]*[A-Z][^/]*\.h|lua\.h|lauxlib\.h|lualib\.h)$`
unfoldable pub third_party_headers_pattern : Regex
unfolding seq choice word none_of is_upper
third_party_headers_pattern = seq (
    at_start
    ∷ choice (
        seq (many (none_of "/") ∷ char (λ c. is_upper c) ∷ many (none_of "/") ∷ word ".h" ∷ [])
        ∷ word "lua.h"
        ∷ word "lauxlib.h"
        ∷ word "lualib.h"
        ∷ [])
    ∷ at_end
    ∷ [])

-- `^\s*#\s*include\s*([<"])([^>"]*)[>"].*$`
unfoldable pub include_line_pattern : Regex
unfolding seq word one_of none_of dot space
include_line_pattern = seq (
    at_start
    ∷ many space
    ∷ word "#"
    ∷ many space
    ∷ word "include"
    ∷ many space
    ∷ group 1 (one_of "<\"")
    ∷ group 2 (many (none_of ">\""))
    ∷ one_of ">\""
    ∷ many dot
    ∷ at_end
    ∷ [])

unfoldable pub subdir_reports : Text → ℕ → Text → List Report
subdir_reports f n line = on_match (match subdir_pattern line) (λ m.
    report_if (not (matches third_party_headers_pattern (captured_text 1 m))) f n
      (codes "build/include_subdir") 4 (codes "Include the directory when naming .h files"))

-- The first of the extensions that the include ends with.
unfoldable pub source_extension : List Text → Text → Option Text
source_extension [] include = none
source_extension (ext ∷ exts) include =
    let later = source_extension exts include in
    if ends_with (b'.' ∷ ext) include then some ext else later

-- Is one of the headers that belong to the file, in name, a part of the include or the reverse.
unfoldable pub third_src_header : FileSystem → Settings → Text → Text → List Text → Option Bool
third_src_header fs s base include [] = some false
third_src_header fs s base include (ext ∷ exts) =
    let later = third_src_header fs s base include exts in
    elim (repository_name fs s (base ++ (b'.' ∷ ext))) [
      | none ↦ none
      | some name ↦ if contains name include || contains include name then some true else later
    ]

unfoldable pub order_reports : Text → ℕ → SplitName → Text → List Report
order_reports f n info message =
    report_if (not (is_nil message)) f n (codes "build/include_order") 4 (
      message
      ++ (codes ". Should be: " ++ (info.base_name ++ codes ".h, c system, c++ system, other.")))

unfoldable pub alpha_reports : Text → ℕ → List Text → Text → IncludeState → List Report
alpha_reports f n elided include state =
    report_if (not (is_in_alphabetical_order elided n (canonicalize include) state)) f n
      (codes "build/include_alpha") 4
      (codes "Include \"" ++ (include ++ codes "\" not in alphabetical order"))

-- The include is kept, and its order is checked.
unfoldable pub enter_include :
    Settings
    → Text
    → CleansedLines
    → ℕ
    → SplitName
    → Text
    → Text
    → Bool
    → IncludeState
    → IncludeState × List Report
enter_include s f clean n info name include is_system state =
    let next =
      check_next_include_order (classify_include s name include is_system)
        (append_include include n state) in
    (
      set_last_header (canonicalize include) (next.0),
      order_reports f n info (next.1) ++ alpha_reports f n clean.elided include (next.0),
    )

unfoldable pub duplicate_message : Text → Text → ℕ → Text
duplicate_message f include line =
    codes "\""
    ++ (include ++ (codes "\" already included at " ++ (f ++ (codes ":" ++ decimal line))))

-- `none` where the loop of `RepositoryName` does not end.
unfoldable pub new_include :
    FileSystem
    → Settings
    → Text
    → CleansedLines
    → ℕ
    → Text
    → Bool
    → IncludeState
    → Option (IncludeState × List Report)
new_include fs s f clean n include is_system state = elim (split_name fs s f) [
  | none ↦ none
  | some info ↦
      elim (third_src_header fs s (take (length f - length info.extension) f) include
        (get_header_extensions s)) [
          | none ↦ none
          | some third ↦ elim (repository_name fs s f) [
            | none ↦ none
            | some name ↦ some (
                if third || not (matches third_party_headers_pattern include)
                then enter_include s f clean n info name include is_system state
                else (state, []))
          ]
        ]
]

unfoldable pub include_reports :
    FileSystem
    → Settings
    → Text
    → CleansedLines
    → ℕ
    → Text
    → Bool
    → IncludeState
    → Option (IncludeState × List Report)
include_reports fs s f clean n include is_system state = elim (find_header include state) [
  | pos line ↦
      some (state, report f n (codes "build/include") 4 (duplicate_message f include line) ∷ [])
  | negsuc _ ↦ elim (source_extension (get_non_header_extensions s) include) [
    | none ↦ new_include fs s f clean n include is_system state
    | some ext ↦ elim (repository_name fs s f) [
      | none ↦ none
      | some name ↦
          if eq_text (dirname name) (dirname include)
          then new_include fs s f clean n include is_system state
          else some (
            state,
            report f n (codes "build/include") 4
                  (codes "Do not include ." ++ (ext ++ codes " files from other packages"))
                ∷ [],
          )
    ]
  ]
]

abbrev behind_reports :
    List Report → Option (IncludeState × List Report) → Option (IncludeState × List Report)
behind_reports rs none = none
behind_reports rs (some (state, more)) = some (state, rs ++ more)

unfoldable pub check_include_line :
    FileSystem
    → Settings
    → Text
    → CleansedLines
    → ℕ
    → IncludeState
    → Option (IncludeState × List Report)
check_include_line fs s f clean n state =
    let line = line_at clean.lines n in
    behind_reports (subdir_reports f n line) (elim (find_match include_line_pattern line) [
      | none ↦ some (state, [])
      | some m ↦
          include_reports fs s f clean n (captured_text 2 m)
            (eq_text (captured_text 1 m) (codes "<")) state
    ])

subdir_reports-Listed : (f : Text) (n : ℕ) (line : Text) → Listed f n (subdir_reports f n line)
unfolding subdir_reports
subdir_reports-Listed f n line = search (listed)

enter_include-Listed :
    (s : Settings) (f : Text) (clean : CleansedLines) (n : ℕ) (info : SplitName)
    (name include : Text) (is_system : Bool) (state : IncludeState)
    → Listed f n ((enter_include s f clean n info name include is_system state).1)
unfolding enter_include order_reports alpha_reports
enter_include-Listed s f clean n info name include is_system state = search (listed)

-- The reports of a result, where there is one.
abbrev ListedSecond : Text → ℕ → IncludeState × List Report → Type 0
ListedSecond f n r = Listed f n (r.1)

new_include-Listed :
    (fs : FileSystem) (s : Settings) (f : Text) (clean : CleansedLines) (n : ℕ) (include : Text)
    (is_system : Bool) (state : IncludeState)
    → Yields (ListedSecond f n) (new_include fs s f clean n include is_system state)
unfolding new_include
new_include-Listed fs s f clean n include is_system state =
    Yields-elim (split_name fs s f) _ _ stops (λ info. Yields-elim _ _ _ stops (λ third.
      Yields-elim (repository_name fs s f) _ _ stops (λ name. yields (
        Listed-if_second (third || not (matches third_party_headers_pattern include)) _ _
          (enter_include-Listed s f clean n info name include is_system state) none_left))))

Yields-int {ℓ} :
    {A : Type ℓ} {P : A → Type 0} (i : ℤ) (k l : ℕ → Option A)
    → ((n : ℕ) → Yields P (k n))
    → ((n : ℕ) → Yields P (l n))
    → Yields P (elim i [ pos n ↦ k n | negsuc n ↦ l n ])
Yields-int (pos n) k l h e = h n
Yields-int (negsuc n) k l h e = e n

duplicate-Listed :
    (f : Text) (n : ℕ) (message : Text)
    → Listed f n (report f n (codes "build/include") 4 message ∷ [])
duplicate-Listed f n message = search (listed)

include_reports-Listed :
    (fs : FileSystem) (s : Settings) (f : Text) (clean : CleansedLines) (n : ℕ) (include : Text)
    (is_system : Bool) (state : IncludeState)
    → Yields (ListedSecond f n) (include_reports fs s f clean n include is_system state)
unfolding include_reports
include_reports-Listed fs s f clean n include is_system state =
    let new = new_include-Listed fs s f clean n include is_system state in
    Yields-int (find_header include state) _ _
      (λ line. yields (duplicate-Listed f n (duplicate_message f include line)))
      (λ _. Yields-elim (source_extension (get_non_header_extensions s) include) _ _ new (λ ext.
        Yields-elim (repository_name fs s f) _ _ stops (λ name.
          Yields-if (eq_text (dirname name) (dirname include)) new (
            yields (
              duplicate-Listed f n
                (codes "Do not include ." ++ (ext ++ codes " files from other packages")))))))

behind_reports-Listed :
    {f : Text} {n : ℕ} (rs : List Report) {o : Option (IncludeState × List Report)}
    → Listed f n rs
    → Yields (ListedSecond f n) o
    → Yields (ListedSecond f n) (behind_reports rs o)
behind_reports-Listed rs h stops = stops
behind_reports-Listed rs h (yields p) = yields (Listed-append rs h p)

pub check_include_line-Listed :
    (fs : FileSystem) (s : Settings) (f : Text) (clean : CleansedLines) (n : ℕ)
    (state : IncludeState)
    → Yields (λ r. Listed f n (r.1)) (check_include_line fs s f clean n state)
unfolding check_include_line
check_include_line-Listed fs s f clean n state =
    let line = line_at clean.lines n in
    behind_reports-Listed (subdir_reports f n line) (subdir_reports-Listed f n line) (
      Yields-elim (find_match include_line_pattern line) _ _ (yields none_left) (λ m.
        include_reports-Listed fs s f clean n (captured_text 2 m)
          (eq_text (captured_text 1 m) (codes "<")) state))
