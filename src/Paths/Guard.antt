-- ===== src/Paths/Guard.antt =====
-- build_support/cpplint.py: `PathSplitToList`, `GetHeaderGuardCPPVariable` and
-- `CheckForHeaderGuard`.
use turtle.Common.{
  ℕ, zero, suc, ◌-◌, Bool, true, false, not, ◌&&◌, ◌||◌, List, [], ◌∷◌, ◌++◌, map, Option, none,
  some, if◌then◌else◌, length, take, drop, any,
}
use turtle.Common.Text.{Text, codes, eq_text, starts_with, replace, words, is_alnum, upper}
use turtle.Common.Slices.{line_at}
use turtle.Regex.{
  Regex, many, group, word_edge, at_start, at_end, Cursor, lit, word, none_of, space, optional,
  some_of, choice, seq, match, matches, find_match, found, captured_text, replace_all,
}
use turtle.Report.{Action, raise, parse_nolint, report}
use turtle.Cleanse.{CleansedLines}
use turtle.Paths.{FileSystem, Settings}
use turtle.Paths.Os.{path_split, join_parts, abspath, is_nil}
use turtle.Paths.Info.{full_name, repository_name}

-- The loop of `PathSplitToList`; each round leaves a shorter name.
unfoldable pub split_from : ℕ → Text → List Text → List Text
split_from zero p parts = p ∷ parts
split_from (suc fuel) p parts =
    let head = (path_split p).0 in
    let tail = (path_split p).1 in
    elim (eq_text head p || eq_text tail p) [
      | true ↦ p ∷ parts
      | false ↦ split_from fuel head (tail ∷ parts)
    ]

unfoldable pub path_split_to_list : Text → List Text
path_split_to_list p = split_from (length p) p []

-- The list without the prefix; `[]` also where it is no prefix, which the callers treat alike.
unfoldable pub strip_list_prefix : List Text → List Text → List Text
strip_list_prefix xs [] = xs
strip_list_prefix [] (p ∷ ps) = []
strip_list_prefix (x ∷ xs) (p ∷ ps) =
    let rest = strip_list_prefix xs ps in if eq_text x p then rest else []

abbrev joined_or : List Text → Text → Text
joined_or [] other = other
joined_or (p ∷ ps) other = join_parts (p ∷ ps)

unfoldable pub fixup_path_from_root : FileSystem → Settings → Text → Text → Text
fixup_path_from_root fs s f path =
    if is_nil s.root
    then path
    else joined_or (strip_list_prefix (path_split_to_list path) (path_split_to_list s.root)) (
        joined_or
          (strip_list_prefix (path_split_to_list (full_name fs f))
            (path_split_to_list (abspath fs s.root)))
          path)

-- `_flymake\.h$`
unfoldable pub flymake_suffix_pattern : Regex
unfolding seq word
flymake_suffix_pattern = seq (word "_flymake.h" ∷ at_end ∷ [])

-- `/\.flymake/([^/]*)$`
unfoldable pub flymake_dir_pattern : Regex
unfolding seq word none_of
flymake_dir_pattern = seq (word "/.flymake/" ∷ group 1 (many (none_of "/")) ∷ at_end ∷ [])

-- `re.sub(r'/\.flymake/([^/]*)$', r'/\1', filename)`; the pattern matches at the end only.
unfoldable pub without_flymake_dir : Text → Text
without_flymake_dir f = elim (find_match flymake_dir_pattern f) [
  | none ↦ f
  | some m ↦
      let name = captured_text 1 m in
      take (length f - length m.rest - length name - length (codes "/.flymake/")) f
      ++ (b'/' ∷ name ++ m.rest)
]

unfoldable pub plain_name : Text → Text
plain_name f = replace (codes "c++") (codes "cpp") (
    replace (codes "C++") (codes "cpp")
      (without_flymake_dir (replace_all flymake_suffix_pattern (codes ".h") f)))

unfoldable pub guard_of : Text → Text
guard_of path = upper (map (λ c. if is_alnum c then c else b'_') path) ++ codes "_"

-- `none` where the loop of `RepositoryName` does not end.
unfoldable pub get_header_guard_cpp_variable : FileSystem → Settings → Text → Option Text
get_header_guard_cpp_variable fs s f = elim (repository_name fs s (plain_name f)) [
  | none ↦ none
  | some path ↦ some (guard_of (fixup_path_from_root fs s (plain_name f) path))
]

-- `//\s*NOLINT\(build/header_guard\)`
unfoldable pub nolint_guard_pattern : Regex
unfolding seq word space
nolint_guard_pattern = seq (word "//" ∷ many space ∷ word "NOLINT(build/header_guard)" ∷ [])

-- `^\s*#pragma\s+once`
unfoldable pub pragma_once_pattern : Regex
unfolding seq some_of word space
pragma_once_pattern =
    seq (at_start ∷ many space ∷ word "#pragma" ∷ some_of space ∷ word "once" ∷ [])

-- `^(?:(?:\'(?:\.|[^\'])*\')|(?:"(?:\.|[^"])*")|[^\'"])*//`
unfoldable pub slashes_pattern : Regex
unfolding seq choice word none_of
slashes_pattern = seq (
    at_start
    ∷ many (
        choice (
          seq (word "'" ∷ many (choice (word "." ∷ none_of "'" ∷ [])) ∷ word "'" ∷ [])
          ∷ seq (word "\"" ∷ many (choice (word "." ∷ none_of "\"" ∷ [])) ∷ word "\"" ∷ [])
          ∷ none_of "'\""
          ∷ []))
    ∷ word "//"
    ∷ [])

-- What the loop over the lines has found.
pub record GuardLines : Type 0 where
  pub ifndef : Text
  pub ifndef_linenum : ℕ
  pub define : Text
  pub endif : Text
  pub endif_linenum : ℕ

unfoldable pub no_guard : GuardLines
no_guard = record { ifndef = []; ifndef_linenum = 0; define = []; endif = []; endif_linenum = 0 }

abbrev directive : List Text → ℕ → GuardLines → GuardLines
directive (name ∷ arg ∷ _) n g = record g {
  ifndef = if is_nil g.ifndef && eq_text name (codes "#ifndef") then arg else g.ifndef;
  ifndef_linenum =
      if is_nil g.ifndef && eq_text name (codes "#ifndef") then n else g.ifndef_linenum;
  define = if is_nil g.define && eq_text name (codes "#define") then arg else g.define;
}
directive _ n g = g

unfoldable pub guard_line : Text → ℕ → GuardLines → GuardLines
guard_line line n g =
    let h = directive (words line) n g in
    if starts_with (codes "#endif") line then record h { endif = line; endif_linenum = n } else h

unfoldable pub guard_lines : List Text → ℕ → GuardLines → GuardLines
guard_lines [] n g = g
guard_lines (line ∷ lines) n g = guard_lines lines (suc n) (guard_line line n g)

abbrev guard_report : Text → ℕ → ℕ → Text → Action
guard_report f n confidence message =
    raise (report f n (codes "build/header_guard") confidence message)

unfoldable pub wrong_style : Text → List Text → Text → GuardLines → List Action
wrong_style f raw_lines cppvar g =
    if eq_text g.ifndef cppvar
    then []
    else parse_nolint (line_at raw_lines g.ifndef_linenum) g.ifndef_linenum
      ∷ guard_report f g.ifndef_linenum (if eq_text g.ifndef (cppvar ++ codes "_") then 0 else 5)
          (codes "#ifndef header guard has wrong style, please use: " ++ cppvar)
      ∷ []

-- `r'#endif\s*//\s*' + cppvar + r'(_)?\b'` and `r'#endif\s*/\*\s*' + cppvar + r'(_)?\s*\*/'`: the
-- variable has no special characters.
unfoldable pub endif_slashes : Text → Regex
unfolding seq word space lit
endif_slashes cppvar = seq (
    word "#endif"
    ∷ many space
    ∷ word "//"
    ∷ many space
    ∷ lit cppvar
    ∷ optional (group 1 (word "_"))
    ∷ word_edge
    ∷ [])

unfoldable pub endif_stars : Text → Regex
unfolding seq word space lit
endif_stars cppvar = seq (
    word "#endif"
    ∷ many space
    ∷ word "/*"
    ∷ many space
    ∷ lit cppvar
    ∷ optional (group 1 (word "_"))
    ∷ many space
    ∷ word "*/"
    ∷ [])

-- A comment behind `#endif` with the variable; a second underscore is deprecated.
unfoldable pub endif_found : Text → GuardLines → Text → Cursor → List Action
endif_found f g message m =
    if eq_text (captured_text 1 m) (codes "_")
    then guard_report f g.endif_linenum 0 message ∷ []
    else []

abbrev missing_endif : Text → GuardLines → Text → List Action
missing_endif f g cppvar =
    guard_report f g.endif_linenum 5
      (codes "#endif line should be \"#endif  // " ++ (cppvar ++ codes "\""))
    ∷ []

-- `raw_lines[1:-1]`
unfoldable pub no_single_line_comments : List Text → Bool
no_single_line_comments raw_lines =
    not (any (matches slashes_pattern) (drop 1 (take (length raw_lines - 1) raw_lines)))

unfoldable pub endif_stars_reports : Text → List Text → Text → GuardLines → List Action
endif_stars_reports f raw_lines cppvar g =
    if no_single_line_comments raw_lines
    then elim (match (endif_stars cppvar) g.endif) [
      | some m ↦
          endif_found f g (codes "#endif line should be \"#endif  /* " ++ (cppvar ++ codes " */\""))
            m
      | none ↦ missing_endif f g cppvar
    ]
    else missing_endif f g cppvar

unfoldable pub endif_reports : Text → List Text → Text → GuardLines → List Action
endif_reports f raw_lines cppvar g = elim (match (endif_slashes cppvar) g.endif) [
  | some m ↦
      endif_found f g (codes "#endif line should be \"#endif  // " ++ (cppvar ++ codes "\"")) m
  | none ↦ endif_stars_reports f raw_lines cppvar g
]

unfoldable pub header_guard_reports : Text → List Text → Text → List Action
header_guard_reports f raw_lines cppvar =
    let g = guard_lines raw_lines 0 no_guard in
    if is_nil g.ifndef || is_nil g.define || not (eq_text g.ifndef g.define)
    then guard_report f 0 5
        (codes "No #ifndef header guard found, suggested CPP variable is: " ++ cppvar)
      ∷ []
    else wrong_style f raw_lines cppvar g
      ++ (parse_nolint (line_at raw_lines g.endif_linenum) g.endif_linenum
          ∷ endif_reports f raw_lines cppvar g)

unfoldable pub check_for_header_guard :
    FileSystem → Settings → Text → CleansedLines → Option (List Action)
check_for_header_guard fs s f clean =
    let raw_lines = clean.lines_without_raw_strings in
    if any (found nolint_guard_pattern) raw_lines || any (found pragma_once_pattern) raw_lines
    then some []
    else elim (get_header_guard_cpp_variable fs s f) [
      | none ↦ none
      | some cppvar ↦ some (header_guard_reports f raw_lines cppvar)
    ]
