-- ===== src/Paths/Modules.antt =====
-- build_support/cpplint.py: `FilesBelongToSameModule`, `_DropCommonSuffixes` and
-- `CheckHeaderFileIncluded`.
use turtle.Common.{
  ℕ, zero, suc, ◌-◌, Bool, true, false, not, ◌&&◌, ◌||◌, List, [], ◌∷◌, ◌++◌, Option, none, some,
  ◌==◌, ltb, if◌then◌else◌, length, take, get_or,
}
use turtle.Common.Text.{Text, codes, mem_text, ends_with, replace, contains}
use turtle.Regex.{Regex, group, at_end, word, choice, seq, find_match, found, captured_text}
use turtle.Paths.{FileSystem, Settings}
use turtle.Paths.Os.{splitext}
use turtle.Paths.Extensions.{get_header_extensions, get_non_header_extensions, is_header_extension}
use turtle.Paths.Info.{SplitName, split_name, repository_name}
use turtle.Includes.{IncludeState}

-- `(_test|_regtest|_unittest)$`
unfoldable pub test_file_suffix_pattern : Regex
unfolding seq choice word
test_file_suffix_pattern = seq (
    group 1 (seq (word "_" ∷ choice (word "test" ∷ word "regtest" ∷ word "unittest" ∷ []) ∷ []))
    ∷ at_end
    ∷ [])

-- `s[:-k]`, which is empty for `k = 0`.
abbrev pub cut : ℕ → Text → Text
cut zero s = []
cut (suc k) s = take (length s - suc k) s

abbrev without_period : Text → Text
without_period [] = []
without_period (c ∷ s) = if c == b'.' then s else c ∷ s

-- `.replace('/public/', '/').replace('/internal/', '/')`
unfoldable pub without_visibility : Text → Text
without_visibility p =
    replace (codes "/internal/") (codes "/") (replace (codes "/public/") (codes "/") p)

unfoldable pub without_test_suffix : SplitName → Text → Text
without_test_suffix info f = elim (find_match test_file_suffix_pattern info.base_name) [
  | none ↦ f
  | some m ↦ cut (length (captured_text 1 m)) f
]

unfoldable pub cc_module : SplitName → Text → Text
cc_module info f = without_visibility (without_test_suffix info (cut (length info.extension) f))

abbrev without_inl : Text → Text
without_inl f = if ends_with (codes "-inl") f then cut 4 f else f

unfoldable pub h_module : SplitName → Text → Text
h_module info f = without_visibility (without_inl (cut (length info.extension) f))

-- The answer, and the prefix that leads to the header.
unfoldable pub same_module : Text → Text → Bool × Text
same_module cc h = if ends_with h cc then (true, cut (length h) cc) else (false, [])

unfoldable pub files_belong_to_same_module :
    FileSystem → Settings → Text → Text → Option (Bool × Text)
files_belong_to_same_module fs s filename_cc filename_h = elim (split_name fs s filename_cc) [
  | none ↦ none
  | some cc ↦
      if not (mem_text (without_period cc.extension) (get_non_header_extensions s))
      then some (false, [])
      else elim (split_name fs s filename_h) [
        | none ↦ none
        | some h ↦
            if not (is_header_extension s (without_period h.extension))
            then some (false, [])
            else some (same_module (cc_module cc filename_cc) (h_module h filename_h))
      ]
]

-- `'%s.%s' % (suffix, ext)` for each extension.
unfoldable pub with_extensions : Text → List Text → List Text
with_extensions suffix [] = []
with_extensions suffix (ext ∷ exts) = (suffix ++ (b'.' ∷ ext)) ∷ with_extensions suffix exts

unfoldable pub common_suffixes : Settings → List Text
common_suffixes s =
    let sources = get_non_header_extensions s in
    let headers = get_header_extensions s in
    with_extensions (codes "test") sources
    ++ (with_extensions (codes "regtest") sources
        ++ (with_extensions (codes "unittest") sources
            ++ (with_extensions (codes "inl") headers
                ++ (with_extensions (codes "imp") headers
                    ++ with_extensions (codes "internal") headers))))

abbrev is_joint : ℕ → Bool
is_joint c = c == b'-' || c == b'_'

unfoldable pub drop_suffix : List Text → Text → Text
drop_suffix [] f = (splitext f).0
drop_suffix (suffix ∷ suffixes) f =
    let later = drop_suffix suffixes f in
    let k = length f - length suffix - 1 in
    if ends_with suffix f && ltb (length suffix) (length f) && is_joint (get_or f k 0)
    then take k f
    else later

unfoldable pub drop_common_suffixes : Settings → Text → Text
drop_common_suffixes s f = drop_suffix (common_suffixes s) f

-- `error` is called with the line of the first include that is not 0, or with None.
pub record MissingHeader : Type 0 where
  pub first_include : Option ℕ
  pub message : Text

-- The loop over the includes: `inl` where one of them is the header.
unfoldable pub names_header : Text → List (Text × ℕ) → Bool
names_header header [] = false
names_header header ((include, n) ∷ fs) =
    contains header include || contains include header || names_header header fs

unfoldable pub first_line : List (Text × ℕ) → Option ℕ
first_line [] = none
first_line ((include, zero) ∷ fs) = elim (first_line fs) [ none ↦ some 0 | some n ↦ some n ]
first_line ((include, suc n) ∷ fs) = some (suc n)

unfoldable pub flatten : List (List (Text × ℕ)) → List (Text × ℕ)
flatten [] = []
flatten (l ∷ ls) = l ++ flatten ls

-- What one extension leads to: the next one is looked at, or the function returns.
unfoldable pub check_headers :
    FileSystem → Settings → Text → Text → List (Text × ℕ) → List Text → Option (List MissingHeader)
check_headers fs s f base includes [] = some []
check_headers fs s f base includes (ext ∷ exts) =
    let headerfile = base ++ (b'.' ∷ ext) in
    let later = check_headers fs s f base includes exts in
    if not (fs.exists headerfile) then later else elim (repository_name fs s headerfile) [
      | none ↦ none
      | some headername ↦
          if names_header headername includes then some [] else elim (repository_name fs s f) [
            | none ↦ none
            | some name ↦ elim later [
              | none ↦ none
              | some rest ↦ some (
                  record {
                    first_include = first_line includes;
                    message = name ++ (codes " should include its header file " ++ headername);
                  }
                  ∷ rest)
            ]
          ]
    ]

-- `none` where the loop of `RepositoryName` does not end.
unfoldable pub check_header_file_included :
    FileSystem → Settings → Text → IncludeState → Option (List MissingHeader)
check_header_file_included fs s f state = elim (split_name fs s f) [
  | none ↦ none
  | some info ↦
      if found test_file_suffix_pattern info.base_name
      then some []
      else check_headers fs s f (take (length f - length info.extension) f)
          (flatten state.include_list) (get_header_extensions s)
]
