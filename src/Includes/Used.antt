-- ===== src/Includes/Used.antt =====
-- build_support/cpplint.py: `UpdateIncludeState` and `CheckForIncludeWhatYouUse`.
use turtle.Common.{
  ℕ, suc, Bool, true, false, not, ◌&&◌, ◌||◌, List, [], ◌∷◌, ◌++◌, Option, none, some, ◌==◌, ltb,
  if◌then◌else◌, take, any,
}
use turtle.Common.Text.{Text, codes, eq_text, gt_text, starts_with, ends_with, contains}
use turtle.Regex.{
  Regex, word_edge, at_end, word, seq, find_match, found, captured_text, replace_all, locate,
}
use turtle.Report.{Report, report_if}
use turtle.Cleanse.{CleansedLines}
use mathlib.Core.List.{reverse}
use turtle.Includes.{IncludeState}
use turtle.Includes.Lines.{include_line_pattern}
use turtle.Includes.Templates.{Entry, pattern_headers_maybe_templates, pattern_templates}
use turtle.Cleanse.{cleanse_comments}
use turtle.Paths.{FileSystem, Settings}
use turtle.Paths.Os.{is_nil}
use turtle.Paths.Extensions.{get_non_header_extensions}
use turtle.Paths.Info.{full_name}
use turtle.Paths.Modules.{files_belong_to_same_module, flatten}

-- A dictionary, in the order of insertion: `m[h] = v`, `h in m`, and `m.setdefault(h, v)`.
unfoldable pub assign {ℓ} : {A : Type ℓ} → Text → A → List (Text × A) → List (Text × A)
assign h v [] = (h, v) ∷ []
assign h v ((g, w) ∷ m) = if eq_text g h then (g, v) ∷ m else (g, w) ∷ assign h v m

unfoldable pub has_key {ℓ} : {A : Type ℓ} → Text → List (Text × A) → Bool
has_key h [] = false
has_key h ((g, w) ∷ m) = eq_text g h || has_key h m

unfoldable pub set_default : Text → ℕ → List (Text × ℕ) → List (Text × ℕ)
set_default h n m = if has_key h m then m else m ++ ((h, n) ∷ [])

-- `required`: for a header, the line and what is used of it.
abbrev pub Required : Type 0
Required = List (Text × (ℕ × Text))

-- `\bstring\b`
unfoldable pub string_pattern : Regex
unfolding seq word
string_pattern = seq (word_edge ∷ word "string" ∷ word_edge ∷ [])

-- Does the prefix of a name not put it into another namespace than `std`.
unfoldable pub in_std : Text → Bool
in_std prefix = ends_with (codes "std::") prefix || not (ends_with (codes "::") prefix)

unfoldable pub require_string : ℕ → Text → Required → Required
require_string n line required = elim (locate string_pattern line) [
  | none ↦ required
  | some m ↦
      if in_std (take m.0 line)
      then assign (codes "<string>") (n, codes "string") required
      else required
]

unfoldable pub require_maybe : ℕ → Text → List Entry → Required → Required
require_maybe n line [] required = required
require_maybe n line (e ∷ es) required =
    require_maybe n line es
      (if found e.pattern line then assign e.header (n, e.template) required else required)

unfoldable pub require_template : ℕ → Text → Entry → Required → Required
require_template n line e required = elim (locate e.pattern line) [
  | none ↦ required
  | some m ↦ if in_std (take m.0 line) then assign e.header (n, e.template) required else required
]

unfoldable pub require_templates : ℕ → Text → List Entry → Required → Required
require_templates n line [] required = required
require_templates n line (e ∷ es) required =
    require_templates n line es (require_template n line e required)

unfoldable pub require_line : ℕ → Text → Required → Required
require_line n line required =
    if is_nil line || starts_with (codes "#") line
    then required
    else let required' =
        require_maybe n line pattern_headers_maybe_templates (require_string n line required) in
      if not (contains (codes "<") line)
      then required'
      else require_templates n line pattern_templates required'

unfoldable pub require_lines : List Text → ℕ → Required → Required
require_lines [] n required = required
require_lines (line ∷ lines) n required = require_lines lines (suc n) (require_line n line required)

-- The loop over the lines of a header, each with its line end.
unfoldable pub update_from_lines : List Text → ℕ → List (Text × ℕ) → List (Text × ℕ)
update_from_lines [] n include_dict = include_dict
update_from_lines (line ∷ lines) n include_dict =
    update_from_lines lines (suc n)
      (elim (find_match include_line_pattern (cleanse_comments line)) [
        | none ↦ include_dict
        | some m ↦ set_default (captured_text 2 m) n include_dict
      ])

-- `read` is `io.open`: the lines of a file, or `none` for an `IOError`. `none` is False.
unfoldable pub update_include_state :
    (Text → Option (List Text)) → Text → List (Text × ℕ) → Option (List (Text × ℕ))
update_include_state read f include_dict = elim (read f) [
  | none ↦ none
  | some lines ↦ some (update_from_lines lines 1 include_dict)
]

unfoldable pub as_dict : List (Text × ℕ) → List (Text × ℕ) → List (Text × ℕ)
as_dict [] m = m
as_dict ((h, n) ∷ includes) m = as_dict includes (assign h n m)

unfoldable pub keys : List (Text × ℕ) → List Text
keys [] = []
keys ((h, n) ∷ m) = h ∷ keys m

-- `_flymake\.cc$`
unfoldable pub flymake_cc_pattern : Regex
unfolding seq word
flymake_cc_pattern = seq (word "_flymake.cc" ∷ at_end ∷ [])

-- One round of the loop over the includes: the dictionary, and `header_found`.
unfoldable pub load_header :
    (Text → Option (List Text))
    → Text
    → Bool × Text
    → List (Text × ℕ) × Bool
    → List (Text × ℕ) × Bool
load_header read header (same, common_path) (include_dict, header_found) =
    if not same
    then (include_dict, header_found)
    else elim (update_include_state read (common_path ++ header) include_dict) [
      | none ↦ (include_dict, header_found)
      | some include_dict' ↦ (include_dict', true)
    ]

unfoldable pub load_headers :
    FileSystem
    → Settings
    → (Text → Option (List Text))
    → Text
    → List Text
    → List (Text × ℕ) × Bool
    → Option (List (Text × ℕ) × Bool)
load_headers fs s read f [] loaded = some loaded
load_headers fs s read f (header ∷ headers) loaded =
    elim (files_belong_to_same_module fs s f header) [
      | none ↦ none
      | some m ↦ load_headers fs s read f headers (load_header read header m loaded)
    ]

-- `sorted(required, key=required.__getitem__)`: by the line, then by what is used.
unfoldable pub is_before : ℕ × Text → ℕ × Text → Bool
is_before (n, t) (m, u) = ltb n m || (n == m && gt_text u t)

unfoldable pub insert_required : Text × (ℕ × Text) → Required → Required
insert_required r [] = r ∷ []
insert_required r (q ∷ qs) = if is_before (q.1) (r.1) then q ∷ insert_required r qs else r ∷ q ∷ qs

unfoldable pub sort_required : Required → Required
sort_required [] = []
sort_required (r ∷ rs) = insert_required r (sort_required rs)

-- `.strip('<>"')`
unfoldable pub drop_brackets : Text → Text
drop_brackets [] = []
drop_brackets (c ∷ s) = if c == b'<' || c == b'>' || c == b'"' then drop_brackets s else c ∷ s

unfoldable pub strip_brackets : Text → Text
strip_brackets s = reverse (drop_brackets (reverse (drop_brackets s)))

unfoldable pub missing_reports : Text → List (Text × ℕ) → Required → List Report
missing_reports f include_dict [] = []
missing_reports f include_dict ((header, (n, template)) ∷ rs) =
    report_if (not (has_key (strip_brackets header) include_dict)) f n
      (codes "build/include_what_you_use") 4
      (codes "Add #include " ++ (header ++ (codes " for " ++ template)))
    ++ missing_reports f include_dict rs

-- `filename` has one of the extensions of a source.
unfoldable pub is_source : Settings → Text → Bool
is_source s f = any (λ ext. ends_with (b'.' ∷ ext) f) (get_non_header_extensions s)

unfoldable pub loaded_reports : Settings → Text → Required → List (Text × ℕ) × Bool → List Report
loaded_reports s f required (include_dict, header_found) =
    if not header_found && is_source s f
    then []
    else missing_reports f include_dict (sort_required required)

-- `none` where the loop of `RepositoryName` does not end.
unfoldable pub check_for_include_what_you_use :
    FileSystem
    → Settings
    → (Text → Option (List Text))
    → Text
    → CleansedLines
    → IncludeState
    → Option (List Report)
check_for_include_what_you_use fs s read f clean state =
    let include_dict = as_dict (flatten state.include_list) [] in
    let abs_filename = replace_all flymake_cc_pattern (codes ".cc") (full_name fs f) in
    elim (load_headers fs s read abs_filename (keys include_dict) (include_dict, false)) [
      | none ↦ none
      | some loaded ↦ some (loaded_reports s f (require_lines clean.elided 0 []) loaded)
    ]
