-- ===== src/Samples/Style.antt =====
-- The checks of a line's style, of build_support/cpplint.py, at a concrete input.
use turtle.Common.{◌≡◌, refl, false, List, [], ◌∷◌, some}
use turtle.Common.Text.{codes, mem_text, eq_text}
use turtle.Report.{Action}
use turtle.Cleanse.{CleansedLines, cleansed_lines}
use turtle.Listed.{Raised}
use turtle.Nesting
use turtle.Paths.{FileSystem, initial_settings}
use turtle.Paths.Extensions.{is_header_extension, get_header_extensions}
use turtle.Style.Width.{Unicode}
use turtle.Style.Lines.{check_style, check_style-Raised, guards_header, style_actions}

abbrev pub no_files : FileSystem
no_files = record { exists = λ _. false; cwd = codes "/work" }

abbrev pub ascii : Unicode
ascii = record { nfc = λ s. s; is_wide = λ _. false; is_combining = λ _. false }

abbrev lines : CleansedLines
lines = cleansed_lines (codes "// d" ∷ codes "if (a and b) { x=1; };" ∷ codes "// end" ∷ [])

abbrev actions : List Action
actions = style_actions ascii 80 (codes "a.cc") lines 1 turtle.Nesting.initial false

style_run :
    check_style no_files initial_settings ascii
      (codes "a.cc")
      lines
      1
      (codes "cc")
      turtle.Nesting.initial
    ≡ some actions
unfolding check_style guards_header is_header_extension get_header_extensions initial_settings
    mem_text eq_text codes
style_run = refl

check_style-Raised_example : Raised (codes "a.cc") 1 actions
check_style-Raised_example =
    check_style-Raised no_files initial_settings ascii (codes "a.cc") lines 1 (codes "cc")
      turtle.Nesting.initial actions style_run
