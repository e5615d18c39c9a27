-- ===== src/Samples/Driver.antt =====
-- `ProcessFileData` of build_support/cpplint.py at a concrete input.
use turtle.Common.{none, some, [], ◌∷◌, ◌≡◌, ◌↔◌, ◌⊎◌, last?}
use turtle.Common.Text.{codes}
use turtle.Listed.{Yields}
use turtle.Paths.{initial_settings}
use turtle.Samples.Style.{no_files, ascii}
use turtle.Checks.Files.{check_for_newline_at_eof}
use turtle.Driver.{Environment, process_file_data, with_markers, file_lines}
use turtle.Driver.Newline.{check_for_newline_at_eof_iff}
use turtle.Driver.Lines.{ListedChecks}
use turtle.Driver.Effects.{Known, process_file_data-Known}

abbrev environment : Environment
environment = record {
  files = no_files;
  settings = initial_settings;
  unicode = ascii;
  verbose_level = 1;
  read = λ _. none;
  extra_checks = [];
}

no_extra_checks : ListedChecks environment
unfolding ListedChecks
no_extra_checks = tt

process_file_data-Known_example : Yields (Known (codes "a.cc")) (
    process_file_data environment
      (codes "a.cc")
      (codes "cc")
      (codes "#include <vector>" ∷ codes "if (a and b) { x=1; };" ∷ []))
process_file_data-Known_example =
    process_file_data-Known environment (codes "a.cc") (codes "cc")
      (codes "#include <vector>" ∷ codes "if (a and b) { x=1; };" ∷ []) no_extra_checks

check_for_newline_at_eof_iff_example :
    (check_for_newline_at_eof (codes "a.cc") (with_markers (file_lines (codes "int x;\n"))) ≡ [])
    ↔ ((codes "int x;\n" ≡ []) ⊎ (last? (codes "int x;\n") ≡ some b'\n'))
check_for_newline_at_eof_iff_example =
    check_for_newline_at_eof_iff (codes "a.cc") (codes "int x;\n")
