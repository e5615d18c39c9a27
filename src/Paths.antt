-- ===== src/Paths.antt =====
-- build_support/cpplint.py: the options that the names of files depend on.
pub mod Os
pub mod Extensions
pub mod Info
pub mod Guard
pub mod Modules
pub mod Ancestors
use turtle.Common.{ℕ, Bool, List, []}
use turtle.Common.Text.{Text}

-- What the names are looked up in: `os.path.exists` and the current directory.
pub record FileSystem : Type 0 where
  pub exists : Text → Bool
  pub cwd : Text

-- `_root`, `_repository`, `_hpp_headers`, `_valid_extensions` and `_line_length`; `[]` is None. A
-- set is the list of its elements in the order of iteration.
pub record Settings : Type 0 where
  pub root : Text
  pub repository : Text
  pub hpp_headers : List Text
  pub valid_extensions : List Text
  pub line_length : ℕ

unfoldable pub initial_settings : Settings
initial_settings = record {
  root = [];
  repository = [];
  hpp_headers = [];
  valid_extensions = [];
  line_length = 80;
}
