-- ===== src/Checks.antt =====
-- build_support/cpplint.py: checks of a file or of a line that keep no state of their own.
pub mod Files
pub mod Lines
pub mod Inside
