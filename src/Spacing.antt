-- ===== src/Spacing.antt =====
-- build_support/cpplint.py: the checks of blanks in a line.
pub mod Comments
pub mod Lines
pub mod Calls
pub mod Operators
pub mod Types
