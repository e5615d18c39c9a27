-- ===== src/Language.antt =====
-- build_support/cpplint.py: the checks of a line's use of the language.
pub mod Calls
pub mod Casts
pub mod Functions
pub mod Constructs
pub mod Statics
pub mod References
pub mod Lines
