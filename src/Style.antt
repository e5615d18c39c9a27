-- ===== src/Style.antt =====
-- build_support/cpplint.py: the checks of braces, bodies, macros and tokens, and `CheckStyle`.
pub mod Width
pub mod Braces
pub mod Semicolons
pub mod Bodies
pub mod Macros
pub mod Lines
