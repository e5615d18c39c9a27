-- ===== src/Samples.antt =====
-- The theorems at concrete inputs, and runs of the code.
mod State
mod Includes
mod Driver
mod Expression
mod Functions
mod Nesting
mod Cleanse
mod Checks
mod Style
mod Paths
