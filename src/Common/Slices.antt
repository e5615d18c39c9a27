-- ===== src/Common/Slices.antt =====
-- Slices with negative bounds, and the lines of a file.
use mathlib.Core.List.{List, reverse, tail}
use mathlib.Core.Option.{Option, none, some}
use Prim.Native.Nat.{ℕ, zero, suc}
use turtle.Common.Lists.{get_elem?, last?}
use turtle.Common.Text.{Text}

-- `s[1:-1]`
unfoldable pub inner : Text → Text
inner s = reverse (tail (reverse (tail s)))

-- A line that is there, as the callers' line numbers are in range.
abbrev pub or_nil : Option Text → Text
or_nil none = List.[]
or_nil (some t) = t

abbrev pub line_at : List Text → ℕ → Text
line_at lines n = or_nil (get_elem? lines n)

-- `lines[n - 1]`, which is the last line for the first.
abbrev pub line_before : List Text → ℕ → Text
line_before lines zero = or_nil (last? lines)
line_before lines (suc n) = line_at lines n
