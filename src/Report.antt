-- ===== src/Report.antt =====
-- What the checks of build_support/cpplint.py hand to their `error` argument, and `%d`.
use Prim.Native.Nat.{ℕ, zero, suc, ◌+◌, ◌/◌, ◌%◌}
use turtle.Common.{Bool, List, [], ◌∷◌, ◌==◌, if◌then◌else◌, ℤ, pos, negsuc}
use turtle.Common.Text.{Text}

pub record Report : Type 0 where
  pub filename : Text
  pub linenum : ℤ
  pub category : Text
  pub confidence : ℕ
  pub message : Text

abbrev pub report : Text → ℕ → Text → ℕ → Text → Report
report f l c n m = record {
  filename = f;
  linenum = pos l;
  category = c;
  confidence = n;
  message = m;
}

-- A check that reports under a test.
abbrev pub report_if : Bool → Text → ℕ → Text → ℕ → Text → List Report
report_if b f l c n m = if b then report f l c n m ∷ [] else []

-- What a check does, in order: it hands a report to `error`, or it calls
-- `ParseNolintSuppressions` on a line.
pub data Action : Type 0 where
  raise : Report → Action
  parse_nolint : Text → ℕ → Action

-- `%d`: a number has at most as many digits as its own value, and one.
digits_from : ℕ → ℕ → Text → Text
digits_from zero n out = out
digits_from (suc fuel) n out =
    let longer = digits_from fuel (n / 10) ((b'0' + n % 10) ∷ out) in
    if n / 10 == 0 then (b'0' + n % 10) ∷ out else longer

unfoldable pub decimal : ℕ → Text
unfolding digits_from
decimal n = digits_from (suc n) n []

unfoldable pub decimal_int : ℤ → Text
unfolding decimal
decimal_int (pos n) = decimal n
decimal_int (negsuc n) = b'-' ∷ decimal (suc n)
