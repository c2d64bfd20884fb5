-- ===== src/Prelude/Doubles.antt =====
-- The `double` arithmetic of C++ and the functions of <cmath> that the program calls, as an interface:
-- the development proves nothing that depends on how they round.
use flashptpd.Prelude.Int.{ℤ}
use mathlib.Core.Bool.{Bool}

pub record Doubles : Type 1 where
  pub Double : Type 0
  -- `(double)n` and the conversion back to `int64_t`
  pub of_int : ℤ → Double
  pub to_int : Double → ℤ
  pub add : Double → Double → Double
  pub sub : Double → Double → Double
  pub mul : Double → Double → Double
  pub div : Double → Double → Double
  pub is_zero : Double → Bool
  pub less : Double → Double → Bool
  -- `pow(x, 2)` and `sqrt(x)`
  pub square : Double → Double
  pub sqrt : Double → Double
