-- ===== src/Examples/Integers.antt =====
-- Whole numbers in place of `double`: an instance of the interface to run the model with.
use flashptpd.Prelude.{ℕ, zero, suc, ◌+◌, ◌*◌, leb, if◌then◌else◌}
use flashptpd.Prelude.Int.{ℤ, pos, negsuc, ◌+ℤ◌, ◌-ℤ◌, ◌*ℤ◌, quot, eqb_ℤ, ltb_ℤ}
use flashptpd.Prelude.Doubles.{Doubles}

abbrev mul : ℤ → ℤ → ℤ
mul x (pos n) = x *ℤ n
mul x (negsuc n) = pos 0 -ℤ x *ℤ suc n

abbrev div : ℤ → ℤ → ℤ
div x (pos n) = quot x n
div x (negsuc n) = pos 0 -ℤ quot x (suc n)

-- The whole root of a number that is not negative.
abbrev root : ℕ → ℕ
root zero = 0
root (suc n) = let r = root n in if leb ((r + 1) * (r + 1)) (suc n) then r + 1 else r

abbrev sqrt : ℤ → ℤ
sqrt (pos n) = pos (root n)
sqrt (negsuc n) = pos 0

abbrev pub integers : Doubles
integers = record {
  Double = ℤ;
  of_int = λ n. n;
  to_int = λ n. n;
  add = λ x y. x +ℤ y;
  sub = λ x y. x -ℤ y;
  mul = mul;
  div = div;
  is_zero = λ x. eqb_ℤ x (pos 0);
  less = λ x y. ltb_ℤ x y;
  square = λ x. mul x x;
  sqrt = sqrt;
}
