-- ===== src/Client/Sequence/Finish.antt =====
-- What the finished sequence measures: `finish` and `meanPathDelay`
-- (include/flashptp/client/sequence.h), against the formulas of README.md.
use flashptpd.Prelude.{◌≡◌, ap, arith}
use flashptpd.Prelude.Int.{ℤ, pos_part, neg_part, ◌+ℤ◌, ◌-ℤ◌, quot, int_laws, eq_of_parts}
use flashptpd.Wire.Timestamp.{◌-ₜ◌, ◌+ₜ◌}
use flashptpd.Wire.Interval.{nanoseconds}
use flashptpd.Client.Sequence.{Sequence, finish, mean_path_delay}

-- Half of twice a value is the value, of either sign.
quot_double : (a n : ℤ) → n ≡ a +ℤ a → quot n 2 ≡ a
unfolding quot ◌+ℤ◌
quot_double a n e = ground arith

-- The measurement is exact: if the server's clock is ahead of the client's by `theta` and both
-- messages travel for `d` beyond what their corrections account for, then `finish` computes the
-- offset `theta` and the mean path delay `d`, whatever the correction for UTC is.
pub finish_exact :
    (s : Sequence) (theta d : ℤ)
    → s.t2 -ₜ s.t1 -ℤ nanoseconds s.t2_correction ≡ theta +ℤ d
    → s.t4 -ₜ s.t3 -ℤ nanoseconds s.t4_correction ≡ d -ℤ theta
    → ((finish s).offset ≡ theta) × (mean_path_delay (finish s) ≡ d)
unfolding finish mean_path_delay
finish_exact s theta d p q = (
  quot_double theta _ (
      eq_of_parts _ _
        (omega (int_laws, ap pos_part p, ap neg_part p, ap pos_part q, ap neg_part q))),
  quot_double d _ (
      eq_of_parts _ _
        (omega (int_laws, ap pos_part p, ap neg_part p, ap pos_part q, ap neg_part q))),
)

-- The correction for UTC enters the two delays and not the offset: the offset is half of a number `n`,
-- towards zero, and the delays differ by `n` minus twice the correction; any other correction `u`
-- gives the same offset.
pub finish_utc :
    (s : Sequence) (u : ℤ)
    → let f = finish s in
      (n : ℤ) × (f.offset ≡ quot n 2)
      × (f.c2s_delay -ℤ f.s2c_delay ≡ n -ℤ s.utc_correction -ℤ s.utc_correction)
      × ((finish (record s { utc_correction = u })).offset ≡ f.offset)
unfolding finish
finish_utc s u = (
  s.t2 +ₜ s.t3 -ℤ nanoseconds s.t2_correction -ℤ (s.t1 +ₜ s.t4 -ℤ nanoseconds s.t4_correction),
  ap (λ n. quot n 2) (eq_of_parts _ _ (omega int_laws)),
  eq_of_parts _ _ (omega int_laws),
  ap (λ n. quot n 2) (eq_of_parts _ _ (omega int_laws)),
)
