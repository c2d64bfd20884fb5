-- ===== src/Selection/Order.antt =====
-- `BTCA::compare` orders the data sets (src/flashptp/selection/btca.cpp).
use flashptpd.Prelude.{ℕ, ◌≡◌, sym, ◌∙◌, Bool, true, false, arith, ltb, ◌==◌, if◌then◌else◌, not}
use flashptpd.Prelude.Int.{ℤ, pos, negsuc, ◌-ℤ◌, ltb_ℤ}
use flashptpd.Wire.Tlv.{ServerStateDs}
use flashptpd.Selection.{compare, better_ds}

-- Lexicographic order: the first numbers decide unless they are equal.
abbrev pub lex : ℕ → ℕ → Bool → Bool
lex x y r = if ltb x y then true else if x == y then r else false

-- The order of the best time transmitter algorithm: the data sets' fields in the order of IEEE 1588.
abbrev pub precedes : ServerStateDs → ServerStateDs → Bool
precedes a b = lex a.gm_priority1 b.gm_priority1 (
    lex a.gm_clock_class b.gm_clock_class (
      lex a.gm_clock_accuracy b.gm_clock_accuracy (
        lex a.gm_clock_variance b.gm_clock_variance (
          lex a.gm_priority2 b.gm_priority2
            (lex a.gm_clock_id b.gm_clock_id (ltb a.steps_removed b.steps_removed))))))

difference-lex :
    (x y : ℕ) (d : ℤ) (r : Bool)
    → ltb_ℤ (pos 0) d ≡ r
    → ltb_ℤ (pos 0) (if not (x == y) then pos x -ℤ pos y else d) ≡ lex y x r
unfolding ◌-ℤ◌
difference-lex x y d r e = ground arith

sign-lex :
    (x y : ℕ) (d : ℤ) (r : Bool)
    → ltb_ℤ (pos 0) d ≡ r
    → ltb_ℤ (pos 0) (if not (x == y) then if ltb x y then negsuc 0 else pos 1 else d) ≡ lex y x r
sign-lex x y d r e = ground arith

last-lex : (x y : ℕ) → ltb_ℤ (pos 0) (pos x -ℤ pos y) ≡ ltb y x
unfolding ◌-ℤ◌
last-lex x y = ground arith

-- `compare` takes a data set for better than another exactly when it comes first in the order of the
-- fields: priority 1, class, accuracy, variance, priority 2, identity, steps removed.
pub better_ds-precedes : (a b : ServerStateDs) → better_ds a b ≡ precedes a b
unfolding better_ds compare
better_ds-precedes a b = difference-lex b.gm_priority1 a.gm_priority1 _ _ (
    difference-lex b.gm_clock_class a.gm_clock_class _ _ (
      difference-lex b.gm_clock_accuracy a.gm_clock_accuracy _ _ (
        difference-lex b.gm_clock_variance a.gm_clock_variance _ _ (
          difference-lex b.gm_priority2 a.gm_priority2 _ _ (
            sign-lex b.gm_clock_id a.gm_clock_id _ _ (last-lex b.steps_removed a.steps_removed))))))

lex_trans :
    (x y z : ℕ) (r s t : Bool)
    → (r ≡ true → s ≡ true → t ≡ true)
    → lex x y r ≡ true
    → lex y z s ≡ true
    → lex x z t ≡ true
lex_trans x y z r s t f p q = ground arith

ltb_trans : (x y z : ℕ) → ltb x y ≡ true → ltb y z ≡ true → ltb x z ≡ true
ltb_trans x y z p q = ground arith

precedes_trans :
    (a b c : ServerStateDs) → precedes a b ≡ true → precedes b c ≡ true → precedes a c ≡ true
precedes_trans a b c = lex_trans a.gm_priority1 b.gm_priority1 c.gm_priority1 _ _ _ (
    lex_trans a.gm_clock_class b.gm_clock_class c.gm_clock_class _ _ _ (
      lex_trans a.gm_clock_accuracy b.gm_clock_accuracy c.gm_clock_accuracy _ _ _ (
        lex_trans a.gm_clock_variance b.gm_clock_variance c.gm_clock_variance _ _ _ (
          lex_trans a.gm_priority2 b.gm_priority2 c.gm_priority2 _ _ _ (
            lex_trans a.gm_clock_id b.gm_clock_id c.gm_clock_id _ _ _
              (ltb_trans a.steps_removed b.steps_removed c.steps_removed))))))

-- Being better is transitive, and no data set is better than itself.
pub better_ds_trans :
    (a b c : ServerStateDs) → better_ds a b ≡ true → better_ds b c ≡ true → better_ds a c ≡ true
better_ds_trans a b c p q =
    better_ds-precedes a c
    ∙ precedes_trans a b c (sym (better_ds-precedes a b) ∙ p) (sym (better_ds-precedes b c) ∙ q)

pub better_ds-irreflexive : (a : ServerStateDs) → better_ds a a ≡ false
unfolding better_ds compare ◌-ℤ◌
better_ds-irreflexive a = ground arith
