-- ===== src/Calculation/Bounds.antt =====
-- The mean that `ArithmeticMean::calculate` computes lies between `minOffset` and `maxOffset`
-- (src/flashptp/calculation/arithmeticMean.cpp, calculation.cpp).
use flashptpd.Prelude.{
  ℕ, suc, ◌≤◌, ◌<◌, ◌≡◌, refl, ap, sym, ◌∙◌, inl, inr, true, leb, List, [], ◌∷◌, arith, length, All,
  Bool-cases, ltb→lt, ltb→ge,
}
use flashptpd.Prelude.Int.{
  ℤ, pos, negsuc, ◌+ℤ◌, ◌*ℤ◌, ◌≤ℤ◌, ltb_ℤ, quot, max_ℤ, min_ℤ, int_laws, eq_of_parts,
}
use mathlib.Core.Path.{subst}
use flashptpd.Prelude.Doubles.{Doubles}
use flashptpd.Client.Sequence.{Sequence, mean_path_delay}
use flashptpd.Calculation.{
  Calculation, min_from, max_from, min_offset, max_offset, sum_rest, mean_of,
  arithmetic_mean_calculate,
}

-- `v` is at most the start and every offset, or at least.
abbrev IsLower : ℤ → ℤ → List Sequence → Type 0
IsLower v m xs = (v ≤ℤ m) × All (λ y. v ≤ℤ y.offset) xs

abbrev IsUpper : ℤ → ℤ → List Sequence → Type 0
IsUpper v m xs = (m ≤ℤ v) × All (λ y. y.offset ≤ℤ v) xs

min_from-IsLower : (m : ℤ) (xs : List Sequence) → IsLower (min_from m xs) m xs
unfolding min_from
min_from-IsLower m [] = (omega arith, tt)
min_from-IsLower m (x ∷ xs) = elim (Bool-cases (ltb_ℤ x.offset m)) [
  | inl e ↦
      let rest = min_from-IsLower x.offset xs in
      let step : min_from m (x ∷ xs) ≡ min_from x.offset xs = rw e in
      subst (λ v. IsLower v m (x ∷ xs)) (sym step) (omega (arith, ltb→lt _ _ e, rest.0), rest)
  | inr e ↦
      let rest = min_from-IsLower m xs in
      let step : min_from m (x ∷ xs) ≡ min_from m xs = rw e in
      subst (λ v. IsLower v m (x ∷ xs)) (sym step)
        (rest.0, (omega (arith, ltb→ge _ _ e, rest.0), rest.1))
]

max_from-IsUpper : (m : ℤ) (xs : List Sequence) → IsUpper (max_from m xs) m xs
unfolding max_from
max_from-IsUpper m [] = (omega arith, tt)
max_from-IsUpper m (x ∷ xs) = elim (Bool-cases (ltb_ℤ m x.offset)) [
  | inl e ↦
      let rest = max_from-IsUpper x.offset xs in
      let step : max_from m (x ∷ xs) ≡ max_from x.offset xs = rw e in
      subst (λ v. IsUpper v m (x ∷ xs)) (sym step) (omega (arith, ltb→lt _ _ e, rest.0), rest)
  | inr e ↦
      let rest = max_from-IsUpper m xs in
      let step : max_from m (x ∷ xs) ≡ max_from m xs = rw e in
      subst (λ v. IsUpper v m (x ∷ xs)) (sym step)
        (rest.0, (omega (arith, ltb→ge _ _ e, rest.0), rest.1))
]

-- The sum of a measure over a window.
pub sum : (Sequence → ℤ) → List Sequence → ℤ
sum f [] = pos 0
sum f (x ∷ xs) = f x +ℤ sum f xs

scale_suc : (a : ℤ) (n : ℕ) → a *ℤ suc n ≡ a *ℤ n +ℤ a
unfolding ◌*ℤ◌ ◌+ℤ◌
scale_suc (pos a) n = grind arith
scale_suc (negsuc a) n = grind arith

sum-ge :
    (f : Sequence → ℤ) (lo : ℤ) (xs : List Sequence)
    → All (λ y. lo ≤ℤ f y) xs
    → lo *ℤ length xs ≤ℤ sum f xs
unfolding sum
sum-ge f lo [] h = unfold ◌*ℤ◌ in ground arith
sum-ge f lo (x ∷ xs) h = rw (scale_suc lo (length xs)) (omega (int_laws, sum-ge f lo xs h.1, h.0))

sum-le :
    (f : Sequence → ℤ) (hi : ℤ) (xs : List Sequence)
    → All (λ y. f y ≤ℤ hi) xs
    → sum f xs ≤ℤ hi *ℤ length xs
unfolding sum
sum-le f hi [] h = unfold ◌*ℤ◌ in ground arith
sum-le f hi (x ∷ xs) h = rw (scale_suc hi (length xs)) (omega (int_laws, sum-le f hi xs h.1, h.0))

le-quot : (a lo : ℤ) (n : ℕ) → 0 < n → lo *ℤ n ≤ℤ a → lo ≤ℤ quot a n
unfolding quot ◌*ℤ◌
le-quot (pos a) (pos lo) n h k = grind arith
le-quot (pos a) (negsuc lo) n h k = grind arith
le-quot (negsuc a) (pos lo) n h k = grind arith
le-quot (negsuc a) (negsuc lo) n h k = grind arith

quot-le : (a hi : ℤ) (n : ℕ) → 0 < n → a ≤ℤ hi *ℤ n → quot a n ≤ℤ hi
unfolding quot ◌*ℤ◌
quot-le (pos a) (pos hi) n h k = grind arith
quot-le (pos a) (negsuc hi) n h k = grind arith
quot-le (negsuc a) (pos hi) n h k = grind arith
quot-le (negsuc a) (negsuc hi) n h k = grind arith

module _ (D : Doubles) where
  open D use {Double, of_int}

  sum_rest-sum :
      (prev : Sequence) (xs : List Sequence) (d o : ℤ) (r : Double)
      → ((sum_rest D prev xs d o r).0 ≡ d +ℤ sum mean_path_delay xs)
        × ((sum_rest D prev xs d o r).1 ≡ o +ℤ sum (λ s. s.offset) xs)
  unfolding sum_rest sum
  sum_rest-sum prev [] d o r = (eq_of_parts _ _ (omega int_laws), eq_of_parts _ _ (omega int_laws))
  sum_rest-sum prev (x ∷ xs) d o r =
      let rest = sum_rest-sum x xs (d +ℤ mean_path_delay x) (o +ℤ x.offset) _ in
      (rest.0 ∙ eq_of_parts _ _ (omega int_laws), rest.1 ∙ eq_of_parts _ _ (omega int_laws))

  -- What `ArithmeticMean::calculate` leaves in a window `xs`.
  pub record IsMean (xs : List Sequence) (size : ℕ) (r : Calculation Double) : Type 0 where
    pub valid : r.is_valid ≡ true
    pub delay : r.delay_value ≡ quot (sum mean_path_delay xs) (length xs)
    pub offset : r.offset_value ≡ quot (sum (λ s. s.offset) xs) (length xs)
    pub loaded : r.adjustment ≡ leb size (length xs)
    pub kept : r.sequences ≡ xs

  mean_of-IsMean :
      (xs : List Sequence) (c : Calculation Double)
      → c.sequences ≡ xs
      → 2 ≤ length xs
      → IsMean xs c.size (mean_of D xs c)
  unfolding mean_of sum
  mean_of-IsMean [] c e h = absurd (omega arith)
  mean_of-IsMean (x ∷ []) c e h = absurd (omega arith)
  mean_of-IsMean (x ∷ y ∷ xs) c e h =
      let sums =
        sum_rest-sum x (y ∷ xs) (pos 0 +ℤ mean_path_delay x) (pos 0 +ℤ x.offset) (of_int (pos 0)) in
      record {
        valid = refl;
        delay = ap (λ t. quot t (length (x ∷ y ∷ xs))) (sums.0 ∙ eq_of_parts _ _ (omega int_laws));
        offset = ap (λ t. quot t (length (x ∷ y ∷ xs))) (sums.1 ∙ eq_of_parts _ _ (omega int_laws));
        loaded = refl;
        kept = e;
      }

  module _ (c : Calculation Double) (enough : 2 ≤ length c.sequences) where
    -- With at least two sequences `ArithmeticMean::calculate` makes the calculation valid, its delay
    -- and offset the truncated means over the window, and asks for an adjustment exactly when the
    -- window is fully loaded.
    pub arithmetic_mean_calculate-IsMean : IsMean c.sequences c.size (arithmetic_mean_calculate D c)
    unfolding arithmetic_mean_calculate
    arithmetic_mean_calculate-IsMean = mean_of-IsMean c.sequences c refl enough

    -- With at least two sequences, the offset that `ArithmeticMean::calculate` sets lies between what
    -- `minOffset` and `maxOffset` say of the window.
    mean_between :
        (min_offset c ≤ℤ (arithmetic_mean_calculate D c).offset_value)
        × ((arithmetic_mean_calculate D c).offset_value ≤ℤ max_offset c)
    unfolding min_offset max_offset
    mean_between =
        let lower = min_from-IsLower max_ℤ c.sequences in
        let upper = max_from-IsUpper min_ℤ c.sequences in
        rw arithmetic_mean_calculate-IsMean.offset (
          le-quot _ _ (length c.sequences) (omega arith)
              (sum-ge (λ s. s.offset) _ c.sequences lower.1),
          quot-le _ _ (length c.sequences) (omega arith)
              (sum-le (λ s. s.offset) _ c.sequences upper.1),
        )
