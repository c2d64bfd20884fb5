-- ===== src/Calculation/Keeps.antt =====
-- The methods of a calculation keep its window (src/flashptp/calculation).
use flashptpd.Prelude.{
  ℕ, ◌≡◌, refl, sym, inl, inr, List, [], ◌∷◌, arith, length, ◌==◌, Bool-cases, get_last?,
  Option-cases,
}
use mathlib.Core.Path.{subst}
use flashptpd.Prelude.Doubles.{Doubles}
use flashptpd.Client.Sequence.{Sequence}
use flashptpd.Window.Laws.{IsWindow, IsWindow-nil}
use flashptpd.Calculation.{
  Calculation, CalculationType, insert, calculate, reset, remove, remove_first,
  pass_through_calculate, arithmetic_mean_calculate, mean_of, pass_last,
}
use flashptpd.Calculation.Insert.{insert-IsPushed, insert-keeps_size}

module _ (D : Doubles) where
  open D use {Double}

  abbrev pub HasWindow : Calculation Double → Type 0
  HasWindow c = IsWindow c.size c.sequences

  HasWindow-eq :
      (c r : Calculation Double)
      → r.sequences ≡ c.sequences
      → r.size ≡ c.size
      → HasWindow c
      → HasWindow r
  HasWindow-eq c r p q h = rw (p, q) h

  pub insert-HasWindow :
      (s : Sequence) (c : Calculation Double) → HasWindow c → HasWindow (insert s c)
  insert-HasWindow s c h =
      subst (λ n. IsWindow n (insert s c).sequences) (sym (insert-keeps_size s c))
        (insert-IsPushed s c h).window

  pass_last-keeps :
      (s : Sequence) (c : Calculation Double)
      → ((pass_last D s c).sequences ≡ c.sequences) × ((pass_last D s c).size ≡ c.size)
  unfolding pass_last
  pass_last-keeps s c = ground arith

  mean_of-keeps :
      (xs : List Sequence) (c : Calculation Double)
      → ((mean_of D xs c).sequences ≡ c.sequences) × ((mean_of D xs c).size ≡ c.size)
  unfolding mean_of
  mean_of-keeps [] c = (refl, refl)
  mean_of-keeps (x ∷ []) c = (refl, refl)
  mean_of-keeps (x ∷ y ∷ xs) c = (refl, refl)

  pass_through-HasWindow :
      (c : Calculation Double) → HasWindow c → HasWindow (pass_through_calculate D c)
  unfolding pass_through_calculate
  pass_through-HasWindow c h = elim (Option-cases (get_last? c.sequences)) [
    | inl e ↦ rw (e, pass_through_calculate) h
    | inr e ↦
        let k = pass_last-keeps e.0 c in
        rw (e.1, pass_through_calculate) (HasWindow-eq c (pass_last D e.0 c) k.0 k.1 h)
  ]

  arithmetic_mean_calculate-HasWindow :
      (c : Calculation Double) → HasWindow c → HasWindow (arithmetic_mean_calculate D c)
  unfolding arithmetic_mean_calculate
  arithmetic_mean_calculate-HasWindow c h =
      let k = mean_of-keeps c.sequences c in HasWindow-eq c (mean_of D c.sequences c) k.0 k.1 h

  pub calculate-HasWindow : (c : Calculation Double) → HasWindow c → HasWindow (calculate D c)
  unfolding calculate
  calculate-HasWindow c h =
      elim c.type_
        as (λ t. HasWindow (elim t [
          | CalculationType.invalid ↦ c
          | CalculationType.pass_through ↦ pass_through_calculate D c
          | CalculationType.arithmetic_mean ↦ arithmetic_mean_calculate D c
        ])) [
          | CalculationType.invalid ↦ h
          | CalculationType.pass_through ↦ pass_through-HasWindow c h
          | CalculationType.arithmetic_mean ↦ arithmetic_mean_calculate-HasWindow c h
        ]

  pub reset-HasWindow : (c : Calculation Double) → HasWindow c → HasWindow (reset D c)
  unfolding reset
  reset-HasWindow c h = IsWindow-nil c.size h.size_pos

  remove_first-IsWindow :
      (n : ℕ) (xs : List Sequence) → IsWindow n xs → IsWindow n (remove_first D xs)
  unfolding remove_first
  remove_first-IsWindow n [] h = h
  remove_first-IsWindow n (x ∷ xs) h = record {
    size_pos = h.size_pos;
    bounded = omega (arith, h.bounded);
    level = h.level;
    uniform = h.uniform.1;
  }

  pub remove-HasWindow : (c : Calculation Double) → HasWindow c → HasWindow (remove D c)
  unfolding remove reset
  remove-HasWindow c h = elim (Bool-cases (length (remove_first D c.sequences) == 0)) [
    | inl e ↦ rw e (IsWindow-nil c.size h.size_pos)
    | inr e ↦ rw e (remove_first-IsWindow c.size c.sequences h)
  ]
