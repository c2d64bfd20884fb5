-- ===== src/Config/Limits.antt =====
-- What the tests of a number promise of the value that is stored (src/flashptp/client/server.cpp,
-- src/flashptp/selection/selection.cpp, src/flashptp/adjustment/adjustment.cpp).
use flashptpd.Prelude.{
  ℕ, Bool, true, false, not, ◌&&◌, ◌==◌, ◌≡◌, ◌≢◌, refl, List, [], ◌∷◌, Option, none, some, arith,
  ◌⊎◌, inl, inr, All,
}
use flashptpd.Prelude.Int.{ℤ, pos, negsuc, ◌-ℤ◌, ◌≤ℤ◌, ltb_ℤ}
use flashptpd.Prelude.Doubles.{Doubles}
use flashptpd.Config.{
  JsonApi, value_or, an_integer, an_unsigned, a_port, typed, to_unsigned, to_signed,
}
use flashptpd.Config.Sound.{Passes}

-- The elements of two lists correspond.
abbrev pub Each : {A B : Type 0} → (A → B → Type 0) → List A → List B → Type 0
Each P [] [] = Unit
Each P [] (y ∷ ys) = ⊥
Each P (x ∷ xs) [] = ⊥
Each P (x ∷ xs) (y ∷ ys) = P x y × Each P xs ys

pub Each-All :
    {A B : Type 0} (P : B → Type 0) (xs : List A) (ys : List B) → Each (λ x y. P y) xs ys → All P ys
Each-All P [] [] h = tt
Each-All P [] (y ∷ ys) h = absurd h
Each-All P (x ∷ xs) [] h = absurd h
Each-All P (x ∷ xs) (y ∷ ys) h = (h.0, Each-All P xs ys h.1)

port_kept :
    (z : ℤ)
    → not (ltb_ℤ (to_signed 32 z) (pos 0)) && not (ltb_ℤ (pos 65535) (to_signed 32 z)) ≡ true
    → pos (to_unsigned 16 z) ≡ to_signed 32 z
unfolding to_signed to_unsigned ◌-ℤ◌
port_kept (pos n) h = ground arith
port_kept (negsuc n) h = ground arith

zero_cut : (z : ℤ) → to_signed 64 z ≡ pos 0 → to_unsigned 32 z ≡ 0
unfolding to_signed to_unsigned ◌-ℤ◌
zero_cut (pos n) h = ground arith
zero_cut (negsuc n) h = ground arith

pub typed-both : (a b : Bool) → typed a b ≡ none → (a ≡ true) × (b ≡ true)
typed-both a b h = ground arith

within : (lo hi z : ℤ) → not (ltb_ℤ z lo) && not (ltb_ℤ hi z) ≡ true → (lo ≤ℤ z) × (z ≤ℤ hi)
within lo hi z h = ground arith

-- The lower limit of the state interval: the request interval, if one is given.
abbrev pub lowest : {A : Type 0} → ℤ → Option A → ℤ → ℤ
lowest garbage none z = garbage
lowest garbage (some i) z = z

module _ (D : Doubles) (J : JsonApi D) where
  open D use {Double, less}
  open J use {Json, is_number, is_number_integer, is_number_unsigned, get_integer, get_double}

  -- A port is the whole number that is given, or the default.
  abbrev pub IsPort : Option Json → ℕ → ℕ → Type 0
  IsPort none default port = port ≡ default
  IsPort (some i) default port = pos port ≡ to_signed 32 (get_integer i)

  pub accepted-IsPort :
      (default : ℕ) (found : Option Json)
      → Passes false (a_port D J) found
      → IsPort found default (value_or (λ i. to_unsigned 16 (get_integer i)) default found)
  accepted-IsPort default none h = refl
  accepted-IsPort default (some i) h =
      port_kept (get_integer i) (typed-both (is_number_integer i) _ h).1

  -- A state interval is between the lower limit and 7, or 0x7f where none is given.
  abbrev pub IsStateInterval : Option Json → ℤ → ℤ → Type 0
  IsStateInterval none lo z = z ≡ pos 0x7f
  IsStateInterval (some i) lo z = (lo ≤ℤ z) × (z ≤ℤ pos 7)

  pub accepted-IsStateInterval :
      (lo : ℤ) (found : Option Json)
      → Passes false (an_integer D J 8 lo (pos 7)) found
      → IsStateInterval found lo (value_or (λ i. to_signed 8 (get_integer i)) (pos 0x7f) found)
  accepted-IsStateInterval lo none h = refl
  accepted-IsStateInterval lo (some i) h =
      within lo (pos 7) (to_signed 8 (get_integer i)) (typed-both (is_number_integer i) _ h).1

  pub nonzero_threshold :
      (found : Option Json)
      → Passes false (an_unsigned D J (λ n. not (n == 0))) found
      → value_or (λ i. to_signed 64 (get_integer i)) (pos 1500000000) found ≢ pos 0
  nonzero_threshold none h e = absurd (cc)
  nonzero_threshold (some i) h e =
      let cut = zero_cut (get_integer i) e in
      let b = (typed-both (is_number_unsigned i) _ h).1 in absurd (ground arith)

  -- A ratio is between its limits, or the default where none is given.
  abbrev pub IsRatio : Double → Double → Double → Double → Type 0
  IsRatio default lo hi x = (x ≡ default) ⊎ ((less x lo ≡ false) × (less hi x ≡ false))

  pub accepted-IsRatio :
      (default lo hi : Double) (found : Option Json)
      → Passes false
          (λ i. typed (is_number i) (not (less (get_double i) lo) && not (less hi (get_double i))))
          found
      → IsRatio default lo hi (value_or get_double default found)
  accepted-IsRatio default lo hi none h = inl refl
  accepted-IsRatio default lo hi (some i) h =
      let b = (typed-both (is_number i) _ h).1 in inr (ground arith, ground arith)
