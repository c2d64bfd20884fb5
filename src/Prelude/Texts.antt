-- ===== src/Prelude/Texts.antt =====
-- Texts as the codes of their characters: what the program compares of strings.
use Prim.Native.Char.{code}
use Prim.Native.String.{String}
use Prim.Native.Nat.{ℕ}
use mathlib.Core.Path.{◌≡◌, refl, sym, ◌∙◌}
use mathlib.Core.Bool.{Bool, true, false, ◌&&◌}
use mathlib.Core.Logic.{inl, inr}
use mathlib.Core.List.{List, [], ◌∷◌}
use native.Mathlib.Omega.{arith}
use flashptpd.Prelude.Tests.{◌==◌, Bool-cases}

abbrev pub Text : Type 0
Text = List ℕ

unfoldable pub codes : String → Text
codes String.[] = []
codes (String.◌∷◌ c s) = code c ∷ codes s

-- `==` of strings, on their codes.
unfoldable pub same_codes : Text → Text → Bool
same_codes [] [] = true
same_codes [] (d ∷ ds) = false
same_codes (c ∷ cs) [] = false
same_codes (c ∷ cs) (d ∷ ds) = c == d && same_codes cs ds

pub same_codes_refl : (t : Text) → same_codes t t ≡ true
unfolding same_codes
same_codes_refl [] = refl
same_codes_refl (c ∷ t) = grind (arith, same_codes_refl t)

both : (a b : Bool) → a && b ≡ true → (a ≡ true) × (b ≡ true)
both a b h = ground arith

equal : (a b : ℕ) → a == b ≡ true → a ≡ b
equal a b h = ground arith

pub same_codes→≡ : (t u : Text) → same_codes t u ≡ true → t ≡ u
unfolding same_codes
same_codes→≡ [] [] h = refl
same_codes→≡ [] (d ∷ u) h = absurd (cc)
same_codes→≡ (c ∷ t) [] h = absurd (cc)
same_codes→≡ (c ∷ t) (d ∷ u) h =
    let parts = both (c == d) (same_codes t u) h in cc (equal c d parts.0, same_codes→≡ t u parts.1)

pub same_codes_comm : (t u : Text) → same_codes t u ≡ same_codes u t
same_codes_comm t u = elim (Bool-cases (same_codes t u)) [
  | inl e ↦ let same = same_codes→≡ t u e in let back = same_codes_refl u in cc (same, e, back)
  | inr e ↦ elim (Bool-cases (same_codes u t)) [
    | inr f ↦ e ∙ sym f
    | inl f ↦ let same = same_codes→≡ u t f in let back = same_codes_refl u in cc (same, f, back)
  ]
]
