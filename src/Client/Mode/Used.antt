-- ===== src/Client/Mode/Used.antt =====
-- What the client mode selects, and that it uses a measurement once (src/flashptp/client/clientMode.cpp,
-- src/flashptp/selection and src/flashptp/adjustment).
use flashptpd.Prelude.{
  ℕ, ◌≡◌, ◌<◌, inl, inr, true, false, Bool-cases, List, some, All, length, get_elem?,
}
use flashptpd.Prelude.Int.{ℤ}
use flashptpd.Prelude.Doubles.{Doubles}
use flashptpd.Calculation.{has_adjustment}
use flashptpd.Client.Server.{Server}
use flashptpd.Selection.{Selection, is_member}
use flashptpd.Selection.Ready.{
  IsSelectable, All-member, select_std_dev-IsSelectable, select_btca-IsSelectable,
}
use flashptpd.Adjustment.{Adjustment, finalize}
use flashptpd.Adjustment.Once.{finalize-IsUnused}
use flashptpd.Config.Names.{SelectionType}
use flashptpd.Client.Mode.{select}

module _ (D : Doubles) where
  open D use {Double}

  clash :
      (i : ℕ) (servers : List (Server Double)) (x y : Server Double)
      → get_elem? servers i ≡ some x
      → get_elem? servers i ≡ some y
      → has_adjustment x.calculation ≡ false
      → has_adjustment y.calculation ≡ true
      → ⊥
  clash i servers x y f g u v = cc

  -- Each server that is selected for a clock, by whichever algorithm, is one of the list that keeps the
  -- time of that clock, is ready at least, is not excluded from the selection, has a delay within the
  -- threshold, and has a new adjustment to offer.
  select-IsSelectable :
      (type_ : SelectionType) (s : Selection) (clock : ℤ) (servers : List (Server Double))
      → All (IsSelectable D s clock servers) (select D type_ s clock servers).1
  unfolding select
  select-IsSelectable SelectionType.invalid s clock servers = tt
  select-IsSelectable SelectionType.std_dev s clock servers =
      select_std_dev-IsSelectable D s clock servers
  select-IsSelectable SelectionType.btca s clock servers =
      select_btca-IsSelectable D s clock servers

  -- A measurement is used once: of the servers as `finalize` of an adjustment by the servers `r` leaves
  -- them, none of `r` is selected, by whichever algorithm and for whichever clock.
  pub finalize-select :
      (a : Adjustment Double) (r : List ℕ) (i : ℕ) (type_ : SelectionType) (s : Selection)
      (clock : ℤ) (servers : List (Server Double))
      → is_member i r ≡ true
      → i < length servers
      → is_member i (select D type_ s clock (finalize D a r servers)).1 ≡ false
  finalize-select a r i type_ s clock servers m h =
      let after = finalize D a r servers in
      elim (Bool-cases (is_member i (select D type_ s clock after).1)) [
        | inr e ↦ e
        | inl e ↦
            let (x, found, unused) = finalize-IsUnused D a i r servers m h in
            let picked =
              All-member (IsSelectable D s clock after) i (select D type_ s clock after).1
                (select-IsSelectable type_ s clock after) e in
            absurd (clash i after x picked.server found picked.there unused picked.adjustable)
      ]
