-- ===== src/Client/Mode.antt =====
-- The loop of the client mode (src/flashptp/client/clientMode.cpp): `performAdjustments` and
-- `resetUnusedServersStates`. What the network component says of a clock's name is an argument.
pub mod Safe
pub mod Used
use Prim.Native.String.{String}
use flashptpd.Prelude.{
  ℕ, Bool, true, false, not, ◌&&◌, ltb, ◌==◌, if◌then◌else◌, List, [], ◌∷◌, length,
}
use flashptpd.Prelude.Int.{ℤ, eqb_ℤ}
use flashptpd.Prelude.Doubles.{Doubles}
use flashptpd.Client.Server.{Server, ServerState, state_number}
use flashptpd.Selection.{Selection, clock_of, select_std_dev, select_btca}
use flashptpd.Adjustment.{Adjustment, Clocks, prepare, adjust, finalize, chosen}
use flashptpd.Config.Names.{SelectionType}

module _ (D : Doubles) where
  open D use {Double}

  -- The virtual call `select`; no selection of the type `invalid` is ever made.
  unfoldable pub select :
      SelectionType → Selection → ℤ → List (Server Double) → List (Server Double) × List ℕ
  select SelectionType.invalid s clock servers = (servers, [])
  select SelectionType.std_dev s clock servers = select_std_dev D s clock servers
  select SelectionType.btca s clock servers = select_btca D s clock servers

  -- `hasAdjustment`
  unfoldable pub has_adjustment_for : ℤ → List (Adjustment Double) → Bool
  has_adjustment_for clock [] = false
  has_adjustment_for clock (a ∷ adjustments) =
      if eqb_ℤ a.clock_id clock then true else has_adjustment_for clock adjustments

  -- `resetUnusedServersStates`
  unfoldable pub reset_unused_servers_states :
      List (Adjustment Double) → List (Server Double) → List (Server Double)
  reset_unused_servers_states adjustments [] = []
  reset_unused_servers_states adjustments (srv ∷ servers) =
      (if ltb (state_number ServerState.ready) (state_number srv.state)
          && not (has_adjustment_for (clock_of D srv) adjustments)
        then record srv { state = ServerState.ready }
        else srv)
      ∷ reset_unused_servers_states adjustments servers

  module _ (C : Clocks) (is_system : String → Bool) (phc_by_name : String → ℤ)
      (type_ : SelectionType) (selection : Selection) where
    open C use {Kernel}

    -- One round of the loop of `performAdjustments`.
    unfoldable pub perform_one :
        Adjustment Double
        → List (Server Double)
        → Kernel
        → Adjustment Double × List (Server Double) × Kernel
    perform_one a servers k =
        let ready = prepare is_system phc_by_name a in
        if not ready.1
        then (ready.0, servers, k)
        else (let picked = select type_ selection ready.0.clock_id servers in
            if length picked.1 == 0
            then (ready.0, picked.0, k)
            else (let done = adjust D C (chosen picked.0 picked.1) ready.0 k in
                (done.0, if done.2 then finalize D done.0 picked.1 picked.0 else picked.0, done.1)))

    -- `performAdjustments`
    unfoldable pub perform_adjustments :
        List (Adjustment Double)
        → List (Server Double)
        → Kernel
        → List (Adjustment Double) × List (Server Double) × Kernel
    perform_adjustments [] servers k = ([], servers, k)
    perform_adjustments (a ∷ adjustments) servers k =
        let one = perform_one a servers k in
        let rest = perform_adjustments adjustments one.1 one.2 in (one.0 ∷ rest.0, rest.1, rest.2)
