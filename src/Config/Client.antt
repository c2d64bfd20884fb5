-- ===== src/Config/Client.antt =====
-- A client mode that is configured: `ClientMode::setConfig` (src/flashptp/client/clientMode.cpp) on what
-- its validation accepts.
use Prim.Native.String.{String}
use flashptpd.Prelude.{◌≡◌, List, [], Option, none, some, All}
use flashptpd.Prelude.Int.{ℤ}
use flashptpd.Prelude.Doubles.{Doubles}
use flashptpd.Adjustment.{Adjustment}
use flashptpd.Config.{JsonApi}
use flashptpd.Config.Peers.{Peer, NetworkApi}
use flashptpd.Config.Limits.{Each}
use flashptpd.Config.Accepted.Parts.{IsSelection, IsAdjustment}
use flashptpd.Config.Accepted.Served.{IsPeer}
use flashptpd.Config.Modes.{ClientMode}

module _ (D : Doubles) (J : JsonApi D) (N : NetworkApi) (hex : String → ℤ) where
  open D use {Double}
  open J use {Json, find, items}

  -- The servers that a configuration lists, each as it is given there, or none.
  abbrev AreServers : ℤ → Option Json → List (Peer Double) → Type 0
  AreServers garbage none ps = ps ≡ []
  AreServers garbage (some a) ps = Each (IsPeer D J N garbage) (items a) ps

  -- The parts of a client that works, as the configuration gives them.
  pub record IsClient (garbage : ℤ) (j : Json) (c : ClientMode Double) : Type 0 where
    pub servers_ : AreServers garbage (find "servers" j) c.servers
    pub selection_ : IsSelection D J c.selection
    pub adjustments_ : All (IsAdjustment D J) c.adjustments
