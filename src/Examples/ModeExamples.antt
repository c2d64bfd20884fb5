-- ===== src/Examples/ModeExamples.antt =====
-- The theorems on the client mode's passes over its adjustments, at concrete inputs.
use flashptpd.Prelude.{◌≡◌, refl, false, [], ◌∷◌, arith}
use flashptpd.Prelude.Int.{pos}
use flashptpd.Selection.{is_member}
use flashptpd.Adjustment.{finalize}
use flashptpd.Adjustment.Requests.{IsSafe}
use flashptpd.Config.Names.{SelectionType, same_text}
use flashptpd.Client.Mode.{select, perform_adjustments}
use flashptpd.Client.Mode.Safe.{AlwaysKeeps, perform_adjustments-safe}
use flashptpd.Client.Mode.Used.{finalize-select}
use flashptpd.Examples.Integers.{integers}
use flashptpd.Examples.SelectionExamples.{selection, servers}
use flashptpd.Examples.AdjustmentExamples.{clocks, pid, controlled, IsTame}

finalize-select_example :
    is_member 0
      (select integers SelectionType.btca selection
        (pos 5)
        (finalize integers controlled (0 ∷ []) servers)).1
    ≡ false
finalize-select_example =
    finalize-select integers controlled (0 ∷ []) 0 SelectionType.btca selection (pos 5) servers
      (unfold is_member in refl) (omega arith)

clocks-IsTame : AlwaysKeeps integers clocks IsTame
clocks-IsTame clock z tx k (IsSafe.reads t e) h = ground arith
clocks-IsTame clock z tx k (IsSafe.tunes t e l) h = ground arith
clocks-IsTame clock z tx k (IsSafe.steps t e l) h = ground arith

perform_adjustments-safe_example :
    IsTame
      (perform_adjustments integers clocks
        (λ name. same_text name "system")
        (λ name. pos 5)
        SelectionType.std_dev
        selection
        (record controlled { clock_id = pos 5 } ∷ controlled ∷ [])
        servers
        (pos 5)).2
perform_adjustments-safe_example =
    perform_adjustments-safe integers clocks (λ name. same_text name "system") (λ name. pos 5)
      SelectionType.std_dev selection IsTame
      (record controlled { clock_id = pos 5 } ∷ controlled ∷ []) servers (pos 5)
      ((pid, refl), ((pid, refl), tt)) clocks-IsTame (omega arith)
