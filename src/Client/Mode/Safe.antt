-- ===== src/Client/Mode/Safe.antt =====
-- What one pass of the client mode over its adjustments asks of the kernel
-- (src/flashptp/client/clientMode.cpp, src/flashptp/adjustment/pidController.cpp).
use Prim.Native.String.{String}
use flashptpd.Prelude.{
  ◌≡◌, refl, ◌∙◌, inl, inr, Bool, ◌==◌, List, [], ◌∷◌, some, Bool-cases, length,
}
use flashptpd.Prelude.Int.{ℤ, negsuc, eqb_ℤ}
use flashptpd.Prelude.Doubles.{Doubles}
use flashptpd.Client.Server.{Server}
use flashptpd.Selection.{Selection}
use flashptpd.Adjustment.{
  Adjustment, PidController, Clocks, prepare, adjust, adjust_pid, chosen, mean_offset,
}
use flashptpd.Adjustment.Requests.{Keeps, adjust_pid-safe}
use flashptpd.Config.Names.{SelectionType}
use flashptpd.Client.Mode.{select, perform_one, perform_adjustments}

module _ (D : Doubles) (C : Clocks) where
  open D use {Double}
  open C use {Kernel}

  -- All adjustments are PID controllers.
  abbrev pub AllPid : List (Adjustment Double) → Type 0
  AllPid [] = Unit {0}
  AllPid (a ∷ adjustments) = ((p : PidController Double) × (a.pid ≡ some p)) × AllPid adjustments

  -- What holds of the kernel keeps holding under safe calls, whatever the clock and the step.
  abbrev pub AlwaysKeeps : (Kernel → Type 0) → Type 0
  AlwaysKeeps I = (clock z : ℤ) → Keeps D C I clock z

  prepare-pid :
      (is_system : String → Bool) (phc_by_name : String → ℤ) (a : Adjustment Double)
      → (prepare is_system phc_by_name a).0.pid ≡ a.pid
  unfolding prepare
  prepare-pid is_system phc_by_name a = elim (Bool-cases (eqb_ℤ a.clock_id (negsuc 0))) [
    | inl e ↦ rw e refl
    | inr e ↦ rw e refl
  ]

  adjust-pid :
      (p : PidController Double) (servers : List (Server Double)) (a : Adjustment Double)
      (k : Kernel)
      → a.pid ≡ some p
      → adjust D C servers a k ≡ adjust_pid D C p servers a k
  unfolding adjust
  adjust-pid p servers a k e = cc e

  adjust-safe :
      (I : Kernel → Type 0) (p : PidController Double) (servers : List (Server Double))
      (a : Adjustment Double) (k : Kernel)
      → a.pid ≡ some p
      → AlwaysKeeps I
      → I k
      → I (adjust D C servers a k).1
  adjust-safe I p servers a k e keeps h =
      rw (adjust-pid p servers a k e)
        (adjust_pid-safe D C I p servers a k (keeps a.clock_id (mean_offset D servers)) h)

  module _ (is_system : String → Bool) (phc_by_name : String → ℤ) (type_ : SelectionType)
      (selection : Selection) where
    perform_one-safe :
        (I : Kernel → Type 0) (p : PidController Double) (a : Adjustment Double)
        (servers : List (Server Double)) (k : Kernel)
        → a.pid ≡ some p
        → AlwaysKeeps I
        → I k
        → I (perform_one D C is_system phc_by_name type_ selection a servers k).2
    unfolding perform_one
    perform_one-safe I p a servers k e keeps h =
        let ready = prepare is_system phc_by_name a in
        let picked = select D type_ selection ready.0.clock_id servers in
        elim (Bool-cases ready.1) [
          | inr f ↦ rw f h
          | inl f ↦ elim (Bool-cases (length picked.1 == 0)) [
            | inl g ↦ rw f (rw g h)
            | inr g ↦ rw f (
                rw g (
                  adjust-safe I p (chosen picked.0 picked.1) ready.0 k
                    (prepare-pid is_system phc_by_name a ∙ e) keeps h))
          ]
        ]

    -- However many clocks a client adjusts by PID controllers, and whichever servers are selected for
    -- them: each call of the kernel in a pass over the adjustments reads, sets a frequency within
    -- FREQ_LIMIT, or steps. So what holds of the kernel under such calls holds after the pass.
    pub perform_adjustments-safe :
        (I : Kernel → Type 0) (adjustments : List (Adjustment Double))
        (servers : List (Server Double)) (k : Kernel)
        → AllPid adjustments
        → AlwaysKeeps I
        → I k
        → I (perform_adjustments D C is_system phc_by_name type_ selection adjustments servers k).2
    unfolding perform_adjustments
    perform_adjustments-safe I [] servers k all keeps h = h
    perform_adjustments-safe I (a ∷ adjustments) servers k ((p, e), all) keeps h =
        let one = perform_one D C is_system phc_by_name type_ selection a servers k in
        perform_adjustments-safe I adjustments one.1 one.2 all keeps
          (perform_one-safe I p a servers k e keeps h)
