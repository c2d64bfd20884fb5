-- ===== src/Adjustment/Requests.antt =====
-- What the PID controller asks of the kernel (src/flashptp/adjustment/pidController.cpp).
use Prim.Native.Nat.{bit_or}
use flashptpd.Prelude.{
  ℕ, ◌%◌, ◌≡◌, ◌≤◌, ◌↔◌, refl, inl, inr, ◌⊎◌, ◌∙◌, sym, ◌==◌, ◌&&◌, false, not, Bool-cases,
  Option-cases, List, Option, none, some, arith, leb,
}
use mathlib.Core.Path.{subst}
use flashptpd.Prelude.Int.{ℤ, pos, negsuc, ◌+ℤ◌, ◌-ℤ◌, ◌*ℤ◌, ◌≤ℤ◌, ◌<ℤ◌, abs, eqb_ℤ}
use flashptpd.Prelude.Doubles.{Doubles}
use flashptpd.Client.Server.{Server}
use flashptpd.Adjustment.{
  Adjustment, PidController, Timex, Clocks, zero_timex, adj_setoffset, freq_limit, billion, clamp,
  step_sec, step_usec, init_adj, control, set_frequency, set_offset, apply_control, adjust_pid,
  mean_offset, is_done,
}

clamp-bounded : (f : ℤ) → abs (clamp f) ≤ freq_limit
unfolding clamp ◌-ℤ◌
clamp-bounded f = ground arith

step-pos : (n : ℕ) → step_sec (pos n) *ℤ billion +ℤ step_usec (pos n) ≡ pos n
unfolding step_sec step_usec ◌*ℤ◌ ◌+ℤ◌
step-pos n = ground arith

step-neg : (n : ℕ) → step_sec (negsuc n) *ℤ billion +ℤ step_usec (negsuc n) ≡ negsuc n
unfolding step_sec step_usec ◌*ℤ◌ ◌+ℤ◌ ◌-ℤ◌
step-neg n = ground arith

step-sum : (z : ℤ) → step_sec z *ℤ billion +ℤ step_usec z ≡ z
step-sum (pos n) = step-pos n
step-sum (negsuc n) = step-neg n

usec-bounded : (z : ℤ) → (pos 0 ≤ℤ step_usec z) × (step_usec z ≤ℤ pos billion)
unfolding step_usec
usec-bounded z = ground arith

-- The split of a step into seconds and nanoseconds adds up to the step, and the nanoseconds are those of
-- a second, except in one case: they are 1000000000, which the kernel refuses, exactly when the step is
-- negative and a whole number of seconds.
pub step_usec-step_sec :
    (z : ℤ)
    → (step_sec z *ℤ billion +ℤ step_usec z ≡ z)
      × (pos 0 ≤ℤ step_usec z)
      × (step_usec z ≤ℤ pos billion)
      × ((step_usec z ≡ pos billion) ↔ ((z <ℤ pos 0) × (abs z % billion ≡ 0)))
unfolding step_usec
step_usec-step_sec z = let b = usec-bounded z in (step-sum z, b.0, b.1, ground arith)

-- The calls that are safe while a step by `z` is to be made: reading, a frequency within the limit, or
-- a step by `z` nanoseconds in all.
pub data IsSafe (C : Clocks) (z : ℤ) : Timex → Type 0 where
  reads : (tx : Timex) → tx.modes ≡ 0 → IsSafe C z tx
  tunes :
      (tx : Timex)
      → tx.modes ≡ bit_or (Clocks.adj_frequency C) (Clocks.adj_nano C)
      → abs tx.freq ≤ freq_limit
      → IsSafe C z tx
  steps :
      (tx : Timex)
      → tx.modes ≡ bit_or adj_setoffset (Clocks.adj_nano C)
      → tx.tv_sec *ℤ billion +ℤ tx.tv_usec ≡ z
      → IsSafe C z tx

module _ (D : Doubles) (C : Clocks) where
  open D use {Double}
  open C use {Kernel, clock_adjtime}

  -- What holds of the kernel keeps holding under safe calls for the clock.
  abbrev pub Keeps : (Kernel → Type 0) → ℤ → ℤ → Type 0
  Keeps I clock z = (tx : Timex) (k : Kernel) → IsSafe C z tx → I k → I (clock_adjtime clock tx k).0

  zero_unequal : (z : ℤ) → z ≡ pos 0 → eqb_ℤ z (pos 0) ≡ false → ⊥
  zero_unequal z f e = ground arith

  set_offset-safe :
      (I : Kernel → Type 0) (z : ℤ) (a : Adjustment Double) (tx : Timex) (k : Kernel)
      → (a.time_addend ≡ z) ⊎ (a.time_addend ≡ pos 0)
      → Keeps I a.clock_id z
      → I k
      → I (set_offset D C a tx k).0
  unfolding set_offset
  set_offset-safe I z a tx k from keeps h = elim (Bool-cases (eqb_ℤ a.time_addend (pos 0))) [
    | inl e ↦ rw e h
    | inr e ↦ elim from [
      | inl f ↦ rw e (keeps _ k (steps _ refl (step-sum a.time_addend ∙ f)) h)
      | inr f ↦ absurd (zero_unequal a.time_addend f e)
    ]
  ]

  set_frequency-safe :
      (I : Kernel → Type 0) (z : ℤ) (a : Adjustment Double) (tx : Timex) (k : Kernel)
      → (a.time_addend ≡ z) ⊎ (a.time_addend ≡ pos 0)
      → Keeps I a.clock_id z
      → I k
      → I (set_frequency D C a tx k).0
  unfolding set_frequency
  set_frequency-safe I z a tx k from keeps h = keeps _ k (tunes _ refl (clamp-bounded _)) h

  is_done-safe : (I : Kernel → Type 0) (r : Kernel × Option Timex) → I r.0 → I (is_done D C r).0
  is_done-safe I (k, none) h = h
  is_done-safe I (k, some tx) h = h

  apply_control-safe :
      (I : Kernel → Type 0) (z : ℤ) (a : Adjustment Double) (tx : Timex) (k : Kernel)
      → (a.time_addend ≡ z) ⊎ (a.time_addend ≡ pos 0)
      → Keeps I a.clock_id z
      → I k
      → I (apply_control D C a tx k).0
  unfolding apply_control
  apply_control-safe I z a tx k from keeps h =
      let stepped = set_offset-safe I z a tx k from keeps h in
      elim (Option-cases (set_offset D C a tx k).1) [
        | inl e ↦ rw (e, apply_control) stepped
        | inr (tx', e) ↦
            rw (e, apply_control)
              (is_done-safe I _ (set_frequency-safe I z a tx' _ from keeps stepped))
      ]

  control-addend :
      (f : ℤ) (p : PidController Double) (servers : List (Server Double)) (a : Adjustment Double)
      → ((control D f p servers a).clock_id ≡ a.clock_id)
        × (((control D f p servers a).time_addend ≡ mean_offset D servers)
            ⊎ ((control D f p servers a).time_addend ≡ pos 0))
  unfolding control
  control-addend f p servers a =
      elim (Bool-cases
        (not (p.step_threshold == 0) && leb p.step_threshold (abs (mean_offset D servers)))) [
          | inl e ↦ rw e (refl, inl refl)
          | inr e ↦ rw e (refl, inr refl)
        ]

  -- Whatever the PID controller has measured, and whatever the kernel answers, each of its calls is
  -- safe: it reads, sets a frequency within FREQ_LIMIT, or steps the clock by the mean offset of the
  -- servers. So what holds of the kernel under such calls holds after `adjust`.
  pub adjust_pid-safe :
      (I : Kernel → Type 0) (p : PidController Double) (servers : List (Server Double))
      (a : Adjustment Double) (k : Kernel)
      → Keeps I a.clock_id (mean_offset D servers)
      → I k
      → I (adjust_pid D C p servers a k).1
  unfolding adjust_pid
  adjust_pid-safe I p servers a k keeps h = elim (Bool-cases (init_adj D a servers)) [
    | inr e ↦ rw e h
    | inl e ↦
        let read = keeps zero_timex k (reads _ refl) h in
        elim (Option-cases (clock_adjtime a.clock_id zero_timex k).1) [
          | inl f ↦ rw (e, f, adjust_pid) read
          | inr (tx, f) ↦
              let b = control D tx.freq p servers a in
              let parts = control-addend tx.freq p servers a in
              rw (e, f, adjust_pid)
                (apply_control-safe I (mean_offset D servers) b tx _ parts.1
                  (λ t l s g. subst (λ c. I (clock_adjtime c t l).0) (sym parts.0) (keeps t l s g))
                  read)
        ]
  ]
