-- ===== src/Adjustment.antt =====
-- The adjustment of clocks: src/flashptp/adjustment. The kernel's clocks are an interface, Clocks, whose
-- state the calls take and return; what only logs is left out.
pub mod Requests
pub mod Once
use Prim.Native.Nat.{bit_and, bit_or}
use Prim.Native.String.{String}
use flashptpd.Prelude.{
  ℕ, zero, suc, get_elem?, ◌+◌, ◌-◌, ◌*◌, ◌/◌, ◌%◌, Bool, true, false, not, ◌&&◌, ◌||◌, ltb, leb,
  ◌==◌, if◌then◌else◌, List, [], ◌∷◌, Option, none, some, length,
}
use flashptpd.Prelude.Int.{
  ℤ, pos, negsuc, pos_part, neg_part, ◌+ℤ◌, ◌-ℤ◌, ◌*ℤ◌, ltb_ℤ, eqb_ℤ, abs, quot,
}
use flashptpd.Prelude.Doubles.{Doubles}
use flashptpd.Wire.Timestamp.{Timespec}
use flashptpd.Calculation.{Calculation, has_adjustment, set_adjustment, offset, clear}
use flashptpd.Client.Server.{Server}
use flashptpd.Selection.{clock_of, clock_realtime}

pub data AdjustmentType : Type 0 where
  invalid adjtimex pid_controller : AdjustmentType

-- The members of a PIDController; `step_threshold` is a `uint64_t`.
pub record PidController (F : Type 0) : Type 0 where
  pub kp : F
  pub ki : F
  pub kd : F
  pub step_threshold : ℕ
  pub integral : F
  pub proportional : F
  pub differential : F

-- An `Adjustment`; `pid` is there for a PIDController.
pub record Adjustment (F : Type 0) : Type 0 where
  pub type_ : AdjustmentType
  pub clock_name : String
  pub clock_id : ℤ
  pub time_addend : ℤ
  pub freq_addend : F
  pub freq_aggregate : F
  pub pid : Option (PidController F)

-- The members of `struct timex` that the program uses.
pub record Timex : Type 0 where
  pub modes : ℕ
  pub status : ℕ
  pub freq : ℤ
  pub offset : ℤ
  pub tv_sec : ℤ
  pub tv_usec : ℤ

-- `memset(&tx, 0, sizeof(tx))`
abbrev pub zero_timex : Timex
zero_timex = record {
  modes = 0;
  status = 0;
  freq = pos 0;
  offset = pos 0;
  tv_sec = pos 0;
  tv_usec = pos 0;
}

-- What a system call leaves: the kernel, and `none` for a negative result, else what it stored.
pub record Clocks : Type 1 where
  pub Kernel : Type 0
  pub clock_adjtime : ℤ → Timex → Kernel → Kernel × Option Timex
  pub adjtimex : Timex → Kernel → Kernel × Option Timex
  pub clock_gettime : ℤ → Kernel → Timespec
  pub clock_settime : ℤ → ℤ → ℤ → Kernel → Kernel × Bool
  pub adj_offset : ℕ
  pub adj_status : ℕ
  pub adj_nano : ℕ
  pub adj_frequency : ℕ
  pub sta_pll : ℕ
  pub sta_nano : ℕ
  pub sta_ronly : ℕ
  pub sta_freqhold : ℕ

abbrev pub adj_setoffset : ℕ
adj_setoffset = 0x0100

-- `FLASH_PTP_ADJUSTMENT_STEP_LIMIT_DEFAULT` and `FLASH_PTP_ADJUSTMENT_FREQ_LIMIT`
abbrev pub step_limit : ℕ
step_limit = 500000000

abbrev pub freq_limit : ℕ
freq_limit = 32768000

abbrev pub billion : ℕ
billion = 1000000000

-- The frequency within its limits.
unfoldable pub clamp : ℤ → ℤ
clamp f =
    if ltb freq_limit (abs f)
    then if ltb_ℤ f (pos 0) then pos 0 -ℤ pos freq_limit else pos freq_limit
    else f

-- The seconds and nanoseconds of a step, as PIDController::adjust splits it.
unfoldable pub step_sec : ℤ → ℤ
step_sec z =
    let sec = abs z / billion in if ltb_ℤ z (pos 0) then pos 0 -ℤ pos (sec + 1) else pos sec

unfoldable pub step_usec : ℤ → ℤ
step_usec z = let ns = abs z % billion in if ltb_ℤ z (pos 0) then pos (billion - ns) else pos ns

-- `ns % 1000000000LL`, with the sign of `ns`.
unfoldable pub remainder : ℤ → ℤ
remainder z = pos (pos_part z % billion) -ℤ pos (neg_part z % billion)

-- A loop over a vector of pointers: the list of indices `r` into the servers.
unfoldable pub modify : {A : Type 0} → (A → A) → ℕ → List A → List A
modify f i [] = []
modify f zero (x ∷ xs) = f x ∷ xs
modify f (suc i) (x ∷ xs) = x ∷ modify f i xs

unfoldable pub for_each : {A : Type 0} → (A → A) → List ℕ → List A → List A
for_each f [] xs = xs
for_each f (i ∷ r) xs = for_each f r (modify f i xs)

-- The servers behind the pointers.
unfoldable pub chosen : {A : Type 0} → List A → List ℕ → List A
chosen xs [] = []
chosen xs (i ∷ r) = elim (get_elem? xs i) [ none ↦ chosen xs r | some x ↦ x ∷ chosen xs r ]

module _ (D : Doubles) where
  open D use {Double, of_int, to_int, add, sub, mul, div, is_zero}

  -- The loop of `initAdj`.
  unfoldable pub all_adjustable : ℤ → List (Server Double) → Bool
  all_adjustable clock [] = true
  all_adjustable clock (srv ∷ servers) =
      if not (has_adjustment srv.calculation) || not (eqb_ℤ (clock_of D srv) clock)
      then false
      else all_adjustable clock servers

  -- `initAdj`
  unfoldable pub init_adj : Adjustment Double → List (Server Double) → Bool
  init_adj a servers =
      if eqb_ℤ a.clock_id (negsuc 0)
      then false
      else if length servers == 0
      then false
      else all_adjustable a.clock_id servers

  -- The sums over the servers: of the offsets, and of the drifts.
  unfoldable pub sum_offsets : ℤ → List (Server Double) → ℤ
  sum_offsets z [] = z
  sum_offsets z (srv ∷ servers) = sum_offsets (z +ℤ offset srv.calculation) servers

  unfoldable pub sum_drifts : Double → List (Server Double) → Double
  sum_drifts d [] = d
  sum_drifts d (srv ∷ servers) = sum_drifts (add d srv.calculation.drift_value) servers

  -- `_timeAddend /= (int64_t)servers.size()`
  unfoldable pub mean_offset : List (Server Double) → ℤ
  mean_offset servers = quot (sum_offsets (pos 0) servers) (length servers)

  mean_drift : List (Server Double) → Double
  mean_drift servers = div (sum_drifts (of_int (pos 0)) servers) (of_int (pos (length servers)))

  -- 65536000000.0, the scale of `tx.freq`
  abbrev pub freq_scale : Double
  freq_scale = of_int (pos 65536000000)

  -- What the loops of `finalize` do to each server.
  abbrev pub used : Server Double → Server Double
  used srv = record srv { calculation = set_adjustment false srv.calculation }

  abbrev pub cleared : Server Double → Server Double
  cleared srv = record srv { calculation = clear srv.calculation }

  abbrev pub cleared_larger : Server Double → Server Double
  cleared_larger srv = if ltb 1 srv.calculation.size then cleared srv else srv

  -- `Adjtimex::finalize` and `PIDController::finalize` on the servers with the indices `r`; both start
  -- with `Adjustment::finalize`.
  unfoldable pub finalize_adjtimex : List ℕ → List (Server Double) → List (Server Double)
  finalize_adjtimex r servers = for_each cleared r (for_each used r servers)

  unfoldable pub finalize_pid :
      PidController Double
      → Adjustment Double
      → List ℕ
      → List (Server Double)
      → List (Server Double)
  finalize_pid p a r servers =
      if not (is_zero p.ki) && eqb_ℤ a.time_addend (pos 0)
      then for_each used r servers
      else for_each cleared_larger r (for_each used r servers)

  -- The virtual call `finalize`; no adjustment of the type `invalid` is ever made.
  unfoldable pub finalize : Adjustment Double → List ℕ → List (Server Double) → List (Server Double)
  finalize a r servers = elim a.pid [
    | none ↦ finalize_adjtimex r servers
    | some p ↦ finalize_pid p a r servers
  ]

  -- The arithmetic of `PIDController::adjust` on the frequency `f` that was read: the threshold is
  -- compared as a `uint64_t`.
  unfoldable pub control :
      ℤ → PidController Double → List (Server Double) → Adjustment Double → Adjustment Double
  unfolding mean_drift
  control f p servers a =
      let kept = mul a.freq_addend p.ki in
      let integral = add p.integral kept in
      let base = sub (div (of_int f) freq_scale) (sub a.freq_addend kept) in
      let z = mean_offset servers in
      let drift = mean_drift servers in
      let proportional = mul p.kp (div (of_int z) (of_int (pos billion))) in
      let differential = if is_zero p.kd then of_int (pos 0) else mul drift p.kd in
      let addend = if is_zero p.kd then proportional else add proportional differential in
      if not (p.step_threshold == 0) && leb p.step_threshold (abs z)
      then record a {
        time_addend = z;
        freq_addend = of_int (pos 0);
        freq_aggregate = add base drift;
        pid = some (record p { integral = integral });
      }
      else record a {
        time_addend = pos 0;
        freq_addend = addend;
        freq_aggregate = add base addend;
        pid = some (record p {
          integral = integral;
          proportional = proportional;
          differential = differential;
        });
      }

  module _ (C : Clocks) where
    open C use {Kernel, clock_adjtime, clock_gettime, clock_settime, adj_nano, adj_frequency}

    -- The last call of `PIDController::adjust`.
    unfoldable pub set_frequency : Adjustment Double → Timex → Kernel → Kernel × Option Timex
    set_frequency a tx = clock_adjtime a.clock_id (record tx {
      modes = bit_or adj_frequency adj_nano;
      freq = clamp (to_int (mul a.freq_aggregate freq_scale));
    })

    -- The step, if there is one, and its result.
    unfoldable pub set_offset : Adjustment Double → Timex → Kernel → Kernel × Option Timex
    set_offset a tx k =
        if eqb_ℤ a.time_addend (pos 0)
        then (k, some tx)
        else clock_adjtime a.clock_id
            (record tx {
              modes = bit_or adj_setoffset adj_nano;
              tv_sec = step_sec a.time_addend;
              tv_usec = step_usec a.time_addend;
            })
            k

    abbrev pub is_done : Kernel × Option Timex → Kernel × Bool
    is_done (k, none) = (k, false)
    is_done (k, some tx) = (k, true)

    -- The calls that `PIDController::adjust` makes after the arithmetic.
    unfoldable pub apply_control : Adjustment Double → Timex → Kernel → Kernel × Bool
    apply_control a tx k =
        let stepped = set_offset a tx k in
        elim stepped.1 [
          | none ↦ (stepped.0, false)
          | some tx' ↦ is_done (set_frequency a tx' stepped.0)
        ]

    -- `PIDController::adjust`
    unfoldable pub adjust_pid :
        PidController Double
        → List (Server Double)
        → Adjustment Double
        → Kernel
        → Adjustment Double × Kernel × Bool
    adjust_pid p servers a k =
        if not (init_adj a servers)
        then (a, k, false)
        else (let read = clock_adjtime a.clock_id zero_timex k in
            elim read.1 [
              | none ↦ (a, read.0, false)
              | some tx ↦
                  let b = control tx.freq p servers a in
                  let done = apply_control b tx read.0 in (b, done.0, done.1)
            ])

    -- `tx.status &= ~flag`
    without : ℕ → ℕ → ℕ
    without flag status = status - bit_and status flag

    -- What `Adjtimex::adjust` asks for on top of what it has read.
    unfoldable pub slew : ℤ → Timex → Timex
    unfolding without
    slew z tx = record tx {
      modes = bit_or (bit_or (bit_or tx.modes C.adj_offset) C.adj_status) adj_nano;
      status =
          without C.sta_freqhold
            (without C.sta_ronly (bit_or (bit_or tx.status C.sta_pll) C.sta_nano));
      offset = z;
    }

    -- The step of `Adjtimex::adjust`.
    unfoldable pub step_clock : ℤ → Adjustment Double → Kernel → Kernel × Bool
    step_clock z a k =
        let ts = clock_gettime a.clock_id k in
        let ns = pos (ts.tv_sec * billion) +ℤ pos ts.tv_nsec +ℤ z in
        clock_settime a.clock_id (quot ns billion) (remainder ns) k

    -- `Adjtimex::adjust`
    unfoldable pub adjust_adjtimex :
        List (Server Double) → Adjustment Double → Kernel → Adjustment Double × Kernel × Bool
    adjust_adjtimex servers a k =
        if not (init_adj a servers)
        then (a, k, false)
        else (let z = mean_offset servers in
            let b = record a { time_addend = z } in
            if leb step_limit (abs z)
            then (let done = step_clock z b k in (b, done.0, done.1))
            else (let read = C.adjtimex zero_timex k in
                elim read.1 [
                  | none ↦ (b, read.0, false)
                  | some tx ↦
                      let done = is_done (C.adjtimex (slew z tx) read.0) in (b, done.0, done.1)
                ]))

    -- The virtual call `adjust`.
    unfoldable pub adjust :
        List (Server Double) → Adjustment Double → Kernel → Adjustment Double × Kernel × Bool
    adjust servers a k = elim a.pid [
      | none ↦ adjust_adjtimex servers a k
      | some p ↦ adjust_pid p servers a k
    ]

-- `prepare`, where `phc_by_name` is `network::getPHCClockIDByName`.
unfoldable pub prepare :
    {F : Type 0} → (String → Bool) → (String → ℤ) → Adjustment F → Adjustment F × Bool
prepare is_system phc_by_name a =
    let b =
      if eqb_ℤ a.clock_id (negsuc 0)
      then record a {
        clock_id = if is_system a.clock_name then clock_realtime else phc_by_name a.clock_name;
      }
      else a in
    (b, not (eqb_ℤ b.clock_id (negsuc 0)))
