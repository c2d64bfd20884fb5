-- ===== src/Examples/AdjustmentExamples.antt =====
-- The theorems on the adjustment of clocks, at concrete inputs.
use flashptpd.Prelude.{◌≡◌, ◌≤◌, ◌↔◌, ◌%◌, ◌==◌, if◌then◌else◌, false, [], ◌∷◌, some, arith}
use flashptpd.Prelude.Int.{ℤ, pos, negsuc, ◌*ℤ◌, ◌+ℤ◌, ◌≤ℤ◌, ◌<ℤ◌, abs}
use flashptpd.Adjustment.{
  Adjustment, AdjustmentType, PidController, Clocks, freq_limit, billion, step_sec, step_usec,
  adjust_pid, mean_offset,
}
use flashptpd.Adjustment.Requests.{IsSafe, Keeps, step_usec-step_sec, adjust_pid-safe}
use flashptpd.Examples.Integers.{integers}
use flashptpd.Examples.ServerExamples.{server}

-- A kernel that is its frequency.
abbrev pub clocks : Clocks
clocks = record {
  Kernel = ℤ;
  clock_adjtime = λ id tx k. (if tx.modes == 0x2002 then tx.freq else k, some tx);
  adjtimex = λ tx k. (k, some tx);
  clock_gettime = λ id k. record { tv_sec = 0; tv_nsec = 0 };
  clock_settime = λ id sec ns k. (k, false);
  adj_offset = 1;
  adj_status = 0x10;
  adj_nano = 0x2000;
  adj_frequency = 2;
  sta_pll = 1;
  sta_nano = 0x2000;
  sta_ronly = 0x100;
  sta_freqhold = 0x80;
}

abbrev pub pid : PidController ℤ
pid = record {
  kp = pos 1;
  ki = pos 0;
  kd = pos 0;
  step_threshold = 1000000;
  integral = pos 0;
  proportional = pos 0;
  differential = pos 0;
}

abbrev pub controlled : Adjustment ℤ
controlled = record {
  type_ = AdjustmentType.pid_controller;
  clock_name = "system";
  clock_id = pos 0;
  time_addend = pos 0;
  freq_addend = pos 0;
  freq_aggregate = pos 0;
  pid = some pid;
}

abbrev pub IsTame : ℤ → Type 0
IsTame f = abs f ≤ freq_limit

IsTame-kept : Keeps integers clocks IsTame (pos 0) (mean_offset integers (server ∷ []))
IsTame-kept tx k (IsSafe.reads t e) h = ground arith
IsTame-kept tx k (IsSafe.tunes t e l) h = ground arith
IsTame-kept tx k (IsSafe.steps t e l) h = ground arith

adjust_pid-safe_example : IsTame (adjust_pid integers clocks pid (server ∷ []) controlled (pos 5)).1
adjust_pid-safe_example =
    adjust_pid-safe integers clocks IsTame pid (server ∷ []) controlled (pos 5) IsTame-kept
      (omega arith)

step_usec-step_sec_example :
    (step_sec (negsuc 1999999999) *ℤ billion +ℤ step_usec (negsuc 1999999999) ≡ negsuc 1999999999)
    × (pos 0 ≤ℤ step_usec (negsuc 1999999999))
    × (step_usec (negsuc 1999999999) ≤ℤ pos billion)
    × ((step_usec (negsuc 1999999999) ≡ pos billion)
        ↔ ((negsuc 1999999999 <ℤ pos 0) × (abs (negsuc 1999999999) % billion ≡ 0)))
step_usec-step_sec_example = step_usec-step_sec (negsuc 1999999999)
