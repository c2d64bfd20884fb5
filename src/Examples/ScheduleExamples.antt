-- ===== src/Examples/ScheduleExamples.antt =====
-- The theorems on when requests are sent, at concrete intervals.
use flashptpd.Prelude.{ℕ, suc, ◌+◌, ◌≡◌, ◌<◌, true, false, refl, arith}
use flashptpd.Prelude.Int.{pos, negsuc}
use flashptpd.Client.Schedule.{Timer, rounds, period, requests_state}
use flashptpd.Client.Schedule.Recurs.{rounds-recurs}
use flashptpd.Client.Schedule.Late.{rounds-late}

abbrev new_timer : Timer
new_timer = record { usec = 0; state_usec = pos 0; sequence_id = 0 }

rounds-recurs_example :
    (requests_state (pos 2) (rounds (pos 0) (pos 2) 20 new_timer) ≡ true)
    × ((k : ℕ)
        → k < 3
        → requests_state (pos 2) (rounds (pos 0) (pos 2) (20 + suc k) new_timer) ≡ false)
rounds-recurs_example =
    rounds-recurs (pos 0) (pos 2) 3 (λ e. cc) (unfold period in omega arith)
      (unfold period in omega arith) (unfold period in omega arith) 5 new_timer refl refl

rounds-late_example : requests_state (pos 0) (rounds (negsuc 6) (pos 0) 129 new_timer) ≡ false
rounds-late_example =
    rounds-late (pos 0) 128 new_timer refl refl (omega arith) (omega arith)
      (unfold period in omega arith)
