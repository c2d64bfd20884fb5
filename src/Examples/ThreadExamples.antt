-- ===== src/Examples/ThreadExamples.antt =====
-- The theorems on worker threads, at concrete inputs.
use flashptpd.Prelude.{refl, true, false}
use flashptpd.Thread.{new_thread, begin_start, start_called, here, further}
use flashptpd.Thread.Cycle.{IsConsistent, resting, Steps-IsConsistent}

Steps-IsConsistent_example : IsConsistent (begin_start false true (new_thread true))
Steps-IsConsistent_example =
    Steps-IsConsistent false (new_thread true) (begin_start false true (new_thread true))
      (further (new_thread true) (begin_start false true (new_thread true))
        (begin_start false true (new_thread true)) (start_called (new_thread true) true refl)
        (here (begin_start false true (new_thread true))))
      (resting true)
