-- ===== src/Thread/Cycle.antt =====
-- The life of a worker thread (src/flashptp/common/thread.cpp).
use flashptpd.Prelude.{◌≡◌, ◌≢◌, refl, Bool, true, false, none, some}
use flashptpd.Thread.{
  Worker, Phase, Thread, Step, Steps, launch, begin_start, begin_stop, end_join, end_run, start,
  stop, start_called, stop_called, run_ended, join_returned, here, further,
}

-- Nothing runs and there is no handle; the function runs and the handle is its thread's; or the caller is
-- in `join`, with the handle.
pub data IsConsistent : Thread → Type 0 where
  resting :
      (enabled : Bool)
      → IsConsistent (record {
        enabled = enabled;
        running = false;
        handle = none;
        phase = Phase.outside;
        lost = 0;
      })
  working :
      (enabled : Bool)
      → IsConsistent (record {
        enabled = enabled;
        running = true;
        handle = some Worker.executing;
        phase = Phase.outside;
        lost = 0;
      })
  joining :
      (enabled : Bool) (w : Worker) (phase : Phase)
      → phase ≢ Phase.outside
      → IsConsistent
          (record { enabled = enabled; running = false; handle = some w; phase = phase; lost = 0 })

stopping≢outside : Phase.stopping ≢ Phase.outside
stopping≢outside e = cc e

restarting≢outside : (b : Bool) → Phase.restarting b ≢ Phase.outside
restarting≢outside b e = cc e

launch-IsConsistent :
    (always created enabled : Bool) (phase : Phase)
    → IsConsistent (
        launch always created
          (record { enabled = enabled; running = false; handle = none; phase = phase; lost = 0 }))
unfolding launch
launch-IsConsistent true true e p = working e
launch-IsConsistent true false e p = resting e
launch-IsConsistent false true true p = working true
launch-IsConsistent false false true p = resting true
launch-IsConsistent false b false p = resting false

start-step :
    (always created : Bool) (t : Thread)
    → IsConsistent t
    → t.phase ≡ Phase.outside
    → IsConsistent (begin_start always created t)
unfolding begin_start
start-step always created _ (resting e) h = launch-IsConsistent always created e Phase.outside
start-step always created _ (working e) h =
    joining e Worker.executing (Phase.restarting created) (restarting≢outside created)
start-step always created _ (joining e w p k) h = absurd (k h)

stop-step : (t : Thread) → IsConsistent t → t.phase ≡ Phase.outside → IsConsistent (begin_stop t)
unfolding begin_stop
stop-step _ (resting e) h = resting e
stop-step _ (working e) h = joining e Worker.executing Phase.stopping stopping≢outside
stop-step _ (joining e w p k) h = absurd (k h)

run-step :
    (t : Thread)
    → IsConsistent t
    → t.running ≡ false
    → t.handle ≡ some Worker.executing
    → IsConsistent (end_run t)
unfolding end_run
run-step _ (resting e) h g = absurd (cc g)
run-step _ (working e) h g = absurd (cc h)
run-step _ (joining e w p k) h g = joining e Worker.finished p k

join-step :
    (always : Bool) (t : Thread)
    → IsConsistent t
    → t.phase ≢ Phase.outside
    → IsConsistent (end_join always t)
unfolding end_join
join-step always _ (resting e) h = absurd (h refl)
join-step always _ (working e) h = absurd (h refl)
join-step always _ (joining e w Phase.outside k) h = absurd (h refl)
join-step always _ (joining e w Phase.stopping k) h = resting e
join-step always _ (joining e w (Phase.restarting c) k) h =
    launch-IsConsistent always c e (Phase.restarting c)

Step-IsConsistent :
    (always : Bool) (t u : Thread) → Step always t u → IsConsistent t → IsConsistent u
Step-IsConsistent always t _ (start_called _ created e) v = start-step always created t v e
Step-IsConsistent always t _ (stop_called _ e) v = stop-step t v e
Step-IsConsistent always t _ (run_ended _ e f) v = run-step t v e f
Step-IsConsistent always t _ (join_returned _ e f) v = join-step always t v e

-- In whatever order a thread is started, stopped and ends, beginning with one that rests: no handle
-- is lost, and outside of `join` the flag `_running` is set exactly if there is a handle, whose
-- thread then still runs.
pub Steps-IsConsistent :
    (always : Bool) (t u : Thread) → Steps always t u → IsConsistent t → IsConsistent u
Steps-IsConsistent always t _ (here _) v = v
Steps-IsConsistent always t u (further _ w _ s rest) v =
    Steps-IsConsistent always w u rest (Step-IsConsistent always t w s v)

one_step : (always : Bool) (t u : Thread) → Step always t u → Steps always t u
one_step always t u s = further t u u s (here u)

-- From the call of `start` to its return: the steps are those of the caller and the end of the old thread,
-- and their outcome is that of `start` as a whole.
Steps-start :
    (always created : Bool) (t : Thread)
    → IsConsistent t
    → t.phase ≡ Phase.outside
    → Steps always t (start always created t)
unfolding start begin_start end_run end_join launch
Steps-start always created t (resting e) h =
    one_step always t (begin_start always created t) (start_called t created h)
Steps-start always created t (working e) h =
    let u = begin_start always created t in
    let v = end_run u in
    further t u _ (start_called t created h) (
      further u v _ (run_ended u refl refl)
        (one_step always v (end_join always v) (join_returned v (restarting≢outside created) refl)))
Steps-start always created t (joining e w p k) h = absurd (k h)

-- The same of `stop`.
Steps-stop :
    (always : Bool) (t : Thread)
    → IsConsistent t
    → t.phase ≡ Phase.outside
    → Steps always t (stop t)
unfolding stop begin_stop end_run end_join
Steps-stop always t (resting e) h = one_step always t (begin_stop t) (stop_called t h)
Steps-stop always t (working e) h =
    let u = begin_stop t in
    let v = end_run u in
    further t u _ (stop_called t h) (
      further u v _ (run_ended u refl refl)
        (one_step always v (end_join always v) (join_returned v stopping≢outside refl)))
Steps-stop always t (joining e w p k) h = absurd (k h)
