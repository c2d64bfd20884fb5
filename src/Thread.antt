-- ===== src/Thread.antt =====
-- Class Thread (src/flashptp/common/thread.cpp): the start and the stop of a worker thread, which the
-- modes, the client's servers, the listeners and the inventory are. Their functions return once `_running`
-- is false, and not before.
pub mod Cycle
use flashptpd.Prelude.{
  ℕ, ◌+◌, ◌≡◌, ◌≢◌, Bool, true, false, not, ◌&&◌, ◌||◌, if◌then◌else◌, Option, none, some,
}

-- A thread of the system, before and after the end of `run`.
pub data Worker : Type 0 where
  executing finished : Worker

-- Where the caller of `start` and `stop` is: outside, or in `join`, with a start to follow or not. For that,
-- it is known whether the system will create the thread.
pub data Phase : Type 0 where
  outside stopping : Phase
  restarting : Bool → Phase

-- The members; `lost` counts the handles that are overwritten, or deleted without `join`, which ends the
-- program.
pub record Thread : Type 0 where
  pub enabled : Bool
  pub running : Bool
  pub handle : Option Worker
  pub phase : Phase
  pub lost : ℕ

abbrev pub new_thread : Bool → Thread
new_thread enabled = record {
  enabled = enabled;
  running = false;
  handle = none;
  phase = Phase.outside;
  lost = 0;
}

-- The handle is given up.
abbrev pub drop_handle : Thread → Thread
drop_handle t = elim t.handle [ none ↦ t | some w ↦ record t { lost = t.lost + 1; handle = none } ]

-- `start` behind its call of `stop`; `always` is `alwaysEnabled()`.
unfoldable pub launch : Bool → Bool → Thread → Thread
launch always created t =
    if not (always || t.enabled)
    then record t { phase = Phase.outside }
    else if created
    then record (drop_handle t) {
      running = true;
      handle = some Worker.executing;
      phase = Phase.outside;
    }
    else record (drop_handle t) { running = false; phase = Phase.outside }

-- `start` up to `join`, or to its end.
unfoldable pub begin_start : Bool → Bool → Thread → Thread
begin_start always created t = if not t.running then launch always created t else (elim t.handle [
  | none ↦ launch always created (record t { running = false })
  | some w ↦ record t { running = false; phase = Phase.restarting created }
])

-- `stop` up to `join`, or to its end.
unfoldable pub begin_stop : Thread → Thread
begin_stop t = if not t.running then t else (elim t.handle [
  | none ↦ record t { running = false }
  | some w ↦ record t { running = false; phase = Phase.stopping }
])

-- What follows `join`.
unfoldable pub end_join : Bool → Thread → Thread
end_join always t = elim t.phase [
  | Phase.outside ↦ t
  | Phase.stopping ↦ record t { handle = none; phase = Phase.outside }
  | Phase.restarting created ↦ launch always created (record t { handle = none })
]

-- `run` ends: `_running` is false, or becomes so.
unfoldable pub end_run : Thread → Thread
end_run t = record t { running = false; handle = some Worker.finished }

-- The steps of a thread, of its caller's and of its own: it ends only when `_running` is false, `join`
-- returns only when it has ended, and the caller does one thing at a time.
pub data Step (always : Bool) : Thread → Thread → Type 0 where
  start_called :
      (t : Thread) (created : Bool)
      → t.phase ≡ Phase.outside
      → Step always t (begin_start always created t)
  stop_called : (t : Thread) → t.phase ≡ Phase.outside → Step always t (begin_stop t)
  run_ended :
      (t : Thread)
      → t.running ≡ false
      → t.handle ≡ some Worker.executing
      → Step always t (end_run t)
  join_returned :
      (t : Thread)
      → t.phase ≢ Phase.outside
      → t.handle ≡ some Worker.finished
      → Step always t (end_join always t)

pub data Steps (always : Bool) : Thread → Thread → Type 0 where
  here : (t : Thread) → Steps always t t
  further : (t u v : Thread) → Step always t u → Steps always u v → Steps always t v

-- `start` and `stop` as a whole, with `join` in them.
unfoldable pub start : Bool → Bool → Thread → Thread
start always created t =
    launch always created (if t.running then record t { running = false; handle = none } else t)

unfoldable pub stop : Thread → Thread
stop t = if t.running then record t { running = false; handle = none } else t
