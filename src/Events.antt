-- ===== src/Events.antt =====
-- The event scheduler: `Scheduler` and `mbs_event_handler` of
-- module_build_service/scheduler/events.py, with the loop of sched.scheduler.run.
pub mod Drain
use fm_orchestrator.Common.{ℕ, zero, suc, ◌+◌, List, [], ◌∷◌, length}
use fm_orchestrator.Exec.{
  Exec, Result, ok, raised, pure, raise, recursion_error, modify, ◌>>=◌, ◌>>◌,
}
use fm_orchestrator.Models.{World, Event, Delayed, delay}

-- The handler of an event with its arguments, called by `delay`. Every event is entered with the
-- same delay and priority, so the first of the queue is the oldest, and none lies in the future.
-- Celery only hands the event over: it does not run tasks eagerly, as for local builds and tests.
abbrev pub call_later : Event → Exec World Unit
call_later e = delay (Delayed.handler e)

-- The event is taken out of the queue before its handler is called.
abbrev pub take_first : List Event → Exec World Unit
take_first events = modify (λ w. record w { events = events })

module _ (action : Event → Exec World Unit) where
  -- One round, with the rounds behind it.
  abbrev pub round : Exec World Unit → List Event → Exec World Unit
  round rest [] = pure tt
  round rest (e ∷ es) = take_first es >> action e >> rest

  -- sched.scheduler.run; the number bounds the rounds of its loop.
  unfoldable pub run_within : ℕ → Exec World Unit
  run_within zero w = raise recursion_error w
  run_within (suc fuel) w = round (run_within fuel) w.events w

-- Scheduler.run: a round for each event, and one that finds the queue empty.
unfoldable pub run : Exec World Unit
unfolding run_within delay
run w = run_within call_later (suc (length w.events)) w

-- An exception of `run` replaces the result of the handler.
abbrev pub after_run : Result Unit → Result Unit → Result Unit
after_run result (raised e) = raised e
after_run result (ok _) = result

-- mbs_event_handler
unfoldable pub mbs_event_handler : Exec World Unit → Exec World Unit
unfolding run
mbs_event_handler func w =
    let (result, w') = func w in let (last, w'') = run w' in (after_run result last, w'')
