-- ===== src/Events/Drain.antt =====
-- The run of the event scheduler of module_build_service/scheduler/events.py ends, and hands over
-- every event.
use fm_orchestrator.Common.{suc, ◌≡◌, sym, ◌∙◌, ap, List, [], ◌∷◌, ◌++◌, map, length}
use mathlib.Core.List.{append-nil, append_assoc}
use fm_orchestrator.Exec.{Exec, ok}
use fm_orchestrator.Models.{World, Event, Delayed, delay}
use fm_orchestrator.Events.{call_later, run_within, run, after_run, mbs_event_handler}

-- The store with an empty queue, in which Celery is asked for the handlers of the given events.
abbrev pub handed_over : World → List Event → World
handed_over w events = record w {
  events = [];
  broker = w.broker ++ map (λ e. Delayed.handler e) events;
}

abbrev pub with_queue : World → List Event → World
with_queue w events = record w { events = events }

rounds :
    (events : List Event) (w : World)
    → run_within call_later (suc (length events)) (with_queue w events)
      ≡ (ok tt, handed_over w events)
unfolding run_within delay
rounds [] w = ap (λ l. (ok tt, record w { events = []; broker = l })) (sym (append-nil w.broker))
rounds (e ∷ es) w =
    rounds es (record w { broker = w.broker ++ Delayed.handler e ∷ [] })
    ∙ ap (λ l. (ok tt, record w { events = []; broker = l }))
        (append_assoc w.broker (Delayed.handler e ∷ []) (map (λ f. Delayed.handler f) es))

pub run-handed_over : (w : World) → run w ≡ (ok tt, handed_over w w.events)
unfolding run
run-handed_over w = rounds w.events w

-- A decorated handler ends as the handler does, whether it returns or raises: the run of the
-- event scheduler behind it ends, and hands every event of the queue to Celery, in their order
-- and behind what was handed over before. The queue is then empty, and nothing else of the store
-- differs from what the handler left.
pub mbs_event_handler-handed_over :
    (func : Exec World Unit) (w : World)
    → mbs_event_handler func w ≡ ((func w).0, handed_over (func w).1 (func w).1.events)
unfolding mbs_event_handler
mbs_event_handler-handed_over func w =
    ap (λ o. (after_run (func w).0 o.0, o.1)) (run-handed_over (func w).1)
