-- ===== src/Handlers/Tasks.antt =====
-- The handlers that module_build_service/scheduler/consumer.py calls for a message, with the
-- arguments that they use. The handlers for the states "init" and "wait" are not modelled.
use fm_orchestrator.Common.{ℕ, Bool, String}
use fm_orchestrator.Exec.{Exec}
use fm_orchestrator.Models.{World, Event}
use fm_orchestrator.Handlers.Env.{Services}
use fm_orchestrator.Handlers.Components.{build_task_finalize}
use fm_orchestrator.Handlers.Repos.{repos_done}
use fm_orchestrator.Handlers.Tags.{tagged}
use fm_orchestrator.Handlers.Modules.{module_failed, module_done}
use fm_orchestrator.Handlers.Greenwave.{decision_update}

pub data Task : Type 0 where
  event : Event → Task
  module_failure module_completion : (module_build_id : ℕ) → Task
  greenwave_decision : (context subject : String) (satisfied : Bool) → Task

-- The body of the handler that belongs to a message, which mbs_event_handler decorates.
unfoldable pub perform : Services → Task → Exec World Unit
unfolding build_task_finalize repos_done tagged module_failed module_done decision_update
perform services (Task.event (Event.build_task_finalize e)) = build_task_finalize services e
perform services (Task.event (Event.repos_done _ tag_name)) = repos_done services tag_name
perform services (Task.event (Event.tagged _ tag_name build_nvr)) =
    tagged services tag_name build_nvr
perform services (Task.module_failure id) = module_failed services id
perform services (Task.module_completion id) = module_done services id
perform services (Task.greenwave_decision context subject satisfied) =
    decision_update services context subject satisfied
