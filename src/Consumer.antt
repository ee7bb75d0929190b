-- ===== src/Consumer.antt =====
-- `_map_message` and `process_message` of module_build_service/scheduler/consumer.py, without a
-- Celery broker.
pub mod Failure
use fm_orchestrator.Common.{ℕ, Bool, Option, none, some, String}
use fm_orchestrator.Exec.{
  Exec, Result, ok, raised, Error, key_error, pure, raise, gets, ◌>>=◌, ◌>>◌,
}
use fm_orchestrator.Models.{
  BuildState, init, wait, build, done, failed, ready, garbage, KojiState, FailureType, ModuleBuild,
  ComponentBuild, World, Finalize, commit, rollback, transition, get_by_tag,
}
use fm_orchestrator.Events.{mbs_event_handler}
use fm_orchestrator.Handlers.{
  Services, find_module, required, from_component_event, get_corresponding_module_build,
  build_task_finalize, repos_done, tagged, module_failed, module_done, decision_update,
}

-- A message, by the fields that its handler uses.
pub data EventInfo : Type 0 where
  koji_build_change : Finalize → EventInfo
  koji_repo_change : (tag_name : String) → EventInfo
  koji_tag_change : (tag_name : String) (build_nvr : Option String) → EventInfo
  mbs_module_state_change : (module_build_id : ℕ) (state : BuildState) → EventInfo
  greenwave_decision_update : (context subject : String) (satisfied : Bool) → EventInfo
  -- Any other kind of event.
  unknown : EventInfo

-- A handler with its arguments, or nothing for `no_op_handler` and for no handler.
abbrev pub Handler : Type 0
Handler = Option (Exec World Unit)

-- The bodies of the handlers of the states "init" and "wait", which are not modelled, and `str` of
-- an exception. Every handler is decorated by mbs_event_handler.
module _ (services : Services) (module_init module_wait : ℕ → Exec World Unit)
    (error_text : Error → String) where
  -- ON_BUILD_CHANGE_HANDLERS
  abbrev pub on_build_change : Finalize → Option KojiState → Exec World Handler
  on_build_change e none = raise key_error
  on_build_change e (some KojiState.building) = pure none
  on_build_change e (some KojiState.deleted) = pure none
  on_build_change e (some _) = pure (some (mbs_event_handler (build_task_finalize services e)))

  -- ON_MODULE_CHANGE_HANDLERS
  abbrev pub on_module_change : BuildState → ℕ → Handler
  on_module_change init id = some (mbs_event_handler (module_init id))
  on_module_change wait id = some (mbs_event_handler (module_wait id))
  on_module_change build id = none
  on_module_change failed id = some (mbs_event_handler (module_failed services id))
  on_module_change done id = some (mbs_event_handler (module_done services id))
  on_module_change ready id = none
  on_module_change garbage id = none

  abbrev pub module_of : Option ComponentBuild → World → Option ModuleBuild
  module_of none w = none
  module_of (some c) w = find_module c.module_id w

  -- _map_message
  unfoldable pub map_message : EventInfo → Exec World (Handler × Option ModuleBuild)
  unfolding from_component_event get_by_tag find_module get_corresponding_module_build
  map_message (koji_build_change e) = do
    handler ← on_build_change e e.build_new_state
    component ← from_component_event e.task_id e.module_build_id
    m ← gets (module_of component)
    pure (handler, m)
  map_message (koji_repo_change tag_name) = do
    m ← get_by_tag tag_name
    pure (some (mbs_event_handler (repos_done services tag_name)), m)
  map_message (koji_tag_change tag_name build_nvr) = do
    m ← get_by_tag tag_name
    pure (some (mbs_event_handler (tagged services tag_name build_nvr)), m)
  map_message (mbs_module_state_change id state) = do
    m ← gets (find_module id)
    pure (on_module_change state id, m)
  map_message (greenwave_decision_update context subject satisfied) = do
    m ← gets (get_corresponding_module_build services subject)
    pure (some (mbs_event_handler (decision_update services context subject satisfied)), m)
  map_message unknown = pure (none, none)

  -- The `except` clause: undo, refresh the module build, and fail it.
  unfoldable pub fail_build : ModuleBuild → Error → Exec World Unit
  unfolding rollback find_module transition commit
  fail_build m e = do
    rollback
    found ← gets (find_module m.id)
    m' ← required found
    transition m' BuildState.failed (some (error_text e)) FailureType.infra
    commit
    raise e

  abbrev pub except_fail : ModuleBuild → Result Unit → Exec World Unit
  except_fail m (ok _) w = (ok tt, w)
  except_fail m (raised e) w = fail_build m e w

  abbrev pub call_handler : Handler × Option ModuleBuild → Exec World Unit
  call_handler (none, m) w = (ok tt, w)
  call_handler (some handler, none) w = (ok tt, w)
  call_handler (some handler, some m) w = let (r, w') = handler w in except_fail m r w'

  unfoldable pub process_message : EventInfo → Exec World Unit
  unfolding map_message fail_build
  process_message event_info = map_message event_info >>= call_handler
