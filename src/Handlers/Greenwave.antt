-- ===== src/Handlers/Greenwave.antt =====
-- `decision_update` of module_build_service/scheduler/handlers/greenwave.py.
use fm_orchestrator.Common.{
  ℕ, Bool, not, Option, none, some, String, if◌then◌else◌, nat_eq, string_eq, ◌==◌,
  is_nonempty_text, ◌^^◌,
}
use fm_orchestrator.Exec.{Exec, pure, gets, ◌>>=◌, ◌>>◌}
use fm_orchestrator.Models.{
  BuildState, FailureType, ModuleBuild, World, commit, transition, state_code,
}
use fm_orchestrator.Handlers.Env.{Services, find_module}

abbrev pub satisfied_reason : String → String
satisfied_reason subject = "Module build " ^^ subject ^^ " has satisfied Greenwave policies."

module _ (services : Services) where
  abbrev pub module_with_id : Option ℕ → World → Option ModuleBuild
  module_with_id none w = none
  module_with_id (some id) w = find_module id w

  -- get_corresponding_module_build
  unfoldable pub get_corresponding_module_build : String → World → Option ModuleBuild
  unfolding find_module
  get_corresponding_module_build nvr w = module_with_id (services.module_build_service_id nvr) w

  -- The rest of the handler, for the module build that is found.
  abbrev pub satisfied_build : String → Option ModuleBuild → Exec World Unit
  satisfied_build subject none = pure tt
  satisfied_build subject (some m) = do
    if state_code m.state == state_code BuildState.done
        then (do
          transition m BuildState.ready (some (satisfied_reason subject)) FailureType.unspec
          pure tt)
        else pure tt
    commit

  unfoldable pub decision_update : (context subject : String) (satisfied : Bool) → Exec World Unit
  unfolding get_corresponding_module_build transition commit
  decision_update context subject satisfied =
      if not (is_nonempty_text services.greenwave_decision_context)
      then pure tt
      else if not (context == services.greenwave_decision_context)
      then pure tt
      else if not satisfied
      then pure tt
      else gets (get_corresponding_module_build subject) >>= satisfied_build subject
