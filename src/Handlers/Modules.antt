-- ===== src/Handlers/Modules.antt =====
-- `failed` and `done` of module_build_service/scheduler/handlers/modules.py.
use fm_orchestrator.Common.{
  ℕ, Bool, false, Option, none, some, String, List, [], ◌∷◌, filter, if◌then◌else◌, nat_eq, ◌==◌,
  is_truthy,
}
use fm_orchestrator.Exec.{Exec, pure, modify, gets, ◌>>=◌, ◌>>◌}
use fm_orchestrator.Models.{
  BuildState, FailureType, KojiState, ModuleBuild, ComponentBuild, World, Call, put_module,
  put_component, commit, call, component_builds, transition, state_code, is_unbuilt,
}
use fm_orchestrator.Builder.{is_truthy_id}
use fm_orchestrator.Handlers.Env.{Services, Gate, find_module, required, create_from_module}

-- builder.cancel_build for a task that there is
abbrev pub cancel : Option ℕ → Exec World Unit
cancel none = pure tt
cancel (some id) = if is_truthy_id (some id) then call (Call.cancel_build id) else pure tt

-- The loop over the components that are not built.
unfoldable pub cancel_components : Option String → List ComponentBuild → Exec World Unit
unfolding call put_component
cancel_components reason [] = pure tt
cancel_components reason (c ∷ cs) = do
  cancel c.task_id
  modify (put_component (record c { state = some KojiState.failed; state_reason = reason }))
  cancel_components reason cs

module _ (services : Services) where
  abbrev pub missing_tag : String
  missing_tag = "Missing koji tag. Assuming previously failed module lookup."

  -- The branch for a build with a Koji tag.
  unfoldable pub stop_components : ModuleBuild → Exec World Unit
  unfolding cancel_components create_from_module component_builds call
  stop_components m = do
    create_from_module services m
    cancel m.new_repo_task_id
    cs ← gets (component_builds m)
    cancel_components m.state_reason (filter is_unbuilt cs)
    call (Call.finalize false)

  -- "Don't transition it again if it's already been transitioned"
  unfoldable pub ensure_failed : ModuleBuild → Exec World Unit
  unfolding transition commit
  ensure_failed m = do
    if state_code m.state == state_code BuildState.failed
        then pure tt
        else (do transition m BuildState.failed none FailureType.user; pure tt)
    commit

  -- The rest of the handler, for the module build that is found.
  abbrev pub fail_module : ModuleBuild → Exec World Unit
  fail_module m =
      if is_truthy m.koji_tag
      then (do stop_components m; ensure_failed m)
      else if is_truthy m.state_reason
      then ensure_failed m
      else (do transition m BuildState.failed (some missing_tag) FailureType.infra; commit)

  unfoldable pub module_failed : (module_build_id : ℕ) → Exec World Unit
  unfolding stop_components ensure_failed find_module transition commit
  module_failed id = do found ← gets (find_module id); required found >>= fail_module

  abbrev pub gating_reason : Bool → String
  gating_reason error_occurred =
      if error_occurred
      then "Gating failed (Error occured while querying Greenwave)"
      else "Gating failed"

  -- The gate of a build that is no scratch build.
  unfoldable pub pass_gate : Option Gate → ModuleBuild → Exec World Unit
  unfolding transition put_module
  pass_gate none m = do transition m BuildState.ready none FailureType.unspec; pure tt
  pass_gate (some gate) m =
      if gate.check_gating m
      then (do transition m BuildState.ready none FailureType.unspec; pure tt)
      else (do
        now ← gets (λ w. w.now)
        modify (
            put_module (record m {
              state_reason = some (gating_reason (gate.error_occurred m));
              time_modified = now;
            })))

  -- Scratch builds stay in the "done" state.
  abbrev pub leave_done : ModuleBuild → Exec World Unit
  leave_done m = if m.scratch then pure tt else (do pass_gate services.greenwave m; commit)

  unfoldable pub module_done : (module_build_id : ℕ) → Exec World Unit
  unfolding pass_gate find_module commit
  module_done id = do found ← gets (find_module id); required found >>= leave_done
