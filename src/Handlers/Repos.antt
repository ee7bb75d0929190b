-- ===== src/Handlers/Repos.antt =====
-- `done` of module_build_service/scheduler/handlers/repos.py.
use fm_orchestrator.Common.{
  Bool, true, false, not, ◌&&◌, Option, none, some, String, List, [], filter, any, all, map,
  is_nonempty, is_some, if◌then◌else◌, nat_eq, ◌==◌, strip_suffix, join,
}
use fm_orchestrator.Exec.{Exec, pure, raise, recursion_error, modify, gets, ◌>>=◌, ◌>>◌}
use fm_orchestrator.Models.{
  BuildState, FailureType, ModuleBuild, ComponentBuild, World, Call, put_module, commit, call,
  component_builds, current_batch, up_to_current_batch, transition, get_by_tag, state_code,
  is_building, is_completed, is_tagged, is_unbuilt, is_unsuccessful, is_waiting_for_build,
}
use fm_orchestrator.Builder.{Builder, is_koji_or_test}
use fm_orchestrator.Batches.{start_next_batch_build}
use fm_orchestrator.Handlers.Env.{Services, create_from_module, failure_reason}

module _ (services : Services) where
  -- Everything is built.
  abbrev pub finished : ModuleBuild → Exec World Unit
  finished m = do
    now ← gets (λ w. w.now)
    let m' = record m { time_completed = some now }
    modify (put_module m')
    call (Call.finalize true)
    transition m' BuildState.done none FailureType.unspec
    commit

  -- The end of the handler: the next batch, or the end of the module build.
  unfoldable pub finish_or_continue :
      ModuleBuild → Builder → List ComponentBuild → List ComponentBuild → Exec World Unit
  unfolding start_next_batch_build transition put_module commit call join
  finish_or_continue m builder cs good =
      if any is_unbuilt cs && not (any is_unsuccessful cs)
      then (if builder.buildroot_ready (map (λ c. c.nvr) good)
          then (do
            start_next_batch_build services.config services.reuse builder
                (λ _. raise recursion_error) services.recursion_limit m []
            pure tt)
          else pure tt)
      else if any is_unsuccessful cs
      then (do transition m BuildState.failed (some (failure_reason cs)) FailureType.user; commit)
      else finished m

  -- The handler once the current batch may be looked at.
  unfoldable pub check_good :
      ModuleBuild → List ComponentBuild → List ComponentBuild → Exec World Unit
  unfolding finish_or_continue create_from_module transition commit join
  check_good m cs current =
      if any is_building current
      then pure tt
      else if is_nonempty cs && not (any is_completed current)
      then (do
        transition m BuildState.failed (some (failure_reason current)) FailureType.infra
        commit)
      else (do
        builder ← create_from_module services m
        finish_or_continue m builder cs (filter is_completed current))

  -- Whether the regeneration is ignored for the tags or the states of the components.
  unfoldable pub is_ignored : ModuleBuild → List ComponentBuild → Exec World Bool
  unfolding up_to_current_batch
  is_ignored m current =
      if is_koji_or_test services.config.system && is_nonempty current
      then (do
        past ← up_to_current_batch m none
        pure (
            if any (λ c. is_completed c && not (is_tagged c)) past
            then true
            else all is_waiting_for_build current))
      else pure false

  unfoldable pub regenerated : ModuleBuild → Exec World Unit
  unfolding check_good is_ignored component_builds current_batch
  regenerated m = do
    cs ← gets (component_builds m)
    current ← if is_nonempty cs then current_batch m none else pure []
    ignored ← is_ignored m current
    if ignored then pure tt else check_good m cs current

  -- The rest for the module build that is found.
  abbrev pub in_flight : Option ModuleBuild → Exec World Unit
  in_flight none = pure tt
  in_flight (some m) =
      if state_code m.state == state_code BuildState.failed then pure tt else regenerated m

  unfoldable pub repos_done : String → Exec World Unit
  unfolding regenerated get_by_tag strip_suffix
  repos_done tag_name =
      if is_koji_or_test services.config.system && not (is_some (strip_suffix "-build" tag_name))
      then pure tt
      else get_by_tag tag_name >>= in_flight
