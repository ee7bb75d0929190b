-- ===== src/Handlers/Components.antt =====
-- `build_task_finalize` of module_build_service/scheduler/handlers/components.py.
use fm_orchestrator.Common.{
  ℕ, true, not, ◌&&◌, Option, none, some, String, List, [], ◌∷◌, ◌++◌, filter, any, first, map,
  is_nonempty, if◌then◌else◌, nat_eq, string_eq, option_eq, ◌==◌, ◌^^◌, is_truthy, join,
}
use fm_orchestrator.Exec.{Exec, query_error, pure, raise, modify, gets, ◌>>=◌, ◌>>◌}
use fm_orchestrator.Models.{
  BuildState, FailureType, Mmd, ModuleBuild, ComponentBuild, World, Call, Event, Finalize,
  put_module, put_component, commit, add_event, call, current_batch, transition, state_is_complete,
  is_building, is_completed, is_unbuilt, is_unsuccessful,
}
use fm_orchestrator.Builder.{is_koji_or_test}
use fm_orchestrator.Batches.{continue_batch_build}
use fm_orchestrator.Handlers.Env.{
  Services, find_module, required, create_from_module, failure_reason,
}

abbrev pub exactly_one : List ComponentBuild → Exec World (Option ComponentBuild)
exactly_one (c ∷ []) = pure (some c)
exactly_one _ = raise query_error

-- ComponentBuild.from_component_event
unfoldable pub from_component_event : Option ℕ → Option ℕ → Exec World (Option ComponentBuild)
from_component_event task_id none w =
    pure (first (filter (λ c. c.task_id == task_id) w.components)) w
from_component_event task_id (some module_id) w =
    exactly_one (filter (λ c. c.task_id == task_id && c.module_id == module_id) w.components) w

abbrev pub reason_of : Finalize → Option String
reason_of e =
    if is_truthy e.state_reason
    then e.state_reason
    else if state_is_complete e.build_new_state
    then some ""
    else some ("Failed to build artifact " ^^ e.build_name ^^ " in Koji")

abbrev pub nvr_of : Finalize → String
nvr_of e = e.build_name ^^ "-" ^^ e.build_version ^^ "-" ^^ e.build_release

abbrev pub finalized : ComponentBuild → Finalize → ComponentBuild
finalized c e = record c {
  state = e.build_new_state;
  nvr = some (nvr_of e);
  state_reason = reason_of e;
}

-- mmd.add_rpm_filter, which keeps a set
abbrev pub add_rpm_filters : Mmd → List String → Mmd
add_rpm_filters mmd [] = mmd
add_rpm_filters mmd (rpm ∷ rpms) =
    add_rpm_filters
      (if any (λ r. r == rpm) mmd.rpm_filters
        then mmd
        else record mmd { rpm_filters = mmd.rpm_filters ++ rpm ∷ [] })
      rpms

module _ (services : Services) where
  -- A buildonly component keeps its RPMs out of the module.
  unfoldable pub filter_buildonly : ComponentBuild → ModuleBuild → Exec World ModuleBuild
  unfolding put_module commit
  filter_buildonly c m =
      if c.buildonly && is_koji_or_test services.config.system && is_completed c
      then (do
        let m' = record m { mmd = add_rpm_filters m.mmd (services.list_build_rpms c.nvr) }
        modify (put_module m')
        commit
        pure m')
      else pure m

  -- The artifacts of a finished batch go into the build tag, and those that are not only for the
  -- build into the destination tag.
  unfoldable pub tag_batch : ComponentBuild → List ComponentBuild → Exec World Unit
  unfolding call
  tag_batch c built = do
    call (Call.buildroot_add_artifacts (map (λ b. b.nvr) built) c.build_time_only)
    let dest = map (λ (b : ComponentBuild). b.nvr) (filter (λ b. not b.build_time_only) built)
    if is_nonempty dest then call (Call.tag_artifacts dest true) else pure tt

  -- The branches for a batch in which nothing is left to build.
  unfoldable pub finish_batch : ComponentBuild → ModuleBuild → List ComponentBuild → Exec World Unit
  unfolding create_from_module tag_batch transition commit add_event join
  finish_batch c m current = do
    builder ← create_from_module services m
    if any is_unsuccessful current
        then (do
          transition m BuildState.failed (some (failure_reason current)) FailureType.user
          commit)
        else (do
          if any is_completed current
              then tag_batch c (filter is_completed current)
              else add_event (Event.repos_done "fake_msg" builder.module_build_tag)
          commit)

  unfoldable pub handle_batch : ComponentBuild → ModuleBuild → List ComponentBuild → Exec World Unit
  unfolding finish_batch continue_batch_build create_from_module
  handle_batch c m current =
      if any is_unbuilt current
      then (if any (λ u. not (is_building u)) (filter is_unbuilt current)
          then (do
            builder ← create_from_module services m
            continue_batch_build services.config m builder [])
          else pure tt)
      else finish_batch c m current

  -- The handler behind the commit of the component's new state.
  unfoldable pub finalize_module : Finalize → ComponentBuild → ModuleBuild → Exec World Unit
  unfolding filter_buildonly handle_batch current_batch transition commit
  finalize_module e c m =
      if c.package_name == "module-build-macros" && not (is_completed c)
      then (do transition m BuildState.failed c.state_reason FailureType.user; commit)
      else (do
        m' ← filter_buildonly c m
        current ← current_batch m' none
        handle_batch c m' current)

  -- The rest of the handler, for the component that is found.
  abbrev pub finalize_found : Finalize → Option ComponentBuild → Exec World Unit
  finalize_found e none = pure tt
  finalize_found e (some c) = do
    modify (put_component (finalized c e))
    commit
    parent ← gets (find_module c.module_id)
    m ← required parent
    finalize_module e (finalized c e) m

  unfoldable pub build_task_finalize : Finalize → Exec World Unit
  unfolding finalize_module from_component_event find_module put_component commit
  build_task_finalize e = do
    found ← from_component_event e.task_id e.module_build_id
    finalize_found e found
