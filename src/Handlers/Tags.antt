-- ===== src/Handlers/Tags.antt =====
-- `tagged` of module_build_service/scheduler/handlers/tags.py.
use fm_orchestrator.Common.{
  ℕ, Bool, true, false, not, ◌&&◌, Option, none, some, String, filter, any, first, is_some,
  if◌then◌else◌, nat_eq, string_eq, option_eq, ◌==◌, strip_suffix,
}
use fm_orchestrator.Exec.{Exec, pure, modify, gets, ◌>>=◌, ◌>>◌}
use fm_orchestrator.Models.{
  ModuleBuild, ComponentBuild, World, Call, Event, put_module, put_component, commit, add_event,
  call, component_builds, current_batch, up_to_current_batch, get_by_tag, is_completed, is_tagged,
  is_unbuilt,
}
use fm_orchestrator.Builder.{Builder, is_koji_or_test, is_truthy_id}
use fm_orchestrator.Handlers.Env.{Services, create_from_module}

-- ComponentBuild.from_component_nvr
unfoldable pub from_component_nvr : Option String → ℕ → World → Option ComponentBuild
from_component_nvr nvr module_id w =
    first (filter (λ c. c.nvr == nvr && c.module_id == module_id) w.components)

abbrev pub with_tag : String → ComponentBuild → ComponentBuild
with_tag tag_name c =
    if is_some (strip_suffix "-build" tag_name)
    then record c { tagged = true }
    else record c { tagged_in_final = true }

abbrev task_is_active : Services → Option ℕ → Bool
task_is_active services none = false
task_is_active services (some id) = services.is_task_active id

-- _is_new_repo_generating
abbrev pub is_new_repo_generating : Services → ModuleBuild → Bool
is_new_repo_generating services m =
    is_truthy_id m.new_repo_task_id && task_is_active services m.new_repo_task_id

module _ (services : Services) where
  abbrev pub with_new_repo : ModuleBuild → String → ModuleBuild
  with_new_repo m repo_tag = record m { new_repo_task_id = some (services.new_repo_task repo_tag) }

  -- Regenerate the repository, or go on where nothing is left to build.
  abbrev pub regenerate : ModuleBuild → Builder → Exec World Unit
  regenerate m builder = do
    cs ← gets (component_builds m)
    if any is_unbuilt cs
        then (if is_new_repo_generating services m then pure tt else (do
          call (Call.new_repo builder.module_build_tag)
          modify (put_module (with_new_repo m builder.module_build_tag))))
        else add_event (Event.repos_done "fake_msg" builder.module_build_tag)

  -- All components are tagged.
  unfoldable pub all_tagged : ModuleBuild → Exec World Unit
  unfolding create_from_module component_builds call put_module add_event commit
  all_tagged m = do builder ← create_from_module services m; regenerate m builder; commit

  unfoldable pub tagged_component : ModuleBuild → Exec World Unit
  unfolding all_tagged current_batch up_to_current_batch
  tagged_component m = do
    current ← current_batch m none
    if any is_unbuilt current then pure tt else (do
      past ← up_to_current_batch m none
      if any (λ c. is_completed c && not (is_tagged c)) past then pure tt else all_tagged m)

  -- The rest of the handler, for the component that is found.
  abbrev pub tag_component : String → ModuleBuild → Option ComponentBuild → Exec World Unit
  tag_component tag_name m none = pure tt
  tag_component tag_name m (some c) = do
    modify (put_component (with_tag tag_name c))
    commit
    tagged_component m

  -- The rest of the handler, for the module build that is found.
  abbrev pub tag_module : String → Option String → Option ModuleBuild → Exec World Unit
  tag_module tag_name build_nvr none = pure tt
  tag_module tag_name build_nvr (some m) = do
    component ← gets (from_component_nvr build_nvr m.id)
    tag_component tag_name m component

  unfoldable pub tagged : String → Option String → Exec World Unit
  unfolding tagged_component get_by_tag from_component_nvr put_component commit strip_suffix
  tagged tag_name build_nvr =
      if is_koji_or_test services.config.system
      then get_by_tag tag_name >>= tag_module tag_name build_nvr
      else pure tt
