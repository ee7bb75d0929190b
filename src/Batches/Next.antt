-- ===== src/Batches/Next.antt =====
-- `start_next_batch_build` of module_build_service/scheduler/batches.py.
use fm_orchestrator.Common.{
  ℕ, zero, suc, ◌+◌, Bool, true, false, not, ◌&&◌, ◌||◌, Option, none, some, String, List, [], ◌∷◌,
  any, all, map, is_nonempty, is_some, if◌then◌else◌, nat_eq, ◌==◌, ◌^^◌, join,
}
use fm_orchestrator.Exec.{Exec, pure, modify, gets, ◌>>=◌, ◌>>◌}
use fm_orchestrator.Models.{
  BuildState, FailureType, ModuleBuild, ComponentBuild, World, Event, put_module, add_event, commit,
  component_builds, current_batch, transition, is_unbuilt, is_waiting_for_build, is_building,
  is_unsuccessful,
}
use fm_orchestrator.Builder.{Config, Builder}
use fm_orchestrator.Reuse.{ReuseEnv, get_reusable_components, reuse_component, is_changed_and_after}
use fm_orchestrator.Batches.Continue.{unbuilt_components, continue_batch_build}

module _ (cfg : Config) (env : ReuseEnv) (builder : Builder) where
  -- The loop over the pairs of a component and what it can reuse: the components that are left
  -- to build, and whether one was reused.
  unfoldable pub reuse_some :
      List ComponentBuild → List (Option ComponentBuild) → Exec World (List ComponentBuild × Bool)
  unfolding reuse_component
  reuse_some [] rs = pure ([], false)
  reuse_some (c ∷ cs) [] = pure ([], false)
  reuse_some (c ∷ cs) (none ∷ rs) = do
    (left, reused_one) ← reuse_some cs rs
    pure (c ∷ left, reused_one)
  reuse_some (c ∷ cs) (some old ∷ rs) = do
    reuse_component env c old false true
    (left, _) ← reuse_some cs rs
    pure (left, true)

  -- Reuse where `should_try_reuse`; otherwise no component is left over for the caller, which
  -- then builds the whole batch.
  unfoldable pub try_reuse :
      ModuleBuild
      → Bool
      → List ComponentBuild
      → Exec World (ModuleBuild × List ComponentBuild × Bool)
  unfolding reuse_some get_reusable_components commit
  try_reuse m should_try unbuilt =
      if should_try
      then (do
        (m', reusable) ← get_reusable_components env m (map (λ c. c.package_name) unbuilt)
        (left, reused_one) ← reuse_some unbuilt reusable
        if reused_one then commit else pure tt
        pure (m', left, reused_one))
      else pure (m, [], false)

  -- The part of the function behind "Starting build of next batch".
  unfoldable pub start_batch : ModuleBuild → Bool → List ComponentBuild → Exec World ModuleBuild
  unfolding try_reuse continue_batch_build add_event
  start_batch m should_try unbuilt = do
    (m', left, reused_one) ← try_reuse m should_try unbuilt
    if reused_one && not (is_nonempty left)
        then add_event (Event.repos_done "start_build_batch: fake_msg" builder.module_build_tag)
        else continue_batch_build cfg m' builder left
    pure m'

  -- should_try_reuse, with the batch and the components as they were before the step
  abbrev pub should_try_reuse : ModuleBuild → List ComponentBuild → Bool
  should_try_reuse m cs =
      if is_changed_and_after m.rebuild_strategy
      then all (λ c. is_some c.reused_component_id) cs || m.batch == 1
      else true

  -- The failure for active tasks of an earlier build.
  abbrev pub fail_for_tasks : ModuleBuild → String → Exec World ModuleBuild
  fail_for_tasks m reason = do
    m' ← transition m BuildState.failed (some reason) FailureType.infra
    commit
    pure m'

  abbrev pub has_tasks : Option (List String) → Bool
  has_tasks none = false
  has_tasks (some ids) = is_nonempty ids

  abbrev pub tasks_reason : Option (List String) → String
  tasks_reason none = ""
  tasks_reason (some ids) =
      "Cannot start a batch, because some components are already in 'building' state. See tasks (ID): "
      ^^ join ids

  -- The step to the next batch. `again` is the call that the function makes of itself.
  abbrev pub advance :
      (ModuleBuild → Exec World ModuleBuild)
      → ModuleBuild
      → List ComponentBuild
      → List ComponentBuild
      → Exec World ModuleBuild
  advance again m components cs =
      let m' = record m { batch = m.batch + 1 } in
      do
        modify (put_module m')
        unbuilt ← unbuilt_components m' components
        if is_nonempty unbuilt then start_batch m' (should_try_reuse m cs) unbuilt else again m'

  -- The tests on the current batch, in the order of the code.
  abbrev pub decide_batch :
      (ModuleBuild → Exec World ModuleBuild)
      → ModuleBuild
      → List ComponentBuild
      → List ComponentBuild
      → List ComponentBuild
      → Exec World ModuleBuild
  decide_batch again m components cs current =
      if any is_waiting_for_build current
      then (do continue_batch_build cfg m builder components; pure m)
      else if any is_building current
      then pure m
      else if any is_unsuccessful cs
      then pure m
      else if has_tasks (builder.list_tasks_for_components cs)
      then fail_for_tasks m (tasks_reason (builder.list_tasks_for_components cs))
      else if builder.buildroot_ready (map (λ c. c.nvr) current)
      then advance again m components cs
      else pure m

  -- The module comes back as the function leaves it. The number bounds the depth of the recursion,
  -- as Python's recursion limit does, and `at_limit` is what happens there.
  module _ (at_limit : ModuleBuild → Exec World ModuleBuild) where
    unfoldable pub start_next_batch_build :
        ℕ → ModuleBuild → List ComponentBuild → Exec World ModuleBuild
    unfolding start_batch unbuilt_components continue_batch_build put_module component_builds
        transition current_batch commit join
    start_next_batch_build zero m components = at_limit m
    start_next_batch_build (suc depth) m components = do
      cs ← gets (component_builds m)
      if any is_unbuilt cs
          then (do
            current ← current_batch m none
            decide_batch (λ m'. start_next_batch_build depth m' []) m components cs current)
          else pure m
