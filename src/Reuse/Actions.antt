-- ===== src/Reuse/Actions.antt =====
-- `reuse_component`, `attempt_to_reuse_all_components` and `get_reusable_components` of
-- module_build_service/scheduler/reuse.py.
use fm_orchestrator.Common.{
  Bool, true, false, Option, none, some, String, List, [], ◌∷◌, map, ltb, if◌then◌else◌, string_eq,
  ◌==◌,
}
use fm_orchestrator.Exec.{Exec, pure, modify, gets, lift, ◌>>=◌, ◌>>◌}
use fm_orchestrator.Models.{
  KojiState, ModuleBuild, ComponentBuild, World, Call, Event, put_component, put_module,
  component_builds, add_event, call,
}
use fm_orchestrator.Builder.{is_koji_or_test}
use fm_orchestrator.Reuse.Source.{ReuseEnv, get_reusable_module}
use fm_orchestrator.Reuse.Component.{get_reusable_component}

-- The component after the assignments of `reuse_component`.
abbrev pub reused : ComponentBuild → ComponentBuild → Bool → ComponentBuild
reused c previous change_state_now = record c {
  reused_component_id = some previous.id;
  task_id = previous.task_id;
  state = if change_state_now then previous.state else some KojiState.building;
  state_reason = some "Reused component from previous module build";
  nvr = previous.nvr;
}

module _ (env : ReuseEnv) where
  unfoldable pub reuse_component :
      ComponentBuild
      → ComponentBuild
      → (change_state_now schedule_fake_events : Bool) → Exec World ComponentBuild
  unfolding put_component add_event
  reuse_component c previous change_state_now schedule_fake_events =
      let c' = reused c previous change_state_now in
      do
        modify (put_component c')
        nvr ← lift (env.parse_nvr c'.nvr)
        if schedule_fake_events
            then add_event (
                Event.build_task_finalize (record {
                  msg_id = "reuse_component: fake msg";
                  task_id = c'.task_id;
                  build_new_state = previous.state;
                  build_name = nvr.name;
                  build_version = nvr.version;
                  build_release = nvr.release;
                  module_build_id = some c'.module_id;
                  state_reason = c'.state_reason;
                }))
            else pure tt
        pure c'

  module _ (m : ModuleBuild) where
    -- The pairs of the first loop of `attempt_to_reuse_all_components`, or nothing where it
    -- returns False. The earlier module build is given, so the module does not change.
    unfoldable pub reusable_pairs :
        ModuleBuild
        → List ComponentBuild
        → Exec World (Option (List (ComponentBuild × ComponentBuild)))
    unfolding get_reusable_component
    reusable_pairs previous [] = pure (some [])
    reusable_pairs previous (c ∷ cs) =
        let rest = reusable_pairs previous cs in
        if c.package_name == "module-build-macros" then rest else (do
          (_, found) ← get_reusable_component env m c.package_name (some previous)
          elim found [
            | none ↦ pure none
            | some old ↦ (do
              pairs ← rest
              elim pairs [ none ↦ pure none | some ps ↦ pure (some ((c, old) ∷ ps)) ])
          ])

  -- The second loop: the module with its last batch, and the artifacts to tag.
  unfoldable pub reuse_pairs :
      ModuleBuild
      → List (ComponentBuild × ComponentBuild)
      → Exec World (ModuleBuild × List (Option String))
  unfolding reuse_component put_module
  reuse_pairs m [] = pure (m, [])
  reuse_pairs m ((c, old) ∷ ps) =
      let m' = if ltb m.batch c.batch then record m { batch = c.batch } else m in
      do
        modify (put_module m')
        c' ← reuse_component c old true false
        (last, artifacts) ← reuse_pairs m' ps
        pure (last, c'.nvr ∷ artifacts)

  -- The part behind the first loop: every component is reused, and its artifact tagged.
  abbrev pub tag_pairs :
      ModuleBuild
      → Option (List (ComponentBuild × ComponentBuild))
      → Exec World (ModuleBuild × Bool)
  tag_pairs m none = pure (m, false)
  tag_pairs m (some ps) = do
    (last, artifacts) ← reuse_pairs m ps
    call (Call.buildroot_add_artifacts artifacts false)
    call (Call.tag_artifacts artifacts true)
    pure (last, true)

  -- The part behind `get_reusable_module`.
  abbrev pub reuse_all : ModuleBuild × Option ModuleBuild → Exec World (ModuleBuild × Bool)
  reuse_all (m, none) = pure (m, false)
  reuse_all (m, some previous) = do
    cs ← gets (component_builds m)
    pairs ← reusable_pairs m previous cs
    tag_pairs m pairs

  unfoldable pub attempt_to_reuse_all_components : ModuleBuild → Exec World (ModuleBuild × Bool)
  unfolding get_reusable_module reusable_pairs reuse_pairs component_builds call
  attempt_to_reuse_all_components m = do found ← get_reusable_module env m; reuse_all found

  -- One answer for each name, in their order.
  unfoldable pub check_components :
      ModuleBuild → ModuleBuild → List String → Exec World (List (Option ComponentBuild))
  unfolding get_reusable_component
  check_components m previous [] = pure []
  check_components m previous (name ∷ names) = do
    (_, c) ← get_reusable_component env m name (some previous)
    cs ← check_components m previous names
    pure (c ∷ cs)

  -- The answers for a found module build, or for none.
  abbrev pub answers :
      List String
      → ModuleBuild × Option ModuleBuild
      → Exec World (ModuleBuild × List (Option ComponentBuild))
  answers names (m, none) = pure (m, map (λ _. none) names)
  answers names (m, some previous) = do cs ← check_components m previous names; pure (m, cs)

  -- With no `previous_module_build`, as the one caller has it.
  unfoldable pub get_reusable_components :
      ModuleBuild → List String → Exec World (ModuleBuild × List (Option ComponentBuild))
  unfolding check_components get_reusable_module
  get_reusable_components m names =
      if is_koji_or_test env.system
      then (do found ← get_reusable_module env m; answers names found)
      else pure (m, map (λ _. none) names)
