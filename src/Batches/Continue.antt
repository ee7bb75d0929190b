-- ===== src/Batches/Continue.antt =====
-- `start_build_component` and `continue_batch_build` of
-- module_build_service/scheduler/batches.py.
use fm_orchestrator.Common.{
  Bool, not, ◌&&◌, none, some, String, List, [], ◌∷◌, filter, is_nonempty, leb, if◌then◌else◌, ◌^^◌,
}
use fm_orchestrator.Exec.{Exec, Result, ok, raised, type_error, pure, raise, modify, ◌>>=◌, ◌>>◌}
use fm_orchestrator.Models.{
  KojiState, ModuleBuild, ComponentBuild, World, Call, put_component, call, commit, current_batch,
  is_building, is_completed, is_failed, is_waiting_for_build,
}
use fm_orchestrator.Builder.{
  Config, Builder, BuildReply, Submission, submitted, refused, is_truthy_id,
}
use fm_orchestrator.Batches.Threshold.{choose}

abbrev pub with_reply : ComponentBuild → BuildReply → ComponentBuild
with_reply c r = record c {
  task_id = r.task_id;
  state = r.state;
  state_reason = r.state_reason;
  nvr = r.nvr;
}

abbrev pub with_failure : ComponentBuild → String → ComponentBuild
with_failure c reason = record c { state = some KojiState.failed; state_reason = some reason }

abbrev pub refused_reason : ComponentBuild → String → String
refused_reason c text = "Failed to build artifact " ^^ c.package_name ^^ ": " ^^ text

abbrev pub no_task_reason : ComponentBuild → String
no_task_reason c =
    "Failed to build artifact " ^^ c.package_name ^^ ": Builder did not return task ID"

module _ (builder : Builder) where
  -- The two assignments to the component, and the call of `transition` behind them. It passes no
  -- session, so its arguments do not fit the parameters and Python raises a TypeError.
  abbrev pub fail_component : ComponentBuild → String → Exec World Unit
  fail_component c reason = do modify (put_component (with_failure c reason)); raise type_error

  abbrev pub finish_submission : ComponentBuild → Submission → Exec World Unit
  finish_submission c (refused text) = fail_component c (refused_reason c text)
  finish_submission c (submitted r) =
      let c' = with_reply c r in
      do
        modify (put_component c')
        if not (is_truthy_id c'.task_id) && is_building c'
            then fail_component c' (no_task_reason c')
            else pure tt

  unfoldable pub start_build_component : ComponentBuild → Exec World Unit
  unfolding put_component call
  start_build_component c = do
    call (Call.build c.package_name c.scmurl)
    finish_submission c (builder.build_artifact c.package_name c.scmurl)

  abbrev pub first_exception : Result Unit → Result Unit → Result Unit
  first_exception (ok _) r = r
  first_exception (raised e) r = raised e

  -- The thread pool: every submission runs, then the first exception in the order of the
  -- submissions is raised again. Each thread changes its own component only.
  unfoldable pub submit_all : List ComponentBuild → Exec World Unit
  unfolding start_build_component
  submit_all [] w = (ok tt, w)
  submit_all (c ∷ cs) w =
      let (r, w') = start_build_component c w in
      let (rs, w'') = submit_all cs w' in (first_exception r rs, w'')

  -- The first loop of `continue_batch_build`.
  unfoldable pub recover_all : List ComponentBuild → Exec World (List ComponentBuild)
  recover_all [] = pure []
  recover_all (c ∷ cs) =
      if is_waiting_for_build c
      then (do (c', _) ← builder.recover_orphaned_artifact c; cs' ← recover_all cs; pure (c' ∷ cs'))
      else (do cs' ← recover_all cs; pure (c ∷ cs'))

abbrev pub insert_by_weight : ComponentBuild → List ComponentBuild → List ComponentBuild
insert_by_weight c [] = c ∷ []
insert_by_weight c (d ∷ ds) =
    if leb d.weight c.weight then c ∷ d ∷ ds else d ∷ insert_by_weight c ds

-- unbuilt_components.sort(key=lambda c: c.weight, reverse=True), which is stable
unfoldable pub sorted_by_weight : List ComponentBuild → List ComponentBuild
sorted_by_weight [] = []
sorted_by_weight (c ∷ cs) = insert_by_weight c (sorted_by_weight cs)

abbrev pub is_to_build : ComponentBuild → Bool
is_to_build c = not (is_completed c) && not (is_building c) && not (is_failed c)

-- `components or [c for c in module.current_batch() if ...]`
unfoldable pub unbuilt_components :
    ModuleBuild → List ComponentBuild → Exec World (List ComponentBuild)
unfolding current_batch
unbuilt_components m [] = do cs ← current_batch m none; pure (filter is_to_build cs)
unbuilt_components m (c ∷ cs) = pure (c ∷ cs)

-- The part of `continue_batch_build` behind the sort.
unfoldable pub build_components : Config → Builder → List ComponentBuild → Exec World Unit
unfolding choose submit_all recover_all commit
build_components cfg builder cs = do
  recovered ← recover_all builder cs
  chosen ← (λ w. let (chosen, w') = choose cfg recovered w in (ok chosen, w'))
  submit_all builder chosen
  commit

unfoldable pub continue_batch_build :
    Config → ModuleBuild → Builder → List ComponentBuild → Exec World Unit
unfolding unbuilt_components build_components sorted_by_weight
continue_batch_build cfg m builder components = do
  unbuilt ← unbuilt_components m components
  if is_nonempty unbuilt then build_components cfg builder (sorted_by_weight unbuilt) else pure tt
