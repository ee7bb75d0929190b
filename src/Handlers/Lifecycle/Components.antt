-- ===== src/Handlers/Lifecycle/Components.antt =====
-- The rows of the module builds through `build_task_finalize` of
-- module_build_service/scheduler/handlers/components.py.
use fm_orchestrator.Common.{
  ◌≡◌, refl, ℕ, not, ◌&&◌, Option, none, some, List, [], ◌∷◌, any, filter, if◌then◌else◌, nat_eq,
  option_eq, string_eq, ◌==◌, inl, arith,
}
use fm_orchestrator.Exec.{◌>>=◌, ◌>>◌}
use fm_orchestrator.Exec.Ensures.{Ensures, Ensures-if, Ensures-bind}
use fm_orchestrator.Models.{
  BuildState, FailureType, ModuleBuild, ComponentBuild, World, Event, Finalize, current_batch,
  is_completed, is_building, is_unbuilt, is_unsuccessful, put_component, put_module, commit, call,
  add_event,
}
use fm_orchestrator.Models.History.{
  EdgeRelation, Follows, Tracks, Tracks-kept, Follows-keep, put-Tracks,
}
use fm_orchestrator.Builder.{Builder, is_koji_or_test}
use fm_orchestrator.Batches.{continue_batch_build}
use fm_orchestrator.Batches.Modules.{continue_batch_build-modules}
use fm_orchestrator.Handlers.{
  Services, create_from_module, failure_reason, find_module, required, exactly_one,
  from_component_event, finalized, add_rpm_filters, filter_buildonly, tag_batch, finish_batch,
  handle_batch, finalize_module, finalize_found, build_task_finalize,
}
use fm_orchestrator.Handlers.Lifecycle.{
  BackendLaws, Ends, Ends-kept, commit-Ends, event-Ends, create-Tracks, transition-commit-Ends,
  row-Tracks,
}

one-modules : (cs : List ComponentBuild) (w : World) → (exactly_one cs w).1.modules ≡ w.modules
one-modules [] w = refl
one-modules (c ∷ []) w = refl
one-modules (c ∷ d ∷ cs) w = refl

module _ (services : Services) (laws : BackendLaws services) (E : EdgeRelation) (i : ℕ)
    (m : ModuleBuild) (fails : (id : ℕ) (s : BuildState) → E id s BuildState.failed) where
  event-modules :
      (task_id module_id : Option ℕ) (w : World)
      → (from_component_event task_id module_id w).1.modules ≡ w.modules
  unfolding from_component_event
  event-modules task_id none w = refl
  event-modules task_id (some id) w =
      one-modules (filter (λ c. c.task_id == task_id && c.module_id == id) w.components) w

  filter_buildonly-Tracks :
      (c : ComponentBuild) (n : ModuleBuild) (w : World)
      → Tracks E i m n w
      → Ensures (Tracks E i m) (Follows E i m) (filter_buildonly services c n w)
  unfolding filter_buildonly put_module commit
  filter_buildonly-Tracks c n w h =
      Ensures-if (c.buildonly && is_koji_or_test services.config.system && is_completed c) _ _ w
        (λ _. record {
          holds =
              put-Tracks E i m n
                (record n { mmd = add_rpm_filters n.mmd (services.list_build_rpms c.nvr) }) w _ h
                (inl (record { same_id = refl; same_state = refl; same_trace = refl })) refl;
        })
        (λ _. record { holds = h })

  tag_batch-Ends :
      (c : ComponentBuild) (built : List ComponentBuild) (w : World)
      → Follows E i m w
      → Ends E i m (tag_batch services c built) w
  unfolding tag_batch call
  tag_batch-Ends c built w h = Ends-kept E i m (tag_batch services c built) w (ground arith) h

  built_or_not :
      (c : ComponentBuild) (current : List ComponentBuild) (builder : Builder) (w : World)
      → Follows E i m w
      → Ends E i m
          ((if any is_completed current
              then tag_batch services c (filter is_completed current)
              else add_event (Event.repos_done "fake_msg" builder.module_build_tag))
            >> commit)
          w
  built_or_not c current builder w h =
      Ensures-bind
        (if any is_completed current
          then tag_batch services c (filter is_completed current)
          else add_event (Event.repos_done "fake_msg" builder.module_build_tag))
        (λ _. commit) w
        (Ensures-if (any is_completed current) _ _ w
          (λ _. tag_batch-Ends c (filter is_completed current) w h) (λ _. event-Ends E i m _ w h))
        (λ _ t k. commit-Ends E i m t k)

  finish_batch-Ends :
      (c : ComponentBuild) (n : ModuleBuild) (current : List ComponentBuild) (w : World)
      → Tracks E i m n w
      → Ends E i m (finish_batch services c n current) w
  unfolding finish_batch
  finish_batch-Ends c n current w h =
      Ensures-bind (create_from_module services n) _ w (create-Tracks E i m services laws n n w h)
        (λ builder t k.
          Ensures-if (any is_unsuccessful current) _ _ t
            (λ _.
              transition-commit-Ends E i m n BuildState.failed (some (failure_reason current))
                FailureType.user t (fails n.id n.state) k.1)
            (λ _. built_or_not c current builder t k.1.follows))

  continue-Ends :
      (n : ModuleBuild) (w : World)
      → Tracks E i m n w
      → Ends E i m
          (create_from_module services n >>= λ builder.
            continue_batch_build services.config n builder [])
          w
  continue-Ends n w h =
      Ensures-bind (create_from_module services n)
        (λ builder. continue_batch_build services.config n builder []) w
        (create-Tracks E i m services laws n n w h)
        (λ builder t k.
          Ends-kept E i m (continue_batch_build services.config n builder []) t
            (continue_batch_build-modules builder services.config k.0 n [] t) k.1.follows)

  handle_batch-Ends :
      (c : ComponentBuild) (n : ModuleBuild) (current : List ComponentBuild) (w : World)
      → Tracks E i m n w
      → Ends E i m (handle_batch services c n current) w
  unfolding handle_batch
  handle_batch-Ends c n current w h =
      Ensures-if (any is_unbuilt current) _ _ w
        (λ _.
          Ensures-if (any (λ u. not (is_building u)) (filter is_unbuilt current)) _ _ w
            (λ _. continue-Ends n w h) (λ _. record { holds = h.follows }))
        (λ _. finish_batch-Ends c n current w h)

  finalize_module-Ends :
      (e : Finalize) (c : ComponentBuild) (n : ModuleBuild) (w : World)
      → Tracks E i m n w
      → Ends E i m (finalize_module services e c n) w
  unfolding finalize_module current_batch
  finalize_module-Ends e c n w h =
      Ensures-if (c.package_name == "module-build-macros" && not (is_completed c)) _ _ w
        (λ _.
          transition-commit-Ends E i m n BuildState.failed c.state_reason FailureType.user w
            (fails n.id n.state) h)
        (λ _.
          Ensures-bind (filter_buildonly services c n) _ w (filter_buildonly-Tracks c n w h)
            (λ n' t k.
              Ensures-bind (current_batch n' none) _ t
                (Tracks-kept E i m n' (current_batch n' none) t (ground arith) k)
                (λ current u l. handle_batch-Ends c n' current u l)))

  parent-Ends :
      (e : Finalize) (c : ComponentBuild) (id : ℕ) (found : Option ModuleBuild) (w : World)
      → found ≡ find_module id w
      → Follows E i m w
      → Ends E i m (required found >>= finalize_module services e c) w
  parent-Ends e c id none w q h = record { holds = h }
  parent-Ends e c id (some n) w q h = finalize_module-Ends e c n w (row-Tracks E i m id n w q h)

  finalize_found-Ends :
      (e : Finalize) (found : Option ComponentBuild) (w : World)
      → Follows E i m w
      → Ends E i m (finalize_found services e found) w
  unfolding put_component commit
  finalize_found-Ends e none w h = record { holds = h }
  finalize_found-Ends e (some c) w h =
      parent-Ends e (finalized c e) c.module_id _ _ refl (Follows-keep E i m w _ refl h)

  pub build_task_finalize-Ends :
      (e : Finalize) (w : World) → Follows E i m w → Ends E i m (build_task_finalize services e) w
  unfolding build_task_finalize from_component_event
  build_task_finalize-Ends e w h =
      Ensures-bind (from_component_event e.task_id e.module_build_id) (finalize_found services e) w
        (Ends-kept E i m (from_component_event e.task_id e.module_build_id) w
          (event-modules e.task_id e.module_build_id w) h)
        (λ found t k. finalize_found-Ends e found t k)
