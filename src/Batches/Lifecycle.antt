-- ===== src/Batches/Lifecycle.antt =====
-- The rows of the module builds through the steps of `start_next_batch_build` in
-- module_build_service/scheduler/batches.py.
use fm_orchestrator.Common.{
  refl, Bool, true, false, not, ◌&&◌, ℕ, zero, suc, ◌+◌, String, Option, none, some, List, [], ◌∷◌,
  map, any, inl, inr, is_nonempty, if◌then◌else◌,
}
use fm_orchestrator.Exec.{Exec, pure}
use fm_orchestrator.Exec.Ensures.{Ensures, Ensures-pure, Ensures-if, Ensures-bind}
use fm_orchestrator.Models.{
  BuildState, FailureType, Event, ModuleBuild, ComponentBuild, World, component_builds, is_unbuilt,
  is_building, is_waiting_for_build, is_unsuccessful, put_module, add_event, commit, transition,
}
use fm_orchestrator.Models.History.{
  EdgeRelation, Follows, Tracks, Tracks-kept, put-Tracks, transition-Tracks,
}
use fm_orchestrator.Builder.{Config, Builder}
use fm_orchestrator.Builder.Laws.{RecoverLaws}
use fm_orchestrator.Reuse.{ReuseEnv, reuse_component, get_reusable_components}
use fm_orchestrator.Batches.{
  continue_batch_build, decide_batch, start_next_batch_build, reuse_some, try_reuse, start_batch,
  advance, unbuilt_components, fail_for_tasks, has_tasks, should_try_reuse,
}
use fm_orchestrator.Batches.Current.{in_batch, current_batch_cases}
use fm_orchestrator.Batches.Modules.{continue_batch_build-modules, unbuilt_components-modules}
use fm_orchestrator.Batches.History.{reuse_component-modules, get_reusable_components-Tracks}

module _ (cfg : Config) (env : ReuseEnv) (builder : Builder) (laws : RecoverLaws builder)
    (E : EdgeRelation) (i : ℕ) (m : ModuleBuild)
    (fails : (id : ℕ) (s : BuildState) → E id s BuildState.failed) where
  -- The row with the key `i` keeps its history, and the one that the code works on is tracked.
  abbrev pub Kept : {A : Type 0} → ModuleBuild → Exec World A → World → Type 0
  Kept n e w = Tracks E i m n w → Ensures (λ _. Tracks E i m n) (Follows E i m) (e w)

  reuse_some-Kept :
      (n : ModuleBuild) (cs : List ComponentBuild) (rs : List (Option ComponentBuild)) (w : World)
      → Kept n (reuse_some cfg env builder cs rs) w
  unfolding reuse_some
  reuse_some-Kept n [] rs w h = Ensures-pure ([], false) w h
  reuse_some-Kept n (c ∷ cs) [] w h = Ensures-pure ([], false) w h
  reuse_some-Kept n (c ∷ cs) (none ∷ rs) w h =
      Ensures-bind (reuse_some cfg env builder cs rs) _ w (reuse_some-Kept n cs rs w h)
        (λ (left, reused_one) t k. Ensures-pure (c ∷ left, reused_one) t k)
  reuse_some-Kept n (c ∷ cs) (some old ∷ rs) w h =
      Ensures-bind (reuse_component env c old false true) _ w
        (Tracks-kept E i m n (reuse_component env c old false true) w
          (reuse_component-modules env c old false true w) h)
        (λ _ t k.
          Ensures-bind (reuse_some cfg env builder cs rs) _ t (reuse_some-Kept n cs rs t k)
            (λ (left, _) u l. Ensures-pure (left, true) u l))

  commit-Kept : (n : ModuleBuild) (w : World) → Kept n commit w
  unfolding commit
  commit-Kept n w h = Tracks-kept E i m n commit w refl h

  commit_if : (n : ModuleBuild) (b : Bool) (w : World) → Kept n (if b then commit else pure tt) w
  commit_if n b w h =
      Ensures-if b commit (pure tt) w (λ _. commit-Kept n w h) (λ _. Ensures-pure tt w h)

  try_reuse-Tracks :
      (n : ModuleBuild) (should_try : Bool) (unbuilt : List ComponentBuild) (w : World)
      → Tracks E i m n w
      → Ensures
          (λ (n', _, _). Tracks E i m n')
          (Follows E i m)
          (try_reuse cfg env builder n should_try unbuilt w)
  unfolding try_reuse
  try_reuse-Tracks n should_try unbuilt w h =
      let names = map (λ c. c.package_name) unbuilt in
      Ensures-if should_try _ _ w
        (λ _.
          Ensures-bind (get_reusable_components env n names) _ w
            (get_reusable_components-Tracks env E i m n names w h)
            (λ (n', reusable) t k.
              Ensures-bind (reuse_some cfg env builder unbuilt reusable) _ t
                (reuse_some-Kept n' unbuilt reusable t k)
                (λ (left, reused_one) u l.
                  Ensures-bind (if reused_one then commit else pure tt) _ u
                    (commit_if n' reused_one u l) (λ _ v x. record { holds = x }))))
        (λ _. record { holds = h })

  start_batch-Tracks :
      (n : ModuleBuild) (should_try : Bool) (unbuilt : List ComponentBuild) (w : World)
      → Tracks E i m n w
      → Ensures (Tracks E i m) (Follows E i m) (start_batch cfg env builder n should_try unbuilt w)
  unfolding start_batch add_event
  start_batch-Tracks n should_try unbuilt w h =
      Ensures-bind (try_reuse cfg env builder n should_try unbuilt) _ w
        (try_reuse-Tracks n should_try unbuilt w h)
        (λ (n', left, reused_one) t k.
          Ensures-bind
            (if reused_one && not (is_nonempty left)
              then add_event
                  (Event.repos_done "start_build_batch: fake_msg" builder.module_build_tag)
              else continue_batch_build cfg n' builder left)
            _ t
            (Ensures-if (reused_one && not (is_nonempty left)) _ _ t
              (λ _. Tracks-kept E i m n' (add_event _) t refl k)
              (λ _.
                Tracks-kept E i m n' (continue_batch_build cfg n' builder left) t
                  (continue_batch_build-modules builder cfg laws n' left t) k))
            (λ _ u l. Ensures-pure n' u l))

  fail_for_tasks-Tracks :
      (n : ModuleBuild) (reason : String) (w : World)
      → Tracks E i m n w
      → Ensures (Tracks E i m) (Follows E i m) (fail_for_tasks cfg env builder n reason w)
  fail_for_tasks-Tracks n reason w h =
      Ensures-bind (transition n BuildState.failed (some reason) FailureType.infra) _ w
        (transition-Tracks E i m n BuildState.failed (some reason) FailureType.infra w
          (fails n.id n.state) h)
        (λ n' t k. Ensures-bind commit _ t (commit-Kept n' t k) (λ _ u l. Ensures-pure n' u l))

  module _ (again : ModuleBuild → Exec World ModuleBuild)
      (next : (n : ModuleBuild) (w : World)
        → Tracks E i m n w
        → Ensures (Tracks E i m) (Follows E i m) (again n w)) where
    advance-Tracks :
        (n : ModuleBuild) (components cs : List ComponentBuild) (w : World)
        → Tracks E i m n w
        → Ensures (Tracks E i m) (Follows E i m) (advance cfg env builder again n components cs w)
    unfolding put_module
    advance-Tracks n components cs w h =
        let n' = record n { batch = n.batch + 1 } in
        let w' = put_module n' w in
        Ensures-bind (unbuilt_components n' components) _ w'
          (Tracks-kept E i m n' (unbuilt_components n' components) w'
            (unbuilt_components-modules builder n' components w')
            (put-Tracks E i m n n' w w' h
              (inl (record { same_id = refl; same_state = refl; same_trace = refl })) refl))
          (λ unbuilt t k.
            Ensures-if (is_nonempty unbuilt) _ _ t
              (λ _. start_batch-Tracks n' (should_try_reuse cfg env builder n cs) unbuilt t k)
              (λ _. next n' t k))

    decide_batch-Tracks :
        (n : ModuleBuild) (components cs current : List ComponentBuild) (w : World)
        → Tracks E i m n w
        → Ensures
            (Tracks E i m)
            (Follows E i m)
            (decide_batch cfg env builder again n components cs current w)
    decide_batch-Tracks n components cs current w h =
        Ensures-if (any is_waiting_for_build current) _ _ w
          (λ _.
            Ensures-bind (continue_batch_build cfg n builder components) _ w
              (Tracks-kept E i m n (continue_batch_build cfg n builder components) w
                (continue_batch_build-modules builder cfg laws n components w) h)
              (λ _ t k. Ensures-pure n t k))
          (λ _.
            Ensures-if (any is_building current) _ _ w (λ _. Ensures-pure n w h)
              (λ _.
                Ensures-if (any is_unsuccessful cs) _ _ w (λ _. Ensures-pure n w h)
                  (λ _.
                    Ensures-if (has_tasks cfg env builder (builder.list_tasks_for_components cs)) _
                      _ w (λ _. fail_for_tasks-Tracks n _ w h)
                      (λ _.
                        Ensures-if (builder.buildroot_ready (map (λ c. c.nvr) current)) _ _ w
                          (λ _. advance-Tracks n components cs w h) (λ _. Ensures-pure n w h)))))

  module _ (at_limit : ModuleBuild → Exec World ModuleBuild)
      (limit : (n : ModuleBuild) (w : World)
        → Tracks E i m n w
        → Ensures (Tracks E i m) (Follows E i m) (at_limit n w)) where
    pub start_next_batch_build-Tracks :
        (depth : ℕ) (n : ModuleBuild) (components : List ComponentBuild) (w : World)
        → Tracks E i m n w
        → Ensures
            (Tracks E i m)
            (Follows E i m)
            (start_next_batch_build cfg env builder at_limit depth n components w)
    unfolding start_next_batch_build
    start_next_batch_build-Tracks zero n components w h = limit n w h
    start_next_batch_build-Tracks (suc depth) n components w h =
        Ensures-if (any is_unbuilt (component_builds n w)) _ _ w
          (λ _. elim (current_batch_cases n w) [
            | inl e ↦ rw e (record { holds = h.follows })
            | inr e ↦ rw e (
                decide_batch-Tracks
                  (λ n'. start_next_batch_build cfg env builder at_limit depth n' [])
                  (λ n' t k. start_next_batch_build-Tracks depth n' [] t k) n components
                  (component_builds n w) (in_batch n.batch (component_builds n w)) w h)
          ])
          (λ _. Ensures-pure n w h)
