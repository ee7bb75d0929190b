-- ===== src/Producer/Lifecycle/Stale.antt =====
-- The rows of the module builds through `cleanup_stale_failed_builds` of
-- module_build_service/scheduler/producer.py, whether it returns or raises.
use fm_orchestrator.Common.{
  ◌≡◌, ◌≢◌, refl, sym, ◌∙◌, subst, ℕ, Bool, true, ◌&&◌, some, List, [], ◌∷◌, All, map, filter,
  nat_eq, ◌==◌, inr, arith,
}
use fm_orchestrator.Exec.{Result, lift, for_each}
use fm_orchestrator.Exec.Ensures.{
  Ensures, Ensures-bind, Ensures-if, Ensures-lift, Ensures-for_each, Ensures-weaken,
}
use fm_orchestrator.Models.{
  BuildState, FailureType, state_code, is_completed, ModuleBuild, ComponentBuild, World, call,
  component_builds, put_component, put_module_row, transition, transitioned, commit,
}
use fm_orchestrator.Models.History.{
  Follows, Follows-keep, Moves, put-Tracks, transitioned-IsStep, transition-modules, module_row,
  module_row-put_ne, IsRow,
}
use fm_orchestrator.Models.Keys.{
  HasDistinctKeys, HasDistinctKeys-filter, IsSelected, filter-IsSelected,
}
use fm_orchestrator.Builder.{Builder}
use fm_orchestrator.Handlers.Lifecycle.{Ends}
use fm_orchestrator.Producer.Cleanup.{
  CleanupOptions, is_koji, is_stale, collected, collection_reason, mark_untagged, untag_all,
  clean_up, cleanup_stale_failed_builds,
}
use fm_orchestrator.Producer.Lifecycle.{TaskEdge, collects, task_edge}

failed_state :
    (n : ModuleBuild) (b : Bool)
    → ((state_code n.state == state_code BuildState.failed) && b) ≡ true
    → n.state ≡ BuildState.failed
failed_state n b h = ground arith

module _ (options : CleanupOptions) (create_builder : ModuleBuild → Result Builder) where
  abbrev HasModulesOf : World → World → Type 0
  HasModulesOf w t = t.modules ≡ w.modules

  mark-HasModulesOf :
      (w : World) (c : ComponentBuild) (t : World)
      → HasModulesOf w t
      → Ensures (λ _. HasModulesOf w) (HasModulesOf w) (mark_untagged options create_builder c t)
  unfolding put_component
  mark-HasModulesOf w c t h = record { holds = h }

  untag_all-HasModulesOf :
      (n : ModuleBuild) (cs : List ComponentBuild) (w : World)
      → Ensures (λ _. HasModulesOf w) (HasModulesOf w) (untag_all options create_builder n cs w)
  unfolding untag_all call
  untag_all-HasModulesOf n [] w = record { holds = refl }
  untag_all-HasModulesOf n (c ∷ cs) w =
      let nvrs = map (λ d. d.nvr) (c ∷ cs) in
      Ensures-bind {P = λ _. HasModulesOf w} (lift (create_builder n)) _ w
        (Ensures-lift (create_builder n) w (λ _ _. refl) refl)
        (λ builder t h.
          Ensures-bind {P = λ _. HasModulesOf w} (lift (builder.untag_artifacts nvrs)) _ _
            (Ensures-lift (builder.untag_artifacts nvrs) _ (λ _ _. h) h)
            (λ _ u k.
              Ensures-for_each (HasModulesOf w) (mark_untagged options create_builder)
                (mark-HasModulesOf w) (c ∷ cs) u k))

  -- One round: the row is collected, or no row changed.
  abbrev Collects : ModuleBuild → World → World → Type 0
  Collects n w t =
      (now : ℕ) × (t.modules ≡ put_module_row (collected options create_builder now n) w.modules)

  clean_up-Collects :
      (n : ModuleBuild) (w : World)
      → Ensures (λ _. Collects n w) (HasModulesOf w) (clean_up options create_builder n w)
  unfolding clean_up component_builds transition commit
  clean_up-Collects n w =
      let artifacts = filter is_completed (component_builds n w) in
      Ensures-bind {P = λ _. HasModulesOf w} (untag_all options create_builder n artifacts) _ w
        (untag_all-HasModulesOf n artifacts w)
        (λ _ t h. record {
          holds = (
            t.now,
            subst
                (λ ms.
                  (transition n BuildState.garbage (some (collection_reason options create_builder))
                    FailureType.user t).1.modules
                  ≡ put_module_row (collected options create_builder t.now n) ms)
                h
                (transition-modules n BuildState.garbage
                  (some (collection_reason options create_builder)) FailureType.user t),
          );
        })

  module _ (i : ℕ) (m : ModuleBuild) where
    collected-Moves :
        (now : ℕ) (n : ModuleBuild)
        → n.state ≡ BuildState.failed
        → Moves task_edge n (collected options create_builder now n)
    collected-Moves now n e = inr (
        transitioned-IsStep task_edge n BuildState.garbage _ now
          (subst (λ s. TaskEdge s BuildState.garbage) (sym e) collects))

    -- A failed build that has its row still.
    abbrev IsFailedRow : World → ModuleBuild → Type 0
    IsFailedRow w n = IsRow n w × (n.state ≡ BuildState.failed)

    IsFailedRow-put :
        (o : ModuleBuild) (ns : List ModuleBuild) (w t : World)
        → t.modules ≡ put_module_row o w.modules
        → All (λ n. n.id ≢ o.id) ns
        → All (IsFailedRow w) ns
        → All (IsFailedRow t) ns
    IsFailedRow-put o [] w t e apart h = tt
    IsFailedRow-put o (n ∷ ns) w t e apart h = (
      (
        subst (λ ms. module_row n.id ms ≡ some n) (sym e)
            (module_row-put_ne n.id o w.modules apart.0 ∙ h.0.0),
        h.0.1,
      ),
      IsFailedRow-put o ns w t e apart.1 h.1,
    )

    clean_each-Ends :
        (ns : List ModuleBuild) (w : World)
        → HasDistinctKeys ns
        → All (IsFailedRow w) ns
        → Follows task_edge i m w
        → Ends task_edge i m (for_each (clean_up options create_builder) ns) w
    unfolding for_each transitioned
    clean_each-Ends [] w keys rows h = record { holds = h }
    clean_each-Ends (n ∷ ns) w keys rows h =
        Ensures-bind {P = λ _. Collects n w} (clean_up options create_builder n) _ w
          (Ensures-weaken (clean_up options create_builder n w) (clean_up-Collects n w) (λ _ _ k. k)
            (λ t k. Follows-keep task_edge i m w t k h))
          (λ _ t (now, wrote).
            clean_each-Ends ns t keys.1
              (IsFailedRow-put (collected options create_builder now n) ns w t wrote keys.0 rows.1)
              (put-Tracks task_edge i m n (collected options create_builder now n) w t
                (record { follows = h; is_row = rows.0.0 }) (collected-Moves now n rows.0.1)
                wrote).follows)

    selected-IsFailedRow :
        (now : ℕ) (ns : List ModuleBuild) (w : World)
        → All (IsSelected (is_stale options create_builder now) w.modules) ns
        → All (IsFailedRow w) ns
    selected-IsFailedRow now [] w h = tt
    selected-IsFailedRow now (n ∷ ns) w h =
        ((h.0.row, failed_state n _ h.0.holds), selected-IsFailedRow now ns w h.1)

    pub stale_builds-Ends :
        (w : World)
        → Follows task_edge i m w
        → Ends task_edge i m (cleanup_stale_failed_builds options create_builder) w
    unfolding cleanup_stale_failed_builds
    stale_builds-Ends w h =
        let stale = filter (is_stale options create_builder w.now) w.modules in
        Ensures-if (is_koji options.system) _ _ w
          (λ _.
            clean_each-Ends stale w
              (HasDistinctKeys-filter (is_stale options create_builder w.now) w.modules h.keys)
              (selected-IsFailedRow w.now stale w
                (filter-IsSelected (is_stale options create_builder w.now) w.modules h.keys))
              h)
          (λ _. record { holds = h })
