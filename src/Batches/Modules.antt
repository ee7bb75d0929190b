-- ===== src/Batches/Modules.antt =====
-- The rows of the module builds through `continue_batch_build` of
-- module_build_service/scheduler/batches.py.
use fm_orchestrator.Common.{◌≡◌, refl, ◌∙◌, List, [], ◌∷◌, inl, inr, Bool-cases, is_nonempty, arith}
use fm_orchestrator.Exec.Ensures.{
  Ensures, Ensures-bind, Ensures-pure, Ensures-if, Ensures-always, Ensures-of,
}
use fm_orchestrator.Models.{
  ModuleBuild, ComponentBuild, World, put_component, call, commit, current_batch,
  is_waiting_for_build,
}
use fm_orchestrator.Builder.{Config, Builder, Submission, submitted, refused}
use fm_orchestrator.Builder.Laws.{RecoverLaws}
use fm_orchestrator.Batches.{
  started, choose, finish_submission, start_build_component, submit_all, recover_all,
  unbuilt_components, build_components, continue_batch_build, sorted_by_weight,
}

-- The rows of the module builds are those of an earlier store.
abbrev pub KeepsModules : World → World → Type 0
KeepsModules w w' = w'.modules ≡ w.modules

choose-modules :
    (cfg : Config) (cs : List ComponentBuild) (w : World) → KeepsModules w (choose cfg cs w).1
unfolding choose put_component
choose-modules cfg [] w = refl
choose-modules cfg (c ∷ cs) w =
    ground (arith, choose-modules cfg cs w, choose-modules cfg cs (put_component (started c) w))

module _ (builder : Builder) where
  finish-modules :
      (c : ComponentBuild) (s : Submission) (w : World)
      → KeepsModules w (finish_submission builder c s w).1
  unfolding put_component
  finish-modules c (refused text) w = refl
  finish-modules c (submitted r) w = ground arith

  start_build_component-modules :
      (c : ComponentBuild) (w : World) → KeepsModules w (start_build_component builder c w).1
  unfolding start_build_component call
  start_build_component-modules c w = finish-modules c _ _

  submit_all-modules :
      (cs : List ComponentBuild) (w : World) → KeepsModules w (submit_all builder cs w).1
  unfolding submit_all
  submit_all-modules [] w = refl
  submit_all-modules (c ∷ cs) w =
      submit_all-modules cs (start_build_component builder c w).1
      ∙ start_build_component-modules c w

  module _ (laws : RecoverLaws builder) (w : World) where
    recover_all-modules :
        (cs : List ComponentBuild) (t : World)
        → KeepsModules w t
        → Ensures (λ _. KeepsModules w) (KeepsModules w) (recover_all builder cs t)
    unfolding recover_all
    recover_all-modules [] t h = Ensures-pure [] t h
    recover_all-modules (c ∷ cs) t h = elim (Bool-cases (is_waiting_for_build c)) [
      | inl e ↦ rw e (
          Ensures-bind (builder.recover_orphaned_artifact c) _ t
            (Ensures-of (KeepsModules w) _ (laws.keeps_modules c t ∙ h))
            (λ _ u k.
              Ensures-bind (recover_all builder cs) _ u (recover_all-modules cs u k)
                (λ cs' v l. Ensures-pure _ v l)))
      | inr e ↦ rw e (
          Ensures-bind (recover_all builder cs) _ t (recover_all-modules cs t h)
            (λ cs' v l. Ensures-pure _ v l))
    ]

    build_components-modules :
        (cfg : Config) (cs : List ComponentBuild) (t : World)
        → KeepsModules w t
        → Ensures (λ _. KeepsModules w) (KeepsModules w) (build_components cfg builder cs t)
    unfolding build_components commit
    build_components-modules cfg cs t h =
        Ensures-bind (recover_all builder cs) _ t (recover_all-modules cs t h) (λ cs' u k.
          Ensures-bind (submit_all builder (choose cfg cs' u).0) (λ _. commit) (choose cfg cs' u).1
            (Ensures-of (KeepsModules w) _ (
              submit_all-modules (choose cfg cs' u).0 (choose cfg cs' u).1
              ∙ choose-modules cfg cs' u
              ∙ k))
            (λ _ v l. record { holds = l }))

  pub unbuilt_components-modules :
      (m : ModuleBuild) (components : List ComponentBuild) (w : World)
      → KeepsModules w (unbuilt_components m components w).1
  unfolding unbuilt_components current_batch
  unbuilt_components-modules m [] w = ground arith
  unbuilt_components-modules m (c ∷ cs) w = refl

  -- A call of continue_batch_build changes no row of the module builds, not even where a
  -- submission fails. The builder keeps the rules of recover_orphaned_artifact.
  pub continue_batch_build-modules :
      (cfg : Config) (laws : RecoverLaws builder) (m : ModuleBuild)
      (components : List ComponentBuild) (w : World)
      → KeepsModules w (continue_batch_build cfg m builder components w).1
  unfolding continue_batch_build
  continue_batch_build-modules cfg laws m components w = Ensures-always (KeepsModules w) _ (
      Ensures-bind (unbuilt_components m components) _ w
        (Ensures-of (KeepsModules w) _ (unbuilt_components-modules m components w))
        (λ cs t h.
          Ensures-if (is_nonempty cs) _ _ t
            (λ _. build_components-modules laws w cfg (sorted_by_weight cs) t h)
            (λ _. Ensures-pure tt t h)))
