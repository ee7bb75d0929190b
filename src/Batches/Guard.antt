-- ===== src/Batches/Guard.antt =====
-- The current batch in `start_next_batch_build` of module_build_service/scheduler/batches.py.
use fm_orchestrator.Common.{
  ◌≡◌, refl, Bool, true, false, ℕ, suc, List, [], any, inl, inr, Bool-cases,
}
use fm_orchestrator.Exec.{Exec}
use fm_orchestrator.Exec.Ensures.{Ensures-pure, Ensures-bind, Ensures-of, Ensures-always}
use fm_orchestrator.Models.{
  ModuleBuild, ComponentBuild, World, component_builds, is_unbuilt, is_building,
  is_waiting_for_build,
}
use fm_orchestrator.Builder.{Config, Builder}
use fm_orchestrator.Builder.Laws.{RecoverLaws}
use fm_orchestrator.Reuse.{ReuseEnv}
use fm_orchestrator.Batches.{continue_batch_build, decide_batch, start_next_batch_build}
use fm_orchestrator.Batches.Current.{in_batch, any_unbuilt-eq-false, current_batch_cases}
use fm_orchestrator.Batches.Modules.{KeepsModules, continue_batch_build-modules}

not_both : (b : Bool) → b ≡ true → b ≡ false → ⊥
not_both b h k = cc

module _ (cfg : Config) (env : ReuseEnv) (builder : Builder) (laws : RecoverLaws builder) where
  decide_batch-modules :
      (again : ModuleBuild → Exec World ModuleBuild) (m : ModuleBuild)
      (components cs current : List ComponentBuild) (w : World)
      → any is_unbuilt current ≡ true
      → KeepsModules w (decide_batch cfg env builder again m components cs current w).1
  decide_batch-modules again m components cs current w h =
      elim (Bool-cases (any is_waiting_for_build current)) [
        | inl e ↦ rw e (
            Ensures-always (KeepsModules w) _ (
              Ensures-bind (continue_batch_build cfg m builder components) _ w
                (Ensures-of (KeepsModules w) _
                  (continue_batch_build-modules builder cfg laws m components w))
                (λ _ t k. Ensures-pure m t k)))
        | inr no_waiting ↦ rw no_waiting (elim (Bool-cases (any is_building current)) [
          | inl e ↦ rw e refl
          | inr no_building ↦ absurd (
              not_both (any is_unbuilt current) h
                (any_unbuilt-eq-false current no_waiting no_building))
        ])
      ]

  -- While a component of the current batch waits or runs, a call of start_next_batch_build
  -- changes no row of the module builds: the batch is not left and the module build neither fails
  -- nor ends. The builder keeps the rules of recover_orphaned_artifact.
  pub start_next_batch_build-guarded :
      (at_limit : ModuleBuild → Exec World ModuleBuild) (depth : ℕ) (m : ModuleBuild)
      (components : List ComponentBuild) (w : World)
      → any is_unbuilt (in_batch m.batch (component_builds m w)) ≡ true
      → KeepsModules w
          (start_next_batch_build cfg env builder at_limit (suc depth) m components w).1
  unfolding start_next_batch_build
  start_next_batch_build-guarded at_limit depth m components w h =
      elim (Bool-cases (any is_unbuilt (component_builds m w))) [
        | inr e ↦ rw e refl
        | inl e ↦ rw e (elim (current_batch_cases m w) [
          | inl e' ↦ rw e' refl
          | inr e' ↦ rw e' (
              decide_batch-modules
                (λ m'. start_next_batch_build cfg env builder at_limit depth m' []) m components
                (component_builds m w) (in_batch m.batch (component_builds m w)) w h)
        ])
      ]
