-- ===== src/Batches/Current.antt =====
-- The components of the current batch, as `start_next_batch_build` reads them.
use fm_orchestrator.Common.{
  ℕ, ◌≡◌, refl, false, ◌⊎◌, none, List, [], ◌∷◌, any, filter, nat_eq, ◌==◌, arith,
}
use fm_orchestrator.Exec.{ok, raised, value_error}
use fm_orchestrator.Models.{
  ModuleBuild, ComponentBuild, World, component_builds, current_batch, is_unbuilt, is_building,
  is_waiting_for_build,
}

abbrev pub in_batch : ℕ → List ComponentBuild → List ComponentBuild
in_batch n cs = filter (λ c. c.batch == n) cs

pub any_unbuilt-eq-false :
    (cs : List ComponentBuild)
    → any is_waiting_for_build cs ≡ false
    → any is_building cs ≡ false
    → any is_unbuilt cs ≡ false
any_unbuilt-eq-false [] w b = refl
any_unbuilt-eq-false (c ∷ cs) w b = ground (arith, any_unbuilt-eq-false cs)

-- In both cases the store is as it was.
pub current_batch_cases :
    (m : ModuleBuild) (w : World)
    → (current_batch m none w ≡ (raised value_error, w))
      ⊎ (current_batch m none w ≡ (ok (in_batch m.batch (component_builds m w)), w))
unfolding current_batch component_builds
current_batch_cases m w = ground arith
