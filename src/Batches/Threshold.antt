-- ===== src/Batches/Threshold.antt =====
-- `at_concurrent_component_threshold` and the choice of components of `continue_batch_build`
-- in module_build_service/scheduler/batches.py.
use fm_orchestrator.Common.{
  ℕ, zero, suc, Bool, true, false, not, ◌&&◌, some, List, [], ◌∷◌, count, leb, if◌then◌else◌,
  is_some,
}
use fm_orchestrator.Models.{
  KojiState, ComponentBuild, World, is_building, is_completed, put_component,
}
use fm_orchestrator.Builder.{System, Config}

-- A component that counts towards the threshold.
abbrev pub is_active : ComponentBuild → Bool
is_active c = is_building c && not (is_some c.reused_component_id)

-- The number that the query of `at_concurrent_component_threshold` counts.
abbrev pub active_count : World → ℕ
active_count w = count is_active w.components

abbrev pub is_mock : System → Bool
is_mock System.mock = true
is_mock _ = false

abbrev pub is_reached : ℕ → ℕ → Bool
is_reached zero n = false
is_reached (suc limit) n = leb (suc limit) n

unfoldable pub at_concurrent_component_threshold : Config → World → Bool
at_concurrent_component_threshold cfg w =
    if is_mock cfg.system then false else is_reached cfg.num_concurrent_builds (active_count w)

abbrev pub started : ComponentBuild → ComponentBuild
started c = record c { state = some KojiState.building }

-- The second loop of `continue_batch_build`: the components to build, and the store in which
-- they are in the BUILDING state.
unfoldable pub choose : Config → List ComponentBuild → World → List ComponentBuild × World
unfolding at_concurrent_component_threshold put_component
choose cfg [] w = ([], w)
choose cfg (c ∷ cs) w = elim (is_completed c) [
  | true ↦ choose cfg cs w
  | false ↦ elim (at_concurrent_component_threshold cfg w) [
    | true ↦ ([], w)
    | false ↦ let (rest, w') = choose cfg cs (put_component (started c) w) in (started c ∷ rest, w')
  ]
]
