-- ===== src/Batches/Bound.antt =====
-- The number of component builds that run at once, through the choice and the submission of
-- components in module_build_service/scheduler/batches.py.
pub mod Submit
pub mod Continue
use fm_orchestrator.Common.{
  ℕ, suc, ◌≤◌, ◌<◌, max, ◌≡◌, ◌≢◌, refl, true, false, some, List, [], ◌∷◌, All, arith, inl, inr,
  Bool-cases, sym, ◌∙◌,
}
use fm_orchestrator.Models.{ComponentBuild, World, is_building, is_completed, put_component}
use fm_orchestrator.Models.Table.{
  find_row, find_row-put_ne, AreRows, HasDistinctIds, AreRows-put, find_row-put_self, count-put-le,
}
use fm_orchestrator.Builder.{Config}
use fm_orchestrator.Batches.{
  is_active, active_count, is_mock, at_concurrent_component_threshold, started, choose,
}

-- A limit is set, and the backend is one for which the code checks it.
pub record HasLimit (cfg : Config) : Type 0 where
  pub not_mock : is_mock cfg.system ≡ false
  pub positive : 0 < cfg.num_concurrent_builds

below_limit :
    (cfg : Config) (w : World)
    → HasLimit cfg
    → at_concurrent_component_threshold cfg w ≡ false
    → active_count w < cfg.num_concurrent_builds
unfolding at_concurrent_component_threshold
below_limit cfg w h e = ground arith

pub start-active_count :
    (c : ComponentBuild) (w : World)
    → active_count (put_component (started c) w) ≤ suc (active_count w)
unfolding put_component
start-active_count c w = ground (arith, count-put-le is_active (started c) w.components)

-- The choice stops at the limit.
pub choose_bounded :
    (cfg : Config) (cs : List ComponentBuild) (w : World)
    → HasLimit cfg
    → active_count (choose cfg cs w).1 ≤ max cfg.num_concurrent_builds (active_count w)
unfolding choose
choose_bounded cfg [] w h = omega arith
choose_bounded cfg (c ∷ cs) w h = ground (
  arith,
  choose_bounded cfg cs w h,
  choose_bounded cfg cs (put_component (started c) w) h,
  below_limit cfg w h,
  start-active_count c w,
)

-- What holds of the chosen components and the store that `choose` leaves.
pub record Chosen (cs : List ComponentBuild) (w : World) : Type 0 where
  pub rows : AreRows cs w.components
  pub building : All (λ c. is_building c ≡ true) cs
  pub distinct : HasDistinctIds cs

module _ (cfg : Config) where
  choose-find_row :
      (i : ℕ) (cs : List ComponentBuild) (w : World)
      → All (λ d. d.id ≢ i) cs
      → find_row i (choose cfg cs w).1.components ≡ find_row i w.components
  unfolding choose put_component
  choose-find_row i [] w h = refl
  choose-find_row i (c ∷ cs) w h = ground (
    arith,
    choose-find_row i cs w h.1,
    choose-find_row i cs (put_component (started c) w) h.1,
    find_row-put_ne i (started c) w.components (λ e. h.0 (sym e)),
  )

  choose-keeps_ne :
      (i : ℕ) (cs : List ComponentBuild) (w : World)
      → All (λ d. d.id ≢ i) cs
      → All (λ d. d.id ≢ i) (choose cfg cs w).0
  unfolding choose
  choose-keeps_ne i [] w h = tt
  choose-keeps_ne i (c ∷ cs) w h =
      ground
        (arith, choose-keeps_ne i cs w h.1, choose-keeps_ne i cs (put_component (started c) w) h.1)

  choose-Chosen_cons :
      (c d : ComponentBuild) (cs : List ComponentBuild) (w : World)
      → All (λ e. e.id ≢ c.id) cs
      → HasDistinctIds cs
      → find_row c.id w.components ≡ some d
      → Chosen
          (choose cfg cs (put_component (started c) w)).0
          (choose cfg cs (put_component (started c) w)).1
      → Chosen
          (started c ∷ (choose cfg cs (put_component (started c) w)).0)
          (choose cfg cs (put_component (started c) w)).1
  unfolding put_component
  choose-Chosen_cons c d cs w ne dist row rest = record {
    rows = (
      choose-find_row c.id cs (put_component (started c) w) ne
          ∙ find_row-put_self (started c) d w.components row,
      rest.rows,
    );
    building = (refl, rest.building);
    distinct = (choose-keeps_ne c.id cs (put_component (started c) w) ne, rest.distinct);
  }

  pub choose-Chosen :
      (cs : List ComponentBuild) (w : World)
      → HasDistinctIds cs
      → AreRows cs w.components
      → Chosen (choose cfg cs w).0 (choose cfg cs w).1
  unfolding choose
  choose-Chosen [] w dist rows = record { rows = tt; building = tt; distinct = tt }
  choose-Chosen (c ∷ cs) w dist rows = elim (Bool-cases (is_completed c)) [
    | inl done ↦ rw (done, choose) (choose-Chosen cs w dist.1 rows.1)
    | inr more ↦
        rw (more, choose)
          (elim (Bool-cases (at_concurrent_component_threshold cfg w)) [
            | inl full ↦ rw (full, choose) (record { rows = tt; building = tt; distinct = tt })
            | inr room ↦
                rw (room, choose)
                  (choose-Chosen_cons c c cs w dist.0 dist.1 rows.0 (
                    choose-Chosen cs (put_component (started c) w) dist.1 (
                      unfold put_component in
                      AreRows-put (started c) cs w.components dist.0 rows.1)))
          ])
  ]
