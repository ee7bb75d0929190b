-- ===== src/Batches/Termination.antt =====
-- The recursion of `start_next_batch_build` in module_build_service/scheduler/batches.py.
use fm_orchestrator.Common.{
  ℕ, zero, suc, ◌+◌, ◌≤◌, ◌≡◌, ◌≢◌, refl, Bool, true, false, List, [], ◌∷◌, All, any, filter,
  is_nonempty, if◌then◌else◌, nat_eq, ◌==◌, map, arith, inl, inr, Bool-cases,
}
use fm_orchestrator.Exec.{Exec, Result, ok, raised, resume, pure}
use fm_orchestrator.Models.{
  ModuleBuild, ComponentBuild, World, component_builds, current_batch, is_unbuilt,
  is_waiting_for_build, is_building, is_unsuccessful, put_module,
}
use fm_orchestrator.Builder.{Config, Builder}
use fm_orchestrator.Reuse.{ReuseEnv}
use fm_orchestrator.Batches.Current.{in_batch, any_unbuilt-eq-false, current_batch_cases}
use fm_orchestrator.Batches.{
  unbuilt_components, start_next_batch_build, decide_batch, advance, has_tasks, tasks_reason,
  fail_for_tasks,
}

-- Every component that is not built belongs to a batch from `low` to `low + d`.
abbrev pub AreAhead : ℕ → ℕ → List ComponentBuild → Type 0
AreAhead low d cs = All (λ c. is_unbuilt c ≡ true → (low ≤ c.batch) × (c.batch ≤ low + d)) cs

not_both : (b : Bool) → b ≡ true → b ≡ false → ⊥
not_both b h k = cc

not_in_current :
    (low : ℕ) (c : ComponentBuild) (cs : List ComponentBuild)
    → is_unbuilt c ≡ true
    → any is_unbuilt (filter (λ d. d.batch == low) (c ∷ cs)) ≡ false
    → c.batch ≢ low
not_in_current low c cs u e p = ground (arith)

AreAhead-zero :
    (low : ℕ) (cs : List ComponentBuild)
    → AreAhead low 0 cs
    → any is_unbuilt (in_batch low cs) ≡ false
    → any is_unbuilt cs ≡ false
AreAhead-zero low [] h e = refl
AreAhead-zero low (c ∷ cs) h e = elim (Bool-cases (is_unbuilt c)) [
  | inl u ↦ absurd (not_in_current low c cs u e (omega (arith, h.0 u)))
  | inr n ↦ rw n (AreAhead-zero low cs h.1 (ground arith))
]

AreAhead-suc :
    (low d : ℕ) (cs : List ComponentBuild)
    → AreAhead low (suc d) cs
    → any is_unbuilt (filter (λ c. c.batch == low) cs) ≡ false
    → AreAhead (low + 1) d cs
AreAhead-suc low d [] h e = tt
AreAhead-suc low d (c ∷ cs) h e = (
  λ u. let range = h.0 u in omega (arith, not_in_current low c cs u e),
  AreAhead-suc low d cs h.1 (ground arith),
)

unbuilt_components-world :
    (m : ModuleBuild) (components : List ComponentBuild) (w : World)
    → (unbuilt_components m components w).1 ≡ w
unfolding unbuilt_components current_batch
unbuilt_components-world m [] w = ground arith
unbuilt_components-world m (c ∷ cs) w = refl

continue_congr :
    {A B : Type 0} (r : Result A) (f g : A → Exec World B) (w : World)
    → ((a : A) → f a w ≡ g a w)
    → resume r f w ≡ resume r g w
continue_congr (ok a) f g w h = h a
continue_congr (raised e) f g w h = refl

module _ (cfg : Config) (env : ReuseEnv) (builder : Builder) where
  after_tests :
      (f g : ModuleBuild → Exec World ModuleBuild) (m : ModuleBuild)
      (components cs current : List ComponentBuild) (w : World)
      → advance cfg env builder f m components cs w ≡ advance cfg env builder g m components cs w
      → (if has_tasks cfg env builder (builder.list_tasks_for_components cs)
            then fail_for_tasks cfg env builder m
                (tasks_reason cfg env builder (builder.list_tasks_for_components cs))
            else if builder.buildroot_ready (map (λ c. c.nvr) current)
            then advance cfg env builder f m components cs
            else pure m)
          w
        ≡ (if has_tasks cfg env builder (builder.list_tasks_for_components cs)
              then fail_for_tasks cfg env builder m
                  (tasks_reason cfg env builder (builder.list_tasks_for_components cs))
              else if builder.buildroot_ready (map (λ c. c.nvr) current)
              then advance cfg env builder g m components cs
              else pure m)
            w
  after_tests f g m components cs current w h =
      elim (Bool-cases (has_tasks cfg env builder (builder.list_tasks_for_components cs))) [
        | inl e ↦ rw e
        | inr e ↦ rw e (elim (Bool-cases (builder.buildroot_ready (map (λ c. c.nvr) current))) [
          | inl e' ↦ rw e' h
          | inr e' ↦ rw e'
        ])
      ]

  decide_batch_congr :
      (f g : ModuleBuild → Exec World ModuleBuild) (m : ModuleBuild)
      (components cs current : List ComponentBuild) (w : World)
      → (any is_waiting_for_build current ≡ false
          → any is_building current ≡ false
          → advance cfg env builder f m components cs w
            ≡ advance cfg env builder g m components cs w)
      → decide_batch cfg env builder f m components cs current w
        ≡ decide_batch cfg env builder g m components cs current w
  decide_batch_congr f g m components cs current w h =
      elim (Bool-cases (any is_waiting_for_build current)) [
        | inl e ↦ rw e
        | inr no_waiting ↦ rw no_waiting (elim (Bool-cases (any is_building current)) [
          | inl e ↦ rw e
          | inr no_building ↦ rw no_building (elim (Bool-cases (any is_unsuccessful cs)) [
            | inl e ↦ rw e
            | inr e ↦ rw e (after_tests f g m components cs current w (h no_waiting no_building))
          ])
        ])
      ]

  advance_congr :
      (f g : ModuleBuild → Exec World ModuleBuild) (m : ModuleBuild)
      (components cs : List ComponentBuild) (w : World)
      → (let m' = record m { batch = m.batch + 1 } in
          f m' (put_module m' w) ≡ g m' (put_module m' w))
      → advance cfg env builder f m components cs w ≡ advance cfg env builder g m components cs w
  advance_congr f g m components cs w h =
      let m' = record m { batch = m.batch + 1 } in
      continue_congr (unbuilt_components m' components (put_module m' w)).0 _ _ _ (λ unbuilt.
        elim (Bool-cases (is_nonempty unbuilt)) [
          | inl e ↦ rw e
          | inr e ↦ rw (e, unbuilt_components-world m' components (put_module m' w)) h
        ])

  module _ (f g : ModuleBuild → Exec World ModuleBuild) where
    component_builds-put_module :
        (m : ModuleBuild) (w : World)
        → (let m' = record m { batch = m.batch + 1 } in
            component_builds m' (put_module m' w) ≡ component_builds m w)
    unfolding component_builds put_module
    component_builds-put_module m w = refl

    step :
        (d : ℕ) (m : ModuleBuild) (components : List ComponentBuild) (w : World)
        → (any is_unbuilt (component_builds m w) ≡ true
            → any is_unbuilt (in_batch m.batch (component_builds m w)) ≡ false
            → let m' = record m { batch = m.batch + 1 } in
              start_next_batch_build cfg env builder f d m' [] (put_module m' w)
              ≡ start_next_batch_build cfg env builder g d m' [] (put_module m' w))
        → start_next_batch_build cfg env builder f (suc d) m components w
          ≡ start_next_batch_build cfg env builder g (suc d) m components w
    unfolding start_next_batch_build
    step d m components w next = elim (Bool-cases (any is_unbuilt (component_builds m w))) [
      | inr e ↦ rw e
      | inl e ↦ rw e (elim (current_batch_cases m w) [
        | inl e' ↦ rw e'
        | inr e' ↦ rw e' (
            decide_batch_congr (λ m'. start_next_batch_build cfg env builder f d m' [])
              (λ m'. start_next_batch_build cfg env builder g d m' []) m components
              (component_builds m w) (in_batch m.batch (component_builds m w)) w
              (λ no_waiting no_building.
                advance_congr (λ m'. start_next_batch_build cfg env builder f d m' [])
                  (λ m'. start_next_batch_build cfg env builder g d m' []) m components
                  (component_builds m w) w
                  (next e (
                    any_unbuilt-eq-false (in_batch m.batch (component_builds m w)) no_waiting
                      no_building))))
      ])
    ]

    -- If every component that is not built belongs to a batch from the current one to the one
    -- that is d further, a call of start_next_batch_build with a depth of d + 1 never reaches the
    -- limit of the recursion: what happens there does not matter for the result or the store.
    pub start_next_batch_build-terminates :
        (d : ℕ) (m : ModuleBuild) (components : List ComponentBuild) (w : World)
        → AreAhead m.batch d (component_builds m w)
        → start_next_batch_build cfg env builder f (suc d) m components w
          ≡ start_next_batch_build cfg env builder g (suc d) m components w
    start_next_batch_build-terminates zero m components w ahead =
        step zero m components w (λ some_unbuilt none_here. absurd (
          not_both (any is_unbuilt (component_builds m w)) some_unbuilt
            (AreAhead-zero m.batch (component_builds m w) ahead none_here)))
    start_next_batch_build-terminates (suc d) m components w ahead =
        step (suc d) m components w (λ _ none_here.
          start_next_batch_build-terminates d (record m { batch = m.batch + 1 }) []
            (put_module (record m { batch = m.batch + 1 }) w)
            (rw component_builds-put_module
              (AreAhead-suc m.batch d (component_builds m w) ahead none_here)))
