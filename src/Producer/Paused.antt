-- ===== src/Producer/Paused.antt =====
-- `process_paused_module_builds` of module_build_service/scheduler/producer.py.
use fm_orchestrator.Common.{
  ℕ, Bool, ◌&&◌, ◌≡◌, refl, Option, none, some, List, [], ◌∷◌, filter, ltb, is_nonempty,
  if◌then◌else◌, nat_eq, ◌==◌, arith, ap,
}
use fm_orchestrator.Exec.{Exec, pure, raise, recursion_error, gets, ◌>>=◌, ◌>>◌}
use fm_orchestrator.Exec.Ensures.{Ensures-if, Ensures-bind, Ensures-pure}
use fm_orchestrator.Models.{BuildState, KojiState, ModuleBuild, World, state_code, current_batch}
use fm_orchestrator.Models.History.{EdgeRelation, Follows, Tracks, Tracks-kept}
use fm_orchestrator.Batches.{at_concurrent_component_threshold, start_next_batch_build}
use fm_orchestrator.Batches.Lifecycle.{start_next_batch_build-Tracks}
use fm_orchestrator.Handlers.{Services, find_module, required, create_from_module}
use fm_orchestrator.Handlers.Lifecycle.{BackendLaws, Ends, row-Tracks, create-Tracks}
use fm_orchestrator.Producer.Waiting.{is_recent}
use fm_orchestrator.Producer.Lost.{KojiTasks, has_missed_new_repo_message}

-- The query of the task.
abbrev pub is_in_batch : ModuleBuild → Bool
is_in_batch m = (state_code m.state == state_code BuildState.build) && ltb 0 m.batch

module _ (services : Services) (koji : KojiTasks) where
  -- The part under `if not module_build.current_batch(...)`.
  unfoldable pub restart : ModuleBuild → Exec World Unit
  unfolding create_from_module start_next_batch_build has_missed_new_repo_message
  restart m = do
    builder ← create_from_module services m
    if has_missed_new_repo_message koji m
        then (do
          start_next_batch_build services.config services.reuse builder (λ _. raise recursion_error)
              services.recursion_limit m []
          pure tt)
        else pure tt

  -- The rounds of the loop from one build on; `rest` is the rounds for the builds behind it, which
  -- are left out once the threshold is reached.
  unfoldable pub visit : ModuleBuild → Exec World Unit → Exec World Unit
  unfolding restart current_batch at_concurrent_component_threshold
  visit m rest = do
    now ← gets (λ w. w.now)
    if is_recent 10 now m then rest else (do
      active ← current_batch m (some KojiState.building)
      if is_nonempty active then pure tt else restart m
      reached ← gets (at_concurrent_component_threshold services.config)
      if reached then pure tt else rest)

  -- The attributes of a mapped object are those of its row.
  unfoldable pub visit_all : List ModuleBuild → Exec World Unit
  unfolding visit find_module
  visit_all [] = pure tt
  visit_all (n ∷ ns) = do
    found ← gets (find_module n.id)
    m ← required found
    visit m (visit_all ns)

  unfoldable pub process_paused_module_builds : Exec World Unit
  unfolding visit_all at_concurrent_component_threshold
  process_paused_module_builds = do
    reached ← gets (at_concurrent_component_threshold services.config)
    if reached
        then pure tt
        else (do builds ← gets (λ w. filter is_in_batch w.modules); visit_all builds)

pub current_batch-same :
    (m : ModuleBuild) (state : Option KojiState) (w : World) → (current_batch m state w).1 ≡ w
unfolding current_batch
current_batch-same m state w = ground arith

module _ (services : Services) (koji : KojiTasks) (laws : BackendLaws services) (E : EdgeRelation)
    (i : ℕ) (m : ModuleBuild) (fails : (id : ℕ) (s : BuildState) → E id s BuildState.failed) where
  restart-Ends :
      (n : ModuleBuild) (w : World) → Tracks E i m n w → Ends E i m (restart services koji n) w
  unfolding restart
  restart-Ends n w h =
      Ensures-bind (create_from_module services n) _ w (create-Tracks E i m services laws n n w h)
        (λ builder t k.
          Ensures-if (has_missed_new_repo_message koji n) _ _ t
            (λ _.
              Ensures-bind
                (start_next_batch_build services.config services.reuse builder
                  (λ _. raise recursion_error) services.recursion_limit n [])
                (λ _. pure tt) t
                (start_next_batch_build-Tracks services.config services.reuse builder k.0 E i m
                  fails (λ _. raise recursion_error) (λ _ u l. record { holds = l.follows })
                  services.recursion_limit n [] t k.1)
                (λ _ u l. record { holds = l.follows }))
            (λ _. record { holds = k.1.follows }))

  visit-Ends :
      (n : ModuleBuild) (rest : Exec World Unit)
      → ((w : World) → Follows E i m w → Ends E i m rest w)
      → (w : World) → Tracks E i m n w
      → Ends E i m (visit services koji n rest) w
  unfolding visit
  visit-Ends n rest next w h =
      Ensures-if (is_recent 10 w.now n) _ _ w (λ _. next w h.follows)
        (λ _.
          Ensures-bind (current_batch n (some KojiState.building)) _ w
            (Tracks-kept E i m n (current_batch n (some KojiState.building)) w
              (ap (λ t. t.modules) (current_batch-same n (some KojiState.building) w)) h)
            (λ active t k.
              Ensures-bind (if is_nonempty active then pure tt else restart services koji n) _ t
                (Ensures-if (is_nonempty active) _ _ t
                  (λ _. Ensures-pure {P = λ _. Follows E i m} tt t k.follows)
                  (λ _. restart-Ends n t k))
                (λ _ u l.
                  Ensures-if (at_concurrent_component_threshold services.config u) _ _ u
                    (λ _. Ensures-pure tt u l) (λ _. next u l))))

  found-Ends :
      (id : ℕ) (rest : Exec World Unit)
      → ((w : World) → Follows E i m w → Ends E i m rest w)
      → (found : Option ModuleBuild) (w : World) → found ≡ find_module id w
      → Follows E i m w
      → Ends E i m (λ t. (required found >>= λ o. visit services koji o rest) t) w
  found-Ends id rest next none w e h = record { holds = h }
  found-Ends id rest next (some o) w e h = visit-Ends o rest next w (row-Tracks E i m id o w e h)

  visit_all-Ends :
      (ns : List ModuleBuild) (w : World)
      → Follows E i m w
      → Ends E i m (visit_all services koji ns) w
  unfolding visit_all
  visit_all-Ends [] w h = record { holds = h }
  visit_all-Ends (n ∷ ns) w h =
      found-Ends n.id (visit_all services koji ns) (visit_all-Ends ns) (find_module n.id w) w refl h

  pub process_paused_module_builds-Ends :
      (w : World) → Follows E i m w → Ends E i m (process_paused_module_builds services koji) w
  unfolding process_paused_module_builds
  process_paused_module_builds-Ends w h =
      Ensures-if (at_concurrent_component_threshold services.config w) _ _ w
        (λ _. Ensures-pure tt w h) (λ _. visit_all-Ends (filter is_in_batch w.modules) w h)
