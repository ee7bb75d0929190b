-- ===== src/Handlers/Lifecycle/Repos.antt =====
-- The rows of the module builds through `done` of
-- module_build_service/scheduler/handlers/repos.py.
use fm_orchestrator.Common.{
  false, Bool, ◌≡◌, refl, ℕ, not, ◌&&◌, none, some, String, List, [], any, map, filter, is_nonempty,
  is_some, if◌then◌else◌, nat_eq, ◌==◌, strip_suffix, inl, arith,
}
use fm_orchestrator.Exec.{ok, pure, raise, recursion_error, ◌>>=◌, ◌>>◌}
use fm_orchestrator.Exec.Ensures.{Ensures-if, Ensures-bind}
use fm_orchestrator.Models.{
  BuildState, FailureType, ModuleBuild, ComponentBuild, World, component_builds, current_batch,
  up_to_current_batch, is_building, is_completed, is_unbuilt, is_unsuccessful, put_module, call,
  get_by_tag, state_code,
}
use fm_orchestrator.Models.History.{EdgeRelation, Follows, Tracks, Tracks-kept, put-Tracks}
use fm_orchestrator.Models.Keys.{HasDistinctKeys, Found, nothing, one_row, many, get_by_tag-Found}
use fm_orchestrator.Builder.{Builder, is_koji_or_test}
use fm_orchestrator.Builder.Laws.{RecoverLaws}
use fm_orchestrator.Batches.{start_next_batch_build}
use fm_orchestrator.Batches.Lifecycle.{start_next_batch_build-Tracks}
use fm_orchestrator.Handlers.{
  Services, create_from_module, finished, finish_or_continue, check_good, is_ignored, regenerated,
  repos_done, failure_reason, in_flight,
}
use fm_orchestrator.Handlers.Lifecycle.{BackendLaws, Ends, transition-commit-Ends, create-Tracks}

none_left :
    (unbuilt failed : Bool) → (unbuilt && not failed) ≡ false → failed ≡ false → unbuilt ≡ false
none_left unbuilt failed h k = ground arith

-- No component waits, runs, failed or was canceled.
abbrev pub AreAllBuilt : List ComponentBuild → Type 0
AreAllBuilt cs = (any is_unbuilt cs ≡ false) × (any is_unsuccessful cs ≡ false)

module _ (services : Services) (laws : BackendLaws services) (E : EdgeRelation) (i : ℕ)
    (m : ModuleBuild) (fails : (id : ℕ) (s : BuildState) → E id s BuildState.failed) where
  next_batch-Ends :
      (n : ModuleBuild) (builder : Builder) (w : World)
      → RecoverLaws builder
      → Tracks E i m n w
      → Ends E i m
          (start_next_batch_build services.config services.reuse builder
              (λ _. raise recursion_error)
              services.recursion_limit
              n
              []
            >> pure tt)
          w
  next_batch-Ends n builder w recover h =
      Ensures-bind
        (start_next_batch_build services.config services.reuse builder (λ _. raise recursion_error)
          services.recursion_limit n [])
        (λ _. pure tt) w
        (start_next_batch_build-Tracks services.config services.reuse builder recover E i m fails
          (λ _. raise recursion_error) (λ _ t k. record { holds = k.follows })
          services.recursion_limit n [] w h)
        (λ _ t k. record { holds = k.follows })

  finished-Ends :
      (n : ModuleBuild) (w : World)
      → E n.id n.state BuildState.done
      → Tracks E i m n w
      → Ends E i m (finished services n) w
  unfolding put_module call
  finished-Ends n w e h =
      let n' = record n { time_completed = some w.now } in
      transition-commit-Ends E i m n' BuildState.done none FailureType.unspec _ e (
        put-Tracks E i m n n' w _ h
          (inl (record { same_id = refl; same_state = refl; same_trace = refl })) refl)

  finish_or_continue-Ends :
      (n : ModuleBuild) (builder : Builder) (cs good : List ComponentBuild) (w : World)
      → RecoverLaws builder
      → (AreAllBuilt cs → E n.id n.state BuildState.done)
      → Tracks E i m n w
      → Ends E i m (finish_or_continue services n builder cs good) w
  unfolding finish_or_continue
  finish_or_continue-Ends n builder cs good w recover e h =
      Ensures-if (any is_unbuilt cs && not (any is_unsuccessful cs)) _ _ w
        (λ _.
          Ensures-if (builder.buildroot_ready (map (λ c. c.nvr) good)) _ _ w
            (λ _. next_batch-Ends n builder w recover h) (λ _. record { holds = h.follows }))
        (λ going.
          Ensures-if (any is_unsuccessful cs) _ _ w
            (λ _.
              transition-commit-Ends E i m n BuildState.failed (some (failure_reason cs))
                FailureType.user w (fails n.id n.state) h)
            (λ none_failed.
              finished-Ends n w
                (e (
                  none_left (any is_unbuilt cs) (any is_unsuccessful cs) going none_failed,
                  none_failed,
                ))
                h))

  check_good-Ends :
      (n : ModuleBuild) (cs current : List ComponentBuild) (w : World)
      → (AreAllBuilt cs → E n.id n.state BuildState.done)
      → Tracks E i m n w
      → Ends E i m (check_good services n cs current) w
  unfolding check_good
  check_good-Ends n cs current w e h =
      Ensures-if (any is_building current) _ _ w (λ _. record { holds = h.follows })
        (λ _.
          Ensures-if (is_nonempty cs && not (any is_completed current)) _ _ w
            (λ _.
              transition-commit-Ends E i m n BuildState.failed (some (failure_reason current))
                FailureType.infra w (fails n.id n.state) h)
            (λ _.
              Ensures-bind (create_from_module services n) _ w
                (create-Tracks E i m services laws n n w h)
                (λ builder t k.
                  finish_or_continue-Ends n builder cs (filter is_completed current) t k.0 e k.1)))

  is_ignored-modules :
      (n : ModuleBuild) (current : List ComponentBuild) (w : World)
      → (is_ignored services n current w).1.modules ≡ w.modules
  unfolding is_ignored up_to_current_batch
  is_ignored-modules n current w = ground arith

  batch_of-modules :
      (n : ModuleBuild) (cs : List ComponentBuild) (w : World)
      → ((if is_nonempty cs then current_batch n none else pure []) w).1.modules ≡ w.modules
  unfolding current_batch
  batch_of-modules n cs w = ground arith

  regenerated-Ends :
      (n : ModuleBuild) (w : World)
      → (AreAllBuilt (component_builds n w) → E n.id n.state BuildState.done)
      → Tracks E i m n w
      → Ends E i m (regenerated services n) w
  unfolding regenerated
  regenerated-Ends n w e h =
      let cs = component_builds n w in
      Ensures-bind (if is_nonempty cs then current_batch n none else pure []) _ w
        (Tracks-kept E i m n (if is_nonempty cs then current_batch n none else pure []) w
          (batch_of-modules n cs w) h)
        (λ current t k.
          Ensures-bind (is_ignored services n current) _ t
            (Tracks-kept E i m n (is_ignored services n current) t (is_ignored-modules n current t)
              k)
            (λ ignored u l.
              Ensures-if ignored _ _ u (λ _. record { holds = l.follows })
                (λ _. check_good-Ends n cs current u e l)))

  -- The module build that the tag belongs to may be finished, where all of it is built.
  abbrev Finishes : String → World → Type 0
  Finishes tag_name w =
      (n : ModuleBuild)
      → get_by_tag tag_name w ≡ (ok (some n), w)
      → n.state ≡ BuildState.build
      → AreAllBuilt (component_builds n w)
      → E n.id n.state BuildState.done

  Found-Ends :
      (tag_name : String) (w : World)
      → Finishes tag_name w
      → Follows E i m w
      → Found tag_name w
      → Ends E i m (get_by_tag tag_name >>= in_flight services) w
  Found-Ends tag_name w fin h (nothing e) = rw e (record { holds = h })
  Found-Ends tag_name w fin h (many e) = rw e (record { holds = h })
  Found-Ends tag_name w fin h (one_row n e s row) = rw e (
      Ensures-if (state_code n.state == state_code BuildState.failed) _ _ w
        (λ _. record { holds = h })
        (λ _. regenerated-Ends n w (fin n e s) (record { follows = h; is_row = row })))

  pub repos_done-Ends :
      (tag_name : String) (w : World)
      → HasDistinctKeys w.modules
      → Finishes tag_name w
      → Follows E i m w
      → Ends E i m (repos_done services tag_name) w
  unfolding repos_done
  repos_done-Ends tag_name w keys fin h =
      Ensures-if
        (is_koji_or_test services.config.system && not (is_some (strip_suffix "-build" tag_name))) _
        _ w (λ _. record { holds = h })
        (λ _. Found-Ends tag_name w fin h (get_by_tag-Found tag_name w keys))
