-- ===== src/Handlers/Lifecycle/Modules.antt =====
-- The rows of the module builds through the handlers `failed` and `done` of
-- module_build_service/scheduler/handlers/modules.py and `decision_update` of
-- module_build_service/scheduler/handlers/greenwave.py.
use fm_orchestrator.Models.Keys.{module_row-id}
use fm_orchestrator.Common.{
  sym, subst, true, false, Bool, ◌≡◌, refl, ℕ, false, Option, none, some, String, List, [], ◌∷◌,
  filter, if◌then◌else◌, nat_eq, string_eq, ◌==◌, inl, arith, is_truthy,
}
use fm_orchestrator.Exec.{pure, ◌>>=◌, ◌>>◌}
use fm_orchestrator.Exec.Ensures.{Ensures, Ensures-if, Ensures-bind}
use fm_orchestrator.Models.{
  BuildState, FailureType, ModuleBuild, ComponentBuild, World, Call, component_builds, is_unbuilt,
  put_component, put_module, commit, call, transition, state_code,
}
use fm_orchestrator.Models.History.{
  EdgeRelation, Follows, Tracks, Tracks-kept, Tracks-keep, put-Tracks, transition-Tracks,
}
use fm_orchestrator.Handlers.{
  Services, Gate, create_from_module, find_module, required, cancel, cancel_components, missing_tag,
  stop_components, ensure_failed, fail_module, module_failed, gating_reason, pass_gate, leave_done,
  module_done,
}
use fm_orchestrator.Handlers.Lifecycle.{
  BackendLaws, Ends, commit-Ends, create-Tracks, transition-commit-Ends, row-Tracks,
}

cancel-modules : (id : Option ℕ) (w : World) → (cancel id w).1.modules ≡ w.modules
unfolding call
cancel-modules none w = refl
cancel-modules (some id) w = ground arith

-- The gate of a build is open: there is none, or Greenwave lets the build pass.
abbrev pub passes : Option Gate → ModuleBuild → Bool
passes none n = true
passes (some gate) n = gate.check_gating n

found-id : (id : ℕ) (n : ModuleBuild) (w : World) → some n ≡ find_module id w → n.id ≡ id
unfolding find_module
found-id id n w q = module_row-id id w.modules n (sym q)

module _ (services : Services) (laws : BackendLaws services) (E : EdgeRelation) (i : ℕ)
    (m : ModuleBuild) where
  cancel-Tracks :
      (id : Option ℕ) (n : ModuleBuild) (w : World)
      → Tracks E i m n w
      → Ensures (λ _. Tracks E i m n) (Follows E i m) (cancel id w)
  cancel-Tracks id n w h = Tracks-kept E i m n (cancel id) w (cancel-modules id w) h

  cancel_components-Tracks :
      (reason : Option String) (cs : List ComponentBuild) (n : ModuleBuild) (w : World)
      → Tracks E i m n w
      → Ensures (λ _. Tracks E i m n) (Follows E i m) (cancel_components reason cs w)
  unfolding cancel_components put_component
  cancel_components-Tracks reason [] n w h = record { holds = h }
  cancel_components-Tracks reason (c ∷ cs) n w h =
      Ensures-bind (cancel c.task_id) _ w (cancel-Tracks c.task_id n w h)
        (λ _ t k. cancel_components-Tracks reason cs n _ (Tracks-keep E i m n t _ refl k))

  stop_components-Tracks :
      (n : ModuleBuild) (w : World)
      → Tracks E i m n w
      → Ensures (λ _. Tracks E i m n) (Follows E i m) (stop_components services n w)
  unfolding stop_components call
  stop_components-Tracks n w h =
      Ensures-bind (create_from_module services n) _ w (create-Tracks E i m services laws n n w h)
        (λ builder t k.
          Ensures-bind (cancel n.new_repo_task_id) _ t (cancel-Tracks n.new_repo_task_id n t k.1)
            (λ _ u l.
              Ensures-bind
                (cancel_components n.state_reason (filter is_unbuilt (component_builds n u))) _ u
                (cancel_components-Tracks n.state_reason (filter is_unbuilt (component_builds n u))
                  n u l)
                (λ _ v x. Tracks-kept E i m n (call (Call.finalize false)) v refl x)))

  ensure_failed-Ends :
      (n : ModuleBuild) (w : World)
      → E n.id n.state BuildState.failed
      → Tracks E i m n w
      → Ends E i m (ensure_failed services n) w
  unfolding ensure_failed
  ensure_failed-Ends n w f h =
      Ensures-bind
        (if state_code n.state == state_code BuildState.failed
          then pure tt
          else (do transition n BuildState.failed none FailureType.user; pure tt))
        (λ _. commit) w
        (Ensures-if (state_code n.state == state_code BuildState.failed) _ _ w
          (λ _. record { holds = h.follows })
          (λ _.
            Ensures-bind (transition n BuildState.failed none FailureType.user) (λ _. pure tt) w
              (transition-Tracks E i m n BuildState.failed none FailureType.user w f h)
              (λ n' t k. record { holds = k.follows })))
        (λ _ t k. commit-Ends E i m t k)

  fail_module-Ends :
      (n : ModuleBuild) (w : World)
      → E n.id n.state BuildState.failed
      → Tracks E i m n w
      → Ends E i m (fail_module services n) w
  fail_module-Ends n w f h =
      Ensures-if (is_truthy n.koji_tag) _ _ w
        (λ _.
          Ensures-bind (stop_components services n) (λ _. ensure_failed services n) w
            (stop_components-Tracks n w h) (λ _ t k. ensure_failed-Ends n t f k))
        (λ _.
          Ensures-if (is_truthy n.state_reason) _ _ w (λ _. ensure_failed-Ends n w f h)
            (λ _.
              transition-commit-Ends E i m n BuildState.failed (some (missing_tag services))
                FailureType.infra w f h))

  pass-Ends :
      (n : ModuleBuild) (w : World)
      → E n.id n.state BuildState.ready
      → Tracks E i m n w
      → Ends E i m (transition n BuildState.ready none FailureType.unspec >> pure tt) w
  pass-Ends n w f h =
      Ensures-bind (transition n BuildState.ready none FailureType.unspec) (λ _. pure tt) w
        (transition-Tracks E i m n BuildState.ready none FailureType.unspec w f h)
        (λ n' t k. record { holds = k.follows })

  pass_gate-Ends :
      (gate : Option Gate) (n : ModuleBuild) (w : World)
      → (passes gate n ≡ true → E n.id n.state BuildState.ready)
      → Tracks E i m n w
      → Ends E i m (pass_gate services gate n) w
  unfolding pass_gate put_module
  pass_gate-Ends none n w f h = pass-Ends n w (f refl) h
  pass_gate-Ends (some gate) n w f h =
      Ensures-if (gate.check_gating n) _ _ w (λ e. pass-Ends n w (f e) h)
        (λ _. record {
          holds =
              (put-Tracks E i m n
                (record n {
                  state_reason = some (gating_reason services (gate.error_occurred n));
                  time_modified = w.now;
                })
                w _ h (inl (record { same_id = refl; same_state = refl; same_trace = refl }))
                refl).follows;
        })

  leave_done-Ends :
      (n : ModuleBuild) (w : World)
      → (n.scratch ≡ false → passes services.greenwave n ≡ true → E n.id n.state BuildState.ready)
      → Tracks E i m n w
      → Ends E i m (leave_done services n) w
  leave_done-Ends n w f h =
      Ensures-if n.scratch _ _ w (λ _. record { holds = h.follows })
        (λ regular.
          Ensures-bind (pass_gate services services.greenwave n) (λ _. commit) w
            (pass_gate-Ends services.greenwave n w (f regular) h) (λ _ t k. commit-Ends E i m t k))

  failed_row :
      (id : ℕ) (found : Option ModuleBuild) (w : World)
      → found ≡ find_module id w
      → ((s : BuildState) → E id s BuildState.failed)
      → Follows E i m w
      → Ends E i m (required found >>= fail_module services) w
  failed_row id none w q f h = record { holds = h }
  failed_row id (some n) w q f h =
      fail_module-Ends n w
        (subst (λ j. E j n.state BuildState.failed) (sym (found-id id n w q)) (f n.state))
        (row-Tracks E i m id n w q h)

  pub module_failed-Ends :
      (id : ℕ) (w : World)
      → ((s : BuildState) → E id s BuildState.failed)
      → Follows E i m w
      → Ends E i m (module_failed services id) w
  unfolding module_failed
  module_failed-Ends id w f h = failed_row id (find_module id w) w refl f h

  -- The module build with the key may where it is no scratch build and its gate is open.
  abbrev Passes : ℕ → World → Type 0
  Passes id w =
      (n : ModuleBuild)
      → find_module id w ≡ some n
      → n.scratch ≡ false
      → passes services.greenwave n ≡ true
      → E id n.state BuildState.ready

  done_row :
      (id : ℕ) (found : Option ModuleBuild) (w : World)
      → found ≡ find_module id w
      → Passes id w
      → Follows E i m w
      → Ends E i m (required found >>= leave_done services) w
  done_row id none w q f h = record { holds = h }
  done_row id (some n) w q f h =
      leave_done-Ends n w
        (λ regular open_gate.
          subst (λ j. E j n.state BuildState.ready) (sym (found-id id n w q))
            (f n (sym q) regular open_gate))
        (row-Tracks E i m id n w q h)

  pub module_done-Ends :
      (id : ℕ) (w : World) → Passes id w → Follows E i m w → Ends E i m (module_done services id) w
  unfolding module_done
  module_done-Ends id w f h = done_row id (find_module id w) w refl f h
