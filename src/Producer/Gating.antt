-- ===== src/Producer/Gating.antt =====
-- `poll_greenwave` of module_build_service/scheduler/producer.py.
use fm_orchestrator.Common.{
  ℕ, ◌≡◌, refl, ◌∙◌, subst, Bool, not, ◌&&◌, Option, none, some, String, filter, if◌then◌else◌,
  nat_eq, ◌==◌, arith, inl, inr, Bool-cases, ◌^^◌,
}
use fm_orchestrator.Exec.{Exec, ok, pure, gets, modify, for_each, ◌>>=◌, ◌>>◌}
use fm_orchestrator.Exec.Loops.{for_each-ok, for_each-fold}
use fm_orchestrator.Models.{
  BuildState, FailureType, ModuleBuild, World, put_module, put_module_row, commit, transition,
  transitioned, state_code,
}
use fm_orchestrator.Models.History.{transition-modules}
use fm_orchestrator.Models.Keys.{HasDistinctKeys}
use fm_orchestrator.Models.Update.{update_where, put_modules-update}
use fm_orchestrator.Handlers.{Gate}

-- The query: done, and no scratch build.
abbrev pub waits_for_gate : ModuleBuild → Bool
waits_for_gate m = (state_code m.state == state_code BuildState.done) && not m.scratch

-- The reason for a closed gate. The number of seconds is given as text.
abbrev pub polling_reason : String → Bool → String
polling_reason seconds error_occurred =
    "Gating failed (MBS will retry in "
    ^^ seconds
    ^^ " seconds)"
    ^^ (if error_occurred then " (Error occured while querying Greenwave)" else "")

module _ (seconds : String) (gate : Gate) where
  abbrev pub gate_closed : ℕ → ModuleBuild → ModuleBuild
  gate_closed now m = record m {
    state_reason = some (polling_reason seconds (gate.error_occurred m));
    time_modified = now;
  }

  -- The body of the loop.
  unfoldable pub check_build : ModuleBuild → Exec World Unit
  unfolding transition commit put_module
  check_build m = do
    now ← gets (λ w. w.now)
    if gate.check_gating m
        then (do transition m BuildState.ready none FailureType.unspec; pure tt)
        else modify (put_module (gate_closed now m))
    commit

unfoldable pub poll_greenwave : String → Option Gate → Exec World Unit
unfolding check_build for_each
poll_greenwave seconds none = pure tt
poll_greenwave seconds (some gate) = do
  builds ← gets (λ w. filter waits_for_gate w.modules)
  for_each (check_build seconds gate) builds

module _ (seconds : String) (gate : Gate) where
  -- The row that a build gets which waits for its gate.
  abbrev pub gated : ℕ → ModuleBuild → ModuleBuild
  gated now m =
      if gate.check_gating m
      then transitioned m BuildState.ready none now
      else gate_closed seconds gate now m

  check_build-ok : (m : ModuleBuild) (w : World) → (check_build seconds gate m w).0 ≡ ok tt
  unfolding check_build transition commit put_module
  check_build-ok m w = elim (Bool-cases (gate.check_gating m)) [
    | inl e ↦ rw e refl
    | inr e ↦ rw e refl
  ]

  check_build-now : (m : ModuleBuild) (w : World) → (check_build seconds gate m w).1.now ≡ w.now
  unfolding check_build transition commit put_module
  check_build-now m w = ground arith

  check_build-modules :
      (m : ModuleBuild) (w : World)
      → (check_build seconds gate m w).1.modules ≡ put_module_row (gated w.now m) w.modules
  unfolding check_build commit put_module
  check_build-modules m w = elim (Bool-cases (gate.check_gating m)) [
    | inl e ↦ rw e (transition-modules m BuildState.ready none FailureType.unspec w)
    | inr e ↦ rw e refl
  ]

  pub gated-id : (now : ℕ) (m : ModuleBuild) → (gated now m).id ≡ m.id
  unfolding transitioned
  gated-id now m = ground arith

  module _ (w : World) where
    body-modules :
        (m : ModuleBuild) (s : World)
        → s.now ≡ w.now
        → (check_build seconds gate m s).1.modules ≡ put_module_row (gated w.now m) s.modules
    body-modules m s k =
        subst
          (λ now. (check_build seconds gate m s).1.modules ≡ put_module_row (gated now m) s.modules)
          k (check_build-modules m s)

    -- The run returns, and of the module builds those alone change that are done and are no
    -- scratch builds.
    pub poll_greenwave-modules :
        HasDistinctKeys w.modules
        → ((poll_greenwave seconds (some gate) w).0 ≡ ok tt)
          × ((poll_greenwave seconds (some gate) w).1.modules
              ≡ update_where waits_for_gate (gated w.now) w.modules)
    unfolding poll_greenwave
    poll_greenwave-modules keys =
        let builds = filter waits_for_gate w.modules in
        (
          for_each-ok (λ s. s.now ≡ w.now) (check_build seconds gate) (λ m s _. check_build-ok m s)
              (λ m s k. check_build-now m s ∙ k) builds w refl,
          for_each-fold (λ s. s.now ≡ w.now) (check_build seconds gate)
                (λ m s _. check_build-ok m s) (λ m s k. check_build-now m s ∙ k) (λ s. s.modules)
                (λ m. put_module_row (gated w.now m)) body-modules builds w refl
              ∙ put_modules-update (gated w.now) (gated-id w.now) waits_for_gate w.modules keys,
        )
