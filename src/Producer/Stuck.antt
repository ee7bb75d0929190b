-- ===== src/Producer/Stuck.antt =====
-- What `cancel_stuck_module_builds` of module_build_service/scheduler/producer.py does to a row.
use fm_orchestrator.Common.{ℕ, ◌≡◌, refl, sym, ◌∙◌, subst, ap, some, filter, if◌then◌else◌, arith}
use fm_orchestrator.Exec.{ok}
use fm_orchestrator.Exec.Loops.{for_each-ok, for_each-fold}
use fm_orchestrator.Models.{
  BuildState, FailureType, ModuleBuild, World, put_module, put_module_row, commit, transition,
  transitioned,
}
use fm_orchestrator.Models.History.{module_row, transition-modules}
use fm_orchestrator.Models.Keys.{HasDistinctKeys}
use fm_orchestrator.Models.Update.{update_where, put_modules-update, module_row-update_where}
use fm_orchestrator.Producer.{
  StuckOptions, is_stuck, stuck_reason, fail_stuck, cancel_stuck_module_builds,
}

module _ (options : StuckOptions) where
  -- The row that a stuck build gets.
  abbrev pub cancelled : ℕ → ModuleBuild → ModuleBuild
  cancelled now m = transitioned m BuildState.failed (some (stuck_reason options m)) now

  fail_stuck-now : (m : ModuleBuild) (w : World) → (fail_stuck options m w).1.now ≡ w.now
  unfolding fail_stuck commit transition put_module
  fail_stuck-now m w = ground arith

  fail_stuck-modules :
      (m : ModuleBuild) (w : World)
      → (fail_stuck options m w).1.modules ≡ put_module_row (cancelled w.now m) w.modules
  unfolding fail_stuck commit
  fail_stuck-modules m w =
      transition-modules m BuildState.failed (some (stuck_reason options m)) FailureType.user w

  fail_stuck-ok : (m : ModuleBuild) (w : World) → (fail_stuck options m w).0 ≡ ok tt
  unfolding fail_stuck transition commit
  fail_stuck-ok m w = refl

  pub cancelled-id : (now : ℕ) (m : ModuleBuild) → (cancelled now m).id ≡ m.id
  unfolding transitioned
  cancelled-id now m = refl

  pub cancel_stuck_module_builds-modules :
      (w : World)
      → HasDistinctKeys w.modules
      → ((cancel_stuck_module_builds options w).0 ≡ ok tt)
        × ((cancel_stuck_module_builds options w).1.modules
            ≡ update_where (is_stuck options w.now) (cancelled w.now) w.modules)
  unfolding cancel_stuck_module_builds
  cancel_stuck_module_builds-modules w keys =
      let stuck = filter (is_stuck options w.now) w.modules in
      (
        for_each-ok (λ s. s.now ≡ w.now) (fail_stuck options) (λ m s _. fail_stuck-ok m s)
            (λ m s k. fail_stuck-now m s ∙ k) stuck w refl,
        for_each-fold (λ s. s.now ≡ w.now) (fail_stuck options) (λ m s _. fail_stuck-ok m s)
              (λ m s k. fail_stuck-now m s ∙ k) (λ s. s.modules)
              (λ m. put_module_row (cancelled w.now m))
              (λ m s k.
                fail_stuck-modules m s ∙ ap (λ now. put_module_row (cancelled now m) s.modules) k)
              stuck w refl
            ∙ put_modules-update (cancelled w.now) (cancelled-id w.now) (is_stuck options w.now)
                w.modules keys,
      )

  -- cancel_stuck_module_builds returns, and the row of each module build is then as before,
  -- unless the build is in one of the given states and was not modified for longer than the given
  -- days: then the row is failed, with the reason that the code gives. The keys are distinct.
  pub cancel_stuck_module_builds-module_row :
      (i : ℕ) (n : ModuleBuild) (w : World)
      → HasDistinctKeys w.modules
      → module_row i w.modules ≡ some n
      → ((cancel_stuck_module_builds options w).0 ≡ ok tt)
        × (module_row i (cancel_stuck_module_builds options w).1.modules
            ≡ some (if is_stuck options w.now n then cancelled w.now n else n))
  cancel_stuck_module_builds-module_row i n w keys row =
      let h = cancel_stuck_module_builds-modules w keys in
      (
        h.0,
        subst
            (λ ms.
              module_row i ms ≡ some (if is_stuck options w.now n then cancelled w.now n else n))
            (sym h.1)
            (module_row-update_where (is_stuck options w.now) (cancelled w.now) (cancelled-id w.now)
              i n w.modules row),
      )
