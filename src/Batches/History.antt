-- ===== src/Batches/History.antt =====
-- The rows of the module builds through `start_next_batch_build` of
-- module_build_service/scheduler/batches.py.
use fm_orchestrator.Common.{
  refl, Bool, ℕ, String, Option, none, some, List, [], ◌∷◌, inl, inr, Bool-cases, nat_eq,
}
use fm_orchestrator.Exec.{lift}
use fm_orchestrator.Exec.Ensures.{
  Ensures, Ensures-pure, Ensures-if, Ensures-bind, Ensures-always, Ensures-lift,
}
use fm_orchestrator.Models.{
  ModuleBuild, ComponentBuild, World, put_component, put_module, add_event, commit,
}
use fm_orchestrator.Models.History.{EdgeRelation, Follows, Tracks, Tracks-kept, put-Tracks}
use fm_orchestrator.Builder.{is_koji_or_test}
use fm_orchestrator.Reuse.{
  ReuseEnv, reused, reuse_component, get_reusable_module, remember, reused_or_found, reused_module,
  find_previous, answers, check_components, get_reusable_component, get_reusable_components,
}
use fm_orchestrator.Reuse.Checks.{OnlyLogs, OnlyLogs-refl}
use fm_orchestrator.Reuse.AllOrNothing.{get_reusable_component-Logs}
use fm_orchestrator.Batches.Modules.{KeepsModules}

module _ (env : ReuseEnv) where
  pub reuse_component-modules :
      (c old : ComponentBuild) (now fake : Bool) (w : World)
      → KeepsModules w (reuse_component env c old now fake w).1
  unfolding reuse_component put_component add_event
  reuse_component-modules c old now fake w = Ensures-always (KeepsModules w) _ (
      Ensures-bind (lift (env.parse_nvr old.nvr)) _ (put_component (reused c old now) w)
        (Ensures-lift {P = λ _. KeepsModules w} _ _ (λ _ _. refl) refl)
        (λ nvr t k. elim (Bool-cases fake) [
          | inl e ↦ rw e (record { holds = k })
          | inr e ↦ rw e (record { holds = k })
        ]))

  check_components-modules :
      (w : World) (m previous : ModuleBuild) (names : List String) (t : World)
      → OnlyLogs w t
      → Ensures (λ _. OnlyLogs w) (OnlyLogs w) (check_components env m previous names t)
  unfolding check_components
  check_components-modules w m previous [] t h = Ensures-pure [] t h
  check_components-modules w m previous (name ∷ names) t h =
      Ensures-bind (get_reusable_component env m name (some previous)) _ t
        (get_reusable_component-Logs env w m name previous t h)
        (λ (_, c) u k.
          Ensures-bind (check_components env m previous names) _ u
            (check_components-modules w m previous names u k) (λ cs v l. Ensures-pure (c ∷ cs) v l))

  module _ (E : EdgeRelation) (i : ℕ) (m : ModuleBuild) where
    remember-Tracks :
        (n : ModuleBuild) (found : Option ModuleBuild) (w : World)
        → Tracks E i m n w
        → Ensures (λ (n', _). Tracks E i m n') (Follows E i m) (remember env n found w)
    unfolding put_module commit
    remember-Tracks n none w h = record { holds = h }
    remember-Tracks n (some old) w h = record {
      holds =
          put-Tracks E i m n (record n { reused_module_id = some old.id }) w _ h
            (inl (record { same_id = refl; same_state = refl; same_trace = refl })) refl;
    }

    found-Tracks :
        (n : ModuleBuild) (found : Option ModuleBuild) (w : World)
        → Tracks E i m n w
        → Ensures (λ (n', _). Tracks E i m n') (Follows E i m) (reused_or_found env n found w)
    found-Tracks n none w h =
        remember-Tracks n (find_previous env n (env.base_modules n) w.modules) w h
    found-Tracks n (some old) w h = record { holds = h }

    pub get_reusable_module-Tracks :
        (n : ModuleBuild) (w : World)
        → Tracks E i m n w
        → Ensures (λ (n', _). Tracks E i m n') (Follows E i m) (get_reusable_module env n w)
    unfolding get_reusable_module
    get_reusable_module-Tracks n w h = found-Tracks n (reused_module env n w) w h

    names-Tracks :
        (n : ModuleBuild) (found : Option ModuleBuild) (names : List String) (w : World)
        → Tracks E i m n w
        → Ensures (λ (n', _). Tracks E i m n') (Follows E i m) (answers env names (n, found) w)
    names-Tracks n none names w h = record { holds = h }
    names-Tracks n (some previous) names w h =
        Ensures-bind (check_components env n previous names) _ w
          (Tracks-kept E i m n (check_components env n previous names) w
            (Ensures-always (OnlyLogs w) _
              (check_components-modules w n previous names w (OnlyLogs-refl w))).modules
            h)
          (λ cs t k. record { holds = k })

    pub get_reusable_components-Tracks :
        (n : ModuleBuild) (names : List String) (w : World)
        → Tracks E i m n w
        → Ensures
            (λ (n', _). Tracks E i m n')
            (Follows E i m)
            (get_reusable_components env n names w)
    unfolding get_reusable_components
    get_reusable_components-Tracks n names w h =
        Ensures-if (is_koji_or_test env.system) _ _ w
          (λ _.
            Ensures-bind (get_reusable_module env n) (answers env names) w
              (get_reusable_module-Tracks n w h)
              (λ (n', found) t k. names-Tracks n' found names t k))
          (λ _. record { holds = h })
