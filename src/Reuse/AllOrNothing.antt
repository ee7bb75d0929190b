-- ===== src/Reuse/AllOrNothing.antt =====
-- `attempt_to_reuse_all_components` of module_build_service/scheduler/reuse.py where it returns
-- False.
use fm_orchestrator.Common.{
  ◌≡◌, refl, ◌∙◌, Bool, false, Option, none, some, String, List, [], ◌∷◌, string_eq, ◌==◌,
  Option-cases, inl, inr,
}
use fm_orchestrator.Exec.{ok}
use fm_orchestrator.Exec.Ensures.{
  Ensures, Ensures-pure, Ensures-if, Ensures-bind, Ensures-weaken, Ensures-ok, Ensures-any,
  Ensures-of,
}
use fm_orchestrator.Models.{
  ModuleBuild, ComponentBuild, World, call, component_builds, put_module, commit,
  log_module_message,
}
use fm_orchestrator.Builder.{is_koji_or_test}
use fm_orchestrator.Reuse.{
  ReuseEnv, is_all, check_component, get_reusable_component, reusable_pairs, reuse_pairs,
  get_reusable_module, remember, reused_or_found, tag_pairs, reuse_all, reused_module,
  find_previous, attempt_to_reuse_all_components,
}
use fm_orchestrator.Reuse.Checks.{OnlyLogs, OnlyLogs-refl, Logs, module-Logs, check_component-Logs}

-- No component, no event and nothing in the build system changed.
pub record SameBuilds (w w' : World) : Type 0 where
  pub components : w'.components ≡ w.components
  pub events : w'.events ≡ w.events
  pub calls : w'.calls ≡ w.calls

module _ (env : ReuseEnv) where
  remember-SameBuilds :
      (m : ModuleBuild) (found : Option ModuleBuild) (w : World)
      → SameBuilds w (remember env m found w).1
  unfolding put_module commit
  remember-SameBuilds m none w = record { components = refl; events = refl; calls = refl }
  remember-SameBuilds m (some n) w = record { components = refl; events = refl; calls = refl }

  found-SameBuilds :
      (m : ModuleBuild) (found : Option ModuleBuild) (w : World)
      → SameBuilds w (reused_or_found env m found w).1
  found-SameBuilds m none w =
      remember-SameBuilds m (find_previous env m (env.base_modules m) w.modules) w
  found-SameBuilds m (some n) w = record { components = refl; events = refl; calls = refl }

  pub get_reusable_module-SameBuilds :
      (m : ModuleBuild) (w : World) → SameBuilds w (get_reusable_module env m w).1
  unfolding get_reusable_module
  get_reusable_module-SameBuilds m w = found-SameBuilds m (reused_module env m w) w

  pub get_reusable_component-Logs :
      (w : World) (m : ModuleBuild) (name : String) (previous : ModuleBuild) (t : World)
      → Logs w (get_reusable_component env m name (some previous)) t
  unfolding get_reusable_component
  get_reusable_component-Logs w m name previous t h =
      Ensures-if (is_koji_or_test env.system) _ _ t
        (λ _.
          Ensures-if (is_all m.rebuild_strategy) _ _ t
            (λ _.
              Ensures-bind (log_module_message m _) _ t (module-Logs w m _ t h)
                (λ _ u k. Ensures-pure (m, none) u k))
            (λ _.
              Ensures-bind (check_component m name previous) _ t
                (check_component-Logs w m name previous t h) (λ c u k. Ensures-pure (m, c) u k)))
        (λ _. Ensures-pure (m, none) t h)

  pub reusable_pairs-Logs :
      (w : World) (m previous : ModuleBuild) (cs : List ComponentBuild) (t : World)
      → Logs w (reusable_pairs env m previous cs) t
  unfolding reusable_pairs
  reusable_pairs-Logs w m previous [] t h = Ensures-pure _ t h
  reusable_pairs-Logs w m previous (c ∷ cs) t h =
      Ensures-if (c.package_name == "module-build-macros") _ _ t
        (λ _. reusable_pairs-Logs w m previous cs t h)
        (λ _.
          Ensures-bind (get_reusable_component env m c.package_name (some previous)) _ t
            (get_reusable_component-Logs w m c.package_name previous t h)
            (λ (m', found) u k. elim (Option-cases found) [
              | inl e ↦ rw e (Ensures-pure none u k)
              | inr (old, e) ↦ rw e (
                  Ensures-bind (reusable_pairs env m previous cs) _ u
                    (reusable_pairs-Logs w m previous cs u k)
                    (λ pairs v l. elim (Option-cases pairs) [
                      | inl e' ↦ rw e' (Ensures-pure none v l)
                      | inr (ps, e') ↦ rw e' (Ensures-pure (some ((c, old) ∷ ps)) v l)
                    ]))
            ]))

  -- Where the answer is False, nothing was reused.
  abbrev Unreused : World → ModuleBuild × Bool → World → Type 0
  Unreused w (m, all_reused) t = all_reused ≡ false → SameBuilds w t

  tag_pairs-Unreused :
      (w : World) (m : ModuleBuild) (pairs : Option (List (ComponentBuild × ComponentBuild)))
      (t : World)
      → SameBuilds w t
      → Ensures (Unreused w) (λ _. Unit {0}) (tag_pairs env m pairs t)
  unfolding call
  tag_pairs-Unreused w m none t h = record { holds = λ _. h }
  tag_pairs-Unreused w m (some ps) t h =
      Ensures-bind (reuse_pairs env m ps) _ t (Ensures-any (reuse_pairs env m ps t))
        (λ (last, artifacts) u _. record { holds = λ e. absurd cc })

  reuse_all-Unreused :
      (w : World) (m : ModuleBuild) (found : Option ModuleBuild) (t : World)
      → SameBuilds w t
      → Ensures (Unreused w) (λ _. Unit {0}) (reuse_all env (m, found) t)
  reuse_all-Unreused w m none t h = record { holds = λ _. h }
  reuse_all-Unreused w m (some previous) t h =
      let cs = component_builds m t in
      Ensures-bind (reusable_pairs env m previous cs) (tag_pairs env m) t
        (Ensures-weaken {Q = λ _. OnlyLogs t} {F = λ _. Unit {0}} _
          (reusable_pairs-Logs t m previous cs t (OnlyLogs-refl t)) (λ _ _ k. k) (λ _ _. tt))
        (λ pairs u k. tag_pairs-Unreused w m pairs u (record {
          components = k.components ∙ h.components;
          events = k.events ∙ h.events;
          calls = k.calls ∙ h.calls;
        }))

  attempt-Unreused :
      (m : ModuleBuild) (w : World)
      → Ensures (Unreused w) (λ _. Unit {0}) (attempt_to_reuse_all_components env m w)
  unfolding attempt_to_reuse_all_components
  attempt-Unreused m w =
      Ensures-bind (get_reusable_module env m) (reuse_all env) w
        (Ensures-weaken {Q = λ _. SameBuilds w} {F = λ _. Unit {0}} _
          (Ensures-of (SameBuilds w) _ (get_reusable_module-SameBuilds m w)) (λ _ _ k. k)
          (λ _ _. tt))
        (λ (m', found) t h. reuse_all-Unreused w m' found t h)

  -- Where attempt_to_reuse_all_components returns False, no component build changed, no event was
  -- added and no call of the build system was made.
  pub attempt_to_reuse_all_components-false :
      (m m' : ModuleBuild) (w : World)
      → (attempt_to_reuse_all_components env m w).0 ≡ ok (m', false)
      → SameBuilds w (attempt_to_reuse_all_components env m w).1
  attempt_to_reuse_all_components-false m m' w e =
      Ensures-ok (Unreused w) (λ _. Unit {0}) (attempt_to_reuse_all_components env m w) (m', false)
        (attempt-Unreused m w) e refl
