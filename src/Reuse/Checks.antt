-- ===== src/Reuse/Checks.antt =====
-- What the checks of `get_reusable_component` in module_build_service/scheduler/reuse.py write.
use fm_orchestrator.Common.{
  ◌≡◌, refl, ◌-◌, Option, none, some, String, List, [], ◌∷◌, nat_eq, string_eq, option_eq, ◌==◌,
  filter, ◌&&◌,
}
use fm_orchestrator.Exec.{Exec, pure, lift, ◌>>◌}
use fm_orchestrator.Exec.Ensures.{Ensures, Ensures-pure, Ensures-lift, Ensures-if, Ensures-bind}
use fm_orchestrator.Models.{
  ModuleBuild, ComponentBuild, World, component_builds, log_component_message, log_module_message,
  commit,
}
use fm_orchestrator.Reuse.{
  rpm_arches, same_batches, is_changed_and_after, is_same_set, one, from_component_name, is_usable,
  refuse, check_arches, check_batches, check_strategy, check_previous, check_new, check_component,
  unusable_new,
}

-- The rows, the queue of events and the build system are those of an earlier store.
pub record OnlyLogs (w w' : World) : Type 0 where
  pub modules : w'.modules ≡ w.modules
  pub components : w'.components ≡ w.components
  pub events : w'.events ≡ w.events
  pub calls : w'.calls ≡ w.calls

pub OnlyLogs-refl : (w : World) → OnlyLogs w w
OnlyLogs-refl w = record { modules = refl; components = refl; events = refl; calls = refl }

-- The code leaves a store with the rows of `w`, however it ends.
abbrev pub Logs : {A : Type 0} → World → Exec World A → World → Type 0
Logs w e t = OnlyLogs w t → Ensures (λ _. OnlyLogs w) (OnlyLogs w) (e t)

module _ (w : World) where
  component-Logs :
      (c : ComponentBuild) (text : String) (t : World) → Logs w (log_component_message c text) t
  unfolding log_component_message commit
  component-Logs c text t h = record {
    holds = record {
      modules = h.modules;
      components = h.components;
      events = h.events;
      calls = h.calls;
    };
  }

  pub module-Logs :
      (m : ModuleBuild) (text : String) (t : World) → Logs w (log_module_message m text) t
  unfolding log_module_message commit
  module-Logs m text t h = record {
    holds = record {
      modules = h.modules;
      components = h.components;
      events = h.events;
      calls = h.calls;
    };
  }

  one-Logs : (cs : List ComponentBuild) (t : World) → Logs w (one cs) t
  one-Logs [] t h = record { holds = h }
  one-Logs (c ∷ []) t h = record { holds = h }
  one-Logs (c ∷ d ∷ cs) t h = record { holds = h }

  module _ (m : ModuleBuild) (name : String) (previous : ModuleBuild) where
    refuse-Logs :
        (c : ComponentBuild) (text : String) (t : World) → Logs w (refuse m name previous c text) t
    refuse-Logs c text t h =
        Ensures-bind (log_component_message c text) _ t (component-Logs c text t h)
          (λ _ u k. Ensures-pure none u k)

    arches-Logs : (new : ComponentBuild) (t : World) → Logs w (check_arches m name previous new) t
    arches-Logs new t h =
        Ensures-bind (lift (rpm_arches name m.mmd.rpm_arches)) _ t (Ensures-lift _ t (λ _ _. h) h)
          (λ arches u k.
            Ensures-bind (lift (rpm_arches name previous.mmd.rpm_arches)) _ u
              (Ensures-lift _ u (λ _ _. k) k)
              (λ old_arches v l.
                Ensures-if (is_same_set arches old_arches) _ _ v
                  (λ _.
                    Ensures-bind
                      (λ w'.
                        one
                          (filter (λ c. c.package_name == name && c.module_id == previous.id)
                            w'.components)
                          w')
                      (λ c. pure (some c)) v (one-Logs _ v l) (λ c x n. Ensures-pure _ x n))
                  (λ _. refuse-Logs new _ v l)))

    batches-Logs : (new : ComponentBuild) (t : World) → Logs w (check_batches m name previous new) t
    batches-Logs new t h =
        Ensures-bind
          (lift (
            same_batches m.mmd previous.mmd (component_builds m t) (component_builds previous t) 2
              (new.batch - 2)))
          _ t (Ensures-lift _ t (λ _ _. h) h)
          (λ same x n.
            Ensures-if same _ _ x (λ _. arches-Logs new x n) (λ _. refuse-Logs new _ x n))

    strategy-Logs :
        (new prev : ComponentBuild) (t : World) → Logs w (check_strategy m name previous new prev) t
    strategy-Logs new prev t h =
        Ensures-if (is_changed_and_after m.rebuild_strategy) _ _ t
          (λ _.
            Ensures-if (prev.batch == new.batch) _ _ t
              (λ _.
                Ensures-if (m.mmd.rpm_macros == previous.mmd.rpm_macros) _ _ t
                  (λ _. batches-Logs new t h) (λ _. refuse-Logs new _ t h))
              (λ _. refuse-Logs new _ t h))
          (λ _. arches-Logs new t h)

    previous-Logs :
        (new : ComponentBuild) (prev : Option ComponentBuild) (t : World)
        → Logs w (check_previous m name previous new prev) t
    previous-Logs new none t h = refuse-Logs new _ t h
    previous-Logs new (some prev) t h =
        Ensures-if (is_usable (some prev)) _ _ t
          (λ _.
            Ensures-if (prev.ref == new.ref) _ _ t (λ _. strategy-Logs new prev t h)
              (λ _. refuse-Logs new _ t h))
          (λ _. refuse-Logs new _ t h)

    unusable-Logs :
        (t : World)
        → Logs w
            (log_module_message m (unusable_new name) >> pure {A = Option ComponentBuild} none)
            t
    unusable-Logs t h =
        Ensures-bind (log_module_message m (unusable_new name)) _ t (module-Logs m _ t h)
          (λ _ u k. Ensures-pure none u k)

    new-Logs : (new : Option ComponentBuild) (t : World) → Logs w (check_new m name previous new) t
    new-Logs none t h = unusable-Logs t h
    new-Logs (some new) t h =
        Ensures-if (is_usable (some new)) _ _ t
          (λ _. previous-Logs new (from_component_name name previous.id t) t h)
          (λ _. unusable-Logs t h)

    pub check_component-Logs : (t : World) → Logs w (check_component m name previous) t
    unfolding check_component
    check_component-Logs t h = new-Logs (from_component_name name m.id t) t h
