-- ===== src/Handlers/Lifecycle.antt =====
-- The rows of the module builds through the handlers of module_build_service/scheduler/handlers:
-- what the proofs for the single handlers share.
pub mod Repos
pub mod Tags
pub mod Components
pub mod Modules
pub mod Decision
pub mod All
use fm_orchestrator.Common.{◌≡◌, refl, sym, subst, ℕ, Bool, Option, none, some, String}
use fm_orchestrator.Exec.{Exec, ok, pure, lift, ◌>>=◌, ◌>>◌}
use fm_orchestrator.Exec.Ensures.{
  Ensures, Ensures-pure, Ensures-bind, Ensures-lift, Ensures-of, Ensures-weaken, Ensures-if,
}
use fm_orchestrator.Models.{
  BuildState, FailureType, ModuleBuild, World, Call, Event, commit, transition, call, add_event,
}
use fm_orchestrator.Models.History.{
  EdgeRelation, module_row, Follows, Tracks, Tracks-kept, Tracks-keep, Follows-keep,
  transition-Tracks,
}
use fm_orchestrator.Builder.{Builder}
use fm_orchestrator.Builder.Laws.{RecoverLaws}
use fm_orchestrator.Models.Keys.{module_row-id}
use fm_orchestrator.Handlers.{Services, create_from_module, find_module}

-- Each backend that can be created keeps the rules of `recover_orphaned_artifact`.
pub record BackendLaws (services : Services) : Type 0 where
  pub recover : (m : ModuleBuild) (b : Builder) → services.create_builder m ≡ ok b → RecoverLaws b

-- The code leaves the row with the key `i` with a history from `m`.
abbrev pub Ends : {A : Type 0} → EdgeRelation → ℕ → ModuleBuild → Exec World A → World → Type 0
Ends E i m e w = Ensures (λ _. Follows E i m) (Follows E i m) (e w)

-- The row that a query by its key finds is tracked.
pub row-Tracks :
    (E : EdgeRelation) (i : ℕ) (m : ModuleBuild) (id : ℕ) (n : ModuleBuild) (w : World)
    → some n ≡ find_module id w
    → Follows E i m w
    → Tracks E i m n w
unfolding find_module
row-Tracks E i m id n w q h = record {
  follows = h;
  is_row =
      subst (λ j. module_row j w.modules ≡ some n) (sym (module_row-id id w.modules n (sym q)))
        (sym q);
}

module _ (E : EdgeRelation) (i : ℕ) (m : ModuleBuild) where
  -- Code that leaves the rows of the module builds alone, as the last step.
  pub Ends-kept :
      {A : Type 0} (e : Exec World A) (w : World)
      → (e w).1.modules ≡ w.modules
      → Follows E i m w
      → Ends E i m e w
  Ends-kept e w kept h = Ensures-of (Follows E i m) (e w) (Follows-keep E i m w (e w).1 kept h)

  pub commit-Ends : (w : World) → Follows E i m w → Ends E i m commit w
  unfolding commit
  commit-Ends w h = Ends-kept commit w refl h

  pub call-Ends : (c : Call) (w : World) → Follows E i m w → Ends E i m (call c) w
  unfolding call
  call-Ends c w h = Ends-kept (call c) w refl h

  pub event-Ends : (e : Event) (w : World) → Follows E i m w → Ends E i m (add_event e) w
  unfolding add_event
  event-Ends e w h = Ends-kept (add_event e) w refl h

  pub transition-commit-Ends :
      (n : ModuleBuild) (s : BuildState) (reason : Option String) (f : FailureType) (w : World)
      → E n.id n.state s
      → Tracks E i m n w
      → Ends E i m (transition n s reason f >> commit) w
  transition-commit-Ends n s reason f w edge h =
      Ensures-bind (transition n s reason f) (λ _. commit) w
        (transition-Tracks E i m n s reason f w edge h) (λ n' t k. commit-Ends t k.follows)

  module _ (services : Services) (laws : BackendLaws services) where
    pub create-Tracks :
        (n o : ModuleBuild) (w : World)
        → Tracks E i m n w
        → Ensures
            (λ b t. RecoverLaws b × Tracks E i m n t)
            (Follows E i m)
            (create_from_module services o w)
    unfolding create_from_module call
    create-Tracks n o w h =
        Ensures-bind {P = λ b t. RecoverLaws b × Tracks E i m n t}
          (lift (services.create_builder o)) _ w
          (Ensures-lift (services.create_builder o) w (λ b e. (laws.recover o b e, h)) h.follows)
          (λ b t k. record { holds = (k.0, Tracks-keep E i m n t _ refl k.1) })
