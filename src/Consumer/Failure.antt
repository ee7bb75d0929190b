-- ===== src/Consumer/Failure.antt =====
-- What `process_message` of module_build_service/scheduler/consumer.py leaves where a handler
-- raises.
use fm_orchestrator.Common.{
  ◌≡◌, refl, ℕ, some, String, [], ◌∷◌, ◌++◌, Bool-cases, inl, inr, nat_eq, ◌==◌,
}
use fm_orchestrator.Exec.{Exec, Result, ok, raised, Error}
use fm_orchestrator.Models.{
  BuildState, FailureType, ModuleBuild, World, put_module, put_module_row, rollback, commit,
  transition, transitioned, state_code,
}
use fm_orchestrator.Models.History.{module_row}
use fm_orchestrator.Handlers.{Services, find_module}
use fm_orchestrator.Consumer.{EventInfo, map_message, fail_build, except_fail, process_message}

-- The store `t` is the one of the last commit before `w`, with the module build failed there for
-- the reason `text`, and all of it committed.
pub record IsFailedFrom (w : World) (n : ModuleBuild) (text : String) (t : World) : Type 0 where
  pub modules :
      t.modules
      ≡ put_module_row (transitioned n BuildState.failed (some text) w.now) w.saved.modules
  pub components : t.components ≡ w.saved.components
  pub failures : t.failures ≡ w.failures ++ FailureType.infra ∷ []
  pub modules_committed : t.saved.modules ≡ t.modules
  pub components_committed : t.saved.components ≡ t.components
  pub all_sent : t.out_queue ≡ []

module _ (services : Services) (module_init module_wait : ℕ → Exec World Unit)
    (error_text : Error → String) where
  fail_found :
      (m n : ModuleBuild) (e : Error) (w : World)
      → module_row m.id w.saved.modules ≡ some n
      → ((fail_build services module_init module_wait error_text m e w).0 ≡ raised e)
        × IsFailedFrom w n
            (error_text e)
            (fail_build services module_init module_wait error_text m e w).1
  unfolding fail_build rollback find_module transition put_module commit
  fail_found m n e w row =
      rw row (elim (Bool-cases (state_code n.state == state_code BuildState.failed)) [
        | inl same ↦ rw same (
          refl,
          record {
            modules = refl;
            components = refl;
            failures = refl;
            modules_committed = refl;
            components_committed = refl;
            all_sent = refl;
          },
        )
        | inr other ↦ rw other (
          refl,
          record {
            modules = refl;
            components = refl;
            failures = refl;
            modules_committed = refl;
            components_committed = refl;
            all_sent = refl;
          },
        )
      ])

  raised-except :
      (m n : ModuleBuild) (r : Result Unit) (e : Error) (w : World)
      → r ≡ raised e
      → module_row m.id w.saved.modules ≡ some n
      → ((except_fail services module_init module_wait error_text m r w).0 ≡ raised e)
        × IsFailedFrom w n
            (error_text e)
            (except_fail services module_init module_wait error_text m r w).1
  raised-except m n r e w q row = rw q (fail_found m n e w row)

  -- Where the handler that process_message calls for a module build, with the run of the event
  -- scheduler that belongs to it, raises, the exception is raised again, and the rows of the
  -- module builds and of the component builds are those of the last commit, except that the
  -- module build is failed with the text of the exception as the reason and counted as an
  -- infrastructure failure; these rows are committed, and no message waits. The module build has
  -- a row at the last commit.
  pub process_message-IsFailedFrom :
      (event_info : EventInfo) (handler : Exec World Unit) (m n : ModuleBuild) (e : Error)
      (w t : World)
      → map_message services module_init module_wait error_text event_info w
        ≡ (ok (some handler, some m), t)
      → (handler t).0 ≡ raised e
      → module_row m.id (handler t).1.saved.modules ≡ some n
      → (let after = process_message services module_init module_wait error_text event_info w in
          (after.0 ≡ raised e) × IsFailedFrom (handler t).1 n (error_text e) after.1)
  unfolding process_message
  process_message-IsFailedFrom event_info handler m n e w t found raises row =
      rw found (raised-except m n (handler t).0 e (handler t).1 raises row)
