-- ===== src/Examples/Handling.antt =====
-- The theorems on scheduler/handlers applied to the module build.
use fm_orchestrator.Common.{strip_suffix, some, ◌≡◌, refl, subst, arith, true, none}
use fm_orchestrator.Exec.{ok}
use fm_orchestrator.Models.{
  Event, get_by_tag, component_builds, current_batch, up_to_current_batch, transition, put_module,
  commit, call, transitioned, put_module_row,
}
use fm_orchestrator.Models.History.{Follows, module_row}
use fm_orchestrator.Builder.{Builder, Submission}
use fm_orchestrator.Builder.Laws.{RecoverLaws, koji_RecoverLaws}
use fm_orchestrator.Handlers.{
  Task, perform, decision_update, repos_done, regenerated, is_ignored, check_good,
  finish_or_continue, create_from_module,
}
use fm_orchestrator.Handlers.Lifecycle.{BackendLaws}
use fm_orchestrator.Handlers.Lifecycle.All.{Edge, IsBuilt, perform-Follows, perform-IsBuilt}
use fm_orchestrator.Handlers.Lifecycle.Decision.{Outcome, decision_update-promotes}
use fm_orchestrator.Examples.Data.{
  last_batch, built_store, done_module, new_module, store, done_store, session, accepting,
  build_reply, services,
}

accepting_laws : RecoverLaws accepting
accepting_laws =
    koji_RecoverLaws session new_module (λ _ _. Submission.submitted build_reply) (λ _. none)
      (λ _. true) (λ _. ok tt)

ok_injective : (a b : Builder) → ok a ≡ ok b → a ≡ b
ok_injective a b e = cc

created : (b : Builder) → ok accepting ≡ ok b → RecoverLaws b
created b e = subst RecoverLaws (ok_injective accepting b e) accepting_laws

pub backend_laws : BackendLaws services
backend_laws = record { recover = λ m b e. created b e }

-- The repository of the module build is regenerated.
abbrev regenerated_repo : Task
regenerated_repo = Task.event (Event.repos_done "msg" "module-testmodule-build")

perform-Follows_example :
    Follows
      (Edge services store regenerated_repo)
      2
      new_module
      (perform services regenerated_repo store).1
perform-Follows_example =
    perform-Follows services backend_laws 2 new_module store (omega arith, (tt, tt))
      regenerated_repo refl

done_after :
    module_row 2 (perform services regenerated_repo built_store).1.modules ≡ some done_module
unfolding perform repos_done regenerated is_ignored check_good finish_or_continue create_from_module
    get_by_tag component_builds current_batch up_to_current_batch transition put_module commit call
    strip_suffix transitioned put_module_row
done_after = refl

perform-IsBuilt_example : IsBuilt built_store regenerated_repo 2
perform-IsBuilt_example =
    perform-IsBuilt services backend_laws 2 last_batch built_store (omega arith, (tt, tt))
      regenerated_repo done_module refl done_after (λ e. cc) refl

decision_update-promotes_example :
    Outcome services "osci" "testmodule-master-2.c1" true done_store
      (decision_update services "osci" "testmodule-master-2.c1" true done_store).1
decision_update-promotes_example =
    decision_update-promotes services "osci" "testmodule-master-2.c1" true done_store
