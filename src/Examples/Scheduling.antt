-- ===== src/Examples/Scheduling.antt =====
-- The theorems on scheduler/batches.py and scheduler/reuse.py applied to the module build.
use fm_orchestrator.Common.{◌≡◌, ◌≤◌, ◌↔◌, refl, max, arith, true, false, none, some, []}
use fm_orchestrator.Exec.{ok, raised, pure, raise, type_error, recursion_error}
use fm_orchestrator.Models.{
  RebuildStrategy, KojiState, ModuleBuild, ComponentBuild, put_module, commit, component_builds,
  log_component_message, log_module_message,
}
use fm_orchestrator.Models.Table.{find_row}
use fm_orchestrator.Builder.{Submission}
use fm_orchestrator.Exec.Ensures.{Ensures}
use fm_orchestrator.Builder.Koji.{recover_orphaned_artifact}
use fm_orchestrator.Builder.Laws.{
  Recovered, Attempted, RecoverLaws, recover_orphaned_artifact-Recovered, koji_RecoverLaws,
}
use fm_orchestrator.Reuse.{
  check_component, same_batches, from_component_name, attempt_to_reuse_all_components,
  get_reusable_module, reusable_pairs, get_reusable_component, find_previous, latest,
}
use fm_orchestrator.Reuse.AllOrNothing.{SameBuilds, attempt_to_reuse_all_components-false}
use fm_orchestrator.Reuse.Verdict.{IsReusable, check_component_iff}
use fm_orchestrator.Batches.{
  active_count, continue_batch_build, start_next_batch_build, start_build_component,
}
use fm_orchestrator.Batches.Bound.{HasLimit}
use fm_orchestrator.Batches.Bound.Continue.{continue_batch_build-bounded}
use fm_orchestrator.Batches.Termination.{start_next_batch_build-terminates}
use fm_orchestrator.Batches.Submission.{start_build_component_rejected}
use fm_orchestrator.Batches.Guard.{start_next_batch_build-guarded}
use fm_orchestrator.Batches.Modules.{continue_batch_build-modules}
use fm_orchestrator.Examples.Data.{
  new_module, old_module, old_bash, bash, store, config, session, backend, accepting, refusing,
  build_reply, reuse_env,
}

laws : (answer : Submission) → RecoverLaws (backend answer)
laws answer =
    koji_RecoverLaws session new_module (λ _ _. answer) (λ _. none) (λ _. true) (λ _. ok tt)

found_bash : find_row 3 store.components ≡ some bash
unfolding find_row
found_bash = refl

limit : HasLimit config
limit = record { not_mock = refl; positive = omega arith }

continue_batch_build-bounded_example :
    active_count (continue_batch_build config new_module accepting [] store).1
    ≤ max config.num_concurrent_builds (active_count store)
continue_batch_build-bounded_example =
    continue_batch_build-bounded config accepting (laws (Submission.submitted build_reply)) limit
      new_module [] store
      (
        (omega arith, (omega arith, (omega arith, tt))),
        ((omega arith, (omega arith, tt)), ((omega arith, tt), (tt, tt))),
      )
      (tt, tt)

check_component_iff_example :
    ((check_component new_module "bash" old_module store).0 ≡ ok (some old_bash))
    ↔ IsReusable new_module "bash" old_module store old_bash
check_component_iff_example = check_component_iff new_module "bash" old_module store old_bash

start_next_batch_build-terminates_example :
    start_next_batch_build config reuse_env accepting
      (λ m. raise recursion_error)
      2
      new_module
      []
      store
    ≡ start_next_batch_build config reuse_env accepting (λ m. pure m) 2 new_module [] store
unfolding component_builds
start_next_batch_build-terminates_example =
    start_next_batch_build-terminates config reuse_env accepting (λ m. raise recursion_error)
      (λ m. pure m) 1 new_module [] store
      (λ _. (omega arith, omega arith), (λ _. (omega arith, omega arith), tt))

start_build_component_rejected_example :
    let after = start_build_component refusing bash store in
    (after.0 ≡ raised type_error)
    × ((d : ComponentBuild) × (find_row 3 after.1.components ≡ some d)
        × (d.state ≡ some KojiState.failed))
    × (after.1.modules ≡ store.modules)
    × (after.1.out_queue ≡ store.out_queue)
    × (after.1.failures ≡ store.failures)
start_build_component_rejected_example =
    start_build_component_rejected refusing bash store tt found_bash

continue_batch_build-modules_example :
    (continue_batch_build config new_module accepting [] store).1.modules ≡ store.modules
continue_batch_build-modules_example =
    continue_batch_build-modules accepting config (laws (Submission.submitted build_reply))
      new_module [] store

-- The earlier build of bash can be reused.
bash_reusable : (check_component new_module "bash" old_module store).0 ≡ ok (some old_bash)
unfolding check_component from_component_name same_batches component_builds log_component_message
    log_module_message
bash_reusable = refl

start_next_batch_build-guarded_example :
    (start_next_batch_build config reuse_env accepting
      (λ m. raise recursion_error)
      1
      new_module
      []
      store).1.modules
    ≡ store.modules
unfolding component_builds
start_next_batch_build-guarded_example =
    start_next_batch_build-guarded config reuse_env accepting
      (laws (Submission.submitted build_reply)) (λ m. raise recursion_error) 0 new_module [] store
      refl

-- A strategy under which nothing is reused.
abbrev all_module : ModuleBuild
all_module = record new_module { rebuild_strategy = RebuildStrategy.all_components }

attempt_all :
    (attempt_to_reuse_all_components reuse_env all_module store).0
    ≡ ok (record all_module { reused_module_id = some 1 }, false)
unfolding attempt_to_reuse_all_components get_reusable_module reusable_pairs get_reusable_component
    find_previous latest component_builds log_module_message put_module commit
attempt_all = refl

attempt_to_reuse_all_components-false_example :
    SameBuilds store (attempt_to_reuse_all_components reuse_env all_module store).1
attempt_to_reuse_all_components-false_example =
    attempt_to_reuse_all_components-false reuse_env all_module
      (record all_module { reused_module_id = some 1 }) store attempt_all

recover_orphaned_artifact-Recovered_example :
    Ensures
      (Recovered bash store)
      (Attempted bash store)
      (recover_orphaned_artifact session new_module bash store)
recover_orphaned_artifact-Recovered_example =
    recover_orphaned_artifact-Recovered session new_module bash store
