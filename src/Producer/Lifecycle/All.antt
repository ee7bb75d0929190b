-- ===== src/Producer/Lifecycle/All.antt =====
-- The rows of the module builds through every periodic task of
-- module_build_service/scheduler/producer.py.
use fm_orchestrator.Common.{
  ◌≡◌, refl, sym, subst, ℕ, Bool, true, not, ◌&&◌, Option, none, some, nat_eq, ◌==◌, inl, inr,
  arith, Bool-cases,
}
use fm_orchestrator.Exec.Ensures.{Ensures-always, Ensures-of, Ensures-bind}
use fm_orchestrator.Models.{BuildState, state_code, ModuleBuild, World}
use fm_orchestrator.Models.History.{
  start, module_row, Follows, Follows-keep, Moves, transitioned-IsStep,
}
use fm_orchestrator.Models.Update.{update-Follows}
use fm_orchestrator.Handlers.{Gate}
use fm_orchestrator.Handlers.Lifecycle.{BackendLaws}
use fm_orchestrator.Producer.{cancel_stuck_module_builds, is_stuck}
use fm_orchestrator.Producer.Stuck.{cancelled, cancelled-id, cancel_stuck_module_builds-modules}
use fm_orchestrator.Producer.Waiting.{
  is_due, touched, nudge_module_builds_in_state, process_waiting_module_builds,
  nudge_module_builds_in_state-AreNudged,
}
use fm_orchestrator.Producer.Targets.{delete_old_koji_targets-DeletesOnly}
use fm_orchestrator.Producer.Gating.{
  waits_for_gate, gated, gated-id, poll_greenwave, poll_greenwave-modules,
}
use fm_orchestrator.Producer.Paused.{process_paused_module_builds-Ends}
use fm_orchestrator.Producer.Tasks.{Deployment, PeriodicTask, run_task}
use fm_orchestrator.Producer.Lifecycle.Stale.{stale_builds-Ends}
use fm_orchestrator.Models.Keys.{HasDistinctKeys}
use fm_orchestrator.Models.Path.{Refines, History-Refines}
use fm_orchestrator.Producer.Lifecycle.{
  TaskEdge, fails, passes, task_edge, lost_builds-Ends, failed_repos-Ends, build_tags-Ends,
}

done_state :
    (n : ModuleBuild) (b : Bool)
    → ((state_code n.state == state_code BuildState.done) && b) ≡ true
    → n.state ≡ BuildState.done
done_state n b h = ground arith

module _ (i : ℕ) (m : ModuleBuild) where
  nudge-Follows :
      (state : BuildState) (w : World)
      → Follows task_edge i m w
      → Follows task_edge i m (nudge_module_builds_in_state state 10 w).1
  nudge-Follows state w h =
      update-Follows task_edge i m w _ (is_due state 10 w.now) (touched w.now)
        (nudge_module_builds_in_state-AreNudged state 10 w (omega arith) h.keys).1.modules
        (λ n e. inl (record { same_id = refl; same_state = refl; same_trace = refl })) (λ _. refl) h

  waiting_builds-Follows :
      (w : World)
      → Follows task_edge i m w
      → Follows task_edge i m (process_waiting_module_builds w).1
  unfolding process_waiting_module_builds
  waiting_builds-Follows w h = Ensures-always (Follows task_edge i m) _ (
      Ensures-bind (nudge_module_builds_in_state BuildState.init 10) _ w
        (Ensures-of (Follows task_edge i m) _ (nudge-Follows BuildState.init w h))
        (λ _ t k. Ensures-of (Follows task_edge i m) _ (nudge-Follows BuildState.wait t k)))

  module _ (d : Deployment) where
    stuck_builds-Follows :
        (w : World)
        → Follows task_edge i m w
        → Follows task_edge i m (cancel_stuck_module_builds d.stuck w).1
    stuck_builds-Follows w h =
        update-Follows task_edge i m w _ (is_stuck d.stuck w.now) (cancelled d.stuck w.now)
          (cancel_stuck_module_builds-modules d.stuck w h.keys).1
          (λ n e. inr (transitioned-IsStep task_edge n BuildState.failed _ w.now (fails n.state)))
          (cancelled-id d.stuck w.now) h

    gated-Moves :
        (gate : Gate) (now : ℕ) (n : ModuleBuild)
        → waits_for_gate n ≡ true
        → Moves task_edge n (gated d.polling_interval gate now n)
    gated-Moves gate now n e = elim (Bool-cases (gate.check_gating n)) [
      | inl h ↦ rw h (
          inr (
            transitioned-IsStep task_edge n BuildState.ready none now (
              subst (λ s. TaskEdge s BuildState.ready) (sym (done_state n (not n.scratch) e))
                passes)))
      | inr h ↦ rw h (inl (record { same_id = refl; same_state = refl; same_trace = refl }))
    ]

    gating-Follows :
        (gate : Option Gate) (w : World)
        → Follows task_edge i m w
        → Follows task_edge i m (poll_greenwave d.polling_interval gate w).1
    unfolding poll_greenwave
    gating-Follows none w h = h
    gating-Follows (some gate) w h =
        update-Follows task_edge i m w _ waits_for_gate (gated d.polling_interval gate w.now)
          (poll_greenwave-modules d.polling_interval gate w h.keys).1 (gated-Moves gate w.now)
          (gated-id d.polling_interval gate w.now) h

    run_task-Follows :
        BackendLaws d.services
        → (task : PeriodicTask) (w : World) → Follows task_edge i m w
        → Follows task_edge i m (run_task d task w).1
    unfolding run_task
    run_task-Follows laws PeriodicTask.waiting_builds w h = waiting_builds-Follows w h
    run_task-Follows laws PeriodicTask.lost_builds w h =
        Ensures-always (Follows task_edge i m) _ (lost_builds-Ends i m d.koji _ w h)
    run_task-Follows laws PeriodicTask.paused_builds w h =
        Ensures-always (Follows task_edge i m) _ (
          process_paused_module_builds-Ends d.services d.koji laws task_edge i m (λ id s. fails s) w
            h)
    run_task-Follows laws PeriodicTask.failed_repos w h =
        Ensures-always (Follows task_edge i m) _ (failed_repos-Ends i m d.koji _ w h)
    run_task-Follows laws PeriodicTask.old_targets w h =
        Follows-keep task_edge i m w _
          (delete_old_koji_targets-DeletesOnly d.targets w d.build_targets).modules h
    run_task-Follows laws PeriodicTask.stale_builds w h =
        Ensures-always (Follows task_edge i m) _
          (stale_builds-Ends d.cleanup d.services.create_builder i m w h)
    run_task-Follows laws PeriodicTask.stuck_builds w h = stuck_builds-Follows w h
    run_task-Follows laws PeriodicTask.build_tags w h =
        Ensures-always (Follows task_edge i m) _ (build_tags-Ends i m d.list_tags _ w h)
    run_task-Follows laws PeriodicTask.gating w h = gating-Follows d.services.greenwave w h

    -- A periodic task leaves the row of a module build there, however the task ends, and takes it
    -- along the abstract life cycle of the tasks: a build fails from any state, becomes ready
    -- from "done", and is collected as garbage from "failed"; nothing leads to "init", "wait",
    -- "build" or "done". The trace of the row grows by exactly the states on the way, in their
    -- order. The keys are distinct, and the backends that can be created keep the rules of
    -- recover_orphaned_artifact.
    pub run_task-Refines :
        BackendLaws d.services
        → (task : PeriodicTask) (w : World) → HasDistinctKeys w.modules
        → module_row i w.modules ≡ some m
        → (n : ModuleBuild) × (module_row i (run_task d task w).1.modules ≡ some n)
          × Refines TaskEdge m n
    run_task-Refines laws task w keys row =
        let h =
          run_task-Follows laws task w
            (record { current = m; row = row; past = start; keys = keys }) in
        (h.current, h.row, History-Refines TaskEdge m h.current h.past)
