-- ===== src/Producer/Lifecycle.antt =====
-- The rows of the module builds through the periodic tasks of
-- module_build_service/scheduler/producer.py: the tasks that ask Koji.
pub mod All
mod Stale
use fm_orchestrator.Common.{
  ◌≡◌, refl, sym, ◌∙◌, ap, subst, ℕ, Bool, true, false, not, ◌&&◌, Option, none, some, String, List,
  filter, if◌then◌else◌, inl, inr, ◌⊎◌, arith, Bool-cases, Option-cases,
}
use fm_orchestrator.Exec.{Exec, Result, ok, pure, raise, ◌>>=◌, ◌>>◌, for_each}
use fm_orchestrator.Exec.Ensures.{
  Ensures, Ensures-always, Ensures-if, Ensures-of, Ensures-bind, Ensures-for_each,
}
use fm_orchestrator.Models.{
  BuildState, KojiState, is_building, is_tagged, current_batch, ModuleBuild, ComponentBuild, World,
  Call, Delayed, call, delay, put_module, commit, transitioned,
}
use fm_orchestrator.Models.History.{
  EdgeRelation, Follows, Follows-keep, Tracks, Moves, put-Tracks, transitioned-IsStep,
}
use fm_orchestrator.Models.Update.{update-Follows, update_where}
use fm_orchestrator.Builder.{System, Builder, is_truthy_id}
use fm_orchestrator.Handlers.{find_module, required}
use fm_orchestrator.Handlers.Lifecycle.{BackendLaws, Ends, commit-Ends, Ends-kept, row-Tracks}
use fm_orchestrator.Producer.{is_stuck, stuck_reason}
use fm_orchestrator.Producer.Stuck.{cancelled, cancelled-id, cancel_stuck_module_builds-modules}
use fm_orchestrator.Producer.Waiting.{
  is_due, touched, nudge_module_builds_in_state, process_waiting_module_builds,
  nudge_module_builds_in_state-AreNudged,
}
use fm_orchestrator.Producer.Lost.{
  KojiTasks, waits_for_repo, is_lost, check_building, report_state, check_task, retrigger,
  retrigger_for, start_another, fail_lost_builds, retrigger_new_repo_on_failure, final_state,
}
use fm_orchestrator.Producer.Targets.{delete_old_koji_targets-DeletesOnly}
use fm_orchestrator.Producer.Cleanup.{is_koji}
use fm_orchestrator.Producer.Tags.{
  is_overdue, send_tags, sync_component, sync_module, sync_koji_build_tags,
}
use fm_orchestrator.Producer.Gating.{
  waits_for_gate, gated, gated-id, poll_greenwave, poll_greenwave-modules,
}
use fm_orchestrator.Producer.Paused.{process_paused_module_builds-Ends, current_batch-same}
use fm_orchestrator.Producer.Tasks.{Deployment, PeriodicTask, run_task}

-- The changes of state that a task may make.
pub data TaskEdge : BuildState → BuildState → Type 0 where
  fails : (s : BuildState) → TaskEdge s BuildState.failed
  passes : TaskEdge BuildState.done BuildState.ready
  collects : TaskEdge BuildState.failed BuildState.garbage

abbrev pub task_edge : EdgeRelation
task_edge id s t = TaskEdge s t

module _ (i : ℕ) (m : ModuleBuild) where
  abbrev Keeps : World → Type 0
  Keeps = Follows task_edge i m

  kept-Ends :
      {A : Type 0} (e : Exec World A) (w : World)
      → (e w).1.modules ≡ w.modules
      → Keeps w
      → Ends task_edge i m e w
  kept-Ends e w = Ends-kept task_edge i m e w

  check_building-modules :
      (koji : KojiTasks) (c : ComponentBuild) (w : World)
      → (check_building koji c w).1.modules ≡ w.modules
  unfolding check_building delay
  check_building-modules koji c w = ground (arith, check c.task_id)
    where
      reported :
          (task_id : ℕ) (s : Option KojiState)
          → (report_state koji c task_id s w).1.modules ≡ w.modules
      reported task_id none = refl
      reported task_id (some s) = refl

      check : (task_id : Option ℕ) → (check_task koji c task_id w).1.modules ≡ w.modules
      check none = refl
      check (some task_id) = reported task_id (final_state (koji.task_state task_id))

  pub lost_builds-Ends :
      (koji : KojiTasks) (s : System) (w : World)
      → Keeps w
      → Ends task_edge i m (fail_lost_builds koji s) w
  unfolding fail_lost_builds
  lost_builds-Ends koji s w h =
      Ensures-if (is_koji s) _ _ w
        (λ _.
          Ensures-for_each Keeps (check_building koji)
            (λ c u k. kept-Ends (check_building koji c) u (check_building-modules koji c u) k)
            (filter is_building w.components) w h)
        (λ _. record { holds = h })

  retrigger_for-Ends :
      (koji : KojiTasks) (n : ModuleBuild) (task_id : Option ℕ) (w : World)
      → Tracks task_edge i m n w
      → Ends task_edge i m (retrigger_for koji n task_id) w
  unfolding call put_module
  retrigger_for-Ends koji n none w h = record { holds = h.follows }
  retrigger_for-Ends koji n (some task_id) w h =
      Ensures-if (is_lost koji (koji.task_state task_id)) _ _ w (λ _. another n.koji_tag)
        (λ _. record { holds = h.follows })
    where
      another : (tag : Option String) → Ends task_edge i m (start_another koji n tag) w
      another none = record { holds = h.follows }
      another (some tag) = record {
        holds =
            (put-Tracks task_edge i m n _ w _ h
              (inl (record { same_id = refl; same_state = refl; same_trace = refl })) refl).follows;
      }

  retrigger-Ends :
      (koji : KojiTasks) (n : ModuleBuild) (w : World)
      → Keeps w
      → Ends task_edge i m (retrigger koji n) w
  unfolding retrigger
  retrigger-Ends koji n w h = found (find_module n.id w) refl
    where
      found :
          (o : Option ModuleBuild)
          → o ≡ find_module n.id w
          → Ends task_edge i m
              (λ t. (required o >>= λ k. retrigger_for koji k k.new_repo_task_id) t)
              w
      found none e = record { holds = h }
      found (some o) e =
          retrigger_for-Ends koji o o.new_repo_task_id w (row-Tracks task_edge i m n.id o w e h)

  pub failed_repos-Ends :
      (koji : KojiTasks) (s : System) (w : World)
      → Keeps w
      → Ends task_edge i m (retrigger_new_repo_on_failure koji s) w
  unfolding retrigger_new_repo_on_failure
  failed_repos-Ends koji s w h =
      Ensures-if (is_koji s) _ _ w
        (λ _.
          Ensures-bind (for_each (retrigger koji) (filter (waits_for_repo koji) w.modules)) _ w
            (Ensures-for_each Keeps (retrigger koji) (retrigger-Ends koji)
              (filter (waits_for_repo koji) w.modules) w h)
            (λ _ t k. commit-Ends task_edge i m t k))
        (λ _. record { holds = h })

  send_tags-modules :
      (tag : Option String) (tags : List String) (c : ComponentBuild) (w : World)
      → (send_tags tag tags c w).1.modules ≡ w.modules
  unfolding send_tags delay
  send_tags-modules none tags c w = refl
  send_tags-modules (some tag) tags c w = ground arith

  module _ (list_tags : Option String → List String) where
    sync_component-Ends :
        (n : ModuleBuild) (c : ComponentBuild) (w : World)
        → Keeps w
        → Ends task_edge i m (sync_component list_tags n c) w
    unfolding sync_component
    sync_component-Ends n c w h =
        Ensures-if (is_tagged c) _ _ w (λ _. record { holds = h })
          (λ _.
            kept-Ends (send_tags n.koji_tag (list_tags c.nvr) c) w
              (send_tags-modules n.koji_tag (list_tags c.nvr) c w) h)

    sync_module-Ends :
        (n : ModuleBuild) (w : World) → Keeps w → Ends task_edge i m (sync_module list_tags n) w
    unfolding sync_module
    sync_module-Ends n w h =
        Ensures-bind (current_batch n (some KojiState.complete)) _ w
          (kept-Ends (current_batch n (some KojiState.complete)) w
            (ap (λ t. t.modules) (current_batch-same n (some KojiState.complete) w)) h)
          (λ cs t k.
            Ensures-for_each Keeps (sync_component list_tags n) (sync_component-Ends n) cs t k)

    pub build_tags-Ends :
        (s : System) (w : World) → Keeps w → Ends task_edge i m (sync_koji_build_tags list_tags s) w
    unfolding sync_koji_build_tags
    build_tags-Ends s w h =
        Ensures-if (is_koji s) _ _ w
          (λ _.
            Ensures-for_each Keeps (sync_module list_tags) sync_module-Ends
              (filter (is_overdue w.now) w.modules) w h)
          (λ _. record { holds = h })
