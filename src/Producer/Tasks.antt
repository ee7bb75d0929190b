-- ===== src/Producer/Tasks.antt =====
-- The periodic tasks that `setup_periodic_tasks` of module_build_service/scheduler/producer.py
-- adds, `log_summary` excepted, and `retrigger_new_repo_on_failure`.
use fm_orchestrator.Common.{Option, String, List}
use fm_orchestrator.Exec.{Exec}
use fm_orchestrator.Models.{World}
use fm_orchestrator.Handlers.{Services}
use fm_orchestrator.Producer.{StuckOptions, cancel_stuck_module_builds}
use fm_orchestrator.Producer.Waiting.{process_waiting_module_builds}
use fm_orchestrator.Producer.Lost.{KojiTasks, fail_lost_builds, retrigger_new_repo_on_failure}
use fm_orchestrator.Producer.Paused.{process_paused_module_builds}
use fm_orchestrator.Producer.Targets.{Target, TargetOptions, delete_old_koji_targets}
use fm_orchestrator.Producer.Cleanup.{CleanupOptions, cleanup_stale_failed_builds}
use fm_orchestrator.Producer.Tags.{sync_koji_build_tags}
use fm_orchestrator.Producer.Gating.{poll_greenwave}

-- The options and the services of the tasks.
pub record Deployment : Type 0 where
  pub services : Services
  pub koji : KojiTasks
  pub stuck : StuckOptions
  pub cleanup : CleanupOptions
  pub targets : TargetOptions
  pub build_targets : List Target
  pub list_tags : Option String → List String
  pub polling_interval : String

pub data PeriodicTask : Type 0 where
  waiting_builds lost_builds paused_builds failed_repos old_targets stale_builds stuck_builds
        build_tags gating :
      PeriodicTask

unfoldable pub run_task : Deployment → PeriodicTask → Exec World Unit
unfolding process_waiting_module_builds fail_lost_builds process_paused_module_builds
    retrigger_new_repo_on_failure delete_old_koji_targets cleanup_stale_failed_builds
    cancel_stuck_module_builds sync_koji_build_tags poll_greenwave
run_task d PeriodicTask.waiting_builds = process_waiting_module_builds
run_task d PeriodicTask.lost_builds = fail_lost_builds d.koji d.services.config.system
run_task d PeriodicTask.paused_builds = process_paused_module_builds d.services d.koji
run_task d PeriodicTask.failed_repos = retrigger_new_repo_on_failure d.koji d.services.config.system
run_task d PeriodicTask.old_targets = delete_old_koji_targets d.targets d.build_targets
run_task d PeriodicTask.stale_builds =
    cleanup_stale_failed_builds d.cleanup d.services.create_builder
run_task d PeriodicTask.stuck_builds = cancel_stuck_module_builds d.stuck
run_task d PeriodicTask.build_tags = sync_koji_build_tags d.list_tags d.services.config.system
run_task d PeriodicTask.gating = poll_greenwave d.polling_interval d.services.greenwave
