-- ===== src/Examples/Producing.antt =====
-- The theorems on scheduler/producer.py applied to a module build that
-- no message reached for more than a week.
use fm_orchestrator.Common.{Option, String, List, ◌≡◌, refl, arith, ◌∷◌, [], some, if◌then◌else◌}
use fm_orchestrator.Exec.{ok, raised, value_error, for_each}
use fm_orchestrator.Models.{BuildState, ModuleBuild, World}
use fm_orchestrator.Models.History.{module_row}
use fm_orchestrator.Producer.{StuckOptions, is_stuck, cancel_stuck_module_builds}
use fm_orchestrator.Producer.Stuck.{cancelled, cancel_stuck_module_builds-module_row}
use fm_orchestrator.Producer.Waiting.{
  nudge_module_builds_in_state, AreNudged, nudge_module_builds_in_state-AreNudged,
}
use fm_orchestrator.Producer.Cleanup.{
  CleanupOptions, Untagging, AreCollected, clean_up, untag_all, cleanup_stale_failed_builds,
  cleanup_stale_failed_builds-AreCollected,
}
use fm_orchestrator.Producer.Tags.{sync_koji_build_tags, sync_koji_build_tags-stops}
use fm_orchestrator.Producer.Targets.{
  Target, TargetOptions, DeletesOnly, delete_old_koji_targets, delete_old_koji_targets-DeletesOnly,
}
use fm_orchestrator.Producer.Lost.{KojiTasks, TaskState}
use fm_orchestrator.Producer.Tasks.{Deployment, PeriodicTask, run_task}
use fm_orchestrator.Models.Path.{Refines}
use fm_orchestrator.Producer.Lifecycle.{TaskEdge}
use fm_orchestrator.Producer.Lifecycle.All.{run_task-Refines}
use fm_orchestrator.Builder.{System}
use fm_orchestrator.Examples.Handling.{backend_laws}
use fm_orchestrator.Examples.Data.{
  new_module, old_module, store, old_bash, bash, tar, built, services, accepting,
}

abbrev options : StuckOptions
options = record { states = BuildState.init ∷ BuildState.build ∷ []; days = 7; days_text = "7" }

abbrev later : World
later = record store { now = 700000 }

cancel_stuck_module_builds-module_row_example :
    ((cancel_stuck_module_builds options later).0 ≡ ok tt)
    × (module_row 2 (cancel_stuck_module_builds options later).1.modules
        ≡ some (
            if is_stuck options 700000 new_module
            then cancelled options 700000 new_module
            else new_module))
cancel_stuck_module_builds-module_row_example =
    cancel_stuck_module_builds-module_row options 2 new_module later (omega arith, (tt, tt)) refl

abbrev waiting_store : World
waiting_store = record later {
  modules = old_module ∷ record new_module { state = BuildState.wait } ∷ [];
}

nudge_module_builds_in_state-AreNudged_example :
    ((nudge_module_builds_in_state BuildState.wait 10 waiting_store).0 ≡ ok tt)
    × AreNudged BuildState.wait 10 waiting_store
        (nudge_module_builds_in_state BuildState.wait 10 waiting_store).1
nudge_module_builds_in_state-AreNudged_example =
    nudge_module_builds_in_state-AreNudged BuildState.wait 10 waiting_store (omega arith)
      (omega arith, (tt, tt))

abbrev cleanup_options : CleanupOptions
cleanup_options = record { system = System.koji; days = 3; days_text = "3" }

-- A failed build, of which a component was built and tagged.
abbrev failed_store : World
failed_store = record later {
  modules = old_module ∷ record new_module { state = BuildState.failed } ∷ [];
  components = old_bash ∷ built bash ∷ tar ∷ [];
}

untags : Untagging services.create_builder
untags m = (accepting, refl, λ nvrs. refl)

cleanup_stale_failed_builds-AreCollected_example :
    ((cleanup_stale_failed_builds cleanup_options services.create_builder failed_store).0 ≡ ok tt)
    × AreCollected cleanup_options services.create_builder untags failed_store
        (cleanup_stale_failed_builds cleanup_options services.create_builder failed_store).1
cleanup_stale_failed_builds-AreCollected_example =
    cleanup_stale_failed_builds-AreCollected cleanup_options services.create_builder untags
      failed_store refl (omega arith, (tt, tt))
      ((omega arith, (omega arith, tt)), ((omega arith, tt), (tt, tt)))

-- Koji lists no tag.
abbrev no_tags : Option String → List String
no_tags nvr = []

-- A build without components, in no batch, and behind it another one.
abbrev unbatched_store : World
unbatched_store = record later {
  modules = record new_module { id = 1; batch = 0 } ∷ new_module ∷ [];
}

sync_koji_build_tags-stops_example :
    ((sync_koji_build_tags no_tags System.koji unbatched_store).0 ≡ raised value_error)
    × ((sync_koji_build_tags no_tags System.koji unbatched_store).1.broker ≡ [])
sync_koji_build_tags-stops_example =
    sync_koji_build_tags-stops no_tags System.koji unbatched_store refl
      (("module-testmodule", refl), (("module-testmodule", refl), tt))

abbrev old_target : Target
old_target = record { id = 5; name = "module-old"; dest_tag_name = "module-old" }

abbrev target_options : TargetOptions
target_options = record {
  system = System.koji;
  base_module_names = "platform" ∷ [];
  koji_tag_prefixes = "module" ∷ [];
  koji_target_delete_time = 86400;
}

delete_old_koji_targets-DeletesOnly_example :
    DeletesOnly target_options later
      (delete_old_koji_targets target_options (old_target ∷ []) later).1
delete_old_koji_targets-DeletesOnly_example =
    delete_old_koji_targets-DeletesOnly target_options later (old_target ∷ [])

-- All tasks are closed, and the next one is number 8.
abbrev koji_tasks : KojiTasks
koji_tasks = record {
  task_state = λ id. TaskState.closed;
  list_builds = λ id. [];
  tag_name = λ tag. tag;
  new_repo = λ tag. 8;
}

abbrev deployment : Deployment
deployment = record {
  services = services;
  koji = koji_tasks;
  stuck = options;
  cleanup = cleanup_options;
  targets = target_options;
  build_targets = old_target ∷ [];
  list_tags = no_tags;
  polling_interval = "10";
}

run_task-Refines_example :
    (n : ModuleBuild) × (module_row 2
        (run_task deployment PeriodicTask.stale_builds failed_store).1.modules
      ≡ some n)
    × Refines TaskEdge (record new_module { state = BuildState.failed }) n
run_task-Refines_example =
    run_task-Refines 2 (record new_module { state = BuildState.failed }) deployment backend_laws
      PeriodicTask.stale_builds failed_store (omega arith, (tt, tt)) refl

-- Koji takes no tag away, and the failed build stays failed.
refused_run :
    (run_task
      (record deployment {
        services = record services {
          create_builder =
              λ m. ok (record accepting { untag_artifacts = λ nvrs. raised value_error });
        };
      })
      PeriodicTask.stale_builds
      failed_store).0
    ≡ raised value_error
unfolding run_task cleanup_stale_failed_builds clean_up untag_all for_each
refused_run = refl
